-- ===== src/Validator/Drained.antt =====
-- What sealing takes from the front of the validator's queue, and the names that it gives.
use catalyst_svm.Prelude.{
  ℕ, zero, suc, ◌+◌, ◌-◌, ◌≤◌, ◌≡◌, refl, sym, ◌∙◌, ap, List, [], ◌∷◌, ◌++◌, append_assoc,
  append-nil, map, map-append, length, length-take, take-append-drop, min, arith, some, true, false,
  Bool, wrap64,
}
use catalyst_svm.Prelude.Float.{Float}
use catalyst_svm.Text.{Text}
use catalyst_svm.Common.Types.{Transaction}
use catalyst_svm.Policy.Engine.{should_seal}
use catalyst_svm.Validator.{
  Validator, ValidatorState, SealedBatch, drain, drained_if, seal_queue, seal,
}

-- The transactions of the batches, one batch after the other.
unfoldable pub flattened : List SealedBatch → List Transaction
flattened [] = []
flattened ((id, txs) ∷ bs) = txs ++ flattened bs

flattened-append : (bs cs : List SealedBatch) → flattened (bs ++ cs) ≡ flattened bs ++ flattened cs
unfolding flattened
flattened-append [] cs = refl
flattened-append ((id, txs) ∷ bs) cs =
    ap (λ r. txs ++ r) (flattened-append bs cs)
    ∙ sym (append_assoc txs (flattened bs) (flattened cs))

pub flattened_snoc :
    (bs : List SealedBatch) (b : SealedBatch) (rest : List Transaction)
    → flattened (bs ++ (b ∷ [])) ++ rest ≡ flattened bs ++ (b.1 ++ rest)
unfolding flattened
flattened_snoc bs (id, txs) rest =
    ap (λ xs. xs ++ rest) (flattened-append bs ((id, txs) ∷ []))
    ∙ append_assoc (flattened bs) (txs ++ []) rest
    ∙ ap (λ xs. flattened bs ++ (xs ++ rest)) (append-nil txs)

length-snoc : {A : Type 0} (xs : List A) (x : A) → length (xs ++ (x ∷ [])) ≡ suc (length xs)
length-snoc [] x = refl
length-snoc (y ∷ xs) x = ap suc (length-snoc xs x)

-- The names that a counter of 64 bits gives to the first `n`.
unfoldable pub numbered : (ℕ → Text) → ℕ → List Text
numbered f zero = []
numbered f (suc n) = numbered f n ++ (f (wrap64 (suc n)) ∷ [])

-- What a drain takes and leaves is what there was, and it takes no more than it may.
pub drain_splits :
    (size : ℕ) (s : ValidatorState)
    → (drain size s).0.1 ++ (drain size s).1.pending_txs ≡ s.pending_txs
unfolding drain
drain_splits size s = take-append-drop (min (length s.pending_txs) size) s.pending_txs

pub drain_bounded : (size : ℕ) (s : ValidatorState) → length (drain size s).0.1 ≤ size
unfolding drain
drain_bounded size s = omega (arith, length-take (min (length s.pending_txs) size) s.pending_txs)

-- One more name at the end of a list whose elements are named by the counter.
pub numbered-append :
    {A : Type 0} (f : ℕ → Text) (named : A → Text) (xs : List A) (x : A) (c : ℕ)
    → map named xs ≡ numbered f (length xs)
    → c ≡ wrap64 (length xs)
    → named x ≡ f (wrap64 (c + 1))
    → map named (xs ++ (x ∷ [])) ≡ numbered f (length (xs ++ (x ∷ [])))
unfolding numbered
numbered-append f named xs x c e counted name =
    let longer : length (xs ++ (x ∷ [])) ≡ suc (length xs) = length-snoc xs x in
    let next : wrap64 (c + 1) ≡ wrap64 (suc (length xs)) = omega (arith, counted) in
    map-append named xs (x ∷ []) ∙ rw (longer, e, name, next) refl

module _ ⦃f : Float⦄ (v : Validator) where
  if_drained :
      (b : Bool) (s s' : ValidatorState) (sb : SealedBatch)
      → drained_if v b s ≡ (some sb, s')
      → drain v.batch_size s ≡ (sb, s')
  unfolding drain
  if_drained false s s' sb e = cc e
  if_drained true s s' sb e = cc e

  queue_drained :
      (q : List Transaction) (now : ℕ) (s s' : ValidatorState) (sb : SealedBatch)
      → seal_queue v q now s ≡ (some sb, s')
      → drain v.batch_size s ≡ (sb, s')
  unfolding drain should_seal
  queue_drained [] now s s' sb e = cc e
  queue_drained (t ∷ q) now s s' sb e =
      if_drained (should_seal v.policy (length (t ∷ q)) (now - t.arrival_ts) (f.literal 0 0)) s s'
        sb e

  -- A batch that is sealed was drained from the front of the queue.
  pub sealed_is_drained :
      (now : ℕ) (s s' : ValidatorState) (sb : SealedBatch)
      → seal v now s ≡ (some sb, s')
      → drain v.batch_size s ≡ (sb, s')
  unfolding seal
  sealed_is_drained now s s' sb e = queue_drained s.pending_txs now s s' sb e
