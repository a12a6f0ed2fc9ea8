-- ===== src/Validator/Timer.antt =====
-- The validator's timer, tick by tick: which queues it empties, and which it leaves for ever.
use catalyst_svm.Prelude.{
  ℕ, zero, suc, ◌+◌, ◌-◌, ◌*◌, ◌≤◌, ◌<◌, ◌≡◌, refl, sym, ◌∙◌, ap, subst, List, [], ◌∷◌, length,
  drop, length-drop, min, arith, none, some, Option, true, false, All,
}
use catalyst_svm.Prelude.Float.{Float}
use catalyst_svm.Text.{codes}
use catalyst_svm.Common.Types.{Transaction}
use catalyst_svm.Common.Hashing.{Hasher}
use catalyst_svm.Host.{Disk}
use catalyst_svm.Policy.Fixed.{
  HybridPolicy, FixedCountPolicy, should_seal_hybrid, should_seal_count,
}
use catalyst_svm.Policy.Engine.{should_seal, hybrid, fixed_count}
use catalyst_svm.Validator.{
  Validator, ValidatorState, SealedBatch, drain, drained_if, seal_queue, seal,
}
use catalyst_svm.Validator.Batches.{Readings, after_seal, check_and_seal_batch}
use catalyst_svm.Validator.Pushes.{process-Pushes}
use catalyst_svm.Rpc.{refused}
use catalyst_svm.Validator.Service.{answer_force_seal}
use catalyst_svm.Validator.Refusals.{IsRefused, refused_seal, force_seal_refused}
use catalyst_svm.Validator.Connection.{seal_loop}

drop-nil : {A : Type 0} (n : ℕ) → drop {A = A} n [] ≡ []
drop-nil zero = refl
drop-nil (suc n) = refl

-- What is left of a list does not depend on whether the number to drop is cut to its length.
drop-min : {A : Type 0} (n : ℕ) (xs : List A) → drop (min (length xs) n) xs ≡ drop n xs
drop-min n [] = drop-nil (min 0 n) ∙ sym (drop-nil n)
drop-min zero (x ∷ xs) =
    let none_left : min (suc (length xs)) 0 ≡ 0 = omega arith in ap (λ k. drop k (x ∷ xs)) none_left
drop-min (suc n) (x ∷ xs) =
    let one_less : min (suc (length xs)) (suc n) ≡ suc (min (length xs) n) = omega arith in
    ap (λ k. drop k (x ∷ xs)) one_less ∙ drop-min n xs

All-drop : (P : Transaction → Type 0) (n : ℕ) (xs : List Transaction) → All P xs → All P (drop n xs)
All-drop P zero xs a = a
All-drop P (suc n) [] a = tt
All-drop P (suc n) (x ∷ xs) (a, rest) = All-drop P n xs rest

hybrid_due :
    (p : HybridPolicy) (n wait : ℕ)
    → p.time_threshold_ms ≤ wait
    → should_seal_hybrid p (suc n) wait ≡ true
unfolding should_seal_hybrid
hybrid_due p n wait h = ground arith

count_short :
    (p : FixedCountPolicy) (n wait : ℕ) → n < p.threshold → should_seal_count p n wait ≡ false
unfolding should_seal_count
count_short p n wait h = ground arith

empty_of_length : (xs : List Transaction) → length xs ≤ 0 → xs ≡ []
empty_of_length [] h = refl
empty_of_length (x ∷ xs) h = absurd (omega (arith, h))

module _ ⦃h : Hasher⦄ ⦃f : Float⦄ (v : Validator) where
  -- The policy seals the queue at a time.
  abbrev IsDue : List Transaction → ℕ → Type 0
  IsDue [] now = Unit
  IsDue (oldest ∷ rest) now =
      should_seal v.policy (length (oldest ∷ rest)) (now - oldest.arrival_ts) (f.literal 0 0) ≡ true

  sealed_pending :
      (r : Readings) (disk : Disk) (o : Option SealedBatch × ValidatorState)
      → (after_seal v r o disk).2.pending_txs ≡ o.1.pending_txs
  unfolding after_seal
  sealed_pending r disk (none, s) = refl
  sealed_pending r disk (some (id, txs), s) = (process-Pushes v r id txs disk s).pending

  due_drained :
      (q : List Transaction) (now : ℕ) (s : ValidatorState)
      → q ≡ s.pending_txs
      → IsDue q now
      → (seal_queue v q now s).1.pending_txs ≡ drop v.batch_size s.pending_txs
  unfolding drain should_seal
  due_drained [] now s same due =
      sym same ∙ sym (drop-nil v.batch_size) ∙ ap (drop v.batch_size) same
  due_drained (t ∷ q) now s same due =
      ap (λ b. (drained_if v b s).1.pending_txs) due ∙ drop-min v.batch_size s.pending_txs

  tick_drains :
      (r : Readings) (disk : Disk) (s : ValidatorState)
      → IsDue s.pending_txs r.now
      → (check_and_seal_batch v r disk s).2.pending_txs ≡ drop v.batch_size s.pending_txs
  unfolding check_and_seal_batch seal
  tick_drains r disk s due =
      sealed_pending r disk (seal v r.now s) ∙ due_drained s.pending_txs r.now s refl due

  -- The wait of each transaction has reached the policy's limit at the deadline.
  abbrev pub IsOverdue : HybridPolicy → ℕ → Transaction → Type 0
  IsOverdue p deadline t = t.arrival_ts + p.time_threshold_ms ≤ deadline

  overdue-IsDue :
      (p : HybridPolicy) (deadline now : ℕ) (q : List Transaction)
      → v.policy ≡ hybrid p
      → All (IsOverdue p deadline) q
      → deadline ≤ now
      → IsDue q now
  unfolding should_seal
  overdue-IsDue p deadline now [] chosen waits late = tt
  overdue-IsDue p deadline now (t ∷ q) chosen (wait, waits) late =
      let waited : p.time_threshold_ms ≤ now - t.arrival_ts = omega (arith, wait, late) in
      ap (λ c. should_seal c (suc (length q)) (now - t.arrival_ts) (f.literal 0 0)) chosen
      ∙ hybrid_due p (length q) (now - t.arrival_ts) waited

  -- Under the hybrid policy, the timer empties the queue once every transaction in it has waited for
  -- the policy's limit, whatever becomes of the batches: where no transaction comes in, as many ticks
  -- as the queue has batches leave it empty.
  pub timer_drains :
      (p : HybridPolicy) (deadline : ℕ) (ticks : List Readings) (disk : Disk) (s : ValidatorState)
      → v.policy ≡ hybrid p
      → All (IsOverdue p deadline) s.pending_txs
      → All (λ r. deadline ≤ r.now) ticks
      → length s.pending_txs ≤ length ticks * v.batch_size
      → (seal_loop v ticks disk s).1.pending_txs ≡ []
  unfolding seal_loop
  timer_drains p deadline [] disk s chosen waits late enough =
      empty_of_length s.pending_txs (omega (arith, enough))
  timer_drains p deadline (r ∷ ticks) disk s chosen waits (late, later) enough =
      let after = check_and_seal_batch v r disk s in
      let left =
        tick_drains r disk s (overdue-IsDue p deadline r.now s.pending_txs chosen waits late) in
      timer_drains p deadline ticks after.1 after.2 chosen
        (subst (All (IsOverdue p deadline)) (sym left)
          (All-drop (IsOverdue p deadline) v.batch_size s.pending_txs waits))
        later (omega (arith, enough, ap length left, length-drop v.batch_size s.pending_txs))

  -- A tick at which the policy refuses.
  refused_tick :
      (r : Readings) (disk : Disk) (s : ValidatorState)
      → IsRefused v s.pending_txs r.now
      → check_and_seal_batch v r disk s ≡ (none, disk, s)
  unfolding check_and_seal_batch seal after_seal
  refused_tick r disk s e = ap (λ o. after_seal v r o disk) (refused_seal v s.pending_txs r.now s e)

  short-IsRefused :
      (p : FixedCountPolicy) (q : List Transaction) (now : ℕ)
      → v.policy ≡ fixed_count p
      → length q < p.threshold
      → IsRefused v q now
  unfolding should_seal
  short-IsRefused p [] now chosen few = tt
  short-IsRefused p (t ∷ q) now chosen few =
      ap (λ c. should_seal c (suc (length q)) (now - t.arrival_ts) (f.literal 0 0)) chosen
      ∙ count_short p (suc (length q)) (now - t.arrival_ts) few

  ticks_wait :
      (p : FixedCountPolicy) (ticks : List Readings) (disk : Disk) (s : ValidatorState)
      → v.policy ≡ fixed_count p
      → length s.pending_txs < p.threshold
      → seal_loop v ticks disk s ≡ (disk, s)
  unfolding seal_loop
  ticks_wait p [] disk s chosen few = refl
  ticks_wait p (r ∷ ticks) disk s chosen few =
      let refuses = short-IsRefused p s.pending_txs r.now chosen few in
      ap (λ o. seal_loop v ticks o.1 o.2) (refused_tick r disk s refuses)
      ∙ ticks_wait p ticks disk s chosen few

  -- Under the policy of a fixed count, a queue that is shorter than the count is not sealed by any
  -- number of ticks of the timer, and a request to seal it is refused with "No transactions to seal":
  -- the validator and its files are left as they are.
  pub fixed_count_starves :
      (p : FixedCountPolicy) (ticks : List Readings) (r : Readings) (id : ℕ) (disk : Disk)
      (s : ValidatorState)
      → v.policy ≡ fixed_count p
      → length s.pending_txs < p.threshold
      → (seal_loop v ticks disk s ≡ (disk, s))
        × (answer_force_seal v r id disk s
            ≡ (refused id (codes "No transactions to seal"), disk, s))
  fixed_count_starves p ticks r id disk s chosen few = (
    ticks_wait p ticks disk s chosen few,
    force_seal_refused v r id disk s (short-IsRefused p s.pending_txs r.now chosen few),
  )
