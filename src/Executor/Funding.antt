-- ===== src/Executor/Funding.antt =====
-- The state that a batch starts from depends on the set of its senders alone. The set is the quotient
-- of the lists of senders that forgets their order and how often each occurs.
use mathlib.Core.Quot
use mathlib.Core.Quot.{Quot, Quot-set}
use mathlib.Core.Bool.{Bool-set}
use native.Mathlib.Nat.{ℕ_set}
use catalyst_svm.Prelude.{
  ℕ, ◌≡◌, ◌≢◌, refl, sym, ◌∙◌, ap, List, [], ◌∷◌, map, Option, none, some, Bool, true, false, ◌||◌,
  Bool-cases, inl, inr, ok, err, Option-cases,
}
use catalyst_svm.Text.{Text, text_eq}
use catalyst_svm.Text.Order.{text_ord, text_eq_iff, text_cases, text_eq_refl}
use catalyst_svm.OrderedMap.{get, or_insert}
use catalyst_svm.OrderedMap.Lookup.{get-insert_self, get-or_insert_ne}
use catalyst_svm.OrderedMap.Sorted.{IsSorted, or_insert-IsSorted, eq_of_get}
use catalyst_svm.Common.Types.{Batch, Transaction, ExecutionTrace}
use catalyst_svm.Common.Hashing.{Hasher}
use catalyst_svm.Trace.{compute_state_root, new_builder, build}
use catalyst_svm.Executor.{State, FullExecutor, fund, initial_balance, execute_with_transactions}
use catalyst_svm.Executor.Entries.{builder-execute_transactions}

-- A sender occurs in the list.
abbrev pub occurs : Text → List Text → Bool
occurs q [] = false
occurs q (x ∷ xs) = text_eq q x || occurs q xs

-- The balance of an account of the starting state.
abbrev pub starting : Bool → Option ℕ
starting true = some initial_balance
starting false = none

-- What a lookup finds beside what was there before.
abbrev or_else : Option ℕ → Option ℕ → Option ℕ
or_else none later = later
or_else (some v) later = some v

or_else-none : (o : Option ℕ) → or_else o none ≡ o
or_else-none none = refl
or_else-none (some v) = refl

or_else-starting :
    (o : Option ℕ) (a b : Bool)
    → or_else (or_else o (starting a)) (starting b) ≡ or_else o (starting (a || b))
or_else-starting none true b = refl
or_else-starting none false b = refl
or_else-starting (some v) a b = refl

not_equal : (q x : Text) → q ≢ x → text_eq q x ≡ false
not_equal q x other = elim (Bool-cases (text_eq q x)) [
  | inl same ↦ absurd (other ((text_eq_iff q x).0 same))
  | inr apart ↦ apart
]

inserted_self :
    (s : State) (x : Text)
    → get (or_insert s x initial_balance) x ≡ or_else (get s x) (some initial_balance)
unfolding or_insert
inserted_self s x = elim (Option-cases (get s x)) [
  | inl new ↦ rw (new, or_insert) (get-insert_self s x initial_balance)
  | inr (v, old) ↦ rw (old, or_insert) old
]

or_inserted :
    (s : State) (x q : Text)
    → get (or_insert s x initial_balance) q ≡ or_else (get s q) (starting (text_eq q x))
or_inserted s x q = elim (text_cases q x) [
  | inl same ↦ rw (same, text_eq_refl x) (inserted_self s x)
  | inr other ↦
      let apart : text_eq q x ≡ false = not_equal q x other in
      rw apart (get-or_insert_ne s x q initial_balance other ∙ sym (or_else-none (get s q)))
]

fund-get :
    (xs : List Text) (s : State) (q : Text)
    → get (fund s xs) q ≡ or_else (get s q) (starting (occurs q xs))
unfolding fund
fund-get [] s q = sym (or_else-none (get s q))
fund-get (x ∷ xs) s q =
    fund-get xs (or_insert s x initial_balance) q
    ∙ ap (λ o. or_else o (starting (occurs q xs))) (or_inserted s x q)
    ∙ or_else-starting (get s q) (text_eq q x) (occurs q xs)

fund-IsSorted : (xs : List Text) (s : State) → IsSorted s → IsSorted (fund s xs)
unfolding fund
fund-IsSorted [] s sorted = sorted
fund-IsSorted (x ∷ xs) s sorted =
    fund-IsSorted xs (or_insert s x initial_balance) (or_insert-IsSorted s x initial_balance sorted)

-- Two lists with the same senders.
abbrev pub SameSenders : List Text → List Text → Type 0
SameSenders xs ys = (q : Text) → occurs q xs ≡ occurs q ys

pub fund_same : (xs ys : List Text) → SameSenders xs ys → fund [] xs ≡ fund [] ys
unfolding get
fund_same xs ys same =
    eq_of_get (fund [] xs) (fund [] ys) (fund-IsSorted xs [] tt) (fund-IsSorted ys [] tt)
      (λ q. fund-get xs [] q ∙ ap starting (same q) ∙ sym (fund-get ys [] q))

abbrev pub SenderSet : Type 0
SenderSet = Quot SameSenders

pub State-set : IsSet State
State-set = hlevel (ℕ_set)

-- Membership, and the starting state, as functions of the set.
unfoldable pub member : Text → SenderSet → Bool
member q = Quot.lift Bool-set (occurs q) (λ xs ys same. same q)

unfoldable pub funded : SenderSet → State
unfolding fund
funded = Quot.lift State-set (fund []) fund_same

-- The starting state gives the initial balance to the members of the set, and to no one else.
pub funded-get :
    (senders : SenderSet) (q : Text) → get (funded senders) q ≡ starting (member q senders)
unfolding funded member get
funded-get senders q =
    Quot.ind {β = λ b. get (funded b) q ≡ starting (member q b)} (λ b. hlevel (ℕ_set))
      (λ xs. fund-get xs [] q) senders

-- The set of the senders of a batch.
abbrev pub senders_of : List Transaction → SenderSet
senders_of txs = Quot.mk (map (λ t. t.sender) txs)

module _ ⦃h : Hasher⦄ where
  first_root :
      (x : FullExecutor) (batch : Batch) (txs : List Transaction) {trace : ExecutionTrace}
      → execute_with_transactions x batch txs ≡ ok trace
      → trace.state_root_pre ≡ compute_state_root (funded (senders_of txs))
  unfolding execute_with_transactions build new_builder funded
  first_root x batch txs ran =
      let s = fund [] (map (λ tx. tx.sender) txs) in
      let b = new_builder batch.batch_id s in
      let trace_is = ap (λ r. elim r [ ok t ↦ t | err _ ↦ build s b ]) ran in
      ap (λ t. t.state_root_pre) (sym trace_is) ∙ (builder-execute_transactions x txs 0 s b).0

  -- The first root of a batch's trace depends on the set of its senders alone: two batches with one set of
  -- senders have one first root, whatever was executed before, in whatever order the transactions come
  -- and whatever they do.
  pub first_root_of_senders :
      (x y : FullExecutor) (batch batch' : Batch) (txs txs' : List Transaction)
      {trace trace' : ExecutionTrace}
      → execute_with_transactions x batch txs ≡ ok trace
      → execute_with_transactions y batch' txs' ≡ ok trace'
      → senders_of txs ≡ senders_of txs'
      → trace.state_root_pre ≡ trace'.state_root_pre
  first_root_of_senders x y batch batch' txs txs' ran ran' same =
      first_root x batch txs ran
      ∙ ap (λ b. compute_state_root (funded b)) same
      ∙ sym (first_root y batch' txs' ran')
