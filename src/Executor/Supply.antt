-- ===== src/Executor/Supply.antt =====
-- What a transfer does to the two balances, and to the sum of all balances.
use catalyst_svm.Prelude.{
  ℕ, ◌+◌, ◌-◌, ◌*◌, ◌/◌, ◌≤◌, ◌<◌, ◌≡◌, ◌≢◌, sym, List, [], ◌∷◌, arith, ok, is_ok, true, length,
  u64_mod, wrap64, ◌∙◌, ap,
}
use catalyst_svm.Text.{Text}
use catalyst_svm.Text.Order.{text_ord}
use catalyst_svm.OrderedMap.{get, insert}
use catalyst_svm.OrderedMap.Lookup.{get-insert_self, get-insert_ne}
use catalyst_svm.Executor.{
  State, Effects, balance, debit, credit, first_word, second_word, account_key, execute_transfer,
}
use catalyst_svm.Executor.Validity.{IsValid, balance_bound}

-- The sum of all balances.
unfoldable pub supply : State → ℕ
supply [] = 0
supply ((_, v) ∷ s) = v + supply s

supply-insert : (s : State) (k : Text) (v : ℕ) → supply (insert s k v) + balance s k ≡ supply s + v
unfolding supply insert balance get text_ord
supply-insert [] k v = omega arith
supply-insert ((j, u) ∷ s) k v = ground (arith, supply-insert s k v)

balance-insert_self : (s : State) (k : Text) (v : ℕ) → balance (insert s k v) k ≡ v
unfolding balance
balance-insert_self s k v = rw (get-insert_self s k v, balance)

balance-insert_ne :
    (s : State) (k j : Text) (v : ℕ) → j ≢ k → balance (insert s k v) j ≡ balance s j
unfolding balance
balance-insert_ne s k j v other = rw (get-insert_ne s k j v other, balance)

balance-le-supply : (s : State) (k : Text) → balance s k ≤ supply s
unfolding balance get supply
balance-le-supply [] k = omega arith
balance-le-supply ((j, v) ∷ s) k = ground (arith, balance-le-supply s k)

-- A covered debit and the credit that follows it, over the sum of the balances.
moved :
    (s : State) (sender target : Text) (amount : ℕ)
    → amount ≤ balance s sender
    → let d = debit s sender amount in
      (supply d + amount ≡ supply s)
      × (supply (credit d target amount) + u64_mod * ((balance d target + amount) / u64_mod)
          ≡ supply s)
unfolding debit credit
moved s sender target amount covered =
    let d = insert s sender (balance s sender - amount) in
    let lower : supply d + amount ≡ supply s =
      omega (arith, supply-insert s sender (balance s sender - amount)) in
    (lower, omega (arith, lower, supply-insert d target (wrap64 (balance d target + amount))))

-- The two balances after a debit and a credit of two accounts.
balances_moved :
    (s : State) (sender target : Text) (amount : ℕ)
    → sender ≢ target
    → (balance (debit s sender amount) target ≡ balance s target)
      × (balance (credit (debit s sender amount) target amount) sender ≡ balance s sender - amount)
      × (balance (credit (debit s sender amount) target amount) target
          ≡ wrap64 (balance s target + amount))
unfolding debit credit
balances_moved s sender target amount other =
    let d = insert s sender (balance s sender - amount) in
    let kept = balance-insert_ne s sender target (balance s sender - amount) (λ e. other (sym e)) in
    (
      kept,
      balance-insert_ne d target sender (wrap64 (balance d target + amount)) other
          ∙ balance-insert_self s sender (balance s sender - amount),
      balance-insert_self d target (wrap64 (balance d target + amount))
          ∙ ap (λ n. wrap64 (n + amount)) kept,
    )

module _ (s : State) (sender : Text) (bytes : List ℕ) {e : Effects}
    (done : (execute_transfer s sender bytes).0 ≡ ok e) where
  -- A transfer that succeeds is covered, and ends in the debit and the credit.
  transferred :
      (first_word bytes ≤ balance s sender)
      × ((execute_transfer s sender bytes).1
          ≡ credit
              (debit s sender (first_word bytes))
              (account_key (second_word bytes))
              (first_word bytes))
  unfolding execute_transfer
  transferred = ground arith

  -- A transfer that succeeds keeps the sum of all balances, while that sum is below 2^64; also
  -- where the sender is the target.
  pub transfer_conserves :
      supply s < u64_mod → supply (execute_transfer s sender bytes).1 ≡ supply s
  transfer_conserves small =
      let amount = first_word bytes in
      let target = account_key (second_word bytes) in
      let d = debit s sender amount in
      let m = moved s sender target amount transferred.0 in
      ap supply transferred.1 ∙ omega (arith, m.0, m.1, balance-le-supply d target)

  -- A transfer that succeeds between two accounts, where the target's new balance stays below
  -- 2^64, takes the amount from the sender's balance and adds it to the target's.
  pub transfer_moves :
      sender ≢ account_key (second_word bytes)
      → balance s (account_key (second_word bytes)) + first_word bytes < u64_mod
      → let s' = (execute_transfer s sender bytes).1 in
        (balance s' sender + first_word bytes ≡ balance s sender)
        × (balance s' (account_key (second_word bytes))
            ≡ balance s (account_key (second_word bytes)) + first_word bytes)
  transfer_moves other room =
      let m = balances_moved s sender (account_key (second_word bytes)) (first_word bytes) other in
      (
        omega (arith, ap (λ t. balance t sender) transferred.1, transferred.0, m.1),
        omega (arith, ap (λ t. balance t (account_key (second_word bytes))) transferred.1, m.2),
      )

  overflowed :
      sender ≢ account_key (second_word bytes)
      → IsValid s
      → first_word bytes < u64_mod
      → u64_mod ≤ balance s (account_key (second_word bytes)) + first_word bytes
      → supply (execute_transfer s sender bytes).1 + u64_mod ≡ supply s
  overflowed other valid word over =
      let target = account_key (second_word bytes) in
      let amount = first_word bytes in
      omega (
        arith,
        ap supply transferred.1,
        (moved s sender target amount transferred.0).1,
        (balances_moved s sender target amount other).0,
        balance_bound s target valid,
      )

-- A transfer with both operands, of an amount that the sender has, succeeds.
covered_succeeds :
    (s : State) (sender : Text) (bytes : List ℕ)
    → 16 ≤ length bytes
    → first_word bytes ≤ balance s sender
    → (execute_transfer s sender bytes).0
      ≡ ok (record {
        reads = sender ∷ account_key (second_word bytes) ∷ [];
        writes = sender ∷ account_key (second_word bytes) ∷ [];
        compute = 5000;
      })
unfolding execute_transfer
covered_succeeds s sender bytes whole covered = ground arith

-- In a valid state, a transfer with both operands, of an amount that the sender has, to another account
-- whose balance and the amount reach 2^64, succeeds, and 2^64 units are gone from the sum of the
-- balances.
pub transfer_overflow :
    (s : State) (sender : Text) (bytes : List ℕ)
    → 16 ≤ length bytes
    → first_word bytes ≤ balance s sender
    → sender ≢ account_key (second_word bytes)
    → IsValid s
    → first_word bytes < u64_mod
    → u64_mod ≤ balance s (account_key (second_word bytes)) + first_word bytes
    → (is_ok (execute_transfer s sender bytes).0 ≡ true)
      × (supply (execute_transfer s sender bytes).1 + u64_mod ≡ supply s)
transfer_overflow s sender bytes whole covered other valid word over =
    let done = covered_succeeds s sender bytes whole covered in
    (ap is_ok done, overflowed s sender bytes done other valid word over)
