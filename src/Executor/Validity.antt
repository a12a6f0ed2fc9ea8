-- ===== src/Executor/Validity.antt =====
-- The state stays a map with ascending keys and 64-bit balances, through every batch.
use catalyst_svm.Prelude.{
  ℕ, zero, suc, ◌+◌, ◌-◌, ◌^◌, ◌<◌, List, [], ◌∷◌, arith, All, u64_mod, from_le_bytes, take, drop,
  wrap64, saturating_add, map,
}
use native.Mathlib.Nat.{pow-suc}
use catalyst_svm.Text.{Text}
use catalyst_svm.Text.Order.{text_ord}
use catalyst_svm.OrderedMap.{insert, or_insert}
use catalyst_svm.OrderedMap.Sorted.{IsSorted, insert-IsSorted}
use catalyst_svm.Common.Types.{Transaction}
use catalyst_svm.Common.Hashing.{Hasher}
use catalyst_svm.Trace.{TraceBuilder}
use catalyst_svm.Executor.{
  State, DeterministicExecutor, FullExecutor, balance, debit, credit, execute_instruction,
  execute_transactions, fund, first_word, second_word, execute_transfer, execute_set_data,
  execute_increment, initial_balance, account_key, data_key,
}

abbrev pub IsBytes : List ℕ → Type 0
IsBytes = All (λ b. b < 256)

-- The keys ascend, and every balance is a 64-bit number.
pub record IsValid (s : State) : Type 0 where
  pub sorted : IsSorted s
  pub words : All (λ e. e.1 < u64_mod) s

from_le_bytes_bound :
    (n : ℕ) (bytes : List ℕ) → IsBytes bytes → from_le_bytes (take n bytes) < 256 ^ n
from_le_bytes_bound zero bytes b = omega arith
from_le_bytes_bound (suc n) [] b = grind (arith, from_le_bytes_bound n [] tt, pow-suc)
from_le_bytes_bound (suc n) (c ∷ bytes) b =
    let ih = from_le_bytes_bound n bytes b.1 in
    let p = pow-suc 256 n in let c_small = b.0 in omega (arith, ih, p, c_small)

IsBytes-drop : (n : ℕ) (bytes : List ℕ) → IsBytes bytes → IsBytes (drop n bytes)
IsBytes-drop zero bytes b = b
IsBytes-drop (suc n) [] b = tt
IsBytes-drop (suc n) (c ∷ bytes) b = IsBytes-drop n bytes b.1

pub first_word_bound : (bytes : List ℕ) → IsBytes bytes → first_word bytes < u64_mod
first_word_bound bytes b = from_le_bytes_bound 8 bytes b

pub second_word_bound : (bytes : List ℕ) → IsBytes bytes → second_word bytes < u64_mod
second_word_bound bytes b = from_le_bytes_bound 8 (drop 8 bytes) (IsBytes-drop 8 bytes b)

insert_words :
    (s : State) (k : Text) (v : ℕ)
    → v < u64_mod
    → All (λ e. e.1 < u64_mod) s
    → All (λ e. e.1 < u64_mod) (insert s k v)
unfolding insert text_ord
insert_words [] k v small w = (small, tt)
insert_words ((j, u) ∷ s) k v small w = ground (arith, insert_words s k v small w.1)

pub insert-IsValid :
    (s : State) (k : Text) (v : ℕ) → v < u64_mod → IsValid s → IsValid (insert s k v)
insert-IsValid s k v small valid = record {
  sorted = insert-IsSorted s k v valid.sorted;
  words = insert_words s k v small valid.words;
}

pub balance_bound : (s : State) (k : Text) → IsValid s → balance s k < u64_mod
unfolding balance
balance_bound s k valid = go s valid.words
  where
    go : (s : State) → All (λ e. e.1 < u64_mod) s → balance s k < u64_mod
    go [] w = omega arith
    go ((j, v) ∷ s) w = ground (arith, go s w.1)

debit-IsValid : (s : State) (k : Text) (amount : ℕ) → IsValid s → IsValid (debit s k amount)
unfolding debit
debit-IsValid s k amount valid =
    insert-IsValid s k (balance s k - amount) (omega (arith, balance_bound s k valid)) valid

credit-IsValid : (s : State) (k : Text) (amount : ℕ) → IsValid s → IsValid (credit s k amount)
unfolding credit
credit-IsValid s k amount valid =
    insert-IsValid s k (wrap64 (balance s k + amount)) (omega arith) valid

module _ (s : State) (bytes : List ℕ) (valid : IsValid s) where
  transfer-IsValid : (sender : Text) → IsValid (execute_transfer s sender bytes).1
  unfolding execute_transfer
  transfer-IsValid sender = ground (
    arith,
    debit-IsValid s sender (first_word bytes) valid,
    credit-IsValid (debit s sender (first_word bytes)) (account_key (second_word bytes))
        (first_word bytes),
  )

  set_data-IsValid : IsBytes bytes → IsValid (execute_set_data s bytes).1
  unfolding execute_set_data
  set_data-IsValid b = ground (
    arith,
    insert-IsValid s (data_key (first_word bytes)) (second_word bytes) (second_word_bound bytes b)
        valid,
  )

  increment-IsValid : IsValid (execute_increment s bytes).1
  unfolding execute_increment
  increment-IsValid = ground (
    arith,
    insert-IsValid s (data_key (first_word bytes))
        (saturating_add (balance s (data_key (first_word bytes))) (second_word bytes)) (omega arith)
        valid,
  )

-- Every instruction, of any opcode and whether it succeeds or fails, keeps the state valid.
pub execute_instruction-IsValid :
    (x : DeterministicExecutor) (s : State) (sender : Text) (bytes : List ℕ)
    → IsBytes bytes
    → IsValid s
    → IsValid (execute_instruction x s sender bytes).1
unfolding execute_instruction
execute_instruction-IsValid x s sender [] b valid = valid
execute_instruction-IsValid x s sender (op ∷ bytes) b valid = ground (
  arith,
  transfer-IsValid s bytes valid sender,
  set_data-IsValid s bytes valid b.1,
  increment-IsValid s bytes valid,
)

fund-IsValid : (senders : List Text) (s : State) → IsValid s → IsValid (fund s senders)
unfolding fund or_insert
fund-IsValid [] s valid = valid
fund-IsValid (sender ∷ rest) s valid =
    fund-IsValid rest (or_insert s sender initial_balance)
      (ground (arith, insert-IsValid s sender initial_balance (omega arith) valid))

execute_transactions-IsValid :
    ⦃h : Hasher⦄ (x : FullExecutor) (txs : List Transaction) (idx : ℕ) (s : State)
    (b : TraceBuilder)
    → All (λ tx. IsBytes tx.instruction_data) txs
    → IsValid s
    → IsValid (execute_transactions x idx txs s b).0
unfolding execute_transactions
execute_transactions-IsValid x [] idx s b bytes valid = valid
execute_transactions-IsValid x (tx ∷ txs) idx s b bytes valid =
    execute_transactions-IsValid x txs (suc idx) _ _ bytes.1
      (execute_instruction-IsValid x.inner s tx.sender tx.instruction_data bytes.0 valid)

-- From the funded senders on, a batch whose instructions are bytes keeps the keys of the state
-- ascending and the balances 64-bit numbers.
pub batch-IsValid :
    ⦃h : Hasher⦄ (x : FullExecutor) (txs : List Transaction) (b : TraceBuilder)
    → All (λ tx. IsBytes tx.instruction_data) txs
    → IsValid (execute_transactions x 0 txs (fund [] (map (λ tx. tx.sender) txs)) b).0
batch-IsValid x txs b bytes =
    execute_transactions-IsValid x txs 0 (fund [] (map (λ tx. tx.sender) txs)) b bytes
      (fund-IsValid (map (λ tx. tx.sender) txs) [] (record { sorted = tt; words = tt }))
