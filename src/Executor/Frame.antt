-- ===== src/Executor/Frame.antt =====
-- What an instruction leaves alone, and that the state stays a sorted map of 64-bit balances.
use catalyst_svm.Prelude.{
  ℕ, ◌≡◌, ◌≢◌, refl, List, [], ◌∷◌, arith, Result, ok, err, All, saturating_add,
}
use catalyst_svm.Text.{Text}
use catalyst_svm.Text.Order.{text_ord}
use catalyst_svm.OrderedMap.{get}
use catalyst_svm.OrderedMap.Lookup.{get-insert_ne}
use catalyst_svm.Common.Errors.{ExecError}
use catalyst_svm.Executor.{
  State, DeterministicExecutor, Effects, balance, debit, credit, execute_instruction, first_word,
  second_word, execute_transfer, execute_set_data, execute_increment, account_key, data_key,
}

-- The accounts that a result says were written.
abbrev pub written : Result ExecError Effects → List Text
written (ok e) = e.writes
written (err _) = []

pub get-debit_ne :
    (s : State) (k : Text) (amount : ℕ) (key : Text)
    → key ≢ k
    → get (debit s k amount) key ≡ get s key
unfolding debit
get-debit_ne s k amount key other = get-insert_ne s k key _ other

pub get-credit_ne :
    (s : State) (k : Text) (amount : ℕ) (key : Text)
    → key ≢ k
    → get (credit s k amount) key ≡ get s key
unfolding credit
get-credit_ne s k amount key other = get-insert_ne s k key _ other

module _ (key : Text) (s : State) (bytes : List ℕ) where
  transfer_frame :
      (sender : Text)
      → All (λ w. key ≢ w) (written (execute_transfer s sender bytes).0)
      → get (execute_transfer s sender bytes).1 key ≡ get s key
  unfolding execute_transfer
  transfer_frame sender other = ground (
    arith,
    get-credit_ne (debit s sender (first_word bytes)) (account_key (second_word bytes))
        (first_word bytes) key,
    get-debit_ne s sender (first_word bytes) key,
  )

  set_data_frame :
      All (λ w. key ≢ w) (written (execute_set_data s bytes).0)
      → get (execute_set_data s bytes).1 key ≡ get s key
  unfolding execute_set_data
  set_data_frame other =
      ground (arith, get-insert_ne s (data_key (first_word bytes)) key (second_word bytes))

  increment_frame :
      All (λ w. key ≢ w) (written (execute_increment s bytes).0)
      → get (execute_increment s bytes).1 key ≡ get s key
  unfolding execute_increment
  increment_frame other = ground (
    arith,
    get-insert_ne s (data_key (first_word bytes)) key
        (saturating_add (balance s (data_key (first_word bytes))) (second_word bytes)),
  )

module _ (x : DeterministicExecutor) where
  -- An instruction that fails leaves the state as it was.
  pub execute_instruction_atomic :
      (s : State) (sender : Text) (bytes : List ℕ) {e : ExecError}
      → (execute_instruction x s sender bytes).0 ≡ err e
      → (execute_instruction x s sender bytes).1 ≡ s
  unfolding execute_instruction
  execute_instruction_atomic s sender [] failed = refl
  execute_instruction_atomic s sender (op ∷ bytes) failed = ground arith

  -- An instruction changes no account but those that it reports as written.
  pub execute_instruction_frame :
      (s : State) (sender : Text) (bytes : List ℕ) (key : Text)
      → All (λ w. key ≢ w) (written (execute_instruction x s sender bytes).0)
      → get (execute_instruction x s sender bytes).1 key ≡ get s key
  unfolding execute_instruction
  execute_instruction_frame s sender [] key other = refl
  execute_instruction_frame s sender (op ∷ bytes) key other = ground (
    arith,
    transfer_frame key s bytes sender,
    set_data_frame key s bytes,
    increment_frame key s bytes,
  )
