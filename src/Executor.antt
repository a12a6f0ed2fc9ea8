-- ===== src/Executor.antt =====
-- The crate `catalyst-execution-engine` (crates/execution-engine/src/lib.rs): the deterministic
-- executor over the ordered state, and the executor of whole transactions.
pub mod Entries
pub mod Frame
pub mod Validity
pub mod Supply
pub mod Funding
use catalyst_svm.Prelude.{
  ℕ, suc, ◌+◌, ◌-◌, List, [], ◌∷◌, ◌++◌, Option, none, some, Bool, true, false, map, wrap64,
  saturating_add, from_le_bytes, take, drop, length, ltb, ◌==◌, if◌then◌else◌, Result, ok, err, min,
}
use catalyst_svm.Text.{Text, codes, decimal}
use catalyst_svm.Text.Order.{text_ord}
use catalyst_svm.OrderedMap.{OrderedMap, get, insert, or_insert}
use catalyst_svm.Common.Types.{TransactionId, Transaction, Batch, TraceEntry, ExecutionTrace}
use catalyst_svm.Common.Errors.{ExecError, show_exec_error}
use catalyst_svm.Common.Hashing.{Hasher}
use catalyst_svm.Trace.{TraceBuilder, compute_state_root, new_builder, add_entry, build}

-- `BTreeMap<String, u64>`
abbrev pub State : Type 0
State = OrderedMap Text ℕ

pub data Opcode : Type 0 where
  transfer set_data increment noop invalid : Opcode

-- `From<u8> for Opcode`
abbrev pub opcode_of : ℕ → Opcode
opcode_of v =
    if v == 0
    then transfer
    else if v == 1
    then set_data
    else if v == 2
    then increment
    else if v == 3
    then noop
    else invalid

pub record DeterministicExecutor : Type 0 where
  pub max_cu_per_tx : ℕ
  pub fail_on_invalid : Bool

-- `DeterministicExecutor::new`
abbrev pub new_executor : ℕ → DeterministicExecutor
new_executor max_cu = record { max_cu_per_tx = max_cu; fail_on_invalid = true }

abbrev pub with_fail_on_invalid : Bool → DeterministicExecutor → DeterministicExecutor
with_fail_on_invalid fail x = record x { fail_on_invalid = fail }

-- The reads, the writes and the compute units of an instruction that succeeded.
pub record Effects : Type 0 where
  pub reads : List Text
  pub writes : List Text
  pub compute : ℕ

-- A call returns its result and the state, which it may have changed.
abbrev pub Executed : Type 0
Executed = Result ExecError Effects × State

-- `*state.get(k).unwrap_or(&0)`
unfoldable pub balance : State → Text → ℕ
unfolding get text_ord
balance s k = elim (get s k) [ none ↦ 0 | some v ↦ v ]

-- `*state.entry(k).or_insert(0) -= amount;`, which the caller has checked against underflow.
unfoldable pub debit : State → Text → ℕ → State
unfolding balance insert text_ord
debit s k amount = insert s k (balance s k - amount)

-- `*state.entry(k).or_insert(0) += amount;`
unfoldable pub credit : State → Text → ℕ → State
unfolding balance insert text_ord
credit s k amount = insert s k (wrap64 (balance s k + amount))

-- `u64::from_le_bytes(data[0..8])` and `u64::from_le_bytes(data[8..16])`
abbrev pub first_word : List ℕ → ℕ
first_word bytes = from_le_bytes (take 8 bytes)

abbrev pub second_word : List ℕ → ℕ
second_word bytes = from_le_bytes (take 8 (drop 8 bytes))

unfoldable pub account_key : ℕ → Text
unfolding decimal
account_key n = codes "account_" ++ decimal n

unfoldable pub data_key : ℕ → Text
unfolding decimal
data_key n = codes "data_" ++ decimal n

unfoldable pub execute_transfer : State → Text → List ℕ → Executed
unfolding balance debit credit account_key
execute_transfer s sender bytes =
    if ltb (length bytes) 16
    then (err (ExecError.invalid_opcode 0), s)
    else let amount = first_word bytes in
      let target = account_key (second_word bytes) in
      let available = balance s sender in
      if ltb available amount then (err (ExecError.insufficient_balance amount available), s) else (
        ok (record { reads = sender ∷ target ∷ []; writes = sender ∷ target ∷ []; compute = 5000 }),
        credit (debit s sender amount) target amount,
      )

unfoldable pub execute_set_data : State → List ℕ → Executed
unfolding insert text_ord data_key
execute_set_data s bytes =
    if ltb (length bytes) 16
    then (err (ExecError.invalid_opcode 1), s)
    else let key = data_key (first_word bytes) in
      (
        ok (record { reads = []; writes = key ∷ []; compute = 3000 }),
        insert s key (second_word bytes),
      )

unfoldable pub execute_increment : State → List ℕ → Executed
unfolding insert balance text_ord data_key
execute_increment s bytes =
    if ltb (length bytes) 16
    then (err (ExecError.invalid_opcode 2), s)
    else let key = data_key (first_word bytes) in
      (
        ok (record { reads = key ∷ []; writes = key ∷ []; compute = 2000 }),
        insert s key (saturating_add (balance s key) (second_word bytes)),
      )

-- The `match` on the opcode; `op` is its byte.
abbrev pub dispatch : DeterministicExecutor → Opcode → ℕ → State → Text → List ℕ → Executed
dispatch x transfer op s sender bytes = execute_transfer s sender bytes
dispatch x set_data op s sender bytes = execute_set_data s bytes
dispatch x increment op s sender bytes = execute_increment s bytes
dispatch x noop op s sender bytes = (ok (record { reads = []; writes = []; compute = 1000 }), s)
dispatch x invalid op s sender bytes = (
  if x.fail_on_invalid
      then err (ExecError.invalid_opcode op)
      else ok (record { reads = []; writes = []; compute = 500 }),
  s,
)

unfoldable pub execute_instruction : DeterministicExecutor → State → Text → List ℕ → Executed
unfolding execute_transfer execute_set_data execute_increment
execute_instruction x s sender [] = (err (ExecError.invalid_opcode 255), s)
execute_instruction x s sender (op ∷ bytes) = dispatch x (opcode_of op) op s sender bytes

-- The starting balance of every sender.
abbrev pub initial_balance : ℕ
initial_balance = 1000000

unfoldable pub fund : State → List Text → State
unfolding or_insert text_ord
fund s [] = s
fund s (sender ∷ rest) = fund (or_insert s sender initial_balance) rest

module _ ⦃h : Hasher⦄ where
  -- The body of the loop: the entry of one transaction, by the result of its instruction. `name` is
  -- the instruction's name when it succeeds, and `failure` when it does not.
  abbrev pub trace_entry :
      ℕ → ℕ → TransactionId → Text → Text → State → State → Result ExecError Effects → TraceEntry
  trace_entry max_cu idx id name failure before after (ok e) = record {
    tx_idx = idx;
    tx_id = id;
    pre_state_hash = compute_state_root before;
    instruction = name;
    accounts_read = e.reads;
    accounts_written = e.writes;
    post_state_hash = compute_state_root after;
    compute_used = min e.compute max_cu;
    success = true;
    error = none;
  }
  trace_entry max_cu idx id name failure before after (err e) = record {
    tx_idx = idx;
    tx_id = id;
    pre_state_hash = compute_state_root before;
    instruction = failure;
    accounts_read = [];
    accounts_written = [];
    post_state_hash = compute_state_root after;
    compute_used = 0;
    success = false;
    error = some (show_exec_error e);
  }

  -- The loop of `DeterministicExecutor::execute`: every transaction is a no-op.
  unfoldable pub execute_ids :
      DeterministicExecutor → ℕ → List TransactionId → State → TraceBuilder → State × TraceBuilder
  unfolding execute_instruction add_entry show_exec_error
  execute_ids x idx [] s b = (s, b)
  execute_ids x idx (id ∷ ids) s b =
      let (result, s') = execute_instruction x s (codes "sender_" ++ id) (3 ∷ []) in
      execute_ids x (suc idx) ids s' (
        add_entry
          (trace_entry x.max_cu_per_tx idx id (codes "execute") (codes "execute") s s' result) b)

  -- `DeterministicExecutor::execute`
  unfoldable pub execute : DeterministicExecutor → Batch → Result ExecError ExecutionTrace
  unfolding fund new_builder execute_ids build
  execute x batch =
      let s = fund [] (map (λ id. codes "sender_" ++ id) batch.tx_ids) in
      let (final, b) = execute_ids x 0 batch.tx_ids s (new_builder batch.batch_id s) in
      ok (build final b)

-- `tx.instruction_data.first().unwrap_or(&255)`
abbrev pub first_byte : List ℕ → ℕ
first_byte [] = 255
first_byte (op ∷ _) = op

pub record FullExecutor : Type 0 where
  pub inner : DeterministicExecutor

-- `FullExecutor::new`
abbrev pub new_full_executor : ℕ → FullExecutor
new_full_executor max_cu = record { inner = new_executor max_cu }

module _ ⦃h : Hasher⦄ where
  -- The loop of `execute_with_transactions`.
  unfoldable pub execute_transactions :
      FullExecutor → ℕ → List Transaction → State → TraceBuilder → State × TraceBuilder
  unfolding execute_instruction add_entry show_exec_error decimal
  execute_transactions x idx [] s b = (s, b)
  execute_transactions x idx (tx ∷ txs) s b =
      let (result, s') = execute_instruction x.inner s tx.sender tx.instruction_data in
      execute_transactions x (suc idx) txs s' (
        add_entry
          (trace_entry x.inner.max_cu_per_tx idx tx.tx_id
            (codes "opcode_" ++ decimal (first_byte tx.instruction_data)) (codes "failed") s s'
            result)
          b)

  -- `FullExecutor::execute_with_transactions`
  unfoldable pub execute_with_transactions :
      FullExecutor → Batch → List Transaction → Result ExecError ExecutionTrace
  unfolding fund new_builder execute_transactions build
  execute_with_transactions x batch txs =
      let s = fund [] (map (λ tx. tx.sender) txs) in
      let (final, b) = execute_transactions x 0 txs s (new_builder batch.batch_id s) in
      ok (build final b)
