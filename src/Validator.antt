-- ===== src/Validator.antt =====
-- The validator (examples/validator/src/main.rs): its state, and the two calls that change its queue.
pub mod Batches
pub mod Service
pub mod Steps
pub mod Drained
pub mod Accounted
pub mod Pushes
pub mod Queue
pub mod Requests
pub mod Connection
pub mod Timer
pub mod Saved
pub mod Delivery
pub mod Attested
pub mod Names
pub mod Refusals
use catalyst_svm.Prelude.{
  ℕ, zero, suc, ◌+◌, ◌-◌, List, [], ◌∷◌, ◌++◌, Option, none, some, Result, ok, err, Bool, true,
  false, wrap64, length, take, drop, min, if◌then◌else◌, not,
}
use catalyst_svm.Prelude.Float.{Float}
use catalyst_svm.Text.{Text, codes, text_eq, decimal, hexadecimal, zero_padded}
use catalyst_svm.Text.Order.{text_ord}
use catalyst_svm.OrderedMap.{insert}
use catalyst_svm.Common.Types.{
  Transaction, TransactionPriority, low, normal, high, critical, new_transaction, Batch,
}
use catalyst_svm.Common.Hashing.{Hasher}
use catalyst_svm.Executor.{State, FullExecutor, new_full_executor}
use catalyst_svm.Prover.{Sdk}
use catalyst_svm.Host.{Host}
use catalyst_svm.Policy.Engine.{Policy, fixed_count, fixed_time, should_seal}
use catalyst_svm.Policy.Adaptive.{new_adaptive}

pub data PolicyType : Type 0 where
  fixed time hybrid adaptive : PolicyType

pub record SubmitTxParams : Type 0 where
  pub sender : Text
  pub program_id : Text
  pub instruction_data : List ℕ
  pub priority : Option Text

pub record ProofRecord : Type 0 where
  pub batch_id : Text
  pub proof_hash : Text
  pub state_root_pre : Text
  pub state_root_post : Text
  pub tx_count : ℕ
  pub proving_time_ms : ℕ
  pub proof_size_bytes : ℕ
  pub timestamp : ℕ

pub record ValidatorState : Type 0 where
  pub pending_txs : List Transaction
  pub batches : List Batch
  pub proofs : List ProofRecord
  pub state : State
  pub tx_counter : ℕ
  pub batch_counter : ℕ

-- The loop of `default` over `from..from + n`.
unfoldable pub insert_accounts : ℕ → ℕ → State → State
unfolding insert decimal
insert_accounts zero from s = s
insert_accounts (suc n) from s =
    insert_accounts n (suc from) (insert s (codes "account_" ++ decimal from) 1000000)

-- `ValidatorState::default`
unfoldable pub default_validator : ValidatorState
unfolding insert_accounts
default_validator = record {
  pending_txs = [];
  batches = [];
  proofs = [];
  state = insert_accounts 100 0 [];
  tx_counter = 0;
  batch_counter = 0;
}

-- The arguments that the validator is made from, but for the port.
pub record Args : Type 0 where
  pub proof_dir : Text
  pub policy : PolicyType
  pub batch_size : ℕ
  pub batch_timeout_ms : ℕ
  pub broadcast_addr : Option Text

module _ ⦃f : Float⦄ where
  -- `Validator`, but for its state, which is passed on, and its clock.
  pub record Validator : Type 1 where
    pub policy : Policy
    pub executor : FullExecutor
    pub sdk : Sdk
    pub host : Host
    pub proof_dir : Text
    pub batch_size : ℕ
    pub broadcast_addr : Option Text

  abbrev pub policy_of : PolicyType → ℕ → ℕ → Policy
  policy_of PolicyType.fixed batch_size timeout = fixed_count (record { threshold = batch_size })
  policy_of PolicyType.time batch_size timeout = fixed_time (record { interval_ms = timeout })
  policy_of PolicyType.hybrid batch_size timeout =
      Policy.hybrid (record { count_threshold = batch_size; time_threshold_ms = timeout })
  policy_of PolicyType.adaptive batch_size timeout =
      Policy.adaptive (new_adaptive batch_size 200 timeout 100)

  -- `Validator::new`
  abbrev pub new_validator : Sdk → Host → Args → Validator
  new_validator sdk host args = record {
    policy = policy_of args.policy args.batch_size args.batch_timeout_ms;
    executor = new_full_executor 200000;
    sdk = sdk;
    host = host;
    proof_dir = args.proof_dir;
    batch_size = args.batch_size;
    broadcast_addr = args.broadcast_addr;
  }

abbrev pub priority_named : Text → TransactionPriority
priority_named p =
    if text_eq p (codes "low")
    then low
    else if text_eq p (codes "high")
    then high
    else if text_eq p (codes "critical")
    then critical
    else normal

abbrev pub priority_of : Option Text → TransactionPriority
priority_of none = normal
priority_of (some p) = priority_named p

-- `format!("tx_{:08x}", n)`
unfoldable pub tx_name : ℕ → Text
unfolding hexadecimal zero_padded
tx_name n = codes "tx_" ++ zero_padded 8 (hexadecimal n)

unfoldable pub submitted_tx : ℕ → ℕ → SubmitTxParams → Transaction
unfolding tx_name
submitted_tx counter now p =
    let tx = new_transaction (tx_name counter) p.sender p.program_id in
    record tx {
      instruction_data = p.instruction_data;
      priority = priority_of p.priority;
      arrival_ts = now;
    }

-- `Validator::submit_transaction`
unfoldable pub submit_transaction :
    ℕ → SubmitTxParams → ValidatorState → Result Text Text × ValidatorState
unfolding submitted_tx
submit_transaction now p s =
    let counter = wrap64 (s.tx_counter + 1) in
    (
      ok (tx_name counter),
      record s {
        tx_counter = counter;
        pending_txs = s.pending_txs ++ (submitted_tx counter now p ∷ []);
      },
    )

-- `format!("batch_{:06}", n)`
unfoldable pub batch_name : ℕ → Text
unfolding decimal zero_padded
batch_name n = codes "batch_" ++ zero_padded 6 (decimal n)

-- A batch on its way to the stages: its name and its transactions.
abbrev pub SealedBatch : Type 0
SealedBatch = Text × List Transaction

-- The counter, and the transactions drained from the front, up to `batch_size`.
unfoldable pub drain : ℕ → ValidatorState → SealedBatch × ValidatorState
unfolding batch_name
drain batch_size s =
    let counter = wrap64 (s.batch_counter + 1) in
    let size = min (length s.pending_txs) batch_size in
    (
      (batch_name counter, take size s.pending_txs),
      record s { batch_counter = counter; pending_txs = drop size s.pending_txs },
    )

module _ ⦃f : Float⦄ (v : Validator) where
  abbrev pub drained_if : Bool → ValidatorState → Option SealedBatch × ValidatorState
  unfolding drain
  drained_if false s = (none, s)
  drained_if true s = let (b, s') = drain v.batch_size s in (some b, s')

  -- `now.saturating_sub(oldest.arrival_ts)`, where there is a transaction.
  abbrev pub seal_queue :
      List Transaction → ℕ → ValidatorState → Option SealedBatch × ValidatorState
  unfolding should_seal
  seal_queue [] now s = (none, s)
  seal_queue (oldest ∷ rest) now s =
      drained_if
        (should_seal v.policy (length (oldest ∷ rest)) (now - oldest.arrival_ts) (f.literal 0 0)) s

  -- `check_and_seal_batch` as far as it holds the lock.
  unfoldable pub seal : ℕ → ValidatorState → Option SealedBatch × ValidatorState
  unfolding drain should_seal
  seal now s = seal_queue s.pending_txs now s
