-- ===== src/Common/Types.antt =====
-- The data that the stages of the pipeline hand on (crates/common/src/types.rs).
use catalyst_svm.Prelude.{ℕ, List, [], Option, none, Bool, length}
use catalyst_svm.Text.{Text, codes}

-- A newtype over `String`; `new` and `as_str` are the identity.
abbrev pub TransactionId : Type 0
TransactionId = Text

pub data TransactionPriority : Type 0 where
  low normal high critical : TransactionPriority

-- The discriminant, by which the derived order compares.
abbrev pub rank : TransactionPriority → ℕ
rank low = 0
rank normal = 1
rank high = 2
rank critical = 3

pub record Transaction : Type 0 where
  pub tx_id : TransactionId
  pub arrival_ts : ℕ
  pub sender : Text
  pub program_id : Text
  pub accounts : List Text
  pub instruction_data : List ℕ
  pub priority : TransactionPriority
  pub estimated_cu : ℕ
  pub deadline_ms : Option ℕ

-- `Transaction::new`
abbrev pub new_transaction : TransactionId → Text → Text → Transaction
new_transaction id from program = record {
  tx_id = id;
  arrival_ts = 0;
  sender = from;
  program_id = program;
  accounts = [];
  instruction_data = [];
  priority = normal;
  estimated_cu = 200000;
  deadline_ms = none;
}

pub data BatchStatus : Type 0 where
  pending sealed executed proof_generated verified failed : BatchStatus

pub data SealReason : Type 0 where
  count_threshold time_threshold latency_budget priority_fast_lane manual adaptive : SealReason

-- `Display for SealReason`
abbrev pub show_seal_reason : SealReason → Text
show_seal_reason count_threshold = codes "count_threshold"
show_seal_reason time_threshold = codes "time_threshold"
show_seal_reason latency_budget = codes "latency_budget"
show_seal_reason priority_fast_lane = codes "priority_fast_lane"
show_seal_reason manual = codes "manual"
show_seal_reason adaptive = codes "adaptive"

pub record Batch : Type 0 where
  pub batch_id : Text
  pub tx_ids : List TransactionId
  pub start_ts : ℕ
  pub seal_ts : ℕ
  pub reason_sealed : SealReason
  pub batch_hash : Text
  pub trace_hash : Option Text
  pub proof_hash : Option Text
  pub status : BatchStatus
  pub total_cu : ℕ

-- `Batch::new`
abbrev pub new_batch : Text → ℕ → Batch
new_batch id start = record {
  batch_id = id;
  tx_ids = [];
  start_ts = start;
  seal_ts = 0;
  reason_sealed = manual;
  batch_hash = [];
  trace_hash = none;
  proof_hash = none;
  status = pending;
  total_cu = 0;
}

-- `Batch::size`
abbrev pub batch_size : Batch → ℕ
batch_size b = length b.tx_ids

pub record TraceEntry : Type 0 where
  pub tx_idx : ℕ
  pub tx_id : TransactionId
  pub pre_state_hash : Text
  pub instruction : Text
  pub accounts_read : List Text
  pub accounts_written : List Text
  pub post_state_hash : Text
  pub compute_used : ℕ
  pub success : Bool
  pub error : Option Text

pub record ExecutionTrace : Type 0 where
  pub batch_id : Text
  pub entries : List TraceEntry
  pub state_root_pre : Text
  pub state_root_post : Text
  pub trace_hash : Text
  pub total_compute : ℕ
  pub success_count : ℕ
  pub failure_count : ℕ

pub record ProofCommitment : Type 0 where
  pub batch_hash : Text
  pub trace_hash : Text
  pub state_root_pre : Text
  pub state_root_post : Text
  pub total_compute : ℕ
  pub tx_count : ℕ

pub record Proof : Type 0 where
  pub batch_id : Text
  pub proof_data : List ℕ
  pub proof_hash : Text
  pub commitment : ProofCommitment
  pub generated_at : ℕ
  pub proving_time_ms : ℕ
  pub proof_size_bytes : ℕ

pub record VerificationResult : Type 0 where
  pub batch_id : Text
  pub is_valid : Bool
  pub verification_time_ms : ℕ
  pub error : Option Text
