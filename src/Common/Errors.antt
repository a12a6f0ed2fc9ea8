-- ===== src/Common/Errors.antt =====
-- The errors of the stages, and their messages (crates/common/src/errors.rs).
use catalyst_svm.Prelude.{ℕ, ◌++◌, Bool}
use catalyst_svm.Text.{Text, codes, decimal, show_bool}

pub data IngressError : Type 0 where
  invalid_format invalid_sender invalid_program : Text → IngressError
  compute_budget_exceeded : ℕ → ℕ → IngressError
  empty_instruction : IngressError
  validation_failed : Text → IngressError

pub data ExecError : Type 0 where
  invalid_opcode : ℕ → ExecError
  -- the amount needed, and the balance available
  insufficient_balance : ℕ → ℕ → ExecError
  account_not_found : Text → ExecError
  compute_budget_exceeded : ℕ → ℕ → ExecError
  batch_failed state_corruption : Text → ExecError

pub data ProveError : Type 0 where
  invalid_trace commitment_failed serialization_failed internal : Text → ProveError

pub data VerifyError : Type 0 where
  commitment_mismatch : Text → Text → VerifyError
  invalid_proof_format : Text → VerifyError
  trace_hash_mismatch : VerifyError
  state_root_mismatch : Bool → Bool → VerifyError
  verification_failed : Text → VerifyError

-- `Display`, as `thiserror` derives it from the `#[error]` formats.
unfoldable pub show_ingress_error : IngressError → Text
unfolding decimal
show_ingress_error (IngressError.invalid_format m) = codes "invalid transaction format: " ++ m
show_ingress_error (IngressError.invalid_sender m) = codes "invalid sender: " ++ m
show_ingress_error (IngressError.invalid_program m) = codes "invalid program ID: " ++ m
show_ingress_error (IngressError.compute_budget_exceeded requested limit) =
    codes "compute budget " ++ decimal requested ++ codes " exceeds maximum " ++ decimal limit
show_ingress_error IngressError.empty_instruction = codes "empty instruction data"
show_ingress_error (IngressError.validation_failed m) = codes "validation failed: " ++ m

unfoldable pub show_exec_error : ExecError → Text
unfolding decimal
show_exec_error (ExecError.invalid_opcode op) = codes "invalid instruction opcode: " ++ decimal op
show_exec_error (ExecError.insufficient_balance needed available) =
    codes "insufficient balance for transfer: need "
    ++ decimal needed
    ++ codes ", have "
    ++ decimal available
show_exec_error (ExecError.account_not_found m) = codes "account not found: " ++ m
show_exec_error (ExecError.compute_budget_exceeded used limit) =
    codes "compute budget exceeded: used " ++ decimal used ++ codes ", limit " ++ decimal limit
show_exec_error (ExecError.batch_failed m) = codes "batch execution failed: " ++ m
show_exec_error (ExecError.state_corruption m) = codes "state corruption detected: " ++ m

unfoldable pub show_prove_error : ProveError → Text
show_prove_error (ProveError.invalid_trace m) = codes "invalid trace: " ++ m
show_prove_error (ProveError.commitment_failed m) = codes "commitment generation failed: " ++ m
show_prove_error (ProveError.serialization_failed m) = codes "proof serialization failed: " ++ m
show_prove_error (ProveError.internal m) = codes "prover internal error: " ++ m

unfoldable pub show_verify_error : VerifyError → Text
show_verify_error (VerifyError.commitment_mismatch expected actual) =
    codes "commitment mismatch: expected " ++ expected ++ codes ", got " ++ actual
show_verify_error (VerifyError.invalid_proof_format m) = codes "invalid proof format: " ++ m
show_verify_error VerifyError.trace_hash_mismatch = codes "trace hash mismatch"
show_verify_error (VerifyError.state_root_mismatch pre post) =
    codes "state root mismatch: pre=" ++ show_bool pre ++ codes ", post=" ++ show_bool post
show_verify_error (VerifyError.verification_failed m) = codes "verification failed: " ++ m

-- `#[from]` makes the first four constructors the conversions.
pub data PipelineError : Type 0 where
  ingress : IngressError → PipelineError
  execution : ExecError → PipelineError
  proving : ProveError → PipelineError
  verification : VerifyError → PipelineError
  empty_queue : PipelineError
  batch_not_found config : Text → PipelineError

unfoldable pub show_pipeline_error : PipelineError → Text
unfolding show_ingress_error show_exec_error show_prove_error show_verify_error
show_pipeline_error (PipelineError.ingress e) = codes "ingress error: " ++ show_ingress_error e
show_pipeline_error (PipelineError.execution e) = codes "execution error: " ++ show_exec_error e
show_pipeline_error (PipelineError.proving e) = codes "proving error: " ++ show_prove_error e
show_pipeline_error (PipelineError.verification e) =
    codes "verification error: " ++ show_verify_error e
show_pipeline_error PipelineError.empty_queue = codes "queue is empty"
show_pipeline_error (PipelineError.batch_not_found m) = codes "batch not found: " ++ m
show_pipeline_error (PipelineError.config m) = codes "configuration error: " ++ m
