-- ===== src/VerifierNode.antt =====
-- The verifier node (examples/verifier-node/src/main.rs): its state, and the verification of a proof.
pub mod Service
pub mod Polling
pub mod Steps
pub mod Connection
pub mod Invariant
pub mod Outcomes
pub mod Commitments
pub mod Attestations
use catalyst_svm.Prelude.{
  ℕ, ◌+◌, List, [], ◌∷◌, ◌++◌, Option, none, some, Result, ok, err, map_err, ◌>>=◌, ◌>>◌, Bool,
  true, false, wrap64,
}
use catalyst_svm.Text.{Text, codes, decimal}
use catalyst_svm.Text.Order.{text_ord}
use catalyst_svm.OrderedMap.{OrderedMap, insert, remove}
use catalyst_svm.Common.Types.{ExecutionTrace, Proof, ProofCommitment, VerificationResult}
use catalyst_svm.Common.Errors.{VerifyError, show_verify_error}
use catalyst_svm.Common.Hashing.{Hasher, hash_str}
use catalyst_svm.Common.Clock.{VirtualClock, new_clock}
use catalyst_svm.Host.{join_path, Host, Disk}
use catalyst_svm.Prover.{Sdk}
use catalyst_svm.Verifier.{verify}

pub record VerifiedBatch : Type 0 where
  pub batch_id : Text
  pub proof_hash : Text
  pub state_root_pre : Text
  pub state_root_post : Text
  pub tx_count : ℕ
  pub verification_time_ms : ℕ
  pub verified_at : ℕ
  pub attestation : Text

pub record ProofMessage : Type 0 where
  pub msg_type : Text
  pub batch_id : Text
  pub proof_hash : Text
  pub commitment : ProofCommitment
  pub proof_size : ℕ

-- The `HashMap` is kept in the order of its keys, which the node never looks at.
pub record VerifierState : Type 0 where
  pub verified_batches : List VerifiedBatch
  pub pending_verifications : OrderedMap Text ProofMessage
  pub current_state_root : Text
  pub verification_count : ℕ
  pub failed_count : ℕ

-- `VerifierState::default`
abbrev pub default_state : VerifierState
default_state = record {
  verified_batches = [];
  pending_verifications = [];
  current_state_root = codes "genesis";
  verification_count = 0;
  failed_count = 0;
}

-- `VerifierNode`, but for its state, which is passed on, and its clock.
pub record VerifierNode : Type 1 where
  pub sdk : Sdk
  pub host : Host
  pub proof_dir : Text
  pub node_id : Text

-- What one verification reads from outside: the files of the directory, whether the blocking task
-- ended without a panic, the times that are measured, and the readings of the system clock.
pub record Readings : Type 0 where
  pub read : Disk
  pub joined : Result Text (Unit {0})
  pub elapsed_in_verifier : ℕ
  pub elapsed : ℕ
  pub verify_clock : ℕ
  pub attested_at : ℕ
  pub verified_at : ℕ

-- `result.error.unwrap_or_default()`
abbrev pub error_text : Option Text → Text
error_text none = []
error_text (some m) = m

-- The verified batch, with what the proof's own commitment says.
unfoldable pub verified_batch : ⦃h : Hasher⦄ → VerifierNode → Readings → Proof → VerifiedBatch
unfolding hash_str decimal
verified_batch node r proof = record {
  batch_id = proof.batch_id;
  proof_hash = proof.proof_hash;
  state_root_pre = proof.commitment.state_root_pre;
  state_root_post = proof.commitment.state_root_post;
  tx_count = proof.commitment.tx_count;
  verification_time_ms = r.elapsed;
  verified_at = r.verified_at;
  attestation = hash_str (
      codes "ATTESTED:"
      ++ node.node_id
      ++ codes ":"
      ++ proof.batch_id
      ++ codes ":"
      ++ proof.proof_hash
      ++ codes ":"
      ++ decimal r.attested_at);
}

-- The write at the end of `verify_proof`. A gap in the chain of roots is only logged.
unfoldable pub push_verified : VerifiedBatch → VerifierState → VerifierState
push_verified v s = record s {
  current_state_root = v.state_root_post;
  verification_count = wrap64 (s.verification_count + 1);
  verified_batches = s.verified_batches ++ (v ∷ []);
}

-- The write after a verification that says that the proof is not valid.
unfoldable pub count_failure : VerifierState → VerifierState
count_failure s = record s { failed_count = wrap64 (s.failed_count + 1) }

module _ ⦃h : Hasher⦄ (node : VerifierNode) where
  -- The call of the verifier in its task, with the two `?`.
  unfoldable pub verification : Readings → Proof → ExecutionTrace → Result Text VerificationResult
  unfolding verify show_verify_error
  verification r proof trace = do
    map_err (λ e. codes "Verification task failed: " ++ e) r.joined
    map_err (λ e. codes "Verification error: " ++ show_verify_error e)
        (verify node.sdk r.elapsed_in_verifier proof trace (new_clock r.verify_clock)).0

  -- The rest of `verify_proof`, by the result's `is_valid`.
  unfoldable pub concluded_by :
      Bool → Option Text → VerifiedBatch → VerifierState → Result Text VerifiedBatch × VerifierState
  unfolding push_verified count_failure
  concluded_by false error v s =
      (err (codes "Verification failed: " ++ error_text error), count_failure s)
  concluded_by true error v s = (ok v, push_verified v s)

  unfoldable pub after_verification :
      Result Text VerificationResult
      → VerifiedBatch
      → VerifierState
      → Result Text VerifiedBatch × VerifierState
  unfolding concluded_by
  after_verification (err e) v s = (err e, s)
  after_verification (ok result) v s = concluded_by result.is_valid result.error v s

  -- `VerifierNode::verify_proof`
  unfoldable pub verify_proof :
      Readings → Proof → ExecutionTrace → VerifierState → Result Text VerifiedBatch × VerifierState
  unfolding verification after_verification verified_batch
  verify_proof r proof trace s =
      after_verification (verification r proof trace) (verified_batch node r proof) s

  -- The two files of a batch, read and decoded.
  unfoldable pub load : Readings → Text → Result Text (Proof × ExecutionTrace)
  load r batch_id = do
    proof_bytes ←
        map_err (λ e. codes "Failed to read proof: " ++ e)
          (r.read (join_path node.proof_dir (batch_id ++ codes ".proof")))
    trace_bytes ←
        map_err (λ e. codes "Failed to read trace: " ++ e)
          (r.read (join_path node.proof_dir (batch_id ++ codes ".trace")))
    proof ← map_err (λ e. codes "Invalid proof: " ++ e) (node.host.deserialize_proof proof_bytes)
    trace ← map_err (λ e. codes "Invalid trace: " ++ e) (node.host.trace_from_slice trace_bytes)
    ok (proof, trace)

  unfoldable pub after_load :
      Readings
      → Result Text (Proof × ExecutionTrace)
      → VerifierState
      → Result Text VerifiedBatch × VerifierState
  unfolding verify_proof
  after_load r (err e) s = (err e, s)
  after_load r (ok (proof, trace)) s = verify_proof r proof trace s

  -- `VerifierNode::verify_proof_file`
  unfoldable pub verify_proof_file :
      Readings → Text → VerifierState → Result Text VerifiedBatch × VerifierState
  unfolding load after_load
  verify_proof_file r batch_id s = after_load r (load r batch_id) s
