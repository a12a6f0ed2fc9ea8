-- ===== src/Verifier.antt =====
-- The crate `catalyst-sp1-verifier` (crates/sp1-verifier/src/lib.rs), over the SDK of the prover.
pub mod Soundness
pub mod Proving
use catalyst_svm.Prelude.{
  ℕ, List, ◌++◌, Option, none, some, Bool, true, false, not, Result, ok, err, map_err, ◌==◌, ◌>>=◌,
  ◌>>◌, if◌then◌else◌,
}
use catalyst_svm.Text.{Text, codes, text_eq}
use catalyst_svm.Common.Types.{ExecutionTrace, Proof, VerificationResult}
use catalyst_svm.Common.Errors.{VerifyError}
use catalyst_svm.Common.Clock.{VirtualClock, sleep_ms}
use catalyst_svm.Guest.{PublicInputs}
use catalyst_svm.Prover.{Sdk}

-- The comparisons with the trace: the message of the first that fails.
unfoldable pub mismatch : PublicInputs → ExecutionTrace → Option Text
unfolding text_eq
mismatch p trace =
    if not (text_eq p.trace_hash trace.trace_hash)
    then some (
        codes "trace hash mismatch: expected "
        ++ trace.trace_hash
        ++ codes ", got "
        ++ p.trace_hash)
    else if not (text_eq p.state_root_pre trace.state_root_pre)
    then some (codes "pre-state root mismatch")
    else if not (text_eq p.state_root_post trace.state_root_post)
    then some (codes "post-state root mismatch")
    else if not (p.total_compute == trace.total_compute)
    then some (codes "total compute mismatch")
    else none

-- The result with a message, or without one.
abbrev pub result_of : Text → ℕ → Option Text → VerificationResult
result_of id elapsed none = record {
  batch_id = id;
  is_valid = true;
  verification_time_ms = elapsed;
  error = none;
}
result_of id elapsed (some message) = record {
  batch_id = id;
  is_valid = false;
  verification_time_ms = elapsed;
  error = some message;
}

module _ (sdk : Sdk) where
  -- The `match` on the SDK's answer.
  abbrev pub judge :
      Result Text (Unit {0}) → sdk.ProofWithPublicValues → ExecutionTrace → Option Text
  judge (ok tt) proof trace = mismatch (sdk.public_values proof) trace
  judge (err e) proof trace = some (codes "SP1 verification failed: " ++ e)

  -- The two calls that end the verification with an error.
  unfoldable pub opened : List ℕ → Result VerifyError sdk.ProofWithPublicValues
  opened bytes = do
    proof ←
        map_err (λ e. VerifyError.verification_failed (codes "failed to deserialize proof: " ++ e))
          (sdk.deserialize bytes)
    map_err (λ e. VerifyError.verification_failed (codes "failed to setup verifier: " ++ e))
        sdk.setup
    ok proof

  -- The rest of `verify`, after those calls. An error leaves the clock alone.
  abbrev pub concluded :
      ℕ
      → Text
      → ExecutionTrace
      → VirtualClock
      → Result VerifyError sdk.ProofWithPublicValues
      → Result VerifyError VerificationResult × VirtualClock
  concluded elapsed id trace clock (err e) = (err e, clock)
  concluded elapsed id trace clock (ok p) =
      (ok (result_of id elapsed (judge (sdk.verify p) p trace)), sleep_ms elapsed clock)

  -- `Sp1Verifier::verify`; `elapsed` is what `Instant` measures.
  unfoldable pub verify :
      ℕ
      → Proof
      → ExecutionTrace
      → VirtualClock
      → Result VerifyError VerificationResult × VirtualClock
  unfolding opened mismatch
  verify elapsed proof trace clock =
      concluded elapsed proof.batch_id trace clock (opened proof.proof_data)
