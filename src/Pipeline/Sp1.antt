-- ===== src/Pipeline/Sp1.antt =====
-- The stages that the pipeline is used with: the prover and the verifier over the SDK.
use catalyst_svm.Prelude.{ℕ, List, ◌∙◌, ◌≡◌, refl, none, true, Result, ok}
use catalyst_svm.Prelude.Float.{Float}
use catalyst_svm.Common.Types.{Transaction, ExecutionTrace, VerificationResult}
use catalyst_svm.Common.Errors.{VerifyError}
use catalyst_svm.Common.Hashing.{Hasher}
use catalyst_svm.Common.Clock.{VirtualClock}
use catalyst_svm.Prover.{Sdk, IsFaithful, prove}
use catalyst_svm.Verifier.{verify, result_of}
use catalyst_svm.Verifier.Proving.{prove-IsProofOf}
use catalyst_svm.Pipeline.{Stages}
use catalyst_svm.Executor.{FullExecutor}
use catalyst_svm.Metrics.{BatchMetrics}
use catalyst_svm.Pipeline.Runs.{IsRunOf}

-- The measured times of the two calls may depend on all that they are given.
abbrev pub sp1_stages :
    ⦃h : Hasher⦄
    → Sdk
    → (ExecutionTrace → VirtualClock → ℕ)
    → (ExecutionTrace → VirtualClock → ℕ)
    → Stages
sp1_stages sdk proving verifying = record {
  prove = λ trace txs clock. prove sdk (proving trace clock) trace txs clock;
  verify = λ proof trace clock. verify sdk (verifying trace clock) proof trace clock;
}

valid_of_ok :
    (r : Result VerifyError VerificationResult) (v w : VerificationResult)
    → r ≡ ok v
    → r ≡ ok w
    → v.is_valid ≡ true
    → w.is_valid ≡ true
valid_of_ok r v w e k valid = cc (e, k, valid)

-- Over a faithful SDK, the runs of the stages pass their verification, and are recorded as
-- passed, also where the prover makes up the transactions from the trace.
run_passed :
    ⦃h : Hasher⦄ ⦃f : Float⦄ (sdk : Sdk) (proving verifying : ExecutionTrace → VirtualClock → ℕ)
    (x : FullExecutor) (txs : List Transaction) (m : BatchMetrics)
    → IsFaithful sdk
    → IsRunOf (sp1_stages sdk proving verifying) x txs m
    → m.verification_passed ≡ true
run_passed sdk proving verifying x txs m faithful i =
    let p =
      prove-IsProofOf sdk faithful (proving i.trace i.clock) i.trace txs i.clock i.ran.proved in
    let later = (prove sdk (proving i.trace i.clock) i.trace txs i.clock).1 in
    i.passed
    ∙ valid_of_ok (verify sdk (verifying i.trace later) i.proof i.trace later).0
        (result_of i.trace.batch_id (verifying i.trace later) none) i.verdict
        (p.accepted (verifying i.trace later) later) i.ran.verified refl
