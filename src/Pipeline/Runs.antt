-- ===== src/Pipeline/Runs.antt =====
-- What is behind a recorded batch of the pipeline: a run of the three stages over its transactions.
use catalyst_svm.Prelude.{◌≡◌, refl, ◌∙◌, ap, List, [], ◌∷◌, ◌++◌, map, length, ℕ, Result, ok, err}
use catalyst_svm.Prelude.Float.{Float}
use catalyst_svm.Common.Types.{Transaction, Batch, ExecutionTrace, Proof, VerificationResult}
use catalyst_svm.Common.Errors.{ExecError, ProveError, VerifyError}
use catalyst_svm.Common.Hashing.{Hasher}
use catalyst_svm.Common.Clock.{VirtualClock}
use catalyst_svm.Executor.{FullExecutor, execute_with_transactions}
use catalyst_svm.Metrics.{BatchMetrics}
use catalyst_svm.Pipeline.{
  Stages, Staged, PipelineEngine, verified, proved, executed, run_stages, settle,
}

module _ ⦃h : Hasher⦄ ⦃f : Float⦄ (stages : Stages) where
  -- The calls of the stages that end in these results.
  pub record Ran (x : FullExecutor) (batch : Batch) (txs : List Transaction) (clock : VirtualClock)
      (trace : ExecutionTrace) (proof : Proof) (v : VerificationResult) : Type 0 where
    pub executed : execute_with_transactions x batch txs ≡ ok trace
    pub proved : (stages.prove trace txs clock).0 ≡ ok proof
    pub verified : (stages.verify proof trace (stages.prove trace txs clock).1).0 ≡ ok v

  -- The metrics of a batch are those of a run over these transactions, which the batch names.
  pub record IsRunOf (x : FullExecutor) (txs : List Transaction) (m : BatchMetrics) : Type 0 where
    pub batch : Batch
    pub clock : VirtualClock
    pub trace : ExecutionTrace
    pub proof : Proof
    pub verdict : VerificationResult
    pub ran : Ran x batch txs clock trace proof verdict
    pub names : batch.tx_ids ≡ map (λ t. t.tx_id) txs
    pub batch_id : m.batch_id ≡ batch.batch_id
    pub size : m.batch_size ≡ length txs
    pub compute : m.total_compute_used ≡ trace.total_compute
    pub proof_size : m.proof_size_bytes ≡ proof.proof_size_bytes
    pub passed : m.verification_passed ≡ verdict.is_valid

  verified_ok :
      (trace : ExecutionTrace) (proof : Proof)
      (r : Result VerifyError VerificationResult × VirtualClock) {t : ExecutionTrace} {p : Proof}
      {v : VerificationResult} {c : VirtualClock}
      → verified trace proof r ≡ (ok (t, p, v), c)
      → (trace ≡ t) × (proof ≡ p) × (r.0 ≡ ok v)
  unfolding verified
  verified_ok trace proof (err e, clock) same = cc same
  verified_ok trace proof (ok v, clock) same = (cc same, cc same, cc same)

  proved_ok :
      (trace : ExecutionTrace) (r : Result ProveError Proof × VirtualClock) {t : ExecutionTrace}
      {p : Proof} {v : VerificationResult} {c : VirtualClock}
      → proved stages trace r ≡ (ok (t, p, v), c)
      → (trace ≡ t) × (r.0 ≡ ok p) × ((stages.verify p t r.1).0 ≡ ok v)
  unfolding proved
  proved_ok trace (err e, clock) same = cc same
  proved_ok trace (ok proof, clock) same =
      let (trace_is, proof_is, checked) =
        verified_ok trace proof (stages.verify proof trace clock) same in
      (trace_is, ap ok proof_is, rw (trace_is, proof_is) at checked)

  executed_ok :
      (x : FullExecutor) (batch : Batch) (txs : List Transaction) (clock : VirtualClock)
      (r : Result ExecError ExecutionTrace) {t : ExecutionTrace} {p : Proof}
      {v : VerificationResult} {c : VirtualClock}
      → execute_with_transactions x batch txs ≡ r
      → executed stages txs clock r ≡ (ok (t, p, v), c)
      → Ran x batch txs clock t p v
  unfolding executed
  executed_ok x batch txs clock (err e) runs same = cc same
  executed_ok x batch txs clock (ok trace) runs same =
      let (trace_is, made, checked) = proved_ok trace (stages.prove trace txs clock) same in
      record {
        executed = runs ∙ ap ok trace_is;
        proved = rw trace_is at made;
        verified = rw trace_is at checked;
      }

  -- A batch that is settled after its run is recorded with the run's results.
  pub record Settles (x : FullExecutor) (txs : List Transaction) (e e' : PipelineEngine)
      : Type 0 where
    pub metrics : BatchMetrics
    pub run : IsRunOf x txs metrics
    pub recorded : e'.metrics.batch_metrics ≡ e.metrics.batch_metrics ++ (metrics ∷ [])
    pub executor : e'.executor ≡ e.executor
    pub lane : e'.priority_lane ≡ e.priority_lane
    pub queue : e'.queue ≡ e.queue

  pub settled :
      (x : FullExecutor) (batch : Batch) (txs : List Transaction) (clock : VirtualClock)
      (started : ℕ) (e : PipelineEngine) (r : Staged)
      → batch.tx_ids ≡ map (λ t. t.tx_id) txs
      → run_stages stages x batch txs clock ≡ r
      → (settle batch.batch_id (length txs) started e r).0 ≡ ok tt
      → Settles x txs e (settle batch.batch_id (length txs) started e r).1
  unfolding run_stages
  settled x batch txs clock started e (err x', clock') names runs done = cc done
  settled x batch txs clock started e (ok (trace, proof, v), clock') names runs done = record {
    metrics = _;
    run = record {
      batch = batch;
      clock = clock;
      trace = trace;
      proof = proof;
      verdict = v;
      ran = executed_ok x batch txs clock (execute_with_transactions x batch txs) refl runs;
      names = names;
      batch_id = refl;
      size = refl;
      compute = refl;
      proof_size = refl;
      passed = refl;
    };
    recorded = refl;
    executor = refl;
    lane = refl;
    queue = refl;
  }
