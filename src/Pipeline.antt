-- ===== src/Pipeline.antt =====
-- The pipeline (crates/benchmark-cli/src/engine.rs): ingest, batch, execute, prove, verify. The
-- prover and the verifier are the source's type parameters `P: Prover` and `V: Verifier`.
pub mod Queues
pub mod Conservation
pub mod Runs
pub mod Holding
pub mod Recorded
pub mod Sp1
pub mod Waiting
use catalyst_svm.Prelude.{
  ℕ, ◌+◌, ◌-◌, ◌*◌, ◌/◌, List, [], ◌∷◌, ◌++◌, Bool, true, false, map, length, wrap64, max, ltb, leb,
  ◌==◌, zero, suc, if◌then◌else◌, Result, ok, err, map_err, is_empty,
}
use catalyst_svm.Prelude.Float.{Float}
use catalyst_svm.Text.{Text, codes, decimal, zero_padded}
use catalyst_svm.Common.Types.{
  Transaction, TransactionPriority, rank, Batch, new_batch, SealReason, ExecutionTrace, Proof,
  VerificationResult,
}
use catalyst_svm.Common.Errors.{
  ExecError, ProveError, VerifyError, show_prove_error, show_verify_error,
}
use catalyst_svm.Common.Hashing.{Hasher}
use catalyst_svm.Common.Clock.{VirtualClock, advance, now_ms}
use catalyst_svm.Executor.{FullExecutor, execute_with_transactions}
use catalyst_svm.Policy.Engine
use catalyst_svm.Policy.Engine.{Policy, should_seal}
use catalyst_svm.Metrics.{
  BatchMetrics, SystemMetrics, MetricsAggregator, new_aggregator, record_metrics, finalize,
}

-- `P: Prover` and `V: Verifier`: the two calls, which may move the clock.
pub record Stages : Type 0 where
  pub prove :
      ExecutionTrace → List Transaction → VirtualClock → Result ProveError Proof × VirtualClock
  pub verify :
      Proof → ExecutionTrace → VirtualClock → Result VerifyError VerificationResult × VirtualClock

module _ ⦃h : Hasher⦄ ⦃f : Float⦄ where
  pub record PipelineEngine : Type 0 where
    pub policy : Policy
    pub executor : FullExecutor
    pub clock : VirtualClock
    pub queue : List Transaction
    pub priority_lane : List Transaction
    pub batch_counter : ℕ
    pub oldest_arrival : ℕ
    pub last_seal_time : ℕ
    pub metrics : MetricsAggregator

  -- `PipelineEngine::new`
  abbrev pub new_engine : Policy → FullExecutor → VirtualClock → PipelineEngine
  new_engine policy executor clock = record {
    policy = policy;
    executor = executor;
    clock = clock;
    queue = [];
    priority_lane = [];
    batch_counter = 0;
    oldest_arrival = 0;
    last_seal_time = 0;
    metrics = new_aggregator;
  }

  -- The batch that is sealed: its name, its time and its transactions.
  abbrev pub sealed_batch : ℕ → ℕ → List Transaction → Batch
  unfolding zero_padded decimal
  sealed_batch counter now txs =
      let b = new_batch (codes "batch_" ++ zero_padded 6 (decimal counter)) now in
      record b {
        tx_ids = map (λ t. t.tx_id) txs;
        seal_ts = now;
        reason_sealed = SealReason.adaptive;
      }

  -- What the stages make of a batch, and the clock after them.
  abbrev pub Staged : Type 0
  Staged = Result ExecError (ExecutionTrace × Proof × VerificationResult) × VirtualClock

  -- The answer of the verifier, of the prover and of the executor, each with its `?`.
  unfoldable pub verified :
      ExecutionTrace → Proof → Result VerifyError VerificationResult × VirtualClock → Staged
  unfolding show_verify_error
  verified trace proof (err e, clock) =
      (err (ExecError.batch_failed (codes "verify failed: " ++ show_verify_error e)), clock)
  verified trace proof (ok v, clock) = (ok (trace, proof, v), clock)

  unfoldable pub proved : Stages → ExecutionTrace → Result ProveError Proof × VirtualClock → Staged
  unfolding show_prove_error verified
  proved stages trace (err e, clock) =
      (err (ExecError.batch_failed (codes "prove failed: " ++ show_prove_error e)), clock)
  proved stages trace (ok proof, clock) = verified trace proof (stages.verify proof trace clock)

  unfoldable pub executed :
      Stages → List Transaction → VirtualClock → Result ExecError ExecutionTrace → Staged
  unfolding proved
  executed stages txs clock (err e) = (err e, clock)
  executed stages txs clock (ok trace) = proved stages trace (stages.prove trace txs clock)

  -- The stages over a sealed batch.
  unfoldable pub run_stages :
      Stages → FullExecutor → Batch → List Transaction → VirtualClock → Staged
  unfolding execute_with_transactions executed
  run_stages stages executor batch txs clock =
      executed stages txs clock (execute_with_transactions executor batch txs)

  -- The metrics of a batch that went through, started and ended at two times.
  abbrev pub metrics_of :
      Text → Text → ℕ → ℕ → ℕ → ExecutionTrace → Proof → VerificationResult → BatchMetrics
  metrics_of id policy size started ended trace proof v =
      let end_to_end = ended - started in
      record {
        batch_id = id;
        policy_name = policy;
        batch_size = size;
        total_compute_used = trace.total_compute;
        execution_time_ms = trace.total_compute / 1000;
        proving_time_ms = proof.proving_time_ms;
        verification_time_ms = v.verification_time_ms;
        end_to_end_latency_ms = end_to_end;
        proof_size_bytes = proof.proof_size_bytes;
        throughput_tps =
            if ltb 0 end_to_end
            then f.div (f.of_nat size) (f.div (f.of_nat end_to_end) (f.literal 1000 0))
            else f.mul (f.of_nat size) (f.literal 1000 0);
        avg_tx_latency_ms = f.div (f.of_nat end_to_end) (f.of_nat size);
        verification_passed = v.is_valid;
      }

  -- `self.queue.front().or(self.priority_lane.front())`, and the arrival that it sets.
  abbrev pub next_oldest : List Transaction → List Transaction → ℕ → ℕ
  next_oldest (t ∷ _) lane before = t.arrival_ts
  next_oldest [] (t ∷ _) before = t.arrival_ts
  next_oldest [] [] before = before

  -- The end of `seal_and_process`, with the queues already drained into the batch.
  abbrev pub settle :
      Text
      → ℕ
      → ℕ
      → PipelineEngine
      → Result ExecError (ExecutionTrace × Proof × VerificationResult) × VirtualClock
      → Result ExecError (Unit {0}) × PipelineEngine
  settle id size started e (err x, clock) = (err x, record e { clock = clock })
  settle id size started e (ok (trace, proof, v), clock) = (
    ok tt,
    record e {
      clock = clock;
      metrics =
          record_metrics
            (metrics_of id (Engine.name e.policy) size started clock.current_ms trace proof v)
            e.metrics;
      last_seal_time = clock.current_ms;
      oldest_arrival = next_oldest e.queue e.priority_lane e.oldest_arrival;
    },
  )

module _ ⦃h : Hasher⦄ ⦃f : Float⦄ (stages : Stages) where
  -- The batch of some transactions, which are not in the queues any more.
  unfoldable pub process :
      List Transaction → PipelineEngine → Result ExecError (Unit {0}) × PipelineEngine
  unfolding run_stages sealed_batch
  process [] e = (ok tt, e)
  process (t ∷ rest) e =
      let txs = t ∷ rest in
      let counter = wrap64 (e.batch_counter + 1) in
      let now = e.clock.current_ms in
      let batch = sealed_batch counter now txs in
      settle batch.batch_id (length txs) now (record e { batch_counter = counter })
        (run_stages stages e.executor batch txs e.clock)

  -- `PipelineEngine::seal_and_process`
  unfoldable pub seal_and_process : PipelineEngine → Result ExecError (Unit {0}) × PipelineEngine
  unfolding process
  seal_and_process e =
      process (e.priority_lane ++ e.queue) (record e { queue = []; priority_lane = [] })

  -- `PipelineEngine::try_seal`
  unfoldable pub try_seal : PipelineEngine → Result ExecError (Unit {0}) × PipelineEngine
  unfolding seal_and_process should_seal
  try_seal e =
      let total = length e.queue + length e.priority_lane in
      let now = e.clock.current_ms in
      let oldest_wait = now - e.oldest_arrival in
      let since_last = max (now - e.last_seal_time) 1 in
      let rate = f.div (f.of_nat total) (f.div (f.of_nat since_last) (f.literal 1000 0)) in
      if total == 0
      then (ok tt, e)
      else if should_seal e.policy total oldest_wait rate
      then seal_and_process e
      else (ok tt, e)

  -- High and critical transactions take the fast lane.
  abbrev pub enqueue : Transaction → PipelineEngine → PipelineEngine
  enqueue tx e =
      if leb (rank TransactionPriority.high) (rank tx.priority)
      then record e { priority_lane = e.priority_lane ++ tx ∷ [] }
      else record e { queue = e.queue ++ tx ∷ [] }

  -- The two updates before it: the oldest arrival of an empty pipeline, and the clock.
  abbrev pub arrive : Transaction → PipelineEngine → PipelineEngine
  arrive tx e = record e {
    oldest_arrival =
        if is_empty e.queue
        then if is_empty e.priority_lane then tx.arrival_ts else e.oldest_arrival
        else e.oldest_arrival;
    clock =
        if ltb e.clock.current_ms tx.arrival_ts
        then advance (tx.arrival_ts - e.clock.current_ms) e.clock
        else e.clock;
  }

  -- `PipelineEngine::ingest`
  unfoldable pub ingest :
      Transaction → PipelineEngine → Result ExecError (Unit {0}) × PipelineEngine
  unfolding try_seal
  ingest tx e = try_seal (enqueue tx (arrive tx e))

  -- The `?` after a round of the loop.
  abbrev pub after_round :
      Result ExecError (Unit {0})
      → PipelineEngine
      → Result ExecError (Unit {0}) × PipelineEngine
      → Result ExecError (Unit {0}) × PipelineEngine
  after_round (err x) e rest = (err x, e)
  after_round (ok tt) e rest = rest

  -- The loop of `run_simulation` (crates/benchmark-cli/src/main.rs) over the workload.
  unfoldable pub ingest_all :
      List Transaction → PipelineEngine → Result ExecError (Unit {0}) × PipelineEngine
  unfolding ingest
  ingest_all [] e = (ok tt, e)
  ingest_all (tx ∷ txs) e =
      let (result, e') = ingest tx e in after_round result e' (ingest_all txs e')

  -- `PipelineEngine::flush`: the loop, on fuel.
  unfoldable pub flush : ℕ → PipelineEngine → Result ExecError (Unit {0}) × PipelineEngine
  unfolding seal_and_process
  flush zero e = (ok tt, e)
  flush (suc fuel) e =
      let (result, e') = seal_and_process e in
      let rest = flush fuel e' in
      if length e.queue + length e.priority_lane == 0
      then (ok tt, e)
      else after_round result e' rest
