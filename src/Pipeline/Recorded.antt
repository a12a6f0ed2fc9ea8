-- ===== src/Pipeline/Recorded.antt =====
-- The transactions of the recorded batches of the pipeline, and those that still wait.
use mathlib.Core.List.{Perm}
use mathlib.Core.List.Perm
use catalyst_svm.Prelude.{
  ◌+◌, ◌≡◌, refl, sym, ◌∙◌, ap, subst, List, [], ◌∷◌, ◌++◌, append_assoc, append-nil, length,
  Result, ok, err, Result-cases, ok_not_err, Bool, true, false, inl, inr, ◌==◌, if◌then◌else◌, leb,
}
use catalyst_svm.Prelude.Float.{Float}
use catalyst_svm.Common.Types.{Transaction, TransactionPriority, rank}
use catalyst_svm.Common.Errors.{ExecError}
use catalyst_svm.Common.Hashing.{Hasher}
use catalyst_svm.Executor.{FullExecutor}
use catalyst_svm.Metrics.{BatchMetrics}
use catalyst_svm.Pipeline.{
  Stages, PipelineEngine, seal_and_process, enqueue, arrive, ingest, flush, ingest_all, after_round,
}
use catalyst_svm.Pipeline.Queues.{try_seal-cases}
use catalyst_svm.Pipeline.Queues.{flush_ends}
use catalyst_svm.Pipeline.Conservation.{recorded, accounted, workload_counted}
use catalyst_svm.Pipeline.Holding.{
  concat, AreRuns, none_yet, Holds, arrive-Holds, enqueued, process-Holds,
}

module _ ⦃h : Hasher⦄ ⦃f : Float⦄ (stages : Stages) (x : FullExecutor)
    (old : List BatchMetrics) where
  sealed-Holds :
      (txs : List Transaction) (e : PipelineEngine)
      → Holds stages x old txs e
      → (seal_and_process stages e).0 ≡ ok tt
      → Holds stages x old txs (seal_and_process stages e).1
  unfolding seal_and_process
  sealed-Holds txs e i done =
      process-Holds stages x old txs (e.priority_lane ++ e.queue)
        (record e { queue = []; priority_lane = [] }) i.groups i.executor
        (record { queue = refl; lane = refl }) i.runs i.whole done

  ingest-Holds :
      (txs : List Transaction) (tx : Transaction) (e : PipelineEngine)
      → Holds stages x old txs e
      → (ingest stages tx e).0 ≡ ok tt
      → Holds stages x old (txs ++ (tx ∷ [])) (ingest stages tx e).1
  unfolding ingest
  ingest-Holds txs tx e i done =
      let e' = enqueue stages tx (arrive stages tx e) in
      let fast = leb (rank TransactionPriority.high) (rank tx.priority) in
      let waits =
        enqueued stages x old fast txs tx (arrive stages tx e)
          (arrive-Holds stages x old txs tx e i) in
      elim (try_seal-cases stages e') [
        | inl idle ↦ subst (λ r. Holds stages x old (txs ++ (tx ∷ [])) r.1) (sym idle) waits
        | inr seals ↦
            subst (λ r. Holds stages x old (txs ++ (tx ∷ [])) r.1) (sym seals)
              (sealed-Holds (txs ++ (tx ∷ [])) e' waits (sym (ap (λ r. r.0) seals) ∙ done))
      ]

  ingest_all-Holds :
      (before txs : List Transaction) (e : PipelineEngine)
      → Holds stages x old before e
      → (ingest_all stages txs e).0 ≡ ok tt
      → Holds stages x old (before ++ txs) (ingest_all stages txs e).1
  unfolding ingest_all
  ingest_all-Holds before [] e i done = rw (append-nil before) i
  ingest_all-Holds before (tx ∷ txs) e i done = elim (Result-cases (ingest stages tx e).0) [
    | inl (err_of, failed) ↦ cc (failed, done)
    | inr (tt, went) ↦
        let e' = (ingest stages tx e).1 in
        let first = ingest-Holds before tx e i went in
        let rest = ingest_all-Holds (before ++ (tx ∷ [])) txs e' first (rw went at done) in
        rw went (
          subst (λ ts. Holds stages x old ts (ingest_all stages txs e').1)
            (append_assoc before (tx ∷ []) txs) rest)
  ]

  round-Holds :
      (stop : Bool) (result : Result ExecError (Unit {0})) (txs : List Transaction)
      (e e' : PipelineEngine)
      → Holds stages x old txs e
      → (result ≡ ok tt → Holds stages x old txs e')
      → (if stop then (ok tt, e) else after_round stages result e' (ok tt, e')).0 ≡ ok tt
      → Holds stages x old txs
          (if stop then (ok tt, e) else after_round stages result e' (ok tt, e')).1
  round-Holds true result txs e e' i moved done = i
  round-Holds false (ok tt) txs e e' i moved done = moved refl
  round-Holds false (err x) txs e e' i moved done = absurd (ok_not_err (err x) tt x done refl)

  flush-Holds :
      (txs : List Transaction) (e : PipelineEngine)
      → Holds stages x old txs e
      → (flush stages 1 e).0 ≡ ok tt
      → Holds stages x old txs (flush stages 1 e).1
  unfolding flush
  flush-Holds txs e i done =
      let (result, e') = seal_and_process stages e in
      round-Holds (length e.queue + length e.priority_lane == 0) result txs e e' i
        (λ went. sealed-Holds txs e i went) done

-- What a workload leaves: the groups of transactions of the batches that were recorded since, one run
-- for each.
pub record IsRecorded ⦃h : Hasher⦄ ⦃f : Float⦄ (stages : Stages) (before : PipelineEngine)
    (txs : List Transaction) (after : PipelineEngine) : Type 0 where
  pub groups : List (List Transaction)
  pub runs :
      AreRuns stages before.executor before.metrics.batch_metrics groups after.metrics.batch_metrics
  pub all : Perm (concat groups) ((before.priority_lane ++ before.queue) ++ txs)
  pub total : recorded after ≡ accounted before + length txs

-- If every ingestion of a workload and the flush after it succeed: the batches recorded since are, one
-- by one, runs of the executor, the prover and the verifier over groups of transactions, which the
-- batches name in order and whose sizes, compute units, proof sizes and verdicts the metrics carry; the
-- groups together are a rearrangement of the transactions that waited before and of the workload; and
-- the recorded sizes sum up to all that was accounted for before and all of the workload.
pub workload-IsRecorded :
    ⦃h : Hasher⦄ ⦃f : Float⦄ (stages : Stages) (txs : List Transaction) (e : PipelineEngine)
    → (ingest_all stages txs e).0 ≡ ok tt
    → (flush stages 1 (ingest_all stages txs e).1).0 ≡ ok tt
    → IsRecorded stages e txs (flush stages 1 (ingest_all stages txs e).1).1
workload-IsRecorded stages txs e ingested flushed =
    let start : Holds stages e.executor e.metrics.batch_metrics (e.priority_lane ++ e.queue) e =
      record { executor = refl; groups = []; runs = none_yet; whole = Perm.rfl } in
    let middle =
      ingest_all-Holds stages e.executor e.metrics.batch_metrics (e.priority_lane ++ e.queue) txs e
        start ingested in
    let done =
      flush-Holds stages e.executor e.metrics.batch_metrics ((e.priority_lane ++ e.queue) ++ txs)
        (ingest_all stages txs e).1 middle flushed in
    let d = (flush_ends stages 0 (ingest_all stages txs e).1).1 in
    record {
      groups = done.groups;
      runs = done.runs;
      all = rw (d.lane, d.queue, append-nil (concat done.groups)) at done.whole;
      total = workload_counted stages txs e ingested flushed;
    }
