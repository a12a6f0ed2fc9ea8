-- ===== src/Pipeline/Conservation.antt =====
-- Where the transactions go: into the queues, and from there into the recorded batches.
use catalyst_svm.Prelude.{
  ℕ, ◌+◌, ◌≡◌, refl, sym, ap, ◌∙◌, List, [], ◌∷◌, ◌++◌, length, length-append, arith, Result, ok,
  err, Result-cases, ok_not_err, Bool, true, false, inl, inr, ◌==◌, if◌then◌else◌, wrap64,
}
use catalyst_svm.Prelude.Float.{Float}
use catalyst_svm.Text.{Text}
use catalyst_svm.Common.Types.{Transaction, ExecutionTrace, Proof, VerificationResult}
use catalyst_svm.Common.Errors.{ExecError}
use catalyst_svm.Common.Hashing.{Hasher}
use catalyst_svm.Common.Clock.{VirtualClock}
use catalyst_svm.Metrics.{BatchMetrics}
use catalyst_svm.Pipeline.{
  Stages, PipelineEngine, sealed_batch, settle, process, seal_and_process, try_seal, enqueue,
  arrive, ingest, flush, run_stages, ingest_all, after_round,
}
use catalyst_svm.Pipeline.Queues.{
  IsDrained, seal_and_process-IsDrained, try_seal-cases, try_seal_failed, ingest_failed-IsDrained,
}

module _ ⦃f : Float⦄ where
  unfoldable pub sizes : List BatchMetrics → ℕ
  sizes [] = 0
  sizes (m ∷ ms) = m.batch_size + sizes ms

  sizes-append :
      (ms : List BatchMetrics) (m : BatchMetrics) → sizes (ms ++ m ∷ []) ≡ sizes ms + m.batch_size
  unfolding sizes
  sizes-append [] m = omega arith
  sizes-append (x ∷ ms) m = omega (arith, sizes-append ms m)

module _ ⦃h : Hasher⦄ ⦃f : Float⦄ where
  abbrev pub recorded : PipelineEngine → ℕ
  recorded e = sizes e.metrics.batch_metrics

  -- The transactions in the recorded batches and in the queues.
  abbrev pub accounted : PipelineEngine → ℕ
  accounted e = recorded e + (length e.priority_lane + length e.queue)

  recorded-settle :
      (id : Text) (size started : ℕ) (e : PipelineEngine)
      (r : Result ExecError (ExecutionTrace × Proof × VerificationResult) × VirtualClock)
      → (settle id size started e r).0 ≡ ok tt
      → recorded (settle id size started e r).1 ≡ recorded e + size
  recorded-settle id size started e (ok (trace, proof, v), clock) done =
      sizes-append e.metrics.batch_metrics _
  recorded-settle id size started e (err x, clock) done = cc done

  settle_unrecorded :
      (id : Text) (size started : ℕ) (e : PipelineEngine)
      (r : Result ExecError (ExecutionTrace × Proof × VerificationResult) × VirtualClock)
      {x : ExecError}
      → (settle id size started e r).0 ≡ err x
      → recorded (settle id size started e r).1 ≡ recorded e
  settle_unrecorded id size started e (ok (trace, proof, v), clock) failed = cc failed
  settle_unrecorded id size started e (err x, clock) failed = refl

module _ ⦃h : Hasher⦄ ⦃f : Float⦄ (stages : Stages) where
  recorded-process :
      (txs : List Transaction) (e : PipelineEngine)
      → (process stages txs e).0 ≡ ok tt
      → recorded (process stages txs e).1 ≡ recorded e + length txs
  unfolding process
  recorded-process [] e done = omega arith
  recorded-process (t ∷ rest) e done =
      let counter = wrap64 (e.batch_counter + 1) in
      let batch = sealed_batch counter e.clock.current_ms (t ∷ rest) in
      recorded-settle batch.batch_id (length (t ∷ rest)) e.clock.current_ms
        (record e { batch_counter = counter })
        (run_stages stages e.executor batch (t ∷ rest) e.clock) done

  process_unrecorded :
      (txs : List Transaction) (e : PipelineEngine) {x : ExecError}
      → (process stages txs e).0 ≡ err x
      → recorded (process stages txs e).1 ≡ recorded e
  unfolding process
  process_unrecorded [] e failed = cc
  process_unrecorded (t ∷ rest) e failed =
      let counter = wrap64 (e.batch_counter + 1) in
      let batch = sealed_batch counter e.clock.current_ms (t ∷ rest) in
      settle_unrecorded batch.batch_id (length (t ∷ rest)) e.clock.current_ms
        (record e { batch_counter = counter })
        (run_stages stages e.executor batch (t ∷ rest) e.clock) failed

  ingest_unrecorded :
      (tx : Transaction) (e : PipelineEngine) {x : ExecError}
      → (ingest stages tx e).0 ≡ err x
      → recorded (ingest stages tx e).1 ≡ recorded e
  unfolding ingest seal_and_process
  ingest_unrecorded tx e failed =
      let a = enqueue stages tx (arrive stages tx e) in
      let seals = try_seal_failed stages a failed in
      ap (λ r. recorded r.1) seals
      ∙ process_unrecorded (a.priority_lane ++ a.queue)
          (record a { queue = []; priority_lane = [] }) (sym (ap (λ r. r.0) seals) ∙ failed)
      ∙ enqueue_recorded tx (arrive stages tx e)
    where
      enqueue_recorded :
          (tx : Transaction) (e : PipelineEngine) → recorded (enqueue stages tx e) ≡ recorded e
      enqueue_recorded tx e = ground arith

  -- A seal that succeeds moves the transactions of both queues into one recorded batch.
  seal_accounted :
      (e : PipelineEngine)
      → (seal_and_process stages e).0 ≡ ok tt
      → accounted (seal_and_process stages e).1 ≡ accounted e
  unfolding seal_and_process
  seal_accounted e done =
      let d = seal_and_process-IsDrained stages e in
      omega (
        arith,
        recorded-process (e.priority_lane ++ e.queue) (record e { queue = []; priority_lane = [] })
            done,
        length-append e.priority_lane e.queue,
        ap length d.queue,
        ap length d.lane,
      )

  accounted-try_seal :
      (e : PipelineEngine)
      → (try_seal stages e).0 ≡ ok tt
      → accounted (try_seal stages e).1 ≡ accounted e
  accounted-try_seal e done = elim (try_seal-cases stages e) [
    | inl waits ↦ ap (λ r. accounted r.1) waits
    | inr seals ↦
        ap (λ r. accounted r.1) seals ∙ seal_accounted e (sym (ap (λ r. r.0) seals) ∙ done)
  ]

  accounted-enqueue :
      (tx : Transaction) (e : PipelineEngine) → accounted (enqueue stages tx e) ≡ accounted e + 1
  accounted-enqueue tx e =
      ground (arith, length-append e.priority_lane (tx ∷ []), length-append e.queue (tx ∷ []))

  accounted-ingest :
      (tx : Transaction) (e : PipelineEngine)
      → (ingest stages tx e).0 ≡ ok tt
      → accounted (ingest stages tx e).1 ≡ accounted e + 1
  unfolding ingest
  accounted-ingest tx e done =
      accounted-try_seal (enqueue stages tx (arrive stages tx e)) done
      ∙ accounted-enqueue tx (arrive stages tx e)

  -- An ingestion that fails records no batch and leaves both queues empty: the transactions that
  -- were waiting are lost, and so is the new one.
  pub ingest_failed_loses :
      (tx : Transaction) (e : PipelineEngine) {x : ExecError}
      → (ingest stages tx e).0 ≡ err x
      → (recorded (ingest stages tx e).1 ≡ recorded e) × IsDrained (ingest stages tx e).1
  ingest_failed_loses tx e failed =
      (ingest_unrecorded tx e failed, ingest_failed-IsDrained stages tx e failed)

  accounted-ingest_all :
      (txs : List Transaction) (e : PipelineEngine)
      → (ingest_all stages txs e).0 ≡ ok tt
      → accounted (ingest_all stages txs e).1 ≡ accounted e + length txs
  unfolding ingest_all
  accounted-ingest_all [] e done = omega arith
  accounted-ingest_all (tx ∷ txs) e done = elim (Result-cases (ingest stages tx e).0) [
    | inl (x, failed) ↦ cc (failed, done)
    | inr (tt, went) ↦
        let e' = (ingest stages tx e).1 in
        rw went
          (omega (arith, accounted-ingest tx e went, accounted-ingest_all txs e' (rw went at done)))
  ]

  round_recorded :
      (stop : Bool) (result : Result ExecError (Unit {0})) (e e' : PipelineEngine)
      → (stop ≡ true → length e.priority_lane + length e.queue ≡ 0)
      → (result ≡ ok tt → recorded e' ≡ accounted e)
      → (if stop then (ok tt, e) else after_round stages result e' (ok tt, e')).0 ≡ ok tt
      → recorded (if stop then (ok tt, e) else after_round stages result e' (ok tt, e')).1
        ≡ accounted e
  round_recorded true result e e' empty moved done = omega (arith, empty refl)
  round_recorded false (ok tt) e e' empty moved done = moved refl
  round_recorded false (err x) e e' empty moved done = absurd (ok_not_err (err x) tt x done refl)

  recorded-flush :
      (e : PipelineEngine)
      → (flush stages 1 e).0 ≡ ok tt
      → recorded (flush stages 1 e).1 ≡ accounted e
  unfolding flush
  recorded-flush e done =
      let (result, e') = seal_and_process stages e in
      let d = seal_and_process-IsDrained stages e in
      round_recorded (length e.queue + length e.priority_lane == 0) result e e'
        (λ stop. ground arith)
        (λ went. omega (arith, seal_accounted e went, ap length d.queue, ap length d.lane)) done

  -- If every ingestion of a workload and the flush after it succeed, the sizes of the recorded
  -- batches sum up to what was accounted for before and the number of the workload.
  pub workload_counted :
      (txs : List Transaction) (e : PipelineEngine)
      → (ingest_all stages txs e).0 ≡ ok tt
      → (flush stages 1 (ingest_all stages txs e).1).0 ≡ ok tt
      → recorded (flush stages 1 (ingest_all stages txs e).1).1 ≡ accounted e + length txs
  workload_counted txs e ingested flushed =
      recorded-flush (ingest_all stages txs e).1 flushed ∙ accounted-ingest_all txs e ingested
