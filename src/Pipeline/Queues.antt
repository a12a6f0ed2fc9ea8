-- ===== src/Pipeline/Queues.antt =====
-- What the pipeline's queues hold after each call.
use catalyst_svm.Prelude.{
  ℕ, zero, suc, ◌+◌, ◌-◌, ◌≡◌, refl, sym, subst, ok_not_err, wrap64, max, ◌⊎◌, ap, List, [], ◌∷◌,
  ◌++◌, length, arith, Result, ok, err, Bool, true, false, inl, inr, ◌==◌, if◌then◌else◌,
}
use catalyst_svm.Prelude.Float.{Float}
use catalyst_svm.Text.{Text}
use catalyst_svm.Common.Types.{Transaction, ExecutionTrace, Proof, VerificationResult}
use catalyst_svm.Common.Errors.{ExecError}
use catalyst_svm.Common.Hashing.{Hasher}
use catalyst_svm.Common.Clock.{VirtualClock}
use catalyst_svm.Policy.Engine.{should_seal}
use catalyst_svm.Pipeline.{
  Stages, PipelineEngine, sealed_batch, settle, run_stages, after_round, process, seal_and_process,
  try_seal, enqueue, arrive, ingest, flush,
}

nil_of_length : {A : Type 0} (xs : List A) → length xs ≡ 0 → xs ≡ []
nil_of_length [] e = refl
nil_of_length (x ∷ xs) e = absurd (omega arith)

module _ ⦃h : Hasher⦄ ⦃f : Float⦄ where
  pub record IsDrained (e : PipelineEngine) : Type 0 where
    pub queue : e.queue ≡ []
    pub lane : e.priority_lane ≡ []

  settle-IsDrained :
      (id : Text) (size started : ℕ) (e : PipelineEngine)
      (r : Result ExecError (ExecutionTrace × Proof × VerificationResult) × VirtualClock)
      → IsDrained e
      → IsDrained (settle id size started e r).1
  settle-IsDrained id size started e (ok (trace, proof, v), clock) d = record {
    queue = d.queue;
    lane = d.lane;
  }
  settle-IsDrained id size started e (err x, clock) d = record { queue = d.queue; lane = d.lane }

module _ ⦃h : Hasher⦄ ⦃f : Float⦄ (stages : Stages) where
  process-IsDrained :
      (txs : List Transaction) (e : PipelineEngine)
      → IsDrained e
      → IsDrained (process stages txs e).1
  unfolding process
  process-IsDrained [] e d = d
  process-IsDrained (t ∷ rest) e d =
      let counter = wrap64 (e.batch_counter + 1) in
      let batch = sealed_batch counter e.clock.current_ms (t ∷ rest) in
      settle-IsDrained batch.batch_id (length (t ∷ rest)) e.clock.current_ms
        (record e { batch_counter = counter })
        (run_stages stages e.executor batch (t ∷ rest) e.clock)
        (record { queue = d.queue; lane = d.lane })

  -- Sealing takes every transaction out of both queues, whether or not the stages succeed.
  pub seal_and_process-IsDrained : (e : PipelineEngine) → IsDrained (seal_and_process stages e).1
  unfolding seal_and_process
  seal_and_process-IsDrained e =
      process-IsDrained (e.priority_lane ++ e.queue) (record e { queue = []; priority_lane = [] })
        (record { queue = refl; lane = refl })

  flush_drained : (n : ℕ) (e : PipelineEngine) → IsDrained e → flush stages n e ≡ (ok tt, e)
  unfolding flush
  flush_drained zero e d = refl
  flush_drained (suc n) e d =
      let none_left : length e.queue + length e.priority_lane ≡ 0 =
        omega (arith, ap length d.queue, ap length d.lane) in
      rw none_left refl

  round_ends :
      (stop : Bool) (result : Result ExecError (Unit {0})) (e e' : PipelineEngine)
      (rest : Result ExecError (Unit {0}) × PipelineEngine)
      → rest ≡ (ok tt, e')
      → IsDrained e'
      → (stop ≡ true → IsDrained e)
      → ((if stop then (ok tt, e) else after_round stages result e' rest)
          ≡ (if stop then (ok tt, e) else after_round stages result e' (ok tt, e')))
        × IsDrained (if stop then (ok tt, e) else after_round stages result e' rest).1
  round_ends true result e e' rest same d s = (refl, s refl)
  round_ends false (ok tt) e e' rest same d s = (same, subst (λ r. IsDrained r.1) (sym same) d)
  round_ends false (err x) e e' rest same d s = (refl, d)

  nothing_left :
      (e : PipelineEngine) → (length e.queue + length e.priority_lane == 0) ≡ true → IsDrained e
  nothing_left e stop = record {
    queue = nil_of_length e.queue (ground arith);
    lane = nil_of_length e.priority_lane (ground arith);
  }

  -- One round of the loop of `flush` empties both queues, so that any more fuel gives the same result.
  pub flush_ends :
      (n : ℕ) (e : PipelineEngine)
      → (flush stages (suc n) e ≡ flush stages 1 e) × IsDrained (flush stages (suc n) e).1
  unfolding flush
  flush_ends n e =
      let (result, e') = seal_and_process stages e in
      let d = seal_and_process-IsDrained e in
      round_ends (length e.queue + length e.priority_lane == 0) result e e' (flush stages n e')
        (flush_drained n e' d) d (nothing_left e)

  -- Sealing is tried, or nothing happens.
  pub try_seal-cases :
      (e : PipelineEngine)
      → (try_seal stages e ≡ (ok tt, e)) ⊎ (try_seal stages e ≡ seal_and_process stages e)
  unfolding try_seal
  try_seal-cases e =
      let total = length e.queue + length e.priority_lane in
      let rate =
        f.div (f.of_nat total)
          (f.div (f.of_nat (max (e.clock.current_ms - e.last_seal_time) 1)) (f.literal 1000 0)) in
      pick (total == 0) (should_seal e.policy total (e.clock.current_ms - e.oldest_arrival) rate)
        (ok tt, e) (seal_and_process stages e)
    where
      pick :
          {A : Type 0} (a b : Bool) (x y : A)
          → ((if a then x else if b then y else x) ≡ x)
            ⊎ ((if a then x else if b then y else x) ≡ y)
      pick true b x y = inl refl
      pick false true x y = inr refl
      pick false false x y = inl refl

  pub try_seal_failed :
      (e : PipelineEngine) {x : ExecError}
      → (try_seal stages e).0 ≡ err x
      → try_seal stages e ≡ seal_and_process stages e
  try_seal_failed e {x} failed = elim (try_seal-cases e) [
    | inl waits ↦ absurd (ok_not_err (try_seal stages e).0 tt x (ap (λ r. r.0) waits) failed)
    | inr seals ↦ seals
  ]

  -- An ingestion that fails has sealed, so it leaves both queues empty.
  pub ingest_failed-IsDrained :
      (tx : Transaction) (e : PipelineEngine) {x : ExecError}
      → (ingest stages tx e).0 ≡ err x
      → IsDrained (ingest stages tx e).1
  unfolding ingest
  ingest_failed-IsDrained tx e failed =
      let e' = enqueue stages tx (arrive stages tx e) in
      subst (λ r. IsDrained r.1) (sym (try_seal_failed e' failed)) (seal_and_process-IsDrained e')
