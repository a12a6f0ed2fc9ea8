-- ===== src/Simulation.antt =====
-- `run_simulation` (crates/benchmark-cli/src/main.rs): a workload through the pipeline.
pub mod Comparison
pub mod Grid
pub mod Charts
pub mod Reports
use catalyst_svm.Prelude.{
  ℕ, ◌<◌, ◌≡◌, refl, ap, ◌∙◌, List, [], ◌∷◌, map, arith, wrap64, u64_mod, Result, ok, err,
  ok_not_err,
}
use catalyst_svm.Prelude.Float.{Float}
use catalyst_svm.Text.{Text}
use catalyst_svm.Common.Errors.{ExecError}
use catalyst_svm.Common.Hashing.{Hasher}
use catalyst_svm.Common.Clock.{new_clock}
use catalyst_svm.Executor.{new_full_executor}
use catalyst_svm.Policy.Engine.{Policy, PolicyConfig, create_policy}
use catalyst_svm.Ingress.{Rng, Scenario, scenario_name, new_generator, collect}
use catalyst_svm.Ingress.Generated.{length-collect}
use catalyst_svm.Metrics.{BatchMetrics, SystemMetrics, sum64, aggregate_metrics, finalize}
use catalyst_svm.Pipeline.{Stages, PipelineEngine, new_engine, ingest_all, flush}
use catalyst_svm.Pipeline.Conservation.{sizes, recorded, accounted, workload_counted}

module _ ⦃h : Hasher⦄ ⦃f : Float⦄ where
  -- The two `?` and the metrics at the end.
  unfoldable pub reported :
      Text
      → Text
      → ℕ
      → Result ExecError (Unit {0})
      → Result ExecError (Unit {0}) × PipelineEngine
      → Result ExecError SystemMetrics
  unfolding finalize
  reported policy scenario sla (err x) flushed = err x
  reported policy scenario sla (ok _) (err x, e) = err x
  reported policy scenario sla (ok _) (ok _, e) = ok (finalize policy scenario sla e.metrics)

  module _ (stages : Stages) (rng : Rng) where
    -- The engine after the workload; the generator ends after `count` transactions.
    unfoldable pub ingested :
        Text → Scenario → ℕ → ℕ → PolicyConfig → Result ExecError (Unit {0}) × PipelineEngine
    unfolding ingest_all collect create_policy
    ingested policy scenario seed count config =
        ingest_all stages (collect rng count (new_generator rng scenario count seed 50))
          (new_engine (create_policy policy config) (new_full_executor 200000) (new_clock 0))

    unfoldable pub run_simulation :
        Text → Scenario → ℕ → ℕ → PolicyConfig → ℕ → Result ExecError SystemMetrics
    unfolding reported ingested flush
    run_simulation policy scenario seed count config sla =
        let (result, e) = ingested policy scenario seed count config in
        reported policy (scenario_name scenario) sla result (flush stages 1 e)

  sum64-sizes : (ms : List BatchMetrics) → sum64 (map (λ m. m.batch_size) ms) ≡ wrap64 (sizes ms)
  unfolding sizes
  sum64-sizes [] = refl
  sum64-sizes (m ∷ ms) = omega (arith, sum64-sizes ms)

  finalize_total :
      (policy scenario : Text) (sla : ℕ) (e : PipelineEngine)
      → (finalize policy scenario sla e.metrics).total_transactions ≡ wrap64 (recorded e)
  unfolding aggregate_metrics finalize
  finalize_total policy scenario sla e = go e.metrics.batch_metrics
    where
      go :
          (ms : List BatchMetrics)
          → (aggregate_metrics ms policy scenario sla).total_transactions ≡ wrap64 (sizes ms)
      go [] = sum64-sizes []
      go (m ∷ ms) = sum64-sizes (m ∷ ms)

  reported_total :
      (policy scenario : Text) (sla count : ℕ) (result : Result ExecError (Unit {0}))
      (flushed : Result ExecError (Unit {0}) × PipelineEngine) {m : SystemMetrics}
      → (result ≡ ok tt → flushed.0 ≡ ok tt → recorded flushed.1 ≡ count)
      → reported policy scenario sla result flushed ≡ ok m
      → m.total_transactions ≡ wrap64 count
  unfolding reported
  reported_total policy scenario sla count (ok _) (ok _, e) {m} counted done =
      let same : m ≡ finalize policy scenario sla e.metrics = cc done in
      ap (λ n. n.total_transactions) same
      ∙ finalize_total policy scenario sla e
      ∙ ap wrap64 (counted refl refl)
  reported_total policy scenario sla count (ok _) (err x, e) counted done =
      absurd (ok_not_err (err x) _ x done refl)
  reported_total policy scenario sla count (err x) flushed counted done =
      absurd (ok_not_err (err x) _ x done refl)

  fresh_accounted :
      (policy : Policy) → accounted (new_engine policy (new_full_executor 200000) (new_clock 0)) ≡ 0
  unfolding sizes
  fresh_accounted policy = refl

  -- A simulation of fewer than 2^64 transactions that ends without an error reports exactly as many
  -- transactions as its workload has, whatever the policy, the scenario and the random numbers.
  pub simulation_total :
      (stages : Stages) (rng : Rng) (policy : Text) (scenario : Scenario) (seed count : ℕ)
      (config : PolicyConfig) (sla : ℕ) {m : SystemMetrics}
      → count < u64_mod
      → run_simulation stages rng policy scenario seed count config sla ≡ ok m
      → m.total_transactions ≡ count
  unfolding run_simulation ingested
  simulation_total stages rng policy scenario seed count config sla small done =
      let g = new_generator rng scenario count seed 50 in
      let start =
        new_engine (create_policy policy config) (new_full_executor 200000) (new_clock 0) in
      let txs = collect rng count g in
      let (result, e) = ingested stages rng policy scenario seed count config in
      let counted : result ≡ ok tt
          → (flush stages 1 e).0 ≡ ok tt
          → recorded (flush stages 1 e).1 ≡ count =
        λ went through.
          workload_counted stages txs start went through
          ∙ omega (
            arith,
            fresh_accounted (create_policy policy config),
            length-collect rng count g (omega arith),
          ) in
      omega (
        arith,
        reported_total policy (scenario_name scenario) sla count result (flush stages 1 e) counted
            done,
      )
