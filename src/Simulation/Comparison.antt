-- ===== src/Simulation/Comparison.antt =====
-- The commands `Simulate` and `Compare` (crates/benchmark-cli/src/main.rs), as far as their results.
use catalyst_svm.Prelude.{ℕ, ◌*◌, List, [], ◌∷◌, ◌++◌, wrap64, Result, ok, map_err, ◌>>=◌}
use catalyst_svm.Prelude.Float.{Float}
use catalyst_svm.Text.{Text, codes}
use catalyst_svm.Common.Errors.{ExecError}
use catalyst_svm.Common.Hashing.{Hasher}
use catalyst_svm.Policy.Engine.{PolicyConfig}
use catalyst_svm.Ingress.{Rng, Scenario, all_scenarios, scenario_from_str}
use catalyst_svm.Metrics.{SystemMetrics}
use catalyst_svm.Pipeline.{Stages}
use catalyst_svm.Simulation.{run_simulation}

-- The configuration that both commands make of their options.
abbrev pub config_of : ℕ → ℕ → ℕ → PolicyConfig
config_of batch_threshold time_threshold_ms latency_budget_ms = record {
  count_threshold = batch_threshold;
  time_threshold_ms = time_threshold_ms;
  latency_budget_ms = latency_budget_ms;
  max_batch_size = wrap64 (batch_threshold * 5);
  critical_threshold = 5;
}

abbrev pub compared_policies : List Text
compared_policies = codes "fixedcount" ∷ codes "fixedtime" ∷ codes "hybrid" ∷ codes "adaptive" ∷ []

-- An `anyhow` error: a message, or an error of the pipeline.
pub data CliError : Type 0 where
  message : Text → CliError
  pipeline : ExecError → CliError

module _ ⦃h : Hasher⦄ ⦃f : Float⦄ (stages : Stages) (rng : Rng) where
  module _ (seed count : ℕ) (config : PolicyConfig) (sla : ℕ) where
    -- The inner loop of `run_comparison`, which ends at the first error.
    unfoldable pub compare_scenarios :
        Text → List Scenario → List SystemMetrics → Result ExecError (List SystemMetrics)
    unfolding run_simulation
    compare_scenarios policy [] results = ok results
    compare_scenarios policy (s ∷ scenarios) results = do
      result ← run_simulation stages rng policy s seed count config sla
      compare_scenarios policy scenarios (results ++ (result ∷ []))

    -- The outer loop.
    unfoldable pub compare_policies :
        List Text → List SystemMetrics → Result ExecError (List SystemMetrics)
    unfolding compare_scenarios
    compare_policies [] results = ok results
    compare_policies (p ∷ policies) results = do
      more ← compare_scenarios p all_scenarios results
      compare_policies policies more

    unfoldable pub run_comparison : Result ExecError (List SystemMetrics)
    unfolding compare_policies
    run_comparison = compare_policies compared_policies []

  -- The arm of `Simulate`, with the scenario's name parsed.
  unfoldable pub simulate : Text → Text → ℕ → ℕ → ℕ → ℕ → ℕ → Result CliError SystemMetrics
  unfolding scenario_from_str run_simulation
  simulate policy scenario seed count batch_threshold time_threshold_ms latency_budget_ms = do
    parsed ← map_err message (scenario_from_str scenario)
    map_err pipeline (
        run_simulation stages rng policy parsed seed count
          (config_of batch_threshold time_threshold_ms latency_budget_ms) latency_budget_ms)

  -- The arm of `Compare`, before it prints and saves.
  unfoldable pub compare : ℕ → ℕ → ℕ → ℕ → ℕ → ℕ → Result ExecError (List SystemMetrics)
  unfolding run_comparison
  compare seed count batch_threshold time_threshold_ms latency_budget_ms sla =
      run_comparison seed count (config_of batch_threshold time_threshold_ms latency_budget_ms) sla
