-- ===== src/Simulation/Grid.antt =====
-- The results of a comparison: a full grid of policies and scenarios.
use catalyst_svm.Prelude.{
  ℕ, ◌<◌, ◌≡◌, refl, sym, ap, subst, ◌∙◌, List, [], ◌∷◌, ◌++◌, map, append_assoc, append-nil,
  u64_mod, Result, ok, err, ok_of_bind, All, All-append, ok_not_err, map-append,
}
use catalyst_svm.Prelude.Float.{Float}
use catalyst_svm.Text.{Text}
use catalyst_svm.Common.Errors.{ExecError}
use catalyst_svm.Common.Hashing.{Hasher}
use catalyst_svm.Policy.Engine.{PolicyConfig}
use catalyst_svm.Ingress.{Rng, Scenario, scenario_name, all_scenarios}
use catalyst_svm.Metrics.{BatchMetrics, SystemMetrics, aggregate_metrics, finalize}
use catalyst_svm.Pipeline.{Stages, PipelineEngine, flush}
use catalyst_svm.Simulation.{reported, ingested, run_simulation, simulation_total}
use catalyst_svm.Simulation.Comparison.{
  compared_policies, compare_scenarios, compare_policies, run_comparison,
}

-- The policy and the scenario that a result is for.
abbrev pub label : ⦃f : Float⦄ → SystemMetrics → Text × Text
label m = (m.policy_name, m.scenario_name)

label-aggregate_metrics :
    ⦃f : Float⦄ (ms : List BatchMetrics) (policy scenario : Text) (sla : ℕ)
    → label (aggregate_metrics ms policy scenario sla) ≡ (policy, scenario)
unfolding aggregate_metrics
label-aggregate_metrics [] policy scenario sla = refl
label-aggregate_metrics (m ∷ ms) policy scenario sla = refl

module _ ⦃h : Hasher⦄ ⦃f : Float⦄ where
  label-reported :
      (policy scenario : Text) (sla : ℕ) (result : Result ExecError (Unit {0}))
      (flushed : Result ExecError (Unit {0}) × PipelineEngine) {m : SystemMetrics}
      → reported policy scenario sla result flushed ≡ ok m
      → label m ≡ (policy, scenario)
  unfolding reported finalize
  label-reported policy scenario sla (ok _) (ok _, e) {m} done =
      let same : m ≡ aggregate_metrics e.metrics.batch_metrics policy scenario sla = cc done in
      ap label same ∙ label-aggregate_metrics e.metrics.batch_metrics policy scenario sla
  label-reported policy scenario sla (ok _) (err x, e) done =
      absurd (ok_not_err (err x) _ x done refl)
  label-reported policy scenario sla (err x) flushed done =
      absurd (ok_not_err (err x) _ x done refl)

-- The cells of the comparison, row by row.
abbrev pub row : Text → List Scenario → List (Text × Text)
row policy scenarios = map (λ s. (policy, scenario_name s)) scenarios

abbrev pub rows : List Text → List (Text × Text)
rows [] = []
rows (p ∷ policies) = row p all_scenarios ++ rows policies

module _ ⦃h : Hasher⦄ ⦃f : Float⦄ (stages : Stages) (rng : Rng) (seed count : ℕ)
    (config : PolicyConfig) (sla : ℕ) (small : count < u64_mod) where
  -- The results are for the given cells, and each accounts for the whole workload.
  pub record Fills (cells : List (Text × Text)) (results : List SystemMetrics) : Type 0 where
    pub labels : map label results ≡ cells
    pub totals : All (λ m. m.total_transactions ≡ count) results

  simulation-Fills :
      (policy : Text) (s : Scenario) (cells : List (Text × Text)) (results : List SystemMetrics)
      {m : SystemMetrics}
      → run_simulation stages rng policy s seed count config sla ≡ ok m
      → Fills cells results
      → Fills (cells ++ ((policy, scenario_name s) ∷ [])) (results ++ (m ∷ []))
  unfolding run_simulation
  simulation-Fills policy s cells results {m} ran i =
      let (result, e) = ingested stages rng policy s seed count config in
      let named = label-reported policy (scenario_name s) sla result (flush stages 1 e) ran in
      record {
        labels = map-append label results (m ∷ []) ∙ rw (i.labels, named) refl;
        totals =
            All-append (λ m. m.total_transactions ≡ count) results (m ∷ []) i.totals
              (simulation_total stages rng policy s seed count config sla small ran, tt);
      }

  scenarios-Fills :
      (policy : Text) (scenarios : List Scenario) (cells : List (Text × Text))
      (results : List SystemMetrics) {rs : List SystemMetrics}
      → compare_scenarios stages rng seed count config sla policy scenarios results ≡ ok rs
      → Fills cells results
      → Fills (cells ++ row policy scenarios) rs
  unfolding compare_scenarios
  scenarios-Fills policy [] cells results {rs} done i =
      let same : results ≡ rs = cc done in
      subst (λ c. Fills c rs) (sym (append-nil cells)) (subst (Fills cells) same i)
  scenarios-Fills policy (s ∷ scenarios) cells results {rs} done i =
      let (m, ran, rest) =
        ok_of_bind (run_simulation stages rng policy s seed count config sla)
          (λ m.
            compare_scenarios stages rng seed count config sla policy scenarios
              (results ++ (m ∷ [])))
          done in
      let cell = (policy, scenario_name s) ∷ [] in
      subst (λ c. Fills c rs) (append_assoc cells cell (row policy scenarios))
        (scenarios-Fills policy scenarios (cells ++ cell) (results ++ (m ∷ [])) rest
          (simulation-Fills policy s cells results ran i))

  policies-Fills :
      (policies : List Text) (cells : List (Text × Text)) (results : List SystemMetrics)
      {rs : List SystemMetrics}
      → compare_policies stages rng seed count config sla policies results ≡ ok rs
      → Fills cells results
      → Fills (cells ++ rows policies) rs
  unfolding compare_policies
  policies-Fills [] cells results {rs} done i =
      let same : results ≡ rs = cc done in
      subst (λ c. Fills c rs) (sym (append-nil cells)) (subst (Fills cells) same i)
  policies-Fills (p ∷ policies) cells results {rs} done i =
      let (more, ran, rest) =
        ok_of_bind (compare_scenarios stages rng seed count config sla p all_scenarios results)
          (compare_policies stages rng seed count config sla policies) done in
      subst (λ c. Fills c rs) (append_assoc cells (row p all_scenarios) (rows policies))
        (policies-Fills policies (cells ++ row p all_scenarios) more rest
          (scenarios-Fills p all_scenarios cells results ran i))

  -- A comparison of fewer than 2 ^ 64 transactions that ends without an error has one result for each
  -- policy and scenario, the policies in the outer order and the scenarios in the inner one, and each
  -- result accounts for all the transactions.
  pub comparison-Fills :
      {rs : List SystemMetrics}
      → run_comparison stages rng seed count config sla ≡ ok rs
      → Fills (rows compared_policies) rs
  unfolding run_comparison
  comparison-Fills done =
      policies-Fills compared_policies [] [] done (record { labels = refl; totals = tt })
