-- ===== src/Tests/Clients.antt =====
-- The client's commands, and a comparison of the policies.
use catalyst_svm.Prelude.{
  ◌+◌, ◌*◌, ◌≤◌, ◌<◌, ◌≡◌, refl, List, [], ◌∷◌, some, ok, err, false, count_if, arith,
}
use catalyst_svm.Client.{hex_to_bytes, run_command, benchmark}
use catalyst_svm.Client.Hex.{hex_text, prefixed, hex_to_bytes-hex_text}
use catalyst_svm.Client.Benchmark.{is_seal, is_submission, benchmark_calls}
use catalyst_svm.Policy.Adaptive.{compute_threshold}
use catalyst_svm.Policy.Engine.{default_config}
use catalyst_svm.Metrics.{SystemMetrics}
use catalyst_svm.Pipeline.{ingest, ingest_all, flush, run_stages, executed, proved, verified}
use catalyst_svm.Simulation.{reported, ingested, run_simulation}
use catalyst_svm.Simulation.Comparison.{
  compared_policies, compare_scenarios, compare_policies, run_comparison,
}
use mathlib.Core.List.Perm
use catalyst_svm.Simulation.Charts.{
  SetOrder, distinct, latency_chart, throughput_chart, proof_size_chart,
}
use catalyst_svm.Simulation.Charts.Columns.{IsFilled, comparison-IsFilled}
use catalyst_svm.Simulation.Grid.{Fills, rows, comparison-Fills}
use catalyst_svm.Tests.Fixtures.{padding, thousandths}
use catalyst_svm.Tests.Pipelines.{passing}
use catalyst_svm.Tests.Workloads.{counting}

hex_to_bytes-hex_text_example :
    hex_to_bytes (prefixed 1 (hex_text (0 ∷ 171 ∷ 255 ∷ []))) ≡ some (0 ∷ 171 ∷ 255 ∷ [])
hex_to_bytes-hex_text_example =
    hex_to_bytes-hex_text 1 (0 ∷ 171 ∷ 255 ∷ []) (omega arith, (omega arith, (omega arith, tt)))

benchmark_calls_example :
    (count_if is_submission (run_command (benchmark 25 10)).calls ≡ 25)
    × (25 ≤ count_if is_seal (run_command (benchmark 25 10)).calls * 10)
    × (count_if is_seal (run_command (benchmark 25 10)).calls * 10 < 25 + 10)
    × ((run_command (benchmark 25 10)).panics ≡ false)
benchmark_calls_example = benchmark_calls 25 10 (omega arith)

abbrev results : List SystemMetrics
unfolding run_comparison
results = elim (run_comparison passing counting 7 1 default_config 1000) [ ok rs ↦ rs | err _ ↦ [] ]

compared : run_comparison passing counting 7 1 default_config 1000 ≡ ok results
unfolding run_comparison compare_policies compare_scenarios run_simulation reported ingested
    ingest_all ingest flush run_stages executed proved verified results compute_threshold
compared = refl

comparison-Fills_example :
    Fills passing counting 7 1 default_config 1000 (omega arith) (rows compared_policies) results
comparison-Fills_example =
    comparison-Fills passing counting 7 1 default_config 1000 (omega arith) compared

-- A set that is iterated in the order of the last insertions.
abbrev in_order : SetOrder
unfolding distinct
in_order = record { order = distinct; permutes = λ xs. Perm.rfl }

charts_of_results :
    IsFilled (latency_chart results in_order) 20
    × IsFilled (throughput_chart results in_order) 20
    × IsFilled (proof_size_chart results in_order) 4
charts_of_results =
    comparison-IsFilled passing counting 7 1 default_config 1000 in_order (omega arith) compared
