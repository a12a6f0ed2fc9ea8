-- ===== src/Simulation/Reports.antt =====
-- What crates/benchmark-cli/src/main.rs prints and saves of its results, up to the drawing of the
-- table and the quoting of the CSV, which are the libraries'.
use catalyst_svm.Prelude.{ℕ, ◌≡◌, refl, List, [], ◌∷◌, ◌++◌, map, length, All}
use catalyst_svm.Prelude.Float.{Float}
use catalyst_svm.Text.{Text, codes, decimal}
use catalyst_svm.Metrics.{SystemMetrics}

abbrev pub table_header : List Text
table_header =
    codes "Policy"
    ∷ codes "Scenario"
    ∷ codes "Txs"
    ∷ codes "Batches"
    ∷ codes "Avg Size"
    ∷ codes "P50 (ms)"
    ∷ codes "P95 (ms)"
    ∷ codes "TPS"
    ∷ codes "Proof (KB)"
    ∷ codes "SLA Viol"
    ∷ codes "Efficiency"
    ∷ []

abbrev pub csv_header : List Text
csv_header =
    codes "policy"
    ∷ codes "scenario"
    ∷ codes "total_transactions"
    ∷ codes "total_batches"
    ∷ codes "avg_batch_size"
    ∷ codes "avg_latency_ms"
    ∷ codes "p50_latency_ms"
    ∷ codes "p95_latency_ms"
    ∷ codes "p99_latency_ms"
    ∷ codes "avg_throughput_tps"
    ∷ codes "total_proof_size_bytes"
    ∷ codes "verification_success_rate"
    ∷ codes "sla_violations"
    ∷ codes "batch_efficiency"
    ∷ []

-- `fixed n` is `{:.n}` of an f64.
module _ ⦃f : Float⦄ (fixed : ℕ → f.F64 → Text) where
  -- The lines of `print_single_result`.
  unfoldable pub result_lines : SystemMetrics → List Text
  unfolding decimal
  result_lines m =
      []
      ∷ codes "=== Simulation Results ==="
      ∷ (codes "Policy: " ++ m.policy_name)
      ∷ (codes "Scenario: " ++ m.scenario_name)
      ∷ (codes "Total transactions: " ++ decimal m.total_transactions)
      ∷ (codes "Total batches: " ++ decimal m.total_batches)
      ∷ (codes "Avg batch size: " ++ fixed 1 m.avg_batch_size)
      ∷ (codes "Avg latency: " ++ fixed 2 m.avg_latency_ms ++ codes " ms")
      ∷ (codes "P50 latency: " ++ fixed 2 m.p50_latency_ms ++ codes " ms")
      ∷ (codes "P95 latency: " ++ fixed 2 m.p95_latency_ms ++ codes " ms")
      ∷ (codes "P99 latency: " ++ fixed 2 m.p99_latency_ms ++ codes " ms")
      ∷ (codes "Avg throughput: " ++ fixed 2 m.avg_throughput_tps ++ codes " TPS")
      ∷ (codes "Total proof size: " ++ decimal m.total_proof_size_bytes ++ codes " bytes")
      ∷ (codes "Verification success rate: "
          ++ fixed 1 (f.mul m.verification_success_rate (f.literal 100 0))
          ++ codes "%")
      ∷ (codes "SLA violations: " ++ decimal m.sla_violations)
      ∷ (codes "Batch efficiency: " ++ fixed 2 m.batch_efficiency)
      ∷ []

  -- A row of `print_comparison_table`.
  unfoldable pub table_row : SystemMetrics → List Text
  unfolding decimal
  table_row m =
      m.policy_name
      ∷ m.scenario_name
      ∷ decimal m.total_transactions
      ∷ decimal m.total_batches
      ∷ fixed 1 m.avg_batch_size
      ∷ fixed 1 m.p50_latency_ms
      ∷ fixed 1 m.p95_latency_ms
      ∷ fixed 1 m.avg_throughput_tps
      ∷ fixed 1 (f.div (f.of_nat m.total_proof_size_bytes) (f.literal 1024 0))
      ∷ decimal m.sla_violations
      ∷ fixed 2 m.batch_efficiency
      ∷ []

  -- A record that `save_results` writes.
  unfoldable pub csv_record : SystemMetrics → List Text
  unfolding decimal
  csv_record m =
      m.policy_name
      ∷ m.scenario_name
      ∷ decimal m.total_transactions
      ∷ decimal m.total_batches
      ∷ fixed 2 m.avg_batch_size
      ∷ fixed 2 m.avg_latency_ms
      ∷ fixed 2 m.p50_latency_ms
      ∷ fixed 2 m.p95_latency_ms
      ∷ fixed 2 m.p99_latency_ms
      ∷ fixed 2 m.avg_throughput_tps
      ∷ decimal m.total_proof_size_bytes
      ∷ fixed 4 m.verification_success_rate
      ∷ decimal m.sla_violations
      ∷ fixed 4 m.batch_efficiency
      ∷ []

  unfoldable pub table_rows : List SystemMetrics → List (List Text)
  unfolding table_row
  table_rows results = table_header ∷ map table_row results

  unfoldable pub csv_records : List SystemMetrics → List (List Text)
  unfolding csv_record
  csv_records results = csv_header ∷ map csv_record results

  All-map :
      (row : SystemMetrics → List Text) (n : ℕ) (results : List SystemMetrics)
      → ((m : SystemMetrics) → length (row m) ≡ n)
      → All (λ r. length r ≡ n) (map row results)
  All-map row n [] same = tt
  All-map row n (m ∷ results) same = (same m, All-map row n results same)

  -- The writer of the CSV refuses a record of another length than the first: it never does.
  csv_records_full :
      (results : List SystemMetrics) → All (λ r. length r ≡ length csv_header) (csv_records results)
  unfolding csv_records csv_record
  csv_records_full results = (refl, All-map csv_record (length csv_header) results (λ m. refl))

  table_rows_full :
      (results : List SystemMetrics)
      → All (λ r. length r ≡ length table_header) (table_rows results)
  unfolding table_rows table_row
  table_rows_full results = (refl, All-map table_row (length table_header) results (λ m. refl))
