-- ===== src/Metrics.antt =====
-- The metrics of batches and their aggregation (crates/common/src/metrics.rs, and the two records of
-- crates/common/src/types.rs).
use catalyst_svm.Prelude.{
  ℕ, ◌+◌, List, [], ◌∷◌, ◌++◌, Bool, map, foldl, length, get_or, count_if, min, wrap64, ltb, ◌==◌,
  if◌then◌else◌,
}
use catalyst_svm.Prelude.Float.{Float}
use catalyst_svm.Text.{Text}

-- `iter().sum()` of 64-bit numbers.
abbrev pub sum64 : List ℕ → ℕ
sum64 [] = 0
sum64 (n ∷ rest) = wrap64 (n + sum64 rest)

module _ ⦃f : Float⦄ where
  pub record BatchMetrics : Type 0 where
    pub batch_id : Text
    pub policy_name : Text
    pub batch_size : ℕ
    pub total_compute_used : ℕ
    pub execution_time_ms : ℕ
    pub proving_time_ms : ℕ
    pub verification_time_ms : ℕ
    pub end_to_end_latency_ms : ℕ
    pub proof_size_bytes : ℕ
    pub throughput_tps : f.F64
    pub avg_tx_latency_ms : f.F64
    pub verification_passed : Bool

  pub record SystemMetrics : Type 0 where
    pub policy_name : Text
    pub scenario_name : Text
    pub total_transactions : ℕ
    pub total_batches : ℕ
    pub avg_batch_size : f.F64
    pub avg_latency_ms : f.F64
    pub p50_latency_ms : f.F64
    pub p95_latency_ms : f.F64
    pub p99_latency_ms : f.F64
    pub avg_throughput_tps : f.F64
    pub total_proof_size_bytes : ℕ
    pub avg_proof_size_bytes : f.F64
    pub verification_success_rate : f.F64
    pub total_compute_used : ℕ
    pub amortized_cost_per_tx : f.F64
    pub batch_efficiency : f.F64
    pub sla_violations : ℕ

  -- `SystemMetrics::default`, with the two names.
  abbrev pub no_metrics : Text → Text → SystemMetrics
  no_metrics policy scenario = record {
    policy_name = policy;
    scenario_name = scenario;
    total_transactions = 0;
    total_batches = 0;
    avg_batch_size = f.literal 0 0;
    avg_latency_ms = f.literal 0 0;
    p50_latency_ms = f.literal 0 0;
    p95_latency_ms = f.literal 0 0;
    p99_latency_ms = f.literal 0 0;
    avg_throughput_tps = f.literal 0 0;
    total_proof_size_bytes = 0;
    avg_proof_size_bytes = f.literal 0 0;
    verification_success_rate = f.literal 0 0;
    total_compute_used = 0;
    amortized_cost_per_tx = f.literal 0 0;
    batch_efficiency = f.literal 0 0;
    sla_violations = 0;
  }

  -- `iter().sum::<f64>()`
  abbrev pub sum_float : List f.F64 → f.F64
  sum_float = foldl f.add (f.literal 0 0)

  -- A stable sort; the latencies come from whole numbers, so all of them compare.
  abbrev pub insert_sorted : f.F64 → List f.F64 → List f.F64
  insert_sorted a [] = a ∷ []
  insert_sorted a (b ∷ rest) = if f.less b a then b ∷ insert_sorted a rest else a ∷ b ∷ rest

  abbrev pub sort : List f.F64 → List f.F64
  sort [] = []
  sort (a ∷ rest) = insert_sorted a (sort rest)

  unfoldable pub percentile : List f.F64 → f.F64 → f.F64
  percentile [] p = f.literal 0 0
  percentile (a ∷ rest) p =
      let last = length rest in
      get_or (a ∷ rest) (min (f.round_nat (f.mul (f.div p (f.literal 100 0)) (f.of_nat last))) last)
        (f.literal 0 0)

  unfoldable pub compute_batch_efficiency : List BatchMetrics → f.F64
  compute_batch_efficiency [] = f.literal 0 0
  compute_batch_efficiency (m ∷ rest) =
      let ms = m ∷ rest in
      let execution = sum64 (map (λ m. m.execution_time_ms) ms) in
      let overhead = sum64 (map (λ m. wrap64 (m.proving_time_ms + m.verification_time_ms)) ms) in
      if overhead == 0
      then f.literal 1 0
      else f.div (f.of_nat execution) (f.of_nat (wrap64 (execution + overhead)))

  unfoldable pub aggregate_metrics : List BatchMetrics → Text → Text → ℕ → SystemMetrics
  unfolding percentile compute_batch_efficiency
  aggregate_metrics [] policy scenario sla = no_metrics policy scenario
  aggregate_metrics (m ∷ rest) policy scenario sla =
      let ms = m ∷ rest in
      let batches = length ms in
      let transactions = sum64 (map (λ m. m.batch_size) ms) in
      let latencies = sort (map (λ m. f.of_nat m.end_to_end_latency_ms) ms) in
      let proof_bytes = sum64 (map (λ m. m.proof_size_bytes) ms) in
      let throughputs = map (λ m. m.throughput_tps) ms in
      record {
        policy_name = policy;
        scenario_name = scenario;
        total_transactions = transactions;
        total_batches = batches;
        avg_batch_size = f.div (f.of_nat transactions) (f.of_nat batches);
        avg_latency_ms = f.div (sum_float latencies) (f.of_nat (length latencies));
        p50_latency_ms = percentile latencies (f.literal 50 0);
        p95_latency_ms = percentile latencies (f.literal 95 0);
        p99_latency_ms = percentile latencies (f.literal 99 0);
        avg_throughput_tps = f.div (sum_float throughputs) (f.of_nat (length throughputs));
        total_proof_size_bytes = proof_bytes;
        avg_proof_size_bytes = f.div (f.of_nat proof_bytes) (f.of_nat batches);
        verification_success_rate =
            f.div (f.of_nat (count_if (λ m. m.verification_passed) ms)) (f.of_nat batches);
        total_compute_used = sum64 (map (λ m. m.total_compute_used) ms);
        amortized_cost_per_tx =
            if ltb 0 transactions
            then f.div (f.of_nat proof_bytes) (f.of_nat transactions)
            else f.literal 0 0;
        batch_efficiency = compute_batch_efficiency ms;
        sla_violations = count_if (λ m. ltb sla m.end_to_end_latency_ms) ms;
      }

  pub record MetricsAggregator : Type 0 where
    pub batch_metrics : List BatchMetrics

  abbrev pub new_aggregator : MetricsAggregator
  new_aggregator = record { batch_metrics = [] }

  -- `MetricsAggregator::record`
  abbrev pub record_metrics : BatchMetrics → MetricsAggregator → MetricsAggregator
  record_metrics m a = record { batch_metrics = a.batch_metrics ++ m ∷ [] }

  abbrev pub batch_count : MetricsAggregator → ℕ
  batch_count a = length a.batch_metrics

  abbrev pub transaction_count : MetricsAggregator → ℕ
  transaction_count a = sum64 (map (λ m. m.batch_size) a.batch_metrics)

  unfoldable pub finalize : Text → Text → ℕ → MetricsAggregator → SystemMetrics
  unfolding aggregate_metrics
  finalize policy scenario sla a = aggregate_metrics a.batch_metrics policy scenario sla
