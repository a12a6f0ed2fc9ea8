-- ===== src/Policy/Auto.antt =====
-- The auto policy: it classifies the traffic from a ring of the last 100 arrivals.
pub mod Invariant
pub mod Patterns
use catalyst_svm.Prelude.{
  ℕ, suc, ◌+◌, ◌-◌, ◌/◌, ◌%◌, List, [], ◌∷◌, Bool, true, false, ◌&&◌, ltb, leb, ◌==◌, if◌then◌else◌,
  length, set, replicate, count_if, wrap64, map, not,
}
use catalyst_svm.Prelude.Float.{Float}

pub data TrafficPattern : Type 0 where
  idle steady bursty high_load : TrafficPattern

-- The derived `==`.
abbrev pub pattern_eq : TrafficPattern → TrafficPattern → Bool
pattern_eq idle idle = true
pattern_eq steady steady = true
pattern_eq bursty bursty = true
pattern_eq high_load high_load = true
pattern_eq _ _ = false

pub record AutoPolicy : Type 0 where
  pub min_batch : ℕ
  pub max_batch : ℕ
  pub max_latency_ms : ℕ
  pub arrival_times : List ℕ
  pub arrival_idx : ℕ
  pub last_arrival_ms : ℕ
  pub observed_pattern : TrafficPattern
  pub current_threshold : ℕ
  pub current_time_limit_ms : ℕ

-- `AutoPolicy::new`
unfoldable pub new_auto : ℕ → ℕ → ℕ → AutoPolicy
new_auto least most max_latency = record {
  min_batch = least;
  max_batch = most;
  max_latency_ms = max_latency;
  arrival_times = replicate 100 0;
  arrival_idx = 0;
  last_arrival_ms = 0;
  observed_pattern = idle;
  current_threshold = least;
  current_time_limit_ms = max_latency;
}

-- The `match` of `adapt_to_pattern`.
abbrev pub adapt_to : TrafficPattern → AutoPolicy → AutoPolicy
adapt_to idle p = record p { current_threshold = p.min_batch; current_time_limit_ms = 500 }
adapt_to steady p = record p {
  current_threshold = wrap64 (p.min_batch + p.max_batch) / 2;
  current_time_limit_ms = p.max_latency_ms / 2;
}
adapt_to bursty p = record p { current_threshold = p.min_batch; current_time_limit_ms = 200 }
adapt_to high_load p = record p {
  current_threshold = p.max_batch;
  current_time_limit_ms = p.max_latency_ms;
}

unfoldable pub adapt_to_pattern : AutoPolicy → AutoPolicy
adapt_to_pattern p = adapt_to p.observed_pattern p

-- The arrivals after `from` and up to `now`.
abbrev pub is_recent : ℕ → ℕ → ℕ → Bool
is_recent from now t = ltb from t && leb t now

unfoldable pub arrivals_since : ℕ → ℕ → List ℕ → List ℕ
arrivals_since from now [] = []
arrivals_since from now (t ∷ ts) =
    if is_recent from now t then t ∷ arrivals_since from now ts else arrivals_since from now ts

-- `windows(2)` and the saturating differences.
unfoldable pub intervals : List ℕ → List ℕ
intervals [] = []
intervals (a ∷ []) = []
intervals (a ∷ b ∷ rest) = (b - a) ∷ intervals (b ∷ rest)

-- `sum::<u64>()`
unfoldable pub sum_words : List ℕ → ℕ
sum_words [] = 0
sum_words (a ∷ rest) = wrap64 (a + sum_words rest)

module _ ⦃f : Float⦄ where
  -- `(i as f64 - mean).powi(2)`, summed.
  abbrev squares : f.F64 → f.F64 → List ℕ → f.F64
  squares mean acc [] = acc
  squares mean acc (i ∷ rest) =
      let d = f.sub (f.of_nat i) mean in squares mean (f.add acc (f.mul d d)) rest

  -- The deviation of the intervals.
  unfoldable pub variance : List ℕ → f.F64
  unfolding sum_words
  variance gaps =
      let n = f.of_nat (length gaps) in
      let mean = f.div (f.of_nat (sum_words gaps)) n in
      if ltb 1 (length gaps)
      then f.sqrt (f.div (squares mean (f.literal 0 0) gaps) n)
      else f.literal 0 0

  -- The pattern of the traffic at a time; `n - 1000` and `n - 5000` saturate.
  unfoldable pub classify : ℕ → List ℕ → TrafficPattern
  unfolding arrivals_since intervals variance
  classify now_ms times =
      let recent_count = count_if (is_recent (now_ms - 1000) now_ms) times in
      let deviation = variance (intervals (arrivals_since (now_ms - 5000) now_ms times)) in
      if ltb recent_count 1
      then idle
      else if ltb 100 recent_count
      then high_load
      else if f.less (f.literal 200 0) deviation
      then bursty
      else steady

  unfoldable pub update_pattern : ℕ → AutoPolicy → AutoPolicy
  unfolding classify adapt_to_pattern
  update_pattern now_ms p =
      let new_pattern = classify now_ms p.arrival_times in
      if pattern_eq new_pattern p.observed_pattern
      then p
      else adapt_to_pattern (record p { observed_pattern = new_pattern })

  unfoldable pub record_arrival : ℕ → AutoPolicy → AutoPolicy
  unfolding update_pattern
  record_arrival now_ms p = update_pattern now_ms (record p {
    arrival_times = set p.arrival_times p.arrival_idx now_ms;
    arrival_idx = (p.arrival_idx + 1) % length p.arrival_times;
    last_arrival_ms = now_ms;
  })

  unfoldable pub should_seal : AutoPolicy → ℕ → ℕ → f.F64 → Bool
  should_seal p queue_len oldest_wait_ms avg_arrival_rate =
      if queue_len == 0
      then false
      else if leb p.current_threshold queue_len
      then true
      else if leb p.current_time_limit_ms oldest_wait_ms
      then true
      else if leb p.max_latency_ms oldest_wait_ms
      then true
      else f.less (f.literal 50 0) avg_arrival_rate && leb p.min_batch queue_len

  unfoldable pub observe_queue_growth : f.F64 → AutoPolicy → AutoPolicy
  unfolding adapt_to_pattern
  observe_queue_growth rate p =
      if f.less (f.literal 2 0) rate && not (pattern_eq p.observed_pattern high_load)
      then adapt_to_pattern (record p { observed_pattern = bursty })
      else p
