-- ===== src/Policy/Adaptive.antt =====
-- The adaptive policy: a proportional controller over the growth of the queue and the latency.
use catalyst_svm.Prelude.{
  ℕ, ◌+◌, ◌*◌, ◌/◌, ◌≤◌, ◌<◌, ◌≡◌, ◌⊎◌, Bool, true, false, ◌&&◌, ltb, leb, ◌==◌, if◌then◌else◌, min,
  max, wrap64, u64_mod, arith,
}
use catalyst_svm.Prelude.Float.{Float}

module _ ⦃f : Float⦄ where
  pub record AdaptivePolicy : Type 0 where
    pub base_count : ℕ
    pub max_count : ℕ
    pub min_count : ℕ
    pub time_threshold_ms : ℕ
    pub latency_budget_ms : ℕ
    pub observed_latency_ms : ℕ
    pub queue_growth_rate : f.F64

  -- `AdaptivePolicy::new`
  abbrev pub new_adaptive : ℕ → ℕ → ℕ → ℕ → AdaptivePolicy
  new_adaptive base most time_threshold latency_budget = record {
    base_count = base;
    max_count = most;
    min_count = 1;
    time_threshold_ms = time_threshold;
    latency_budget_ms = latency_budget;
    observed_latency_ms = 0;
    queue_growth_rate = f.literal 1 0;
  }

  -- The threshold scaled up by a fast growth.
  abbrev scaled_up : AdaptivePolicy → f.F64
  scaled_up p =
      if f.less (f.literal 15 1) p.queue_growth_rate
      then f.mul (f.of_nat p.base_count) (
          f.add (f.literal 1 0) (f.mul (f.sub p.queue_growth_rate (f.literal 1 0)) (f.literal 3 1)))
      else f.of_nat p.base_count

  -- The threshold scaled down where the latency nears the budget.
  abbrev scaled_down : AdaptivePolicy → f.F64 → f.F64
  scaled_down p threshold =
      let ratio = f.div (f.of_nat p.observed_latency_ms) (f.of_nat p.latency_budget_ms) in
      if ltb 0 p.observed_latency_ms
      then if f.less (f.literal 7 1) ratio
        then f.mul threshold (
            f.fmax (f.sub (f.literal 1 0) (f.mul (f.sub ratio (f.literal 7 1)) (f.literal 2 0)))
              (f.literal 3 1))
        else threshold
      else threshold

  unfoldable pub compute_threshold : AdaptivePolicy → ℕ
  compute_threshold p = min (max (f.ceil_nat (scaled_down p (scaled_up p))) p.min_count) p.max_count

  unfoldable pub should_seal : AdaptivePolicy → ℕ → ℕ → f.F64 → Bool
  should_seal p queue_len oldest_wait_ms avg_arrival_rate =
      if queue_len == 0
      then false
      else if leb (compute_threshold p) queue_len
      then true
      else if leb p.time_threshold_ms oldest_wait_ms
      then true
      else if leb p.latency_budget_ms oldest_wait_ms
      then true
      else f.less (f.literal 100 0) avg_arrival_rate && leb p.min_count queue_len

  -- The moving average of the latency, in whole milliseconds.
  unfoldable pub observe_latency : ℕ → AdaptivePolicy → AdaptivePolicy
  observe_latency latency_ms p = record p {
    observed_latency_ms =
        wrap64 (wrap64 (p.observed_latency_ms * 7) + wrap64 (latency_ms * 3)) / 10;
  }

  unfoldable pub observe_queue_growth : f.F64 → AdaptivePolicy → AdaptivePolicy
  observe_queue_growth rate p = record p {
    queue_growth_rate =
        f.add (f.mul p.queue_growth_rate (f.literal 8 1)) (f.mul rate (f.literal 2 1));
  }

  -- Whatever the floating-point controller computes, the threshold stays between the least and the
  -- largest batch, if the least is not above the largest.
  pub compute_threshold_bounds :
      (p : AdaptivePolicy)
      → p.min_count ≤ p.max_count
      → (p.min_count ≤ compute_threshold p) × (compute_threshold p ≤ p.max_count)
  unfolding compute_threshold
  compute_threshold_bounds p h = (omega arith, omega arith)

  -- A full batch, and a transaction that has waited for the time threshold or the latency budget,
  -- seal the batch whatever the controller computes; an empty queue never does.
  pub should_seal_forced :
      (p : AdaptivePolicy) (queue_len oldest_wait_ms : ℕ) (rate : f.F64)
      → p.min_count ≤ p.max_count
      → 0 < queue_len
      → (p.max_count ≤ queue_len)
        ⊎ ((p.time_threshold_ms ≤ oldest_wait_ms) ⊎ (p.latency_budget_ms ≤ oldest_wait_ms))
      → should_seal p queue_len oldest_wait_ms rate ≡ true
  unfolding should_seal
  should_seal_forced p q w rate h pos forced = ground (arith, compute_threshold_bounds p h)

  -- Where its sum fits in 64 bits, the average lies between the old average and the new latency.
  pub observe_latency_bounds :
      (p : AdaptivePolicy) (latency_ms : ℕ)
      → p.observed_latency_ms * 7 + latency_ms * 3 < u64_mod
      → (min p.observed_latency_ms latency_ms ≤ (observe_latency latency_ms p).observed_latency_ms)
        × ((observe_latency latency_ms p).observed_latency_ms
            ≤ max p.observed_latency_ms latency_ms)
  unfolding observe_latency
  observe_latency_bounds p l h = (omega arith, omega arith)
