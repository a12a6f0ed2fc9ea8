-- ===== src/Policy/Limits.antt =====
-- What every policy comes down to: a limit on the count, and a limit on the oldest wait.
use catalyst_svm.Prelude.{
  ℕ, ◌≤◌, ◌≡◌, sym, ◌∙◌, Bool, true, false, ◌&&◌, ◌||◌, ltb, leb, min, max, Option, none, some,
  arith, if◌then◌else◌, refl,
}
use catalyst_svm.Prelude.Float.{Float}
use catalyst_svm.Policy.Adaptive
use catalyst_svm.Policy.Adaptive.{AdaptivePolicy, compute_threshold}
use catalyst_svm.Policy.Auto
use catalyst_svm.Policy.Auto.{AutoPolicy}
use catalyst_svm.Policy.Fixed.{
  should_seal_count, should_seal_time, should_seal_hybrid, should_seal_priority,
}
use catalyst_svm.Policy.Engine.{
  Policy, fixed_count, fixed_time, hybrid, adaptive, priority_aware, auto, should_seal,
}

-- A batch is sealed from a length of the queue on, or from a wait on where the queue is not empty.
pub record Limits : Type 0 where
  pub count : Option ℕ
  pub wait : Option ℕ

abbrev pub at_least : Option ℕ → ℕ → Bool
at_least none n = false
at_least (some limit) n = leb limit n

abbrev pub reached : Limits → ℕ → ℕ → Bool
reached l queue_len wait = at_least l.count queue_len || (ltb 0 queue_len && at_least l.wait wait)

reached_monotone :
    (l : Limits) (q q' w w' : ℕ) → q ≤ q' → w ≤ w' → reached l q w ≡ true → reached l q' w' ≡ true
reached_monotone l q q' w w' more longer seals = ground arith

module _ ⦃f : Float⦄ where
  -- The limits at an arrival rate. A fast one lowers the count to the least batch.
  abbrev pub limits : Policy → f.F64 → Limits
  unfolding compute_threshold
  limits (fixed_count p) rate = record { count = some p.threshold; wait = none }
  limits (fixed_time p) rate = record { count = none; wait = some p.interval_ms }
  limits (hybrid p) rate = record {
    count = some p.count_threshold;
    wait = some p.time_threshold_ms;
  }
  limits (adaptive p) rate =
      let threshold = compute_threshold p in
      record {
        count = some (
            max 1 (if f.less (f.literal 100 0) rate then min threshold p.min_count else threshold));
        wait = some (min p.time_threshold_ms p.latency_budget_ms);
      }
  limits (priority_aware p) rate = record {
    count = some p.base_policy.count_threshold;
    wait = some p.base_policy.time_threshold_ms;
  }
  limits (auto p) rate = record {
    count = some (
        max 1 (
          if f.less (f.literal 50 0) rate
          then min p.current_threshold p.min_batch
          else p.current_threshold));
    wait = some (min p.current_time_limit_ms p.max_latency_ms);
  }

  -- Each of the six policies seals exactly when the length of the queue reaches a count or, where the
  -- queue is not empty, its oldest wait reaches a time. The fixed policies have one of the two; the hybrid
  -- and the priority-aware policy have both of their thresholds; the adaptive and the auto policy have the
  -- lesser of their two times, and as a count their threshold, but no more than their least batch at more
  -- than 100 or 50 arrivals a second, and at least one.
  pub should_seal-reached :
      (p : Policy) (queue_len wait : ℕ) (rate : f.F64)
      → should_seal p queue_len wait rate ≡ reached (limits p rate) queue_len wait
  unfolding should_seal should_seal_count should_seal_time should_seal_hybrid should_seal_priority
      Adaptive.should_seal Auto.should_seal limits
  should_seal-reached (fixed_count p) q w rate = ground arith
  should_seal-reached (fixed_time p) q w rate = ground arith
  should_seal-reached (hybrid p) q w rate = refl
  should_seal-reached (adaptive p) q w rate = ground arith
  should_seal-reached (priority_aware p) q w rate = refl
  should_seal-reached (auto p) q w rate = ground arith

  -- Pressure never takes a seal back.
  should_seal_monotone :
      (p : Policy) (queue_len queue_len' wait wait' : ℕ) (rate : f.F64)
      → queue_len ≤ queue_len'
      → wait ≤ wait'
      → should_seal p queue_len wait rate ≡ true
      → should_seal p queue_len' wait' rate ≡ true
  should_seal_monotone p q q' w w' rate more longer seals =
      should_seal-reached p q' w' rate
      ∙ reached_monotone (limits p rate) q q' w w' more longer
          (sym (should_seal-reached p q w rate) ∙ seals)
