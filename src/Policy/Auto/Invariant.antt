-- ===== src/Policy/Auto/Invariant.antt =====
-- The ring stays a ring, and the threshold between the least and the largest batch.
use catalyst_svm.Prelude.{
  ℕ, ◌+◌, ◌-◌, ◌%◌, ◌/◌, ◌≤◌, ◌<◌, ◌≡◌, ◌≢◌, inl, inr, refl, List, arith, length, length-set,
  length-replicate, set, count_if-le, Bool-cases, u64_mod,
}
use catalyst_svm.Prelude.Float.{Float}
use catalyst_svm.Policy.Auto.{
  TrafficPattern, idle, steady, bursty, high_load, pattern_eq, AutoPolicy, new_auto,
  adapt_to_pattern, is_recent, classify, update_pattern, record_arrival, observe_queue_growth,
}

pub record IsValid (p : AutoPolicy) : Type 0 where
  pub ring : length p.arrival_times ≡ 100
  pub in_ring : p.arrival_idx < 100
  pub ordered : p.min_batch ≤ p.max_batch
  pub small : p.min_batch + p.max_batch < u64_mod
  pub least : p.min_batch ≤ p.current_threshold
  -- High load alone would set the largest batch, and is never detected.
  pub most : p.current_threshold ≤ (p.min_batch + p.max_batch) / 2
  pub not_high : p.observed_pattern ≢ high_load

pub new_auto-IsValid :
    (least most latency : ℕ)
    → least ≤ most
    → least + most < u64_mod
    → IsValid (new_auto least most latency)
unfolding new_auto
new_auto-IsValid least most latency h small = record {
  ring = length-replicate {A = ℕ} 100 0;
  in_ring = omega arith;
  ordered = h;
  small = small;
  least = omega arith;
  most = omega arith;
  not_high = λ e. cc e;
}

module _ ⦃f : Float⦄ where
  -- A ring of 100 arrivals holds at most 100 recent ones, so the rate never counts as high.
  pub classify_not_high :
      (now : ℕ) (times : List ℕ) → length times ≤ 100 → classify now times ≢ high_load
  unfolding classify
  classify_not_high now times h e = ground (arith, count_if-le (is_recent (now - 1000) now) times)

  adapt-IsValid :
      (p : AutoPolicy) (pattern : TrafficPattern)
      → IsValid p
      → pattern ≢ high_load
      → IsValid (adapt_to_pattern (record p { observed_pattern = pattern }))
  unfolding adapt_to_pattern
  adapt-IsValid p idle v n = ground arith
  adapt-IsValid p steady v n = ground arith
  adapt-IsValid p bursty v n = ground arith
  adapt-IsValid p high_load v n = absurd (n refl)

  update_pattern-IsValid : (now : ℕ) (p : AutoPolicy) → IsValid p → IsValid (update_pattern now p)
  unfolding update_pattern
  update_pattern-IsValid now p v =
      elim (Bool-cases (pattern_eq (classify now p.arrival_times) p.observed_pattern)) [
        | inl same ↦ rw same v
        | inr other ↦ rw other (
            adapt-IsValid p (classify now p.arrival_times) v
              (classify_not_high now p.arrival_times (omega (arith, v.ring))))
      ]

  -- Recording an arrival keeps a valid policy valid: 100 entries in the ring, the index inside it,
  -- the threshold between the least batch and the middle, and no high load.
  pub record_arrival-IsValid :
      (now : ℕ) (p : AutoPolicy) → IsValid p → IsValid (record_arrival now p)
  unfolding record_arrival
  record_arrival-IsValid now p v =
      update_pattern-IsValid now
        (record p {
          arrival_times = set p.arrival_times p.arrival_idx now;
          arrival_idx = (p.arrival_idx + 1) % length p.arrival_times;
          last_arrival_ms = now;
        })
        (record {
          ring = omega (arith, v.ring, length-set p.arrival_times p.arrival_idx now);
          in_ring = omega (arith, v.ring);
          ordered = v.ordered;
          small = v.small;
          least = v.least;
          most = v.most;
          not_high = v.not_high;
        })

  pub observe_queue_growth-IsValid :
      (rate : f.F64) (p : AutoPolicy) → IsValid p → IsValid (observe_queue_growth rate p)
  unfolding observe_queue_growth
  observe_queue_growth-IsValid rate p v = ground (arith, adapt-IsValid p bursty v)
