-- ===== src/Policy/Auto/Patterns.antt =====
-- Which patterns the auto policy can come to, over any sequence of observations.
use catalyst_svm.Prelude.{
  ℕ, zero, suc, ◌+◌, ◌-◌, ◌/◌, ◌≤◌, ◌<◌, ◌≡◌, ◌≢◌, sym, ◌∙◌, ◌%◌, if◌then◌else◌, List, [], ◌∷◌,
  Bool, true, arith, length, set, count_if, u64_mod,
}
use catalyst_svm.Prelude.Float.{Float}
use catalyst_svm.Policy.Auto.{
  TrafficPattern, idle, steady, bursty, high_load, pattern_eq, AutoPolicy, new_auto,
  adapt_to_pattern, is_recent, classify, update_pattern, record_arrival, observe_queue_growth,
}
use catalyst_svm.Policy.Auto.Invariant.{
  IsValid, new_auto-IsValid, record_arrival-IsValid, observe_queue_growth-IsValid,
}

count_if-set :
    (p : ℕ → Bool) (xs : List ℕ) (i v : ℕ)
    → i < length xs
    → p v ≡ true
    → 0 < count_if p (set xs i v)
count_if-set p [] i v h e = absurd (omega arith)
count_if-set p (x ∷ xs) zero v h e = rw e (omega arith)
count_if-set p (x ∷ xs) (suc i) v h e = ground (arith, count_if-set p xs i v (omega arith) e)

switch_follows :
    (new : TrafficPattern) (p : AutoPolicy)
    → (if pattern_eq new p.observed_pattern
        then p
        else adapt_to_pattern (record p { observed_pattern = new })).observed_pattern
      ≡ new
unfolding adapt_to_pattern
switch_follows idle p = ground arith
switch_follows steady p = ground arith
switch_follows bursty p = ground arith
switch_follows high_load p = ground arith

module _ ⦃f : Float⦄ where
  classify_not_idle :
      (now : ℕ) (times : List ℕ)
      → 0 < count_if (is_recent (now - 1000) now) times
      → classify now times ≢ idle
  unfolding classify
  classify_not_idle now times h e = ground arith

  update_pattern_follows :
      (now : ℕ) (p : AutoPolicy)
      → (update_pattern now p).observed_pattern ≡ classify now p.arrival_times
  unfolding update_pattern
  update_pattern_follows now p = switch_follows (classify now p.arrival_times) p

  -- An arrival after time 0 is itself recent, so it never leaves a valid policy idle.
  pub record_arrival_not_idle :
      (now : ℕ) (p : AutoPolicy)
      → IsValid p
      → 0 < now
      → (record_arrival now p).observed_pattern ≢ idle
  unfolding record_arrival
  record_arrival_not_idle now p v later e =
      let times = set p.arrival_times p.arrival_idx now in
      classify_not_idle now times
        (count_if-set (is_recent (now - 1000) now) p.arrival_times p.arrival_idx now
          (omega (arith, v.ring, v.in_ring)) (ground arith))
        (sym (
            update_pattern_follows now (record p {
              arrival_times = times;
              arrival_idx = (p.arrival_idx + 1) % length p.arrival_times;
              last_arrival_ms = now;
            }))
          ∙ e)

  pub data Observation : Type 0 where
    arrival : ℕ → Observation
    growth : f.F64 → Observation

  pub observe : List Observation → AutoPolicy → AutoPolicy
  observe [] p = p
  observe (arrival now ∷ rest) p = observe rest (record_arrival now p)
  observe (growth rate ∷ rest) p = observe rest (observe_queue_growth rate p)

  observe-IsValid :
      (seen : List Observation) (p : AutoPolicy) → IsValid p → IsValid (observe seen p)
  unfolding observe
  observe-IsValid [] p v = v
  observe-IsValid (arrival now ∷ rest) p v =
      observe-IsValid rest (record_arrival now p) (record_arrival-IsValid now p v)
  observe-IsValid (growth rate ∷ rest) p v =
      observe-IsValid rest (observe_queue_growth rate p) (observe_queue_growth-IsValid rate p v)

  -- For batch sizes whose sum is below 2^64, no sequence of arrivals and growth rates brings a new
  -- policy to high load, and its threshold stays between the least batch and the middle of the
  -- two.
  pub never_high_load :
      (seen : List Observation) (least most latency : ℕ)
      → least ≤ most
      → least + most < u64_mod
      → let p = observe seen (new_auto least most latency) in
        (p.observed_pattern ≢ high_load)
        × (p.min_batch ≤ p.current_threshold)
        × (p.current_threshold ≤ (p.min_batch + p.max_batch) / 2)
  never_high_load seen least most latency h small =
      let v =
        observe-IsValid seen (new_auto least most latency)
          (new_auto-IsValid least most latency h small) in
      (v.not_high, v.least, v.most)
