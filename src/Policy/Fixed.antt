-- ===== src/Policy/Fixed.antt =====
-- The policies that look at the queue's length and the oldest wait alone.
use catalyst_svm.Prelude.{ℕ, Bool, ◌&&◌, ◌||◌, ltb, leb}

pub record FixedCountPolicy : Type 0 where
  pub threshold : ℕ

pub record FixedTimePolicy : Type 0 where
  pub interval_ms : ℕ

pub record HybridPolicy : Type 0 where
  pub count_threshold : ℕ
  pub time_threshold_ms : ℕ

pub record PriorityAwarePolicy : Type 0 where
  pub base_policy : HybridPolicy
  pub critical_count_threshold : ℕ

-- `should_seal` of each; the arguments are the queue's length and the oldest wait.
unfoldable pub should_seal_count : FixedCountPolicy → ℕ → ℕ → Bool
should_seal_count p queue_len oldest_wait_ms = leb p.threshold queue_len

unfoldable pub should_seal_time : FixedTimePolicy → ℕ → ℕ → Bool
should_seal_time p queue_len oldest_wait_ms = ltb 0 queue_len && leb p.interval_ms oldest_wait_ms

unfoldable pub should_seal_hybrid : HybridPolicy → ℕ → ℕ → Bool
should_seal_hybrid p queue_len oldest_wait_ms =
    leb p.count_threshold queue_len || (ltb 0 queue_len && leb p.time_threshold_ms oldest_wait_ms)

unfoldable pub should_seal_for_critical : PriorityAwarePolicy → ℕ → Bool
should_seal_for_critical p critical_count = leb p.critical_count_threshold critical_count

unfoldable pub should_seal_priority : PriorityAwarePolicy → ℕ → ℕ → Bool
unfolding should_seal_hybrid
should_seal_priority p queue_len oldest_wait_ms =
    should_seal_hybrid p.base_policy queue_len oldest_wait_ms
