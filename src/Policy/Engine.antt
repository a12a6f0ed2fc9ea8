-- ===== src/Policy/Engine.antt =====
-- `dyn PolicyEngine`, and the factory that makes policies by name.
use catalyst_svm.Prelude.{ℕ, Bool, ◌&&◌, ◌||◌, leb, if◌then◌else◌, map, ◌+◌}
use catalyst_svm.Prelude.Float.{Float}
use catalyst_svm.Text.{Text, codes, text_eq}
use catalyst_svm.Policy.Fixed.{
  FixedCountPolicy, FixedTimePolicy, HybridPolicy, PriorityAwarePolicy, should_seal_count,
  should_seal_time, should_seal_hybrid, should_seal_priority,
}
use catalyst_svm.Policy.Adaptive
use catalyst_svm.Policy.Adaptive.{AdaptivePolicy, new_adaptive}
use catalyst_svm.Policy.Auto
use catalyst_svm.Policy.Auto.{AutoPolicy}

pub record PolicyConfig : Type 0 where
  pub count_threshold : ℕ
  pub time_threshold_ms : ℕ
  pub latency_budget_ms : ℕ
  pub max_batch_size : ℕ
  pub critical_threshold : ℕ

-- `PolicyConfig::default`
abbrev pub default_config : PolicyConfig
default_config = record {
  count_threshold = 100;
  time_threshold_ms = 500;
  latency_budget_ms = 1000;
  max_batch_size = 500;
  critical_threshold = 5;
}

module _ ⦃f : Float⦄ where
  pub data Policy : Type 0 where
    fixed_count : FixedCountPolicy → Policy
    fixed_time : FixedTimePolicy → Policy
    hybrid : HybridPolicy → Policy
    adaptive : AdaptivePolicy → Policy
    priority_aware : PriorityAwarePolicy → Policy
    auto : AutoPolicy → Policy

  unfoldable pub should_seal : Policy → ℕ → ℕ → f.F64 → Bool
  unfolding should_seal_count should_seal_time should_seal_hybrid should_seal_priority
      Adaptive.should_seal Auto.should_seal
  should_seal (fixed_count p) queue_len oldest_wait rate = should_seal_count p queue_len oldest_wait
  should_seal (fixed_time p) queue_len oldest_wait rate = should_seal_time p queue_len oldest_wait
  should_seal (hybrid p) queue_len oldest_wait rate = should_seal_hybrid p queue_len oldest_wait
  should_seal (adaptive p) queue_len oldest_wait rate =
      Adaptive.should_seal p queue_len oldest_wait rate
  should_seal (priority_aware p) queue_len oldest_wait rate =
      should_seal_priority p queue_len oldest_wait
  should_seal (auto p) queue_len oldest_wait rate = Auto.should_seal p queue_len oldest_wait rate

  abbrev pub name : Policy → Text
  name (fixed_count _) = codes "FixedCount"
  name (fixed_time _) = codes "FixedTime"
  name (hybrid _) = codes "Hybrid"
  name (adaptive _) = codes "Adaptive"
  name (priority_aware _) = codes "PriorityAware"
  name (auto _) = codes "Auto"

  -- The two notifications; the trait's default does nothing.
  unfoldable pub observe_latency : ℕ → Policy → Policy
  unfolding Adaptive.observe_latency
  observe_latency latency_ms (adaptive p) = adaptive (Adaptive.observe_latency latency_ms p)
  observe_latency latency_ms p = p

  unfoldable pub observe_queue_growth : f.F64 → Policy → Policy
  unfolding Adaptive.observe_queue_growth Auto.observe_queue_growth
  observe_queue_growth rate (adaptive p) = adaptive (Adaptive.observe_queue_growth rate p)
  observe_queue_growth rate (auto p) = auto (Auto.observe_queue_growth rate p)
  observe_queue_growth rate p = p

-- `to_lowercase`. No character outside ASCII has a lower case that spells a name below.
abbrev pub lower : ℕ → ℕ
lower c = if leb 65 c && leb c 90 then c + 32 else c

abbrev pub to_lowercase : Text → Text
to_lowercase = map lower

module _ ⦃f : Float⦄ where
  unfoldable pub create_policy : Text → PolicyConfig → Policy
  unfolding text_eq
  create_policy given config =
      let s = to_lowercase given in
      if text_eq s (codes "fixedcount") || text_eq s (codes "fixed_count")
      then fixed_count (record { threshold = config.count_threshold })
      else if text_eq s (codes "fixedtime") || text_eq s (codes "fixed_time")
      then fixed_time (record { interval_ms = config.time_threshold_ms })
      else if text_eq s (codes "hybrid")
      then hybrid (record {
        count_threshold = config.count_threshold;
        time_threshold_ms = config.time_threshold_ms;
      })
      else if text_eq s (codes "adaptive")
      then adaptive (
          new_adaptive config.count_threshold config.max_batch_size config.time_threshold_ms
            config.latency_budget_ms)
      else if text_eq s (codes "priority") || text_eq s (codes "priorityaware")
      then priority_aware (record {
        base_policy = record {
          count_threshold = config.count_threshold;
          time_threshold_ms = config.time_threshold_ms;
        };
        critical_count_threshold = config.critical_threshold;
      })
      else hybrid (record {
        count_threshold = config.count_threshold;
        time_threshold_ms = config.time_threshold_ms;
      })
