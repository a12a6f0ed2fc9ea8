-- ===== src/Tests/Sealing.antt =====
-- The policies at concrete settings.
use catalyst_svm.Prelude.{◌+◌, ◌/◌, ◌≤◌, ◌≡◌, ◌≢◌, List, [], ◌∷◌, arith}
use catalyst_svm.Policy.Adaptive.{new_adaptive}
use catalyst_svm.Policy.Auto.{new_auto, high_load}
use catalyst_svm.Policy.Auto.Patterns.{Observation, arrival, growth, observe, never_high_load}
use catalyst_svm.Policy.Engine.{Policy, adaptive, should_seal}
use catalyst_svm.Policy.Limits.{limits, reached, should_seal-reached}
use catalyst_svm.Tests.Fixtures.{thousandths}

-- The policy that the validator makes of ten transactions and five seconds.
abbrev adapts : Policy
adapts = adaptive (new_adaptive 10 200 5000 100)

should_seal-reached_example : should_seal adapts 7 900 0 ≡ reached (limits adapts 0) 7 900
should_seal-reached_example = should_seal-reached adapts 7 900 0

abbrev seen : List Observation
seen = arrival 100 ∷ growth 3000 ∷ arrival 110 ∷ arrival 120 ∷ []

never_high_load_example :
    let p = observe seen (new_auto 10 500 1000) in
    (p.observed_pattern ≢ high_load)
    × (p.min_batch ≤ p.current_threshold)
    × (p.current_threshold ≤ (p.min_batch + p.max_batch) / 2)
never_high_load_example = never_high_load seen 10 500 1000 (omega arith) (omega arith)
