-- ===== src/Simulation/Charts.antt =====
-- `generate_charts` (crates/benchmark-cli/src/main.rs), as far as what is drawn where.
pub mod Columns
use mathlib.Core.List.{Perm}
use catalyst_svm.Prelude.{
  ℕ, zero, suc, ◌+◌, ◌*◌, List, [], ◌∷◌, map, length, Bool, true, false, if◌then◌else◌,
}
use catalyst_svm.Prelude.Float.{Float}
use catalyst_svm.Text.{Text, text_eq}
use catalyst_svm.Metrics.{SystemMetrics, sum_float}

abbrev pub occurs : Text → List Text → Bool
occurs x [] = false
occurs x (y ∷ ys) = let rest = occurs x ys in if text_eq y x then true else rest

-- The elements of the `HashSet` that is collected from a list.
unfoldable pub distinct : List Text → List Text
distinct [] = []
distinct (x ∷ xs) = let rest = distinct xs in if occurs x xs then rest else x ∷ rest

-- The order in which a `HashSet` is iterated is not known: it has each element once.
pub record SetOrder : Type 0 where
  pub order : List Text → List Text
  pub permutes : (xs : List Text) → Perm (order xs) (distinct xs)

module _ ⦃f : Float⦄ where
  -- What one chart draws: one series for each policy, of marks at columns.
  pub record Chart : Type 0 where
    -- The axes are `0..columns` and `0.0..top`.
    pub columns : ℕ
    pub top : f.F64
    pub series : List (List (ℕ × f.F64))

  -- `results.iter().filter(|r| &r.policy_name == policy)`
  unfoldable pub of_policy : Text → List SystemMetrics → List SystemMetrics
  of_policy policy [] = []
  of_policy policy (r ∷ rs) =
      let rest = of_policy policy rs in if text_eq r.policy_name policy then r ∷ rest else rest

  -- `.map(..).fold(start, |a, b| a.max(b))`
  unfoldable pub peak : f.F64 → List f.F64 → f.F64
  peak a [] = a
  peak a (x ∷ xs) = peak (f.fmax a x) xs

  -- `.fold(0.0f64, ..) * 1.2`
  unfoldable pub axis_top : List f.F64 → f.F64
  unfolding peak
  axis_top xs = f.mul (peak (f.literal 0 0) xs) (f.literal 12 1)

  -- The marks of a policy, from its first column on; `j` numbers them.
  abbrev pub marks : (SystemMetrics → f.F64) → ℕ → ℕ → List SystemMetrics → List (ℕ × f.F64)
  marks value first j [] = []
  marks value first j (r ∷ rs) = (first + j, value r) ∷ marks value first (suc j) rs

  module _ (results : List SystemMetrics) where
    -- The loop over the policies, of the first two charts; `i` numbers the policies.
    unfoldable pub point_series :
        (SystemMetrics → f.F64) → ℕ → ℕ → List Text → List (List (ℕ × f.F64))
    unfolding of_policy
    point_series value scenarios i [] = []
    point_series value scenarios i (p ∷ ps) =
        marks value (i * scenarios) 0 (of_policy p results)
        ∷ point_series value scenarios (suc i) ps

    abbrev pub average_size : ℕ → Text → f.F64
    unfolding of_policy
    average_size scenarios p =
        f.div (sum_float (map (λ r. r.avg_proof_size_bytes) (of_policy p results)))
          (f.of_nat scenarios)

    -- The loop over the policies, of the third chart.
    unfoldable pub bar_series : ℕ → ℕ → List Text → List (List (ℕ × f.F64))
    unfolding average_size
    bar_series scenarios i [] = []
    bar_series scenarios i (p ∷ ps) =
        ((i, average_size scenarios p) ∷ []) ∷ bar_series scenarios (suc i) ps

    module _ (set : SetOrder) where
      abbrev pub policies : List Text
      policies = set.order (map (λ r. r.policy_name) results)

      abbrev pub scenarios : List Text
      scenarios = set.order (map (λ r. r.scenario_name) results)

      unfoldable pub point_chart : (SystemMetrics → f.F64) → Chart
      unfolding axis_top point_series
      point_chart value = record {
        columns = length policies * length scenarios;
        top = axis_top (map value results);
        series = point_series value (length scenarios) 0 policies;
      }

      unfoldable pub latency_chart : Chart
      unfolding point_chart
      latency_chart = point_chart (λ r. r.p95_latency_ms)

      unfoldable pub throughput_chart : Chart
      unfolding point_chart
      throughput_chart = point_chart (λ r. r.avg_throughput_tps)

      unfoldable pub proof_size_chart : Chart
      unfolding axis_top bar_series
      proof_size_chart = record {
        columns = length policies;
        top = axis_top (map (λ r. r.avg_proof_size_bytes) results);
        series = bar_series (length scenarios) 0 policies;
      }
