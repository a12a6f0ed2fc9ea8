-- ===== src/Simulation/Charts/Columns.antt =====
-- The columns of the charts that are drawn of a comparison.
use mathlib.Core.List.{Perm, Permᴰ}
use mathlib.Core.Logic.{∥∥₁_elim}
use native.Mathlib.Nat.{ℕ_set}
use catalyst_svm.Prelude.{
  ℕ, zero, suc, ◌+◌, ◌*◌, ◌≡◌, refl, sym, ap, ◌∙◌, subst, List, [], ◌∷◌, ◌++◌, map, length, arith,
  All, count_if, ok, ◌<◌, u64_mod,
}
use catalyst_svm.Prelude.Float.{Float}
use catalyst_svm.Text.{Text, codes, text_eq}
use catalyst_svm.Common.Hashing.{Hasher}
use catalyst_svm.Policy.Engine.{PolicyConfig}
use catalyst_svm.Ingress.{Rng}
use catalyst_svm.Pipeline.{Stages}
use catalyst_svm.Metrics.{SystemMetrics}
use catalyst_svm.Simulation.Charts.{
  Chart, SetOrder, distinct, of_policy, marks, point_series, bar_series, point_chart, policies,
  scenarios, latency_chart, throughput_chart, proof_size_chart,
}
use catalyst_svm.Simulation.Comparison.{compared_policies, run_comparison}
use catalyst_svm.Simulation.Grid.{label, rows, comparison-Fills}

-- The numbers from the first on.
unfoldable pub range : ℕ → ℕ → List ℕ
range first zero = []
range first (suc n) = first ∷ range (suc first) n

range-append : (a m n : ℕ) → range a m ++ range (a + m) n ≡ range a (m + n)
unfolding range
range-append a zero n =
    let start : a + 0 ≡ a = omega arith in
    let total : 0 + n ≡ n = omega arith in rw (start, total) refl
range-append a (suc m) n =
    let start : a + suc m ≡ suc a + m = omega arith in
    let total : suc m + n ≡ suc (m + n) = omega arith in
    rw (start, total) (ap (λ r. a ∷ r) (range-append (suc a) m n))

length-Permᴰ : {xs ys : List Text} → Permᴰ xs ys → length xs ≡ length ys
length-Permᴰ Permᴰ.nil = refl
length-Permᴰ (Permᴰ.cons _ p) = ap suc (length-Permᴰ p)
length-Permᴰ (Permᴰ.swap _ _) = refl
length-Permᴰ (Permᴰ.trans p q) = length-Permᴰ p ∙ length-Permᴰ q

All-Permᴰ : (P : Text → Type 0) {xs ys : List Text} → Permᴰ xs ys → All P ys → All P xs
All-Permᴰ P Permᴰ.nil a = tt
All-Permᴰ P (Permᴰ.cons e p) (a, rest) = (subst P (sym e) a, All-Permᴰ P p rest)
All-Permᴰ P (Permᴰ.swap e e') (b, (a, rest)) = (subst P (sym e) a, (subst P (sym e') b, rest))
All-Permᴰ P (Permᴰ.trans p q) a = All-Permᴰ P p (All-Permᴰ P q a)

-- The columns of the marks, one series after the other.
abbrev pub columns_of : ⦃f : Float⦄ → List (List (ℕ × f.F64)) → List ℕ
columns_of [] = []
columns_of (s ∷ series) = map (λ m. m.0) s ++ columns_of series

module _ ⦃f : Float⦄ where
  marks_columns :
      (value : SystemMetrics → f.F64) (first j : ℕ) (rs : List SystemMetrics)
      → map (λ m. m.0) (marks value first j rs) ≡ range (first + j) (length rs)
  unfolding range
  marks_columns value first j [] = refl
  marks_columns value first j (r ∷ rs) =
      let next : first + suc j ≡ suc (first + j) = omega arith in
      ap (λ c. (first + j) ∷ c)
        (marks_columns value first (suc j) rs ∙ ap (λ a. range a (length rs)) next)

  point_columns :
      (results : List SystemMetrics) (value : SystemMetrics → f.F64) (n i : ℕ) (ps : List Text)
      → All (λ p. length (of_policy p results) ≡ n) ps
      → columns_of (point_series results value n i ps) ≡ range (i * n) (length ps * n)
  unfolding point_series range
  point_columns results value n i [] each =
      let none_left : 0 * n ≡ 0 = omega arith in rw none_left refl
  point_columns results value n i (p ∷ ps) (full, each) =
      let here : i * n + 0 ≡ i * n = omega arith in
      let next : suc i * n ≡ i * n + n = grind arith in
      let total : suc (length ps) * n ≡ n + length ps * n = grind arith in
      let first = marks_columns value (i * n) 0 (of_policy p results) in
      let rest = point_columns results value n (suc i) ps each in
      rw (first, full, here, rest, next, total) (range-append (i * n) n (length ps * n))

  bar_columns :
      (results : List SystemMetrics) (n i : ℕ) (ps : List Text)
      → columns_of (bar_series results n i ps) ≡ range i (length ps)
  unfolding bar_series range
  bar_columns results n i [] = refl
  bar_columns results n i (p ∷ ps) = ap (λ c. i ∷ c) (bar_columns results n (suc i) ps)

  of_policy_cells :
      (p : Text) (rs : List SystemMetrics)
      → length (of_policy p rs) ≡ count_if (λ c. text_eq c.0 p) (map label rs)
  unfolding of_policy
  of_policy_cells p [] = refl
  of_policy_cells p (r ∷ rs) = let rest = of_policy_cells p rs in ground (arith, rest)

  names_of_cells :
      (rs : List SystemMetrics) → map (λ r. r.policy_name) rs ≡ map (λ c. c.0) (map label rs)
  names_of_cells [] = refl
  names_of_cells (r ∷ rs) = ap (λ ns. r.policy_name ∷ ns) (names_of_cells rs)

  scenarios_of_cells :
      (rs : List SystemMetrics) → map (λ r. r.scenario_name) rs ≡ map (λ c. c.1) (map label rs)
  scenarios_of_cells [] = refl
  scenarios_of_cells (r ∷ rs) = ap (λ ns. r.scenario_name ∷ ns) (scenarios_of_cells rs)

  -- Of the cells of a comparison.
  four_names : distinct (map (λ c. c.0) (rows compared_policies)) ≡ compared_policies
  unfolding distinct text_eq
  four_names = refl

  five_scenarios : length (distinct (map (λ c. c.1) (rows compared_policies))) ≡ 5
  unfolding distinct text_eq
  five_scenarios = refl

  five_each :
      All (λ p. count_if (λ c. text_eq c.0 p) (rows compared_policies) ≡ 5) compared_policies
  unfolding text_eq
  five_each = (refl, (refl, (refl, (refl, tt))))

  -- Each column of the chart's axis has one mark, and the marks are drawn from the left.
  pub record IsFilled (c : Chart) (n : ℕ) : Type 0 where
    pub axis : c.columns ≡ n
    pub marked : columns_of c.series ≡ range 0 n

  module _ (set : SetOrder) (rs : List SystemMetrics)
      (labels : map label rs ≡ rows compared_policies) where
    policies_set : distinct (map (λ r. r.policy_name) rs) ≡ compared_policies
    policies_set = ap distinct (names_of_cells rs ∙ ap (map (λ c. c.0)) labels) ∙ four_names

    policies_ordered : Perm (policies rs set) compared_policies
    policies_ordered =
        subst (Perm (policies rs set)) policies_set (set.permutes (map (λ r. r.policy_name) rs))

    four_policies : length (policies rs set) ≡ 4
    four_policies = ∥∥₁_elim policies_ordered (ℕ_set (length (policies rs set)) 4) length-Permᴰ

    scenarios_counted : length (scenarios rs set) ≡ 5
    scenarios_counted =
        let names = map (λ r. r.scenario_name) rs in
        ∥∥₁_elim (set.permutes names) (ℕ_set (length (set.order names)) (length (distinct names)))
          length-Permᴰ
        ∙ ap (λ ns. length (distinct ns)) (scenarios_of_cells rs ∙ ap (map (λ c. c.1)) labels)
        ∙ five_scenarios

    results_of :
        (p : Text)
        → count_if (λ c. text_eq c.0 p) (rows compared_policies) ≡ 5
        → length (of_policy p rs) ≡ 5
    results_of p five = of_policy_cells p rs ∙ ap (count_if (λ c. text_eq c.0 p)) labels ∙ five

    five_results : All (λ p. length (of_policy p rs) ≡ 5) compared_policies
    five_results =
        let (first, (second, (third, (fourth, _)))) = five_each in
        (
          results_of (codes "fixedcount") first,
          (
            results_of (codes "fixedtime") second,
            (results_of (codes "hybrid") third, (results_of (codes "adaptive") fourth, tt)),
          ),
        )

    points-IsFilled : (value : SystemMetrics → f.F64) → IsFilled (point_chart rs set value) 20
    unfolding point_chart
    points-IsFilled value = record {
      axis =
          ap (λ n. n * length (scenarios rs set)) four_policies ∙ ap (λ n. 4 * n) scenarios_counted;
      marked = rw (scenarios_counted) (
          ∥∥₁_elim policies_ordered (hlevel (ℕ_set)) (λ d.
            point_columns rs value 5 0 (policies rs set)
              (All-Permᴰ (λ p. length (of_policy p rs) ≡ 5) d five_results)
            ∙ ap (λ n. range 0 (n * 5)) four_policies));
    }

    bars-IsFilled : IsFilled (proof_size_chart rs set) 4
    unfolding proof_size_chart
    bars-IsFilled = record {
      axis = four_policies;
      marked =
          bar_columns rs (length (scenarios rs set)) 0 (policies rs set)
          ∙ ap (range 0) four_policies;
    }

module _ ⦃h : Hasher⦄ ⦃f : Float⦄ (stages : Stages) (rng : Rng) (seed count : ℕ)
    (config : PolicyConfig) (sla : ℕ) (set : SetOrder) where
  -- In whatever order the sets of the names are iterated: of the results of a comparison of fewer than
  -- 2 ^ 64 transactions, the charts of the latency and of the throughput draw one mark in each of their
  -- twenty columns, and the chart of the proofs' sizes one in each of its four.
  pub comparison-IsFilled :
      {rs : List SystemMetrics}
      → count < u64_mod
      → run_comparison stages rng seed count config sla ≡ ok rs
      → IsFilled (latency_chart rs set) 20
        × IsFilled (throughput_chart rs set) 20
        × IsFilled (proof_size_chart rs set) 4
  unfolding latency_chart throughput_chart
  comparison-IsFilled {rs = rs} small done =
      let labels = (comparison-Fills stages rng seed count config sla small done).labels in
      (
        points-IsFilled set rs labels (λ r. r.p95_latency_ms),
        points-IsFilled set rs labels (λ r. r.avg_throughput_tps),
        bars-IsFilled set rs labels,
      )
