-- ===== src/Ingress/Generated.antt =====
-- What the workload generator makes.
use catalyst_svm.Prelude.{
  ◌↔◌, ℕ, zero, suc, ◌+◌, ◌≤◌, ◌<◌, ◌≡◌, ◌≢◌, refl, [], arith, false, ltb, leb, length, is_empty,
  ok, u64_mod, Bool-cases, inl, inr,
}
use catalyst_svm.Prelude.Float.{Float}
use catalyst_svm.Common.Types.{Transaction, TransactionPriority}
use catalyst_svm.Ingress.{
  validate, max_compute_budget, Scenario, steady, bursty, poisson, mixed_priority, idle_then_spike,
  Rng, jittered, WorkloadGenerator, arrival, compute_arrival, instruction_of, generate_instruction,
  draw_operands, operands, estimate, generate, next, remaining, collect,
}

-- A transaction is valid exactly when its sender, its program and its instruction are not empty, and
-- its estimate is within the budget.
pub validate_iff :
    (tx : Transaction)
    → (validate tx ≡ ok tt) ↔ (
        (tx.sender ≢ [])
        × (tx.program_id ≢ [])
        × (tx.instruction_data ≢ [])
        × (tx.estimated_cu ≤ max_compute_budget))
unfolding validate
validate_iff tx = (λ valid. ground arith, λ whole. ground arith)

module _ ⦃f : Float⦄ (rng : Rng) where
  -- The ranges that the calls name.
  pub record InRange : Type 0 where
    pub gen_range_bounds :
        (low high : ℕ) (r : rng.StdRng)
        → low < high
        → (low ≤ (rng.gen_range low high r).0) × ((rng.gen_range low high r).0 < high)
    pub gen_u64_bound : (r : rng.StdRng) → (rng.gen_u64 r).0 < u64_mod

  -- `x.max(1.0) as u64` is at least 1: the maximum is not below 1, and the cast cuts fractions off.
  pub record IsFloored : Type 0 where
    pub floor_max : (x : f.F64) → 1 ≤ f.floor_nat (f.fmax x (f.literal 1 0))

le_not_ltb : (a b : ℕ) → a ≤ b → ltb b a ≡ false
le_not_ltb a b h = ground arith

module _ ⦃f : Float⦄ (rng : Rng) (ranges : InRange rng) where
  estimate_bound :
      (p : TransactionPriority) (r : rng.StdRng) → (estimate rng p r).0 ≤ max_compute_budget
  estimate_bound TransactionPriority.critical r =
      omega (arith, (ranges.gen_range_bounds 100000 200000 r (omega arith)).1)
  estimate_bound TransactionPriority.high r =
      omega (arith, (ranges.gen_range_bounds 50000 150000 r (omega arith)).1)
  estimate_bound TransactionPriority.normal r =
      omega (arith, (ranges.gen_range_bounds 10000 100000 r (omega arith)).1)
  estimate_bound TransactionPriority.low r =
      omega (arith, (ranges.gen_range_bounds 5000 50000 r (omega arith)).1)

  instruction_not_empty : (r : rng.StdRng) → is_empty (generate_instruction rng r).0 ≡ false
  unfolding generate_instruction instruction_of draw_operands operands
  instruction_not_empty r = ground arith

  -- Whatever the random numbers, the generator's next transaction is valid.
  pub generate_valid : (g : WorkloadGenerator rng) → validate (generate rng g).0 ≡ ok tt
  unfolding generate validate
  generate_valid g =
      let (delta, priority, r0) = compute_arrival rng g in
      let r2 = (rng.gen_range 0 5 (rng.gen_range 0 100 r0).1).1 in
      let (cu, r3) = estimate rng priority r2 in
      rw (instruction_not_empty r3, le_not_ltb cu max_compute_budget (estimate_bound priority r2))
        refl

  arrival_positive :
      IsFloored rng → (s : Scenario) (g : WorkloadGenerator rng) → 1 ≤ (arrival rng s g).0
  unfolding arrival jittered
  arrival_positive floored steady g = ground arith
  arrival_positive floored bursty g =
      let r = (rng.gen_bool (f.literal 2 1) g.random).1 in
      ground (
        arith,
        ranges.gen_range_bounds 1 5 r (omega arith),
        ranges.gen_range_bounds 50 200 r (omega arith),
      )
  arrival_positive floored poisson g = floored.floor_max _
  arrival_positive floored mixed_priority g =
      omega (arith, (ranges.gen_range_bounds 5 50 g.random (omega arith)).0)
  arrival_positive floored idle_then_spike g = ground (
    arith,
    ranges.gen_range_bounds 100 500 g.random (omega arith),
    ranges.gen_range_bounds 1 5 g.random (omega arith),
    ranges.gen_range_bounds 20 100 g.random (omega arith),
  )

  -- Where the sum of the time and the delta fits in 64 bits, the next transaction arrives strictly
  -- after the one before, and the generator's time is its arrival.
  pub generate_later :
      IsFloored rng
      → (g : WorkloadGenerator rng) → g.current_time_ms + (compute_arrival rng g).0 < u64_mod
      → (g.current_time_ms < (generate rng g).0.arrival_ts)
        × ((generate rng g).1.current_time_ms ≡ (generate rng g).0.arrival_ts)
  unfolding generate compute_arrival
  generate_later floored g room = (omega (arith, arrival_positive floored g.scenario g), refl)

module _ ⦃f : Float⦄ (rng : Rng) where
  remaining-generate :
      (g : WorkloadGenerator rng)
      → g.generated < g.tx_count
      → remaining rng (generate rng g).1 + 1 ≡ remaining rng g
  unfolding generate
  remaining-generate g more = omega arith

  -- The iteration makes as many transactions as are remaining, on that many rounds or more.
  pub length-collect :
      (fuel : ℕ) (g : WorkloadGenerator rng)
      → remaining rng g ≤ fuel
      → length (collect rng fuel g) ≡ remaining rng g
  unfolding collect next
  length-collect zero g enough = omega arith
  length-collect (suc fuel) g enough = elim (Bool-cases (leb g.tx_count g.generated)) [
    | inl done ↦ rw (done, collect, length) (ground arith)
    | inr more ↦
        let left : g.generated < g.tx_count = ground arith in
        let ih =
          length-collect fuel (generate rng g).1 (omega (arith, remaining-generate g left)) in
        rw (more, collect, length) (omega (arith, ih, remaining-generate g left))
  ]
