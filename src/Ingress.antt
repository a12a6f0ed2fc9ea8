-- ===== src/Ingress.antt =====
-- The crate `catalyst-ingress` (crates/ingress/src/lib.rs): the check of a transaction, and the
-- workload generator.
pub mod Generated
pub mod Words
pub mod Executed
use catalyst_svm.Prelude.{
  ℕ, zero, suc, ◌+◌, ◌-◌, ◌*◌, ◌/◌, ◌%◌, ◌^◌, ◌≤◌, ◌<◌, ◌≡◌, List, [], ◌∷◌, ◌++◌, Option, none,
  some, Bool, true, false, ltb, leb, ◌==◌, if◌then◌else◌, Result, ok, err, ◌>>◌, ◌>>=◌, reject_if,
  is_empty, wrap64, u64_mod, max, replicate, ◌||◌,
}
use catalyst_svm.Prelude.Float.{Float}
use catalyst_svm.Text.{Text, codes, decimal, zero_padded, text_eq}
use catalyst_svm.Common.Types.{Transaction, TransactionPriority, new_transaction}
use catalyst_svm.Common.Errors.{IngressError}
use catalyst_svm.Policy.Engine.{to_lowercase}

abbrev pub max_compute_budget : ℕ
max_compute_budget = 1400000

unfoldable pub validate : Transaction → Result IngressError (Unit {0})
validate tx = do
  reject_if (is_empty tx.sender) (IngressError.invalid_sender (codes "empty sender"))
  reject_if (is_empty tx.program_id) (IngressError.invalid_program (codes "empty program_id"))
  reject_if (is_empty tx.instruction_data) IngressError.empty_instruction
  reject_if (ltb max_compute_budget tx.estimated_cu)
      (IngressError.compute_budget_exceeded tx.estimated_cu max_compute_budget)
  ok tt

pub data Scenario : Type 0 where
  steady bursty poisson mixed_priority idle_then_spike : Scenario

abbrev pub scenario_name : Scenario → Text
scenario_name steady = codes "steady"
scenario_name bursty = codes "bursty"
scenario_name poisson = codes "poisson"
scenario_name mixed_priority = codes "mixed_priority"
scenario_name idle_then_spike = codes "idle_then_spike"

abbrev pub all_scenarios : List Scenario
all_scenarios = steady ∷ bursty ∷ poisson ∷ mixed_priority ∷ idle_then_spike ∷ []

unfoldable pub scenario_from_str : Text → Result Text Scenario
unfolding text_eq
scenario_from_str given =
    let s = to_lowercase given in
    if text_eq s (codes "steady")
    then ok steady
    else if text_eq s (codes "bursty")
    then ok bursty
    else if text_eq s (codes "poisson")
    then ok poisson
    else if text_eq s (codes "mixed_priority") || text_eq s (codes "mixedpriority")
    then ok mixed_priority
    else if text_eq s (codes "idle_then_spike") || text_eq s (codes "idlethenspike")
    then ok idle_then_spike
    else err (codes "unknown scenario: " ++ given)

-- The calls of `rand` and `rand_distr`, in the order of the draws.
pub record Rng ⦃f : Float⦄ : Type 1 where
  pub StdRng : Type 0
  pub seed_from_u64 : ℕ → StdRng
  -- `gen_range(low..high)`
  pub gen_range : ℕ → ℕ → StdRng → ℕ × StdRng
  pub gen_bool : f.F64 → StdRng → Bool × StdRng
  pub gen_u64 : StdRng → ℕ × StdRng
  -- `rng.sample(Exp::new(lambda))`; the fallback `Exp::new(0.01)` where `Exp::new` fails.
  pub exp_is_valid : f.F64 → Bool
  pub sample_exp : f.F64 → StdRng → f.F64 × StdRng

-- The bytes of a number, the lowest first.
unfoldable pub to_le_bytes : ℕ → ℕ → List ℕ
to_le_bytes zero n = []
to_le_bytes (suc width) n = n % 256 ∷ to_le_bytes width (n / 256)

-- `(base as i64 + jitter - 5).max(1) as u64`, in two's complement.
unfoldable pub jittered : ℕ → ℕ → ℕ
jittered base jitter =
    let v = wrap64 (base + jitter + (u64_mod - 5)) in if leb (2 ^ 63) v then 1 else max v 1

module _ ⦃f : Float⦄ (rng : Rng) where
  pub record WorkloadGenerator : Type 0 where
    pub random : rng.StdRng
    pub scenario : Scenario
    pub tx_count : ℕ
    pub base_interval_ms : ℕ
    pub current_time_ms : ℕ
    pub generated : ℕ

  abbrev pub new_generator : Scenario → ℕ → ℕ → ℕ → WorkloadGenerator
  new_generator scenario count seed base = record {
    random = rng.seed_from_u64 seed;
    scenario = scenario;
    tx_count = count;
    base_interval_ms = base;
    current_time_ms = 0;
    generated = 0;
  }

  abbrev pub priority_of : ℕ → TransactionPriority
  priority_of draw =
      if leb draw 5
      then TransactionPriority.critical
      else if leb draw 20
      then TransactionPriority.high
      else if leb draw 70
      then TransactionPriority.normal
      else TransactionPriority.low

  abbrev pub drawn : TransactionPriority → ℕ × rng.StdRng → ℕ × TransactionPriority × rng.StdRng
  drawn priority (delta, r) = (delta, priority, r)

  -- `compute_arrival`: the delta and the priority, and the generator after the draws.
  unfoldable pub arrival : Scenario → WorkloadGenerator → ℕ × TransactionPriority × rng.StdRng
  unfolding jittered
  arrival steady g =
      let (jitter, r) = rng.gen_range 0 10 g.random in
      (jittered g.base_interval_ms jitter, TransactionPriority.normal, r)
  arrival bursty g =
      let (is_burst, r) = rng.gen_bool (f.literal 2 1) g.random in
      drawn TransactionPriority.normal
        (if is_burst then rng.gen_range 1 5 r else rng.gen_range 50 200 r)
  arrival poisson g =
      let lambda = f.div (f.literal 1 0) (f.of_nat g.base_interval_ms) in
      let (x, r) =
        rng.sample_exp (if rng.exp_is_valid lambda then lambda else f.literal 1 2) g.random in
      (f.floor_nat (f.fmax x (f.literal 1 0)), TransactionPriority.normal, r)
  arrival mixed_priority g =
      let (delta, r) = rng.gen_range 5 50 g.random in
      let (draw, r') = rng.gen_range 0 100 r in (delta, priority_of draw, r')
  arrival idle_then_spike g =
      let progress = f.div (f.of_nat g.generated) (f.of_nat g.tx_count) in
      if f.less progress (f.literal 3 1)
      then drawn TransactionPriority.low (rng.gen_range 100 500 g.random)
      else if f.less progress (f.literal 7 1)
      then drawn TransactionPriority.high (rng.gen_range 1 5 g.random)
      else drawn TransactionPriority.normal (rng.gen_range 20 100 g.random)

  unfoldable pub compute_arrival : WorkloadGenerator → ℕ × TransactionPriority × rng.StdRng
  unfolding arrival
  compute_arrival g = arrival g.scenario g

  -- The two operands of an instruction.
  unfoldable pub operands : ℕ → ℕ → ℕ → List ℕ
  unfolding to_le_bytes
  operands op a b = op ∷ to_le_bytes 8 a ++ to_le_bytes 8 b

  unfoldable pub draw_operands :
      ℕ
      → (rng.StdRng → ℕ × rng.StdRng)
      → (rng.StdRng → ℕ × rng.StdRng)
      → rng.StdRng
      → List ℕ × rng.StdRng
  unfolding operands
  draw_operands op first second r =
      let (a, r1) = first r in let (b, r2) = second r1 in (operands op a b, r2)

  -- The `match` on the opcode.
  unfoldable pub instruction_of : ℕ → rng.StdRng → List ℕ × rng.StdRng
  unfolding draw_operands
  instruction_of op r =
      if op == 0
      then draw_operands op (rng.gen_range 1 1000) (rng.gen_range 0 100) r
      else if op == 1
      then draw_operands op (rng.gen_range 0 50) rng.gen_u64 r
      else if op == 2
      then draw_operands op (rng.gen_range 0 50) (rng.gen_range 1 100) r
      else if op == 3
      then (op ∷ [], r)
      else (op ∷ replicate 8 255, r)

  unfoldable pub generate_instruction : rng.StdRng → List ℕ × rng.StdRng
  unfolding instruction_of
  generate_instruction r = let (op, r0) = rng.gen_range 0 5 r in instruction_of op r0

  abbrev pub estimate : TransactionPriority → rng.StdRng → ℕ × rng.StdRng
  estimate TransactionPriority.critical r = rng.gen_range 100000 200000 r
  estimate TransactionPriority.high r = rng.gen_range 50000 150000 r
  estimate TransactionPriority.normal r = rng.gen_range 10000 100000 r
  estimate TransactionPriority.low r = rng.gen_range 5000 50000 r

  -- The transaction that `next` makes, and the generator after it.
  unfoldable pub generate : WorkloadGenerator → Transaction × WorkloadGenerator
  unfolding compute_arrival generate_instruction decimal zero_padded
  generate g =
      let (delta, priority, r0) = compute_arrival g in
      let now = wrap64 (g.current_time_ms + delta) in
      let (sender, r1) = rng.gen_range 0 100 r0 in
      let (program, r2) = rng.gen_range 0 5 r1 in
      let (cu, r3) = estimate priority r2 in
      let (instruction, r4) = generate_instruction r3 in
      let tx =
        new_transaction (codes "tx_" ++ zero_padded 6 (decimal g.generated))
          (codes "sender_" ++ decimal sender) (codes "program_" ++ decimal program) in
      (
        record tx {
          arrival_ts = now;
          instruction_data = instruction;
          estimated_cu = cu;
          priority = priority;
        },
        record g { random = r4; current_time_ms = now; generated = g.generated + 1 },
      )

  -- `WorkloadGenerator::next`
  unfoldable pub next : WorkloadGenerator → Option (Transaction × WorkloadGenerator)
  unfolding generate
  next g = if leb g.tx_count g.generated then none else some (generate g)

  abbrev pub remaining : WorkloadGenerator → ℕ
  remaining g = g.tx_count - g.generated

  -- The iteration, on fuel.
  unfoldable pub collect : ℕ → WorkloadGenerator → List Transaction
  unfolding next
  collect zero g = []
  collect (suc fuel) g = elim (next g) [ none ↦ [] | some (tx, g') ↦ tx ∷ collect fuel g' ]
