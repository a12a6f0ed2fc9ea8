-- ===== src/Tests/Workloads.antt =====
-- The generator over numbers that count up inside each range, and a simulation with it.
use catalyst_svm.Prelude.{ℕ, ◌+◌, ◌-◌, ◌≡◌, refl, [], true, arith, ok, err, wrap64, min, ◌∷◌}
use catalyst_svm.Text.{codes}
use catalyst_svm.Common.Errors.{ExecError}
use catalyst_svm.Executor.{State, execute_instruction, new_executor, balance}
use catalyst_svm.Policy.Engine.{default_config}
use catalyst_svm.Ingress.{
  Rng, WorkloadGenerator, new_generator, Scenario, compute_arrival, generate_instruction,
  instruction_of, arrival,
}
use catalyst_svm.Ingress.Generated.{InRange, IsFloored}
use catalyst_svm.Ingress.Executed.{generated_well_formed}
use catalyst_svm.Metrics.{SystemMetrics, no_metrics}
use catalyst_svm.Pipeline.{ingest, ingest_all, flush, run_stages, executed, proved, verified}
use catalyst_svm.Simulation.{reported, ingested, run_simulation}
use catalyst_svm.Tests.Fixtures.{padding, thousandths}
use catalyst_svm.Tests.Pipelines.{passing}

abbrev pub counting : Rng
counting = record {
  StdRng = ℕ;
  seed_from_u64 = λ seed. seed;
  gen_range = λ low high r. (min (low + r) (high - 1), r + 1);
  gen_bool = λ p r. (true, r + 1);
  gen_u64 = λ r. (wrap64 r, r + 1);
  exp_is_valid = λ lambda. true;
  sample_exp = λ lambda r. (lambda, r + 1);
}

counting-InRange : InRange counting
counting-InRange = record {
  gen_range_bounds = λ low high r h. (omega arith, omega arith);
  gen_u64_bound = λ r. omega arith;
}

counting-IsFloored : IsFloored counting
counting-IsFloored = record { floor_max = λ x. omega arith }

-- Three transactions of mixed priority, from seed 4.
abbrev g : WorkloadGenerator counting
g = new_generator counting Scenario.mixed_priority 3 4 50

small_delta : (compute_arrival counting g).0 ≡ 9
unfolding compute_arrival arrival
small_delta = refl

invalid_four :
    (execute_instruction
      (new_executor 200000)
      []
      (codes "alice")
      (generate_instruction counting 4).0).0
    ≡ err (ExecError.invalid_opcode 4)
unfolding execute_instruction generate_instruction instruction_of
invalid_four = refl

abbrev opcode : ℕ
opcode = 4

generated_well_formed_example : opcode ≡ 4
generated_well_formed_example =
    generated_well_formed counting counting-InRange (new_executor 200000) [] (codes "alice") 4
      opcode invalid_four

-- Alice has 1000 units.
abbrev purse : State
purse = (codes "alice", 1000) ∷ []

purse-balance : balance purse (codes "alice") ≡ 1000
unfolding balance
purse-balance = refl

abbrev report : SystemMetrics
unfolding run_simulation
report =
    elim (run_simulation passing counting (codes "hybrid") Scenario.steady 7 3 default_config
      1000) [ ok m ↦ m | err _ ↦ no_metrics [] [] ]

simulated :
    run_simulation passing counting (codes "hybrid") Scenario.steady 7 3 default_config 1000
    ≡ ok report
unfolding run_simulation reported ingested ingest_all ingest flush run_stages executed proved
    verified report
simulated = refl
