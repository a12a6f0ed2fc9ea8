-- ===== src/Guest/Charges.antt =====
-- One instruction, on the host and in the guest: the state is the same, and the compute units
-- differ by what the guest charges for a failure.
use catalyst_svm.Prelude.{
  ℕ, ◌+◌, ◌≤◌, ◌≡◌, refl, List, [], ◌∷◌, true, ◌&&◌, arith, length, ltb, leb, ◌==◌, if◌then◌else◌,
  Result, ok, err, min, is_ok,
}
use catalyst_svm.Text.{Text}
use catalyst_svm.Common.Errors.{ExecError}
use catalyst_svm.Executor
use catalyst_svm.Executor.{
  State, DeterministicExecutor, Effects, balance, first_word, opcode_of, execute_transfer,
  execute_set_data, execute_increment,
}
use catalyst_svm.Guest.{Outcome, execute_instruction}

-- The compute units that the guest counts for an instruction that fails, from the instruction and
-- the state alone: 500 for an unknown opcode, 5000 for an overdraft, none for short data.
abbrev pub failure_charge : State → Text → List ℕ → ℕ
failure_charge s sender [] = 0
failure_charge s sender (op ∷ bytes) =
    if leb 4 op
    then 500
    else if op == 0 && (leb 16 (length bytes) && ltb (balance s sender) (first_word bytes))
    then 5000
    else 0

-- The compute units and the access lists that the host records for a result.
abbrev pub used : ℕ → Result ExecError Effects → ℕ
used max_cu (ok e) = min e.compute max_cu
used max_cu (err _) = 0

abbrev pub reads_of : Result ExecError Effects → List Text
reads_of (ok e) = e.reads
reads_of (err _) = []

abbrev pub writes_of : Result ExecError Effects → List Text
writes_of (ok e) = e.writes
writes_of (err _) = []

-- The host's result and the guest's outcome agree, up to the charge for a failure.
pub record Agrees (max_cu charge : ℕ) (r : Result ExecError Effects) (o : Outcome) : Type 0 where
  pub same_success : o.success ≡ is_ok r
  pub same_compute : o.compute ≡ used max_cu r + charge
  pub same_writes : o.writes ≡ writes_of r
  pub same_reads : charge ≡ 0 → o.reads ≡ reads_of r

module _ (x : DeterministicExecutor) (strict : x.fail_on_invalid ≡ true)
    (room : 5000 ≤ x.max_cu_per_tx) where
  -- The host and the guest leave the same state, whatever the instruction.
  pub same_state :
      (s : State) (sender : Text) (bytes : List ℕ)
      → (execute_instruction s sender bytes).1 ≡ (Executor.execute_instruction x s sender bytes).1
  unfolding execute_instruction Executor.execute_instruction
  same_state s sender [] = refl
  same_state s sender (op ∷ bytes) = ground arith

  -- With an executor that rejects unknown opcodes and allows at least 5000 units, the guest's
  -- outcome of an instruction has the host's success, writes and, where nothing is charged, reads,
  -- and its compute units are the host's and the charge.
  pub instruction-Agrees :
      (s : State) (sender : Text) (bytes : List ℕ)
      → Agrees x.max_cu_per_tx
          (failure_charge s sender bytes)
          (Executor.execute_instruction x s sender bytes).0
          (execute_instruction s sender bytes).0
  unfolding execute_instruction Executor.execute_instruction
  instruction-Agrees s sender [] = ground arith
  instruction-Agrees s sender (op ∷ bytes) = ground arith
