-- ===== src/Ingress/Executed.antt =====
-- How the executor takes the generated instructions.
use catalyst_svm.Prelude.{
  u64_mod, ◌++◌, ◌∷◌, ℕ, ◌≤◌, ◌<◌, ◌≡◌, refl, List, [], arith, length, length-append, err,
}
use catalyst_svm.Prelude.Float.{Float}
use catalyst_svm.Text.{Text}
use catalyst_svm.Common.Errors.{ExecError}
use catalyst_svm.Executor.{
  State, DeterministicExecutor, execute_instruction, execute_transfer, execute_set_data,
  execute_increment, balance, debit, credit, account_key, first_word, second_word,
}
use catalyst_svm.Ingress.{
  Rng, to_le_bytes, operands, draw_operands, instruction_of, generate_instruction,
}
use catalyst_svm.Ingress.Generated.{InRange}
use catalyst_svm.Ingress.Words.{length-to_le_bytes, operands_read_back}

module _ (x : DeterministicExecutor) (s : State) (sender : Text) where
  long_transfer :
      (bytes : List ℕ) (n : ℕ)
      → 16 ≤ length bytes
      → (execute_transfer s sender bytes).0 ≡ err (ExecError.invalid_opcode n)
      → n ≡ 4
  unfolding execute_transfer
  long_transfer bytes n long failed = ground arith

  long_set_data :
      (bytes : List ℕ) (n : ℕ)
      → 16 ≤ length bytes
      → (execute_set_data s bytes).0 ≡ err (ExecError.invalid_opcode n)
      → n ≡ 4
  unfolding execute_set_data
  long_set_data bytes n long failed = ground arith

  long_increment :
      (bytes : List ℕ) (n : ℕ)
      → 16 ≤ length bytes
      → (execute_increment s bytes).0 ≡ err (ExecError.invalid_opcode n)
      → n ≡ 4
  unfolding execute_increment
  long_increment bytes n long failed = ground arith

  -- An opcode below 5 with operands that are there.
  executed_op :
      (op : ℕ) (bytes : List ℕ) (n : ℕ)
      → op < 5
      → (op < 3 → 16 ≤ length bytes)
      → (execute_instruction x s sender (op ∷ bytes)).0 ≡ err (ExecError.invalid_opcode n)
      → n ≡ 4
  unfolding execute_instruction
  executed_op op bytes n small long failed =
      ground (arith, long_transfer bytes n, long_set_data bytes n, long_increment bytes n)

module _ ⦃f : Float⦄ (rng : Rng) where
  -- The bytes after the opcode.
  abbrev rest_of : List ℕ → List ℕ
  rest_of [] = []
  rest_of (_ ∷ bytes) = bytes

  draw_operands-shape :
      (op : ℕ) (first second : rng.StdRng → ℕ × rng.StdRng) (r : rng.StdRng)
      → let bytes = (draw_operands rng op first second r).0 in
        (bytes ≡ op ∷ rest_of bytes) × (length (rest_of bytes) ≡ 16)
  unfolding draw_operands operands
  draw_operands-shape op first second r =
      let (a, r1) = first r in
      let b = (second r1).0 in
      (
        refl,
        omega (
          arith,
          length-append (to_le_bytes 8 a) (to_le_bytes 8 b),
          length-to_le_bytes 8 a,
          length-to_le_bytes 8 b,
        ),
      )

  instruction_of-shape :
      (op : ℕ) (r : rng.StdRng)
      → let bytes = (instruction_of rng op r).0 in
        (bytes ≡ op ∷ rest_of bytes) × (op < 3 → 16 ≤ length (rest_of bytes))
  unfolding instruction_of
  instruction_of-shape op r = ground (
    arith,
    draw_operands-shape op (rng.gen_range 1 1000) (rng.gen_range 0 100) r,
    draw_operands-shape op (rng.gen_range 0 50) rng.gen_u64 r,
    draw_operands-shape op (rng.gen_range 0 50) (rng.gen_range 1 100) r,
  )

  -- Whatever the random numbers, the only invalid opcode that the executor can find in a generated
  -- instruction is 4: the operands of the other opcodes are always complete.
  pub generated_well_formed :
      InRange rng
      → (x : DeterministicExecutor) (s : State) (sender : Text) (r : rng.StdRng) (n : ℕ)
      → (execute_instruction x s sender (generate_instruction rng r).0).0
        ≡ err (ExecError.invalid_opcode n)
      → n ≡ 4
  unfolding generate_instruction
  generated_well_formed ranges x s sender r n failed =
      let (op, r0) = rng.gen_range 0 5 r in
      let bytes = (instruction_of rng op r0).0 in
      let shape = instruction_of-shape op r0 in
      executed_op x s sender op (rest_of bytes) n (ranges.gen_range_bounds 0 5 r (omega arith)).1
        shape.1 (rw shape.0 at failed)

transfer_read :
    (s : State) (sender : Text) (bytes : List ℕ) (a b : ℕ)
    → 16 ≤ length bytes
    → first_word bytes ≡ a
    → second_word bytes ≡ b
    → a ≤ balance s sender
    → (execute_transfer s sender bytes).1 ≡ credit (debit s sender a) (account_key b) a
unfolding execute_transfer
transfer_read s sender bytes a b long first second covered = ground arith

module _ ⦃f : Float⦄ (rng : Rng) where
  -- The transfer that the generator writes for a 64-bit amount and target, where the sender's
  -- balance covers the amount, debits that amount from the sender and credits it to that target.
  pub generated_transfer :
      (x : DeterministicExecutor) (s : State) (sender : Text) (a b : ℕ)
      → a < u64_mod
      → b < u64_mod
      → a ≤ balance s sender
      → (execute_instruction x s sender (operands rng 0 a b)).1
        ≡ credit (debit s sender a) (account_key b) a
  unfolding execute_instruction operands
  generated_transfer x s sender a b ha hb covered =
      let bytes = to_le_bytes 8 a ++ to_le_bytes 8 b in
      let read = operands_read_back a b ha hb in
      transfer_read s sender bytes a b
        (omega (
          arith,
          length-append (to_le_bytes 8 a) (to_le_bytes 8 b),
          length-to_le_bytes 8 a,
          length-to_le_bytes 8 b,
        ))
        read.0 read.1 covered
