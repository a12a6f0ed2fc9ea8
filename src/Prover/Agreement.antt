-- ===== src/Prover/Agreement.antt =====
-- A whole batch, on the host (`execute_with_transactions`) and in the guest (`execute_batch`).
use catalyst_svm.Prelude.{
  ℕ, suc, ◌+◌, ◌*◌, ◌≤◌, ◌≡◌, refl, sym, ap, ◌∙◌, List, [], ◌∷◌, ◌++◌, map, length, arith, wrap64,
  map-append, Result, ok, err, min, true,
}
use catalyst_svm.Text.{Text, codes, decimal}
use catalyst_svm.Common.Types.{Transaction, TransactionId}
use catalyst_svm.Common.Errors.{ExecError}
use catalyst_svm.Common.Hashing.{Hasher}
use catalyst_svm.Trace.{TraceBuilder, add_entry, hash_entry}
use catalyst_svm.Executor
use catalyst_svm.Executor.{
  State, FullExecutor, Effects, execute_transactions, trace_entry, first_byte,
}
use catalyst_svm.Executor.Entries.{entry_of}
use catalyst_svm.Guest
use catalyst_svm.Guest.{SerializableTransaction, Outcome, execute_loop}
use catalyst_svm.Guest.Charges.{failure_charge, Agrees, same_state, instruction-Agrees}
use catalyst_svm.Guest.Roots.{hash_trace_entry_lem}
use catalyst_svm.Prover.{serializable}

-- The compute units that the guest counts for the failures of a batch, from a state on.
unfoldable pub failure_charges : FullExecutor → State → List Transaction → ℕ
failure_charges x s [] = 0
failure_charges x s (tx ∷ txs) =
    failure_charge s tx.sender tx.instruction_data
    + failure_charges x (Executor.execute_instruction x.inner s tx.sender tx.instruction_data).1 txs

pub failure_charges-le :
    (x : FullExecutor) (s : State) (txs : List Transaction)
    → failure_charges x s txs ≤ 5000 * length txs
unfolding failure_charges
failure_charges-le x s [] = omega arith
failure_charges-le x s (tx ∷ txs) = omega (
  arith,
  charge_bound s tx.sender tx.instruction_data,
  failure_charges-le x (Executor.execute_instruction x.inner s tx.sender tx.instruction_data).1 txs,
)
  where
    charge_bound :
        (s : State) (sender : Text) (bytes : List ℕ) → failure_charge s sender bytes ≤ 5000
    charge_bound s sender [] = omega arith
    charge_bound s sender (op ∷ bytes) = ground arith

-- One round of the two sums.
totals_step :
    (total host charged compute used c : ℕ)
    → total ≡ wrap64 (host + charged)
    → compute ≡ used + c
    → wrap64 (total + compute) ≡ wrap64 (wrap64 (host + used) + (charged + c))
totals_step total host charged compute used c e k = omega arith

module _ ⦃h : Hasher⦄ where
  -- An entry of the host's trace hashes like the guest's outcome, if nothing is charged.
  entry_hash-Agrees :
      (max_cu idx : ℕ) (id : TransactionId) (name failure : Text) (before after : State)
      (r : Result ExecError Effects) (o : Outcome)
      → Agrees max_cu 0 r o
      → Guest.hash_trace_entry id o.success o.compute o.reads o.writes
        ≡ hash_entry (trace_entry max_cu idx id name failure before after r)
  entry_hash-Agrees max_cu idx id name failure before after (ok e) o a =
      let c : o.compute ≡ min e.compute max_cu = omega (arith, a.same_compute) in
      hash_trace_entry_lem id o.success o.compute o.reads o.writes
      ∙ cc (c, a.same_success, a.same_writes, a.same_reads refl)
  entry_hash-Agrees max_cu idx id name failure before after (err e) o a =
      let c : o.compute ≡ 0 = omega (arith, a.same_compute) in
      hash_trace_entry_lem id o.success o.compute o.reads o.writes
      ∙ cc (c, a.same_success, a.same_writes, a.same_reads refl)

  entry_compute :
      (max_cu charge idx : ℕ) (id : TransactionId) (name failure : Text) (before after : State)
      (r : Result ExecError Effects) (o : Outcome)
      → Agrees max_cu charge r o
      → o.compute ≡ (trace_entry max_cu idx id name failure before after r).compute_used + charge
  entry_compute max_cu charge idx id name failure before after (ok e) o a = a.same_compute
  entry_compute max_cu charge idx id name failure before after (err e) o a = a.same_compute

  -- The hash that the guest appends for the next transaction.
  abbrev hash_of : Transaction → Outcome → Text
  hash_of tx o = Guest.hash_trace_entry tx.tx_id o.success o.compute o.reads o.writes

module _ ⦃h : Hasher⦄ (x : FullExecutor) (strict : x.inner.fail_on_invalid ≡ true)
    (room : 5000 ≤ x.inner.max_cu_per_tx) where
  -- With an executor that rejects unknown opcodes and allows at least 5000 units per transaction,
  -- the guest ends every batch in the host's state, failures included.
  pub loop_state :
      (txs : List Transaction) (idx : ℕ) (s : State) (b : TraceBuilder) (total : ℕ)
      (hashes : List Text)
      → (execute_loop (map serializable txs) s total hashes).0
        ≡ (execute_transactions x idx txs s b).0
  unfolding execute_loop execute_transactions
  loop_state [] idx s b total hashes = refl
  loop_state (tx ∷ txs) idx s b total hashes =
      let o = (Guest.execute_instruction s tx.sender tx.instruction_data).0 in
      let t = wrap64 (total + o.compute) in
      let hs = hashes ++ hash_of tx o ∷ [] in
      let s' = (Executor.execute_instruction x.inner s tx.sender tx.instruction_data).1 in
      ap (λ u. (execute_loop (map serializable txs) u t hs).0)
        (same_state x.inner strict room s tx.sender tx.instruction_data)
      ∙ loop_state txs (suc idx) s' (add_entry (entry_of x idx tx s) b) t hs

  -- With an executor that rejects unknown opcodes and allows at least 5000 units per transaction,
  -- the guest's compute units for a batch are the host's and the charges for the failures, modulo
  -- 2^64, if they were so before the batch.
  pub loop_total :
      (txs : List Transaction) (idx : ℕ) (s : State) (b : TraceBuilder) (total charged : ℕ)
      (hashes : List Text)
      → total ≡ wrap64 (b.total_compute + charged)
      → (execute_loop (map serializable txs) s total hashes).1
        ≡ wrap64 (
            (execute_transactions x idx txs s b).1.total_compute
            + (charged + failure_charges x s txs))
  unfolding execute_loop execute_transactions failure_charges
  loop_total [] idx s b total charged hashes e = omega arith
  loop_total (tx ∷ txs) idx s b total charged hashes e =
      let o = (Guest.execute_instruction s tx.sender tx.instruction_data).0 in
      let t = wrap64 (total + o.compute) in
      let hs = hashes ++ hash_of tx o ∷ [] in
      let r = Executor.execute_instruction x.inner s tx.sender tx.instruction_data in
      let entry = entry_of x idx tx s in
      let c = failure_charge s tx.sender tx.instruction_data in
      let agrees = instruction-Agrees x.inner strict room s tx.sender tx.instruction_data in
      let here =
        entry_compute x.inner.max_cu_per_tx c idx tx.tx_id
          (codes "opcode_" ++ decimal (first_byte tx.instruction_data)) (codes "failed") s r.1 r.0 o
          agrees in
      ap (λ u. (execute_loop (map serializable txs) u t hs).1)
        (same_state x.inner strict room s tx.sender tx.instruction_data)
      ∙ loop_total txs (suc idx) r.1 (add_entry entry b) t (charged + c) hs
          (totals_step total b.total_compute charged o.compute entry.compute_used c e here)
      ∙ ap
          (λ n.
            wrap64
              ((execute_transactions x (suc idx) txs r.1 (add_entry entry b)).1.total_compute + n))
          (omega arith)

  -- With no charge the guest has the host's state, compute units and entry hashes.
  pub loop_agrees :
      (txs : List Transaction) (idx : ℕ) (s : State) (b : TraceBuilder)
      → failure_charges x s txs ≡ 0
      → let (final, b') = execute_transactions x idx txs s b in
        execute_loop (map serializable txs) s b.total_compute (map hash_entry b.entries)
        ≡ (final, b'.total_compute, map hash_entry b'.entries)
  unfolding execute_loop execute_transactions failure_charges add_entry
  loop_agrees [] idx s b none_charged = refl
  loop_agrees (tx ∷ txs) idx s b none_charged =
      let o = (Guest.execute_instruction s tx.sender tx.instruction_data).0 in
      let r = Executor.execute_instruction x.inner s tx.sender tx.instruction_data in
      let entry = entry_of x idx tx s in
      let agrees = instruction-Agrees x.inner strict room s tx.sender tx.instruction_data in
      let free : failure_charge s tx.sender tx.instruction_data ≡ 0 = omega arith in
      let hash =
        entry_hash-Agrees x.inner.max_cu_per_tx idx tx.tx_id
          (codes "opcode_" ++ decimal (first_byte tx.instruction_data)) (codes "failed") s r.1 r.0 o
          (rw free at agrees) in
      let here =
        entry_compute x.inner.max_cu_per_tx 0 idx tx.tx_id
          (codes "opcode_" ++ decimal (first_byte tx.instruction_data)) (codes "failed") s r.1 r.0 o
          (rw free at agrees) in
      let sum : wrap64 (b.total_compute + o.compute)
          ≡ wrap64 (b.total_compute + entry.compute_used) =
        omega (arith, here) in
      let hashes : map hash_entry b.entries ++ hash_of tx o ∷ []
          ≡ map hash_entry (b.entries ++ entry ∷ []) =
        ap (λ t. map hash_entry b.entries ++ t ∷ []) hash
        ∙ sym (map-append hash_entry b.entries (entry ∷ [])) in
      cc (
        same_state x.inner strict room s tx.sender tx.instruction_data,
        sum,
        hashes,
        loop_agrees txs (suc idx) r.1 (add_entry entry b) (omega arith),
      )
