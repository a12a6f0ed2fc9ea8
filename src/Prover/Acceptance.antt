-- ===== src/Prover/Acceptance.antt =====
-- Which traces of the host the guest accepts.
use catalyst_svm.Prelude.{
  ℕ, ◌*◌, ◌≤◌, ◌<◌, ◌≡◌, ◌≢◌, refl, sym, ◌∙◌, List, [], map, length, arith, u64_mod, Result, ok,
  some, true, not, ◌>>◌, reject_if, ◌==◌, ==_refl, length-map,
}
use catalyst_svm.Text.{Text, text_eq}
use catalyst_svm.Text.Order.{text_eq_refl, text_eq_iff}
use catalyst_svm.Common.Types.{Transaction, ExecutionTrace, Batch}
use catalyst_svm.Common.Hashing.{Hasher}
use catalyst_svm.Common.Merkle
use catalyst_svm.Trace
use catalyst_svm.Trace.{TraceBuilder, new_builder, build, hash_entry}
use catalyst_svm.Executor.{
  State, FullExecutor, execute_transactions, execute_with_transactions, fund,
}
use catalyst_svm.Executor.Entries.{length-execute_transactions, builder-execute_transactions}
use catalyst_svm.Guest.{
  SerializableTransaction, ExecutionTraceInput, PublicInputs, Panic, main, execute_batch,
  execute_loop, pre_state_root_mismatch, post_state_root_mismatch, trace_hash_mismatch,
  total_compute_mismatch, transaction_count_mismatch,
}
use catalyst_svm.Guest.Roots.{compute_state_root_lem, merkle_root_lem}
use catalyst_svm.Prover.{serializable, trace_input}
use catalyst_svm.Prover.Agreement.{failure_charges, failure_charges-le, loop_total, loop_agrees}

-- The assertions of the guest, over what it has computed.
unfoldable pub compare_claim :
    ExecutionTraceInput → Text → Text → Text → ℕ → ℕ → Result Panic PublicInputs
compare_claim claimed pre post root compute count = do
  reject_if (not (text_eq pre claimed.state_root_pre)) pre_state_root_mismatch
  reject_if (not (text_eq post claimed.state_root_post)) post_state_root_mismatch
  reject_if (not (text_eq root claimed.trace_hash)) trace_hash_mismatch
  reject_if (not (compute == claimed.total_compute)) total_compute_mismatch
  reject_if (not (count == claimed.tx_count)) transaction_count_mismatch
  ok (record {
    batch_id = claimed.batch_id;
    state_root_pre = pre;
    state_root_post = post;
    trace_hash = root;
    total_compute = compute;
    tx_count = count;
  })

-- What the guest commits when it accepts a trace.
abbrev pub claimed_inputs : ExecutionTrace → PublicInputs
claimed_inputs trace = record {
  batch_id = trace.batch_id;
  state_root_pre = trace.state_root_pre;
  state_root_post = trace.state_root_post;
  trace_hash = trace.trace_hash;
  total_compute = trace.total_compute;
  tx_count = length trace.entries;
}

compare_claim_true :
    (trace : ExecutionTrace)
    → compare_claim
        (trace_input trace)
        trace.state_root_pre
        trace.state_root_post
        trace.trace_hash
        trace.total_compute
        (length trace.entries)
      ≡ ok (claimed_inputs trace)
unfolding compare_claim
compare_claim_true trace = simp (text_eq_refl, ==_refl)

compare_claim_compute :
    (i : ExecutionTraceInput) (pre post root : Text) (compute count : ℕ) (p : PublicInputs)
    → compare_claim i pre post root compute count ≡ ok p
    → compute ≡ i.total_compute
unfolding compare_claim
compare_claim_compute i pre post root compute count p e = ground arith

-- What the assertions establish of the public inputs.
pub record Claims (i : ExecutionTraceInput) (pre post root : Text) (compute : ℕ) (p : PublicInputs)
    : Type 0 where
  pub pre_computed : p.state_root_pre ≡ pre
  pub post_computed : p.state_root_post ≡ post
  pub hash_computed : p.trace_hash ≡ root
  pub compute_computed : p.total_compute ≡ compute
  pub pre_claimed : p.state_root_pre ≡ i.state_root_pre
  pub post_claimed : p.state_root_post ≡ i.state_root_post
  pub hash_claimed : p.trace_hash ≡ i.trace_hash
  pub compute_claimed : p.total_compute ≡ i.total_compute
  pub id_claimed : p.batch_id ≡ i.batch_id
  pub count_claimed : p.tx_count ≡ i.tx_count

compare_claim-Claims :
    (i : ExecutionTraceInput) (pre post root : Text) (compute count : ℕ) (p : PublicInputs)
    → compare_claim i pre post root compute count ≡ ok p
    → Claims i pre post root compute p
unfolding compare_claim
compare_claim-Claims i pre post root compute count p e = ground (
  arith,
  text_eq_iff pre i.state_root_pre,
  text_eq_iff post i.state_root_post,
  text_eq_iff root i.trace_hash,
)

module _ ⦃h : Hasher⦄ where
  execute_batch_lem :
      (s : State) (txs : List SerializableTransaction)
      → execute_batch s txs ≡ (
          let (final, total, hashes) = execute_loop txs s 0 [] in
          some (Trace.compute_state_root s, Trace.compute_state_root final, total, hashes))
  unfolding execute_batch
  execute_batch_lem s txs =
      rw (compute_state_root_lem s, execute_batch)
        (rw (compute_state_root_lem _, execute_batch) (rw (merkle_root_lem _, execute_batch)))

  -- The guest computes its three roots without a panic, and then compares.
  pub main_lem :
      (i : ExecutionTraceInput) (txs : List SerializableTransaction) (s : State)
      → main i txs s ≡ (
          let (final, total, hashes) = execute_loop txs s 0 [] in
          compare_claim i
            (Trace.compute_state_root s)
            (Trace.compute_state_root final)
            (Merkle.merkle_root hashes)
            total
            (length txs))
  unfolding main compare_claim
  main_lem i txs s = simp (execute_batch_lem, merkle_root_lem)

  pub main-Claims :
      (i : ExecutionTraceInput) (txs : List SerializableTransaction) (s : State) (p : PublicInputs)
      → main i txs s ≡ ok p
      → (let (final, total, hashes) = execute_loop txs s 0 [] in
          Claims i
            (Trace.compute_state_root s)
            (Trace.compute_state_root final)
            (Merkle.merkle_root hashes)
            total
            p)
  main-Claims i txs s p accepted =
      let (final, total, hashes) = execute_loop txs s 0 [] in
      compare_claim-Claims i (Trace.compute_state_root s) (Trace.compute_state_root final)
        (Merkle.merkle_root hashes) total (length txs) p (sym (main_lem i txs s) ∙ accepted)

  pub claim_accepted :
      (s final : State) (b : TraceBuilder) (loop : State × ℕ × List Text) (count : ℕ)
      → loop ≡ (final, b.total_compute, map hash_entry b.entries)
      → count ≡ length b.entries
      → Trace.compute_state_root s ≡ b.pre_state_root
      → compare_claim
          (trace_input (build final b))
          (Trace.compute_state_root s)
          (Trace.compute_state_root loop.0)
          (Merkle.merkle_root loop.2)
          loop.1
          count
        ≡ ok (claimed_inputs (build final b))
  unfolding build
  claim_accepted s final b loop count e n pre = rw (e, n, pre) (compare_claim_true (build final b))

-- The state in which a batch starts, on both sides.
abbrev pub initial_state : List Transaction → State
initial_state txs = fund [] (map (λ tx. tx.sender) txs)

module _ ⦃h : Hasher⦄ (x : FullExecutor) (strict : x.inner.fail_on_invalid ≡ true)
    (room : 5000 ≤ x.inner.max_cu_per_tx) where
  -- With an executor that rejects unknown opcodes and allows at least 5000 units per transaction:
  -- if no failure of the batch is charged for in the guest (`failure_charges` is 0), the guest,
  -- run on the host's trace and transactions from the funded senders, accepts and commits the
  -- trace's own fields.
  pub accepts :
      (batch : Batch) (txs : List Transaction) {trace : ExecutionTrace}
      → execute_with_transactions x batch txs ≡ ok trace
      → failure_charges x (initial_state txs) txs ≡ 0
      → main (trace_input trace) (map serializable txs) (initial_state txs)
        ≡ ok (claimed_inputs trace)
  unfolding execute_with_transactions
  accepts batch txs {trace} ran none_charged =
      let s = initial_state txs in
      let b = new_builder batch.batch_id s in
      let (final, b') = execute_transactions x 0 txs s b in
      let loop = loop_agrees x strict room txs 0 s b none_charged in
      let e : trace ≡ build final b' = cc ran in
      let count : length (map serializable txs) ≡ length b'.entries =
        omega (arith, length-map serializable txs, length-execute_transactions x txs 0 s b) in
      let pre : Trace.compute_state_root s ≡ b'.pre_state_root =
        sym (builder-execute_transactions x txs 0 s b).0 in
      rw e (
        main_lem (trace_input (build final b')) (map serializable txs) s
        ∙ claim_accepted s final b' (execute_loop (map serializable txs) s 0 [])
            (length (map serializable txs)) loop count pre)

  -- With an executor that rejects unknown opcodes and allows at least 5000 units per transaction,
  -- and fewer than 2^64 / 5000 transactions: if a failure of the batch is charged for in the guest
  -- (an overdrawn transfer or an unknown opcode), the guest's run on the host's trace accepts with
  -- no public inputs at all.
  pub rejects :
      (batch : Batch) (txs : List Transaction) {trace : ExecutionTrace}
      → execute_with_transactions x batch txs ≡ ok trace
      → 5000 * length txs < u64_mod
      → failure_charges x (initial_state txs) txs ≢ 0
      → (p : PublicInputs)
      → main (trace_input trace) (map serializable txs) (initial_state txs) ≢ ok p
  unfolding execute_with_transactions
  rejects batch txs {trace} ran short charged p accepted =
      let s = initial_state txs in
      let b = new_builder batch.batch_id s in
      let (final, b') = execute_transactions x 0 txs s b in
      let e : trace ≡ build final b' = cc ran in
      let i = trace_input trace in
      let (final', total, hashes) = execute_loop (map serializable txs) s 0 [] in
      let same =
        compare_claim_compute i (Trace.compute_state_root s) (Trace.compute_state_root final')
          (Merkle.merkle_root hashes) total (length (map serializable txs)) p
          (sym (main_lem i (map serializable txs) s) ∙ accepted) in
      let claimed : i.total_compute ≡ b'.total_compute = cc e in
      absurd (
        omega (
          arith,
          same,
          claimed,
          loop_total x strict room txs 0 s b 0 0 [] refl,
          failure_charges-le x s txs,
        ))
