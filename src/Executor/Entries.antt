-- ===== src/Executor/Entries.antt =====
-- What the trace of a batch says of the transactions.
use catalyst_svm.Prelude.{
  ℕ, suc, ◌+◌, ◌≤◌, ◌≡◌, refl, sym, ap, ◌∙◌, List, [], ◌∷◌, ◌++◌, arith, length, length-append,
  Result, ok, err, All, All-append, map, map-append, append-nil, append_assoc, subst, wrap64,
}
use catalyst_svm.Text.{Text, codes, decimal}
use catalyst_svm.Common.Types.{Transaction, TransactionId, Batch, TraceEntry, ExecutionTrace}
use catalyst_svm.Common.Errors.{ExecError}
use catalyst_svm.Common.Hashing.{Hasher}
use catalyst_svm.Trace.{TraceBuilder, add_entry, build, new_builder, compute_state_root}
use catalyst_svm.Trace.Totals.{
  IsBalanced, IsChained, add_entry-IsBalanced, IsChained-snoc, compute_sum, successes, failures,
  successes_add_failures,
}
use catalyst_svm.Executor.{
  State, FullExecutor, Effects, execute_transactions, execute_with_transactions, trace_entry,
  execute_instruction, fund, first_byte,
}

module _ ⦃h : Hasher⦄ (x : FullExecutor) where
  -- The entry of the next transaction.
  abbrev pub entry_of : ℕ → Transaction → State → TraceEntry
  entry_of idx tx s =
      let (r, s') = execute_instruction x.inner s tx.sender tx.instruction_data in
      trace_entry x.inner.max_cu_per_tx idx tx.tx_id
        (codes "opcode_" ++ decimal (first_byte tx.instruction_data)) (codes "failed") s s' r

  pub length-execute_transactions :
      (txs : List Transaction) (idx : ℕ) (s : State) (b : TraceBuilder)
      → length (execute_transactions x idx txs s b).1.entries ≡ length b.entries + length txs
  unfolding execute_transactions
  length-execute_transactions [] idx s b = omega arith
  length-execute_transactions (tx ∷ txs) idx s b =
      omega (arith, length-execute_transactions txs (suc idx) _ _, length-append b.entries)

  -- The loop leaves the builder's batch and its first state root alone.
  pub builder-execute_transactions :
      (txs : List Transaction) (idx : ℕ) (s : State) (b : TraceBuilder)
      → ((execute_transactions x idx txs s b).1.pre_state_root ≡ b.pre_state_root)
        × ((execute_transactions x idx txs s b).1.batch_id ≡ b.batch_id)
  unfolding execute_transactions
  builder-execute_transactions [] idx s b = (refl, refl)
  builder-execute_transactions (tx ∷ txs) idx s b = builder-execute_transactions txs (suc idx) _ _

  execute_transactions-IsBalanced :
      (txs : List Transaction) (idx : ℕ) (s : State) (b : TraceBuilder)
      → IsBalanced b
      → IsBalanced (execute_transactions x idx txs s b).1
  unfolding execute_transactions
  execute_transactions-IsBalanced [] idx s b v = v
  execute_transactions-IsBalanced (tx ∷ txs) idx s b v =
      execute_transactions-IsBalanced txs (suc idx) _ _
        (add_entry-IsBalanced (entry_of idx tx s) b v)

  -- The hashes, the name and the compute units of an entry, whatever the result.
  trace_entry_fields :
      (max_cu idx : ℕ) (id : TransactionId) (name failure : Text) (before after : State)
      (r : Result ExecError Effects)
      → let e = trace_entry max_cu idx id name failure before after r in
        (e.pre_state_hash ≡ compute_state_root before)
        × (e.post_state_hash ≡ compute_state_root after)
        × (e.tx_id ≡ id)
        × (e.compute_used ≤ max_cu)
  trace_entry_fields max_cu idx id name failure before after (ok e) =
      (refl, refl, refl, omega arith)
  trace_entry_fields max_cu idx id name failure before after (err e) =
      (refl, refl, refl, omega arith)

  entry_fields :
      (idx : ℕ) (tx : Transaction) (s : State)
      → let e = entry_of idx tx s in
        (e.pre_state_hash ≡ compute_state_root s)
        × (e.post_state_hash
            ≡ compute_state_root (execute_instruction x.inner s tx.sender tx.instruction_data).1)
        × (e.tx_id ≡ tx.tx_id)
        × (e.compute_used ≤ x.inner.max_cu_per_tx)
  entry_fields idx tx s =
      let (r, s') = execute_instruction x.inner s tx.sender tx.instruction_data in
      trace_entry_fields x.inner.max_cu_per_tx idx tx.tx_id
        (codes "opcode_" ++ decimal (first_byte tx.instruction_data)) (codes "failed") s s' r

  execute_transactions-IsChained :
      (txs : List Transaction) (idx : ℕ) (root : Text) (s : State) (b : TraceBuilder)
      → IsChained root b.entries (compute_state_root s)
      → let (final, b') = execute_transactions x idx txs s b in
        IsChained root b'.entries (compute_state_root final)
  unfolding execute_transactions add_entry
  execute_transactions-IsChained [] idx root s b c = c
  execute_transactions-IsChained (tx ∷ txs) idx root s b c =
      let e = entry_of idx tx s in
      let f = entry_fields idx tx s in
      execute_transactions-IsChained txs (suc idx) root _ (add_entry e b) (
        subst (IsChained root (b.entries ++ e ∷ [])) f.1
          (IsChained-snoc root b.entries e (subst (IsChained root b.entries) (sym f.0) c)))

  execute_transactions-ids :
      (txs : List Transaction) (idx : ℕ) (s : State) (b : TraceBuilder)
      → map (λ e. e.tx_id) (execute_transactions x idx txs s b).1.entries
        ≡ map (λ e. e.tx_id) b.entries ++ map (λ tx. tx.tx_id) txs
  unfolding execute_transactions add_entry
  execute_transactions-ids [] idx s b = sym (append-nil _)
  execute_transactions-ids (tx ∷ txs) idx s b =
      let e = entry_of idx tx s in
      execute_transactions-ids txs (suc idx) _ (add_entry e b)
      ∙ ap (λ ids. ids ++ map (λ tx. tx.tx_id) txs) (map-append _ b.entries (e ∷ []))
      ∙ append_assoc (map (λ e. e.tx_id) b.entries) (e.tx_id ∷ []) (map (λ tx. tx.tx_id) txs)
      ∙ ap (λ id. map (λ e. e.tx_id) b.entries ++ id ∷ map (λ tx. tx.tx_id) txs)
          (entry_fields idx tx s).2

  execute_transactions-bounded :
      (txs : List Transaction) (idx : ℕ) (s : State) (b : TraceBuilder)
      → All (λ e. e.compute_used ≤ x.inner.max_cu_per_tx) b.entries
      → All
          (λ e. e.compute_used ≤ x.inner.max_cu_per_tx)
          (execute_transactions x idx txs s b).1.entries
  unfolding execute_transactions add_entry
  execute_transactions-bounded [] idx s b v = v
  execute_transactions-bounded (tx ∷ txs) idx s b v =
      let e = entry_of idx tx s in
      execute_transactions-bounded txs (suc idx) _ (add_entry e b) (
        All-append (λ e. e.compute_used ≤ x.inner.max_cu_per_tx) b.entries (e ∷ []) v
          ((entry_fields idx tx s).3, tt))

  -- What a trace promises about its transactions.
  pub record IsTraceOf (txs : List Transaction) (trace : ExecutionTrace) : Type 0 where
    pub in_order : map (λ e. e.tx_id) trace.entries ≡ map (λ tx. tx.tx_id) txs
    pub chained : IsChained trace.state_root_pre trace.entries trace.state_root_post
    pub succeeded : trace.success_count ≡ successes trace.entries
    pub failed : trace.failure_count ≡ failures trace.entries
    pub counted : trace.success_count + trace.failure_count ≡ length txs
    pub computed : trace.total_compute ≡ wrap64 (compute_sum trace.entries)
    pub bounded : All (λ e. e.compute_used ≤ x.inner.max_cu_per_tx) trace.entries

  -- The trace of a batch that ran names its transactions in order, its state hashes lead from the
  -- first root to the last one entry by entry, its counts and its compute units (modulo 2^64) are
  -- those of its entries, and no entry uses more than the limit.
  pub execute_with_transactions-IsTraceOf :
      (batch : Batch) (txs : List Transaction) {trace : ExecutionTrace}
      → execute_with_transactions x batch txs ≡ ok trace
      → IsTraceOf txs trace
  unfolding execute_with_transactions
  execute_with_transactions-IsTraceOf batch txs {trace} ran =
      let s = fund [] (map (λ tx. tx.sender) txs) in
      let b = new_builder batch.batch_id s in
      let (final, b') = execute_transactions x 0 txs s b in
      let e : build final b' ≡ trace = cc ran in
      let balanced =
        execute_transactions-IsBalanced txs 0 s b
          (record { succeeded = refl; failed = refl; computed = refl }) in
      subst (IsTraceOf txs) e (record {
        in_order = execute_transactions-ids txs 0 s b;
        chained =
            subst (λ root. IsChained root b'.entries (compute_state_root final))
              (sym (builder-execute_transactions txs 0 s b).0)
              (execute_transactions-IsChained txs 0 (compute_state_root s) s b refl);
        succeeded = balanced.succeeded;
        failed = balanced.failed;
        counted = omega (
          arith,
          balanced.succeeded,
          balanced.failed,
          successes_add_failures b'.entries,
          length-execute_transactions txs 0 s b,
        );
        computed = balanced.computed;
        bounded = execute_transactions-bounded txs 0 s b tt;
      })
