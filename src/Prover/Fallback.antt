-- ===== src/Prover/Fallback.antt =====
-- The path without transactions: a trace of `DeterministicExecutor`, and the no-ops that the prover
-- makes up from it.
use catalyst_svm.Prelude.{
  ℕ, suc, subst, ◌+◌, ◌≤◌, ◌≡◌, refl, sym, ap, ◌∙◌, List, [], ◌∷◌, ◌++◌, map, length, arith, wrap64,
  map-append, append-nil, append_assoc, ok, true, length-map,
}
use catalyst_svm.Text.{Text, codes}
use catalyst_svm.Common.Types.{TraceEntry, TransactionId, ExecutionTrace, Batch}
use catalyst_svm.Common.Hashing.{Hasher}
use catalyst_svm.Common.Merkle
use catalyst_svm.Trace.{TraceBuilder, add_entry, hash_entry, new_builder, build}
use catalyst_svm.Executor
use catalyst_svm.Executor.{State, DeterministicExecutor, execute, execute_ids, trace_entry, fund}
use catalyst_svm.Guest
use catalyst_svm.Guest.{SerializableTransaction, execute_loop, main}
use catalyst_svm.Guest.Roots.{hash_trace_entry_lem}
use catalyst_svm.Prover.{serializable, trace_input, reconstructed}
use catalyst_svm.Prover.Acceptance.{main_lem, claim_accepted, claimed_inputs}

map_ids :
    {A : Type 0} (g : TransactionId → A) (entries : List TraceEntry)
    → map (λ e. g e.tx_id) entries ≡ map g (map (λ e. e.tx_id) entries)
map_ids g [] = refl
map_ids g (e ∷ entries) = ap (λ l. g e.tx_id ∷ l) (map_ids g entries)

-- What the guest is given for an id.
abbrev pub made_up : TransactionId → SerializableTransaction
made_up id = serializable (reconstructed id)

module _ ⦃h : Hasher⦄ (x : DeterministicExecutor) (room : 1000 ≤ x.max_cu_per_tx) where
  abbrev noop_entry : ℕ → TransactionId → State → TraceEntry
  noop_entry idx id s =
      trace_entry x.max_cu_per_tx idx id (codes "execute") (codes "execute") s s
        (ok (record { reads = []; writes = []; compute = 1000 }))

  execute_ids-cons :
      (idx : ℕ) (id : TransactionId) (ids : List TransactionId) (s : State) (b : TraceBuilder)
      → execute_ids x idx (id ∷ ids) s b
        ≡ execute_ids x (suc idx) ids s (add_entry (noop_entry idx id s) b)
  unfolding execute_ids Executor.execute_instruction
  execute_ids-cons idx id ids s b = refl

  execute_loop-cons :
      (id : TransactionId) (rest : List SerializableTransaction) (s : State) (total : ℕ)
      (hashes : List Text)
      → execute_loop (made_up id ∷ rest) s total hashes
        ≡ execute_loop rest s
            (wrap64 (total + 1000))
            (hashes ++ Guest.hash_trace_entry id true 1000 [] [] ∷ [])
  unfolding execute_loop Guest.execute_instruction
  execute_loop-cons id rest s total hashes = refl

  -- The guest's loop over the made-up transactions does what the executor's loop does.
  ids_agree :
      (ids : List TransactionId) (idx : ℕ) (s : State) (b : TraceBuilder)
      → let (final, b') = execute_ids x idx ids s b in
        execute_loop (map made_up ids) s b.total_compute (map hash_entry b.entries)
        ≡ (final, b'.total_compute, map hash_entry b'.entries)
  unfolding execute_ids execute_loop add_entry
  ids_agree [] idx s b = refl
  ids_agree (id ∷ ids) idx s b =
      let e = noop_entry idx id s in
      let hash = Guest.hash_trace_entry id true 1000 [] [] in
      let used : e.compute_used ≡ 1000 = omega (arith, room) in
      let same : hash ≡ hash_entry e =
        hash_trace_entry_lem id true 1000 [] []
        ∙ ap (λ n. Merkle.hash_trace_entry id true n [] []) (sym used) in
      let hashes : map hash_entry b.entries ++ hash ∷ [] ≡ map hash_entry (b.entries ++ e ∷ []) =
        ap (λ t. map hash_entry b.entries ++ t ∷ []) same
        ∙ sym (map-append hash_entry b.entries (e ∷ [])) in
      ap
        (λ n.
          execute_loop (map made_up ids) s (wrap64 (b.total_compute + n))
            (map hash_entry b.entries ++ hash ∷ []))
        (sym used)
      ∙ ap (λ hs. execute_loop (map made_up ids) s (wrap64 (b.total_compute + e.compute_used)) hs)
          hashes
      ∙ ids_agree ids (suc idx) s (add_entry e b)

  ids_kept :
      (ids : List TransactionId) (idx : ℕ) (s : State) (b : TraceBuilder)
      → let b' = (execute_ids x idx ids s b).1 in
        (map (λ e. e.tx_id) b'.entries ≡ map (λ e. e.tx_id) b.entries ++ ids)
        × (b'.pre_state_root ≡ b.pre_state_root)
  unfolding execute_ids add_entry
  ids_kept [] idx s b = (sym (append-nil _), refl)
  ids_kept (id ∷ ids) idx s b =
      let e = noop_entry idx id s in
      let ih = ids_kept ids (suc idx) s (add_entry e b) in
      (
        ih.0
            ∙ ap (λ l. l ++ ids) (map-append (λ e. e.tx_id) b.entries (e ∷ []))
            ∙ append_assoc (map (λ e. e.tx_id) b.entries) (id ∷ []) ids,
        ih.1,
      )

  -- The guest accepts the trace of a batch that was executed without transactions, on the no-ops
  -- that the prover makes up from the trace's entries, if the executor allows 1000 units.
  pub fallback_accepts :
      (batch : Batch) {trace : ExecutionTrace}
      → execute x batch ≡ ok trace
      → main
          (trace_input trace)
          (map (λ e. made_up e.tx_id) trace.entries)
          (fund [] (map (λ e. codes "sender_" ++ e.tx_id) trace.entries))
        ≡ ok (claimed_inputs trace)
  unfolding execute
  fallback_accepts batch {trace} ran =
      let ids = batch.tx_ids in
      let s = fund [] (map (λ id. codes "sender_" ++ id) ids) in
      let b = new_builder batch.batch_id s in
      let (final, b') = execute_ids x 0 ids s b in
      let (kept, pre) = ids_kept ids 0 s b in
      let e : trace ≡ build final b' = cc ran in
      let txs : map (λ e. made_up e.tx_id) b'.entries ≡ map made_up ids =
        map_ids made_up b'.entries ∙ ap (map made_up) kept in
      let state : fund [] (map (λ e. codes "sender_" ++ e.tx_id) b'.entries) ≡ s = ap (fund []) (
        map_ids (λ id. codes "sender_" ++ id) b'.entries
        ∙ ap (map (λ id. codes "sender_" ++ id)) kept) in
      let count : length (map made_up ids) ≡ length b'.entries =
        ap length (sym txs) ∙ length-map (λ e. made_up e.tx_id) b'.entries in
      let goal : main (trace_input (build final b')) (map made_up ids) s
          ≡ ok (claimed_inputs (build final b')) =
        main_lem (trace_input (build final b')) (map made_up ids) s
        ∙ claim_accepted s final b' (execute_loop (map made_up ids) s 0 [])
            (length (map made_up ids)) (ids_agree ids 0 s b) count (sym pre) in
      subst
        (λ t.
          main (trace_input t) (map (λ e. made_up e.tx_id) t.entries)
            (fund [] (map (λ e. codes "sender_" ++ e.tx_id) t.entries))
          ≡ ok (claimed_inputs t))
        (sym e)
        (ap
            (λ ts.
              main (trace_input (build final b')) ts
                (fund [] (map (λ e. codes "sender_" ++ e.tx_id) b'.entries)))
            txs
          ∙ ap (λ st. main (trace_input (build final b')) (map made_up ids) st) state
          ∙ goal)
