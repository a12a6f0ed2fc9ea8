-- ===== src/Validator/Delivery.antt =====
-- The proofs of the validator at a verifier node that reads the validator's directory.
use catalyst_svm.Prelude.{
  ◌≡◌, ◌≢◌, refl, sym, ◌∙◌, ap, subst, List, [], ◌++◌, map, true, false, Result, ok, err, length,
  arith,
}
use catalyst_svm.Prelude.Float.{Float}
use catalyst_svm.Text.{Text, codes, text_eq}
use catalyst_svm.Common.Types.{Transaction, Batch, ExecutionTrace, Proof}
use catalyst_svm.Common.Hashing.{Hasher}
use catalyst_svm.Common.Clock.{new_clock}
use catalyst_svm.Executor.{FullExecutor, execute_with_transactions, fund}
use catalyst_svm.Executor.Entries.{length-execute_transactions, builder-execute_transactions}
use catalyst_svm.Trace.{new_builder, build}
use catalyst_svm.Host.{Disk, RoundTrips, write_file, join_path, join_path-differ}
use catalyst_svm.Prover.{IsFaithful}
use catalyst_svm.Verifier.Proving.{IsProofOf, prove-IsProofOf}
use catalyst_svm.VerifierNode
use catalyst_svm.VerifierNode.{
  VerifierNode, VerifierState, VerifiedBatch, verified_batch, push_verified, verification,
  concluded_by, after_verification, verify_proof, load, after_load, verify_proof_file,
}
use catalyst_svm.Validator.{Validator, ValidatorState}
use catalyst_svm.Validator.Batches.{
  Readings, processed_batch, process_batch, proof_path, trace_path,
}
use catalyst_svm.Validator.Saved.{
  AreWritten, WentThrough, process_ok, read-write_self, read-write_other,
}

executed_batch :
    ⦃h : Hasher⦄ (x : FullExecutor) (batch : Batch) (txs : List Transaction)
    {trace : ExecutionTrace}
    → execute_with_transactions x batch txs ≡ ok trace
    → (trace.batch_id ≡ batch.batch_id) × (length trace.entries ≡ length txs)
unfolding execute_with_transactions build new_builder
executed_batch x batch txs ran =
    let s = fund [] (map (λ tx. tx.sender) txs) in
    let b = new_builder batch.batch_id s in
    let trace_is = ap (λ r. elim r [ ok t ↦ t | err _ ↦ build s b ]) ran in
    (
      ap (λ t. t.batch_id) (sym trace_is) ∙ (builder-execute_transactions x txs 0 s b).1,
      ap (λ t. length t.entries) (sym trace_is)
          ∙ omega (arith, length-execute_transactions x txs 0 s b),
    )

-- The two files of a batch are different paths.
paths_differ :
    (dir id : Text) → join_path dir (id ++ codes ".proof") ≢ join_path dir (id ++ codes ".trace")
unfolding text_eq
paths_differ dir id =
    join_path-differ dir id 46 (codes "proof") (codes "trace")
      (λ e. let clash : false ≡ true = ap (λ t. text_eq t (codes "trace")) e in cc clash)

module _ ⦃h : Hasher⦄ ⦃f : Float⦄ (v : Validator) (faithful : IsFaithful v.sdk)
    (trips : RoundTrips v.host) (node_id : Text) where
  -- A node that reads the validator's directory and uses the same SDK.
  abbrev pub checker : VerifierNode
  checker = record { sdk = v.sdk; host = v.host; proof_dir = v.proof_dir; node_id = node_id }

  load_written :
      (r : VerifierNode.Readings) (id : Text) (proof : Proof) (trace : ExecutionTrace)
      (before : Disk)
      → AreWritten v id proof trace before r.read
      → load checker r id ≡ ok (proof, trace)
  unfolding load
  load_written r id proof trace before w =
      let first = write_file (proof_path v id) w.proof_bytes before in
      let read_proof : r.read (proof_path v id) ≡ ok w.proof_bytes =
        ap (λ d. d (proof_path v id)) w.written
        ∙ read-write_other (trace_path v id) (proof_path v id) w.trace_bytes first
            (paths_differ v.proof_dir id)
        ∙ read-write_self (proof_path v id) w.proof_bytes before in
      let read_trace : r.read (trace_path v id) ≡ ok w.trace_bytes =
        ap (λ d. d (trace_path v id)) w.written
        ∙ read-write_self (trace_path v id) w.trace_bytes first in
      rw
        (
          read_proof,
          read_trace,
          trips.proof proof w.proof_bytes w.proof_encoded,
          trips.trace trace w.trace_bytes w.trace_encoded,
        )
        refl

  verified_of :
      (r : VerifierNode.Readings) (proof : Proof) (trace : ExecutionTrace) (t : VerifierState)
      → r.joined ≡ ok tt
      → IsProofOf v.sdk trace proof
      → verify_proof checker r proof trace t
        ≡ (ok (verified_batch checker r proof), push_verified (verified_batch checker r proof) t)
  unfolding verify_proof verification after_verification concluded_by
  verified_of r proof trace t joined p =
      rw (joined, p.accepted r.elapsed_in_verifier (new_clock r.verify_clock)) refl

  -- The batch entered by the node: its name, and the values of the validator's trace.
  pub record IsDelivered (id : Text) (txs : List Transaction) (trace : ExecutionTrace)
      (t : VerifierState) (o : Result Text VerifiedBatch × VerifierState) : Type 0 where
    pub batch : VerifiedBatch
    pub accepted : o ≡ (ok batch, push_verified batch t)
    pub named : batch.batch_id ≡ id
    pub pre : batch.state_root_pre ≡ trace.state_root_pre
    pub post : batch.state_root_post ≡ trace.state_root_post
    pub count : batch.tx_count ≡ length txs

  WentThrough-IsDelivered :
      (r : Readings) (id : Text) (txs : List Transaction) (before : Disk)
      (vr : VerifierNode.Readings) (t : VerifierState) (w : WentThrough v r id txs before vr.read)
      → vr.joined ≡ ok tt
      → IsDelivered id txs w.trace t (verify_proof_file checker vr id t)
  unfolding verify_proof_file after_load verified_batch
  WentThrough-IsDelivered r id txs before vr t w joined =
      let p =
        prove-IsProofOf v.sdk faithful r.elapsed w.trace txs (new_clock r.prove_clock) w.proved in
      let (trace_id, entries) =
        executed_batch v.executor (processed_batch r.started_at r.sealed_at id txs) txs
          w.executed in
      let named : w.proof.batch_id ≡ id = p.id ∙ trace_id in
      let files = subst (λ i. AreWritten v i w.proof w.trace before vr.read) named w.written in
      record {
        batch = verified_batch checker vr w.proof;
        accepted =
            ap (λ o. after_load checker vr o t) (load_written vr id w.proof w.trace before files)
            ∙ verified_of vr w.proof w.trace t joined p;
        named = named;
        pre = ap (λ c. c.state_root_pre) p.commitment;
        post = ap (λ c. c.state_root_post) p.commitment;
        count = ap (λ c. c.tx_count) p.commitment ∙ entries;
      }

  -- With a faithful SDK, encodings that are decoded, and a task that ends: if the validator processes a
  -- batch without an error, then a node that reads the files that it leaves verifies the batch without an
  -- error in whatever state the node is, also where its own root is not the first root of the batch, and
  -- enters the batch's name, the number of its transactions, and the two roots of the trace that the
  -- validator's executor made of it.
  pub processed_is_verified :
      (r : Readings) (id : Text) (txs : List Transaction) (disk : Disk) (s : ValidatorState)
      (vr : VerifierNode.Readings) (t : VerifierState)
      → (process_batch v r id txs disk s).result ≡ ok tt
      → vr.read ≡ (process_batch v r id txs disk s).disk
      → vr.joined ≡ ok tt
      → (trace : ExecutionTrace) × (execute_with_transactions v.executor
            (processed_batch r.started_at r.sealed_at id txs)
            txs
          ≡ ok trace)
        × IsDelivered id txs trace t (verify_proof_file checker vr id t)
  processed_is_verified r id txs disk s vr t went same joined =
      let w = subst (WentThrough v r id txs disk) (sym same) (process_ok v r id txs disk s went) in
      (w.trace, w.executed, WentThrough-IsDelivered r id txs disk vr t w joined)
