-- ===== src/VerifierNode/Outcomes.antt =====
-- What a broadcast and a verification leave behind, on success and on failure.
use catalyst_svm.Prelude.{
  ℕ, ◌+◌, ◌≡◌, refl, [], ◌∷◌, ◌++◌, Option, none, some, true, false, Result, ok, err, Bool, ◌⊎◌,
  inl, inr, take, reverse, reverse-append, suc, wrap64, is_ok, Bool-cases,
}
use catalyst_svm.Text.{Text}
use catalyst_svm.Text.Order.{text_ord}
use catalyst_svm.OrderedMap.{get, insert}
use catalyst_svm.OrderedMap.Lookup.{get-insert_self}
use catalyst_svm.OrderedMap.Sorted.{IsSorted, insert-IsSorted, get-remove_self}
use catalyst_svm.Common.Types.{ExecutionTrace, Proof, VerificationResult}
use catalyst_svm.Common.Hashing.{Hasher}
use catalyst_svm.Rpc.{replied}
use catalyst_svm.VerifierNode.{
  VerifierNode, VerifierState, VerifiedBatch, ProofMessage, Readings, verified_batch, push_verified,
  count_failure, verification, concluded_by, after_verification, verify_proof, load, after_load,
  verify_proof_file,
}
use catalyst_svm.VerifierNode.Service.{
  add_pending, remove_pending, after_broadcast, handle_proof_broadcast, recent_batches, batches,
}

module _ ⦃h : Hasher⦄ (node : VerifierNode) where
  -- The writes of a verification: nothing, a failure counted, or a batch entered, by its result.
  pub data Outcome (s : VerifierState) : Result Text VerifiedBatch × VerifierState → Type 0 where
    not_run : (e : Text) → Outcome s (err e, s)
    refuted : (e : Text) → Outcome s (err e, count_failure s)
    entered : (v : VerifiedBatch) → Outcome s (ok v, push_verified v s)

  concluded-Outcome :
      (valid : Bool) (error : Option Text) (v : VerifiedBatch) (s : VerifierState)
      → Outcome s (concluded_by node valid error v s)
  unfolding concluded_by
  concluded-Outcome false error v s = refuted _
  concluded-Outcome true error v s = entered v

  after-Outcome :
      (o : Result Text VerificationResult) (v : VerifiedBatch) (s : VerifierState)
      → Outcome s (after_verification node o v s)
  unfolding after_verification
  after-Outcome (err e) v s = not_run e
  after-Outcome (ok result) v s = concluded-Outcome result.is_valid result.error v s

  pub verify_proof-Outcome :
      (r : Readings) (proof : Proof) (trace : ExecutionTrace) (s : VerifierState)
      → Outcome s (verify_proof node r proof trace s)
  unfolding verify_proof
  verify_proof-Outcome r proof trace s =
      after-Outcome (verification node r proof trace) (verified_batch node r proof) s

  load-Outcome :
      (r : Readings) (o : Result Text (Proof × ExecutionTrace)) (s : VerifierState)
      → Outcome s (after_load node r o s)
  unfolding after_load
  load-Outcome r (err e) s = not_run e
  load-Outcome r (ok (proof, trace)) s = verify_proof-Outcome r proof trace s

  pub verify_proof_file-Outcome :
      (r : Readings) (id : Text) (s : VerifierState) → Outcome s (verify_proof_file node r id s)
  unfolding verify_proof_file
  verify_proof_file-Outcome r id s = load-Outcome r (load node r id) s

  -- The chain of verified batches is as it was.
  pub record IsSameChain (s t : VerifierState) : Type 0 where
    pub batches : t.verified_batches ≡ s.verified_batches
    pub root : t.current_state_root ≡ s.current_state_root
    pub count : t.verification_count ≡ s.verification_count

  failed_outcome :
      (msg : ProofMessage) (s : VerifierState) {o : Result Text VerifiedBatch × VerifierState}
      → Outcome (add_pending msg s) o
      → is_ok (after_broadcast node msg.batch_id o).0 ≡ false
      → IsSameChain s (after_broadcast node msg.batch_id o).1
        × (get (after_broadcast node msg.batch_id o).1.pending_verifications msg.batch_id
            ≡ some msg)
  unfolding after_broadcast add_pending count_failure
  failed_outcome msg s (not_run e') eq = (
    record { batches = refl; root = refl; count = refl },
    get-insert_self s.pending_verifications msg.batch_id msg,
  )
  failed_outcome msg s (refuted e') eq = (
    record { batches = refl; root = refl; count = refl },
    get-insert_self s.pending_verifications msg.batch_id msg,
  )
  failed_outcome msg s (entered v) eq = cc eq

  -- A broadcast that ends with an error leaves the chain of verified batches as it was, and the
  -- message stays among the pending ones.
  broadcast_failed :
      (r : Readings) (msg : ProofMessage) (s : VerifierState)
      → is_ok (handle_proof_broadcast node r msg s).0 ≡ false
      → IsSameChain s (handle_proof_broadcast node r msg s).1
        × (get (handle_proof_broadcast node r msg s).1.pending_verifications msg.batch_id
            ≡ some msg)
  unfolding handle_proof_broadcast
  broadcast_failed r msg s =
      failed_outcome msg s (verify_proof_file-Outcome r msg.batch_id (add_pending msg s))

  -- A batch was entered at the end of the chain, and its message is no longer pending.
  pub record HasEntered (id : Text) (s t : VerifierState) : Type 0 where
    pub batch : VerifiedBatch
    pub batches : t.verified_batches ≡ s.verified_batches ++ (batch ∷ [])
    pub root : t.current_state_root ≡ batch.state_root_post
    pub count : t.verification_count ≡ wrap64 (s.verification_count + 1)
    pub not_pending : get t.pending_verifications id ≡ none

  entered_outcome :
      (msg : ProofMessage) (s : VerifierState) {o : Result Text VerifiedBatch × VerifierState}
      → Outcome (add_pending msg s) o
      → IsSorted s.pending_verifications
      → is_ok (after_broadcast node msg.batch_id o).0 ≡ true
      → HasEntered msg.batch_id s (after_broadcast node msg.batch_id o).1
  unfolding after_broadcast add_pending remove_pending push_verified
  entered_outcome msg s (not_run e') sorted eq = cc eq
  entered_outcome msg s (refuted e') sorted eq = cc eq
  entered_outcome msg s (entered v) sorted eq = record {
    batch = v;
    batches = refl;
    root = refl;
    count = refl;
    not_pending =
        get-remove_self (insert s.pending_verifications msg.batch_id msg) msg.batch_id
          (insert-IsSorted s.pending_verifications msg.batch_id msg sorted);
  }

  -- A broadcast that succeeds enters one batch at the end of the chain, takes its root, and takes the
  -- message off the pending ones (a map whose keys ascend).
  broadcast_entered :
      (r : Readings) (msg : ProofMessage) (s : VerifierState)
      → IsSorted s.pending_verifications
      → is_ok (handle_proof_broadcast node r msg s).0 ≡ true
      → HasEntered msg.batch_id s (handle_proof_broadcast node r msg s).1
  unfolding handle_proof_broadcast
  broadcast_entered r msg s =
      entered_outcome msg s (verify_proof_file-Outcome r msg.batch_id (add_pending msg s))

  -- Where the keys of the pending messages ascend, a broadcast either succeeds, enters one batch at the
  -- end of the chain, takes its root, and takes the message off the pending ones; or it ends with an
  -- error, leaves the chain as it was, and leaves the message among the pending ones.
  pub broadcast_outcomes :
      (r : Readings) (msg : ProofMessage) (s : VerifierState)
      → IsSorted s.pending_verifications
      → ((is_ok (handle_proof_broadcast node r msg s).0 ≡ true)
          × HasEntered msg.batch_id s (handle_proof_broadcast node r msg s).1)
        ⊎ ((is_ok (handle_proof_broadcast node r msg s).0 ≡ false)
            × IsSameChain s (handle_proof_broadcast node r msg s).1
            × (get (handle_proof_broadcast node r msg s).1.pending_verifications msg.batch_id
                ≡ some msg))
  broadcast_outcomes r msg s sorted =
      elim (Bool-cases (is_ok (handle_proof_broadcast node r msg s).0)) [
        | inl succeeds ↦ inl (succeeds, broadcast_entered r msg s sorted succeeds)
        | inr fails ↦ let (same, left) = broadcast_failed r msg s fails in inr (fails, same, left)
      ]

  newest_outcome :
      (id n : ℕ) (s : VerifierState) {o : Result Text VerifiedBatch × VerifierState}
      {v : VerifiedBatch}
      → Outcome s o
      → o.0 ≡ ok v
      → recent_batches id (some (suc n)) o.1
        ≡ replied id (batches (v ∷ take n (reverse s.verified_batches)))
  unfolding recent_batches push_verified
  newest_outcome id n s (not_run e) eq = cc eq
  newest_outcome id n s (refuted e) eq = cc eq
  newest_outcome id n s {v = v} (entered w) eq =
      let same : w ≡ v = cc eq in rw (reverse-append, same) refl

  -- After a verification that succeeds, a request for the verified batches lists the new batch first,
  -- then the earlier ones from the newest on, up to the limit.
  pub newest_first :
      (r : Readings) (batch : Text) (id n : ℕ) (s : VerifierState) {v : VerifiedBatch}
      → (verify_proof_file node r batch s).0 ≡ ok v
      → recent_batches id (some (suc n)) (verify_proof_file node r batch s).1
        ≡ replied id (batches (v ∷ take n (reverse s.verified_batches)))
  newest_first r batch id n s = newest_outcome id n s (verify_proof_file-Outcome r batch s)
