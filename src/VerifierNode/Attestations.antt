-- ===== src/VerifierNode/Attestations.antt =====
-- The attestation that the node hands out for a batch: the first one it gave, for ever.
use catalyst_svm.Prelude.{ℕ, ◌≡◌, refl, ap, List, [], ◌∷◌, ◌++◌, none, some, Result, ok, arith}
use catalyst_svm.Text.{Text}
use catalyst_svm.Text.Order.{text_eq_refl}
use catalyst_svm.Common.Hashing.{Hasher}
use catalyst_svm.Rpc.{replied}
use catalyst_svm.VerifierNode.{
  VerifierNode, VerifierState, VerifiedBatch, Readings, push_verified, count_failure,
  verify_proof_file,
}
use catalyst_svm.VerifierNode.Service.{
  add_pending, remove_pending, find_batch, answer_attestation, look_up_attestation, attestation,
}
use catalyst_svm.VerifierNode.Steps.{Step, Reaches, announce, conclude, forget, stay, step}
use catalyst_svm.VerifierNode.Outcomes.{
  Outcome, not_run, refuted, entered, verify_proof-Outcome, verify_proof_file-Outcome,
}

find_batch-append :
    (id : Text) (bs cs : List VerifiedBatch) {b : VerifiedBatch}
    → find_batch id bs ≡ some b
    → find_batch id (bs ++ cs) ≡ some b
unfolding find_batch
find_batch-append id [] cs e = cc e
find_batch-append id (a ∷ bs) cs {b = b} e = ground (arith, find_batch-append id bs cs {b = b})

find_batch_new :
    (bs : List VerifiedBatch) (v : VerifiedBatch)
    → find_batch v.batch_id bs ≡ none
    → find_batch v.batch_id (bs ++ (v ∷ [])) ≡ some v
unfolding find_batch
find_batch_new [] v e = rw (text_eq_refl v.batch_id) refl
find_batch_new (a ∷ bs) v e = ground (arith, find_batch_new bs v)

module _ ⦃h : Hasher⦄ (node : VerifierNode) where
  outcome_keeps :
      (id : Text) (s : VerifierState) {o : Result Text VerifiedBatch × VerifierState}
      {b : VerifiedBatch}
      → Outcome node s o
      → find_batch id s.verified_batches ≡ some b
      → find_batch id o.1.verified_batches ≡ some b
  unfolding push_verified count_failure
  outcome_keeps id s (not_run e) found = found
  outcome_keeps id s (refuted e) found = found
  outcome_keeps id s (entered v) found = find_batch-append id s.verified_batches (v ∷ []) found

  step_keeps :
      (id : Text) {s t : VerifierState} {b : VerifiedBatch}
      → Step node s t
      → find_batch id s.verified_batches ≡ some b
      → find_batch id t.verified_batches ≡ some b
  unfolding add_pending remove_pending
  step_keeps id (announce msg s) found = found
  step_keeps id (conclude r proof trace s) found =
      outcome_keeps id s (verify_proof-Outcome node r proof trace s) found
  step_keeps id (forget q s) found = found

  reaches_keeps :
      (id : Text) (s t : VerifierState) {b : VerifiedBatch}
      → Reaches node s t
      → find_batch id s.verified_batches ≡ some b
      → find_batch id t.verified_batches ≡ some b
  reaches_keeps id s t stay found = found
  reaches_keeps id s t (step p q) found = step_keeps id q (reaches_keeps id s _ p found)

  outcome_enters :
      (s : VerifierState) {o : Result Text VerifiedBatch × VerifierState} {v : VerifiedBatch}
      → Outcome node s o
      → o.0 ≡ ok v
      → find_batch v.batch_id s.verified_batches ≡ none
      → find_batch v.batch_id o.1.verified_batches ≡ some v
  unfolding push_verified
  outcome_enters s (not_run e) eq new = cc eq
  outcome_enters s (refuted e) eq new = cc eq
  outcome_enters s {v = v} (entered w) eq new =
      let same : w ≡ v = cc eq in rw same (find_batch_new s.verified_batches v new)

  -- When a batch is verified whose name no verified batch has yet, a request for its attestation is
  -- answered with that attestation at every later time, whatever is written in between.
  pub attestation_answered :
      (r : Readings) (file : Text) (s t : VerifierState) (v : VerifiedBatch) (id : ℕ)
      → (verify_proof_file node r file s).0 ≡ ok v
      → find_batch v.batch_id s.verified_batches ≡ none
      → Reaches node (verify_proof_file node r file s).1 t
      → look_up_attestation id (some v.batch_id) t ≡ replied id (attestation v.attestation)
  unfolding look_up_attestation
  attestation_answered r file s t v id accepted new later = ap (answer_attestation id) (
      reaches_keeps v.batch_id (verify_proof_file node r file s).1 t later
        (outcome_enters s (verify_proof_file-Outcome node r file s) accepted new))
