-- ===== src/Validator/Attested.antt =====
-- From a sealed batch of the validator to its attestation by a verifier node.
use catalyst_svm.Prelude.{◌≡◌, refl, sym, ◌∙◌, ap, subst, List, none, some, Option, Result, ok, err}
use catalyst_svm.Prelude.Float.{Float}
use catalyst_svm.Text.{Text}
use catalyst_svm.Common.Types.{Transaction, ExecutionTrace}
use catalyst_svm.Common.Hashing.{Hasher}
use catalyst_svm.Host.{Disk, RoundTrips}
use catalyst_svm.Rpc.{replied}
use catalyst_svm.Prover.{IsFaithful}
use catalyst_svm.VerifierNode
use catalyst_svm.VerifierNode.{VerifierState, VerifiedBatch, verify_proof_file}
use catalyst_svm.VerifierNode.Service.{find_batch, look_up_attestation, attestation}
use catalyst_svm.VerifierNode.Steps.{Reaches}
use catalyst_svm.VerifierNode.Attestations.{attestation_answered}
use catalyst_svm.Validator.{Validator, ValidatorState, SealedBatch, seal}
use catalyst_svm.Validator.Batches.{
  Readings, process_batch, sealed_name, after_seal, check_and_seal_batch,
}
use catalyst_svm.Validator.Delivery.{checker, IsDelivered, processed_is_verified}

module _ ⦃h : Hasher⦄ ⦃f : Float⦄ (v : Validator) where
  -- A batch that was named by a call of `check_and_seal_batch`, and what the call left.
  record IsNamed (r : Readings) (id : Text) (disk after : Disk) : Type 0 where
    txs : List Transaction
    state : ValidatorState
    went : (process_batch v r id txs disk state).result ≡ ok tt
    disk_after : (process_batch v r id txs disk state).disk ≡ after

  name_of_result :
      (id q : Text) (o : Result Text (Unit {0}))
      → sealed_name v q o ≡ some id
      → (o ≡ ok tt) × (q ≡ id)
  name_of_result id q (ok _) e = (refl, cc e)
  name_of_result id q (err x) e = cc e

  after_seal-IsNamed :
      (r : Readings) (id : Text) (disk : Disk) (o : Option SealedBatch × ValidatorState)
      → (after_seal v r o disk).0 ≡ some id
      → IsNamed r id disk (after_seal v r o disk).1
  unfolding after_seal
  after_seal-IsNamed r id disk (none, s) e = cc e
  after_seal-IsNamed r id disk (some (q, txs), s) e =
      let p = process_batch v r q txs disk s in
      let (went, same) = name_of_result id q p.result e in
      subst (λ i. IsNamed r i disk p.disk) same
        (record { txs = txs; state = s; went = went; disk_after = refl })

  module _ (faithful : IsFaithful v.sdk) (trips : RoundTrips v.host) (node_id : Text) where
    delivered_is_attested :
        (id : Text) (txs : List Transaction) (trace : ExecutionTrace) (vr : VerifierNode.Readings)
        (t u : VerifierState)
        → IsDelivered v faithful trips node_id id txs trace t
            (verify_proof_file (checker v faithful trips node_id) vr id t)
        → find_batch id t.verified_batches ≡ none
        → Reaches
            (checker v faithful trips node_id)
            (verify_proof_file (checker v faithful trips node_id) vr id t).1
            u
        → (batch : VerifiedBatch) × ((verify_proof_file
              (checker v faithful trips node_id)
              vr
              id
              t).0
            ≡ ok batch)
          × (batch.batch_id ≡ id)
          × (look_up_attestation 1 (some id) u ≡ replied 1 (attestation batch.attestation))
    delivered_is_attested id txs trace vr t u d new later =
        let node = checker v faithful trips node_id in
        let accepted = ap (λ o. o.0) d.accepted in
        let answered =
          attestation_answered node vr id t u d.batch 1 accepted
            (subst (λ i. find_batch i t.verified_batches ≡ none) (sym d.named) new) later in
        (
          d.batch,
          accepted,
          d.named,
          subst
              (λ i. look_up_attestation 1 (some i) u ≡ replied 1 (attestation d.batch.attestation))
              d.named answered,
        )

    -- With a faithful SDK, encodings that are decoded, a task that ends, and a node that has verified no
    -- batch of that name: when the validator answers a seal with the name of a batch, a node that reads
    -- the files of that moment verifies the batch under that name, and at every later time it answers a
    -- request for the batch's attestation, with the one that it gave.
    pub sealed_is_attested :
        (r : Readings) (id : Text) (disk : Disk) (s : ValidatorState) (vr : VerifierNode.Readings)
        (t u : VerifierState)
        → (check_and_seal_batch v r disk s).0 ≡ some id
        → vr.read ≡ (check_and_seal_batch v r disk s).1
        → vr.joined ≡ ok tt
        → find_batch id t.verified_batches ≡ none
        → Reaches
            (checker v faithful trips node_id)
            (verify_proof_file (checker v faithful trips node_id) vr id t).1
            u
        → (batch : VerifiedBatch) × ((verify_proof_file
              (checker v faithful trips node_id)
              vr
              id
              t).0
            ≡ ok batch)
          × (batch.batch_id ≡ id)
          × (look_up_attestation 1 (some id) u ≡ replied 1 (attestation batch.attestation))
    unfolding check_and_seal_batch
    sealed_is_attested r id disk s vr t u named same joined new later =
        let n = after_seal-IsNamed r id disk (seal v r.now s) named in
        let (trace, executed, d) =
          processed_is_verified v faithful trips node_id r id n.txs disk n.state vr t n.went
            (same ∙ sym n.disk_after) joined in
        delivered_is_attested id n.txs trace vr t u d new later
