-- ===== src/Validator/Pushes.antt =====
-- What the processing of a batch adds to the validator's state, and to the proofs on record.

use catalyst_svm.Prelude.{
  map-append, ◌⊎◌, inl, inr, ◌+◌, ◌≤◌, ◌≡◌, refl, ◌∙◌, ap, subst, List, [], ◌∷◌, ◌++◌, map, length,
  length-append, arith, ok, err, Result,
}
use catalyst_svm.Prelude.Float.{Float}
use catalyst_svm.Text.{Text}
use catalyst_svm.Common.Types.{Transaction, ExecutionTrace, Proof}
use catalyst_svm.Common.Hashing.{Hasher}
use catalyst_svm.Host.{Disk}
use catalyst_svm.Validator.{Validator, ValidatorState, SealedBatch}
use catalyst_svm.Validator.Batches.{
  Readings, produce, proof_record, after_save, save_proof, push_proof, after_produce, process_batch,
}
use catalyst_svm.Validator.Steps.{World}
use catalyst_svm.Validator.Accounted.{AreAccounted, recorded-AreAccounted, lost-AreAccounted}

-- The names of the proofs on record, and of batches.
abbrev pub proof_names : ValidatorState → List Text
proof_names s = map (λ p. p.batch_id) s.proofs

abbrev pub batch_names : List SealedBatch → List Text
batch_names bs = map (λ b. b.0) bs

module _ ⦃h : Hasher⦄ ⦃f : Float⦄ (v : Validator) where
  -- Processing a batch touches only the list of the proofs, and adds at most one.
  pub record Pushes (id : Text) (s t : ValidatorState) : Type 0 where
    pub pending : t.pending_txs ≡ s.pending_txs
    pub txs : t.tx_counter ≡ s.tx_counter
    pub seals : t.batch_counter ≡ s.batch_counter
    pub batches : t.batches ≡ s.batches
    pub proofs : length t.proofs ≤ length s.proofs + 1
    pub names : (proof_names t ≡ proof_names s) ⊎ (proof_names t ≡ proof_names s ++ (id ∷ []))

  save-Pushes :
      (r : Readings) (id : Text) (proof : Proof) (o : Result Text (Unit {0}) × Disk)
      (s : ValidatorState)
      → Pushes id s (after_save v r id proof o s).state
  unfolding push_proof
  save-Pushes r id proof (err e, disk) s = record {
    pending = refl;
    txs = refl;
    seals = refl;
    batches = refl;
    proofs = omega arith;
    names = inl refl;
  }
  save-Pushes r id proof (ok _, disk) s = record {
    pending = refl;
    txs = refl;
    seals = refl;
    batches = refl;
    proofs = omega (arith, length-append s.proofs (proof_record r.timestamp id proof ∷ []));
    names = inr (map-append (λ p. p.batch_id) s.proofs (proof_record r.timestamp id proof ∷ []));
  }

  produce-Pushes :
      (r : Readings) (id : Text) (o : Result Text (Proof × ExecutionTrace)) (disk : Disk)
      (s : ValidatorState)
      → Pushes id s (after_produce v r id o disk s).state
  unfolding after_produce
  produce-Pushes r id (err e) disk s = record {
    pending = refl;
    txs = refl;
    seals = refl;
    batches = refl;
    proofs = omega arith;
    names = inl refl;
  }
  produce-Pushes r id (ok (proof, trace)) disk s =
      save-Pushes r id proof (save_proof v r proof trace disk) s

  pub process-Pushes :
      (r : Readings) (id : Text) (txs : List Transaction) (disk : Disk) (s : ValidatorState)
      → Pushes id s (process_batch v r id txs disk s).state
  unfolding process_batch
  process-Pushes r id txs disk s = produce-Pushes r id (produce v r id txs) disk s

  -- The batch that was processed is on record, or lost.
  pub record Ends (id : Text) (before after : List SealedBatch) (lost : List Text) (w : World)
      (t : ValidatorState) : Type 0 where
    pub gone : List Text
    pub accounted :
        AreAccounted (proof_names t) (batch_names (before ++ after)) gone (batch_names w.sealed)

  pub ends :
      (id : Text) (txs : List Transaction) (before after : List SealedBatch) (lost : List Text)
      (w : World) (t : ValidatorState)
      → w.in_flight ≡ before ++ ((id, txs) ∷ after)
      → AreAccounted (proof_names w.state) (batch_names w.in_flight) lost (batch_names w.sealed)
      → (proof_names t ≡ proof_names w.state) ⊎ (proof_names t ≡ proof_names w.state ++ (id ∷ []))
      → Ends id before after lost w t
  ends id txs before after lost w t e a pushed =
      let flying = ap batch_names e ∙ map-append (λ b. b.0) before ((id, txs) ∷ after) in
      let others = map-append (λ b. b.0) before after in
      let names = batch_names w.sealed in
      let old = subst (λ xs. AreAccounted (proof_names w.state) xs lost names) flying a in
      elim pushed [
        | inl same ↦ record {
          gone = id ∷ lost;
          accounted =
              rw (same, others)
                (lost-AreAccounted (proof_names w.state) (batch_names before) (batch_names after)
                  lost id names old);
        }
        | inr more ↦ record {
          gone = lost;
          accounted =
              rw (more, others)
                (recorded-AreAccounted (proof_names w.state) (batch_names before)
                  (batch_names after) lost id names old);
        }
      ]
