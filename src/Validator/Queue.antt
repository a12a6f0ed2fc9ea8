-- ===== src/Validator/Queue.antt =====
-- The validator's queue through every interleaving: nothing is lost, doubled or reordered by sealing.
use mathlib.Core.List.Perm
use catalyst_svm.Prelude.{
  map-append, ℕ, ◌+◌, ◌≤◌, ◌≡◌, refl, sym, ◌∙◌, ap, subst, List, [], ◌∷◌, ◌++◌, append_assoc, map,
  length, length-append, arith, wrap64, All, All-append,
}
use catalyst_svm.Prelude.Float.{Float}
use catalyst_svm.Text.{Text}
use catalyst_svm.Common.Hashing.{Hasher}
use catalyst_svm.Host.{Disk}
use catalyst_svm.Validator.{
  Validator, ValidatorState, SubmitTxParams, SealedBatch, submitted_tx, tx_name, batch_name,
  submit_transaction, drain, default_validator,
}
use catalyst_svm.Validator.Batches.{Readings, process_batch}
use catalyst_svm.Validator.Steps.{
  World, initial_world, after_submit, after_sealing, after_processing, Step, Reaches, submit, seals,
  process, stay, step,
}
use catalyst_svm.Validator.Accounted.{AreAccounted, sealed-AreAccounted}
use catalyst_svm.Validator.Pushes.{proof_names, batch_names, process-Pushes, ends}
use catalyst_svm.Validator.Drained.{
  flattened, numbered, flattened_snoc, drain_splits, drain_bounded, numbered-append,
  sealed_is_drained,
}

module _ ⦃h : Hasher⦄ ⦃f : Float⦄ (v : Validator) where
  -- What the world remembers against what the validator keeps.
  pub record IsOrderly (w : World) : Type 0 where
    pub queue : flattened w.sealed ++ w.state.pending_txs ≡ w.submitted
    pub submits : w.state.tx_counter ≡ wrap64 (length w.submitted)
    pub seals : w.state.batch_counter ≡ wrap64 (length w.sealed)
    pub tx_ids : map (λ t. t.tx_id) w.submitted ≡ numbered tx_name (length w.submitted)
    pub batch_ids : map (λ b. b.0) w.sealed ≡ numbered batch_name (length w.sealed)
    pub sizes : All (λ b. length b.1 ≤ v.batch_size) w.sealed
    pub no_batches : w.state.batches ≡ []
    pub counts : length w.state.proofs + length w.in_flight ≤ length w.sealed
    pub lost : List Text
    pub accounted :
        AreAccounted (proof_names w.state) (batch_names w.in_flight) lost (batch_names w.sealed)

  initial-IsOrderly : IsOrderly initial_world
  unfolding default_validator flattened numbered
  initial-IsOrderly = record {
    queue = refl;
    submits = omega arith;
    seals = omega arith;
    tx_ids = refl;
    batch_ids = refl;
    sizes = tt;
    no_batches = refl;
    counts = omega arith;
    lost = [];
    accounted = Perm.rfl;
  }

  submit-IsOrderly :
      (now : ℕ) (p : SubmitTxParams) (w : World) → IsOrderly w → IsOrderly (after_submit now p w)
  unfolding submit_transaction submitted_tx
  submit-IsOrderly now p w i =
      let counter = wrap64 (w.state.tx_counter + 1) in
      let tx = submitted_tx counter now p in
      let longer = length-append w.submitted (tx ∷ []) in
      record {
        queue =
            sym (append_assoc (flattened w.sealed) w.state.pending_txs (tx ∷ []))
            ∙ ap (λ xs. xs ++ (tx ∷ [])) i.queue;
        submits = omega (arith, i.submits, longer);
        seals = i.seals;
        tx_ids =
            numbered-append tx_name (λ t. t.tx_id) w.submitted tx w.state.tx_counter i.tx_ids
              i.submits refl;
        batch_ids = i.batch_ids;
        sizes = i.sizes;
        no_batches = i.no_batches;
        counts = i.counts;
        lost = i.lost;
        accounted = i.accounted;
      }

  drained-IsOrderly :
      (w : World)
      → IsOrderly w
      → IsOrderly (after_sealing (drain v.batch_size w.state).0 (drain v.batch_size w.state).1 w)
  unfolding drain
  drained-IsOrderly w i =
      let b = (drain v.batch_size w.state).0 in
      let left = (drain v.batch_size w.state).1.pending_txs in
      let longer = length-append w.sealed (b ∷ []) in
      record {
        queue =
            flattened_snoc w.sealed b left
            ∙ ap (λ q. flattened w.sealed ++ q) (drain_splits v.batch_size w.state)
            ∙ i.queue;
        submits = i.submits;
        seals = omega (arith, i.seals, longer);
        tx_ids = i.tx_ids;
        batch_ids =
            numbered-append batch_name (λ x. x.0) w.sealed b w.state.batch_counter i.batch_ids
              i.seals refl;
        sizes =
            All-append (λ x. length x.1 ≤ v.batch_size) w.sealed (b ∷ []) i.sizes
              (drain_bounded v.batch_size w.state, tt);
        no_batches = i.no_batches;
        counts = omega (arith, i.counts, longer, length-append w.in_flight (b ∷ []));
        lost = i.lost;
        accounted =
            rw (map-append (λ x. x.0) w.in_flight (b ∷ []), map-append (λ x. x.0) w.sealed (b ∷ []))
              (sealed-AreAccounted (proof_names w.state) (batch_names w.in_flight) i.lost
                (batch_names w.sealed) b.0 i.accounted);
      }

  sealing-IsOrderly :
      (b : SealedBatch) (s : ValidatorState) (w : World)
      → drain v.batch_size w.state ≡ (b, s)
      → IsOrderly w
      → IsOrderly (after_sealing b s w)
  sealing-IsOrderly b s w e i =
      subst (λ d. IsOrderly (after_sealing d.0 d.1 w)) e (drained-IsOrderly w i)

  process-IsOrderly :
      (r : Readings) (b : SealedBatch) (disk : Disk) (before after : List SealedBatch) (w : World)
      → w.in_flight ≡ before ++ (b ∷ after)
      → IsOrderly w
      → IsOrderly (after_processing v r b disk (before ++ after) w)
  process-IsOrderly r (id, txs) disk before after w e i =
      let p = process-Pushes v r id txs disk w.state in
      let t = (process_batch v r id txs disk w.state).state in
      let ended = ends v id txs before after i.lost w t e i.accounted p.names in
      record {
        queue = ap (λ q. flattened w.sealed ++ q) p.pending ∙ i.queue;
        submits = p.txs ∙ i.submits;
        seals = p.seals ∙ i.seals;
        tx_ids = i.tx_ids;
        batch_ids = i.batch_ids;
        sizes = i.sizes;
        no_batches = p.batches ∙ i.no_batches;
        counts = omega (
          arith,
          p.proofs,
          i.counts,
          ap length e,
          length-append before ((id, txs) ∷ after),
          length-append before after,
        );
        lost = ended.gone;
        accounted = ended.accounted;
      }

  step-IsOrderly : {w u : World} → Step v w u → IsOrderly w → IsOrderly u
  step-IsOrderly (submit now p w) i = submit-IsOrderly now p w i
  step-IsOrderly (seals now b s w e) i =
      sealing-IsOrderly b s w (sealed_is_drained v now w.state s b e) i
  step-IsOrderly (process r b disk before after w e) i =
      process-IsOrderly r b disk before after w e i

  -- However submissions, sealings and the processing of batches interleave: the sealed batches, one
  -- after the other, and then the queue, are the submitted transactions in their order; transactions
  -- and batches are named by their counters, which count them modulo 2 ^ 64; no batch is larger than
  -- the limit; the names of the sealed batches are, in some order, those of the proofs on record, those of
  -- the batches in flight, and those of batches that were lost, each as often; and the list of batches
  -- stays empty.
  pub reached-IsOrderly : (w : World) → Reaches v initial_world w → IsOrderly w
  reached-IsOrderly w stay = initial-IsOrderly
  reached-IsOrderly w (step p q) = step-IsOrderly q (reached-IsOrderly _ p)
