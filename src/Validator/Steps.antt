-- ===== src/Validator/Steps.antt =====
-- The validator's tasks as a step relation: a submission and a sealing each hold the lock, and the
-- batches that were sealed are processed after it is released, in any order.
use catalyst_svm.Prelude.{ℕ, List, [], ◌∷◌, ◌++◌, some, ◌≡◌, wrap64, ◌+◌}
use catalyst_svm.Prelude.Float.{Float}
use catalyst_svm.Common.Types.{Transaction}
use catalyst_svm.Common.Hashing.{Hasher}
use catalyst_svm.Host.{Disk}
use catalyst_svm.Validator.{
  Validator, ValidatorState, SubmitTxParams, SealedBatch, submitted_tx, submit_transaction, seal,
  default_validator,
}
use catalyst_svm.Validator.Batches.{Readings, process_batch}

-- The state, the batches that are being processed, and what has happened so far: the transactions
-- that were submitted and the batches that were sealed.
pub record World : Type 0 where
  pub state : ValidatorState
  pub in_flight : List SealedBatch
  pub submitted : List Transaction
  pub sealed : List SealedBatch

abbrev pub initial_world : World
initial_world = record { state = default_validator; in_flight = []; submitted = []; sealed = [] }

abbrev pub after_submit : ℕ → SubmitTxParams → World → World
after_submit now p w = record w {
  state = (submit_transaction now p w.state).1;
  submitted = w.submitted ++ (submitted_tx (wrap64 (w.state.tx_counter + 1)) now p ∷ []);
}

abbrev pub after_sealing : SealedBatch → ValidatorState → World → World
after_sealing b s w = record w {
  state = s;
  in_flight = w.in_flight ++ (b ∷ []);
  sealed = w.sealed ++ (b ∷ []);
}

module _ ⦃h : Hasher⦄ ⦃f : Float⦄ (v : Validator) where
  abbrev pub after_processing : Readings → SealedBatch → Disk → List SealedBatch → World → World
  after_processing r (id, txs) disk others w = record w {
    state = (process_batch v r id txs disk w.state).state;
    in_flight = others;
  }

  pub data Step : World → World → Type 0 where
    submit : (now : ℕ) (p : SubmitTxParams) (w : World) → Step w (after_submit now p w)
    seals :
        (now : ℕ) (b : SealedBatch) (s : ValidatorState) (w : World)
        → seal v now w.state ≡ (some b, s)
        → Step w (after_sealing b s w)
    process :
        (r : Readings) (b : SealedBatch) (disk : Disk) (before after : List SealedBatch) (w : World)
        → w.in_flight ≡ before ++ (b ∷ after)
        → Step w (after_processing r b disk (before ++ after) w)

  pub data Reaches (w : World) : World → Type 0 where
    stay : Reaches w w
    step : {t u : World} → Reaches w t → Step t u → Reaches w u
