-- ===== src/Tests/Sealed.antt =====
-- The validator's queue at work, and the delivery of its proof.
use catalyst_svm.Prelude.{
  ◌≡◌, refl, [], ◌∷◌, map, none, some, ok, err, is_ok, false, arith, ap, ◌∙◌,
}
use catalyst_svm.Text.{codes}
use catalyst_svm.Common.Types.{ExecutionTrace}
use catalyst_svm.Executor.{execute_with_transactions}
use catalyst_svm.VerifierNode
use catalyst_svm.Rpc.{replied}
use catalyst_svm.VerifierNode.{VerifierNode, VerifiedBatch, default_state, verify_proof_file}
use catalyst_svm.VerifierNode.Service.{find_batch, look_up_attestation, attestation}
use catalyst_svm.Validator.{
  ValidatorState, SealedBatch, SubmitTxParams, default_validator, submit_transaction, submitted_tx,
  seal, drain,
}
use catalyst_svm.Validator.Batches.{
  Readings, processed_batch, process_batch, produce, executed, joined, after_produce,
  check_and_seal_batch, after_seal, sealed_name,
}
use catalyst_svm.Validator.Steps.{
  World, initial_world, after_submit, after_sealing, after_processing, Reaches, process, submit,
  seals, stay, step,
}
use catalyst_svm.Validator.Queue.{IsOrderly, reached-IsOrderly}
use catalyst_svm.Validator.Names.{AreDistinct, names-AreDistinct}
use catalyst_svm.Validator.Refusals.{IsLost, failed_batch-IsLost}
use catalyst_svm.Validator.Delivery.{checker, IsDelivered, processed_is_verified}
use catalyst_svm.Validator.Attested.{sealed_is_attested}
use catalyst_svm.Tests.Fixtures.{padding, thousandths, good_txs}
use catalyst_svm.Tests.Proofs.{faithful}
use catalyst_svm.Tests.Nodes.{
  validator, readings, no_files, fresh, first_batch, host-RoundTrips, processed,
}

-- What the node reads after the validator has written.
abbrev delivered : VerifierNode.Readings
delivered = record {
  read = (process_batch validator readings first_batch good_txs no_files fresh).disk;
  joined = ok tt;
  elapsed_in_verifier = 3;
  elapsed = 4;
  verify_clock = 9;
  attested_at = 12;
  verified_at = 13;
}

processed_is_verified_example :
    (t : ExecutionTrace) × (execute_with_transactions validator.executor
        (processed_batch 1000 1000 first_batch good_txs)
        good_txs
      ≡ ok t)
    × IsDelivered validator faithful host-RoundTrips
        (codes "verifier_1")
        first_batch
        good_txs
        t
        default_state
        (verify_proof_file
          (checker validator faithful host-RoundTrips (codes "verifier_1"))
          delivered
          first_batch
          default_state)
processed_is_verified_example =
    processed_is_verified validator faithful host-RoundTrips (codes "verifier_1") readings
      first_batch good_txs no_files fresh delivered default_state (processed fresh) refl refl

abbrev pub params : SubmitTxParams
params = record {
  sender = codes "alice";
  program_id = codes "program";
  instruction_data = 3 ∷ [];
  priority = some (codes "high");
}

-- One transaction is submitted, and sealed six seconds later.
abbrev one_waits : World
one_waits = after_submit 5 params initial_world

abbrev one_sealed : World
one_sealed = after_sealing (drain 10 one_waits.state).0 (drain 10 one_waits.state).1 one_waits

seals_one :
    seal validator 6005 one_waits.state
    ≡ (some (drain 10 one_waits.state).0, (drain 10 one_waits.state).1)
unfolding seal submit_transaction submitted_tx default_validator
seals_one = refl

path : Reaches validator initial_world one_sealed
path =
    step (step stay (submit 5 params initial_world))
      (seals 6005 (drain 10 one_waits.state).0 (drain 10 one_waits.state).1 one_waits seals_one)

-- The batch is processed.
abbrev one_processed : World
one_processed =
    after_processing validator readings (drain 10 one_waits.state).0 no_files [] one_sealed

reached-IsOrderly_example : IsOrderly validator one_processed
reached-IsOrderly_example =
    reached-IsOrderly validator one_processed
      (step path (process readings (drain 10 one_waits.state).0 no_files [] [] one_sealed refl))

names-AreDistinct_example :
    AreDistinct (map (λ t. t.tx_id) one_sealed.submitted)
    × AreDistinct (map (λ b. b.0) one_sealed.sealed)
names-AreDistinct_example = names-AreDistinct validator one_sealed path (omega arith) (omega arith)

-- The proving task panics.
abbrev panicking : Readings
panicking = record readings { now = 6005; joined = err (codes "panicked") }

abbrev sealed_batch : SealedBatch
sealed_batch = (drain 10 one_waits.state).0

fails :
    is_ok
      (process_batch validator panicking sealed_batch.0 sealed_batch.1 no_files
        (drain 10 one_waits.state).1).result
    ≡ false
unfolding process_batch produce executed joined after_produce execute_with_transactions
fails = refl

failed_batch-IsLost_example :
    ((check_and_seal_batch validator panicking no_files one_waits.state).0 ≡ none)
    × IsLost validator sealed_batch.1 one_waits.state
        (check_and_seal_batch validator panicking no_files one_waits.state).2
failed_batch-IsLost_example =
    failed_batch-IsLost validator panicking no_files one_waits.state (drain 10 one_waits.state).1
      sealed_batch.0 sealed_batch.1 seals_one fails

-- The sample batch waits, and is sealed.
abbrev pub waiting : ValidatorState
waiting = record fresh { pending_txs = good_txs }

abbrev drained : ValidatorState
drained = record fresh { batch_counter = 1 }

seals_batch : seal validator 6000 waiting ≡ (some (first_batch, good_txs), drained)
unfolding seal drain
seals_batch = refl

named : (check_and_seal_batch validator readings no_files waiting).0 ≡ some first_batch
unfolding check_and_seal_batch after_seal
named =
    ap (λ o. (after_seal validator readings o no_files).0) seals_batch
    ∙ ap (sealed_name validator first_batch) (processed drained)

abbrev served : VerifierNode.Readings
served = record delivered { read = (check_and_seal_batch validator readings no_files waiting).1 }

abbrev checks : VerifierNode
checks = checker validator faithful host-RoundTrips (codes "verifier_1")

none_verified : find_batch first_batch default_state.verified_batches ≡ none
unfolding find_batch
none_verified = refl

sealed_is_attested_example :
    (batch : VerifiedBatch) × ((verify_proof_file checks served first_batch default_state).0
      ≡ ok batch)
    × (batch.batch_id ≡ first_batch)
    × (look_up_attestation 1
          (some first_batch)
          (verify_proof_file checks served first_batch default_state).1
        ≡ replied 1 (attestation batch.attestation))
sealed_is_attested_example =
    sealed_is_attested validator faithful host-RoundTrips (codes "verifier_1") readings first_batch
      no_files waiting served default_state
      (verify_proof_file checks served first_batch default_state).1 named refl refl none_verified
      VerifierNode.Steps.stay
