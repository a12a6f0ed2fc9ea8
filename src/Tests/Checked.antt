-- ===== src/Tests/Checked.antt =====
-- The verifier node at work.
use catalyst_svm.Prelude.{
  ◌≡◌, refl, ap, List, [], ◌∷◌, none, some, ok, map_err, ◌++◌, is_ok, true, false, All, ◌⊎◌,
}
use catalyst_svm.Text.{codes}
use catalyst_svm.Text.Order.{text_ord}
use catalyst_svm.OrderedMap.{get}
use catalyst_svm.Common.Types.{ProofCommitment}
use catalyst_svm.Common.Errors.{show_verify_error}
use catalyst_svm.Verifier.{result_of}
use catalyst_svm.VerifierNode.{
  VerifierNode, VerifierState, ProofMessage, Readings, default_state, verification,
  after_verification, concluded_by, verify_proof, load, after_load, verify_proof_file,
  verified_batch,
}
use catalyst_svm.VerifierNode.Service.{handle_proof_broadcast}
use catalyst_svm.VerifierNode.Polling.{Entry, poll_pass, poll_pass_once}
use catalyst_svm.VerifierNode.Steps.{conclude, stay, step}
use catalyst_svm.VerifierNode.Invariant.{IsProved, reached-IsProved}
use catalyst_svm.VerifierNode.Outcomes.{IsSameChain, HasEntered, broadcast_outcomes}
use catalyst_svm.VerifierNode.Commitments.{IsForged, commitment_trusted}
use catalyst_svm.Tests.Fixtures.{padding}
use catalyst_svm.Tests.Proofs.{sdk, trace, proof, faithful, verifies}
use catalyst_svm.Tests.Nodes.{host, no_files, first_batch}

abbrev pub node : VerifierNode
node = record { sdk = sdk; host = host; proof_dir = codes "proofs"; node_id = codes "verifier_1" }

-- Every file is there, and decodes to the one proof and the one trace.
abbrev pub present : Readings
present = record {
  read = λ path. ok [];
  joined = ok tt;
  elapsed_in_verifier = 3;
  elapsed = 4;
  verify_clock = 9;
  attested_at = 12;
  verified_at = 13;
}

abbrev absent : Readings
absent = record present { read = no_files }

verified_valid : verification node present proof trace ≡ ok (result_of trace.batch_id 3 none)
unfolding verification
verified_valid = ap (map_err (λ e. codes "Verification error: " ++ show_verify_error e)) verifies

accepts :
    (s : VerifierState)
    → (verify_proof node present proof trace s).0 ≡ ok (verified_batch node present proof)
unfolding verify_proof after_verification concluded_by
accepts s =
    ap (λ o. (after_verification node o (verified_batch node present proof) s).0) verified_valid

accepts_file :
    (s : VerifierState)
    → (verify_proof_file node present first_batch s).0 ≡ ok (verified_batch node present proof)
unfolding verify_proof_file load after_load
accepts_file s = accepts s

abbrev after_one : VerifierState
after_one = (verify_proof node present proof trace default_state).1

reached-IsProved_example : All (IsProved node) after_one.verified_batches
reached-IsProved_example =
    reached-IsProved node faithful after_one
      (step stay (conclude present proof trace default_state))

-- Another end of the chain.
abbrev forged : ProofCommitment
forged = record proof.commitment { state_root_post = codes "root of my choice"; tx_count = 1000 }

commitment_trusted_example :
    IsForged node forged
      (verify_proof node present (record proof { commitment = forged }) trace after_one)
commitment_trusted_example =
    commitment_trusted node present proof trace default_state (ap is_ok (accepts default_state))
      forged after_one

abbrev pub msg : ProofMessage
msg = record {
  msg_type = codes "proof";
  batch_id = first_batch;
  proof_hash = proof.proof_hash;
  commitment = proof.commitment;
  proof_size = 0;
}

-- The files are absent, so that the message stays pending.
broadcast_outcomes_example :
    ((is_ok (handle_proof_broadcast node absent msg default_state).0 ≡ true)
      × HasEntered node first_batch default_state
          (handle_proof_broadcast node absent msg default_state).1)
    ⊎ ((is_ok (handle_proof_broadcast node absent msg default_state).0 ≡ false)
        × IsSameChain node default_state (handle_proof_broadcast node absent msg default_state).1
        × (get
              (handle_proof_broadcast node absent msg default_state).1.pending_verifications
              first_batch
            ≡ some msg))
broadcast_outcomes_example = broadcast_outcomes node absent msg default_state tt

-- The file is absent at first, and there at the second pass.
abbrev first_pass : List Entry
first_pass = (first_batch, absent) ∷ []

abbrev second_pass : List Entry
second_pass = (first_batch, present) ∷ []

poll_pass_once_example :
    poll_pass node second_pass (poll_pass node first_pass ([], default_state))
    ≡ poll_pass node first_pass ([], default_state)
poll_pass_once_example = poll_pass_once node first_pass second_pass ([], default_state) refl
