-- ===== src/VerifierNode/Commitments.antt =====
-- The commitment beside a proof's bytes, which the node records and nothing compares.
use catalyst_svm.Prelude.{◌≡◌, refl, Bool, Option, true, false, Result, ok, err, is_ok}
use catalyst_svm.Text.{Text}
use catalyst_svm.Common.Types.{ExecutionTrace, Proof, ProofCommitment, VerificationResult}
use catalyst_svm.Common.Hashing.{Hasher}
use catalyst_svm.Verifier.{verify}
use catalyst_svm.VerifierNode.{
  VerifierNode, VerifierState, VerifiedBatch, Readings, verified_batch, push_verified, verification,
  concluded_by, after_verification, verify_proof,
}

module _ ⦃h : Hasher⦄ (node : VerifierNode) where
  -- The verification looks at the proof's bytes and not at the commitment beside them.
  verification_ignores_commitment :
      (r : Readings) (proof : Proof) (trace : ExecutionTrace) (c : ProofCommitment)
      → verification node r (record proof { commitment = c }) trace
        ≡ verification node r proof trace
  unfolding verification verify
  verification_ignores_commitment r proof trace c = refl

  -- The answer for a forged commitment is an entered batch with that commitment's values.
  pub record IsForged (c : ProofCommitment) (o : Result Text VerifiedBatch × VerifierState)
      : Type 0 where
    pub batch : VerifiedBatch
    pub accepted : o.0 ≡ ok batch
    pub pre : batch.state_root_pre ≡ c.state_root_pre
    pub post : batch.state_root_post ≡ c.state_root_post
    pub count : batch.tx_count ≡ c.tx_count
    pub root : o.1.current_state_root ≡ c.state_root_post

  concluded_by-IsForged :
      (r : Readings) (p : Proof) (valid : Bool) (error : Option Text) (w : VerifiedBatch)
      (s s' : VerifierState)
      → is_ok (concluded_by node valid error w s).0 ≡ true
      → IsForged p.commitment (concluded_by node valid error (verified_batch node r p) s')
  unfolding concluded_by push_verified verified_batch
  concluded_by-IsForged r p false error w s s' eq = cc eq
  concluded_by-IsForged r p true error w s s' eq = record {
    batch = verified_batch node r p;
    accepted = refl;
    pre = refl;
    post = refl;
    count = refl;
    root = refl;
  }

  after_verification-IsForged :
      (r : Readings) (p : Proof) (o : Result Text VerificationResult) (w : VerifiedBatch)
      (s s' : VerifierState)
      → is_ok (after_verification node o w s).0 ≡ true
      → IsForged p.commitment (after_verification node o (verified_batch node r p) s')
  unfolding after_verification
  after_verification-IsForged r p (err e) w s s' eq = cc eq
  after_verification-IsForged r p (ok result) w s s' eq =
      concluded_by-IsForged r p result.is_valid result.error w s s' eq

  -- A proof that is accepted in one state is accepted in every state and with any commitment beside its
  -- bytes: the roots and the count of that commitment are entered, and the node moves to its root,
  -- whatever its own root was.
  pub commitment_trusted :
      (r : Readings) (proof : Proof) (trace : ExecutionTrace) (s : VerifierState)
      → is_ok (verify_proof node r proof trace s).0 ≡ true
      → (c : ProofCommitment) (s' : VerifierState)
      → IsForged c (verify_proof node r (record proof { commitment = c }) trace s')
  unfolding verify_proof
  commitment_trusted r proof trace s accepted c s' =
      rw (verification_ignores_commitment r proof trace c) (
        after_verification-IsForged r (record proof { commitment = c })
          (verification node r proof trace) (verified_batch node r proof) s s' accepted)
