-- ===== src/VerifierNode/Invariant.antt =====
-- What holds of every state that the verifier node reaches.
use catalyst_svm.Prelude.{
  ◌≡◌, refl, sym, List, [], ◌∷◌, ◌++◌, length, length-append, arith, Option, true, false, Result,
  ok, err, wrap64, All, All-append, Bool, ok_of_bind, ok_of_map_err, map_err,
}
use catalyst_svm.Text.{Text, codes}
use catalyst_svm.Common.Types.{ExecutionTrace, Proof, VerificationResult}
use catalyst_svm.Common.Errors.{show_verify_error}
use catalyst_svm.Common.Hashing.{Hasher}
use catalyst_svm.Common.Clock.{new_clock}
use catalyst_svm.Prover.{IsFaithful}
use catalyst_svm.Verifier.{verify}
use catalyst_svm.Verifier.Soundness.{IsRun, verify-IsRun}
use catalyst_svm.VerifierNode.{
  VerifierNode, VerifierState, VerifiedBatch, Readings, default_state, verified_batch,
  push_verified, count_failure, verification, concluded_by, after_verification, verify_proof,
}
use catalyst_svm.VerifierNode.Service.{add_pending, remove_pending}
use catalyst_svm.VerifierNode.Steps.{Step, Reaches, announce, conclude, forget, stay, step}

-- The root after the last of the verified batches.
unfoldable pub last_root : List VerifiedBatch → Text
last_root [] = codes "genesis"
last_root (b ∷ []) = b.state_root_post
last_root (b ∷ c ∷ rest) = last_root (c ∷ rest)

last_root-append :
    (bs : List VerifiedBatch) (b : VerifiedBatch) → last_root (bs ++ (b ∷ [])) ≡ b.state_root_post
unfolding last_root
last_root-append [] b = refl
last_root-append (a ∷ []) b = refl
last_root-append (a ∷ c ∷ rest) b = last_root-append (c ∷ rest) b

module _ ⦃h : Hasher⦄ (node : VerifierNode) where
  -- A verification that said valid stands behind a verified batch.
  pub record IsBacked (v : VerifiedBatch) : Type 0 where
    pub readings : Readings
    pub proof : Proof
    pub trace : ExecutionTrace
    pub result : VerificationResult
    pub verifies : verification node readings proof trace ≡ ok result
    pub valid : result.is_valid ≡ true
    pub entered : verified_batch node readings proof ≡ v

  pub record IsSound (s : VerifierState) : Type 0 where
    pub counted : s.verification_count ≡ wrap64 (length s.verified_batches)
    pub root : s.current_state_root ≡ last_root s.verified_batches
    pub backed : All IsBacked s.verified_batches

  default-IsSound : IsSound default_state
  unfolding last_root
  default-IsSound = record { counted = omega arith; root = refl; backed = tt }

  push-IsSound :
      (v : VerifiedBatch) (s : VerifierState) → IsBacked v → IsSound s → IsSound (push_verified v s)
  unfolding push_verified
  push-IsSound v s b i = record {
    counted = omega (arith, i.counted, length-append s.verified_batches (v ∷ []));
    root = sym (last_root-append s.verified_batches v);
    backed = All-append IsBacked s.verified_batches (v ∷ []) i.backed (b, tt);
  }

  concluded-IsSound :
      (valid : Bool) (error : Option Text) (v : VerifiedBatch) (s : VerifierState)
      → (valid ≡ true → IsBacked v)
      → IsSound s
      → IsSound (concluded_by node valid error v s).1
  unfolding concluded_by count_failure
  concluded-IsSound false error v s b i = record {
    counted = i.counted;
    root = i.root;
    backed = i.backed;
  }
  concluded-IsSound true error v s b i = push-IsSound v s (b refl) i

  after-IsSound :
      (o : Result Text VerificationResult) (v : VerifiedBatch) (s : VerifierState)
      → ((result : VerificationResult) → o ≡ ok result → result.is_valid ≡ true → IsBacked v)
      → IsSound s
      → IsSound (after_verification node o v s).1
  unfolding after_verification
  after-IsSound (err e) v s b i = i
  after-IsSound (ok result) v s b i =
      concluded-IsSound result.is_valid result.error v s (b result refl) i

  step-IsSound : {s t : VerifierState} → Step node s t → IsSound s → IsSound t
  unfolding verify_proof add_pending remove_pending
  step-IsSound (announce msg s) i = record { counted = i.counted; root = i.root; backed = i.backed }
  step-IsSound (forget id s) i = record { counted = i.counted; root = i.root; backed = i.backed }
  step-IsSound (conclude r proof trace s) i =
      after-IsSound (verification node r proof trace) (verified_batch node r proof) s
        (λ result e v. record {
          readings = r;
          proof = proof;
          trace = trace;
          result = result;
          verifies = e;
          valid = v;
          entered = refl;
        })
        i

  -- However the handlers' writes interleave, from the default state: the count is the number of the
  -- verified batches (modulo 2 ^ 64), the root is the one after the last of them, and each of them was
  -- entered after a verification that said valid.
  pub reached-IsSound : (s : VerifierState) → Reaches node default_state s → IsSound s
  reached-IsSound s stay = default-IsSound
  reached-IsSound s (step p q) = step-IsSound q (reached-IsSound _ p)

  verification_sound :
      (r : Readings) (proof : Proof) (trace : ExecutionTrace) {result : VerificationResult}
      → verification node r proof trace ≡ ok result
      → (verify node.sdk r.elapsed_in_verifier proof trace (new_clock r.verify_clock)).0 ≡ ok result
  unfolding verification
  verification_sound r proof trace e =
      let (_, joined, rest) =
        ok_of_bind (map_err (λ e. codes "Verification task failed: " ++ e) r.joined) _ e in
      ok_of_map_err (λ e. codes "Verification error: " ++ show_verify_error e) _ rest

  -- A verified batch and the run of the guest that was proved when it was entered.
  pub record IsProved (v : VerifiedBatch) : Type 0 where
    pub backed : IsBacked v
    pub run : IsRun backed.trace

  All-IsProved : IsFaithful node.sdk → (bs : List VerifiedBatch) → All IsBacked bs → All IsProved bs
  All-IsProved faithful [] b = tt
  All-IsProved faithful (v ∷ bs) (b, rest) =
      let sound = verification_sound b.readings b.proof b.trace b.verifies in
      let proved : IsProved v = record {
        backed = b;
        run =
            verify-IsRun node.sdk faithful b.readings.elapsed_in_verifier b.proof b.trace
              (new_clock b.readings.verify_clock) sound b.valid;
      } in
      (proved, All-IsProved faithful bs rest)

  -- With a faithful SDK, however the handlers' writes interleave from the default state: the trace that
  -- each verified batch was checked against describes a run of the guest, from its first root to its
  -- last.
  pub reached-IsProved :
      IsFaithful node.sdk
      → (s : VerifierState) → Reaches node default_state s
      → All IsProved s.verified_batches
  reached-IsProved faithful s p =
      All-IsProved faithful s.verified_batches (reached-IsSound s p).backed
