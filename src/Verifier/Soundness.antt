-- ===== src/Verifier/Soundness.antt =====
-- What a verification that passes means, and that a proof that was made passes.
use catalyst_svm.Prelude.{
  ℕ, ◌≡◌, refl, sym, ◌∙◌, List, [], map, Option, none, some, true, Result, ok, err, ok_of_bind,
  ok_of_map_err, map_err, ==_iff, ==_refl, arith,
}
use catalyst_svm.Text.{Text}
use catalyst_svm.Text.Order.{text_eq_iff, text_eq_refl}
use catalyst_svm.Common.Types.{Transaction, ExecutionTrace, Proof, VerificationResult}
use catalyst_svm.Common.Errors.{ProveError, VerifyError}
use catalyst_svm.Common.Hashing.{Hasher}
use catalyst_svm.Common.Clock.{VirtualClock}
use catalyst_svm.Common.Merkle
use catalyst_svm.Trace
use catalyst_svm.Executor.{State}
use catalyst_svm.Guest.{
  SerializableTransaction, ExecutionTraceInput, PublicInputs, main, execute_loop,
}
use catalyst_svm.Prover.{
  Sdk, IsFaithful, serializable, trace_input, prove_with_transactions, proof_bytes,
}
use catalyst_svm.Prover.Acceptance.{main-Claims}
use catalyst_svm.Verifier.{mismatch, result_of, judge, opened, concluded, verify}

-- The public inputs say of the trace what the verifier compares.
pub record Matches (p : PublicInputs) (trace : ExecutionTrace) : Type 0 where
  pub hash : p.trace_hash ≡ trace.trace_hash
  pub pre : p.state_root_pre ≡ trace.state_root_pre
  pub post : p.state_root_post ≡ trace.state_root_post
  pub compute : p.total_compute ≡ trace.total_compute

mismatch-none :
    (p : PublicInputs) (trace : ExecutionTrace) → mismatch p trace ≡ none → Matches p trace
unfolding mismatch
mismatch-none p trace e = record {
  hash = ground (arith, text_eq_iff p.trace_hash trace.trace_hash);
  pre = ground (arith, text_eq_iff p.state_root_pre trace.state_root_pre);
  post = ground (arith, text_eq_iff p.state_root_post trace.state_root_post);
  compute = ground (arith, ==_iff p.total_compute trace.total_compute);
}

none_of_Matches :
    (p : PublicInputs) (trace : ExecutionTrace) → Matches p trace → mismatch p trace ≡ none
unfolding mismatch
none_of_Matches p trace m =
    rw
      (
        m.hash,
        m.pre,
        m.post,
        m.compute,
        text_eq_refl trace.trace_hash,
        text_eq_refl trace.state_root_pre,
        text_eq_refl trace.state_root_post,
        ==_refl trace.total_compute,
      )
      refl

result_of_valid :
    (id : Text) (elapsed : ℕ) (o : Option Text)
    → (result_of id elapsed o).is_valid ≡ true
    → o ≡ none
result_of_valid id elapsed none e = refl
result_of_valid id elapsed (some m) e = cc e

module _ (sdk : Sdk) where
  judge-none :
      (r : Result Text (Unit {0})) (p : sdk.ProofWithPublicValues) (trace : ExecutionTrace)
      → judge sdk r p trace ≡ none
      → (r ≡ ok tt) × Matches (sdk.public_values p) trace
  judge-none (ok tt) p trace e = (refl, mismatch-none (sdk.public_values p) trace e)
  judge-none (err m) p trace e = cc e

  concluded_valid :
      (elapsed : ℕ) (id : Text) (trace : ExecutionTrace) (clock : VirtualClock)
      (o : Result VerifyError sdk.ProofWithPublicValues) {r : VerificationResult}
      → (concluded sdk elapsed id trace clock o).0 ≡ ok r
      → r.is_valid ≡ true
      → (p : sdk.ProofWithPublicValues) × (judge sdk (sdk.verify p) p trace ≡ none)
  concluded_valid elapsed id trace clock (err m) e valid = cc e
  concluded_valid elapsed id trace clock (ok p) e valid =
      (p, result_of_valid id elapsed (judge sdk (sdk.verify p) p trace) (cc (e, valid)))

-- A run of the guest that the trace describes: it starts in the state of the trace's first root,
-- ends in a state of its last root, and counts its compute units.
pub record IsRun ⦃h : Hasher⦄ (trace : ExecutionTrace) : Type 0 where
  pub transactions : List SerializableTransaction
  pub initial_state : State
  pub pre : Trace.compute_state_root initial_state ≡ trace.state_root_pre
  pub post :
      Trace.compute_state_root (execute_loop transactions initial_state 0 []).0
      ≡ trace.state_root_post
  pub hash : Merkle.merkle_root (execute_loop transactions initial_state 0 []).2 ≡ trace.trace_hash
  pub compute : (execute_loop transactions initial_state 0 []).1 ≡ trace.total_compute

IsRun-of_Claims :
    ⦃h : Hasher⦄ (i : ExecutionTraceInput) (txs : List SerializableTransaction) (s : State)
    (p : PublicInputs) (trace : ExecutionTrace)
    → main i txs s ≡ ok p
    → Matches p trace
    → IsRun trace
IsRun-of_Claims i txs s p trace accepted m =
    let c = main-Claims i txs s p accepted in
    record {
      transactions = txs;
      initial_state = s;
      pre = sym c.pre_computed ∙ m.pre;
      post = sym c.post_computed ∙ m.post;
      hash = sym c.hash_computed ∙ m.hash;
      compute = sym c.compute_computed ∙ m.compute;
    }

module _ ⦃h : Hasher⦄ (sdk : Sdk) (faithful : IsFaithful sdk) where
  -- With a faithful SDK: if the verification of any proof against a trace says valid, some run of the
  -- guest starts at the trace's first root, ends at its last root, and has its trace hash and its
  -- compute units.
  pub verify-IsRun :
      (elapsed : ℕ) (proof : Proof) (trace : ExecutionTrace) (clock : VirtualClock)
      {r : VerificationResult}
      → (verify sdk elapsed proof trace clock).0 ≡ ok r
      → r.is_valid ≡ true
      → IsRun trace
  unfolding verify
  verify-IsRun elapsed proof trace clock e valid =
      let (p, judged) =
        concluded_valid sdk elapsed proof.batch_id trace clock (opened sdk proof.proof_data) e
          valid in
      let (passed, m) = judge-none sdk (sdk.verify p) p trace judged in
      let (i, txs, s, accepted) = faithful.verify_sound p passed in
      IsRun-of_Claims i txs s (sdk.public_values p) trace accepted m

  proof_bytes_sound :
      (trace : ExecutionTrace) (txs : List Transaction) (s : State) {bytes : List ℕ}
      → proof_bytes sdk trace txs s ≡ ok bytes
      → (sdk.setup ≡ ok tt)
        × (p : sdk.ProofWithPublicValues) × (sdk.prove (trace_input trace) (map serializable txs) s
            ≡ ok p)
        × (sdk.serialize p ≡ ok bytes)
  unfolding proof_bytes
  proof_bytes_sound trace txs s e =
      let (_, set_up, rest) = ok_of_bind (map_err ProveError.internal sdk.setup) _ e in
      let (p, made, serial) =
        ok_of_bind
          (map_err ProveError.internal (sdk.prove (trace_input trace) (map serializable txs) s)) _
          rest in
      (
        ok_of_map_err ProveError.internal sdk.setup set_up,
        p,
        ok_of_map_err ProveError.internal (sdk.prove (trace_input trace) (map serializable txs) s)
            made,
        ok_of_map_err ProveError.internal (sdk.serialize p) serial,
      )

  proven :
      (elapsed : ℕ) (trace : ExecutionTrace) (txs : List Transaction) (s : State)
      (clock : VirtualClock) {proof : Proof}
      → (prove_with_transactions sdk elapsed trace txs s clock).0 ≡ ok proof
      → (proof_bytes sdk trace txs s ≡ ok proof.proof_data) × (proof.batch_id ≡ trace.batch_id)
  unfolding prove_with_transactions
  proven elapsed trace txs s clock e = ground arith

  opened_bytes :
      (p : sdk.ProofWithPublicValues) (bytes : List ℕ)
      → sdk.setup ≡ ok tt
      → sdk.serialize p ≡ ok bytes
      → opened sdk bytes ≡ ok p
  unfolding opened
  opened_bytes p bytes set_up e = rw (faithful.deserialize-serialize p bytes e, set_up) refl

  -- With a faithful SDK: a proof that the prover makes of a trace is accepted by the verifier against
  -- that trace, at any later time and without an error.
  pub proved_is_valid :
      (elapsed elapsed' : ℕ) (trace : ExecutionTrace) (txs : List Transaction) (s : State)
      (clock clock' : VirtualClock) {proof : Proof}
      → (prove_with_transactions sdk elapsed trace txs s clock).0 ≡ ok proof
      → (verify sdk elapsed' proof trace clock').0 ≡ ok (result_of trace.batch_id elapsed' none)
  unfolding verify
  proved_is_valid elapsed elapsed' trace txs s clock clock' {proof} e =
      let (bytes, id) = proven elapsed trace txs s clock e in
      let (set_up, p, made, serial) = proof_bytes_sound trace txs s bytes in
      let c =
        main-Claims (trace_input trace) (map serializable txs) s (sdk.public_values p)
          (faithful.prove_sound (trace_input trace) (map serializable txs) s p made) in
      let m : mismatch (sdk.public_values p) trace ≡ none =
        none_of_Matches (sdk.public_values p) trace (record {
          hash = c.hash_claimed;
          pre = c.pre_claimed;
          post = c.post_claimed;
          compute = c.compute_claimed;
        }) in
      let passed = faithful.prove_complete (trace_input trace) (map serializable txs) s p made in
      rw (opened_bytes p proof.proof_data set_up serial, passed, m, id) refl
