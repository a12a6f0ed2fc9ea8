-- ===== src/Tests/Proofs.antt =====
-- An SDK that computes: it knows one proof, which is that of one run of the guest.
use catalyst_svm.Prelude.{
  ◌≡◌, ◌<◌, refl, ap, List, [], ◌∷◌, map, length, none, Bool, true, Result, ok, err, ◌&&◌,
  if◌then◌else◌, ◌==◌, ==_iff, ==_refl, arith,
}
use catalyst_svm.Text.{Text, text_eq}
use catalyst_svm.Text.Order.{text_eq_iff, text_eq_refl, text_ord}
use catalyst_svm.Common.Types.{Transaction, TraceEntry, ExecutionTrace, Proof}
use catalyst_svm.Common.Clock.{new_clock}
use catalyst_svm.Executor.{State}
use catalyst_svm.Guest.{PublicInputs, Panic, SerializableTransaction, ExecutionTraceInput, main}
use catalyst_svm.Prover.{
  Sdk, IsFaithful, serializable, trace_input, proof_of, proof_bytes, prove_with_transactions,
}
use catalyst_svm.Prover.Acceptance.{accepts, claimed_inputs, initial_state}
use catalyst_svm.Verifier.{verify, result_of}
use catalyst_svm.Verifier.Soundness.{verify-IsRun, proved_is_valid, IsRun}
use catalyst_svm.Tests.Fixtures.{padding, good_txs, batch}
use catalyst_svm.Tests.Batches.{x, trace_of, ran, good_uncharged, good_length}

unfoldable pub inputs_eq : PublicInputs → PublicInputs → Bool
inputs_eq p q =
    text_eq p.batch_id q.batch_id
    && (text_eq p.state_root_pre q.state_root_pre
        && (text_eq p.state_root_post q.state_root_post
            && (text_eq p.trace_hash q.trace_hash
                && ((p.total_compute == q.total_compute) && (p.tx_count == q.tx_count)))))

inputs_eq_refl : (p : PublicInputs) → inputs_eq p p ≡ true
unfolding inputs_eq
inputs_eq_refl p = simp (text_eq_refl, ==_refl)

eq_of_inputs_eq : (p q : PublicInputs) → inputs_eq p q ≡ true → p ≡ q
unfolding inputs_eq
eq_of_inputs_eq p q e =
    let i : p.batch_id ≡ q.batch_id = ground (arith, text_eq_iff p.batch_id q.batch_id) in
    let a : p.state_root_pre ≡ q.state_root_pre =
      ground (arith, text_eq_iff p.state_root_pre q.state_root_pre) in
    let b : p.state_root_post ≡ q.state_root_post =
      ground (arith, text_eq_iff p.state_root_post q.state_root_post) in
    let c : p.trace_hash ≡ q.trace_hash = ground (arith, text_eq_iff p.trace_hash q.trace_hash) in
    let d : p.total_compute ≡ q.total_compute =
      ground (arith, ==_iff p.total_compute q.total_compute) in
    let n : p.tx_count ≡ q.tx_count = ground (arith, ==_iff p.tx_count q.tx_count) in
    λ k. record {
      batch_id = i k;
      state_root_pre = a k;
      state_root_post = b k;
      trace_hash = c k;
      total_compute = d k;
      tx_count = n k;
    }

-- The run ends with these public inputs.
abbrev pub ends_with : PublicInputs → Result Panic PublicInputs → Result Text (Unit {0})
ends_with q (ok p) = if inputs_eq p q then ok tt else err []
ends_with q (err _) = err []

ends_with_sound :
    (q : PublicInputs) (r : Result Panic PublicInputs) → ends_with q r ≡ ok tt → r ≡ ok q
ends_with_sound q (ok p) e = ap ok (eq_of_inputs_eq p q (ground arith))
ends_with_sound q (err _) e = cc e

ends_with_complete :
    (q : PublicInputs) (r : Result Panic PublicInputs) → r ≡ ok q → ends_with q r ≡ ok tt
ends_with_complete q r e = rw (e, inputs_eq_refl q) refl

abbrev pub one_proof : PublicInputs → Sdk
one_proof q = record {
  ProofWithPublicValues = Unit {0};
  setup = ok tt;
  execute = λ i txs s. ends_with q (main i txs s);
  prove = λ i txs s. ends_with q (main i txs s);
  verify = λ proof. ok tt;
  public_values = λ proof. q;
  serialize = λ proof. ok [];
  deserialize = λ bytes. ok tt;
}

one_proof-IsFaithful :
    (i : ExecutionTraceInput) (txs : List SerializableTransaction) (s : State) (q : PublicInputs)
    → main i txs s ≡ ok q
    → IsFaithful (one_proof q)
one_proof-IsFaithful i txs s q ran = record {
  execute_sound = λ j us t e. (q, ends_with_sound q (main j us t) e);
  prove_sound = λ j us t proof e. ends_with_sound q (main j us t) e;
  verify_sound = λ proof e. (i, txs, s, ran);
  prove_complete = λ j us t proof e. refl;
  deserialize-serialize = λ proof bytes e. refl;
}

one_proof-bytes :
    (q : PublicInputs) (t : ExecutionTrace) (txs : List Transaction) (s : State)
    → main (trace_input t) (map serializable txs) s ≡ ok q
    → proof_bytes (one_proof q) t txs s ≡ ok []
unfolding proof_bytes
one_proof-bytes q t txs s ended =
    rw (ends_with_complete q (main (trace_input t) (map serializable txs) s) ended) refl

one_proof-proves :
    (q : PublicInputs) (t : ExecutionTrace) (txs : List Transaction) (s : State)
    (entries : List TraceEntry)
    → main (trace_input t) (map serializable txs) s ≡ ok q
    → entries ≡ t.entries
    → 0 < length entries
    → (prove_with_transactions (one_proof q) 7 t txs s (new_clock 0)).0
      ≡ ok (proof_of (one_proof q) t 7 (new_clock 7) [])
unfolding prove_with_transactions
one_proof-proves q t txs s [] ended e some_entry = absurd (omega arith)
one_proof-proves q t txs s (a ∷ rest) ended e some_entry =
    ground (arith, one_proof-bytes q t txs s ended)

abbrev pub trace : ExecutionTrace
trace = trace_of good_txs

abbrev pub sdk : Sdk
sdk = one_proof (claimed_inputs trace)

accepted :
    main (trace_input trace) (map serializable good_txs) (initial_state good_txs)
    ≡ ok (claimed_inputs trace)
accepted = accepts x refl (omega arith) batch good_txs (ran good_txs) good_uncharged

pub faithful : IsFaithful sdk
faithful =
    one_proof-IsFaithful (trace_input trace) (map serializable good_txs) (initial_state good_txs)
      (claimed_inputs trace) accepted

-- The proof that the prover makes of the sample batch in 7 ms.
abbrev pub proof : Proof
proof = proof_of sdk trace 7 (new_clock 7) []

pub proves :
    (prove_with_transactions sdk 7 trace good_txs (initial_state good_txs) (new_clock 0)).0
    ≡ ok proof
proves =
    one_proof-proves (claimed_inputs trace) trace good_txs (initial_state good_txs) trace.entries
      accepted refl (omega (arith, good_length))

proved_is_valid_example :
    (verify sdk 3 proof trace (new_clock 9)).0 ≡ ok (result_of trace.batch_id 3 none)
proved_is_valid_example =
    proved_is_valid sdk faithful 7 3 trace good_txs (initial_state good_txs) (new_clock 0)
      (new_clock 9) proves

pub verifies : (verify sdk 3 proof trace (new_clock 9)).0 ≡ ok (result_of trace.batch_id 3 none)
verifies =
    proved_is_valid sdk faithful 7 3 trace good_txs (initial_state good_txs) (new_clock 0)
      (new_clock 9) proves

verify-IsRun_example : IsRun trace
verify-IsRun_example = verify-IsRun sdk faithful 3 proof trace (new_clock 9) verifies refl
