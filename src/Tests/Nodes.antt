-- ===== src/Tests/Nodes.antt =====
-- A validator over a directory whose encodings know one proof and one trace.
use native.Mathlib.Decide.{ℕ_discrete}
use catalyst_svm.Prelude.{
  ℕ, ◌≡◌, refl, ap, ◌∙◌, sym, List, [], none, some, Result, ok, err, ok_not_err,
}
use catalyst_svm.Text.{Text, codes}
use catalyst_svm.Common.Types.{ExecutionTrace, Proof}
use catalyst_svm.Common.Clock.{new_clock}
use catalyst_svm.Executor.{execute_with_transactions}
use catalyst_svm.Prover.{prove}
use catalyst_svm.Host.{Host, Disk, RoundTrips}
use catalyst_svm.Validator.{Validator, ValidatorState, PolicyType, new_validator}
use catalyst_svm.Validator.Batches.{
  Readings, processed_batch, produce, executed, joined, proved, encode, save_proof, write_both,
  push_proof, after_save, after_produce, process_batch,
}
use catalyst_svm.Tests.Fixtures.{padding, thousandths, good_txs}
use catalyst_svm.Tests.Batches.{trace_of, x}
use catalyst_svm.Tests.Proofs.{sdk, trace, proof, proves}

pub trace-discrete : Discrete ExecutionTrace
trace-discrete = hlevel (ℕ_discrete)

pub proof-discrete : Discrete Proof
proof-discrete = hlevel (ℕ_discrete)

-- The encoding of the one value that is known.
abbrev pub encoded : {A : Type 0} {a b : A} → Dec (a ≡ b) → Result Text (List ℕ)
encoded (yes _) = ok []
encoded (no _) = err []

encoded_sound :
    {A : Type 0} {a b : A} (d : Dec (a ≡ b)) {bytes : List ℕ} → encoded d ≡ ok bytes → a ≡ b
encoded_sound (yes same) e = same
encoded_sound (no _) {bytes} e = absurd (ok_not_err (err []) bytes [] e refl)

encoded_complete : {A : Type 0} {a b : A} (d : Dec (a ≡ b)) → a ≡ b → encoded d ≡ ok []
encoded_complete (yes _) same = refl
encoded_complete (no differ) same = absurd (differ same)

abbrev pub host : Host
host = record {
  extension = λ path. some (codes "proof");
  file_stem = λ path. some path;
  serialize_proof = λ p. encoded (proof-discrete p proof);
  deserialize_proof = λ bytes. ok proof;
  trace_to_vec_pretty = λ t. encoded (trace-discrete t trace);
  trace_from_slice = λ bytes. ok trace;
}

pub host-RoundTrips : RoundTrips host
host-RoundTrips = record {
  proof = λ p bytes e. ap ok (sym (encoded_sound (proof-discrete p proof) e));
  trace = λ t bytes e. ap ok (sym (encoded_sound (trace-discrete t trace) e));
}

abbrev pub validator : Validator
validator = new_validator sdk host (record {
  proof_dir = codes "proofs";
  policy = PolicyType.hybrid;
  batch_size = 10;
  batch_timeout_ms = 5000;
  broadcast_addr = none;
})

abbrev pub readings : Readings
readings = record {
  now = 6000;
  started_at = 1000;
  sealed_at = 1000;
  joined = ok tt;
  elapsed = 7;
  prove_clock = 0;
  timestamp = 1007;
  written = λ path. ok tt;
  spoiled = λ disk. disk;
}

abbrev pub no_files : Disk
no_files path = err (codes "no such file")

abbrev pub fresh : ValidatorState
fresh = record {
  pending_txs = [];
  batches = [];
  proofs = [];
  state = [];
  tx_counter = 0;
  batch_counter = 0;
}

abbrev pub first_batch : Text
first_batch = codes "batch_000001"

runs :
    execute_with_transactions x (processed_batch 1000 1000 first_batch good_txs) good_txs ≡ ok trace
unfolding execute_with_transactions trace_of
runs = refl

made : (prove sdk 7 trace good_txs (new_clock 0)).0 ≡ ok proof
unfolding prove
made = proves

produced : produce validator readings first_batch good_txs ≡ ok (proof, trace)
unfolding produce executed joined proved
produced = ap (executed validator readings good_txs) runs ∙ ap (proved validator trace) made

encodes : encode validator proof trace ≡ ok ([], [])
unfolding encode
encodes =
    rw
      (
        encoded_complete (proof-discrete proof proof) refl,
        encoded_complete (trace-discrete trace trace) refl,
      )
      refl

-- The batch goes through, and its record is kept.
pub processed :
    (s : ValidatorState)
    → (process_batch validator readings first_batch good_txs no_files s).result ≡ ok tt
unfolding process_batch after_produce save_proof push_proof
processed s =
    ap (λ o. (after_produce validator readings first_batch o no_files s).result) produced
    ∙ ap
        (λ o.
          (after_save validator readings first_batch proof
            (write_both validator readings proof.batch_id o no_files) s).result)
        encodes
