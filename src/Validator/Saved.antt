-- ===== src/Validator/Saved.antt =====
-- What a batch that was processed leaves in the directory.
use catalyst_svm.Prelude.{
  ℕ, ◌≡◌, ◌≢◌, refl, sym, ◌∙◌, ap, subst, List, Bool-cases, inl, inr, Result, ok, err, ok_of_bind,
}
use catalyst_svm.Prelude.Float.{Float}
use catalyst_svm.Text.{Text, text_eq}
use catalyst_svm.Text.Order.{text_eq_refl, text_eq_iff}
use catalyst_svm.Common.Types.{Transaction, ExecutionTrace, Proof}
use catalyst_svm.Common.Errors.{ExecError, ProveError}
use catalyst_svm.Common.Hashing.{Hasher}
use catalyst_svm.Common.Clock.{new_clock}
use catalyst_svm.Executor.{execute_with_transactions}
use catalyst_svm.Prover.{prove}
use catalyst_svm.Host.{Disk, write_file}
use catalyst_svm.Validator.{Validator, ValidatorState}
use catalyst_svm.Validator.Batches.{
  Readings, processed_batch, proved, joined, executed, produce, encode, write_as, write_trace,
  write_both, save_proof, push_proof, after_save, after_produce, process_batch, proof_path,
  trace_path,
}

-- A file reads back what was written to it, and the others are as they were.
pub read-write_self :
    (path : Text) (bytes : List ℕ) (disk : Disk) → write_file path bytes disk path ≡ ok bytes
unfolding write_file
read-write_self path bytes disk = rw (text_eq_refl path) refl

pub read-write_other :
    (path other : Text) (bytes : List ℕ) (disk : Disk)
    → other ≢ path
    → write_file path bytes disk other ≡ disk other
unfolding write_file
read-write_other path other bytes disk n = elim (Bool-cases (text_eq other path)) [
  | inl same ↦ absurd (n ((text_eq_iff other path).0 same))
  | inr differ ↦ rw differ refl
]

write_as_ok :
    (w : Result Text (Unit {0})) (spoiled : Disk → Disk) (path : Text) (bytes : List ℕ)
    (disk : Disk)
    → (write_as w spoiled path bytes disk).0 ≡ ok tt
    → write_as w spoiled path bytes disk ≡ (ok tt, write_file path bytes disk)
unfolding write_file
write_as_ok (ok _) spoiled path bytes disk e = refl
write_as_ok (err x) spoiled path bytes disk e = cc e

module _ ⦃h : Hasher⦄ ⦃f : Float⦄ (v : Validator) where
  write_trace_ok :
      (r : Readings) (id : Text) (bytes : List ℕ) (o : Result Text (Unit {0}) × Disk)
      → (write_trace v r id bytes o).0 ≡ ok tt
      → (o.0 ≡ ok tt) × ((write_trace v r id bytes o).1 ≡ write_file (trace_path v id) bytes o.1)
  write_trace_ok r id bytes (err x, disk) e = cc e
  write_trace_ok r id bytes (ok _, disk) e = (
    refl,
    ap (λ o. o.1)
        (write_as_ok (r.written (trace_path v id)) r.spoiled (trace_path v id) bytes disk e),
  )

  -- The two files, as they were written.
  pub record AreWritten (id : Text) (proof : Proof) (trace : ExecutionTrace) (before after : Disk)
      : Type 0 where
    pub proof_bytes : List ℕ
    pub trace_bytes : List ℕ
    pub proof_encoded : v.host.serialize_proof proof ≡ ok proof_bytes
    pub trace_encoded : v.host.trace_to_vec_pretty trace ≡ ok trace_bytes
    pub written :
        after
        ≡ write_file (trace_path v id) trace_bytes (write_file (proof_path v id) proof_bytes before)

  save_ok :
      (r : Readings) (id : Text) (proof : Proof) (trace : ExecutionTrace) (disk : Disk)
      → (o : Result Text (List ℕ × List ℕ)) → encode v proof trace ≡ o
      → (write_both v r id o disk).0 ≡ ok tt
      → AreWritten id proof trace disk (write_both v r id o disk).1
  unfolding encode
  save_ok r id proof trace disk (err x) enc e = cc e
  save_ok r id proof trace disk (ok (pb, tb)) enc e =
      let (pb', p_enc, rest) = ok_of_bind (v.host.serialize_proof proof) _ enc in
      let (tb', t_enc, pair) = ok_of_bind (v.host.trace_to_vec_pretty trace) _ rest in
      let first = write_as (r.written (proof_path v id)) r.spoiled (proof_path v id) pb disk in
      let (first_ok, second) = write_trace_ok r id tb first e in
      let wrote =
        write_as_ok (r.written (proof_path v id)) r.spoiled (proof_path v id) pb disk first_ok in
      record {
        proof_bytes = pb;
        trace_bytes = tb;
        proof_encoded = cc (p_enc, pair);
        trace_encoded = cc (t_enc, pair);
        written = second ∙ ap (λ o. write_file (trace_path v id) tb o.1) wrote;
      }

  proved_ok :
      (trace : ExecutionTrace) (made : Result ProveError Proof) {proof : Proof} {t : ExecutionTrace}
      → proved v trace made ≡ ok (proof, t)
      → (made ≡ ok proof) × (trace ≡ t)
  unfolding proved
  proved_ok trace (err x) e = cc e
  proved_ok trace (ok p) e = (cc e, cc e)

  joined_ok :
      (j : Result Text (Unit {0})) (trace : ExecutionTrace) (made : Result ProveError Proof)
      {proof : Proof} {t : ExecutionTrace}
      → joined v j trace made ≡ ok (proof, t)
      → (made ≡ ok proof) × (trace ≡ t)
  unfolding joined
  joined_ok (err x) trace made e = cc e
  joined_ok (ok _) trace made e = proved_ok trace made e

  executed_ok :
      (r : Readings) (txs : List Transaction) (ran : Result ExecError ExecutionTrace)
      {proof : Proof} {t : ExecutionTrace}
      → executed v r txs ran ≡ ok (proof, t)
      → (ran ≡ ok t) × ((prove v.sdk r.elapsed t txs (new_clock r.prove_clock)).0 ≡ ok proof)
  unfolding executed
  executed_ok r txs (err x) e = cc e
  executed_ok r txs (ok trace) {proof} e =
      let made = (prove v.sdk r.elapsed trace txs (new_clock r.prove_clock)).0 in
      let (proves, same) = joined_ok r.joined trace made e in
      (
        ap ok same,
        subst (λ t. (prove v.sdk r.elapsed t txs (new_clock r.prove_clock)).0 ≡ ok proof) same
            proves,
      )

  -- A batch that went through: its trace, its proof, and the two files.
  pub record WentThrough (r : Readings) (id : Text) (txs : List Transaction) (before after : Disk)
      : Type 0 where
    pub proof : Proof
    pub trace : ExecutionTrace
    pub executed :
        execute_with_transactions v.executor (processed_batch r.started_at r.sealed_at id txs) txs
        ≡ ok trace
    pub proved : (prove v.sdk r.elapsed trace txs (new_clock r.prove_clock)).0 ≡ ok proof
    pub written : AreWritten proof.batch_id proof trace before after

  after_save_ok :
      (r : Readings) (id : Text) (proof : Proof) (o : Result Text (Unit {0}) × Disk)
      (s : ValidatorState)
      → (after_save v r id proof o s).result ≡ ok tt
      → (o.0 ≡ ok tt) × ((after_save v r id proof o s).disk ≡ o.1)
  unfolding push_proof
  after_save_ok r id proof (err x, disk) s e = cc e
  after_save_ok r id proof (ok _, disk) s e = (refl, refl)

  after_produce_ok :
      (r : Readings) (id : Text) (txs : List Transaction) (o : Result Text (Proof × ExecutionTrace))
      (disk : Disk) (s : ValidatorState)
      → produce v r id txs ≡ o
      → (after_produce v r id o disk s).result ≡ ok tt
      → WentThrough r id txs disk (after_produce v r id o disk s).disk
  unfolding after_produce save_proof produce
  after_produce_ok r id txs (err x) disk s made e = cc e
  after_produce_ok r id txs (ok (proof, trace)) disk s made e =
      let ran =
        execute_with_transactions v.executor (processed_batch r.started_at r.sealed_at id txs)
          txs in
      let (runs, proves) = executed_ok r txs ran made in
      let o = write_both v r proof.batch_id (encode v proof trace) disk in
      let (saved, same) = after_save_ok r id proof o s e in
      record {
        proof = proof;
        trace = trace;
        executed = runs;
        proved = proves;
        written =
            subst (AreWritten proof.batch_id proof trace disk) (sym same)
              (save_ok r proof.batch_id proof trace disk (encode v proof trace) refl saved);
      }

  pub process_ok :
      (r : Readings) (id : Text) (txs : List Transaction) (disk : Disk) (s : ValidatorState)
      → (process_batch v r id txs disk s).result ≡ ok tt
      → WentThrough r id txs disk (process_batch v r id txs disk s).disk
  unfolding process_batch
  process_ok r id txs disk s e = after_produce_ok r id txs (produce v r id txs) disk s refl e
