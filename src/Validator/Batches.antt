-- ===== src/Validator/Batches.antt =====
-- The validator's batches after the lock is released: executed, proved, saved and broadcast.
use catalyst_svm.Prelude.{ℕ, List, [], ◌∷◌, ◌++◌, Option, none, some, Result, ok, err, ◌>>=◌, map}
use catalyst_svm.Prelude.Float.{Float}
use catalyst_svm.Text.{Text, codes}
use catalyst_svm.Common.Types.{Transaction, Batch, BatchStatus, new_batch, ExecutionTrace, Proof}
use catalyst_svm.Common.Errors.{ExecError, ProveError, show_exec_error, show_prove_error}
use catalyst_svm.Common.Hashing.{Hasher}
use catalyst_svm.Common.Clock.{new_clock}
use catalyst_svm.Executor.{execute_with_transactions}
use catalyst_svm.Prover.{prove}
use catalyst_svm.Host.{join_path, Disk, write_file}
use catalyst_svm.VerifierNode.{ProofMessage}
use catalyst_svm.Validator.{Validator, ValidatorState, ProofRecord, SealedBatch, seal}

-- What the sealing and the processing of one batch read from outside: the system clock at the five
-- places that look at it, whether the blocking task ended without a panic, the time that proving took, whether a
-- write to a path succeeds, and the files after a write that does not.
pub record Readings : Type 0 where
  pub now : ℕ
  pub started_at : ℕ
  pub sealed_at : ℕ
  pub joined : Result Text (Unit {0})
  pub elapsed : ℕ
  pub prove_clock : ℕ
  pub timestamp : ℕ
  pub written : Text → Result Text (Unit {0})
  pub spoiled : Disk → Disk

-- The batch that is executed.
abbrev pub processed_batch : ℕ → ℕ → Text → List Transaction → Batch
processed_batch started sealed id txs =
    let b = new_batch id started in
    record b { tx_ids = map (λ t. t.tx_id) txs; seal_ts = sealed; status = BatchStatus.sealed }

abbrev pub proof_record : ℕ → Text → Proof → ProofRecord
proof_record now id proof = record {
  batch_id = id;
  proof_hash = proof.proof_hash;
  state_root_pre = proof.commitment.state_root_pre;
  state_root_post = proof.commitment.state_root_post;
  tx_count = proof.commitment.tx_count;
  proving_time_ms = proof.proving_time_ms;
  proof_size_bytes = proof.proof_size_bytes;
  timestamp = now;
}

-- The message of `broadcast_proof`; a connection or a write that fails is only logged.
abbrev pub proof_message : Proof → ProofMessage
proof_message proof = record {
  msg_type = codes "proof";
  batch_id = proof.batch_id;
  proof_hash = proof.proof_hash;
  commitment = proof.commitment;
  proof_size = proof.proof_size_bytes;
}

abbrev pub addressed : Option Text → ProofMessage → Option (Text × ProofMessage)
addressed none msg = none
addressed (some addr) msg = some (addr, msg)

unfoldable pub push_proof : ProofRecord → ValidatorState → ValidatorState
push_proof p s = record s { proofs = s.proofs ++ (p ∷ []) }

-- What `process_batch` leaves: its result, the files, the state, and what it sends to which address.
pub record Processed : Type 0 where
  pub result : Result Text (Unit {0})
  pub disk : Disk
  pub state : ValidatorState
  pub sent : Option (Text × ProofMessage)

-- A write, by whether it succeeds.
abbrev pub write_as :
    Result Text (Unit {0}) → (Disk → Disk) → Text → List ℕ → Disk → Result Text (Unit {0}) × Disk
unfolding write_file
write_as (ok _) spoiled path bytes disk = (ok tt, write_file path bytes disk)
write_as (err e) spoiled path bytes disk = (err e, spoiled disk)

module _ ⦃h : Hasher⦄ ⦃f : Float⦄ (v : Validator) where
  -- The answers of the prover, of its task and of the executor, each with its `?`.
  unfoldable pub proved :
      ExecutionTrace → Result ProveError Proof → Result Text (Proof × ExecutionTrace)
  unfolding show_prove_error
  proved trace (err e) = err (codes "Proving failed: " ++ show_prove_error e)
  proved trace (ok proof) = ok (proof, trace)

  unfoldable pub joined :
      Result Text (Unit {0})
      → ExecutionTrace
      → Result ProveError Proof
      → Result Text (Proof × ExecutionTrace)
  unfolding proved
  joined (err e) trace made = err (codes "Proving task failed: " ++ e)
  joined (ok _) trace made = proved trace made

  unfoldable pub executed :
      Readings
      → List Transaction
      → Result ExecError ExecutionTrace
      → Result Text (Proof × ExecutionTrace)
  unfolding joined prove show_exec_error
  executed r txs (err e) = err (codes "Execution failed: " ++ show_exec_error e)
  executed r txs (ok trace) =
      joined r.joined trace (prove v.sdk r.elapsed trace txs (new_clock r.prove_clock)).0

  -- The executor and the prover over a batch.
  unfoldable pub produce : Readings → Text → List Transaction → Result Text (Proof × ExecutionTrace)
  unfolding execute_with_transactions executed
  produce r id txs =
      executed r txs
        (execute_with_transactions v.executor (processed_batch r.started_at r.sealed_at id txs) txs)

  abbrev pub proof_path : Text → Text
  proof_path id = join_path v.proof_dir (id ++ codes ".proof")

  abbrev pub trace_path : Text → Text
  trace_path id = join_path v.proof_dir (id ++ codes ".trace")

  unfoldable pub encode : Proof → ExecutionTrace → Result Text (List ℕ × List ℕ)
  encode proof trace = do
    proof_bytes ← v.host.serialize_proof proof
    trace_bytes ← v.host.trace_to_vec_pretty trace
    ok (proof_bytes, trace_bytes)

  -- The second write is made only when the first succeeded.
  abbrev pub write_trace :
      Readings → Text → List ℕ → Result Text (Unit {0}) × Disk → Result Text (Unit {0}) × Disk
  write_trace r id bytes (err e, disk) = (err e, disk)
  write_trace r id bytes (ok _, disk) =
      write_as (r.written (trace_path id)) r.spoiled (trace_path id) bytes disk

  abbrev pub write_both :
      Readings → Text → Result Text (List ℕ × List ℕ) → Disk → Result Text (Unit {0}) × Disk
  write_both r id (err e) disk = (err e, disk)
  write_both r id (ok (proof_bytes, trace_bytes)) disk =
      write_trace r id trace_bytes
        (write_as (r.written (proof_path id)) r.spoiled (proof_path id) proof_bytes disk)

  -- `Validator::save_proof`
  unfoldable pub save_proof :
      Readings → Proof → ExecutionTrace → Disk → Result Text (Unit {0}) × Disk
  unfolding encode write_file
  save_proof r proof trace disk = write_both r proof.batch_id (encode proof trace) disk

  abbrev pub after_save :
      Readings → Text → Proof → Result Text (Unit {0}) × Disk → ValidatorState → Processed
  unfolding push_proof
  after_save r id proof (err e, disk) s = record {
    result = err e;
    disk = disk;
    state = s;
    sent = none;
  }
  after_save r id proof (ok _, disk) s = record {
    result = ok tt;
    disk = disk;
    state = push_proof (proof_record r.timestamp id proof) s;
    sent = addressed v.broadcast_addr (proof_message proof);
  }

  unfoldable pub after_produce :
      Readings → Text → Result Text (Proof × ExecutionTrace) → Disk → ValidatorState → Processed
  unfolding save_proof push_proof
  after_produce r id (err e) disk s = record { result = err e; disk = disk; state = s; sent = none }
  after_produce r id (ok (proof, trace)) disk s =
      after_save r id proof (save_proof r proof trace disk) s

  -- `Validator::process_batch`
  unfoldable pub process_batch :
      Readings → Text → List Transaction → Disk → ValidatorState → Processed
  unfolding produce after_produce
  process_batch r id txs disk s = after_produce r id (produce r id txs) disk s

  -- The end of `check_and_seal_batch`: a failure is logged, and its batch is gone.
  abbrev pub sealed_name : Text → Result Text (Unit {0}) → Option Text
  sealed_name id (ok _) = some id
  sealed_name id (err _) = none

  unfoldable pub after_seal :
      Readings → Option SealedBatch × ValidatorState → Disk → Option Text × Disk × ValidatorState
  unfolding process_batch
  after_seal r (none, s) disk = (none, disk, s)
  after_seal r (some (id, txs), s) disk =
      let p = process_batch r id txs disk s in (sealed_name id p.result, p.disk, p.state)

  -- `Validator::check_and_seal_batch`, when nothing else takes the lock in between.
  unfoldable pub check_and_seal_batch :
      Readings → Disk → ValidatorState → Option Text × Disk × ValidatorState
  unfolding seal after_seal
  check_and_seal_batch r disk s = after_seal r (seal v r.now s) disk
