-- ===== src/Prover.antt =====
-- The crate `catalyst-sp1-prover` (crates/sp1-prover/src/lib.rs). The zkVM's SDK is not under the
-- sources: `Sdk` lists what the program calls of it, and `IsFaithful` what the SDK documents.
pub mod Agreement
pub mod Acceptance
pub mod Fallback
use catalyst_svm.Prelude.{
  ℕ, ◌≡◌, List, [], ◌∷◌, ◌++◌, map, length, Result, ok, err, map_err, ◌>>=◌, ◌>>◌,
}
use catalyst_svm.Text.{Text, codes}
use catalyst_svm.Text.Order.{text_ord}
use catalyst_svm.Common.Types.{
  Transaction, new_transaction, ExecutionTrace, Proof, ProofCommitment, TransactionId,
}
use catalyst_svm.Common.Errors.{ProveError}
use catalyst_svm.Common.Hashing.{Hasher, hash_bytes, hash_str}
use catalyst_svm.Common.Clock.{VirtualClock, sleep_ms}
use catalyst_svm.Executor.{State, fund}
use catalyst_svm.Guest
use catalyst_svm.Guest.{SerializableTransaction, ExecutionTraceInput, PublicInputs}

-- `From<&Transaction> for SerializableTransaction`
abbrev pub serializable : Transaction → SerializableTransaction
serializable tx = record {
  tx_id = tx.tx_id;
  sender = tx.sender;
  instruction_data = tx.instruction_data;
}

-- `From<&ExecutionTrace> for ExecutionTraceInput`
abbrev pub trace_input : ExecutionTrace → ExecutionTraceInput
trace_input trace = record {
  batch_id = trace.batch_id;
  state_root_pre = trace.state_root_pre;
  state_root_post = trace.state_root_post;
  trace_hash = trace.trace_hash;
  total_compute = trace.total_compute;
  tx_count = length trace.entries;
}

-- The calls of `sp1_sdk` and of `bincode`, with their errors as messages.
pub record Sdk : Type 1 where
  pub ProofWithPublicValues : Type 0
  pub setup : Result Text (Unit {0})
  pub execute : ExecutionTraceInput → List SerializableTransaction → State → Result Text (Unit {0})
  pub prove :
      ExecutionTraceInput → List SerializableTransaction → State → Result Text ProofWithPublicValues
  pub verify : ProofWithPublicValues → Result Text (Unit {0})
  pub public_values : ProofWithPublicValues → PublicInputs
  pub serialize : ProofWithPublicValues → Result Text (List ℕ)
  pub deserialize : List ℕ → Result Text ProofWithPublicValues

-- The SDK runs the guest: it proves only runs that end in a commitment, the commitment is the
-- proof's public values, and a proof that verifies comes from such a run.
pub record IsFaithful ⦃h : Hasher⦄ (sdk : Sdk) : Type 0 where
  pub execute_sound :
      (i : ExecutionTraceInput) (txs : List SerializableTransaction) (s : State)
      → sdk.execute i txs s ≡ ok tt
      → (p : PublicInputs) × (Guest.main i txs s ≡ ok p)
  pub prove_sound :
      (i : ExecutionTraceInput) (txs : List SerializableTransaction) (s : State)
      (proof : sdk.ProofWithPublicValues)
      → sdk.prove i txs s ≡ ok proof
      → Guest.main i txs s ≡ ok (sdk.public_values proof)
  pub verify_sound :
      (proof : sdk.ProofWithPublicValues)
      → sdk.verify proof ≡ ok tt
      → (i : ExecutionTraceInput) × (txs : List SerializableTransaction) × (s : State) × (Guest.main
            i txs s
          ≡ ok (sdk.public_values proof))
  pub prove_complete :
      (i : ExecutionTraceInput) (txs : List SerializableTransaction) (s : State)
      (proof : sdk.ProofWithPublicValues)
      → sdk.prove i txs s ≡ ok proof
      → sdk.verify proof ≡ ok tt
  pub deserialize-serialize :
      (proof : sdk.ProofWithPublicValues) (bytes : List ℕ)
      → sdk.serialize proof ≡ ok bytes
      → sdk.deserialize bytes ≡ ok proof

module _ ⦃h : Hasher⦄ (sdk : Sdk) where
  -- `Sp1Prover::execute_only`
  unfoldable pub execute_only :
      ExecutionTrace → List Transaction → State → Result ProveError (Unit {0})
  execute_only trace txs initial_state =
      map_err ProveError.internal
        (sdk.execute (trace_input trace) (map serializable txs) initial_state)

  -- The commitment that the host writes into the proof.
  abbrev pub commitment_of : ExecutionTrace → ProofCommitment
  commitment_of trace = record {
    batch_hash = hash_str trace.batch_id;
    trace_hash = trace.trace_hash;
    state_root_pre = trace.state_root_pre;
    state_root_post = trace.state_root_post;
    total_compute = trace.total_compute;
    tx_count = length trace.entries;
  }

  -- The proof artifact over the serialized proof; the clock sleeps for the time that proving took.
  abbrev pub proof_of : ExecutionTrace → ℕ → VirtualClock → List ℕ → Proof
  proof_of trace elapsed clock bytes = record {
    batch_id = trace.batch_id;
    proof_data = bytes;
    proof_hash = hash_bytes bytes;
    commitment = commitment_of trace;
    generated_at = clock.current_ms;
    proving_time_ms = elapsed;
    proof_size_bytes = length bytes;
  }

  -- The calls of the SDK after the check of the trace: the bytes of the proof.
  unfoldable pub proof_bytes :
      ExecutionTrace → List Transaction → State → Result ProveError (List ℕ)
  proof_bytes trace txs initial_state = do
    map_err ProveError.internal sdk.setup
    proof ←
        map_err ProveError.internal
          (sdk.prove (trace_input trace) (map serializable txs) initial_state)
    map_err ProveError.internal (sdk.serialize proof)

  -- `Sp1Prover::prove_with_transactions`; `elapsed` is what `Instant` measures. An error leaves the
  -- clock alone.
  unfoldable pub prove_with_transactions :
      ℕ
      → ExecutionTrace
      → List Transaction
      → State
      → VirtualClock
      → Result ProveError Proof × VirtualClock
  unfolding proof_bytes hash_bytes hash_str
  prove_with_transactions elapsed trace txs initial_state clock = elim trace.entries [
    | [] ↦ (err (ProveError.invalid_trace (codes "empty trace")), clock)
    | _ ∷ _ ↦ elim (proof_bytes trace txs initial_state) [
      | err e ↦ (err e, clock)
      | ok bytes ↦
          let later = sleep_ms elapsed clock in (ok (proof_of trace elapsed later bytes), later)
    ]
  ]

-- The transaction that the fallback makes up for an entry: a no-op of the entry's own sender.
abbrev pub reconstructed : TransactionId → Transaction
reconstructed id =
    let tx = new_transaction id (codes "sender_" ++ id) (codes "execute") in
    record tx { instruction_data = 3 ∷ [] }

module _ ⦃h : Hasher⦄ (sdk : Sdk) where
  -- `Prover::prove`: with no transactions, they are made up from the trace.
  unfoldable pub prove :
      ℕ → ExecutionTrace → List Transaction → VirtualClock → Result ProveError Proof × VirtualClock
  unfolding prove_with_transactions fund
  prove elapsed trace [] clock =
      prove_with_transactions sdk elapsed trace (map (λ e. reconstructed e.tx_id) trace.entries)
        (fund [] (map (λ e. codes "sender_" ++ e.tx_id) trace.entries)) clock
  prove elapsed trace (tx ∷ txs) clock =
      prove_with_transactions sdk elapsed trace (tx ∷ txs)
        (fund [] (map (λ t. t.sender) (tx ∷ txs))) clock
