-- ===== src/Verifier/Proving.antt =====
-- The proofs of `Prover::prove`, with the given transactions or with those made up from the trace.
use catalyst_svm.Prelude.{ℕ, ◌≡◌, List, [], ◌∷◌, ◌++◌, map, none, ok, arith}
use catalyst_svm.Text.{codes}
use catalyst_svm.Common.Types.{Transaction, ExecutionTrace, Proof}
use catalyst_svm.Common.Hashing.{Hasher}
use catalyst_svm.Common.Clock.{VirtualClock}
use catalyst_svm.Executor.{State, fund}
use catalyst_svm.Prover.{
  Sdk, IsFaithful, prove, prove_with_transactions, reconstructed, commitment_of,
}
use catalyst_svm.Verifier.{verify, result_of}
use catalyst_svm.Verifier.Soundness.{proved_is_valid}

-- A proof of a trace, which names the trace's batch and commits to its values.
pub record IsProofOf ⦃h : Hasher⦄ (sdk : Sdk) (trace : ExecutionTrace) (proof : Proof)
    : Type 0 where
  pub id : proof.batch_id ≡ trace.batch_id
  pub commitment : proof.commitment ≡ commitment_of sdk trace
  pub accepted :
      (elapsed : ℕ) (clock : VirtualClock)
      → (verify sdk elapsed proof trace clock).0 ≡ ok (result_of trace.batch_id elapsed none)

module _ ⦃h : Hasher⦄ (sdk : Sdk) (faithful : IsFaithful sdk) where
  artifact :
      (elapsed : ℕ) (trace : ExecutionTrace) (txs : List Transaction) (s : State)
      (clock : VirtualClock) {proof : Proof}
      → (prove_with_transactions sdk elapsed trace txs s clock).0 ≡ ok proof
      → (proof.batch_id ≡ trace.batch_id) × (proof.commitment ≡ commitment_of sdk trace)
  unfolding prove_with_transactions
  artifact elapsed trace txs s clock e = ground arith

  with_transactions-IsProofOf :
      (elapsed : ℕ) (trace : ExecutionTrace) (txs : List Transaction) (s : State)
      (clock : VirtualClock) {proof : Proof}
      → (prove_with_transactions sdk elapsed trace txs s clock).0 ≡ ok proof
      → IsProofOf sdk trace proof
  with_transactions-IsProofOf elapsed trace txs s clock e =
      let (id, commitment) = artifact elapsed trace txs s clock e in
      record {
        id = id;
        commitment = commitment;
        accepted = λ elapsed' clock'.
            proved_is_valid sdk faithful elapsed elapsed' trace txs s clock clock' e;
      }

  -- With a faithful SDK, what `prove` returns is a proof of the trace.
  pub prove-IsProofOf :
      (elapsed : ℕ) (trace : ExecutionTrace) (txs : List Transaction) (clock : VirtualClock)
      {proof : Proof}
      → (prove sdk elapsed trace txs clock).0 ≡ ok proof
      → IsProofOf sdk trace proof
  unfolding prove
  prove-IsProofOf elapsed trace [] clock made =
      with_transactions-IsProofOf elapsed trace (map (λ e. reconstructed e.tx_id) trace.entries)
        (fund [] (map (λ e. codes "sender_" ++ e.tx_id) trace.entries)) clock made
  prove-IsProofOf elapsed trace (tx ∷ txs) clock made =
      with_transactions-IsProofOf elapsed trace (tx ∷ txs)
        (fund [] (map (λ t. t.sender) (tx ∷ txs))) clock made
