-- ===== src/Validator/Refusals.antt =====
-- The calls of the validator that end with nothing: a batch that fails, and a seal that is refused.
use catalyst_svm.Prelude.{
  ℕ, ◌-◌, ◌≡◌, refl, sym, ap, subst, List, [], ◌∷◌, ◌++◌, none, some, false, Result, ok, err, is_ok,
  length,
}
use catalyst_svm.Prelude.Float.{Float}
use catalyst_svm.Text.{Text, codes}
use catalyst_svm.Common.Types.{Transaction, ExecutionTrace, Proof}
use catalyst_svm.Common.Hashing.{Hasher}
use catalyst_svm.Host.{Disk}
use catalyst_svm.Policy.Engine.{should_seal}
use catalyst_svm.Rpc.{refused}
use catalyst_svm.Validator.{Validator, ValidatorState, drain, drained_if, seal_queue, seal}
use catalyst_svm.Validator.Batches.{
  Readings, produce, push_proof, save_proof, after_save, after_produce, process_batch, sealed_name,
  after_seal, check_and_seal_batch,
}
use catalyst_svm.Validator.Drained.{drain_splits, sealed_is_drained}
use catalyst_svm.Validator.Service.{answer_sealed, answer_force_seal}

module _ ⦃h : Hasher⦄ ⦃f : Float⦄ (v : Validator) where
  save_failed :
      (r : Readings) (id : Text) (proof : Proof) (o : Result Text (Unit {0}) × Disk)
      (s : ValidatorState)
      → is_ok (after_save v r id proof o s).result ≡ false
      → (after_save v r id proof o s).state ≡ s
  unfolding push_proof
  save_failed r id proof (err x, disk) s e = refl
  save_failed r id proof (ok _, disk) s e = cc e

  produce_failed :
      (r : Readings) (id : Text) (o : Result Text (Proof × ExecutionTrace)) (disk : Disk)
      (s : ValidatorState)
      → is_ok (after_produce v r id o disk s).result ≡ false
      → (after_produce v r id o disk s).state ≡ s
  unfolding after_produce
  produce_failed r id (err x) disk s e = refl
  produce_failed r id (ok (proof, trace)) disk s e =
      save_failed r id proof (save_proof v r proof trace disk) s e

  process_failed :
      (r : Readings) (id : Text) (txs : List Transaction) (disk : Disk) (s : ValidatorState)
      → is_ok (process_batch v r id txs disk s).result ≡ false
      → (process_batch v r id txs disk s).state ≡ s
  unfolding process_batch
  process_failed r id txs disk s e = produce_failed r id (produce v r id txs) disk s e

  unnamed : (id : Text) (o : Result Text (Unit {0})) → is_ok o ≡ false → sealed_name v id o ≡ none
  unnamed id (ok _) e = cc e
  unnamed id (err x) e = refl

  -- What is left of a batch that failed: the transactions are off the queue, and nothing else of the
  -- state tells of them.
  pub record IsLost (txs : List Transaction) (s t : ValidatorState) : Type 0 where
    pub queue : txs ++ t.pending_txs ≡ s.pending_txs
    pub proofs : t.proofs ≡ s.proofs
    pub batches : t.batches ≡ s.batches
    pub state : t.state ≡ s.state

  drained-IsLost :
      (s : ValidatorState) → IsLost (drain v.batch_size s).0.1 s (drain v.batch_size s).1
  unfolding drain
  drained-IsLost s = record {
    queue = drain_splits v.batch_size s;
    proofs = refl;
    batches = refl;
    state = refl;
  }

  sealing-IsLost :
      (now : ℕ) (s s' : ValidatorState) (id : Text) (txs : List Transaction)
      → seal v now s ≡ (some (id, txs), s')
      → IsLost txs s s'
  sealing-IsLost now s s' id txs e =
      subst (λ d. IsLost d.0.1 s d.1) (sealed_is_drained v now s s' (id, txs) e) (drained-IsLost s)

  -- When a batch was sealed and its processing fails (in the executor, the prover or a write), the call
  -- names no batch, and the batch's transactions are gone: they are not put back into the queue, and no
  -- record of the batch is kept.
  pub failed_batch-IsLost :
      (r : Readings) (disk : Disk) (s s' : ValidatorState) (id : Text) (txs : List Transaction)
      → seal v r.now s ≡ (some (id, txs), s')
      → is_ok (process_batch v r id txs disk s').result ≡ false
      → ((check_and_seal_batch v r disk s).0 ≡ none)
        × IsLost txs s (check_and_seal_batch v r disk s).2
  unfolding check_and_seal_batch after_seal
  failed_batch-IsLost r disk s s' id txs sealed failed =
      let p = process_batch v r id txs disk s' in
      let lost = sealing-IsLost r.now s s' id txs sealed in
      let kept : IsLost txs s p.state =
        subst (IsLost txs s) (sym (process_failed r id txs disk s' failed)) lost in
      rw sealed (unnamed id p.result failed, kept)

  -- The policy refuses to seal a queue.
  abbrev pub IsRefused : List Transaction → ℕ → Type 0
  IsRefused [] now = Unit
  IsRefused (oldest ∷ rest) now =
      should_seal v.policy (length (oldest ∷ rest)) (now - oldest.arrival_ts) (f.literal 0 0)
      ≡ false

  pub refused_seal :
      (q : List Transaction) (now : ℕ) (s : ValidatorState)
      → IsRefused q now
      → seal_queue v q now s ≡ (none, s)
  unfolding should_seal drain
  refused_seal [] now s e = refl
  refused_seal (t ∷ q) now s e = ap (λ b. drained_if v b s) e

  -- `forceSeal` does not force: where the policy refuses to seal the queue (which may hold transactions),
  -- nothing changes and the answer is that there are no transactions to seal.
  pub force_seal_refused :
      (r : Readings) (id : ℕ) (disk : Disk) (s : ValidatorState)
      → IsRefused s.pending_txs r.now
      → answer_force_seal v r id disk s ≡ (refused id (codes "No transactions to seal"), disk, s)
  unfolding answer_force_seal check_and_seal_batch after_seal seal
  force_seal_refused r id disk s e =
      let same = refused_seal s.pending_txs r.now s e in
      ap (λ o. (let p = after_seal v r o disk in (answer_sealed id p.0, p.1, p.2))) same
