-- ===== src/Batcher/Invariant.antt =====
-- What every sequence of instructions keeps of the accounts.
use catalyst_svm.Prelude.{
  ℕ, ◌+◌, ◌≡◌, ◌≢◌, refl, sym, ap, ◌∙◌, inl, inr, [], Option, none, some, true, false, arith,
  length, ok, Option-cases,
}
use catalyst_svm.Text.{text_eq}
use catalyst_svm.Text.Order.{text_ord, text_eq_iff}
use catalyst_svm.OrderedMap.{get, insert}
use catalyst_svm.OrderedMap.Lookup.{pointwise-insert, length-insert_new, length-insert_old}
use catalyst_svm.Batcher.{
  Pubkey, Bytes32, zeros, GlobalConfig, BatchReceipt, Accounts, Instruction, initialize_config_ix,
  update_policy_ix, submit_batch_ix, submit_proof_ix, verify_proof_ix, pause_ix, resume_ix, process,
  initialize_config, update_policy, submit_batch, submit_proof, verify_proof, pause, resume,
}

abbrev pub batches : Option GlobalConfig → ℕ
batches none = 0
batches (some c) = c.batch_count

-- A receipt stands at the seed of its batch, and is verified only with a proof.
pub record IsSound (id : Bytes32) (r : BatchReceipt) : Type 0 where
  pub named : r.batch_id ≡ id
  pub proven : r.verified ≡ true → r.proof_hash ≢ zeros

pub record IsValid (a : Accounts) : Type 0 where
  pub counted : batches a.config ≡ length a.receipts
  pub sound : (id : Bytes32) (r : BatchReceipt) → get a.receipts id ≡ some r → IsSound id r

abbrev pub no_accounts : Accounts
no_accounts = record { config = none; receipts = [] }

no_accounts-IsValid : IsValid no_accounts
unfolding get
no_accounts-IsValid = record { counted = refl; sound = λ id r e. cc }

-- The two facts that an instruction on the configuration alone keeps.
KeepsReceipts : Accounts → Accounts → Type 0
KeepsReceipts a b = (b.receipts ≡ a.receipts) × (batches b.config ≡ batches a.config)

IsValid-keeps : (a b : Accounts) → KeepsReceipts a b → IsValid a → IsValid b
unfolding KeepsReceipts
IsValid-keeps a b (same, count) v = record {
  counted = count ∙ v.counted ∙ ap length (sym same);
  sound = λ id r found. v.sound id r (ap (λ m. get m id) (sym same) ∙ found);
}

module _ (a : Accounts) {b : Accounts} where
  initialize_config_keeps :
      (authority : Pubkey) → initialize_config authority a ≡ ok b → KeepsReceipts a b
  unfolding initialize_config KeepsReceipts
  initialize_config_keeps authority done = ground arith

  update_policy_keeps :
      (signer : Pubkey) (policy : Bytes32)
      → update_policy signer policy a ≡ ok b
      → KeepsReceipts a b
  unfolding update_policy KeepsReceipts
  update_policy_keeps signer policy done = ground arith

  pause_keeps : (signer : Pubkey) → pause signer a ≡ ok b → KeepsReceipts a b
  unfolding pause KeepsReceipts
  pause_keeps signer done = ground arith

  resume_keeps : (signer : Pubkey) → resume signer a ≡ ok b → KeepsReceipts a b
  unfolding resume KeepsReceipts
  resume_keeps signer done = ground arith

  -- An update of a receipt that is there keeps the count.
  IsValid-update :
      (id : Bytes32) (r r' : BatchReceipt)
      → get a.receipts id ≡ some r
      → (IsSound id r → IsSound id r')
      → b ≡ record a { receipts = insert a.receipts id r' }
      → IsValid a
      → IsValid b
  IsValid-update id r r' found sound e v = rw e (record {
    counted = v.counted ∙ sym (length-insert_old a.receipts id r' r found);
    sound = pointwise-insert IsSound a.receipts id r' (sound (v.sound id r found)) v.sound;
  })

  submit_proof-IsValid :
      (signer : Pubkey) (id hash : Bytes32)
      → submit_proof signer id hash a ≡ ok b
      → IsValid a
      → IsValid b
  unfolding submit_proof
  submit_proof-IsValid signer id hash done v = elim (Option-cases (get a.receipts id)) [
    | inl missing ↦ ground arith
    | inr (r, found) ↦
        let open_still : r.verified ≡ false = ground arith in
        IsValid-update id r (record r { proof_hash = hash }) found
          (λ s. record { named = s.named; proven = λ t. cc (t, open_still) }) (ground arith) v
  ]

  verify_proof-IsValid :
      (signer : Pubkey) (slot : ℕ) (id : Bytes32)
      → verify_proof signer slot id a ≡ ok b
      → IsValid a
      → IsValid b
  unfolding verify_proof
  verify_proof-IsValid signer slot id done v = elim (Option-cases (get a.receipts id)) [
    | inl missing ↦ ground arith
    | inr (r, found) ↦
        let has_proof : text_eq r.proof_hash zeros ≡ false = ground arith in
        IsValid-update id r (record r { verified = true; verify_slot = slot }) found
          (λ s. record {
            named = s.named;
            proven = λ t e. cc (has_proof, (text_eq_iff r.proof_hash zeros).1 e);
          })
          (ground arith) v
  ]

  submit_batch-IsValid :
      (signer : Pubkey) (slot : ℕ) (id hash : Bytes32) (count compute : ℕ)
      → submit_batch signer slot id hash count compute a ≡ ok b
      → IsValid a
      → IsValid b
  unfolding submit_batch
  submit_batch-IsValid signer slot id hash count compute done v =
      elim (Option-cases (get a.receipts id)) [
        | inl fresh ↦
            let r : BatchReceipt = record {
              batch_id = id;
              batch_hash = hash;
              proof_hash = zeros;
              tx_count = count;
              total_compute = compute;
              verified = false;
              submitter = signer;
              submit_slot = slot;
              verify_slot = 0;
            } in
            let written : b.receipts ≡ insert a.receipts id r = ground arith in
            let counted : batches b.config ≡ batches a.config + 1 = ground arith in
            record {
              counted = omega (
                arith,
                counted,
                v.counted,
                length-insert_new a.receipts id r fresh,
                ap length written,
              );
              sound = λ j s found.
                  pointwise-insert IsSound a.receipts id r
                    (record { named = refl; proven = λ t. cc t }) v.sound j s
                    (ap (λ m. get m j) (sym written) ∙ found);
            }
        | inr (r, found) ↦ ground arith
      ]

-- Every instruction that succeeds, whoever signs it, keeps the count of the batches at the number
-- of the receipts, each receipt at the seed of its batch, and no receipt verified without a proof.
pub process-IsValid :
    (signer : Pubkey) (slot : ℕ) (i : Instruction) (a : Accounts) {b : Accounts}
    → process signer slot i a ≡ ok b
    → IsValid a
    → IsValid b
unfolding process
process-IsValid signer slot (initialize_config_ix authority) a {b} done v =
    IsValid-keeps a b (initialize_config_keeps a authority done) v
process-IsValid signer slot (update_policy_ix policy) a {b} done v =
    IsValid-keeps a b (update_policy_keeps a signer policy done) v
process-IsValid signer slot (submit_batch_ix id hash count compute) a done v =
    submit_batch-IsValid a signer slot id hash count compute done v
process-IsValid signer slot (submit_proof_ix id hash) a done v =
    submit_proof-IsValid a signer id hash done v
process-IsValid signer slot (verify_proof_ix id) a done v =
    verify_proof-IsValid a signer slot id done v
process-IsValid signer slot pause_ix a {b} done v = IsValid-keeps a b (pause_keeps a signer done) v
process-IsValid signer slot resume_ix a {b} done v =
    IsValid-keeps a b (resume_keeps a signer done) v

-- The accounts that some sequence of instructions leads to.
pub data Reachable : Accounts → Type 0 where
  start : Reachable no_accounts
  step :
      {a b : Accounts} (signer : Pubkey) (slot : ℕ) (i : Instruction)
      → Reachable a
      → process signer slot i a ≡ ok b
      → Reachable b

-- In every reachable state of the accounts the count of the batches is the number of the receipts,
-- each receipt stands at the seed of its batch, and no receipt is verified without a proof.
pub Reachable-IsValid : {a : Accounts} → Reachable a → IsValid a
Reachable-IsValid start = no_accounts-IsValid
Reachable-IsValid (step signer slot i r done) =
    process-IsValid signer slot i _ done (Reachable-IsValid r)
