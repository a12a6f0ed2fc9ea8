-- ===== src/Batcher/Access.antt =====
-- Who can change what, and what can no longer change.
use catalyst_svm.Prelude.{
  ℕ, ◌+◌, ◌≡◌, ◌≢◌, ◌⊎◌, refl, ap, ◌∙◌, inl, inr, some, true, false, arith, ok, Option-cases, ◌>>=◌,
}
use catalyst_svm.Text.Order.{text_ord, text_eq_iff}
use catalyst_svm.Prelude.Order.{key_cases}
use catalyst_svm.OrderedMap.{OrderedMap, get, insert}
use catalyst_svm.OrderedMap.Lookup.{get-insert_self, get-insert_ne}
use catalyst_svm.Batcher.{
  Pubkey, Bytes32, zeros, GlobalConfig, BatchReceipt, Accounts, Instruction, initialize_config_ix,
  update_policy_ix, submit_batch_ix, submit_proof_ix, verify_proof_ix, pause_ix, resume_ix, process,
  submit_batch, submit_proof, verify_proof,
}

-- What the configuration's own instructions write.
abbrev pub SameSettings : GlobalConfig → GlobalConfig → Type 0
SameSettings c d =
    (d.authority ≡ c.authority) × (d.paused ≡ c.paused) × (d.policy_name ≡ c.policy_name)

kept :
    (m n : OrderedMap Bytes32 BatchReceipt) (id : Bytes32) (r : BatchReceipt)
    → get m id ≡ some r
    → n ≡ m
    → get n id ≡ some r
kept m n id r found same = ap (λ o. get o id) same ∙ found

module _ (signer : Pubkey) (slot : ℕ) (a : Accounts) {b : Accounts} where
  -- A receipt that is verified stays as it is, whatever instruction follows.
  module _ (id : Bytes32) (r : BatchReceipt) (found : get a.receipts id ≡ some r)
      (final : r.verified ≡ true) where
    submit_batch_final :
        (j hash : Bytes32) (count compute : ℕ)
        → submit_batch signer slot j hash count compute a ≡ ok b
        → get b.receipts id ≡ some r
    unfolding submit_batch
    submit_batch_final j hash count compute done = elim (key_cases id j) [
      | inl same ↦ ground (arith, ap (get a.receipts) same)
      | inr other ↦
          let written : get b.receipts id
              ≡ get
                  (insert a.receipts j (record {
                    batch_id = j;
                    batch_hash = hash;
                    proof_hash = zeros;
                    tx_count = count;
                    total_compute = compute;
                    verified = false;
                    submitter = signer;
                    submit_slot = slot;
                    verify_slot = 0;
                  }))
                  id =
            ground arith in
          written ∙ get-insert_ne a.receipts j id _ other ∙ found
    ]

    submit_proof_final :
        (j hash : Bytes32) → submit_proof signer j hash a ≡ ok b → get b.receipts id ≡ some r
    unfolding submit_proof
    submit_proof_final j hash done = elim (Option-cases (get a.receipts j)) [
      | inl missing ↦ ground arith
      | inr (s, there) ↦ elim (key_cases id j) [
        | inl same ↦ ground (arith, ap (get a.receipts) same)
        | inr other ↦
            let written : get b.receipts id
                ≡ get (insert a.receipts j (record s { proof_hash = hash })) id =
              ground arith in
            written ∙ get-insert_ne a.receipts j id _ other ∙ found
      ]
    ]

    verify_proof_final :
        (j : Bytes32) → verify_proof signer slot j a ≡ ok b → get b.receipts id ≡ some r
    unfolding verify_proof
    verify_proof_final j done = elim (Option-cases (get a.receipts j)) [
      | inl missing ↦ ground arith
      | inr (s, there) ↦ elim (key_cases id j) [
        | inl same ↦ ground (arith, ap (get a.receipts) same)
        | inr other ↦
            let written : get b.receipts id
                ≡ get (insert a.receipts j (record s { verified = true; verify_slot = slot })) id =
              ground arith in
            written ∙ get-insert_ne a.receipts j id _ other ∙ found
      ]
    ]

    -- Once a receipt is verified, no instruction of any signer changes it.
    pub verified_is_final :
        (i : Instruction) → process signer slot i a ≡ ok b → get b.receipts id ≡ some r
    unfolding process
    verified_is_final (initialize_config_ix authority) done =
        kept a.receipts b.receipts id r found (ground arith)
    verified_is_final (update_policy_ix policy) done =
        kept a.receipts b.receipts id r found (ground arith)
    verified_is_final (submit_batch_ix j hash count compute) done =
        submit_batch_final j hash count compute done
    verified_is_final (submit_proof_ix j hash) done = submit_proof_final j hash done
    verified_is_final (verify_proof_ix j) done = verify_proof_final j done
    verified_is_final pause_ix done = kept a.receipts b.receipts id r found (ground arith)
    verified_is_final resume_ix done = kept a.receipts b.receipts id r found (ground arith)

  -- Only the authority changes the authority, the pause or the policy of a configuration: under any
  -- other signer an instruction that succeeds leaves the three as they were.
  pub settings_need_authority :
      (i : Instruction) (c : GlobalConfig)
      → a.config ≡ some c
      → c.authority ≢ signer
      → process signer slot i a ≡ ok b
      → (d : GlobalConfig) × (b.config ≡ some d) × SameSettings c d
  unfolding process
  settings_need_authority (initialize_config_ix authority) c there other done = ground arith
  settings_need_authority (update_policy_ix policy) c there other done =
      ground (arith, text_eq_iff c.authority signer)
  settings_need_authority (submit_batch_ix id hash count compute) c there other done =
      (record c { batch_count = c.batch_count + 1 }, ground arith, (refl, refl, refl))
  settings_need_authority (submit_proof_ix id hash) c there other done =
      (c, ground arith, (refl, refl, refl))
  settings_need_authority (verify_proof_ix id) c there other done =
      (c, ground arith, (refl, refl, refl))
  settings_need_authority pause_ix c there other done =
      ground (arith, text_eq_iff c.authority signer)
  settings_need_authority resume_ix c there other done =
      ground (arith, text_eq_iff c.authority signer)

  -- While the program is paused no batch is accepted, and the configuration stays as it is under
  -- every instruction but the authority's `resume`.
  pub paused_is_frozen :
      (i : Instruction) (c : GlobalConfig)
      → a.config ≡ some c
      → c.paused ≡ true
      → process signer slot i a ≡ ok b
      → (b.config ≡ a.config) ⊎ ((i ≡ resume_ix) × (c.authority ≡ signer))
  unfolding process
  paused_is_frozen (initialize_config_ix authority) c there p done = ground arith
  paused_is_frozen (update_policy_ix policy) c there p done = ground arith
  paused_is_frozen (submit_batch_ix id hash count compute) c there p done = ground arith
  paused_is_frozen (submit_proof_ix id hash) c there p done = inl (ground arith)
  paused_is_frozen (verify_proof_ix id) c there p done = inl (ground arith)
  paused_is_frozen pause_ix c there p done = inl (ground arith)
  paused_is_frozen resume_ix c there p done =
      inr (refl, (text_eq_iff c.authority signer).0 (ground arith))

-- Two calls by any two signers make an unverified receipt verified with any proof hash but zeros,
-- whoever submitted it and whoever the authority is.
pub anyone_verifies :
    (prover checker : Pubkey) (slot : ℕ) (a : Accounts) (id hash : Bytes32) (r : BatchReceipt)
    → get a.receipts id ≡ some r
    → r.verified ≡ false
    → hash ≢ zeros
    → (b : Accounts) × ((process prover slot (submit_proof_ix id hash) a
          >>= process checker slot (verify_proof_ix id))
        ≡ ok b)
      × (get b.receipts id
          ≡ some (record r { proof_hash = hash; verified = true; verify_slot = slot }))
unfolding process submit_proof verify_proof
anyone_verifies prover checker slot a id hash r found still_open other =
    let mid = insert a.receipts id (record r { proof_hash = hash }) in
    let done =
      insert mid id (record r { proof_hash = hash; verified = true; verify_slot = slot }) in
    (
      record a { receipts = done },
      ground (
        arith,
        get-insert_self a.receipts id (record r { proof_hash = hash }),
        text_eq_iff hash zeros,
      ),
      get-insert_self mid id (record r { proof_hash = hash; verified = true; verify_slot = slot }),
    )
