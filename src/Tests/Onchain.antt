-- ===== src/Tests/Onchain.antt =====
-- A run of the on-chain program: a configuration, a batch, its proof and the verification.
use catalyst_svm.Prelude.{◌≡◌, ◌≢◌, refl, [], ◌∷◌, some, true, false, ok, ◌>>=◌, replicate}
use catalyst_svm.Text.Order.{text_ord}
use catalyst_svm.OrderedMap.{get}
use catalyst_svm.Batcher.{
  Pubkey, Bytes32, zeros, GlobalConfig, BatchReceipt, Accounts, process, pause_ix, resume_ix,
  initialize_config_ix, submit_batch_ix, submit_proof_ix, verify_proof_ix,
}
use catalyst_svm.Batcher.Invariant.{IsValid, Reachable, start, step, Reachable-IsValid, no_accounts}
use catalyst_svm.Batcher.Access.{
  verified_is_final, settings_need_authority, anyone_verifies, SameSettings,
}

abbrev owner : Pubkey
owner = replicate 32 1

abbrev stranger : Pubkey
stranger = replicate 32 2

abbrev batch_id : Bytes32
batch_id = replicate 32 3

abbrev proof_hash : Bytes32
proof_hash = replicate 32 4

abbrev config : GlobalConfig
config = record { authority = owner; paused = false; batch_count = 0; policy_name = zeros }

abbrev opened : Accounts
opened = record { config = some config; receipts = [] }

abbrev receipt : BatchReceipt
receipt = record {
  batch_id = batch_id;
  batch_hash = batch_id;
  proof_hash = zeros;
  tx_count = 2;
  total_compute = 6000;
  verified = false;
  submitter = stranger;
  submit_slot = 5;
  verify_slot = 0;
}

abbrev submitted : Accounts
submitted = record {
  config = some (record config { batch_count = 1 });
  receipts = (batch_id, receipt) ∷ [];
}

initialized : process owner 1 (initialize_config_ix owner) no_accounts ≡ ok opened
unfolding process
initialized = refl

sent : process stranger 5 (submit_batch_ix batch_id batch_id 2 6000) opened ≡ ok submitted
unfolding process
sent = refl

submitted-Reachable : Reachable submitted
submitted-Reachable =
    step stranger 5 (submit_batch_ix batch_id batch_id 2 6000)
      (step owner 1 (initialize_config_ix owner) start initialized) sent

Reachable-IsValid_example : IsValid submitted
Reachable-IsValid_example = Reachable-IsValid submitted-Reachable

abbrev verified_receipt : BatchReceipt
verified_receipt = record receipt { proof_hash = proof_hash; verified = true; verify_slot = 9 }

abbrev settled : Accounts
settled = record submitted { receipts = (batch_id, verified_receipt) ∷ [] }

found : get settled.receipts batch_id ≡ some verified_receipt
unfolding get text_ord
found = refl

paused_at :
    process owner 10 pause_ix settled
    ≡ ok (record settled { config = some (record config { batch_count = 1; paused = true }) })
unfolding process
paused_at = refl

verified_is_final_example : get settled.receipts batch_id ≡ some verified_receipt
verified_is_final_example =
    verified_is_final owner 10 settled batch_id verified_receipt found refl pause_ix paused_at

stranger_other : owner ≢ stranger
stranger_other e = cc e

settings_need_authority_example :
    (d : GlobalConfig) × (submitted.config ≡ some d) × SameSettings config d
settings_need_authority_example =
    settings_need_authority stranger 5 opened (submit_batch_ix batch_id batch_id 2 6000) config refl
      stranger_other sent

abbrev halted : Accounts
halted = record { config = some (record config { paused = true }); receipts = [] }

resumed : process owner 11 resume_ix halted ≡ ok opened
unfolding process
resumed = refl

submitted_found : get submitted.receipts batch_id ≡ some receipt
unfolding get text_ord
submitted_found = refl

proof_not_zeros : proof_hash ≢ zeros
proof_not_zeros e = cc e

anyone_verifies_example :
    (b : Accounts) × ((process stranger 9 (submit_proof_ix batch_id proof_hash) submitted
        >>= process stranger 9 (verify_proof_ix batch_id))
      ≡ ok b)
    × (get b.receipts batch_id ≡ some verified_receipt)
anyone_verifies_example =
    anyone_verifies stranger stranger 9 submitted batch_id proof_hash receipt submitted_found refl
      proof_not_zeros
