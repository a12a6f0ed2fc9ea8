-- ===== src/Batcher.antt =====
-- The on-chain program (onchain/catalyst_batcher/programs/catalyst_batcher/src/lib.rs). Its accounts
-- are the configuration at its one seed, and a receipt at the seed of each batch. An instruction
-- that fails leaves them as they were, since the runtime reverts it. The checks that the
-- `#[account(…)]` attributes ask of Anchor come before the body: `init` wants no account at the
-- seed, any other use wants one, and `has_one` wants the signer's key in the field.
pub mod Invariant
pub mod Access
use catalyst_svm.Prelude.{
  ℕ, suc, ◌+◌, List, [], ◌∷◌, Option, none, some, Bool, true, false, not, length, Result, ok, err,
  ◌>>=◌, ◌>>◌, reject_if, ltb, leb, u64_max, replicate,
}
use catalyst_svm.Text.{Text, text_eq}
use catalyst_svm.Text.Order.{text_ord}
use catalyst_svm.OrderedMap.{OrderedMap, get, insert}

-- The 32 bytes of a key or of a hash.
abbrev pub Pubkey : Type 0
Pubkey = List ℕ

abbrev pub Bytes32 : Type 0
Bytes32 = List ℕ

-- `[0u8; 32]`
abbrev pub zeros : Bytes32
zeros = replicate 32 0

pub record GlobalConfig : Type 0 where
  pub authority : Pubkey
  pub paused : Bool
  pub batch_count : ℕ
  pub policy_name : Bytes32

pub record BatchReceipt : Type 0 where
  pub batch_id : Bytes32
  pub batch_hash : Bytes32
  pub proof_hash : Bytes32
  pub tx_count : ℕ
  pub total_compute : ℕ
  pub verified : Bool
  pub submitter : Pubkey
  pub submit_slot : ℕ
  pub verify_slot : ℕ

pub record Accounts : Type 0 where
  pub config : Option GlobalConfig
  pub receipts : OrderedMap Bytes32 BatchReceipt

pub data ChainError : Type 0 where
  -- `CatalystError`
  paused already_verified no_proof : ChainError
  -- Anchor's: the account is there already, is not there, or names another authority.
  already_in_use not_initialized has_one_violated : ChainError
  -- The sum overflows, which the build checks.
  overflow : ChainError

abbrev pub existing : {A : Type 0} → Option A → Result ChainError A
existing none = err not_initialized
existing (some a) = ok a

abbrev pub vacant : {A : Type 0} → Option A → Result ChainError (Unit {0})
vacant none = ok tt
vacant (some _) = err already_in_use

-- `has_one = authority`
abbrev pub has_authority : GlobalConfig → Pubkey → Result ChainError (Unit {0})
has_authority c signer = reject_if (not (text_eq c.authority signer)) has_one_violated

unfoldable pub initialize_config : Pubkey → Accounts → Result ChainError Accounts
initialize_config authority a = do
  vacant a.config
  ok (record a {
    config =
        some
          (record { authority = authority; paused = false; batch_count = 0; policy_name = zeros });
  })

unfoldable pub update_policy : Pubkey → Bytes32 → Accounts → Result ChainError Accounts
unfolding text_eq
update_policy signer policy a = do
  c ← existing a.config
  has_authority c signer
  reject_if c.paused paused
  ok (record a { config = some (record c { policy_name = policy }) })

unfoldable pub submit_batch :
    Pubkey → ℕ → Bytes32 → Bytes32 → ℕ → ℕ → Accounts → Result ChainError Accounts
unfolding get insert text_ord
submit_batch submitter slot id hash count compute a = do
  c ← existing a.config
  vacant (get a.receipts id)
  reject_if c.paused paused
  reject_if (leb u64_max c.batch_count) overflow
  ok (record {
    config = some (record c { batch_count = c.batch_count + 1 });
    receipts = insert a.receipts id (record {
      batch_id = id;
      batch_hash = hash;
      proof_hash = zeros;
      tx_count = count;
      total_compute = compute;
      verified = false;
      submitter = submitter;
      submit_slot = slot;
      verify_slot = 0;
    });
  })

-- `submit_proof` and `verify_proof` are given a receipt's account; here, the batch at whose seed it
-- stands. Neither compares the signer with a key of the accounts.
unfoldable pub submit_proof : Pubkey → Bytes32 → Bytes32 → Accounts → Result ChainError Accounts
unfolding get insert text_ord
submit_proof submitter id hash a = do
  r ← existing (get a.receipts id)
  reject_if r.verified already_verified
  ok (record a { receipts = insert a.receipts id (record r { proof_hash = hash }) })

unfoldable pub verify_proof : Pubkey → ℕ → Bytes32 → Accounts → Result ChainError Accounts
unfolding get insert text_ord text_eq
verify_proof signer slot id a = do
  r ← existing (get a.receipts id)
  reject_if r.verified already_verified
  reject_if (text_eq r.proof_hash zeros) no_proof
  ok (record a {
    receipts = insert a.receipts id (record r { verified = true; verify_slot = slot });
  })

unfoldable pub pause : Pubkey → Accounts → Result ChainError Accounts
unfolding text_eq
pause signer a = do
  c ← existing a.config
  has_authority c signer
  ok (record a { config = some (record c { paused = true }) })

unfoldable pub resume : Pubkey → Accounts → Result ChainError Accounts
unfolding text_eq
resume signer a = do
  c ← existing a.config
  has_authority c signer
  ok (record a { config = some (record c { paused = false }) })

-- One instruction, with its arguments.
pub data Instruction : Type 0 where
  initialize_config_ix : Pubkey → Instruction
  update_policy_ix : Bytes32 → Instruction
  submit_batch_ix : Bytes32 → Bytes32 → ℕ → ℕ → Instruction
  submit_proof_ix : Bytes32 → Bytes32 → Instruction
  verify_proof_ix : Bytes32 → Instruction
  pause_ix resume_ix : Instruction

-- `#[program]`: the dispatch, for a signer at a slot.
unfoldable pub process : Pubkey → ℕ → Instruction → Accounts → Result ChainError Accounts
unfolding initialize_config update_policy submit_batch submit_proof verify_proof pause resume
process signer slot (initialize_config_ix authority) a = initialize_config authority a
process signer slot (update_policy_ix policy) a = update_policy signer policy a
process signer slot (submit_batch_ix id hash count compute) a =
    submit_batch signer slot id hash count compute a
process signer slot (submit_proof_ix id hash) a = submit_proof signer id hash a
process signer slot (verify_proof_ix id) a = verify_proof signer slot id a
process signer slot pause_ix a = pause signer a
process signer slot resume_ix a = resume signer a
