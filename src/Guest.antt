-- ===== src/Guest.antt =====
-- The zkVM guest (crates/sp1-program/src/main.rs): it executes a batch again, computes the
-- commitments again, and asserts that they match the claimed ones. The guest is built in the
-- release profile, so its sums wrap. `none` is a panic of an index out of range.
pub mod Roots
pub mod Charges
use catalyst_svm.Prelude.{
  ℕ, suc, ◌+◌, List, [], ◌∷◌, ◌++◌, Option, none, some, Bool, true, false, map, wrap64, length, ltb,
  saturating_add, ◌==◌, if◌then◌else◌, get_elem?, Result, ok, err, not, ◌>>=◌, ◌>>◌, reject_if,
}
use catalyst_svm.Text.{Text, codes, decimal, join, show_bool, text_eq}
use catalyst_svm.Text.Order.{text_ord}
use catalyst_svm.OrderedMap.{OrderedMap, insert}
use catalyst_svm.Common.Hashing.{Hasher, hash_bytes, hash_str}
use catalyst_svm.Common.Merkle.{merkle_levels, state_leaf}
use catalyst_svm.Executor.{
  State, balance, debit, credit, first_word, second_word, account_key, data_key,
}

pub record SerializableTransaction : Type 0 where
  pub tx_id : Text
  pub sender : Text
  pub instruction_data : List ℕ

pub record ExecutionTraceInput : Type 0 where
  pub batch_id : Text
  pub state_root_pre : Text
  pub state_root_post : Text
  pub trace_hash : Text
  pub total_compute : ℕ
  pub tx_count : ℕ

pub record PublicInputs : Type 0 where
  pub batch_id : Text
  pub state_root_pre : Text
  pub state_root_post : Text
  pub trace_hash : Text
  pub total_compute : ℕ
  pub tx_count : ℕ

-- The five values that an instruction returns.
pub record Outcome : Type 0 where
  pub reads : List Text
  pub writes : List Text
  pub compute : ℕ
  pub success : Bool
  pub error : Option Text

abbrev failed : List Text → ℕ → Text → Outcome
failed reads compute reason = record {
  reads = reads;
  writes = [];
  compute = compute;
  success = false;
  error = some reason;
}

abbrev succeeded : List Text → List Text → ℕ → Outcome
succeeded reads writes compute = record {
  reads = reads;
  writes = writes;
  compute = compute;
  success = true;
  error = none;
}

transfer : State → Text → List ℕ → Outcome × State
unfolding balance debit credit account_key
transfer s sender bytes =
    if ltb (length bytes) 16
    then (failed [] 0 (codes "invalid transfer data"), s)
    else let amount = first_word bytes in
      let target = account_key (second_word bytes) in
      if ltb (balance s sender) amount
      then (failed (sender ∷ []) 5000 (codes "insufficient balance"), s)
      else (
        succeeded (sender ∷ target ∷ []) (sender ∷ target ∷ []) 5000,
        credit (debit s sender amount) target amount,
      )

set_data : State → List ℕ → Outcome × State
unfolding insert text_ord data_key
set_data s bytes =
    if ltb (length bytes) 16
    then (failed [] 0 (codes "invalid setdata"), s)
    else let key = data_key (first_word bytes) in
      (succeeded [] (key ∷ []) 3000, insert s key (second_word bytes))

increment : State → List ℕ → Outcome × State
unfolding insert balance text_ord data_key
increment s bytes =
    if ltb (length bytes) 16
    then (failed [] 0 (codes "invalid increment"), s)
    else let key = data_key (first_word bytes) in
      (
        succeeded (key ∷ []) (key ∷ []) 2000,
        insert s key (saturating_add (balance s key) (second_word bytes)),
      )

unfoldable pub execute_instruction : State → Text → List ℕ → Outcome × State
unfolding transfer set_data increment
execute_instruction s sender [] = (failed [] 0 (codes "empty instruction"), s)
execute_instruction s sender (opcode ∷ bytes) =
    if opcode == 0
    then transfer s sender bytes
    else if opcode == 1
    then set_data s bytes
    else if opcode == 2
    then increment s bytes
    else if opcode == 3
    then (succeeded [] [] 1000, s)
    else (failed [] 500 (codes "invalid opcode"), s)

module _ ⦃h : Hasher⦄ where
  -- The guest's copy of `merkle_root`, which ends in an index.
  unfoldable pub merkle_root : List Text → Option Text
  unfolding merkle_levels hash_bytes
  merkle_root [] = some (hash_bytes (codes "empty"))
  merkle_root (a ∷ []) = some a
  merkle_root (a ∷ b ∷ rest) = get_elem? (merkle_levels (length (a ∷ b ∷ rest)) (a ∷ b ∷ rest)) 0

  unfoldable pub compute_state_root : State → Option Text
  unfolding hash_str merkle_root state_leaf
  compute_state_root [] = some (hash_str (codes "empty_state"))
  compute_state_root (a ∷ rest) = merkle_root (map state_leaf (a ∷ rest))

  unfoldable pub hash_trace_entry : Text → Bool → ℕ → List Text → List Text → Text
  unfolding hash_str decimal join
  hash_trace_entry tx_id success compute_used accounts_read accounts_written = hash_str (
      codes "tx:"
      ++ tx_id
      ++ codes ":success:"
      ++ show_bool success
      ++ codes ":cu:"
      ++ decimal compute_used
      ++ codes ":reads:"
      ++ join (codes ",") accounts_read
      ++ codes ":writes:"
      ++ join (codes ",") accounts_written)

  -- The loop of `execute_batch`, over the state, the compute units and the entries' hashes.
  unfoldable pub execute_loop :
      List SerializableTransaction → State → ℕ → List Text → State × ℕ × List Text
  unfolding execute_instruction hash_trace_entry
  execute_loop [] s total hashes = (s, total, hashes)
  execute_loop (tx ∷ txs) s total hashes =
      let (o, s') = execute_instruction s tx.sender tx.instruction_data in
      execute_loop txs s' (wrap64 (total + o.compute))
        (hashes ++ hash_trace_entry tx.tx_id o.success o.compute o.reads o.writes ∷ [])

  -- The two state roots, the compute units and the entries' hashes. (`execute_batch` computes the
  -- trace's hash too, and drops it.)
  unfoldable pub execute_batch :
      State → List SerializableTransaction → Option (Text × Text × ℕ × List Text)
  unfolding execute_loop compute_state_root merkle_root
  execute_batch initial_state txs =
      let (final, total, hashes) = execute_loop txs initial_state 0 [] in
      elim (compute_state_root initial_state) [
        | none ↦ none
        | some pre ↦ elim (compute_state_root final) [
          | none ↦ none
          | some post ↦ elim (merkle_root hashes) [
            | none ↦ none
            | some _ ↦ some (pre, post, total, hashes)
          ]
        ]
      ]

-- How the guest can stop without a commitment.
pub data Panic : Type 0 where
  out_of_range pre_state_root_mismatch post_state_root_mismatch trace_hash_mismatch : Panic
  total_compute_mismatch transaction_count_mismatch : Panic

-- An index that is out of range panics.
abbrev indexed : {A : Type 0} → Option A → Result Panic A
indexed none = err out_of_range
indexed (some a) = ok a

module _ ⦃h : Hasher⦄ where
  -- `main`: what it reads are the arguments, and what it commits is the result.
  unfoldable pub main :
      ExecutionTraceInput → List SerializableTransaction → State → Result Panic PublicInputs
  unfolding execute_batch merkle_root
  main claimed txs initial_state = do
    (pre, post, compute, hashes) ← indexed (execute_batch initial_state txs)
    root ← indexed (merkle_root hashes)
    reject_if (not (text_eq pre claimed.state_root_pre)) pre_state_root_mismatch
    reject_if (not (text_eq post claimed.state_root_post)) post_state_root_mismatch
    reject_if (not (text_eq root claimed.trace_hash)) trace_hash_mismatch
    reject_if (not (compute == claimed.total_compute)) total_compute_mismatch
    reject_if (not (length txs == claimed.tx_count)) transaction_count_mismatch
    ok (record {
      batch_id = claimed.batch_id;
      state_root_pre = pre;
      state_root_post = post;
      trace_hash = root;
      total_compute = compute;
      tx_count = length txs;
    })
