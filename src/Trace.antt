-- ===== src/Trace.antt =====
-- The crate `catalyst-trace-builder` (crates/trace-builder/src/lib.rs): a trace with its hash
-- commitments.
pub mod Totals
use catalyst_svm.Prelude.{
  ℕ, suc, ◌+◌, List, [], ◌∷◌, ◌++◌, Option, Bool, map, wrap64, if◌then◌else◌,
}
use catalyst_svm.Text.{Text, codes}
use catalyst_svm.OrderedMap.{OrderedMap}
use catalyst_svm.Common.Types.{TransactionId, TraceEntry, ExecutionTrace}
use catalyst_svm.Common.Hashing.{Hasher, hash_str}
use catalyst_svm.Common.Merkle.{merkle_root, state_leaf, hash_trace_entry}

pub record TraceBuilder : Type 0 where
  pub batch_id : Text
  pub entries : List TraceEntry
  pub pre_state_root : Text
  pub total_compute : ℕ
  pub success_count : ℕ
  pub failure_count : ℕ

module _ ⦃h : Hasher⦄ where
  unfoldable pub compute_state_root : OrderedMap Text ℕ → Text
  unfolding hash_str merkle_root state_leaf
  compute_state_root [] = hash_str (codes "empty_state")
  compute_state_root (a ∷ rest) = merkle_root (map state_leaf (a ∷ rest))

  -- `TraceBuilder::new`
  unfoldable pub new_builder : Text → OrderedMap Text ℕ → TraceBuilder
  unfolding compute_state_root
  new_builder id initial_state = record {
    batch_id = id;
    entries = [];
    pre_state_root = compute_state_root initial_state;
    total_compute = 0;
    success_count = 0;
    failure_count = 0;
  }

-- `add_entry`; its arguments are the fields of the entry. The two counts count entries of a `Vec`.
unfoldable pub add_entry : TraceEntry → TraceBuilder → TraceBuilder
add_entry e b = record b {
  entries = b.entries ++ e ∷ [];
  total_compute = wrap64 (b.total_compute + e.compute_used);
  success_count = if e.success then suc b.success_count else b.success_count;
  failure_count = if e.success then b.failure_count else suc b.failure_count;
}

module _ ⦃h : Hasher⦄ where
  abbrev pub hash_entry : TraceEntry → Text
  hash_entry e =
      hash_trace_entry e.tx_id e.success e.compute_used e.accounts_read e.accounts_written

  unfoldable pub build : OrderedMap Text ℕ → TraceBuilder → ExecutionTrace
  unfolding compute_state_root merkle_root hash_trace_entry
  build final_state b = record {
    batch_id = b.batch_id;
    entries = b.entries;
    state_root_pre = b.pre_state_root;
    state_root_post = compute_state_root final_state;
    trace_hash = merkle_root (map hash_entry b.entries);
    total_compute = b.total_compute;
    success_count = b.success_count;
    failure_count = b.failure_count;
  }
