-- ===== src/Common/Merkle.antt =====
-- Merkle trees and the commitments (crates/common/src/merkle.rs).
pub mod Levels
pub mod Binding
pub mod Accounts
pub mod Doubling
use catalyst_svm.Prelude.{ℕ, zero, suc, List, [], ◌∷◌, ◌++◌, Bool, length, map, get_or}
use catalyst_svm.Text.{Text, codes, join, decimal, show_bool}
use catalyst_svm.OrderedMap.{OrderedMap}
use catalyst_svm.Common.Hashing.{Hasher, hash_bytes, hash_str}

module _ ⦃h : Hasher⦄ where
  -- One round of the loop: the chunks of two, the last one doubled when it is alone.
  unfoldable pub next_level : List Text → List Text
  unfolding hash_str
  next_level [] = []
  next_level (a ∷ []) = hash_str (a ++ a) ∷ []
  next_level (a ∷ b ∷ rest) = hash_str (a ++ b) ∷ next_level rest

  -- `while current_level.len() > 1`, on fuel.
  unfoldable pub merkle_levels : ℕ → List Text → List Text
  unfolding next_level
  merkle_levels zero level = level
  merkle_levels (suc fuel) [] = []
  merkle_levels (suc fuel) (a ∷ []) = a ∷ []
  merkle_levels (suc fuel) (a ∷ b ∷ rest) = merkle_levels fuel (next_level (a ∷ b ∷ rest))

  -- Each round at least halves the level, so its length is fuel enough.
  unfoldable pub merkle_root : List Text → Text
  unfolding merkle_levels hash_bytes
  merkle_root [] = hash_bytes (codes "empty")
  merkle_root (a ∷ []) = a
  merkle_root (a ∷ b ∷ rest) = get_or (merkle_levels (length (a ∷ b ∷ rest)) (a ∷ b ∷ rest)) 0 []

  -- The leaf of one account: `{}:{}`.
  unfoldable pub state_leaf : Text × ℕ → Text
  unfolding hash_str decimal
  state_leaf (k, v) = hash_str (k ++ codes ":" ++ decimal v)

  unfoldable pub state_root : OrderedMap Text ℕ → Text
  unfolding merkle_root state_leaf hash_bytes
  state_root [] = hash_bytes (codes "empty_state")
  state_root (a ∷ rest) = merkle_root (map state_leaf (a ∷ rest))

  unfoldable pub hash_trace_entry : Text → Bool → ℕ → List Text → List Text → Text
  unfolding hash_str decimal join
  hash_trace_entry tx_id success compute_used read_set write_set = hash_str (
      codes "tx:"
      ++ tx_id
      ++ codes ":success:"
      ++ show_bool success
      ++ codes ":cu:"
      ++ decimal compute_used
      ++ codes ":reads:"
      ++ join (codes ",") read_set
      ++ codes ":writes:"
      ++ join (codes ",") write_set)
