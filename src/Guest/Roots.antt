-- ===== src/Guest/Roots.antt =====
-- The guest's copies of the hashing functions compute what the host's compute, and never panic.
use catalyst_svm.Prelude.{
  ℕ, ◌≡◌, refl, List, [], ◌∷◌, some, arith, length, get_elem?, get_or, map, Bool,
}
use catalyst_svm.Text.{Text}
use catalyst_svm.Common.Hashing.{Hasher}
use catalyst_svm.Common.Merkle
use catalyst_svm.Common.Merkle.{merkle_levels}
use catalyst_svm.Common.Merkle.Levels.{merkle_levels_end}
use catalyst_svm.Executor.{State}
use catalyst_svm.Trace
use catalyst_svm.Guest.{merkle_root, compute_state_root, hash_trace_entry}

get_elem?_single : (xs : List Text) → length xs ≡ 1 → get_elem? xs 0 ≡ some (get_or xs 0 [])
get_elem?_single [] n = absurd (omega arith)
get_elem?_single (x ∷ xs) n = refl

module _ ⦃h : Hasher⦄ where
  -- The guest's Merkle root never panics on its index, and is the host's.
  pub merkle_root_lem : (leaves : List Text) → merkle_root leaves ≡ some (Merkle.merkle_root leaves)
  unfolding merkle_root Merkle.merkle_root
  merkle_root_lem [] = refl
  merkle_root_lem (a ∷ []) = refl
  merkle_root_lem (a ∷ b ∷ rest) =
      get_elem?_single (merkle_levels (length (a ∷ b ∷ rest)) (a ∷ b ∷ rest))
        (merkle_levels_end a (b ∷ rest))

  pub compute_state_root_lem :
      (s : State) → compute_state_root s ≡ some (Trace.compute_state_root s)
  unfolding compute_state_root Trace.compute_state_root
  compute_state_root_lem [] = refl
  compute_state_root_lem (a ∷ rest) = merkle_root_lem (map Merkle.state_leaf (a ∷ rest))

  pub hash_trace_entry_lem :
      (id : Text) (success : Bool) (compute : ℕ) (reads writes : List Text)
      → hash_trace_entry id success compute reads writes
        ≡ Merkle.hash_trace_entry id success compute reads writes
  unfolding hash_trace_entry Merkle.hash_trace_entry
  hash_trace_entry_lem id success compute reads writes = refl
