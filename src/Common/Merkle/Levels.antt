-- ===== src/Common/Merkle/Levels.antt =====
-- The loop of `merkle_root` ends: every level is shorter than the one before.
use catalyst_svm.Prelude.{ℕ, zero, suc, ◌+◌, ◌*◌, ◌≤◌, ◌≡◌, refl, List, [], ◌∷◌, arith, length, All}
use catalyst_svm.Text.{Text}
use catalyst_svm.Common.Hashing.{Hasher, hash_str}
use catalyst_svm.Common.Merkle.{next_level, merkle_levels}

abbrev pub IsDigest : Text → Type 0
IsDigest s = length s ≡ 64

module _ ⦃h : Hasher⦄ where
  -- A level has half as many nodes as the one below, rounded up.
  pub length-next_level : (level : List Text) → 2 * length (next_level level) ≤ length level + 1
  unfolding next_level
  length-next_level [] = omega arith
  length-next_level (a ∷ []) = omega arith
  length-next_level (a ∷ b ∷ rest) = omega (arith, length-next_level rest)

  length-next_level_pos : (a : Text) (rest : List Text) → 1 ≤ length (next_level (a ∷ rest))
  unfolding next_level
  length-next_level_pos a [] = omega arith
  length-next_level_pos a (b ∷ rest) = omega arith

  merkle_levels_single :
      (fuel : ℕ) (level : List Text)
      → 1 ≤ length level
      → length level ≤ fuel + 1
      → length (merkle_levels fuel level) ≡ 1
  unfolding merkle_levels
  merkle_levels_single zero level p q = omega arith
  merkle_levels_single (suc fuel) [] p q = omega arith
  merkle_levels_single (suc fuel) (a ∷ []) p q = refl
  merkle_levels_single (suc fuel) (a ∷ b ∷ rest) p q =
      merkle_levels_single fuel (next_level (a ∷ b ∷ rest)) (length-next_level_pos a (b ∷ rest))
        (let half = length-next_level (a ∷ b ∷ rest) in omega arith)

  -- With the length of a level as fuel the loop comes down to one node.
  pub merkle_levels_end :
      (a : Text) (rest : List Text) → length (merkle_levels (length (a ∷ rest)) (a ∷ rest)) ≡ 1
  merkle_levels_end a rest =
      merkle_levels_single (length (a ∷ rest)) (a ∷ rest) (omega arith) (omega arith)

  -- More fuel changes nothing.
  pub merkle_levels_fuel :
      (f g : ℕ) (level : List Text)
      → length level ≤ f + 1
      → length level ≤ g + 1
      → merkle_levels f level ≡ merkle_levels g level
  unfolding merkle_levels
  merkle_levels_fuel zero zero level p q = refl
  merkle_levels_fuel zero (suc g) [] p q = refl
  merkle_levels_fuel zero (suc g) (a ∷ []) p q = refl
  merkle_levels_fuel zero (suc g) (a ∷ b ∷ rest) p q = absurd (omega arith)
  merkle_levels_fuel (suc f) zero [] p q = refl
  merkle_levels_fuel (suc f) zero (a ∷ []) p q = refl
  merkle_levels_fuel (suc f) zero (a ∷ b ∷ rest) p q = absurd (omega arith)
  merkle_levels_fuel (suc f) (suc g) [] p q = refl
  merkle_levels_fuel (suc f) (suc g) (a ∷ []) p q = refl
  merkle_levels_fuel (suc f) (suc g) (a ∷ b ∷ rest) p q =
      let half = length-next_level (a ∷ b ∷ rest) in
      merkle_levels_fuel f g (next_level (a ∷ b ∷ rest)) (omega arith) (omega arith)

  pub hash_str-IsDigest : (s : Text) → IsDigest (hash_str s)
  unfolding hash_str
  hash_str-IsDigest s = h.length_sha256_hex s

  pub next_level-IsDigest : (level : List Text) → All IsDigest (next_level level)
  unfolding next_level
  next_level-IsDigest [] = tt
  next_level-IsDigest (a ∷ []) = (h.length_sha256_hex _, tt)
  next_level-IsDigest (a ∷ b ∷ rest) = (h.length_sha256_hex _, next_level-IsDigest rest)
