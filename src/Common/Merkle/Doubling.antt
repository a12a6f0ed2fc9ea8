-- ===== src/Common/Merkle/Doubling.antt =====
-- The last leaf of an odd level is doubled, so an odd list and the same list with its last leaf
-- twice have one root: the root does not bind the number of leaves.
use catalyst_svm.Prelude.{
  ℕ, suc, ◌+◌, ◌-◌, ◌≡◌, refl, ap, ◌∙◌, List, [], ◌∷◌, ◌++◌, arith, length, get_or, length-append,
}
use catalyst_svm.Text.{Text}
use catalyst_svm.Common.Hashing.{Hasher}
use catalyst_svm.Common.Merkle.{next_level, merkle_levels, merkle_root}
use catalyst_svm.Common.Merkle.Levels.{length-next_level, merkle_levels_fuel}

module _ ⦃h : Hasher⦄ where
  next_level_doubled :
      (k : ℕ) (xs : List Text) (a : Text)
      → length xs ≡ k + k
      → next_level (xs ++ a ∷ []) ≡ next_level (xs ++ a ∷ a ∷ [])
  unfolding next_level
  next_level_doubled k [] a n = refl
  next_level_doubled k (x ∷ []) a n = absurd (omega arith)
  next_level_doubled k (x ∷ y ∷ xs) a n = cc (next_level_doubled (k - 1) xs a (omega arith))

  -- After an even number of at least two leaves, one more leaf and the same leaf twice give the
  -- same Merkle root, so the root does not bind the number of leaves.
  pub merkle_root_doubled :
      (k : ℕ) (x y : Text) (xs : List Text) (a : Text)
      → length (x ∷ y ∷ xs) ≡ k + k
      → merkle_root ((x ∷ y ∷ xs) ++ a ∷ []) ≡ merkle_root ((x ∷ y ∷ xs) ++ a ∷ a ∷ [])
  unfolding merkle_root merkle_levels
  merkle_root_doubled k x y xs a n =
      let even = next_level_doubled k (x ∷ y ∷ xs) a n in
      let small = length-next_level ((x ∷ y ∷ xs) ++ a ∷ a ∷ []) in
      ap (λ level. get_or level 0 [])
        (ap (merkle_levels (suc (length (xs ++ a ∷ [])))) even
          ∙ merkle_levels_fuel (suc (length (xs ++ a ∷ []))) (suc (length (xs ++ a ∷ a ∷ [])))
              (next_level ((x ∷ y ∷ xs) ++ a ∷ a ∷ []))
              (omega (arith, length-append xs (a ∷ []), length-append xs (a ∷ a ∷ [])))
              (omega (arith, length-append xs (a ∷ []), length-append xs (a ∷ a ∷ []))))
