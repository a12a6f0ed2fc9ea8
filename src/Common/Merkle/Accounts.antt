-- ===== src/Common/Merkle/Accounts.antt =====
-- A state root binds the accounts: the leaf `name:balance` can be taken apart again, since a
-- balance prints as digits, so the last colon ends the name.
use catalyst_svm.Prelude.{
  ℕ, ◌≡◌, refl, ◌⊎◌, inl, inr, [], ◌∷◌, ◌++◌, arith, length, length-map, All, map, sym, ◌∙◌,
}
use catalyst_svm.Text.{Text, codes, decimal}
use catalyst_svm.Text.Decimal.{IsDigit, decimal-IsDigit, decimal-injective}
use catalyst_svm.OrderedMap.{OrderedMap}
use catalyst_svm.Common.Hashing.{Hasher, Collision}
use catalyst_svm.Common.Merkle.{state_leaf, state_root}
use catalyst_svm.Common.Merkle.Levels.{IsDigest, hash_str-IsDigest}
use catalyst_svm.Common.Merkle.Binding.{hash_str_binds, merkle_root_binds}

no_colon : (k d : Text) → ¬ All IsDigit ((k ++ codes ":") ++ d)
no_colon [] d a = omega arith
no_colon (x ∷ k) d a = no_colon k d a.1

-- The name and the digits on both sides of the last colon.
last_colon :
    (k j d e : Text)
    → All IsDigit d
    → All IsDigit e
    → (k ++ codes ":") ++ d ≡ (j ++ codes ":") ++ e
    → (k ≡ j) × (d ≡ e)
last_colon [] [] d e p q h = (refl, cc h)
last_colon [] (y ∷ j) d e p q h =
    let r : d ≡ (j ++ codes ":") ++ e = cc h in absurd (no_colon j e (rw r at p))
last_colon (x ∷ k) [] d e p q h =
    let r : (k ++ codes ":") ++ d ≡ e = cc h in absurd (no_colon k d (rw (← r) at q))
last_colon (x ∷ k) (y ∷ j) d e p q h =
    let rest = last_colon k j d e p q (cc h) in (cc (h, rest.0), rest.1)

module _ ⦃h : Hasher⦄ where
  state_leaf_binds : (a b : Text × ℕ) → state_leaf a ≡ state_leaf b → (a ≡ b) ⊎ Collision h
  unfolding state_leaf
  state_leaf_binds (k, v) (j, w) e =
      elim (hash_str_binds (k ++ codes ":" ++ decimal v) (j ++ codes ":" ++ decimal w) e) [
        | inl same ↦
            let parts =
              last_colon k j (decimal v) (decimal w) (decimal-IsDigit v) (decimal-IsDigit w) same in
            inl (cc (parts.0, decimal-injective v w parts.1))
        | inr found ↦ inr found
      ]

  leaves_bind :
      (m n : OrderedMap Text ℕ) → map state_leaf m ≡ map state_leaf n → (m ≡ n) ⊎ Collision h
  leaves_bind [] [] e = inl refl
  leaves_bind [] (b ∷ n) e = cc
  leaves_bind (a ∷ m) [] e = cc
  leaves_bind (a ∷ m) (b ∷ n) e = elim (state_leaf_binds a b (cc e)) [
    | inl same ↦ elim (leaves_bind m n (cc e)) [
      | inl rest ↦ inl (cc (same, rest))
      | inr found ↦ inr found
    ]
    | inr found ↦ inr found
  ]

  leaves-IsDigest : (m : OrderedMap Text ℕ) → All IsDigest (map state_leaf m)
  unfolding state_leaf
  leaves-IsDigest [] = tt
  leaves-IsDigest ((k, v) ∷ m) = (hash_str-IsDigest _, leaves-IsDigest m)

  -- Two states with equally many accounts and the same root are the same state, or a collision of
  -- the digest is exhibited.
  pub state_root_binds :
      (m n : OrderedMap Text ℕ)
      → length m ≡ length n
      → state_root m ≡ state_root n
      → (m ≡ n) ⊎ Collision h
  unfolding state_root
  state_root_binds [] [] k e = inl refl
  state_root_binds [] (b ∷ n) k e = absurd (omega arith)
  state_root_binds (a ∷ m) [] k e = absurd (omega arith)
  state_root_binds (a ∷ m) (b ∷ n) k e =
      elim (merkle_root_binds (map state_leaf (a ∷ m)) (map state_leaf (b ∷ n))
        (length-map state_leaf (a ∷ m) ∙ k ∙ sym (length-map state_leaf (b ∷ n)))
        (leaves-IsDigest (a ∷ m)) (leaves-IsDigest (b ∷ n)) e) [
          | inl same ↦ leaves_bind (a ∷ m) (b ∷ n) same
          | inr found ↦ inr found
        ]
