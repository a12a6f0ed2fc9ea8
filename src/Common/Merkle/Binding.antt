-- ===== src/Common/Merkle/Binding.antt =====
-- A Merkle root binds its leaves, and a state root the accounts: two inputs of one size with one
-- root are equal, or they lead to two texts with one digest.
use catalyst_svm.Prelude.{
  ℕ, zero, suc, ◌≡◌, refl, sym, ap, ◌∙◌, ◌⊎◌, inl, inr, List, [], ◌∷◌, ◌++◌, arith, length, All,
  get_or, append-injective,
}
use catalyst_svm.Text.{Text}
use catalyst_svm.Text.Order.{text_cases}
use catalyst_svm.Common.Hashing.{Hasher, hash_str, Collision}
use catalyst_svm.Common.Merkle.{next_level, merkle_levels, merkle_root}
use catalyst_svm.Common.Merkle.Levels.{IsDigest, next_level-IsDigest, merkle_levels_end}

module _ ⦃h : Hasher⦄ where
  -- Equal digests come from equal texts, or make a collision.
  pub hash_str_binds : (s t : Text) → hash_str s ≡ hash_str t → (s ≡ t) ⊎ Collision h
  unfolding hash_str
  hash_str_binds s t e = elim (text_cases s t) [
    | inl same ↦ inl same
    | inr other ↦ inr (s, t, other, e)
  ]

  -- The node over two children binds both.
  node_binds :
      (a b c d : Text)
      → IsDigest a
      → IsDigest c
      → hash_str (a ++ b) ≡ hash_str (c ++ d)
      → ((a ≡ c) × (b ≡ d)) ⊎ Collision h
  node_binds a b c d p q e = elim (hash_str_binds (a ++ b) (c ++ d) e) [
    | inl same ↦ inl (append-injective a c b d (p ∙ sym q) same)
    | inr found ↦ inr found
  ]

  next_level_binds :
      (xs ys : List Text)
      → length xs ≡ length ys
      → All IsDigest xs
      → All IsDigest ys
      → next_level xs ≡ next_level ys
      → (xs ≡ ys) ⊎ Collision h
  unfolding next_level
  next_level_binds [] [] n p q e = inl refl
  next_level_binds [] (c ∷ ys) n p q e = absurd (omega arith)
  next_level_binds (a ∷ xs) [] n p q e = absurd (omega arith)
  next_level_binds (a ∷ []) (c ∷ []) n p q e = elim (node_binds a a c c p.0 q.0 (cc e)) [
    | inl same ↦ inl (cc same.0)
    | inr found ↦ inr found
  ]
  next_level_binds (a ∷ []) (c ∷ d ∷ ys) n p q e = absurd (omega arith)
  next_level_binds (a ∷ b ∷ xs) (c ∷ []) n p q e = absurd (omega arith)
  next_level_binds (a ∷ b ∷ xs) (c ∷ d ∷ ys) n p q e = elim (node_binds a b c d p.0 q.0 (cc e)) [
    | inl same ↦ elim (next_level_binds xs ys (omega arith) p.1.1 q.1.1 (cc e)) [
      | inl rest ↦ inl (cc (same.0, same.1, rest))
      | inr found ↦ inr found
    ]
    | inr found ↦ inr found
  ]

  length-next_level_eq :
      (xs ys : List Text) → length xs ≡ length ys → length (next_level xs) ≡ length (next_level ys)
  unfolding next_level
  length-next_level_eq [] [] n = refl
  length-next_level_eq [] (c ∷ ys) n = absurd (omega arith)
  length-next_level_eq (a ∷ xs) [] n = absurd (omega arith)
  length-next_level_eq (a ∷ []) (c ∷ []) n = refl
  length-next_level_eq (a ∷ []) (c ∷ d ∷ ys) n = absurd (omega arith)
  length-next_level_eq (a ∷ b ∷ xs) (c ∷ []) n = absurd (omega arith)
  length-next_level_eq (a ∷ b ∷ xs) (c ∷ d ∷ ys) n =
      ap suc (length-next_level_eq xs ys (omega arith))

  merkle_levels_binds :
      (fuel : ℕ) (xs ys : List Text)
      → length xs ≡ length ys
      → All IsDigest xs
      → All IsDigest ys
      → merkle_levels fuel xs ≡ merkle_levels fuel ys
      → (xs ≡ ys) ⊎ Collision h
  unfolding merkle_levels
  merkle_levels_binds zero xs ys n p q e = inl e
  merkle_levels_binds (suc fuel) [] [] n p q e = inl refl
  merkle_levels_binds (suc fuel) [] (c ∷ ys) n p q e = absurd (omega arith)
  merkle_levels_binds (suc fuel) (a ∷ xs) [] n p q e = absurd (omega arith)
  merkle_levels_binds (suc fuel) (a ∷ []) (c ∷ []) n p q e = inl e
  merkle_levels_binds (suc fuel) (a ∷ []) (c ∷ d ∷ ys) n p q e = absurd (omega arith)
  merkle_levels_binds (suc fuel) (a ∷ b ∷ xs) (c ∷ []) n p q e = absurd (omega arith)
  merkle_levels_binds (suc fuel) (a ∷ b ∷ xs) (c ∷ d ∷ ys) n p q e =
      elim (merkle_levels_binds fuel (next_level (a ∷ b ∷ xs)) (next_level (c ∷ d ∷ ys))
        (length-next_level_eq (a ∷ b ∷ xs) (c ∷ d ∷ ys) n) (next_level-IsDigest (a ∷ b ∷ xs))
        (next_level-IsDigest (c ∷ d ∷ ys)) e) [
          | inl same ↦ next_level_binds (a ∷ b ∷ xs) (c ∷ d ∷ ys) n p q same
          | inr found ↦ inr found
        ]

  -- A level of one node is that node.
  single :
      (xs ys : List Text)
      → length xs ≡ 1
      → length ys ≡ 1
      → get_or xs 0 [] ≡ get_or ys 0 []
      → xs ≡ ys
  single [] ys n m e = absurd (omega arith)
  single (x ∷ []) [] n m e = absurd (omega arith)
  single (x ∷ []) (y ∷ []) n m e = cc e
  single (x ∷ []) (y ∷ z ∷ ys) n m e = absurd (omega arith)
  single (x ∷ z ∷ xs) ys n m e = absurd (omega arith)

  -- Two lists of equally many digests (64 characters each) with the same Merkle root are the same
  -- list, or a collision of the digest is exhibited.
  pub merkle_root_binds :
      (xs ys : List Text)
      → length xs ≡ length ys
      → All IsDigest xs
      → All IsDigest ys
      → merkle_root xs ≡ merkle_root ys
      → (xs ≡ ys) ⊎ Collision h
  unfolding merkle_root
  merkle_root_binds [] [] n p q e = inl refl
  merkle_root_binds [] (c ∷ ys) n p q e = absurd (omega arith)
  merkle_root_binds (a ∷ xs) [] n p q e = absurd (omega arith)
  merkle_root_binds (a ∷ []) (c ∷ []) n p q e = inl (cc e)
  merkle_root_binds (a ∷ []) (c ∷ d ∷ ys) n p q e = absurd (omega arith)
  merkle_root_binds (a ∷ b ∷ xs) (c ∷ []) n p q e = absurd (omega arith)
  merkle_root_binds (a ∷ b ∷ xs) (c ∷ d ∷ ys) n p q e =
      let k = length (a ∷ b ∷ xs) in
      let e' =
        single (merkle_levels k (a ∷ b ∷ xs)) (merkle_levels (length (c ∷ d ∷ ys)) (c ∷ d ∷ ys))
          (merkle_levels_end a (b ∷ xs)) (merkle_levels_end c (d ∷ ys)) e in
      merkle_levels_binds k (a ∷ b ∷ xs) (c ∷ d ∷ ys) n p q
        (e' ∙ ap (λ m. merkle_levels m (c ∷ d ∷ ys)) (sym n))
