-- ===== src/Prelude/Perms.antt =====
-- Rearranged lists: an element that moves, and one that comes to the end.
use mathlib.Core.List.{List, [], ◌∷◌, ◌++◌, append-nil, append_assoc, Perm, perm_middle}
use mathlib.Core.Path.{sym, ◌∙◌, ap, subst}

module _ {A : Type 0} where
  -- An element inside the second of three parts, taken to the front.
  pub taken :
      (first before after last : List A) (x : A)
      → Perm
          (first ++ ((before ++ (x ∷ after)) ++ last))
          (x ∷ (first ++ ((before ++ after) ++ last)))
  taken first before after last x =
      let inner = ap (λ r. first ++ r) (append_assoc before (x ∷ after) last) in
      let outer = sym (append_assoc first before (x ∷ (after ++ last))) in
      let back =
        append_assoc first before (after ++ last)
        ∙ ap (λ r. first ++ r) (sym (append_assoc before after last)) in
      subst (λ xs. Perm xs (x ∷ (first ++ ((before ++ after) ++ last)))) (sym (inner ∙ outer))
        (subst (λ ys. Perm ((first ++ before) ++ (x ∷ (after ++ last))) (x ∷ ys)) back
          (perm_middle (first ++ before) (after ++ last)))

  -- The last of three parts grows in front.
  pub taken_last :
      (first middle last : List A) (x : A)
      → Perm (first ++ (middle ++ (x ∷ last))) (x ∷ (first ++ (middle ++ last)))
  taken_last first middle last x =
      subst (λ xs. Perm xs (x ∷ (first ++ (middle ++ last)))) (append_assoc first middle (x ∷ last))
        (subst (λ ys. Perm ((first ++ middle) ++ (x ∷ last)) (x ∷ ys))
          (append_assoc first middle last) (perm_middle (first ++ middle) last))

  -- At the end, or in front.
  pub taken_end : (xs : List A) (x : A) → Perm (xs ++ (x ∷ [])) (x ∷ xs)
  taken_end xs x = subst (λ ys. Perm (xs ++ (x ∷ [])) (x ∷ ys)) (append-nil xs) (perm_middle xs [])
