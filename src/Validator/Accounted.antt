-- ===== src/Validator/Accounted.antt =====
-- The names of the sealed batches, as those on record, those in flight and those that were lost.
use mathlib.Core.List.{Perm, perm_middle}
use mathlib.Core.List.Perm
use catalyst_svm.Prelude.{sym, subst, List, [], ◌∷◌, ◌++◌, append_assoc, append-nil}
use catalyst_svm.Prelude.Perms.{taken, taken_last, taken_end}
use catalyst_svm.Text.{Text}

-- Every sealed batch is on record, in flight or lost, each as often as it was sealed.
abbrev pub AreAccounted : List Text → List Text → List Text → List Text → Type 0
AreAccounted recorded in_flight lost sealed = Perm (recorded ++ (in_flight ++ lost)) sealed

module _ (recorded before after lost : List Text) (id : Text) (sealed : List Text)
    (p : AreAccounted recorded (before ++ (id ∷ after)) lost sealed) where
  -- A batch in flight is recorded, or lost.
  pub recorded-AreAccounted : AreAccounted (recorded ++ (id ∷ [])) (before ++ after) lost sealed
  recorded-AreAccounted =
      let others = (before ++ after) ++ lost in
      Perm.trans
        (subst (λ xs. Perm xs (id ∷ (recorded ++ others)))
          (sym (append_assoc recorded (id ∷ []) others)) (perm_middle recorded others))
        (Perm.trans (Perm.symm (taken recorded before after lost id)) p)

  pub lost-AreAccounted : AreAccounted recorded (before ++ after) (id ∷ lost) sealed
  lost-AreAccounted =
      Perm.trans (taken_last recorded (before ++ after) lost id)
        (Perm.trans (Perm.symm (taken recorded before after lost id)) p)

-- A batch is sealed.
pub sealed-AreAccounted :
    (recorded in_flight lost sealed : List Text) (id : Text)
    → AreAccounted recorded in_flight lost sealed
    → AreAccounted recorded (in_flight ++ (id ∷ [])) lost (sealed ++ (id ∷ []))
sealed-AreAccounted recorded in_flight lost sealed id p =
    Perm.trans
      (subst
        (λ x.
          Perm (recorded ++ ((in_flight ++ (id ∷ [])) ++ lost)) (id ∷ (recorded ++ (x ++ lost))))
        (append-nil in_flight) (taken recorded in_flight [] lost id))
      (Perm.trans (Perm.cons id p) (Perm.symm (taken_end sealed id)))
