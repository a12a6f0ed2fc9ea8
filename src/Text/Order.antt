-- ===== src/Text/Order.antt =====
-- The order of texts is total, and decides equality.
use catalyst_svm.Prelude.{◌≡◌, refl, ◌≢◌, ◌↔◌, ◌⊎◌, inl, inr, [], ◌∷◌, true, arith, Bool-cases}
use catalyst_svm.Prelude.Order.{Ord, flip}
use Prim.Native.Nat.Ordering.{lt, eq}
use catalyst_svm.Text.{Text, cmp_text, text_eq}

pub cmp_text_self : (s : Text) → cmp_text s s ≡ eq
cmp_text_self [] = refl
cmp_text_self (x ∷ s) = ground (arith, cmp_text_self s)

pub eq_of_cmp_text : (s t : Text) → cmp_text s t ≡ eq → s ≡ t
eq_of_cmp_text [] [] h = refl
eq_of_cmp_text [] (y ∷ t) h = cc
eq_of_cmp_text (x ∷ s) [] h = cc
eq_of_cmp_text (x ∷ s) (y ∷ t) h = ground (arith, eq_of_cmp_text s t)

pub cmp_text-flip : (s t : Text) → cmp_text t s ≡ flip (cmp_text s t)
cmp_text-flip [] [] = refl
cmp_text-flip [] (y ∷ t) = refl
cmp_text-flip (x ∷ s) [] = refl
cmp_text-flip (x ∷ s) (y ∷ t) = ground (arith, cmp_text-flip s t)

pub cmp_text_trans : (s t u : Text) → cmp_text s t ≡ lt → cmp_text t u ≡ lt → cmp_text s u ≡ lt
cmp_text_trans [] [] u h k = cc
cmp_text_trans [] (y ∷ t) [] h k = cc
cmp_text_trans [] (y ∷ t) (z ∷ u) h k = refl
cmp_text_trans (x ∷ s) [] u h k = cc
cmp_text_trans (x ∷ s) (y ∷ t) [] h k = cc
cmp_text_trans (x ∷ s) (y ∷ t) (z ∷ u) h k = ground (arith, cmp_text_trans s t u)

instance unfoldable pub text_ord : Ord Text
text_ord = record {
  cmp = cmp_text;
  cmp_self = cmp_text_self;
  eq_of_cmp = eq_of_cmp_text;
  cmp_flip = cmp_text-flip;
  cmp_trans = cmp_text_trans;
}

pub text_eq_iff : (s t : Text) → (text_eq s t ≡ true) ↔ (s ≡ t)
unfolding text_eq
text_eq_iff s t = (λ h. ground (arith, eq_of_cmp_text s t), λ e. ground (arith, cmp_text_self s))

pub text_eq_refl : (s : Text) → text_eq s s ≡ true
text_eq_refl s = (text_eq_iff s s).1 refl

pub text_cases : (s t : Text) → (s ≡ t) ⊎ (s ≢ t)
text_cases s t = elim (Bool-cases (text_eq s t)) [
  | inl same ↦ inl ((text_eq_iff s t).0 same)
  | inr other ↦ inr (λ e. cc ((text_eq_iff s t).1 e))
]
