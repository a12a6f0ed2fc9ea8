-- ===== src/Prelude/Order.antt =====
-- A total order by a comparison, the bound `Ord` of a map's keys.
use Prim.Native.Nat.{Ordering}
use Prim.Native.Nat.Ordering.{lt, eq, gt}
use mathlib.Core.Path.{◌≡◌, refl}
use mathlib.Core.Logic.{◌≢◌, ◌⊎◌, inl, inr}

abbrev pub flip : Ordering → Ordering
flip lt = gt
flip eq = eq
flip gt = lt

pub record Ord {ℓ} (K : Type ℓ) : Type ℓ where
  pub cmp : K → K → Ordering
  pub cmp_self : (a : K) → cmp a a ≡ eq
  pub eq_of_cmp : (a b : K) → cmp a b ≡ eq → a ≡ b
  pub cmp_flip : (a b : K) → cmp b a ≡ flip (cmp a b)
  pub cmp_trans : (a b c : K) → cmp a b ≡ lt → cmp b c ≡ lt → cmp a c ≡ lt

module _ {ℓ} {K : Type ℓ} ⦃o : Ord K⦄ where
  -- The comparison decides equality.
  pub key_cases : (a b : K) → (a ≡ b) ⊎ (a ≢ b)
  key_cases a b = go (o.cmp a b) refl
    where
      go : (c : Ordering) → o.cmp a b ≡ c → (a ≡ b) ⊎ (a ≢ b)
      go eq e = inl (o.eq_of_cmp a b e)
      go lt e = inr (λ p. cc (e, o.cmp_self a))
      go gt e = inr (λ p. cc (e, o.cmp_self a))
