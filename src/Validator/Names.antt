-- ===== src/Validator/Names.antt =====
-- The names of the validator's transactions and batches are all different.
use catalyst_svm.Prelude.{
  ℕ, zero, suc, ◌<◌, ◌≡◌, ◌≢◌, List, [], ◌∷◌, ◌++◌, map, length, arith, wrap64, u64_mod, All,
  All-append, sym, subst,
}
use catalyst_svm.Prelude.Float.{Float}
use catalyst_svm.Text.{Text, codes}
use catalyst_svm.Text.Hexadecimal.{padded_hex-injective, padded_decimal-injective}
use catalyst_svm.Common.Hashing.{Hasher}
use catalyst_svm.Validator.{Validator, tx_name, batch_name}
use catalyst_svm.Validator.Steps.{World, initial_world, Reaches}
use catalyst_svm.Validator.Drained.{numbered}
use catalyst_svm.Validator.Queue.{reached-IsOrderly}

tx_name-injective : (m n : ℕ) → tx_name m ≡ tx_name n → m ≡ n
unfolding tx_name
tx_name-injective m n e = padded_hex-injective (codes "tx_") 8 m n e

batch_name-injective : (m n : ℕ) → batch_name m ≡ batch_name n → m ≡ n
unfolding batch_name
batch_name-injective m n e = padded_decimal-injective (codes "batch_") 6 m n e

-- No element occurs twice.
abbrev pub AreDistinct : List Text → Type 0
AreDistinct [] = Unit
AreDistinct (x ∷ xs) = All (λ y. x ≢ y) xs × AreDistinct xs

snoc-AreDistinct :
    (xs : List Text) (y : Text)
    → AreDistinct xs
    → All (λ x. x ≢ y) xs
    → AreDistinct (xs ++ (y ∷ []))
snoc-AreDistinct [] y d a = (tt, tt)
snoc-AreDistinct (x ∷ xs) y (new, d) (other, a) =
    (All-append (λ z. x ≢ z) xs (y ∷ []) new (other, tt), snoc-AreDistinct xs y d a)

module _ (f : ℕ → Text) (injective : (m n : ℕ) → f m ≡ f n → m ≡ n) where
  earlier_differ : (m n : ℕ) → m < n → n < u64_mod → All (λ x. x ≢ f (wrap64 n)) (numbered f m)
  unfolding numbered
  earlier_differ zero n less bound = tt
  earlier_differ (suc m) n less bound =
      All-append (λ x. x ≢ f (wrap64 n)) (numbered f m) (f (wrap64 (suc m)) ∷ [])
        (earlier_differ m n (omega arith) bound)
        (λ e. let same = injective (wrap64 (suc m)) (wrap64 n) e in omega arith, tt)

  numbered-AreDistinct : (n : ℕ) → n < u64_mod → AreDistinct (numbered f n)
  unfolding numbered
  numbered-AreDistinct zero bound = tt
  numbered-AreDistinct (suc n) bound =
      snoc-AreDistinct (numbered f n) (f (wrap64 (suc n))) (numbered-AreDistinct n (omega arith))
        (earlier_differ n (suc n) (omega arith) bound)

module _ ⦃h : Hasher⦄ ⦃f : Float⦄ (v : Validator) where
  -- As long as fewer than 2 ^ 64 transactions were submitted and fewer than 2 ^ 64 batches sealed, no
  -- two transactions have one name and no two batches do.
  pub names-AreDistinct :
      (w : World)
      → Reaches v initial_world w
      → length w.submitted < u64_mod
      → length w.sealed < u64_mod
      → AreDistinct (map (λ t. t.tx_id) w.submitted) × AreDistinct (map (λ b. b.0) w.sealed)
  names-AreDistinct w path txs batches =
      let i = reached-IsOrderly v w path in
      (
        subst AreDistinct (sym i.tx_ids)
            (numbered-AreDistinct tx_name tx_name-injective (length w.submitted) txs),
        subst AreDistinct (sym i.batch_ids)
            (numbered-AreDistinct batch_name batch_name-injective (length w.sealed) batches),
      )
