-- ===== src/OrderedMap.antt =====
-- `std::collections::BTreeMap`: an association list in the order of its keys.
pub mod Lookup
pub mod Sorted
use Prim.Native.Nat.Ordering.{lt, eq, gt}
use catalyst_svm.Prelude.{List, [], ◌∷◌, Option, none, some}
use catalyst_svm.Prelude.Order.{Ord}

abbrev pub OrderedMap {ℓ κ} : Type ℓ → Type κ → Type (ℓ ⊔ κ)
OrderedMap K V = List (K × V)

module _ {ℓ κ} {K : Type ℓ} {V : Type κ} ⦃o : Ord K⦄ where
  -- `m.get(&q)`
  unfoldable pub get : OrderedMap K V → K → Option V
  get [] q = none
  get ((k, v) ∷ m) q = elim (o.cmp q k) [ lt ↦ none | eq ↦ some v | gt ↦ get m q ]

  -- `m.insert(q, w)`
  unfoldable pub insert : OrderedMap K V → K → V → OrderedMap K V
  insert [] q w = (q, w) ∷ []
  insert ((k, v) ∷ m) q w = elim (o.cmp q k) [
    | lt ↦ (q, w) ∷ (k, v) ∷ m
    | eq ↦ (q, w) ∷ m
    | gt ↦ (k, v) ∷ insert m q w
  ]

  -- `m.entry(q).or_insert(w);`
  unfoldable pub or_insert : OrderedMap K V → K → V → OrderedMap K V
  unfolding get insert
  or_insert m q w = elim (get m q) [ none ↦ insert m q w | some _ ↦ m ]

  -- `m.remove(&q);`
  unfoldable pub remove : OrderedMap K V → K → OrderedMap K V
  remove [] q = []
  remove ((k, v) ∷ m) q = elim (o.cmp q k) [ lt ↦ (k, v) ∷ m | eq ↦ m | gt ↦ (k, v) ∷ remove m q ]
