-- ===== src/OrderedMap/Sorted.antt =====
-- The keys of a map ascend, every operation keeps that, and such a map is known by its lookups.
use Prim.Native.Nat.Ordering.{lt, gt}
use catalyst_svm.Prelude.{[], ◌∷◌, none, some, ◌≡◌, refl, ap, ◌∙◌, subst, arith}
use catalyst_svm.Prelude.Order.{Ord}
use catalyst_svm.OrderedMap.{OrderedMap, get, insert, or_insert, remove}

module _ {ℓ κ} {K : Type ℓ} {V : Type κ} ⦃o : Ord K⦄ where
  -- Every key lies above the bound.
  abbrev pub Above : K → OrderedMap K V → Type 0
  Above b [] = Unit
  Above b ((k, v) ∷ m) = (o.cmp b k ≡ lt) × Above b m

  abbrev pub IsSorted : OrderedMap K V → Type 0
  IsSorted [] = Unit
  IsSorted ((k, v) ∷ m) = Above k m × IsSorted m

  pub Above-trans : (a b : K) (m : OrderedMap K V) → o.cmp a b ≡ lt → Above b m → Above a m
  Above-trans a b [] h s = tt
  Above-trans a b ((k, v) ∷ m) h s = (o.cmp_trans a b k h s.0, Above-trans a b m h s.1)

  pub Above-insert :
      (b : K) (m : OrderedMap K V) (q : K) (w : V)
      → o.cmp b q ≡ lt
      → Above b m
      → Above b (insert m q w)
  unfolding insert
  Above-insert b [] q w h s = (h, tt)
  Above-insert b ((k, v) ∷ m) q w h s = ground (arith, Above-insert b m q w h s.1)

  -- `insert` keeps the keys ascending.
  pub insert-IsSorted : (m : OrderedMap K V) (q : K) (w : V) → IsSorted m → IsSorted (insert m q w)
  unfolding insert
  insert-IsSorted [] q w s = (tt, tt)
  insert-IsSorted ((k, v) ∷ m) q w s = ground (
    arith,
    insert-IsSorted m q w s.1,
    Above-trans q k m,
    o.eq_of_cmp q k,
    o.cmp_flip q k,
    Above-insert k m q w,
  )

  pub or_insert-IsSorted :
      (m : OrderedMap K V) (q : K) (w : V) → IsSorted m → IsSorted (or_insert m q w)
  unfolding or_insert
  or_insert-IsSorted m q w s = ground (arith, insert-IsSorted m q w s)

  pub get-Above : (m : OrderedMap K V) (q : K) → Above q m → get m q ≡ none
  unfolding get
  get-Above [] q s = refl
  get-Above ((k, v) ∷ m) q s = rw (s.0, get)

  -- A key that was removed is not found.
  pub get-remove_self : (m : OrderedMap K V) (q : K) → IsSorted m → get (remove m q) q ≡ none
  unfolding get remove
  get-remove_self [] q s = refl
  get-remove_self ((k, v) ∷ m) q s =
      ground (arith, get-remove_self m q s.1, get-Above m q, o.eq_of_cmp q k)

  get-head : (k : K) (v : V) (m : OrderedMap K V) → get ((k, v) ∷ m) k ≡ some v
  unfolding get
  get-head k v m = rw (o.cmp_self, get)

  get-tail :
      (k : K) (v : V) (m : OrderedMap K V) (p : K) → o.cmp p k ≡ gt → get ((k, v) ∷ m) p ≡ get m p
  unfolding get
  get-tail k v m p h = rw (h, get)

  get_below :
      (k : K) (v : V) (m : OrderedMap K V) (p : K) → o.cmp p k ≡ lt → get ((k, v) ∷ m) p ≡ none
  unfolding get
  get_below k v m p h = rw (h, get)

  -- Under one head two sorted maps that read alike have tails that read alike.
  tails_agree :
      (k : K) (v : V) (m n : OrderedMap K V)
      → IsSorted ((k, v) ∷ m)
      → IsSorted ((k, v) ∷ n)
      → ((p : K) → get ((k, v) ∷ m) p ≡ get ((k, v) ∷ n) p)
      → (p : K) → get m p ≡ get n p
  tails_agree k v m n s t h p = ground (
    arith,
    h p,
    o.eq_of_cmp p k,
    get-tail k v m p,
    get-tail k v n p,
    get-Above m p,
    get-Above n p,
    Above-trans p k m,
    Above-trans p k n,
  )

  heads_agree :
      (k : K) (v : V) (m : OrderedMap K V) (j : K) (w : V) (n : OrderedMap K V)
      → ((p : K) → get ((k, v) ∷ m) p ≡ get ((j, w) ∷ n) p)
      → (k ≡ j) × (v ≡ w)
  heads_agree k v m j w n h = ground (
    arith,
    h k,
    h j,
    get-head k v m,
    get-head j w n,
    get_below j w n k,
    get_below k v m j,
    o.cmp_flip k j,
    o.eq_of_cmp k j,
  )

  -- Two maps with ascending keys that look up every key alike are the same list.
  pub eq_of_get :
      (m n : OrderedMap K V) → IsSorted m → IsSorted n → ((p : K) → get m p ≡ get n p) → m ≡ n
  unfolding get
  eq_of_get [] [] s t h = refl
  eq_of_get [] ((j, w) ∷ n) s t h = cc (h j, get-head j w n)
  eq_of_get ((k, v) ∷ m) [] s t h = cc (h k, get-head k v m)
  eq_of_get ((k, v) ∷ m) ((j, w) ∷ n) s t h =
      let heads = heads_agree k v m j w n h in
      let e : ◌≡◌ {A = OrderedMap K V} ((j, w) ∷ n) ((k, v) ∷ n) = cc (heads.0, heads.1) in
      let tails = tails_agree k v m n s (subst IsSorted e t) (λ p. h p ∙ ap (λ x. get x p) e) in
      cc (e, eq_of_get m n s.1 t.1 tails)
