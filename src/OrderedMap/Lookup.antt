-- ===== src/OrderedMap/Lookup.antt =====
-- What a lookup finds after a write.
use catalyst_svm.Prelude.{
  [], ◌∷◌, none, some, ◌≡◌, ◌≢◌, refl, sym, ap, ◌∙◌, inl, inr, length, ◌+◌, arith,
}
use catalyst_svm.Prelude.Order.{Ord, key_cases}
use catalyst_svm.OrderedMap.{OrderedMap, get, insert, or_insert}

module _ {ℓ κ} {K : Type ℓ} {V : Type κ} ⦃o : Ord K⦄ where
  -- A key reads back what was written last.
  pub get-insert_self : (m : OrderedMap K V) (q : K) (w : V) → get (insert m q w) q ≡ some w
  unfolding get insert
  get-insert_self [] q w = rw (o.cmp_self, get)
  get-insert_self ((k, v) ∷ m) q w = ground (arith, get-insert_self m q w, o.cmp_self q)

  -- A write leaves every other key alone.
  pub get-insert_ne :
      (m : OrderedMap K V) (q p : K) (w : V) → p ≢ q → get (insert m q w) p ≡ get m p
  unfolding get insert
  get-insert_ne [] q p w n = ground (arith, o.eq_of_cmp p q)
  get-insert_ne ((k, v) ∷ m) q p w n = ground (
    arith,
    get-insert_ne m q p w n,
    o.eq_of_cmp p q,
    o.eq_of_cmp q k,
    o.cmp_flip p q,
    o.cmp_trans p q k,
    o.cmp_flip p k,
  )

  pub get-or_insert_self :
      (m : OrderedMap K V) (q : K) (w v : V) → get m q ≡ some v → or_insert m q w ≡ m
  unfolding or_insert
  get-or_insert_self m q w v h = rw (h, or_insert)

  pub get-or_insert_ne :
      (m : OrderedMap K V) (q p : K) (w : V) → p ≢ q → get (or_insert m q w) p ≡ get m p
  unfolding or_insert
  get-or_insert_ne m q p w n = ground (arith, get-insert_ne m q p w n)

  -- A property of every entry that is found holds on after a write that satisfies it.
  pub pointwise-insert {μ} :
      (P : K → V → Type μ) (m : OrderedMap K V) (q : K) (w : V)
      → P q w
      → ((k : K) (v : V) → get m k ≡ some v → P k v)
      → (k : K) (v : V) → get (insert m q w) k ≡ some v
      → P k v
  pointwise-insert P m q w new old k v found = elim (key_cases k q) [
    | inl same ↦
        let e : get (insert m q w) k ≡ some w =
          ap (get (insert m q w)) same ∙ get-insert_self m q w in
        let value : v ≡ w = cc (found, e) in rw (same, value) new
    | inr other ↦ old k v (sym (get-insert_ne m q k w other) ∙ found)
  ]

  pub length-insert_new :
      (m : OrderedMap K V) (q : K) (w : V) → get m q ≡ none → length (insert m q w) ≡ length m + 1
  unfolding get insert
  length-insert_new [] q w h = refl
  length-insert_new ((k, v) ∷ m) q w h = ground (arith, length-insert_new m q w)

  pub length-insert_old :
      (m : OrderedMap K V) (q : K) (w v : V) → get m q ≡ some v → length (insert m q w) ≡ length m
  unfolding get insert
  length-insert_old [] q w v h = cc
  length-insert_old ((k, u) ∷ m) q w v h = ground (arith, length-insert_old m q w v)
