-- ===== src/Prelude/Index.antt =====
-- The loop `for _, x := range xs { m[key(x)] = value(x) }`: a later element replaces an earlier one
-- with its key.
use mathlib.Core.List.Memᴰ
use mathlib.Core.Path.{◌≡◌, refl, sym, ◌∙◌, ap, subst}
use mathlib.Core.Logic.{◌≢◌, ◌⊎◌, inl, inr, ◌↔◌}
use mathlib.Core.Bool.{true, false, true≢false, false≢true}
use mathlib.Core.List.{List, [], ◌∷◌, ◌++◌, map, Memᴰ}
use mathlib.Core.Option.{Option, none, some}
use native.Mathlib.Omega.{arith}
use kcm.Prelude.Tests.{if◌then◌else◌, Bool-cases}
use kcm.Prelude.Keys.{Eq, ◌==◌, Eq-cases, beq_refl}
use kcm.Prelude.Maps.{
  Map, lookup, insert, has_key, get_or, lookup-insert, has_key-insert, mem-insert,
}
use kcm.Prelude.Sets.{contains, mem→contains, IsNodup}

module _ {ℓ κ μ} {A : Type ℓ} {K : Type κ} {V : Type μ} ⦃e : Eq K⦄ (key : A → K)
    (value : A → V) where
  unfoldable pub index_by : List A → Map K V → Map K V
  index_by [] m = m
  index_by (x ∷ xs) m = index_by xs (insert (key x) (value x) m)

  has_key-index_by :
      (k : K) (xs : List A) (m : Map K V)
      → has_key k (index_by xs m) ≡ true
      → (has_key k m ≡ true) ⊎ Memᴰ k (map key xs)
  unfolding index_by
  has_key-index_by k [] m h = inl h
  has_key-index_by k (x ∷ xs) m h = elim (has_key-index_by k xs (insert (key x) (value x) m) h) [
    | inl old ↦ elim (Eq-cases (key x) k) [
      | inl (same, t) ↦ inr (Memᴰ.head (sym same))
      | inr (other, f) ↦ inl (sym (has_key-insert (key x) k (value x) m ∙ rw f) ∙ old)
    ]
    | inr later ↦ inr (Memᴰ.tail later)
  ]

  has_key_kept :
      (k : K) (xs : List A) (m : Map K V)
      → (has_key k m ≡ true) ⊎ Memᴰ k (map key xs)
      → has_key k (index_by xs m) ≡ true
  unfolding index_by
  has_key_kept k [] m (inl h) = h
  has_key_kept k [] m (inr n) = elim n [ ]
  has_key_kept k (x ∷ xs) m h =
      let inserted = has_key-insert (key x) k (value x) m in
      has_key_kept k xs (insert (key x) (value x) m) (elim h [
        | inl old ↦ inl (elim (Bool-cases (key x == k)) [
          | inl t ↦ inserted ∙ rw t
          | inr f ↦ inserted ∙ rw f old
        ])
        | inr n ↦ elim (Memᴰ.cases_cons n) [
          | inl p ↦ inl (inserted ∙ rw ((e.beq_iff (key x) k).1 (sym p)))
          | inr later ↦ inr later
        ]
      ])

  -- The keys of the index are those of the elements.
  pub has_key_iff :
      (xs : List A) (k : K) → (has_key k (index_by xs []) ≡ true) ↔ Memᴰ k (map key xs)
  has_key_iff xs k = (
    λ h. elim (has_key-index_by k xs [] h) [ inl old ↦ absurd (true≢false (sym old)) | inr m ↦ m ],
    λ m. has_key_kept k xs [] (inr m),
  )

  -- An entry of the index is that of an element.
  pub mem-index_by :
      (xs : List A) (m : Map K V) {p : K × V}
      → Memᴰ p (index_by xs m)
      → ((x : A) × Memᴰ x xs × (p ≡ (key x, value x))) ⊎ Memᴰ p m
  unfolding index_by
  mem-index_by [] m n = inr n
  mem-index_by (x ∷ xs) m n = elim (mem-index_by xs (insert (key x) (value x) m) n) [
    | inl (y, o, q) ↦ inl (y, Memᴰ.tail o, q)
    | inr old ↦ elim (mem-insert (key x) (value x) m old) [
      | inl q ↦ inl (x, Memᴰ.head refl, q)
      | inr older ↦ inr older
    ]
  ]

  lookup_kept :
      (k : K) (xs : List A) (m : Map K V)
      → contains (map key xs) k ≡ false
      → lookup k (index_by xs m) ≡ lookup k m
  unfolding index_by
  lookup_kept k [] m h = refl
  lookup_kept k (x ∷ xs) m h = elim (Bool-cases (key x == k)) [
    | inl t ↦ absurd (true≢false (sym (rw t) ∙ h))
    | inr f ↦
        lookup_kept k xs (insert (key x) (value x) m) (rw f at h)
        ∙ lookup-insert (key x) k (value x) m
        ∙ rw f
  ]

  -- Where keys are distinct, the entry of an element is its own value.
  pub lookup-index_by :
      (x : A) (xs : List A) (m : Map K V)
      → IsNodup (map key xs)
      → Memᴰ x xs
      → lookup (key x) (index_by xs m) ≡ some (value x)
  unfolding index_by
  lookup-index_by x [] m h n = elim n [ ]
  lookup-index_by x (y ∷ ys) m h (Memᴰ.head p) =
      let m' = insert (key y) (value y) m in
      subst (λ z. lookup (key z) (index_by ys m') ≡ some (value z)) (sym p)
        (lookup_kept (key y) ys m' h.0
          ∙ lookup-insert (key y) (key y) (value y) m
          ∙ rw (beq_refl (key y)))
  lookup-index_by x (y ∷ ys) m h (Memᴰ.tail n) =
      lookup-index_by x ys (insert (key y) (value y) m) h.1 n

  pub get_or-index_by :
      (x : A) (xs : List A) (m : Map K V) (d : V)
      → IsNodup (map key xs)
      → Memᴰ x xs
      → get_or (key x) (index_by xs m) d ≡ value x
  get_or-index_by x xs m d h n = cong_get (lookup-index_by x xs m h n)
    where
      cong_get : {o : Option V} {v : V} → o ≡ some v → (elim o [ none ↦ d | some w ↦ w ]) ≡ v
      cong_get p = rw p

  eq_false : (k j : K) → k ≢ j → (k == j) ≡ false
  eq_false k j h = elim (Eq-cases k j) [ inl (same, t) ↦ absurd (h same) | inr (o, f) ↦ f ]

  contains-insert_keys :
      (k j : K) (v : V) (m : Map K V)
      → contains (map (λ p. p.0) m) j ≡ false
      → (k == j) ≡ false
      → contains (map (λ p. p.0) (insert k v m)) j ≡ false
  contains-insert_keys k j v [] h f = rw f
  contains-insert_keys k j v ((i, w) ∷ m) h f = ground (arith, contains-insert_keys k j v m)

  pub insert-IsNodup :
      (k : K) (v : V) (m : Map K V)
      → IsNodup (map (λ p. p.0) m)
      → IsNodup (map (λ p. p.0) (insert k v m))
  insert-IsNodup k v [] h = (refl, tt)
  insert-IsNodup k v ((i, w) ∷ m) h = elim (Eq-cases i k) [
    | inl (same, t) ↦ rw t (subst (λ x. contains (map (λ p. p.0) m) x ≡ false) same h.0, h.1)
    | inr (other, f) ↦ rw f (
      contains-insert_keys k i v m h.0 (eq_false k i (λ p. other (sym p))),
      insert-IsNodup k v m h.1,
    )
  ]

  -- The keys of an index are distinct, whatever the elements are.
  pub index_by-IsNodup :
      (xs : List A) (m : Map K V)
      → IsNodup (map (λ p. p.0) m)
      → IsNodup (map (λ p. p.0) (index_by xs m))
  unfolding index_by
  index_by-IsNodup [] m h = h
  index_by-IsNodup (x ∷ xs) m h =
      index_by-IsNodup xs (insert (key x) (value x) m) (insert-IsNodup (key x) (value x) m h)

-- The last element with a key.
abbrev pub latest {ℓ κ} : {A : Type ℓ} {K : Type κ} ⦃e : Eq K⦄ → (A → K) → K → List A → Option A
latest key k [] = none
latest key k (x ∷ xs) =
    let rest = latest key k xs in
    elim rest [ some y ↦ some y | none ↦ if key x == k then some x else none ]

-- An element that is appended is the last one with its key.
pub latest-snoc {ℓ κ} :
    {A : Type ℓ} {K : Type κ} ⦃e : Eq K⦄ (key : A → K) (k : K) (xs : List A) (x : A)
    → latest key k (xs ++ x ∷ []) ≡ (if key x == k then some x else latest key k xs)
latest-snoc key k [] x = refl
latest-snoc key k (y ∷ xs) x =
    rw (latest-snoc key k xs x)
      (elim (Bool-cases (key x == k)) [ inl t ↦ rw t refl | inr f ↦ rw f refl ])

-- What the index holds for a key is the value of the last element with it.
pub lookup-latest {ℓ κ μ} :
    {A : Type ℓ} {K : Type κ} {V : Type μ} ⦃e : Eq K⦄ (key : A → K) (value : A → V) (k : K)
    (xs : List A) (m : Map K V)
    → lookup k (index_by key value xs m)
      ≡ (elim (latest key k xs) [ some x ↦ some (value x) | none ↦ lookup k m ])
unfolding index_by
lookup-latest key value k [] m = refl
lookup-latest {A = A} {V = V} key value k (x ∷ xs) m =
    lookup-latest key value k xs (insert (key x) (value x) m) ∙ go (latest key k xs)
  where
    found : Option A → Option V → Option V
    found o d = elim o [ some y ↦ some (value y) | none ↦ d ]

    go :
        (o : Option A)
        → found o (lookup k (insert (key x) (value x) m))
          ≡ found
              (elim o [ some y ↦ some y | none ↦ if key x == k then some x else none ])
              (lookup k m)
    go (some y) = refl
    go none =
        lookup-insert (key x) k (value x) m
        ∙ elim (Bool-cases (key x == k)) [ inl t ↦ rw t refl | inr f ↦ rw f refl ]

-- An entry of a map with distinct keys is the one that is found.
pub mem-lookup {ℓ κ} :
    {K : Type ℓ} {V : Type κ} ⦃e : Eq K⦄ (m : Map K V) {k : K} {v : V}
    → IsNodup (map (λ p. p.0) m)
    → Memᴰ (k, v) m
    → lookup k m ≡ some v
mem-lookup [] h n = elim n [ ]
mem-lookup ((j, w) ∷ m) {k} {v} h n = elim (Memᴰ.cases_cons n) [
  | inl p ↦ rw (ap (λ x. x.0) p, beq_refl j) (ap (λ x. some x.1) (sym p))
  | inr o ↦ elim (Eq-cases j k) [
    | inl (same, t) ↦ absurd (
        false≢true (
          sym h.0
          ∙ ap (contains (map (λ p. p.0) m)) same
          ∙ mem→contains (map (λ p. p.0) m) k (Memᴰ.map (λ p. p.0) o)))
    | inr (other, f) ↦ rw f (mem-lookup m h.1 o)
  ]
]
