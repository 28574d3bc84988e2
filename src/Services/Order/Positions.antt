-- ===== src/Services/Order/Positions.antt =====
-- Positions of services in a list, and the index of `sortByDependency`, internal/serviceset/util.go.
use mathlib.Core.List.Memᴰ
use mathlib.Core.Option.{some-injective, none-ne-some}
use kcm.Prelude.{
  ℕ, zero, suc, ◌+◌, ◌≡◌, refl, sym, ◌∙◌, ap, subst, ◌⊎◌, inl, inr, true≢false, List, [], ◌∷◌, map,
  Memᴰ, some, Option-cases, arith, length, get_elem?, ObjectKey, key_eq, Eq-cases, Map, insert,
  lookup, lookup-insert, mem→contains,
}
use kcm.Api.{Service, ServiceDependsOn}
use kcm.Services.Keys.{key_of, dependency_key}
use kcm.Validation.Admission.{AreDistinct}
use kcm.Services.Order.{index_from, positions, range_from}

-- A position of a key in an index is that of a service with the key.
pub index_from-found :
    (k : ObjectKey) (i j : ℕ) (xs : List Service) (m : Map ObjectKey ℕ)
    → lookup k (index_from i xs m) ≡ some j
    → (lookup k m ≡ some j)
      ⊎ ((a : ℕ) × (svc : Service) × (j ≡ i + a) × (get_elem? xs a ≡ some svc) × (key_of svc ≡ k))
unfolding index_from
index_from-found k i j [] m h = inl h
index_from-found k i j (x ∷ xs) m h =
    elim (index_from-found k (suc i) j xs (insert (key_of x) i m) h) [
      | inr (a, svc, p, q, r) ↦ inr (suc a, svc, omega (arith, p), q, r)
      | inl old ↦
          let known = sym (lookup-insert (key_of x) k i m) ∙ old in
          elim (Eq-cases (key_of x) k) [
            | inl (same, t) ↦
                let here : i ≡ j = some-injective _ _ (rw t at known) in
                inr (0, x, omega (arith, here), refl, same)
            | inr (other, f) ↦ inl (rw f at known)
          ]
    ]

-- Every key of a list has a position.
pub index_from-known :
    (k : ObjectKey) (i : ℕ) (xs : List Service) (m : Map ObjectKey ℕ)
    → ((j : ℕ) × (lookup k m ≡ some j)) ⊎ Memᴰ k (map key_of xs)
    → (j : ℕ) × (lookup k (index_from i xs m) ≡ some j)
unfolding index_from
index_from-known k i [] m (inl h) = h
index_from-known k i [] m (inr n) = elim n [ ]
index_from-known k i (x ∷ xs) m h =
    index_from-known k (suc i) xs (insert (key_of x) i m) (elim (Eq-cases (key_of x) k) [
      | inl (same, t) ↦ inl (i, lookup-insert (key_of x) k i m ∙ rw t refl)
      | inr (other, f) ↦ elim h [
        | inl (j, p) ↦ inl (j, lookup-insert (key_of x) k i m ∙ rw f p)
        | inr n ↦ elim (Memᴰ.cases_cons n) [ inl e ↦ absurd (other (sym e)) | inr o ↦ inr o ]
      ]
    ])

pub mem-positions :
    (index : Map ObjectKey ℕ) (ds : List ServiceDependsOn) (j : ℕ)
    → Memᴰ j (positions index ds)
    → (d : ServiceDependsOn) × Memᴰ d ds × (lookup (dependency_key d) index ≡ some j)
unfolding positions
mem-positions index [] j m = elim m [ ]
mem-positions index (d ∷ ds) j m = elim (Option-cases (lookup (dependency_key d) index)) [
  | inl absent ↦
      let (e, n, p) = mem-positions index ds j (rw (absent, positions) at m) in (e, Memᴰ.tail n, p)
  | inr (i, found) ↦ elim (Memᴰ.cases_cons (rw (found, positions) at m)) [
    | inl p ↦ (d, Memᴰ.head refl, found ∙ ap some (sym p))
    | inr n ↦ let (e, o, p) = mem-positions index ds j n in (e, Memᴰ.tail o, p)
  ]
]

pub positions-mem :
    (index : Map ObjectKey ℕ) (ds : List ServiceDependsOn) (d : ServiceDependsOn) (j : ℕ)
    → Memᴰ d ds
    → lookup (dependency_key d) index ≡ some j
    → Memᴰ j (positions index ds)
unfolding positions
positions-mem index [] d j m h = elim m [ ]
positions-mem index (e ∷ ds) d j m h = elim (Memᴰ.cases_cons m) [
  | inl p ↦ rw (ap (λ x. lookup (dependency_key x) index) (sym p) ∙ h, positions) (Memᴰ.head refl)
  | inr n ↦ elim (Option-cases (lookup (dependency_key e) index)) [
    | inl absent ↦ rw (absent, positions) (positions-mem index ds d j n h)
    | inr (i, found) ↦ rw (found, positions) (Memᴰ.tail (positions-mem index ds d j n h))
  ]
]

pub mem-range_from :
    (i a : ℕ) (xs : List Service) {svc : Service}
    → get_elem? xs a ≡ some svc
    → Memᴰ (i + a) (range_from i xs)
mem-range_from i a [] h = absurd (none-ne-some _ h)
mem-range_from i zero (x ∷ xs) h = Memᴰ.head (omega arith)
mem-range_from i (suc a) (x ∷ xs) h =
    let q : suc i + a ≡ i + suc a = omega arith in
    Memᴰ.tail (subst (λ y. Memᴰ y (range_from (suc i) xs)) q (mem-range_from (suc i) a xs h))

pub length-range_from : (i : ℕ) (xs : List Service) → length (range_from i xs) ≡ length xs
length-range_from i [] = refl
length-range_from i (x ∷ xs) = ap suc (length-range_from (suc i) xs)

pub range_from-elem :
    (i k : ℕ) (xs : List Service)
    → Memᴰ k (range_from i xs)
    → (a : ℕ) × (svc : Service) × (k ≡ i + a) × (get_elem? xs a ≡ some svc)
range_from-elem i k [] m = elim m [ ]
range_from-elem i k (x ∷ xs) m = elim (Memᴰ.cases_cons m) [
  | inl p ↦ (0, x, omega (arith, p), refl)
  | inr n ↦ let (a, svc, p, q) = range_from-elem (suc i) k xs n in (suc a, svc, omega (arith, p), q)
]

pub elem-mem : (xs : List Service) (a : ℕ) {svc : Service} → get_elem? xs a ≡ some svc → Memᴰ svc xs
elem-mem [] a h = absurd (none-ne-some _ h)
elem-mem (x ∷ xs) zero h = Memᴰ.head (sym (some-injective _ _ h))
elem-mem (x ∷ xs) (suc a) h = Memᴰ.tail (elem-mem xs a h)

pub mem-elem :
    (xs : List Service) {svc : Service} → Memᴰ svc xs → (a : ℕ) × (get_elem? xs a ≡ some svc)
mem-elem [] m = elim m [ ]
mem-elem (x ∷ xs) m = elim (Memᴰ.cases_cons m) [
  | inl p ↦ (0, ap some (sym p))
  | inr n ↦ let (a, e) = mem-elem xs n in (suc a, e)
]

-- Distinct positions have distinct keys.
pub position_unique :
    (xs : List Service) (a b : ℕ) {x y : Service}
    → AreDistinct xs
    → get_elem? xs a ≡ some x
    → get_elem? xs b ≡ some y
    → key_of x ≡ key_of y
    → a ≡ b
position_unique [] a b h p q r = absurd (none-ne-some _ p)
position_unique (z ∷ xs) zero zero h p q r = refl
position_unique (z ∷ xs) zero (suc b) {y = y} h p q r = absurd (
    true≢false (
      sym (
        mem→contains (map key_of xs) (key_of z) (
          subst (λ k. Memᴰ k (map key_of xs)) (sym r ∙ ap key_of (sym (some-injective _ _ p)))
            (Memᴰ.map key_of (elem-mem xs b q))))
      ∙ h.0))
position_unique (z ∷ xs) (suc a) zero {x = x} h p q r = absurd (
    true≢false (
      sym (
        mem→contains (map key_of xs) (key_of z) (
          subst (λ k. Memᴰ k (map key_of xs)) (r ∙ ap key_of (sym (some-injective _ _ q)))
            (Memᴰ.map key_of (elem-mem xs a p))))
      ∙ h.0))
position_unique (z ∷ xs) (suc a) (suc b) h p q r = ap suc (position_unique xs a b h.1 p q r)
