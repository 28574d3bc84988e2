-- ===== src/Services/Upgrades/Hops.antt =====
-- Positions on a route: the search of `nextUpgradeStep` for the next hop,
-- internal/serviceset/util.go.
use mathlib.Core.Option.{some-injective, none-ne-some}
use kcm.Prelude.{
  ℕ, zero, suc, ◌-◌, ◌≤◌, ◌<◌, ◌≡◌, refl, sym, ◌∙◌, ap, subst, ◌⊎◌, inl, inr, Bool, true, false,
  List, [], ◌∷◌, Option, none, some, Option-cases, Bool-cases, String, string_eq, ◌==◌, arith, take,
  get_elem?, index_of,
}
use kcm.Api.{AvailableUpgrade}
use kcm.Services.Upgrades.{no_upgrade, is_template, next_position, hop}

module _ {A : Type 0} (p : A → Bool) where
  -- What is found in front of a position.
  take-found :
      (n : ℕ) (xs : List A) (i : ℕ)
      → index_of p (take n xs) ≡ some i
      → (i < n) × (x : A) × (get_elem? xs i ≡ some x) × (p x ≡ true)
  take-found zero xs i h = absurd (none-ne-some _ h)
  take-found (suc n) [] i h = absurd (none-ne-some _ h)
  take-found (suc n) (x ∷ xs) i h = elim (Bool-cases (p x)) [
    | inl t ↦
        subst (λ j. (j < suc n) × (y : A) × (get_elem? (x ∷ xs) j ≡ some y) × (p y ≡ true))
          (some-injective _ _ (rw t at h)) (omega arith, x, refl, t)
    | inr f ↦ elim (Option-cases (index_of p (take n xs))) [
      | inl absent ↦ absurd (none-ne-some _ (rw (f, absent) at h))
      | inr (j, e) ↦
          let (below, y, q, t) = take-found n xs j e in
          subst (λ j. (j < suc n) × (y : A) × (get_elem? (x ∷ xs) j ≡ some y) × (p y ≡ true))
            (some-injective _ _ (rw (f, e) at h)) (omega arith, y, q, t)
    ]
  ]

  take-absent_cons :
      (n : ℕ) (y : A) (xs : List A) (i : ℕ) (x : A)
      → p y ≡ false
      → i < suc n
      → get_elem? (y ∷ xs) i ≡ some x
      → (i - 1 < n → get_elem? xs (i - 1) ≡ some x → p x ≡ false)
      → p x ≡ false
  take-absent_cons n y xs zero x f below e later = subst (λ z. p z ≡ false) (some-injective _ _ e) f
  take-absent_cons n y xs (suc i) x f below e later =
      let q : i ≡ suc i - 1 = omega arith in
      later (omega arith) (subst (λ k. get_elem? xs k ≡ some x) q e)

  -- Nothing in front of the position passes.
  take-absent :
      (n : ℕ) (xs : List A) (i : ℕ) (x : A)
      → index_of p (take n xs) ≡ none
      → i < n
      → get_elem? xs i ≡ some x
      → p x ≡ false
  take-absent zero xs i x h below e = absurd (omega arith)
  take-absent (suc n) [] i x h below e = absurd (none-ne-some _ e)
  take-absent (suc n) (y ∷ xs) i x h below e = elim (Bool-cases (p y)) [
    | inl t ↦ absurd (none-ne-some _ (sym (rw t at h)))
    | inr f ↦ elim (Option-cases (index_of p (take n xs))) [
      | inl absent ↦ take-absent_cons n y xs i x f below e (take-absent n xs (i - 1) x absent)
      | inr (j, q) ↦ absurd (none-ne-some _ (sym (rw (f, q) at h)))
    ]
  ]

  pub index_of-found :
      (xs : List A) (i : ℕ)
      → index_of p xs ≡ some i
      → (x : A) × (get_elem? xs i ≡ some x) × (p x ≡ true)
  index_of-found [] i h = absurd (none-ne-some _ h)
  index_of-found (x ∷ xs) i h = elim (Bool-cases (p x)) [
    | inl t ↦
        subst (λ j. (y : A) × (get_elem? (x ∷ xs) j ≡ some y) × (p y ≡ true))
          (some-injective _ _ (rw t at h)) (x, refl, t)
    | inr f ↦ elim (Option-cases (index_of p xs)) [
      | inl absent ↦ absurd (none-ne-some _ (rw (f, absent) at h))
      | inr (j, e) ↦
          subst (λ j. (y : A) × (get_elem? (x ∷ xs) j ≡ some y) × (p y ≡ true))
            (some-injective _ _ (rw (f, e) at h)) (index_of-found xs j e)
    ]
  ]

get_elem?-below :
    {A : Type 0} (xs : List A) (i n : ℕ) (d : A)
    → i ≤ n
    → get_elem? xs n ≡ some d
    → (x : A) × (get_elem? xs i ≡ some x)
get_elem?-below [] i n d le h = absurd (none-ne-some _ h)
get_elem?-below (x ∷ xs) zero n d le h = (x, refl)
get_elem?-below (x ∷ xs) (suc i) zero d le h = absurd (omega arith)
get_elem?-below (x ∷ xs) (suc i) (suc n) d le h = get_elem?-below xs i n d (omega arith) h

-- An upgrade on a route, at or in front of the target: the one right after the current template
-- where that stands in front of the target, else the first.
abbrev pub NextHop : (current : String) → List AvailableUpgrade → ℕ → AvailableUpgrade → Type 0
NextHop current versions target u =
    (i : ℕ) × (i ≤ target)
    × (get_elem? versions i ≡ some u)
    × (((i ≡ 0)
          × ((j : ℕ) (v : AvailableUpgrade)
              → j < target
              → get_elem? versions j ≡ some v
              → (v.name == current) ≡ false))
        ⊎ ((j : ℕ) × (v : AvailableUpgrade) × (i ≡ suc j)
            × (get_elem? versions j ≡ some v)
            × (v.name ≡ current)))

hop_lem :
    (versions : List AvailableUpgrade) (i : ℕ) {u : AvailableUpgrade}
    → get_elem? versions i ≡ some u
    → get_elem? versions i ≡ some (hop versions i)
hop_lem versions i e = e ∙ ap (λ o. some (elim o [ none ↦ no_upgrade | some v ↦ v ])) (sym e)

pub hop-NextHop :
    (current : String) (versions : List AvailableUpgrade) (target : ℕ) (d : AvailableUpgrade)
    → get_elem? versions target ≡ some d
    → NextHop current versions target (hop versions (next_position current versions target))
unfolding next_position
hop-NextHop current versions target d h =
    go (index_of (is_template current) (take target versions)) refl
  where
    go :
        (o : Option ℕ)
        → index_of (is_template current) (take target versions) ≡ o
        → NextHop current versions target (hop versions (elim o [ none ↦ 0 | some at ↦ suc at ]))
    go none absent =
        let (u, e) = get_elem?-below versions 0 target d (omega arith) h in
        (
          0,
          omega arith,
          hop_lem versions _ e,
          inl (
            refl,
            λ j v below q. take-absent (is_template current) target versions j v absent below q,
          ),
        )
    go (some j) found =
        let (below, v, q, t) = take-found (is_template current) target versions j found in
        let (u, e) = get_elem?-below versions (suc j) target d (omega arith) h in
        (
          suc j,
          omega arith,
          hop_lem versions _ e,
          inr (j, v, refl, q, (string_eq.beq_iff v.name current).0 t),
        )
