-- ===== src/Services/Order/Ranks.antt =====
-- Ranks of services: `sortByDependency` and the ranks that `BuildServicesList` reads off its result,
-- internal/serviceset/util.go.
use mathlib.Core.List.Memᴰ
use mathlib.Core.Option.{some-injective, none-ne-some}
use kcm.Prelude.{
  ℕ, suc, ◌+◌, ◌<◌, ◌≡◌, refl, sym, ◌∙◌, ap, subst, inl, inr, List, [], ◌∷◌, ◌++◌, map, Memᴰ,
  Option, none, some, Option-cases, arith, length, length-append, get_elem?, ObjectKey, key_eq,
  Eq-cases, beq_refl, Map, insert, lookup, lookup-insert, get_or,
}
use kcm.Api.{Service, ServiceDependsOn}
use kcm.Services.Keys.{key_of, dependency_key}
use kcm.Validation.Dependencies.{Depends, direct, through}
use kcm.Validation.Admission.{AreDistinct}
use kcm.Services.Order.{index_from, positions, depends_at, range_from, read_at, sorted_positions}
use kcm.Services.Order.Placement.{Reach, one, more, Ordered, none, snoc, place_all-Ordered}
use kcm.Services.Order.Positions.{
  index_from-found, index_from-known, mem-positions, positions-mem, mem-range_from,
  length-range_from, range_from-elem, elem-mem, mem-elem, position_unique,
}

index_from-snoc :
    (i : ℕ) (xs : List Service) (x : Service) (m : Map ObjectKey ℕ)
    → index_from i (xs ++ x ∷ []) m ≡ insert (key_of x) (i + length xs) (index_from i xs m)
unfolding index_from
index_from-snoc i [] x m = ap (λ n. insert (key_of x) n m) (omega arith)
index_from-snoc i (y ∷ ys) x m =
    let q : suc i + length ys ≡ i + suc (length ys) = omega arith in
    index_from-snoc (suc i) ys x (insert (key_of y) i m)
    ∙ ap (λ n. insert (key_of x) n (index_from (suc i) ys (insert (key_of y) i m))) q

module _ (services : List Service) (distinct : AreDistinct services) where
  abbrev index : Map ObjectKey ℕ
  index = index_from 0 services []

  abbrev deps : ℕ → List ℕ
  deps = depends_at index services

  read_at-snoc :
      (xs : List ℕ) (i : ℕ) (svc : Service)
      → get_elem? services i ≡ some svc
      → read_at services (xs ++ i ∷ []) ≡ read_at services xs ++ svc ∷ []
  read_at-snoc [] i svc e = rw (e, read_at) refl
  read_at-snoc (x ∷ xs) i svc e = elim (Option-cases (get_elem? services x)) [
    | inl absent ↦ rw (absent, read_at) (read_at-snoc xs i svc e)
    | inr (s, found) ↦ rw (found, read_at) (ap (λ l. s ∷ l) (read_at-snoc xs i svc e))
  ]

  -- The rank of a position among those that are placed.
  abbrev Ranked : List ℕ → ℕ → ℕ → Type 0
  Ranked ys i r =
      (svc : Service) × (get_elem? services i ≡ some svc)
      × (lookup (key_of svc) (index_from 0 (read_at services ys) []) ≡ some r)

  -- All that are placed have a rank, behind those that they depend on.
  abbrev AllRanked : List ℕ → Type 0
  AllRanked ys =
      (i : ℕ)
      → Memᴰ i ys
      → (r : ℕ) × Ranked ys i r
        × (r < length (read_at services ys))
        × ((j : ℕ) → Memᴰ j (deps i) → (q : ℕ) × Ranked ys j q × (q < r))

  AllRanked-snoc :
      (xs : List ℕ) (i : ℕ) (svc : Service)
      → get_elem? services i ≡ some svc
      → ((j : ℕ) → Memᴰ j (deps i) → Memᴰ j xs)
      → ¬ Memᴰ i xs
      → ((j : ℕ) → Memᴰ j xs → (k : ℕ) → Memᴰ k (deps j) → Memᴰ k xs)
      → AllRanked xs
      → AllRanked (xs ++ i ∷ [])
  AllRanked-snoc xs i svc e below new closed h = λ k m. elim (Memᴰ.append_cases xs m) [
    | inl n ↦
        let (r, ranked, less, lower) = h k n in
        (
          r,
          kept k r n ranked,
          subst (λ l. r < length l) (sym (read_at-snoc xs i svc e))
              (omega (arith, length-append (read_at services xs) (svc ∷ []), less)),
          λ j o. let (q, p, l) = lower j o in (q, kept j q (closed k n j o) p, l),
        )
    | inr n ↦ elim (Memᴰ.cases_cons n) [
      | inr none_left ↦ elim none_left [ ]
      | inl p ↦
          subst
            (λ y.
              (r : ℕ) × Ranked (xs ++ i ∷ []) y r
              × (r < length (read_at services (xs ++ i ∷ [])))
              × ((j : ℕ) → Memᴰ j (deps y) → (q : ℕ) × Ranked (xs ++ i ∷ []) j q × (q < r)))
            (sym p)
            (
              length (read_at services xs),
              (
                svc,
                e,
                ap (lookup (key_of svc)) all_index
                    ∙ lookup-insert (key_of svc) (key_of svc) (length (read_at services xs))
                        (index_from 0 (read_at services xs) [])
                    ∙ rw (beq_refl (key_of svc)) refl,
              ),
              subst (λ l. length (read_at services xs) < length l) (sym (read_at-snoc xs i svc e))
                  (omega (arith, length-append (read_at services xs) (svc ∷ []))),
              λ j o.
                  let (r, ranked, less, lower) = h j (below j o) in
                  (r, kept j r (below j o) ranked, less),
            )
    ]
  ]
    where
      all_index :
          index_from 0 (read_at services (xs ++ i ∷ [])) []
          ≡ insert
              (key_of svc)
              (length (read_at services xs))
              (index_from 0 (read_at services xs) [])
      all_index =
          ap (λ l. index_from 0 l []) (read_at-snoc xs i svc e)
          ∙ index_from-snoc 0 (read_at services xs) svc []
          ∙ ap (λ n. insert (key_of svc) n (index_from 0 (read_at services xs) [])) (omega arith)

      kept : (j r : ℕ) → Memᴰ j xs → Ranked xs j r → Ranked (xs ++ i ∷ []) j r
      kept j r n (s, p, q) = (
        s,
        p,
        ap (lookup (key_of s)) all_index
            ∙ lookup-insert (key_of svc) (key_of s) (length (read_at services xs))
                (index_from 0 (read_at services xs) [])
            ∙ elim (Eq-cases (key_of svc) (key_of s)) [
              | inl (same, t) ↦ absurd (
                  new (
                    subst (λ y. Memᴰ y xs) (sym (position_unique services i j distinct e p same))
                      n))
              | inr (other, f) ↦ rw f q
            ],
      )

  -- What stands in an order by dependency has its dependencies in it.
  Ordered-closed :
      (ys : List ℕ) → Ordered deps ys → (j : ℕ) → Memᴰ j ys → (k : ℕ) → Memᴰ k (deps j) → Memᴰ k ys
  Ordered-closed _ none j m k n = elim m [ ]
  Ordered-closed _ (snoc {xs = xs} {i = i} h below new) j m k n = elim (Memᴰ.append_cases xs m) [
    | inl o ↦ Memᴰ.append_left (i ∷ []) (Ordered-closed xs h j o k n)
    | inr o ↦ elim (Memᴰ.cases_cons o) [
      | inl p ↦ Memᴰ.append_left (i ∷ []) (below k (subst (λ y. Memᴰ k (deps y)) p n))
      | inr none_left ↦ elim none_left [ ]
    ]
  ]

  Ordered-AllRanked :
      (ys : List ℕ)
      → Ordered deps ys
      → ((i : ℕ) → Memᴰ i ys → (svc : Service) × (get_elem? services i ≡ some svc))
      → AllRanked ys
  Ordered-AllRanked _ none fine = λ i m. elim m [ ]
  Ordered-AllRanked _ (snoc {xs = xs} {i = i} h below new) fine =
      let (svc, e) = fine i (Memᴰ.append_right xs (Memᴰ.head refl)) in
      AllRanked-snoc xs i svc e below new (Ordered-closed xs h)
        (Ordered-AllRanked xs h (λ j m. fine j (Memᴰ.append_left (i ∷ []) m)))

  -- A dependency between positions is one between services.
  step-Depends :
      (i j : ℕ)
      → Memᴰ j (deps i)
      → (x : Service) × (y : Service) × (get_elem? services i ≡ some x)
        × (get_elem? services j ≡ some y)
        × Depends services (key_of x) (key_of y)
  step-Depends i j m = go (get_elem? services i) refl m
    where
      go :
          (o : Option Service)
          → get_elem? services i ≡ o
          → Memᴰ j (elim o [ none ↦ [] | some svc ↦ positions index svc.depends_on ])
          → (x : Service) × (y : Service) × (get_elem? services i ≡ some x)
            × (get_elem? services j ≡ some y)
            × Depends services (key_of x) (key_of y)
      go none e m = elim m [ ]
      go (some x) e m =
          let (d, n, p) = mem-positions index x.depends_on j m in
          elim (index_from-found (dependency_key d) 0 j services [] p) [
            | inl absent ↦ absurd (none-ne-some _ absent)
            | inr (a, y, q, r, k) ↦
                let here : a ≡ j = omega (arith, q) in
                (
                  x,
                  y,
                  e,
                  subst (λ b. get_elem? services b ≡ some y) here r,
                  direct x d (elem-mem services i e) n refl k,
                )
          ]

  Reach-Depends :
      (i j : ℕ)
      → Reach deps i j
      → (x : Service) × (y : Service) × (get_elem? services i ≡ some x)
        × (get_elem? services j ≡ some y)
        × Depends services (key_of x) (key_of y)
  Reach-Depends i j (one m) = step-Depends i j m
  Reach-Depends i k (more {v = j} r m) =
      let (x, y, e, f, w) = Reach-Depends i j r in
      let (y', z, g, h, w') = step-Depends j k m in
      let same : y' ≡ y = some-injective _ _ (sym g ∙ f) in
      (x, z, e, h, through w (subst (λ s. Depends services (key_of s) (key_of z)) same w'))

  -- For services without a cycle, the order has all of them and each behind its dependencies.
  positions-AllRanked :
      ((k : ObjectKey) → ¬ Depends services k k)
      → AllRanked (sorted_positions services)
        × ((i : ℕ) → Memᴰ i (range_from 0 services) → Memᴰ i (sorted_positions services))
  unfolding sorted_positions
  positions-AllRanked acyclic =
      let (ordered, all_placed, in_range) =
        place_all-Ordered deps (range_from 0 services)
          (λ i j m.
            let (x, y, e, f, w) = step-Depends i j m in
            subst (λ b. Memᴰ b (range_from 0 services)) (omega arith)
              (mem-range_from 0 j services f))
          (λ k r.
            let (x, y, e, f, w) = Reach-Depends k k r in
            acyclic (key_of x) (
              subst (λ s. Depends services (key_of x) (key_of s)) (some-injective _ _ (sym f ∙ e))
                w))
          (suc (length services)) (range_from 0 services)
          (omega (arith, length-range_from 0 services)) (λ i m. m) in
      (
        Ordered-AllRanked _ ordered (λ i m.
            let (a, svc, p, q) = range_from-elem 0 i services (in_range i m) in
            let here : a ≡ i = omega (arith, p) in
            (svc, subst (λ b. get_elem? services b ≡ some svc) here q)),
        all_placed,
      )

  -- The rank of a service and that of one that it depends on.
  pub rank_lt :
      ((k : ObjectKey) → ¬ Depends services k k)
      → (svc : Service) (d : ServiceDependsOn) → Memᴰ svc services
      → Memᴰ d svc.depends_on
      → Memᴰ (dependency_key d) (map key_of services)
      → get_or (dependency_key d) (index_from 0 (read_at services (sorted_positions services)) []) 0
        < get_or (key_of svc) (index_from 0 (read_at services (sorted_positions services)) []) 0
  rank_lt acyclic svc d m n known =
      let (all_ranked, all_placed) = positions-AllRanked acyclic in
      let (a, e) = mem-elem services m in
      let (j, p) = index_from-known (dependency_key d) 0 services [] (inr known) in
      let here : 0 + a ≡ a = omega arith in
      let placed =
        all_placed a
          (subst (λ b. Memᴰ b (range_from 0 services)) here (mem-range_from 0 a services e)) in
      let (r, (x, q, own), less, lower) = all_ranked a placed in
      let depends : Memᴰ j (deps a) =
        rw (e, depends_at) (positions-mem index svc.depends_on d j n p) in
      let (l, (y, f, other), below) = lower j depends in
      let same : key_of y ≡ dependency_key d =
        elim (index_from-found (dependency_key d) 0 j services [] p) [
          | inl absent ↦ absurd (none-ne-some _ absent)
          | inr (b, z, g, h, k) ↦
              let at_j : b ≡ j = omega (arith, g) in
              ap key_of
                (some-injective _ _ (sym f ∙ subst (λ c. get_elem? services c ≡ some z) at_j h))
              ∙ k
        ] in
      let self : x ≡ svc = some-injective _ _ (sym q ∙ e) in
      ranks_of (sym (ap (λ k. lookup k ranking) same) ∙ other)
        (sym (ap (λ s. lookup (key_of s) ranking) self) ∙ own) below
    where
      ranking : Map ObjectKey ℕ
      ranking = index_from 0 (read_at services (sorted_positions services)) []

      ranks_of :
          {o p : Option ℕ} {l r : ℕ}
          → o ≡ some l
          → p ≡ some r
          → l < r
          → (elim o [ none ↦ 0 | some v ↦ v ]) < (elim p [ none ↦ 0 | some v ↦ v ])
      ranks_of e f h = rw (e, f) h
