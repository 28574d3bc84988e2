-- ===== src/Chain/Routes.antt =====
-- The routes that `findAllUpgradePaths` returns, api/v1beta1/templatechain_common.go.
use mathlib.Core.List.Memᴰ
use mathlib.Core.List.{append_assoc}
use kcm.Prelude.{
  ℕ, zero, suc, ◌≤◌, ◌<◌, ◌≡◌, refl, sym, ◌∙◌, subst, ◌⊎◌, inl, inr, ◌↔◌, true, false, not, List,
  [], ◌∷◌, ◌++◌, map, Memᴰ, Option, none, some, Option-cases, Bool-cases, String, string_eq, arith,
  length, length-map, any, filter_by, length-filter_by-le, Map, lookup, lookup-mem, has_key,
  contains, beq_refl,
}
use kcm.Api.{AvailableUpgrade, SupportedTemplate, TemplateChainSpec}
use kcm.Chain.{same_upgrade, walk_upgrades, find_paths, find_all_upgrade_paths, template_map}

module _ (templates : Map String SupportedTemplate) where
  -- A route goes on from `current`, after the upgrades of `path`: it leaves no template that was
  -- left before, and takes no upgrade that was taken before.
  pub data Route
      : List String → List AvailableUpgrade → String → List AvailableUpgrade → Type 0 where
    stop :
        {visited : List String} {path : List AvailableUpgrade} {current : String}
        {t : SupportedTemplate} {u : AvailableUpgrade}
        → contains visited current ≡ false
        → lookup current templates ≡ some t
        → Memᴰ u t.available_upgrades
        → any (same_upgrade u) path ≡ false
        → Route visited path current (u ∷ [])
    next :
        {visited : List String} {path : List AvailableUpgrade} {current : String}
        {t : SupportedTemplate} {u : AvailableUpgrade} {rest : List AvailableUpgrade}
        → contains visited current ≡ false
        → lookup current templates ≡ some t
        → Memᴰ u t.available_upgrades
        → any (same_upgrade u) path ≡ false
        → Route (current ∷ visited) (path ++ u ∷ []) u.name rest
        → Route visited path current (u ∷ rest)

  -- What is found comes from one of the upgrades.
  mem-walk_upgrades :
      (find : String → List AvailableUpgrade → List String → List (List AvailableUpgrade))
      (us path : List AvailableUpgrade) (visited : List String) (p : List AvailableUpgrade)
      → Memᴰ p (walk_upgrades find us path visited)
      → (u : AvailableUpgrade) × Memᴰ u us
        × (any (same_upgrade u) path ≡ false)
        × ((p ≡ path ++ u ∷ []) ⊎ Memᴰ p (find u.name (path ++ u ∷ []) visited))
  unfolding walk_upgrades
  mem-walk_upgrades find [] path visited p m = elim m [ ]
  mem-walk_upgrades find (u ∷ us) path visited p m = elim (Bool-cases (any (same_upgrade u) path)) [
    | inl taken ↦
        let (v, n, f, h) = mem-walk_upgrades find us path visited p (rw taken at m) in
        (v, Memᴰ.tail n, f, h)
    | inr free ↦ elim (Memᴰ.cases_cons (rw free at m)) [
      | inl e ↦ (u, Memᴰ.head refl, free, inl e)
      | inr n ↦ elim (Memᴰ.append_cases (find u.name (path ++ u ∷ []) visited) n) [
        | inl o ↦ (u, Memᴰ.head refl, free, inr o)
        | inr o ↦
            let (v, k, f, h) = mem-walk_upgrades find us path visited p o in (v, Memᴰ.tail k, f, h)
      ]
    ]
  ]

  walk_upgrades-mem :
      (find : String → List AvailableUpgrade → List String → List (List AvailableUpgrade))
      (us path : List AvailableUpgrade) (visited : List String) (p : List AvailableUpgrade)
      (u : AvailableUpgrade)
      → Memᴰ u us
      → any (same_upgrade u) path ≡ false
      → (p ≡ path ++ u ∷ []) ⊎ Memᴰ p (find u.name (path ++ u ∷ []) visited)
      → Memᴰ p (walk_upgrades find us path visited)
  unfolding walk_upgrades
  walk_upgrades-mem find [] path visited p u m free h = elim m [ ]
  walk_upgrades-mem find (v ∷ us) path visited p u (Memᴰ.head e) free h =
      subst (λ x. Memᴰ p (walk_upgrades find (x ∷ us) path visited)) e
        (rw free (elim h [ inl q ↦ Memᴰ.head q | inr n ↦ Memᴰ.tail (Memᴰ.append_left _ n) ]))
  walk_upgrades-mem find (v ∷ us) path visited p u (Memᴰ.tail m) free h =
      let later = walk_upgrades-mem find us path visited p u m free h in
      elim (Bool-cases (any (same_upgrade v) path)) [
        | inl taken ↦ rw taken later
        | inr fresh ↦
            rw fresh (Memᴰ.tail (Memᴰ.append_right (find v.name (path ++ v ∷ []) visited) later))
      ]

  pub mem-find_paths :
      (fuel : ℕ) (current : String) (path : List AvailableUpgrade) (visited : List String)
      (p : List AvailableUpgrade)
      → Memᴰ p (find_paths templates fuel current path visited)
      → (rest : List AvailableUpgrade) × (p ≡ path ++ rest) × Route visited path current rest
  unfolding find_paths
  mem-find_paths zero current path visited p m = elim m [ ]
  mem-find_paths (suc fuel) current path visited p m =
      elim (Bool-cases (contains visited current)) [
        | inl seen ↦ elim (rw seen at m) [ ]
        | inr fresh ↦ elim (Option-cases (lookup current templates)) [
          | inl missing ↦ elim (rw (fresh, missing) at m) [ ]
          | inr (t, e) ↦
              let (u, n, free, h) =
                mem-walk_upgrades (find_paths templates fuel) t.available_upgrades path
                  (current ∷ visited) p (rw (fresh, e) at m) in
              elim h [
                | inl q ↦ (u ∷ [], q, stop fresh e n free)
                | inr o ↦
                    let (rest, q, r) =
                      mem-find_paths fuel u.name (path ++ u ∷ []) (current ∷ visited) p o in
                    (u ∷ rest, q ∙ append_assoc path (u ∷ []) rest, next fresh e n free r)
              ]
        ]
      ]

  -- The supported templates that are not marked.
  unmarked : List String → List String
  unmarked visited = filter_by (λ k. not (contains visited k)) (map (λ e. e.0) templates)

  -- Marking one more leaves fewer.
  length-unmarked-le :
      (ks visited : List String) (k : String)
      → length (filter_by (λ x. not (contains (k ∷ visited) x)) ks)
        ≤ length (filter_by (λ x. not (contains visited x)) ks)
  length-unmarked-le [] visited k = omega arith
  length-unmarked-le (x ∷ ks) visited k = ground (arith, length-unmarked-le ks visited k)

  length-unmarked-lt :
      (ks visited : List String) (k : String)
      → Memᴰ k ks
      → contains visited k ≡ false
      → length (filter_by (λ x. not (contains (k ∷ visited) x)) ks)
        < length (filter_by (λ x. not (contains visited x)) ks)
  length-unmarked-lt [] visited k m h = elim m [ ]
  length-unmarked-lt (x ∷ ks) visited k (Memᴰ.head e) h =
      subst
        (λ y.
          length (filter_by (λ z. not (contains (k ∷ visited) z)) (y ∷ ks))
          < length (filter_by (λ z. not (contains visited z)) (y ∷ ks)))
        e (rw (h, beq_refl k) (omega (arith, length-unmarked-le ks visited k)))
  length-unmarked-lt (x ∷ ks) visited k (Memᴰ.tail m) h =
      ground (arith, length-unmarked-lt ks visited k m h)

  find_paths-mem :
      (fuel : ℕ) (current : String) (path : List AvailableUpgrade) (visited : List String)
      (rest : List AvailableUpgrade)
      → length (unmarked visited) < fuel
      → Route visited path current rest
      → Memᴰ (path ++ rest) (find_paths templates fuel current path visited)
  unfolding find_paths unmarked
  find_paths-mem zero current path visited rest enough r = absurd (omega arith)
  find_paths-mem (suc fuel) current path visited _ enough (stop {u = u} fresh e n free) =
      rw (fresh, e)
        (walk_upgrades-mem (find_paths templates fuel) _ path (current ∷ visited) _ u n free
          (inl refl))
  find_paths-mem (suc fuel) current path visited _ enough
        (next {u = u} {rest = rest} fresh e n free r) =
      let key = Memᴰ.map (λ x. x.0) (lookup-mem current templates e) in
      let fewer = length-unmarked-lt (map (λ x. x.0) templates) visited current key fresh in
      let later =
        find_paths-mem fuel u.name (path ++ u ∷ []) (current ∷ visited) rest (omega arith) r in
      rw (fresh, e)
        (walk_upgrades-mem (find_paths templates fuel) _ path (current ∷ visited) _ u n free (
          inr (
            subst
              (λ x. Memᴰ x (find_paths templates fuel u.name (path ++ u ∷ []) (current ∷ visited)))
              (append_assoc path (u ∷ []) rest) later)))

-- What the answer says of the routes.
abbrev pub AllRoutes : TemplateChainSpec → String → Option (List (List AvailableUpgrade)) → Type 0
AllRoutes s name none = has_key name (template_map s) ≡ false
AllRoutes s name (some routes) =
    (has_key name (template_map s) ≡ true)
    × ((p : List AvailableUpgrade) → Memᴰ p routes ↔ Route (template_map s) [] [] name p)

-- `findAllUpgradePaths` returns exactly the routes that start at the template, follow the available
-- upgrades of one supported template after another, leave no template twice and take no upgrade
-- twice; it fails only for a template that is not supported.
pub find_all_upgrade_paths-AllRoutes :
    (s : TemplateChainSpec) (name : String) → AllRoutes s name (find_all_upgrade_paths s name)
unfolding find_all_upgrade_paths unmarked
find_all_upgrade_paths-AllRoutes s name = elim (Bool-cases (has_key name (template_map s))) [
  | inl known ↦ rw known (
    known,
    λ p. (
      λ m.
          let (rest, e, r) =
            mem-find_paths (template_map s) (suc (length (template_map s))) name [] [] p m in
          subst (Route (template_map s) [] [] name) (sym e) r,
      λ r.
          find_paths-mem (template_map s) (suc (length (template_map s))) name [] [] p
            (enough (template_map s)) r,
    ),
  )
  | inr missing ↦ rw missing missing
]
  where
    enough : (m : Map String SupportedTemplate) → length (unmarked m []) < suc (length m)
    enough m = omega (
      arith,
      length-filter_by-le (λ k. not (contains [] k)) (map (λ e. e.0) m),
      length-map (λ e. e.0) m,
    )
