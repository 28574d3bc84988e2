-- ===== src/Services/Upgrades/Steps.antt =====
-- Where an upgrade goes next: `nextUpgradeStep`, internal/serviceset/util.go.
use mathlib.Core.List.Memᴰ
use mathlib.Core.Option.{some-injective, none-ne-some}
use kcm.Prelude.{
  ℕ, suc, ◌≤◌, ◌≡◌, refl, sym, ◌∙◌, ap, subst, ◌⊎◌, inl, inr, ◌↔◌, true, true≢false, List, [], ◌∷◌,
  Memᴰ, Option, none, some, Bool-cases, String, string_eq, if◌then◌else◌, ltb, ltb→lt, arith,
  index_of,
}
use kcm.Api.{AvailableUpgrade, UpgradePath, ServiceUpgradePaths}
use kcm.Services.Upgrades.{
  no_upgrade, Best, is_template, next_position, hop, try_route, try_routes, concerns, walk_paths,
  next_upgrade_step,
}
use kcm.Services.Upgrades.Hops.{index_of-found, hop-NextHop, NextHop}

module _ (current desired : String) where
  -- The route leads to the desired template, which stands first at that position.
  abbrev pub LeadsTo : UpgradePath → ℕ → Type 0
  LeadsTo r target = index_of (is_template desired) r.versions ≡ some target

  -- What is known after some routes: the best is the hop on a route that leads furthest.
  abbrev Chosen : List UpgradePath → Best → Type 0
  Chosen routes b =
      ((b.best_len ≡ 0)
        × (b.best ≡ no_upgrade)
        × ((r : UpgradePath) (t : ℕ) → Memᴰ r routes → ¬ LeadsTo r t))
      ⊎ ((r : UpgradePath) × (target : ℕ) × Memᴰ r routes
          × LeadsTo r target
          × (b.best_len ≡ suc target)
          × NextHop current r.versions target b.best
          × ((s : UpgradePath) (t : ℕ) → Memᴰ s routes → LeadsTo s t → t ≤ target))

  -- The routes are those that were tried, with one in front.
  try_route-Chosen :
      (route : UpgradePath) (routes : List UpgradePath) (b : Best)
      → Chosen routes b
      → Chosen (route ∷ routes) (try_route current desired route b)
  unfolding try_route
  try_route-Chosen route routes b h = go (index_of (is_template desired) route.versions) refl
    where
      first :
          (target : ℕ)
          → LeadsTo route target
          → ((s : UpgradePath) (t : ℕ) → Memᴰ s routes → LeadsTo s t → t ≤ target)
          → (s : UpgradePath) (t : ℕ) → Memᴰ s (route ∷ routes)
          → LeadsTo s t
          → t ≤ target
      first target e below s t m l = elim (Memᴰ.cases_cons m) [
        | inl p ↦
            subst (λ x. x ≤ target)
              (some-injective _ _
                (sym e ∙ ap (λ y. index_of (is_template desired) y.versions) (sym p) ∙ l))
              (omega arith)
        | inr n ↦ below s t n l
      ]

      go :
          (o : Option ℕ)
          → index_of (is_template desired) route.versions ≡ o
          → Chosen (route ∷ routes) (elim o [
            | none ↦ b
            | some target ↦
                if ltb b.best_len (suc target)
                then record {
                  best = hop route.versions (next_position current route.versions target);
                  best_len = suc target;
                }
                else b
          ])
      go none e = elim h [
        | inl (zero_len, none_yet, nowhere) ↦ inl (
          zero_len,
          none_yet,
          λ r t m l. elim (Memᴰ.cases_cons m) [
            | inl p ↦
                none-ne-some _
                  (sym e ∙ ap (λ y. index_of (is_template desired) y.versions) (sym p) ∙ l)
            | inr n ↦ nowhere r t n l
          ],
        )
        | inr (r, target, m, l, len, next, below) ↦ inr (
          r,
          target,
          Memᴰ.tail m,
          l,
          len,
          next,
          λ s t n k. elim (Memᴰ.cases_cons n) [
            | inl p ↦ absurd (
                none-ne-some _
                  (sym e ∙ ap (λ y. index_of (is_template desired) y.versions) (sym p) ∙ k))
            | inr o ↦ below s t o k
          ],
        )
      ]
      go (some target) e =
          let (d, q, is_desired) = index_of-found (is_template desired) route.versions target e in
          elim (Bool-cases (ltb b.best_len (suc target))) [
            | inl longer ↦ rw longer (
                inr (
                  route,
                  target,
                  Memᴰ.head refl,
                  e,
                  refl,
                  hop-NextHop current route.versions target d q,
                  first target e (elim h [
                    | inl (zero_len, none_yet, nowhere) ↦ λ s t m l. absurd (nowhere s t m l)
                    | inr (r, old, m, l, len, next, below) ↦ λ s t n k.
                        omega (arith, below s t n k, len, ltb→lt b.best_len (suc target) longer)
                  ]),
                ))
            | inr shorter ↦ rw shorter (elim h [
              | inl (zero_len, none_yet, nowhere) ↦ absurd (ground (arith, zero_len))
              | inr (r, old, m, l, len, next, below) ↦ inr (
                r,
                old,
                Memᴰ.tail m,
                l,
                len,
                next,
                λ s t n k. elim (Memᴰ.cases_cons n) [
                  | inl p ↦
                      let same : target ≡ t =
                        some-injective _ _ (
                          sym e
                          ∙ ap (λ y. index_of (is_template desired) y.versions) (sym p)
                          ∙ k) in
                      ground (arith, same, len)
                  | inr o ↦ below s t o k
                ],
              )
            ])
          ]

  try_all : List UpgradePath → List UpgradePath → List UpgradePath
  try_all [] seen = seen
  try_all (r ∷ rs) seen = try_all rs (r ∷ seen)

  try_routes-Chosen :
      (routes seen : List UpgradePath) (b : Best)
      → Chosen seen b
      → Chosen (try_all routes seen) (try_routes current desired routes b)
  unfolding try_routes try_all
  try_routes-Chosen [] seen b h = h
  try_routes-Chosen (r ∷ rs) seen b h =
      try_routes-Chosen rs (r ∷ seen) (try_route current desired r b) (try_route-Chosen r seen b h)

  mem-try_all :
      (routes seen : List UpgradePath) (r : UpgradePath)
      → Memᴰ r (try_all routes seen) ↔ (Memᴰ r routes ⊎ Memᴰ r seen)
  unfolding try_all
  mem-try_all [] seen r = (λ m. inr m, λ h. elim h [ inl m ↦ elim m [ ] | inr m ↦ m ])
  mem-try_all (x ∷ xs) seen r =
      let later = mem-try_all xs (x ∷ seen) r in
      (
        λ m. elim (later.0 m) [
          | inl n ↦ inl (Memᴰ.tail n)
          | inr n ↦ elim (Memᴰ.cases_cons n) [ inl p ↦ inl (Memᴰ.head p) | inr o ↦ inr o ]
        ],
        λ h. later.1 (elim h [
          | inl m ↦ elim (Memᴰ.cases_cons m) [ inl p ↦ inr (Memᴰ.head p) | inr o ↦ inl o ]
          | inr m ↦ inr (Memᴰ.tail m)
        ]),
      )

  module _ (name namespace : String) where
    -- A route of the paths that were computed for the service.
    abbrev pub IsOffered : List ServiceUpgradePaths → UpgradePath → Type 0
    IsOffered paths r =
        (path : ServiceUpgradePaths) × Memᴰ path paths
        × (concerns name namespace current path ≡ true)
        × Memᴰ r path.available_upgrades

    -- What the walk over the paths knows at its end.
    walk_paths-Chosen :
        (paths : List ServiceUpgradePaths) (seen : List UpgradePath) (b : Best)
        → Chosen seen b
        → (routes : List UpgradePath) × Chosen routes
            (walk_paths name namespace current desired paths b)
          × ((r : UpgradePath) → Memᴰ r routes ↔ (IsOffered paths r ⊎ Memᴰ r seen))
    unfolding walk_paths
    walk_paths-Chosen [] seen b h =
        (seen, h, λ r. (λ m. inr m, λ k. elim k [ inl (path, m, c, o) ↦ elim m [ ] | inr m ↦ m ]))
    walk_paths-Chosen (path ∷ paths) seen b h =
        elim (Bool-cases (concerns name namespace current path)) [
          | inl t ↦
              let (routes, chosen, members) =
                walk_paths-Chosen paths (try_all path.available_upgrades seen)
                  (try_routes current desired path.available_upgrades b)
                  (try_routes-Chosen path.available_upgrades seen b h) in
              rw (t, walk_paths)
                (
                  routes,
                  chosen,
                  λ r.
                      let tried = mem-try_all path.available_upgrades seen r in
                      (
                        λ m. elim ((members r).0 m) [
                          | inl (p, n, c, o) ↦ inl (p, Memᴰ.tail n, c, o)
                          | inr n ↦ elim (tried.0 n) [
                            | inl o ↦ inl (path, Memᴰ.head refl, t, o)
                            | inr o ↦ inr o
                          ]
                        ],
                        λ k. (members r).1 (elim k [
                          | inl (p, n, c, o) ↦ elim (Memᴰ.cases_cons n) [
                            | inl e ↦
                                inr (tried.1 (inl (subst (λ x. Memᴰ r x.available_upgrades) e o)))
                            | inr q ↦ inl (p, q, c, o)
                          ]
                          | inr n ↦ inr (tried.1 (inr n))
                        ]),
                      ),
                )
          | inr f ↦
              let (routes, chosen, members) = walk_paths-Chosen paths seen b h in
              rw (f, walk_paths)
                (
                  routes,
                  chosen,
                  λ r. (
                    λ m. elim ((members r).0 m) [
                      | inl (p, n, c, o) ↦ inl (p, Memᴰ.tail n, c, o)
                      | inr n ↦ inr n
                    ],
                    λ k. (members r).1 (elim k [
                      | inl (p, n, c, o) ↦ elim (Memᴰ.cases_cons n) [
                        | inl e ↦ absurd (
                            true≢false
                              (sym (subst (λ x. concerns name namespace current x ≡ true) e c) ∙ f))
                        | inr q ↦ inl (p, q, c, o)
                      ]
                      | inr n ↦ inr n
                    ]),
                  ),
                )
        ]

    -- The answer is no upgrade and no route leads to the desired template, or it is the next hop on
    -- an offered route on which the desired template stands furthest.
    abbrev pub IsNextStep : List ServiceUpgradePaths → AvailableUpgrade → Type 0
    IsNextStep paths u =
        ((u ≡ no_upgrade) × ((r : UpgradePath) (t : ℕ) → IsOffered paths r → ¬ LeadsTo r t))
        ⊎ ((r : UpgradePath) × (target : ℕ) × IsOffered paths r
            × LeadsTo r target
            × NextHop current r.versions target u
            × ((s : UpgradePath) (t : ℕ) → IsOffered paths s → LeadsTo s t → t ≤ target))

    -- `nextUpgradeStep` returns the zero value exactly when no route that was computed for the
    -- service leads to the desired template. Else it returns an upgrade of such a route on which
    -- the desired template stands furthest, at or in front of that template: the one right after
    -- the current template where that stands in front of the desired one, else the first.
    pub next_upgrade_step-IsNextStep :
        (paths : List ServiceUpgradePaths)
        → IsNextStep paths (next_upgrade_step paths name namespace current desired)
    unfolding next_upgrade_step
    next_upgrade_step-IsNextStep paths =
        let (routes, chosen, members) =
          walk_paths-Chosen paths [] (record { best = no_upgrade; best_len = 0 })
            (inl (refl, refl, λ r t m. elim m [ ])) in
        let offered : (r : UpgradePath) → Memᴰ r routes → IsOffered paths r =
          λ r m. elim ((members r).0 m) [ inl o ↦ o | inr n ↦ elim n [ ] ] in
        elim chosen [
          | inl (len, none_yet, nowhere) ↦
              inl (none_yet, λ r t o. nowhere r t ((members r).1 (inl o)))
          | inr (r, target, m, l, len, next, below) ↦
              inr (r, target, offered r m, l, next, λ s t o. below s t ((members s).1 (inl o)))
        ]
