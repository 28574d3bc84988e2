-- ===== src/Chain/Longest.antt =====
-- Which of the routes `UpgradePaths` keeps, api/v1beta1/templatechain_common.go.
use mathlib.Core.List.Memᴰ
use mathlib.Core.List.{append-nil}
use mathlib.Core.Option.{some-injective, none-ne-some}
use kcm.Prelude.{
  ◌≤◌, ◌≡◌, refl, sym, ◌∙◌, ap, subst, inl, inr, ◌↔◌, false, List, [], ◌∷◌, ◌++◌, map, Memᴰ, Option,
  none, some, Option-cases, Bool-cases, String, string_eq, if◌then◌else◌, ltb, ltb→lt, arith,
  length, Map, insert, lookup, lookup-insert, lookup-mem, Eq-cases, IsNodup, insert-IsNodup,
  mem-lookup, has_key,
}
use kcm.Api.{AvailableUpgrade, TemplateChainSpec, UpgradePath}
use kcm.Chain.Routes.{Route, AllRoutes, find_all_upgrade_paths-AllRoutes}
use kcm.Chain.{
  template_map, last, keep_longer, unique_paths, fill_version, find_all_upgrade_paths,
  upgrade_paths,
}

-- The last upgrade of a route is to the template.
abbrev pub EndsAt : List AvailableUpgrade → String → Type 0
EndsAt path k = (u : AvailableUpgrade) × (last path ≡ some u) × (u.name ≡ k)

-- What is kept for a template: a longest route to it, and nothing where there is none.
abbrev pub Longest : List (List AvailableUpgrade) → String → Option (List AvailableUpgrade) → Type 0
Longest paths k none = (q : List AvailableUpgrade) → Memᴰ q paths → ¬ EndsAt q k
Longest paths k (some p) =
    Memᴰ p paths
    × EndsAt p k
    × ((q : List AvailableUpgrade) → Memᴰ q paths → EndsAt q k → length q ≤ length p)

-- A route to another template changes nothing.
Longest-other :
    (path : List AvailableUpgrade) (paths : List (List AvailableUpgrade)) (k : String)
    → ¬ EndsAt path k
    → (o : Option (List AvailableUpgrade)) → Longest paths k o
    → Longest (path ∷ paths) k o
Longest-other path paths k other none h = λ q m e. elim (Memᴰ.cases_cons m) [
  | inl p ↦ other (subst (λ x. EndsAt x k) p e)
  | inr n ↦ h q n e
]
Longest-other path paths k other (some p) (m, e, longest) = (
  Memᴰ.tail m,
  e,
  λ q n f. elim (Memᴰ.cases_cons n) [
    | inl r ↦ absurd (other (subst (λ x. EndsAt x k) r f))
    | inr o ↦ longest q o f
  ],
)

-- A route to the template is kept where it is longer.
Longest-longer :
    (path : List AvailableUpgrade) (paths : List (List AvailableUpgrade)) (k : String)
    → EndsAt path k
    → (o : Option (List AvailableUpgrade)) → Longest paths k o
    → Longest (path ∷ paths) k (elim o [
      | none ↦ some path
      | some existing ↦ if ltb (length existing) (length path) then some path else some existing
    ])
Longest-longer path paths k e none h = (
  Memᴰ.head refl,
  e,
  λ q m f. elim (Memᴰ.cases_cons m) [
    | inl p ↦ subst (λ x. length x ≤ length path) (sym p) (omega arith)
    | inr n ↦ absurd (h q n f)
  ],
)
Longest-longer path paths k e (some old) (m, f, longest) =
    elim (Bool-cases (ltb (length old) (length path))) [
      | inl longer ↦ rw longer (
        Memᴰ.head refl,
        e,
        λ q n g. elim (Memᴰ.cases_cons n) [
          | inl p ↦ subst (λ x. length x ≤ length path) (sym p) (omega arith)
          | inr o ↦ omega (arith, longest q o g, ltb→lt (length old) (length path) longer)
        ],
      )
      | inr shorter ↦ rw shorter (
        Memᴰ.tail m,
        f,
        λ q n g. elim (Memᴰ.cases_cons n) [
          | inl p ↦ subst (λ x. length x ≤ length old) (sym p) (ground arith)
          | inr o ↦ longest q o g
        ],
      )
    ]

keep_longer-Longest :
    (path : List AvailableUpgrade) (paths : List (List AvailableUpgrade))
    (unique : Map String (List AvailableUpgrade))
    → ((k : String) → Longest paths k (lookup k unique))
    → (k : String) → Longest (path ∷ paths) k (lookup k (keep_longer path unique))
keep_longer-Longest path paths unique h k = go (last path) refl
  where
    kept :
        (u : AvailableUpgrade) (o : Option (List AvailableUpgrade))
        → last path ≡ some u
        → lookup u.name unique ≡ o
        → Longest (path ∷ paths) k (
            lookup k (elim o [
              | none ↦ insert u.name path unique
              | some existing ↦
                  if ltb (length existing) (length path) then insert u.name path unique else unique
            ]))
    kept u none e l = rw (lookup-insert u.name k path unique) (elim (Eq-cases u.name k) [
      | inl (same, t) ↦ rw t (
          Longest-longer path paths k (u, e, same) none
            (subst (Longest paths k) (ap (λ x. lookup x unique) (sym same) ∙ l) (h k)))
      | inr (other, f) ↦ rw f (
          Longest-other path paths k
            (λ (v, p, q). other (ap (λ x. x.name) (some-injective _ _ (sym e ∙ p)) ∙ q))
            (lookup k unique) (h k))
    ])
    kept u (some old) e l = elim (Eq-cases u.name k) [
      | inl (same, t) ↦
          let known = ap (λ x. lookup x unique) (sym same) ∙ l in
          let all_known =
            Longest-longer path paths k (u, e, same) (some old)
              (subst (Longest paths k) known (h k)) in
          elim (Bool-cases (ltb (length old) (length path))) [
            | inl longer ↦
                rw (longer, lookup-insert u.name k path unique, t) (rw longer at all_known)
            | inr shorter ↦ rw (shorter, known) (rw shorter at all_known)
          ]
      | inr (other, f) ↦
          let unchanged =
            Longest-other path paths k
              (λ (v, p, q). other (ap (λ x. x.name) (some-injective _ _ (sym e ∙ p)) ∙ q))
              (lookup k unique) (h k) in
          elim (Bool-cases (ltb (length old) (length path))) [
            | inl longer ↦ rw (longer, lookup-insert u.name k path unique, f) unchanged
            | inr shorter ↦ rw shorter unchanged
          ]
    ]

    go :
        (o : Option AvailableUpgrade)
        → last path ≡ o
        → Longest (path ∷ paths) k (
            lookup k (elim o [
              | none ↦ unique
              | some key ↦ elim (lookup key.name unique) [
                | none ↦ insert key.name path unique
                | some existing ↦
                    if ltb (length existing) (length path)
                    then insert key.name path unique
                    else unique
              ]
            ]))
    go none e =
        Longest-other path paths k (λ (v, p, q). none-ne-some _ (sym e ∙ p)) (lookup k unique) (h k)
    go (some u) e = kept u (lookup u.name unique) e refl

-- What is kept depends on which routes there are, not on their order.
Longest-mem :
    (paths others : List (List AvailableUpgrade)) (k : String) (o : Option (List AvailableUpgrade))
    → ((q : List AvailableUpgrade) → Memᴰ q paths ↔ Memᴰ q others)
    → Longest paths k o
    → Longest others k o
Longest-mem paths others k none same h = λ q m. h q ((same q).1 m)
Longest-mem paths others k (some p) same (m, e, longest) =
    ((same p).0 m, e, λ q n. longest q ((same q).1 n))

unique_paths-seen :
    (paths seen : List (List AvailableUpgrade)) (unique : Map String (List AvailableUpgrade))
    → ((k : String) → Longest seen k (lookup k unique))
    → (k : String) → Longest (paths ++ seen) k (lookup k (unique_paths paths unique))
unfolding unique_paths
unique_paths-seen [] seen unique h k = h k
unique_paths-seen (path ∷ paths) seen unique h k =
    Longest-mem (paths ++ path ∷ seen) (path ∷ paths ++ seen) k
      (lookup k (unique_paths paths (keep_longer path unique)))
      (λ q. (
        λ m. elim (Memᴰ.append_cases paths m) [
          | inl n ↦ Memᴰ.tail (Memᴰ.append_left seen n)
          | inr n ↦ elim (Memᴰ.cases_cons n) [
            | inl p ↦ Memᴰ.head p
            | inr o ↦ Memᴰ.tail (Memᴰ.append_right paths o)
          ]
        ],
        λ m. elim (Memᴰ.cases_cons m) [
          | inl p ↦ Memᴰ.append_right paths (Memᴰ.head p)
          | inr n ↦ elim (Memᴰ.append_cases paths n) [
            | inl o ↦ Memᴰ.append_left (path ∷ seen) o
            | inr o ↦ Memᴰ.append_right paths (Memᴰ.tail o)
          ]
        ],
      ))
      (unique_paths-seen paths (path ∷ seen) (keep_longer path unique)
        (keep_longer-Longest path seen unique h) k)

unique_paths-Longest :
    (paths : List (List AvailableUpgrade)) (k : String)
    → Longest paths k (lookup k (unique_paths paths []))
unique_paths-Longest paths k =
    subst (λ x. Longest x k (lookup k (unique_paths paths []))) (append-nil paths)
      (unique_paths-seen paths [] [] (λ j q m. elim m [ ]) k)

keep_longer-IsNodup :
    (path : List AvailableUpgrade) (unique : Map String (List AvailableUpgrade))
    → IsNodup (map (λ e. e.0) unique)
    → IsNodup (map (λ e. e.0) (keep_longer path unique))
keep_longer-IsNodup path unique h = go (last path)
  where
    add : (k : String) → IsNodup (map (λ e. e.0) (insert k path unique))
    add k = insert-IsNodup (λ (x : String). x) (λ x. path) k path unique h

    go :
        (o : Option AvailableUpgrade)
        → IsNodup (
            map
              (λ e. e.0)
              (elim o [
                | none ↦ unique
                | some key ↦ elim (lookup key.name unique) [
                  | none ↦ insert key.name path unique
                  | some existing ↦
                      if ltb (length existing) (length path)
                      then insert key.name path unique
                      else unique
                ]
              ]))
    go none = h
    go (some u) = elim (Option-cases (lookup u.name unique)) [
      | inl missing ↦ rw missing (add u.name)
      | inr (old, e) ↦ elim (Bool-cases (ltb (length old) (length path))) [
        | inl longer ↦ rw (e, longer) (add u.name)
        | inr shorter ↦ rw (e, shorter) h
      ]
    ]

unique_paths-IsNodup :
    (paths : List (List AvailableUpgrade)) (unique : Map String (List AvailableUpgrade))
    → IsNodup (map (λ e. e.0) unique)
    → IsNodup (map (λ e. e.0) (unique_paths paths unique))
unfolding unique_paths
unique_paths-IsNodup [] unique h = h
unique_paths-IsNodup (path ∷ paths) unique h =
    unique_paths-IsNodup paths (keep_longer path unique) (keep_longer-IsNodup path unique h)

-- A route of the chain from the template.
abbrev pub RouteOf : TemplateChainSpec → String → List AvailableUpgrade → Type 0
RouteOf s name p = Route (template_map s) [] [] name p

-- A destination that a route leads to, with a longest route to it.
abbrev pub IsLongest : TemplateChainSpec → String → String → List AvailableUpgrade → Type 0
IsLongest s name k p =
    RouteOf s name p
    × EndsAt p k
    × ((q : List AvailableUpgrade) → RouteOf s name q → EndsAt q k → length q ≤ length p)

abbrev pub OnePerDestination : TemplateChainSpec → String → Option (List UpgradePath) → Type 0
OnePerDestination s name none = has_key name (template_map s) ≡ false
OnePerDestination s name (some paths) =
    ((up : UpgradePath)
      → Memᴰ up paths
      → (k : String) × (p : List AvailableUpgrade) × (up.versions ≡ map fill_version p)
        × IsLongest s name k p)
    × ((k : String) (q : List AvailableUpgrade)
        → RouteOf s name q
        → EndsAt q k
        → (p : List AvailableUpgrade) × Memᴰ (record { versions = map fill_version p }) paths
          × IsLongest s name k p)

-- `UpgradePaths` fails only for a template that is not supported. Else each path that it returns is
-- a longest route from the template to some destination, and every template to which a route leads
-- has such a path, where an upgrade without a version has its template's name for one.
pub upgrade_paths-OnePerDestination :
    (s : TemplateChainSpec) (name : String) → OnePerDestination s name (upgrade_paths s name)
unfolding upgrade_paths
upgrade_paths-OnePerDestination s name =
    go (find_all_upgrade_paths s name) (find_all_upgrade_paths-AllRoutes s name)
  where
    go :
        (o : Option (List (List AvailableUpgrade)))
        → AllRoutes s name o
        → OnePerDestination s name (elim o [
          | none ↦ none
          | some paths ↦
              some (map (λ e. record { versions = map fill_version e.1 }) (unique_paths paths []))
        ])
    go none h = h
    go (some paths) (known, exact) =
        let longest : (k : String) (p : List AvailableUpgrade)
            → Longest paths k (some p)
            → IsLongest s name k p =
          λ k p (m, e, l). ((exact p).0 m, e, λ q r. l q ((exact q).1 r)) in
        (
          λ up m.
              let ((k, p), n, e) = Memᴰ.of_map _ (unique_paths paths []) m in
              let found = mem-lookup (unique_paths paths []) (unique_paths-IsNodup paths [] tt) n in
              (
                k,
                p,
                ap (λ x. x.versions) (sym e),
                longest k p (subst (Longest paths k) found (unique_paths-Longest paths k)),
              ),
          λ k q r e. elim (Option-cases (lookup k (unique_paths paths []))) [
            | inl missing ↦
                absurd (
                  subst (Longest paths k) missing (unique_paths-Longest paths k) q ((exact q).1 r)
                    e)
            | inr (p, found) ↦ (
              p,
              Memᴰ.map (λ x. record { versions = map fill_version x.1 })
                  (lookup-mem k (unique_paths paths []) found),
              longest k p (subst (Longest paths k) found (unique_paths-Longest paths k)),
            )
          ],
        )
