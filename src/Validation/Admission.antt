-- ===== src/Validation/Admission.antt =====
-- Admission accepts exactly the lists of services whose dependencies are all listed and form no
-- cycle, and its errors name the cause.
use mathlib.Core.List.Memᴰ
use mathlib.Core.List.{cons≢nil}
use kcm.Prelude.{
  ◌≡◌, ◌≢◌, refl, sym, ◌∙◌, ap, subst, inl, inr, ◌↔◌, true, false, true≢false, not, List, [], ◌∷◌,
  map, Memᴰ, filter_by, mem-filter_by, filter_by-mem, Bool-cases, arith, ObjectKey, key_eq,
  lookup-mem, has_key, IsNodup, has_key_iff, mem-index_by, lookup-index_by,
}
use kcm.Api.{Service, ServiceDependsOn}
use kcm.Services.Keys.{key_of, dependency_key}
use kcm.Graph.{Graph, Outcome, ok, cycle, out_of_fuel}
use kcm.Graph.Exact.{Exact, has_cycle-Exact}
use kcm.Validation.{
  dependency_keys, depends_on_map, undefined_dependencies, validate_service_dependency, cycle_graph,
  validate_service_dependency_cycle, Verdict, valid, undefined, cyclic, unknown, cycle_verdict,
  validate_service_dependency_overall,
}
use kcm.Validation.Dependencies.{Depends, AllDefined, Walk-Depends, Depends-Walk}

-- No two services have one key.
abbrev pub AreDistinct : List Service → Type 0
AreDistinct services = IsNodup (map key_of services)

-- The reported pairs are the dependencies of the entries that are no keys.
mem-undefined :
    (defined graph : Graph) {d k : ObjectKey}
    → Memᴰ (d, k) (undefined_dependencies defined graph)
    → (ds : List ObjectKey) × Memᴰ (k, ds) graph × Memᴰ d ds × (has_key d defined ≡ false)
unfolding undefined_dependencies
mem-undefined defined [] m = elim m [ ]
mem-undefined defined ((j, ds) ∷ graph) {d} {k} m =
    elim (Memᴰ.append_cases (map (λ x. (x, j)) (filter_by (λ x. not (has_key x defined)) ds)) m) [
      | inl here ↦
          let (d', n, e) = Memᴰ.of_map (λ x. (x, j)) _ here in
          let (o, t) = mem-filter_by (λ x. not (has_key x defined)) ds n in
          (
            ds,
            Memᴰ.head (ap (λ p. (p.1, ds)) (sym e)),
            subst (λ x. Memᴰ x ds) (ap (λ p. p.0) e) o,
            subst (λ x. has_key x defined ≡ false) (ap (λ p. p.0) e) (ground (arith, t)),
          )
      | inr later ↦ let (es, n, o, t) = mem-undefined defined graph later in (es, Memᴰ.tail n, o, t)
    ]

undefined-mem :
    (defined graph : Graph) {d k : ObjectKey} {ds : List ObjectKey}
    → Memᴰ (k, ds) graph
    → Memᴰ d ds
    → has_key d defined ≡ false
    → Memᴰ (d, k) (undefined_dependencies defined graph)
unfolding undefined_dependencies
undefined-mem defined [] m n h = elim m [ ]
undefined-mem defined ((j, es) ∷ graph) {d} {k} (Memᴰ.head e) n h =
    let here =
      filter_by-mem (λ x. not (has_key x defined)) es (subst (Memᴰ d) (ap (λ p. p.1) e) n) (rw h) in
    Memᴰ.append_left _ (Memᴰ.cast (ap (λ p. (d, p.0)) e) (Memᴰ.map (λ x. (x, j)) here))
undefined-mem defined ((j, es) ∷ graph) (Memᴰ.tail m) n h =
    Memᴰ.append_right _ (undefined-mem defined graph m n h)

-- What each answer of admission says of the services.
abbrev pub Accurate : List Service → Verdict → Type 0
Accurate services valid = AllDefined services × ((k : ObjectKey) → ¬ Depends services k k)
Accurate services (undefined pairs) =
    (pairs ≢ [])
    × ((d k : ObjectKey)
        → Memᴰ (d, k) pairs
        → (svc : Service) × (dep : ServiceDependsOn) × Memᴰ svc services
          × Memᴰ dep svc.depends_on
          × (k ≡ key_of svc)
          × (d ≡ dependency_key dep)
          × ¬ Memᴰ d (map key_of services))
Accurate services (cyclic k) = AllDefined services × Depends services k k
Accurate services unknown = ⊥

defined_iff :
    (services : List Service) (k : ObjectKey)
    → (has_key k (depends_on_map services) ≡ true) ↔ Memᴰ k (map key_of services)
unfolding depends_on_map
defined_iff services k = has_key_iff key_of dependency_keys services k

undefined-Accurate :
    (services : List Service) (pairs : List (ObjectKey × ObjectKey))
    → validate_service_dependency services ≡ pairs
    → pairs ≢ []
    → Accurate services (undefined pairs)
unfolding validate_service_dependency depends_on_map
undefined-Accurate services pairs e some_pair = (
  some_pair,
  λ d k m.
      let graph = depends_on_map services in
      let (ds, entry, listed, missing) =
        mem-undefined graph graph (subst (Memᴰ (d, k)) (sym e) m) in
      elim (mem-index_by key_of dependency_keys services [] entry) [
        | inl (svc, n, p) ↦
            let (dep, o, q) =
              Memᴰ.of_map dependency_key svc.depends_on (subst (Memᴰ d) (ap (λ x. x.1) p) listed) in
            (
              svc,
              dep,
              n,
              o,
              ap (λ x. x.0) p,
              sym q,
              λ defined. true≢false (sym ((defined_iff services d).1 defined) ∙ missing),
            )
        | inr none_left ↦ elim none_left [ ]
      ],
)

nil-AllDefined :
    (services : List Service)
    → AreDistinct services
    → validate_service_dependency services ≡ []
    → AllDefined services
unfolding validate_service_dependency depends_on_map
nil-AllDefined services distinct e svc d m n =
    let graph = depends_on_map services in
    let entry =
      lookup-mem (key_of svc) graph
        (lookup-index_by key_of dependency_keys svc services [] distinct m) in
    elim (Bool-cases (has_key (dependency_key d) graph)) [
      | inl defined ↦ (defined_iff services (dependency_key d)).0 defined
      | inr missing ↦
          let reported = undefined-mem graph graph entry (Memᴰ.map dependency_key n) missing in
          elim (subst (Memᴰ _) e reported) [ ]
    ]

cycle-Accurate :
    (services : List Service) (r : Outcome)
    → AllDefined services
    → Exact (cycle_graph services []) r
    → Accurate services (cycle_verdict r)
cycle-Accurate services (ok s) defined h = (defined, λ k w. h k (Depends-Walk services w))
cycle-Accurate services (cycle k) defined h = (defined, Walk-Depends services h)
cycle-Accurate services out_of_fuel defined h = h

-- For services with distinct keys and every order of Go's maps, ValidateServiceDependencyOverall
-- ends; it returns nil only when every dependency is the key of a listed service and no service
-- depends on itself, directly or through others; an error about definitions names pairs of a
-- service and a dependency of it that is no listed service, at least one; an error about a cycle
-- names a key that depends on itself.
pub validate-Accurate :
    (order : Graph → List ObjectKey) (services : List Service)
    → ((graph : Graph) (k : ObjectKey) → Memᴰ k (map (λ e. e.0) graph) → Memᴰ k (order graph))
    → AreDistinct services
    → Accurate services (validate_service_dependency_overall order services)
unfolding validate_service_dependency_overall
validate-Accurate order services covers distinct = go (validate_service_dependency services) refl
  where
    go :
        (pairs : List (ObjectKey × ObjectKey))
        → validate_service_dependency services ≡ pairs
        → Accurate services (elim pairs [
          | [] ↦ cycle_verdict (validate_service_dependency_cycle order services)
          | e ∷ es ↦ undefined (e ∷ es)
        ])
    go [] e =
        let graph = cycle_graph services [] in
        cycle-Accurate services (validate_service_dependency_cycle order services)
          (nil-AllDefined services distinct e) (has_cycle-Exact graph (order graph) (covers graph))
    go (x ∷ xs) e = undefined-Accurate services (x ∷ xs) e (λ p. cons≢nil p)
