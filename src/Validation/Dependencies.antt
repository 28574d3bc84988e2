-- ===== src/Validation/Dependencies.antt =====
-- The graph that `validateServiceDependencyCycle` builds has the walks that the services' lists of
-- dependencies give.
use mathlib.Core.List.Memᴰ
use mathlib.Core.List.{append_assoc, append-nil}
use kcm.Prelude.{
  ◌≡◌, refl, sym, ◌∙◌, ap, subst, inl, inr, List, [], ◌∷◌, ◌++◌, map, Memᴰ, if◌then◌else◌,
  Bool-cases, ObjectKey, key_eq, ◌==◌, Eq-cases, insert, get_or, get_or-insert,
}
use kcm.Api.{Service, ServiceDependsOn}
use kcm.Services.Keys.{key_of, dependency_key}
use kcm.Graph.{Graph, dependencies}
use kcm.Graph.Walks.{Edge, Walk, one, more, Walk-trans}
use kcm.Validation.{dependency_keys, add_dependencies, cycle_graph}

-- A service of the list names a dependency, directly or through the dependencies of others.
pub data Depends (services : List Service) : ObjectKey → ObjectKey → Type 0 where
  direct :
      {u v : ObjectKey} (svc : Service) (d : ServiceDependsOn)
      → Memᴰ svc services
      → Memᴰ d svc.depends_on
      → u ≡ key_of svc
      → v ≡ dependency_key d
      → Depends services u v
  through : {u v w : ObjectKey} → Depends services u v → Depends services v w → Depends services u w

-- Every dependency of a listed service is the key of a listed service.
abbrev pub AllDefined : List Service → Type 0
AllDefined services =
    (svc : Service) (d : ServiceDependsOn)
    → Memᴰ svc services
    → Memᴰ d svc.depends_on
    → Memᴰ (dependency_key d) (map key_of services)

-- The keys that the services with a key name, in order.
needs : ObjectKey → List Service → List ObjectKey
needs k [] = []
needs k (svc ∷ services) = (if key_of svc == k then dependency_keys svc else []) ++ needs k services

add_dependencies_lem :
    (k j : ObjectKey) (ds : List ObjectKey) (graph : Graph)
    → dependencies (add_dependencies k ds graph) j
      ≡ dependencies graph j ++ (if k == j then ds else [])
unfolding add_dependencies
add_dependencies_lem k j [] graph = elim (Bool-cases (k == j)) [
  | inl same ↦ rw same (sym (append-nil (dependencies graph j)))
  | inr other ↦ rw other (sym (append-nil (dependencies graph j)))
]
add_dependencies_lem k j (d ∷ ds) graph =
    let old = get_or k graph [] in
    let inserted =
      ap (λ l. l ++ (if k == j then ds else [])) (get_or-insert k j (old ++ d ∷ []) [] graph) in
    add_dependencies_lem k j ds (insert k (old ++ d ∷ []) graph) ∙ inserted ∙ elim (Eq-cases k j) [
      | inl (same, t) ↦
          rw t (append_assoc old (d ∷ []) ds ∙ ap (λ x. get_or x graph [] ++ d ∷ ds) same)
      | inr (other, f) ↦ rw f
    ]

cycle_graph_lem :
    (k : ObjectKey) (services : List Service) (graph : Graph)
    → dependencies (cycle_graph services graph) k ≡ dependencies graph k ++ needs k services
unfolding cycle_graph needs
cycle_graph_lem k [] graph = sym (append-nil _)
cycle_graph_lem k (svc ∷ services) graph =
    cycle_graph_lem k services (add_dependencies (key_of svc) (dependency_keys svc) graph)
    ∙ ap (λ l. l ++ needs k services)
        (add_dependencies_lem (key_of svc) k (dependency_keys svc) graph)
    ∙ append_assoc (dependencies graph k) _ (needs k services)

-- A needed key is a dependency of a listed service with the key that needs it.
mem-needs :
    (k v : ObjectKey) (services : List Service)
    → Memᴰ v (needs k services)
    → (svc : Service) × (d : ServiceDependsOn) × Memᴰ svc services
      × Memᴰ d svc.depends_on
      × (k ≡ key_of svc)
      × (v ≡ dependency_key d)
unfolding needs
mem-needs k v [] m = elim m [ ]
mem-needs k v (svc ∷ services) m = elim (Eq-cases (key_of svc) k) [
  | inl (same, t) ↦ elim (Memᴰ.append_cases (dependency_keys svc) (rw t at m)) [
    | inl here ↦
        let (d, n, e) = Memᴰ.of_map dependency_key svc.depends_on here in
        (svc, d, Memᴰ.head refl, n, sym same, sym e)
    | inr later ↦
        let (s, d, n, o, p, q) = mem-needs k v services later in (s, d, Memᴰ.tail n, o, p, q)
  ]
  | inr (other, f) ↦
      let (s, d, n, o, p, q) = mem-needs k v services (rw f at m) in (s, d, Memᴰ.tail n, o, p, q)
]

needs-mem :
    (svc : Service) (v : ObjectKey) (services : List Service)
    → Memᴰ svc services
    → Memᴰ v (dependency_keys svc)
    → Memᴰ v (needs (key_of svc) services)
unfolding needs
needs-mem svc v [] m n = elim m [ ]
needs-mem svc v (s ∷ services) (Memᴰ.head e) n =
    rw (e, (key_eq.beq_iff (key_of s) (key_of s)).1 refl)
      (Memᴰ.append_left _ (subst (λ x. Memᴰ v (dependency_keys x)) e n))
needs-mem svc v (s ∷ services) (Memᴰ.tail m) n =
    Memᴰ.append_right (if key_of s == key_of svc then dependency_keys s else [])
      (needs-mem svc v services m n)

-- The walks of the graph that the check builds are the dependencies of the services.
pub Edge-Depends :
    (services : List Service) (u v : ObjectKey)
    → Edge (cycle_graph services []) u v
    → Depends services u v
Edge-Depends services u v e =
    let (svc, d, m, n, p, q) =
      mem-needs u v services (subst (Memᴰ v) (cycle_graph_lem u services []) e) in
    direct svc d m n p q

pub Walk-Depends :
    (services : List Service) {u v : ObjectKey}
    → Walk (cycle_graph services []) u v
    → Depends services u v
Walk-Depends services {u} (one {v = v} e) = Edge-Depends services u v e
Walk-Depends services (more {v = v} {w = w} before e) =
    through (Walk-Depends services before) (Edge-Depends services v w e)

pub Depends-Walk :
    (services : List Service) {u v : ObjectKey}
    → Depends services u v
    → Walk (cycle_graph services []) u v
Depends-Walk services {u} {v} (direct svc d m n p q) =
    let needed =
      needs-mem svc v services m
        (subst (λ x. Memᴰ x (dependency_keys svc)) (sym q) (Memᴰ.map dependency_key n)) in
    one (
      subst (Memᴰ v) (sym (cycle_graph_lem u services []))
        (subst (λ x. Memᴰ v (needs x services)) (sym p) needed))
Depends-Walk services (through a b) = Walk-trans (Depends-Walk services a) (Depends-Walk services b)
