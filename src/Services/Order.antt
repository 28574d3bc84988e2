-- ===== src/Services/Order.antt =====
-- The order of a ServiceSet's services: `sortByDependency` and `BuildServicesList` of
-- internal/serviceset/util.go. `seen` is the list of the marked positions, and `ordered` the list of
-- the positions of the services that are appended. Go's sorts are insertion sorts here, the stable
-- one with equal elements kept in order.
--
-- Fuel bounds the depth of `place`, which goes deeper only by marking a position: one more than
-- there are services is enough.
pub mod Merged
pub mod Respected
pub mod Positions
pub mod Ranks
pub mod Placement
use kcm.Prelude.{
  sort, ℕ, zero, suc, ◌+◌, Bool, true, false, not, ◌&&◌, ◌||◌, List, [], ◌∷◌, ◌++◌, map, Option,
  none, some, String, if◌then◌else◌, ltb, leb, length, get_elem?, filter_by, ◌==◌, string_eq,
  nat_eq, ObjectKey, key_eq, Map, insert, lookup, get_or, contains, str_compare_lt,
}
use kcm.Api.{Service, ServiceDependsOn, ServiceWithValues}
use kcm.Services.Keys.{key_of, dependency_key, stored_key}

-- for i, svc := range services { index[ServiceKey(svc.Namespace, svc.Name)] = i }
pub index_from : ℕ → List Service → Map ObjectKey ℕ → Map ObjectKey ℕ
index_from i [] m = m
index_from i (svc ∷ services) m = index_from (suc i) services (insert (key_of svc) i m)

pub record Placing : Type 0 where
  pub seen : List ℕ
  pub ordered : List ℕ

-- The positions of the dependencies that are in the batch.
pub positions : Map ObjectKey ℕ → List ServiceDependsOn → List ℕ
positions index [] = []
positions index (d ∷ ds) =
    let rest = positions index ds in
    elim (lookup (dependency_key d) index) [ none ↦ rest | some j ↦ j ∷ rest ]

abbrev pub depends_at : Map ObjectKey ℕ → List Service → ℕ → List ℕ
depends_at index services i = elim (get_elem? services i) [
  | none ↦ []
  | some svc ↦ positions index svc.depends_on
]

pub place_all : (ℕ → Placing → Placing) → List ℕ → Placing → Placing
place_all visit [] p = p
place_all visit (j ∷ js) p = place_all visit js (visit j p)

module _ (deps : ℕ → List ℕ) where
  unfoldable pub place : ℕ → ℕ → Placing → Placing
  unfolding place_all
  place zero i p = p
  place (suc fuel) i p =
      let marked = record p { seen = i ∷ p.seen } in
      let below = place_all (place fuel) (deps i) marked in
      if contains p.seen i then p else record below { ordered = below.ordered ++ i ∷ [] }

-- The positions 0, …, n - 1, from i.
abbrev pub range_from : ℕ → List Service → List ℕ
range_from i [] = []
range_from i (svc ∷ services) = i ∷ range_from (suc i) services

-- Reads the services at the positions.
abbrev pub read_at : List Service → List ℕ → List Service
read_at services [] = []
read_at services (i ∷ is) =
    let rest = read_at services is in
    elim (get_elem? services i) [ none ↦ rest | some svc ↦ svc ∷ rest ]

unfoldable pub sorted_positions : List Service → List ℕ
unfolding index_from positions place
sorted_positions services =
    (place_all (place (depends_at (index_from 0 services []) services) (suc (length services)))
      (range_from 0 services) (record { seen = []; ordered = [] })).ordered

unfoldable pub sort_by_dependency : List Service → List Service
unfolding sorted_positions
sort_by_dependency services =
    if ltb (length services) 2 then services else read_at services (sorted_positions services)

-- cmp.Compare of the namespaces, then of the names.
abbrev pub key_less : ObjectKey → ObjectKey → Bool
key_less a b =
    if a.namespace == b.namespace
    then str_compare_lt a.name b.name
    else str_compare_lt a.namespace b.namespace

-- The stored services that are still desired and that the filtered ones do not cover.
unfoldable pub locked :
    (stored filtered : List ServiceWithValues) (desired : List Service) → List ServiceWithValues
locked stored filtered desired =
    filter_by
      (λ svc.
        contains (map key_of desired) (stored_key svc)
        && not (contains (map stored_key filtered) (stored_key svc)))
      stored

unfoldable pub ranks : List Service → Map ObjectKey ℕ
unfolding index_from sort_by_dependency sort
ranks desired =
    index_from 0 (sort_by_dependency (sort (λ a b. key_less (key_of a) (key_of b)) desired)) []

abbrev pub rank_of : Map ObjectKey ℕ → ServiceWithValues → ℕ
rank_of rank svc = get_or (stored_key svc) rank 0

unfoldable pub build_services_list :
    (stored filtered : List ServiceWithValues) (desired : List Service) → List ServiceWithValues
unfolding locked ranks sort
build_services_list stored filtered desired =
    let rank = ranks desired in
    sort (λ a b. ltb (rank_of rank a) (rank_of rank b)) (filtered ++ locked stored filtered desired)
