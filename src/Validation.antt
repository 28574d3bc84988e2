-- ===== src/Validation.antt =====
-- Admission checks on services, internal/util/validation/services.go: the dependencies of the
-- services of one owner. A joined error is the list of its parts, in the order of the map's keys;
-- Go leaves that order open, and only the message depends on it.
pub mod Dependencies
pub mod Admission
pub mod Owners
pub mod Policies
pub mod Clusters
pub mod Templates
use kcm.Prelude.{
  List, [], ◌∷◌, ◌++◌, map, filter_by, not, if◌then◌else◌, ObjectKey, key_eq, ◌==◌, Map, insert,
  index_by, get_or, has_key,
}
use kcm.Api.{Service}
use kcm.Services.Keys.{key_of, dependency_key}
use kcm.Graph.{Graph, Outcome, ok, cycle, out_of_fuel, has_cycle}

-- The first loop of `validateServiceDependency`: a service's dependencies replace those of an
-- earlier service with its key.
abbrev pub dependency_keys : Service → List ObjectKey
dependency_keys svc = map dependency_key svc.depends_on

pub depends_on_map : List Service → Graph
unfolding index_by
depends_on_map services = index_by key_of dependency_keys services []

-- The second loop: a dependency that is no key, with the service that names it.
undefined_dependencies : Graph → Graph → List (ObjectKey × ObjectKey)
undefined_dependencies defined [] = []
undefined_dependencies defined ((svc, dependencies) ∷ graph) =
    map (λ d. (d, svc)) (filter_by (λ d. not (has_key d defined)) dependencies)
    ++ undefined_dependencies defined graph

unfoldable pub validate_service_dependency : List Service → List (ObjectKey × ObjectKey)
unfolding depends_on_map undefined_dependencies
validate_service_dependency services =
    let graph = depends_on_map services in undefined_dependencies graph graph

-- The inner loop of `validateServiceDependencyCycle` over the dependencies of one service, and the
-- outer one. A service with no dependencies is no key of this map.
add_dependencies : ObjectKey → List ObjectKey → Graph → Graph
add_dependencies k [] graph = graph
add_dependencies k (d ∷ ds) graph =
    add_dependencies k ds (insert k (get_or k graph [] ++ d ∷ []) graph)

pub cycle_graph : List Service → Graph → Graph
unfolding add_dependencies
cycle_graph [] graph = graph
cycle_graph (svc ∷ services) graph =
    cycle_graph services (add_dependencies (key_of svc) (dependency_keys svc) graph)

-- `order` is the order in which Go goes through the keys of a map.
unfoldable pub validate_service_dependency_cycle : (Graph → List ObjectKey) → List Service → Outcome
unfolding cycle_graph has_cycle
validate_service_dependency_cycle order services =
    let graph = cycle_graph services [] in has_cycle (order graph) graph

-- What admission answers: no error, or the error with its cause.
pub data Verdict : Type 0 where
  valid : Verdict
  undefined : List (ObjectKey × ObjectKey) → Verdict
  cyclic : ObjectKey → Verdict
  unknown : Verdict

-- `if err := validateServiceDependencyCycle(services); err != nil`
abbrev cycle_verdict : Outcome → Verdict
cycle_verdict (ok s) = valid
cycle_verdict (cycle k) = cyclic k
cycle_verdict out_of_fuel = unknown

unfoldable pub validate_service_dependency_overall :
    (Graph → List ObjectKey) → List Service → Verdict
unfolding validate_service_dependency validate_service_dependency_cycle
validate_service_dependency_overall order services =
    let acyclic = cycle_verdict (validate_service_dependency_cycle order services) in
    elim (validate_service_dependency services) [ [] ↦ acyclic | e ∷ es ↦ undefined (e ∷ es) ]
