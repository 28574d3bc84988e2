-- ===== src/Services/Filter.antt =====
-- Which desired services may be applied now: `FilterServiceDependencies` of
-- internal/serviceset/util.go, from the ServiceSet that `fetchServiceSet` found. Go goes through
-- the keys of a map in any order; the model takes the map's, and the theorems below this module
-- describe the result by its members, so that the order does not matter.
--
-- Each round of the fixpoint that goes on drops a key, so one more round than there are keys is
-- enough fuel.
pub mod Fixpoint
pub mod Counts
pub mod Satisfied
pub mod Eligible
use kcm.Prelude.{
  ℕ, zero, suc, Bool, true, false, not, List, [], ◌∷◌, ◌++◌, map, Option, none, some, String,
  if◌then◌else◌, length, all, filter_by, ObjectKey, key_eq, Map, insert, index_by, get_or, lookup,
  has_key, contains, remove, ℤ, pos, decrement, non_positive,
}
use kcm.Api.{Service, ServiceDependsOn, ServiceWithValues, ServiceState, ServiceSet}
use kcm.Services.Keys.{
  key_of, dependency_key, stored_key, state_key, service_version, at_desired_version,
}

-- The maps of the first loop. `serviceIdx` gives the position of a key's service, and is used to
-- read its dependencies: here it gives the service.
pub record Tables : Type 0 where
  pub service_idx : Map ObjectKey Service
  pub depends_on_count : Map ObjectKey ℤ
  pub dependents : Map ObjectKey (List ObjectKey)

-- for _, d := range svc.DependsOn { dependents[dKey] = append(dependents[dKey], svcKey) }
pub add_dependents :
    ObjectKey
    → List ServiceDependsOn
    → Map ObjectKey (List ObjectKey)
    → Map ObjectKey (List ObjectKey)
add_dependents svc [] dependents = dependents
add_dependents svc (d ∷ ds) dependents =
    let key = dependency_key d in
    add_dependents svc ds (insert key (get_or key dependents [] ++ svc ∷ []) dependents)

pub populate : List Service → Tables → Tables
unfolding add_dependents
populate [] t = t
populate (svc ∷ services) t = populate services (record {
  service_idx = insert (key_of svc) svc t.service_idx;
  depends_on_count = insert (key_of svc) (pos (length svc.depends_on)) t.depends_on_count;
  dependents = add_dependents (key_of svc) svc.depends_on t.dependents;
})

abbrev pub no_tables : Tables
no_tables = record { service_idx = []; depends_on_count = []; dependents = [] }

-- The first reference to a service that is not in the list.
pub absent_dependency : Map ObjectKey Service → List Service → Option (ObjectKey × ObjectKey)
absent_dependency idx [] = none
absent_dependency idx (svc ∷ services) =
    let later = absent_dependency idx services in
    elim (filter_by (λ d. not (has_key (dependency_key d) idx)) svc.depends_on) [
      | [] ↦ later
      | d ∷ ds ↦ some (key_of svc, dependency_key d)
    ]

-- The versions that the spec and the status state, and the states.
abbrev pub spec_versions : List ServiceWithValues → Map ObjectKey String
spec_versions services =
    index_by stored_key (λ svc. service_version svc.version svc.template) services []

abbrev pub status_versions : List ServiceState → Map ObjectKey String
status_versions services =
    index_by state_key (λ svc. service_version svc.version svc.template) services []

abbrev pub status_states : List ServiceState → Map ObjectKey String
status_states services = index_by state_key (λ svc. svc.state) services []

abbrev pub desired_versions : List Service → Map ObjectKey String
desired_versions services =
    index_by key_of (λ svc. service_version svc.version svc.template) services []

-- The test that a key passes on its own account.
unfoldable pub is_at_desired : ServiceSet → List Service → ObjectKey → Bool
unfolding index_by at_desired_version
is_at_desired set desired k =
    at_desired_version (get_or k (status_states set.status.services) "")
      (get_or k (status_versions set.status.services) "")
      (get_or k (spec_versions set.spec.services) "") (get_or k (desired_versions desired) "")

-- One round of the fixpoint over the keys `ks` of the set: a key goes when a dependency of its
-- service is not in the set. The second part says whether one went.
pub sweep : (ObjectKey → List ObjectKey) → List ObjectKey → List ObjectKey → List ObjectKey × Bool
sweep deps [] set = (set, false)
sweep deps (k ∷ ks) set =
    let stays = all (contains set) (deps k) in
    let (set', dropped) = sweep deps ks (if stays then set else remove k set) in
    (set', if stays then dropped else true)

-- for dropped := true; dropped; { … }; `none` is a lack of fuel.
pub settle : (ObjectKey → List ObjectKey) → ℕ → List ObjectKey → Option (List ObjectKey)
unfolding sweep
settle deps zero set = none
settle deps (suc fuel) set =
    let (set', dropped) = sweep deps set set in
    let again = settle deps fuel set' in if dropped then again else some set'

-- The keys that the service with a key depends on.
abbrev pub dependencies_of : Map ObjectKey Service → ObjectKey → List ObjectKey
dependencies_of idx k = elim (lookup k idx) [
  | none ↦ []
  | some svc ↦ map dependency_key svc.depends_on
]

-- dependsOnCount[d]-- for each dependent d of one deployed service, and of each.
pub decrement_all : List ObjectKey → Map ObjectKey ℤ → Map ObjectKey ℤ
decrement_all [] counts = counts
decrement_all (d ∷ ds) counts =
    decrement_all ds (insert d (decrement (get_or d counts (pos 0))) counts)

pub decrement_dependents :
    Map ObjectKey (List ObjectKey) → List ObjectKey → Map ObjectKey ℤ → Map ObjectKey ℤ
unfolding decrement_all
decrement_dependents dependents [] counts = counts
decrement_dependents dependents (svc ∷ deployed) counts =
    decrement_dependents dependents deployed (decrement_all (get_or svc dependents []) counts)

pub data Filtered : Type 0 where
  eligible : List Service → Filtered
  absent : ObjectKey → ObjectKey → Filtered
  out_of_fuel : Filtered

-- The keys of the services that are at their desired version.
abbrev pub initially_deployed : ServiceSet → List Service → Tables → List ObjectKey
initially_deployed set desired t =
    filter_by (is_at_desired set desired) (map (λ e. e.0) t.service_idx)

-- The end of the function, from the settled set.
pub eligible_from : Tables → List Service → Option (List ObjectKey) → Filtered
unfolding decrement_dependents
eligible_from t desired none = out_of_fuel
eligible_from t desired (some deployed) =
    let counts = decrement_dependents t.dependents deployed t.depends_on_count in
    eligible (filter_by (λ svc. non_positive (get_or (key_of svc) counts (pos 0))) desired)

unfoldable pub filter_service_dependencies : ServiceSet → List Service → Filtered
unfolding populate absent_dependency is_at_desired settle eligible_from
filter_service_dependencies set desired =
    let t = populate desired no_tables in
    let deployed = initially_deployed set desired t in
    let settled = settle (dependencies_of t.service_idx) (suc (length deployed)) deployed in
    elim (absent_dependency t.service_idx desired) [
      | some (svc, dep) ↦ absent svc dep
      | none ↦ eligible_from t desired settled
    ]
