-- ===== src/Validation/Owners.antt =====
-- Admission checks between MultiClusterServices, internal/util/validation/multiclusterservice.go:
-- what one depends on, and whether it may be deleted. `items` is the list that the API server
-- returns. Its error ends each check at once, and is left to the caller.
pub mod Accurate
pub mod Deletion
use mathlib.Core.List.Memᴰ
use kcm.Prelude.{
  ℕ, ltb, length, ◌≡◌, ◌≢◌, refl, sym, ◌∙◌, ap, subst, ◌⊎◌, inl, inr, ◌↔◌, true, false, true≢false,
  not, List, [], ◌∷◌, ◌++◌, map, Memᴰ, String, string_eq, if◌then◌else◌, Bool-cases, Eq-cases,
  ObjectKey, key_eq, filter_by, mem-filter_by, filter_by-mem, has_key, has_key_iff, insert, get_or,
  get_or-insert, lookup, index_by, contains, contains→mem, not-mem_of_contains, Option, none, some,
}
use kcm.Api.{MultiClusterService}
use kcm.Graph.{Graph, Outcome, ok, cycle, out_of_fuel, dependencies, has_cycle_from}
use kcm.Graph.Walks.{Walk}
use kcm.Graph.Exact.{ExactFrom}

-- client.ObjectKey{Name: name}
abbrev pub mcs_key : String → ObjectKey
mcs_key name = record { namespace = ""; name = name }

abbrev pub key_of_mcs : MultiClusterService → ObjectKey
key_of_mcs m = mcs_key m.name

abbrev pub mcs_dependencies : MultiClusterService → List ObjectKey
mcs_dependencies m = map mcs_key m.depends_on

-- Each MultiClusterService replaces an earlier one of its name.
unfoldable pub generate_mcs_dependency_graph : List MultiClusterService → Graph
unfolding index_by
generate_mcs_dependency_graph items = index_by key_of_mcs mcs_dependencies items []

-- The loop over the dependencies of one MultiClusterService, and the loop over the list.
add_dependent : ObjectKey → List ObjectKey → Graph → Graph
add_dependent m [] graph = graph
add_dependent m (d ∷ ds) graph = add_dependent m ds (insert d (get_or d graph [] ++ m ∷ []) graph)

add_owners : List MultiClusterService → Graph → Graph
unfolding add_dependent
add_owners [] graph = graph
add_owners (m ∷ items) graph = add_owners items (
    add_dependent (key_of_mcs m) (mcs_dependencies m)
      (if has_key (key_of_mcs m) graph then graph else insert (key_of_mcs m) [] graph))

unfoldable pub generate_reverse_mcs_dependency_graph : List MultiClusterService → Graph
unfolding add_owners
generate_reverse_mcs_dependency_graph items = add_owners items []

-- How many dependencies on the MultiClusterService forbid the deletion, as the error states, or no
-- error.
unfoldable pub validate_mcs_delete : List MultiClusterService → MultiClusterService → Option ℕ
unfolding generate_reverse_mcs_dependency_graph
validate_mcs_delete items mcs =
    let dependents = dependencies (generate_reverse_mcs_dependency_graph items) (key_of_mcs mcs) in
    if ltb 0 (length dependents) then some (length dependents) else none

-- The dependencies that are not defined.
unfoldable pub validate_mcs_dependency :
    List MultiClusterService → MultiClusterService → List ObjectKey
unfolding generate_mcs_dependency_graph
validate_mcs_dependency items mcs =
    filter_by (λ k. not (has_key k (generate_mcs_dependency_graph items))) (mcs_dependencies mcs)

-- The graph with the MultiClusterService as it is now.
abbrev pub graph_with : List MultiClusterService → MultiClusterService → Graph
graph_with items mcs = generate_mcs_dependency_graph (items ++ mcs ∷ [])

-- What the check of the whole answers.
pub data OwnerVerdict : Type 0 where
  accepted : OwnerVerdict
  not_defined : List ObjectKey → OwnerVerdict
  in_cycle : ObjectKey → OwnerVerdict
  undecided : OwnerVerdict

abbrev owner_verdict : Outcome → OwnerVerdict
owner_verdict (ok s) = accepted
owner_verdict (cycle k) = in_cycle k
owner_verdict out_of_fuel = undecided

unfoldable pub validate_mcs_dependency_cycle :
    List MultiClusterService → MultiClusterService → OwnerVerdict
unfolding has_cycle_from generate_mcs_dependency_graph
validate_mcs_dependency_cycle items mcs =
    let walked = owner_verdict (has_cycle_from (key_of_mcs mcs) (graph_with items mcs)) in
    elim mcs.depends_on [ [] ↦ accepted | d ∷ ds ↦ walked ]

unfoldable pub validate_mcs_dependency_overall :
    List MultiClusterService → MultiClusterService → OwnerVerdict
unfolding validate_mcs_dependency validate_mcs_dependency_cycle
validate_mcs_dependency_overall items mcs =
    let cycles = validate_mcs_dependency_cycle items mcs in
    elim (validate_mcs_dependency items mcs) [ [] ↦ cycles | d ∷ ds ↦ not_defined (d ∷ ds) ]
