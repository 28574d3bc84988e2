-- ===== src/Graph.antt =====
-- The dependency graph and its depth-first search, internal/util/validation/services.go: `hasCycle`
-- and `dfs`, with `hasCycleFrom` of internal/util/validation/multiclusterservice.go. The graph is
-- the Go map from a key to the keys that it depends on. The maps `visited` and `inStack` are lists
-- of the keys that they hold `true` for.
--
-- Fuel bounds the depth of the recursion. A call goes deeper only by marking a node that was not
-- visited, so one more than the entries of the graph is enough.
pub mod Walks
mod Unvisited
mod Settled
pub mod Exact
use kcm.Prelude.{
  ℕ, zero, suc, Bool, List, [], ◌∷◌, ◌++◌, if◌then◌else◌, length, Map, ObjectKey, key_eq, lookup,
  get_or, contains, remove,
}

abbrev pub Graph : Type 0
Graph = Map ObjectKey (List ObjectKey)

-- graph[node], which is nil for an absent key.
abbrev pub dependencies : Graph → ObjectKey → List ObjectKey
dependencies graph node = get_or node graph []

pub record Search : Type 0 where
  pub visited : List ObjectKey
  pub in_stack : List ObjectKey

-- What a search ends with: `nil`, the error that names a key on a cycle, or no fuel.
pub data Outcome : Type 0 where
  ok : Search → Outcome
  cycle : ObjectKey → Outcome
  out_of_fuel : Outcome

-- `if err := …; err != nil { return err }`
abbrev pub and_then : Outcome → (Search → Outcome) → Outcome
and_then (ok s) next = next s
and_then (cycle k) next = cycle k
and_then out_of_fuel next = out_of_fuel

abbrev pub enter : ObjectKey → Search → Search
enter node s = record { visited = node ∷ s.visited; in_stack = node ∷ s.in_stack }

abbrev pub leave : ObjectKey → Search → Outcome
leave node s = ok (record s { in_stack = remove node s.in_stack })

-- The loop of `dfs` over the dependencies of a node.
visit_all : (ObjectKey → Search → Outcome) → List ObjectKey → Search → Outcome
visit_all visit [] s = ok s
visit_all visit (d ∷ ds) s = and_then (visit d s) (visit_all visit ds)

unfoldable pub dfs : Graph → ℕ → ObjectKey → Search → Outcome
unfolding visit_all
dfs graph zero node s = out_of_fuel
dfs graph (suc fuel) node s =
    if contains s.in_stack node
    then cycle node
    else if contains s.visited node
    then ok s
    else and_then (visit_all (dfs graph fuel) (dependencies graph node) (enter node s)) (leave node)

abbrev pub fresh : Search
fresh = record { visited = []; in_stack = [] }

-- The keys of the graph and those that they depend on.
abbrev pub nodes : Graph → List ObjectKey
nodes [] = []
nodes ((k, ds) ∷ graph) = k ∷ ds ++ nodes graph

abbrev pub search_fuel : Graph → ℕ
search_fuel graph = suc (length (nodes graph))

-- The loop of `hasCycle`.
search_from : Graph → ℕ → List ObjectKey → Search → Outcome
search_from graph fuel [] s = ok s
search_from graph fuel (k ∷ ks) s =
    and_then (if contains s.visited k then ok s else dfs graph fuel k s) (search_from graph fuel ks)

-- `order` is the order in which Go goes through the keys of the map.
unfoldable pub has_cycle : List ObjectKey → Graph → Outcome
unfolding search_from dfs
has_cycle order graph = search_from graph (search_fuel graph) order fresh

unfoldable pub has_cycle_from : ObjectKey → Graph → Outcome
unfolding dfs
has_cycle_from start graph = dfs graph (search_fuel graph) start fresh
