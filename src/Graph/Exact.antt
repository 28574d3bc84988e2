-- ===== src/Graph/Exact.antt =====
-- The search finds a cycle exactly where there is one, and the fuel is enough.
use mathlib.Core.List.Memᴰ
use kcm.Prelude.{
  ℕ, ◌≤◌, ◌≡◌, refl, sym, ◌∙◌, ap, subst, inl, inr, true≢false, List, [], ◌∷◌, map, Memᴰ,
  if◌then◌else◌, Bool-cases, length, arith, ObjectKey, key_eq, contains,
}
use kcm.Graph.{
  Graph, Search, Outcome, ok, cycle, out_of_fuel, and_then, dfs, fresh, nodes, search_fuel,
  search_from, has_cycle,
}
use kcm.Graph.Walks.{Walk, Safe, Walk-Edge, Safe-acyclic}
use kcm.Graph.Unvisited.{edge-mem-keys, unvisited, unvisited-le}
use kcm.Graph.Settled.{Settled, Post, dfs_lem}

module _ (graph : Graph) where
  -- What a search says of the walks from the keys that it starts at.
  abbrev pub Decides : List ObjectKey → Outcome → Type 0
  Decides starts (ok s) = (k : ObjectKey) → Memᴰ k starts → Safe graph k
  Decides starts (cycle k) = Walk graph k k
  Decides starts out_of_fuel = ⊥

  fits_fuel : (s : Search) → unvisited s.visited (nodes graph) ≤ length (nodes graph)
  fits_fuel s = unvisited-le s.visited (nodes graph)

  and_then-Decides :
      (k : ObjectKey) (ks : List ObjectKey) (bound : ℕ) (r : Outcome) (next : Search → Outcome)
      → Post graph [] bound (Safe graph k) r
      → ((s : Search) → s.in_stack ≡ [] → Settled graph s → Decides ks (next s))
      → Decides (k ∷ ks) (and_then r next)
  and_then-Decides k ks bound (ok s) next (same, inv, fits, first) f =
      more_starts (next s) (f s same inv)
    where
      more_starts : (r : Outcome) → Decides ks r → Decides (k ∷ ks) r
      more_starts (ok t) h = λ x m. elim (Memᴰ.cases_cons m) [
        | inl e ↦ subst (Safe graph) (sym e) first
        | inr n ↦ h x n
      ]
      more_starts (cycle x) h = h
      more_starts out_of_fuel h = h
  and_then-Decides k ks bound (cycle x) next h f = h
  and_then-Decides k ks bound out_of_fuel next h f = h

  start_lem :
      (k : ObjectKey) (s : Search)
      → s.in_stack ≡ []
      → Settled graph s
      → Post graph []
          (length (nodes graph))
          (Safe graph k)
          (if contains s.visited k then ok s else dfs graph (search_fuel graph) k s)
  start_lem k s same inv = elim (Bool-cases (contains s.visited k)) [
    | inl old ↦ rw old (
      same,
      inv,
      fits_fuel s,
      elim (inv k old) [
        | inl c ↦ absurd (true≢false (sym c ∙ ap (λ l. contains l k) same))
        | inr below ↦ below
      ],
    )
    | inr new ↦ rw new (
        dfs_lem graph (length (nodes graph)) k s [] (length (nodes graph)) same (fits_fuel s)
          (omega arith) inv (λ n m. elim m [ ]))
  ]

  search_from-Decides :
      (ks : List ObjectKey) (s : Search)
      → s.in_stack ≡ []
      → Settled graph s
      → Decides ks (search_from graph (search_fuel graph) ks s)
  unfolding search_from
  search_from-Decides [] s same inv = λ k m. elim m [ ]
  search_from-Decides (k ∷ ks) s same inv =
      and_then-Decides k ks (length (nodes graph)) _ (search_from graph (search_fuel graph) ks)
        (start_lem k s same inv) (search_from-Decides ks)

  has_cycle-Decides : (order : List ObjectKey) → Decides order (has_cycle order graph)
  unfolding has_cycle
  has_cycle-Decides order =
      search_from-Decides order fresh refl (λ n v. absurd (true≢false (sym v)))

-- What the error of a search says of the whole graph.
abbrev pub Exact : Graph → Outcome → Type 0
Exact graph (ok s) = (k : ObjectKey) → ¬ Walk graph k k
Exact graph (cycle k) = Walk graph k k
Exact graph out_of_fuel = ⊥

Decides→Exact :
    (graph : Graph) (order : List ObjectKey) (r : Outcome)
    → ((k : ObjectKey) → Memᴰ k (map (λ e. e.0) graph) → Memᴰ k order)
    → Decides graph order r
    → Exact graph r
Decides→Exact graph order (ok s) covers h =
    λ k w. let (v, e) = Walk-Edge w in Safe-acyclic (h k (covers k (edge-mem-keys graph k v e))) w
Decides→Exact graph order (cycle k) covers h = h
Decides→Exact graph order out_of_fuel covers h = h

-- For every order in which the keys of the graph are gone through, `hasCycle` ends, returns an
-- error only with a key that depends on itself through one or more dependencies, and returns nil
-- only when no key does.
pub has_cycle-Exact :
    (graph : Graph) (order : List ObjectKey)
    → ((k : ObjectKey) → Memᴰ k (map (λ e. e.0) graph) → Memᴰ k order)
    → Exact graph (has_cycle order graph)
has_cycle-Exact graph order covers =
    Decides→Exact graph order (has_cycle order graph) covers (has_cycle-Decides graph order)

-- What the answer says of the start.
abbrev pub ExactFrom : Graph → ObjectKey → Outcome → Type 0
ExactFrom graph start (ok s) =
    (¬ Walk graph start start) × ((k : ObjectKey) → Walk graph start k → ¬ Walk graph k k)
ExactFrom graph start (cycle k) = Walk graph k k
ExactFrom graph start out_of_fuel = ⊥
