-- ===== src/Graph/Unvisited.antt =====
-- The nodes of the dependency graph that a search has still to visit,
-- internal/util/validation/services.go.
use mathlib.Core.List.Memᴰ
use kcm.Prelude.{
  ℕ, suc, ◌≤◌, ◌≡◌, refl, sym, subst, inl, inr, true, false, List, [], ◌∷◌, map, Memᴰ,
  if◌then◌else◌, length, arith, ObjectKey, key_eq, ◌==◌, Eq-cases, contains,
}
use kcm.Graph.{Graph, dependencies, nodes}
use kcm.Graph.Walks.{Edge}

-- How many of the listed nodes are not visited.
pub unvisited : List ObjectKey → List ObjectKey → ℕ
unvisited visited [] = 0
unvisited visited (n ∷ ns) =
    let rest = unvisited visited ns in if contains visited n then rest else suc rest

pub unvisited-le : (visited ns : List ObjectKey) → unvisited visited ns ≤ length ns
unfolding unvisited
unvisited-le visited [] = omega arith
unvisited-le visited (n ∷ ns) = ground (arith, unvisited-le visited ns)

pub unvisited_mono :
    (k : ObjectKey) (visited ns : List ObjectKey)
    → unvisited (k ∷ visited) ns ≤ unvisited visited ns
unfolding unvisited
unvisited_mono k visited [] = omega arith
unvisited_mono k visited (n ∷ ns) = ground (arith, unvisited_mono k visited ns)

-- Marking a listed node makes the number fall.
pub unvisited_lt :
    (k : ObjectKey) (visited ns : List ObjectKey)
    → contains visited k ≡ false
    → Memᴰ k ns
    → suc (unvisited (k ∷ visited) ns) ≤ unvisited visited ns
unfolding unvisited
unvisited_lt k visited [] h m = elim m [ ]
unvisited_lt k visited (n ∷ ns) h (Memᴰ.head e) =
    let unseen : contains visited n ≡ false = subst (λ x. contains visited x ≡ false) e h in
    let marked : (k == n) ≡ true = (key_eq.beq_iff k n).1 e in
    rw (unseen, marked) (ground (arith, unvisited_mono k visited ns))
unvisited_lt k visited (n ∷ ns) h (Memᴰ.tail m) = ground (arith, unvisited_lt k visited ns h m)

dependencies-cons :
    (k : ObjectKey) (ds : List ObjectKey) (graph : Graph) (u : ObjectKey)
    → dependencies ((k, ds) ∷ graph) u ≡ (if k == u then ds else dependencies graph u)
dependencies-cons k ds graph u = ground arith

-- A node with a dependency is a key of the graph.
pub edge-mem-keys :
    (graph : Graph) (u v : ObjectKey) → Edge graph u v → Memᴰ u (map (λ e. e.0) graph)
edge-mem-keys [] u v e = elim e [ ]
edge-mem-keys ((k, ds) ∷ graph) u v e = elim (Eq-cases k u) [
  | inl (same, t) ↦ Memᴰ.head (sym same)
  | inr (other, f) ↦
      let e' = subst (Memᴰ v) (dependencies-cons k ds graph u) e in
      Memᴰ.tail (edge-mem-keys graph u v (rw f at e'))
]

-- A node with a dependency is listed.
edge-mem-nodes : (graph : Graph) (u v : ObjectKey) → Edge graph u v → Memᴰ u (nodes graph)
edge-mem-nodes [] u v e = elim e [ ]
edge-mem-nodes ((k, ds) ∷ graph) u v e = elim (Eq-cases k u) [
  | inl (same, t) ↦ Memᴰ.head (sym same)
  | inr (other, f) ↦
      let e' = subst (Memᴰ v) (dependencies-cons k ds graph u) e in
      Memᴰ.tail (Memᴰ.append_right ds (edge-mem-nodes graph u v (rw f at e')))
]

pub no_dependencies :
    (graph : Graph) (u : ObjectKey) → ¬ Memᴰ u (nodes graph) → dependencies graph u ≡ []
no_dependencies graph u h = go (dependencies graph u) refl
  where
    go : (ds : List ObjectKey) → dependencies graph u ≡ ds → ds ≡ []
    go [] e = refl
    go (d ∷ ds) e =
        absurd (h (edge-mem-nodes graph u d (subst (λ l. Memᴰ d l) (sym e) (Memᴰ.head refl))))
