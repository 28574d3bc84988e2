-- ===== src/Graph/Walks.antt =====
-- What a cycle of a dependency graph is, and the nodes below which there is none.
use kcm.Prelude.{◌≡◌, sym, refl, subst, ◌⊎◌, inl, inr, Memᴰ, ObjectKey}
use kcm.Graph.{Graph, dependencies}

-- A node depends directly on another.
abbrev pub Edge : Graph → ObjectKey → ObjectKey → Type 0
Edge graph u v = Memᴰ v (dependencies graph u)

-- A node depends on another through one or more edges. A cycle is a walk from a node to itself.
pub data Walk (graph : Graph) (u : ObjectKey) : ObjectKey → Type 0 where
  one : {v : ObjectKey} → Edge graph u v → Walk graph u v
  more : {v w : ObjectKey} → Walk graph u v → Edge graph v w → Walk graph u w

pub Walk-trans :
    {graph : Graph} {u v w : ObjectKey} → Walk graph u v → Walk graph v w → Walk graph u w
Walk-trans a (one e) = more a e
Walk-trans a (more b e) = more (Walk-trans a b) e

-- All that a node depends on, directly or not, is reached by walks that end.
pub data Safe (graph : Graph) : ObjectKey → Type 0 where
  safe : {u : ObjectKey} → ((v : ObjectKey) → Edge graph u v → Safe graph v) → Safe graph u

module _ {graph : Graph} where
  Safe-Edge : {u : ObjectKey} → Safe graph u → (v : ObjectKey) → Edge graph u v → Safe graph v
  Safe-Edge (safe below) = below

  -- The first edge of a walk.
  split_first :
      {u w : ObjectKey}
      → Walk graph u w
      → (v : ObjectKey) × Edge graph u v × ((v ≡ w) ⊎ Walk graph v w)
  split_first (one {v = v} e) = (v, e, inl refl)
  split_first {w = w'} (more w e) =
      let (v, f, r) = split_first w in
      (
        v,
        f,
        elim r [
          | inl p ↦ inr (one (subst (λ x. Edge graph x w') (sym p) e))
          | inr rest ↦ inr (more rest e)
        ],
      )

  -- A walk needs a first edge.
  pub Walk-Edge : {u w : ObjectKey} → Walk graph u w → (v : ObjectKey) × Edge graph u v
  Walk-Edge w = let (v, e, r) = split_first w in (v, e)

  pub Safe-acyclic : {u : ObjectKey} → Safe graph u → ¬ Walk graph u u
  Safe-acyclic {u} (safe below) w =
      let (v, e, r) = split_first w in
      elim r [
        | inl p ↦
            Safe-acyclic (below v e)
              (subst (λ x. Walk graph v x) (sym p) (subst (λ x. Walk graph x u) (sym p) w))
        | inr w' ↦ Safe-acyclic (below v e) (more w' e)
      ]

  pub Walk-Safe : {u v : ObjectKey} → Safe graph u → Walk graph u v → Safe graph v
  Walk-Safe (safe below) (one {v = v} e) = below v e
  Walk-Safe s (more {w = w} before e) = Safe-Edge (Walk-Safe s before) w e
