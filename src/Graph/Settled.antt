-- ===== src/Graph/Settled.antt =====
-- What one call of `dfs` leaves behind, internal/util/validation/services.go.
use mathlib.Core.List.Memᴰ
use kcm.Prelude.{
  ℕ, zero, suc, ◌≤◌, ◌≡◌, refl, sym, ◌∙◌, ap, subst, ◌⊎◌, inl, inr, true, false, true≢false, List,
  [], ◌∷◌, Memᴰ, Bool-cases, arith, ObjectKey, key_eq, Eq-cases, contains, contains→mem,
  not-mem_of_contains, remove, remove-cons_self,
}
use kcm.Graph.{
  Graph, dependencies, Search, Outcome, ok, cycle, out_of_fuel, and_then, enter, leave, visit_all,
  dfs, nodes,
}
use kcm.Graph.Walks.{Edge, Walk, one, more, Safe, safe}
use kcm.Graph.Unvisited.{no_dependencies, unvisited, unvisited_lt, unvisited_mono}

module _ (graph : Graph) where
  -- Visited nodes are on the current path, or have nothing but ending walks below them.
  abbrev pub Settled : Search → Type 0
  Settled s =
      (n : ObjectKey) → contains s.visited n ≡ true → (contains s.in_stack n ≡ true) ⊎ Safe graph n

  -- The current path leads to the node.
  abbrev LeadsTo : List ObjectKey → ObjectKey → Type 0
  LeadsTo stack node = (n : ObjectKey) → Memᴰ n stack → Walk graph n node

  abbrev pub Post : List ObjectKey → ℕ → Type 0 → Outcome → Type 0
  Post stack bound S (ok s) =
      (s.in_stack ≡ stack) × Settled s × (unvisited s.visited (nodes graph) ≤ bound) × S
  Post stack bound S (cycle k) = Walk graph k k
  Post stack bound S out_of_fuel = ⊥

  and_then-Post :
      (stack stack' : List ObjectKey) (bound bound' : ℕ) (S S' : Type 0) (r : Outcome)
      (next : Search → Outcome)
      → Post stack bound S r
      → ((s : Search) → Post stack bound S (ok s) → Post stack' bound' S' (next s))
      → Post stack' bound' S' (and_then r next)
  and_then-Post stack stack' bound bound' S S' (ok s) next h f = f s h
  and_then-Post stack stack' bound bound' S S' (cycle k) next h f = h
  and_then-Post stack stack' bound bound' S S' out_of_fuel next h f = h

  Post-map :
      (stack : List ObjectKey) (bound bound' : ℕ) (S S' : Type 0) (r : Outcome)
      → bound ≤ bound'
      → (S → S')
      → Post stack bound S r
      → Post stack bound' S' r
  Post-map stack bound bound' S S' (ok s) le f (same, inv, fits, x) = (same, inv, omega arith, f x)
  Post-map stack bound bound' S S' (cycle k) le f h = h
  Post-map stack bound bound' S S' out_of_fuel le f h = h

  -- What one call of `dfs` with that much fuel does.
  abbrev Visits : ℕ → (ObjectKey → Search → Outcome) → Type 0
  Visits fuel visit =
      (node : ObjectKey) (s : Search) (stack : List ObjectKey) (bound : ℕ)
      → s.in_stack ≡ stack
      → unvisited s.visited (nodes graph) ≤ bound
      → bound ≤ fuel
      → Settled s
      → LeadsTo stack node
      → Post stack bound (Safe graph node) (visit node s)

  visit_all-Post :
      (fuel : ℕ) (visit : ObjectKey → Search → Outcome)
      → Visits fuel visit
      → (ds : List ObjectKey) (s : Search) (stack : List ObjectKey) (bound : ℕ) → s.in_stack ≡ stack
      → unvisited s.visited (nodes graph) ≤ bound
      → bound ≤ fuel
      → Settled s
      → ((d : ObjectKey) → Memᴰ d ds → LeadsTo stack d)
      → Post stack bound ((d : ObjectKey) → Memᴰ d ds → Safe graph d) (visit_all visit ds s)
  unfolding visit_all
  visit_all-Post fuel visit h [] s stack bound same fits enough inv leads =
      (same, inv, fits, λ d m. elim m [ ])
  visit_all-Post fuel visit h (d ∷ ds) s stack bound same fits enough inv leads =
      and_then-Post stack stack bound bound _ _ (visit d s) (visit_all visit ds)
        (h d s stack bound same fits enough inv (leads d (Memᴰ.head refl)))
        λ s' (same', inv', fits', first).
          Post-map stack bound bound _ _ (visit_all visit ds s') (omega arith)
            (λ others x m. elim (Memᴰ.cases_cons m) [
              | inl e ↦ subst (Safe graph) (sym e) first
              | inr r ↦ others x r
            ])
            (visit_all-Post fuel visit h ds s' stack bound same' fits' enough inv'
              (λ x m. leads x (Memᴰ.tail m)))

  enter-Settled : (node : ObjectKey) (s : Search) → Settled s → Settled (enter node s)
  enter-Settled node s inv n v = elim (Eq-cases node n) [
    | inl (same, t) ↦ inl (rw t)
    | inr (other, f) ↦ rw f (inv n (rw f at v))
  ]

  enter-LeadsTo :
      (node : ObjectKey) (stack : List ObjectKey)
      → LeadsTo stack node
      → (d : ObjectKey) → Edge graph node d
      → LeadsTo (node ∷ stack) d
  enter-LeadsTo node stack leads d e n (Memᴰ.head p) = subst (λ x. Walk graph x d) (sym p) (one e)
  enter-LeadsTo node stack leads d e n (Memᴰ.tail m) = more (leads n m) e

  leave-Post :
      (node : ObjectKey) (stack : List ObjectKey) (bound : ℕ)
      → contains stack node ≡ false
      → (s : Search) → Post (node ∷ stack) bound (Safe graph node) (ok s)
      → Post stack bound (Safe graph node) (leave node s)
  leave-Post node stack bound out s (same, inv, fits, below) =
      let gone : remove node s.in_stack ≡ stack =
        ap (remove node) same ∙ remove-cons_self node stack out in
      (
        gone,
        λ n v.
            subst (λ l. (contains l n ≡ true) ⊎ Safe graph n) (sym gone)
              (elim (inv n v) [
                | inl c ↦ elim (Eq-cases node n) [
                  | inl (e, t) ↦ inr (subst (Safe graph) e below)
                  | inr (other, f) ↦ inl (rw f at (subst (λ l. contains l n ≡ true) same c))
                ]
                | inr s ↦ inr s
              ]),
        fits,
        below,
      )

  -- What is known of the calls one level down.
  abbrev Below : ℕ → Type 0
  Below zero = Unit
  Below (suc fuel) = Visits fuel (dfs graph (suc fuel))

  -- The dependencies of a listed node: the new mark leaves less to visit than there is fuel.
  visit_listed :
      (fuel : ℕ)
      → Below fuel
      → (node : ObjectKey) (s : Search) (stack : List ObjectKey) (bound : ℕ) → s.in_stack ≡ stack
      → suc (unvisited (node ∷ s.visited) (nodes graph)) ≤ bound
      → bound ≤ fuel
      → Settled s
      → LeadsTo stack node
      → Post
          (node ∷ stack)
          bound
          ((d : ObjectKey) → Edge graph node d → Safe graph d)
          (visit_all (dfs graph fuel) (dependencies graph node) (enter node s))
  visit_listed zero h node s stack bound same fits enough inv leads = absurd (omega arith)
  visit_listed (suc fuel) h node s stack bound same fits enough inv leads =
      let ds = dependencies graph node in
      let left = unvisited (node ∷ s.visited) (nodes graph) in
      Post-map (node ∷ stack) left bound _ _ (visit_all (dfs graph (suc fuel)) ds (enter node s))
        (omega arith) (λ x. x)
        (visit_all-Post fuel (dfs graph (suc fuel)) h ds (enter node s) (node ∷ stack) left
          (ap (λ l. node ∷ l) same) (omega arith) (omega arith) (enter-Settled node s inv)
          (λ d e. enter-LeadsTo node stack leads d e))

  visit_new :
      (fuel : ℕ)
      → Below fuel
      → (node : ObjectKey) (s : Search) (stack : List ObjectKey) (bound : ℕ) → s.in_stack ≡ stack
      → contains s.visited node ≡ false
      → unvisited s.visited (nodes graph) ≤ bound
      → bound ≤ fuel
      → Settled s
      → LeadsTo stack node
      → Post
          (node ∷ stack)
          bound
          ((d : ObjectKey) → Edge graph node d → Safe graph d)
          (visit_all (dfs graph fuel) (dependencies graph node) (enter node s))
  unfolding visit_all
  visit_new fuel h node s stack bound same new fits enough inv leads =
      elim (Bool-cases (contains (nodes graph) node)) [
        | inl listed ↦
            let fewer =
              unvisited_lt node s.visited (nodes graph) new
                (contains→mem (nodes graph) node listed) in
            visit_listed fuel h node s stack bound same (omega arith) enough inv leads
        | inr alone ↦
            rw (no_dependencies graph node (not-mem_of_contains (nodes graph) node alone)) (
              ap (λ l. node ∷ l) same,
              enter-Settled node s inv,
              omega (arith, unvisited_mono node s.visited (nodes graph)),
              λ d m. elim m [ ],
            )
      ]

  dfs_step : (fuel : ℕ) → Below fuel → Visits fuel (dfs graph (suc fuel))
  unfolding dfs
  dfs_step fuel h node s stack bound same fits enough inv leads =
      elim (Bool-cases (contains s.in_stack node)) [
        | inl on ↦
            rw on
              (leads node (contains→mem stack node (subst (λ l. contains l node ≡ true) same on)))
        | inr off ↦ elim (Bool-cases (contains s.visited node)) [
          | inl old ↦
              rw (off, old)
                (
                  same,
                  inv,
                  fits,
                  elim (inv node old) [
                    | inl c ↦ absurd (true≢false (sym c ∙ off))
                    | inr below ↦ below
                  ],
                )
          | inr new ↦
              let ds = dependencies graph node in
              rw (off, new)
                (and_then-Post (node ∷ stack) stack bound bound _ _
                  (visit_all (dfs graph fuel) ds (enter node s)) (leave node)
                  (visit_new fuel h node s stack bound same new fits enough inv leads)
                  (λ s' (same', inv', fits', below).
                    leave-Post node stack bound (subst (λ l. contains l node ≡ false) same off) s'
                      (same', inv', fits', safe below)))
        ]
      ]

  pub dfs_lem : (fuel : ℕ) → Visits fuel (dfs graph (suc fuel))
  dfs_lem zero = dfs_step zero tt
  dfs_lem (suc fuel) = dfs_step (suc fuel) (dfs_lem fuel)
