-- ===== src/Services/Order/Placement.antt =====
-- The recursion of `sortByDependency`, internal/serviceset/util.go, over positions whose
-- dependencies form no cycle: each position is placed once, behind those that it depends on.
use mathlib.Core.List.Memᴰ
use kcm.Prelude.{
  ℕ, zero, suc, ◌≤◌, ◌<◌, ◌≡◌, refl, sym, ◌∙◌, subst, ◌⊎◌, inl, inr, true, false, true≢false, not,
  List, [], ◌∷◌, ◌++◌, Memᴰ, Bool-cases, arith, length, filter_by, length-filter_by-le, ◌≢◌, nat_eq,
  ◌==◌, beq_refl, contains, mem→contains, contains→mem,
}
use kcm.Services.Order.{Placing, place, place_all}

-- The elements that are not in a set.
abbrev missing : List ℕ → List ℕ → List ℕ
missing set ks = filter_by (λ k. not (contains set k)) ks

missing-le :
    (set more : List ℕ) (ks : List ℕ)
    → ((k : ℕ) → contains set k ≡ true → contains more k ≡ true)
    → length (missing more ks) ≤ length (missing set ks)
missing-le set more [] h = omega arith
missing-le set more (k ∷ ks) h = elim (Bool-cases (contains set k)) [
  | inl old ↦ rw (old, h k old) (missing-le set more ks h)
  | inr new ↦ elim (Bool-cases (contains more k)) [
    | inl t ↦ rw (new, t) (omega (arith, missing-le set more ks h))
    | inr f ↦ rw (new, f) (omega (arith, missing-le set more ks h))
  ]
]

missing-lt :
    (set : List ℕ) (i : ℕ) (ks : List ℕ)
    → Memᴰ i ks
    → contains set i ≡ false
    → length (missing (i ∷ set) ks) < length (missing set ks)
missing-lt set i [] m h = elim m [ ]
missing-lt set i (k ∷ ks) (Memᴰ.head e) h =
    subst (λ y. length (missing (i ∷ set) (y ∷ ks)) < length (missing set (y ∷ ks))) e
      (rw (h, beq_refl i) (omega (arith, missing-le set (i ∷ set) ks (λ x t. grown i x t))))
  where
    grown : (i x : ℕ) → contains set x ≡ true → contains (i ∷ set) x ≡ true
    grown i x t = elim (Bool-cases (i == x)) [ inl s ↦ rw s refl | inr f ↦ rw f t ]
missing-lt set i (k ∷ ks) (Memᴰ.tail m) h = ground (arith, missing-lt set i ks m h)

module _ (deps : ℕ → List ℕ) where
  -- A position depends on another, directly or not.
  pub data Reach : ℕ → ℕ → Type 0 where
    one : {u v : ℕ} → Memᴰ v (deps u) → Reach u v
    more : {u v w : ℕ} → Reach u v → Memᴰ w (deps v) → Reach u w

  -- Each position stands once, behind those that it depends on.
  pub data Ordered : List ℕ → Type 0 where
    none : Ordered []
    snoc :
        {xs : List ℕ} {i : ℕ}
        → Ordered xs
        → ((j : ℕ) → Memᴰ j (deps i) → Memᴰ j xs)
        → ¬ Memᴰ i xs
        → Ordered (xs ++ i ∷ [])

  -- Between calls: `open` are the positions that the recursion is inside of.
  record IsPlacing (nodes open_ones : List ℕ) (p : Placing) : Type 0 where
    pub placed_nodes : (k : ℕ) → Memᴰ k p.ordered → Memᴰ k nodes
    pub ordered_well : Ordered p.ordered
    pub seen_placed : (k : ℕ) → contains p.seen k ≡ true → Memᴰ k p.ordered ⊎ Memᴰ k open_ones
    pub placed_seen : (k : ℕ) → Memᴰ k p.ordered → contains p.seen k ≡ true
    pub open_seen : (k : ℕ) → Memᴰ k open_ones → contains p.seen k ≡ true
    pub apart : (k : ℕ) → Memᴰ k open_ones → ¬ Memᴰ k p.ordered

  -- What has been placed and seen stays so.
  record Grows (p q : Placing) : Type 0 where
    pub seen_more : (k : ℕ) → contains p.seen k ≡ true → contains q.seen k ≡ true
    pub placed_more : (k : ℕ) → Memᴰ k p.ordered → Memᴰ k q.ordered

  module _ (nodes : List ℕ) (bounded : (i j : ℕ) → Memᴰ j (deps i) → Memᴰ j nodes)
      (acyclic : (k : ℕ) → ¬ Reach k k) where
    -- What one call guarantees.
    abbrev Places : List ℕ → (ℕ → Placing → Placing) → ℕ → Type 0
    Places open_ones visit fuel =
        (j : ℕ) (p : Placing)
        → length (missing p.seen nodes) < fuel
        → Memᴰ j nodes
        → ((o : ℕ) → Memᴰ o open_ones → Reach o j)
        → IsPlacing nodes open_ones p
        → IsPlacing nodes open_ones (visit j p) × Memᴰ j (visit j p).ordered × Grows p (visit j p)

    place_all_lem :
        (open_ones : List ℕ) (visit : ℕ → Placing → Placing) (fuel : ℕ)
        → Places open_ones visit fuel
        → (js : List ℕ) (p : Placing) → length (missing p.seen nodes) < fuel
        → ((j : ℕ) → Memᴰ j js → Memᴰ j nodes × ((o : ℕ) → Memᴰ o open_ones → Reach o j))
        → IsPlacing nodes open_ones p
        → IsPlacing nodes open_ones (place_all visit js p)
          × ((j : ℕ) → Memᴰ j js → Memᴰ j (place_all visit js p).ordered)
          × Grows p (place_all visit js p)
    unfolding place_all
    place_all_lem open_ones visit fuel places [] p enough fine inv =
        (inv, (λ j m. elim m [ ]), record { seen_more = λ k t. t; placed_more = λ k m. m })
    place_all_lem open_ones visit fuel places (j ∷ js) p enough fine inv =
        let (node, below) = fine j (Memᴰ.head refl) in
        let (inv', placed, grows) = places j p enough node below inv in
        let still = missing-le p.seen (visit j p).seen nodes grows.seen_more in
        let (inv'', rest, grows') =
          place_all_lem open_ones visit fuel places js (visit j p) (omega arith)
            (λ k m. fine k (Memᴰ.tail m)) inv' in
        (
          inv'',
          λ k m. elim (Memᴰ.cases_cons m) [
            | inl e ↦ grows'.placed_more k (subst (λ x. Memᴰ x (visit j p).ordered) (sym e) placed)
            | inr n ↦ rest k n
          ],
          record {
            seen_more = λ k t. grows'.seen_more k (grows.seen_more k t);
            placed_more = λ k t. grows'.placed_more k (grows.placed_more k t);
          },
        )

    -- A position that has been seen is placed: were the recursion inside of it, it would depend on
    -- itself.
    seen-placed :
        (open_ones : List ℕ) (i : ℕ) (p : Placing)
        → contains p.seen i ≡ true
        → ((o : ℕ) → Memᴰ o open_ones → Reach o i)
        → IsPlacing nodes open_ones p
        → Memᴰ i p.ordered
    seen-placed open_ones i p t below inv = elim (inv.seen_placed i t) [
      | inl m ↦ m
      | inr m ↦ absurd (acyclic i (below i m))
    ]

    -- Marking a position opens it.
    opened :
        (open_ones : List ℕ) (i : ℕ) (p : Placing)
        → contains p.seen i ≡ false
        → IsPlacing nodes open_ones p
        → IsPlacing nodes (i ∷ open_ones) (record p { seen = i ∷ p.seen })
    opened open_ones i p new inv = record {
      placed_nodes = inv.placed_nodes;
      ordered_well = inv.ordered_well;
      seen_placed = λ k t. elim (Memᴰ.cases_cons (contains→mem (i ∷ p.seen) k t)) [
        | inl e ↦ inr (Memᴰ.head e)
        | inr n ↦ elim (inv.seen_placed k (mem→contains p.seen k n)) [
          | inl o ↦ inl o
          | inr o ↦ inr (Memᴰ.tail o)
        ]
      ];
      placed_seen = λ k m.
          mem→contains (i ∷ p.seen) k (Memᴰ.tail (contains→mem p.seen k (inv.placed_seen k m)));
      open_seen = λ k m. elim (Memᴰ.cases_cons m) [
        | inl e ↦ mem→contains (i ∷ p.seen) k (Memᴰ.head e)
        | inr n ↦
            mem→contains (i ∷ p.seen) k (Memᴰ.tail (contains→mem p.seen k (inv.open_seen k n)))
      ];
      apart = λ k m. elim (Memᴰ.cases_cons m) [
        | inl e ↦
            λ n. true≢false (sym (inv.placed_seen i (subst (λ x. Memᴰ x p.ordered) e n)) ∙ new)
        | inr n ↦ inv.apart k n
      ];
    }

    -- Appending the position closes it.
    closed :
        (open_ones : List ℕ) (i : ℕ) (p : Placing)
        → Memᴰ i nodes
        → ((k : ℕ) → Memᴰ k open_ones → k ≢ i)
        → ((j : ℕ) → Memᴰ j (deps i) → Memᴰ j p.ordered)
        → IsPlacing nodes (i ∷ open_ones) p
        → IsPlacing nodes open_ones (record p { ordered = p.ordered ++ i ∷ [] })
    closed open_ones i p node others below inv = record {
      placed_nodes = λ k m. elim (Memᴰ.append_cases p.ordered m) [
        | inl n ↦ inv.placed_nodes k n
        | inr n ↦ elim (Memᴰ.cases_cons n) [
          | inl e ↦ subst (λ x. Memᴰ x nodes) (sym e) node
          | inr none_left ↦ elim none_left [ ]
        ]
      ];
      ordered_well = snoc inv.ordered_well below (inv.apart i (Memᴰ.head refl));
      seen_placed = λ k t. elim (inv.seen_placed k t) [
        | inl m ↦ inl (Memᴰ.append_left (i ∷ []) m)
        | inr m ↦ elim (Memᴰ.cases_cons m) [
          | inl e ↦ inl (Memᴰ.append_right p.ordered (Memᴰ.head e))
          | inr n ↦ inr n
        ]
      ];
      placed_seen = λ k m. elim (Memᴰ.append_cases p.ordered m) [
        | inl n ↦ inv.placed_seen k n
        | inr n ↦ elim (Memᴰ.cases_cons n) [
          | inl e ↦ inv.open_seen k (Memᴰ.head e)
          | inr none_left ↦ elim none_left [ ]
        ]
      ];
      open_seen = λ k m. inv.open_seen k (Memᴰ.tail m);
      apart = λ k m n. elim (Memᴰ.append_cases p.ordered n) [
        | inl o ↦ inv.apart k (Memᴰ.tail m) o
        | inr o ↦ elim (Memᴰ.cases_cons o) [
          | inl e ↦ others k m e
          | inr none_left ↦ elim none_left [ ]
        ]
      ];
    }

    place_lem : (fuel : ℕ) (open_ones : List ℕ) → Places open_ones (place deps fuel) fuel
    unfolding place
    place_lem zero open_ones i p enough node below inv = absurd (omega arith)
    place_lem (suc fuel) open_ones i p enough node below inv =
        elim (Bool-cases (contains p.seen i)) [
          | inl old ↦ rw old (
            inv,
            seen-placed open_ones i p old below inv,
            record { seen_more = λ k t. t; placed_more = λ k m. m },
          )
          | inr new ↦
              let marked = record p { seen = i ∷ p.seen } in
              let less = missing-lt p.seen i nodes node new in
              let (inv', placed, grows) =
                place_all_lem (i ∷ open_ones) (place deps fuel) fuel
                  (place_lem fuel (i ∷ open_ones)) (deps i) marked (omega arith)
                  (λ j m. (
                    bounded i j m,
                    λ o n. elim (Memᴰ.cases_cons n) [
                      | inl e ↦ subst (λ x. Reach x j) (sym e) (one m)
                      | inr q ↦ more (below o q) m
                    ],
                  ))
                  (opened open_ones i p new inv) in
              rw new (
                closed open_ones i _ node
                    (λ k m e.
                      true≢false
                        (sym (subst (λ x. contains p.seen x ≡ true) e (inv.open_seen k m)) ∙ new))
                    placed inv',
                Memᴰ.append_right _ (Memᴰ.head refl),
                record {
                  seen_more = λ k t.
                      grows.seen_more k
                        (mem→contains (i ∷ p.seen) k (Memᴰ.tail (contains→mem p.seen k t)));
                  placed_more = λ k m. Memᴰ.append_left (i ∷ []) (grows.placed_more k m);
                },
              )
        ]

    -- Placing all positions in turn places each behind those that it depends on.
    pub place_all-Ordered :
        (fuel : ℕ) (is : List ℕ)
        → length nodes < fuel
        → ((i : ℕ) → Memᴰ i is → Memᴰ i nodes)
        → Ordered (place_all (place deps fuel) is (record { seen = []; ordered = [] })).ordered
          × ((i : ℕ)
              → Memᴰ i is
              → Memᴰ i
                  (place_all (place deps fuel) is (record { seen = []; ordered = [] })).ordered)
          × ((i : ℕ)
              → Memᴰ i (place_all (place deps fuel) is (record { seen = []; ordered = [] })).ordered
              → Memᴰ i nodes)
    place_all-Ordered fuel is enough fine =
        let (inv, placed, grows) =
          place_all_lem [] (place deps fuel) fuel (place_lem fuel []) is
            (record { seen = []; ordered = [] })
            (omega (arith, length-filter_by-le (λ k. not (contains [] k)) nodes))
            (λ j m. (fine j m, λ o n. elim n [ ]))
            (record {
              placed_nodes = λ k m. elim m [ ];
              ordered_well = none;
              seen_placed = λ k t. absurd (true≢false (sym t));
              placed_seen = λ k m. elim m [ ];
              open_seen = λ k m. elim m [ ];
              apart = λ k m. elim m [ ];
            }) in
        (inv.ordered_well, placed, inv.placed_nodes)
