-- ===== src/Validation/Owners/Deletion.antt =====
-- When a MultiClusterService may be deleted: `ValidateMCSDelete`,
-- internal/util/validation/multiclusterservice.go.
use mathlib.Core.List.Memᴰ
use mathlib.Core.Option.{some-injective}
use kcm.Prelude.{
  ℕ, suc, ◌+◌, ◌≤◌, ltb, length, arith, ◌==◌, ◌≡◌, ◌≢◌, refl, sym, ◌∙◌, ap, subst, inl, inr, ◌↔◌,
  true, false, true≢false, List, [], ◌∷◌, ◌++◌, map, Memᴰ, String, string_eq, if◌then◌else◌,
  Bool-cases, Eq-cases, ObjectKey, key_eq, has_key, insert, get_or-insert, lookup, Option, none,
  some,
}
use kcm.Api.{MultiClusterService}
use kcm.Graph.{Graph, dependencies}
use kcm.Validation.Owners.{
  mcs_key, key_of_mcs, mcs_dependencies, add_dependent, add_owners,
  generate_reverse_mcs_dependency_graph, validate_mcs_delete,
}

-- Adding a key without dependents adds none.
dependencies-blank :
    (k j : ObjectKey) (graph : Graph)
    → dependencies (if has_key j graph then graph else insert j [] graph) k ≡ dependencies graph k
dependencies-blank k j graph = elim (Bool-cases (has_key j graph)) [
  | inl known ↦ rw known refl
  | inr fresh ↦ rw fresh (
      get_or-insert j k [] [] graph ∙ elim (Eq-cases j k) [
        | inl (same, t) ↦
            rw t (sym (blank (lookup k graph) (subst (λ y. has_key y graph ≡ false) same fresh)))
        | inr (other, f) ↦ rw f refl
      ])
]
  where
    blank :
        (o : Option (List ObjectKey))
        → (elim o [ none ↦ false | some v ↦ true ]) ≡ false
        → (elim o [ none ↦ [] | some v ↦ v ]) ≡ []
    blank none h = refl
    blank (some v) h = absurd (true≢false h)

-- How often a name stands in a list, and in what MultiClusterServices depend on.
abbrev pub count : String → List String → ℕ
count name [] = 0
count name (d ∷ ds) = let rest = count name ds in if d == name then suc rest else rest

abbrev pub mentions : String → List MultiClusterService → ℕ
mentions name [] = 0
mentions name (m ∷ items) = count name m.depends_on + mentions name items

length-snoc : {A : Type 0} (xs : List A) (x : A) → length (xs ++ x ∷ []) ≡ suc (length xs)
length-snoc [] x = refl
length-snoc (y ∷ xs) x = ap suc (length-snoc xs x)

length-add_dependent :
    (m : ObjectKey) (name : String) (names : List String) (graph : Graph)
    → length (dependencies (add_dependent m (map mcs_key names) graph) (mcs_key name))
      ≡ length (dependencies graph (mcs_key name)) + count name names
unfolding add_dependent
length-add_dependent m name [] graph = omega arith
length-add_dependent m name (d ∷ names) graph =
    let old = dependencies graph (mcs_key d) in
    let later = length-add_dependent m name names (insert (mcs_key d) (old ++ m ∷ []) graph) in
    let inserted = get_or-insert (mcs_key d) (mcs_key name) (old ++ m ∷ []) [] graph in
    elim (Eq-cases d name) [
      | inl (same, t) ↦
          let now : length (dependencies (insert (mcs_key d) (old ++ m ∷ []) graph) (mcs_key name))
              ≡ suc (length (dependencies graph (mcs_key name))) =
            ap length
              (inserted ∙ rw ((key_eq.beq_iff (mcs_key d) (mcs_key name)).1 (ap mcs_key same)) refl)
            ∙ length-snoc old m
            ∙ ap (λ x. suc (length (dependencies graph (mcs_key x)))) same in
          later ∙ rw t (omega (arith, now))
      | inr (other, f) ↦
          let apart : (mcs_key d == mcs_key name) ≡ false =
            different (λ p. other (ap (λ (k : ObjectKey). k.name) p)) in
          let now : length (dependencies (insert (mcs_key d) (old ++ m ∷ []) graph) (mcs_key name))
              ≡ length (dependencies graph (mcs_key name)) =
            ap length (inserted ∙ rw apart refl) in
          later ∙ rw f (omega (arith, now))
    ]
  where
    different : {a b : ObjectKey} → a ≢ b → (a == b) ≡ false
    different {a} {b} h = elim (Eq-cases a b) [ inl (p, t) ↦ absurd (h p) | inr (p, f) ↦ f ]

length-add_owners :
    (name : String) (items : List MultiClusterService) (graph : Graph)
    → length (dependencies (add_owners items graph) (mcs_key name))
      ≡ length (dependencies graph (mcs_key name)) + mentions name items
unfolding add_owners
length-add_owners name [] graph = omega arith
length-add_owners name (m ∷ items) graph =
    let blank = if has_key (key_of_mcs m) graph then graph else insert (key_of_mcs m) [] graph in
    let later =
      length-add_owners name items (add_dependent (key_of_mcs m) (mcs_dependencies m) blank) in
    let own = length-add_dependent (key_of_mcs m) name m.depends_on blank in
    let same = ap length (dependencies-blank (mcs_key name) (key_of_mcs m) graph) in
    later ∙ omega (arith, own, same)

count-mem : (name : String) (ds : List String) → (count name ds ≡ 0) ↔ (¬ Memᴰ name ds)
count-mem name [] = (λ h m. elim m [ ], λ h. refl)
count-mem name (d ∷ ds) = elim (Eq-cases d name) [
  | inl (same, t) ↦ rw t (λ h. absurd (omega (arith, h)), λ h. absurd (h (Memᴰ.head (sym same))))
  | inr (other, f) ↦ rw f (
    λ h m. elim (Memᴰ.cases_cons m) [ inl e ↦ other (sym e) | inr n ↦ (count-mem name ds).0 h n ],
    λ h. (count-mem name ds).1 (λ n. h (Memᴰ.tail n)),
  )
]

-- No MultiClusterService of the list depends on the name.
abbrev pub IsFree : String → List MultiClusterService → Type 0
IsFree name items = (m : MultiClusterService) → Memᴰ m items → ¬ Memᴰ name m.depends_on

mentions-IsFree :
    (name : String) (items : List MultiClusterService)
    → (mentions name items ≡ 0) ↔ IsFree name items
mentions-IsFree name [] = (λ h m n. elim n [ ], λ h. refl)
mentions-IsFree name (m ∷ items) =
    let own = count-mem name m.depends_on in
    let rest = mentions-IsFree name items in
    (
      λ h x n. elim (Memᴰ.cases_cons n) [
        | inl e ↦
            subst (λ (y : MultiClusterService). ¬ Memᴰ name y.depends_on) (sym e)
              (own.0 (omega (arith, h)))
        | inr later ↦ rest.0 (omega (arith, h)) x later
      ],
      λ h. omega (arith, own.1 (h m (Memᴰ.head refl)), rest.1 (λ x n. h x (Memᴰ.tail n))),
    )

-- `ValidateMCSDelete` returns nil exactly when no MultiClusterService of the list depends on the one
-- to delete. Otherwise its error states how often one is named as a dependency, at least once.
pub validate_mcs_delete_iff :
    (items : List MultiClusterService) (mcs : MultiClusterService)
    → ((validate_mcs_delete items mcs ≡ none) ↔ IsFree mcs.name items)
      × ((n : ℕ)
          → (validate_mcs_delete items mcs ≡ some n) ↔ ((1 ≤ n) × (n ≡ mentions mcs.name items)))
unfolding validate_mcs_delete generate_reverse_mcs_dependency_graph
validate_mcs_delete_iff items mcs =
    let free = mentions-IsFree mcs.name items in
    let answer =
      go (length (dependencies (add_owners items []) (key_of_mcs mcs)))
        (length-add_owners mcs.name items []) in
    ((λ h. free.0 (answer.0.0 h), λ h. answer.0.1 (free.1 h)), answer.1)
  where
    go :
        (n : ℕ)
        → n ≡ 0 + mentions mcs.name items
        → (((if ltb 0 n then some n else none) ≡ none) ↔ (mentions mcs.name items ≡ 0))
          × ((k : ℕ)
              → ((if ltb 0 n then some n else none) ≡ some k)
                ↔ ((1 ≤ k) × (k ≡ mentions mcs.name items)))
    go n e = elim (Bool-cases (ltb 0 n)) [
      | inl t ↦
          let pos : 1 ≤ n = ground arith in
          rw t (
            (λ h. cc h, λ h. absurd (omega (arith, e, h, pos))),
            λ k. (
              λ h.
                  let same : n ≡ k = some-injective _ _ h in
                  (omega (arith, same, pos), omega (arith, e, same)),
              λ h. ap some (omega (arith, e, h.1)),
            ),
          )
      | inr f ↦
          let idle : n ≡ 0 = ground arith in
          rw f (
            (λ h. omega (arith, e, idle), λ h. refl),
            λ k. (λ h. cc h, λ h. absurd (omega (arith, e, idle, h.0, h.1))),
          )
    ]
