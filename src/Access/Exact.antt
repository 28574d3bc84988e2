-- ===== src/Access/Exact.antt =====
-- Which targets are found, and which rules fail: `desiredTargets`,
-- internal/util/accessmanagement/accessmanagement.go.
use mathlib.Core.List.Memᴰ
use kcm.Prelude.{
  true≢false, ◌≡◌, refl, sym, ◌∙◌, ap, subst, inl, inr, ◌↔◌, List, [], ◌∷◌, Memᴰ, String, string_eq,
  key_eq, Bool-cases, Map, IsNodup, ok, error, bind-ok, bind-error, ok-injective,
}
use kcm.Access.{ResourceRule, GroupKind, gk_beq, group_kind}
use kcm.Access.Resolve.{Selectors, Rule, resolve_names}
use kcm.Access.Plan.{Target, Found, add_namespaces, add_resources, add_rules, desired_targets}
use kcm.Access.Targets.{
  Extends, Extends-refl, Extends-trans, add_namespaces-Extends, gk_beq_iff, gk_beq_refl,
}

module _ {S : Type 0} (lib : Selectors S) (gk : GroupKind)
    (system : Map String (Map String String)) where
  -- A resource rule for the kind that selects the object's name.
  abbrev pub Selects : ResourceRule → String → Type 0
  Selects res name =
      (group_kind res ≡ gk)
      × (names : List String) × (resolve_names lib res system ≡ ok names)
      × Memᴰ name names

  -- A rule distributes the object into the namespace.
  abbrev pub Distributed : List Rule → Target → Type 0
  Distributed rules t =
      (rule : Rule) × Memᴰ rule rules
      × Memᴰ t.namespace rule.namespaces
      × ((res : ResourceRule) × Memᴰ res rule.resources × Selects res t.name)

  abbrev FromResources : List String → List ResourceRule → Target → Type 0
  FromResources nss rs u =
      Memᴰ u.namespace nss × ((res : ResourceRule) × Memᴰ res rs × Selects res u.name)

  add_resources-Extends :
      (nss : List String) (rs : List ResourceRule) (f g : Found)
      → add_resources lib gk system nss rs f ≡ ok g
      → Extends f g (FromResources nss rs)
  add_resources-Extends nss [] f g h =
      subst (λ x. Extends f x (FromResources nss [])) (ok-injective h)
        (Extends-refl f _ (λ u p. elim p.1.1 [ ]))
  add_resources-Extends nss (r ∷ rs) f g h = elim (Bool-cases (gk_beq (group_kind r) gk)) [
    | inl t ↦
        let same = (gk_beq_iff (group_kind r) gk).0 t in
        let (names, read, later) = bind-ok (resolve_names lib r system) (rw t at h) in
        Extends-trans f _ g (add_namespaces-Extends nss names f)
          (add_resources-Extends nss rs (add_namespaces nss names f) g later)
          (λ u. (
            λ p.
                let (ns, (res, m, s)) = p in
                elim (Memᴰ.cases_cons m) [
                  | inl e ↦
                      let (k, names2, read2, n) = s in
                      let eq : names2 ≡ names =
                        ok-injective (sym read2 ∙ ap (λ x. resolve_names lib x system) e ∙ read) in
                      inl (ns, subst (λ l. Memᴰ u.name l) eq n)
                  | inr o ↦ inr (ns, (res, o, s))
                ],
            λ c. elim c [
              | inl q ↦ (q.0, (r, Memᴰ.head refl, (same, names, read, q.1)))
              | inr q ↦ let (ns, (res, o, s)) = q in (ns, (res, Memᴰ.tail o, s))
            ],
          ))
    | inr skips ↦
        Extends-trans f f g (Extends-refl f (λ _. ⊥) (λ u p. p))
          (add_resources-Extends nss rs f g (rw skips at h))
          (λ u. (
            λ p.
                let (ns, (res, m, s)) = p in
                elim (Memᴰ.cases_cons m) [
                  | inl e ↦ absurd (
                      true≢false (
                        sym (gk_beq_refl gk)
                        ∙ ap (λ k. gk_beq k gk) (sym s.0 ∙ ap group_kind e)
                        ∙ skips))
                  | inr o ↦ inr (ns, (res, o, s))
                ],
            λ c. elim c [
              | inl q ↦ absurd q
              | inr q ↦ let (ns, (res, o, s)) = q in (ns, (res, Memᴰ.tail o, s))
            ],
          ))
  ]

  add_rules-Extends :
      (rules : List Rule) (f g : Found)
      → add_rules lib gk system rules f ≡ ok g
      → Extends f g (Distributed rules)
  add_rules-Extends [] f g h =
      subst (λ x. Extends f x (Distributed [])) (ok-injective h)
        (Extends-refl f _ (λ u p. elim p.1 [ ]))
  add_rules-Extends (rule ∷ rules) f g h =
      let (more, first, later) =
        bind-ok (add_resources lib gk system rule.namespaces rule.resources f) h in
      Extends-trans f more g (add_resources-Extends rule.namespaces rule.resources f more first)
        (add_rules-Extends rules more g later)
        (λ u. (
          λ p.
              let (r, m, ns, q) = p in
              elim (Memᴰ.cases_cons m) [
                | inl e ↦
                    inl (subst (λ (x : Rule). FromResources x.namespaces x.resources u) e (ns, q))
                | inr o ↦ inr (r, o, ns, q)
              ],
          λ c. elim c [
            | inl q ↦ (rule, Memᴰ.head refl, q.0, q.1)
            | inr q ↦ let (r, o, ns, s) = q in (r, Memᴰ.tail o, ns, s)
          ],
        ))

  pub desired_targets-Distributed :
      (rules : List Rule) (desired : List Target)
      → desired_targets lib gk system rules ≡ ok desired
      → IsNodup desired × ((t : Target) → Memᴰ t desired ↔ Distributed rules t)
  unfolding desired_targets
  desired_targets-Distributed rules desired h =
      let (g, run, e) =
        bind-ok (add_rules lib gk system rules (record { desired = []; seen = [] })) h in
      let (well, mem) = add_rules-Extends rules _ g run (λ t. refl, tt) in
      let same : g.desired ≡ desired = ok-injective e in
      subst (λ d. IsNodup d × ((t : Target) → Memᴰ t d ↔ Distributed rules t)) same
        (
          well.1,
          λ t. (λ m. elim ((mem t).0 m) [ inl d ↦ d | inr n ↦ elim n [ ] ], λ d. (mem t).1 (inl d)),
        )

  -- A resource rule of the kind whose selector cannot be read.
  abbrev pub Unreadable : List Rule → String → Type 0
  Unreadable rules e =
      (rule : Rule) × Memᴰ rule rules
      × ((res : ResourceRule) × Memᴰ res rule.resources
          × (group_kind res ≡ gk)
          × (resolve_names lib res system ≡ error e))

  abbrev UnreadableIn : List ResourceRule → String → Type 0
  UnreadableIn rs e =
      (res : ResourceRule) × Memᴰ res rs
      × (group_kind res ≡ gk)
      × (resolve_names lib res system ≡ error e)

  add_resources-error :
      (nss : List String) (rs : List ResourceRule) (f : Found) (e : String)
      → add_resources lib gk system nss rs f ≡ error e
      → UnreadableIn rs e
  add_resources-error nss [] f e h = cc
  add_resources-error nss (r ∷ rs) f e h = elim (Bool-cases (gk_beq (group_kind r) gk)) [
    | inl t ↦ elim (bind-error (resolve_names lib r system) (rw t at h)) [
      | inl bad ↦ (r, Memᴰ.head refl, (gk_beq_iff (group_kind r) gk).0 t, bad)
      | inr q ↦
          let (names, read, later) = q in
          let (res, m, same, bad) =
            add_resources-error nss rs (add_namespaces nss names f) e later in
          (res, Memᴰ.tail m, same, bad)
    ]
    | inr skips ↦
        let (res, m, same, bad) = add_resources-error nss rs f e (rw skips at h) in
        (res, Memᴰ.tail m, same, bad)
  ]

  pub add_rules-error :
      (rules : List Rule) (f : Found) (e : String)
      → add_rules lib gk system rules f ≡ error e
      → Unreadable rules e
  add_rules-error [] f e h = cc
  add_rules-error (rule ∷ rules) f e h =
      elim (bind-error (add_resources lib gk system rule.namespaces rule.resources f) h) [
        | inl bad ↦
            (rule, Memᴰ.head refl, add_resources-error rule.namespaces rule.resources f e bad)
        | inr q ↦
            let (more, first, later) = q in
            let (r, m, s) = add_rules-error rules more e later in (r, Memᴰ.tail m, s)
      ]

  -- With an unreadable rule the loop does not end well.
  add_resources-stops :
      (nss : List String) (rs : List ResourceRule) (f g : Found) (e : String)
      → add_resources lib gk system nss rs f ≡ ok g
      → ¬ UnreadableIn rs e
  add_resources-stops nss [] f g e h (res, m, same, bad) = elim m [ ]
  add_resources-stops nss (r ∷ rs) f g e h (res, m, same, bad) =
      elim (Bool-cases (gk_beq (group_kind r) gk)) [
        | inl t ↦
            let (names, read, later) = bind-ok (resolve_names lib r system) (rw t at h) in
            elim (Memᴰ.cases_cons m) [
              | inl p ↦ cc (sym read ∙ ap (λ x. resolve_names lib x system) (sym p) ∙ bad)
              | inr o ↦ add_resources-stops nss rs _ g e later (res, o, same, bad)
            ]
        | inr skips ↦ elim (Memᴰ.cases_cons m) [
          | inl p ↦ absurd (
              true≢false
                (sym ((gk_beq_iff (group_kind r) gk).1 (ap group_kind (sym p) ∙ same)) ∙ skips))
          | inr o ↦ add_resources-stops nss rs f g e (rw skips at h) (res, o, same, bad)
        ]
      ]

  pub add_rules-stops :
      (rules : List Rule) (f g : Found) (e : String)
      → add_rules lib gk system rules f ≡ ok g
      → ¬ Unreadable rules e
  add_rules-stops [] f g e h (r, m, s) = elim m [ ]
  add_rules-stops (rule ∷ rules) f g e h (r, m, s) =
      let (more, first, later) =
        bind-ok (add_resources lib gk system rule.namespaces rule.resources f) h in
      elim (Memᴰ.cases_cons m) [
        | inl p ↦
            add_resources-stops rule.namespaces rule.resources f more e first
              (subst (λ (x : Rule). UnreadableIn x.resources e) p s)
        | inr o ↦ add_rules-stops rules more g e later (r, o, s)
      ]
