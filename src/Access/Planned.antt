-- ===== src/Access/Planned.antt =====
-- What the plan for a kind does with the managed copies: `PlanGroupKind`,
-- internal/util/accessmanagement/accessmanagement.go.
use kcm.Prelude.{
  ◌≡◌, refl, sym, ◌∙◌, subst, inl, inr, ◌↔◌, Bool, not, ◌&&◌, List, [], ◌∷◌, ◌++◌, map, Memᴰ,
  String, string_eq, key_eq, Bool-cases, Map, contains, filter_by, IsNodup, Resolved, ok, error,
  ◌>>=◌, bind-ok, bind-error, ok-injective, append_assoc, append-nil,
}
use kcm.Access.{GroupKind}
use kcm.Access.Resolve.{Selectors, Rule}
use kcm.Access.Plan.{
  Object, Target, Plan, Found, namespaced_name, add_rules, desired_targets,
  has_foreign_owner_reference, sort_out, plan_group_kind,
}
use kcm.Access.Exact.{
  Distributed, Unreadable, desired_targets-Distributed, add_rules-error, add_rules-stops,
}

-- The keys under which copies are tracked.
abbrev pub keys_of : List Target → List String
keys_of desired = map (λ (t : Target). namespaced_name t.namespace t.name) desired

module _ (group_of : String → Resolved String) (am : String) {M : Type 0} ⦃o : Object M⦄ where
  abbrev pub is_tracked : List String → M → Bool
  is_tracked keep obj = contains keep (namespaced_name (o.namespace_of obj) (o.name_of obj))

  abbrev pub is_foreign : M → Bool
  is_foreign obj = has_foreign_owner_reference group_of am (o.owners_of obj)

  abbrev pub released : List String → List M → List M
  released keep managed = filter_by (λ obj. not (is_tracked keep obj) && is_foreign obj) managed

  abbrev pub removed : List String → List M → List M
  removed keep managed =
      filter_by (λ obj. not (is_tracked keep obj) && not (is_foreign obj)) managed

  sort_out-Partition :
      (keep : List String) (managed : List M) (plan : Plan M)
      → sort_out group_of am keep managed plan ≡ (record {
        desired = plan.desired;
        remove = plan.remove ++ removed keep managed;
        release = plan.release ++ released keep managed;
      })
  sort_out-Partition keep [] plan = rw (append-nil plan.remove, append-nil plan.release) refl
  sort_out-Partition keep (obj ∷ managed) plan = elim (Bool-cases (is_tracked keep obj)) [
    | inl kept ↦ rw kept (sort_out-Partition keep managed plan)
    | inr lost ↦ elim (Bool-cases (is_foreign obj)) [
      | inl shared ↦
          rw (lost, shared)
            (sort_out-Partition keep managed (record plan { release = plan.release ++ (obj ∷ []) })
              ∙ rw (append_assoc plan.release (obj ∷ []) (released keep managed)) refl)
      | inr own ↦
          rw (lost, own)
            (sort_out-Partition keep managed (record plan { remove = plan.remove ++ (obj ∷ []) })
              ∙ rw (append_assoc plan.remove (obj ∷ []) (removed keep managed)) refl)
    ]
  ]

  module _ {S : Type 0} (lib : Selectors S) (rules : List Rule) (gk : GroupKind)
      (system : Map String (Map String String)) (managed : List M) where
    -- A plan that is made lists each wanted copy once, and those are exactly the copies that some
    -- resource rule of the kind selects for a namespace of its rule. Among the managed copies, in
    -- their order, it removes those that are under no wanted key and have no owner but the
    -- AccessManagement, and it releases those under no wanted key that have another owner; the rest
    -- it leaves alone.
    pub plan_group_kind-Partition :
        (plan : Plan M)
        → plan_group_kind group_of am lib rules gk system managed ≡ ok plan
        → IsNodup plan.desired
          × ((t : Target) → Memᴰ t plan.desired ↔ Distributed lib gk system rules t)
          × (plan.remove ≡ removed (keys_of plan.desired) managed)
          × (plan.release ≡ released (keys_of plan.desired) managed)
    unfolding plan_group_kind
    plan_group_kind-Partition plan h =
        let (desired, found, e) = bind-ok (desired_targets lib gk system rules) h in
        let (once, exact) = desired_targets-Distributed lib gk system rules desired found in
        let split =
          sort_out-Partition (keys_of desired) managed
            (record { desired = desired; remove = []; release = [] }) in
        subst
          (λ (p : Plan M).
            IsNodup p.desired
            × ((t : Target) → Memᴰ t p.desired ↔ Distributed lib gk system rules t)
            × (p.remove ≡ removed (keys_of p.desired) managed)
            × (p.release ≡ released (keys_of p.desired) managed))
          (sym split ∙ ok-injective e) (once, exact, refl, refl)

    -- A plan fails exactly when some resource rule of the kind has a selector that cannot be read;
    -- the error is that of such a selector. Resource rules of other kinds do not matter.
    pub plan_group_kind-error :
        ((e : String)
          → plan_group_kind group_of am lib rules gk system managed ≡ error e
          → Unreadable lib gk system rules e)
        × ((e : String)
            → Unreadable lib gk system rules e
            → (first : String) × (plan_group_kind group_of am lib rules gk system managed
                ≡ error first))
    unfolding plan_group_kind desired_targets
    plan_group_kind-error = (
      λ e h. elim (bind-error (desired_targets lib gk system rules) h) [
        | inl bad ↦
            elim (bind-error (add_rules lib gk system rules (record { desired = []; seen = [] }))
              bad) [
                | inl loop ↦
                    add_rules-error lib gk system rules (record { desired = []; seen = [] }) e loop
                | inr q ↦ cc (q.2)
              ]
        | inr q ↦ cc (q.2)
      ],
      λ e bad. go e bad (add_rules lib gk system rules (record { desired = []; seen = [] })) refl,
    )
      where
        go :
            (e : String)
            → Unreadable lib gk system rules e
            → (r : Resolved Found)
            → add_rules lib gk system rules (record { desired = []; seen = [] }) ≡ r
            → (first : String) × (((r >>= λ found. ok found.desired) >>= λ desired. ok (
                  sort_out group_of am
                    (keys_of desired)
                    managed
                    (record { desired = desired; remove = []; release = [] })))
                ≡ error first)
        go e bad (error first) h = (first, refl)
        go e bad (ok found) h =
            absurd (
              add_rules-stops lib gk system rules (record { desired = []; seen = [] }) found e h
                bad)
