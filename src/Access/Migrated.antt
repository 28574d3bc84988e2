-- ===== src/Access/Migrated.antt =====
-- What the migration of deprecated fields leaves: `MigrateAccessRules`,
-- api/v1beta1/accessmanagement_types.go.
use kcm.Prelude.{
  ◌↔◌, not, true≢false, append-nil, ◌≡◌, refl, sym, ◌∙◌, ap, ◌⊎◌, inl, inr, Bool, true, false, ◌&&◌,
  ◌||◌, List, [], ◌∷◌, ◌++◌, map, String, ◌==◌, string_eq, Bool-cases, arith, All, if◌then◌else◌,
  Map, Resolved, ok, error, ◌>>=◌, bind-congr,
}
use kcm.Api.{Listed}
use kcm.Access.{
  gk_beq, ResourceRule, AccessRule, AccessManagement, GroupKind, is_builtin_resource_kind, is_empty,
  group_kind, append_resource_rule, has_deprecated_fields, synthesize_resource_rules,
  effective_resources,
}
use kcm.Access.Migration.{
  default_group, default_groups, migrate_access_rule, migrate_all, migrate_access_rules,
}
use kcm.Access.Resolve.{
  Selectors, Selection, Rule, resolve_names, resolve_target_namespaces, resolve_rules,
}
use kcm.Access.Plan.{Found, add_namespaces, add_resources, add_rules, desired_targets}

abbrev needs_group : ResourceRule → Bool
needs_group r = r.api_group == "" && is_builtin_resource_kind r.kind

-- Nothing is left to do.
abbrev pub IsMigrated : AccessRule → Type 0
IsMigrated r = (has_deprecated_fields r ≡ false) × All (λ res. needs_group res ≡ false) r.resources

default_group-settled : (r : ResourceRule) → needs_group (default_group r) ≡ false
default_group-settled r = elim (Bool-cases (needs_group r)) [ inl t ↦ rw t refl | inr f ↦ rw f f ]

default_groups-settled :
    (rs : List ResourceRule) (b : Bool) → All (λ r. needs_group r ≡ false) (default_groups rs b).0
default_groups-settled [] b = tt
default_groups-settled (r ∷ rs) b = (default_group-settled r, default_groups-settled rs _)

or_false : (b : Bool) → (b || false) ≡ b
or_false true = refl
or_false false = refl

default_groups-kept :
    (rs : List ResourceRule) (b : Bool)
    → All (λ r. needs_group r ≡ false) rs
    → default_groups rs b ≡ (rs, b)
default_groups-kept [] b h = refl
default_groups-kept (r ∷ rs) b h =
    rw (h.0, default_groups-kept rs (b || false) h.1) (ap (λ c. (r ∷ rs, c)) (or_false b))

append-empty :
    (kind : String) (names : List String) (rs : List ResourceRule)
    → is_empty names ≡ true
    → append_resource_rule kind names rs ≡ rs
append-empty kind [] rs h = refl
append-empty kind (n ∷ ns) rs h = cc

synthesize-empty :
    (r : AccessRule) → has_deprecated_fields r ≡ false → synthesize_resource_rules r ≡ []
unfolding has_deprecated_fields synthesize_resource_rules
synthesize-empty r h = rw (
  append-empty "ClusterTemplateChain" r.cluster_template_chains [] (ground arith),
  append-empty "ServiceTemplateChain" r.service_template_chains [] (ground arith),
  append-empty "Credential" r.credentials [] (ground arith),
  append-empty "ClusterAuthentication" r.cluster_authentications [] (ground arith),
  append-empty "DataSource" r.data_sources [] (ground arith),
  append-empty "ClusterAuditPolicy" r.cluster_audit_policies [] (ground arith),
)

migrate_access_rule-IsMigrated : (r : AccessRule) → IsMigrated (migrate_access_rule r).0
unfolding migrate_access_rule has_deprecated_fields
migrate_access_rule-IsMigrated r = elim (Bool-cases (has_deprecated_fields r)) [
  | inl t ↦ rw t (refl, default_groups-settled _ _)
  | inr f ↦ rw f (f, default_groups-settled _ _)
]

IsMigrated-kept : (r : AccessRule) → IsMigrated r → migrate_access_rule r ≡ (r, false)
unfolding migrate_access_rule
IsMigrated-kept r h =
    rw
      (
        h.0,
        synthesize-empty r h.0,
        append-nil r.resources,
        default_groups-kept r.resources false h.1,
      )
      refl

migrate_all-AllMigrated : (rs : List AccessRule) (b : Bool) → All IsMigrated (migrate_all rs b).0
unfolding migrate_all
migrate_all-AllMigrated [] b = tt
migrate_all-AllMigrated (r ∷ rs) b =
    (migrate_access_rule-IsMigrated r, migrate_all-AllMigrated rs _)

AllMigrated-kept :
    (rs : List AccessRule) (b : Bool) → All IsMigrated rs → migrate_all rs b ≡ (rs, b)
unfolding migrate_all
AllMigrated-kept [] b h = refl
AllMigrated-kept (r ∷ rs) b h =
    rw (IsMigrated-kept r h.0, AllMigrated-kept rs (b || false) h.1)
      (ap (λ c. (r ∷ rs, c)) (or_false b))

append-nothing :
    (kind : String) (names : List String) (rs : List ResourceRule)
    → is_empty (append_resource_rule kind names rs) ≡ true
    → (is_empty names ≡ true) × (is_empty rs ≡ true)
append-nothing kind [] rs h = (refl, h)
append-nothing kind (n ∷ names) [] h = cc h
append-nothing kind (n ∷ names) (r ∷ rs) h = cc h

-- Where nothing is synthesized, no deprecated field is in use.
synthesize-nothing :
    (r : AccessRule)
    → is_empty (synthesize_resource_rules r) ≡ true
    → has_deprecated_fields r ≡ false
unfolding has_deprecated_fields synthesize_resource_rules
synthesize-nothing r h =
    let (policies, h1) = append-nothing _ r.cluster_audit_policies _ h in
    let (sources, h2) = append-nothing _ r.data_sources _ h1 in
    let (authentications, h3) = append-nothing _ r.cluster_authentications _ h2 in
    let (creds, h4) = append-nothing _ r.credentials _ h3 in
    let (services, h5) = append-nothing _ r.service_template_chains _ h4 in
    let (clusters, h6) = append-nothing _ r.cluster_template_chains _ h5 in
    rw (policies, sources, authentications, creds, services, clusters) refl

default_groups-unchanged :
    (rs : List ResourceRule) (b : Bool)
    → (default_groups rs b).1 ≡ false
    → (b ≡ false) × All (λ r. needs_group r ≡ false) rs
default_groups-unchanged [] b h = (h, tt)
default_groups-unchanged (r ∷ rs) b h =
    let (now, rest) = default_groups-unchanged rs (b || needs_group r) h in
    (ground arith, (ground arith, rest))

migrate_access_rule-unchanged : (r : AccessRule) → (migrate_access_rule r).1 ≡ false → IsMigrated r
unfolding migrate_access_rule
migrate_access_rule-unchanged r h = elim (Bool-cases (has_deprecated_fields r)) [
  | inl t ↦
      let (nothing, settled) =
        default_groups-unchanged (r.resources ++ synthesize_resource_rules r)
          (not (is_empty (synthesize_resource_rules r))) (rw t at h) in
      absurd (true≢false (sym t ∙ synthesize-nothing r (not-not nothing)))
  | inr f ↦
      let (nothing, settled) =
        default_groups-unchanged (r.resources ++ synthesize_resource_rules r)
          (not (is_empty (synthesize_resource_rules r))) (rw f at h) in
      (f, rw (synthesize-empty r f, append-nil r.resources) at settled)
]
  where
    not-not : {b : Bool} → not b ≡ false → b ≡ true
    not-not {b} h = elim (Bool-cases b) [ inl t ↦ t | inr f ↦ cc (rw f at h) ]

migrate_all-unchanged :
    (rs : List AccessRule) (b : Bool)
    → (migrate_all rs b).1 ≡ false
    → (b ≡ false) × All IsMigrated rs
unfolding migrate_all
migrate_all-unchanged [] b h = (h, tt)
migrate_all-unchanged (r ∷ rs) b h =
    let (now, rest) = migrate_all-unchanged rs (b || (migrate_access_rule r).1) h in
    (ground arith, (migrate_access_rule-unchanged r (ground arith), rest))

-- After a migration no rule has a deprecated field left, and each resource of a built-in kind
-- states a group. Migrating again returns the AccessManagement as it is, with false for "changed".
-- A migration says that it changed nothing exactly where this held of all rules before.
pub migrate-stable :
    (am : AccessManagement)
    → All IsMigrated (migrate_access_rules am).0.access_rules
      × (migrate_access_rules (migrate_access_rules am).0 ≡ ((migrate_access_rules am).0, false))
      × (((migrate_access_rules am).1 ≡ false) ↔ All IsMigrated am.access_rules)
unfolding migrate_access_rules
migrate-stable am =
    let kept = AllMigrated-kept am.access_rules false in
    elim (Bool-cases (migrate_all am.access_rules false).1) [
      | inl t ↦
          let all = migrate_all-AllMigrated am.access_rules false in
          rw t (
            all,
            rw (AllMigrated-kept (migrate_all am.access_rules false).0 false all) refl,
            (λ h. cc h, λ h. absurd (true≢false (sym t ∙ ap (λ p. p.1) (kept h)))),
          )
      | inr f ↦
          let all = (migrate_all-unchanged am.access_rules false f).1 in
          rw f (all, rw f refl, (λ h. all, λ h. refl))
    ]

-- A rule that states its resources in one of the two ways.
abbrev pub Unmixed : AccessRule → Type 0
Unmixed r = (r.resources ≡ []) ⊎ (has_deprecated_fields r ≡ false)

default_groups-map :
    (rs : List ResourceRule) (b : Bool) → (default_groups rs b).0 ≡ map default_group rs
default_groups-map [] b = refl
default_groups-map (r ∷ rs) b = ap (λ more. default_group r ∷ more) (default_groups-map rs _)

resources-or_empty : (rs : List ResourceRule) → (if is_empty rs then [] else rs) ≡ rs
resources-or_empty [] = refl
resources-or_empty (r ∷ rs) = refl

effective-stated :
    (r : AccessRule) → has_deprecated_fields r ≡ false → effective_resources r ≡ r.resources
unfolding effective_resources
effective-stated r h = rw (synthesize-empty r h) (resources-or_empty r.resources)

effective-extended :
    (r : AccessRule)
    → Unmixed r
    → r.resources ++ synthesize_resource_rules r ≡ effective_resources r
unfolding effective_resources
effective-extended r (inl none_stated) = rw none_stated refl
effective-extended r (inr no_fields) =
    rw (synthesize-empty r no_fields)
      (append-nil r.resources ∙ sym (resources-or_empty r.resources))

resources-migrated :
    (r : AccessRule)
    → (migrate_access_rule r).0.resources
      ≡ map default_group (r.resources ++ synthesize_resource_rules r)
unfolding migrate_access_rule
resources-migrated r = elim (Bool-cases (has_deprecated_fields r)) [
  | inl t ↦ rw t (default_groups-map _ _)
  | inr f ↦ rw f (default_groups-map _ _)
]

namespaces-migrated :
    (r : AccessRule) → (migrate_access_rule r).0.target_namespaces ≡ r.target_namespaces
unfolding migrate_access_rule
namespaces-migrated r = elim (Bool-cases (has_deprecated_fields r)) [
  | inl t ↦ rw t refl
  | inr f ↦ rw f refl
]

effective_resources-migrated :
    (r : AccessRule)
    → Unmixed r
    → effective_resources (migrate_access_rule r).0 ≡ map default_group (effective_resources r)
effective_resources-migrated r unmixed =
    effective-stated (migrate_access_rule r).0 (migrate_access_rule-IsMigrated r).0
    ∙ resources-migrated r
    ∙ ap (map default_group) (effective-extended r unmixed)

group_kind-default_group : (r : ResourceRule) → group_kind (default_group r) ≡ group_kind r
unfolding group_kind
group_kind-default_group r = elim (Bool-cases (needs_group r)) [
  | inl t ↦ rw t refl
  | inr f ↦ rw (f, f) refl
]

module _ {S : Type 0} (lib : Selectors S) where
  resolve_names-default_group :
      (r : ResourceRule) (system : Map String (Map String String))
      → resolve_names lib (default_group r) system ≡ resolve_names lib r system
  unfolding resolve_names
  resolve_names-default_group r system = elim (Bool-cases (needs_group r)) [
    | inl t ↦ rw t refl
    | inr f ↦ rw f refl
  ]

  abbrev default_rule : Rule → Rule
  default_rule rule = record rule { resources = map default_group rule.resources }

  resolve_rules-migrated :
      (list : Selection S → Listed String) (sys : String) (rs : List AccessRule) (b : Bool)
      → All Unmixed rs
      → resolve_rules lib list sys (migrate_all rs b).0
        ≡ (resolve_rules lib list sys rs >>= λ rules. ok (map default_rule rules))
  unfolding resolve_rules migrate_all
  resolve_rules-migrated list sys [] b h = refl
  resolve_rules-migrated list sys (r ∷ rs) b h =
      rw
        (
          namespaces-migrated r,
          effective_resources-migrated r h.0,
          resolve_rules-migrated list sys rs (b || (migrate_access_rule r).1) h.1,
        )
        (go (resolve_target_namespaces lib list sys r.target_namespaces)
          (resolve_rules lib list sys rs))
    where
      go :
          (a : Resolved (List String)) (b : Resolved (List Rule))
          → (a >>= λ ns. (b >>= λ rules. ok (map default_rule rules)) >>= λ rest. ok (
              (record { namespaces = ns; resources = map default_group (effective_resources r) })
              ∷ rest))
            ≡ ((a >>= λ ns. b >>= λ rest.
                  ok ((record { namespaces = ns; resources = effective_resources r }) ∷ rest))
                >>= λ rules. ok (map default_rule rules))
      go (error e) b = refl
      go (ok ns) (error e) = refl
      go (ok ns) (ok rest) = refl

  module _ (gk : GroupKind) (system : Map String (Map String String)) where
    add_resources-default :
        (ns : List String) (rs : List ResourceRule) (found : Found)
        → add_resources lib gk system ns (map default_group rs) found
          ≡ add_resources lib gk system ns rs found
    add_resources-default ns [] found = refl
    add_resources-default ns (r ∷ rs) found = elim (Bool-cases (gk_beq (group_kind r) gk)) [
      | inl t ↦
          rw (group_kind-default_group r, t, resolve_names-default_group r system)
            (bind-congr (resolve_names lib r system)
              (λ names. add_resources-default ns rs (add_namespaces ns names found)))
      | inr f ↦ rw (group_kind-default_group r, f) (add_resources-default ns rs found)
    ]

    add_rules-default :
        (rules : List Rule) (found : Found)
        → add_rules lib gk system (map default_rule rules) found
          ≡ add_rules lib gk system rules found
    add_rules-default [] found = refl
    add_rules-default (rule ∷ rules) found =
        rw (add_resources-default rule.namespaces rule.resources found) (
          bind-congr (add_resources lib gk system rule.namespaces rule.resources found)
            (add_rules-default rules))

    -- For rules that state their resources in one of the two ways, migrating them changes no
    -- target: the rules resolve to the same targets of every kind, or to the same error, with the
    -- deprecated fields as with the resources that replace them.
    pub targets-migrated :
        (list : Selection S → Listed String) (sys : String) (rs : List AccessRule)
        → All Unmixed rs
        → (resolve_rules lib list sys (migrate_all rs false).0 >>= desired_targets lib gk system)
          ≡ (resolve_rules lib list sys rs >>= desired_targets lib gk system)
    unfolding desired_targets
    targets-migrated list sys rs h =
        rw (resolve_rules-migrated list sys rs false h) (go (resolve_rules lib list sys rs))
      where
        go :
            (a : Resolved (List Rule))
            → ((a >>= λ rules. ok (map default_rule rules)) >>= desired_targets lib gk system)
              ≡ (a >>= desired_targets lib gk system)
        go (error e) = refl
        go (ok rules) = rw (add_rules-default rules (record { desired = []; seen = [] })) refl
