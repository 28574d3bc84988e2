-- ===== src/Access/Migration.antt =====
-- The migration of deprecated fields: `MigrateAccessRules` and `migrateAccessRule`,
-- api/v1beta1/accessmanagement_types.go. The rules are changed in place there.
use kcm.Prelude.{Bool, false, not, ◌&&◌, ◌||◌, List, [], ◌∷◌, ◌++◌, if◌then◌else◌, ◌==◌, string_eq}
use kcm.Access.{
  ResourceRule, AccessRule, AccessManagement, api_group, is_builtin_resource_kind, is_empty,
  has_deprecated_fields, synthesize_resource_rules,
}

abbrev pub default_group : ResourceRule → ResourceRule
default_group r =
    if r.api_group == "" && is_builtin_resource_kind r.kind
    then record r { api_group = api_group }
    else r

-- The loop over the resources, with whether it changed anything.
abbrev pub default_groups : List ResourceRule → Bool → List ResourceRule × Bool
default_groups [] changed = ([], changed)
default_groups (r ∷ rs) changed =
    let (rest, more) =
      default_groups rs (changed || (r.api_group == "" && is_builtin_resource_kind r.kind)) in
    (default_group r ∷ rest, more)

abbrev pub clear_deprecated : AccessRule → AccessRule
clear_deprecated r = record r {
  cluster_template_chains = [];
  service_template_chains = [];
  credentials = [];
  cluster_authentications = [];
  data_sources = [];
  cluster_audit_policies = [];
}

unfoldable pub migrate_access_rule : AccessRule → AccessRule × Bool
migrate_access_rule rule =
    let synthesized = synthesize_resource_rules rule in
    let extended = record rule { resources = rule.resources ++ synthesized } in
    let cleared = if has_deprecated_fields rule then clear_deprecated extended else extended in
    let (resources, changed) = default_groups cleared.resources (not (is_empty synthesized)) in
    (record cleared { resources = resources }, changed)

unfoldable pub migrate_all : List AccessRule → Bool → List AccessRule × Bool
migrate_all [] changed = ([], changed)
migrate_all (rule ∷ rules) changed =
    let (migrated, more) = migrate_access_rule rule in
    let (rest, all) = migrate_all rules (changed || more) in (migrated ∷ rest, all)

unfoldable pub migrate_access_rules : AccessManagement → AccessManagement × Bool
migrate_access_rules am =
    let (migrated, changed) = migrate_all am.access_rules false in
    (if changed then record am { access_rules = migrated } else am, changed)
