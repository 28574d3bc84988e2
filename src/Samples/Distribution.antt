-- ===== src/Samples/Distribution.antt =====
-- The distribution of an AccessManagement at concrete rules.
use kcm.Prelude.{
  sort, key_beq, index_by, ◌≡◌, ◌≢◌, ◌↔◌, refl, inl, inr, false, List, [], ◌∷◌, Memᴰ, none, String,
  if◌then◌else◌, ◌==◌, string_eq, key_eq, Map, has_key, IsNodup, Resolved, ok, error, ◌>>=◌, All,
}
use kcm.Api.{Listed, items}
use kcm.Access.{
  ResourceSelector, ResourceRule, AccessRule, AccessManagement, group_kind,
  is_builtin_resource_kind, gk_beq, effective_resources, synthesize_resource_rules,
  has_deprecated_fields,
}
use kcm.Access.Resolve.{
  Selectors, Selection, Rule, label_selector, resolve_names, resolve_target_namespaces,
  resolve_rules,
}
use kcm.Access.Plan.{
  Owner, Target, Plan, namespaced_name, desired_targets, has_foreign_owner_reference,
  is_access_management_owner_reference, plan_group_kind,
}
use kcm.Access.Removal.{
  ClusterTemplate, cluster_template_object, AccessClient, cluster_template_gk, tracks_group_kind,
  referenced_group_kinds, cluster_templates_to_remove,
}
use kcm.Access.Migration.{migrate_all, migrate_access_rules}
use kcm.Access.Exact.{Distributed, Unreadable}
use kcm.Access.Planned.{
  keys_of, removed, released, plan_group_kind-Partition, plan_group_kind-error,
}
use kcm.Access.Removed.{targets-ExcludeSystem, MayGo, cluster_templates_to_remove-MayGo}
use kcm.Access.Migrated.{IsMigrated, migrate-stable, targets-migrated}

-- A selector is the name of a label; "!" cannot be parsed.
abbrev lib : Selectors String
lib = record {
  parse = λ s. if s == "!" then error "bad selector" else ok s;
  as_selector = λ labels. ok "";
  empty = λ s. s == "";
  matches = λ s labels. has_key s labels;
}

abbrev group_of : String → Resolved String
group_of version =
    if version == "k0rdent.mirantis.com/v1beta1" then ok "k0rdent.mirantis.com" else error version

abbrev by_label : String → ResourceRule
by_label s = record {
  selector = none;
  api_group = "";
  kind = "ClusterTemplate";
  string_selector = s;
  names = none;
}

abbrev rules : List Rule
rules =
    (record { namespaces = "team" ∷ []; resources = by_label "gold" ∷ [] })
    ∷ (record { namespaces = "ops" ∷ "team" ∷ []; resources = by_label "gold" ∷ [] })
    ∷ []

abbrev system : Map String (Map String String)
system = ("web", ("gold", "yes") ∷ []) ∷ ("old", []) ∷ []

abbrev own : Owner
own = record {
  api_version = "k0rdent.mirantis.com/v1beta1";
  kind = "AccessManagement";
  name = "kcm";
}

abbrev chain : Owner
chain = record {
  api_version = "k0rdent.mirantis.com/v1beta1";
  kind = "ClusterTemplateChain";
  name = "c";
}

abbrev template : String → String → List Owner → ClusterTemplate
template namespace name owners = record {
  name = name;
  namespace = namespace;
  labels = ("gold", "yes") ∷ [];
  owner_references = owners;
  is_deleting = false;
}

abbrev managed : List ClusterTemplate
managed =
    template "team" "web" (own ∷ [])
    ∷ template "team" "old" (own ∷ [])
    ∷ template "ops" "old" (own ∷ chain ∷ [])
    ∷ []

abbrev target : String → String → Target
target namespace name = record { namespace = namespace; name = name }

abbrev plan : Plan ClusterTemplate
plan = record {
  desired = target "team" "web" ∷ target "ops" "web" ∷ [];
  remove = template "team" "old" (own ∷ []) ∷ [];
  release = template "ops" "old" (own ∷ chain ∷ []) ∷ [];
}

plan_group_kind-Partition_example :
    IsNodup plan.desired
    × ((t : Target) → Memᴰ t plan.desired ↔ Distributed lib cluster_template_gk system rules t)
    × (plan.remove ≡ removed group_of "kcm" (keys_of plan.desired) managed)
    × (plan.release ≡ released group_of "kcm" (keys_of plan.desired) managed)
unfolding sort key_beq plan_group_kind desired_targets resolve_names label_selector group_kind
    gk_beq is_builtin_resource_kind namespaced_name has_foreign_owner_reference
    is_access_management_owner_reference
plan_group_kind-Partition_example =
    plan_group_kind-Partition group_of "kcm" lib rules cluster_template_gk system managed plan refl

abbrev bad_rules : List Rule
bad_rules = (record { namespaces = "team" ∷ []; resources = by_label "!" ∷ [] }) ∷ []

plan_group_kind-error_example :
    ((e : String)
      → plan_group_kind group_of "kcm" lib bad_rules cluster_template_gk system managed ≡ error e
      → Unreadable lib cluster_template_gk system bad_rules e)
    × ((e : String)
        → Unreadable lib cluster_template_gk system bad_rules e
        → (first : String) × (plan_group_kind group_of "kcm" lib bad_rules cluster_template_gk
              system managed
            ≡ error first))
plan_group_kind-error_example =
    plan_group_kind-error group_of "kcm" lib bad_rules cluster_template_gk system managed

abbrev everywhere : ResourceSelector
everywhere = record { selector = none; string_selector = ""; list = [] }

abbrev old_rule : AccessRule
old_rule = record {
  target_namespaces = everywhere;
  resources = [];
  cluster_template_chains = "chain" ∷ [];
  service_template_chains = [];
  credentials = "aws" ∷ [];
  cluster_authentications = [];
  data_sources = [];
  cluster_audit_policies = [];
}

abbrev new_rule : AccessRule
new_rule = record old_rule {
  resources = by_label "gold" ∷ [];
  cluster_template_chains = [];
  credentials = [];
}

abbrev am : AccessManagement
am = record { name = "kcm"; access_rules = old_rule ∷ new_rule ∷ []; resources = [] }

migrate-stable_example :
    All IsMigrated (migrate_access_rules am).0.access_rules
    × (migrate_access_rules (migrate_access_rules am).0 ≡ ((migrate_access_rules am).0, false))
    × (((migrate_access_rules am).1 ≡ false) ↔ All IsMigrated am.access_rules)
migrate-stable_example = migrate-stable am

abbrev namespaces : Selection String → Listed String
namespaces s = items ("kcm-system" ∷ "team" ∷ [])

targets-migrated_example :
    (resolve_rules lib namespaces "kcm-system" (migrate_all am.access_rules false).0
      >>= desired_targets lib cluster_template_gk system)
    ≡ (resolve_rules lib namespaces "kcm-system" am.access_rules
        >>= desired_targets lib cluster_template_gk system)
unfolding has_deprecated_fields
targets-migrated_example =
    targets-migrated lib cluster_template_gk system namespaces "kcm-system" am.access_rules
      (inl refl, (inr refl, tt))

targets-ExcludeSystem_example : (target "team" "web").namespace ≢ "kcm-system"
unfolding sort key_beq resolve_rules resolve_target_namespaces effective_resources
    synthesize_resource_rules desired_targets resolve_names label_selector group_kind gk_beq
    is_builtin_resource_kind
targets-ExcludeSystem_example =
    targets-ExcludeSystem lib namespaces "kcm-system" cluster_template_gk system am.access_rules
      (target "team" "web" ∷ []) (target "team" "web") refl (Memᴰ.head refl)

abbrev client : AccessClient String
client = record {
  list_namespaces = namespaces;
  list_in_namespace = λ n. items (template "kcm-system" "web" [] ∷ []);
  list_managed = items managed;
}

cluster_templates_to_remove-MayGo_example :
    MayGo lib group_of client "kcm-system" am (template "team" "old" (own ∷ []))
unfolding sort index_by cluster_templates_to_remove tracks_group_kind referenced_group_kinds
    plan_group_kind resolve_rules resolve_target_namespaces effective_resources
    synthesize_resource_rules desired_targets resolve_names label_selector group_kind gk_beq
    is_builtin_resource_kind namespaced_name has_foreign_owner_reference
    is_access_management_owner_reference
cluster_templates_to_remove-MayGo_example =
    cluster_templates_to_remove-MayGo lib group_of client "kcm-system" am
      (template "team" "old" (own ∷ []) ∷ []) (template "team" "old" (own ∷ [])) refl
      (Memᴰ.head refl)
