-- ===== src/Access.antt =====
-- The distribution of objects by an AccessManagement: the rules that it lists,
-- api/v1beta1/accessmanagement_types.go, with their groups, kinds and deprecated fields.
pub mod Resolve
pub mod Plan
pub mod Removal
pub mod Migration
pub mod Targets
pub mod Exact
pub mod Planned
pub mod Removed
pub mod Migrated
use kcm.Prelude.{
  Bool, true, ◌&&◌, ◌||◌, not, List, [], ◌∷◌, ◌++◌, Option, none, some, String, if◌then◌else◌, ◌==◌,
  string_eq, ObjectKey, contains,
}
use kcm.Api.{LabelSelector}

pub record ResourceSelector : Type 0 where
  pub selector : Option LabelSelector
  pub string_selector : String
  pub list : List String

-- A nil slice of names selects by label, and an empty one selects nothing.
pub record ResourceRule : Type 0 where
  pub selector : Option LabelSelector
  pub api_group : String
  pub kind : String
  pub string_selector : String
  pub names : Option (List String)

pub record AccessRule : Type 0 where
  pub target_namespaces : ResourceSelector
  pub resources : List ResourceRule
  pub cluster_template_chains : List String
  pub service_template_chains : List String
  pub credentials : List String
  pub cluster_authentications : List String
  pub data_sources : List String
  pub cluster_audit_policies : List String

-- schema.GroupKind
pub record GroupKind : Type 0 where
  pub group : String
  pub kind : String

pub record ResourceKindStatus : Type 0 where
  pub api_group : String
  pub kind : String

pub record AccessManagement : Type 0 where
  pub name : String
  pub access_rules : List AccessRule
  pub resources : List ResourceKindStatus

unfoldable pub gk_beq : GroupKind → GroupKind → Bool
gk_beq a b = a.group == b.group && a.kind == b.kind

abbrev pub api_group : String
api_group = "k0rdent.mirantis.com"

abbrev pub builtin_resource_kinds : List String
builtin_resource_kinds =
    "ClusterTemplate" ∷ "ClusterTemplateChain" ∷ "ServiceTemplateChain" ∷ "Credential"
    ∷ "ClusterAuthentication" ∷ "DataSource" ∷ "ClusterAuditPolicy" ∷ "RBACPolicy" ∷ []

unfoldable pub is_builtin_resource_kind : String → Bool
is_builtin_resource_kind kind = contains builtin_resource_kinds kind

-- An absent group is the product's own one for the built-in kinds.
unfoldable pub group_kind : ResourceRule → GroupKind
group_kind r = record {
  group = if r.api_group == "" && is_builtin_resource_kind r.kind then api_group else r.api_group;
  kind = r.kind;
}

abbrev pub is_empty : {A : Type 0} → List A → Bool
is_empty [] = true
is_empty (x ∷ xs) = Bool.false

unfoldable pub has_deprecated_fields : AccessRule → Bool
has_deprecated_fields r =
    not (is_empty r.cluster_template_chains)
    || not (is_empty r.service_template_chains)
    || not (is_empty r.credentials)
    || not (is_empty r.cluster_authentications)
    || not (is_empty r.data_sources)
    || not (is_empty r.cluster_audit_policies)

abbrev pub append_resource_rule : String → List String → List ResourceRule → List ResourceRule
append_resource_rule kind [] resources = resources
append_resource_rule kind (n ∷ names) resources =
    resources
    ++ ((record {
      selector = none;
      api_group = api_group;
      kind = kind;
      string_selector = "";
      names = some (n ∷ names);
    })
        ∷ [])

unfoldable pub synthesize_resource_rules : AccessRule → List ResourceRule
synthesize_resource_rules r = append_resource_rule "ClusterAuditPolicy" r.cluster_audit_policies (
    append_resource_rule "DataSource" r.data_sources (
      append_resource_rule "ClusterAuthentication" r.cluster_authentications (
        append_resource_rule "Credential" r.credentials (
          append_resource_rule "ServiceTemplateChain" r.service_template_chains
            (append_resource_rule "ClusterTemplateChain" r.cluster_template_chains [])))))

unfoldable pub effective_resources : AccessRule → List ResourceRule
effective_resources r = if is_empty r.resources then synthesize_resource_rules r else r.resources
