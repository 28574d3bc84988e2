-- ===== src/Access/Removal.antt =====
-- The ClusterTemplates that reconciling an AccessManagement deletes: `ClusterTemplatesToRemove`,
-- `ReferencedGroupKinds` and `TracksGroupKind`,
-- internal/util/accessmanagement/accessmanagement.go. An owner's group is read by the library.
use kcm.Prelude.{
  Bool, not, ◌&&◌, ◌||◌, List, [], ◌∷◌, ◌++◌, String, if◌then◌else◌, ◌==◌, string_eq, Map, index_by,
  any, filter_by, Resolved, ok, error, ◌>>=◌,
}
use kcm.Api.{Listed, items, list_failed}
use kcm.Access.{
  ResourceRule, AccessRule, GroupKind, ResourceKindStatus, AccessManagement, gk_beq, api_group,
  group_kind, effective_resources,
}
use kcm.Access.Resolve.{Selectors, Selection, resolve_rules}
use kcm.Access.Plan.{Owner, Object, plan_group_kind}

-- ClusterTemplate: the fields of its metadata that are read.
pub record ClusterTemplate : Type 0 where
  pub name : String
  pub namespace : String
  pub labels : Map String String
  pub owner_references : List Owner
  pub is_deleting : Bool

instance abbrev pub cluster_template_object : Object ClusterTemplate
cluster_template_object = record {
  namespace_of = λ t. t.namespace;
  name_of = λ t. t.name;
  owners_of = λ t. t.owner_references;
}

-- The reads of the client: namespaces by selector, ClusterTemplates of a namespace, and those
-- with the label that marks managed copies.
pub record AccessClient (S : Type 0) : Type 0 where
  pub list_namespaces : Selection S → Listed String
  pub list_in_namespace : String → Listed ClusterTemplate
  pub list_managed : Listed ClusterTemplate

-- Appends the kinds that are not there yet.
abbrev pub add_group_kinds : List ResourceRule → List GroupKind → List GroupKind
add_group_kinds [] gks = gks
add_group_kinds (res ∷ resources) gks =
    add_group_kinds resources
      (if any (λ gk. gk_beq gk (group_kind res)) gks then gks else gks ++ (group_kind res ∷ []))

abbrev pub rules_group_kinds : List AccessRule → List GroupKind → List GroupKind
rules_group_kinds [] gks = gks
rules_group_kinds (rule ∷ rules) gks =
    rules_group_kinds rules (add_group_kinds (effective_resources rule) gks)

unfoldable pub referenced_group_kinds : AccessManagement → List GroupKind
referenced_group_kinds am = rules_group_kinds am.access_rules []

unfoldable pub tracks_group_kind : AccessManagement → GroupKind → Bool
unfolding referenced_group_kinds
tracks_group_kind am gk =
    any (λ g. gk_beq g gk) (referenced_group_kinds am)
    || any (λ (s : ResourceKindStatus). s.api_group == gk.group && s.kind == gk.kind) am.resources

abbrev pub cluster_template_gk : GroupKind
cluster_template_gk = record { group = api_group; kind = "ClusterTemplate" }

abbrev pub listed : {A : Type 0} → Listed A → Resolved (List A)
listed (items xs) = ok xs
listed (list_failed e) = error e

-- The templates of the system namespace by name, with their labels.
abbrev pub label_index : List ClusterTemplate → Map String (Map String String)
label_index templates =
    index_by (λ (t : ClusterTemplate). t.name) (λ (t : ClusterTemplate). t.labels) templates []

-- The managed copies that are looked at.
abbrev pub is_copy : String → ClusterTemplate → Bool
is_copy system_namespace t = not (t.namespace == system_namespace) && not t.is_deleting

unfoldable pub cluster_templates_to_remove :
    {S : Type 0} (lib : Selectors S) (group_of : String → Resolved String) (c : AccessClient S)
    (system_namespace : String)
    → AccessManagement
    → Resolved (List ClusterTemplate)
unfolding tracks_group_kind
cluster_templates_to_remove lib group_of c system_namespace am =
    let work : Resolved (List ClusterTemplate) = do
      rules ← resolve_rules lib c.list_namespaces system_namespace am.access_rules
      templates ← listed (c.list_in_namespace system_namespace)
      managed ← listed c.list_managed
      plan ←
          plan_group_kind group_of am.name lib rules cluster_template_gk (label_index templates)
            (filter_by (is_copy system_namespace) managed)
      ok plan.remove
    in if tracks_group_kind am cluster_template_gk then work else ok []
