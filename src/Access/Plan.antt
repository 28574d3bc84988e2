-- ===== src/Access/Plan.antt =====
-- What reconciling an AccessManagement does to the copies of one kind: `PlanGroupKind` and
-- `desiredTargets`, internal/util/accessmanagement/accessmanagement.go.
use kcm.Prelude.{
  Bool, false, not, ◌&&◌, List, [], ◌∷◌, ◌++◌, map, String, if◌then◌else◌, ◌==◌, string_eq, key_eq,
  ObjectKey, Map, contains, any, append_str, Resolved, ok, error, ◌>>=◌,
}
use kcm.Access.{ResourceRule, GroupKind, gk_beq, group_kind, api_group}
use kcm.Access.Resolve.{Selectors, Rule, resolve_names}

-- metav1.OwnerReference
pub record Owner : Type 0 where
  pub api_version : String
  pub kind : String
  pub name : String

-- What is read of an object, metav1.Object.
pub record Object (M : Type 0) : Type 0 where
  pub namespace_of : M → String
  pub name_of : M → String
  pub owners_of : M → List Owner

-- Target: the object `name` of the system namespace, into `namespace`.
abbrev pub Target : Type 0
Target = ObjectKey

pub record Plan (M : Type 0) : Type 0 where
  pub desired : List Target
  pub remove : List M
  pub release : List M

unfoldable pub namespaced_name : (namespace name : String) → String
namespaced_name namespace name = append_str namespace (append_str "/" name)

-- The targets found so far, in order, and as a set.
pub record Found : Type 0 where
  pub desired : List Target
  pub seen : List Target

abbrev pub add_desired : Target → Found → Found
add_desired target found =
    if contains found.seen target
    then found
    else record { desired = found.desired ++ (target ∷ []); seen = target ∷ found.seen }

abbrev pub add_target_names : String → List String → Found → Found
add_target_names namespace [] found = found
add_target_names namespace (name ∷ names) found =
    add_target_names namespace names
      (add_desired (record { namespace = namespace; name = name }) found)

abbrev pub add_namespaces : List String → List String → Found → Found
add_namespaces [] names found = found
add_namespaces (namespace ∷ namespaces) names found =
    add_namespaces namespaces names (add_target_names namespace names found)

module _ {S : Type 0} (lib : Selectors S) (gk : GroupKind)
    (system : Map String (Map String String)) where
  abbrev pub add_resources : List String → List ResourceRule → Found → Resolved Found
  add_resources namespaces [] found = ok found
  add_resources namespaces (res ∷ resources) found =
      let skip = add_resources namespaces resources found in
      let take : Resolved Found = do
        names ← resolve_names lib res system
        add_resources namespaces resources (add_namespaces namespaces names found)
      in if gk_beq (group_kind res) gk then take else skip

  abbrev pub add_rules : List Rule → Found → Resolved Found
  add_rules [] found = ok found
  add_rules (rule ∷ rules) found = do
    more ← add_resources rule.namespaces rule.resources found
    add_rules rules more

  unfoldable pub desired_targets : List Rule → Resolved (List Target)
  desired_targets rules = do
    found ← add_rules rules (record { desired = []; seen = [] })
    ok found.desired

-- `group_of` is schema.ParseGroupVersion: the group of an API version.
module _ (group_of : String → Resolved String) (access_management : String) where
  unfoldable pub is_access_management_owner_reference : Owner → Bool
  is_access_management_owner_reference ref = elim (group_of ref.api_version) [
    | error e ↦ false
    | ok group ↦
        group == api_group && (ref.kind == "AccessManagement" && ref.name == access_management)
  ]

  unfoldable pub has_foreign_owner_reference : List Owner → Bool
  has_foreign_owner_reference refs =
      any (λ ref. not (is_access_management_owner_reference ref)) refs

  module _ {M : Type 0} ⦃o : Object M⦄ where
    -- The loop over the managed copies.
    abbrev pub sort_out : (keep : List String) → List M → Plan M → Plan M
    sort_out keep [] plan = plan
    sort_out keep (obj ∷ managed) plan =
        let kept = sort_out keep managed plan in
        let released =
          sort_out keep managed (record plan { release = plan.release ++ (obj ∷ []) }) in
        let removed = sort_out keep managed (record plan { remove = plan.remove ++ (obj ∷ []) }) in
        if contains keep (namespaced_name (o.namespace_of obj) (o.name_of obj))
        then kept
        else if has_foreign_owner_reference (o.owners_of obj)
        then released
        else removed

    unfoldable pub plan_group_kind :
        {S : Type 0}
        → Selectors S
        → List Rule
        → GroupKind
        → Map String (Map String String)
        → List M
        → Resolved (Plan M)
    unfolding desired_targets
    plan_group_kind lib rules gk system managed = do
      desired ← desired_targets lib gk system rules
      ok (
          sort_out (map (λ (t : Target). namespaced_name t.namespace t.name) desired) managed
            (record { desired = desired; remove = []; release = [] }))
