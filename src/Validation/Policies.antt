-- ===== src/Validation/Policies.antt =====
-- RBAC policies: `ValidateRBACPolicy`, internal/util/validation/rbacpolicy.go.
-- `is_subdomain` is apivalidation.IsDNS1123Subdomain, which returns what is wrong with a name. A
-- rule of a ClusterRole is kept in its serialised form.
pub mod Unique
use kcm.Prelude.{
  ◌≡◌, ◌↔◌, arith, Bool, true, false, not, ◌&&◌, List, [], ◌∷◌, Option, none, some, String,
  if◌then◌else◌, ◌==◌, string_eq, Eq, contains, append_str,
}

pub record RbacPolicySubject : Type 0 where
  pub kind : String
  pub name : String

pub record RbacPolicyBinding : Type 0 where
  pub name : String
  pub cluster_role : String
  pub rules : List String
  pub subjects : List RbacPolicySubject

-- The error, with what it names.
pub data PolicyError : Type 0 where
  duplicate_name : (binding : String) → PolicyError
  invalid_name : (binding : String) → PolicyError
  duplicate_subject : (binding : String) → PolicyError
  invalid_role : (role : String) → PolicyError
  shared_role : (role : String) → PolicyError

unfoldable pub subject_beq : RbacPolicySubject → RbacPolicySubject → Bool
subject_beq a b = a.kind == b.kind && a.name == b.name

pub subject_beq_iff : (a b : RbacPolicySubject) → (subject_beq a b ≡ true) ↔ (a ≡ b)
unfolding subject_beq
subject_beq_iff a b = (
  ground (arith, string_eq.beq_iff a.kind b.kind, string_eq.beq_iff a.name b.name),
  λ p. ground (arith, string_eq.beq_iff a.kind b.kind, string_eq.beq_iff a.name b.name),
)

instance abbrev pub subject_eq : Eq RbacPolicySubject
subject_eq = record { beq = subject_beq; beq_iff = subject_beq_iff }

abbrev pub has_any : List String → Bool
has_any [] = false
has_any (x ∷ xs) = true

-- The loop over the subjects, with those seen.
abbrev pub repeats : List RbacPolicySubject → List RbacPolicySubject → Bool
repeats seen [] = false
repeats seen (s ∷ subjects) =
    let rest = repeats (s ∷ seen) subjects in if contains seen s then true else rest

abbrev pub cluster_role_binding_name_prefix : String
cluster_role_binding_name_prefix = "k0rdent-"

module _ (is_subdomain : String → List String) where
  -- The loop over the bindings, with the names and the roles with rules that were seen.
  abbrev pub validate_bindings :
      (names roles_with_rules : List String) → List RbacPolicyBinding → Option PolicyError
  validate_bindings names roles [] = none
  validate_bindings names roles (b ∷ bindings) =
      let without_rules = validate_bindings (b.name ∷ names) roles bindings in
      let with_rules = validate_bindings (b.name ∷ names) (b.cluster_role ∷ roles) bindings in
      if contains names b.name
      then some (duplicate_name b.name)
      else if has_any (is_subdomain (append_str cluster_role_binding_name_prefix b.name))
      then some (invalid_name b.name)
      else if repeats [] b.subjects
      then some (duplicate_subject b.name)
      else if not (has_any b.rules)
      then without_rules
      else if has_any (is_subdomain b.cluster_role)
      then some (invalid_role b.cluster_role)
      else if contains roles b.cluster_role
      then some (shared_role b.cluster_role)
      else with_rules

  unfoldable pub validate_rbac_policy : List RbacPolicyBinding → Option PolicyError
  validate_rbac_policy bindings = validate_bindings [] [] bindings
