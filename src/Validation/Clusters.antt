-- ===== src/Validation/Clusters.antt =====
-- Admission of ClusterDeployments: the Kubernetes versions that services accept,
-- internal/util/validation/cluster_template.go (ClusterTemplateK8sCompatibility,
-- ServiceTemplatesK8sCompatibility), and the credentials and deletions of cd.go
-- (ClusterDeployCredential, ClusterDeploymentDeletionAllowed). Semantic versions are a library's;
-- the clients of the clusters are functions. The texts of errors are left out.
pub mod Compatible
pub mod Credentials
use text.Mathlib.Text.{starts_with}
use kcm.Prelude.{
  Bool, true, false, not, ◌&&◌, List, [], ◌∷◌, map, Option, none, some, String, if◌then◌else◌, ◌==◌,
  string_eq, key_eq, ObjectKey, any, filter_by, contains, append_str, Resolved, ok, error,
}
use kcm.Api.{Service, Fetched, found, not_found, failed, Listed, items, list_failed}

-- github.com/Masterminds/semver
pub record Semver (V C : Type 0) : Type 0 where
  pub new_version : String → Resolved V
  pub new_constraint : String → Resolved C
  pub check : C → V → Bool

-- An error that waiting may cure, or a violation by a template, ErrK8sConstraintViolated.
pub data K8sError : Type 0 where
  unread : (cause : String) → K8sError
  violated : (template : String) → K8sError

-- The templates of the services that are not disabled.
abbrev pub enabled_templates : List Service → List String
enabled_templates services =
    map (λ (s : Service). s.template) (filter_by (λ (s : Service). not s.disable) services)

module _ {V C : Type 0} (semver : Semver V C) (get_constraint : ObjectKey → Fetched String)
    (namespace : String) where
  -- The checks on a template once its constraint is read.
  abbrev pub check_constraint : V → (template constraint : String) → Option K8sError
  check_constraint version template constraint = elim (semver.new_constraint constraint) [
    | error e ↦ some (unread e)
    | ok c ↦ if semver.check c version then none else some (violated template)
  ]

  abbrev pub check_template : V → String → Option K8sError
  check_template version template =
      elim (get_constraint (record { namespace = namespace; name = template })) [
        | not_found ↦ some (unread template)
        | failed e ↦ some (unread e)
        | found constraint ↦
            if constraint == "" then none else check_constraint version template constraint
      ]

  abbrev pub check_templates : V → List String → Option K8sError
  check_templates version [] = none
  check_templates version (t ∷ templates) =
      let rest = check_templates version templates in
      elim (check_template version t) [ some e ↦ some e | none ↦ rest ]

  unfoldable pub service_templates_k8s_compatibility :
      (k8s_version : String) (templates : List String) → Option K8sError
  service_templates_k8s_compatibility k8s_version [] = none
  service_templates_k8s_compatibility k8s_version (t ∷ templates) =
      if k8s_version == "" then none else elim (semver.new_version k8s_version) [
        | error e ↦ some (unread e)
        | ok version ↦ check_templates version (t ∷ templates)
      ]

  unfoldable pub cluster_template_k8s_compatibility :
      (k8s_version : String) → List Service → Option K8sError
  unfolding service_templates_k8s_compatibility
  cluster_template_k8s_compatibility k8s_version services =
      service_templates_k8s_compatibility k8s_version (enabled_templates services)

-- The fields of a Credential that are read.
pub record Credential : Type 0 where
  pub ready : Bool
  pub identity_kind : Option String
  pub region : String

-- A provider interface: the kinds of its cluster identities, and those of the deprecated field.
pub record ProviderInterface : Type 0 where
  pub cluster_identities : List String
  pub cluster_identity_kinds : List String

pub data CredentialError : Type 0 where
  no_providers no_infrastructure not_ready no_identity : CredentialError
  unread_credential : (cause : String) → CredentialError
  unsupported_provider : (provider : String) → CredentialError
  unsupported_kind : (provider : String) → CredentialError

abbrev pub infrastructure_provider_prefix : String
infrastructure_provider_prefix = "infrastructure-"

abbrev pub is_infrastructure : String → Bool
is_infrastructure provider = starts_with provider infrastructure_provider_prefix

abbrev pub has_kinds : List String → Bool
has_kinds [] = false
has_kinds (k ∷ kinds) = true

-- `find` is FindProviderInterfaceForInfra in the region and the parent of the credential.
abbrev pub get_provider_cluster_identity_kinds : Option ProviderInterface → List String
get_provider_cluster_identity_kinds none = []
get_provider_cluster_identity_kinds (some pi) =
    if has_kinds pi.cluster_identities then pi.cluster_identities else pi.cluster_identity_kinds

module _ (find : String → Option ProviderInterface) where
  -- One infrastructure provider.
  abbrev pub check_provider : (kind provider : String) → Option CredentialError
  check_provider kind provider =
      let kinds = get_provider_cluster_identity_kinds (find provider) in
      if provider == append_str infrastructure_provider_prefix "internal"
      then if kind == "Secret" then none else some (unsupported_kind provider)
      else if not (has_kinds kinds)
      then some (unsupported_provider provider)
      else if contains kinds kind
      then none
      else some (unsupported_kind provider)

  abbrev pub check_providers : (kind : String) → List String → Option CredentialError
  check_providers kind [] = none
  check_providers kind (p ∷ providers) =
      let rest = check_providers kind providers in
      if not (is_infrastructure p)
      then rest
      else elim (check_provider kind p) [ some e ↦ some e | none ↦ rest ]

-- `scope_of` gives the provider interfaces for a credential's region and parent, or the error.
module _ (get_credential : Fetched Credential)
    (scope_of : Credential → Resolved (String → Option ProviderInterface)) where
  abbrev pub is_cred_identity_supports_cluster_template :
      Credential → (kind : String) → List String → Option CredentialError
  is_cred_identity_supports_cluster_template cred kind providers = elim (scope_of cred) [
    | error e ↦ some (unread_credential e)
    | ok find ↦ check_providers find kind providers
  ]

  unfoldable pub cluster_deploy_credential : (providers : List String) → Option CredentialError
  cluster_deploy_credential [] = some no_providers
  cluster_deploy_credential (p ∷ providers) =
      if not (any is_infrastructure (p ∷ providers))
      then some no_infrastructure
      else elim get_credential [
        | not_found ↦ some (unread_credential "not found")
        | failed e ↦ some (unread_credential e)
        | found cred ↦ if not cred.ready then some not_ready else elim cred.identity_kind [
          | none ↦ some no_identity
          | some kind ↦ is_cred_identity_supports_cluster_template cred kind (p ∷ providers)
        ]
      ]

-- A Region and the ClusterDeployment that it stands on.
pub record Region : Type 0 where
  pub name : String
  pub cluster_deployment : Option ObjectKey

abbrev pub stands_on : ObjectKey → Region → Bool
stands_on cld region = elim region.cluster_deployment [ none ↦ false | some key ↦ key == cld ]

-- The first Region that refers to the ClusterDeployment.
abbrev pub referring : ObjectKey → List Region → Option String
referring cld [] = none
referring cld (r ∷ regions) =
    let rest = referring cld regions in if stands_on cld r then some r.name else rest

-- No error, or the Region or the failure that forbids the deletion.
unfoldable pub cluster_deployment_deletion_allowed : Listed Region → ObjectKey → Option String
cluster_deployment_deletion_allowed (list_failed e) cld = some e
cluster_deployment_deletion_allowed (items regions) cld = referring cld regions
