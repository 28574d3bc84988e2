-- ===== src/Services/Keys.antt =====
-- Keys, versions and deployment states of services, the end of internal/serviceset/util.go.
pub mod Confirmed
use kcm.Prelude.{
  Bool, true, false, ◌&&◌, ◌||◌, not, List, [], ◌∷◌, Option, none, some, String, if◌then◌else◌, all,
  ObjectKey, ◌==◌, string_eq, key_eq, Map, lookup, insert, get_or,
}
use kcm.Api.{
  Service, ServiceDependsOn, ServiceWithValues, ServiceState, ServiceSet, service_state_deployed,
}

-- metav1.NamespaceDefault where the namespace is empty.
unfoldable pub effective_namespace : String → String
effective_namespace namespace = if namespace == "" then "default" else namespace

unfoldable pub service_key : String → String → ObjectKey
unfolding effective_namespace
service_key namespace name = record { namespace = effective_namespace namespace; name = name }

-- The key of a service, of a dependency, of a stored service and of a service's state.
abbrev pub key_of : Service → ObjectKey
key_of s = service_key s.namespace s.name

abbrev pub dependency_key : ServiceDependsOn → ObjectKey
dependency_key d = service_key d.namespace d.name

abbrev pub stored_key : ServiceWithValues → ObjectKey
stored_key s = service_key s.namespace s.name

abbrev pub state_key : ServiceState → ObjectKey
state_key s = service_key s.namespace s.name

unfoldable pub service_version : String → String → String
service_version version template = if version == "" then template else version

unfoldable pub at_desired_version : (state status spec desired : String) → Bool
at_desired_version state status spec desired =
    state == service_state_deployed && status == spec && spec == desired

-- The loop of `DeployedVersions`.
record_versions : List ServiceState → Map ObjectKey String → Map ObjectKey String
record_versions [] versions = versions
record_versions (state ∷ states) versions = record_versions states (
    if not (state.state == service_state_deployed) || state.version == ""
    then versions
    else insert (state_key state) state.version versions)

unfoldable pub deployed_versions : ServiceSet → Map ObjectKey String
unfolding record_versions
deployed_versions set = record_versions set.status.services []

-- The loop of `FullyDeployed`: an entry that is missing reads as "".
abbrev pub confirmed : Map ObjectKey String → ServiceWithValues → Bool
confirmed deployed svc = svc.version == "" || get_or (stored_key svc) deployed "" == svc.version

unfoldable pub fully_deployed : ServiceSet → Bool
unfolding deployed_versions
fully_deployed set =
    if not set.status.deployed
    then false
    else all (confirmed (deployed_versions set)) set.spec.services
