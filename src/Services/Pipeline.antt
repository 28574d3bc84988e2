-- ===== src/Services/Pipeline.antt =====
-- From an owner to its ServiceSet and what to do with it: `ResolveServicesToApply` and
-- `GetServiceSetWithOperation` of internal/serviceset/util.go. What the API server and the libraries
-- do is the section's parameter. `ResolveServiceVersions` fills the stored services in place, so the
-- ServiceSet that later steps see, and that is compared with the new spec, has their versions.
use kcm.Prelude.{
  Resolved, ok, error, ◌>>=◌, Bool, true, false, ◌&&◌, List, [], ◌∷◌, Option, none, some, String,
  if◌then◌else◌, ObjectKey,
}
use kcm.Api.{
  Service, ServiceWithValues, ServiceSet, ServiceSetSpec, ServiceSetOperation, ServiceSpec,
  LegacyConfig, LabelSelector, Requirement, StateManagementProvider, Client, found, not_found,
  failed,
}
use kcm.Services.Versions.{fill_service_versions, fill_service_with_value_versions}
use kcm.Services.Upgrades.{services_with_desired_chains, services_upgrade_paths}
use kcm.Services.Filter.{Filtered, eligible, absent, out_of_fuel, filter_service_dependencies}
use kcm.Services.Deploy.{services_to_deploy}
use kcm.Services.Order.{build_services_list}
use kcm.Services.Fetch.{fetch_service_set, empty_service_set}
use kcm.Services.Builder.{Owners, provider_config, build}

-- OperationRequisites
pub record OperationRequisites : Type 0 where
  pub object_key : ObjectKey
  pub owners : Owners
  pub system_namespace : String

-- The eligible services, or the error.
abbrev eligible_services : Filtered → Resolved (List Service)
eligible_services (eligible services) = ok services
eligible_services (absent svc dep) =
    error "a dependency is not present in the desired services list"
eligible_services out_of_fuel = error ""

-- The ServiceSet is fetched within the filter, after the check for absent dependencies, whose error
-- comes first.
abbrev filtered_services : List Service → Resolved ServiceSet → Resolved (List Service)
filtered_services desired (ok set) = eligible_services (filter_service_dependencies set desired)
filtered_services desired (error e) = elim (filter_service_dependencies empty_service_set desired) [
  | absent svc dep ↦ eligible_services (absent svc dep)
  | _ ↦ error e
]

-- The joined errors of `ServicesUpgradePaths`.
abbrev no_errors : {A : Type 0} → A × List ObjectKey → Resolved A
no_errors (a, []) = ok a
no_errors (a, e ∷ es) = error "failed to determine upgrade paths"

abbrev with_services : ServiceSet → List ServiceWithValues → ServiceSet
with_services set services = record set { spec = record (set.spec) { services = services } }

-- What the libraries do: semantic versions, JSON, label selectors, and the semantic comparison of
-- two specs.
pub record Libraries : Type 1 where
  pub Version : Type 0
  pub parse_version : String → Option Version
  pub less_than : Version → Version → Bool
  pub marshal : LegacyConfig → Resolved String
  pub requirements : LabelSelector → Resolved (List Requirement)
  pub deep_equal : ServiceSetSpec → ServiceSetSpec → Bool

module _ (libs : Libraries) (c : Client) where
  -- The services to apply, and the ServiceSet with the versions of its services filled in.
  unfoldable pub resolve_services_to_apply :
      String → Owners → List Service → ServiceSet → Resolved (List ServiceWithValues × ServiceSet)
  resolve_services_to_apply system_namespace owners desired set = do
    resolved ← fill_service_versions c set.namespace desired
    filtered ← filtered_services resolved (
        fetch_service_set c system_namespace owners.multi_cluster_service owners.cluster_deployment)
    stored ← fill_service_with_value_versions c set.namespace set.spec.services
    paths ←
        no_errors
          (services_upgrade_paths c (services_with_desired_chains resolved stored) set.namespace)
    targets ← fill_service_with_value_versions c set.namespace (
        services_to_deploy libs.parse_version libs.less_than paths filtered
          (with_services set stored))
    ok (targets, with_services set stored)

  -- The services and their spec come from the MultiClusterService where there is one.
  abbrev owner_spec : Owners → Resolved ServiceSpec
  owner_spec owners = elim owners.multi_cluster_service [
    | some mcs ↦ ok mcs.service_spec
    | none ↦ elim owners.cluster_deployment [
      | some cd ↦ ok cd.service_spec
      | none ↦ error "nil pointer dereference"
    ]
  ]

  abbrev get_provider : String → Resolved StateManagementProvider
  get_provider name = elim (c.get_state_management_provider name) [
    | found p ↦ ok p
    | not_found ↦ error name
    | failed e ↦ error e
  ]

  -- The stored ServiceSet, or a new one and the operation that makes it.
  abbrev pub get_or_new : ObjectKey → Resolved (ServiceSet × ServiceSetOperation)
  get_or_new key = elim (c.get_service_set key) [
    | found set ↦ ok (set, ServiceSetOperation.update)
    | not_found ↦ ok (
      record empty_service_set { name = key.name; namespace = key.namespace },
      ServiceSetOperation.create,
    )
    | failed e ↦ error e
  ]

  abbrev is_update : ServiceSetOperation → Bool
  is_update ServiceSetOperation.update = true
  is_update op = false

  -- The last step: nothing is done where an update would change nothing.
  unfoldable pub decide_operation :
      ServiceSet → ServiceSet → ServiceSetOperation → ServiceSet × ServiceSetOperation
  decide_operation existing candidate op =
      if is_update op && libs.deep_equal existing.spec candidate.spec
      then (candidate, ServiceSetOperation.none)
      else (candidate, op)

  unfoldable pub get_service_set_with_operation :
      OperationRequisites → Resolved (ServiceSet × ServiceSetOperation)
  unfolding resolve_services_to_apply decide_operation
  get_service_set_with_operation req = do
    spec ← owner_spec req.owners
    config ← provider_config libs.marshal spec
    provider ← get_provider config.name
    (set, op) ← get_or_new req.object_key
    (targets, filled) ← resolve_services_to_apply req.system_namespace req.owners spec.services set
    let result = build_services_list filled.spec.services targets spec.services
    candidate ← build libs.marshal libs.requirements req.owners filled provider.selector result
    ok (decide_operation filled candidate op)
