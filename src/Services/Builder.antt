-- ===== src/Services/Builder.antt =====
-- Builds a ServiceSet: internal/serviceset/builder.go, and `StateManagementProviderConfigFromServiceSpec`
-- of internal/serviceset/util.go. JSON encoding and the parser of label selectors are libraries':
-- parameters. The builder changes the ServiceSet that it was given in place; the model returns it.
use kcm.Prelude.{
  Bool, true, false, List, [], ◌∷◌, Option, none, some, String, if◌then◌else◌, ◌==◌, string_eq, Map,
  insert, has_key, Resolved, ok, error, ◌>>=◌,
}
use kcm.Api.{
  ServiceWithValues, ServiceSet, StateManagementProviderConfig, OwnerReference, ServiceSpec,
  LegacyConfig, ClusterDeployment, MultiClusterService, LabelSelector, Requirement, Operator,
  equals, double_equals, in_set, exists,
}

abbrev pub default_state_management_provider : String
default_state_management_provider = "ksm-projectsveltos"

-- The four cases of the switch on the provider's name and configuration.
unfoldable pub provider_config :
    (marshal : LegacyConfig → Resolved String)
    → ServiceSpec
    → Resolved StateManagementProviderConfig
provider_config marshal spec =
    if spec.provider.name == ""
    then elim spec.provider.config [
      | none ↦ do
        raw ← marshal spec.legacy
        ok (record {
          config = some raw;
          name = default_state_management_provider;
          self_management = spec.provider.self_management;
        })
      | some config ↦ ok (record {
        config = some config;
        name = default_state_management_provider;
        self_management = spec.provider.self_management;
      })
    ]
    else elim spec.provider.config [
      | none ↦ ok (record {
        config = none;
        name = spec.provider.name;
        self_management = spec.provider.self_management;
      })
      | some config ↦ ok spec.provider
    ]

-- maps.Copy
copy_labels : List (String × String) → Map String String → Map String String
copy_labels [] labels = labels
copy_labels ((k, v) ∷ rest) labels = copy_labels rest (insert k v labels)

-- The label that a requirement asks for, by its operator.
abbrev require_label : String → Operator → List String → Map String String → Map String String
require_label key equals (v ∷ []) labels = insert key v labels
require_label key double_equals (v ∷ []) labels = insert key v labels
require_label key in_set (v ∷ vs) labels = insert key v labels
require_label key exists values labels = if has_key key labels then labels else insert key "" labels
require_label key operator values labels = labels

require_labels : List Requirement → Map String String → Map String String
require_labels [] labels = labels
require_labels (r ∷ rs) labels = require_labels rs (require_label r.key r.operator r.values labels)

-- `requirements` are those of the parsed selector.
unfoldable pub extract_required_labels :
    (requirements : LabelSelector → Resolved (List Requirement))
    → Option LabelSelector
    → Resolved (Map String String)
unfolding copy_labels require_labels
extract_required_labels requirements none = error "selector cannot be nil"
extract_required_labels requirements (some selector) = do
  rs ← requirements selector
  ok (require_labels rs (copy_labels selector.match_labels []))

-- The owners that the builder is given. One of them is set.
pub record Owners : Type 0 where
  pub cluster_deployment : Option ClusterDeployment
  pub multi_cluster_service : Option MultiClusterService

-- The ClusterDeployment controls the ServiceSet where there is one.
abbrev pub owner_reference : Owners → List OwnerReference
owner_reference owners = elim owners.cluster_deployment [
  | some cd ↦ record { kind = "ClusterDeployment"; name = cd.name } ∷ []
  | none ↦ elim owners.multi_cluster_service [
    | some mcs ↦ record { kind = "MultiClusterService"; name = mcs.name } ∷ []
    | none ↦ []
  ]
]

-- The configuration of the MultiClusterService replaces that of the ClusterDeployment, with its
-- error.
abbrev owners_config :
    (marshal : LegacyConfig → Resolved String) → Owners → Resolved StateManagementProviderConfig
owners_config marshal owners = elim owners.multi_cluster_service [
  | some mcs ↦ provider_config marshal mcs.service_spec
  | none ↦ elim owners.cluster_deployment [
    | some cd ↦ provider_config marshal cd.service_spec
    | none ↦ ok (record { config = none; name = ""; self_management = false })
  ]
]

abbrev is_absent : {A : Type 0} → Option A → Bool
is_absent none = true
is_absent (some a) = false

unfoldable pub build :
    (marshal : LegacyConfig → Resolved String)
    → (requirements : LabelSelector → Resolved (List Requirement)) → Owners
    → ServiceSet
    → Option LabelSelector
    → List ServiceWithValues
    → Resolved ServiceSet
unfolding extract_required_labels provider_config
build marshal requirements owners set selector services = do
  labels ← extract_required_labels requirements selector
  config ← owners_config marshal owners
  ok (record set {
    owner_references = owner_reference owners;
    labels = copy_labels labels set.labels;
    spec = record {
      cluster = elim owners.cluster_deployment [ some cd ↦ cd.name | none ↦ "" ];
      multi_cluster_service = elim owners.multi_cluster_service [ some mcs ↦ mcs.name | none ↦ "" ];
      provider = record config { self_management = is_absent owners.cluster_deployment };
      services = services;
    };
  })
