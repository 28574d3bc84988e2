-- ===== src/Api/Cluster.antt =====
-- The owners of services, and what the code reads through the client of the API server:
-- api/v1beta1/multiclusterservice_types.go, clusterdeployment_types.go,
-- statemanagementprovider_types.go.
use kcm.Prelude.{Bool, ℕ, List, Option, String, ObjectKey}
use kcm.Api.Services.{Service, ServiceTemplate, ServiceTemplateChain}
use kcm.Api.Sets.{StateManagementProviderConfig, ServiceSet}

-- The deprecated fields of ServiceSpec, which configure the default provider.
pub record LegacyConfig : Type 0 where
  pub sync_mode : String
  pub template_resource_refs : List String
  pub policy_refs : List String
  pub drift_ignore : List String
  pub drift_exclusions : List String
  pub priority : ℕ
  pub stop_on_conflict : Bool
  pub reload : Bool
  pub continue_on_error : Bool

pub record ServiceSpec : Type 0 where
  pub provider : StateManagementProviderConfig
  pub services : List Service
  pub legacy : LegacyConfig

pub record ClusterDeployment : Type 0 where
  pub name : String
  pub namespace : String
  pub service_spec : ServiceSpec

pub record MultiClusterService : Type 0 where
  pub name : String
  pub depends_on : List String
  pub service_spec : ServiceSpec

-- The operators of a label requirement, k8s.io/apimachinery/pkg/selection.
pub data Operator : Type 0 where
  equals double_equals not_equals in_set not_in exists does_not_exist greater_than less_than :
      Operator

-- One requirement of a parsed selector; the values are sorted.
pub record Requirement : Type 0 where
  pub key : String
  pub operator : Operator
  pub values : List String

pub record LabelSelector : Type 0 where
  pub match_labels : List (String × String)
  pub match_expressions : List Requirement

pub record StateManagementProvider : Type 0 where
  pub selector : Option LabelSelector

-- The answer of the API server to a Get.
pub data Fetched (A : Type 0) : Type 0 where
  found : A → Fetched A
  not_found : Fetched A
  failed : String → Fetched A

-- The answer to a List.
pub data Listed (A : Type 0) : Type 0 where
  items : List A → Listed A
  list_failed : String → Listed A

-- The reads of client.Client. A list of ServiceSets is selected by the namespace and by the
-- indexed fields for the cluster and the MultiClusterService, where `none` does not select.
pub record Client : Type 0 where
  pub get_service_template : ObjectKey → Fetched ServiceTemplate
  pub get_service_template_chain : ObjectKey → Fetched ServiceTemplateChain
  pub get_state_management_provider : String → Fetched StateManagementProvider
  pub get_service_set : ObjectKey → Fetched ServiceSet
  pub list_service_sets : (namespace : String) (cluster mcs : Option String) → Listed ServiceSet
