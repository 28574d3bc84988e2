-- ===== src/Api/Sets.antt =====
-- ServiceSets, api/v1beta1/serviceset_types.go.
use kcm.Prelude.{Bool, List, Option, String, Map}
use kcm.Api.Services.{HelmOptions, ValuesFrom}

pub record ServiceWithValues : Type 0 where
  pub helm_options : HelmOptions
  pub version : String
  pub helm_action : String
  pub name : String
  pub namespace : String
  pub template : String
  pub values : String
  pub values_from : List ValuesFrom

pub record StateManagementProviderConfig : Type 0 where
  pub config : Option String
  pub name : String
  pub self_management : Bool

-- The state of one service; the times and the conditions are left out.
pub record ServiceState : Type 0 where
  pub version : String
  pub type : String
  pub name : String
  pub namespace : String
  pub template : String
  pub state : String
  pub failure_message : String
  pub last_deployed_hash : String

pub record ServiceSetSpec : Type 0 where
  pub cluster : String
  pub multi_cluster_service : String
  pub provider : StateManagementProviderConfig
  pub services : List ServiceWithValues

pub record ServiceSetStatus : Type 0 where
  pub services : List ServiceState
  pub deployed : Bool

-- The owner reference that `metav1.NewControllerRef` makes of an object.
pub record OwnerReference : Type 0 where
  pub kind : String
  pub name : String

pub record ServiceSet : Type 0 where
  pub name : String
  pub namespace : String
  pub labels : Map String String
  pub owner_references : List OwnerReference
  pub spec : ServiceSetSpec
  pub status : ServiceSetStatus

pub data ServiceSetOperation : Type 0 where
  create update none : ServiceSetOperation

abbrev pub service_state_deployed : String
service_state_deployed = "Deployed"

abbrev pub service_state_failed : String
service_state_failed = "Failed"

abbrev pub service_state_not_deployed : String
service_state_not_deployed = "Pending"

abbrev pub service_state_provisioning : String
service_state_provisioning = "Provisioning"

abbrev pub service_state_deleting : String
service_state_deleting = "Deleting"

abbrev pub service_state_deleted : String
service_state_deleted = "Deleted"
