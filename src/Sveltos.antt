-- ===== src/Sveltos.antt =====
-- The adapter for Sveltos, internal/controller/adapters/sveltos: what is read of Sveltos's
-- ClusterSummary (a type of that library, with the fields that state.go uses), how it becomes the
-- states of services, and the rules on the health of resources.
pub mod State
pub mod Deployed
pub mod Kept
pub mod Rules
pub mod Tiers
pub mod Cached
pub mod Compilation
use kcm.Prelude.{List, Option, String}

-- libsveltosv1beta1.FeatureStatus, where `unset` is its zero value.
pub data FeatureStatus : Type 0 where
  unset provisioning provisioned failed failed_non_retriable removing agent_removing removed
        blocked :
      FeatureStatus

-- libsveltosv1beta1.FeatureID
pub data FeatureId : Type 0 where
  resources helm kustomize : FeatureId

pub record FeatureSummary : Type 0 where
  pub feature_id : FeatureId
  pub status : FeatureStatus
  pub failure_message : Option String

-- addoncontrollerv1beta1.HelmChartStatus
pub data HelmChartStatus : Type 0 where
  managing conflict : HelmChartStatus

pub record HelmChartSummary : Type 0 where
  pub release_name : String
  pub release_namespace : String
  pub status : HelmChartStatus
  pub conflict_message : String
  pub values_hash : String
  pub failure_message : Option String

-- addoncontrollerv1beta1.ClusterSummary: the counted references and the status.
pub record ClusterSummary : Type 0 where
  pub kustomization_refs : List String
  pub policy_refs : List String
  pub feature_summaries : List FeatureSummary
  pub helm_release_summaries : List HelmChartSummary
