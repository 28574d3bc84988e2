-- ===== src/Sveltos/State.antt =====
-- The states of services from a ClusterSummary: internal/controller/adapters/sveltos/state.go. The
-- log, the times and the conditions of a state are left out. Lines and the two regular expressions
-- are libraries': `split_lines` is strings.SplitSeq at line ends, and `release_name_in` and
-- `release_namespace_in` are what FindString finds in a line, without the prefix.
use kcm.Prelude.{
  Bool, true, false, not, ◌||◌, List, [], ◌∷◌, Option, none, some, String, if◌then◌else◌, ◌==◌,
  string_eq, key_eq, ObjectKey, Map, lookup, index_by, contains, sort, append_str,
}
use kcm.Api.{
  ServiceWithValues, ServiceState, ServiceSet, service_state_deployed, service_state_failed,
  service_state_not_deployed, service_state_provisioning, service_state_deleting,
  service_state_deleted,
}
use kcm.Services.Order.{key_less}
use kcm.Services.Keys.{service_key, stored_key, state_key}
use kcm.Sveltos.{
  FeatureStatus, FeatureId, FeatureSummary, HelmChartStatus, HelmChartSummary, ClusterSummary,
}
use kcm.Sveltos.FeatureStatus.{
  unset, provisioning, provisioned, failed, failed_non_retriable, removing, agent_removing, removed,
  blocked,
}
use kcm.Sveltos.FeatureId.{resources, helm, kustomize}

abbrev pub feature_status_to_service_state : FeatureStatus → String
feature_status_to_service_state unset = service_state_not_deployed
feature_status_to_service_state provisioning = service_state_provisioning
feature_status_to_service_state provisioned = service_state_deployed
feature_status_to_service_state failed = service_state_failed
feature_status_to_service_state failed_non_retriable = service_state_failed
feature_status_to_service_state removing = service_state_deleting
feature_status_to_service_state agent_removing = service_state_deleting
feature_status_to_service_state removed = service_state_deleted
feature_status_to_service_state blocked = service_state_deleting

abbrev pub same_feature : FeatureId → FeatureId → Bool
same_feature resources resources = true
same_feature helm helm = true
same_feature kustomize kustomize = true
same_feature _ _ = false

abbrev pub is_provisioned : FeatureStatus → Bool
is_provisioned provisioned = true
is_provisioned _ = false

abbrev pub is_provisioning : FeatureStatus → Bool
is_provisioning provisioning = true
is_provisioning _ = false

abbrev pub is_set : String → Bool
is_set s = not (s == "")

-- The first summary of the feature.
abbrev pub find_feature : FeatureId → List FeatureSummary → Option FeatureSummary
find_feature id [] = none
find_feature id (f ∷ features) =
    let rest = find_feature id features in if same_feature f.feature_id id then some f else rest

abbrev pub no_refs : List String → Bool
no_refs [] = true
no_refs (x ∷ xs) = false

-- `featureKustomize` and `featureResources` differ in the feature, the references and the text.
abbrev pub feature_whole :
    (refs : List String) (text : String) → Option FeatureSummary → ServiceState → ServiceState
feature_whole refs text none state =
    if no_refs refs then record state { state = service_state_deployed } else state
feature_whole refs text (some f) state = elim f.failure_message [
  | some message ↦ record state {
    state = service_state_failed;
    failure_message = append_str text message;
  }
  | none ↦
      if is_provisioned f.status then record state { state = service_state_deployed } else state
]

unfoldable pub feature_kustomize : ClusterSummary → ServiceState → ServiceState
feature_kustomize summary state =
    feature_whole summary.kustomization_refs "One or more Kustomizations failed to deploy: "
      (find_feature kustomize summary.feature_summaries) state

unfoldable pub feature_resources : ClusterSummary → ServiceState → ServiceState
feature_resources summary state =
    feature_whole summary.policy_refs "One or more Resources failed to deploy: "
      (find_feature resources summary.feature_summaries) state

-- The message, where a nil pointer or an empty text is none.
abbrev pub message_of : Option String → String
message_of none = ""
message_of (some message) = message

-- The state of a service of a release that is managed, by the status of the whole feature; the
-- tests are that the release has a message, that the hash of its values is set, and that the
-- feature's message names the service.
abbrev pub managed_state :
    (has_message has_hash named : Bool)
    → FeatureStatus
    → (message : String) → ServiceState
    → ServiceState
managed_state true has_hash named status message state = record state {
  state = service_state_failed;
  failure_message = message;
}
managed_state false false named status message state =
    if is_provisioning status
    then record state { state = service_state_provisioning }
    else record state { state = service_state_not_deployed }
managed_state false true named provisioning message state =
    if named then state else record state { state = service_state_provisioning }
managed_state false true named provisioned message state = record state {
  state = service_state_deployed;
}
managed_state false true named failed message state = record state {
  state = service_state_deployed;
}
managed_state false true named failed_non_retriable message state = record state {
  state = service_state_deployed;
}
managed_state false true named _ message state = state

abbrev pub release_key : HelmChartSummary → ObjectKey
release_key r = record { namespace = r.release_namespace; name = r.release_name }

-- The releases by their key; a later one replaces an earlier one.
abbrev pub release_map : List HelmChartSummary → Map ObjectKey HelmChartSummary
release_map releases = index_by release_key (λ r. r) releases []

abbrev pub release_state :
    FeatureStatus → (named : Bool) → Option HelmChartSummary → ServiceState → ServiceState
release_state status named none state = record state { state = service_state_not_deployed }
release_state status named (some r) state = elim r.status [
  | HelmChartStatus.conflict ↦ record state {
    state = service_state_failed;
    failure_message = r.conflict_message;
  }
  | HelmChartStatus.managing ↦
      managed_state (is_set (message_of r.failure_message)) (is_set r.values_hash) named status
        (message_of r.failure_message)
        (record state { state = feature_status_to_service_state status })
]

abbrev pub status_of : Option FeatureSummary → FeatureStatus
status_of none = unset
status_of (some f) = f.status

abbrev pub feature_message : Option FeatureSummary → String
feature_message none = ""
feature_message (some f) = message_of f.failure_message

abbrev pub is_going : FeatureStatus → Bool
is_going status =
    feature_status_to_service_state status == service_state_deleting
    || feature_status_to_service_state status == service_state_deleted

-- The services of the spec by their key.
abbrev pub spec_map : List ServiceWithValues → Map ObjectKey ServiceWithValues
spec_map services = index_by stored_key (λ s. s) services []

module _ (split_lines : String → List String)
    (release_name_in release_namespace_in : String → Option String) where
  -- The keys of the services that the lines name.
  abbrev pub named_services : List String → List ObjectKey
  named_services [] = []
  named_services (line ∷ lines) =
      let rest = named_services lines in
      elim (release_name_in line) [
        | none ↦ rest
        | some name ↦ elim (release_namespace_in line) [
          | none ↦ rest
          | some namespace ↦ service_key namespace name ∷ rest
        ]
      ]

  unfoldable pub unpack_helm_failure_msg : String → List ObjectKey
  unpack_helm_failure_msg msg = named_services (split_lines msg)

  unfoldable pub feature_helm : ClusterSummary → ServiceState → ServiceState
  unfolding unpack_helm_failure_msg
  feature_helm summary state =
      let feature = find_feature helm summary.feature_summaries in
      let status = status_of feature in
      let named = contains (unpack_helm_failure_msg (feature_message feature)) (state_key state) in
      if is_going status
      then record state { state = feature_status_to_service_state status }
      else release_state status named
          (lookup (state_key state) (release_map summary.helm_release_summaries)) state

  -- The new state of a service: its name, namespace and template are those of the spec.
  unfoldable pub rebuilt : ClusterSummary → ServiceWithValues → ServiceState → ServiceState
  unfolding feature_kustomize feature_resources feature_helm
  rebuilt summary spec svc =
      let fresh : ServiceState = record {
        version = "";
        type = svc.type;
        name = spec.name;
        namespace = spec.namespace;
        template = spec.template;
        state = service_state_provisioning;
        failure_message = "";
        last_deployed_hash = svc.last_deployed_hash;
      } in
      let as_kustomize = feature_kustomize summary (record fresh { version = spec.version }) in
      let as_resource = feature_resources summary (record fresh { version = spec.version }) in
      let as_helm = feature_helm summary (record fresh { version = svc.version }) in
      if svc.type == "Kustomize"
      then as_kustomize
      else if svc.type == "Resource"
      then as_resource
      else if svc.type == "Helm"
      then as_helm
      else fresh

  -- The loop over the status: services that the spec lacks are left out.
  abbrev pub collect :
      ClusterSummary → Map ObjectKey ServiceWithValues → List ServiceState → List ServiceState
  collect summary specs [] = []
  collect summary specs (svc ∷ states) =
      let rest = collect summary specs states in
      elim (lookup (state_key svc) specs) [
        | none ↦ rest
        | some spec ↦ rebuilt summary spec svc ∷ rest
      ]

  unfoldable pub services_state_from_summary :
      Option ClusterSummary → Option ServiceSet → List ServiceState
  services_state_from_summary none set = []
  services_state_from_summary (some summary) none = []
  services_state_from_summary (some summary) (some set) =
      sort (λ a b. key_less (state_key a) (state_key b))
        (collect summary (spec_map set.spec.services) set.status.services)
