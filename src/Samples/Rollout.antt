-- ===== src/Samples/Rollout.antt =====
-- The Sveltos adapter at a concrete ClusterSummary, and at concrete health rules.
use mathlib.Core.List.Memᴰ
use kcm.Prelude.{
  inl, inr, subst, sym, key_beq, ℕ, ◌≡◌, ◌↔◌, refl, Bool, true, false, List, [], ◌∷◌, Memᴰ, Option,
  none, some, String, if◌then◌else◌, ◌==◌, string_eq, key_eq, ObjectKey, Resolved, ok, error,
  index_by,
}
use kcm.Api.{
  ServiceWithValues, ServiceState, service_state_deployed, service_state_failed, Listed, items,
}
use kcm.Services.Keys.{service_key, effective_namespace}
use kcm.Sveltos.{HelmChartStatus, HelmChartSummary, ClusterSummary}
use kcm.Sveltos.FeatureStatus.{failed}
use kcm.Sveltos.FeatureId.{helm}
use kcm.Sveltos.State.{feature_helm, is_going, services_state_from_summary}
use kcm.Sveltos.Deployed.{
  is_confirmed, is_failing, reason, helm_status, release_of, feature_helm-deployed_iff,
  feature_helm-failed_iff,
}
use kcm.Sveltos.Kept.{Matches, Carried, services_state-Kept}
use kcm.Sveltos.Rules.{
  group_kind_eq, RuleDoc, Env, ConfigMap, RuleCache, rules_from_docs, RuleCacheEntry, load_rules,
  compile_doc, compile_expr, config_map_key,
}
use kcm.Sveltos.Tiers.{rules_from_config_maps}
use kcm.Sveltos.Cached.{World, Coherent, rules_from_config_maps-transparent}
use kcm.Samples.{half_deployed, deployed_state}

-- Splits nothing, and finds nothing in a line.
abbrev lines : String → List String
lines text = text ∷ []

abbrev no_match : String → Option String
no_match line = none

abbrev release : String → String → Option String → HelmChartSummary
release name hash message = record {
  release_name = name;
  release_namespace = "apps";
  status = HelmChartStatus.managing;
  conflict_message = "";
  values_hash = hash;
  failure_message = message;
}

-- One of two releases failed, and with it the Helm feature.
abbrev summary : ClusterSummary
summary = record {
  kustomization_refs = [];
  policy_refs = [];
  feature_summaries =
      (record { feature_id = helm; status = failed; failure_message = some "web: timeout" }) ∷ [];
  helm_release_summaries = release "db" "h" none ∷ release "web" "" (some "timeout") ∷ [];
}

-- The other one is deployed all the same.
feature_helm-deployed_iff_example :
    ((feature_helm lines no_match no_match summary (deployed_state "db")).state
      ≡ service_state_deployed)
    ↔ ((r : HelmChartSummary) × (release_of lines no_match no_match summary (deployed_state "db")
          ≡ some r)
        × (is_confirmed (helm_status lines no_match no_match summary (deployed_state "db")) r
            ≡ true))
feature_helm-deployed_iff_example =
    feature_helm-deployed_iff lines no_match no_match summary (deployed_state "db")

feature_helm_test :
    ((feature_helm lines no_match no_match summary (deployed_state "db")).state ≡ "Deployed")
    × ((feature_helm lines no_match no_match summary (deployed_state "web")).failure_message
        ≡ "timeout")
unfolding feature_helm service_key effective_namespace index_by key_beq
feature_helm_test = (refl, refl)

feature_helm-failed_iff_example :
    (((feature_helm lines no_match no_match summary (deployed_state "web")).state
        ≡ service_state_failed)
      ↔ ((is_going (helm_status lines no_match no_match summary (deployed_state "web")) ≡ false)
          × ((r : HelmChartSummary) × (release_of lines no_match no_match summary
                  (deployed_state "web")
                ≡ some r)
              × (is_failing r ≡ true))))
    × ((r : HelmChartSummary)
        → is_going (helm_status lines no_match no_match summary (deployed_state "web")) ≡ false
        → release_of lines no_match no_match summary (deployed_state "web") ≡ some r
        → is_failing r ≡ true
        → (feature_helm lines no_match no_match summary (deployed_state "web")).failure_message
          ≡ reason r)
feature_helm-failed_iff_example =
    feature_helm-failed_iff lines no_match no_match summary (deployed_state "web")

services_state-Kept_example :
    ((x : ServiceState)
      → Memᴰ x
          (services_state_from_summary lines no_match no_match (some summary) (some half_deployed))
      → (svc : ServiceState) × ((spec : ServiceWithValues) × Matches lines no_match no_match summary
            half_deployed spec svc
          × Carried spec svc x))
    × ((svc : ServiceState) (spec : ServiceWithValues)
        → Matches lines no_match no_match summary half_deployed spec svc
        → (x : ServiceState) × Memᴰ x (
            services_state_from_summary lines no_match no_match (some summary) (some half_deployed))
          × Carried spec svc x)
services_state-Kept_example = services_state-Kept lines no_match no_match summary half_deployed

-- A syntax tree and a program are their source; "" does not compile.
abbrev env : Env String String
env = record {
  compile = λ src. if src == "" then error "empty" else ok src;
  program = λ ast. ok ast;
}

abbrev doc : String → RuleDoc
doc healthy = record {
  group = "apps";
  version = "v1";
  kind = "Deployment";
  scope = "Namespaced";
  healthy = healthy;
  message = "m";
}

-- Every text is the list of one document with it as its test.
abbrev parse : String → Resolved (List RuleDoc)
parse text = ok (doc text ∷ [])

abbrev not_blank : String → Bool
not_blank text = text == ""

abbrev digit : ℕ → String
digit n = "0"

abbrev world : World
world key version = ("rules", version) ∷ []

abbrev config_map : ConfigMap
config_map = record {
  namespace = "kcm-system";
  name = "defaults";
  resource_version = "7";
  data_of = ("rules", "7") ∷ [];
}

abbrev list : String → String → Listed ConfigMap
list namespace target = items (config_map ∷ [])

abbrev clock : ObjectKey → ℕ
clock key = 900

-- An entry of an older resource version.
abbrev cache : RuleCache String
cache =
    (
      record { namespace = "kcm-system"; name = "defaults" },
      record {
        last_access = 100;
        resource_version = "6";
        compiled = (
          (record {
            healthy = "6";
            message = "m";
            group = "apps";
            version = "v1";
            kind = "Deployment";
            scope = "Namespaced";
            source = "kcm-system/defaults#0";
          })
              ∷ [],
          [],
        );
      },
    )
    ∷ []

cache-Coherent : Coherent env parse not_blank digit world cache
unfolding load_rules rules_from_docs compile_doc compile_expr
cache-Coherent key e m = elim (Memᴰ.cases_cons m) [
  | inl p ↦
      subst
        (λ (q : ObjectKey × RuleCacheEntry String).
          q.1.compiled ≡ load_rules env parse not_blank digit q.0 (world q.0 q.1.resource_version))
        (sym p) refl
  | inr n ↦ elim n [ ]
]

listed-IsCurrent :
    (namespace target : String) (cms : List ConfigMap) (cm : ConfigMap)
    → list namespace target ≡ items cms
    → Memᴰ cm cms
    → cm.data_of ≡ world (config_map_key cm) cm.resource_version
listed-IsCurrent namespace target cms cm found m =
    let same : cms ≡ config_map ∷ [] = cc found in
    elim (Memᴰ.cases_cons (subst (λ l. Memᴰ cm l) same m)) [
      | inl p ↦
          subst (λ (c : ConfigMap). c.data_of ≡ world (config_map_key c) c.resource_version) (sym p)
            refl
      | inr n ↦ elim n [ ]
    ]

rules_from_config_maps-transparent_example :
    ((rules_from_config_maps env parse not_blank digit list clock 1000 "kcm-system" half_deployed
        cache).1
      ≡ (rules_from_config_maps env parse not_blank digit list clock 1000 "kcm-system" half_deployed
          []).1)
    × Coherent env parse not_blank digit world
        (rules_from_config_maps env parse not_blank digit list clock 1000 "kcm-system" half_deployed
          cache).0
rules_from_config_maps-transparent_example =
    rules_from_config_maps-transparent env parse not_blank digit world list clock 1000 "kcm-system"
      half_deployed listed-IsCurrent cache cache-Coherent
