-- ===== src/Sveltos/Kept.antt =====
-- What the states built from a ClusterSummary keep of the spec and of the status:
-- `servicesStateFromSummary`, internal/controller/adapters/sveltos/state.go.
use mathlib.Core.List.Memᴰ
use kcm.Prelude.{
  ◌≡◌, refl, sym, ◌∙◌, ap, subst, inl, inr, Bool, true, false, List, [], ◌∷◌, Memᴰ, Option, none,
  some, String, ◌==◌, string_eq, key_eq, ObjectKey, Map, lookup, lookup-mem, mem-index_by, contains,
  mem-sort, Bool-cases, Option-cases, if◌then◌else◌,
}
use kcm.Api.{ServiceWithValues, ServiceState, ServiceSet}
use kcm.Services.Order.{key_less}
use kcm.Services.Keys.{stored_key, state_key}
use kcm.Sveltos.{FeatureStatus, FeatureSummary, HelmChartStatus, HelmChartSummary, ClusterSummary}
use kcm.Sveltos.FeatureStatus.{
  unset, provisioning, provisioned, failed, failed_non_retriable, removing, agent_removing, removed,
  blocked,
}
use kcm.Sveltos.FeatureId.{helm}
use kcm.Sveltos.State.{
  no_refs, is_provisioned, is_set, message_of, find_feature, status_of, feature_message, is_going,
  feature_whole, managed_state, release_state, release_map, unpack_helm_failure_msg,
  feature_kustomize, feature_resources, feature_helm, feature_status_to_service_state, rebuilt,
  collect, spec_map, services_state_from_summary,
}

-- Only the state and the failure message differ.
abbrev Touched : ServiceState → ServiceState → Type 0
Touched s x = x ≡ record s { state = x.state; failure_message = x.failure_message }

managed_state-Touched :
    (has_message has_hash named : Bool) (status : FeatureStatus) (message : String)
    (s : ServiceState)
    → Touched s (managed_state has_message has_hash named status message s)
managed_state-Touched true has_hash named status message s = refl
managed_state-Touched false false named unset message s = refl
managed_state-Touched false true named unset message s = refl
managed_state-Touched false false named provisioning message s = refl
managed_state-Touched false true true provisioning message s = refl
managed_state-Touched false true false provisioning message s = refl
managed_state-Touched false false named provisioned message s = refl
managed_state-Touched false true named provisioned message s = refl
managed_state-Touched false false named failed message s = refl
managed_state-Touched false true named failed message s = refl
managed_state-Touched false false named failed_non_retriable message s = refl
managed_state-Touched false true named failed_non_retriable message s = refl
managed_state-Touched false false named removing message s = refl
managed_state-Touched false true named removing message s = refl
managed_state-Touched false false named agent_removing message s = refl
managed_state-Touched false true named agent_removing message s = refl
managed_state-Touched false false named removed message s = refl
managed_state-Touched false true named removed message s = refl
managed_state-Touched false false named blocked message s = refl
managed_state-Touched false true named blocked message s = refl

release_state-Touched :
    (status : FeatureStatus) (named : Bool) (o : Option HelmChartSummary) (s : ServiceState)
    → Touched s (release_state status named o s)
release_state-Touched status named none s = refl
release_state-Touched status named (some r) s = go r.status
  where
    go :
        (st : HelmChartStatus)
        → Touched s (release_state status named (some (record r { status = st })) s)
    go HelmChartStatus.conflict = refl
    go HelmChartStatus.managing =
        managed_state-Touched (is_set (message_of r.failure_message)) (is_set r.values_hash) named
          status (message_of r.failure_message)
          (record s { state = feature_status_to_service_state status })

feature_whole-Touched :
    (refs : List String) (text : String) (o : Option FeatureSummary) (s : ServiceState)
    → Touched s (feature_whole refs text o s)
feature_whole-Touched refs text none s = elim (Bool-cases (no_refs refs)) [
  | inl t ↦ rw t refl
  | inr f ↦ rw f refl
]
feature_whole-Touched refs text (some f) s = go f.failure_message
  where
    go :
        (m : Option String)
        → Touched s (feature_whole refs text (some (record f { failure_message = m })) s)
    go none = elim (Bool-cases (is_provisioned f.status)) [ inl t ↦ rw t refl | inr u ↦ rw u refl ]
    go (some message) = refl

-- The version that a state has: a Helm service keeps the one that was confirmed, a Kustomize or a
-- plain resource takes that of the spec.
abbrev pub expected_version : ServiceWithValues → ServiceState → String
expected_version spec svc =
    if svc.type == "Kustomize"
    then spec.version
    else if svc.type == "Resource"
    then spec.version
    else if svc.type == "Helm"
    then svc.version
    else ""

-- All of a state but the state itself and its message.
abbrev pub Carried : ServiceWithValues → ServiceState → ServiceState → Type 0
Carried spec svc x = x ≡ (record {
  version = expected_version spec svc;
  type = svc.type;
  name = spec.name;
  namespace = spec.namespace;
  template = spec.template;
  state = x.state;
  failure_message = x.failure_message;
  last_deployed_hash = svc.last_deployed_hash;
})

module _ (lines : String → List String) (name_in namespace_in : String → Option String)
    (summary : ClusterSummary) where
  feature_helm-Touched :
      (s : ServiceState) → Touched s (feature_helm lines name_in namespace_in summary s)
  unfolding feature_helm
  feature_helm-Touched s =
      elim (Bool-cases (is_going (status_of (find_feature helm summary.feature_summaries)))) [
        | inl t ↦ rw t refl
        | inr f ↦ rw f (
            release_state-Touched (status_of (find_feature helm summary.feature_summaries))
              (contains
                (unpack_helm_failure_msg lines name_in namespace_in
                  (feature_message (find_feature helm summary.feature_summaries)))
                (state_key s))
              (lookup (state_key s) (release_map summary.helm_release_summaries)) s)
      ]

  rebuilt-Carried :
      (spec : ServiceWithValues) (svc : ServiceState)
      → Carried spec svc (rebuilt lines name_in namespace_in summary spec svc)
  unfolding rebuilt feature_kustomize feature_resources
  rebuilt-Carried spec svc = elim (Bool-cases (svc.type == "Kustomize")) [
    | inl t ↦ rw t (feature_whole-Touched summary.kustomization_refs _ _ _)
    | inr k ↦ elim (Bool-cases (svc.type == "Resource")) [
      | inl t ↦ rw (k, t) (feature_whole-Touched summary.policy_refs _ _ _)
      | inr r ↦ elim (Bool-cases (svc.type == "Helm")) [
        | inl t ↦ rw (k, r, t) (feature_helm-Touched _)
        | inr h ↦ rw (k, r, h) refl
      ]
    ]
  ]

  -- A service of the status and the service of the spec with its key.
  abbrev pub Matches : ServiceSet → ServiceWithValues → ServiceState → Type 0
  Matches set spec svc =
      Memᴰ svc set.status.services
      × Memᴰ spec set.spec.services
      × (stored_key spec ≡ state_key svc)
      × (lookup (state_key svc) (spec_map set.spec.services) ≡ some spec)

  collect-mem :
      (specs : Map ObjectKey ServiceWithValues) (states : List ServiceState) (x : ServiceState)
      → Memᴰ x (collect lines name_in namespace_in summary specs states)
      → (svc : ServiceState) × Memᴰ svc states
        × ((spec : ServiceWithValues) × (lookup (state_key svc) specs ≡ some spec)
            × (x ≡ rebuilt lines name_in namespace_in summary spec svc))
  collect-mem specs [] x m = elim m [ ]
  collect-mem specs (svc ∷ states) x m = elim (Option-cases (lookup (state_key svc) specs)) [
    | inl lacks ↦
        let (s, o, q) = collect-mem specs states x (rw (lacks, collect) at m) in (s, Memᴰ.tail o, q)
    | inr has ↦
        let (spec, found) = has in
        elim (Memᴰ.cases_cons (rw (found, collect) at m)) [
          | inl e ↦ (svc, Memᴰ.head refl, (spec, found, e))
          | inr n ↦ let (s, o, q) = collect-mem specs states x n in (s, Memᴰ.tail o, q)
        ]
  ]

  mem-collect :
      (specs : Map ObjectKey ServiceWithValues) (states : List ServiceState) (svc : ServiceState)
      (spec : ServiceWithValues)
      → Memᴰ svc states
      → lookup (state_key svc) specs ≡ some spec
      → Memᴰ
          (rebuilt lines name_in namespace_in summary spec svc)
          (collect lines name_in namespace_in summary specs states)
  mem-collect specs [] svc spec m h = elim m [ ]
  mem-collect specs (s ∷ states) svc spec (Memᴰ.head e) h =
      rw (ap (λ (y : ServiceState). lookup (state_key y) specs) (sym e) ∙ h, collect)
        (Memᴰ.head (ap (rebuilt lines name_in namespace_in summary spec) e))
  mem-collect specs (s ∷ states) svc spec (Memᴰ.tail m) h =
      elim (Option-cases (lookup (state_key s) specs)) [
        | inl lacks ↦ rw (lacks, collect) (mem-collect specs states svc spec m h)
        | inr has ↦
            let (other, found) = has in
            rw (found, collect) (Memᴰ.tail (mem-collect specs states svc spec m h))
      ]

  -- The states are those of the services which both the status and the spec have, and each such
  -- service has one. A state carries the type and the hash of the last deployment from the status,
  -- and name, namespace and template from the spec. Its version is the confirmed one of the status
  -- for Helm, and that of the spec for Kustomize and plain resources.
  pub services_state-Kept :
      (set : ServiceSet)
      → ((x : ServiceState)
          → Memᴰ x
              (services_state_from_summary lines name_in namespace_in (some summary) (some set))
          → (svc : ServiceState) × ((spec : ServiceWithValues) × Matches set spec svc
              × Carried spec svc x))
        × ((svc : ServiceState) (spec : ServiceWithValues)
            → Matches set spec svc
            → (x : ServiceState) × Memᴰ x
                (services_state_from_summary lines name_in namespace_in (some summary) (some set))
              × Carried spec svc x)
  unfolding services_state_from_summary
  services_state-Kept set = (
    λ x m.
        let (svc, at, (spec, found, e)) =
          collect-mem (spec_map set.spec.services) set.status.services x
            ((mem-sort less x _).0 m) in
        let (inside, key) = spec_map-mem set.spec.services (state_key svc) spec found in
        (
          svc,
          (
            spec,
            (at, inside, key, found),
            subst (λ y. Carried spec svc y) (sym e) (rebuilt-Carried spec svc),
          ),
        ),
    λ svc spec h.
        let (at, inside, key, found) = h in
        (
          rebuilt lines name_in namespace_in summary spec svc,
          (mem-sort less _ _).1
              (mem-collect (spec_map set.spec.services) set.status.services svc spec at found),
          rebuilt-Carried spec svc,
        ),
  )
    where
      less : ServiceState → ServiceState → Bool
      less a b = key_less (state_key a) (state_key b)

      spec_map-mem :
          (services : List ServiceWithValues) (k : ObjectKey) (spec : ServiceWithValues)
          → lookup k (spec_map services) ≡ some spec
          → Memᴰ spec services × (stored_key spec ≡ k)
      spec_map-mem services k spec h =
          elim (mem-index_by stored_key (λ s. s) services [] (lookup-mem k (spec_map services) h)) [
            | inl found ↦
                let (y, m, e) = found in
                let same : spec ≡ y = ap (λ p. p.1) e in
                (
                  subst (λ z. Memᴰ z services) (sym same) m,
                  sym (ap (λ p. p.0) e ∙ ap stored_key (sym same)),
                )
            | inr old ↦ elim old [ ]
          ]
