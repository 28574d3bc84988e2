-- ===== src/Sveltos/Deployed.antt =====
-- When a Helm service counts as deployed or failed: `featureHelm`,
-- internal/controller/adapters/sveltos/state.go.
use mathlib.Core.Option.{some-injective}
use kcm.Prelude.{
  ◌≡◌, refl, sym, ◌∙◌, ap, ◌↔◌, inl, inr, Bool, true, false, true≢false, not, ◌&&◌, List, Option,
  none, some, String, ◌==◌, string_eq, key_eq, lookup, Bool-cases, arith,
}
use kcm.Api.{ServiceState, service_state_deployed, service_state_failed}
use kcm.Services.Keys.{state_key}
use kcm.Sveltos.{FeatureStatus, HelmChartStatus, HelmChartSummary, ClusterSummary}
use kcm.Sveltos.FeatureStatus.{
  unset, provisioning, provisioned, failed, failed_non_retriable, removing, agent_removing, removed,
  blocked,
}
use kcm.Sveltos.FeatureId.{helm}
use kcm.Sveltos.State.{
  is_set, message_of, find_feature, status_of, is_going, managed_state, release_state, release_map,
  feature_helm, feature_status_to_service_state,
}

-- The feature is not at work any more, and is not being removed.
abbrev pub is_settled : FeatureStatus → Bool
is_settled provisioned = true
is_settled failed = true
is_settled failed_non_retriable = true
is_settled _ = false

-- What says that a release is deployed, or that it failed.
abbrev pub is_confirmed : FeatureStatus → HelmChartSummary → Bool
is_confirmed status r = elim r.status [
  | HelmChartStatus.conflict ↦ false
  | HelmChartStatus.managing ↦
      is_set r.values_hash && (not (is_set (message_of r.failure_message)) && is_settled status)
]

abbrev pub is_failing : HelmChartSummary → Bool
is_failing r = elim r.status [
  | HelmChartStatus.conflict ↦ true
  | HelmChartStatus.managing ↦ is_set (message_of r.failure_message)
]

-- What is told of a failed release.
abbrev pub reason : HelmChartSummary → String
reason r = elim r.status [
  | HelmChartStatus.conflict ↦ r.conflict_message
  | HelmChartStatus.managing ↦ message_of r.failure_message
]

managed-deployed :
    (has_message has_hash named : Bool) (status : FeatureStatus) (message : String)
    (s : ServiceState)
    → s.state ≡ feature_status_to_service_state status
    → ((managed_state has_message has_hash named status message s).state == service_state_deployed)
      ≡ (has_hash && (not has_message && is_settled status))
managed-deployed true has_hash named status message s h =
    elim has_hash as (λ k. false ≡ (k && false)) [ true ↦ refl | false ↦ refl ]
managed-deployed false false named unset message s h = refl
managed-deployed false false named provisioning message s h = refl
managed-deployed false false named provisioned message s h = refl
managed-deployed false false named failed message s h = refl
managed-deployed false false named failed_non_retriable message s h = refl
managed-deployed false false named removing message s h = refl
managed-deployed false false named agent_removing message s h = refl
managed-deployed false false named removed message s h = refl
managed-deployed false false named blocked message s h = refl
managed-deployed false true named unset message s h = rw h refl
managed-deployed false true true provisioning message s h = rw h refl
managed-deployed false true false provisioning message s h = refl
managed-deployed false true named provisioned message s h = refl
managed-deployed false true named failed message s h = refl
managed-deployed false true named failed_non_retriable message s h = refl
managed-deployed false true named removing message s h = rw h refl
managed-deployed false true named agent_removing message s h = rw h refl
managed-deployed false true named removed message s h = rw h refl
managed-deployed false true named blocked message s h = rw h refl

managed-failed :
    (has_message has_hash named : Bool) (status : FeatureStatus) (message : String)
    (s : ServiceState)
    → s.state ≡ feature_status_to_service_state status
    → ((managed_state has_message has_hash named status message s).state == service_state_failed)
      ≡ has_message
managed-failed true has_hash named status message s h = refl
managed-failed false false named unset message s h = refl
managed-failed false false named provisioning message s h = refl
managed-failed false false named provisioned message s h = refl
managed-failed false false named failed message s h = refl
managed-failed false false named failed_non_retriable message s h = refl
managed-failed false false named removing message s h = refl
managed-failed false false named agent_removing message s h = refl
managed-failed false false named removed message s h = refl
managed-failed false false named blocked message s h = refl
managed-failed false true named unset message s h = rw h refl
managed-failed false true true provisioning message s h = rw h refl
managed-failed false true false provisioning message s h = refl
managed-failed false true named provisioned message s h = refl
managed-failed false true named failed message s h = refl
managed-failed false true named failed_non_retriable message s h = refl
managed-failed false true named removing message s h = rw h refl
managed-failed false true named agent_removing message s h = rw h refl
managed-failed false true named removed message s h = rw h refl
managed-failed false true named blocked message s h = rw h refl

module _ (status : FeatureStatus) (named : Bool) (s : ServiceState) where
  release-deployed :
      (r : HelmChartSummary)
      → ((release_state status named (some r) s).state == service_state_deployed)
        ≡ is_confirmed status r
  release-deployed r = go r.status
    where
      go :
          (st : HelmChartStatus)
          → ((release_state status named (some (record r { status = st })) s).state
              == service_state_deployed)
            ≡ is_confirmed status (record r { status = st })
      go HelmChartStatus.conflict = refl
      go HelmChartStatus.managing =
          managed-deployed (is_set (message_of r.failure_message)) (is_set r.values_hash) named
            status (message_of r.failure_message)
            (record s { state = feature_status_to_service_state status }) refl

  release-failed :
      (r : HelmChartSummary)
      → ((release_state status named (some r) s).state == service_state_failed) ≡ is_failing r
  release-failed r = go r.status
    where
      go :
          (st : HelmChartStatus)
          → ((release_state status named (some (record r { status = st })) s).state
              == service_state_failed)
            ≡ is_failing (record r { status = st })
      go HelmChartStatus.conflict = refl
      go HelmChartStatus.managing =
          managed-failed (is_set (message_of r.failure_message)) (is_set r.values_hash) named status
            (message_of r.failure_message)
            (record s { state = feature_status_to_service_state status }) refl

  release-reason :
      (r : HelmChartSummary)
      → is_failing r ≡ true
      → (release_state status named (some r) s).failure_message ≡ reason r
  release-reason r = go r.status
    where
      go :
          (st : HelmChartStatus)
          → is_failing (record r { status = st }) ≡ true
          → (release_state status named (some (record r { status = st })) s).failure_message
            ≡ reason (record r { status = st })
      go HelmChartStatus.conflict h = refl
      go HelmChartStatus.managing h = rw h refl

-- A feature that is being removed gives neither of the two states.
going-other :
    (status : FeatureStatus)
    → is_going status ≡ true
    → ((feature_status_to_service_state status == service_state_deployed) ≡ false)
      × ((feature_status_to_service_state status == service_state_failed) ≡ false)
      × (is_settled status ≡ false)
going-other unset h = cc
going-other provisioning h = cc
going-other provisioned h = cc
going-other failed h = cc
going-other failed_non_retriable h = cc
going-other removing h = (refl, refl, refl)
going-other agent_removing h = (refl, refl, refl)
going-other removed h = (refl, refl, refl)
going-other blocked h = (refl, refl, refl)

unconfirmed :
    (status : FeatureStatus) (r : HelmChartSummary)
    → is_settled status ≡ false
    → is_confirmed status r ≡ false
unconfirmed status r h = go r.status
  where
    go : (st : HelmChartStatus) → is_confirmed status (record r { status = st }) ≡ false
    go HelmChartStatus.conflict = refl
    go HelmChartStatus.managing = ground arith

same_iff : {b : Bool} {a c : String} → (a == c) ≡ b → (a ≡ c) ↔ (b ≡ true)
same_iff {b} {a} {c} h =
    (λ p. sym h ∙ (string_eq.beq_iff a c).1 p, λ t. (string_eq.beq_iff a c).0 (h ∙ t))

module _ (lines : String → List String) (name_in namespace_in : String → Option String)
    (summary : ClusterSummary) (s : ServiceState) where
  -- The status of the Helm feature, and the release of the service.
  abbrev pub helm_status : FeatureStatus
  helm_status = status_of (find_feature helm summary.feature_summaries)

  abbrev pub release_of : Option HelmChartSummary
  release_of = lookup (state_key s) (release_map summary.helm_release_summaries)

  -- A Helm service is set to Deployed exactly when the Helm feature is provisioned or failed, and
  -- the service's release is listed, is managed, has the hash of its values and has no failure
  -- message.
  pub feature_helm-deployed_iff :
      ((feature_helm lines name_in namespace_in summary s).state ≡ service_state_deployed)
      ↔ ((r : HelmChartSummary) × (release_of ≡ some r) × (is_confirmed helm_status r ≡ true))
  unfolding feature_helm
  feature_helm-deployed_iff = elim (Bool-cases (is_going helm_status)) [
    | inl t ↦
        let (other, failing, unsettled) = going-other helm_status t in
        rw t (
          λ e. absurd (true≢false (sym ((same_iff other).0 e))),
          λ c.
              let (r, listed, sure) = c in
              absurd (true≢false (sym sure ∙ unconfirmed helm_status r unsettled)),
        )
    | inr f ↦ rw f (go _ release_of)
  ]
    where
      go :
          (named : Bool) (o : Option HelmChartSummary)
          → ((release_state helm_status named o s).state ≡ service_state_deployed)
            ↔ ((r : HelmChartSummary) × (o ≡ some r) × (is_confirmed helm_status r ≡ true))
      go named none =
          (λ e. absurd (true≢false (sym ((same_iff refl).0 e))), λ c. let (r, p, t) = c in cc p)
      go named (some r) =
          let same = same_iff (release-deployed helm_status named s r) in
          (
            λ e. (r, refl, same.0 e),
            λ c.
                let (q, p, t) = c in
                same.1 (ap (is_confirmed helm_status) (some-injective _ _ p) ∙ t),
          )

  -- A Helm service is set to Failed exactly when the Helm feature is not being removed and the
  -- service's release is listed, with a conflict or with a failure message of its own. The state then
  -- tells the conflict, or else that message.
  pub feature_helm-failed_iff :
      (((feature_helm lines name_in namespace_in summary s).state ≡ service_state_failed) ↔ (
        (is_going helm_status ≡ false)
        × ((r : HelmChartSummary) × (release_of ≡ some r) × (is_failing r ≡ true))))
      × ((r : HelmChartSummary)
          → is_going helm_status ≡ false
          → release_of ≡ some r
          → is_failing r ≡ true
          → (feature_helm lines name_in namespace_in summary s).failure_message ≡ reason r)
  unfolding feature_helm
  feature_helm-failed_iff = elim (Bool-cases (is_going helm_status)) [
    | inl t ↦
        let (other, failing, unsettled) = going-other helm_status t in
        rw t (
          (λ e. absurd (true≢false (sym ((same_iff failing).0 e))), λ c. absurd (true≢false c.0)),
          λ r stays. absurd (true≢false stays),
        )
    | inr f ↦ rw f (go _ release_of)
  ]
    where
      go :
          (named : Bool) (o : Option HelmChartSummary)
          → (((release_state helm_status named o s).state ≡ service_state_failed)
              ↔ ((false ≡ false) × ((r : HelmChartSummary) × (o ≡ some r) × (is_failing r ≡ true))))
            × ((r : HelmChartSummary)
                → false ≡ false
                → o ≡ some r
                → is_failing r ≡ true
                → (release_state helm_status named o s).failure_message ≡ reason r)
      go named none = (
        (
          λ e. absurd (true≢false (sym ((same_iff refl).0 e))),
          λ c. let (stays, (r, p, t)) = c in cc p,
        ),
        λ r stays p. cc p,
      )
      go named (some r) =
          let same = same_iff (release-failed helm_status named s r) in
          (
            (
              λ e. (refl, (r, refl, same.0 e)),
              λ c. let (stays, (q, p, t)) = c in same.1 (ap is_failing (some-injective _ _ p) ∙ t),
            ),
            λ q stays p t.
                release-reason helm_status named s r (ap is_failing (some-injective _ _ p) ∙ t)
                ∙ ap reason (some-injective _ _ p),
          )
