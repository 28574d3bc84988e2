-- ===== src/Services/Keys/Confirmed.antt =====
-- When a ServiceSet counts as deployed: `FullyDeployed` and `DeployedVersions`,
-- internal/serviceset/util.go.
use mathlib.Core.List.Memᴰ
use kcm.Prelude.{
  ◌≡◌, ◌≢◌, refl, sym, ap, ◌∙◌, ◌⊎◌, inl, inr, false, ◌↔◌, true, not, ◌||◌, List, [], ◌∷◌, Memᴰ,
  String, string_eq, ◌==◌, Bool-cases, arith, ObjectKey, key_eq, Eq-cases, Map, insert, get_or,
  get_or-insert, all→mem, mem→all,
}
use kcm.Api.{ServiceState, ServiceWithValues, ServiceSet, service_state_deployed}
use kcm.Services.Keys.{
  stored_key, state_key, record_versions, deployed_versions, confirmed, fully_deployed,
}

-- A state Deployed of a key at a version.
abbrev pub IsRecord : ObjectKey → String → ServiceState → Type 0
IsRecord k v s = (state_key s ≡ k) × (s.state ≡ service_state_deployed) × (s.version ≡ v)

-- No state Deployed of the key states a version.
abbrev pub IsSilent : ObjectKey → List ServiceState → Type 0
IsSilent k states =
    (s : ServiceState)
    → Memᴰ s states
    → state_key s ≡ k
    → s.state ≡ service_state_deployed
    → s.version ≡ ""

-- The last state Deployed of the key that states a version is at this version.
pub data LastAt (k : ObjectKey) (v : String) : List ServiceState → Type 0 where
  here :
      {s : ServiceState} {states : List ServiceState}
      → IsRecord k v s
      → IsSilent k states
      → LastAt k v (s ∷ states)
  later :
      {s : ServiceState} {states : List ServiceState} → LastAt k v states → LastAt k v (s ∷ states)

LastAt-cons :
    {k : ObjectKey} {v : String} {s : ServiceState} {states : List ServiceState}
    → LastAt k v (s ∷ states)
    → (IsRecord k v s × IsSilent k states) ⊎ LastAt k v states
LastAt-cons (here r q) = inl (r, q)
LastAt-cons (later h) = inr h

IsSilent-cons :
    (k : ObjectKey) (s : ServiceState) (states : List ServiceState)
    → (state_key s ≡ k → s.state ≡ service_state_deployed → s.version ≡ "")
    → IsSilent k states
    → IsSilent k (s ∷ states)
IsSilent-cons k s states now q x m own done = elim (Memᴰ.cases_cons m) [
  | inr n ↦ q x n own done
  | inl e ↦
      ap (λ (y : ServiceState). y.version) e
      ∙ now (ap state_key (sym e) ∙ own) (ap (λ (y : ServiceState). y.state) (sym e) ∙ done)
]

-- What is recorded for a key is the version of the last state that counts, or else the old entry.
recorded_iff :
    (k : ObjectKey) (v : String) (states : List ServiceState) (m : Map ObjectKey String)
    → v ≢ ""
    → (get_or k (record_versions states m) "" ≡ v)
      ↔ (LastAt k v states ⊎ ((get_or k m "" ≡ v) × IsSilent k states))
unfolding record_versions
recorded_iff k v [] m full =
    (λ h. inr (h, λ s n. elim n [ ]), λ h. elim h [ inl l ↦ elim l [ ] | inr (e, q) ↦ e ])
recorded_iff k v (s ∷ states) m full =
    elim (Bool-cases (not (s.state == service_state_deployed) || s.version == "")) [
      | inl skipped ↦
          let rest = recorded_iff k v states m full in
          rw skipped (
            λ h. elim (rest.0 h) [
              | inl l ↦ inl (later l)
              | inr (e, q) ↦ inr (e, IsSilent-cons k s states (λ own done. unstated skipped done) q)
            ],
            λ h. elim h [
              | inl l ↦ elim (LastAt-cons l) [
                | inl (r, q) ↦ absurd (full (sym r.2 ∙ unstated skipped r.1))
                | inr before ↦ rest.1 (inl before)
              ]
              | inr (e, q) ↦ rest.1 (inr (e, λ x n. q x (Memᴰ.tail n)))
            ],
          )
      | inr taken ↦
          let rest = recorded_iff k v states (insert (state_key s) s.version m) full in
          let entry = get_or-insert (state_key s) k s.version "" m in
          let done = (string_eq.beq_iff s.state service_state_deployed).0 (ground arith) in
          rw taken (elim (Eq-cases (state_key s) k) [
            | inl (own, t) ↦
                let now : get_or k (insert (state_key s) s.version m) "" ≡ s.version =
                  entry ∙ rw t refl in
                (
                  λ h. elim (rest.0 h) [
                    | inl l ↦ inl (later l)
                    | inr (e, q) ↦ inl (here (own, done, sym now ∙ e) q)
                  ],
                  λ h. elim h [
                    | inl l ↦ elim (LastAt-cons l) [
                      | inl (r, q) ↦ rest.1 (inr (now ∙ r.2, q))
                      | inr before ↦ rest.1 (inl before)
                    ]
                    | inr (e, q) ↦ absurd (stated taken (q s (Memᴰ.head refl) own done))
                  ],
                )
            | inr (other, f) ↦
                let now : get_or k (insert (state_key s) s.version m) "" ≡ get_or k m "" =
                  entry ∙ rw f refl in
                (
                  λ h. elim (rest.0 h) [
                    | inl l ↦ inl (later l)
                    | inr (e, q) ↦
                        inr (sym now ∙ e, IsSilent-cons k s states (λ own. absurd (other own)) q)
                  ],
                  λ h. elim h [
                    | inl l ↦ elim (LastAt-cons l) [
                      | inl (r, q) ↦ absurd (other r.0)
                      | inr before ↦ rest.1 (inl before)
                    ]
                    | inr (e, q) ↦ rest.1 (inr (now ∙ e, λ x n. q x (Memᴰ.tail n)))
                  ],
                )
          ])
    ]
  where
    unstated :
        not (s.state == service_state_deployed) || s.version == "" ≡ true
        → s.state ≡ service_state_deployed
        → s.version ≡ ""
    unstated h done =
        (string_eq.beq_iff s.version "").0
          (rw ((string_eq.beq_iff s.state service_state_deployed).1 done) at h)

    stated : not (s.state == service_state_deployed) || s.version == "" ≡ false → s.version ≢ ""
    stated h blank = elim (Bool-cases (s.state == service_state_deployed)) [
      | inl t ↦ cc (rw (t, (string_eq.beq_iff s.version "").1 blank) at h)
      | inr f ↦ cc (rw f at h)
    ]

-- Every service of the spec that states a version is at it in the last state Deployed of its key
-- that states one.
abbrev pub AllConfirmed : ServiceSet → Type 0
AllConfirmed set =
    (svc : ServiceWithValues)
    → Memᴰ svc set.spec.services
    → svc.version ≢ ""
    → LastAt (stored_key svc) svc.version set.status.services

confirmed_iff :
    (set : ServiceSet) (svc : ServiceWithValues)
    → (confirmed (deployed_versions set) svc ≡ true)
      ↔ (svc.version ≢ "" → LastAt (stored_key svc) svc.version set.status.services)
unfolding deployed_versions
confirmed_iff set svc = elim (Eq-cases svc.version "") [
  | inl (blank, t) ↦ rw t (λ h full. absurd (full blank), λ h. refl)
  | inr (full, f) ↦
      let found = recorded_iff (stored_key svc) svc.version set.status.services [] full in
      let entry =
        string_eq.beq_iff (get_or (stored_key svc) (record_versions set.status.services []) "")
          svc.version in
      rw f (
        λ h _. elim (found.0 (entry.0 h)) [ inl l ↦ l | inr (e, q) ↦ absurd (full (sym e)) ],
        λ h. entry.1 (found.1 (inl (h full))),
      )
]

-- `FullyDeployed` holds exactly when the status of the ServiceSet says deployed, and each service
-- of the spec that states a version is confirmed at it: the last state of its key that is Deployed
-- and states a version states this one.
pub fully_deployed-AllConfirmed :
    (set : ServiceSet)
    → (fully_deployed set ≡ true) ↔ ((set.status.deployed ≡ true) × AllConfirmed set)
unfolding fully_deployed
fully_deployed-AllConfirmed set = elim (Bool-cases set.status.deployed) [
  | inr f ↦ rw f (λ h. cc h, λ h. cc h.0)
  | inl t ↦ rw t (
    λ h. (
      refl,
      λ svc m.
          (confirmed_iff set svc).0
            (all→mem (confirmed (deployed_versions set)) set.spec.services h m),
    ),
    λ h.
        mem→all (confirmed (deployed_versions set)) set.spec.services
          (λ svc m. (confirmed_iff set svc).1 (h.1 svc m)),
  )
]
