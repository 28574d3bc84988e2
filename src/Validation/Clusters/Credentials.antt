-- ===== src/Validation/Clusters/Credentials.antt =====
-- Which credentials are accepted: `ClusterDeployCredential`, internal/util/validation/cd.go.
use mathlib.Core.Option.{some-injective}
use kcm.Prelude.{
  ◌≡◌, ◌≢◌, refl, sym, ap, subst, ◌↔◌, ◌⊎◌, inl, inr, true, not, List, [], ◌∷◌, Memᴰ, Option, none,
  some, String, string_eq, Eq-cases, Bool-cases, All, any, contains, contains→mem, mem→contains,
  append_str, if◌then◌else◌, Resolved, ok, error,
}
use kcm.Api.{Fetched, found, not_found, failed}
use kcm.Validation.Clusters.{
  Credential, ProviderInterface, CredentialError, not_ready, no_identity, unread_credential,
  unsupported_provider, unsupported_kind, infrastructure_provider_prefix, is_infrastructure,
  has_kinds, get_provider_cluster_identity_kinds, check_provider, check_providers,
  is_cred_identity_supports_cluster_template, cluster_deploy_credential,
}

abbrev pub internal_provider : String
internal_provider = append_str infrastructure_provider_prefix "internal"

same_found : {f : Fetched Credential} {a b : Credential} → f ≡ found a → f ≡ found b → a ≡ b
same_found p q = cc (p, q)

-- The internal provider takes Secrets, any other one the kinds of its interface.
abbrev pub Supports : (String → Option ProviderInterface) → (kind provider : String) → Type 0
Supports find kind provider =
    ((provider ≡ internal_provider) × (kind ≡ "Secret"))
    ⊎ ((provider ≢ internal_provider)
        × Memᴰ kind (get_provider_cluster_identity_kinds (find provider)))

module _ (find : String → Option ProviderInterface) where
  kinds_iff :
      (kinds : List String) (kind provider : String)
      → ((if not (has_kinds kinds)
            then some (unsupported_provider provider)
            else if contains kinds kind
            then none
            else some (unsupported_kind provider))
          ≡ none)
        ↔ Memᴰ kind kinds
  kinds_iff [] kind provider = (λ h. cc h, λ m. elim m [ ])
  kinds_iff (k ∷ kinds) kind provider = elim (Bool-cases (contains (k ∷ kinds) kind)) [
    | inl t ↦ rw t (λ h. contains→mem (k ∷ kinds) kind t, λ m. refl)
    | inr f ↦ rw f (λ h. cc h, λ m. cc (mem→contains (k ∷ kinds) kind m, f))
  ]

  check_provider_iff :
      (kind provider : String)
      → (check_provider find kind provider ≡ none) ↔ Supports find kind provider
  check_provider_iff kind provider = elim (Eq-cases provider internal_provider) [
    | inl (same, t) ↦ elim (Eq-cases kind "Secret") [
      | inl (secret, u) ↦ rw (t, u) (λ h. inl (same, secret), λ h. refl)
      | inr (other, u) ↦
          rw (t, u)
            (λ h. cc h, λ h. elim h [ inl p ↦ absurd (other p.1) | inr q ↦ absurd (q.0 same) ])
    ]
    | inr (other, f) ↦
        let kinds = kinds_iff (get_provider_cluster_identity_kinds (find provider)) kind provider in
        rw f (
          λ h. inr (other, kinds.0 h),
          λ h. elim h [ inl p ↦ absurd (other p.0) | inr q ↦ kinds.1 q.1 ],
        )
  ]

  abbrev pub AllSupport : (kind : String) → List String → Type 0
  AllSupport kind providers =
      All (λ p. (is_infrastructure p ≡ true) → Supports find kind p) providers

  check_providers_iff :
      (kind : String) (providers : List String)
      → (check_providers find kind providers ≡ none) ↔ AllSupport kind providers
  check_providers_iff kind [] = (λ h. tt, λ h. refl)
  check_providers_iff kind (p ∷ providers) = elim (Bool-cases (is_infrastructure p)) [
    | inr f ↦
        let rest = check_providers_iff kind providers in
        rw f (λ h. (λ t. cc t, rest.0 h), λ h. rest.1 h.1)
    | inl t ↦
        let first = check_provider_iff kind p in
        let rest = check_providers_iff kind providers in
        rw t (go (check_provider find kind p) first rest)
  ]
    where
      go :
          (o : Option CredentialError)
          → (o ≡ none) ↔ Supports find kind p
          → (check_providers find kind providers ≡ none) ↔ AllSupport kind providers
          → ((elim o [ some e ↦ some e | none ↦ check_providers find kind providers ]) ≡ none)
            ↔ ((true ≡ true → Supports find kind p) × AllSupport kind providers)
      go none first rest = (λ h. (λ t. first.0 refl, rest.0 h), λ h. rest.1 h.1)
      go (some e) first rest = (λ h. cc h, λ h. cc (first.1 (h.0 refl)))

module _ (get_credential : Fetched Credential)
    (scope_of : Credential → Resolved (String → Option ProviderInterface)) where
  -- A credential that can be read, is ready, and has an identity of a kind that each
  -- infrastructure provider supports.
  abbrev pub IsUsable : List String → Type 0
  IsUsable providers =
      (cred : Credential) × (get_credential ≡ found cred)
      × (cred.ready ≡ true)
      × ((kind : String) × (cred.identity_kind ≡ some kind)
          × ((find : String → Option ProviderInterface) × (scope_of cred ≡ ok find)
              × AllSupport find kind providers))

  -- The credential of a ClusterDeployment is accepted exactly when the template has an infrastructure
  -- provider and the credential can be read, is ready, and has an identity whose kind each
  -- infrastructure provider supports: the internal one takes a Secret, any other one a kind of its
  -- provider interface. Providers that are not of infrastructure do not matter.
  pub cluster_deploy_credential_iff :
      (providers : List String)
      → (cluster_deploy_credential get_credential scope_of providers ≡ none)
        ↔ ((any is_infrastructure providers ≡ true) × IsUsable providers)
  unfolding cluster_deploy_credential
  cluster_deploy_credential_iff [] = (λ h. cc h, λ h. cc h.0)
  cluster_deploy_credential_iff (p ∷ providers) =
      elim (Bool-cases (any is_infrastructure (p ∷ providers))) [
        | inr f ↦ rw f (λ h. cc h, λ h. cc h.0)
        | inl t ↦ rw t (
            let usable = fetched get_credential refl in
            (λ h. (refl, usable.0 h), λ h. usable.1 h.1))
      ]
    where
      scoped :
          (cred : Credential) (kind : String) (r : Resolved (String → Option ProviderInterface))
          → ((elim r [
            | error e ↦ some (unread_credential e)
            | ok find ↦ check_providers find kind (p ∷ providers)
          ])
              ≡ none)
            ↔ ((find : String → Option ProviderInterface) × (r ≡ ok find)
                × AllSupport find kind (p ∷ providers))
      scoped cred kind (error e) = (λ h. cc h, λ h. cc h.1)
      scoped cred kind (ok find) =
          let whole = check_providers_iff find kind (p ∷ providers) in
          (
            λ h. (find, refl, whole.0 h),
            λ h. whole.1 (subst (λ g. AllSupport g kind (p ∷ providers)) (sym (ok_same h.1)) h.2),
          )
        where
          ok_same : {a b : String → Option ProviderInterface} → ok a ≡ ok b → a ≡ b
          ok_same q = cc q

      identified :
          (cred : Credential) (o : Option String)
          → ((elim o [
            | none ↦ some no_identity
            | some kind ↦
                is_cred_identity_supports_cluster_template get_credential scope_of cred kind
                  (p ∷ providers)
          ])
              ≡ none)
            ↔ ((kind : String) × (o ≡ some kind)
                × ((find : String → Option ProviderInterface) × (scope_of cred ≡ ok find)
                    × AllSupport find kind (p ∷ providers)))
      identified cred none = (λ h. cc h, λ h. cc h.1)
      identified cred (some kind) =
          let whole = scoped cred kind (scope_of cred) in
          (
            λ h. (kind, refl, whole.0 h),
            λ h. whole.1 (
                subst
                  (λ k.
                    (find : String → Option ProviderInterface) × (scope_of cred ≡ ok find)
                    × AllSupport find k (p ∷ providers))
                  (sym (some-injective _ _ h.1)) h.2),
          )

      fetched :
          (f : Fetched Credential)
          → get_credential ≡ f
          → ((elim f [
            | not_found ↦ some (unread_credential "not found")
            | failed e ↦ some (unread_credential e)
            | found cred ↦ if not cred.ready then some not_ready else elim cred.identity_kind [
              | none ↦ some no_identity
              | some kind ↦
                  is_cred_identity_supports_cluster_template get_credential scope_of cred kind
                    (p ∷ providers)
            ]
          ])
              ≡ none)
            ↔ IsUsable (p ∷ providers)
      fetched not_found h = (λ e. cc e, λ u. cc (u.1, h))
      fetched (failed e) h = (λ e. cc e, λ u. cc (u.1, h))
      fetched (found cred) h = elim (Bool-cases cred.ready) [
        | inr f ↦
            rw f
              (λ e. cc e, λ u. cc (ap (λ (c : Credential). c.ready) (same_found (h) u.1), u.2, f))
        | inl t ↦
            let whole = identified cred cred.identity_kind in
            rw t (
              λ e. (cred, h, t, whole.0 e),
              λ u. whole.1 (
                  subst
                    (λ (c : Credential).
                      (kind : String) × (c.identity_kind ≡ some kind)
                      × ((find : String → Option ProviderInterface) × (scope_of c ≡ ok find)
                          × AllSupport find kind (p ∷ providers)))
                    (sym (same_found h u.1)) u.3),
            )
      ]
