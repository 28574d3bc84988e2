-- ===== src/Services/Versions/Filled.antt =====
-- What `ResolveServiceVersions` leaves of the services, internal/serviceset/util.go.
use kcm.Prelude.{
  Resolved, ok, error, ◌>>=◌, ◌≡◌, ◌≢◌, refl, sym, ◌∙◌, ap, subst, ◌⊎◌, inl, inr, true≢false, List,
  [], ◌∷◌, Memᴰ, String, string_eq, ◌==◌, Bool-cases,
}
use kcm.Api.{Service, ServiceTemplate, Client, Fetched, found, not_found, failed}
use kcm.Services.Versions.{
  template_version, fetched_version, resolve_version, fill_service_versions,
}

module _ (c : Client) (namespace : String) where
  -- The version that is read off a template.
  abbrev pub IsRead : (template version : String) → Type 0
  IsRead template version =
      (t : ServiceTemplate) × (c.get_service_template
          (record { namespace = namespace; name = template })
        ≡ found t)
      × (((template_version t ≢ "") × (version ≡ template_version t))
          ⊎ ((template_version t ≡ "") × (version ≡ template)))

  -- The template cannot be read.
  abbrev pub IsUnread : String → Type 0
  IsUnread template =
      (t : ServiceTemplate)
      → ¬ (c.get_service_template (record { namespace = namespace; name = template }) ≡ found t)

  -- What a version becomes.
  abbrev pub VersionOf : (version template : String) → Resolved String → Type 0
  VersionOf version template (ok v) =
      (((version ≢ "") ⊎ (template ≡ "")) × (v ≡ version))
      ⊎ ((version ≡ "") × (template ≢ "") × IsRead template v)
  VersionOf version template (error e) =
      (version ≡ "") × (template ≢ "") × IsUnread template × (e ≡ template)

  fetched_version-VersionOf :
      (version template : String) (answer : Fetched ServiceTemplate)
      → version ≡ ""
      → template ≢ ""
      → c.get_service_template (record { namespace = namespace; name = template }) ≡ answer
      → VersionOf version template (fetched_version template answer)
  fetched_version-VersionOf version template (found t) p q e =
      elim (Bool-cases (template_version t == "")) [
        | inl none_stated ↦ rw none_stated (
            inr
              (p, q, (t, e, inr ((string_eq.beq_iff (template_version t) "").0 none_stated, refl))))
        | inr stated ↦ rw stated (
            inr (
              p,
              q,
              (
                t,
                e,
                inl (
                  (λ r.
                      true≢false (sym ((string_eq.beq_iff (template_version t) "").1 r) ∙ stated)),
                  refl,
                ),
              ),
            ))
      ]
  fetched_version-VersionOf version template not_found p q e = (p, q, λ t r. cc, refl)
  fetched_version-VersionOf version template (failed x) p q e = (p, q, λ t r. cc, refl)

  pub resolve_version-VersionOf :
      (version template : String)
      → VersionOf version template (resolve_version c namespace version template)
  unfolding resolve_version
  resolve_version-VersionOf version template = elim (Bool-cases (version == "")) [
    | inl empty ↦ elim (Bool-cases (template == "")) [
      | inl none_named ↦
          rw (empty, none_named) (inl (inr ((string_eq.beq_iff template "").0 none_named), refl))
      | inr named ↦
          rw (empty, named)
            (fetched_version-VersionOf version template _ ((string_eq.beq_iff version "").0 empty)
              (λ r. true≢false (sym ((string_eq.beq_iff template "").1 r) ∙ named)) refl)
    ]
    | inr stated ↦
        rw stated
          (inl (inl (λ r. true≢false (sym ((string_eq.beq_iff version "").1 r) ∙ stated)), refl))
  ]

  -- Each service keeps all but its version.
  abbrev pub Filled : List Service → List Service → Type 0
  Filled [] [] = Unit
  Filled [] (t ∷ ts) = ⊥
  Filled (s ∷ ss) [] = ⊥
  Filled (s ∷ ss) (t ∷ ts) =
      (t ≡ record s { version = t.version })
      × VersionOf s.version s.template (ok t.version)
      × Filled ss ts

  abbrev pub FilledOrFailed : List Service → Resolved (List Service) → Type 0
  FilledOrFailed services (ok filled) = Filled services filled
  FilledOrFailed services (error e) =
      (svc : Service) × Memᴰ svc services × VersionOf svc.version svc.template (error e)

  -- `fillServiceVersions` returns the services in order, each changed in its version only: the
  -- version stays where it is stated or no template is named, else it is the one that the template
  -- states, or the template's name where it states none. An error is the name of a template that a
  -- service without a version names and that cannot be read.
  pub fill_service_versions-Filled :
      (services : List Service)
      → FilledOrFailed services (fill_service_versions c namespace services)
  unfolding fill_service_versions
  fill_service_versions-Filled [] = tt
  fill_service_versions-Filled (svc ∷ services) =
      go (resolve_version c namespace svc.version svc.template)
        (resolve_version-VersionOf svc.version svc.template)
        (fill_service_versions c namespace services) (fill_service_versions-Filled services)
    where
      go :
          (v : Resolved String)
          → VersionOf svc.version svc.template v
          → (rest : Resolved (List Service)) → FilledOrFailed services rest
          → FilledOrFailed
              (svc ∷ services)
              (v >>= (λ version. rest >>= (λ r. ok ((record svc { version = version }) ∷ r))))
      go (ok v) h (ok rest) k = (refl, h, k)
      go (ok v) h (error e) (s, m, k) = (s, Memᴰ.tail m, k)
      go (error e) h rest k = (svc, Memᴰ.head refl, h)

-- A version that needs no template.
IsStated : (version template : String) → Type 0
IsStated version template = (version ≢ "") ⊎ (template ≡ "")

resolve_version-stated :
    (c : Client) (namespace version template : String)
    → IsStated version template
    → resolve_version c namespace version template ≡ ok version
unfolding resolve_version IsStated
resolve_version-stated c namespace version template (inl full) = elim (Bool-cases (version == "")) [
  | inl empty ↦ absurd (full ((string_eq.beq_iff version "").0 empty))
  | inr stated ↦ rw stated refl
]
resolve_version-stated c namespace version template (inr none_named) =
    elim (Bool-cases (version == "")) [
      | inl empty ↦ rw (empty, (string_eq.beq_iff template "").1 none_named) refl
      | inr stated ↦ rw stated refl
    ]

-- What a template gives is not empty where the template is named.
VersionOf-IsStated :
    (c : Client) (namespace version template v : String)
    → VersionOf c namespace version template (ok v)
    → IsStated v template
unfolding IsStated
VersionOf-IsStated c namespace version template v (inl (inl full, p)) =
    inl (subst (λ x. x ≢ "") (sym p) full)
VersionOf-IsStated c namespace version template v (inl (inr none_named, p)) = inr none_named
VersionOf-IsStated c namespace version template v (inr (p, q, (t, e, inl (full, r)))) =
    inl (subst (λ x. x ≢ "") (sym r) full)
VersionOf-IsStated c namespace version template v (inr (p, q, (t, e, inr (empty, r)))) =
    inl (subst (λ x. x ≢ "") (sym r) q)

Filled-stable :
    (c : Client) (namespace : String) (services filled : List Service)
    → Filled c namespace services filled
    → (d : Client) (elsewhere : String) → fill_service_versions d elsewhere filled ≡ ok filled
unfolding fill_service_versions
Filled-stable c namespace [] [] h d elsewhere = refl
Filled-stable c namespace [] (t ∷ ts) h d elsewhere = absurd h
Filled-stable c namespace (s ∷ ss) [] h d elsewhere = absurd h
Filled-stable c namespace (s ∷ ss) (t ∷ ts) (p, h, k) d elsewhere =
    let same : t.template ≡ s.template = ap (λ x. x.template) p in
    rw
      (
        resolve_version-stated d elsewhere t.version t.template (
            subst (λ x. IsStated t.version x) (sym same)
              (VersionOf-IsStated c namespace s.version s.template t.version h)),
        Filled-stable c namespace ss ts k d elsewhere,
      )
      refl

-- Services whose versions have been filled stay as they are when they are filled again, whatever
-- the API server then holds.
pub fill_service_versions-stable :
    (c : Client) (namespace : String) (services filled : List Service)
    → fill_service_versions c namespace services ≡ ok filled
    → (d : Client) (elsewhere : String) → fill_service_versions d elsewhere filled ≡ ok filled
fill_service_versions-stable c namespace services filled e =
    Filled-stable c namespace services filled (
      subst (FilledOrFailed c namespace services) e
        (fill_service_versions-Filled c namespace services))
