-- ===== src/Validation/Templates/Admitted.antt =====
-- Which services `ServicesHaveValidTemplates` admits, internal/util/validation/services.go.
use mathlib.Core.List.Memᴰ
use kcm.Prelude.{
  ◌≡◌, refl, sym, ◌∙◌, ap, subst, ◌⊎◌, inl, inr, ◌↔◌, true, true≢false, List, [], ◌∷◌, ◌++◌, map,
  Memᴰ, String, string_eq, ◌==◌, if◌then◌else◌, Bool-cases, Eq-cases,
}
use kcm.Api.{
  Service, ServiceTemplate, SupportedTemplate, ServiceTemplateChain, Client, Fetched, found,
  not_found, failed,
}
use kcm.Validation.Templates.{
  TemplateError, bad_name, not_read, invalid_object, name_errors, template_errors,
  validate_service_template, match_template, validate_service_template_chain,
  services_have_valid_templates,
}

module _ (messages : String → List String) (c : Client) (ns : String) where
  -- A name is empty or accepted.
  abbrev pub IsName : String → Type 0
  IsName name = (name ≡ "") ⊎ (messages name ≡ [])

  -- A template is there and valid.
  abbrev pub IsReady : String → Type 0
  IsReady name =
      (t : ServiceTemplate) × (c.get_service_template (record { namespace = ns; name = name })
        ≡ found t)
      × (t.valid ≡ true)

  -- A chain is there and valid, and supports the template.
  abbrev pub Supports : String → String → Type 0
  Supports chain_name template =
      (chain : ServiceTemplateChain) × (c.get_service_template_chain
          (record { namespace = ns; name = chain_name })
        ≡ found chain)
      × (chain.valid ≡ true)
      × Memᴰ template (map (λ t. t.name) chain.spec.supported_templates)

  abbrev pub IsAdmitted : Service → Type 0
  IsAdmitted svc =
      IsName svc.namespace
      × IsName svc.name
      × IsReady svc.template
      × ((svc.template_chain ≡ "") ⊎ Supports svc.template_chain svc.template)

  append-nil_iff : {A : Type 0} (xs ys : List A) → (xs ++ ys ≡ []) ↔ ((xs ≡ []) × (ys ≡ []))
  append-nil_iff [] ys = (λ h. (refl, h), λ h. h.1)
  append-nil_iff (x ∷ xs) ys = (λ h. cc, λ h. cc)

  name_errors_iff : (name : String) → (name_errors messages name ≡ []) ↔ IsName name
  name_errors_iff name = elim (Bool-cases (name == "")) [
    | inl empty ↦ (λ h. inl ((string_eq.beq_iff name "").0 empty), λ h. rw empty refl)
    | inr set ↦ (
      λ h. inr (map-nil (messages name) (rw set at h)),
      λ h. elim h [
        | inl p ↦ absurd (true≢false (sym ((string_eq.beq_iff name "").1 p) ∙ set))
        | inr p ↦ rw (set, p) refl
      ],
    )
  ]
    where
      map-nil : (xs : List String) → map bad_name xs ≡ [] → xs ≡ []
      map-nil [] h = refl
      map-nil (x ∷ xs) h = cc

  template_errors_iff :
      (name : String)
      → (template_errors name (c.get_service_template (record { namespace = ns; name = name }))
          ≡ [])
        ↔ IsReady name
  template_errors_iff name =
      go (c.get_service_template (record { namespace = ns; name = name })) refl
    where
      go :
          (answer : Fetched ServiceTemplate)
          → c.get_service_template (record { namespace = ns; name = name }) ≡ answer
          → (template_errors name answer ≡ []) ↔ IsReady name
      go (found t) e = elim (Bool-cases t.valid) [
        | inl ready ↦ (λ h. (t, e, ready), λ h. rw ready refl)
        | inr broken ↦ (λ h. cc (rw broken at h), λ (u, p, ready). cc (sym e ∙ p))
      ]
      go not_found e = (λ h. cc, λ (u, p, ready). cc (sym e ∙ p))
      go (failed x) e = (λ h. cc, λ (u, p, ready). cc (sym e ∙ p))

  match_template_iff :
      (svc : Service) (ts : List SupportedTemplate)
      → (match_template c svc ns ts ≡ [])
        ↔ (Memᴰ svc.template (map (λ t. t.name) ts) × IsReady svc.template)
  unfolding match_template
  match_template_iff svc [] = (λ h. cc, λ (m, ready). elim m [ ])
  match_template_iff svc (t ∷ ts) =
      let later = match_template_iff svc ts in
      elim (Eq-cases t.name svc.template) [
        | inr (other, f) ↦ (
          λ h. let (m, ready) = later.0 (rw f at h) in (Memᴰ.tail m, ready),
          λ (m, ready). elim (Memᴰ.cases_cons m) [
            | inl p ↦ absurd (other (sym p))
            | inr n ↦ rw f (later.1 (n, ready))
          ],
        )
        | inl (same, s) ↦
            go same s
              (template_errors t.name
                (c.get_service_template (record { namespace = ns; name = t.name })))
              refl (template_errors_iff t.name)
      ]
    where
      go :
          t.name ≡ svc.template
          → (t.name == svc.template) ≡ true
          → (errors : List TemplateError)
          → template_errors t.name
              (c.get_service_template (record { namespace = ns; name = t.name }))
            ≡ errors
          → (template_errors t.name
                (c.get_service_template (record { namespace = ns; name = t.name }))
              ≡ [])
            ↔ IsReady t.name
          → (match_template c svc ns (t ∷ ts) ≡ [])
            ↔ (Memᴰ svc.template (map (λ x. x.name) (t ∷ ts)) × IsReady svc.template)
      go same s [] e iff =
          (λ h. (Memᴰ.head (sym same), subst IsReady same (iff.0 e)), λ h. rw (s, e) refl)
      go same s (x ∷ xs) e iff = (
        λ h. cc (rw (s, e) at h),
        λ (m, ready). cc (sym e ∙ iff.1 (subst IsReady (sym same) ready)),
      )

  found_injective : {A : Type 0} {a b : A} → found a ≡ found b → a ≡ b
  found_injective {a = a} p = ap (λ x. elim x [ found y ↦ y | not_found ↦ a | failed e ↦ a ]) p

  chain_iff :
      (svc : Service)
      → IsReady svc.template
      → (validate_service_template_chain c svc ns ≡ []) ↔ Supports svc.template_chain svc.template
  unfolding validate_service_template_chain
  chain_iff svc ready =
      go (c.get_service_template_chain (record { namespace = ns; name = svc.template_chain })) refl
    where
      go :
          (answer : Fetched ServiceTemplateChain)
          → c.get_service_template_chain (record { namespace = ns; name = svc.template_chain })
            ≡ answer
          → ((elim answer [
            | not_found ↦ not_read svc.template_chain ∷ []
            | failed e ↦ not_read svc.template_chain ∷ []
            | found chain ↦
                if chain.valid
                then match_template c svc ns chain.spec.supported_templates
                else invalid_object svc.template_chain ∷ []
          ])
              ≡ [])
            ↔ Supports svc.template_chain svc.template
      go (found chain) e = elim (Bool-cases chain.valid) [
        | inl valid ↦ (
          λ h. (
            chain,
            e,
            valid,
            ((match_template_iff svc chain.spec.supported_templates).0 (rw valid at h)).0,
          ),
          λ (other, p, v, m).
              let same : found other ≡ found chain = sym p ∙ e in
              rw valid (
                (match_template_iff svc chain.spec.supported_templates).1 (
                  subst (λ x. Memᴰ svc.template (map (λ t. t.name) x.spec.supported_templates))
                      (found_injective same) m,
                  ready,
                )),
        )
        | inr broken ↦ (
          λ h. cc (rw broken at h),
          λ (other, p, v, m).
              absurd
                (true≢false (sym v ∙ ap (λ x. x.valid) (found_injective (sym p ∙ e)) ∙ broken)),
        )
      ]
      go not_found e = (λ h. cc, λ (other, p, v, m). cc (sym e ∙ p))
      go (failed x) e = (λ h. cc, λ (other, p, v, m). cc (sym e ∙ p))

  chained :
      (svc : Service)
      → IsReady svc.template
      → ((if svc.template_chain == "" then [] else validate_service_template_chain c svc ns) ≡ [])
        ↔ ((svc.template_chain ≡ "") ⊎ Supports svc.template_chain svc.template)
  chained svc ready = elim (Bool-cases (svc.template_chain == "")) [
    | inl empty ↦ (λ h. inl ((string_eq.beq_iff svc.template_chain "").0 empty), λ h. rw empty refl)
    | inr set ↦ (
      λ h. inr ((chain_iff svc ready).0 (rw set at h)),
      λ h. elim h [
        | inl p ↦ absurd (true≢false (sym ((string_eq.beq_iff svc.template_chain "").1 p) ∙ set))
        | inr p ↦ rw set ((chain_iff svc ready).1 p)
      ],
    )
  ]

  -- No error is returned by `ServicesHaveValidTemplates` exactly when for each service the namespace and
  -- the name are empty or accepted names, the template is there and valid, and the template chain,
  -- where one is named, is there and valid and supports the template.
  pub services_have_valid_templates_iff :
      (services : List Service)
      → (services_have_valid_templates messages c services ns ≡ [])
        ↔ ((svc : Service) → Memᴰ svc services → IsAdmitted svc)
  unfolding services_have_valid_templates validate_service_template
  services_have_valid_templates_iff [] = (λ h svc m. elim m [ ], λ h. refl)
  services_have_valid_templates_iff (svc ∷ services) =
      let later = services_have_valid_templates_iff services in
      let tail = services_have_valid_templates messages c services ns in
      let chain_errors : List TemplateError =
        if svc.template_chain == "" then [] else validate_service_template_chain c svc ns in
      let own_template = validate_service_template c svc ns in
      let namespaces =
        append-nil_iff (name_errors messages svc.namespace)
          (name_errors messages svc.name ++ (own_template ++ (chain_errors ++ tail))) in
      let names =
        append-nil_iff (name_errors messages svc.name) (own_template ++ (chain_errors ++ tail)) in
      let templates = append-nil_iff own_template (chain_errors ++ tail) in
      let chains = append-nil_iff chain_errors tail in
      (
        λ h.
            let (a, h₁) = namespaces.0 h in
            let (b, h₂) = names.0 h₁ in
            let (d, h₃) = templates.0 h₂ in
            let (f, g) = chains.0 h₃ in
            let ready = (template_errors_iff svc.template).0 d in
            let own : IsAdmitted svc = (
              (name_errors_iff svc.namespace).0 a,
              (name_errors_iff svc.name).0 b,
              ready,
              (chained svc ready).0 f,
            ) in
            λ s m. elim (Memᴰ.cases_cons m) [
              | inl p ↦ subst IsAdmitted (sym p) own
              | inr n ↦ later.0 g s n
            ],
        λ h.
            let (a, b, ready, f) = h svc (Memᴰ.head refl) in
            let h₃ = chains.1 ((chained svc ready).1 f, later.1 (λ s n. h s (Memᴰ.tail n))) in
            let h₂ = templates.1 ((template_errors_iff svc.template).1 ready, h₃) in
            let h₁ = names.1 ((name_errors_iff svc.name).1 b, h₂) in
            namespaces.1 ((name_errors_iff svc.namespace).1 a, h₁),
      )
