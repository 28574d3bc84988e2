-- ===== src/Validation/Templates.antt =====
-- Admission checks on the templates of services, internal/util/validation/services.go:
-- `ServicesHaveValidTemplates` and the two checks that it makes for each service. A joined error is
-- the list of its parts. The check of a namespace's name is the Kubernetes library's: a parameter
-- that returns its messages.
pub mod Admitted
use mathlib.Core.List.Memᴰ
use kcm.Prelude.{
  ◌≡◌, refl, sym, ◌∙◌, ap, subst, ◌⊎◌, inl, inr, ◌↔◌, true, true≢false, List, [], ◌∷◌, ◌++◌, map,
  Memᴰ, String, string_eq, ◌==◌, if◌then◌else◌, Bool-cases, Eq-cases,
}
use kcm.Api.{
  Service, ServiceTemplate, SupportedTemplate, ServiceTemplateChain, Client, Fetched, found,
  not_found, failed,
}

-- A part of the error, with the name of the object that it is about.
pub data TemplateError : Type 0 where
  bad_name not_read invalid_object not_supported : String → TemplateError

-- The messages on a name that is set.
abbrev pub name_errors : (String → List String) → String → List TemplateError
name_errors messages name = if name == "" then [] else map bad_name (messages name)

-- The error on a template that was asked for.
abbrev pub template_errors : String → Fetched ServiceTemplate → List TemplateError
template_errors name (found t) = if t.valid then [] else invalid_object name ∷ []
template_errors name not_found = not_read name ∷ []
template_errors name (failed e) = not_read name ∷ []

unfoldable pub validate_service_template : Client → Service → String → List TemplateError
validate_service_template c svc ns =
    template_errors svc.template
      (c.get_service_template (record { namespace = ns; name = svc.template }))

-- The loop over the supported templates: it goes on after an error, and ends at the first match.
-- At its end no match was found.
pub match_template : Client → Service → String → List SupportedTemplate → List TemplateError
match_template c svc ns [] = not_supported svc.template ∷ []
match_template c svc ns (t ∷ ts) =
    let later = match_template c svc ns ts in
    let errors =
      template_errors t.name (c.get_service_template (record { namespace = ns; name = t.name })) in
    if t.name == svc.template then elim errors [ [] ↦ [] | e ∷ es ↦ (e ∷ es) ++ later ] else later

unfoldable pub validate_service_template_chain : Client → Service → String → List TemplateError
unfolding match_template
validate_service_template_chain c svc ns =
    elim (c.get_service_template_chain (record { namespace = ns; name = svc.template_chain })) [
      | not_found ↦ not_read svc.template_chain ∷ []
      | failed e ↦ not_read svc.template_chain ∷ []
      | found chain ↦
          if chain.valid
          then match_template c svc ns chain.spec.supported_templates
          else invalid_object svc.template_chain ∷ []
    ]

unfoldable pub services_have_valid_templates :
    (messages : String → List String) → Client → List Service → String → List TemplateError
unfolding validate_service_template validate_service_template_chain
services_have_valid_templates messages c [] ns = []
services_have_valid_templates messages c (svc ∷ services) ns =
    name_errors messages svc.namespace
    ++ (name_errors messages svc.name
        ++ (validate_service_template c svc ns
            ++ ((if svc.template_chain == "" then [] else validate_service_template_chain c svc ns)
                ++ services_have_valid_templates messages c services ns)))
