-- ===== src/Services/Versions.antt =====
-- Versions of services: `ResolveServiceVersions` with `fillServiceVersions` and
-- `fillServiceWithValueVersions`, internal/serviceset/util.go. The slices are filled in place there;
-- here the filled list is returned. On an error the callers drop the slice.
pub mod Filled
use kcm.Prelude.{
  Bool, not, ◌&&◌, List, [], ◌∷◌, Option, none, some, String, if◌then◌else◌, ◌==◌, string_eq,
  ObjectKey, Resolved, ok, error, ◌>>=◌,
}
use kcm.Api.{Service, ServiceWithValues, ServiceTemplate, Client, Fetched, found, not_found, failed}

-- The version that a template states, else that of its Helm chart.
abbrev chart_version : ServiceTemplate → String
chart_version t = elim t.helm [
  | none ↦ ""
  | some helm ↦ elim helm.chart_spec [ none ↦ "" | some version ↦ version ]
]

unfoldable pub template_version : ServiceTemplate → String
template_version t = if t.version == "" then chart_version t else t.version

-- A failed Get is an error that names the template.
abbrev pub fetched_version : String → Fetched ServiceTemplate → Resolved String
fetched_version template (found t) =
    let version = template_version t in ok (if version == "" then template else version)
fetched_version template not_found = error template
fetched_version template (failed e) = error template

-- The version of one service: as it stands, or read off its template.
unfoldable pub resolve_version : Client → (namespace version template : String) → Resolved String
unfolding template_version
resolve_version c namespace version template =
    let read =
      fetched_version template
        (c.get_service_template (record { namespace = namespace; name = template })) in
    if version == "" && not (template == "") then read else ok version

unfoldable pub fill_service_versions : Client → String → List Service → Resolved (List Service)
unfolding resolve_version
fill_service_versions c namespace [] = ok []
fill_service_versions c namespace (svc ∷ services) = do
  version ← resolve_version c namespace svc.version svc.template
  rest ← fill_service_versions c namespace services
  ok ((record svc { version = version }) ∷ rest)

unfoldable pub fill_service_with_value_versions :
    Client → String → List ServiceWithValues → Resolved (List ServiceWithValues)
unfolding resolve_version
fill_service_with_value_versions c namespace [] = ok []
fill_service_with_value_versions c namespace (svc ∷ services) = do
  version ← resolve_version c namespace svc.version svc.template
  rest ← fill_service_with_value_versions c namespace services
  ok ((record svc { version = version }) ∷ rest)
