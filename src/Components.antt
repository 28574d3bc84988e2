-- ===== src/Components.antt =====
-- The removal of components that are no longer wanted: `Cleanup`,
-- internal/controller/components/cleanup.go, with the names that it uses. `delete_release` and
-- `delete_secret` are client.Delete, where an object that is not found is no error, and
-- `get_secret` gives the value of the label that marks a managed Secret, or "" without it. The
-- requests that were made are kept in lists.
mod Wanted
pub mod Removal
use kcm.Prelude.{
  Bool, true, false, not, ◌||◌, List, [], ◌∷◌, Option, none, some, String, if◌then◌else◌, ◌==◌,
  string_eq, any, append_str,
}
use kcm.Api.{Fetched, found, not_found, failed, Listed, items, list_failed}

pub record HelmRelease : Type 0 where
  pub name : String
  pub is_owned : Bool

-- What is read of the Management or the Region, with the name of the KCM chart.
pub record Cluster : Type 0 where
  pub prefix : String
  pub kcm_chart_name : String
  pub providers : List String

abbrev pub core_capi_name : String
core_capi_name = "capi"

abbrev pub managed_label_value : String
managed_label_value = "true"

abbrev pub release_name : (prefix name : String) → String
release_name prefix name =
    if not (prefix == "") then append_str prefix (append_str "-" name) else name

abbrev pub templates_chart_from_release_name : String → String
templates_chart_from_release_name release = append_str release "-tpl"

abbrev pub get_provider_config_secret_name : String → String
get_provider_config_secret_name component = append_str component "-variables"

-- The components that stay.
abbrev pub is_kept : Cluster → (releases : List String) → String → Bool
is_kept c releases component =
    component == release_name c.prefix core_capi_name
    || (component == release_name c.prefix c.kcm_chart_name
        || (any (λ r. component == templates_chart_from_release_name r) releases
            || any (λ p. component == release_name c.prefix p) c.providers))

-- The HelmReleases and the Secrets whose deletion was requested, and the errors.
pub record Cleaned : Type 0 where
  pub releases : List String
  pub secrets : List String
  pub errors : List String

module _ (delete_release delete_secret : String → Option String)
    (get_secret : String → Fetched String) where
  -- What the loop does next comes in front of what it does later.
  abbrev pub remove_secret : (secret : String) → Cleaned → Cleaned
  remove_secret secret later = elim (get_secret secret) [
    | not_found ↦ later
    | failed e ↦ record later { errors = e ∷ later.errors }
    | found label ↦
        if not (label == managed_label_value) then later else elim (delete_secret secret) [
          | some e ↦ record later { secrets = secret ∷ later.secrets; errors = e ∷ later.errors }
          | none ↦ record later { secrets = secret ∷ later.secrets }
        ]
  ]

  abbrev pub remove_component : (component : String) → Cleaned → Cleaned
  remove_component component later =
      let after = remove_secret (get_provider_config_secret_name component) later in
      elim (delete_release component) [
        | some e ↦ record later { releases = component ∷ later.releases; errors = e ∷ later.errors }
        | none ↦ record after { releases = component ∷ after.releases }
      ]

  abbrev pub remove_components : Cluster → (releases : List String) → List HelmRelease → Cleaned
  remove_components c releases [] = record { releases = []; secrets = []; errors = [] }
  remove_components c releases (hr ∷ hrs) =
      let later = remove_components c releases hrs in
      let removed = remove_component hr.name later in
      if hr.is_owned then later else if is_kept c releases hr.name then later else removed

  abbrev pub stopped : String → Cleaned
  stopped e = record { releases = []; secrets = []; errors = e ∷ [] }

  -- The Releases are listed only where there are HelmReleases.
  abbrev pub remove_listed : Cluster → Listed String → List HelmRelease → Cleaned
  remove_listed c releases [] = remove_components c [] []
  remove_listed c (list_failed e) (hr ∷ hrs) = stopped e
  remove_listed c (items releases) (hr ∷ hrs) = remove_components c releases (hr ∷ hrs)

  unfoldable pub cleanup :
      Cluster → (bad_selector : Option String) → Listed HelmRelease → Listed String → Cleaned
  cleanup c (some e) listed releases = stopped e
  cleanup c none (list_failed e) releases = stopped e
  cleanup c none (items hrs) releases = remove_listed c releases hrs
