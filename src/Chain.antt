-- ===== src/Chain.antt =====
-- Template chains, api/v1beta1/templatechain_common.go: which templates a chain allows to upgrade
-- to, and the routes to them. A warning is a value here, in the order in which it is found; the
-- source sorts the messages at the end.
--
-- Fuel bounds the depth of `findPaths`. A call goes deeper only by marking a supported template
-- that is not marked yet, so one more than the supported templates is enough.
pub mod Routes
pub mod Valid
pub mod Longest
use kcm.Prelude.{
  ℕ, zero, suc, Bool, true, false, not, ◌&&◌, ◌||◌, List, [], ◌∷◌, ◌++◌, map, Option, none, some,
  String, if◌then◌else◌, ltb, length, any, filter_by, ◌==◌, string_eq, Map, insert, index_by,
  lookup, has_key, contains,
}
use kcm.Api.{AvailableUpgrade, SupportedTemplate, TemplateChainSpec, UpgradePath}

pub data Warning : Type 0 where
  not_supported : String → Warning
  mixed_versions : String → Warning

abbrev pub has_version : AvailableUpgrade → Bool
has_version u = not (u.version == "")

-- The names that some template may upgrade to, each once.
pub add_names : List AvailableUpgrade → List String → List String
add_names [] names = names
add_names (u ∷ us) names = add_names us (if contains names u.name then names else u.name ∷ names)

pub available_for_upgrade : List SupportedTemplate → List String → List String
unfolding add_names
available_for_upgrade [] names = names
available_for_upgrade (t ∷ ts) names =
    available_for_upgrade ts (add_names t.available_upgrades names)

-- Some upgrades of the template have a version and some have none.
abbrev pub is_mixed : SupportedTemplate → Bool
is_mixed t = elim t.available_upgrades [
  | [] ↦ false
  | u ∷ us ↦ any (λ v. if has_version u then not (has_version v) else has_version v) us
]

unfoldable pub chain_warnings : TemplateChainSpec → List Warning
unfolding available_for_upgrade
chain_warnings s =
    let supported = map (λ t. t.name) s.supported_templates in
    map not_supported
      (filter_by (λ n. not (contains supported n)) (available_for_upgrade s.supported_templates []))
    ++ map (λ t. mixed_versions t.name) (filter_by is_mixed s.supported_templates)

unfoldable pub chain_is_valid : TemplateChainSpec → Bool
unfolding chain_warnings
chain_is_valid s = elim (chain_warnings s) [ [] ↦ true | w ∷ ws ↦ false ]

-- templateMap
unfoldable pub template_map : TemplateChainSpec → Map String SupportedTemplate
unfolding index_by
template_map s = index_by (λ t. t.name) (λ t. t) s.supported_templates []

abbrev pub same_upgrade : AvailableUpgrade → AvailableUpgrade → Bool
same_upgrade v u = u.name == v.name && u.version == v.version

-- The loop of `findPaths` over the upgrades of a template. The results are appended in the order of
-- the source: a route, those that go on from it, and those of the next upgrade.
pub walk_upgrades :
    (String → List AvailableUpgrade → List String → List (List AvailableUpgrade))
    → List AvailableUpgrade
    → List AvailableUpgrade
    → List String
    → List (List AvailableUpgrade)
walk_upgrades find [] path visited = []
walk_upgrades find (u ∷ us) path visited =
    let rest = walk_upgrades find us path visited in
    let longer = path ++ u ∷ [] in
    if any (same_upgrade u) path then rest else (longer ∷ find u.name longer visited) ++ rest

-- `visited` holds the templates of the current path: the deferred reset makes it an argument.
pub find_paths :
    Map String SupportedTemplate
    → ℕ
    → String
    → List AvailableUpgrade
    → List String
    → List (List AvailableUpgrade)
unfolding walk_upgrades
find_paths templates zero current path visited = []
find_paths templates (suc fuel) current path visited =
    if contains visited current then [] else elim (lookup current templates) [
      | none ↦ []
      | some t ↦
          walk_upgrades (find_paths templates fuel) t.available_upgrades path (current ∷ visited)
    ]

-- `none` is the error for a template that is not supported.
unfoldable pub find_all_upgrade_paths :
    TemplateChainSpec → String → Option (List (List AvailableUpgrade))
unfolding find_paths template_map
find_all_upgrade_paths s name =
    if has_key name (template_map s)
    then some (find_paths (template_map s) (suc (length (template_map s))) name [] [])
    else none

abbrev pub last : List AvailableUpgrade → Option AvailableUpgrade
last [] = none
last (u ∷ us) = let rest = last us in elim us [ [] ↦ some u | _ ∷ _ ↦ rest ]

-- One path of the loop of `UpgradePaths`: it replaces a shorter one to its destination.
abbrev pub keep_longer :
    List AvailableUpgrade → Map String (List AvailableUpgrade) → Map String (List AvailableUpgrade)
keep_longer path unique = elim (last path) [
  | none ↦ unique
  | some key ↦ elim (lookup key.name unique) [
    | none ↦ insert key.name path unique
    | some existing ↦
        if ltb (length existing) (length path) then insert key.name path unique else unique
  ]
]

unfoldable pub unique_paths :
    List (List AvailableUpgrade)
    → Map String (List AvailableUpgrade)
    → Map String (List AvailableUpgrade)
unique_paths [] unique = unique
unique_paths (path ∷ paths) unique = unique_paths paths (keep_longer path unique)

-- if path[i].Version == "" { path[i].Version = path[i].Name }
abbrev pub fill_version : AvailableUpgrade → AvailableUpgrade
fill_version u = if u.version == "" then record u { version = u.name } else u

-- The routes in the order of the map's keys, which Go leaves open.
unfoldable pub upgrade_paths : TemplateChainSpec → String → Option (List UpgradePath)
unfolding find_all_upgrade_paths unique_paths
upgrade_paths s name = elim (find_all_upgrade_paths s name) [
  | none ↦ none
  | some paths ↦
      some (map (λ e. record { versions = map fill_version e.1 }) (unique_paths paths []))
]
