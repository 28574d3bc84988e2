-- ===== src/Services/Upgrades.antt =====
-- Upgrade paths of services, internal/serviceset/util.go: `ServicesWithDesiredChains`,
-- `ServicesUpgradePaths`, `nextUpgradeStep` and `desiredTemplateInUpgradePaths`.
pub mod Hops
pub mod Steps
use kcm.Prelude.{
  ℕ, zero, suc, ◌+◌, Bool, true, false, not, ◌&&◌, ◌||◌, List, [], ◌∷◌, ◌++◌, map, Option, none,
  some, String, if◌then◌else◌, ltb, take, get_elem?, index_of, any, ◌==◌, string_eq, ObjectKey,
  key_eq, Map, index_by, get_or,
}
use kcm.Api.{
  Service, ServiceWithValues, AvailableUpgrade, UpgradePath, ServiceUpgradePaths, Client, Fetched,
  found, not_found, failed,
}
use kcm.Services.Keys.{effective_namespace, key_of, stored_key}
use kcm.Chain.{upgrade_paths}

-- The services of `ServicesWithDesiredChains`; the fields that it does not set are zero.
unfoldable pub services_with_desired_chains : List Service → List ServiceWithValues → List Service
unfolding index_by effective_namespace
services_with_desired_chains desired deployed =
    let chains = index_by key_of (λ s. s.template_chain) desired [] in
    map
      (λ svc. record {
        helm_options = none;
        helm_action = "";
        name = svc.name;
        namespace = effective_namespace svc.namespace;
        template = svc.template;
        template_chain = get_or (stored_key svc) chains "";
        version = "";
        values = "";
        values_from = [];
        depends_on = [];
        disable = false;
      })
      deployed

-- A service without a chain may be upgraded to itself.
abbrev self_upgrade : Service → List UpgradePath
self_upgrade svc =
    record {
      versions =
          record {
            name = svc.template;
            version = if svc.version == "" then svc.template else svc.version;
          }
          ∷ [];
    }
    ∷ []

-- The available upgrades of one service; `none` is an error.
available : Client → String → Service → Option (List UpgradePath)
unfolding upgrade_paths
available c namespace svc =
    let chain =
      c.get_service_template_chain (record { namespace = namespace; name = svc.template_chain }) in
    if svc.template_chain == "" then some (self_upgrade svc) else elim chain [
      | found chain ↦ upgrade_paths chain.spec svc.template
      | not_found ↦ none
      | failed e ↦ none
    ]

-- The paths of the services whose upgrades are found, and the keys of the others, whose errors the
-- source joins.
unfoldable pub services_upgrade_paths :
    Client → List Service → String → List ServiceUpgradePaths × List ObjectKey
unfolding available effective_namespace
services_upgrade_paths c [] namespace = ([], [])
services_upgrade_paths c (svc ∷ services) namespace =
    let (paths, errs) = services_upgrade_paths c services namespace in
    elim (available c namespace svc) [
      | none ↦ (paths, key_of svc ∷ errs)
      | some upgrades ↦ (
        record {
          name = svc.name;
          namespace = effective_namespace svc.namespace;
          template = svc.template;
          available_upgrades = upgrades;
        }
            ∷ paths,
        errs,
      )
    ]

abbrev pub no_upgrade : AvailableUpgrade
no_upgrade = record { name = ""; version = "" }

-- `best` and `bestLen`.
pub record Best : Type 0 where
  pub best : AvailableUpgrade
  pub best_len : ℕ

abbrev pub is_template : String → AvailableUpgrade → Bool
is_template template u = u.name == template

-- The position of the hop after the one that the service sits at, in front of the target.
unfoldable pub next_position :
    (current : String) (versions : List AvailableUpgrade) (target : ℕ) → ℕ
next_position current versions target =
    elim (index_of (is_template current) (take target versions)) [ none ↦ 0 | some at ↦ suc at ]

-- route.Versions[i]; the position is never out of range.
abbrev pub hop : List AvailableUpgrade → ℕ → AvailableUpgrade
hop versions i = elim (get_elem? versions i) [ none ↦ no_upgrade | some u ↦ u ]

-- One route that is walked.
unfoldable pub try_route : (current desired : String) → UpgradePath → Best → Best
unfolding next_position
try_route current desired route b = elim (index_of (is_template desired) route.versions) [
  | none ↦ b
  | some target ↦
      if ltb b.best_len (suc target)
      then record {
        best = hop route.versions (next_position current route.versions target);
        best_len = suc target;
      }
      else b
]

unfoldable pub try_routes : (current desired : String) → List UpgradePath → Best → Best
unfolding try_route
try_routes current desired [] b = b
try_routes current desired (route ∷ routes) b =
    try_routes current desired routes (try_route current desired route b)

-- The paths that were computed for the service, and for its current template where both are known.
abbrev pub concerns : (name namespace current : String) → ServiceUpgradePaths → Bool
concerns name namespace current path =
    path.name == name
    && effective_namespace path.namespace == effective_namespace namespace
    && not (not (path.template == "") && not (current == "") && not (path.template == current))

walk_paths : (name namespace current desired : String) → List ServiceUpgradePaths → Best → Best
unfolding try_routes effective_namespace
walk_paths name namespace current desired [] b = b
walk_paths name namespace current desired (path ∷ paths) b =
    walk_paths name namespace current desired paths (
      if concerns name namespace current path
      then try_routes current desired path.available_upgrades b
      else b)

unfoldable pub next_upgrade_step :
    List ServiceUpgradePaths → (name namespace current desired : String) → AvailableUpgrade
unfolding walk_paths
next_upgrade_step paths name namespace current desired =
    (walk_paths name namespace current desired paths
      (record { best = no_upgrade; best_len = 0 })).best

-- The first entry for the service decides.
unfoldable pub desired_template_in_upgrade_paths :
    List ServiceUpgradePaths → ServiceWithValues → (template version : String) → Bool
unfolding effective_namespace
desired_template_in_upgrade_paths [] svc template version = false
desired_template_in_upgrade_paths (path ∷ paths) svc template version =
    let later = desired_template_in_upgrade_paths paths svc template version in
    if not (path.name == svc.name) || not (path.namespace == effective_namespace svc.namespace)
    then later
    else if not (path.template == svc.template)
    then false
    else any (λ route. any (λ u. u.name == template || u.version == version) route.versions)
        path.available_upgrades
