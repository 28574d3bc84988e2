-- ===== src/Samples.antt =====
-- Two services of a cluster, where the second depends on the first, the ServiceSet that holds them
-- once the first is deployed, and a chain of templates: the theorems at these.
mod Distribution
mod Measures
mod Operations
mod Rollout
use kcm.Prelude.{
  ℕ, ◌≤◌, ◌≡◌, refl, List, [], ◌∷◌, map, Memᴰ, Option, none, some, String, ObjectKey, key_beq, Bool,
  true, false, IsNodup, if◌then◌else◌, ◌==◌, string_eq, key_eq, ◌↔◌, ◌⊎◌, get_or,
}
use kcm.Api.{
  Service, ServiceDependsOn, ServiceWithValues, ServiceState, ServiceSet, AvailableUpgrade,
  SupportedTemplate, TemplateChainSpec, ServiceUpgradePaths, Client, found, not_found, items,
  service_state_deployed,
}
use kcm.Graph.{Graph, has_cycle}
use kcm.Graph.Exact.{Exact, has_cycle-Exact}
use kcm.Validation.{validate_service_dependency_overall}
use kcm.Validation.Dependencies.{direct}
use kcm.Validation.Admission.{AreDistinct, Accurate, validate-Accurate}
use kcm.Services.Keys.{effective_namespace, service_key, service_version, key_of, stored_key}
use kcm.Services.Filter.{eligible, filter_service_dependencies}
use kcm.Services.Filter.Eligible.{Correct, filter-Correct, IsDone, eligible-IsDone}
use kcm.Services.Deploy.{is_in_flight, services_to_deploy}
use kcm.Services.Deploy.Filed.{Kept}
use kcm.Services.Deploy.Targets.{services_to_deploy-Targets}
use kcm.Services.Order.{rank_of, ranks, build_services_list}
use kcm.Prelude.{Ascending}
use kcm.Services.Order.Merged.{build_services_list-Merged}
use kcm.Services.Keys.{fully_deployed, deployed_versions}
use kcm.Services.Keys.Confirmed.{AllConfirmed, fully_deployed-AllConfirmed}
use kcm.Prelude.{ok}
use kcm.Services.Versions.{fill_service_versions}
use kcm.Services.Versions.Filled.{
  FilledOrFailed, fill_service_versions-Filled, fill_service_versions-stable,
}
use kcm.Services.Upgrades.{next_upgrade_step}
use kcm.Services.Upgrades.Steps.{IsNextStep, next_upgrade_step-IsNextStep}
use kcm.Chain.{find_all_upgrade_paths, upgrade_paths}
use kcm.Chain.Routes.{AllRoutes, find_all_upgrade_paths-AllRoutes}
use kcm.Chain.Longest.{OnePerDestination, upgrade_paths-OnePerDestination}
use kcm.Api.{MultiClusterService}
use kcm.Validation.Templates.{services_have_valid_templates}
use kcm.Validation.Templates.Admitted.{IsAdmitted, services_have_valid_templates_iff}
use kcm.Validation.Owners.{key_of_mcs, validate_mcs_delete}
use kcm.Validation.Owners.Deletion.{IsFree, mentions, validate_mcs_delete_iff}
use kcm.Services.Order.Respected.{build_services_list-Respected}
use kcm.Validation.{valid}
use kcm.Validation.Dependencies.{Depends}
use kcm.Prelude.{subst}
use kcm.Chain.{chain_is_valid}
use kcm.Chain.Valid.{IsTarget, IsUniform, chain_is_valid_iff}

abbrev dependency : String → ServiceDependsOn
dependency n = record { name = n; namespace = "apps" }

abbrev service : String → List ServiceDependsOn → Service
service n depends_on = record {
  helm_options = none;
  helm_action = "";
  name = n;
  namespace = "apps";
  template = "t-1";
  template_chain = "";
  version = "1";
  values = "";
  values_from = [];
  depends_on = depends_on;
  disable = false;
}

abbrev database : Service
database = service "db" []

abbrev web : Service
web = service "web" (dependency "db" ∷ [])

abbrev both : List Service
both = database ∷ web ∷ []

abbrev stored_service : String → ServiceWithValues
stored_service n = record {
  helm_options = none;
  version = "1";
  helm_action = "";
  name = n;
  namespace = "apps";
  template = "t-1";
  values = "";
  values_from = [];
}

abbrev deployed_state : String → ServiceState
deployed_state n = record {
  version = "1";
  type = "Helm";
  name = n;
  namespace = "apps";
  template = "t-1";
  state = service_state_deployed;
  failure_message = "";
  last_deployed_hash = "";
}

-- The ServiceSet with stored services and states.
abbrev set_of : List ServiceWithValues → List ServiceState → ServiceSet
set_of services states = record {
  name = "c-1";
  namespace = "ns";
  labels = [];
  owner_references = [];
  spec = record {
    cluster = "c";
    multi_cluster_service = "";
    provider = record { config = none; name = "ksm-projectsveltos"; self_management = false };
    services = services;
  };
  status = record { services = states; deployed = true };
}

abbrev half_deployed : ServiceSet
half_deployed = set_of (stored_service "db" ∷ []) (deployed_state "db" ∷ [])

both-AreDistinct : AreDistinct both
unfolding service_key effective_namespace key_beq
both-AreDistinct = (refl, (refl, tt))

both-eligible : filter_service_dependencies half_deployed both ≡ eligible both
unfolding filter_service_dependencies service_key service_version effective_namespace key_beq
both-eligible = refl

filter-Correct_example : Correct half_deployed both (filter_service_dependencies half_deployed both)
filter-Correct_example = filter-Correct half_deployed both both-AreDistinct

eligible-IsDone_example : IsDone half_deployed both (key_of database)
eligible-IsDone_example =
    eligible-IsDone half_deployed both both web (key_of database) both-AreDistinct both-eligible
      (Memᴰ.tail (Memᴰ.head refl))
      (direct web (dependency "db") (Memᴰ.tail (Memᴰ.head refl)) (Memᴰ.head refl) refl refl)

-- The keys of a map in the order of its entries.
abbrev keys_of : Graph → List ObjectKey
keys_of graph = map (λ e. e.0) graph

validate-Accurate_example : Accurate both (validate_service_dependency_overall keys_of both)
validate-Accurate_example = validate-Accurate keys_of both (λ graph k m. m) both-AreDistinct

abbrev loop : Graph
loop = (key_of web, key_of database ∷ []) ∷ (key_of database, key_of web ∷ []) ∷ []

has_cycle-Exact_example : Exact loop (has_cycle (keys_of loop) loop)
has_cycle-Exact_example = has_cycle-Exact loop (keys_of loop) (λ k m. m)

-- An upgrade of "db" to version 2 is under way.
abbrev upgrading : ServiceSet
upgrading = set_of (record (stored_service "db") { version = "2" } ∷ []) (deployed_state "db" ∷ [])

upgrading-IsNodup : IsNodup (map stored_key upgrading.spec.services)
unfolding service_key effective_namespace key_beq
upgrading-IsNodup = (refl, tt)

-- Versions are numbers of one digit; no version is older than another.
abbrev any_version : String → Option String
any_version v = some v

abbrev never_older : String → String → Bool
never_older a b = false

abbrev Targets : List ServiceWithValues → Type 0
Targets targets =
    IsNodup (map stored_key targets)
    × ((x : ServiceWithValues)
        → Memᴰ x targets
        → (s : Service) × Memᴰ s both × (stored_key x ≡ key_of s))
    × ((svc : ServiceWithValues)
        → Memᴰ svc upgrading.spec.services
        → Memᴰ (stored_key svc) (map key_of both)
        → is_in_flight any_version never_older [] both upgrading svc ≡ true
        → (x : ServiceWithValues) × Memᴰ x targets × Kept svc x)

services_to_deploy-Targets_example :
    Targets (services_to_deploy any_version never_older [] both upgrading)
services_to_deploy-Targets_example =
    services_to_deploy-Targets any_version never_older [] both upgrading both-AreDistinct
      upgrading-IsNodup

abbrev upgrade : String → AvailableUpgrade
upgrade n = record { name = n; version = "" }

abbrev supports : String → List AvailableUpgrade → SupportedTemplate
supports n upgrades = record { name = n; available_upgrades = upgrades }

-- t-1 upgrades to t-2 and t-3, and t-2 to t-3.
abbrev chain : TemplateChainSpec
chain = record {
  supported_templates =
      supports "t-1" (upgrade "t-2" ∷ upgrade "t-3" ∷ [])
      ∷ supports "t-2" (upgrade "t-3" ∷ [])
      ∷ supports "t-3" []
      ∷ [];
}

find_all_upgrade_paths-AllRoutes_example :
    AllRoutes chain "t-1" (find_all_upgrade_paths chain "t-1")
find_all_upgrade_paths-AllRoutes_example = find_all_upgrade_paths-AllRoutes chain "t-1"

upgrade_paths-OnePerDestination_example : OnePerDestination chain "t-1" (upgrade_paths chain "t-1")
upgrade_paths-OnePerDestination_example = upgrade_paths-OnePerDestination chain "t-1"

abbrev db_paths : List ServiceUpgradePaths
db_paths =
    record {
      name = "db";
      namespace = "apps";
      template = "t-1";
      available_upgrades = record { versions = upgrade "t-2" ∷ upgrade "t-3" ∷ [] } ∷ [];
    }
    ∷ []

next_upgrade_step-IsNextStep_example :
    IsNextStep "t-1" "t-3" "db" "apps" db_paths (next_upgrade_step db_paths "db" "apps" "t-1" "t-3")
next_upgrade_step-IsNextStep_example = next_upgrade_step-IsNextStep "t-1" "t-3" "db" "apps" db_paths

-- An API server that holds one template, which states the version 1.
abbrev server : Client
server = record {
  get_service_template = λ key.
      if key.name == "t-1"
      then found (record { version = "1"; helm = none; validation_error = ""; valid = true })
      else not_found;
  get_service_template_chain = λ key. not_found;
  get_state_management_provider = λ name. not_found;
  get_service_set = λ key. not_found;
  list_service_sets = λ namespace cluster mcs. items [];
}

abbrev unversioned : List Service
unversioned = (record database { version = "" }) ∷ web ∷ []

fill_service_versions-Filled_example :
    FilledOrFailed server "ns" unversioned (fill_service_versions server "ns" unversioned)
fill_service_versions-Filled_example = fill_service_versions-Filled server "ns" unversioned

unversioned-both : fill_service_versions server "ns" unversioned ≡ ok both
unfolding fill_service_versions
unversioned-both = refl

fill_service_versions-stable_example : fill_service_versions server "elsewhere" both ≡ ok both
fill_service_versions-stable_example =
    fill_service_versions-stable server "ns" unversioned both unversioned-both server "elsewhere"

abbrev Merged : List ServiceWithValues → Type 0
Merged list =
    Ascending (rank_of (ranks both)) list
    × ((svc : ServiceWithValues)
        → Memᴰ svc list ↔ (
            Memᴰ svc (stored_service "web" ∷ [])
            ⊎ (Memᴰ svc (stored_service "db" ∷ [])
                × Memᴰ (stored_key svc) (map key_of both)
                × ¬ Memᴰ (stored_key svc) (map stored_key (stored_service "web" ∷ [])))))

build_services_list-Merged_example :
    Merged (build_services_list (stored_service "db" ∷ []) (stored_service "web" ∷ []) both)
build_services_list-Merged_example =
    build_services_list-Merged (stored_service "db" ∷ []) (stored_service "web" ∷ []) both

fully_deployed-AllConfirmed_example :
    (fully_deployed half_deployed ≡ true)
    ↔ ((half_deployed.status.deployed ≡ true) × AllConfirmed half_deployed)
fully_deployed-AllConfirmed_example = fully_deployed-AllConfirmed half_deployed

-- No name is refused.
abbrev accept_all : String → List String
accept_all name = []

services_have_valid_templates_iff_example :
    (services_have_valid_templates accept_all server both "ns" ≡ [])
    ↔ ((svc : Service) → Memᴰ svc both → IsAdmitted accept_all server "ns" svc)
services_have_valid_templates_iff_example =
    services_have_valid_templates_iff accept_all server "ns" both

abbrev mcs : String → List String → MultiClusterService
mcs n depends_on = record {
  name = n;
  depends_on = depends_on;
  service_spec = record {
    provider = record { config = none; name = ""; self_management = false };
    services = [];
    legacy = record {
      sync_mode = "";
      template_resource_refs = [];
      policy_refs = [];
      drift_ignore = [];
      drift_exclusions = [];
      priority = 0;
      stop_on_conflict = false;
      reload = false;
      continue_on_error = false;
    };
  };
}

-- "logs" depends on "base".
abbrev owners : List MultiClusterService
owners = mcs "base" [] ∷ mcs "logs" ("base" ∷ []) ∷ []

validate_mcs_delete_iff_example :
    ((validate_mcs_delete owners (mcs "base" []) ≡ none) ↔ IsFree "base" owners)
    × ((n : ℕ)
        → (validate_mcs_delete owners (mcs "base" []) ≡ some n)
          ↔ ((1 ≤ n) × (n ≡ mentions "base" owners)))
validate_mcs_delete_iff_example = validate_mcs_delete_iff owners (mcs "base" [])

both-valid : validate_service_dependency_overall keys_of both ≡ valid
unfolding validate_service_dependency_overall service_key effective_namespace key_beq
both-valid = refl

both-acyclic : (k : ObjectKey) → ¬ Depends both k k
both-acyclic = (subst (Accurate both) both-valid validate-Accurate_example).1

-- "web" is filtered and "db" is stored: "db" is listed first.
listed :
    build_services_list (stored_service "db" ∷ []) (stored_service "web" ∷ []) both
    ≡ stored_service "db" ∷ stored_service "web" ∷ []
unfolding build_services_list service_key effective_namespace key_beq
listed = refl

build_services_list-Respected_example : ¬ Memᴰ (stored_service "db") []
build_services_list-Respected_example =
    build_services_list-Respected (stored_service "db" ∷ []) (stored_service "web" ∷ []) both
      both-AreDistinct both-acyclic web (dependency "db") (Memᴰ.tail (Memᴰ.head refl))
      (Memᴰ.head refl) (Memᴰ.head refl) (stored_service "db" ∷ []) (stored_service "web")
      (stored_service "db") [] listed refl refl

abbrev ChainIsFine : TemplateChainSpec → Type 0
ChainIsFine s =
    ((n : String)
      → IsTarget s.supported_templates n
      → Memᴰ n (map (λ t. t.name) s.supported_templates))
    × ((t : SupportedTemplate) → Memᴰ t s.supported_templates → IsUniform t)

chain_is_valid_iff_example : (chain_is_valid chain ≡ true) ↔ ChainIsFine chain
chain_is_valid_iff_example = chain_is_valid_iff chain
