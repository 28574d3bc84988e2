-- ===== src/Services/Deploy.antt =====
-- The target of each service that may be applied: `ServicesToDeploy`, with `makeService`,
-- `appendIfNotPresent` and `isDowngrade`, internal/serviceset/util.go. The parser and the order of
-- semantic versions are the library's: parameters.
pub mod Filed
pub mod Targets
use kcm.Prelude.{
  Bool, true, false, not, ◌&&◌, ◌||◌, List, [], ◌∷◌, ◌++◌, Option, none, some, String,
  if◌then◌else◌, any, index_of, ◌==◌, string_eq, ObjectKey, key_eq, Map, insert, index_by, lookup,
  get_or, has_key,
}
use kcm.Api.{Service, ServiceWithValues, AvailableUpgrade, ServiceUpgradePaths, ServiceSet}
use kcm.Services.Keys.{effective_namespace, service_version, key_of, stored_key, deployed_versions}
use kcm.Services.Upgrades.{next_upgrade_step, desired_template_in_upgrade_paths}

unfoldable pub make_service : Service → (version template : String) → ServiceWithValues
unfolding effective_namespace
make_service s version template = record {
  helm_options = s.helm_options;
  version = version;
  helm_action = s.helm_action;
  name = s.name;
  namespace = effective_namespace s.namespace;
  template = template;
  values = s.values;
  values_from = s.values_from;
}

-- The service is listed at that version.
abbrev pub is_present : Service → AvailableUpgrade → ServiceWithValues → Bool
is_present s upgrade c =
    c.name == s.name
    && c.namespace == effective_namespace s.namespace
    && c.version == upgrade.version

unfoldable pub append_if_not_present :
    List ServiceWithValues → Service → AvailableUpgrade → List ServiceWithValues
unfolding make_service
append_if_not_present services s upgrade =
    if any (is_present s upgrade) services
    then services
    else services ++ make_service s upgrade.version upgrade.name ∷ []

-- `ds` and `svc` have one name and one effective namespace.
abbrev pub same_service : Service → ServiceWithValues → Bool
same_service ds svc =
    ds.name == svc.name && effective_namespace ds.namespace == effective_namespace svc.namespace

-- The mutable fields of the first desired service that is the stored one.
unfoldable pub merge_fields : List Service → ServiceWithValues → ServiceWithValues
unfolding effective_namespace
merge_fields [] svc = svc
merge_fields (ds ∷ services) svc =
    let later = merge_fields services svc in
    if same_service ds svc
    then record svc {
      values = ds.values;
      values_from = ds.values_from;
      helm_options = ds.helm_options;
      helm_action = ds.helm_action;
    }
    else later

-- The maps that the loop over the stored services fills.
pub record Stored : Type 0 where
  pub stored_templates : Map ObjectKey String
  pub upgrade_available : Map ObjectKey Bool
  pub in_flight : Map ObjectKey ServiceWithValues

module _ {V : Type 0} (parse : String → Option V) (less_than : V → V → Bool) where
  unfoldable pub is_downgrade : (desired current : String) → Bool
  is_downgrade desired current = elim (parse desired) [
    | none ↦ false
    | some d ↦ elim (parse current) [ none ↦ false | some c ↦ less_than d c ]
  ]

  module _ (paths : List ServiceUpgradePaths) (filtered : List Service) (set : ServiceSet) where
    abbrev pub target_versions : Map ObjectKey String
    target_versions = index_by key_of (λ s. service_version s.version s.template) filtered []

    abbrev pub target_templates : Map ObjectKey String
    target_templates = index_by key_of (λ s. s.template) filtered []

    -- Whether a stored service may go to what is desired of it: downwards, or along its chain.
    abbrev pub may_upgrade : ServiceWithValues → Bool
    may_upgrade svc =
        let key = stored_key svc in
        let version = get_or key target_versions "" in
        not (svc.version == "") && is_downgrade version svc.version
        || desired_template_in_upgrade_paths paths svc (get_or key target_templates "") version

    -- A stored version that differs from the deployed one.
    abbrev pub is_in_flight : ServiceWithValues → Bool
    is_in_flight svc =
        not (svc.version == "" || svc.version == get_or (stored_key svc) (deployed_versions set) "")

    -- The body of the loop over the stored services.
    unfoldable pub note_stored : ServiceWithValues → Stored → Stored
    unfolding index_by service_version is_downgrade deployed_versions
        desired_template_in_upgrade_paths merge_fields
    note_stored svc m = if not (has_key (stored_key svc) target_versions) then m else record {
      stored_templates = insert (stored_key svc) svc.template m.stored_templates;
      upgrade_available = insert (stored_key svc) (may_upgrade svc) m.upgrade_available;
      in_flight =
          if is_in_flight svc
          then insert (stored_key svc) (merge_fields filtered svc) m.in_flight
          else m.in_flight;
    }

    note_all : List ServiceWithValues → Stored → Stored
    unfolding note_stored
    note_all [] m = m
    note_all (svc ∷ services) m = note_all services (note_stored svc m)

    -- Upgrades are available by default.
    unfoldable pub stored_maps : Stored
    unfolding note_all
    stored_maps = note_all set.spec.services (record {
      stored_templates = [];
      upgrade_available = index_by key_of (λ s. true) filtered [];
      in_flight = [];
    })

    -- The next hop; a hop whose version only repeats its name has its version read later.
    unfoldable pub next_hop : Stored → Service → AvailableUpgrade
    unfolding next_upgrade_step
    next_hop m s =
        let template = get_or (key_of s) target_templates "" in
        let step =
          next_upgrade_step paths s.name s.namespace (get_or (key_of s) m.stored_templates "")
            template in
        if step.name == ""
        then record { name = template; version = get_or (key_of s) target_versions "" }
        else if step.version == step.name
        then record step { version = "" }
        else step

    abbrev pub no_paths : Bool
    no_paths = elim paths [ [] ↦ true | _ ∷ _ ↦ false ]

    -- The body of the loop over the filtered services.
    unfoldable pub add_target : Stored → Service → List ServiceWithValues → List ServiceWithValues
    unfolding make_service append_if_not_present next_hop
    add_target m s services = elim (lookup (key_of s) m.in_flight) [
      | some svc ↦ services ++ svc ∷ []
      | none ↦
          if s.disable
          then services
          else if not (get_or (key_of s) m.upgrade_available false)
          then (if any (λ svc. same_service s svc) set.spec.services
              then services ++ make_service s s.version s.template ∷ []
              else services)
          else if no_paths
          then services
            ++ make_service s (get_or (key_of s) target_versions "")
                (get_or (key_of s) target_templates "")
              ∷ []
          else append_if_not_present services s (next_hop m s)
    ]

    pub add_targets : Stored → List Service → List ServiceWithValues → List ServiceWithValues
    unfolding add_target
    add_targets m [] services = services
    add_targets m (s ∷ rest) services = add_targets m rest (add_target m s services)

    unfoldable pub services_to_deploy : List ServiceWithValues
    unfolding add_targets stored_maps
    services_to_deploy = add_targets stored_maps filtered []
