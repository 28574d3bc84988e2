-- ===== src/Sveltos/Tiers.antt =====
-- The three tiers of rule ConfigMaps: `rulesFromConfigMaps`, `listAndLoad`, `serviceSetOwnerName`
-- and `sweepRuleCache`, internal/controller/adapters/sveltos/verify.go. `list` is the client's List
-- of ConfigMaps in a namespace with a value of the label; `clock` tells when a ConfigMap is read,
-- `now` when the cache is swept.
use kcm.Prelude.{
  ℕ, ◌+◌, Bool, not, ◌||◌, List, [], ◌∷◌, ◌++◌, String, if◌then◌else◌, ◌==◌, string_eq, key_eq,
  ObjectKey, Map, insert, get_or, contains, filter_by, ltb, Resolved, ok, error,
}
use kcm.Api.{ServiceSet, OwnerReference, Listed, items, list_failed}
use kcm.Access.{GroupKind}
use kcm.Sveltos.Rules.{
  group_kind_eq, RuleDoc, ResourceRule, RuleLoadError, Env, ConfigMap, config_map_key,
  RuleCacheEntry, RuleCache, rules_from_config_map,
}

-- What the calls of `listAndLoad` have gathered, with the cache.
pub record Loading (P : Type 0) : Type 0 where
  pub seen : List ObjectKey
  pub cache : RuleCache P
  pub rules : List (ResourceRule P)
  pub load_errs : List RuleLoadError

abbrev pub RuleSet : Type 0 → Type 0
RuleSet P = Map GroupKind (List (ResourceRule P))

abbrev pub kind_of : {P : Type 0} → ResourceRule P → GroupKind
kind_of r = record { group = r.group; kind = r.kind }

-- The loop that groups the rules: each is appended to those of its kind.
abbrev pub group_rules : {P : Type 0} → List (ResourceRule P) → RuleSet P → RuleSet P
group_rules [] rs = rs
group_rules (rule ∷ rules) rs =
    group_rules rules (insert (kind_of rule) (get_or (kind_of rule) rs [] ++ (rule ∷ [])) rs)

-- The first owner of one of the two kinds.
abbrev pub service_set_owner_name : List OwnerReference → String
service_set_owner_name [] = ""
service_set_owner_name (o ∷ owners) =
    let rest = service_set_owner_name owners in
    if o.kind == "MultiClusterService" || o.kind == "ClusterDeployment" then o.name else rest

-- Five minutes, in the unit of the clock, which is a second.
abbrev pub rule_cache_ttl : ℕ
rule_cache_ttl = 300

-- The entries whose last access is not before now less the time to live.
abbrev pub is_live : {P : Type 0} → ℕ → ObjectKey × RuleCacheEntry P → Bool
is_live now (key, entry) = not (ltb (entry.last_access + rule_cache_ttl) now)

unfoldable pub sweep_rule_cache : {P : Type 0} → ℕ → RuleCache P → RuleCache P
sweep_rule_cache now cache = filter_by (is_live now) cache

module _ {A P : Type 0} (env : Env A P) (parse : String → Resolved (List RuleDoc))
    (is_blank : String → Bool) (number : ℕ → String)
    (list : (namespace target : String) → Listed ConfigMap) (clock : ObjectKey → ℕ) where
  -- One ConfigMap, unless it has been seen.
  unfoldable pub load_one : ConfigMap → Loading P → Loading P
  load_one cm st =
      let (cache, (rules, errs)) =
        rules_from_config_map env parse is_blank number (clock (config_map_key cm)) cm st.cache in
      if contains st.seen (config_map_key cm) then st else record {
        seen = config_map_key cm ∷ st.seen;
        cache = cache;
        rules = st.rules ++ rules;
        load_errs = st.load_errs ++ errs;
      }

  abbrev pub load_all : List ConfigMap → Loading P → Loading P
  load_all [] st = st
  load_all (cm ∷ cms) st = load_all cms (load_one cm st)

  abbrev pub list_and_load : (namespace target : String) → Loading P → Resolved (Loading P)
  list_and_load namespace target st = elim (list namespace target) [
    | list_failed e ↦ error e
    | items cms ↦ ok (load_all cms st)
  ]

  module _ (now : ℕ) (system_namespace : String) (set : ServiceSet) where
    -- The cache that is left, and the rules by kind with the errors, or the error.
    abbrev pub LoadResult : Type 0
    LoadResult = RuleCache P × Resolved (RuleSet P × List RuleLoadError)

    abbrev pub finish : Loading P → LoadResult
    finish st = (sweep_rule_cache now st.cache, ok (group_rules st.rules [], st.load_errs))

    -- Goes on with what was loaded; a failed List leaves the cache as it was.
    abbrev pub then_tier : Loading P → Resolved (Loading P) → (Loading P → LoadResult) → LoadResult
    then_tier st (error e) next = (st.cache, error e)
    then_tier st (ok loaded) next = next loaded

    abbrev pub third_tier : Loading P → LoadResult
    third_tier st =
        let owner = service_set_owner_name set.owner_references in
        if owner == ""
        then finish st
        else then_tier st (list_and_load set.namespace owner st) finish

    abbrev pub second_tier : Loading P → LoadResult
    second_tier st =
        if set.namespace == system_namespace
        then third_tier st
        else then_tier st (list_and_load set.namespace "global" st) third_tier

    unfoldable pub rules_from_config_maps : RuleCache P → LoadResult
    rules_from_config_maps cache =
        let st : Loading P = record { seen = []; cache = cache; rules = []; load_errs = [] } in
        then_tier st (list_and_load system_namespace "global" st) second_tier
