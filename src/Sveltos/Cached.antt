-- ===== src/Sveltos/Cached.antt =====
-- The cache of compiled rules: `rulesFromConfigMap`, `sweepRuleCache` and `rulesFromConfigMaps`,
-- internal/controller/adapters/sveltos/verify.go.
use kcm.Prelude.{
  ℕ, ◌≡◌, refl, sym, ◌∙◌, ap, subst, inl, inr, Bool, true, false, List, [], ◌∷◌, ◌++◌, Memᴰ, String,
  ◌==◌, string_eq, key_eq, ObjectKey, Map, lookup, lookup-mem, insert, mem-insert, contains,
  mem-filter_by, Bool-cases, Option-cases, Resolved, ok, error,
}
use kcm.Api.{ServiceSet, Listed, items, list_failed}
use kcm.Sveltos.Rules.{
  RuleDoc, RuleLoadError, Env, ConfigMap, config_map_key, Compiled, RuleCacheEntry, RuleCache,
  load_rules, rules_from_config_map,
}
use kcm.Sveltos.Tiers.{
  Loading, RuleSet, service_set_owner_name, group_rules, is_live, sweep_rule_cache, load_one,
  load_all, list_and_load, finish, then_tier, third_tier, second_tier, rules_from_config_maps,
}

joined : {B : Type 0} {a b c d : List B} → a ≡ b → c ≡ d → a ++ c ≡ b ++ d
joined {b = b} {c = c} p q = ap (λ x. x ++ c) p ∙ ap (λ y. b ++ y) q

-- The data of each ConfigMap at each of its resource versions.
abbrev pub World : Type 0
World = ObjectKey → String → Map String String

module _ {A P : Type 0} (env : Env A P) (parse : String → Resolved (List RuleDoc))
    (is_blank : String → Bool) (number : ℕ → String) (world : World) where
  abbrev loaded : ObjectKey → String → Compiled P
  loaded key version = load_rules env parse is_blank number key (world key version)

  -- Each entry holds what its ConfigMap gives at the entry's resource version.
  abbrev pub Coherent : RuleCache P → Type 0
  Coherent cache =
      (key : ObjectKey) (e : RuleCacheEntry P)
      → Memᴰ (key, e) cache
      → e.compiled ≡ load_rules env parse is_blank number key (world key e.resource_version)

  insert-Coherent :
      (key : ObjectKey) (e : RuleCacheEntry P) (cache : RuleCache P)
      → Coherent cache
      → e.compiled ≡ loaded key e.resource_version
      → Coherent (insert key e cache)
  insert-Coherent key e cache coherent h k f m = elim (mem-insert key e cache m) [
    | inl p ↦ ap (λ q. q.1.compiled) p ∙ h ∙ sym (ap (λ q. loaded q.0 q.1.resource_version) p)
    | inr old ↦ coherent k f old
  ]

  sweep-Coherent :
      (now : ℕ) (cache : RuleCache P) → Coherent cache → Coherent (sweep_rule_cache now cache)
  unfolding sweep_rule_cache
  sweep-Coherent now cache coherent k e m = coherent k e (mem-filter_by (is_live now) cache m).0

  -- A ConfigMap that is as the world has it.
  abbrev pub IsCurrent : ConfigMap → Type 0
  IsCurrent cm = cm.data_of ≡ world (config_map_key cm) cm.resource_version

  rules_from_config_map-transparent :
      (now : ℕ) (cm : ConfigMap) (cache : RuleCache P)
      → IsCurrent cm
      → Coherent cache
      → ((rules_from_config_map env parse is_blank number now cm cache).1
          ≡ loaded (config_map_key cm) cm.resource_version)
        × Coherent (rules_from_config_map env parse is_blank number now cm cache).0
  unfolding rules_from_config_map
  rules_from_config_map-transparent now cm cache current coherent =
      elim (Option-cases (lookup (config_map_key cm) cache)) [
        | inl misses ↦ rw (misses, rules_from_config_map) missed
        | inr has ↦
            let (cached, found) = has in
            elim (Bool-cases (cached.resource_version == cm.resource_version)) [
              | inr f ↦ rw (found, rules_from_config_map) (rw f missed)
              | inl t ↦
                  let kept =
                    coherent (config_map_key cm) cached
                      (lookup-mem (config_map_key cm) cache found) in
                  let same = (string_eq.beq_iff cached.resource_version cm.resource_version).0 t in
                  rw (found, rules_from_config_map)
                    (rw t (
                      kept ∙ ap (loaded (config_map_key cm)) same,
                      insert-Coherent (config_map_key cm) (record cached { last_access = now })
                          cache coherent kept,
                    ))
            ]
      ]
    where
      exact :
          load_rules env parse is_blank number (config_map_key cm) cm.data_of
          ≡ loaded (config_map_key cm) cm.resource_version
      exact = ap (load_rules env parse is_blank number (config_map_key cm)) current

      missed :
          (load_rules env parse is_blank number (config_map_key cm) cm.data_of
            ≡ loaded (config_map_key cm) cm.resource_version)
          × Coherent (
              insert
                (config_map_key cm)
                (record {
                  last_access = now;
                  resource_version = cm.resource_version;
                  compiled = load_rules env parse is_blank number (config_map_key cm) cm.data_of;
                })
                cache)
      missed = (exact, insert-Coherent (config_map_key cm) _ cache coherent exact)

  -- Equal but for the cache, which is coherent in both.
  abbrev Alike : Loading P → Loading P → Type 0
  Alike st tt_ =
      (st.seen ≡ tt_.seen)
      × (st.rules ≡ tt_.rules)
      × (st.load_errs ≡ tt_.load_errs)
      × Coherent st.cache
      × Coherent tt_.cache

  module _ (list : (namespace target : String) → Listed ConfigMap) (clock : ObjectKey → ℕ) where
    load_one-Alike :
        (cm : ConfigMap) (s t : Loading P)
        → IsCurrent cm
        → Alike s t
        → Alike
            (load_one env parse is_blank number list clock cm s)
            (load_one env parse is_blank number list clock cm t)
    unfolding load_one
    load_one-Alike cm s t current (seen, rules, errs, left, right) =
        let at = clock (config_map_key cm) in
        let (l, cl) = rules_from_config_map-transparent at cm s.cache current left in
        let (r, cr) = rules_from_config_map-transparent at cm t.cache current right in
        elim (Bool-cases (contains s.seen (config_map_key cm))) [
          | inl was ↦
              rw (was, subst (λ l. contains l (config_map_key cm) ≡ true) seen was)
                (seen, rules, errs, left, right)
          | inr new ↦
              rw (new, subst (λ l. contains l (config_map_key cm) ≡ false) seen new)
                (
                  ap (λ l. config_map_key cm ∷ l) seen,
                  joined rules (ap (λ c. c.0) (l ∙ sym r)),
                  joined errs (ap (λ c. c.1) (l ∙ sym r)),
                  cl,
                  cr,
                )
        ]

    load_all-Alike :
        (cms : List ConfigMap) (s t : Loading P)
        → ((cm : ConfigMap) → Memᴰ cm cms → IsCurrent cm)
        → Alike s t
        → Alike
            (load_all env parse is_blank number list clock cms s)
            (load_all env parse is_blank number list clock cms t)
    load_all-Alike [] s t current alike = alike
    load_all-Alike (cm ∷ cms) s t current alike =
        load_all-Alike cms _ _ (λ c m. current c (Memᴰ.tail m))
          (load_one-Alike cm s t (current cm (Memᴰ.head refl)) alike)

    module _ (now : ℕ) (system_namespace : String) (set : ServiceSet)
        (current : (namespace target : String) (cms : List ConfigMap) (cm : ConfigMap)
          → list namespace target ≡ items cms
          → Memᴰ cm cms
          → IsCurrent cm) where
      -- The same result, and a coherent cache.
      abbrev Agree :
          RuleCache P × Resolved (RuleSet P × List RuleLoadError)
          → RuleCache P × Resolved (RuleSet P × List RuleLoadError)
          → Type 0
      Agree a b = (a.1 ≡ b.1) × Coherent a.0 × Coherent b.0

      abbrev Next : Type 0
      Next = Loading P → RuleCache P × Resolved (RuleSet P × List RuleLoadError)

      tier-Agree :
          (namespace target : String) (next : Next) (s t : Loading P)
          → Alike s t
          → ((l r : Loading P) → Alike l r → Agree (next l) (next r))
          → Agree
              (then_tier env parse is_blank number list clock now system_namespace set s
                (list_and_load env parse is_blank number list clock namespace target s)
                next)
              (then_tier env parse is_blank number list clock now system_namespace set t
                (list_and_load env parse is_blank number list clock namespace target t)
                next)
      tier-Agree namespace target next s t alike h = go (list namespace target) refl
        where
          go :
              (answer : Listed ConfigMap)
              → list namespace target ≡ answer
              → Agree
                  (then_tier env parse is_blank number list clock now system_namespace set s
                    (elim answer [
                      | list_failed e ↦ error e
                      | items cms ↦ ok (load_all env parse is_blank number list clock cms s)
                    ])
                    next)
                  (then_tier env parse is_blank number list clock now system_namespace set t
                    (elim answer [
                      | list_failed e ↦ error e
                      | items cms ↦ ok (load_all env parse is_blank number list clock cms t)
                    ])
                    next)
          go (list_failed e) found = (refl, alike.3, alike.4)
          go (items cms) found =
              h _ _ (load_all-Alike cms s t (λ cm m. current namespace target cms cm found m) alike)

      finish-Agree :
          (s t : Loading P)
          → Alike s t
          → Agree
              (finish env parse is_blank number list clock now system_namespace set s)
              (finish env parse is_blank number list clock now system_namespace set t)
      finish-Agree s t (seen, rules, errs, left, right) = (
        ap (λ r. ok (group_rules r [], s.load_errs)) rules
            ∙ ap (λ e. ok (group_rules t.rules [], e)) errs,
        sweep-Coherent now s.cache left,
        sweep-Coherent now t.cache right,
      )

      third_tier-Agree :
          (s t : Loading P)
          → Alike s t
          → Agree
              (third_tier env parse is_blank number list clock now system_namespace set s)
              (third_tier env parse is_blank number list clock now system_namespace set t)
      third_tier-Agree s t alike =
          elim (Bool-cases (service_set_owner_name set.owner_references == "")) [
            | inl e ↦ rw e (finish-Agree s t alike)
            | inr f ↦ rw f (
                tier-Agree set.namespace (service_set_owner_name set.owner_references) _ s t alike
                  finish-Agree)
          ]

      second_tier-Agree :
          (s t : Loading P)
          → Alike s t
          → Agree
              (second_tier env parse is_blank number list clock now system_namespace set s)
              (second_tier env parse is_blank number list clock now system_namespace set t)
      second_tier-Agree s t alike = elim (Bool-cases (set.namespace == system_namespace)) [
        | inl e ↦ rw e (third_tier-Agree s t alike)
        | inr f ↦ rw f (tier-Agree set.namespace "global" _ s t alike third_tier-Agree)
      ]

      -- The cache is transparent. Where each listed ConfigMap has the data of its resource version,
      -- the rules and the errors, or the failure of a List, are those that an empty cache gives, for
      -- every cache whose entries hold what their ConfigMap gives at the entry's resource version;
      -- and the cache that is left after the sweep, or after a failure, is again such a cache.
      pub rules_from_config_maps-transparent :
          (cache : RuleCache P)
          → Coherent cache
          → ((rules_from_config_maps env parse is_blank number list clock now system_namespace set
                cache).1
              ≡ (rules_from_config_maps env parse is_blank number list clock now system_namespace
                  set []).1)
            × Coherent
                (rules_from_config_maps env parse is_blank number list clock now system_namespace
                  set cache).0
      unfolding rules_from_config_maps
      rules_from_config_maps-transparent cache coherent =
          let (same, left, right) =
            tier-Agree system_namespace "global" _
              (record { seen = []; cache = cache; rules = []; load_errs = [] })
              (record { seen = []; cache = []; rules = []; load_errs = [] })
              (refl, refl, refl, coherent, λ key e m. elim m [ ]) second_tier-Agree in
          (same, left)
