-- ===== src/Sveltos/Rules.antt =====
-- The rules on the health of resources, their compilation and their cache:
-- internal/controller/adapters/sveltos/verify.go. The CEL compiler, the YAML parser, the printer of
-- numbers and the clock are parameters; texts that wrap an error are left out. The cache is a
-- variable of the process there; here it is passed on.
use kcm.Prelude.{
  ℕ, suc, Bool, not, ◌&&◌, ◌||◌, List, [], ◌∷◌, none, some, String, if◌then◌else◌, ◌==◌, string_eq,
  key_eq, Eq, ObjectKey, Map, lookup, insert, append_str, Resolved, ok, error, ◌>>=◌,
}
use kcm.Access.{GroupKind, gk_beq}
use kcm.Access.Targets.{gk_beq_iff}

instance abbrev pub group_kind_eq : Eq GroupKind
group_kind_eq = record { beq = gk_beq; beq_iff = gk_beq_iff }

pub record RuleDoc : Type 0 where
  pub group : String
  pub version : String
  pub kind : String
  pub scope : String
  pub healthy : String
  pub message : String

pub record SourcedRuleDoc : Type 0 where
  pub doc : RuleDoc
  pub source : String

-- A compiled rule; `P` is the type of cel.Program.
pub record ResourceRule (P : Type 0) : Type 0 where
  pub healthy : P
  pub message : P
  pub group : String
  pub version : String
  pub kind : String
  pub scope : String
  pub source : String

pub record RuleLoadError : Type 0 where
  pub err : String
  pub source : String

-- cel.Env: a syntax tree, then a program.
pub record Env (A P : Type 0) : Type 0 where
  pub compile : String → Resolved A
  pub program : A → Resolved P

-- corev1.ConfigMap
pub record ConfigMap : Type 0 where
  pub namespace : String
  pub name : String
  pub resource_version : String
  pub data_of : Map String String

abbrev pub config_map_key : ConfigMap → ObjectKey
config_map_key cm = record { namespace = cm.namespace; name = cm.name }

-- The rules and the errors of one ConfigMap.
abbrev pub Compiled : Type 0 → Type 0
Compiled P = List (ResourceRule P) × List RuleLoadError

pub record RuleCacheEntry (P : Type 0) : Type 0 where
  pub last_access : ℕ
  pub resource_version : String
  pub compiled : Compiled P

abbrev pub RuleCache : Type 0 → Type 0
RuleCache P = Map ObjectKey (RuleCacheEntry P)

module _ {A P : Type 0} (env : Env A P) where
  unfoldable pub compile_expr : String → Resolved P
  compile_expr src = do ast ← env.compile src; env.program ast

  -- One document: a rule or the error about it.
  unfoldable pub compile_doc : SourcedRuleDoc → Resolved (ResourceRule P)
  unfolding compile_expr
  compile_doc sd =
      let compiled : Resolved (ResourceRule P) = do
        healthy ← compile_expr sd.doc.healthy
        message ← compile_expr sd.doc.message
        ok (record {
          healthy = healthy;
          message = message;
          group = sd.doc.group;
          version = sd.doc.version;
          kind = sd.doc.kind;
          scope = sd.doc.scope;
          source = sd.source;
        })
      in if sd.doc.kind == "" || sd.doc.version == ""
        then error "kind and version are required"
        else if not (sd.doc.scope == "Namespaced") && not (sd.doc.scope == "Cluster")
        then error "scope must be Namespaced or Cluster"
        else compiled

  unfoldable pub rules_from_docs : List SourcedRuleDoc → Compiled P
  unfolding compile_doc
  rules_from_docs [] = ([], [])
  rules_from_docs (sd ∷ docs) =
      let (rules, errs) = rules_from_docs docs in
      elim (compile_doc sd) [
        | ok rule ↦ (rule ∷ rules, errs)
        | error e ↦ (rules, (record { err = e; source = sd.source }) ∷ errs)
      ]

  module _ (parse : String → Resolved (List RuleDoc)) (is_blank : String → Bool)
      (number : ℕ → String) where
    abbrev pub source_docs : (prefix : String) → ℕ → List RuleDoc → List SourcedRuleDoc
    source_docs prefix i [] = []
    source_docs prefix i (d ∷ docs) =
        (record { doc = d; source = append_str prefix (append_str "#" (number i)) })
        ∷ source_docs prefix (suc i) docs

    abbrev pub parsed : (prefix : String) → Resolved (List RuleDoc) → Compiled P
    parsed prefix (error e) = ([], (record { err = e; source = prefix }) ∷ [])
    parsed prefix (ok docs) = rules_from_docs (source_docs prefix 0 docs)

    -- What a ConfigMap with these data gives, past the cache.
    unfoldable pub load_rules : ObjectKey → Map String String → Compiled P
    load_rules key data_of = elim (lookup "rules" data_of) [
      | none ↦ ([], [])
      | some raw ↦
          if is_blank raw
          then ([], [])
          else parsed (append_str key.namespace (append_str "/" key.name)) (parse raw)
    ]

    -- A hit renews the time of access; else the ConfigMap is loaded and stored.
    unfoldable pub rules_from_config_map :
        (now : ℕ) → ConfigMap → RuleCache P → RuleCache P × Compiled P
    unfolding load_rules
    rules_from_config_map now cm cache =
        let fresh = load_rules (config_map_key cm) cm.data_of in
        let missed : RuleCache P × Compiled P = (
          insert (config_map_key cm)
              (record {
                last_access = now;
                resource_version = cm.resource_version;
                compiled = fresh;
              })
              cache,
          fresh,
        ) in
        elim (lookup (config_map_key cm) cache) [
          | none ↦ missed
          | some cached ↦
              if cached.resource_version == cm.resource_version
              then (
                insert (config_map_key cm) (record cached { last_access = now }) cache,
                cached.compiled,
              )
              else missed
        ]
