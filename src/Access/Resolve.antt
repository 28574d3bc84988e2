-- ===== src/Access/Resolve.antt =====
-- The namespaces and the names that rules select: `ResolveRules`, `TargetNamespaces`,
-- `ResolveNames` and `LabelSelector`, internal/util/accessmanagement/accessmanagement.go. The
-- texts that wrap an error are left out.
use kcm.Prelude.{
  ℕ, Bool, true, not, List, [], ◌∷◌, ◌++◌, index_of, take, drop, suc, Option, none, some, String,
  if◌then◌else◌, ◌==◌, string_eq, Map, filter_by, sort, str_compare_lt, Resolved, ok, error, ◌>>=◌,
}
use kcm.Api.{LabelSelector, Listed, items, list_failed}
use kcm.Access.{ResourceSelector, ResourceRule, AccessRule, effective_resources}

-- k8s.io/apimachinery/pkg/labels: a parsed selector is a value of the library.
pub record Selectors (S : Type 0) : Type 0 where
  pub parse : String → Resolved S
  pub as_selector : LabelSelector → Resolved S
  pub empty : S → Bool
  pub matches : S → Map String String → Bool

-- Rule: the namespaces, and what is distributed there.
pub record Rule : Type 0 where
  pub namespaces : List String
  pub resources : List ResourceRule

-- The selector, unless it selects everything.
abbrev pub Selection : Type 0 → Type 0
Selection S = Option S

-- The list without the system namespace: as it is, or the part in front of the first match and
-- what passes the test behind it.
abbrev pub cut_at : String → List String → Option ℕ → List String
cut_at system_namespace list none = list
cut_at system_namespace list (some i) =
    take i list ++ filter_by (λ m. not (m == system_namespace)) (drop (suc i) list)

unfoldable pub without_system : String → List String → List String
without_system system_namespace list =
    cut_at system_namespace list (index_of (λ m. m == system_namespace) list)

module _ {S : Type 0} (lib : Selectors S) where
  abbrev non_empty : S → Selection S
  non_empty s = if lib.empty s then none else some s

  unfoldable pub label_selector : Option LabelSelector → String → Resolved (Selection S)
  label_selector selector string_selector =
      if string_selector == ""
      then elim selector [
        | none ↦ ok none
        | some labels ↦ elim (lib.as_selector labels) [
          | error e ↦ error e
          | ok s ↦ ok (non_empty s)
        ]
      ]
      else elim (lib.parse string_selector) [ error e ↦ error e | ok s ↦ ok (non_empty s) ]

  -- The labels of the objects in the system namespace, by name.
  abbrev pub matching_names : Selection S → Map String (Map String String) → List String
  matching_names selection [] = []
  matching_names selection ((name, labels) ∷ system) =
      let rest = matching_names selection system in
      if (elim selection [ none ↦ true | some s ↦ lib.matches s labels ]) then name ∷ rest else rest

  unfoldable pub resolve_names :
      ResourceRule → Map String (Map String String) → Resolved (List String)
  resolve_names rule system = elim rule.names [
    | some names ↦ ok names
    | none ↦ elim (label_selector rule.selector rule.string_selector) [
      | error e ↦ error e
      | ok selection ↦ ok (sort str_compare_lt (matching_names selection system))
    ]
  ]

  -- `list_namespaces` is the client's List, with a selector or without.
  unfoldable pub resolve_target_namespaces :
      (list_namespaces : Selection S → Listed String) (system_namespace : String)
      → ResourceSelector
      → Resolved (List String)
  unfolding without_system
  resolve_target_namespaces list_namespaces system_namespace targets = elim targets.list [
    | n ∷ ns ↦ ok (without_system system_namespace (n ∷ ns))
    | [] ↦ elim (label_selector targets.selector targets.string_selector) [
      | error e ↦ error e
      | ok selection ↦ elim (list_namespaces selection) [
        | list_failed e ↦ error e
        | items ns ↦ ok (filter_by (λ m. not (m == system_namespace)) ns)
      ]
    ]
  ]

  unfoldable pub resolve_rules :
      (list_namespaces : Selection S → Listed String) (system_namespace : String)
      → List AccessRule
      → Resolved (List Rule)
  unfolding resolve_target_namespaces
  resolve_rules list_namespaces system_namespace [] = ok []
  resolve_rules list_namespaces system_namespace (rule ∷ rules) = do
    namespaces ← resolve_target_namespaces list_namespaces system_namespace rule.target_namespaces
    rest ← resolve_rules list_namespaces system_namespace rules
    ok ((record { namespaces = namespaces; resources = effective_resources rule }) ∷ rest)
