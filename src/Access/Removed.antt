-- ===== src/Access/Removed.antt =====
-- Which namespaces are written to, and which ClusterTemplates are deleted: `TargetNamespaces`,
-- `ResolveRules` and `ClusterTemplatesToRemove`,
-- internal/util/accessmanagement/accessmanagement.go.
use mathlib.Core.List.Memᴰ
use kcm.Prelude.{
  map, lookup, latest, lookup-latest, index_by-IsNodup, IsNodup, ℕ, ◌≡◌, ◌≢◌, refl, sym, ◌∙◌, ap,
  subst, inl, inr, true, false, not, ◌&&◌, List, [], ◌∷◌, Memᴰ, none, some, String, ◌==◌, string_eq,
  Eq-cases, beq_refl, Bool-cases, arith, Map, filter_by, mem-filter_by, index_of, suc, Option,
  Resolved, ok, error, ◌>>=◌, bind-ok, ok-injective, mem→contains,
}
use kcm.Api.{Listed, items, list_failed}
use kcm.Access.{GroupKind, ResourceSelector, AccessRule, AccessManagement}
use kcm.Access.Resolve.{
  Selectors, Selection, Rule, label_selector, without_system, cut_at, resolve_target_namespaces,
  resolve_rules,
}
use kcm.Access.Plan.{
  Target, namespaced_name, desired_targets, has_foreign_owner_reference, plan_group_kind,
}
use kcm.Access.Removal.{
  ClusterTemplate, cluster_template_object, AccessClient, listed, label_index, cluster_template_gk,
  tracks_group_kind, is_copy, cluster_templates_to_remove,
}
use kcm.Access.Exact.{Distributed, desired_targets-Distributed}
use kcm.Access.Planned.{keys_of, is_tracked, plan_group_kind-Partition}

listed-items : {A : Type 0} (l : Listed A) (xs : List A) → listed l ≡ ok xs → l ≡ items xs
listed-items (items ys) xs h = ap items (ok-injective h)
listed-items (list_failed e) xs h = cc

-- Copying the part in front of the first match and testing the rest is the same as testing all.
without_system-filter_by :
    (sys : String) (list : List String)
    → without_system sys list ≡ filter_by (λ m. not (m == sys)) list
unfolding without_system
without_system-filter_by sys [] = refl
without_system-filter_by sys (n ∷ ns) = elim (Bool-cases (n == sys)) [
  | inl t ↦ rw t refl
  | inr f ↦ rw f (go (index_of (λ m. m == sys) ns) (without_system-filter_by sys ns))
]
  where
    go :
        (o : Option ℕ)
        → cut_at sys ns o ≡ filter_by (λ m. not (m == sys)) ns
        → cut_at sys (n ∷ ns) (elim o [ none ↦ none | some i ↦ some (suc i) ])
          ≡ n ∷ filter_by (λ m. not (m == sys)) ns
    go none h = ap (λ l. n ∷ l) h
    go (some i) h = ap (λ l. n ∷ l) h

filter_by-excludes :
    (sys : String) (list : List String) {n : String}
    → Memᴰ n (filter_by (λ m. not (m == sys)) list)
    → n ≢ sys
filter_by-excludes sys list {n} m e =
    let passed : not (n == sys) ≡ true = (mem-filter_by (λ m. not (m == sys)) list m).1 in
    let same : (n == sys) ≡ true = subst (λ x. (x == sys) ≡ true) (sym e) (beq_refl sys) in
    cc (passed, same)

module _ {S : Type 0} (lib : Selectors S) (list : Selection S → Listed String) (sys : String) where
  resolve_target_namespaces-excludes :
      (targets : ResourceSelector) (ns : List String) {n : String}
      → resolve_target_namespaces lib list sys targets ≡ ok ns
      → Memᴰ n ns
      → n ≢ sys
  unfolding resolve_target_namespaces
  resolve_target_namespaces-excludes targets ns {n} h m =
      go targets.list (label_selector lib targets.selector targets.string_selector) h
    where
      listed :
          (answer : Listed String)
          → (elim answer [
            | list_failed e ↦ error e
            | items ms ↦ ok (filter_by (λ m. not (m == sys)) ms)
          ])
            ≡ ok ns
          → n ≢ sys
      listed (list_failed e) h = cc
      listed (items ms) h =
          filter_by-excludes sys ms (subst (λ l. Memᴰ n l) (sym (ok-injective h)) m)

      go :
          (l : List String) (s : Resolved (Selection S))
          → (elim l [
            | k ∷ ks ↦ ok (without_system sys (k ∷ ks))
            | [] ↦ elim s [
              | error e ↦ error e
              | ok selection ↦ elim (list selection) [
                | list_failed e ↦ error e
                | items ms ↦ ok (filter_by (λ m. not (m == sys)) ms)
              ]
            ]
          ])
            ≡ ok ns
          → n ≢ sys
      go (k ∷ ks) s h =
          filter_by-excludes sys (k ∷ ks)
            (subst (λ l. Memᴰ n l) (sym (ok-injective h) ∙ without_system-filter_by sys (k ∷ ks)) m)
      go [] (error e) h = cc
      go [] (ok selection) h = listed (list selection) h

  resolve_rules-excludes :
      (access_rules : List AccessRule) (rules : List Rule) {rule : Rule} {n : String}
      → resolve_rules lib list sys access_rules ≡ ok rules
      → Memᴰ rule rules
      → Memᴰ n rule.namespaces
      → n ≢ sys
  unfolding resolve_rules
  resolve_rules-excludes [] rules {rule} h m o =
      elim (subst (λ (l : List Rule). Memᴰ rule l) (sym (ok-injective h)) m) [ ]
  resolve_rules-excludes (a ∷ access_rules) rules {rule} {n} h m o =
      let (ns, first, more) =
        bind-ok (resolve_target_namespaces lib list sys a.target_namespaces) h in
      let (rest, later, e) = bind-ok (resolve_rules lib list sys access_rules) more in
      elim (Memᴰ.cases_cons (subst (λ l. Memᴰ rule l) (sym (ok-injective e)) m)) [
        | inl p ↦
            resolve_target_namespaces-excludes a.target_namespaces ns first
              (subst (λ (r : Rule). Memᴰ n r.namespaces) p o)
        | inr q ↦ resolve_rules-excludes access_rules rest later q o
      ]

  -- No copy is wanted in the system namespace, from which the objects are read: the rules resolve
  -- to no target there, whether they name it, select it by label or select everything.
  pub targets-ExcludeSystem :
      (gk : GroupKind) (system : Map String (Map String String)) (access_rules : List AccessRule)
      (desired : List Target) (t : Target)
      → (resolve_rules lib list sys access_rules >>= desired_targets lib gk system) ≡ ok desired
      → Memᴰ t desired
      → t.namespace ≢ sys
  targets-ExcludeSystem gk system access_rules desired t h m =
      let (rules, read, found) = bind-ok (resolve_rules lib list sys access_rules) h in
      let (rule, at, inside, selected) =
        ((desired_targets-Distributed lib gk system rules desired found).1 t).0 m in
      resolve_rules-excludes access_rules rules read at inside

module _ {S : Type 0} (lib : Selectors S) (group_of : String → Resolved String) (c : AccessClient S)
    (sys : String) (am : AccessManagement) where
  -- The labels of the templates under their names, each name once; the last template of a name counts.
  abbrev pub IsIndex : Map String (Map String String) → List ClusterTemplate → Type 0
  IsIndex system templates =
      IsNodup (map (λ p. p.0) system)
      × ((name : String)
          → lookup name system ≡ (elim (latest (λ (u : ClusterTemplate). u.name) name templates) [
            | some u ↦ some u.labels
            | none ↦ none
          ]))

  -- A template that may go: a managed copy outside the system namespace that is not being deleted
  -- yet, that no owner but the AccessManagement has, and that no target of the rules stands for, where
  -- the rules select among the templates of the system namespace.
  abbrev pub MayGo : ClusterTemplate → Type 0
  MayGo t =
      (tracks_group_kind am cluster_template_gk ≡ true)
      × ((managed : List ClusterTemplate) × (c.list_managed ≡ items managed) × Memᴰ t managed)
      × (t.namespace ≢ sys)
      × (t.is_deleting ≡ false)
      × (has_foreign_owner_reference group_of am.name t.owner_references ≡ false)
      × ((rules : List Rule) × (templates : List ClusterTemplate) × (system : Map String
            (Map String String))
          × (resolve_rules lib c.list_namespaces sys am.access_rules ≡ ok rules)
          × (c.list_in_namespace sys ≡ items templates)
          × IsIndex system templates
          × ((target : Target)
              → Distributed lib cluster_template_gk system rules target
              → namespaced_name target.namespace target.name ≢ namespaced_name t.namespace t.name))

  -- Each ClusterTemplate that is to be removed may go: it is a managed copy outside the system
  -- namespace, is not being deleted, has no owner but the AccessManagement, and none of the targets
  -- that the rules resolve to has its key, where the targets are those among the templates that the
  -- system namespace lists, by name and labels; and ClusterTemplates are tracked at all.
  pub cluster_templates_to_remove-MayGo :
      (gone : List ClusterTemplate) (t : ClusterTemplate)
      → cluster_templates_to_remove lib group_of c sys am ≡ ok gone
      → Memᴰ t gone
      → MayGo t
  unfolding cluster_templates_to_remove
  cluster_templates_to_remove-MayGo gone t h m =
      elim (Bool-cases (tracks_group_kind am cluster_template_gk)) [
        | inr f ↦
            elim (subst (λ (l : List ClusterTemplate). Memᴰ t l) (sym (ok-injective (rw f at h)))
              m) [ ]
        | inl tracked ↦
            let (rules, read, h1) =
              bind-ok (resolve_rules lib c.list_namespaces sys am.access_rules) (rw tracked at h) in
            let (templates, listed1, h2) = bind-ok (listed (c.list_in_namespace sys)) h1 in
            let (managed, listed2, h3) = bind-ok (listed c.list_managed) h2 in
            let (plan, planned, e) =
              bind-ok
                (plan_group_kind group_of am.name lib rules cluster_template_gk
                  (label_index templates) (filter_by (is_copy sys) managed))
                h3 in
            let (once, exact, removes, releases) =
              plan_group_kind-Partition group_of am.name lib rules cluster_template_gk
                (label_index templates) (filter_by (is_copy sys) managed) plan planned in
            let there =
              subst (λ (l : List ClusterTemplate). Memᴰ t l) (sym (ok-injective e) ∙ removes) m in
            let (copy, unwanted) = mem-filter_by _ (filter_by (is_copy sys) managed) there in
            let (old, stays) = mem-filter_by (is_copy sys) managed copy in
            (
              tracked,
              (managed, listed-items c.list_managed managed listed2, old),
              away stays,
              ground arith,
              ground arith,
              (
                rules,
                templates,
                label_index templates,
                read,
                listed-items (c.list_in_namespace sys) templates listed1,
                (
                  index_by-IsNodup (λ (u : ClusterTemplate). u.name)
                      (λ (u : ClusterTemplate). u.labels) templates [] tt,
                  λ name.
                      lookup-latest (λ (u : ClusterTemplate). u.name)
                        (λ (u : ClusterTemplate). u.labels) name templates [],
                ),
                λ target d p. untracked plan.desired target ((exact target).1 d) p unwanted,
              ),
            )
      ]
    where
      away : not (t.namespace == sys) && not t.is_deleting ≡ true → t.namespace ≢ sys
      away h e = elim (Eq-cases t.namespace sys) [
        | inl (same, met) ↦ cc (rw met at h)
        | inr (other, f) ↦ other e
      ]

      untracked :
          (desired : List Target) (target : Target)
          → Memᴰ target desired
          → namespaced_name target.namespace target.name ≡ namespaced_name t.namespace t.name
          → (not (is_tracked group_of am.name (keys_of desired) t)
              && not (has_foreign_owner_reference group_of am.name t.owner_references))
            ≡ true
          → ⊥
      untracked desired target d p h =
          let tracked = mem→contains (keys_of desired) (namespaced_name t.namespace t.name) (
            subst (λ k. Memᴰ k (keys_of desired)) p
              (Memᴰ.map (λ (u : Target). namespaced_name u.namespace u.name) d)) in
          cc (rw tracked at h)
