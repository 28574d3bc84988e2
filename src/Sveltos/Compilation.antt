-- ===== src/Sveltos/Compilation.antt =====
-- How rule documents are compiled and grouped: `rulesFromDocs` and the end of
-- `rulesFromConfigMaps`, internal/controller/adapters/sveltos/verify.go.
use mathlib.Core.List.Memᴰ
use kcm.Prelude.{
  ◌+◌, ◌≡◌, refl, sym, ◌∙◌, ap, ◌↔◌, inl, inr, List, [], ◌∷◌, ◌++◌, Memᴰ, String, ◌==◌, Eq-cases,
  length, filter_by, append-nil, append_assoc, get_or, insert, get_or-insert, arith, Resolved, ok,
  error,
}
use kcm.Access.{GroupKind}
use kcm.Sveltos.Rules.{
  group_kind_eq, SourcedRuleDoc, ResourceRule, RuleLoadError, Env, compile_doc, rules_from_docs,
}
use kcm.Sveltos.Tiers.{RuleSet, kind_of, group_rules}

module _ {A P : Type 0} (env : Env A P) where
  abbrev pub HasRule : List SourcedRuleDoc → ResourceRule P → Type 0
  HasRule docs rule = (sd : SourcedRuleDoc) × Memᴰ sd docs × (compile_doc env sd ≡ ok rule)

  abbrev pub HasError : List SourcedRuleDoc → RuleLoadError → Type 0
  HasError docs failure =
      (sd : SourcedRuleDoc) × Memᴰ sd docs
      × (failure.source ≡ sd.source)
      × (compile_doc env sd ≡ error failure.err)

  abbrev pub Sorted : List SourcedRuleDoc → List (ResourceRule P) → List RuleLoadError → Type 0
  Sorted docs rules errs =
      ((r : ResourceRule P) → Memᴰ r rules ↔ HasRule docs r)
      × ((e : RuleLoadError) → Memᴰ e errs ↔ HasError docs e)
      × (length rules + length errs ≡ length docs)

  rule-Sorted :
      (sd : SourcedRuleDoc) (docs : List SourcedRuleDoc) (rule : ResourceRule P)
      (rules : List (ResourceRule P)) (errs : List RuleLoadError)
      → compile_doc env sd ≡ ok rule
      → Sorted docs rules errs
      → Sorted (sd ∷ docs) (rule ∷ rules) errs
  rule-Sorted sd docs rule rules errs h (on_rules, on_errs, count) = (
    λ r. (
      λ m. elim (Memᴰ.cases_cons m) [
        | inl p ↦ (sd, Memᴰ.head refl, h ∙ ap ok (sym p))
        | inr n ↦ let (d, o, t) = (on_rules r).0 n in (d, Memᴰ.tail o, t)
      ],
      λ c.
          let (d, o, t) = c in
          elim (Memᴰ.cases_cons o) [
            | inl p ↦ Memᴰ.head (cc (t, ap (compile_doc env) p, h))
            | inr n ↦ Memᴰ.tail ((on_rules r).1 (d, n, t))
          ],
    ),
    λ e. (
      λ m. let (d, o, s, t) = (on_errs e).0 m in (d, Memᴰ.tail o, s, t),
      λ c.
          let (d, o, s, t) = c in
          elim (Memᴰ.cases_cons o) [
            | inl p ↦ cc (t, ap (compile_doc env) p, h)
            | inr n ↦ (on_errs e).1 (d, n, s, t)
          ],
    ),
    omega (arith, count),
  )

  error-Sorted :
      (sd : SourcedRuleDoc) (docs : List SourcedRuleDoc) (err : String)
      (rules : List (ResourceRule P)) (errs : List RuleLoadError)
      → compile_doc env sd ≡ error err
      → Sorted docs rules errs
      → Sorted (sd ∷ docs) rules ((record { err = err; source = sd.source }) ∷ errs)
  error-Sorted sd docs err rules errs h (on_rules, on_errs, count) = (
    λ r. (
      λ m. let (d, o, t) = (on_rules r).0 m in (d, Memᴰ.tail o, t),
      λ c.
          let (d, o, t) = c in
          elim (Memᴰ.cases_cons o) [
            | inl p ↦ cc (t, ap (compile_doc env) p, h)
            | inr n ↦ (on_rules r).1 (d, n, t)
          ],
    ),
    λ e. (
      λ m. elim (Memᴰ.cases_cons m) [
        | inl p ↦ (
          sd,
          Memᴰ.head refl,
          ap (λ (x : RuleLoadError). x.source) p,
          h ∙ ap error (ap (λ (x : RuleLoadError). x.err) (sym p)),
        )
        | inr n ↦ let (d, o, s, t) = (on_errs e).0 n in (d, Memᴰ.tail o, s, t)
      ],
      λ c.
          let (d, o, s, t) = c in
          elim (Memᴰ.cases_cons o) [
            | inl p ↦ Memᴰ.head (
                same e sd err (s ∙ ap (λ (x : SourcedRuleDoc). x.source) p)
                  (cc (t, ap (compile_doc env) p, h)))
            | inr n ↦ Memᴰ.tail ((on_errs e).1 (d, n, s, t))
          ],
    ),
    omega (arith, count),
  )
    where
      same :
          (e : RuleLoadError) (sd : SourcedRuleDoc) (err : String)
          → e.source ≡ sd.source
          → e.err ≡ err
          → e ≡ (record { err = err; source = sd.source })
      same e sd err p q = cc (p, q)

  -- A bad rule document does not keep the others from being compiled. The rules are those that a
  -- document compiles to, the errors those of the documents that do not compile, each with its
  -- document's source; and together they are as many as the documents.
  rules_from_docs-Sorted :
      (docs : List SourcedRuleDoc)
      → Sorted docs (rules_from_docs env docs).0 (rules_from_docs env docs).1
  unfolding rules_from_docs
  rules_from_docs-Sorted [] = (
    λ r. (λ m. elim m [ ], λ c. elim c.1 [ ]),
    λ e. (λ m. elim m [ ], λ c. elim c.1 [ ]),
    omega arith,
  )
  rules_from_docs-Sorted (sd ∷ docs) = go (compile_doc env sd) refl (rules_from_docs-Sorted docs)
    where
      go :
          (o : Resolved (ResourceRule P))
          → compile_doc env sd ≡ o
          → Sorted docs (rules_from_docs env docs).0 (rules_from_docs env docs).1
          → Sorted
              (sd ∷ docs)
              (elim o as (λ _. List (ResourceRule P) × List RuleLoadError) [
                | ok rule ↦ (rule ∷ (rules_from_docs env docs).0, (rules_from_docs env docs).1)
                | error e ↦ (
                  (rules_from_docs env docs).0,
                  (record { err = e; source = sd.source }) ∷ (rules_from_docs env docs).1,
                )
              ]).0
              (elim o as (λ _. List (ResourceRule P) × List RuleLoadError) [
                | ok rule ↦ (rule ∷ (rules_from_docs env docs).0, (rules_from_docs env docs).1)
                | error e ↦ (
                  (rules_from_docs env docs).0,
                  (record { err = e; source = sd.source }) ∷ (rules_from_docs env docs).1,
                )
              ]).1
      go (ok rule) h rest = rule-Sorted sd docs rule _ _ h rest
      go (error e) h rest = error-Sorted sd docs e _ _ h rest

module _ {P : Type 0} where
  group_rules-append :
      (gk : GroupKind) (rules : List (ResourceRule P)) (rs : RuleSet P)
      → get_or gk (group_rules rules rs) []
        ≡ get_or gk rs [] ++ filter_by (λ r. kind_of r == gk) rules
  group_rules-append gk [] rs = sym (append-nil (get_or gk rs []))
  group_rules-append gk (rule ∷ rules) rs =
      let grown =
        get_or-insert (kind_of rule) gk (get_or (kind_of rule) rs [] ++ (rule ∷ [])) [] rs in
      group_rules-append gk rules
        (insert (kind_of rule) (get_or (kind_of rule) rs [] ++ (rule ∷ [])) rs)
      ∙ elim (Eq-cases (kind_of rule) gk) [
        | inl (same, t) ↦ rw t (
            ap (λ l. l ++ filter_by (λ r. kind_of r == gk) rules) (grown ∙ rw t refl)
            ∙ append_assoc (get_or (kind_of rule) rs []) (rule ∷ []) _
            ∙ ap (λ k. get_or k rs [] ++ (rule ∷ filter_by (λ r. kind_of r == gk) rules)) same)
        | inr (other, f) ↦
            rw f (ap (λ l. l ++ filter_by (λ r. kind_of r == gk) rules) (grown ∙ rw f refl))
      ]

  -- The rule set has for each kind exactly the rules of that kind, in their order, whatever their
  -- versions are, and nothing for a kind without rules.
  group_rules-OfKind :
      (gk : GroupKind) (rules : List (ResourceRule P))
      → get_or gk (group_rules rules []) [] ≡ filter_by (λ r. kind_of r == gk) rules
  group_rules-OfKind gk rules = group_rules-append gk rules []
