-- ===== src/Validation/Clusters/Compatible.antt =====
-- Which Kubernetes versions are accepted: `ClusterTemplateK8sCompatibility`,
-- internal/util/validation/cluster_template.go.
use mathlib.Core.List.Memᴰ
use kcm.Prelude.{
  All-mem, All-of_mem, filter_by, mem-filter_by, filter_by-mem, Eq-cases, Bool, not, ◌≡◌, ◌≢◌, refl,
  sym, ◌∙◌, ap, subst, ◌↔◌, ◌⊎◌, inl, inr, true, false, List, [], ◌∷◌, Memᴰ, Option, none, some,
  String, string_eq, ◌==◌, Bool-cases, All, ObjectKey, if◌then◌else◌, Resolved, ok, error,
}
use kcm.Api.{Service, Fetched, found, not_found, failed}
use kcm.Validation.Clusters.{
  Semver, K8sError, unread, violated, check_constraint, check_template, check_templates,
  service_templates_k8s_compatibility, enabled_templates, cluster_template_k8s_compatibility,
}

module _ {V C : Type 0} (semver : Semver V C) (get_constraint : ObjectKey → Fetched String)
    (namespace : String) where
  abbrev pub key_for : String → ObjectKey
  key_for template = record { namespace = namespace; name = template }

  -- The template can be read and states no constraint, or one that the version satisfies.
  abbrev pub Accepts : V → String → Type 0
  Accepts version template =
      (constraint : String) × (get_constraint (key_for template) ≡ found constraint)
      × ((constraint ≡ "")
          ⊎ ((c : C) × (semver.new_constraint constraint ≡ ok c) × (semver.check c version ≡ true)))

  -- The template can be read and states a constraint that the version does not satisfy.
  abbrev pub Violates : V → String → Type 0
  Violates version template =
      (constraint : String) × (get_constraint (key_for template) ≡ found constraint)
      × ((c : C) × (semver.new_constraint constraint ≡ ok c) × (semver.check c version ≡ false))

  -- What one template's check says.
  abbrev pub Says : V → String → Option K8sError → Type 0
  Says version template none = Accepts version template
  Says version template (some (unread cause)) = ¬ Accepts version template
  Says version template (some (violated t)) =
      (t ≡ template) × Violates version template × ¬ Accepts version template

  same_constraint : {a b : String} (f : Fetched String) → f ≡ found a → f ≡ found b → a ≡ b
  same_constraint f p q = cc (p, q)

  -- A template whose constraint was read accepts the version by that constraint.
  by_constraint :
      (version : V) (template constraint : String)
      → get_constraint (key_for template) ≡ found constraint
      → (constraint == "") ≡ false
      → Accepts version template
      → (c : C) × (semver.new_constraint constraint ≡ ok c) × (semver.check c version ≡ true)
  by_constraint version template constraint read stated (other, read2, cases) =
      let same = same_constraint (get_constraint (key_for template)) read2 read in
      elim cases [
        | inl blank ↦ cc (stated, (string_eq.beq_iff constraint "").1 (sym same ∙ blank))
        | inr by ↦
            subst
              (λ k. (c : C) × (semver.new_constraint k ≡ ok c) × (semver.check c version ≡ true))
              same by
      ]

  check_constraint-Says :
      (version : V) (template constraint : String)
      → get_constraint (key_for template) ≡ found constraint
      → (constraint == "") ≡ false
      → Says version template
          (check_constraint semver get_constraint namespace version template constraint)
  check_constraint-Says version template constraint read stated =
      go (semver.new_constraint constraint) refl
    where
      go :
          (r : Resolved C)
          → semver.new_constraint constraint ≡ r
          → Says version template (elim r [
            | error e ↦ some (unread e)
            | ok c ↦ if semver.check c version then none else some (violated template)
          ])
      go (error e) h = λ accepts.
          let (c, p, t) = by_constraint version template constraint read stated accepts in cc (h, p)
      go (ok c) h = elim (Bool-cases (semver.check c version)) [
        | inl t ↦ rw t (constraint, read, inr (c, h, t))
        | inr f ↦ rw f (
          refl,
          (constraint, read, (c, h, f)),
          λ accepts.
              let (d, p, t) = by_constraint version template constraint read stated accepts in
              let same : d ≡ c = cc (p, h) in cc (ap (λ x. semver.check x version) same, t, f),
        )
      ]

  check_template-Says :
      (version : V) (template : String)
      → Says version template (check_template semver get_constraint namespace version template)
  check_template-Says version template = go (get_constraint (key_for template)) refl
    where
      go :
          (f : Fetched String)
          → get_constraint (key_for template) ≡ f
          → Says version template (elim f [
            | not_found ↦ some (unread template)
            | failed e ↦ some (unread e)
            | found constraint ↦
                if constraint == ""
                then none
                else check_constraint semver get_constraint namespace version template constraint
          ])
      go not_found h = λ accepts. cc (h, accepts.1)
      go (failed e) h = λ accepts. cc (h, accepts.1)
      go (found constraint) h = elim (Bool-cases (constraint == "")) [
        | inl t ↦ rw t (constraint, h, inl ((string_eq.beq_iff constraint "").0 t))
        | inr f ↦ rw f (check_constraint-Says version template constraint h f)
      ]

  -- What the check of a list says.
  abbrev SaysAll : V → List String → Option K8sError → Type 0
  SaysAll version templates none = All (Accepts version) templates
  SaysAll version templates (some (unread cause)) = ¬ All (Accepts version) templates
  SaysAll version templates (some (violated t)) =
      Memᴰ t templates × Violates version t × ¬ All (Accepts version) templates

  check_templates-SaysAll :
      (version : V) (templates : List String)
      → SaysAll version templates
          (check_templates semver get_constraint namespace version templates)
  check_templates-SaysAll version [] = tt
  check_templates-SaysAll version (t ∷ templates) =
      go (check_template semver get_constraint namespace version t)
        (check_templates semver get_constraint namespace version templates)
        (check_template-Says version t) (check_templates-SaysAll version templates)
    where
      go :
          (o rest : Option K8sError)
          → Says version t o
          → SaysAll version templates rest
          → SaysAll version (t ∷ templates) (elim o [ some e ↦ some e | none ↦ rest ])
      go (some (unread cause)) rest says later = λ all. says all.0
      go (some (violated u)) rest says later =
          (Memᴰ.head says.0, subst (Violates version) (sym says.0) says.1, λ all. says.2 all.0)
      go none none says later = (says, later)
      go none (some (unread cause)) says later = λ all. later all.1
      go none (some (violated u)) says later = (Memᴰ.tail later.0, later.1, λ all. later.2 all.1)

  -- The version can be read, and every template can be and accepts it.
  abbrev AllTemplates : String → List String → Type 0
  AllTemplates k8s_version templates =
      (version : V) × (semver.new_version k8s_version ≡ ok version)
      × All (Accepts version) templates

  service_templates_iff :
      (k8s_version : String) (templates : List String)
      → k8s_version ≢ ""
      → templates ≢ []
      → ((service_templates_k8s_compatibility semver get_constraint namespace k8s_version templates
            ≡ none)
          ↔ AllTemplates k8s_version templates)
        × ((t : String)
            → service_templates_k8s_compatibility semver get_constraint namespace k8s_version
                templates
              ≡ some (violated t)
            → Memᴰ t templates
              × ((version : V) × (semver.new_version k8s_version ≡ ok version)
                  × Violates version t))
  unfolding service_templates_k8s_compatibility
  service_templates_iff k8s_version templates stated some_templates = go templates some_templates
    where
      unstated : (k8s_version == "") ≡ false
      unstated = elim (Bool-cases (k8s_version == "")) [
        | inl t ↦ absurd (stated ((string_eq.beq_iff k8s_version "").0 t))
        | inr f ↦ f
      ]

      listed :
          (ts : List String) (version : V)
          → semver.new_version k8s_version ≡ ok version
          → (o : Option K8sError) → SaysAll version ts o
          → ((o ≡ none) ↔ AllTemplates k8s_version ts)
            × ((t : String)
                → o ≡ some (violated t)
                → Memᴰ t ts
                  × ((version : V) × (semver.new_version k8s_version ≡ ok version)
                      × Violates version t))
      listed ts version read none says = ((λ h. (version, read, says), λ h. refl), λ t h. cc h)
      listed ts version read (some (unread cause)) says = (
        (
          λ h. cc h,
          λ h.
              let (v, p, all) = h in
              let same : v ≡ version = cc (p, read) in
              absurd (says (subst (λ x. All (Accepts x) ts) same all)),
        ),
        λ t h. cc h,
      )
      listed ts version read (some (violated u)) says = (
        (
          λ h. cc h,
          λ h.
              let (v, p, all) = h in
              let same : v ≡ version = cc (p, read) in
              absurd (says.2 (subst (λ x. All (Accepts x) ts) same all)),
        ),
        λ t h.
            let same : u ≡ t = cc h in
            (
              subst (λ x. Memᴰ x ts) same says.0,
              (version, read, subst (Violates version) same says.1),
            ),
      )

      parsed :
          (ts : List String) (r : Resolved V)
          → semver.new_version k8s_version ≡ r
          → (((elim r [
            | error e ↦ some (unread e)
            | ok v ↦ check_templates semver get_constraint namespace v ts
          ])
                ≡ none)
              ↔ AllTemplates k8s_version ts)
            × ((t : String)
                → (elim r [
                  | error e ↦ some (unread e)
                  | ok v ↦ check_templates semver get_constraint namespace v ts
                ])
                  ≡ some (violated t)
                → Memᴰ t ts
                  × ((version : V) × (semver.new_version k8s_version ≡ ok version)
                      × Violates version t))
      parsed ts (error e) read =
          ((λ h. cc h, λ h. let (v, p, all) = h in cc (p, read)), λ t h. cc h)
      parsed ts (ok v) read =
          listed ts v read (check_templates semver get_constraint namespace v ts)
            (check_templates-SaysAll v ts)

      go :
          (ts : List String)
          → ts ≢ []
          → ((service_templates_k8s_compatibility semver get_constraint namespace k8s_version ts
                ≡ none)
              ↔ AllTemplates k8s_version ts)
            × ((t : String)
                → service_templates_k8s_compatibility semver get_constraint namespace k8s_version ts
                  ≡ some (violated t)
                → Memᴰ t ts
                  × ((version : V) × (semver.new_version k8s_version ≡ ok version)
                      × Violates version t))
      go [] h = absurd (h refl)
      go (t ∷ ts) h = rw unstated (parsed (t ∷ ts) (semver.new_version k8s_version) refl)

  -- The templates of the services that are not disabled.
  mem-enabled_templates :
      (services : List Service) (t : String)
      → Memᴰ t (enabled_templates services)
        ↔ ((s : Service) × Memᴰ s services × (s.disable ≡ false) × (s.template ≡ t))
  mem-enabled_templates services t = (
    λ m.
        let (s, n, e) = Memᴰ.of_map (λ (x : Service). x.template) (filter_by enabled services) m in
        let (old, on) = mem-filter_by enabled services n in (s, old, enabled-false s on, e),
    λ (s, n, on, e).
        subst (λ x. Memᴰ x (enabled_templates services)) e
          (Memᴰ.map (λ (x : Service). x.template) (filter_by-mem enabled services n (ap not on))),
  )
    where
      enabled : Service → Bool
      enabled s = not s.disable

      enabled-false : (s : Service) → not s.disable ≡ true → s.disable ≡ false
      enabled-false s h = elim (Bool-cases s.disable) [ inl d ↦ cc (rw d at h) | inr f ↦ f ]

  all_disabled :
      (services : List Service)
      → enabled_templates services ≡ []
      → (s : Service) → Memᴰ s services
      → s.disable ≡ true
  all_disabled services e s m = elim (Bool-cases s.disable) [
    | inl d ↦ d
    | inr on ↦
        elim (subst (Memᴰ s.template) e
          ((mem-enabled_templates services s.template).1 (s, m, on, refl))) [ ]
  ]

  unstated-none :
      (k8s_version : String) (templates : List String)
      → (k8s_version == "") ≡ true
      → service_templates_k8s_compatibility semver get_constraint namespace k8s_version templates
        ≡ none
  unfolding service_templates_k8s_compatibility
  unstated-none k8s_version [] h = refl
  unstated-none k8s_version (t ∷ templates) h = rw h refl

  -- The version can be read, and the template of every service that is not disabled can be and
  -- accepts it.
  abbrev pub AllAccept : String → List Service → Type 0
  AllAccept k8s_version services =
      (version : V) × (semver.new_version k8s_version ≡ ok version)
      × ((s : Service) → Memᴰ s services → s.disable ≡ false → Accepts version s.template)

  -- A template that violates belongs to a service that is not disabled.
  abbrev pub IsViolator : String → List Service → String → Type 0
  IsViolator k8s_version services t =
      ((s : Service) × Memᴰ s services × (s.disable ≡ false) × (s.template ≡ t))
      × ((version : V) × (semver.new_version k8s_version ≡ ok version) × Violates version t)

  -- A ClusterDeployment passes the check exactly when no Kubernetes version is stated, or all its
  -- services are disabled, or the version can be read and the template of each service that is not
  -- disabled can be read and states no constraint or one that the version satisfies. An error that
  -- is marked as a violation names the template of a service that is not disabled, which states a
  -- constraint that the version does not satisfy.
  pub cluster_template_k8s_compatibility_iff :
      (k8s_version : String) (services : List Service)
      → ((cluster_template_k8s_compatibility semver get_constraint namespace k8s_version services
            ≡ none)
          ↔ ((k8s_version ≡ "")
              ⊎ (((s : Service) → Memᴰ s services → s.disable ≡ true)
                  ⊎ AllAccept k8s_version services)))
        × ((t : String)
            → cluster_template_k8s_compatibility semver get_constraint namespace k8s_version
                services
              ≡ some (violated t)
            → IsViolator k8s_version services t)
  unfolding cluster_template_k8s_compatibility service_templates_k8s_compatibility
  cluster_template_k8s_compatibility_iff k8s_version services = elim (Eq-cases k8s_version "") [
    | inl (same, t) ↦
        let passes = unstated-none k8s_version (enabled_templates services) t in
        ((λ h. inl same, λ h. passes), λ u e. cc (passes, e))
    | inr (stated, f) ↦ listed stated (enabled_templates services) refl
  ]
    where
      listed :
          k8s_version ≢ ""
          → (ts : List String) → enabled_templates services ≡ ts
          → ((service_templates_k8s_compatibility semver get_constraint namespace k8s_version ts
                ≡ none)
              ↔ ((k8s_version ≡ "")
                  ⊎ (((s : Service) → Memᴰ s services → s.disable ≡ true)
                      ⊎ AllAccept k8s_version services)))
            × ((t : String)
                → service_templates_k8s_compatibility semver get_constraint namespace k8s_version ts
                  ≡ some (violated t)
                → IsViolator k8s_version services t)
      listed stated [] e = ((λ h. inr (inl (all_disabled services e)), λ h. refl), λ t h. cc h)
      listed stated (t ∷ ts) e =
          let whole = service_templates_iff k8s_version (t ∷ ts) stated (λ p. cc p) in
          let (s, n, on, own) =
            (mem-enabled_templates services t).0 (subst (Memᴰ t) (sym e) (Memᴰ.head refl)) in
          (
            (
              λ h. inr (inr (accepted (whole.0.0 h))),
              λ h. whole.0.1 (elim h [
                | inl blank ↦ absurd (stated blank)
                | inr some_stated ↦ elim some_stated [
                  | inl off ↦ cc (off s n, on)
                  | inr (version, read, accepts) ↦ (
                    version,
                    read,
                    All-of_mem (Accepts version) (t ∷ ts) (λ u m.
                        let (x, o, live, p) =
                          (mem-enabled_templates services u).0 (subst (Memᴰ u) (sym e) m) in
                        subst (Accepts version) p (accepts x o live)),
                  )
                ]
              ]),
            ),
            λ u h.
                let (m, wrong) = whole.1 u h in
                ((mem-enabled_templates services u).0 (subst (Memᴰ u) (sym e) m), wrong),
          )
        where
          accepted : AllTemplates k8s_version (t ∷ ts) → AllAccept k8s_version services
          accepted (version, read, all) = (
            version,
            read,
            λ s m on. All-mem (Accepts version) (t ∷ ts) all (
                subst (Memᴰ s.template) e
                  ((mem-enabled_templates services s.template).1 (s, m, on, refl))),
          )
