-- ===== src/Services/Deploy/Targets.antt =====
-- Which targets `ServicesToDeploy` gives, internal/serviceset/util.go.
use mathlib.Core.List.Memᴰ
use kcm.Prelude.{
  ◌≡◌, refl, sym, ◌∙◌, ap, subst, ◌⊎◌, inl, inr, Bool, true, false, true≢false, not, List, [], ◌∷◌,
  ◌++◌, map, Memᴰ, Option, some, Option-cases, Bool-cases, String, string_eq, ◌==◌, any, ObjectKey,
  key_eq, lookup, get_or, has_key_iff, contains, contains→mem, mem→contains, IsNodup,
}
use kcm.Api.{Service, ServiceWithValues, AvailableUpgrade, ServiceUpgradePaths, ServiceSet}
use kcm.Services.Keys.{effective_namespace, service_key, service_version, key_of, stored_key}
use kcm.Validation.Admission.{AreDistinct}
use kcm.Services.Deploy.{
  make_service, is_present, append_if_not_present, same_service, merge_fields, Stored,
  target_versions, target_templates, is_in_flight, stored_maps, next_hop, no_paths, add_target,
  add_targets, services_to_deploy,
}
use kcm.Services.Deploy.Filed.{
  Kept, merge_fields-Kept, Filed, stored_maps-Filed, stored_maps-in_flight,
}

effective_idempotent :
    (n : String) → effective_namespace (effective_namespace n) ≡ effective_namespace n
unfolding effective_namespace
effective_idempotent n = elim (Bool-cases (n == "")) [
  | inl t ↦ rw t refl
  | inr f ↦ rw f (rw f refl)
]

-- A target has the key of its service.
make_service-key :
    (s : Service) (version template : String)
    → stored_key (make_service s version template) ≡ key_of s
unfolding make_service service_key
make_service-key s version template =
    ap (λ n. record { namespace = n; name = s.name }) (effective_idempotent s.namespace)

IsNodup-snoc :
    {A : Type 0} (key : A → ObjectKey) (xs : List A) (x : A)
    → IsNodup (map key xs)
    → contains (map key xs) (key x) ≡ false
    → IsNodup (map key (xs ++ x ∷ []))
IsNodup-snoc key [] x h f = (refl, tt)
IsNodup-snoc key (y ∷ ys) x h f = (
  elim (Bool-cases (contains (map key (ys ++ x ∷ [])) (key y))) [
    | inl t ↦
        let (z, m, p) =
          Memᴰ.of_map key (ys ++ x ∷ []) (contains→mem (map key (ys ++ x ∷ [])) (key y) t) in
        elim (Memᴰ.append_cases ys m) [
          | inl n ↦ absurd (
              true≢false (
                sym (
                  subst (λ k. contains (map key ys) k ≡ true) p
                    (mem→contains (map key ys) (key z) (Memᴰ.map key n)))
                ∙ h.0))
          | inr n ↦ elim (Memᴰ.cases_cons n) [
            | inl e ↦ absurd (
                true≢false (
                  sym (mem→contains (map key (y ∷ ys)) (key x) (Memᴰ.head (ap key (sym e) ∙ p)))
                  ∙ f))
            | inr o ↦ elim o [ ]
          ]
        ]
    | inr q ↦ q
  ],
  IsNodup-snoc key ys x h.1 (elim (Bool-cases (contains (map key ys) (key x))) [
    | inl t ↦ absurd (
        true≢false (
          sym (
            mem→contains (map key (y ∷ ys)) (key x)
              (Memᴰ.tail (contains→mem (map key ys) (key x) t)))
          ∙ f))
    | inr q ↦ q
  ]),
)

module _ {V : Type 0} (parse : String → Option V) (less_than : V → V → Bool)
    (paths : List ServiceUpgradePaths) (filtered : List Service) (set : ServiceSet) where
  abbrev stored : Stored
  stored = stored_maps parse less_than paths filtered set

  -- One service adds at most one target, of its key; and a service in flight that target.
  abbrev Adds : Service → List ServiceWithValues → List ServiceWithValues → Type 0
  Adds s services after =
      (after ≡ services)
      ⊎ ((x : ServiceWithValues) × (after ≡ services ++ x ∷ []) × (stored_key x ≡ key_of s))

  append_if_not_present-Adds :
      (services : List ServiceWithValues) (s : Service) (u : AvailableUpgrade)
      → Adds s services (append_if_not_present services s u)
  unfolding append_if_not_present
  append_if_not_present-Adds services s u = elim (Bool-cases (any (is_present s u) services)) [
    | inl t ↦ rw t (inl refl)
    | inr f ↦
        rw f (inr (make_service s u.version u.name, refl, make_service-key s u.version u.name))
  ]

  add_target-flying :
      (m : Stored) (s : Service) (services : List ServiceWithValues) (x : ServiceWithValues)
      → lookup (key_of s) m.in_flight ≡ some x
      → add_target parse less_than paths filtered set m s services ≡ services ++ x ∷ []
  unfolding add_target
  add_target-flying m s services x e = rw (e, add_target) refl

  add_target-Adds :
      (m : Stored) (s : Service) (services : List ServiceWithValues)
      → Filed m.in_flight
      → Adds s services (add_target parse less_than paths filtered set m s services)
  unfolding add_target
  add_target-Adds m s services filed = elim (Option-cases (lookup (key_of s) m.in_flight)) [
    | inr (x, e) ↦ rw (e, add_target) (inr (x, refl, filed (key_of s) x e))
    | inl grounded ↦
        rw (grounded, add_target)
          (elim (Bool-cases s.disable) [
            | inl off ↦ rw off (inl refl)
            | inr on ↦
                rw on (elim (Bool-cases (not (get_or (key_of s) m.upgrade_available false))) [
                  | inl blocked ↦
                      rw blocked
                        (elim (Bool-cases (any (λ svc. same_service s svc) set.spec.services)) [
                          | inl t ↦ rw t (
                              inr (
                                make_service s s.version s.template,
                                refl,
                                make_service-key s s.version s.template,
                              ))
                          | inr f ↦ rw f (inl refl)
                        ])
                  | inr free ↦
                      rw free (elim (Bool-cases (no_paths parse less_than paths filtered set)) [
                        | inl t ↦ rw t (
                            inr (
                              _,
                              refl,
                              make_service-key s
                                  (get_or (key_of s)
                                    (target_versions parse less_than paths filtered set) "")
                                  (get_or (key_of s)
                                    (target_templates parse less_than paths filtered set) ""),
                            ))
                        | inr f ↦ rw f (
                            append_if_not_present-Adds services s
                              (next_hop parse less_than paths filtered set m s))
                      ])
                ])
          ])
  ]

  -- The keys of the targets that are added stay distinct.
  add_targets-IsNodup :
      (m : Stored) (services : List Service) (targets : List ServiceWithValues)
      → Filed m.in_flight
      → AreDistinct services
      → IsNodup (map stored_key targets)
      → ((s : Service) → Memᴰ s services → contains (map stored_key targets) (key_of s) ≡ false)
      → IsNodup (map stored_key (add_targets parse less_than paths filtered set m services targets))
  unfolding add_targets
  add_targets-IsNodup m [] targets filed distinct h apart = h
  add_targets-IsNodup m (s ∷ services) targets filed distinct h apart =
      elim (add_target-Adds m s targets filed) [
        | inl same ↦
            add_targets-IsNodup m services _ filed distinct.1
              (subst (λ x. IsNodup (map stored_key x)) (sym same) h)
              (λ t n.
                subst (λ x. contains (map stored_key x) (key_of t) ≡ false) (sym same)
                  (apart t (Memᴰ.tail n)))
        | inr (x, e, k) ↦
            let fresh =
              subst (λ y. contains (map stored_key targets) y ≡ false) (sym k)
                (apart s (Memᴰ.head refl)) in
            add_targets-IsNodup m services _ filed distinct.1
              (subst (λ y. IsNodup (map stored_key y)) (sym e)
                (IsNodup-snoc stored_key targets x h fresh))
              (λ t n.
                subst (λ y. contains (map stored_key y) (key_of t) ≡ false) (sym e)
                  (elim (Bool-cases (contains (map stored_key (targets ++ x ∷ [])) (key_of t))) [
                    | inr f ↦ f
                    | inl c ↦
                        let (y, o, p) =
                          Memᴰ.of_map stored_key (targets ++ x ∷ [])
                            (contains→mem (map stored_key (targets ++ x ∷ [])) (key_of t) c) in
                        elim (Memᴰ.append_cases targets o) [
                          | inl q ↦ absurd (
                              true≢false (
                                sym (
                                  mem→contains (map stored_key targets) (key_of t) (
                                    subst (λ z. Memᴰ z (map stored_key targets)) p
                                      (Memᴰ.map stored_key q)))
                                ∙ apart t (Memᴰ.tail n)))
                          | inr q ↦ elim (Memᴰ.cases_cons q) [
                            | inl r ↦ absurd (
                                true≢false (
                                  sym (
                                    mem→contains (map key_of services) (key_of s) (
                                      subst (λ z. Memᴰ z (map key_of services))
                                        (sym p ∙ ap stored_key r ∙ k) (Memᴰ.map key_of n)))
                                  ∙ distinct.0))
                            | inr none_left ↦ elim none_left [ ]
                          ]
                        ]
                  ]))
      ]

  -- A target belongs to a service, and a target of a service in flight is what is in flight.
  mem-add_targets :
      (m : Stored) (services : List Service) (targets : List ServiceWithValues)
      (x : ServiceWithValues)
      → Filed m.in_flight
      → Memᴰ x (add_targets parse less_than paths filtered set m services targets)
      → Memᴰ x targets ⊎ ((s : Service) × Memᴰ s services × (stored_key x ≡ key_of s))
  unfolding add_targets
  mem-add_targets m [] targets x filed n = inl n
  mem-add_targets m (s ∷ services) targets x filed n =
      elim (mem-add_targets m services _ x filed n) [
        | inr (t, o, p) ↦ inr (t, Memᴰ.tail o, p)
        | inl o ↦ elim (add_target-Adds m s targets filed) [
          | inl same ↦ inl (subst (Memᴰ x) same o)
          | inr (y, e, k) ↦ elim (Memᴰ.append_cases targets (subst (Memᴰ x) e o)) [
            | inl old ↦ inl old
            | inr here ↦ elim (Memᴰ.cases_cons here) [
              | inl p ↦ inr (s, Memᴰ.head refl, ap stored_key p ∙ k)
              | inr none_left ↦ elim none_left [ ]
            ]
          ]
        ]
      ]

  add_targets-mem :
      (m : Stored) (services : List Service) (targets : List ServiceWithValues)
      (x : ServiceWithValues)
      → Filed m.in_flight
      → Memᴰ x targets
        ⊎ ((s : Service) × Memᴰ s services × (lookup (key_of s) m.in_flight ≡ some x))
      → Memᴰ x (add_targets parse less_than paths filtered set m services targets)
  unfolding add_targets
  add_targets-mem m [] targets x filed (inl n) = n
  add_targets-mem m [] targets x filed (inr (s, n, e)) = elim n [ ]
  add_targets-mem m (s ∷ services) targets x filed h =
      add_targets-mem m services _ x filed (elim h [
        | inl n ↦ inl (elim (add_target-Adds m s targets filed) [
          | inl same ↦ subst (Memᴰ x) (sym same) n
          | inr (y, e, k) ↦ subst (Memᴰ x) (sym e) (Memᴰ.append_left (y ∷ []) n)
        ])
        | inr (t, n, e) ↦ elim (Memᴰ.cases_cons n) [
          | inl p ↦ inl (
              subst (Memᴰ x)
                (sym (
                  add_target-flying m s targets x
                    (ap (λ y. lookup (key_of y) m.in_flight) (sym p) ∙ e)))
                (Memᴰ.append_right targets (Memᴰ.head refl)))
          | inr o ↦ inr (t, o, e)
        ]
      ])

  -- For services with distinct keys, filtered and stored, ServicesToDeploy gives at most one target
  -- for a key, and only targets of filtered services; and a stored service that is still filtered
  -- and whose version has not been deployed yet has a target with its own version and template.
  pub services_to_deploy-Targets :
      AreDistinct filtered
      → IsNodup (map stored_key set.spec.services)
      → IsNodup (map stored_key (services_to_deploy parse less_than paths filtered set))
        × ((x : ServiceWithValues)
            → Memᴰ x (services_to_deploy parse less_than paths filtered set)
            → (s : Service) × Memᴰ s filtered × (stored_key x ≡ key_of s))
        × ((svc : ServiceWithValues)
            → Memᴰ svc set.spec.services
            → Memᴰ (stored_key svc) (map key_of filtered)
            → is_in_flight parse less_than paths filtered set svc ≡ true
            → (x : ServiceWithValues) × Memᴰ x
                (services_to_deploy parse less_than paths filtered set)
              × Kept svc x)
  unfolding services_to_deploy stored_maps
  services_to_deploy-Targets distinct stored_distinct = (
    add_targets-IsNodup stored filtered [] (stored_maps-Filed parse less_than paths filtered set)
        distinct tt (λ s n. refl),
    λ x n.
        elim (mem-add_targets stored filtered [] x
          (stored_maps-Filed parse less_than paths filtered set) n) [
            | inl o ↦ elim o [ ]
            | inr h ↦ h
          ],
    λ svc n wanted flying.
        let (s, o, p) = Memᴰ.of_map key_of filtered wanted in
        let target = merge_fields filtered svc in
        let known =
          stored_maps-in_flight parse less_than paths filtered set svc stored_distinct n
            ((has_key_iff key_of (λ s. service_version s.version s.template) filtered
                (stored_key svc)).1
              wanted)
            flying in
        (
          target,
          add_targets-mem stored filtered [] target
              (stored_maps-Filed parse less_than paths filtered set)
              (inr (s, o, subst (λ k. lookup k stored.in_flight ≡ some target) (sym p) known)),
          merge_fields-Kept filtered svc,
        ),
  )
