-- ===== src/Services/Filter/Eligible.antt =====
-- `FilterServiceDependencies` returns exactly the services whose dependencies are satisfied all the
-- way down, and the error exactly where a dependency is not listed.
use mathlib.Core.List.Memᴰ
use kcm.Prelude.{
  suc, ◌≡◌, refl, sym, ◌∙◌, ap, subst, ◌⊎◌, inl, inr, ◌↔◌, Bool, true, false, true≢false, not, List,
  [], ◌∷◌, map, Memᴰ, Option, none, some, Bool-cases, length, arith, ObjectKey, key_eq, get_or,
  has_key, lookup-index_by, contains, filter_by, mem-filter_by, filter_by-mem, all, all→mem,
  mem→all, String, string_eq,
}
use kcm.Api.{Service, ServiceDependsOn, ServiceSet, service_state_deployed}
use kcm.Services.Keys.{key_of, dependency_key, at_desired_version}
use kcm.Validation.{dependency_keys}
use kcm.Validation.Dependencies.{AllDefined, Depends, direct, through}
use kcm.Validation.Admission.{AreDistinct}
use kcm.Services.Filter.{
  no_tables, populate, absent_dependency, is_at_desired, spec_versions, status_versions,
  status_states, desired_versions, settle, dependencies_of, initially_deployed, eligible_from,
  Filtered, eligible, absent, out_of_fuel, filter_service_dependencies,
}
use kcm.Services.Filter.Fixpoint.{settle-Settled}
use kcm.Services.Filter.Satisfied.{
  Satisfied, tables, listed_iff, SettledFrom, init-IsNodup, settled-Satisfied, Satisfied-settled,
  counted_iff,
}

module _ (set : ServiceSet) (desired : List Service) (distinct : AreDistinct desired) where
  -- A list with a listed dependency only is accepted, and the first other reference is reported.
  abbrev Resolves : List Service → Option (ObjectKey × ObjectKey) → Type 0
  Resolves services none =
      (svc : Service) (d : ServiceDependsOn)
      → Memᴰ svc services
      → Memᴰ d svc.depends_on
      → Memᴰ (dependency_key d) (map key_of desired)
  Resolves services (some (k, j)) =
      (svc : Service) × (d : ServiceDependsOn) × Memᴰ svc services
      × Memᴰ d svc.depends_on
      × (key_of svc ≡ k)
      × (dependency_key d ≡ j)
      × ¬ Memᴰ j (map key_of desired)

  absent_dependency-Resolves :
      (services : List Service)
      → Resolves services (absent_dependency (tables set desired distinct).service_idx services)
  unfolding absent_dependency
  absent_dependency-Resolves [] = λ svc d m. elim m [ ]
  absent_dependency-Resolves (x ∷ xs) =
      go (filter_by missing x.depends_on) refl
        (absent_dependency (tables set desired distinct).service_idx xs)
        (absent_dependency-Resolves xs)
    where
      missing : ServiceDependsOn → Bool
      missing d = not (has_key (dependency_key d) (tables set desired distinct).service_idx)

      later :
          (r : Option (ObjectKey × ObjectKey))
          → ((d : ServiceDependsOn) → Memᴰ d x.depends_on → missing d ≡ false)
          → Resolves xs r
          → Resolves (x ∷ xs) r
      later none fine h = λ svc d m n. elim (Memᴰ.cases_cons m) [
        | inl e ↦
            let own = fine d (subst (λ y. Memᴰ d y.depends_on) e n) in
            (listed_iff set desired distinct (dependency_key d)).0 (ground (arith, own))
        | inr o ↦ h svc d o n
      ]
      later (some (k, j)) fine h =
          let (svc, d, m, n, p, q, r) = h in (svc, d, Memᴰ.tail m, n, p, q, r)

      go :
          (ds : List ServiceDependsOn)
          → filter_by missing x.depends_on ≡ ds
          → (r : Option (ObjectKey × ObjectKey)) → Resolves xs r
          → Resolves (x ∷ xs) (elim ds [ [] ↦ r | d ∷ _ ↦ some (key_of x, dependency_key d) ])
      go [] e r h =
          later r
            (λ d n. elim (Bool-cases (missing d)) [
              | inl t ↦ elim (subst (Memᴰ d) e (filter_by-mem missing x.depends_on n t)) [ ]
              | inr f ↦ f
            ])
            h
      go (d ∷ ds) e r h =
          let (n, t) =
            mem-filter_by missing x.depends_on (subst (Memᴰ d) (sym e) (Memᴰ.head refl)) in
          (
            x,
            d,
            Memᴰ.head refl,
            n,
            refl,
            refl,
            λ m.
                true≢false
                  (sym t ∙ ap not ((listed_iff set desired distinct (dependency_key d)).1 m)),
          )

-- What each answer says of the desired services.
abbrev pub Correct : ServiceSet → List Service → Filtered → Type 0
Correct set desired (eligible services) =
    AllDefined desired
    × ((svc : Service)
        → Memᴰ svc services ↔ (
            Memᴰ svc desired
            × ((d : ServiceDependsOn)
                → Memᴰ d svc.depends_on
                → Satisfied set desired (dependency_key d))))
Correct set desired (absent k j) =
    (svc : Service) × (d : ServiceDependsOn) × Memᴰ svc desired
    × Memᴰ d svc.depends_on
    × (key_of svc ≡ k)
    × (dependency_key d ≡ j)
    × ¬ Memᴰ j (map key_of desired)
Correct set desired out_of_fuel = ⊥

module _ (set : ServiceSet) (desired : List Service) (distinct : AreDistinct desired) where
  eligible-Correct :
      (r : List ObjectKey)
      → SettledFrom set desired distinct r
      → AllDefined desired
      → Correct set desired (eligible_from (populate desired no_tables) desired (some r))
  unfolding eligible_from
  eligible-Correct r s defined = (
    defined,
    λ svc. (
      λ m.
          let (n, t) = mem-filter_by _ desired m in
          let in_set =
            (counted_iff set desired distinct r (s.nodup (init-IsNodup set desired distinct)) svc
                n).0
              t in
          (
            n,
            λ d o.
                settled-Satisfied set desired distinct r s (dependency_key d)
                  (all→mem (contains r) (dependency_keys svc) in_set (Memᴰ.map dependency_key o)),
          ),
      λ (n, h).
          let settled : all (contains r) (dependency_keys svc) ≡ true =
            mem→all (contains r) (dependency_keys svc) (λ x o.
              let (d, p, q) = Memᴰ.of_map dependency_key svc.depends_on o in
              subst (λ y. contains r y ≡ true) q
                (Satisfied-settled set desired distinct r s (dependency_key d) (h d p))) in
          filter_by-mem _ desired n (
            (counted_iff set desired distinct r (s.nodup (init-IsNodup set desired distinct)) svc
                n).1
              settled),
    ),
  )

  -- For desired services with distinct keys FilterServiceDependencies ends. It returns a list just
  -- when every dependency is listed, and then exactly the services for whose dependencies there is
  -- a set of listed services, each at its desired version, that holds the dependency and the
  -- dependencies of its members; else its error names a listed service and a dependency of it that
  -- is not listed.
  pub filter-Correct : Correct set desired (filter_service_dependencies set desired)
  unfolding filter_service_dependencies
  filter-Correct =
      let deployed = initially_deployed set desired (populate desired no_tables) in
      let (r, e, s) =
        settle-Settled (dependencies_of (populate desired no_tables).service_idx)
          (suc (length deployed)) deployed (omega arith) in
      go (absent_dependency (populate desired no_tables).service_idx desired)
        (absent_dependency-Resolves set desired distinct desired) r e s
    where
      go :
          (o : Option (ObjectKey × ObjectKey))
          → Resolves set desired distinct desired o
          → (r : List ObjectKey)
          → settle
              (dependencies_of (populate desired no_tables).service_idx)
              (suc (length (initially_deployed set desired (populate desired no_tables))))
              (initially_deployed set desired (populate desired no_tables))
            ≡ some r
          → SettledFrom set desired distinct r
          → Correct set desired (elim o [
            | some (k, j) ↦ absent k j
            | none ↦ eligible_from (populate desired no_tables) desired (
                settle
                  (dependencies_of (populate desired no_tables).service_idx)
                  (suc (length (initially_deployed set desired (populate desired no_tables))))
                  (initially_deployed set desired (populate desired no_tables)))
          ])
      go none h r e s = rw e (eligible-Correct r s h)
      go (some (k, j)) h r e s = h

-- What a member of such a set depends on is a member too.
Depends-member :
    {set : ServiceSet} {desired : List Service} {u v k : ObjectKey} (t : Satisfied set desired k)
    → Depends desired u v
    → contains t.members u ≡ true
    → contains t.members v ≡ true
Depends-member t (direct svc d m n p q) h =
    subst (λ x. contains t.members x ≡ true) (sym q)
      (t.closed svc m (subst (λ x. contains t.members x ≡ true) p h) d n)
Depends-member t (through a b) h = Depends-member t b (Depends-member t a h)

first_step :
    (desired : List Service) {u v : ObjectKey}
    → Depends desired u v
    → (svc : Service) × (d : ServiceDependsOn) × Memᴰ svc desired
      × Memᴰ d svc.depends_on
      × (u ≡ key_of svc)
      × ((v ≡ dependency_key d) ⊎ Depends desired (dependency_key d) v)
first_step desired (direct svc d m n p q) = (svc, d, m, n, p, inl q)
first_step desired (through {v = v} {w = w} a b) =
    let (svc, d, m, n, p, r) = first_step desired a in
    (
      svc,
      d,
      m,
      n,
      p,
      inr (elim r [ inl q ↦ subst (λ x. Depends desired x w) q b | inr c ↦ through c b ]),
    )

-- A service is the only one of its key.
same_service :
    (desired : List Service) (svc other : Service)
    → AreDistinct desired
    → Memᴰ svc desired
    → Memᴰ other desired
    → key_of svc ≡ key_of other
    → svc ≡ other
same_service desired svc other distinct m n p = cc (
  lookup-index_by key_of (λ s. s) svc desired [] distinct m,
  lookup-index_by key_of (λ s. s) other desired [] distinct n,
)

-- A key is Deployed, with no upgrade in flight and no advancement queued.
abbrev pub IsDone : ServiceSet → List Service → ObjectKey → Type 0
IsDone set desired k =
    (get_or k (status_states set.status.services) "" ≡ service_state_deployed)
    × (get_or k (status_versions set.status.services) ""
        ≡ get_or k (spec_versions set.spec.services) "")
    × (get_or k (spec_versions set.spec.services) "" ≡ get_or k (desired_versions desired) "")

is_at_desired-IsDone :
    (set : ServiceSet) (desired : List Service) (k : ObjectKey)
    → is_at_desired set desired k ≡ true
    → IsDone set desired k
unfolding is_at_desired at_desired_version
is_at_desired-IsDone set desired k h =
    go (get_or k (status_states set.status.services) "")
      (get_or k (status_versions set.status.services) "")
      (get_or k (spec_versions set.spec.services) "") (get_or k (desired_versions desired) "") h
  where
    go :
        (state status spec wanted : String)
        → at_desired_version state status spec wanted ≡ true
        → (state ≡ service_state_deployed) × (status ≡ spec) × (spec ≡ wanted)
    go state status spec wanted t = ground (
      arith,
      string_eq.beq_iff state service_state_deployed,
      string_eq.beq_iff status spec,
      string_eq.beq_iff spec wanted,
    )

-- Where FilterServiceDependencies returns a service, for desired services with distinct keys, all
-- that the service depends on, directly or through other services, has the state Deployed, a status
-- version equal to the spec's and a spec version equal to the desired one.
pub eligible-IsDone :
    (set : ServiceSet) (desired services : List Service) (svc : Service) (k : ObjectKey)
    → AreDistinct desired
    → filter_service_dependencies set desired ≡ eligible services
    → Memᴰ svc services
    → Depends desired (key_of svc) k
    → IsDone set desired k
eligible-IsDone set desired services svc k distinct e m w =
    let correct = subst (Correct set desired) e (filter-Correct set desired distinct) in
    let (n, h) = (correct.1 svc).0 m in
    let (owner, d, o, q, p, r) = first_step desired w in
    let same = same_service desired svc owner distinct n o p in
    let t = h d (subst (λ x. Memᴰ d x.depends_on) (sym same) q) in
    is_at_desired-IsDone set desired k (elim r [
      | inl last ↦
          subst (λ x. is_at_desired set desired x ≡ true) (sym last)
            (t.done (dependency_key d) t.member)
      | inr rest ↦ t.done k (Depends-member t rest t.member)
    ])
