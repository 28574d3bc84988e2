-- ===== src/Services/Filter/Satisfied.antt =====
-- The settled set of `FilterServiceDependencies` holds the satisfied keys, and the counter of a
-- service is down to zero where its dependencies are settled.
use mathlib.Core.List.Memᴰ
use kcm.Prelude.{
  ◌≡◌, sym, ◌∙◌, ap, subst, ◌↔◌, true, List, [], map, Memᴰ, some, length, arith, ObjectKey, key_eq,
  Map, get_or, lookup, has_key, has_key_iff, has_key-mem, lookup-index_by, get_or-index_by,
  index_by-IsNodup, contains, contains→mem, mem→contains, filter_by, mem-filter_by, filter_by-mem,
  filter_by-IsNodup, all, total, total-IsNodup, IsNodup, index_by, pos, minus, non_positive,
  non_positive-minus, length-map,
}
use kcm.Api.{Service, ServiceDependsOn, ServiceSet}
use kcm.Services.Keys.{key_of, dependency_key}
use kcm.Validation.{dependency_keys}
use kcm.Validation.Admission.{AreDistinct}
use kcm.Services.Filter.{
  Tables, no_tables, populate, is_at_desired, dependencies_of, initially_deployed,
  decrement_dependents,
}
use kcm.Services.Filter.Fixpoint.{IsClosed, Settled}
use kcm.Services.Filter.Counts.{
  populate-service_idx, populate-depends_on_count, listed-populate, decrement_dependents_lem,
}

-- A key is satisfied where it lies in a set of services that are at their desired version, which
-- holds the dependencies of its members: so are all that it depends on, directly or not.
pub record Satisfied (set : ServiceSet) (desired : List Service) (k : ObjectKey) : Type 0 where
  pub members : List ObjectKey
  pub member : contains members k ≡ true
  pub listed : (j : ObjectKey) → contains members j ≡ true → Memᴰ j (map key_of desired)
  pub done : (j : ObjectKey) → contains members j ≡ true → is_at_desired set desired j ≡ true
  pub closed :
      (svc : Service)
      → Memᴰ svc desired
      → contains members (key_of svc) ≡ true
      → (d : ServiceDependsOn) → Memᴰ d svc.depends_on
      → contains members (dependency_key d) ≡ true

module _ (set : ServiceSet) (desired : List Service) (distinct : AreDistinct desired) where
  abbrev pub tables : Tables
  tables = populate desired no_tables

  abbrev pub idx : Map ObjectKey Service
  idx = index_by key_of (λ s. s) desired []

  same_idx : tables.service_idx ≡ idx
  same_idx = populate-service_idx desired no_tables

  lookup_service :
      (svc : Service) → Memᴰ svc desired → lookup (key_of svc) tables.service_idx ≡ some svc
  lookup_service svc m =
      ap (lookup (key_of svc)) same_idx ∙ lookup-index_by key_of (λ s. s) svc desired [] distinct m

  dependencies_of-service :
      (svc : Service)
      → Memᴰ svc desired
      → dependencies_of tables.service_idx (key_of svc) ≡ dependency_keys svc
  dependencies_of-service svc m = rw (lookup_service svc m, dependencies_of)

  pub listed_iff :
      (k : ObjectKey) → (has_key k tables.service_idx ≡ true) ↔ Memᴰ k (map key_of desired)
  listed_iff k = rw same_idx (has_key_iff key_of (λ s. s) desired k)

  pub init-IsNodup : IsNodup (initially_deployed set desired tables)
  init-IsNodup =
      filter_by-IsNodup (is_at_desired set desired) (map (λ e. e.0) tables.service_idx)
        (rw same_idx (index_by-IsNodup key_of (λ s. s) desired [] tt))

  init_iff :
      (k : ObjectKey)
      → (contains (initially_deployed set desired tables) k ≡ true)
        ↔ (Memᴰ k (map key_of desired) × (is_at_desired set desired k ≡ true))
  init_iff k =
      let keys = map (λ e. e.0) tables.service_idx in
      let test = is_at_desired set desired in
      (
        λ h.
            let (m, t) = mem-filter_by test keys (contains→mem (filter_by test keys) k h) in
            ((listed_iff k).0 ((has_key-mem k tables.service_idx).1 m), t),
        λ (m, t).
            mem→contains (filter_by test keys) k (
              filter_by-mem test keys ((has_key-mem k tables.service_idx).0 ((listed_iff k).1 m))
                t),
      )

  abbrev pub SettledFrom : List ObjectKey → Type 0
  SettledFrom r =
      Settled (dependencies_of tables.service_idx) (initially_deployed set desired tables) r

  pub settled-Satisfied :
      (r : List ObjectKey)
      → SettledFrom r
      → (k : ObjectKey) → contains r k ≡ true
      → Satisfied set desired k
  settled-Satisfied r s k h = record {
    members = r;
    member = h;
    listed = λ j m. ((init_iff j).0 (s.within j m)).0;
    done = λ j m. ((init_iff j).0 (s.within j m)).1;
    closed = λ svc m c d n. s.closed (key_of svc) (dependency_key d) c (
        subst (Memᴰ (dependency_key d)) (sym (dependencies_of-service svc m))
          (Memᴰ.map dependency_key n));
  }

  members-IsClosed :
      (k : ObjectKey) (t : Satisfied set desired k)
      → IsClosed (dependencies_of tables.service_idx) t.members
  members-IsClosed k t j d m n =
      let (svc, o, e) = Memᴰ.of_map key_of desired (t.listed j m) in
      let own = subst (λ x. Memᴰ d (dependencies_of tables.service_idx x)) (sym e) n in
      let (dep, p, q) =
        Memᴰ.of_map dependency_key svc.depends_on
          (subst (Memᴰ d) (dependencies_of-service svc o) own) in
      subst (λ x. contains t.members x ≡ true) q
        (t.closed svc o (subst (λ x. contains t.members x ≡ true) (sym e) m) dep p)

  pub Satisfied-settled :
      (r : List ObjectKey)
      → SettledFrom r
      → (k : ObjectKey) → Satisfied set desired k
      → contains r k ≡ true
  Satisfied-settled r s k t =
      s.largest t.members (members-IsClosed k t) (λ j m. (init_iff j).1 (t.listed j m, t.done j m))
        k t.member

  -- The counter of a service has come down to zero just when its dependencies are settled.
  pub counted_iff :
      (r : List ObjectKey)
      → IsNodup r
      → (svc : Service) → Memᴰ svc desired
      → (non_positive (
            get_or
              (key_of svc)
              (decrement_dependents tables.dependents r tables.depends_on_count)
              (pos 0))
          ≡ true)
        ↔ (all (contains r) (dependency_keys svc) ≡ true)
  counted_iff r nodup svc m =
      let (below, (l, u)) = total-IsNodup r (dependency_keys svc) nodup in
      let (p, q) = non_positive-minus (length svc.depends_on) (total r (dependency_keys svc)) in
      let start : get_or (key_of svc) tables.depends_on_count (pos 0)
          ≡ pos (length svc.depends_on) =
        ap (λ c. get_or (key_of svc) c (pos 0)) (populate-depends_on_count desired no_tables)
        ∙ get_or-index_by key_of (λ s. pos (length s.depends_on)) svc desired [] (pos 0) distinct
            m in
      let left =
        decrement_dependents_lem (key_of svc) (dependency_keys svc) tables.dependents
          (λ s. listed-populate svc s desired distinct m) r tables.depends_on_count
        ∙ ap (λ z. minus z (total r (dependency_keys svc))) start in
      let size = length-map dependency_key svc.depends_on in
      rw left (λ h. l (omega (arith, p h, size)), λ h. q (omega (arith, u h, size)))
