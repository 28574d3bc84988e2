-- ===== src/Services/Deploy/Filed.antt =====
-- The services in flight that `ServicesToDeploy` notes down, by their keys,
-- internal/serviceset/util.go.
use mathlib.Core.Option.{some-injective, none-ne-some}
use kcm.Prelude.{
  ◌≡◌, ◌≢◌, refl, sym, ◌∙◌, ap, subst, inl, inr, Bool, true, false, true≢false, List, [], ◌∷◌, map,
  Memᴰ, Option, some, Bool-cases, String, string_eq, ObjectKey, key_eq, Eq-cases, Map, lookup,
  lookup-insert, has_key, contains, IsNodup, beq_refl,
}
use kcm.Api.{Service, ServiceWithValues, ServiceUpgradePaths, ServiceSet}
use kcm.Services.Keys.{stored_key}
use kcm.Services.Deploy.{
  same_service, merge_fields, Stored, target_versions, is_in_flight, note_stored, note_all,
  stored_maps,
}

-- What is in flight keeps its key, version and template.
abbrev pub Kept : ServiceWithValues → ServiceWithValues → Type 0
Kept svc x =
    (stored_key x ≡ stored_key svc) × (x.version ≡ svc.version) × (x.template ≡ svc.template)

pub merge_fields-Kept :
    (services : List Service) (svc : ServiceWithValues) → Kept svc (merge_fields services svc)
unfolding merge_fields
merge_fields-Kept [] svc = (refl, refl, refl)
merge_fields-Kept (ds ∷ services) svc = elim (Bool-cases (same_service ds svc)) [
  | inl t ↦ rw t (refl, refl, refl)
  | inr f ↦ rw f (merge_fields-Kept services svc)
]

-- Each service in flight is filed under its key.
abbrev pub Filed : Map ObjectKey ServiceWithValues → Type 0
Filed m = (k : ObjectKey) (x : ServiceWithValues) → lookup k m ≡ some x → stored_key x ≡ k

module _ {V : Type 0} (parse : String → Option V) (less_than : V → V → Bool)
    (paths : List ServiceUpgradePaths) (filtered : List Service) (set : ServiceSet) where
  note_stored-Filed :
      (svc : ServiceWithValues) (m : Stored)
      → Filed m.in_flight
      → Filed (note_stored parse less_than paths filtered set svc m).in_flight
  unfolding note_stored
  note_stored-Filed svc m h k x e =
      elim (Bool-cases
        (has_key (stored_key svc) (target_versions parse less_than paths filtered set))) [
          | inr gone ↦ h k x (rw gone at e)
          | inl wanted ↦ elim (Bool-cases (is_in_flight parse less_than paths filtered set svc)) [
            | inr settled ↦ h k x (rw (wanted, settled) at e)
            | inl flying ↦
                let found =
                  sym (lookup-insert (stored_key svc) k (merge_fields filtered svc) m.in_flight)
                  ∙ (rw (wanted, flying) at e) in
                elim (Eq-cases (stored_key svc) k) [
                  | inl (same, t) ↦
                      ap stored_key (sym (some-injective _ _ (rw t at found)))
                      ∙ (merge_fields-Kept filtered svc).0
                      ∙ same
                  | inr (other, f) ↦ h k x (rw f at found)
                ]
          ]
        ]

  note_all-Filed :
      (services : List ServiceWithValues) (m : Stored)
      → Filed m.in_flight
      → Filed (note_all parse less_than paths filtered set services m).in_flight
  unfolding note_all
  note_all-Filed [] m h = h
  note_all-Filed (svc ∷ services) m h =
      note_all-Filed services (note_stored parse less_than paths filtered set svc m)
        (note_stored-Filed svc m h)

  pub stored_maps-Filed : Filed (stored_maps parse less_than paths filtered set).in_flight
  unfolding stored_maps
  stored_maps-Filed = note_all-Filed set.spec.services _ (λ k x e. absurd (none-ne-some _ e))

  -- A service of another key leaves a key's entry alone.
  note_stored-other :
      (svc : ServiceWithValues) (m : Stored) (k : ObjectKey)
      → stored_key svc ≢ k
      → lookup k (note_stored parse less_than paths filtered set svc m).in_flight
        ≡ lookup k m.in_flight
  unfolding note_stored
  note_stored-other svc m k other =
      elim (Bool-cases
        (has_key (stored_key svc) (target_versions parse less_than paths filtered set))) [
          | inr gone ↦ rw gone refl
          | inl wanted ↦ elim (Bool-cases (is_in_flight parse less_than paths filtered set svc)) [
            | inr settled ↦ rw (wanted, settled) refl
            | inl flying ↦
                rw (wanted, flying)
                  (lookup-insert (stored_key svc) k (merge_fields filtered svc) m.in_flight
                    ∙ elim (Eq-cases (stored_key svc) k) [
                      | inl (same, t) ↦ absurd (other same)
                      | inr (o, f) ↦ rw f refl
                    ])
          ]
        ]

  note_all-other :
      (services : List ServiceWithValues) (m : Stored) (k : ObjectKey)
      → contains (map stored_key services) k ≡ false
      → lookup k (note_all parse less_than paths filtered set services m).in_flight
        ≡ lookup k m.in_flight
  unfolding note_all
  note_all-other [] m k h = refl
  note_all-other (svc ∷ services) m k h = elim (Eq-cases (stored_key svc) k) [
    | inl (same, t) ↦ absurd (true≢false (sym (rw t refl) ∙ h))
    | inr (other, f) ↦
        note_all-other services (note_stored parse less_than paths filtered set svc m) k (rw f at h)
        ∙ note_stored-other svc m k other
  ]

  note_all-in_flight :
      (services : List ServiceWithValues) (m : Stored) (svc : ServiceWithValues)
      → IsNodup (map stored_key services)
      → Memᴰ svc services
      → has_key (stored_key svc) (target_versions parse less_than paths filtered set) ≡ true
      → is_in_flight parse less_than paths filtered set svc ≡ true
      → lookup (stored_key svc) (note_all parse less_than paths filtered set services m).in_flight
        ≡ some (merge_fields filtered svc)
  unfolding note_all note_stored
  note_all-in_flight [] m svc h n wanted flying = elim n [ ]
  note_all-in_flight (x ∷ xs) m svc h (Memᴰ.head e) wanted flying =
      note_all-other xs (note_stored parse less_than paths filtered set x m) (stored_key svc)
        (subst (λ y. contains (map stored_key xs) (stored_key y) ≡ false) (sym e) h.0)
      ∙ subst
          (λ y.
            lookup (stored_key svc) (note_stored parse less_than paths filtered set y m).in_flight
            ≡ some (merge_fields filtered svc))
          e
          (rw (wanted, flying)
            (lookup-insert (stored_key svc) (stored_key svc) (merge_fields filtered svc) m.in_flight
              ∙ rw (beq_refl (stored_key svc)) refl))
  note_all-in_flight (x ∷ xs) m svc h (Memᴰ.tail n) wanted flying =
      note_all-in_flight xs (note_stored parse less_than paths filtered set x m) svc h.1 n wanted
        flying

  -- A stored service that is in flight is filed with the fields of its service.
  pub stored_maps-in_flight :
      (svc : ServiceWithValues)
      → IsNodup (map stored_key set.spec.services)
      → Memᴰ svc set.spec.services
      → has_key (stored_key svc) (target_versions parse less_than paths filtered set) ≡ true
      → is_in_flight parse less_than paths filtered set svc ≡ true
      → lookup (stored_key svc) (stored_maps parse less_than paths filtered set).in_flight
        ≡ some (merge_fields filtered svc)
  unfolding stored_maps
  stored_maps-in_flight svc = note_all-in_flight set.spec.services _ svc
