-- ===== src/Services/Filter/Counts.antt =====
-- The counters of `FilterServiceDependencies`: what `populate` puts into its maps, and what is left
-- of a service's count when the settled services have been taken off.
use mathlib.Core.List.Memᴰ
use kcm.Prelude.{
  ℕ, ◌+◌, ◌≡◌, refl, sym, ◌∙◌, ap, subst, inl, inr, false, true≢false, List, [], ◌∷◌, ◌++◌, map,
  Memᴰ, if◌then◌else◌, length, arith, ObjectKey, key_eq, ◌==◌, Eq-cases, beq_refl, Map, insert,
  get_or, get_or-insert, contains, count, count-append, total, IsNodup, index_by, ℤ, pos, decrement,
  minus, minus-add, mem→contains,
}
use kcm.Api.{Service, ServiceDependsOn}
use kcm.Services.Keys.{key_of, dependency_key}
use kcm.Validation.{dependency_keys}
use kcm.Services.Filter.{
  Tables, no_tables, add_dependents, populate, decrement_all, decrement_dependents,
}

-- The maps of the first loop, one by one.
pub populate-service_idx :
    (services : List Service) (t : Tables)
    → (populate services t).service_idx ≡ index_by key_of (λ s. s) services t.service_idx
unfolding populate index_by
populate-service_idx [] t = refl
populate-service_idx (svc ∷ services) t = populate-service_idx services _

pub populate-depends_on_count :
    (services : List Service) (t : Tables)
    → (populate services t).depends_on_count
      ≡ index_by key_of (λ s. pos (length s.depends_on)) services t.depends_on_count
unfolding populate index_by
populate-depends_on_count [] t = refl
populate-depends_on_count (svc ∷ services) t = populate-depends_on_count services _

-- How often `j` stands among the dependents of `s`.
abbrev listed : ObjectKey → ObjectKey → Map ObjectKey (List ObjectKey) → ℕ
listed j s dependents = count j (get_or s dependents [])

listed-insert :
    (j s key svc : ObjectKey) (m : Map ObjectKey (List ObjectKey))
    → listed j s (insert key (get_or key m [] ++ svc ∷ []) m)
      ≡ listed j s m + (if svc == j then (if key == s then 1 else 0) else 0)
listed-insert j s key svc m =
    ap (count j) (get_or-insert key s (get_or key m [] ++ svc ∷ []) [] m) ∙ elim (Eq-cases key s) [
      | inl (same, t) ↦ rw t (
          count-append j (get_or key m []) (svc ∷ [])
          ∙ ap (λ x. count j (get_or x m []) + (if svc == j then 1 else 0)) same)
      | inr (other, f) ↦ rw f (ground arith)
    ]

add_dependents_lem :
    (j s svc : ObjectKey) (ds : List ServiceDependsOn) (m : Map ObjectKey (List ObjectKey))
    → listed j s (add_dependents svc ds m)
      ≡ listed j s m + (if svc == j then count s (map dependency_key ds) else 0)
unfolding add_dependents
add_dependents_lem j s svc [] m = ground arith
add_dependents_lem j s svc (d ∷ ds) m =
    let key = dependency_key d in
    ground (
      arith,
      listed-insert j s key svc m,
      add_dependents_lem j s svc ds (insert key (get_or key m [] ++ svc ∷ []) m),
    )

-- How often the services with the key `j` name `s`.
named : ObjectKey → ObjectKey → List Service → ℕ
named j s [] = 0
named j s (svc ∷ services) =
    (if key_of svc == j then count s (dependency_keys svc) else 0) + named j s services

populate-dependents :
    (j s : ObjectKey) (services : List Service) (t : Tables)
    → listed j s (populate services t).dependents ≡ listed j s t.dependents + named j s services
unfolding populate named
populate-dependents j s [] t = omega arith
populate-dependents j s (svc ∷ services) t =
    populate-dependents j s services _
    ∙ omega (arith, add_dependents_lem j s (key_of svc) svc.depends_on t.dependents)

named-zero :
    (j s : ObjectKey) (services : List Service)
    → contains (map key_of services) j ≡ false
    → named j s services ≡ 0
unfolding named
named-zero j s [] h = refl
named-zero j s (svc ∷ services) h = ground (arith, named-zero j s services)

named-IsNodup :
    (svc : Service) (s : ObjectKey) (services : List Service)
    → IsNodup (map key_of services)
    → Memᴰ svc services
    → named (key_of svc) s services ≡ count s (dependency_keys svc)
unfolding named
named-IsNodup svc s [] h m = elim m [ ]
named-IsNodup svc s (x ∷ xs) h (Memᴰ.head e) =
    subst (λ y. named (key_of y) s (x ∷ xs) ≡ count s (dependency_keys y)) (sym e)
      (rw (beq_refl (key_of x)) (omega (arith, named-zero (key_of x) s xs h.0)))
named-IsNodup svc s (x ∷ xs) h (Memᴰ.tail m) = elim (Eq-cases (key_of x) (key_of svc)) [
  | inl (same, t) ↦
      let twice = mem→contains (map key_of xs) (key_of x) (Memᴰ.cast same (Memᴰ.map key_of m)) in
      absurd (true≢false (sym twice ∙ h.0))
  | inr (other, f) ↦ rw f (omega (arith, named-IsNodup svc s xs h.1 m))
]

-- Where keys are distinct, a service stands among the dependents of a key as often as it names it.
pub listed-populate :
    (svc : Service) (s : ObjectKey) (services : List Service)
    → IsNodup (map key_of services)
    → Memᴰ svc services
    → count (key_of svc) (get_or s (populate services no_tables).dependents [])
      ≡ count s (dependency_keys svc)
listed-populate svc s services h m =
    populate-dependents (key_of svc) s services no_tables
    ∙ omega (arith, named-IsNodup svc s services h m)

decrement_all_lem :
    (j : ObjectKey) (ds : List ObjectKey) (counts : Map ObjectKey ℤ)
    → get_or j (decrement_all ds counts) (pos 0) ≡ minus (get_or j counts (pos 0)) (count j ds)
unfolding decrement_all
decrement_all_lem j [] counts = refl
decrement_all_lem j (d ∷ ds) counts =
    let counts' = insert d (decrement (get_or d counts (pos 0))) counts in
    let inserted = get_or-insert d j (decrement (get_or d counts (pos 0))) (pos 0) counts in
    decrement_all_lem j ds counts' ∙ ap (λ z. minus z (count j ds)) inserted ∙ elim (Eq-cases d j) [
      | inl (same, t) ↦
          rw t (ap (λ x. minus (decrement (get_or x counts (pos 0))) (count j ds)) same)
      | inr (other, f) ↦ rw f
    ]

-- The count that is left for a key, where `ys` are the keys that it stands among the dependents of.
pub decrement_dependents_lem :
    (j : ObjectKey) (ys : List ObjectKey) (dependents : Map ObjectKey (List ObjectKey))
    → ((s : ObjectKey) → count j (get_or s dependents []) ≡ count s ys)
    → (deployed : List ObjectKey) (counts : Map ObjectKey ℤ)
    → get_or j (decrement_dependents dependents deployed counts) (pos 0)
      ≡ minus (get_or j counts (pos 0)) (total deployed ys)
unfolding decrement_dependents
decrement_dependents_lem j ys dependents h [] counts = refl
decrement_dependents_lem j ys dependents h (s ∷ deployed) counts =
    decrement_dependents_lem j ys dependents h deployed
      (decrement_all (get_or s dependents []) counts)
    ∙ ap (λ z. minus z (total deployed ys)) (decrement_all_lem j (get_or s dependents []) counts)
    ∙ sym
        (minus-add (get_or j counts (pos 0)) (count j (get_or s dependents [])) (total deployed ys))
    ∙ ap (λ n. minus (get_or j counts (pos 0)) (n + total deployed ys)) (h s)
