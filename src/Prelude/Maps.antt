-- ===== src/Prelude/Maps.antt =====
-- A Go map as an association list with at most the first entry of a key in use.
use mathlib.Core.Path.{◌≡◌, refl, sym}
use mathlib.Core.Logic.{◌⊎◌, inl, inr, ◌↔◌}
use mathlib.Core.Bool.{Bool, true, false, false≢true}
use mathlib.Core.List.Memᴰ
use mathlib.Core.List.{List, [], ◌∷◌, map, Memᴰ}
use mathlib.Core.Option.{Option, none, some}
use native.Mathlib.Omega.{arith}
use kcm.Prelude.Tests.{if◌then◌else◌, Bool-cases}
use kcm.Prelude.Keys.{Eq, ◌==◌, Eq-cases}

abbrev pub Map {ℓ κ} : Type ℓ → Type κ → Type (ℓ ⊔ κ)
Map K V = List (K × V)

module _ {ℓ κ} {K : Type ℓ} {V : Type κ} ⦃e : Eq K⦄ where
  abbrev pub lookup : K → Map K V → Option V
  lookup k [] = none
  lookup k ((j, v) ∷ m) = let rest = lookup k m in if j == k then some v else rest

  -- m[k] = v
  abbrev pub insert : K → V → Map K V → Map K V
  insert k v [] = (k, v) ∷ []
  insert k v ((j, w) ∷ m) = let rest = insert k v m in if j == k then (k, v) ∷ m else (j, w) ∷ rest

  -- v, ok := m[k]
  abbrev pub has_key : K → Map K V → Bool
  has_key k m = elim (lookup k m) [ none ↦ false | some _ ↦ true ]

  -- m[k], with the zero value where the key is absent.
  abbrev pub get_or : K → Map K V → V → V
  get_or k m zero_value = elim (lookup k m) [ none ↦ zero_value | some v ↦ v ]

  pub lookup-insert :
      (k j : K) (v : V) (m : Map K V)
      → lookup j (insert k v m) ≡ (if k == j then some v else lookup j m)
  lookup-insert k j v [] = refl
  lookup-insert k j v ((i, w) ∷ m) =
      ground (arith, e.beq_iff k j, e.beq_iff i k, e.beq_iff i j, lookup-insert k j v m)

  pub get_or-insert :
      (k j : K) (v d : V) (m : Map K V)
      → get_or j (insert k v m) d ≡ (if k == j then v else get_or j m d)
  get_or-insert k j v d m = ground (arith, lookup-insert k j v m)

  pub has_key-insert :
      (k j : K) (v : V) (m : Map K V)
      → has_key j (insert k v m) ≡ (if k == j then true else has_key j m)
  has_key-insert k j v m = ground (arith, lookup-insert k j v m)

  -- An entry of the map after an assignment is the new one or an old one.
  pub mem-insert :
      (k : K) (v : V) (m : Map K V) {x : K × V} → Memᴰ x (insert k v m) → (x ≡ (k, v)) ⊎ Memᴰ x m
  mem-insert k v [] (Memᴰ.head p) = inl p
  mem-insert k v [] (Memᴰ.tail h) = elim h [ ]
  mem-insert k v ((j, w) ∷ m) {x} h = elim (Bool-cases (j == k)) [
    | inl same ↦ elim (Memᴰ.cases_cons (rw same at h)) [ inl p ↦ inl p | inr t ↦ inr (Memᴰ.tail t) ]
    | inr other ↦ elim (Memᴰ.cases_cons (rw other at h)) [
      | inl p ↦ inr (Memᴰ.head p)
      | inr t ↦ elim (mem-insert k v m t) [ inl p ↦ inl p | inr o ↦ inr (Memᴰ.tail o) ]
    ]
  ]

  -- What a lookup finds is an entry.
  pub lookup-mem : (k : K) (m : Map K V) {v : V} → lookup k m ≡ some v → Memᴰ (k, v) m
  lookup-mem k [] h = cc
  lookup-mem k ((j, w) ∷ m) {v} h = elim (Bool-cases (j == k)) [
    | inl same ↦ Memᴰ.head (cc ((e.beq_iff j k).0 same))
    | inr other ↦ Memᴰ.tail (lookup-mem k m (rw other at h))
  ]

  -- The keys of a map are the first parts of its entries.
  pub has_key-mem : (k : K) (m : Map K V) → (has_key k m ≡ true) ↔ Memᴰ k (map (λ p. p.0) m)
  has_key-mem k [] = (λ h. absurd (false≢true h), λ n. elim n [ ])
  has_key-mem k ((j, v) ∷ m) = elim (Eq-cases j k) [
    | inl (same, t) ↦ (λ h. Memᴰ.head (sym same), λ n. rw (t, has_key))
    | inr (other, f) ↦ (
      λ h. Memᴰ.tail ((has_key-mem k m).0 (rw (f, has_key) at h)),
      λ n.
          rw (f, has_key)
            (elim (Memᴰ.cases_cons n) [
              | inl e ↦ absurd (other (sym e))
              | inr later ↦ (has_key-mem k m).1 later
            ]),
    )
  ]
