-- ===== src/Validation/Owners/Accurate.antt =====
-- What the checks between MultiClusterServices answer,
-- internal/util/validation/multiclusterservice.go.
use mathlib.Core.List.Memᴰ
use kcm.Prelude.{
  latest, ◌≡◌, ◌≢◌, ◌⊎◌, ◌↔◌, List, [], map, Memᴰ, String, string_eq, ObjectKey, key_eq, Option,
  none, some,
}
use kcm.Api.{MultiClusterService}
use kcm.Validation.Owners.{
  mcs_key, key_of_mcs, mcs_dependencies, OwnerVerdict, accepted, not_defined, in_cycle, undecided,
}

-- What a key stands for: the MultiClusterService to check for its own, the last one of the list for
-- another.
abbrev pub Current :
    List MultiClusterService → MultiClusterService → ObjectKey → MultiClusterService → Type 0
Current items mcs u m =
    ((u ≡ key_of_mcs mcs) × (m ≡ mcs))
    ⊎ ((u ≢ key_of_mcs mcs) × (latest key_of_mcs u items ≡ some m))

-- A MultiClusterService depends on another, directly or through others.
pub data Needs (items : List MultiClusterService) (mcs : MultiClusterService)
    : ObjectKey → ObjectKey → Type 0 where
  direct :
      {u v : ObjectKey} (m : MultiClusterService) (d : String)
      → Current items mcs u m
      → Memᴰ d m.depends_on
      → v ≡ mcs_key d
      → Needs items mcs u v
  through : {u v w : ObjectKey} → Needs items mcs u v → Needs items mcs v w → Needs items mcs u w

named : Option MultiClusterService → List ObjectKey
named o = elim o [ some m ↦ mcs_dependencies m | none ↦ [] ]

-- What each answer of the whole check says.
abbrev pub OwnerAccurate : List MultiClusterService → MultiClusterService → OwnerVerdict → Type 0
OwnerAccurate items mcs accepted =
    ((d : String) → Memᴰ d mcs.depends_on → Memᴰ (mcs_key d) (map key_of_mcs items))
    × (¬ Needs items mcs (key_of_mcs mcs) (key_of_mcs mcs))
    × ((k : ObjectKey) → Needs items mcs (key_of_mcs mcs) k → ¬ Needs items mcs k k)
OwnerAccurate items mcs (not_defined ks) =
    (ks ≢ [])
    × ((k : ObjectKey)
        → Memᴰ k ks ↔ (
            (d : String) × Memᴰ d mcs.depends_on
            × (mcs_key d ≡ k)
            × ¬ Memᴰ k (map key_of_mcs items)))
OwnerAccurate items mcs (in_cycle k) = Needs items mcs k k
OwnerAccurate items mcs undecided = ⊥
