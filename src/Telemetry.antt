-- ===== src/Telemetry.antt =====
-- The buckets of the telemetry, internal/telemetry/collector/local_buckets.go: labels of ranges,
-- the search of a range, the bounds that grow by a factor, and the buckets of names. The integers
-- are Go's uint64. `number` prints one, as the verb %d of fmt.Sprintf does, and `to_lower` is
-- strings.ToLower: parameters. A panic is an error.
pub mod Ranges
pub mod Growth
pub mod Buckets
use kcm.Prelude.{
  ℕ, zero, suc, ◌+◌, ◌*◌, ◌/◌, ◌%◌, Bool, true, false, not, ◌&&◌, ◌||◌, List, [], ◌∷◌, Option, none,
  some, String, if◌then◌else◌, ◌==◌, nat_eq, string_eq, ltb, leb, append_str, contains, Resolved,
  ok, error, ◌>>=◌,
}

abbrev pub two_64 : ℕ
two_64 = 18446744073709551616

-- The label of the range (lo, hi], where an end may be absent.
abbrev pub Labeler : Type 0
Labeler = Option ℕ → Option ℕ → Resolved String

module _ (number : ℕ → String) where
  unfoldable pub bound_label : Labeler
  bound_label none (some hi) = ok (append_str "1-" (number hi))
  bound_label (some lo) none = ok (append_str (number ((lo + 1) % two_64)) "+")
  bound_label (some lo) (some hi) =
      ok (append_str (number ((lo + 1) % two_64)) (append_str "-" (number hi)))
  bound_label none none = error "nil pointer"

  -- The ends in a unit; a unit of 0 divides by zero.
  unfoldable pub unit_bound_label : ℕ → Labeler
  unit_bound_label zero lo hi = error "division by zero"
  unit_bound_label (suc u) none (some hi) = ok (append_str "1-" (number (hi / suc u)))
  unit_bound_label (suc u) (some lo) none = ok (append_str (number ((lo / suc u + 1) % two_64)) "+")
  unit_bound_label (suc u) (some lo) (some hi) =
      ok (append_str (number ((lo / suc u + 1) % two_64)) (append_str "-" (number (hi / suc u))))
  unit_bound_label (suc u) none none = error "nil pointer"

abbrev pub is_ascending : List ℕ → Bool
is_ascending [] = true
is_ascending (a ∷ []) = true
is_ascending (a ∷ b ∷ bounds) = ltb a b && is_ascending (b ∷ bounds)

-- The bounds after the checks, without a leading zero.
unfoldable pub checked_bounds : List ℕ → Resolved (List ℕ)
checked_bounds [] = error "bounds must be non-empty"
checked_bounds (zero ∷ []) = error "bounds must not consist of only zero-valued elem"
checked_bounds (zero ∷ b ∷ bounds) =
    if is_ascending (zero ∷ b ∷ bounds)
    then ok (b ∷ bounds)
    else error "bounds must be in ascending order"
checked_bounds (suc a ∷ bounds) =
    if is_ascending (suc a ∷ bounds)
    then ok (suc a ∷ bounds)
    else error "bounds must be in ascending order"

-- The loop over the bounds: the ends that the label is made of.
abbrev pub find_range : Option ℕ → List ℕ → ℕ → Option ℕ × Option ℕ
find_range lo [] x = (lo, none)
find_range lo (hi ∷ bounds) x =
    let rest = find_range (some hi) bounds x in if leb x hi then (lo, some hi) else rest

abbrev pub labelled : String → Labeler → Option ℕ × Option ℕ → Resolved String
labelled prefix label (lo, hi) = do text ← label lo hi; ok (append_str prefix text)

abbrev pub bucket_of : String → Labeler → List ℕ → ℕ → Resolved String
bucket_of prefix label bounds x =
    if x == 0 then ok "" else labelled prefix label (find_range none bounds x)

unfoldable pub bucketize : String → List ℕ → Labeler → Resolved (ℕ → Resolved String)
unfolding checked_bounds
bucketize prefix bounds label = do
  checked ← checked_bounds bounds
  ok (bucket_of prefix label checked)

abbrev pub cons_bound : ℕ → Option (List ℕ) → Option (List ℕ)
cons_bound x none = none
cons_bound x (some b) = some (x ∷ b)

-- The loop `for x := first; x <= cut; x *= factor`, on fuel.
abbrev pub grow : ℕ → (factor cut x : ℕ) → Option (List ℕ)
grow zero factor cut x = none
grow (suc fuel) factor cut x =
    let rest = grow fuel factor cut (x * factor % two_64) in
    if leb x cut
    then (if ltb (cut / factor) x then some (x ∷ []) else cons_bound x rest)
    else some []

abbrev pub at_least : ℕ → ℕ → ℕ
at_least low n = if ltb n low then low else n

-- 65 rounds: the bound at least doubles, and stays below 2 ^ 64.
unfoldable pub generate_bounds : (first factor cut : ℕ) → Option (List ℕ)
generate_bounds first factor cut = grow 65 (at_least 2 factor) cut (at_least 1 first)

abbrev pub kube_version_buckets : List String
kube_version_buckets =
    "1.29" ∷ "1.30" ∷ "1.31" ∷ "1.32" ∷ "1.33" ∷ "1.34" ∷ "1.35" ∷ "1.36" ∷ "1.37" ∷ []

unfoldable pub bucket_kube_version : String → String
bucket_kube_version v =
    append_str "node.info.kubeVersion:" (if contains kube_version_buckets v then v else "other")

module _ (to_lower : String → String) where
  unfoldable pub bucket_os : String → String
  bucket_os osname =
      append_str "node.info.os:"
        (if contains ("linux" ∷ "windows" ∷ []) (to_lower osname) then to_lower osname else "other")

  unfoldable pub bucket_arch : String → String
  bucket_arch arch =
      append_str "node.info.arch:"
        (if contains ("amd64" ∷ "arm64" ∷ []) (to_lower arch) then to_lower arch else "other")
