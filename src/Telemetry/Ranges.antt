-- ===== src/Telemetry/Ranges.antt =====
-- The range that the loop of `bucketize` finds, internal/telemetry/collector/local_buckets.go.
use kcm.Prelude.{
  ℕ, ◌<◌, ◌≡◌, refl, ◌∙◌, subst, inl, inr, Bool, true, false, ◌&&◌, List, [], ◌∷◌, Memᴰ, Option,
  none, some, ltb, leb, ltb→lt, lt→ltb, nat_eq, Bool-cases, arith,
}
use kcm.Telemetry.{is_ascending, find_range}

-- The ranges between the bounds, from `lo` on.
abbrev pub ranges : Option ℕ → List ℕ → List (Option ℕ × Option ℕ)
ranges lo [] = (lo, none) ∷ []
ranges lo (hi ∷ bounds) = (lo, some hi) ∷ ranges (some hi) bounds

abbrev pub is_above : Option ℕ → ℕ → Bool
is_above none x = true
is_above (some lo) x = ltb lo x

abbrev pub is_below : Option ℕ → ℕ → Bool
is_below none x = true
is_below (some hi) x = leb x hi

-- lo < x ≤ hi
abbrev pub is_in : Option ℕ × Option ℕ → ℕ → Bool
is_in (lo, hi) x = is_above lo x && is_below hi x

pub find_range-mem :
    (lo : Option ℕ) (bounds : List ℕ) (x : ℕ) → Memᴰ (find_range lo bounds x) (ranges lo bounds)
find_range-mem lo [] x = Memᴰ.head refl
find_range-mem lo (hi ∷ bounds) x = elim (Bool-cases (leb x hi)) [
  | inl t ↦ rw t (Memᴰ.head refl)
  | inr f ↦ rw f (Memᴰ.tail (find_range-mem (some hi) bounds x))
]

pub find_range-in :
    (lo : Option ℕ) (bounds : List ℕ) (x : ℕ)
    → is_above lo x ≡ true
    → is_in (find_range lo bounds x) x ≡ true
find_range-in lo [] x h = rw h refl
find_range-in lo (hi ∷ bounds) x h = elim (Bool-cases (leb x hi)) [
  | inl t ↦ rw t (rw (h, t) refl)
  | inr f ↦ rw f (find_range-in (some hi) bounds x (lt→ltb hi x (ground arith)))
]

later_in : (lo : ℕ) (hi : Option ℕ) (x : ℕ) → is_in (some lo, hi) x ≡ true → lo < x
later_in lo hi x h = ground arith

in_below : (lo : Option ℕ) (hi x : ℕ) → is_in (lo, some hi) x ≡ true → leb x hi ≡ true
in_below lo hi x h = elim (Bool-cases (is_above lo x)) [
  | inl t ↦ rw t at h
  | inr f ↦ cc (rw f at h)
]

not-leb : (a b : ℕ) → b < a → leb a b ≡ false
not-leb a b h = ground arith

pub ascending-tail :
    (hi : ℕ) (bounds : List ℕ) → is_ascending (hi ∷ bounds) ≡ true → is_ascending bounds ≡ true
ascending-tail hi [] h = refl
ascending-tail hi (b ∷ bounds) h = ground arith

-- What is in a later range is above the bound.
later-above :
    (hi : ℕ) (bounds : List ℕ) (x : ℕ) (r : Option ℕ × Option ℕ)
    → is_ascending (hi ∷ bounds) ≡ true
    → Memᴰ r (ranges (some hi) bounds)
    → is_in r x ≡ true
    → hi < x
later-above hi [] x r h (Memᴰ.head e) t = later_in hi none x (subst (λ q. is_in q x ≡ true) e t)
later-above hi [] x r h (Memᴰ.tail m) t = elim m [ ]
later-above hi (b ∷ bounds) x r h (Memᴰ.head e) t =
    later_in hi (some b) x (subst (λ q. is_in q x ≡ true) e t)
later-above hi (b ∷ bounds) x r h (Memᴰ.tail m) t =
    omega (arith, later-above b bounds x r (ground arith) m t, ltb→lt hi b (ground arith))

pub find_range_unique :
    (lo : Option ℕ) (bounds : List ℕ) (x : ℕ) (r : Option ℕ × Option ℕ)
    → is_ascending bounds ≡ true
    → Memᴰ r (ranges lo bounds)
    → is_in r x ≡ true
    → r ≡ find_range lo bounds x
find_range_unique lo [] x r h (Memᴰ.head e) t = e
find_range_unique lo [] x r h (Memᴰ.tail m) t = elim m [ ]
find_range_unique lo (hi ∷ bounds) x r h (Memᴰ.head e) t =
    let here : leb x hi ≡ true = in_below lo hi x (subst (λ q. is_in q x ≡ true) e t) in
    e ∙ rw here refl
find_range_unique lo (hi ∷ bounds) x r h (Memᴰ.tail m) t =
    let above = later-above hi bounds x r h m t in
    let past : leb x hi ≡ false = not-leb x hi above in
    rw past (find_range_unique (some hi) bounds x r (ascending-tail hi bounds h) m t)
