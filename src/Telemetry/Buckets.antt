-- ===== src/Telemetry/Buckets.antt =====
-- Which label a number gets: `bucketize`, internal/telemetry/collector/local_buckets.go.
use mathlib.Core.List.Memᴰ
use kcm.Prelude.{
  ℕ, zero, suc, ◌≤◌, ◌<◌, ◌≡◌, ◌≢◌, ◌⊎◌, refl, sym, ◌∙◌, ap, subst, ◌↔◌, inl, inr, true, false,
  List, [], ◌∷◌, Memᴰ, Option, none, some, String, leb, ltb→lt, nat_eq, ◌==◌, Bool-cases, Eq-cases,
  arith, Resolved, ok, error, bind-ok, ok-injective,
}
use kcm.Telemetry.{
  Labeler, two_64, bound_label, unit_bound_label, is_ascending, checked_bounds, find_range,
  labelled, bucket_of, bucketize, at_least, generate_bounds,
}
use kcm.Telemetry.Growth.{Grows, Grows-ascending, at_least-le, generate_bounds-Grows}
use kcm.Telemetry.Ranges.{
  ranges, is_in, find_range-mem, find_range-in, find_range_unique, ascending-tail,
}

checked-ascending : (bounds b : List ℕ) → checked_bounds bounds ≡ ok b → is_ascending b ≡ true
unfolding checked_bounds
checked-ascending [] b h = cc
checked-ascending (zero ∷ []) b h = cc
checked-ascending (zero ∷ k ∷ bounds) b h = elim (Bool-cases (is_ascending (zero ∷ k ∷ bounds))) [
  | inl t ↦
      subst (λ l. is_ascending l ≡ true) (ok-injective (rw t at h))
        (ascending-tail zero (k ∷ bounds) t)
  | inr f ↦ cc (rw f at h)
]
checked-ascending (suc a ∷ bounds) b h = elim (Bool-cases (is_ascending (suc a ∷ bounds))) [
  | inl t ↦ subst (λ l. is_ascending l ≡ true) (ok-injective (rw t at h)) t
  | inr f ↦ cc (rw f at h)
]

-- The bounds but 0, in their order.
abbrev pub without_zero : List ℕ → List ℕ
without_zero [] = []
without_zero (zero ∷ bounds) = without_zero bounds
without_zero (suc n ∷ bounds) = suc n ∷ without_zero bounds

ascending-without_zero :
    (a : ℕ) (bounds : List ℕ)
    → 1 ≤ a
    → is_ascending (a ∷ bounds) ≡ true
    → without_zero (a ∷ bounds) ≡ a ∷ bounds
ascending-without_zero zero bounds pos h = absurd (omega (arith, pos))
ascending-without_zero (suc a) [] pos h = refl
ascending-without_zero (suc a) (b ∷ bounds) pos h =
    ap (λ l. suc a ∷ l)
      (ascending-without_zero b bounds (omega (arith, ltb→lt (suc a) b (ground arith)))
        (ascending-tail (suc a) (b ∷ bounds) h))

checked-without_zero : (bounds b : List ℕ) → checked_bounds bounds ≡ ok b → b ≡ without_zero bounds
unfolding checked_bounds
checked-without_zero [] b h = cc h
checked-without_zero (zero ∷ []) b h = cc h
checked-without_zero (zero ∷ k ∷ bounds) b h =
    elim (Bool-cases (is_ascending (zero ∷ k ∷ bounds))) [
      | inl t ↦
          sym (ok-injective (rw t at h))
          ∙ sym (
              ascending-without_zero k bounds (omega (arith, ltb→lt 0 k (ground arith)))
                (ascending-tail zero (k ∷ bounds) t))
      | inr f ↦ cc (rw f at h)
    ]
checked-without_zero (suc a ∷ bounds) b h = elim (Bool-cases (is_ascending (suc a ∷ bounds))) [
  | inl t ↦
      sym (ok-injective (rw t at h)) ∙ sym (ascending-without_zero (suc a) bounds (omega arith) t)
  | inr f ↦ cc (rw f at h)
]

-- One range of the bounds holds the number, and no other does.
abbrev pub OneRange : String → Labeler → List ℕ → ℕ → Resolved String → Type 0
OneRange prefix label b x text =
    (r : Option ℕ × Option ℕ) × Memᴰ r (ranges none b)
    × (is_in r x ≡ true)
    × (text ≡ labelled prefix label r)
    × ((q : Option ℕ × Option ℕ) → Memᴰ q (ranges none b) → is_in q x ≡ true → q ≡ r)

-- A function that bucketize returns gives 0 the empty label. Any other number it gives the label of
-- the range lo < x ≤ hi between neighbouring checked bounds that holds the number, where the first
-- range has no lower and the last no upper end; exactly one range holds it. The checked bounds are
-- the bounds but 0.
pub bucketize-OneRange :
    (prefix : String) (bounds : List ℕ) (label : Labeler) (f : ℕ → Resolved String) (x : ℕ)
    → bucketize prefix bounds label ≡ ok f
    → (b : List ℕ) × (checked_bounds bounds ≡ ok b)
      × (b ≡ without_zero bounds)
      × ((x ≡ 0) → f x ≡ ok "")
      × ((x ≢ 0) → OneRange prefix label b x (f x))
unfolding bucketize
bucketize-OneRange prefix bounds label f x h =
    let (b, checked, e) = bind-ok (checked_bounds bounds) h in
    let same : bucket_of prefix label b x ≡ f x = ap (λ g. g x) (ok-injective e) in
    (
      b,
      checked,
      checked-without_zero bounds b checked,
      λ zero_x. sym same ∙ go_zero b zero_x,
      λ other. (
        find_range none b x,
        find_range-mem none b x,
        find_range-in none b x refl,
        sym same ∙ go_other b other,
        λ q m t. find_range_unique none b x q (checked-ascending bounds b checked) m t,
      ),
    )
  where
    go_zero : (b : List ℕ) → x ≡ 0 → bucket_of prefix label b x ≡ ok ""
    go_zero b e = elim (Eq-cases x 0) [ inl (p, t) ↦ rw t refl | inr (p, t) ↦ absurd (p e) ]

    go_other :
        (b : List ℕ)
        → x ≢ 0
        → bucket_of prefix label b x ≡ labelled prefix label (find_range none b x)
    go_other b e = elim (Eq-cases x 0) [ inl (p, t) ↦ absurd (e p) | inr (p, t) ↦ rw t refl ]

-- bucketize panics exactly on bounds that are not strictly ascending or have no bound but 0.
pub bucketize-panics_iff :
    (prefix : String) (bounds : List ℕ) (label : Labeler)
    → ((e : String) × (bucketize prefix bounds label ≡ error e))
      ↔ ((is_ascending bounds ≡ false) ⊎ ((n : ℕ) → Memᴰ n bounds → n ≡ 0))
unfolding bucketize checked_bounds
bucketize-panics_iff prefix [] label = (λ h. inr (λ n m. elim m [ ]), λ h. (_, refl))
bucketize-panics_iff prefix (zero ∷ []) label =
    (λ h. inr (λ n m. elim (Memᴰ.cases_cons m) [ inl p ↦ p | inr z ↦ elim z [ ] ]), λ h. (_, refl))
bucketize-panics_iff prefix (zero ∷ k ∷ bounds) label =
    elim (Bool-cases (is_ascending (zero ∷ k ∷ bounds))) [
      | inl t ↦ (
        λ h. cc (rw t at h.1),
        λ c. elim c [
          | inl f ↦ cc (t, f)
          | inr all ↦ absurd (positive k bounds t (all k (Memᴰ.tail (Memᴰ.head refl))))
        ],
      )
      | inr f ↦ (λ h. inl f, λ c. rw f (_, refl))
    ]
  where
    positive : (k : ℕ) (bounds : List ℕ) → is_ascending (zero ∷ k ∷ bounds) ≡ true → k ≢ 0
    positive k bounds t e = omega (arith, ltb→lt 0 k (ground arith), e)
bucketize-panics_iff prefix (suc a ∷ bounds) label =
    elim (Bool-cases (is_ascending (suc a ∷ bounds))) [
      | inl t ↦ (
        λ h. cc (rw t at h.1),
        λ c. elim c [
          | inl f ↦ cc (t, f)
          | inr all ↦ absurd (omega (arith, all (suc a) (Memᴰ.head refl)))
        ],
      )
      | inr f ↦ (λ h. inl f, λ c. rw f (_, refl))
    ]

-- A label for every range but one without ends.
abbrev IsTotal : Labeler → Type 0
IsTotal label =
    (lo hi : Option ℕ) → (lo ≡ none → hi ≡ none → ⊥) → (text : String) × (label lo hi ≡ ok text)

bound_label-IsTotal : (number : ℕ → String) → IsTotal (bound_label number)
unfolding bound_label
bound_label-IsTotal number none none h = absurd (h refl refl)
bound_label-IsTotal number none (some hi) h = (_, refl)
bound_label-IsTotal number (some lo) none h = (_, refl)
bound_label-IsTotal number (some lo) (some hi) h = (_, refl)

unit_bound_label-IsTotal :
    (number : ℕ → String) (unit : ℕ) → 1 ≤ unit → IsTotal (unit_bound_label number unit)
unfolding unit_bound_label
unit_bound_label-IsTotal number zero pos lo hi h = absurd (omega (arith, pos))
unit_bound_label-IsTotal number (suc u) pos none none h = absurd (h refl refl)
unit_bound_label-IsTotal number (suc u) pos none (some hi) h = (_, refl)
unit_bound_label-IsTotal number (suc u) pos (some lo) none h = (_, refl)
unit_bound_label-IsTotal number (suc u) pos (some lo) (some hi) h = (_, refl)

module _ (prefix : String) (label : Labeler) (total : IsTotal label) where
  labelled-ok :
      (lo hi : Option ℕ)
      → (lo ≡ none → hi ≡ none → ⊥)
      → (text : String) × (labelled prefix label (lo, hi) ≡ ok text)
  labelled-ok lo hi h = let (text, e) = total lo hi h in rw e (_, refl)

  range-labelled :
      (lo : Option ℕ) (b : List ℕ) (x : ℕ)
      → (lo ≡ none → b ≢ [])
      → (text : String) × (labelled prefix label (find_range lo b x) ≡ ok text)
  range-labelled lo [] x h = labelled-ok lo none (λ p q. h p refl)
  range-labelled lo (hi ∷ b) x h = elim (Bool-cases (leb x hi)) [
    | inl t ↦ rw t (labelled-ok lo (some hi) (λ p q. cc q))
    | inr f ↦ rw f (range-labelled (some hi) b x (λ p. cc p))
  ]

  bucket-labelled :
      (b : List ℕ) (x : ℕ) → b ≢ [] → (text : String) × (bucket_of prefix label b x ≡ ok text)
  bucket-labelled b x h = elim (Bool-cases (x == 0)) [
    | inl t ↦ rw t ("", refl)
    | inr f ↦ rw f (range-labelled none b x (λ p. h))
  ]

  bucketize-Grows :
      (factor cut : ℕ) (b : List ℕ) (x : ℕ)
      → x ≤ cut
      → 1 ≤ x
      → Grows (at_least 2 factor) cut x b
      → (f : ℕ → Resolved String) × (bucketize prefix b label ≡ ok f)
        × ((n : ℕ) → (text : String) × (f n ≡ ok text))
  unfolding bucketize checked_bounds
  bucketize-Grows factor cut b x le one (Grows.done over) = absurd (omega arith)
  bucketize-Grows factor cut b zero le one (Grows.next below grows) = absurd (omega arith)
  bucketize-Grows factor cut b (suc x) le one (Grows.next {b = rest} below grows) =
      let (ascends, bounded) =
        Grows-ascending (at_least 2 factor) cut (suc x) (suc x ∷ rest) (at_least-le 2 factor) one
          (Grows.next below grows) in
      (
        bucket_of prefix label (suc x ∷ rest),
        rw ascends refl,
        λ n. bucket-labelled (suc x ∷ rest) n (λ p. cc p),
      )

-- The bounds are accepted, and every number gets a label.
abbrev pub Labels : String → Labeler → List ℕ → Type 0
Labels prefix label b =
    (f : ℕ → Resolved String) × (bucketize prefix b label ≡ ok f)
    × ((x : ℕ) → (text : String) × (f x ≡ ok text))

-- For a cut of at least 1 that fits 64 bits, and a first bound that is at most the cut, bounds are
-- generated, bucketize accepts them, and every number gets a label without a panic: with the label
-- of the bounds, and with the label of the bounds in any unit but 0.
pub generated-buckets_total :
    (number : ℕ → String) (prefix : String) (first factor cut unit : ℕ)
    → cut < two_64
    → first ≤ cut
    → 1 ≤ cut
    → 1 ≤ unit
    → (b : List ℕ) × (generate_bounds first factor cut ≡ some b)
      × Labels prefix (bound_label number) b
      × Labels prefix (unit_bound_label number unit) b
generated-buckets_total number prefix first factor cut unit below inside pos counts =
    let (b, made, grows) = generate_bounds-Grows first factor cut below in
    let under = at_least-under cut first inside pos in
    let low = at_least-pos first in
    (
      b,
      made,
      bucketize-Grows prefix (bound_label number) (bound_label-IsTotal number) factor cut b
          (at_least 1 first) under low grows,
      bucketize-Grows prefix (unit_bound_label number unit)
          (unit_bound_label-IsTotal number unit counts) factor cut b (at_least 1 first) under low
          grows,
    )
  where
    at_least-under : (cut first : ℕ) → first ≤ cut → 1 ≤ cut → at_least 1 first ≤ cut
    at_least-under cut first p q = ground arith

    at_least-pos : (first : ℕ) → 1 ≤ at_least 1 first
    at_least-pos first = ground arith
