-- ===== src/Telemetry/Growth.antt =====
-- The bounds that grow by a factor: `generateBounds`,
-- internal/telemetry/collector/local_buckets.go.
use native.Mathlib.Nat.{
  mod-eq_of_lt, le-div_iff_mul-le, div-lt_iff_lt-mul, pow-suc, mul-le-mul_left, mul-le-mul_right,
  mul_assoc, mul_comm, lt_of_lt_of_le,
}
use kcm.Prelude.{
  ℕ, zero, suc, ◌*◌, ◌/◌, ◌%◌, ◌^◌, ◌≤◌, ◌<◌, ◌≡◌, refl, sym, ◌∙◌, ap, subst, inl, inr, true, false,
  List, [], ◌∷◌, some, ltb, leb, leb→le, ltb→lt, lt→ltb, Bool-cases, arith, All,
}
use kcm.Telemetry.{two_64, cons_bound, grow, at_least, generate_bounds, is_ascending}

-- The multiples x, x · factor, x · factor ² and so on, in full, as far as they are at most `cut`.
pub data Grows (factor cut : ℕ) : ℕ → List ℕ → Type 0 where
  done : {x : ℕ} → cut < x → Grows factor cut x []
  next :
      {x : ℕ} {b : List ℕ} → x ≤ cut → Grows factor cut (x * factor) b → Grows factor cut x (x ∷ b)

pub at_least-le : (low n : ℕ) → low ≤ at_least low n
at_least-le low n = ground arith

leb-false : (a b : ℕ) → leb a b ≡ false → b < a
leb-false a b h = ground arith

not-leb : (a b : ℕ) → b < a → leb a b ≡ false
not-leb a b h = ground arith

ltb-false : (a b : ℕ) → ltb a b ≡ false → b ≤ a
ltb-false a b h = ground arith

-- One more round doubles what the fuel is enough for.
doubled : (x factor m : ℕ) → 2 ≤ factor → x * (m * 2) ≤ x * factor * m
doubled x factor m h =
    let more : x * 2 * m ≤ x * factor * m =
      mul-le-mul_right m (mul-le-mul_left {m = 2} {n = factor} x h) in
    let same : x * (m * 2) ≡ x * 2 * m = ap (λ k. x * k) (mul_comm m 2) ∙ sym (mul_assoc x 2 m) in
    rw same more

grow-Grows :
    (n factor cut x : ℕ)
    → 2 ≤ factor
    → cut < two_64
    → cut < x * 2 ^ n
    → (b : List ℕ) × (grow (suc n) factor cut x ≡ some b) × Grows factor cut x b
grow-Grows zero factor cut x two_le below enough =
    let over : leb x cut ≡ false = not-leb x cut (omega arith) in
    rw over ([], refl, Grows.done (leb-false x cut over))
grow-Grows (suc n) factor cut x two_le below enough = elim (Bool-cases (leb x cut)) [
  | inr over ↦ rw over ([], refl, Grows.done (leb-false x cut over))
  | inl inside ↦ elim (Bool-cases (ltb (cut / factor) x)) [
    | inl last ↦
        let past : cut < x * factor =
          (div-lt_iff_lt-mul {k = factor} {x = cut} {y = x} (omega arith)).0
            (ltb→lt (cut / factor) x last) in
        rw (inside, last) (x ∷ [], refl, Grows.next (leb→le x cut inside) (Grows.done past))
    | inr more ↦
        let fits : x * factor ≤ cut =
          (le-div_iff_mul-le {k = factor} {x = x} {y = cut} (omega arith)).0
            (ltb-false (cut / factor) x more) in
        let exact : x * factor % two_64 ≡ x * factor = mod-eq_of_lt (omega arith) in
        let (b, run, grows) = grow-Grows n factor cut (x * factor) two_le below (
          lt_of_lt_of_le (subst (λ k. cut < x * k) (pow-suc 2 n) enough)
            (doubled x factor (2 ^ n) two_le)) in
        rw (inside, more)
          (
            x ∷ b,
            ap (cons_bound x) (ap (grow (suc n) factor cut) exact ∙ run),
            Grows.next (leb→le x cut inside) grows,
          )
  ]
]

-- For numbers of 64 bits generateBounds ends. It returns exactly the multiples of `first` by the
-- powers of `factor` that are at most `cut`, computed without overflow; a factor below 2 counts as
-- 2, a first bound of 0 as 1.
pub generate_bounds-Grows :
    (first factor cut : ℕ)
    → cut < two_64
    → (b : List ℕ) × (generate_bounds first factor cut ≡ some b)
      × Grows (at_least 2 factor) cut (at_least 1 first) b
unfolding generate_bounds
generate_bounds-Grows first factor cut below =
    grow-Grows 64 (at_least 2 factor) cut (at_least 1 first) (at_least-le 2 factor) below
      (lt_of_lt_of_le below (mul-le-mul_right two_64 (at_least-le 1 first)))

-- Multiples that grow are strictly ascending, from the first on, and at most `cut`.
pub Grows-ascending :
    (factor cut x : ℕ) (b : List ℕ)
    → 2 ≤ factor
    → 1 ≤ x
    → Grows factor cut x b
    → (is_ascending b ≡ true) × All (λ y. y ≤ cut) b
Grows-ascending factor cut x b two_le pos (Grows.done over) = (refl, tt)
Grows-ascending factor cut x b two_le pos (Grows.next below (Grows.done over)) = (refl, (below, tt))
Grows-ascending factor cut x b two_le pos (Grows.next below (Grows.next later grows)) =
    let bigger : x * 2 ≤ x * factor = mul-le-mul_left {m = 2} {n = factor} x two_le in
    let (ascends, bounded) =
      Grows-ascending factor cut (x * factor) _ two_le (omega arith) (Grows.next later grows) in
    (rw (lt→ltb x (x * factor) (omega arith)) ascends, (below, bounded))
