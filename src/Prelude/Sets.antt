-- ===== src/Prelude/Sets.antt =====
-- A Go map to `struct{}` or to `bool` that is used as a set, as the list of its members.
use Prim.Native.Nat.{ℕ, suc, ◌+◌, ◌≤◌, ◌<◌}
use mathlib.Core.Path.{◌≡◌, refl, sym, ◌∙◌, ap, subst}
use mathlib.Core.Logic.{◌≢◌, ◌↔◌, inl, inr}
use mathlib.Core.Bool.{Bool, true, false, not, ◌||◌, false≢true}
use mathlib.Core.List.{List, [], ◌∷◌, ◌++◌, Memᴰ}
use native.Mathlib.Omega.{arith}
use kcm.Prelude.Tests.{if◌then◌else◌, Bool-cases}
use kcm.Prelude.Lists.{
  length, any, all, mem→any, filter_by, mem-filter_by, filter_by-mem, length-filter_by-le,
}
use kcm.Prelude.Keys.{Eq, ◌==◌, beq_refl, Eq-cases}

module _ {ℓ} {A : Type ℓ} ⦃e : Eq A⦄ where
  abbrev pub contains : List A → A → Bool
  contains xs a = any (λ x. x == a) xs

  abbrev pub remove : A → List A → List A
  remove a xs = filter_by (λ x. not (x == a)) xs

  pub contains→mem : (xs : List A) (a : A) → contains xs a ≡ true → Memᴰ a xs
  contains→mem [] a h = cc
  contains→mem (x ∷ xs) a h = elim (Eq-cases x a) [
    | inl (same, t) ↦ Memᴰ.head (sym same)
    | inr (other, f) ↦ Memᴰ.tail (contains→mem xs a (rw f at h))
  ]

  pub mem→contains : (xs : List A) (a : A) → Memᴰ a xs → contains xs a ≡ true
  mem→contains xs a m = mem→any (λ x. x == a) xs m (beq_refl a)

  pub not-mem_of_contains : (xs : List A) (a : A) → contains xs a ≡ false → ¬ Memᴰ a xs
  not-mem_of_contains xs a h m = cc (mem→contains xs a m)

  -- A member that was not there before goes again without a trace.
  pub remove-not_mem : (a : A) (xs : List A) → contains xs a ≡ false → remove a xs ≡ xs
  remove-not_mem a [] h = refl
  remove-not_mem a (x ∷ xs) h = ground (arith, remove-not_mem a xs)

  pub remove-cons_self : (a : A) (xs : List A) → contains xs a ≡ false → remove a (a ∷ xs) ≡ xs
  remove-cons_self a xs h = rw (beq_refl a) (remove-not_mem a xs h)

  pub contains_of_remove :
      (a : A) (xs : List A) (x : A) → contains (remove a xs) x ≡ true → contains xs x ≡ true
  contains_of_remove a xs x h =
      mem→contains xs x (mem-filter_by (λ y. not (y == a)) xs (contains→mem (remove a xs) x h)).0

  pub contains-remove :
      (a : A) (xs : List A) (x : A) → contains xs x ≡ true → x ≢ a → contains (remove a xs) x ≡ true
  contains-remove a xs x h other = mem→contains (remove a xs) x (
      filter_by-mem (λ y. not (y == a)) xs (contains→mem xs x h)
        (elim (Eq-cases x a) [ inl (same, t) ↦ absurd (other same) | inr (o, f) ↦ rw f ]))

  pub length-remove-lt :
      (a : A) (xs : List A) → contains xs a ≡ true → length (remove a xs) < length xs
  length-remove-lt a [] h = cc
  length-remove-lt a (x ∷ xs) h =
      ground (arith, length-remove-lt a xs, length-filter_by-le (λ y. not (y == a)) xs)

  -- No member twice.
  abbrev pub IsNodup : List A → Type 0
  IsNodup [] = Unit
  IsNodup (x ∷ xs) = (contains xs x ≡ false) × IsNodup xs

  pub contains-append :
      (xs ys : List A) (a : A) → contains (xs ++ ys) a ≡ (contains xs a || contains ys a)
  contains-append [] ys a = refl
  contains-append (x ∷ xs) ys a = ground (arith, contains-append xs ys a)

  pub IsNodup-snoc :
      (xs : List A) (a : A) → IsNodup xs → contains xs a ≡ false → IsNodup (xs ++ (a ∷ []))
  IsNodup-snoc [] a h new = (refl, tt)
  IsNodup-snoc (x ∷ xs) a h new = elim (Eq-cases x a) [
    | inl (same, t) ↦ cc (rw t at new)
    | inr (other, f) ↦ (
      contains-append xs (a ∷ []) x ∙ rw h.0 (ground (arith, e.beq_iff x a, e.beq_iff a x)),
      IsNodup-snoc xs a h.1 (rw f at new),
    )
  ]

  pub not-contains_filter :
      (p : A → Bool) (a : A) (xs : List A)
      → contains xs a ≡ false
      → contains (filter_by p xs) a ≡ false
  not-contains_filter p a [] h = refl
  not-contains_filter p a (x ∷ xs) h = ground (arith, not-contains_filter p a xs)

  pub filter_by-IsNodup : (p : A → Bool) (xs : List A) → IsNodup xs → IsNodup (filter_by p xs)
  filter_by-IsNodup p [] h = tt
  filter_by-IsNodup p (x ∷ xs) h = elim (Bool-cases (p x)) [
    | inl keeps ↦ rw keeps (not-contains_filter p x xs h.0, filter_by-IsNodup p xs h.1)
    | inr drops ↦ rw drops (filter_by-IsNodup p xs h.1)
  ]

  -- How often a value stands in a list.
  abbrev pub count : A → List A → ℕ
  count a [] = 0
  count a (x ∷ xs) = let rest = count a xs in if x == a then suc rest else rest

  pub count-zero : (a : A) (xs : List A) → contains xs a ≡ false → count a xs ≡ 0
  count-zero a [] h = refl
  count-zero a (x ∷ xs) h = ground (arith, count-zero a xs)

  pub count-IsNodup :
      (a : A) (xs : List A) → IsNodup xs → count a xs ≡ (if contains xs a then 1 else 0)
  count-IsNodup a [] h = refl
  count-IsNodup a (x ∷ xs) h = elim (Eq-cases x a) [
    | inl (same, t) ↦
        let gone : contains xs a ≡ false = subst (λ y. contains xs y ≡ false) same h.0 in
        rw t (ap suc (count-zero a xs gone))
    | inr (other, f) ↦ rw f (count-IsNodup a xs h.1)
  ]

  pub count-append : (a : A) (xs ys : List A) → count a (xs ++ ys) ≡ count a xs + count a ys
  count-append a [] ys = omega arith
  count-append a (x ∷ xs) ys = ground (arith, count-append a xs ys)

  -- How many entries of `ys`, with repetitions, the members of `xs` match.
  abbrev pub total : List A → List A → ℕ
  total [] ys = 0
  total (x ∷ xs) ys = count x ys + total xs ys

  total-nil : (xs : List A) → total xs [] ≡ 0
  total-nil [] = refl
  total-nil (x ∷ xs) = omega (arith, total-nil xs)

  total-cons : (xs : List A) (y : A) (ys : List A) → total xs (y ∷ ys) ≡ count y xs + total xs ys
  total-cons [] y ys = omega arith
  total-cons (x ∷ xs) y ys = ground (arith, total-cons xs y ys, e.beq_iff x y, e.beq_iff y x)

  -- For a set, the total is the number of entries that are in the set.
  pub total-IsNodup :
      (xs ys : List A)
      → IsNodup xs
      → (total xs ys ≤ length ys) × ((length ys ≤ total xs ys) ↔ (all (contains xs) ys ≡ true))
  total-IsNodup xs [] h = (omega (arith, total-nil xs), (λ _. refl, λ _. omega arith))
  total-IsNodup xs (y ∷ ys) h =
      let (below, (l, r)) = total-IsNodup xs ys h in
      let step = total-cons xs y ys in
      let once = count-IsNodup y xs h in
      elim (Bool-cases (contains xs y)) [
        | inl t ↦
            let one : count y xs ≡ 1 = once ∙ rw t in
            rw t (omega arith, (λ p. l (omega arith), λ p. omega (arith, r p)))
        | inr f ↦
            let none_here : count y xs ≡ 0 = once ∙ rw f in
            rw f (omega arith, (λ p. absurd (omega arith), λ p. absurd (false≢true p)))
      ]
