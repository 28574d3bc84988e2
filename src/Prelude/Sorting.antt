-- ===== src/Prelude/Sorting.antt =====
-- Go's slices.SortFunc and slices.SortStableFunc as an insertion sort.
use mathlib.Core.List.Memᴰ
use Prim.Native.Nat.{ℕ, ◌≤◌}
use mathlib.Core.Path.{◌≡◌, sym, subst}
use mathlib.Core.Logic.{◌⊎◌, inl, inr, ◌↔◌}
use mathlib.Core.Bool.{Bool, false}
use mathlib.Core.List.{List, [], ◌∷◌, Memᴰ}
use native.Mathlib.Omega.{arith}
use kcm.Prelude.Tests.{if◌then◌else◌, Bool-cases, ltb, ltb→lt}
use kcm.Prelude.Lists.{All, All-of_mem, All-mem}

-- Stable insertion: behind the elements that are not greater.
module _ {A : Type 0} (less : A → A → Bool) where
  unfoldable pub insert_sorted : A → List A → List A
  insert_sorted x [] = x ∷ []
  insert_sorted x (y ∷ ys) =
      let rest = insert_sorted x ys in if less y x then y ∷ rest else x ∷ y ∷ ys

  unfoldable pub sort : List A → List A
  unfolding insert_sorted
  sort [] = []
  sort (x ∷ xs) = insert_sorted x (sort xs)

-- Each element is in front of those that are not smaller.
abbrev pub Ascending : {A : Type 0} → (A → ℕ) → List A → Type 0
Ascending weight [] = Unit
Ascending weight (x ∷ xs) = All (λ y. weight x ≤ weight y) xs × Ascending weight xs

module _ {A : Type 0} (less : A → A → Bool) where
  pub mem-insert_sorted :
      (x y : A) (xs : List A) → Memᴰ y (insert_sorted less x xs) → (y ≡ x) ⊎ Memᴰ y xs
  unfolding insert_sorted
  mem-insert_sorted x y [] (Memᴰ.head p) = inl p
  mem-insert_sorted x y [] (Memᴰ.tail m) = elim m [ ]
  mem-insert_sorted x y (z ∷ zs) m = elim (Bool-cases (less z x)) [
    | inl t ↦ elim (Memᴰ.cases_cons (rw t at m)) [
      | inl p ↦ inr (Memᴰ.head p)
      | inr n ↦ elim (mem-insert_sorted x y zs n) [ inl p ↦ inl p | inr o ↦ inr (Memᴰ.tail o) ]
    ]
    | inr f ↦ Memᴰ.cases_cons (rw f at m)
  ]

  insert_sorted-mem :
      (x y : A) (xs : List A) → (y ≡ x) ⊎ Memᴰ y xs → Memᴰ y (insert_sorted less x xs)
  unfolding insert_sorted
  insert_sorted-mem x y [] (inl p) = Memᴰ.head p
  insert_sorted-mem x y [] (inr m) = elim m [ ]
  insert_sorted-mem x y (z ∷ zs) h = elim (Bool-cases (less z x)) [
    | inl t ↦ rw t (elim h [
      | inl p ↦ Memᴰ.tail (insert_sorted-mem x y zs (inl p))
      | inr m ↦ elim (Memᴰ.cases_cons m) [
        | inl p ↦ Memᴰ.head p
        | inr n ↦ Memᴰ.tail (insert_sorted-mem x y zs (inr n))
      ]
    ])
    | inr f ↦ rw f (elim h [ inl p ↦ Memᴰ.head p | inr m ↦ Memᴰ.tail m ])
  ]

  pub mem-sort : (y : A) (xs : List A) → Memᴰ y (sort less xs) ↔ Memᴰ y xs
  unfolding sort
  mem-sort y [] = (λ m. m, λ m. m)
  mem-sort y (x ∷ xs) = (
    λ m. elim (mem-insert_sorted x y (sort less xs) m) [
      | inl p ↦ Memᴰ.head p
      | inr n ↦ Memᴰ.tail ((mem-sort y xs).0 n)
    ],
    λ m.
        insert_sorted-mem x y (sort less xs)
          (elim (Memᴰ.cases_cons m) [ inl p ↦ inl p | inr n ↦ inr ((mem-sort y xs).1 n) ]),
  )

module _ {A : Type 0} (weight : A → ℕ) where
  abbrev pub lighter : A → A → Bool
  lighter a b = ltb (weight a) (weight b)

  ltb-false : (a b : ℕ) → ltb a b ≡ false → b ≤ a
  ltb-false a b h = ground arith

  insert_sorted-Ascending :
      (x : A) (xs : List A) → Ascending weight xs → Ascending weight (insert_sorted lighter x xs)
  unfolding insert_sorted
  insert_sorted-Ascending x [] h = (tt, tt)
  insert_sorted-Ascending x (z ∷ zs) h = elim (Bool-cases (lighter z x)) [
    | inl t ↦
        let front : All (λ y. weight z ≤ weight y) (insert_sorted lighter x zs) =
          All-of_mem (λ y. weight z ≤ weight y) _
            (λ y m. elim (mem-insert_sorted lighter x y zs m) [
              | inl p ↦
                  subst (λ v. weight z ≤ weight v) (sym p)
                    (omega (arith, ltb→lt (weight z) (weight x) t))
              | inr n ↦ All-mem (λ y. weight z ≤ weight y) zs h.0 n
            ]) in
        rw t (front, insert_sorted-Ascending x zs h.1)
    | inr f ↦
        let below = ltb-false (weight z) (weight x) f in
        let front : All (λ y. weight x ≤ weight y) (z ∷ zs) = (
          below,
          All-of_mem (λ y. weight x ≤ weight y) zs
              (λ y m. omega (arith, All-mem (λ y. weight z ≤ weight y) zs h.0 m)),
        ) in
        rw f (front, h)
  ]

  pub sort-Ascending : (xs : List A) → Ascending weight (sort lighter xs)
  unfolding sort
  sort-Ascending [] = tt
  sort-Ascending (x ∷ xs) = insert_sorted-Ascending x (sort lighter xs) (sort-Ascending xs)
