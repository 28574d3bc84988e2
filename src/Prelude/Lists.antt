-- ===== src/Prelude/Lists.antt =====
-- Lists measured by native numbers, and Go's slice helpers, which take Boolean tests.
use Prim.Native.Nat.{ℕ, zero, suc, ◌+◌, ◌≤◌}
use mathlib.Core.Path.{◌≡◌, refl, sym, ◌∙◌, ap, subst}
use mathlib.Core.Bool.{Bool, true, false, ◌&&◌, ◌||◌}
use mathlib.Core.List.Memᴰ
use mathlib.Core.List.{List, [], ◌∷◌, ◌++◌, map, Memᴰ}
use mathlib.Core.Logic.{inl, inr}
use mathlib.Core.Option.{Option, none, some}
use native.Mathlib.Omega.{arith}
use kcm.Prelude.Tests.{if◌then◌else◌, Bool-cases}

module _ {ℓ} {A : Type ℓ} where
  abbrev pub length : List A → ℕ
  length [] = 0
  length (x ∷ xs) = suc (length xs)

  abbrev pub get_elem? : List A → ℕ → Option A
  get_elem? [] i = none
  get_elem? (x ∷ xs) zero = some x
  get_elem? (x ∷ xs) (suc i) = get_elem? xs i

  abbrev pub take : ℕ → List A → List A
  take zero xs = []
  take (suc n) [] = []
  take (suc n) (x ∷ xs) = x ∷ take n xs

  abbrev pub drop : ℕ → List A → List A
  drop zero xs = xs
  drop (suc n) [] = []
  drop (suc n) (x ∷ xs) = drop n xs

  pub length-append : (xs ys : List A) → length (xs ++ ys) ≡ length xs + length ys
  length-append [] ys = omega arith
  length-append (x ∷ xs) ys = omega (arith, length-append xs ys)

  pub append-nil : (xs : List A) → xs ++ [] ≡ xs
  append-nil [] = refl
  append-nil (x ∷ xs) = ap (λ ys. x ∷ ys) (append-nil xs)

  pub append_assoc : (xs ys zs : List A) → (xs ++ ys) ++ zs ≡ xs ++ (ys ++ zs)
  append_assoc [] ys zs = refl
  append_assoc (x ∷ xs) ys zs = ap (λ l. x ∷ l) (append_assoc xs ys zs)

  -- slices.ContainsFunc
  abbrev pub any : (A → Bool) → List A → Bool
  any p [] = false
  any p (x ∷ xs) = p x || any p xs

  abbrev pub all : (A → Bool) → List A → Bool
  all p [] = true
  all p (x ∷ xs) = p x && all p xs

  -- A loop that appends the elements which pass a test.
  abbrev pub filter_by : (A → Bool) → List A → List A
  filter_by p [] = []
  filter_by p (x ∷ xs) = let rest = filter_by p xs in if p x then x ∷ rest else rest

  -- slices.IndexFunc
  abbrev pub index_of : (A → Bool) → List A → Option ℕ
  index_of p [] = none
  index_of p (x ∷ xs) =
      let rest = index_of p xs in
      if p x then some zero else elim rest [ none ↦ none | some i ↦ some (suc i) ]

  -- A predicate of every element.
  abbrev pub All {κ} : (A → Type κ) → List A → Type κ
  All P [] = Unit
  All P (x ∷ xs) = P x × All P xs

  pub All-mem {κ} : (P : A → Type κ) (xs : List A) {a : A} → All P xs → Memᴰ a xs → P a
  All-mem P [] h m = elim m [ ]
  All-mem P (x ∷ xs) h (Memᴰ.head e) = subst P (sym e) h.0
  All-mem P (x ∷ xs) h (Memᴰ.tail m) = All-mem P xs h.1 m

  pub All-of_mem {κ} : (P : A → Type κ) (xs : List A) → ((x : A) → Memᴰ x xs → P x) → All P xs
  All-of_mem P [] h = tt
  All-of_mem P (x ∷ xs) h = (h x (Memᴰ.head refl), All-of_mem P xs (λ y m. h y (Memᴰ.tail m)))

  -- What passes the test, and is in the list.
  pub mem-filter_by :
      (p : A → Bool) (xs : List A) {a : A} → Memᴰ a (filter_by p xs) → Memᴰ a xs × (p a ≡ true)
  mem-filter_by p [] m = elim m [ ]
  mem-filter_by p (x ∷ xs) {a} m = elim (Bool-cases (p x)) [
    | inl keeps ↦ elim (Memᴰ.cases_cons (rw keeps at m)) [
      | inl e ↦ (Memᴰ.head e, ap p e ∙ keeps)
      | inr n ↦ let (old, t) = mem-filter_by p xs n in (Memᴰ.tail old, t)
    ]
    | inr drops ↦ let (old, t) = mem-filter_by p xs (rw drops at m) in (Memᴰ.tail old, t)
  ]

  pub filter_by-mem :
      (p : A → Bool) (xs : List A) {a : A} → Memᴰ a xs → p a ≡ true → Memᴰ a (filter_by p xs)
  filter_by-mem p [] m t = elim m [ ]
  filter_by-mem p (x ∷ xs) (Memᴰ.head e) t = rw (ap p (sym e) ∙ t) (Memᴰ.head e)
  filter_by-mem p (x ∷ xs) (Memᴰ.tail m) t = elim (Bool-cases (p x)) [
    | inl keeps ↦ rw keeps (Memᴰ.tail (filter_by-mem p xs m t))
    | inr drops ↦ rw drops (filter_by-mem p xs m t)
  ]

  pub any→mem : (p : A → Bool) (xs : List A) → any p xs ≡ true → (a : A) × Memᴰ a xs × (p a ≡ true)
  any→mem p [] h = cc
  any→mem p (x ∷ xs) h = elim (Bool-cases (p x)) [
    | inl t ↦ (x, Memᴰ.head refl, t)
    | inr f ↦ let (a, m, t) = any→mem p xs (rw f at h) in (a, Memᴰ.tail m, t)
  ]

  pub mem→any : (p : A → Bool) (xs : List A) {a : A} → Memᴰ a xs → p a ≡ true → any p xs ≡ true
  mem→any p [] m t = elim m [ ]
  mem→any p (x ∷ xs) (Memᴰ.head e) t = rw (ap p (sym e) ∙ t)
  mem→any p (x ∷ xs) (Memᴰ.tail m) t = ground (arith, mem→any p xs m t)

  pub all→mem : (p : A → Bool) (xs : List A) {a : A} → all p xs ≡ true → Memᴰ a xs → p a ≡ true
  all→mem p [] h m = elim m [ ]
  all→mem p (x ∷ xs) h (Memᴰ.head e) = rw e (ground arith)
  all→mem p (x ∷ xs) h (Memᴰ.tail m) = all→mem p xs (ground arith) m

  pub mem→all : (p : A → Bool) (xs : List A) → ((x : A) → Memᴰ x xs → p x ≡ true) → all p xs ≡ true
  mem→all p [] h = refl
  mem→all p (x ∷ xs) h = rw (h x (Memᴰ.head refl)) (mem→all p xs (λ y m. h y (Memᴰ.tail m)))

  pub length-filter_by-le : (p : A → Bool) (xs : List A) → length (filter_by p xs) ≤ length xs
  length-filter_by-le p [] = omega arith
  length-filter_by-le p (x ∷ xs) = ground (arith, length-filter_by-le p xs)

pub length-map {ℓ κ} :
    {A : Type ℓ} {B : Type κ} (f : A → B) (xs : List A) → length (map f xs) ≡ length xs
length-map f [] = refl
length-map f (x ∷ xs) = ap suc (length-map f xs)
