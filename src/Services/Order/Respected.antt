-- ===== src/Services/Order/Respected.antt =====
-- The order that `BuildServicesList` writes respects the dependencies that the owner lists,
-- internal/serviceset/util.go.
use mathlib.Core.List.Memᴰ
use kcm.Prelude.{
  Ascending, sort, insert_sorted, mem-sort, ℕ, ◌≤◌, ◌<◌, ◌≡◌, refl, sym, ◌∙◌, ap, subst, inl, inr,
  Bool, false, true≢false, List, [], ◌∷◌, ◌++◌, map, Memᴰ, Bool-cases, arith, length, ObjectKey,
  key_eq, All-mem, get_or, contains, mem→contains, contains→mem, ltb, ltb→lt,
}
use kcm.Api.{Service, ServiceDependsOn, ServiceWithValues}
use kcm.Services.Keys.{key_of, dependency_key, stored_key}
use kcm.Validation.Dependencies.{Depends, direct, through}
use kcm.Validation.Admission.{AreDistinct}
use kcm.Services.Order.{sort_by_dependency, key_less, ranks, rank_of, build_services_list}
use kcm.Services.Order.Merged.{build_services_list-Merged}
use kcm.Services.Order.Ranks.{rank_lt}

module _ (less : Service → Service → Bool) where
  contains-insert_sorted :
      (x : Service) (xs : List Service) (k : ObjectKey)
      → contains (map key_of (insert_sorted less x xs)) k ≡ contains (map key_of (x ∷ xs)) k
  unfolding insert_sorted
  contains-insert_sorted x [] k = refl
  contains-insert_sorted x (y ∷ ys) k = elim (Bool-cases (less y x)) [
    | inl t ↦ rw t (ground (arith, contains-insert_sorted x ys k))
    | inr f ↦ rw f refl
  ]

  insert_sorted-AreDistinct :
      (x : Service) (xs : List Service)
      → contains (map key_of xs) (key_of x) ≡ false
      → AreDistinct xs
      → AreDistinct (insert_sorted less x xs)
  unfolding insert_sorted
  insert_sorted-AreDistinct x [] new h = (refl, tt)
  insert_sorted-AreDistinct x (y ∷ ys) new h = elim (Bool-cases (less y x)) [
    | inr f ↦ rw f (new, h)
    | inl t ↦
        let apart : contains (map key_of (x ∷ ys)) (key_of y) ≡ false =
          elim (Bool-cases (contains (map key_of (x ∷ ys)) (key_of y))) [
            | inr f ↦ f
            | inl c ↦ elim (Memᴰ.cases_cons (contains→mem (map key_of (x ∷ ys)) (key_of y) c)) [
              | inl p ↦ absurd (
                  true≢false
                    (sym (mem→contains (map key_of (y ∷ ys)) (key_of x) (Memᴰ.head (sym p))) ∙ new))
              | inr n ↦ absurd (true≢false (sym (mem→contains (map key_of ys) (key_of y) n) ∙ h.0))
            ]
          ] in
        let later : contains (map key_of ys) (key_of x) ≡ false =
          elim (Bool-cases (contains (map key_of ys) (key_of x))) [
            | inr f ↦ f
            | inl c ↦ absurd (
                true≢false (
                  sym (
                    mem→contains (map key_of (y ∷ ys)) (key_of x)
                      (Memᴰ.tail (contains→mem (map key_of ys) (key_of x) c)))
                  ∙ new))
          ] in
        rw t
          (contains-insert_sorted x ys (key_of y) ∙ apart, insert_sorted-AreDistinct x ys later h.1)
  ]

  contains-sort :
      (xs : List Service) (k : ObjectKey)
      → contains (map key_of (sort less xs)) k ≡ contains (map key_of xs) k
  unfolding sort
  contains-sort [] k = refl
  contains-sort (x ∷ xs) k =
      contains-insert_sorted x (sort less xs) k ∙ ground (arith, contains-sort xs k)

  sort-AreDistinct : (xs : List Service) → AreDistinct xs → AreDistinct (sort less xs)
  unfolding sort
  sort-AreDistinct [] h = h
  sort-AreDistinct (x ∷ xs) h =
      insert_sorted-AreDistinct x (sort less xs) (contains-sort xs (key_of x) ∙ h.0)
        (sort-AreDistinct xs h.1)

-- The dependencies of some services are those of more services.
Depends-within :
    (services more_services : List Service) {u v : ObjectKey}
    → ((svc : Service) → Memᴰ svc services → Memᴰ svc more_services)
    → Depends services u v
    → Depends more_services u v
Depends-within services more_services sub (direct svc d m n p q) = direct svc d (sub svc m) n p q
Depends-within services more_services sub (through a b) =
    through (Depends-within services more_services sub a)
      (Depends-within services more_services sub b)

single_member : (xs : List Service) {x y : Service} → length xs < 2 → Memᴰ x xs → Memᴰ y xs → x ≡ y
single_member [] few m n = elim m [ ]
single_member (z ∷ []) few m n = elim (Memᴰ.cases_cons m) [
  | inl p ↦ elim (Memᴰ.cases_cons n) [ inl q ↦ p ∙ sym q | inr o ↦ elim o [ ] ]
  | inr o ↦ elim o [ ]
]
single_member (z ∷ w ∷ zs) few m n = absurd (omega arith)

ranks_lt :
    (desired : List Service)
    → AreDistinct desired
    → ((k : ObjectKey) → ¬ Depends desired k k)
    → (svc : Service) (d : ServiceDependsOn) → Memᴰ svc desired
    → Memᴰ d svc.depends_on
    → Memᴰ (dependency_key d) (map key_of desired)
    → get_or (dependency_key d) (ranks desired) 0 < get_or (key_of svc) (ranks desired) 0
unfolding ranks sort_by_dependency
ranks_lt desired distinct acyclic svc d m n known =
    let sorted = sort (λ a b. key_less (key_of a) (key_of b)) desired in
    let same = λ (s : Service). mem-sort (λ a b. key_less (key_of a) (key_of b)) s desired in
    let (other, o, p) = Memᴰ.of_map key_of desired known in
    elim (Bool-cases (ltb (length sorted) 2)) [
      | inl few ↦
          let one_only =
            single_member sorted (ltb→lt (length sorted) 2 few) ((same svc).1 m)
              ((same other).1 o) in
          absurd (acyclic (key_of svc) (direct svc d m n refl (ap key_of one_only ∙ p)))
      | inr many ↦ rw many (
          rank_lt sorted (sort-AreDistinct (λ a b. key_less (key_of a) (key_of b)) desired distinct)
            (λ k w. acyclic k (Depends-within sorted desired (λ s q. (same s).0 q) w)) svc d
            ((same svc).1 m) n
            (subst (λ k. Memᴰ k (map key_of sorted)) p (Memᴰ.map key_of ((same other).1 o))))
    ]

Ascending-split :
    {A : Type 0} (weight : A → ℕ) (front : List A) (x y : A) (back : List A)
    → Ascending weight (front ++ x ∷ back)
    → Memᴰ y back
    → weight x ≤ weight y
Ascending-split weight [] x y back h m = All-mem (λ z. weight x ≤ weight z) back h.0 m
Ascending-split weight (z ∷ front) x y back h m = Ascending-split weight front x y back h.1 m

-- For desired services with distinct keys and no cycle of dependencies, BuildServicesList puts no
-- service in front of a service that it depends on, wherever that one is listed.
pub build_services_list-Respected :
    (stored filtered : List ServiceWithValues) (desired : List Service)
    → AreDistinct desired
    → ((k : ObjectKey) → ¬ Depends desired k k)
    → (svc : Service) (d : ServiceDependsOn) → Memᴰ svc desired
    → Memᴰ d svc.depends_on
    → Memᴰ (dependency_key d) (map key_of desired)
    → (front : List ServiceWithValues) (x y : ServiceWithValues) (back : List ServiceWithValues)
    → build_services_list stored filtered desired ≡ front ++ x ∷ back
    → stored_key x ≡ key_of svc
    → stored_key y ≡ dependency_key d
    → ¬ Memᴰ y back
build_services_list-Respected stored filtered desired distinct acyclic svc d m n known front x y
      back e p q o =
    let weight = rank_of (ranks desired) in
    let ascending = (build_services_list-Merged stored filtered desired).0 in
    let le = Ascending-split weight front x y back (subst (Ascending weight) e ascending) o in
    let lt = ranks_lt desired distinct acyclic svc d m n known in
    let lt' =
      subst (λ k. get_or (dependency_key d) (ranks desired) 0 < get_or k (ranks desired) 0) (sym p)
        lt in
    let lt'' =
      subst (λ k. get_or k (ranks desired) 0 < get_or (stored_key x) (ranks desired) 0) (sym q)
        lt' in
    omega arith
