-- ===== src/Services/Filter/Fixpoint.antt =====
-- The fixpoint of `FilterServiceDependencies` ends, in the largest set of keys below the given one
-- that holds the dependencies of its members.
use mathlib.Core.List.Memᴰ
use kcm.Prelude.{
  ℕ, zero, suc, ◌≤◌, ◌<◌, ◌≡◌, refl, sym, ◌∙◌, ap, subst, inl, inr, Bool, true, false, true≢false,
  not, List, [], ◌∷◌, Memᴰ, some, Bool-cases, length, all, all→mem, mem→all, length-filter_by-le,
  contains_of_remove, contains-remove, length-remove-lt, arith, ObjectKey, key_eq, ◌==◌, contains,
  contains→mem, mem→contains, remove, IsNodup, filter_by-IsNodup,
}
use kcm.Services.Filter.{sweep, settle}

module _ (deps : ObjectKey → List ObjectKey) where
  -- A set that holds the dependencies of its members.
  abbrev pub IsClosed : List ObjectKey → Type 0
  IsClosed set = (k d : ObjectKey) → contains set k ≡ true → Memᴰ d (deps k) → contains set d ≡ true

  abbrev Sub : List ObjectKey → List ObjectKey → Type 0
  Sub xs ys = (k : ObjectKey) → contains xs k ≡ true → contains ys k ≡ true

  -- What a round does from `set`, over the keys `ks`.
  record Swept (set ks : List ObjectKey) (r : List ObjectKey × Bool) : Type 0 where
    within : Sub r.0 set
    nodup : IsNodup set → IsNodup r.0
    keeps : (S : List ObjectKey) → IsClosed S → Sub S set → Sub S r.0
    unchanged : r.1 ≡ false → r.0 ≡ set
    fine : r.1 ≡ false → (k : ObjectKey) → Memᴰ k ks → all (contains set) (deps k) ≡ true
    smaller : length r.0 ≤ length set
    fewer :
        r.1 ≡ true → ((k : ObjectKey) → Memᴰ k ks → contains set k ≡ true) → length r.0 < length set

  sweep_kept :
      (k : ObjectKey) (ks set : List ObjectKey) {r : List ObjectKey × Bool}
      → all (contains set) (deps k) ≡ true
      → Swept set ks r
      → Swept set (k ∷ ks) (r.0, r.1)
  sweep_kept k ks set stays s = record {
    within = s.within;
    nodup = s.nodup;
    keeps = s.keeps;
    unchanged = s.unchanged;
    fine = λ h j m. elim (Memᴰ.cases_cons m) [
      | inl e ↦ subst (λ x. all (contains set) (deps x) ≡ true) (sym e) stays
      | inr n ↦ s.fine h j n
    ];
    smaller = s.smaller;
    fewer = λ h sub. s.fewer h (λ j m. sub j (Memᴰ.tail m));
  }

  sweep_dropped :
      (k : ObjectKey) (ks set : List ObjectKey) {r : List ObjectKey × Bool}
      → all (contains set) (deps k) ≡ false
      → Swept (remove k set) ks r
      → Swept set (k ∷ ks) (r.0, true)
  sweep_dropped k ks set goes s = record {
    within = λ j m. contains_of_remove k set j (s.within j m);
    nodup = λ n. s.nodup (filter_by-IsNodup (λ x. not (x == k)) set n);
    keeps = λ S c sub. s.keeps S c (λ j m. contains-remove k set j (sub j m) (λ same. true≢false (
        sym (
          mem→all (contains set) (deps k)
            (λ d n. sub d (c k d (subst (λ x. contains S x ≡ true) same m) n)))
        ∙ goes)));
    unchanged = λ h. absurd (true≢false h);
    fine = λ h. absurd (true≢false h);
    smaller = omega (arith, s.smaller, length-filter_by-le (λ x. not (x == k)) set);
    fewer = λ h sub. omega (arith, s.smaller, length-remove-lt k set (sub k (Memᴰ.head refl)));
  }

  sweep-Swept : (ks set : List ObjectKey) → Swept set ks (sweep deps ks set)
  unfolding sweep
  sweep-Swept [] set = record {
    within = λ k h. h;
    nodup = λ h. h;
    keeps = λ S c h. h;
    unchanged = λ h. refl;
    fine = λ h k m. elim m [ ];
    smaller = omega arith;
    fewer = λ h. absurd (true≢false (sym h));
  }
  sweep-Swept (k ∷ ks) set = elim (Bool-cases (all (contains set) (deps k))) [
    | inl stays ↦ rw stays (sweep_kept k ks set stays (sweep-Swept ks set))
    | inr goes ↦ rw goes (sweep_dropped k ks set goes (sweep-Swept ks (remove k set)))
  ]

  -- The rounds end with a closed set, the largest one in the given set.
  pub record Settled (set r : List ObjectKey) : Type 0 where
    pub within : (k : ObjectKey) → contains r k ≡ true → contains set k ≡ true
    pub nodup : IsNodup set → IsNodup r
    pub closed : IsClosed r
    pub largest :
        (S : List ObjectKey)
        → IsClosed S
        → ((k : ObjectKey) → contains S k ≡ true → contains set k ≡ true)
        → (k : ObjectKey) → contains S k ≡ true
        → contains r k ≡ true

  pub settle-Settled :
      (fuel : ℕ) (set : List ObjectKey)
      → length set < fuel
      → (r : List ObjectKey) × (settle deps fuel set ≡ some r) × Settled set r
  unfolding settle
  settle-Settled zero set h = absurd (omega arith)
  settle-Settled (suc fuel) set h =
      let done = sweep-Swept set set in
      elim (Bool-cases (sweep deps set set).1) [
        | inl dropped ↦
            let less = done.fewer dropped (λ k m. mem→contains set k m) in
            let (r, e, s) = settle-Settled fuel (sweep deps set set).0 (omega arith) in
            (
              r,
              rw dropped e,
              record {
                within = λ k m. done.within k (s.within k m);
                nodup = λ n. s.nodup (done.nodup n);
                closed = s.closed;
                largest = λ S c sub. s.largest S c (done.keeps S c sub);
              },
            )
        | inr stable ↦ (
          set,
          rw stable (ap some (done.unchanged stable)),
          record {
            within = λ k m. m;
            nodup = λ n. n;
            closed = λ k d m n.
                all→mem (contains set) (deps k) (done.fine stable k (contains→mem set k m)) n;
            largest = λ S c sub. sub;
          },
        )
      ]
