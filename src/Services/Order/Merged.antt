-- ===== src/Services/Order/Merged.antt =====
-- What a written ServiceSet lists: `BuildServicesList`, internal/serviceset/util.go.
use mathlib.Core.List.Memᴰ
use kcm.Prelude.{
  Ascending, mem-sort, sort-Ascending, lighter, ◌⊎◌, inl, inr, ◌↔◌, List, ◌++◌, map, Memᴰ,
  Bool-cases, arith, key_eq, mem-filter_by, filter_by-mem, contains, contains→mem, mem→contains,
  not-mem_of_contains,
}
use kcm.Api.{Service, ServiceWithValues}
use kcm.Services.Keys.{key_of, stored_key}
use kcm.Services.Order.{locked, ranks, rank_of, build_services_list}

mem-locked :
    (stored filtered : List ServiceWithValues) (desired : List Service) (svc : ServiceWithValues)
    → Memᴰ svc (locked stored filtered desired) ↔ (
        Memᴰ svc stored
        × Memᴰ (stored_key svc) (map key_of desired)
        × ¬ Memᴰ (stored_key svc) (map stored_key filtered))
unfolding locked
mem-locked stored filtered desired svc = (
  λ m.
      let (n, t) = mem-filter_by _ stored m in
      (
        n,
        contains→mem (map key_of desired) (stored_key svc) (ground arith),
        not-mem_of_contains (map stored_key filtered) (stored_key svc) (ground arith),
      ),
  λ (n, wanted, uncovered).
      let t = mem→contains (map key_of desired) (stored_key svc) wanted in
      filter_by-mem _ stored n
        (elim (Bool-cases (contains (map stored_key filtered) (stored_key svc))) [
          | inl c ↦ absurd (uncovered (contains→mem (map stored_key filtered) (stored_key svc) c))
          | inr f ↦ rw (t, f)
        ]),
)

-- BuildServicesList lists, by ascending rank in the order by dependency, exactly the filtered
-- services and those stored ones that are still desired and have a key that no filtered service
-- has.
pub build_services_list-Merged :
    (stored filtered : List ServiceWithValues) (desired : List Service)
    → Ascending (rank_of (ranks desired)) (build_services_list stored filtered desired)
      × ((svc : ServiceWithValues)
          → Memᴰ svc (build_services_list stored filtered desired) ↔ (
              Memᴰ svc filtered
              ⊎ (Memᴰ svc stored
                  × Memᴰ (stored_key svc) (map key_of desired)
                  × ¬ Memᴰ (stored_key svc) (map stored_key filtered))))
unfolding build_services_list
build_services_list-Merged stored filtered desired = (
  sort-Ascending (rank_of (ranks desired)) (filtered ++ locked stored filtered desired),
  λ svc.
      let both =
        mem-sort (lighter (rank_of (ranks desired))) svc
          (filtered ++ locked stored filtered desired) in
      let kept = mem-locked stored filtered desired svc in
      (
        λ m. elim (Memᴰ.append_cases filtered (both.0 m)) [
          | inl n ↦ inl n
          | inr o ↦ inr (kept.0 o)
        ],
        λ h. both.1 (elim h [
          | inl n ↦ Memᴰ.append_left _ n
          | inr o ↦ Memᴰ.append_right filtered (kept.1 o)
        ]),
      ),
)
