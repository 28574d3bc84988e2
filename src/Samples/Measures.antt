-- ===== src/Samples/Measures.antt =====
-- The buckets of the telemetry at concrete bounds.
use kcm.Prelude.{
  arith, ℕ, zero, suc, ◌≡◌, ◌≢◌, ◌⊎◌, ◌↔◌, refl, false, List, [], ◌∷◌, Memᴰ, some, String, ok,
  error,
}
use kcm.Telemetry.{
  bound_label, unit_bound_label, checked_bounds, bucket_of, bucketize, is_ascending, at_least,
  generate_bounds,
}
use kcm.Telemetry.Growth.{Grows, generate_bounds-Grows}
use kcm.Telemetry.Buckets.{
  without_zero, Labels, OneRange, bucketize-OneRange, bucketize-panics_iff, generated-buckets_total,
}

abbrev five : ℕ
five = 5

-- Prints the numbers that the labels below hold.
abbrev number : ℕ → String
number n = elim n [ zero ↦ "0" | suc m ↦ elim m [ zero ↦ "1" | suc k ↦ "many" ] ]

abbrev bounds : List ℕ
bounds = 2 ∷ 4 ∷ 8 ∷ []

generate_bounds-Grows_example :
    (b : List ℕ) × (generate_bounds 0 1 20 ≡ some b) × Grows (at_least 2 1) 20 (at_least 1 0) b
generate_bounds-Grows_example = generate_bounds-Grows 0 1 20 (omega arith)

-- The bounds of the CPUs stop at the cut, and 0 and 1 start at 1 and double.
generate_bounds_test :
    (generate_bounds 2 2 16 ≡ some (2 ∷ 4 ∷ 8 ∷ 16 ∷ []))
    × (generate_bounds 0 1 5 ≡ some (1 ∷ 2 ∷ 4 ∷ []))
unfolding generate_bounds
generate_bounds_test = (refl, refl)

bucketize-OneRange_example :
    (b : List ℕ) × (checked_bounds bounds ≡ ok b)
    × (b ≡ without_zero bounds)
    × ((five ≡ 0) → bucket_of "n:" (bound_label number) bounds five ≡ ok "")
    × ((five ≢ 0)
        → OneRange "n:"
            (bound_label number)
            b
            five
            (bucket_of "n:" (bound_label number) bounds five))
unfolding bucketize checked_bounds
bucketize-OneRange_example =
    bucketize-OneRange "n:" bounds (bound_label number) (bucket_of "n:" (bound_label number) bounds)
      five refl

bucketize-panics_iff_example :
    ((e : String) × (bucketize "n:" (4 ∷ 2 ∷ []) (bound_label number) ≡ error e))
    ↔ ((is_ascending (4 ∷ 2 ∷ []) ≡ false) ⊎ ((n : ℕ) → Memᴰ n (4 ∷ 2 ∷ []) → n ≡ 0))
bucketize-panics_iff_example = bucketize-panics_iff "n:" (4 ∷ 2 ∷ []) (bound_label number)

generated-buckets_total_example :
    (b : List ℕ) × (generate_bounds 2097152 2 17179869184 ≡ some b)
    × Labels "gpu:" (bound_label number) b
    × Labels "gpu:" (unit_bound_label number 1048576) b
generated-buckets_total_example =
    generated-buckets_total number "gpu:" 2097152 2 17179869184 1048576 (omega arith) (omega arith)
      (omega arith) (omega arith)
