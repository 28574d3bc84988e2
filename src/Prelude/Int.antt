-- ===== src/Prelude/Int.antt =====
-- A Go int that is counted down, over the native numbers.
use Prim.Native.Nat.{ℕ, zero, suc, ◌+◌, ◌≤◌}
use Prim.Native.Nat.add
use mathlib.Core.Path.{◌≡◌, refl, ap, ◌∙◌}
use mathlib.Core.Logic.{◌↔◌}
use mathlib.Core.Bool.{Bool, true, false}
use native.Mathlib.Omega.{arith}

-- `negsuc n` is -(n + 1).
pub data ℤ : Type 0 where
  pos : ℕ → ℤ
  negsuc : ℕ → ℤ

-- n--
abbrev pub decrement : ℤ → ℤ
decrement (pos zero) = negsuc 0
decrement (pos (suc n)) = pos n
decrement (negsuc n) = negsuc (suc n)

-- n <= 0
abbrev pub non_positive : ℤ → Bool
non_positive (pos zero) = true
non_positive (pos (suc n)) = false
non_positive (negsuc n) = true

-- So many decrements.
abbrev pub minus : ℤ → ℕ → ℤ
minus z zero = z
minus z (suc n) = minus (decrement z) n

pub minus-add : (z : ℤ) (m n : ℕ) → minus z (m + n) ≡ minus (minus z m) n
minus-add z zero n = ap (minus z) (add.zero n)
minus-add z (suc m) n = ap (minus z) (add.suc m n) ∙ minus-add (decrement z) m n

non_positive-negsuc : (k n : ℕ) → non_positive (minus (negsuc k) n) ≡ true
non_positive-negsuc k zero = refl
non_positive-negsuc k (suc n) = non_positive-negsuc (suc k) n

pub non_positive-minus : (a b : ℕ) → (non_positive (minus (pos a) b) ≡ true) ↔ (a ≤ b)
non_positive-minus zero zero = (λ _. omega arith, λ _. refl)
non_positive-minus zero (suc b) = (λ _. omega arith, λ _. non_positive-negsuc 0 b)
non_positive-minus (suc a) zero = (λ h. cc, λ h. absurd (omega arith))
non_positive-minus (suc a) (suc b) =
    let (l, r) = non_positive-minus a b in (λ h. omega (arith, l h), λ h. r (omega arith))
