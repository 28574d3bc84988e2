-- ===== src/Prelude/Results.antt =====
-- Calls that return a value or an error.
use Prim.Native.String.{String}
use mathlib.Core.Path.{◌≡◌, refl}
use mathlib.Core.Logic.{◌⊎◌, inl, inr}

-- A call that may fail.
pub data Resolved (A : Type 0) : Type 0 where
  ok : A → Resolved A
  error : String → Resolved A

infixl 5 ◌>>=◌
abbrev pub ◌>>=◌ : {A B : Type 0} → Resolved A → (A → Resolved B) → Resolved B
ok a >>= f = f a
error e >>= f = error e

module _ {A B : Type 0} where
  pub bind-congr :
      (a : Resolved A) {f g : A → Resolved B} → ((x : A) → f x ≡ g x) → (a >>= f) ≡ (a >>= g)
  bind-congr (ok x) h = h x
  bind-congr (error e) h = refl

  -- A chain that ends well did so at its first step.
  pub bind-ok :
      (a : Resolved A) {f : A → Resolved B} {y : B}
      → (a >>= f) ≡ ok y
      → (x : A) × (a ≡ ok x) × (f x ≡ ok y)
  bind-ok (ok x) h = (x, refl, h)
  bind-ok (error e) h = cc

  -- A chain fails at its first step or behind it.
  pub bind-error :
      (a : Resolved A) {f : A → Resolved B} {e : String}
      → (a >>= f) ≡ error e
      → (a ≡ error e) ⊎ ((x : A) × (a ≡ ok x) × (f x ≡ error e))
  bind-error (ok x) h = inr (x, refl, h)
  bind-error (error e) h = inl (cc h)

pub ok-injective : {A : Type 0} {a b : A} → ok a ≡ ok b → a ≡ b
ok-injective h = cc h
