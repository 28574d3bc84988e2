-- ===== src/Prelude/Keys.antt =====
-- Types with a decided equality: strings, numbers and the key of an object in the API server.
use Prim.Native.Nat.{ℕ, Ordering, compare as compare_ℕ}
use Prim.Native.String.{String, compare, ◌++◌ as append_string}
use mathlib.Core.Path.{◌≡◌, refl, sym, ◌∙◌}
use mathlib.Core.Logic.{◌≢◌, ◌↔◌, ◌⊎◌, inl, inr}
use mathlib.Core.Bool.{Bool, true, false, ◌&&◌, true≢false}
use native.Mathlib.Omega.{arith}
use text.Mathlib.Text.{◌==◌ as str_eq, is_lt}
use text.Mathlib.TextEquality.{eq_iff}
use kcm.Prelude.Tests.{Bool-cases}

-- client.ObjectKey
pub record ObjectKey : Type 0 where
  pub namespace : String
  pub name : String

-- A Boolean test that decides equality.
pub record Eq {ℓ} (A : Type ℓ) : Type ℓ where
  pub beq : A → A → Bool
  pub beq_iff : (a b : A) → (beq a b ≡ true) ↔ (a ≡ b)

abbrev pub nat_beq : ℕ → ℕ → Bool
nat_beq a b = elim (compare_ℕ a b) [ Ordering.eq ↦ true | _ ↦ false ]

pub nat_beq_iff : (a b : ℕ) → (nat_beq a b ≡ true) ↔ (a ≡ b)
nat_beq_iff a b = ground arith

instance abbrev pub string_eq : Eq String
string_eq = record { beq = str_eq; beq_iff = eq_iff }

abbrev pub append_str : String → String → String
append_str s t = append_string s t

instance abbrev pub nat_eq : Eq ℕ
nat_eq = record { beq = nat_beq; beq_iff = nat_beq_iff }

-- The order of Go's strings, byte by byte.
abbrev pub str_compare_lt : String → String → Bool
str_compare_lt s t = is_lt (compare s t)

infix 50 ◌==◌
abbrev pub ◌==◌ {ℓ} : {A : Type ℓ} ⦃e : Eq A⦄ → A → A → Bool
◌==◌ ⦃e⦄ = e.beq

module _ {ℓ} {A : Type ℓ} ⦃e : Eq A⦄ where
  -- A test for equality, with what it says.
  pub Eq-cases : (a b : A) → ((a ≡ b) × ((a == b) ≡ true)) ⊎ ((a ≢ b) × ((a == b) ≡ false))
  Eq-cases a b = elim (Bool-cases (a == b)) [
    | inl same ↦ inl ((e.beq_iff a b).0 same, same)
    | inr other ↦ inr (λ p. true≢false (sym ((e.beq_iff a b).1 p) ∙ other), other)
  ]

  pub beq_refl : (a : A) → (a == a) ≡ true
  beq_refl a = (e.beq_iff a a).1 refl

unfoldable pub key_beq : ObjectKey → ObjectKey → Bool
key_beq k j = str_eq k.namespace j.namespace && str_eq k.name j.name

pub key_beq_iff : (k j : ObjectKey) → (key_beq k j ≡ true) ↔ (k ≡ j)
unfolding key_beq
key_beq_iff k j = (
  ground (arith, eq_iff k.namespace j.namespace, eq_iff k.name j.name),
  λ p. ground (arith, eq_iff k.namespace j.namespace, eq_iff k.name j.name),
)

instance abbrev pub key_eq : Eq ObjectKey
key_eq = record { beq = key_beq; beq_iff = key_beq_iff }
