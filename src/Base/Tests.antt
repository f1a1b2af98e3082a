-- ===== src/Base/Tests.antt =====
-- Boolean tests on the native numbers, the conditional, and decisions.
use Prim.Native.Nat.{ℕ, ◌≤◌, ◌<◌, compare, Ordering}
use mathlib.Core.Path.{◌≡◌, refl}
use mathlib.Core.Logic.{◌↔◌, ◌⊎◌, inl, inr}
use mathlib.Core.Bool.{Bool, true, false}
use native.Mathlib.Omega.{arith}

abbrev pub ltb : ℕ → ℕ → Bool
ltb a b = elim (compare a b) [ Ordering.lt ↦ true | _ ↦ false ]

infix 50 ◌==◌
abbrev pub ◌==◌ : ℕ → ℕ → Bool
a == b = elim (compare a b) [ Ordering.eq ↦ true | _ ↦ false ]

infix 1 if◌then◌else◌
abbrev pub if◌then◌else◌ {ℓ} : {A : Type ℓ} → Bool → A → A → A
if true then x else y = x
if false then x else y = y

pub lt→ltb : (a b : ℕ) → a < b → ltb a b ≡ true
lt→ltb a b h = ground arith

pub le→ltb_false : (a b : ℕ) → b ≤ a → ltb a b ≡ false
le→ltb_false a b h = ground arith

pub ==_refl : (a : ℕ) → (a == a) ≡ true
==_refl a = ground arith

pub ==_iff : (a b : ℕ) → ((a == b) ≡ true) ↔ (a ≡ b)
==_iff a b = ground arith

pub lt_of_not_le : (a b : ℕ) → ¬ (b ≤ a) → a < b
lt_of_not_le a b h = omega arith

-- To split on a computed value and keep the equation.
pub Bool-cases : (b : Bool) → (b ≡ true) ⊎ (b ≡ false)
Bool-cases true = inl refl
Bool-cases false = inr refl

pub dec_both : {A B : Type 0} → Dec A → Dec B → Dec (A × B)
dec_both (yes a) (yes b) = yes (a, b)
dec_both (yes a) (no b) = no (λ p. b p.1)
dec_both (no a) _ = no (λ p. a p.0)

pub dec_three : {A B C : Type 0} → Dec A → Dec B → Dec C → Dec (A × B × C)
dec_three (yes a) (yes b) (yes c) = yes (a, b, c)
dec_three (yes a) (yes b) (no c) = no (λ p. c p.2)
dec_three (yes a) (no b) _ = no (λ p. b p.1)
dec_three (no a) _ _ = no (λ p. a p.0)
