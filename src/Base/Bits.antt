-- ===== src/Base/Bits.antt =====
-- `&` with a mask of low ones, and `|` of numbers with no bit in common, as arithmetic.
use Prim.Native.Nat.{
  ℕ, zero, suc, ◌+◌, ◌*◌, ◌/◌, ◌%◌, ◌^◌, ◌≤◌, ◌<◌, min, max, bit_and, bit_or, digits, bitwise,
  bit_and-bitwise, bit_or-bitwise,
}
use mathlib.Core.Path.{◌≡◌, refl, ap}
use native.Mathlib.Nat.{pow-suc}
use native.Mathlib.Omega.{arith}

-- Any fuel that covers the left number gives the same digits.
module _ (z : ℕ → ℕ) (op : ℕ → ℕ → ℕ) where
  same_digits : (k l a b : ℕ) → a ≤ k → a ≤ l → digits z op k a b ≡ digits z op l a b
  same_digits zero zero zero b p q = refl
  same_digits zero (suc l) zero b p q = refl
  same_digits (suc k) zero zero b p q = refl
  same_digits (suc k) (suc l) zero b p q = refl
  same_digits zero l (suc a) b p q = absurd (omega arith)
  same_digits (suc k) zero (suc a) b p q = absurd (omega arith)
  same_digits (suc k) (suc l) (suc a) b p q =
      ap (λ (t : ℕ). t * 2 + op (suc a % 2) (b % 2))
        (same_digits k l (suc a / 2) (b / 2) (omega arith) (omega arith))

  bitwise_low_digit :
      (a b : ℕ)
      → bitwise z op (suc a) b ≡ bitwise z op (suc a / 2) (b / 2) * 2 + op (suc a % 2) (b % 2)
  bitwise_low_digit a b =
      ap (λ (t : ℕ). t * 2 + op (suc a % 2) (b % 2))
        (same_digits a (suc a / 2) (suc a / 2) (b / 2) (omega arith) (omega arith))

or_low_digit : (a b : ℕ) → bit_or a b ≡ bit_or (a / 2) (b / 2) * 2 + max (a % 2) (b % 2)
or_low_digit zero b = simp bit_or-bitwise (omega arith)
or_low_digit (suc a) b = simp bit_or-bitwise (bitwise_low_digit (λ y. y) max a b)

and_low_digit : (a b : ℕ) → bit_and a b ≡ bit_and (a / 2) (b / 2) * 2 + min (a % 2) (b % 2)
and_low_digit zero b = simp bit_and-bitwise (omega arith)
and_low_digit (suc a) b = simp bit_and-bitwise (bitwise_low_digit (λ y. 0) min a b)

and-zero_fuel : (k a : ℕ) → a ≤ k → bit_and a 0 ≡ 0
and-zero_fuel k zero h = refl
and-zero_fuel zero (suc a) h = absurd (omega arith)
and-zero_fuel (suc k) (suc a) h =
    omega (arith, and_low_digit (suc a) 0, and-zero_fuel k (suc a / 2) (omega arith))

and-zero : (a : ℕ) → bit_and a 0 ≡ 0
and-zero a = and-zero_fuel a a (omega arith)

-- One low one of the mask takes one digit off.
and_mask_step : (m a : ℕ) → bit_and a (m * 2 + 1) ≡ bit_and (a / 2) m * 2 + a % 2
and_mask_step m a =
    let halved : (m * 2 + 1) / 2 ≡ m = omega arith in
    omega (arith, and_low_digit a (m * 2 + 1), ap (λ (t : ℕ). bit_and (a / 2) t) halved)

-- `v & 0xFF` is the low byte.
pub and_low_byte : (v : ℕ) → bit_and v 0xff ≡ v % 256
and_low_byte v = omega (
  arith,
  and_mask_step 127 v,
  and_mask_step 63 (v / 2),
  and_mask_step 31 (v / 2 / 2),
  and_mask_step 15 (v / 2 / 2 / 2),
  and_mask_step 7 (v / 2 / 2 / 2 / 2),
  and_mask_step 3 (v / 2 / 2 / 2 / 2 / 2),
  and_mask_step 1 (v / 2 / 2 / 2 / 2 / 2 / 2),
  and_mask_step 0 (v / 2 / 2 / 2 / 2 / 2 / 2 / 2),
  and-zero (v / 2 / 2 / 2 / 2 / 2 / 2 / 2 / 2),
)

zero-or : (b : ℕ) → bit_or 0 b ≡ b
zero-or b = bit_or-bitwise 0 b

-- `r | (q << k)` is a sum when `r` fits below bit `k`.
pub or_shifted : (k r q : ℕ) → r < 2 ^ k → bit_or r (q * 2 ^ k) ≡ r + q * 2 ^ k
or_shifted zero r q h = let none_left : r ≡ 0 = omega arith in rw (none_left, zero-or) (omega arith)
or_shifted (suc k) r q h =
    let doubled : q * 2 ^ suc k ≡ q * 2 ^ k * 2 =
      omega (arith, ap (λ (t : ℕ). q * t) (pow-suc 2 k)) in
    let halved : q * 2 ^ suc k / 2 ≡ q * 2 ^ k = omega (arith, doubled) in
    omega (
      arith,
      pow-suc 2 k,
      doubled,
      or_low_digit r (q * 2 ^ suc k),
      ap (λ (t : ℕ). bit_or (r / 2) t) halved,
      or_shifted k (r / 2) q (omega (arith, pow-suc 2 k)),
    )
