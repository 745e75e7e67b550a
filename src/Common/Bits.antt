-- ===== src/Common/Bits.antt =====
-- `|` and `&` on words, two binary digits at a time: what `csrrs` and `csrrc` do to a register of
-- fields of two bits.
use Prim.Native.Nat.{
  ℕ, zero, suc, ◌+◌, ◌-◌, ◌*◌, ◌/◌, ◌%◌, ◌^◌, ◌≤◌, min, max, bit_and, bit_or, digits, bitwise,
  bit_and-bitwise, bit_or-bitwise,
}
use mathlib.Core.Path.{◌≡◌, refl}
use native.Mathlib.Nat.{pow-succ'}
use native.Mathlib.Numerals.{towards_suc}
use native.Mathlib.Omega.{arith}

-- The native operations are a recursion on binary digits; any fuel from the first number on will do.
module _ (stop : ℕ → ℕ) (f : ℕ → ℕ → ℕ) where
  digits_any_fuel : (n m a b : ℕ) → a ≤ n → a ≤ m → digits stop f n a b ≡ digits stop f m a b
  digits_any_fuel zero zero a b p q = refl
  digits_any_fuel zero (suc m) zero b p q = refl
  digits_any_fuel zero (suc m) (suc a) b p q = absurd (omega arith)
  digits_any_fuel (suc n) zero zero b p q = refl
  digits_any_fuel (suc n) zero (suc a) b p q = absurd (omega arith)
  digits_any_fuel (suc n) (suc m) zero b p q = refl
  digits_any_fuel (suc n) (suc m) (suc a) b p q =
      rw (digits_any_fuel n m (suc a / 2) (b / 2) (omega arith) (omega arith))

  bitwise_low :
      (a b : ℕ)
      → bitwise stop f (suc a) b ≡ bitwise stop f (suc a / 2) (b / 2) * 2 + f (suc a % 2) (b % 2)
  bitwise_low a b =
      omega (arith, digits_any_fuel a (suc a / 2) (suc a / 2) (b / 2) (omega arith) (omega arith))

pub or_low : (a b : ℕ) → bit_or a b ≡ bit_or (a / 2) (b / 2) * 2 + max (a % 2) (b % 2)
or_low zero b = simp bit_or-bitwise (omega arith)
or_low (suc a) b = simp bit_or-bitwise (bitwise_low (λ y. y) max a b)

pub and_low : (a b : ℕ) → bit_and a b ≡ bit_and (a / 2) (b / 2) * 2 + min (a % 2) (b % 2)
and_low zero b = simp bit_and-bitwise (omega arith)
and_low (suc a) b = simp bit_and-bitwise (bitwise_low (λ y. 0) min a b)

or_zero : (n a : ℕ) → a ≤ n → bit_or a 0 ≡ a
or_zero n zero h = refl
or_zero zero (suc a) h = absurd (omega arith)
or_zero (suc n) (suc a) h = omega (arith, or_low (suc a) 0, or_zero n (suc a / 2) (omega arith))

and_zero : (n a : ℕ) → a ≤ n → bit_and a 0 ≡ 0
and_zero n zero h = refl
and_zero zero (suc a) h = absurd (omega arith)
and_zero (suc n) (suc a) h = omega (arith, and_low (suc a) 0, and_zero n (suc a / 2) (omega arith))

pub bit_and-le : (n a b : ℕ) → a ≤ n → bit_and a b ≤ a
bit_and-le n zero b h = simp bit_and-bitwise (omega arith)
bit_and-le zero (suc a) b h = absurd (omega arith)
bit_and-le (suc n) (suc a) b h =
    omega (arith, and_low (suc a) b, bit_and-le n (suc a / 2) (b / 2) (omega arith))

-- The two lowest bits, and all above them.
pub bit_or_quad : (a m : ℕ) → bit_or a (m * 4) ≡ bit_or (a / 4) m * 4 + a % 4
bit_or_quad a m =
    let e : m * 4 / 2 ≡ m * 2 = omega arith in
    let f : m * 2 / 2 ≡ m = omega arith in
    let g : a / 2 / 2 ≡ a / 4 = omega arith in
    rw (or_low a (m * 4), e, or_low (a / 2) (m * 2), f, g) (omega arith)

bit_and_quad : (a m : ℕ) → bit_and a (m * 4) ≡ bit_and (a / 4) m * 4
bit_and_quad a m =
    let e : m * 4 / 2 ≡ m * 2 = omega arith in
    let f : m * 2 / 2 ≡ m = omega arith in
    let g : a / 2 / 2 ≡ a / 4 = omega arith in
    rw (and_low a (m * 4), e, and_low (a / 2) (m * 2), f, g) (omega arith)

pub clear_quad : (a m : ℕ) → a - bit_and a (m * 4) ≡ (a / 4 - bit_and (a / 4) m) * 4 + a % 4
clear_quad a m = omega (arith, bit_and_quad a m, bit_and-le (a / 4) (a / 4) m (omega arith))

pub bit_or_one : (a : ℕ) → bit_or a 1 ≡ a / 2 * 2 + 1
bit_or_one a = omega (arith, or_low a 1, or_zero (a / 2) (a / 2))

pub bit_or_two : (a : ℕ) → bit_or a 2 ≡ a / 4 * 4 + 2 + a % 2
bit_or_two a = omega (arith, or_low a 2, bit_or_one (a / 2))

pub bit_and_one : (a : ℕ) → bit_and a 1 ≡ a % 2
bit_and_one a = omega (arith, and_low a 1, and_zero (a / 2) (a / 2))

pub bit_and_two : (a : ℕ) → bit_and a 2 ≡ a / 2 % 2 * 2
bit_and_two a = omega (arith, and_low a 2, bit_and_one (a / 2))

-- Masks of one bit, two positions further up.
pub pow_two_up : (k : ℕ) → 2 ^ (k + 2) ≡ 2 ^ k * 4
pow_two_up k = simp towards_suc (omega (arith, pow-succ' 2 (suc k), pow-succ' 2 k))
