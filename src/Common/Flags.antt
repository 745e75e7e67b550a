-- ===== src/Common/Flags.antt =====
-- A word as a set of flags: the bits of `flag | mask` and `flag & ~mask`.
use Prim.Native.Nat.{ℕ, zero, suc, ◌-◌, ◌/◌, ◌%◌, ◌^◌, ◌≤◌, ◌<◌, max, bit_and, bit_or}
use mathlib.Core.Path.{◌≡◌, refl, ap, ◌∙◌}
use native.Mathlib.Nat.{pow-succ'}
use native.Mathlib.Omega.{arith}
use flexpret.Common.Tests.{◌==◌, if◌then◌else◌}
use flexpret.Common.Bits.{or_low, and_low, bit_and-le}

-- Bit j of a number.
abbrev pub bit : ℕ → ℕ → ℕ
bit zero a = a % 2
bit (suc j) a = bit j (a / 2)

pub bit-small : (j a : ℕ) → bit j a < 2
bit-small zero a = omega arith
bit-small (suc j) a = bit-small j (a / 2)

or_half : (a b : ℕ) → bit_or a b / 2 ≡ bit_or (a / 2) (b / 2)
or_half a b = omega (arith, or_low a b)

clear_half : (a b : ℕ) → (a - bit_and a b) / 2 ≡ a / 2 - bit_and (a / 2) (b / 2)
clear_half a b = omega (arith, and_low a b, bit_and-le (a / 2) (a / 2) (b / 2) (omega arith))

pub bit-or : (j a b : ℕ) → bit j (bit_or a b) ≡ max (bit j a) (bit j b)
bit-or zero a b = omega (arith, or_low a b)
bit-or (suc j) a b = ap (bit j) (or_half a b) ∙ bit-or j (a / 2) (b / 2)

-- a & ~b, written as a - (a & b)
pub bit-clear : (j a b : ℕ) → bit j (a - bit_and a b) ≡ bit j a - bit j b
bit-clear zero a b = omega (arith, and_low a b, bit_and-le (a / 2) (a / 2) (b / 2) (omega arith))
bit-clear (suc j) a b = ap (bit j) (clear_half a b) ∙ bit-clear j (a / 2) (b / 2)

half_power : (k : ℕ) → 2 ^ suc k / 2 ≡ 2 ^ k
half_power k = omega (arith, pow-succ' 2 k)

bit_zero : (j : ℕ) → bit j 0 ≡ 0
bit_zero zero = refl
bit_zero (suc j) = bit_zero j

pub bit-power : (j k : ℕ) → bit j (2 ^ k) ≡ (if j == k then 1 else 0)
bit-power zero zero = refl
bit-power zero (suc k) = ground (arith, pow-succ' 2 k)
bit-power (suc j) zero = ground (arith, bit_zero j)
bit-power (suc j) (suc k) = ap (bit j) (half_power k) ∙ bit-power j k ∙ ground arith

-- A number without bits is 0.
pub no_bits : (n a : ℕ) → a ≤ n → ((j : ℕ) → bit j a ≡ 0) → a ≡ 0
no_bits zero a h b = omega arith
no_bits (suc n) a h b = omega (arith, b 0, no_bits n (a / 2) (omega (arith, b 0)) (λ j. b (suc j)))
