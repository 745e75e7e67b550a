-- ===== src/Strings/Digits.antt =====
-- itoa_hex writes the eight hexadecimal digits of a word.
use native.Mathlib.Decide.{dec_lt}
use native.Mathlib.Nat.{pow-succ'}
use flexpret.Common.{
  ℕ, zero, suc, ◌+◌, ◌-◌, ◌*◌, ◌/◌, ◌%◌, ◌^◌, ◌<◌, ◌≤◌, ◌≡◌, ◌⊎◌, inr, refl, ap, ◌∙◌, ltb,
  if◌then◌else◌, update, arith,
}
use flexpret.State.{Ctx}
use flexpret.Strings.{Memory}
use flexpret.Strings.Hex.{row, digit, digits, itoa_hex}

-- A hexadecimal digit, with capital letters.
abbrev pub IsHex : ℕ → Type 0
IsHex ch = ((48 ≤ ch) × (ch < 58)) ⊎ ((65 ≤ ch) × (ch < 71))

-- The number that a hexadecimal digit stands for.
abbrev pub digit_value : ℕ → ℕ
digit_value ch = if ltb ch 58 then ch - 48 else ch - 55

-- The number that `k` hexadecimal digits from `a` on stand for.
abbrev pub hex_value : Memory → ℕ → ℕ → ℕ
hex_value m a zero = 0
hex_value m a (suc k) = hex_value m a k * 16 + digit_value (m (a + k))

digit-IsHex : (n : ℕ) → IsHex (digit n)
digit-IsHex n = ground arith

digit_value-digit : (n : ℕ) → digit_value (digit n) ≡ n % 16
digit_value-digit n = ground arith

pub digits-outside :
    (i buf n : ℕ) (m : Memory) (a : ℕ) → (a < buf) ⊎ (buf + i ≤ a) → digits i buf n m a ≡ m a
unfolding digits
digits-outside zero buf n m a h = refl
digits-outside (suc i) buf n m a h =
    ground (arith, digits-outside i buf (n / 16) (update m (buf + i) (digit n)) a)

digits-last : (i buf n : ℕ) (m : Memory) → digits (suc i) buf n m (buf + i) ≡ digit n
unfolding digits
digits-last i buf n m =
    digits-outside i buf (n / 16) (update m (buf + i) (digit n)) (buf + i) (inr (omega arith))
    ∙ ground arith

pub digits-IsHex : (i buf n : ℕ) (m : Memory) (k : ℕ) → k < i → IsHex (digits i buf n m (buf + k))
unfolding digits
digits-IsHex zero buf n m k h = absurd (omega arith)
digits-IsHex (suc i) buf n m k h = elim (dec_lt k i) [
  | yes lower ↦ digits-IsHex i buf (n / 16) (update m (buf + i) (digit n)) k lower
  | no last ↦ let e : k ≡ i = omega arith in rw (e, digits-last i buf n m) (digit-IsHex n)
]

pub hex_value-digits :
    (i buf n : ℕ) (m : Memory) → n < 16 ^ i → hex_value (digits i buf n m) buf i ≡ n
unfolding digits
hex_value-digits zero buf n m h = omega arith
hex_value-digits (suc i) buf n m h =
    let small : n / 16 < 16 ^ i = omega (arith, pow-succ' 16 i) in
    let high = hex_value-digits i buf (n / 16) (update m (buf + i) (digit n)) small in
    let low = ap digit_value (digits-last i buf n m) ∙ digit_value-digit n in
    omega (arith, high, low)

-- The digits alone count.
hex_value-same :
    (m m' : Memory) (a k : ℕ)
    → ((j : ℕ) → j < k → m' (a + j) ≡ m (a + j))
    → hex_value m' a k ≡ hex_value m a k
hex_value-same m m' a zero h = refl
hex_value-same m m' a (suc k) h =
    let low = ap digit_value (h k (omega arith)) in
    omega (arith, hex_value-same m m' a k (λ j p. h j (omega arith)), low)

-- The text of `k` hexadecimal digits at `a`.
pub record IsHexText (m : Memory) (a k : ℕ) : Type 0 where
  pub hex : (j : ℕ) → j < k → IsHex (m (a + j))
  pub end : m (a + k) ≡ 0

module _ (buf n : ℕ) (m : Memory) (word : n < 2 ^ 32) where
  -- The buffer after the loop and the terminating zero.
  abbrev pub written : Memory
  written = update (digits 8 buf n m) (buf + 8) 0

  pub written-IsHexText : IsHexText written buf 8
  written-IsHexText = record {
    hex = λ j h. ground (arith, digits-IsHex 8 buf n m j h);
    end = ground arith;
  }

  pub written-value : hex_value written buf 8 ≡ n
  written-value =
      hex_value-same (digits 8 buf n m) written buf 8 (λ j h. ground arith)
      ∙ hex_value-digits 8 buf n m (omega arith)

  pub written-outside : (a : ℕ) → (a < buf) ⊎ (buf + 9 ≤ a) → written a ≡ m a
  written-outside a h = ground (arith, digits-outside 8 buf n m a)

-- itoa_hex of a 32-bit word answers the hart's own buffer, which then holds eight hexadecimal digits and
-- a zero; the digits stand for the word, and no byte outside of that buffer is written.
pub itoa_hex-value :
    (c : Ctx) (qbuf n : ℕ) (m : Memory)
    → n < 2 ^ 32
    → ((itoa_hex c qbuf n m).0 ≡ row c qbuf)
      × IsHexText (itoa_hex c qbuf n m).1 (row c qbuf) 8
      × (hex_value (itoa_hex c qbuf n m).1 (row c qbuf) 8 ≡ n)
      × ((a : ℕ) → (a < row c qbuf) ⊎ (row c qbuf + 9 ≤ a) → (itoa_hex c qbuf n m).1 a ≡ m a)
unfolding itoa_hex
itoa_hex-value c qbuf n m h =
    let buf = row c qbuf in
    (refl, written-IsHexText buf n m h, written-value buf n m h, written-outside buf n m h)
