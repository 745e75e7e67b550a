-- ===== src/Strings/Short.antt =====
-- itoa_hex_removing_ldz answers the text of a word without leading zeros.
use flexpret.Common.{
  ℕ, zero, suc, ◌+◌, ◌-◌, ◌/◌, update, ◌^◌, ◌<◌, ◌≤◌, ◌≡◌, ◌≢◌, ◌⊎◌, inl, inr, refl, sym, ap, ◌∙◌,
  Bool-cases, ◌==◌, arith,
}
use mathlib.Core.Path.{subst}
use native.Mathlib.Decide.{dec_lt}
use flexpret.State.{Ctx}
use flexpret.Strings.{Memory}
use flexpret.Strings.Hex.{row, digit, digits, skip_zeros, itoa_hex_removing_ldz}
use flexpret.Strings.Digits.{
  digits-outside, hex_value, digit_value, IsHex, IsHexText, written, written-IsHexText,
  written-value, written-outside,
}

-- Where the loop stops: before it are zeros, at it is none, unless it is the last index.
record Skips (left i buf : ℕ) (m : Memory) (r : ℕ) : Type 0 where
  low : i ≤ r
  high : r ≤ i + left
  zeros : (j : ℕ) → i ≤ j → j < r → m (buf + j) ≡ 48
  stop : (r ≡ i + left) ⊎ (m (buf + r) ≢ 48)

skip_zeros-Skips : (left i buf : ℕ) (m : Memory) → Skips left i buf m (skip_zeros left i buf m)
unfolding skip_zeros
skip_zeros-Skips zero i buf m = record {
  low = omega arith;
  high = omega arith;
  zeros = λ j p q. absurd (omega arith);
  stop = inl (omega arith);
}
skip_zeros-Skips (suc left) i buf m = elim (Bool-cases (m (buf + i) == 48)) [
  | inr other ↦ rw other (record {
    low = omega arith;
    high = omega arith;
    zeros = λ j p q. absurd (omega arith);
    stop = inr (λ e. ground arith);
  })
  | inl here ↦
      let r = skip_zeros-Skips left (i + 1) buf m in
      let e : m (buf + i) ≡ 48 = ground arith in
      rw here (record {
        low = omega (arith, r.low);
        high = omega (arith, r.high);
        zeros = λ j p q. elim (dec_lt i j) [
          | yes later ↦ r.zeros j (omega arith) q
          | no now ↦ let f : j ≡ i = omega arith in rw f e
        ];
        stop = elim r.stop [ inl f ↦ inl (omega arith) | inr n ↦ inr n ];
      })
]

module _ (m : Memory) (buf : ℕ) where
  zeros-value : (r : ℕ) → ((j : ℕ) → j < r → m (buf + j) ≡ 48) → hex_value m buf r ≡ 0
  zeros-value zero h = refl
  zeros-value (suc r) h =
      let low = ap digit_value (h r (omega arith)) in
      omega (arith, zeros-value r (λ j p. h j (omega arith)), low)

  -- Leading zeros do not change the value.
  without_zeros :
      (r k : ℕ)
      → ((j : ℕ) → j < r → m (buf + j) ≡ 48)
      → hex_value m (buf + r) k ≡ hex_value m buf (r + k)
  without_zeros r zero h =
      let e : r ≡ r + 0 = omega arith in sym (zeros-value r h) ∙ ap (hex_value m buf) e
  without_zeros r (suc k) h =
      let e : suc (r + k) ≡ r + suc k = omega arith in
      let at : buf + r + k ≡ buf + (r + k) = omega arith in
      let low : digit_value (m (buf + r + k)) ≡ digit_value (m (buf + (r + k))) =
        ap (λ a. digit_value (m a)) at in
      omega (arith, without_zeros r k h, low) ∙ ap (hex_value m buf) e

-- itoa_hex_removing_ldz of a 32-bit word answers a place in the hart's own buffer, at most seven
-- characters from its start. There stands a text of hexadecimal digits that ends where the buffer does
-- and stands for the word; its first digit is not 0, unless it is the only one. No byte outside of the
-- buffer is written.
pub itoa_hex_removing_ldz-value :
    (c : Ctx) (qbuf n : ℕ) (m : Memory)
    → n < 2 ^ 32
    → (i : ℕ) × (i ≤ 7)
      × ((itoa_hex_removing_ldz c qbuf n m).0 ≡ row c qbuf + i)
      × IsHexText (itoa_hex_removing_ldz c qbuf n m).1 (row c qbuf + i) (8 - i)
      × (hex_value (itoa_hex_removing_ldz c qbuf n m).1 (row c qbuf + i) (8 - i) ≡ n)
      × ((i ≡ 7) ⊎ ((itoa_hex_removing_ldz c qbuf n m).1 (row c qbuf + i) ≢ 48))
      × ((a : ℕ)
          → (a < row c qbuf) ⊎ (row c qbuf + 9 ≤ a)
          → (itoa_hex_removing_ldz c qbuf n m).1 a ≡ m a)
unfolding itoa_hex_removing_ldz
itoa_hex_removing_ldz-value c qbuf n m h =
    let buf = row c qbuf in
    let w = written buf n m h in
    let i = skip_zeros 7 0 buf w in
    let s = skip_zeros-Skips 7 0 buf w in
    let t = written-IsHexText buf n m h in
    let total : i + (8 - i) ≡ 8 = omega (arith, s.high) in
    (
      i,
      omega (arith, s.high),
      refl,
      record {
        hex = λ j p. subst (λ a. IsHex (w a)) (omega arith) (t.hex (i + j) (omega (arith, total)));
        end = subst (λ a. w a ≡ 0) (omega (arith, total)) t.end;
      },
      without_zeros w buf i (8 - i) (λ j p. s.zeros j (omega arith) p)
          ∙ ap (hex_value w buf) total
          ∙ written-value buf n m h,
      elim s.stop [ inl e ↦ inl (omega arith) | inr e ↦ inr e ],
      written-outside buf n m h,
    )

zero_digits : (i buf : ℕ) (m : Memory) (j : ℕ) → j < i → digits i buf 0 m (buf + j) ≡ 48
unfolding digits
zero_digits zero buf m j h = absurd (omega arith)
zero_digits (suc i) buf m j h = elim (dec_lt j i) [
  | yes lower ↦ zero_digits i buf (update m (buf + i) 48) j lower
  | no last ↦
      let e : j ≡ i = omega arith in
      rw e (
        digits-outside i buf 0 (update m (buf + i) 48) (buf + i) (inr (omega arith)) ∙ ground arith)
]

skip_zeros-all :
    (left i buf : ℕ) (m : Memory)
    → ((j : ℕ) → j < i + left → m (buf + j) ≡ 48)
    → skip_zeros left i buf m ≡ i + left
unfolding skip_zeros
skip_zeros-all zero i buf m h = omega arith
skip_zeros-all (suc left) i buf m h =
    ground (arith, h i (omega arith), skip_zeros-all left (i + 1) buf m (λ j p. h j (omega arith)))

-- The text of a number of one digit: where it stands, and what is written.
pub one_digit :
    (c : Ctx) (qbuf n : ℕ) (m : Memory)
    → n < 16
    → ((itoa_hex_removing_ldz c qbuf n m).0 ≡ row c qbuf + 7)
      × ((itoa_hex_removing_ldz c qbuf n m).1 (row c qbuf + 7) ≡ digit n)
      × ((itoa_hex_removing_ldz c qbuf n m).1 (row c qbuf + 8) ≡ 0)
      × ((a : ℕ)
          → (a < row c qbuf) ⊎ (row c qbuf + 9 ≤ a)
          → (itoa_hex_removing_ldz c qbuf n m).1 a ≡ m a)
unfolding itoa_hex_removing_ldz digits
one_digit c qbuf n m h =
    let buf = row c qbuf in
    let w = written buf n m (omega arith) in
    let first = update m (buf + 7) (digit n) in
    let high : n / 16 ≡ 0 = omega arith in
    let zeros : (j : ℕ) → j < 7 → digits 7 buf (n / 16) first (buf + j) ≡ 48 =
      rw high (zero_digits 7 buf first) in
    (
      ap (λ k. buf + k) (skip_zeros-all 7 0 buf w (λ j p. ground (arith, zeros j (omega arith)))),
      ground (arith, digits-outside 7 buf (n / 16) first (buf + 7) (inr (omega arith))),
      ground arith,
      written-outside buf n m (omega arith),
    )
