-- ===== src/Strings/Console.antt =====
-- `emulator_outputstr` of src/os/src/flexpret_io.c, which writes a text to the address of the console, and
-- words that are printed by it.
use mathlib.Core.Path.{subst}
use flexpret.Common.{
  ℕ, zero, suc, ◌+◌, ◌-◌, ◌*◌, ◌<◌, ◌≤◌, ◌≡◌, ◌≢◌, ◌⊎◌, ◌^◌, inl, inr, false, refl, sym, ap, ◌∙◌,
  Option, none, some, List, [], ◌∷◌, ◌==◌, if◌then◌else◌, length, get_or, arith,
}
use flexpret.State.{Ctx, null_ptr}
use flexpret.Strings.{Memory}
use flexpret.Strings.Length.{IsText, rest-IsText, first, none_left}
use flexpret.Strings.Hex.{row, itoa_hex_removing_ldz}
use flexpret.Strings.Digits.{digit_value, hex_value, IsHex, IsHexText}
use flexpret.Strings.Short.{itoa_hex_removing_ldz-value}

-- The `while`: the characters that it writes, with `fuel` of them to look at.
unfoldable pub output_chars : ℕ → Memory → ℕ → Option (List ℕ)
output_chars zero m str = none
output_chars (suc fuel) m str =
    let rest : Option (List ℕ) = elim (output_chars fuel m (str + 1)) [
      | none ↦ none
      | some xs ↦ some (m str ∷ xs)
    ] in
    if m str == 0 then some [] else rest

-- emulator_outputstr: what is written to EMULATOR_ADDR
unfoldable pub emulator_outputstr : ℕ → Memory → ℕ → Option (List ℕ)
unfolding output_chars
emulator_outputstr fuel m str = if str == null_ptr then some [] else output_chars fuel m str

-- The characters of a text.
pub chars_at : Memory → ℕ → ℕ → List ℕ
chars_at m a zero = []
chars_at m a (suc n) = m a ∷ chars_at m (a + 1) n

pub output_chars-IsText :
    (fuel n : ℕ) (m : Memory) (a : ℕ)
    → n < fuel
    → IsText m a n
    → output_chars fuel m a ≡ some (chars_at m a n)
unfolding output_chars chars_at
output_chars-IsText zero n m a h t = absurd (omega arith)
output_chars-IsText (suc fuel) zero m a h t = ground (arith, none_left m a t)
output_chars-IsText (suc fuel) (suc n) m a h t =
    let e = output_chars-IsText fuel n m (a + 1) (omega arith) (rest-IsText m a n t) in
    let f : (m a == 0) ≡ false = ground (arith, first m a n t) in rw (f, e) refl

-- Every character is a hexadecimal digit: 0 to 9, or A to F.
unfoldable pub AllHex : List ℕ → Type 0
AllHex [] = Unit {0}
AllHex (x ∷ xs) = IsHex x × AllHex xs

-- The word that hexadecimal digits stand for, after `acc`.
unfoldable pub word_of : ℕ → List ℕ → ℕ
word_of acc [] = acc
word_of acc (x ∷ xs) = word_of (acc * 16 + digit_value x) xs

module _ (m : Memory) where
  pub length-chars_at : (n a : ℕ) → length (chars_at m a n) ≡ n
  unfolding chars_at
  length-chars_at zero a = refl
  length-chars_at (suc n) a = let rest = length-chars_at n (a + 1) in omega arith

  pub chars_at-AllHex : (n a : ℕ) → ((j : ℕ) → j < n → IsHex (m (a + j))) → AllHex (chars_at m a n)
  unfolding chars_at AllHex
  chars_at-AllHex zero a h = tt
  chars_at-AllHex (suc n) a h = (
    subst (λ b. IsHex (m b)) {x = a + 0} {y = a} (omega arith) (h 0 (omega arith)),
    chars_at-AllHex n (a + 1) (λ j l.
        subst (λ b. IsHex (m b)) {x = a + suc j} {y = a + 1 + j} (omega arith)
          (h (suc j) (omega arith))),
  )

  get_or-chars_at : (n a d : ℕ) → 0 < n → get_or (chars_at m a n) 0 d ≡ m a
  unfolding chars_at
  get_or-chars_at zero a d h = absurd (omega arith)
  get_or-chars_at (suc n) a d h = refl

  pub word_of-chars_at :
      (k j a : ℕ) → word_of (hex_value m a j) (chars_at m (a + j) k) ≡ hex_value m a (j + k)
  unfolding word_of chars_at
  word_of-chars_at zero j a = ap (hex_value m a) {x = j} {y = j + 0} (omega arith)
  word_of-chars_at (suc k) j a =
      let e : a + suc j ≡ a + j + 1 = omega arith in
      ap (λ b. word_of (hex_value m a (suc j)) (chars_at m b k)) (sym e)
      ∙ word_of-chars_at k (suc j) a
      ∙ ap (hex_value m a) (omega arith)

pub IsHexText-IsText : (m : Memory) (a k : ℕ) → IsHexText m a k → IsText m a k
IsHexText-IsText m a k t = record { chars = λ j h. let x = t.hex j h in ground arith; end = t.end }

-- A 32-bit word, made a text by itoa_hex_removing_ldz and given to emulator_outputstr, is printed as one to
-- eight hexadecimal digits (0 to 9 and A to F), which stand for the word; the first one is not 0, unless it is the
-- only one. No byte outside of the hart's own buffer is written.
pub emulator_outputstr-word :
    (c : Ctx) (qbuf n : ℕ) (m : Memory)
    → qbuf ≢ null_ptr
    → n < 2 ^ 32
    → let r = itoa_hex_removing_ldz c qbuf n m in
      (xs : List ℕ) × (emulator_outputstr 9 r.1 r.0 ≡ some xs)
      × (0 < length xs)
      × (length xs ≤ 8)
      × AllHex xs
      × (word_of 0 xs ≡ n)
      × ((length xs ≡ 1) ⊎ (get_or xs 0 48 ≢ 48))
      × ((a : ℕ) → (a < row c qbuf) ⊎ (row c qbuf + 9 ≤ a) → r.1 a ≡ m a)
unfolding emulator_outputstr
emulator_outputstr-word c qbuf n m q h =
    let (i, l, at, t, v, z, o) = itoa_hex_removing_ldz-value c qbuf n m h in
    let w = (itoa_hex_removing_ldz c qbuf n m).1 in
    let a = row c qbuf + i in
    let xs = chars_at w a (8 - i) in
    let len = length-chars_at w (8 - i) a in
    let f : ((itoa_hex_removing_ldz c qbuf n m).0 == null_ptr) ≡ false = ground arith in
    let printed =
      output_chars-IsText 9 (8 - i) w a (omega arith) (IsHexText-IsText w a (8 - i) t) in
    (
      xs,
      rw f (ap (output_chars 9 w) at ∙ printed),
      omega arith,
      omega arith,
      chars_at-AllHex w (8 - i) a t.hex,
      ap (λ b. word_of 0 (chars_at w b (8 - i))) {x = a} {y = a + 0} (omega arith)
          ∙ word_of-chars_at w (8 - i) 0 a
          ∙ ap (hex_value w a) {x = 0 + (8 - i)} {y = 8 - i} (omega arith)
          ∙ v,
      elim z [
        | inl e ↦ inl (omega arith)
        | inr e ↦ inr (λ x. e (sym (get_or-chars_at w (8 - i) a 48 (omega arith)) ∙ x))
      ],
      o,
    )
