-- ===== src/App/Lcd.antt =====
-- lcdnum.c of src/os/app: the segments of digits on a display.
use mathlib.Core.Path.{subst}
use native.Mathlib.Decide.{dec_lt, ℕ_discrete}
use flexpret.Common.{
  ℕ, zero, suc, ◌+◌, ◌%◌, ◌<◌, ◌≡◌, refl, sym, ap, ◌∙◌, ◌⊎◌, inl, inr, Bool, true, ◌&&◌, List, [],
  ◌∷◌, ◌++◌, ◌==◌, ltb, if◌then◌else◌, Option, none, some, get_or, arith,
}

-- The switch's answers for 0 to 15
abbrev lcd_codes : List ℕ
lcd_codes =
    0
    ∷ 0x24
    ∷ (1 + 4 + 8 + 16 + 64)
    ∷ (1 + 4 + 8 + 32 + 64)
    ∷ (2 + 4 + 8 + 32)
    ∷ (1 + 4 + 8 + 16 + 64)
    ∷ (1 + 2 + 8 + 16 + 32 + 64)
    ∷ (1 + 4 + 32)
    ∷ 0x7F
    ∷ (0x0F + 32 + 64)
    ∷ (0x0F + 16 + 32)
    ∷ (2 + 8 + 16 + 32 + 64)
    ∷ (1 + 2 + 16 + 64)
    ∷ (4 + 8 + 16 + 32 + 64)
    ∷ (1 + 2 + 8 + 16 + 64)
    ∷ (1 + 2 + 8 + 16)
    ∷ []

-- num_to_lcd
unfoldable pub num_to_lcd : ℕ → ℕ
num_to_lcd a = get_or lcd_codes a 0

-- The loop of lcdnum_main, from i: `scan i` is what IN shows in round i, and the list is what is written to OUT.
-- `none` if it needs more tests of its condition than the fuel.
unfoldable pub lcd_loop : (ℕ → ℕ) → (fuel i : ℕ) → List ℕ → Option (List ℕ)
unfolding num_to_lcd
lcd_loop scan zero i out = none
lcd_loop scan (suc fuel) i out =
    let a = scan i in
    let rest =
      lcd_loop scan fuel (i + 1) (if ltb i 5 then out ++ num_to_lcd (a % 16) ∷ [] else out) in
    if ltb i 10 then rest else some out

-- lcdnum_main: its value, and what it writes to OUT
pub lcdnum_main : (ℕ → ℕ) → Option (ℕ × List ℕ)
unfolding lcd_loop
lcdnum_main scan = elim (lcd_loop scan 11 0 []) [ none ↦ none | some out ↦ some (0, out) ]

-- lcdnum_main writes the segments of the low digits of its first five readings.
lcdnum_main-writes :
    (scan : ℕ → ℕ)
    → lcdnum_main scan
      ≡ some (
        0,
        num_to_lcd (scan 0 % 16)
            ∷ num_to_lcd (scan 1 % 16)
            ∷ num_to_lcd (scan 2 % 16)
            ∷ num_to_lcd (scan 3 % 16)
            ∷ num_to_lcd (scan 4 % 16)
            ∷ [],
      )
unfolding lcdnum_main
lcdnum_main-writes scan = refl

-- The digit of a code
abbrev find : ℕ → ℕ → List ℕ → ℕ
find v i [] = 16
find v i (x ∷ xs) = if x == v then i else find v (i + 1) xs

digit_of : ℕ → ℕ
digit_of v = find v 0 lcd_codes

-- f holds of every number below n.
every : ℕ → (ℕ → Bool) → Bool
every zero f = true
every (suc n) f = f n && every n f

every-lt : (n : ℕ) (f : ℕ → Bool) (a : ℕ) → every n f ≡ true → a < n → f a ≡ true
unfolding every
every-lt zero f a e h = absurd (omega arith)
every-lt (suc n) f a e h = elim (dec_lt a n) [
  | yes p ↦ every-lt n f a (ground arith) p
  | no p ↦
      let last : f n ≡ true = ground arith in
      let same : n ≡ a = omega arith in subst (λ i. f i ≡ true) same last
]

equal : (a b : ℕ) → (a == b) ≡ true → a ≡ b
equal a b e = ground arith

digit_of-num_to_lcd : (a : ℕ) → a < 16 → digit_of (num_to_lcd a) ≡ (if a == 5 then 2 else a)
unfolding digit_of num_to_lcd every
digit_of-num_to_lcd a h =
    let e = every-lt 16 (λ i. digit_of (num_to_lcd i) == (if i == 5 then 2 else i)) a refl h in
    equal (digit_of (num_to_lcd a)) (if a == 5 then 2 else a) e

two_five :
    (a b : ℕ)
    → (if a == 5 then 2 else a) ≡ (if b == 5 then 2 else b)
    → (a ≡ b) ⊎ (((a ≡ 2) × (b ≡ 5)) ⊎ ((a ≡ 5) × (b ≡ 2)))
two_five a b e = elim (ℕ_discrete a b) [
  | yes p ↦ inl p
  | no p ↦ elim (ℕ_discrete a 5) [
    | yes q ↦ inr (inr (q, ground arith))
    | no q ↦ inr (inl (ground arith, ground arith))
  ]
]

-- Two digits from 0 to 15 that look the same on the display are the same, but for 2 and 5: num_to_lcd gives them
-- the same segments.
num_to_lcd-differs :
    (a b : ℕ)
    → a < 16
    → b < 16
    → num_to_lcd a ≡ num_to_lcd b
    → (a ≡ b) ⊎ (((a ≡ 2) × (b ≡ 5)) ⊎ ((a ≡ 5) × (b ≡ 2)))
num_to_lcd-differs a b h k e =
    let same = sym (digit_of-num_to_lcd a h) ∙ ap digit_of e ∙ digit_of-num_to_lcd b k in
    two_five a b same
