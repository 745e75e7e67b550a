-- ===== src/Timing/Print.antt =====
-- stats_print of src/os/include/flexpret_io.h: the differences of two statistics on the console.
use mathlib.Core.List.{append_assoc}
use native.Mathlib.Nat.{add-mul, mul_assoc, pow-succ'}
use flexpret.Common.{
  ℕ, suc, ◌+◌, ◌-◌, ◌*◌, ◌^◌, ◌<◌, ◌≤◌, ◌≡◌, ◌≢◌, refl, ap, ◌∙◌, false, Option, none, some, List,
  [], ◌∷◌, ◌++◌, ◌==◌, ltb, if◌then◌else◌, length, length-append, arith,
}
use flexpret.State.{Ctx, null_ptr}
use flexpret.Tid.{sub32}
use flexpret.Timing.Stats.{Stats}
use flexpret.Strings.{Memory}
use flexpret.Strings.Hex.{row, itoa_hex}
use flexpret.Strings.Digits.{digit_value, itoa_hex-value}
use flexpret.Strings.Console.{
  emulator_outputstr, AllHex, chars_at-AllHex, output_chars, chars_at, output_chars-IsText,
  IsHexText-IsText, length-chars_at, word_of, word_of-chars_at,
}

-- The memory, and what stands on the console.
pub record Console : Type 0 where
  pub memory : Memory
  pub printed : List ℕ

-- debug_string(itoa_hex(n))
unfoldable pub print_hex : Ctx → ℕ → ℕ → Console → Option Console
print_hex c qbuf n k =
    let r = itoa_hex c qbuf n k.memory in
    elim (emulator_outputstr 9 r.1 r.0) [
      | none ↦ none
      | some xs ↦ some (record { memory = r.1; printed = k.printed ++ xs })
    ]

-- debug_string("\n")
abbrev pub print_newline : Console → Console
print_newline k = record k { printed = k.printed ++ 10 ∷ [] }

infixl 5 ◌then_print◌
◌then_print◌ : Option Console → (Console → Option Console) → Option Console
none then_print f = none
(some k) then_print f = f k

-- stats_print
pub stats_print : Ctx → ℕ → Stats → Stats → Console → Option Console
unfolding print_hex ◌then_print◌
stats_print c qbuf s e k =
    print_hex c qbuf (sub32 e.cycleh s.cycleh) k
    then_print print_hex c qbuf (sub32 e.cycle s.cycle)
    then_print (λ k. some (print_newline k))
    then_print print_hex c qbuf (sub32 e.instreth s.instreth)
    then_print print_hex c qbuf (sub32 e.instret s.instret)
    then_print (λ k. some (print_newline k))

-- Eight digits of a word.
record Digits (n : ℕ) (xs : List ℕ) : Type 0 where
  size : length xs ≡ 8
  hex : AllHex xs
  value : word_of 0 xs ≡ n

print_hex-Digits :
    (c : Ctx) (qbuf n : ℕ) (k : Console)
    → qbuf ≢ null_ptr
    → n < 2 ^ 32
    → (m : Memory) × (xs : List ℕ) × (print_hex c qbuf n k
        ≡ some (record { memory = m; printed = k.printed ++ xs }))
      × Digits n xs
unfolding print_hex emulator_outputstr
print_hex-Digits c qbuf n k q h =
    let (at, t, v, o) = itoa_hex-value c qbuf n k.memory h in
    let w = (itoa_hex c qbuf n k.memory).1 in
    let a = row c qbuf in
    let f : ((itoa_hex c qbuf n k.memory).0 == null_ptr) ≡ false = ground arith in
    let text = output_chars-IsText 9 8 w a (omega arith) (IsHexText-IsText w a 8 t) in
    let out : emulator_outputstr 9 w (itoa_hex c qbuf n k.memory).0 ≡ some (chars_at w a 8) =
      rw f (ap (output_chars 9 w) at ∙ text) in
    (
      w,
      chars_at w a 8,
      ap
          (λ o. elim o [
            | none ↦ none
            | some xs ↦ some (record { memory = w; printed = k.printed ++ xs })
          ])
          out,
      record {
        size = length-chars_at w 8 a;
        hex = chars_at-AllHex w 8 a t.hex;
        value =
            ap (λ b. word_of 0 (chars_at w b 8)) {x = a} {y = a + 0} (omega arith)
            ∙ word_of-chars_at w 8 0 a
            ∙ v;
      },
    )

AllHex-append : (xs ys : List ℕ) → AllHex xs → AllHex ys → AllHex (xs ++ ys)
unfolding AllHex
AllHex-append [] ys h k = k
AllHex-append (x ∷ xs) ys (p, h) k = (p, AllHex-append xs ys h k)

word_of-append : (acc : ℕ) (xs ys : List ℕ) → word_of acc (xs ++ ys) ≡ word_of (word_of acc xs) ys
unfolding word_of
word_of-append acc [] ys = refl
word_of-append acc (x ∷ xs) ys = word_of-append (acc * 16 + digit_value x) xs ys

one_digit_more :
    (acc d p q w a b : ℕ)
    → q ≡ 16 * p
    → a ≡ (acc * 16 + d) * p + w
    → b ≡ (0 + d) * p + w
    → a ≡ acc * q + b
one_digit_more acc d p q w a b e f g = omega (
  arith,
  e,
  f,
  g,
  ap (λ (x : ℕ). acc * x) e,
  add-mul (acc * 16) d p,
  add-mul 0 d p,
  mul_assoc acc 16 p,
)

-- Digits that follow `acc`.
word_of-acc : (acc : ℕ) (xs : List ℕ) → word_of acc xs ≡ acc * 16 ^ length xs + word_of 0 xs
unfolding word_of
word_of-acc acc [] = omega arith
word_of-acc acc (x ∷ xs) =
    one_digit_more acc (digit_value x) (16 ^ length xs) (16 ^ suc (length xs)) (word_of 0 xs)
      (word_of (acc * 16 + digit_value x) xs) (word_of (0 + digit_value x) xs)
      (pow-succ' 16 (length xs)) (word_of-acc (acc * 16 + digit_value x) xs)
      (word_of-acc (0 + digit_value x) xs)

-- Two words after one another are one number of 64 bits.
Digits-append :
    (h l : ℕ) (xs ys : List ℕ) → Digits h xs → Digits l ys → word_of 0 (xs ++ ys) ≡ h * 2 ^ 32 + l
Digits-append h l xs ys p q =
    word_of-append 0 xs ys
    ∙ word_of-acc (word_of 0 xs) ys
    ∙ (λ i. p.value i * 16 ^ q.size i + q.value i)
    ∙ omega arith

-- The difference of two 64-bit counters by their halves, as it is printed.
printed_difference :
    (eh el sh sl : ℕ)
    → eh < 2 ^ 32
    → el < 2 ^ 32
    → sl < 2 ^ 32
    → sh * 2 ^ 32 + sl ≤ eh * 2 ^ 32 + el
    → sub32 eh sh * 2 ^ 32 + sub32 el sl
      ≡ (eh * 2 ^ 32 + el - (sh * 2 ^ 32 + sl)) + (if ltb el sl then 2 ^ 32 else 0)
printed_difference eh el sh sl a b c d = ground arith

-- The 64-bit counters of statistics, and their halves in 32 bits.
abbrev pub cycles_of : Stats → ℕ
cycles_of s = s.cycleh * 2 ^ 32 + s.cycle

abbrev pub instrs_of : Stats → ℕ
instrs_of s = s.instreth * 2 ^ 32 + s.instret

pub record IsHalves (s : Stats) : Type 0 where
  pub cycle : s.cycle < 2 ^ 32
  pub cycleh : s.cycleh < 2 ^ 32
  pub instret : s.instret < 2 ^ 32
  pub instreth : s.instreth < 2 ^ 32

-- Two words that are printed after one another.
print_two :
    (c : Ctx) (qbuf h l : ℕ) (k : Console)
    → qbuf ≢ null_ptr
    → h < 2 ^ 32
    → l < 2 ^ 32
    → (m : Memory) × (xs : List ℕ) × ((print_hex c qbuf h k then_print print_hex c qbuf l)
        ≡ some (record { memory = m; printed = k.printed ++ xs }))
      × (length xs ≡ 16)
      × AllHex xs
      × (word_of 0 xs ≡ h * 2 ^ 32 + l)
unfolding ◌then_print◌
print_two c qbuf h l k q a b =
    let (m1, x1, e1, d1) = print_hex-Digits c qbuf h k q a in
    let k1 : Console = record { memory = m1; printed = k.printed ++ x1 } in
    let (m2, x2, e2, d2) = print_hex-Digits c qbuf l k1 q b in
    (
      m2,
      x1 ++ x2,
      ap (λ o. o then_print print_hex c qbuf l) e1
          ∙ e2
          ∙ ap (λ p. some (record { memory = m2; printed = p })) (append_assoc k.printed x1 x2),
      length-append x1 x2 ∙ (λ i. d1.size i + d2.size i),
      AllHex-append x1 x2 d1.hex d2.hex,
      Digits-append h l x1 x2 d1 d2,
    )

-- stats_print of the statistics s and e, where the counters of e are not below those of s, prints two lines of 16
-- hexadecimal digits (0 to 9 and A to F). The first one is the difference of the cycles, but 2 ^ 32 too high if the low half of e's
-- is below that of s's; and so the second one for the instructions.
pub stats_print-differences :
    (c : Ctx) (qbuf : ℕ) (s e : Stats) (k : Console)
    → qbuf ≢ null_ptr
    → IsHalves s
    → IsHalves e
    → cycles_of s ≤ cycles_of e
    → instrs_of s ≤ instrs_of e
    → (m : Memory) × (xs : List ℕ) × (ys : List ℕ) × (stats_print c qbuf s e k
        ≡ some (record { memory = m; printed = k.printed ++ xs ++ 10 ∷ [] ++ ys ++ 10 ∷ [] }))
      × (length xs ≡ 16)
      × (length ys ≡ 16)
      × AllHex xs
      × AllHex ys
      × (word_of 0 xs ≡ cycles_of e - cycles_of s + (if ltb e.cycle s.cycle then 2 ^ 32 else 0))
      × (word_of 0 ys ≡ instrs_of e - instrs_of s + (if ltb e.instret s.instret then 2 ^ 32 else 0))
unfolding stats_print ◌then_print◌
stats_print-differences c qbuf s e k q a b l r =
    let ch = sub32 e.cycleh s.cycleh in
    let cl = sub32 e.cycle s.cycle in
    let ih = sub32 e.instreth s.instreth in
    let il = sub32 e.instret s.instret in
    let (m1, xs, p1, n1, a1, v1) = print_two c qbuf ch cl k q (omega arith) (omega arith) in
    let k1 : Console = record { memory = m1; printed = k.printed ++ xs ++ 10 ∷ [] } in
    let (m2, ys, p2, n2, a2, v2) = print_two c qbuf ih il k1 q (omega arith) (omega arith) in
    (
      m2,
      xs,
      ys,
      ap
            (λ o.
              o
              then_print (λ k. some (print_newline k))
              then_print print_hex c qbuf ih
              then_print print_hex c qbuf il
              then_print (λ k. some (print_newline k)))
            p1
          ∙ ap (λ o. o then_print (λ k. some (print_newline k))) p2,
      n1,
      n2,
      a1,
      a2,
      v1 ∙ printed_difference e.cycleh e.cycle s.cycleh s.cycle b.cycleh b.cycle a.cycle l,
      v2
          ∙ printed_difference e.instreth e.instret s.instreth s.instret b.instreth b.instret
              a.instret r,
    )
