-- ===== src/Examples/StringRuns.antt =====
-- Runs of the memory and string functions.
use Prim.Native.Nat.{min}
use flexpret.Common.{
  ℕ, zero, suc, ◌+◌, ◌%◌, ◌<◌, ◌≤◌, ◌≡◌, ◌≢◌, ◌⊎◌, inl, inr, refl, some, ◌==◌, if◌then◌else◌, List,
  [], ◌∷◌, ◌++◌, ltb, ◌-◌, ◌^◌, length, get_or, arith,
}
use flexpret.State.{Status, null_ptr}
use flexpret.Strings.{Memory, strlen, strncpy}
use flexpret.Strings.Hex.{row, itoa_hex, itoa_hex_removing_ldz}
use flexpret.Strings.Digits.{IsHexText, hex_value, itoa_hex-value}
use flexpret.Strings.Console.{AllHex, emulator_outputstr, word_of, emulator_outputstr-word}
use flexpret.Timing.Stats.{Stats}
use flexpret.Timing.Print.{
  Console, IsHalves, cycles_of, instrs_of, stats_print, stats_print-differences,
}
use flexpret.Strings.Length.{IsText, Copied, strlen-IsText, strncpy-Copied}
use flexpret.Kernel.Info.{Places, os_version, os_kernel_get_info}
use flexpret.Kernel.InfoRound.{IsApart}
use flexpret.Kernel.InfoText.{IsInfo, os_kernel_get_info-IsInfo}
use flexpret.Examples.{hart}

-- Every byte is the low byte of its address, but "abc" stands at 40.
abbrev memory : Memory
memory a =
    if a == 40
    then 97
    else if a == 41
    then 98
    else if a == 42
    then 99
    else if a == 43
    then 0
    else a % 256

-- The word 0xBEEF, in the buffer of hart 2.
itoa_hex-value_example :
    ((itoa_hex (hart 2) 512 48879 memory).0 ≡ row (hart 2) 512)
    × IsHexText (itoa_hex (hart 2) 512 48879 memory).1 (row (hart 2) 512) 8
    × (hex_value (itoa_hex (hart 2) 512 48879 memory).1 (row (hart 2) 512) 8 ≡ 48879)
    × ((a : ℕ)
        → (a < row (hart 2) 512) ⊎ (row (hart 2) 512 + 9 ≤ a)
        → (itoa_hex (hart 2) 512 48879 memory).1 a ≡ memory a)
itoa_hex-value_example = itoa_hex-value (hart 2) 512 48879 memory (omega arith)

abc_chars : (j : ℕ) → j < 3 → memory (40 + j) ≢ 0
abc_chars zero h e = omega arith
abc_chars (suc zero) h e = omega arith
abc_chars (suc (suc zero)) h e = omega arith
abc_chars (suc (suc (suc j))) h e = absurd (omega arith)

abc-IsText : IsText memory 40 3
abc-IsText = record { chars = abc_chars; end = refl }

strlen-IsText_example : strlen 10 memory 40 ≡ some 3
strlen-IsText_example = strlen-IsText 10 3 memory 40 (omega arith) abc-IsText

-- Two characters of "abc" are copied.
strncpy-Copied_example :
    (strncpy null_ptr 40 2 memory ≡ (null_ptr, memory))
    × ((strncpy 10 40 2 memory).0 ≡ 10)
    × Copied 10 40 (min 2 3) memory (strncpy 10 40 2 memory).1
strncpy-Copied_example =
    strncpy-Copied 10 40 2 3 memory (λ e. omega arith) abc-IsText (inl (omega arith))

-- The literals at 100 and 110, and a buffer of two bytes at 2000.
abbrev places : Places
places = record { qbuf = 512; buf = 1000; dot = 100; newline = 110 }

abbrev with_literals : Memory
with_literals a = if a == 100 then 46 else if a == 110 then 10 else 0

places-IsApart : IsApart (hart 0) places 2000
places-IsApart = record {
  literals = (omega arith, omega arith, omega arith);
  static = omega arith;
  caller = inr (omega arith);
}

os_kernel_get_info-IsInfo_example :
    (r : Memory) × (os_kernel_get_info (hart 0) places 3000 2000 2 with_literals
      ≡ some (Status.ok, some (os_version, os_version), r))
    × IsInfo (hart 0) places 2000 with_literals r
os_kernel_get_info-IsInfo_example =
    os_kernel_get_info-IsInfo (hart 0) places 3000 2000 2 with_literals (λ e. omega arith)
      places-IsApart (record { dot = refl; newline = refl }) (omega arith) (inr refl)

emulator_outputstr-word_example :
    let r = itoa_hex_removing_ldz (hart 2) 512 48879 memory in
    (xs : List ℕ) × (emulator_outputstr 9 r.1 r.0 ≡ some xs)
    × (0 < length xs)
    × (length xs ≤ 8)
    × AllHex xs
    × (word_of 0 xs ≡ 48879)
    × ((length xs ≡ 1) ⊎ (get_or xs 0 48 ≢ 48))
    × ((a : ℕ) → (a < row (hart 2) 512) ⊎ (row (hart 2) 512 + 9 ≤ a) → r.1 a ≡ memory a)
emulator_outputstr-word_example =
    emulator_outputstr-word (hart 2) 512 48879 memory (omega arith) (omega arith)

-- Two statistics between which the low half of the cycles has wrapped: 1 cycle is printed as 2 ^ 32 + 1.
abbrev before : Stats
before = record { cycleh = 0; cycle = 4294967295; instreth = 0; instret = 7 }

abbrev after : Stats
after = record { cycleh = 1; cycle = 0; instreth = 0; instret = 8 }

before-IsHalves : IsHalves before
before-IsHalves = record {
  cycle = omega arith;
  cycleh = omega arith;
  instret = omega arith;
  instreth = omega arith;
}

after-IsHalves : IsHalves after
after-IsHalves = record {
  cycle = omega arith;
  cycleh = omega arith;
  instret = omega arith;
  instreth = omega arith;
}

abbrev console : Console
console = record { memory = memory; printed = [] }

stats_print-differences_example :
    (m : Memory) × (xs : List ℕ) × (ys : List ℕ) × (stats_print (hart 2) 512 before after console
      ≡ some (record { memory = m; printed = [] ++ xs ++ 10 ∷ [] ++ ys ++ 10 ∷ [] }))
    × (length xs ≡ 16)
    × (length ys ≡ 16)
    × AllHex xs
    × AllHex ys
    × (word_of 0 xs
        ≡ cycles_of after - cycles_of before + (if ltb after.cycle before.cycle then 2 ^ 32 else 0))
    × (word_of 0 ys
        ≡ instrs_of after
          - instrs_of before
          + (if ltb after.instret before.instret then 2 ^ 32 else 0))
stats_print-differences_example =
    stats_print-differences (hart 2) 512 before after console (λ e. omega arith) before-IsHalves
      after-IsHalves (omega arith) (omega arith)
