-- ===== src/App/Cover.antt =====
-- cover.c of src/os/app: loops over switches with many cases.
use flexpret.Common.{
  ℕ, zero, suc, ◌+◌, ◌<◌, ◌≡◌, refl, ap, ◌∙◌, true, false, Option, none, some, ltb, leb,
  if◌then◌else◌, arith,
}
use flexpret.Common.Int.{ℤ, pos, negsuc}

-- c++ and c--
unfoldable pub increment : ℤ → ℤ
increment (pos n) = pos (suc n)
increment (negsuc zero) = pos 0
increment (negsuc (suc n)) = negsuc n

unfoldable pub decrement : ℤ → ℤ
decrement (pos zero) = negsuc 0
decrement (pos (suc n)) = pos n
decrement (negsuc n) = negsuc (suc n)

-- The switches: the cases 0 to 119 of swi120, 0 to 59 of swi50 and 0 to 9 of swi10 are c++, the default is c--.
abbrev pub switch_120 : ℕ → ℤ → ℤ
switch_120 i c = if leb i 119 then increment c else decrement c

abbrev pub switch_50 : ℕ → ℤ → ℤ
switch_50 i c = if leb i 59 then increment c else decrement c

abbrev pub switch_10 : ℕ → ℤ → ℤ
switch_10 i c = if leb i 9 then increment c else decrement c

-- A loop `for (i < bound)` with a switch; `none` if it needs more tests of its condition than the fuel.
unfoldable pub loop : (ℕ → ℤ → ℤ) → (bound fuel i : ℕ) → ℤ → Option ℤ
unfolding increment decrement
loop switch bound zero i c = none
loop switch bound (suc fuel) i c =
    let rest = loop switch bound fuel (i + 1) (switch i c) in if ltb i bound then rest else some c

unfoldable pub swi120 : ℤ → Option ℤ
unfolding loop
swi120 c = loop switch_120 120 121 0 c

unfoldable pub swi50 : ℤ → Option ℤ
unfolding loop
swi50 c = loop switch_50 50 51 0 c

unfoldable pub swi10 : ℤ → Option ℤ
unfolding loop
swi10 c = loop switch_10 10 11 0 c

infixl 5 ◌then_count◌
abbrev ◌then_count◌ : Option ℤ → (ℤ → Option ℤ) → Option ℤ
none then_count f = none
(some c) then_count f = f c

-- cover_main
pub cover_main : Option ℤ
unfolding swi120 swi50 swi10
cover_main = some (pos 0) then_count swi10 then_count swi50 then_count swi120

-- c + n
unfoldable add_times : ℕ → ℤ → ℤ
unfolding increment
add_times zero c = c
add_times (suc n) c = add_times n (increment c)

-- A loop whose switch has a case for each round adds one in each.
loop-adds :
    (switch : ℕ → ℤ → ℤ) (bound left fuel i : ℕ) (c : ℤ)
    → ((j : ℕ) (c : ℤ) → j < bound → switch j c ≡ increment c)
    → i + left ≡ bound
    → left < fuel
    → loop switch bound fuel i c ≡ some (add_times left c)
unfolding loop add_times
loop-adds switch bound left zero i c h e l = absurd (omega arith)
loop-adds switch bound zero (suc fuel) i c h e l =
    let t : ltb i bound ≡ false = ground arith in rw t refl
loop-adds switch bound (suc left) (suc fuel) i c h e l =
    let t : ltb i bound ≡ true = ground arith in
    rw t (
      ap (λ x. loop switch bound fuel (i + 1) x) (h i c (omega arith))
      ∙ loop-adds switch bound left fuel (i + 1) (increment c) h (omega arith) (omega arith))

-- Every round of the three functions finds a case: they add 120, 50 and 10, and cover_main answers 180.
cover_main-counts :
    ((c : ℤ) → swi120 c ≡ some (add_times 120 c))
    × ((c : ℤ) → swi50 c ≡ some (add_times 50 c))
    × ((c : ℤ) → swi10 c ≡ some (add_times 10 c))
    × (cover_main ≡ some (pos 180))
unfolding swi120 swi50 swi10 cover_main
cover_main-counts = (
  λ c. loop-adds switch_120 120 120 121 0 c (λ j c l. ground arith) refl (omega arith),
  λ c. loop-adds switch_50 50 50 51 0 c (λ j c l. ground arith) refl (omega arith),
  λ c. loop-adds switch_10 10 10 11 0 c (λ j c l. ground arith) refl (omega arith),
  refl,
)
