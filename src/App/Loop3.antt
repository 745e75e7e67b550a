-- ===== src/App/Loop3.antt =====
-- loop3.c of src/os/app: sums by loops that count up and down.
use flexpret.Common.{
  ℕ, zero, suc, ◌+◌, ◌-◌, ◌≡◌, refl, ap, Bool, true, false, not, Option, none, some, ltb, leb,
  if◌then◌else◌,
}
use flexpret.Common.Int.{ℤ, pos, negsuc}

-- m - n
unfoldable pub difference : ℕ → ℕ → ℤ
difference m n = if leb n m then pos (m - n) else negsuc (n - m - 1)

unfoldable pub add : ℤ → ℤ → ℤ
unfolding difference
add (pos a) (pos b) = pos (a + b)
add (pos a) (negsuc b) = difference a (suc b)
add (negsuc a) (pos b) = difference b (suc a)
add (negsuc a) (negsuc b) = negsuc (suc (a + b))

unfoldable pub neg : ℤ → ℤ
neg (pos zero) = pos 0
neg (pos (suc n)) = negsuc n
neg (negsuc n) = pos (suc n)

-- a - b
unfoldable pub sub : ℤ → ℤ → ℤ
unfolding add neg
sub a b = add a (neg b)

-- a < b
unfoldable pub less : ℤ → ℤ → Bool
less (pos a) (pos b) = ltb a b
less (pos a) (negsuc b) = false
less (negsuc a) (pos b) = true
less (negsuc a) (negsuc b) = ltb b a

-- for (; test(i); i = step(i)) s += i; `none` if it needs more tests of its condition than the fuel.
unfoldable pub sum_loop : (ℤ → Bool) → (ℤ → ℤ) → ℕ → ℤ → ℤ → Option ℤ
unfolding add
sum_loop test step zero i s = none
sum_loop test step (suc fuel) i s =
    let rest = sum_loop test step fuel (step i) (add s i) in if test i then rest else some s

infixl 5 ◌then_sum◌
unfoldable ◌then_sum◌ : Option ℤ → (ℤ → Option ℤ) → Option ℤ
none then_sum f = none
(some s) then_sum f = f s

-- PLOOP(a, b, step), with 30 tests of each loop's condition
unfoldable pub ploop : ℤ → ℤ → ℤ → ℤ → Option ℤ
unfolding less sub sum_loop ◌then_sum◌
ploop a b d s =
    sum_loop (λ i. less i b) (λ i. add i d) 30 a s
    then_sum sum_loop (λ i. not (less b i)) (λ i. add i d) 30 a
    then_sum sum_loop (λ i. less i b) (λ i. sub i (neg d)) 30 a
    then_sum sum_loop (λ i. not (less b i)) (λ i. sub i (neg d)) 30 a

-- MLOOP(a, b, d)
unfoldable pub mloop : ℤ → ℤ → ℤ → ℤ → Option ℤ
unfolding less sub sum_loop ◌then_sum◌
mloop a b d s =
    sum_loop (λ i. less b i) (λ i. sub i d) 30 a s
    then_sum sum_loop (λ i. not (less i b)) (λ i. sub i d) 30 a
    then_sum sum_loop (λ i. less b i) (λ i. add i (neg d)) 30 a
    then_sum sum_loop (λ i. not (less i b)) (λ i. add i (neg d)) 30 a

-- The six uses of PLOOP with a step
unfoldable pub ploops : ℤ → ℤ → Option ℤ
unfolding ploop ◌then_sum◌
ploops d s =
    ploop (pos 0) (pos 3) d s
    then_sum ploop (pos 1) (pos 2) d
    then_sum ploop (negsuc 2) (negsuc 1) d
    then_sum ploop (negsuc 3) (negsuc 0) d
    then_sum ploop (negsuc 4) (pos 0) d
    then_sum ploop (negsuc 5) (pos 4) d

-- The nine uses of MLOOP with a step
unfoldable pub mloops : ℤ → ℤ → Option ℤ
unfolding mloop ◌then_sum◌
mloops d s =
    mloop (pos 5) (pos 2) d s
    then_sum mloop (pos 6) (pos 1) d
    then_sum mloop (pos 7) (pos 0) d
    then_sum mloop (pos 8) (negsuc 0) d
    then_sum mloop (pos 9) (negsuc 1) d
    then_sum mloop (pos 0) (negsuc 2) d
    then_sum mloop (negsuc 0) (negsuc 4) d
    then_sum mloop (negsuc 1) (negsuc 6) d
    then_sum mloop (pos 16) (negsuc 7) d

-- loop3_main, where argc is 2
unfoldable pub loop3_main : Option ℤ
unfolding ploops mloops ◌then_sum◌
loop3_main =
    ploops (pos 1) (pos 0) then_sum ploops (pos 2) then_sum mloops (pos 1) then_sum mloops (pos 2)

neg-neg : (d : ℤ) → neg (neg d) ≡ d
unfolding neg
neg-neg (pos zero) = refl
neg-neg (pos (suc n)) = refl
neg-neg (negsuc n) = refl

-- Both halves of PLOOP, and of MLOOP, do the same: the step that is subtracted when negated is the step that is
-- added, and the other way round.
sub-neg : (i d : ℤ) → (sub i (neg d) ≡ add i d) × (add i (neg d) ≡ sub i d)
unfolding sub
sub-neg i d = (ap (add i) (neg-neg d), refl)

-- The loops of loop3_main end, and their sum is 1044.
loop3_main-sum : loop3_main ≡ some (pos 1044)
unfolding loop3_main
loop3_main-sum = refl
