-- ===== src/App/Fib.antt =====
-- fibcall.c of src/os/app: the Fibonacci numbers by a loop.
use Prim.Native.Nat.{min, max}
use native.Mathlib.Decide.{dec_lt}
use flexpret.Common.{
  ℕ, zero, suc, ◌+◌, ◌^◌, ◌<◌, ◌≤◌, ◌≡◌, ap, ◌∙◌, Bool, true, false, ◌&&◌, Option, none, some, leb,
  if◌then◌else◌, arith,
}
use flexpret.Common.Int.{ℤ, pos, negsuc}

-- i <= n
unfoldable at_most : ℕ → ℤ → Bool
at_most i (pos n) = leb i n
at_most i (negsuc n) = false

-- The loop, from i; `none` if it needs more tests of its condition than the fuel.
unfoldable pub fib_loop : (fuel i : ℕ) → ℤ → (fnew fold : ℕ) → Option ℕ
unfolding at_most
fib_loop zero i n fnew fold = none
fib_loop (suc fuel) i n fnew fold =
    let rest = fib_loop fuel (i + 1) n (fnew + fold) fnew in
    if leb i 30 && at_most i n then rest else some fnew

-- fib, with 30 tests of the loop's condition
pub fib : ℤ → Option ℕ
unfolding fib_loop
fib n = fib_loop 30 2 n 1 0

abbrev pub fibcall_main : Option ℕ
fibcall_main = fib (pos 30)

-- The Fibonacci numbers
unfoldable pub fibonacci : ℕ → ℕ
fibonacci zero = 0
fibonacci (suc zero) = 1
fibonacci (suc (suc n)) = fibonacci (suc n) + fibonacci n

-- The index that fib counts to
unfoldable pub last : ℤ → ℕ
last (pos n) = max 1 (min n 30)
last (negsuc n) = 1

at_most-last :
    (m : ℕ) (n : ℤ)
    → m ≤ 29
    → (leb (suc (suc m)) 30 && at_most (suc (suc m)) n) ≡ leb (suc (suc m)) (last n)
unfolding at_most last
at_most-last m (pos n) h = ground arith
at_most-last m (negsuc n) h = ground arith

last-bound : (n : ℤ) → (1 ≤ last n) × (last n ≤ 30)
unfolding last
last-bound (pos n) = (omega arith, omega arith)
last-bound (negsuc n) = (omega arith, omega arith)

-- The loop from i = m + 2, with the numbers m + 1 and m
fib_loop-from :
    (fuel m : ℕ) (n : ℤ)
    → m < last n
    → last n < suc m + fuel
    → fib_loop fuel (suc (suc m)) n (fibonacci (suc m)) (fibonacci m) ≡ some (fibonacci (last n))
unfolding fib_loop fibonacci
fib_loop-from zero m n l h = absurd (omega arith)
fib_loop-from (suc fuel) m n l h =
    let (low, high) = last-bound n in
    let e = at_most-last m n (omega arith) in
    elim (dec_lt (suc m) (last n)) [
      | yes p ↦
          let t : leb (suc (suc m)) (last n) ≡ true = ground arith in
          let next : suc (suc m) + 1 ≡ suc (suc (suc m)) = omega arith in
          rw (e, t)
            (ap (λ i. fib_loop fuel i n (fibonacci (suc m) + fibonacci m) (fibonacci (suc m))) next
              ∙ fib_loop-from fuel (suc m) n p (omega arith))
      | no p ↦
          let t : leb (suc (suc m)) (last n) ≡ false = ground arith in
          let same : suc m ≡ last n = omega arith in rw (e, t) (ap (λ i. some (fibonacci i)) same)
    ]

fibonacci-step : (n : ℕ) → fibonacci n ≤ fibonacci (suc n)
unfolding fibonacci
fibonacci-step zero = omega arith
fibonacci-step (suc n) = omega arith

fibonacci-le : (m n : ℕ) → m ≤ n → fibonacci m ≤ fibonacci n
fibonacci-le m zero h = let e : m ≡ 0 = omega arith in omega (arith, ap fibonacci e)
fibonacci-le m (suc n) h = elim (dec_lt n m) [
  | yes p ↦ let e : m ≡ suc n = omega arith in omega (arith, ap fibonacci e)
  | no p ↦ omega (arith, fibonacci-le m n (omega arith), fibonacci-step n)
]

fibonacci-30 : fibonacci 30 < 2 ^ 31
unfolding fibonacci
fibonacci-30 = omega arith

-- fib ends for every number, and its answer fits an int: it is the Fibonacci number of n if n is from 1 to 30, the
-- first one for a smaller n, and the thirtieth for a greater one.
fib-fibonacci : (n : ℤ) → (fib n ≡ some (fibonacci (last n))) × (fibonacci (last n) < 2 ^ 31)
unfolding fib fibonacci
fib-fibonacci n =
    let (low, high) = last-bound n in
    (
      fib_loop-from 30 0 n (omega arith) (omega arith),
      omega (arith, fibonacci-le (last n) 30 high, fibonacci-30),
    )
