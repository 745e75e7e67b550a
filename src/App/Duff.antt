-- ===== src/App/Duff.antt =====
-- src/os/app/duff.c: Duff's device copies like memcpy.
use Prim.Native.Nat.{ℕ}
use flexpret.Common.{
  zero, suc, ◌+◌, ◌-◌, ◌*◌, ◌/◌, ◌%◌, ◌<◌, ◌≡◌, refl, ap, ◌∙◌, ◌==◌, if◌then◌else◌, update, arith,
}
use flexpret.Strings.{Memory, memcpy, copy_bytes}

-- Where `to` and `from` point, and the memory.
pub record Copying : Type 0 where
  pub to : ℕ
  pub from : ℕ
  pub memory : Memory

-- *to++ = *from++;
abbrev pub copy_one : Copying → Copying
copy_one k = record {
  to = k.to + 1;
  from = k.from + 1;
  memory = update k.memory k.to (k.memory k.from);
}

-- The statements from the label `case n` to the end of the loop's body (`case 0` has eight).
unfoldable pub copy_run : ℕ → Copying → Copying
copy_run zero k = k
copy_run (suc n) k = copy_run n (copy_one k)

-- The rounds that follow the first, each of the whole body.
unfoldable pub copy_rounds : ℕ → Copying → Copying
unfolding copy_run
copy_rounds zero k = k
copy_rounds (suc n) k = copy_rounds n (copy_run 8 k)

-- duffcopy: the switch jumps into the body, which always runs once; then --n > 0 is tested.
unfoldable pub duffcopy : ℕ → ℕ → ℕ → Memory → Memory
unfolding copy_rounds
duffcopy to from count m =
    let n = (count + 7) / 8 in
    let entry = if count % 8 == 0 then 8 else count % 8 in
    (copy_rounds (n - 1) (copy_run entry (record { to = to; from = from; memory = m }))).memory

-- The loop of initialize, with `left` elements to write from index i on.
unfoldable pub initialize_from : ℕ → ℕ → ℕ → ℕ → Memory → Memory
initialize_from zero i arr length m = m
initialize_from (suc left) i arr length m =
    initialize_from left (i + 1) arr length (update m (arr + i) ((length - i) % 256))

-- initialize
unfoldable pub initialize : ℕ → ℕ → Memory → Memory
unfolding initialize_from
initialize arr length m = initialize_from length 0 arr length m

-- ARRAYSIZE and INVOCATION_COUNT
abbrev pub array_size : ℕ
array_size = 100

abbrev pub invocation_count : ℕ
invocation_count = 43

-- duff_main, for the arrays at `source` and `target`
unfoldable pub duff_main : ℕ → ℕ → Memory → Memory
unfolding duffcopy initialize
duff_main source target m = duffcopy source target invocation_count (initialize source array_size m)

copy_run-run : (a b : ℕ) (k : Copying) → copy_run b (copy_run a k) ≡ copy_run (a + b) k
unfolding copy_run
copy_run-run zero b k = let e : b ≡ 0 + b = omega arith in ap (λ n. copy_run n k) e
copy_run-run (suc a) b k =
    let e : suc (a + b) ≡ suc a + b = omega arith in
    copy_run-run a b (copy_one k) ∙ ap (λ n. copy_run n k) e

copy_rounds-run : (n : ℕ) (k : Copying) → copy_rounds n k ≡ copy_run (8 * n) k
unfolding copy_rounds
copy_rounds-run zero k = refl
copy_rounds-run (suc n) k =
    let e : 8 + 8 * n ≡ 8 * suc n = omega arith in
    copy_rounds-run n (copy_run 8 k) ∙ copy_run-run 8 (8 * n) k ∙ ap (λ j. copy_run j k) e

-- The statements one after the other are the loop of memcpy.
copy_run-bytes :
    (n i to from a b : ℕ) (m : Memory)
    → a ≡ to + i
    → b ≡ from + i
    → (copy_run n (record { to = a; from = b; memory = m })).memory ≡ copy_bytes n i to from m
unfolding copy_run copy_bytes
copy_run-bytes zero i to from a b m p q = refl
copy_run-bytes (suc n) i to from a b m p q =
    copy_run-bytes n (i + 1) to from (a + 1) (b + 1) (update m a (m b)) (omega arith) (omega arith)
    ∙ rw (p, q) refl

-- duffcopy of one byte or more leaves the memory that memcpy leaves, overlapping or not.
duffcopy-memcpy :
    (to from count : ℕ) (m : Memory)
    → 0 < count
    → duffcopy to from count m ≡ (memcpy to from count m).1
unfolding duffcopy memcpy
duffcopy-memcpy to from count m h =
    let n = (count + 7) / 8 in
    let entry = if count % 8 == 0 then 8 else count % 8 in
    let k : Copying = record { to = to; from = from; memory = m } in
    let total : entry + 8 * (n - 1) ≡ count = ground arith in
    ap (λ c. c.memory)
      (copy_rounds-run (n - 1) (copy_run entry k)
        ∙ copy_run-run entry (8 * (n - 1)) k
        ∙ ap (λ j. copy_run j k) total)
    ∙ copy_run-bytes count 0 to from to from m (omega arith) (omega arith)
