-- ===== src/Emulator/Sweep.antt =====
-- The tests of a run of the testbench: one for each configuration of the hardware threads.
use mathlib.Core.List.{append-nil, append_assoc}
use flexpret.Common.{
  ℕ, zero, suc, ◌+◌, ◌<◌, ◌≤◌, ◌≡◌, ◌%◌, ◌==◌, ◌-◌, ◌^◌, refl, sym, ap, ◌∙◌, Bool, true, false,
  Option, none, some, List, [], ◌∷◌, ◌++◌, ltb, if◌then◌else◌, length, arith,
}
use flexpret.Emulator.{Core, Variant, Bench, Line, print_line}
use flexpret.Emulator.Loop.{simulate, check_timeout, run_test}
use flexpret.Emulator.Verdict.{host_at, simulate-stops, run_test-verdict, verdict-cycles}

-- A configuration: the active hardware thread, and its frequency 1/f.
pub record Config : Type 0 where
  pub thread : ℕ
  pub frequency : ℕ

-- LIT<4>(h != i): the mode of thread i
abbrev pub tmode : Config → ℕ → ℕ
tmode c i = if c.thread == i then 0 else 1

-- The slots: the active thread in slot 0, then soft threads (14) to achieve f, then none (15).
slot : Config → ℕ → ℕ
slot c i = if i == 0 then c.thread % 2 ^ 4 else if ltb i c.frequency then 14 else 15

-- The frequencies f, ..., f + n - 1 of a thread
frequencies : ℕ → ℕ → ℕ → List Config
frequencies h f zero = []
frequencies h f (suc n) = record { thread = h; frequency = f } ∷ frequencies h (f + 1) n

-- The loops `for h < h_e` and `for f_s <= f <= f_e`, with `n` threads left
pub configs : ℕ → ℕ → ℕ → ℕ → List Config
unfolding frequencies
configs h f_s f_e zero = []
configs h f_s f_e (suc n) = frequencies h f_s (f_e + 1 - f_s) ++ configs (h + 1) f_s f_e n

-- What main starts a run with; h_e, f_s and f_e are 1 without FLEXPRET's sweep.
abbrev pub sweep_configs : Bool → ℕ → List Config
sweep_configs sweep threads = if sweep then configs 0 1 8 threads else configs 0 1 1 1

-- The variables that a test initialises. `cycle`, `fail` and what is printed are main's.
start_test : Bench → Bench
start_test b = record b {
  done = false;
  tohost_prev = 0;
  gpio_prev = λ i. 0;
  counter = λ i. if ltb i 12 then 0 else b.counter i;
  io_buf_len = λ t. 0;
  tmp_file = λ t. [];
  valid_inst = 0;
}

-- The tests, one after the other; the core depends on the configuration.
pub run_tests : Variant → (Config → Core) → ℕ → ℕ → List Config → Bench → Option Bench
unfolding run_test start_test
run_tests v core max_cycles fuel [] b = some b
run_tests v core max_cycles fuel (c ∷ cs) b =
    elim (run_test v (core c) max_cycles fuel (start_test b)) [
      | none ↦ none
      | some b' ↦ run_tests v core max_cycles fuel cs b'
    ]

-- n times the line of a timeout
abbrev pub timeouts : ℕ → List Line
timeouts zero = []
timeouts (suc n) = Line.timed_out ∷ timeouts n

simulate-late :
    (v : Variant) (core : Core) (max_cycles fuel : ℕ) (b : Bench)
    → 0 < max_cycles
    → 0 < fuel
    → max_cycles ≤ b.cycle
    → simulate v core max_cycles fuel b ≡ some b
simulate-late v core max_cycles zero b l m h = absurd (omega arith)
simulate-late v core max_cycles (suc fuel) b l m h = simulate-stops v core max_cycles fuel b l h

module _ (v : Variant) (core : Config → Core) (max_cycles fuel : ℕ) where
  run_tests-step :
      (c : Config) (cs : List Config) (b b' : Bench)
      → run_test v (core c) max_cycles fuel (start_test b) ≡ some b'
      → run_tests v core max_cycles fuel (c ∷ cs) b ≡ run_tests v core max_cycles fuel cs b'
  unfolding run_tests
  run_tests-step c cs b b' e =
      ap (λ o. elim o [ none ↦ none | some x ↦ run_tests v core max_cycles fuel cs x ]) e

  -- All tests of a run end, when the limit is not 0 and the fuel is above it, and together they take no more
  -- cycles than the limit of one: `cycle` is not reset between them.
  pub run_tests-ends :
      (cs : List Config) (b : Bench)
      → 0 < max_cycles
      → max_cycles < 2 ^ 64
      → max_cycles < fuel
      → b.cycle ≤ max_cycles
      → (b' : Bench) × (run_tests v core max_cycles fuel cs b ≡ some b') × (b'.cycle ≤ max_cycles)
  unfolding start_test run_tests
  run_tests-ends [] b l w m h = (b, refl, h)
  run_tests-ends (c ∷ cs) b l w m h =
      let left = max_cycles - b.cycle in
      let (x, e, d, f, y) =
        run_test-verdict v (core c) max_cycles left fuel (start_test b) refl l (omega arith) w
          (omega arith) in
      let k = verdict-cycles (host_at (core c)) 0 b.cycle left in
      let (b', r, q) = run_tests-ends cs x l w m (omega arith) in
      (b', run_tests-step c cs b x e ∙ r, q)

  -- A test that begins at the limit.
  timed_test : Bench → Bench
  timed_test b = record (print_line Line.timed_out (start_test b)) { fail = true }

  check_timeout-late :
      (b : Bench)
      → max_cycles ≤ b.cycle
      → check_timeout max_cycles b ≡ record (print_line Line.timed_out b) { fail = true }
  unfolding check_timeout
  check_timeout-late b h = ground arith

  late :
      (c : Config) (b : Bench)
      → 0 < max_cycles
      → 0 < fuel
      → max_cycles ≤ b.cycle
      → run_test v (core c) max_cycles fuel (start_test b) ≡ some (timed_test b)
  unfolding run_test start_test timed_test check_timeout
  late c b l m h =
      ap (λ o. elim o [ none ↦ none | some x ↦ some (check_timeout max_cycles x) ])
        (simulate-late v (core c) max_cycles fuel (start_test b) l m h)
      ∙ ap some (check_timeout-late (start_test b) h)

  -- Once a test has reached the limit, every later test of the run simulates no cycle and times out.
  pub run_tests-late :
      (cs : List Config) (b : Bench)
      → 0 < max_cycles
      → 0 < fuel
      → max_cycles ≤ b.cycle
      → (b' : Bench) × (run_tests v core max_cycles fuel cs b ≡ some b')
        × (b'.cycle ≡ b.cycle)
        × (b'.lines ≡ b.lines ++ timeouts (length cs))
  unfolding run_tests start_test timed_test
  run_tests-late [] b l m h = (b, refl, refl, sym (append-nil b.lines))
  run_tests-late (c ∷ cs) b l m h =
      let (b', r, q, k) = run_tests-late cs (timed_test b) l m h in
      (
        b',
        run_tests-step c cs b (timed_test b) (late c b l m h) ∙ r,
        q,
        k ∙ append_assoc b.lines (Line.timed_out ∷ []) (timeouts (length cs)),
      )

-- The slots that are not disabled, of n from slot i on.
enabled : Config → ℕ → ℕ → ℕ
enabled c i zero = 0
enabled c i (suc n) = let rest = enabled c (i + 1) n in if slot c i == 15 then rest else rest + 1

enabled-slot :
    (c : Config) (i n : ℕ) → 0 < i → c.frequency ≤ i + n → enabled c i n ≡ c.frequency - i
unfolding enabled slot
enabled-slot c i zero l h = omega arith
enabled-slot c i (suc n) l h =
    let rest = enabled-slot c (i + 1) n (omega arith) (omega arith) in ground arith

-- A configuration of a thread below 15 and a frequency 1/f, f from 1 to 8: of the eight slots, f are enabled,
-- and one of these, the first, is the thread's own.
slot-frequency :
    (c : Config)
    → c.thread < 15
    → 0 < c.frequency
    → c.frequency ≤ 8
    → (enabled c 0 8 ≡ c.frequency) × (slot c 0 ≡ c.thread) × ((i : ℕ) → 0 < i → 14 ≤ slot c i)
unfolding enabled slot
slot-frequency c t l h =
    let rest = enabled-slot c 1 7 (omega arith) h in
    (ground arith, omega arith, λ i m. ground arith)
