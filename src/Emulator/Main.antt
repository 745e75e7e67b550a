-- ===== src/Emulator/Main.antt =====
-- main of the testbenches: the options of the command line, and the tests that they ask for.
use flexpret.Common.{ℕ, ◌<◌, ◌≤◌, ◌≡◌, ap, ◌∙◌, true, false, Option, none, some, List, [], arith}
use flexpret.Common.Int.{ℤ, pos, negsuc}
use flexpret.Emulator.{Core, Variant, Bench}
use flexpret.Emulator.Loop.{tb, tb_sboth}
use flexpret.Emulator.Sweep.{Config, sweep_configs, run_tests, run_tests-ends}
use flexpret.Emulator.CommandLine.{
  Current, Options, no_options, parse_options, all_known, last_max, last_max-bound,
  parse_options-known, parse_options-unknown,
}

-- The variables of main at its start; those of a test are set by the tests.
abbrev pub start_main : Bench → Bench
start_main b = record b { cycle = 0; done = false; fail = false; lines = [] }

-- What main returns after the tests.
abbrev value_of : Option Bench → Option (ℤ × Option Bench)
value_of none = none
value_of (some b) = some (pos 0, some b)

-- main behind its options
abbrev then_run :
    Variant → (ℕ → ℕ → Config → Core) → ℕ → ℕ → Bench → Option Options → Option (ℤ × Option Bench)
then_run v core threads fuel b none = some (negsuc 0, none)
then_run v core threads fuel b (some o) = value_of (
    run_tests v (core o.ispm_filename o.dspm_filename) o.max_cycles fuel
      (sweep_configs o.sweep threads) (start_main b))

-- main; `core` gives the core with the programs of the two files, for a configuration. The answer is main's
-- value, and the variables if the tests were made.
pub main :
    Variant
    → (ℕ → ℤ)
    → (ℕ → ℕ → Config → Core)
    → ℕ
    → ℕ
    → List Current
    → Bench
    → Option (ℤ × Option Bench)
unfolding parse_options
main v atoi core threads fuel options b =
    then_run v core threads fuel b (parse_options atoi options no_options)

-- main of Core-tb.cpp and of Core-tb-sboth.cpp, which has four threads
abbrev pub main_tb :
    (ℕ → ℤ) → (ℕ → ℕ → Config → Core) → ℕ → ℕ → List Current → Bench → Option (ℤ × Option Bench)
main_tb atoi core threads fuel options b = main tb atoi core threads fuel options b

abbrev pub main_tb_sboth :
    (ℕ → ℤ) → (ℕ → ℕ → Config → Core) → ℕ → List Current → Bench → Option (ℤ × Option Bench)
main_tb_sboth atoi core fuel options b = main tb_sboth atoi core 4 fuel options b

-- With a last --maxcycles that is not 0, and fuel above it, main ends. If every option is known its value is
-- 0, whatever the verdicts, and the tests have taken at most that many cycles together; if one is not, its value
-- is -1, and there are no tests.
pub main-ends :
    (v : Variant) (atoi : ℕ → ℤ) (core : ℕ → ℕ → Config → Core) (threads fuel : ℕ)
    (xs : List Current) (b : Bench)
    → 0 < last_max atoi 0 xs
    → last_max atoi 0 xs < fuel
    → (all_known xs ≡ true
        → (b' : Bench) × (main v atoi core threads fuel xs b ≡ some (pos 0, some b'))
          × (b'.cycle ≤ last_max atoi 0 xs))
      × (all_known xs ≡ false → main v atoi core threads fuel xs b ≡ some (negsuc 0, none))
unfolding main
main-ends v atoi core threads fuel xs b l h = (
  λ k.
      let (o, p, m) = parse_options-known atoi xs no_options k in
      let (b', r, q) =
        run_tests-ends v (core o.ispm_filename o.dspm_filename) o.max_cycles fuel
          (sweep_configs o.sweep threads) (start_main b) (omega arith)
          (omega (arith, last_max-bound atoi 0 xs (omega arith))) (omega arith) (omega arith) in
      (b', ap (then_run v core threads fuel b) p ∙ ap value_of r, omega arith),
  λ k. ap (then_run v core threads fuel b) (parse_options-unknown atoi xs no_options k),
)
