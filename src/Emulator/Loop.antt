-- ===== src/Emulator/Loop.antt =====
-- The simulation loop of the testbenches, and what follows it.
use flexpret.Common.{
  ℕ, zero, suc, true, false, not, ◌&&◌, ◌||◌, Option, none, some, ◌==◌, ltb, leb, if◌then◌else◌,
}
use flexpret.Emulator.{
  Core, Variant, Pins, Bench, Line, print_line, drive_interrupt, write_char, watch_gpio, watch_host,
  shift_stages, print_counters, count_cycle, reset_counters, count_inst, next_cycle,
}

-- The part of the loop's body that follows clock_lo.
unfoldable pub observe : Variant → Pins → Bench → Bench
unfolding write_char watch_gpio watch_host print_counters count_cycle reset_counters
observe v p b =
    let seen = watch_host p (watch_gpio 4 0 p (write_char v p b)) in
    let counted = count_cycle p (print_counters v p (shift_stages p seen)) in
    next_cycle (count_inst v p (reset_counters v p counted))

-- The pins of a cycle, with the interrupt that the testbench drives.
abbrev pub pins_at : Core → ℕ → Pins
pins_at core cycle = core.pins cycle (core.dec_inst cycle == 0x00202573)

-- The body of the loop.
unfoldable pub round : Variant → Core → Bench → Bench
unfolding observe
round v core b = let d = drive_interrupt core b in observe v (core.pins b.cycle d.int_ext) d

-- while (!done && (max_cycles == 0 || cycle < max_cycles)), with `fuel` tests of the condition
unfoldable pub simulate : Variant → Core → ℕ → ℕ → Bench → Option Bench
unfolding round
simulate v core max_cycles zero b = none
simulate v core max_cycles (suc fuel) b =
    let rest = simulate v core max_cycles fuel (round v core b) in
    if not b.done && (max_cycles == 0 || ltb b.cycle max_cycles) then rest else some b

-- The check for a timeout.
unfoldable pub check_timeout : ℕ → Bench → Bench
check_timeout max_cycles b =
    if leb max_cycles b.cycle then record (print_line Line.timed_out b) { fail = true } else b

-- A test: the loop and the check.
unfoldable pub run_test : Variant → Core → ℕ → ℕ → Bench → Option Bench
unfolding simulate check_timeout
run_test v core max_cycles fuel b = elim (simulate v core max_cycles fuel b) [
  | none ↦ none
  | some b' ↦ some (check_timeout max_cycles b')
]

-- The CSRs of the counters, and the output, in the three testbenches.
abbrev pub tb_os : Variant
tb_os = record { print_csr = 0x50F; reset_csr = 0x50E; buffered = true }

abbrev pub tb : Variant
tb = record { print_csr = 0xCCF; reset_csr = 0xCCE; buffered = false }

abbrev pub tb_sboth : Variant
tb_sboth = record { print_csr = 0xCCF; reset_csr = 0xCCE; buffered = false }

-- The loop and the check of Core-tb.cpp and of Core-tb-sboth.cpp
abbrev pub run_tb : Core → ℕ → ℕ → Bench → Option Bench
run_tb core max_cycles fuel b = run_test tb core max_cycles fuel b

abbrev pub run_tb_sboth : Core → ℕ → ℕ → Bench → Option Bench
run_tb_sboth core max_cycles fuel b = run_test tb_sboth core max_cycles fuel b
