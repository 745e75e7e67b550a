-- ===== src/Examples/EmulatorRuns.antt =====
-- Runs of the testbench with a small core: four threads in turn, which all commit, and a test that passes in
-- the third cycle.
use flexpret.Common.{
  leb, none, List, ◌∷◌, [], ◌++◌, ℕ, ◌+◌, ◌%◌, ◌-◌, ◌*◌, ◌/◌, ◌<◌, ◌≤◌, ◌≡◌, ◌==◌, ◌||◌,
  if◌then◌else◌, length, refl, true, false, some, arith,
}
use flexpret.Common.Int.{pos, negsuc}
use flexpret.Emulator.{Core, Pins, Bench}
use flexpret.Emulator.Loop.{simulate, run_test, tb_os, tb}
use flexpret.Emulator.Verdict.{verdict, host_at, run_test-verdict}
use flexpret.Emulator.Counters.{Ordered, Counts, simulate-Ordered}
use flexpret.Emulator.Chars.{thread_output}
use flexpret.Emulator.Written.{written, FewChars, written-bound, simulate-written}
use flexpret.Emulator.CommandLine.{Current, to_uint64, all_known, last_max}
use flexpret.Emulator.Main.{main, main-ends}
use flexpret.Emulator.Sweep.{run_tests, sweep_configs, timeouts, run_tests-late}

abbrev pins : ℕ → Pins
pins k = record {
  bus_enable = true;
  bus_write = true;
  bus_addr = (k % 4) * 128;
  bus_data = 65 + k;
  gpio_out = λ i. if i == 0 then k / 2 else 0;
  to_host = if k == 2 then 1 else 0;
  if_valid = true;
  if_tid = k % 4;
  csr_write = k == 1;
  csr_addr = 0x50F;
  exe_valid = true;
}

abbrev core : Core
core = record { dec_inst = λ k. 0x13; pins = λ k int_ext. pins k }

abbrev bench : Bench
bench = record {
  cycle = 0;
  done = false;
  fail = false;
  int_ext = false;
  tohost_prev = 0;
  gpio_prev = λ i. 0;
  if_valid = false;
  if_tid = 0;
  dec_valid = false;
  dec_tid = 0;
  exe_tid = 0;
  counter = λ i. 0;
  io_buf = λ i. 0;
  io_buf_len = λ t. 0;
  tmp_file = λ t. [];
  valid_inst = 0;
  lines = [];
}

-- The run: three cycles and a pass.
bench_cycles : (verdict (host_at core) 0 0 5).cycles ≡ 3
unfolding verdict
bench_cycles = refl

run_test-verdict_example :
    let r = verdict (host_at core) 0 0 5 in
    (b' : Bench) × (run_test tb_os core 5 6 bench ≡ some b')
    × (b'.done ≡ r.done)
    × (b'.fail ≡ (false || r.fail || leb 5 r.cycles))
    × (b'.cycle ≡ r.cycles)
run_test-verdict_example =
    run_test-verdict tb_os core 5 5 6 bench refl (omega arith) refl (omega arith) (omega arith)

bench-Counts : Counts bench
unfolding Ordered
bench-Counts = record {
  ordered = λ i l. (omega arith, omega arith, omega arith);
  threads = record { fetched = omega arith; decoded = omega arith };
}

simulate-Ordered_example :
    (b' : Bench) × (simulate tb_os core 5 6 bench ≡ some b') × Ordered b'.counter b'.cycle
simulate-Ordered_example =
    simulate-Ordered tb_os core 5 5 6 bench (λ k. omega arith) bench-Counts refl (omega arith) refl
      (omega arith) (omega arith)

-- The options `--maxcycles 5 --sweep`, where 4096 is the address of "5".
abbrev options : List Current
options = Current.letter b'm' 4096 ∷ Current.set_sweep ∷ []

limit : last_max (λ a. pos 5) 0 options ≡ 5
unfolding last_max to_uint64
limit = refl

main-ends_example :
    (all_known options ≡ true
      → (b' : Bench) × (main tb_os (λ a. pos 5) (λ i d c. core) 2 6 options bench
          ≡ some (pos 0, some b'))
        × (b'.cycle ≤ last_max (λ a. pos 5) 0 options))
    × (all_known options ≡ false
        → main tb_os (λ a. pos 5) (λ i d c. core) 2 6 options bench ≡ some (negsuc 0, none))
main-ends_example =
    main-ends tb_os (λ a. pos 5) (λ i d c. core) 2 6 options bench (omega (arith, limit))
      (omega (arith, limit))

run_tests-late_example :
    (b' : Bench) × (run_tests tb (λ c. core) 5 6 (sweep_configs true 2) (record bench { cycle = 5 })
      ≡ some b')
    × (b'.cycle ≡ 5)
    × (b'.lines ≡ [] ++ timeouts (length (sweep_configs true 2)))
run_tests-late_example =
    run_tests-late tb (λ c. core) 5 6 (sweep_configs true 2) (record bench { cycle = 5 })
      (omega arith) (omega arith) (omega arith)

core-FewChars : FewChars core 0 5
core-FewChars = record {
  threads = λ k q. omega arith;
  few = λ t l. omega (arith, written-bound core t 0 5);
}

simulate-written_example :
    (b' : Bench) × (simulate tb_os core 5 6 bench ≡ some b')
    × ((t : ℕ)
        → t < 8
        → (thread_output b' t ≡ written core t 0 (b'.cycle - 0))
          × (b'.tmp_file t ≡ written core t 0 (b'.cycle - 0)))
simulate-written_example =
    simulate-written core 0 5 core-FewChars 5 6 bench refl (λ t l. (refl, refl)) refl (omega arith)
      refl (omega arith) (omega arith)
