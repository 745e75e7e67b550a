-- ===== src/Emulator.antt =====
-- The testbenches of emulator/testbench: Core-tb-os.cpp, Core-tb.cpp and Core-tb-sboth.cpp. The generated
-- core is a parameter: what its pins and registers show in each cycle. VCD dumps, traces and the file
-- of statistics are left out.
pub mod Loop
pub mod Output
pub mod Counters
pub mod Verdict
pub mod Sweep
pub mod Chars
pub mod Keeps
pub mod Written
pub mod CommandLine
pub mod Main
use flexpret.Common.{
  ℕ, zero, suc, ◌+◌, ◌*◌, ◌/◌, ◌%◌, ◌^◌, Bool, true, false, not, ◌&&◌, ◌||◌, List, [], ◌∷◌, ◌++◌,
  ◌==◌, ltb, leb, if◌then◌else◌, update,
}

-- What the core shows in a cycle.
pub record Pins : Type 0 where
  pub bus_enable : Bool
  pub bus_write : Bool
  pub bus_addr : ℕ
  pub bus_data : ℕ
  pub gpio_out : ℕ → ℕ
  pub to_host : ℕ
  pub if_valid : Bool
  pub if_tid : ℕ
  pub csr_write : Bool
  pub csr_addr : ℕ
  pub exe_valid : Bool

-- The core: the instruction that is decoded when a cycle begins, and the pins in the cycle, given the
-- external interrupt.
pub record Core : Type 0 where
  pub dec_inst : ℕ → ℕ
  pub pins : ℕ → Bool → Pins

-- What differs between the testbenches: the CSRs that print and reset the counters, and whether
-- characters are kept in buffers or printed at once.
pub record Variant : Type 0 where
  pub print_csr : ℕ
  pub reset_csr : ℕ
  pub buffered : Bool

-- The lines that are printed; a character is one of the programs'.
pub data Line : Type 0 where
  character : (char : ℕ) → Line
  gpio_changed : (port cycle value : ℕ) → Line
  passed : Line
  failed : (test : ℕ) → Line
  counted : (cycle tid processor thread commit : ℕ) → Line
  timed_out : Line

-- The variables of main that the loop changes. The struct `counter` is the memory of its three arrays of
-- four words, one after the other; `io_buf` is the memory of THREADS arrays of 4096 characters.
pub record Bench : Type 0 where
  pub cycle : ℕ
  pub done : Bool
  pub fail : Bool
  pub int_ext : Bool
  pub tohost_prev : ℕ
  pub gpio_prev : ℕ → ℕ
  pub if_valid : Bool
  pub if_tid : ℕ
  pub dec_valid : Bool
  pub dec_tid : ℕ
  pub exe_tid : ℕ
  pub counter : ℕ → ℕ
  pub io_buf : ℕ → ℕ
  pub io_buf_len : ℕ → ℕ
  pub tmp_file : ℕ → List ℕ
  pub valid_inst : ℕ
  pub lines : List Line

-- counter.processor_cycles[i], counter.thread_cycles[i] and counter.commit_cycles[i]
abbrev pub processor_cycles : ℕ → ℕ
processor_cycles i = i

abbrev pub thread_cycles : ℕ → ℕ
thread_cycles i = 4 + i

abbrev pub commit_cycles : ℕ → ℕ
commit_cycles i = 8 + i

abbrev pub print_line : Line → Bench → Bench
print_line l b = record b { lines = b.lines ++ l ∷ [] }

-- The interrupt is driven while `csrr a0, frm` is decoded.
abbrev pub drive_interrupt : Core → Bench → Bench
drive_interrupt core b = record b { int_ext = core.dec_inst b.cycle == 0x00202573 }

-- io_buf[t][k]
abbrev pub io_at : ℕ → ℕ → ℕ
io_at t k = t * 4096 + k

-- sprintf to the buffer of thread t, fprintf to its file, and io_buf_len[t]++
abbrev pub put_char : ℕ → ℕ → Bench → Bench
put_char t c b =
    let i = io_at t (b.io_buf_len t) in
    record b {
      io_buf = update (update b.io_buf i c) (i + 1) 0;
      tmp_file = update b.tmp_file t (b.tmp_file t ++ c ∷ []);
      io_buf_len = update b.io_buf_len t (b.io_buf_len t + 1);
    }

-- A write on the bus is a character of the thread that the address names.
unfoldable pub write_char : Variant → Pins → Bench → Bench
write_char v p b =
    if p.bus_enable && p.bus_write
    then (if v.buffered
        then put_char (p.bus_addr / 2 ^ 7) (p.bus_data % 256) b
        else print_line (Line.character (p.bus_data % 256)) b)
    else b

-- The loop over the four GPIO ports, from port i on, with `n` left.
unfoldable pub watch_gpio : ℕ → ℕ → Pins → Bench → Bench
watch_gpio zero i p b = b
watch_gpio (suc n) i p b =
    watch_gpio n (i + 1) p
      (record (if p.gpio_out i == b.gpio_prev i
        then b
        else print_line (Line.gpio_changed i b.cycle (p.gpio_out i)) b) {
          gpio_prev = update b.gpio_prev i (p.gpio_out i);
        })

-- A change of to_host ends the test.
unfoldable pub watch_host : Pins → Bench → Bench
watch_host p b =
    let h = p.to_host in
    let ended =
      if h == b.tohost_prev
      then b
      else if h == 1
      then record (print_line Line.passed b) { done = true }
      else if ltb 1 h
      then record (print_line (Line.failed h) b) { fail = true; done = true }
      else b in
    record ended { tohost_prev = h }

-- The scheduling decision, until the execute stage.
abbrev pub shift_stages : Pins → Bench → Bench
shift_stages p b = record b {
  exe_tid = b.dec_tid;
  dec_valid = b.if_valid;
  dec_tid = b.if_tid;
  if_valid = p.if_valid;
  if_tid = p.if_tid;
}

unfoldable pub print_counters : Variant → Pins → Bench → Bench
print_counters v p b =
    if p.csr_write && p.csr_addr == v.print_csr
    then print_line
        (Line.counted b.cycle b.exe_tid (b.counter (processor_cycles b.exe_tid))
          (b.counter (thread_cycles b.exe_tid)) (b.counter (commit_cycles b.exe_tid)))
        b
    else b

-- A word of the counters, one more; uint64_t wraps.
abbrev pub count_word : (ℕ → ℕ) → ℕ → ℕ → ℕ
count_word f w = update f w ((f w + 1) % 2 ^ 64)

unfoldable pub count_cycle : Pins → Bench → Bench
count_cycle p b =
    let all = count_word (count_word (count_word (count_word b.counter 0) 1) 2) 3 in
    let thread = count_word all (thread_cycles b.exe_tid) in
    record b {
      counter = if p.exe_valid then count_word thread (commit_cycles b.exe_tid) else thread;
    }

unfoldable pub reset_counters : Variant → Pins → Bench → Bench
reset_counters v p b =
    if p.csr_write && p.csr_addr == v.reset_csr
    then record b {
      counter =
          update
            (update (update b.counter (processor_cycles b.exe_tid) 0) (thread_cycles b.exe_tid) 0)
            (commit_cycles b.exe_tid) 0;
    }
    else b

-- valid_inst++, where the testbench counts instructions
abbrev pub count_inst : Variant → Pins → Bench → Bench
count_inst v p b = record b {
  valid_inst = if v.buffered && p.exe_valid then (b.valid_inst + 1) % 2 ^ 64 else b.valid_inst;
}

-- cycle++; uint64_t wraps.
abbrev pub next_cycle : Bench → Bench
next_cycle b = record b { cycle = (b.cycle + 1) % 2 ^ 64 }
