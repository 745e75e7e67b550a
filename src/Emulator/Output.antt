-- ===== src/Emulator/Output.antt =====
-- The parts of the loop that only print: write_char, watch_gpio and print_counters.
use flexpret.Common.{
  ℕ, zero, suc, ◌+◌, ◌≡◌, refl, ◌∙◌, Bool, true, false, ◌&&◌, ◌==◌, if◌then◌else◌, update,
}
use flexpret.Emulator.{
  Line, print_line, Variant, Pins, Bench, write_char, watch_gpio, print_counters, processor_cycles,
  thread_cycles, commit_cycles,
}

-- Only what is printed and the last values of the GPIO ports may differ.
pub record OnlyPrints (b b' : Bench) : Type 0 where
  pub cycle : b'.cycle ≡ b.cycle
  pub done : b'.done ≡ b.done
  pub fail : b'.fail ≡ b.fail
  pub prev : b'.tohost_prev ≡ b.tohost_prev
  pub counter : b'.counter ≡ b.counter
  pub if_tid : b'.if_tid ≡ b.if_tid
  pub dec_tid : b'.dec_tid ≡ b.dec_tid
  pub exe_tid : b'.exe_tid ≡ b.exe_tid

OnlyPrints-trans : (a b c : Bench) → OnlyPrints a b → OnlyPrints b c → OnlyPrints a c
OnlyPrints-trans a b c p q = record {
  cycle = q.cycle ∙ p.cycle;
  done = q.done ∙ p.done;
  fail = q.fail ∙ p.fail;
  prev = q.prev ∙ p.prev;
  counter = q.counter ∙ p.counter;
  if_tid = q.if_tid ∙ p.if_tid;
  dec_tid = q.dec_tid ∙ p.dec_tid;
  exe_tid = q.exe_tid ∙ p.exe_tid;
}

if-OnlyPrints :
    (t : Bool) (b x y : Bench) → OnlyPrints b x → OnlyPrints b y → OnlyPrints b (if t then x else y)
if-OnlyPrints true b x y p q = p
if-OnlyPrints false b x y p q = q

same : (b : Bench) → OnlyPrints b b
same b = record {
  cycle = refl;
  done = refl;
  fail = refl;
  prev = refl;
  counter = refl;
  if_tid = refl;
  dec_tid = refl;
  exe_tid = refl;
}

print_line-OnlyPrints : (l : Line) (b : Bench) → OnlyPrints b (print_line l b)
print_line-OnlyPrints l b = record {
  cycle = refl;
  done = refl;
  fail = refl;
  prev = refl;
  counter = refl;
  if_tid = refl;
  dec_tid = refl;
  exe_tid = refl;
}

module _ (v : Variant) (p : Pins) where
  write_char-OnlyPrints : (b : Bench) → OnlyPrints b (write_char v p b)
  unfolding write_char
  write_char-OnlyPrints b =
      if-OnlyPrints (p.bus_enable && p.bus_write) b _ b
        (if-OnlyPrints v.buffered b _ _
          (record {
            cycle = refl;
            done = refl;
            fail = refl;
            prev = refl;
            counter = refl;
            if_tid = refl;
            dec_tid = refl;
            exe_tid = refl;
          })
          (record {
            cycle = refl;
            done = refl;
            fail = refl;
            prev = refl;
            counter = refl;
            if_tid = refl;
            dec_tid = refl;
            exe_tid = refl;
          }))
        (same b)

  watch_gpio-OnlyPrints : (n i : ℕ) (b : Bench) → OnlyPrints b (watch_gpio n i p b)
  unfolding watch_gpio
  watch_gpio-OnlyPrints zero i b = same b
  watch_gpio-OnlyPrints (suc n) i b =
      let l = Line.gpio_changed i b.cycle (p.gpio_out i) in
      let line = if p.gpio_out i == b.gpio_prev i then b else print_line l b in
      let said =
        if-OnlyPrints (p.gpio_out i == b.gpio_prev i) b b (print_line l b) (same b)
          (print_line-OnlyPrints l b) in
      let next = record line { gpio_prev = update b.gpio_prev i (p.gpio_out i) } in
      OnlyPrints-trans b line (watch_gpio n (i + 1) p next) said (
        OnlyPrints-trans line next _
          (record {
            cycle = refl;
            done = refl;
            fail = refl;
            prev = refl;
            counter = refl;
            if_tid = refl;
            dec_tid = refl;
            exe_tid = refl;
          })
          (watch_gpio-OnlyPrints n (i + 1) next))

  pub print_counters-OnlyPrints : (b : Bench) → OnlyPrints b (print_counters v p b)
  unfolding print_counters
  print_counters-OnlyPrints b =
      let l =
        Line.counted b.cycle b.exe_tid (b.counter (processor_cycles b.exe_tid))
          (b.counter (thread_cycles b.exe_tid)) (b.counter (commit_cycles b.exe_tid)) in
      if-OnlyPrints (p.csr_write && p.csr_addr == v.print_csr) b (print_line l b) b
        (print_line-OnlyPrints l b) (same b)

  -- What comes before the test of to_host.
  pub before : (b : Bench) → OnlyPrints b (watch_gpio 4 0 p (write_char v p b))
  before b =
      OnlyPrints-trans b (write_char v p b) _ (write_char-OnlyPrints b)
        (watch_gpio-OnlyPrints 4 0 (write_char v p b))
