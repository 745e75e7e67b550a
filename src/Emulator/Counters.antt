-- ===== src/Emulator/Counters.antt =====
-- The counters of the testbenches: how they count, and for which threads.
use mathlib.Core.Path.{subst, transport}
use flexpret.Common.{
  ℕ, ◌+◌, ◌<◌, ◌≤◌, ◌≡◌, ◌^◌, ◌%◌, sym, ◌∙◌, Bool, true, false, ◌&&◌, some, ◌==◌, if◌then◌else◌,
  update, arith,
}
use flexpret.Emulator.{
  Core, Variant, Pins, Bench, write_char, watch_gpio, watch_host, shift_stages, print_counters,
  count_cycle, reset_counters, processor_cycles, thread_cycles, commit_cycles, drive_interrupt,
  count_word,
}
use flexpret.Emulator.Output.{print_counters-OnlyPrints, before}
use flexpret.Emulator.Keeps.{simulate-kept}
use flexpret.Emulator.Loop.{observe, pins_at, round, simulate}

-- The counters of the threads below 4 are ordered, below the number of cycles.
unfoldable pub Ordered : (ℕ → ℕ) → ℕ → Type 0
Ordered counter cycle =
    (i : ℕ)
    → i < 4
    → (counter (commit_cycles i) ≤ counter (thread_cycles i))
      × (counter (thread_cycles i) ≤ counter (processor_cycles i))
      × (counter (processor_cycles i) ≤ cycle)

-- The threads in the stages are below 4.
pub record FourThreads (b : Bench) : Type 0 where
  pub fetched : b.if_tid < 4
  pub decoded : b.dec_tid < 4

-- processor_cycles[i]++ for all four
all_processors : (ℕ → ℕ) → ℕ → ℕ
all_processors f = count_word (count_word (count_word (count_word f 0) 1) 2) 3

all_processors-below : (f : ℕ → ℕ) (i : ℕ) → i < 4 → all_processors f i ≡ (f i + 1) % 2 ^ 64
unfolding all_processors
all_processors-below f i l = ground arith

all_processors-above : (f : ℕ → ℕ) (i : ℕ) → 4 ≤ i → all_processors f i ≡ f i
unfolding all_processors
all_processors-above f i l = ground arith

module _ (f : ℕ → ℕ) (tid : ℕ) (l : tid < 4) (valid : Bool) where
  -- The counters after a cycle of thread tid.
  counted : ℕ → ℕ
  counted =
      let thread = count_word (all_processors f) (thread_cycles tid) in
      if valid then count_word thread (commit_cycles tid) else thread

  counted-processor :
      (i : ℕ) → i < 4 → counted (processor_cycles i) ≡ (f (processor_cycles i) + 1) % 2 ^ 64
  unfolding counted
  counted-processor i m = let e = all_processors-below f i m in ground arith

  counted-thread :
      (i : ℕ)
      → i < 4
      → counted (thread_cycles i)
        ≡ (if tid == i then (f (thread_cycles i) + 1) % 2 ^ 64 else f (thread_cycles i))
  unfolding counted
  counted-thread i m = let e = all_processors-above f (4 + i) (omega arith) in ground arith

  counted-commit :
      (i : ℕ)
      → i < 4
      → counted (commit_cycles i)
        ≡ (if valid && tid == i then (f (commit_cycles i) + 1) % 2 ^ 64 else f (commit_cycles i))
  unfolding counted
  counted-commit i m = let e = all_processors-above f (8 + i) (omega arith) in ground arith

watch_host-counter :
    (p : Pins) (b : Bench)
    → ((watch_host p b).counter ≡ b.counter)
      × ((watch_host p b).cycle ≡ b.cycle)
      × ((watch_host p b).if_tid ≡ b.if_tid)
      × ((watch_host p b).dec_tid ≡ b.dec_tid)
unfolding watch_host
watch_host-counter p b = (ground arith, ground arith, ground arith, ground arith)

counted-Ordered :
    (f : ℕ → ℕ) (tid : ℕ) (l : tid < 4) (valid : Bool) (cycle : ℕ)
    → cycle + 1 < 2 ^ 64
    → Ordered f cycle
    → Ordered (counted f tid l valid) (cycle + 1)
unfolding Ordered
counted-Ordered f tid l valid cycle w o i j =
    let (q, r, s) = o i j in
    let x = counted-processor f tid l valid i j in
    let y = counted-thread f tid l valid i j in
    let z = counted-commit f tid l valid i j in (ground arith, ground arith, ground arith)

count_cycle-Ordered :
    (p : Pins) (b : Bench)
    → b.exe_tid < 4
    → b.cycle + 1 < 2 ^ 64
    → Ordered b.counter b.cycle
    → Ordered (count_cycle p b).counter (b.cycle + 1)
unfolding count_cycle counted all_processors
count_cycle-Ordered p b l w o = counted-Ordered b.counter b.exe_tid l p.exe_valid b.cycle w o

cleared-Ordered :
    (f : ℕ → ℕ) (tid cycle : ℕ)
    → tid < 4
    → Ordered f cycle
    → Ordered
        (update
          (update (update f (processor_cycles tid) 0) (thread_cycles tid) 0)
          (commit_cycles tid)
          0)
        cycle
unfolding Ordered
cleared-Ordered f tid cycle l o i j =
    let (q, r, s) = o i j in (ground arith, ground arith, ground arith)

if-Ordered :
    (t : Bool) (x y : Bench) (cycle : ℕ)
    → Ordered x.counter cycle
    → Ordered y.counter cycle
    → Ordered (if t then x else y).counter cycle
if-Ordered true x y cycle p q = p
if-Ordered false x y cycle p q = q

reset_counters-Ordered :
    (v : Variant) (p : Pins) (b : Bench) (cycle : ℕ)
    → b.exe_tid < 4
    → Ordered b.counter cycle
    → Ordered (reset_counters v p b).counter cycle
unfolding reset_counters
reset_counters-Ordered v p b cycle l o =
    if-Ordered (p.csr_write && p.csr_addr == v.reset_csr) _ b cycle
      (cleared-Ordered b.counter b.exe_tid cycle l o) o

reset_counters-stages :
    (v : Variant) (p : Pins) (b : Bench)
    → ((reset_counters v p b).if_tid ≡ b.if_tid)
      × ((reset_counters v p b).dec_tid ≡ b.dec_tid)
      × ((reset_counters v p b).cycle ≡ b.cycle)
unfolding reset_counters
reset_counters-stages v p b = (ground arith, ground arith, ground arith)

-- The counters are ordered, and the stages hold four threads.
pub record Counts (b : Bench) : Type 0 where
  pub ordered : Ordered b.counter b.cycle
  pub threads : FourThreads b

observe-Counts :
    (v : Variant) (p : Pins) (b : Bench)
    → p.if_tid < 4
    → b.cycle + 1 < 2 ^ 64
    → Counts b
    → Counts (observe v p b)
unfolding observe
observe-Counts v p b t w k =
    let m = watch_gpio 4 0 p (write_char v p b) in
    let u = before v p b in
    let h = watch_host p m in
    let (hc, hy, hi, hd) = watch_host-counter p m in
    let s = shift_stages p h in
    let c = print_counters v p s in
    let q = print_counters-OnlyPrints v p s in
    let exe : c.exe_tid ≡ b.dec_tid = q.exe_tid ∙ hd ∙ u.dec_tid in
    let counter : c.counter ≡ b.counter = q.counter ∙ hc ∙ u.counter in
    let cycle : c.cycle ≡ b.cycle = q.cycle ∙ hy ∙ u.cycle in
    let n = count_cycle p c in
    let (ri, rd, ry) = reset_counters-stages v p n in
    let o =
      reset_counters-Ordered v p n (c.cycle + 1) (subst (λ x. x < 4) (sym exe) k.threads.decoded) (
        count_cycle-Ordered p c (subst (λ x. x < 4) (sym exe) k.threads.decoded)
          (subst (λ x. x + 1 < 2 ^ 64) (sym cycle) w)
          (transport (λ i. Ordered (sym counter i) (sym cycle i)) k.ordered)) in
    record {
      ordered = subst (λ x. Ordered (observe v p b).counter x) (omega arith) o;
      threads = record {
        fetched = subst (λ x. x < 4) (sym (ri ∙ q.if_tid)) t;
        decoded = subst (λ x. x < 4) (sym (rd ∙ q.dec_tid ∙ hi ∙ u.if_tid)) k.threads.fetched;
      };
    }

-- A test as in run_test-verdict, whose core has four threads, begun with counters that are ordered (all of
-- them 0, for one): it ends, and for each thread below 4 there are not more cycles with a commit than cycles
-- of the thread, not more of those than cycles of the processor, and not more of those than cycles simulated.
pub simulate-Ordered :
    (v : Variant) (core : Core) (max_cycles n fuel : ℕ) (b : Bench)
    → ((k : ℕ) → (pins_at core k).if_tid < 4)
    → Counts b
    → b.done ≡ false
    → 0 < max_cycles
    → b.cycle + n ≡ max_cycles
    → max_cycles < 2 ^ 64
    → n < fuel
    → (b' : Bench) × (simulate v core max_cycles fuel b ≡ some b') × Ordered b'.counter b'.cycle
unfolding round
simulate-Ordered v core max_cycles n fuel b t c d l e w m =
    let (b', s, q) =
      simulate-kept v core max_cycles Counts
        (λ a u q.
          observe-Counts v (pins_at core a.cycle) (drive_interrupt core a) (t a.cycle) (omega arith)
            (record {
              ordered = q.ordered;
              threads = record { fetched = q.threads.fetched; decoded = q.threads.decoded };
            }))
        n fuel b c d l e w m in
    (b', s, q.ordered)
