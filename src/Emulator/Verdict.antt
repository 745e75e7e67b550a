-- ===== src/Emulator/Verdict.antt =====
-- A test ends, and its verdict is the first change of to_host, or a timeout.
use flexpret.Common.{
  ℕ, zero, suc, ◌+◌, ◌<◌, ◌%◌, ◌^◌, ◌≤◌, ◌≡◌, refl, sym, ap, ◌∙◌, Bool, true, false, not, ◌&&◌,
  ◌||◌, Bool-cases, Option, none, some, inl, inr, ◌⊎◌, ◌==◌, ltb, leb, if◌then◌else◌, arith,
}
use flexpret.Emulator.{
  Core, Variant, Pins, Bench, write_char, watch_gpio, watch_host, shift_stages, print_counters,
  count_cycle, reset_counters, drive_interrupt,
}
use flexpret.Emulator.Output.{print_counters-OnlyPrints, before}
use flexpret.Emulator.Loop.{observe, pins_at, round, simulate, check_timeout, run_test}

-- The verdict, and the number of cycles.
pub record Verdict : Type 0 where
  pub done : Bool
  pub fail : Bool
  pub cycles : ℕ

-- The verdict from the values of to_host alone: `n` cycles are left, the last value was `prev`.
unfoldable pub verdict : (ℕ → ℕ) → ℕ → ℕ → ℕ → Verdict
verdict host prev cycle zero = record { done = false; fail = false; cycles = cycle }
verdict host prev cycle (suc n) =
    let h = host cycle in
    let rest = verdict host h (cycle + 1) n in
    if h == prev || h == 0 then rest else record { done = true; fail = ltb 1 h; cycles = cycle + 1 }

-- What the loop tests and what it needs of the core for its verdict.
record SameVerdict (b b' : Bench) : Type 0 where
  cycle : b'.cycle ≡ b.cycle
  done : b'.done ≡ b.done
  fail : b'.fail ≡ b.fail
  prev : b'.tohost_prev ≡ b.tohost_prev

SameVerdict-trans : (a b c : Bench) → SameVerdict a b → SameVerdict b c → SameVerdict a c
SameVerdict-trans a b c p q = record {
  cycle = q.cycle ∙ p.cycle;
  done = q.done ∙ p.done;
  fail = q.fail ∙ p.fail;
  prev = q.prev ∙ p.prev;
}

if-SameVerdict :
    (t : Bool) (b x y : Bench)
    → SameVerdict b x
    → SameVerdict b y
    → SameVerdict b (if t then x else y)
if-SameVerdict true b x y p q = p
if-SameVerdict false b x y p q = q

same : (b : Bench) → SameVerdict b b
same b = record { cycle = refl; done = refl; fail = refl; prev = refl }

module _ (v : Variant) (p : Pins) where
  reset_counters-SameVerdict : (b : Bench) → SameVerdict b (reset_counters v p b)
  unfolding reset_counters
  reset_counters-SameVerdict b =
      if-SameVerdict (p.csr_write && p.csr_addr == v.reset_csr) b _ b
        (record { cycle = refl; done = refl; fail = refl; prev = refl }) (same b)

  count_cycle-SameVerdict : (b : Bench) → SameVerdict b (count_cycle p b)
  unfolding count_cycle
  count_cycle-SameVerdict b = record { cycle = refl; done = refl; fail = refl; prev = refl }

  -- After the test of to_host.
  after :
      (b : Bench)
      → SameVerdict b (reset_counters v p (count_cycle p (print_counters v p (shift_stages p b))))
  after b =
      let s = shift_stages p b in
      let k = print_counters v p s in
      SameVerdict-trans b k _
        (let q = print_counters-OnlyPrints v p s in
          record { cycle = q.cycle; done = q.done; fail = q.fail; prev = q.prev })
        (SameVerdict-trans k (count_cycle p k) _ (count_cycle-SameVerdict k)
          (reset_counters-SameVerdict (count_cycle p k)))

  -- to_host is as before, or 0: nothing ends.
  quiet :
      (b : Bench)
      → (p.to_host == b.tohost_prev || p.to_host == 0) ≡ true
      → SameVerdict b (record (watch_host p b) { tohost_prev = b.tohost_prev })
  unfolding watch_host
  quiet b e = record { cycle = ground arith; done = ground arith; fail = ground arith; prev = refl }

  -- It changes to another value: the test is over.
  ends :
      (b : Bench)
      → (p.to_host == b.tohost_prev || p.to_host == 0) ≡ false
      → ((watch_host p b).done ≡ true)
        × ((watch_host p b).fail ≡ (b.fail || ltb 1 p.to_host))
        × ((watch_host p b).cycle ≡ b.cycle)
  unfolding watch_host
  ends b e = (ground arith, ground arith, ground arith)

  host_prev : (b : Bench) → (watch_host p b).tohost_prev ≡ p.to_host
  unfolding watch_host
  host_prev b = refl

-- A cycle, for the verdict.
unfoldable pub Proceeds : Bench → Pins → Bench → Type 0
Proceeds b p b' =
    (b'.cycle ≡ (b.cycle + 1) % 2 ^ 64)
    × (b'.tohost_prev ≡ p.to_host)
    × ((((p.to_host == b.tohost_prev || p.to_host == 0) ≡ true)
          × (b'.done ≡ b.done)
          × (b'.fail ≡ b.fail))
        ⊎ (((p.to_host == b.tohost_prev || p.to_host == 0) ≡ false)
            × (b'.done ≡ true)
            × (b'.fail ≡ (b.fail || ltb 1 p.to_host))))

pub observe-Proceeds : (v : Variant) (p : Pins) (b : Bench) → Proceeds b p (observe v p b)
unfolding observe Proceeds
observe-Proceeds v p b =
    let m = watch_gpio 4 0 p (write_char v p b) in
    let w = watch_host p m in
    let u = before v p b in
    let a = after v p w in
    let host = a.prev ∙ host_prev v p m in
    elim (Bool-cases (p.to_host == m.tohost_prev || p.to_host == 0)) [
      | inl e ↦
          let q = quiet v p m e in
          let e' : (p.to_host == b.tohost_prev || p.to_host == 0) ≡ true =
            ap (λ x. p.to_host == x || p.to_host == 0) (sym u.prev) ∙ e in
          (
            ap (λ x. (x + 1) % 2 ^ 64) (a.cycle ∙ q.cycle ∙ u.cycle),
            host,
            inl (e', a.done ∙ q.done ∙ u.done, a.fail ∙ q.fail ∙ u.fail),
          )
      | inr e ↦
          let (d, g, c) = ends v p m e in
          let e' : (p.to_host == b.tohost_prev || p.to_host == 0) ≡ false =
            ap (λ x. p.to_host == x || p.to_host == 0) (sym u.prev) ∙ e in
          (
            ap (λ x. (x + 1) % 2 ^ 64) (a.cycle ∙ c ∙ u.cycle),
            host,
            inr (e', a.done ∙ d, a.fail ∙ g ∙ ap (λ x. x || ltb 1 p.to_host) u.fail),
          )
    ]

-- The test of the loop.
simulate-done :
    (v : Variant) (core : Core) (max_cycles fuel : ℕ) (b : Bench)
    → b.done ≡ true
    → 0 < fuel
    → simulate v core max_cycles fuel b ≡ some b
unfolding simulate
simulate-done v core max_cycles zero b d l = absurd (omega arith)
simulate-done v core max_cycles (suc fuel) b d l =
    ap
      (λ t.
        if not t && (max_cycles == 0 || ltb b.cycle max_cycles)
        then simulate v core max_cycles fuel (round v core b)
        else some b)
      d

-- The values of to_host, cycle after cycle.
abbrev pub host_at : Core → ℕ → ℕ
host_at core k = (pins_at core k).to_host

verdict_quiet :
    (host : ℕ → ℕ) (prev cycle n : ℕ)
    → (host cycle == prev || host cycle == 0) ≡ true
    → verdict host prev cycle (suc n) ≡ verdict host (host cycle) (cycle + 1) n
unfolding verdict
verdict_quiet host prev cycle n e =
    ap
      (λ t.
        if t
        then verdict host (host cycle) (cycle + 1) n
        else record { done = true; fail = ltb 1 (host cycle); cycles = cycle + 1 })
      e

verdict_ends :
    (host : ℕ → ℕ) (prev cycle n : ℕ)
    → (host cycle == prev || host cycle == 0) ≡ false
    → verdict host prev cycle (suc n)
      ≡ record { done = true; fail = ltb 1 (host cycle); cycles = cycle + 1 }
unfolding verdict
verdict_ends host prev cycle n e =
    ap
      (λ t.
        if t
        then verdict host (host cycle) (cycle + 1) n
        else record { done = true; fail = ltb 1 (host cycle); cycles = cycle + 1 })
      e

module _ (v : Variant) (core : Core) (max_cycles : ℕ) where
  pub simulate-stops :
      (fuel : ℕ) (b : Bench)
      → 0 < max_cycles
      → max_cycles ≤ b.cycle
      → simulate v core max_cycles (suc fuel) b ≡ some b
  unfolding simulate
  simulate-stops fuel b l e = ground arith

  simulate-goes :
      (fuel : ℕ) (b : Bench)
      → b.done ≡ false
      → b.cycle < max_cycles
      → simulate v core max_cycles (suc fuel) b ≡ simulate v core max_cycles fuel (round v core b)
  unfolding simulate
  simulate-goes fuel b d l = ground arith

  pub round-Proceeds : (b : Bench) → Proceeds b (pins_at core b.cycle) (round v core b)
  unfolding round Proceeds
  round-Proceeds b = observe-Proceeds v (pins_at core b.cycle) (drive_interrupt core b)

  -- What the loop returns, with a verdict and the failures so far.
  unfoldable pub Returns : Verdict → Bool → Option Bench → Type 0
  Returns r f o =
      (b' : Bench) × (o ≡ some b')
      × (b'.done ≡ r.done)
      × (b'.fail ≡ (f || r.fail))
      × (b'.cycle ≡ r.cycles)

  pub simulate-Returns :
      (n fuel : ℕ) (b : Bench)
      → b.done ≡ false
      → 0 < max_cycles
      → b.cycle + n ≡ max_cycles
      → max_cycles < 2 ^ 64
      → n < fuel
      → Returns
          (verdict (host_at core) b.tohost_prev b.cycle n)
          b.fail
          (simulate v core max_cycles fuel b)
  unfolding verdict Returns Proceeds
  simulate-Returns n zero b d l e w m = absurd (omega arith)
  simulate-Returns zero (suc fuel) b d l e w m =
      (b, simulate-stops fuel b l (omega arith), d, ground arith, refl)
  simulate-Returns (suc n) (suc fuel) b d l e w m =
      let next = round v core b in
      let (c, h, way) = round-Proceeds b in
      let c' : next.cycle ≡ b.cycle + 1 = omega arith in
      let goes = simulate-goes fuel b d (omega arith) in
      elim way [
        | inl (q, d', f') ↦
            let (b', s, x, y, z) =
              simulate-Returns n fuel next (d' ∙ d) l (omega arith) w (omega arith) in
            let r =
              ap (λ k. verdict (host_at core) next.tohost_prev k n) c'
              ∙ ap (λ k. verdict (host_at core) k (b.cycle + 1) n) h
              ∙ sym (verdict_quiet (host_at core) b.tohost_prev b.cycle n q) in
            (
              b',
              goes ∙ s,
              x ∙ ap (λ t. t.done) r,
              y ∙ (λ i. f' i || (r i).fail),
              z ∙ ap (λ t. t.cycles) r,
            )
        | inr (q, d', f') ↦
            let r = sym (verdict_ends (host_at core) b.tohost_prev b.cycle n q) in
            (
              next,
              goes ∙ simulate-done v core max_cycles fuel next d' (omega arith),
              d' ∙ ap (λ t. t.done) r,
              f' ∙ ap (λ t. b.fail || t.fail) r,
              c' ∙ ap (λ t. t.cycles) r,
            )
      ]

pub verdict-cycles :
    (host : ℕ → ℕ) (prev cycle n : ℕ) → (verdict host prev cycle n).cycles ≤ cycle + n
unfolding verdict
verdict-cycles host prev cycle zero = omega arith
verdict-cycles host prev cycle (suc n) =
    let rest = verdict-cycles host (host cycle) (cycle + 1) n in ground arith

check_timeout-fields :
    (max_cycles : ℕ) (b : Bench)
    → let c = check_timeout max_cycles b in
      (c.done ≡ b.done) × (c.fail ≡ (b.fail || leb max_cycles b.cycle)) × (c.cycle ≡ b.cycle)
unfolding check_timeout
check_timeout-fields max_cycles b = (ground arith, ground arith, ground arith)

-- A test of at most n cycles that starts at b, with a limit that is not 0: n + 1 tests of the loop's
-- condition are enough for it to end. `done` and the number of cycles are those of the first value of
-- to_host that is neither 0 nor the last one, and `fail` is set exactly when it was set before, that value is
-- above 1, or the number of cycles has reached the limit.
pub run_test-verdict :
    (v : Variant) (core : Core) (max_cycles n fuel : ℕ) (b : Bench)
    → b.done ≡ false
    → 0 < max_cycles
    → b.cycle + n ≡ max_cycles
    → max_cycles < 2 ^ 64
    → n < fuel
    → let r = verdict (host_at core) b.tohost_prev b.cycle n in
      (b' : Bench) × (run_test v core max_cycles fuel b ≡ some b')
      × (b'.done ≡ r.done)
      × (b'.fail ≡ (b.fail || r.fail || leb max_cycles r.cycles))
      × (b'.cycle ≡ r.cycles)
unfolding run_test Returns
run_test-verdict v core max_cycles n fuel b d l e w m =
    let (b', s, x, y, z) = simulate-Returns v core max_cycles n fuel b d l e w m in
    let (dc, fc, tc) = check_timeout-fields max_cycles b' in
    (
      check_timeout max_cycles b',
      ap (λ o. elim o [ none ↦ none | some x ↦ some (check_timeout max_cycles x) ]) s,
      dc ∙ x,
      fc ∙ (λ i. y i || leb max_cycles (z i)),
      tc ∙ z,
    )
