-- ===== src/Timing/Stats.antt =====
-- The statistics of src/os/include/flexpret_io.h: 64-bit counters that are read by halves. `cycles` and
-- `instrs` give the counters at each step; every read of a CSR is a step.
use flexpret.Common.{
  ℕ, zero, suc, ◌+◌, ◌-◌, ◌*◌, ◌/◌, ◌%◌, ◌^◌, ◌<◌, ◌≤◌, ◌≡◌, ◌≢◌, refl, Bool, true, false, not,
  Option, none, some, ◌==◌, if◌then◌else◌, arith,
}

-- struct stats
pub record Stats : Type 0 where
  pub cycle : ℕ
  pub cycleh : ℕ
  pub instret : ℕ
  pub instreth : ℕ

-- The CSRs of a 64-bit counter: the low half and the high one.
abbrev pub low_half : ℕ → ℕ
low_half n = n % 2 ^ 32

abbrev pub high_half : ℕ → ℕ
high_half n = n / 2 ^ 32 % 2 ^ 32

-- A change of the high half between b and c, of a ≤ b ≤ c ≤ d ≤ u.
one_less :
    (a b c d u : ℕ)
    → a ≤ b
    → b ≤ c
    → c ≤ d
    → d ≤ u
    → u < 2 ^ 64
    → high_half c ≢ high_half b
    → u / 2 ^ 32 - d / 2 ^ 32 < u / 2 ^ 32 - a / 2 ^ 32
one_less a b c d u p q r s t n = omega arith

no_more : (a d u : ℕ) → a ≤ d → u / 2 ^ 32 - d / 2 ^ 32 ≤ u / 2 ^ 32 - a / 2 ^ 32
no_more a d u p = omega arith

module _ (cycles instrs : ℕ → ℕ) where
  -- The four reads of a round that begins at step t.
  abbrev pub read_stats : ℕ → Stats
  read_stats t = record {
    cycleh = high_half (cycles t);
    instreth = high_half (instrs (t + 1));
    cycle = low_half (cycles (t + 2));
    instret = low_half (instrs (t + 3));
  }

  -- stats_get from step t on: the statistics, and the step at which their round began. The second test of the
  -- condition is a read only if the first one fails.
  pub stats_get : ℕ → ℕ → Option (Stats × ℕ)
  stats_get zero t = none
  stats_get (suc fuel) t =
      let s = read_stats t in
      let after_first = stats_get fuel (t + 5) in
      let after_second = stats_get fuel (t + 6) in
      if not (high_half (cycles (t + 4)) == s.cycleh)
      then after_first
      else if not (high_half (instrs (t + 5)) == s.instreth)
      then after_second
      else some (s, t)

  -- Both counters only grow, from step t to step u by less than 2 ^ 32, and do not reach 2 ^ 64.
  pub record Counting (t u : ℕ) : Type 0 where
    pub cycles_grow : (a b : ℕ) → a ≤ b → cycles a ≤ cycles b
    pub instrs_grow : (a b : ℕ) → a ≤ b → instrs a ≤ instrs b
    pub cycles_slow : cycles u < cycles t + 2 ^ 32
    pub instrs_slow : instrs u < instrs t + 2 ^ 32
    pub cycles_fit : cycles u < 2 ^ 64
    pub instrs_fit : instrs u < 2 ^ 64

  -- The statistics of step t are those of one moment for each counter.
  Snapshot : ℕ → Stats → Type 0
  Snapshot t s =
      (s.cycleh * 2 ^ 32 + s.cycle ≡ cycles (t + 2))
      × (s.instreth * 2 ^ 32 + s.instret ≡ instrs (t + 3))

  steady :
      (first t u : ℕ)
      → Counting first u
      → t + 5 ≤ u
      → (high_half (cycles (t + 4)) == high_half (cycles t)) ≡ true
      → (high_half (instrs (t + 5)) == high_half (instrs (t + 1))) ≡ true
      → Snapshot t (read_stats t)
  unfolding Snapshot
  steady first t u k l p q =
      let c1 = k.cycles_grow t (t + 2) (omega arith) in
      let c2 = k.cycles_grow (t + 2) (t + 4) (omega arith) in
      let c3 = k.cycles_grow (t + 4) u (omega arith) in
      let i1 = k.instrs_grow (t + 1) (t + 3) (omega arith) in
      let i2 = k.instrs_grow (t + 3) (t + 5) (omega arith) in
      let i3 = k.instrs_grow (t + 5) u (omega arith) in
      let p' : high_half (cycles (t + 4)) ≡ high_half (cycles t) = ground (arith, p) in
      let q' : high_half (instrs (t + 5)) ≡ high_half (instrs (t + 1)) = ground (arith, q) in
      (omega (arith, c1, c2, c3, p', k.cycles_fit), omega (arith, i1, i2, i3, q', k.instrs_fit))

  -- How often a high half changes until step u.
  carries : ℕ → ℕ → ℕ
  carries u t = (cycles u / 2 ^ 32 - cycles t / 2 ^ 32) + (instrs u / 2 ^ 32 - instrs t / 2 ^ 32)

  -- The statistics of a round that begins between steps t and u.
  pub Got : ℕ → ℕ → Option (Stats × ℕ) → Type 0
  Got t u o = (s : Stats) × (b : ℕ) × (o ≡ some (s, b)) × (t ≤ b) × (b + 6 ≤ u) × Snapshot b s

  Got-later : (t t' u : ℕ) (o : Option (Stats × ℕ)) → t ≤ t' → Got t' u o → Got t u o
  unfolding Got
  Got-later t t' u o l (s, b, e, m, n, h) = (s, b, e, omega arith, n, h)

  if-Got :
      (c : Bool) (t u : ℕ) (x y : Option (Stats × ℕ))
      → (c ≡ true → Got t u x)
      → (c ≡ false → Got t u y)
      → Got t u (if c then x else y)
  if-Got true t u x y p q = p refl
  if-Got false t u x y p q = q refl

  stats_get-Got :
      (first u fuel t : ℕ)
      → Counting first u
      → carries u t < fuel
      → t + 6 * fuel ≤ u
      → Got t u (stats_get fuel t)
  unfolding stats_get carries Got
  stats_get-Got first u zero t k c l = absurd (omega arith)
  stats_get-Got first u (suc fuel) t k c l =
      let c1 = k.cycles_grow t (t + 4) (omega arith) in
      let c2 = k.cycles_grow (t + 4) (t + 5) (omega arith) in
      let c3 = k.cycles_grow (t + 5) (t + 6) (omega arith) in
      let c4 = k.cycles_grow (t + 6) u (omega arith) in
      let i1 = k.instrs_grow t (t + 1) (omega arith) in
      let i2 = k.instrs_grow (t + 1) (t + 5) (omega arith) in
      let i3 = k.instrs_grow (t + 5) (t + 6) (omega arith) in
      let i4 = k.instrs_grow (t + 6) u (omega arith) in
      if-Got (not (high_half (cycles (t + 4)) == high_half (cycles t))) t u _ _
        (λ p.
          let p' : high_half (cycles (t + 4)) ≢ high_half (cycles t) = ground (arith, p) in
          Got-later t (t + 5) u _ (omega arith) (
            stats_get-Got first u fuel (t + 5) k
              (omega (
                arith,
                one_less (cycles t) (cycles t) (cycles (t + 4)) (cycles (t + 5)) (cycles u)
                    (omega arith) c1 c2 (omega arith) k.cycles_fit p',
                no_more (instrs t) (instrs (t + 5)) (instrs u) (omega arith),
              ))
              (omega arith)))
        (λ p.
          if-Got (not (high_half (instrs (t + 5)) == high_half (instrs (t + 1)))) t u _ _
            (λ q.
              let q' : high_half (instrs (t + 5)) ≢ high_half (instrs (t + 1)) =
                ground (arith, q) in
              Got-later t (t + 6) u _ (omega arith) (
                stats_get-Got first u fuel (t + 6) k
                  (omega (
                    arith,
                    one_less (instrs t) (instrs (t + 1)) (instrs (t + 5)) (instrs (t + 6))
                        (instrs u) i1 i2 i3 i4 k.instrs_fit q',
                    no_more (cycles t) (cycles (t + 6)) (cycles u) (omega arith),
                  ))
                  (omega arith)))
            (λ q. (
              read_stats t,
              t,
              refl,
              omega arith,
              omega arith,
              steady first t u k (omega arith) (ground (arith, p)) (ground (arith, q)),
            )))

  -- stats_get ends after at most three rounds, that is in at most 18 steps, if the two counters only grow,
  -- by less than 2 ^ 32 in this time, and stay below 2 ^ 64; and the halves that it has read then are those of one
  -- moment for each counter, the step at which the low half was read.
  pub stats_get-snapshot :
      (t u : ℕ)
      → Counting t u
      → t + 18 ≤ u
      → (s : Stats) × (b : ℕ) × (stats_get 3 t ≡ some (s, b))
        × (t ≤ b)
        × (b + 6 ≤ u)
        × (s.cycleh * 2 ^ 32 + s.cycle ≡ cycles (b + 2))
        × (s.instreth * 2 ^ 32 + s.instret ≡ instrs (b + 3))
  unfolding Got Snapshot carries
  stats_get-snapshot t u k l =
      let c = k.cycles_slow in
      let i = k.instrs_slow in
      let (s, b, e, m, n, (x, y)) = stats_get-Got t u 3 t k (omega arith) (omega arith) in
      (s, b, e, m, n, x, y)
