-- ===== src/Thread/JoinRound.antt =====
-- One round of osThreadJoinAll over the threads of its list, and the flags that it clears.
use native.Mathlib.Decide.{ℕ_discrete}
use flexpret.Common.{
  ℕ, zero, suc, ◌-◌, ◌^◌, ◌<◌, ◌≤◌, ◌≡◌, ◌≢◌, ◌⊎◌, inl, inr, refl, sym, ap, ◌∙◌, false, Bool-cases,
  some, List, [], ◌∷◌, bit_and, arith,
}
use flexpret.Common.Flags.{bit, bit-small, bit-or, bit-clear, bit-power}
use flexpret.State.{Ctx, System, Status}
use flexpret.State.Run.{◌>>=◌}
use flexpret.Tid.{get_tid}
use flexpret.Scheduler.Harts.{is_live}
use flexpret.Scheduler.Steps.{OnlyRegs, OnlyRegs-trans}
use flexpret.Scheduler.Service.{live_same}
use flexpret.Scheduler.GiveUp.{OnlyRegs-CanLock}
use flexpret.Thread.Terminate.{thread_terminate}
use flexpret.Thread.End.{thread_terminate-Leaves}
use flexpret.Thread.Exit.{IsCalm}
use flexpret.Thread.Join.{join_flags, join_round}

pub bit-zero : (j : ℕ) → bit j 0 ≡ 0
bit-zero zero = refl
bit-zero (suc j) = bit-zero j

module _ (c : Ctx) where
  -- Every identifier is one of a thread.
  abbrev pub AllThreads : List ℕ → Type 0
  AllThreads [] = Unit {0}
  AllThreads (t ∷ ts) = (get_tid c t < 8) × AllThreads ts

  -- Every thread has ended.
  abbrev pub AllEnded : List ℕ → System → Type 0
  AllEnded [] s = Unit {0}
  AllEnded (t ∷ ts) s = (is_live (get_tid c t) s ≡ false) × AllEnded ts s

  -- Some thread is the one of hart j.
  abbrev pub HasTid : ℕ → List ℕ → Type 0
  HasTid j [] = ⊥
  HasTid j (t ∷ ts) = (get_tid c t ≡ j) ⊎ HasTid j ts

  pub has_tid : (j : ℕ) (ts : List ℕ) → HasTid j ts ⊎ (¬ HasTid j ts)
  has_tid j [] = inr (λ h. h)
  has_tid j (t ∷ ts) = elim (ℕ_discrete (get_tid c t) j) [
    | yes e ↦ inl (inl e)
    | no n ↦ elim (has_tid j ts) [
      | inl h ↦ inl (inr h)
      | inr k ↦ inr (λ h. elim h [ inl e ↦ n e | inr r ↦ k r ])
    ]
  ]

  -- The flags are those of the threads.
  abbrev pub OnlyTids : List ℕ → ℕ → Type 0
  OnlyTids ts flag = (j : ℕ) → ¬ HasTid j ts → bit j flag ≡ 0

  pub join_flags-OnlyTids : (ts : List ℕ) → OnlyTids ts (join_flags c ts)
  unfolding join_flags
  join_flags-OnlyTids [] j n = bit-zero j
  join_flags-OnlyTids (t ∷ ts) j n =
      let other : get_tid c t ≢ j = λ e. n (inl e) in
      let rest = join_flags-OnlyTids ts j (λ h. n (inr h)) in
      ground (arith, bit-or j (2 ^ get_tid c t) (join_flags c ts), bit-power j (get_tid c t), rest)

  -- A thread whose flag is cleared has ended.
  abbrev pub ClearedEnded : List ℕ → ℕ → System → Type 0
  ClearedEnded ts flag s = (j : ℕ) → HasTid j ts → bit j flag ≡ 0 → is_live j s ≡ false

  -- At the start every thread has its flag.
  pub join_flags-HasTid : (ts : List ℕ) (j : ℕ) → HasTid j ts → 0 < bit j (join_flags c ts)
  unfolding join_flags
  join_flags-HasTid [] j h = absurd h
  join_flags-HasTid (t ∷ ts) j (inl e) =
      ground (arith, bit-or j (2 ^ get_tid c t) (join_flags c ts), bit-power j (get_tid c t), e)
  join_flags-HasTid (t ∷ ts) j (inr h) =
      omega (arith, bit-or j (2 ^ get_tid c t) (join_flags c ts), join_flags-HasTid ts j h)

  pub AllEnded-each :
      (ts : List ℕ) (s : System) → ((j : ℕ) → HasTid j ts → is_live j s ≡ false) → AllEnded ts s
  AllEnded-each [] s h = tt
  AllEnded-each (t ∷ ts) s h = (h (get_tid c t) (inl refl), AllEnded-each ts s (λ j k. h j (inr k)))

  flag_cleared :
      (j t flag : ℕ) (s : System)
      → is_live t s ≡ false
      → bit j (flag - bit_and flag (2 ^ t)) ≡ 0
      → (bit j flag ≡ 0) ⊎ (is_live j s ≡ false)
  flag_cleared j t flag s e b = elim (ℕ_discrete j t) [
    | yes q ↦ inr (ap (λ k. is_live k s) q ∙ e)
    | no n ↦ inl (ground (arith, bit-clear j flag (2 ^ t), bit-power j t))
  ]

  -- What a round leaves, of flags and of the system.
  pub record Rounded (ts : List ℕ) (flag : ℕ) (s : System) (flag' : ℕ) (s' : System) : Type 0 where
    pub regs : OnlyRegs s s'
    pub fewer : (j : ℕ) → bit j flag' ≤ bit j flag
    pub cleared : AllEnded ts s → (j : ℕ) → HasTid j ts → bit j flag' ≡ 0
    pub ended : (j : ℕ) → bit j flag' ≡ 0 → (bit j flag ≡ 0) ⊎ (is_live j s ≡ false)

  AllEnded-same : (ts : List ℕ) (s s' : System) → OnlyRegs s s' → AllEnded ts s → AllEnded ts s'
  AllEnded-same [] s s' r h = tt
  AllEnded-same (t ∷ ts) s s' r (e, h) =
      (live_same (get_tid c t) s s' r ∙ e, AllEnded-same ts s s' r h)

  module _ (m : ℕ) where
    -- A thread that has ended is terminated: the others keep their slots.
    terminate-IsCalm :
        (t : ℕ) (s : System)
        → get_tid c t < 8
        → is_live (get_tid c t) s ≡ false
        → IsCalm c m s
        → (s' : System) × ((st : Status) × (thread_terminate c t false s ≡ some (st, s')))
          × IsCalm c m s'
          × OnlyRegs s s'
    terminate-IsCalm t s h ended (lock, served) =
        let (s', e, w, r) = thread_terminate-Leaves c m t h s lock (λ i p n. served i p) in
        (
          s',
          e,
          (
            OnlyRegs-CanLock c m s s' r lock,
            λ i p l. elim (ℕ_discrete i (get_tid c t)) [
              | yes q ↦
                  let dead : is_live i s' ≡ false =
                    live_same i s s' r ∙ ap (λ k. is_live k s) q ∙ ended in
                  absurd (cc)
              | no q ↦ w i p q l
            ],
          ),
          r,
        )

    pub join_round-Rounded :
        (ts : List ℕ) (flag : ℕ) (s : System)
        → AllThreads ts
        → IsCalm c m s
        → (flag' : ℕ) × (s' : System) × (join_round c ts flag s ≡ some (flag', s'))
          × IsCalm c m s'
          × Rounded ts flag s flag' s'
    unfolding join_round
    join_round-Rounded [] flag s a calm = (
      flag,
      s,
      refl,
      calm,
      record {
        regs = refl;
        fewer = λ j. omega arith;
        cleared = λ e j h. absurd h;
        ended = λ j e. inl e;
      },
    )
    join_round-Rounded (t ∷ ts) flag s (h, a) calm = elim (Bool-cases (is_live (get_tid c t) s)) [
      | inl live ↦
          let (flag', s', e, w, r) = join_round-Rounded ts flag s a calm in
          (
            flag',
            s',
            rw live e,
            w,
            record {
              regs = r.regs;
              fewer = r.fewer;
              cleared = λ q j k. absurd (cc);
              ended = r.ended;
            },
          )
      | inr ended ↦
          let (s1, (st, p), calm1, o) = terminate-IsCalm t s h ended calm in
          let flag1 = flag - bit_and flag (2 ^ get_tid c t) in
          let (flag', s', e, w, r) = join_round-Rounded ts flag1 s1 a calm1 in
          (
            flag',
            s',
            rw (ended, p, ◌>>=◌) e,
            w,
            record {
              regs = OnlyRegs-trans s s1 s' o r.regs;
              fewer = λ j. omega (arith, r.fewer j, bit-clear j flag (2 ^ get_tid c t));
              cleared = λ q j k. elim k [
                | inl now ↦ ground (
                  arith,
                  r.fewer j,
                  bit-clear j flag (2 ^ get_tid c t),
                  bit-power j (get_tid c t),
                  bit-small j flag,
                  now,
                )
                | inr later ↦ r.cleared (AllEnded-same ts s s1 o q.1) j later
              ];
              ended = λ j q. elim (r.ended j q) [
                | inl b ↦ flag_cleared j (get_tid c t) flag s ended b
                | inr d ↦ inr (sym (live_same j s s1 o) ∙ d)
              ];
            },
          )
    ]
