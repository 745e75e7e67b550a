-- ===== src/Scheduler/Switch.antt =====
-- change_srtt_to_hrtt and change_hrtt_to_srtt, entered while nobody holds the slot mutex.
use flexpret.Common.{
  ℕ, ◌+◌, ◌<◌, ◌≡◌, refl, ap, ◌∙◌, Bool, some, List, [], ◌∷◌, ◌==◌, ◌&&◌, set, if◌then◌else◌,
}
use flexpret.State.{Ctx, System, Status}
use flexpret.State.Run.{M}
use flexpret.Slots.{slot_s}
use flexpret.Slots.Assign.{slots_of, Room}
use flexpret.Tmodes.{get_tmodes}
use flexpret.Tmodes.Fields.{make_hard, make_soft}
use flexpret.Tmodes.Modes.{tmode_of}
use flexpret.Mutex.Laws.{held}
use flexpret.Scheduler.{
  change_srtt_to_hrtt, change_hrtt_to_srtt, srtt_to_hrtt_body, hrtt_to_srtt_body, locked,
}
use flexpret.Scheduler.Harts.{count_srtt, all_but}
use flexpret.Scheduler.Locked.{CanLock, locked_lem, with_regs}
use flexpret.Scheduler.Steps.{Ends, OnlyRegs}
use flexpret.Scheduler.Change.{
  MadeHard, MadeSoft, other_srtt, srtt_to_hrtt_body-MadeHard, srtt_to_hrtt_body_full,
  hrtt_to_srtt_body-MadeSoft, hrtt_to_srtt_body_full,
}

module _ (c : Ctx) (m : ℕ) (s : System) where
  -- The counts do not depend on who holds the mutex.
  count_srtt-held :
      (keep : ℕ → Bool) (i : ℕ) (ms : List ℕ)
      → count_srtt keep (held c m 1 s) i ms ≡ count_srtt keep s i ms
  unfolding count_srtt
  count_srtt-held keep i [] = refl
  count_srtt-held keep i (x ∷ ms) = ap (◌+◌ _) (count_srtt-held keep (i + 1) ms)

  pub other_srtt-held : (tid : ℕ) → other_srtt tid (held c m 1 s) ≡ other_srtt tid s
  other_srtt-held tid = count_srtt-held (all_but tid) 0 (get_tmodes s.tmodes)

  MadeHard-held :
      (tid : ℕ) (s' : System)
      → MadeHard tid (held c m 1 s) s'
      → MadeHard tid s (with_regs s'.slots s'.tmodes s)
  unfolding slots_of tmode_of
  MadeHard-held tid s' h = record {
    own = h.own;
    soft = h.soft ∙ ap (λ n. if n == 0 then 0 else slots_of slot_s s) (other_srtt-held tid);
    others = h.others;
    modes = h.modes;
    regs = refl;
  }

  MadeSoft-held :
      (tid : ℕ) (s' : System)
      → MadeSoft tid (held c m 1 s) s'
      → MadeSoft tid s (with_regs s'.slots s'.tmodes s)
  unfolding slots_of tmode_of
  MadeSoft-held tid s' h = record {
    own = h.own;
    soft =
        h.soft
        ∙ ap (λ n. if n == 0 && slots_of slot_s s == 0 then 1 else slots_of slot_s s)
            (other_srtt-held tid);
    others = h.others;
    modes = h.modes;
    regs = refl;
  }

  -- A critical section that changes the two registers only.
  pub locked-Ends :
      (body : M Status) (s' : System)
      → CanLock c m s
      → Ends body (held c m 1 s) s'
      → OnlyRegs (held c m 1 s) s'
      → Ends (locked c body) s (with_regs s'.slots s'.tmodes s)
  locked-Ends body s' lock (st, e) r =
      (st, locked_lem c m s lock body st s'.slots s'.tmodes (e ∙ ap (λ x. some (st, x)) r))

module _ (c : Ctx) (m : ℕ) (s : System) (lock : CanLock c m s) (tid : ℕ) (hart : tid < 8) where
  pub change_srtt_to_hrtt-MadeHard :
      Room tid 1 s → (s' : System) × Ends (change_srtt_to_hrtt c tid) s s' × MadeHard tid s s'
  unfolding change_srtt_to_hrtt slots_of
  change_srtt_to_hrtt-MadeHard r =
      let (s', e, h) = srtt_to_hrtt_body-MadeHard tid hart (held c m 1 s) r in
      (
        with_regs s'.slots s'.tmodes s,
        locked-Ends c m s (srtt_to_hrtt_body tid) s' lock e h.regs,
        MadeHard-held c m s tid s' h,
      )

  pub change_hrtt_to_srtt-MadeSoft :
      Room slot_s 1 s → (s' : System) × Ends (change_hrtt_to_srtt c tid) s s' × MadeSoft tid s s'
  unfolding change_hrtt_to_srtt slots_of
  change_hrtt_to_srtt-MadeSoft r =
      let (s', e, h) = hrtt_to_srtt_body-MadeSoft tid hart (held c m 1 s) r in
      (
        with_regs s'.slots s'.tmodes s,
        locked-Ends c m s (hrtt_to_srtt_body tid) s' lock e h.regs,
        MadeSoft-held c m s tid s' h,
      )

  -- With the slot mutex free, for one of the eight harts: if there is neither a slot of the hart's nor
  -- room for one, change_srtt_to_hrtt makes the hart hard
  -- all the same, so that it has no slot to run in.
  pub change_srtt_to_hrtt_starves :
      ¬ Room tid 1 s
      → (s' : System) × Ends (change_srtt_to_hrtt c tid) s s'
        × (slots_of tid s' ≡ 0)
        × (get_tmodes s'.tmodes ≡ set (get_tmodes s.tmodes) tid (make_hard (tmode_of tid s)))
        × OnlyRegs s s'
  unfolding change_srtt_to_hrtt slots_of tmode_of
  change_srtt_to_hrtt_starves r =
      let (s', e, none_own, h, o) = srtt_to_hrtt_body_full tid hart (held c m 1 s) r in
      (
        with_regs s'.slots s'.tmodes s,
        locked-Ends c m s (srtt_to_hrtt_body tid) s' lock e o,
        none_own,
        h,
        refl,
      )

  -- With the slot mutex free, for one of the eight harts: if there is neither a soft slot nor room for
  -- one, change_hrtt_to_srtt makes the hart soft all the
  -- same and takes its own slots, so that it has no slot to run in.
  pub change_hrtt_to_srtt_starves :
      ¬ Room slot_s 1 s
      → (s' : System) × Ends (change_hrtt_to_srtt c tid) s s'
        × (slots_of tid s' ≡ 0)
        × (slots_of slot_s s' ≡ 0)
        × (get_tmodes s'.tmodes ≡ set (get_tmodes s.tmodes) tid (make_soft (tmode_of tid s)))
        × OnlyRegs s s'
  unfolding change_hrtt_to_srtt slots_of tmode_of
  change_hrtt_to_srtt_starves r =
      let (s', e, none_own, none_soft, h, o) = hrtt_to_srtt_body_full tid hart (held c m 1 s) r in
      (
        with_regs s'.slots s'.tmodes s,
        locked-Ends c m s (hrtt_to_srtt_body tid) s' lock e o,
        none_own,
        none_soft,
        h,
        refl,
      )
