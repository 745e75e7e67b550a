-- ===== src/Thread/End.antt =====
-- thread_terminate and osThreadJoin: the slots of a thread that has ended are given up, and every other
-- live hart keeps a slot to run in.
use flexpret.Common.{ℕ, ◌<◌, ◌≡◌, ◌%◌, some, refl, false, ◌==◌, ◌||◌}
use flexpret.State.{Ctx, System, Status, Priority}
use flexpret.State.Run.{M}
use flexpret.Tid.{get_tid}
use flexpret.Tmodes.{tmode_ha, tmode_hz, tmode_sa, tmode_sz, tmode_zombie}
use flexpret.Tmodes.Modes.{tmode_of}
use flexpret.Scheduler.{entry_of, os_scheduler_get_tmodes, os_scheduler_set_tmodes}
use flexpret.Scheduler.Locked.{CanLock}
use flexpret.Scheduler.Steps.{OnlyRegs, OnlyRegs-trans, Ends->>=}
use flexpret.Scheduler.GiveUp.{
  ServedBut, OnlyRegs-CanLock, Leaves, if-Leaves, srtt_terminate-Leaves, no_slots-Leaves,
  zombie-Leaves,
}
use flexpret.Thread.Terminate.{give_up_by_mode, give_up_slots, thread_terminate}

module _ (c : Ctx) (m : ℕ) (thread_id : ℕ) (hart : get_tid c thread_id < 8) where
  abbrev tid : ℕ
  tid = get_tid c thread_id

  module _ (s : System) (lock : CanLock c m s) (served : ServedBut tid s) where
    give_up_by_mode-Leaves : Leaves tid s (give_up_by_mode c thread_id tid s)
    unfolding give_up_by_mode
    give_up_by_mode-Leaves =
        let tmode = os_scheduler_get_tmodes c thread_id s in
        let own = no_slots-Leaves c m s lock tid hart thread_id refl served in
        let soft = srtt_terminate-Leaves c m s lock tid hart served in
        if-Leaves tid s (tmode == tmode_ha || tmode == tmode_hz) _ _ own
          (if-Leaves tid s (tmode == tmode_sa || tmode == tmode_sz) _ _ soft own)

    give_up_slots-Leaves : (p : Priority) → Leaves tid s (give_up_slots c thread_id tid p s)
    unfolding give_up_slots
    give_up_slots-Leaves Priority.normal = srtt_terminate-Leaves c m s lock tid hart served
    give_up_slots-Leaves Priority.realtime =
        no_slots-Leaves c m s lock tid hart thread_id refl served
    give_up_slots-Leaves Priority.error = give_up_by_mode-Leaves
    give_up_slots-Leaves (Priority.other n) = give_up_by_mode-Leaves

  module _ (s : System) (lock : CanLock c m s) (served : ServedBut tid s) where
    give_up : M Status
    give_up = λ t. give_up_slots c thread_id tid (entry_of tid t).priority t

    -- With the slot mutex free, for an identifier of a thread: if every other live hart has a slot to run
    -- in, then thread_terminate, where it does not clean up, ends, this is still so, and nothing but the
    -- two registers changes.
    -- The hart is asleep then.
    pub thread_terminate-IsAsleep :
        (s' : System) × ((st : Status) × (thread_terminate c thread_id false s ≡ some (st, s')))
        × ServedBut tid s'
        × OnlyRegs s s'
        × (tmode_of tid s' % 2 ≡ 1)
    unfolding thread_terminate give_up
    thread_terminate-IsAsleep =
        let (s1, (a, p), v, r) = give_up_slots-Leaves s lock served (entry_of tid s).priority in
        let (s2, (b, q), w, o, z) =
          zombie-Leaves c m s1 (OnlyRegs-CanLock c m s s1 r lock) tid hart thread_id refl v in
        (
          s2,
          Ends->>= give_up (os_scheduler_set_tmodes c thread_id tmode_zombie) s s1 s2 (a, p) (b, q),
          w,
          OnlyRegs-trans s s1 s2 r o,
          z,
        )

    pub thread_terminate-Leaves : Leaves tid s (thread_terminate c thread_id false s)
    thread_terminate-Leaves = let (s', e, w, r, z) = thread_terminate-IsAsleep in (s', e, w, r)
