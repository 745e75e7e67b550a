-- ===== src/Timer/Handlers.antt =====
-- `timer_handler` and `timer_periodic_handler` of src/os/src/flexpret_timing.c, which run when `compare`
-- expires. The callback is code of the caller: what it does to the system is an argument.
use flexpret.Common.{ℕ, ◌+◌, ◌%◌}
use flexpret.State.{Ctx, System, u32_mod}
use flexpret.Timing.{get_time, set_compare, interrupt_expire}
use flexpret.Timer.{put_timer}

module _ (callback : ℕ → ℕ → System → System) where
  -- tmp->func(tmp->arg)
  called : Ctx → System → System
  called c s = callback (s.startup_timer_state c.hartid).func (s.startup_timer_state c.hartid).arg s

  -- timer_handler
  unfoldable pub timer_handler : Ctx → System → System
  unfolding called
  timer_handler c s =
      let s' = called c s in
      put_timer c.hartid (record (s'.startup_timer_state c.hartid) { ticks = 0 }) s'

  -- timer_periodic_handler
  unfoldable pub timer_periodic_handler : Ctx → System → System
  unfolding called set_compare interrupt_expire
  timer_periodic_handler c s =
      let s' = called c s in
      interrupt_expire c
        (set_compare c (((s'.startup_timer_state c.hartid).ticks + get_time s') % u32_mod) s')
