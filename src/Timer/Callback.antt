-- ===== src/Timer/Callback.antt =====
-- A timer whose callback deletes or keeps it.
use flexpret.Common.{ℕ, ◌%◌, ◌≡◌, ap, ◌∙◌, false, none, some, arith}
use flexpret.State.{Ctx, System, TrapHandler, interrupt, null_ptr, u32_mod, timer_addr}
use flexpret.Tid.{os_thread_get_id}
use flexpret.Tid.Laws.{IsPlaced}
use flexpret.Timing.{set_compare, interrupt_expire}
use flexpret.Trap.{os_thread_get_trap_handler, interrupt_on_expire}
use flexpret.Timer.{os_timer_delete, delete_at, is_active}
use flexpret.Timer.Laws.{IsArmed, mine}
use flexpret.Timer.Handlers.{timer_periodic_handler}

-- A callback that calls osTimerDelete for the timer of its hart.
unfoldable pub deleting : Ctx → ℕ → ℕ → System → System
unfolding os_timer_delete
deleting c func arg s = elim (os_timer_delete c (timer_addr c c.hartid) s) [
  | none ↦ s
  | some (_, s') ↦ s'
]

-- No timer is left, and yet the expiry of `compare`, at the time now, runs the handler of a periodic
-- timer, which calls the callback NULL.
pub record CallsNull (c : Ctx) (s s' : System) : Type 0 where
  pub inactive : is_active c.hartid s' ≡ false
  pub func : (s'.startup_timer_state c.hartid).func ≡ null_ptr
  pub expire : s'.expire c.hartid ≡ interrupt
  pub compare : s'.compare c.hartid ≡ s.clock % u32_mod
  pub handler :
      os_thread_get_trap_handler c (os_thread_get_id c) interrupt_on_expire s'
      ≡ TrapHandler.timer_periodic

-- If the callback of a periodic timer deletes the timer, then timer_periodic_handler arms the expiry again
-- all the same: at the time now, with no timer left, the handler of periodic timers still installed, and
-- NULL as the callback that it will call.
pub periodic_handler-deleting :
    (c : Ctx) (s : System)
    → IsPlaced c
    → os_thread_get_trap_handler c (os_thread_get_id c) interrupt_on_expire s
      ≡ TrapHandler.timer_periodic
    → CallsNull c s (timer_periodic_handler (deleting c) c s)
unfolding timer_periodic_handler deleting delete_at set_compare interrupt_expire
    os_thread_get_trap_handler
periodic_handler-deleting c s placed h = record {
  inactive = ground (arith, mine c placed s, placed.timers_low);
  func = ground (arith, mine c placed s, placed.timers_low);
  expire = ground (arith, mine c placed s, placed.timers_low);
  compare = ground (arith, mine c placed s, placed.timers_low);
  handler = ground (arith, mine c placed s, placed.timers_low, h);
}

-- A callback that leaves the timer and the clock alone.
pub record LeavesTimer (callback : ℕ → ℕ → System → System) (c : Ctx) : Type 0 where
  pub timer :
      (f a : ℕ) (s : System)
      → (callback f a s).startup_timer_state c.hartid ≡ s.startup_timer_state c.hartid
  pub clock : (f a : ℕ) (s : System) → (callback f a s).clock ≡ s.clock
  pub handler :
      (f a : ℕ) (s : System) → (callback f a s).trap_handler_vector ≡ s.trap_handler_vector

-- If the callback leaves the timer, the handlers and the clock as they are, then a periodic timer that
-- has expired is armed again for the same number of ticks, and still runs.
periodic_handler-IsArmed :
    (callback : ℕ → ℕ → System → System) (c : Ctx) (ticks : ℕ) (s : System)
    → LeavesTimer callback c
    → os_thread_get_trap_handler c (os_thread_get_id c) interrupt_on_expire s
      ≡ TrapHandler.timer_periodic
    → (s.startup_timer_state c.hartid).ticks ≡ ticks
    → IsArmed c ticks TrapHandler.timer_periodic s (timer_periodic_handler callback c s)
unfolding timer_periodic_handler set_compare interrupt_expire os_thread_get_trap_handler
periodic_handler-IsArmed callback c ticks s l h e =
    let f = (s.startup_timer_state c.hartid).func in
    let a = (s.startup_timer_state c.hartid).arg in
    record {
      period = ap (λ x. x.ticks) (l.timer f a s) ∙ e;
      compare = ground (arith, l.timer f a s, l.clock f a s, e);
      expire = ground arith;
      handler = ground (arith, l.handler f a s, h);
    }
