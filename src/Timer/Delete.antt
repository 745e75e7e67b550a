-- ===== src/Timer/Delete.antt =====
-- The end of a timer's life: osTimerDelete, and what the other calls answer after it.
use flexpret.Common.{ℕ, ◌<◌, ◌≡◌, ◌≢◌, true, false, some, arith}
use flexpret.State.{Ctx, System, Status, AttrPtr, null_ptr, timer_addr, off}
use flexpret.Tid.{os_thread_get_id}
use flexpret.Tid.Laws.{IsPlaced, get_tid-thread_addr}
use flexpret.Timing.{set_compare}
use flexpret.Timer.{
  is_active, delete_at, os_timer_delete, os_timer_start, os_timer_stop, os_timer_is_running,
  os_thread_get_timer,
}
use flexpret.Timer.Laws.{
  mine, new_and_start, new_and_start-IsArmed, IsTimer, IsArmed, expiry_handler,
}

-- The hart has no timer: the calls that want one refuse, and nothing of the other harts has changed.
pub record IsDeleted (c : Ctx) (s s' : System) : Type 0 where
  pub inactive : is_active c.hartid s' ≡ false
  pub no_timer : os_thread_get_timer c (os_thread_get_id c) s' ≡ null_ptr
  pub still : os_timer_is_running c (timer_addr c c.hartid) s' ≡ false
  pub no_start :
      (ticks : ℕ) → os_timer_start c (timer_addr c c.hartid) ticks s' ≡ some (Status.error, s')
  pub no_stop : os_timer_stop c (timer_addr c c.hartid) s' ≡ some (Status.error, s')
  pub disarmed : (s.startup_timer_state c.hartid).ticks ≢ 0 → s'.expire c.hartid ≡ off
  pub timers : (j : ℕ) → j ≢ c.hartid → s'.startup_timer_state j ≡ s.startup_timer_state j
  pub entries : (j : ℕ) → j ≢ c.hartid → s'.timer_attr_entry j ≡ s.timer_attr_entry j
  pub handlers : s'.trap_handler_vector ≡ s.trap_handler_vector

module _ (c : Ctx) (placed : IsPlaced c) (s : System) where
  delete_mine :
      os_timer_delete c (timer_addr c c.hartid) s ≡ some (Status.ok, delete_at c c.hartid s)
  unfolding os_timer_delete
  delete_mine = ground (arith, mine c placed s, placed.timers_low)

  deleted : is_active c.hartid (delete_at c c.hartid s) ≡ false
  unfolding delete_at set_compare
  deleted = ground arith

  without_timer :
      (s' : System)
      → is_active c.hartid s' ≡ false
      → (os_thread_get_timer c (os_thread_get_id c) s' ≡ null_ptr)
        × (os_timer_is_running c (timer_addr c c.hartid) s' ≡ false)
        × ((ticks : ℕ)
            → os_timer_start c (timer_addr c c.hartid) ticks s' ≡ some (Status.error, s'))
        × (os_timer_stop c (timer_addr c c.hartid) s' ≡ some (Status.error, s'))
  unfolding os_thread_get_timer os_timer_is_running os_timer_start os_timer_stop
  without_timer s' e =
      let m = mine c placed s' in
      let own = get_tid-thread_addr c c.hartid placed placed.hart in
      let low = placed.timers_low in
      (ground (arith, own), ground arith, λ ticks. ground arith, ground arith)

  -- osTimerDelete of the hart's own timer, running or not, answers osOK. Then the hart has no timer, osTimerStart
  -- and osTimerStop refuse with osError and change nothing, and `compare` is off if the timer ran; the trap
  -- handlers stay. A new timer can be made and started at once.
  pub delete-IsDeleted :
      (s' : System) × (os_timer_delete c (timer_addr c c.hartid) s ≡ some (Status.ok, s'))
      × IsDeleted c s s'
      × ((f t a ticks : ℕ) (attr : AttrPtr)
          → f ≢ null_ptr
          → 0 < ticks
          → t < 2
          → (s'' : System) × (new_and_start c f t a attr ticks s'
              ≡ some ((timer_addr c c.hartid, Status.ok), s''))
            × (os_timer_is_running c (timer_addr c c.hartid) s'' ≡ true)
            × IsTimer c f t a s''
            × IsArmed c ticks (expiry_handler t) s' s'')
  unfolding delete_at set_compare
  delete-IsDeleted =
      let s' = delete_at c c.hartid s in
      let (a, b, d, e) = without_timer s' deleted in
      (
        s',
        delete_mine,
        record {
          inactive = deleted;
          no_timer = a;
          still = b;
          no_start = d;
          no_stop = e;
          disarmed = λ n. ground arith;
          timers = λ j n. ground arith;
          entries = λ j n. ground arith;
          handlers = ground arith;
        },
        λ f t x ticks attr n p h. new_and_start-IsArmed c placed s' f t x ticks attr n deleted p h,
      )
