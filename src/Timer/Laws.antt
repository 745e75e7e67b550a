-- ===== src/Timer/Laws.antt =====
-- The life of a timer on the hart that made it: new, started, stopped, deleted.
use flexpret.Common.{
  ℕ, zero, suc, ◌+◌, ◌%◌, ◌<◌, ◌≡◌, ◌≢◌, refl, ap, ◌∙◌, true, false, some, update, arith,
}
use flexpret.State.{
  Ctx, System, Status, AttrPtr, TrapHandler, interrupt, off, null_ptr, u32_mod, timer_addr,
}
use flexpret.State.Run.{M, ◌>>=◌, pure}
use flexpret.Tid.{get_timer_tid, os_thread_get_id}
use flexpret.Tid.Laws.{IsPlaced, get_timer_tid-timer_addr, get_tid-thread_addr}
use flexpret.Timing.{set_compare, interrupt_expire}
use flexpret.Trap.{
  os_thread_set_trap_handler, os_thread_get_trap_handler, trap_tid, interrupt_on_expire,
}
use flexpret.Timer.{
  os_timer_new, os_timer_start, os_timer_stop, os_timer_is_running, handler_of, arm, set_attr,
  is_active, put_timer,
}

-- The timer of the hart is there, of type `t`, and calls `f` with `a`.
pub record IsTimer (c : Ctx) (f t a : ℕ) (s : System) : Type 0 where
  pub active : is_active c.hartid s ≡ true
  pub func : (s.startup_timer_state c.hartid).func ≡ f
  pub type : (s.startup_timer_state c.hartid).type ≡ t
  pub arg : (s.startup_timer_state c.hartid).arg ≡ a

-- The handler that a type of timer needs.
abbrev pub expiry_handler : ℕ → TrapHandler
expiry_handler zero = TrapHandler.timer_once
expiry_handler (suc _) = TrapHandler.timer_periodic

-- The timer is set to expire once `ticks` have passed, and its handler is installed.
pub record IsArmed (c : Ctx) (ticks : ℕ) (h : TrapHandler) (s s' : System) : Type 0 where
  pub period : (s'.startup_timer_state c.hartid).ticks ≡ ticks
  pub compare : s'.compare c.hartid ≡ (ticks + s.clock) % u32_mod
  pub expire : s'.expire c.hartid ≡ interrupt
  pub handler : os_thread_get_trap_handler c (os_thread_get_id c) interrupt_on_expire s' ≡ h

module _ (c : Ctx) (placed : IsPlaced c) (s : System) where
  pub mine : get_timer_tid c (timer_addr c c.hartid) ≡ c.hartid
  mine = get_timer_tid-timer_addr c c.hartid placed placed.hart

  own_id : trap_tid c (os_thread_get_id c) ≡ c.hartid
  unfolding trap_tid
  own_id = ground (arith, get_tid-thread_addr c c.hartid placed placed.hart, placed.threads_low)

  abbrev after_new : ℕ → ℕ → ℕ → AttrPtr → System
  after_new f t a attr =
      put_timer c.hartid (record { ticks = 0; func = f; type = t; arg = a }) (set_attr c attr s)

  new_timer :
      (f t a : ℕ) (attr : AttrPtr)
      → f ≢ null_ptr
      → is_active c.hartid s ≡ false
      → os_timer_new c f t a attr s ≡ some (timer_addr c c.hartid, after_new f t a attr)
  unfolding os_timer_new
  new_timer f t a attr n e = ground arith

  after_new-IsTimer : (f t a : ℕ) (attr : AttrPtr) → IsTimer c f t a (after_new f t a attr)
  unfolding set_attr
  after_new-IsTimer f t a AttrPtr.null = record {
    active = ground arith;
    func = ground arith;
    type = ground arith;
    arg = ground arith;
  }
  after_new-IsTimer f t a (AttrPtr.own i) = record {
    active = ground arith;
    func = ground arith;
    type = ground arith;
    arg = ground arith;
  }
  after_new-IsTimer f t a (AttrPtr.user i) = record {
    active = ground arith;
    func = ground arith;
    type = ground arith;
    arg = ground arith;
  }

  abbrev after_start : ℕ → ℕ → System
  after_start t ticks = arm c c.hartid ticks (record s {
    trap_handler_vector =
        update s.trap_handler_vector c.hartid
          (update (s.trap_handler_vector c.hartid) interrupt_on_expire (expiry_handler t));
  })

  start_timer :
      (f t a ticks : ℕ)
      → IsTimer c f t a s
      → 0 < ticks
      → t < 2
      → os_timer_start c (timer_addr c c.hartid) ticks s ≡ some (Status.ok, after_start t ticks)
  unfolding os_timer_start os_thread_set_trap_handler handler_of
  start_timer f zero a ticks t p h =
      ground (arith, mine, own_id, placed.timers_low, t.active, t.type)
  start_timer f (suc zero) a ticks t p h =
      ground (arith, mine, own_id, placed.timers_low, t.active, t.type)
  start_timer f (suc (suc n)) a ticks t p h = absurd (omega arith)

  after_start-IsArmed : (t ticks : ℕ) → IsArmed c ticks (expiry_handler t) s (after_start t ticks)
  unfolding arm set_compare interrupt_expire os_thread_get_trap_handler
  after_start-IsArmed t ticks = record {
    period = ground arith;
    compare = ground arith;
    expire = ground arith;
    handler = ground (arith, own_id);
  }

-- osTimerNew, and osTimerStart of what it gives.
unfoldable pub new_and_start : Ctx → ℕ → ℕ → ℕ → AttrPtr → ℕ → M (ℕ × Status)
new_and_start c f t a attr ticks = do
  timer ← os_timer_new c f t a attr
  started ← os_timer_start c timer ticks
  pure (timer, started)

set_attr-clock : (c : Ctx) (attr : AttrPtr) (s : System) → (set_attr c attr s).clock ≡ s.clock
unfolding set_attr
set_attr-clock c AttrPtr.null s = refl
set_attr-clock c (AttrPtr.own i) s = refl
set_attr-clock c (AttrPtr.user i) s = refl

after_start-IsTimer :
    (c : Ctx) (placed : IsPlaced c) (s : System) (f t a ticks : ℕ)
    → IsTimer c f t a s
    → IsTimer c f t a (after_start c placed s t ticks)
unfolding arm set_compare interrupt_expire
after_start-IsTimer c placed s f t a ticks r = record {
  active = r.active;
  func = ground (arith, r.func);
  type = ground (arith, r.type);
  arg = ground (arith, r.arg);
}

module _ (c : Ctx) (placed : IsPlaced c) where
  is_running_ticks :
      (s : System)
      → is_active c.hartid s ≡ true
      → (s.startup_timer_state c.hartid).ticks ≢ 0
      → os_timer_is_running c (timer_addr c c.hartid) s ≡ true
  unfolding os_timer_is_running
  is_running_ticks s e n = ground (arith, mine c placed s, placed.timers_low)

module _ (c : Ctx) (placed : IsPlaced c) (s : System) where
  new_and_start-steps :
      (f t a ticks : ℕ) (attr : AttrPtr)
      → f ≢ null_ptr
      → is_active c.hartid s ≡ false
      → 0 < ticks
      → t < 2
      → new_and_start c f t a attr ticks s
        ≡ some (
          (timer_addr c c.hartid, Status.ok),
          after_start c placed (after_new c placed s f t a attr) t ticks,
        )
  unfolding new_and_start
  new_and_start-steps f t a ticks attr n e p h =
      let s1 = after_new c placed s f t a attr in
      rw
        (
          new_timer c placed s f t a attr n e,
          ◌>>=◌,
          start_timer c placed s1 f t a ticks (after_new-IsTimer c placed s f t a attr) p h,
        )
        refl

  -- On a hart without a timer, osTimerNew with a callback and one of the two types, and osTimerStart
  -- with ticks above 0, give the hart's timer and osOK: the timer runs with this callback, it is set to
  -- expire after `ticks`, and the trap handler of its type is installed.
  pub new_and_start-IsArmed :
      (f t a ticks : ℕ) (attr : AttrPtr)
      → f ≢ null_ptr
      → is_active c.hartid s ≡ false
      → 0 < ticks
      → t < 2
      → (s' : System) × (new_and_start c f t a attr ticks s
          ≡ some ((timer_addr c c.hartid, Status.ok), s'))
        × (os_timer_is_running c (timer_addr c c.hartid) s' ≡ true)
        × IsTimer c f t a s'
        × IsArmed c ticks (expiry_handler t) s s'
  unfolding arm set_compare interrupt_expire
  new_and_start-IsArmed f t a ticks attr n e p h =
      let s1 = after_new c placed s f t a attr in
      let k =
        after_start-IsTimer c placed s1 f t a ticks (after_new-IsTimer c placed s f t a attr) in
      let b = after_start-IsArmed c placed s1 t ticks in
      (
        _,
        new_and_start-steps f t a ticks attr n e p h,
        is_running_ticks c placed (after_start c placed s1 t ticks) k.active
            (λ z. omega (arith, b.period, z)),
        k,
        record {
          period = b.period;
          compare = b.compare ∙ ap (λ x. (ticks + x) % u32_mod) (set_attr-clock c attr s);
          expire = b.expire;
          handler = b.handler;
        },
      )

-- The timer does not run, and nothing happens when the clock goes on.
pub record IsStopped (c : Ctx) (s' : System) : Type 0 where
  pub still : os_timer_is_running c (timer_addr c c.hartid) s' ≡ false
  pub expire : s'.expire c.hartid ≡ off
  pub handler :
      os_thread_get_trap_handler c (os_thread_get_id c) interrupt_on_expire s'
      ≡ TrapHandler.default_ie

module _ (c : Ctx) (placed : IsPlaced c) (s : System) where
  abbrev after_stop : System
  after_stop =
      record (set_compare c 0
        (put_timer c.hartid (record (s.startup_timer_state c.hartid) { ticks = 0 }) s)) {
          trap_handler_vector =
              update s.trap_handler_vector c.hartid (
                update (s.trap_handler_vector c.hartid) interrupt_on_expire TrapHandler.default_ie);
        }

  stop_timer :
      os_timer_is_running c (timer_addr c c.hartid) s ≡ true
      → os_timer_stop c (timer_addr c c.hartid) s ≡ some (Status.ok, after_stop)
  unfolding os_timer_is_running os_timer_stop os_thread_set_trap_handler set_compare
  stop_timer e = ground (arith, mine c placed s, own_id c placed s)

  -- osTimerStop of the hart's running timer answers osOK.
  stop-IsStopped :
      (f t a : ℕ)
      → IsTimer c f t a s
      → os_timer_is_running c (timer_addr c c.hartid) s ≡ true
      → (s' : System) × (os_timer_stop c (timer_addr c c.hartid) s ≡ some (Status.ok, s'))
        × IsStopped c s'
        × IsTimer c f t a s'
  unfolding os_timer_is_running set_compare os_thread_get_trap_handler
  stop-IsStopped f t a r e = (
    after_stop,
    stop_timer e,
    record {
      still = ground (arith, mine c placed s);
      expire = ground arith;
      handler = ground (arith, own_id c placed s);
    },
    record {
      active = r.active;
      func = ground (arith, r.func);
      type = ground (arith, r.type);
      arg = ground (arith, r.arg);
    },
  )
