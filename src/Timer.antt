-- ===== src/Timer.antt =====
-- src/os/src/flexpret_timing.c: one software timer for each hart, on the hart's `compare` CSR. A timer is
-- active if its entry in `timer_attr_entry` is not NULL, and runs if its `ticks` are not 0.
pub mod Handlers
pub mod Laws
pub mod Callback
pub mod Delete
use flexpret.Common.{
  ℕ, ◌+◌, ◌%◌, Bool, true, false, not, ◌&&◌, Option, none, some, ◌==◌, if◌then◌else◌, update,
}
use flexpret.State.{
  Ctx, System, Status, HwTimer, TimerAttr, AttrPtr, TrapHandler, null_ptr, u32_mod, timer_addr,
  sizeof_hwtimer_state,
}
use flexpret.State.Run.{M, ◌>>=◌, ◌>>◌, pure, modify}
use flexpret.Tid.{get_tid, get_timer_tid, os_thread_get_id}
use flexpret.Timing.{get_time, set_compare, interrupt_expire}
use flexpret.Trap.{os_thread_set_trap_handler, interrupt_on_expire}

-- osTimerOnce and osTimerPeriodic
abbrev pub timer_once : ℕ
timer_once = 0

abbrev pub timer_periodic : ℕ
timer_periodic = 1

abbrev pub is_null : AttrPtr → Bool
is_null AttrPtr.null = true
is_null _ = false

-- flexpret_timer_attr_entry[tid] != NULL
abbrev pub is_active : ℕ → System → Bool
is_active tid s = not (is_null (s.timer_attr_entry tid))

abbrev pub put_timer : ℕ → HwTimer → System → System
put_timer tid t s = record s { startup_timer_state = update s.startup_timer_state tid t }

-- flexpret_timer_init_attr, with the control block of the timer; 1 stands for the address of the
-- string literal "Thread timer".
abbrev pub init_attr : Ctx → ℕ → TimerAttr
init_attr c tid = record {
  name = 1;
  attr_bits = 0;
  cb_mem = timer_addr c tid;
  cb_size = sizeof_hwtimer_state;
}

-- The attributes of a new timer: the kernel's own, filled in, or the caller's.
unfoldable pub set_attr : Ctx → AttrPtr → System → System
set_attr c AttrPtr.null s = record s {
  timer_attr_entry = update s.timer_attr_entry c.hartid (AttrPtr.own c.hartid);
  timer_attr = update s.timer_attr c.hartid (init_attr c c.hartid);
}
set_attr c attr s = record s { timer_attr_entry = update s.timer_attr_entry c.hartid attr }

-- osTimerNew; the answer is the address of the timer, or NULL.
unfoldable pub os_timer_new : Ctx → ℕ → ℕ → ℕ → AttrPtr → M ℕ
unfolding set_attr
os_timer_new c func type argument attr s =
    let tid = c.hartid in
    if is_active tid s
    then some (null_ptr, s)
    else if func == null_ptr
    then some (null_ptr, s)
    else some (
      timer_addr c tid,
      put_timer tid (record { ticks = 0; func = func; type = type; arg = argument })
          (set_attr c attr s),
    )

-- The handler that osTimerStart installs for a type of timer.
unfoldable pub handler_of : ℕ → Option TrapHandler
handler_of type =
    if type == timer_once
    then some TrapHandler.timer_once
    else if type == timer_periodic
    then some TrapHandler.timer_periodic
    else none

-- timer->ticks = ticks; set_compare(ticks + get_time()); interrupt_expire();
-- `timer` is the address that the caller gave, the element of hart `tid`.
unfoldable pub arm : Ctx → ℕ → ℕ → System → System
unfolding set_compare interrupt_expire
arm c tid ticks s = interrupt_expire c (
    set_compare c ((ticks + get_time s) % u32_mod)
      (put_timer tid (record (s.startup_timer_state tid) { ticks = ticks }) s))

-- osTimerStart
unfoldable pub os_timer_start : Ctx → ℕ → ℕ → M Status
unfolding handler_of arm
os_timer_start c timer_id ticks s =
    let tid = get_timer_tid c timer_id in
    if timer_id == null_ptr
    then some (Status.error_parameter, s)
    else if not (is_active tid s)
    then some (Status.error, s)
    else if ticks == 0
    then some (Status.error, s)
    else elim (handler_of (s.startup_timer_state tid).type) [
      | none ↦ some (Status.error, s)
      | some h ↦
          (os_thread_set_trap_handler c (os_thread_get_id c) h interrupt_on_expire >>= λ _.
          modify (arm c tid ticks) >>= λ _. pure Status.ok)
            s
    ]

-- osTimerStop
unfoldable pub os_timer_stop : Ctx → ℕ → M Status
unfolding set_compare
os_timer_stop c timer_id s =
    let tid = get_timer_tid c timer_id in
    let timer = s.startup_timer_state tid in
    if timer_id == null_ptr
    then some (Status.error_parameter, s)
    else if not (is_active tid s)
    then some (Status.error, s)
    else if timer.ticks == 0
    then some (Status.error_resource, s)
    else (modify (λ t. set_compare c 0 (put_timer tid (record timer { ticks = 0 }) t)) >>= λ _.
          os_thread_set_trap_handler c (os_thread_get_id c) TrapHandler.default_ie
            interrupt_on_expire
          >>= λ _. pure Status.ok)
        s

-- osTimerIsRunning
unfoldable pub os_timer_is_running : Ctx → ℕ → System → Bool
os_timer_is_running c timer_id s =
    let tid = get_timer_tid c timer_id in
    if timer_id == null_ptr
    then false
    else if not (is_active tid s)
    then false
    else not ((s.startup_timer_state tid).ticks == 0)

-- What osTimerDelete does to the timer of hart `tid`.
unfoldable pub delete_at : Ctx → ℕ → System → System
unfolding set_compare
delete_at c tid s =
    let timer = s.startup_timer_state tid in
    let stopped =
      if timer.ticks == 0
      then s
      else set_compare c 0 (put_timer tid (record timer { ticks = 0 }) s) in
    put_timer tid (record timer { ticks = 0; func = null_ptr; arg = null_ptr })
      (record stopped { timer_attr_entry = update stopped.timer_attr_entry tid AttrPtr.null })

-- osTimerDelete
unfoldable pub os_timer_delete : Ctx → ℕ → M Status
unfolding delete_at
os_timer_delete c timer_id s =
    if timer_id == null_ptr
    then some (Status.error_parameter, s)
    else some (Status.ok, delete_at c (get_timer_tid c timer_id) s)

-- osThreadGetTimer
unfoldable pub os_thread_get_timer : Ctx → ℕ → System → ℕ
os_thread_get_timer c thread_id s =
    let tid = get_tid c thread_id in if is_active tid s then timer_addr c tid else null_ptr

-- osTimerSetFunc
unfoldable pub os_timer_set_func : Ctx → ℕ → ℕ → ℕ → M Status
unfolding set_compare
os_timer_set_func c timer_id timer_func argument s =
    let tid = get_timer_tid c timer_id in
    if not (is_active tid s)
    then some (Status.error, s)
    else if not (tid == c.hartid)
    then some (Status.error, s)
    else some (
      Status.ok,
      put_timer tid
          (record (s.startup_timer_state tid) { ticks = 0; func = timer_func; arg = argument })
          (set_compare c 0 s),
    )

-- The attributes behind a pointer.
unfoldable pub timer_attr_at : AttrPtr → System → Option TimerAttr
timer_attr_at AttrPtr.null s = none
timer_attr_at (AttrPtr.own i) s = some (s.timer_attr i)
timer_attr_at (AttrPtr.user k) s = some (s.user_timer_attr k)

-- osTimerGetName; 0 stands for the address of the empty string literal.
unfoldable pub os_timer_get_name : Ctx → ℕ → System → ℕ
unfolding timer_attr_at
os_timer_get_name c timer_id s =
    elim (timer_attr_at (s.timer_attr_entry (get_timer_tid c timer_id)) s) [
      | none ↦ 0
      | some attr ↦ attr.name
    ]
