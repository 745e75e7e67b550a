-- ===== src/Thread/Terminate.antt =====
-- `thread_terminate`, `thread_after_return_handler`, `osThreadExit` and `osThreadTerminate` of
-- src/os/src/flexpret_threads.c
use flexpret.Common.{ℕ, zero, suc, ◌||◌, ◌==◌, Bool, true, if◌then◌else◌, Option, none, some}
use flexpret.Common.Int.{pos}
use flexpret.State.{Ctx, System, Status, Priority, null_ptr, wait_period}
use flexpret.State.Run.{M, ◌>>=◌, ◌>>◌, pure}
use flexpret.Tid.{get_tid, bad_tid, os_thread_get_id}
use flexpret.Tmodes.{tmode_ha, tmode_hz, tmode_sa, tmode_sz, tmode_zombie}
use flexpret.Scheduler.{
  entry_of, srtt_terminate, os_scheduler_set_slot_num, os_scheduler_get_tmodes,
  os_scheduler_set_tmodes,
}
use flexpret.Scheduler.Harts.{is_live}
use flexpret.Mutex.Wait.{sleep}
use flexpret.Thread.Clean.{thread_clean}

-- The loop of thread_terminate: for a priority that is not supported the mode decides, in a second
-- round, and for an unknown mode the slots are given up.
unfoldable pub give_up_by_mode : Ctx → ℕ → ℕ → M Status
give_up_by_mode c thread_id tid s =
    let tmode = os_scheduler_get_tmodes c thread_id s in
    if tmode == tmode_ha || tmode == tmode_hz
    then os_scheduler_set_slot_num c thread_id (pos 0) s
    else if tmode == tmode_sa || tmode == tmode_sz
    then srtt_terminate c tid s
    else os_scheduler_set_slot_num c thread_id (pos 0) s

unfoldable pub give_up_slots : Ctx → ℕ → ℕ → Priority → M Status
unfolding give_up_by_mode
give_up_slots c thread_id tid Priority.normal = srtt_terminate c tid
give_up_slots c thread_id tid Priority.realtime = os_scheduler_set_slot_num c thread_id (pos 0)
give_up_slots c thread_id tid _ = give_up_by_mode c thread_id tid

-- thread_terminate
unfoldable pub thread_terminate : Ctx → ℕ → Bool → M Status
unfolding give_up_slots
thread_terminate c thread_id clean = do
  tid ← if clean then thread_clean c thread_id else pure (get_tid c thread_id)
  (λ s. give_up_slots c thread_id tid (entry_of tid s).priority s)
  os_scheduler_set_tmodes c thread_id tmode_zombie

-- while (1) { if (startup_state[tid].func != NULL) break; osDelay(FLEXPRET_WAIT_PERIOD); }
unfoldable pub sleep_until_new : Ctx → ℕ → System → Option System
sleep_until_new c zero s = none
sleep_until_new c (suc n) s =
    let again = sleep_until_new c n (sleep c n wait_period s) in
    if is_live c.hartid s then some s else again

-- thread_after_return_handler, and so osThreadExit: the state in which the hart jumps to the reset
-- code, to run its next thread.
unfoldable pub os_thread_exit : Ctx → System → Option System
unfolding sleep_until_new
os_thread_exit c s = elim (thread_clean c (os_thread_get_id c) s) [
  | none ↦ none
  | some (_, s') ↦ sleep_until_new c c.rounds s'
]

-- How a call ends that may end its caller.
pub data Outcome : Type 0 where
  returns : Status → Outcome
  restarts : Outcome

abbrev restart : Option System → Option (Outcome × System)
restart none = none
restart (some s) = some (Outcome.restarts, s)

-- osThreadTerminate
unfoldable pub os_thread_terminate : Ctx → ℕ → M Outcome
os_thread_terminate c thread_id =
    if thread_id == null_ptr || get_tid c thread_id == bad_tid
    then pure (Outcome.returns Status.error_parameter)
    else if thread_id == os_thread_get_id c
    then (λ s. restart (os_thread_exit c s))
    else (thread_terminate c thread_id true >>= λ _. pure (Outcome.returns Status.ok))
