-- ===== src/Mutex/Wait.antt =====
-- osMutexAcquire of src/os/src/flexpret_mutex.c. Between two rounds of a wait the other harts run; when the
-- rounds of the context are used up before the wait is over, the answer is `none`.
use flexpret.Common.{
  ℕ, zero, suc, ◌+◌, ◌-◌, ◌%◌, ◌^◌, Bool, true, false, not, ◌&&◌, Option, none, some, ◌==◌, ltb,
  if◌then◌else◌,
}
use flexpret.State.{Ctx, System, Status, null_ptr, wait_period, u32_mod}
use flexpret.State.Run.{M}
use flexpret.Tid.{os_thread_get_id}
use flexpret.Timing.{get_time, delay_until_periodic}
use flexpret.Mutex.Csr.{csr_active, csr_inactive, swap_mutex_csr, write_mutex_csr}
use flexpret.Mutex.Ops.{put_mutex, count_up}

-- osWaitForever
abbrev pub os_wait_forever : ℕ
os_wait_forever = 2 ^ 32 - 1

-- mutex->owner = osThreadGetId(); mutex->count = 1;
unfoldable pub take : Ctx → ℕ → System → System
take c m s =
    put_mutex m (record (s.startup_mutex_state m) { owner = os_thread_get_id c; count = 1 }) s

-- osDelay, in a wait with `n` rounds left
abbrev pub sleep : Ctx → ℕ → ℕ → System → System
sleep c n ticks s = delay_until_periodic c n (get_time s) ticks s

-- while (1) { if (swap ... == ACTIVE) break; if (!mutex->ifSpin) osDelay(...); }
-- A spinning hart lets the others run too, between two of its instructions.
unfoldable pub wait_forever : Ctx → ℕ → ℕ → System → Option System
unfolding swap_mutex_csr
wait_forever c m zero s = none
wait_forever c m (suc n) s =
    let (old, s') = swap_mutex_csr (s.startup_mutex_state m).csr_addr csr_inactive s in
    let pause =
      if (s'.startup_mutex_state m).if_spin then c.others n s' else sleep c n wait_period s' in
    let again = wait_forever c m n pause in if old == csr_active then some s' else again

-- do { swap ... } while (get_time() < timeout + ctime);
-- The sum is of uint32_t. True: taken; false: timed out.
unfoldable pub spin_until : Ctx → ℕ → ℕ → ℕ → System → Option (Bool × System)
unfolding swap_mutex_csr
spin_until c m deadline zero s = none
spin_until c m deadline (suc n) s =
    let (old, s') = swap_mutex_csr (s.startup_mutex_state m).csr_addr csr_inactive s in
    let later = c.others n s' in
    let again = spin_until c m deadline n later in
    if old == csr_active
    then some (true, s')
    else if ltb (get_time later) deadline
    then again
    else some (false, later)

-- do { osDelay(period); swap ...; all_time += period; } while (all_time < timeout);
unfoldable pub poll_until : Ctx → ℕ → ℕ → ℕ → ℕ → ℕ → System → Option (Bool × System)
unfolding swap_mutex_csr
poll_until c m timeout period all_time zero s = none
poll_until c m timeout period all_time (suc n) s =
    let woken = sleep c n period s in
    let (old, s') = swap_mutex_csr (woken.startup_mutex_state m).csr_addr csr_inactive woken in
    let total = (all_time + period) % u32_mod in
    let again = poll_until c m timeout period total n s' in
    if old == csr_active
    then some (true, s')
    else if ltb total timeout
    then again
    else some (false, s')

-- What follows a wait.
unfoldable pub after_wait : Ctx → ℕ → Option (Bool × System) → Option (Status × System)
unfolding take
after_wait c m none = none
after_wait c m (some (true, s)) = some (Status.ok, take c m s)
after_wait c m (some (false, s)) = some (Status.error_timeout, s)

unfoldable pub after_forever : Ctx → ℕ → Option System → Option (Status × System)
unfolding take
after_forever c m none = none
after_forever c m (some s) = some (Status.ok, take c m s)

-- The part of osMutexAcquire that follows a failed first swap; s is the state after that swap.
unfoldable pub acquire_taken : Ctx → ℕ → ℕ → M Status
unfolding wait_forever spin_until poll_until after_wait after_forever
acquire_taken c m timeout s =
    let mu = s.startup_mutex_state m in
    if mu.owner == os_thread_get_id c && mu.if_recursive
    then some (Status.ok, put_mutex m (record mu { count = count_up mu.count }) s)
    else if timeout == 0
    then some (Status.error_resource, s)
    else if timeout == os_wait_forever
    then after_forever c m (wait_forever c m c.rounds s)
    else if mu.if_spin
    then after_wait c m (spin_until c m ((timeout + get_time s) % u32_mod) c.rounds s)
    else (let period = if ltb wait_period timeout then wait_period else timeout in
        after_wait c m (poll_until c m timeout period 0 c.rounds s))

-- osMutexAcquire
unfoldable pub os_mutex_acquire : Ctx → Option ℕ → ℕ → M Status
unfolding swap_mutex_csr write_mutex_csr take acquire_taken
os_mutex_acquire c none timeout s = some (Status.error_parameter, s)
os_mutex_acquire c (some m) timeout s =
    let mu = s.startup_mutex_state m in
    let (old, s') = swap_mutex_csr mu.csr_addr csr_inactive s in
    if not mu.active
    then some (Status.error_parameter, s)
    else if old == csr_active
    then (if mu.owner == null_ptr
        then some (Status.ok, take c m s')
        else some (Status.error, write_mutex_csr mu.csr_addr csr_active s'))
    else acquire_taken c m timeout s'
