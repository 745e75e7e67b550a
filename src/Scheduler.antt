-- ===== src/Scheduler.antt =====
-- src/os/src/flexpret_scheduler.c: who runs in which slot and in which mode. All that writes the slot
-- register runs under `slot_mutex`.
pub mod Harts
pub mod Locked
pub mod SlotNum
pub mod Steps
pub mod Change
pub mod Switch
pub mod Service
pub mod Create
pub mod GiveUp
use flexpret.Common.{
  ℕ, ◌+◌, ◌-◌, ◌*◌, ◌%◌, ◌^◌, Bool, true, false, not, ◌&&◌, some, List, [], ◌∷◌, ◌==◌, leb,
  if◌then◌else◌, get_or,
}
use flexpret.Common.Int.{ℤ, pos, negsuc}
use flexpret.State.{Ctx, System, Status, Priority, ThreadAttr, AttrPtr, max_hw_threads_nums}
use flexpret.State.Run.{M, ◌>>=◌, ◌>>◌, pure}
use flexpret.Tid.{get_tid}
use flexpret.Slots.{get_slots, slot_s, slot_d, count_slots, set_slot_num}
use flexpret.Tmodes.{get_tmodes, set_thread_mode, tmode_ha, tmode_sa, tmode_hard, tmode_soft}
use flexpret.Mutex.Ops.{os_mutex_release}
use flexpret.Mutex.Wait.{os_mutex_acquire, os_wait_forever}
use Harts.{count_srtt, everyone, all_but}

-- acquire_slot_mutex(); ... release_slot_mutex(); A failure is reported on the console only.
unfoldable pub locked : {A : Type 0} → Ctx → M A → M A
locked c body = do
  (λ s. os_mutex_acquire c s.slot_mutex os_wait_forever s)
  a ← body
  (λ s. os_mutex_release c s.slot_mutex s)
  pure a

-- A statement under a test; the status of the call is dropped.
unfoldable pub when : Bool → M Status → M Status
when b m = if b then m else pure Status.ok

-- The loop of osSchedulerGetFreq that counts the slots in use.
unfoldable pub used_count : List ℕ → ℕ
used_count [] = 0
used_count (x ∷ s) = (if x == slot_d then 0 else 1) + used_count s

-- The soft slots, as counted by the loops that test for the slots of `t` first.
unfoldable pub soft_count : ℕ → List ℕ → ℕ
soft_count t [] = 0
soft_count t (x ∷ s) = (if x == t then 0 else if x == slot_s then 1 else 0) + soft_count t s

-- osSchedulerGetFreq: the three counts, four bits each.
unfoldable pub os_scheduler_get_freq : Ctx → ℕ → System → ℕ
unfolding used_count soft_count
os_scheduler_get_freq c thread_id s =
    let slots = get_slots s.slots in
    let tid = get_tid c thread_id in
    count_slots tid slots % 16 * 2 ^ 8 + soft_count tid slots % 16 * 2 ^ 4 + used_count slots % 16

-- osSchedulerSetSlotNum
unfoldable pub os_scheduler_set_slot_num : Ctx → ℕ → ℤ → M Status
unfolding locked
os_scheduler_set_slot_num c thread_id (negsuc n) = pure Status.error_parameter
os_scheduler_set_slot_num c thread_id (pos count) =
    if leb (max_hw_threads_nums - 1) count
    then pure Status.error_parameter
    else locked c (set_slot_num (get_tid c thread_id) count)

-- osSchedulerSetSoftSlotNum
unfoldable pub os_scheduler_set_soft_slot_num : Ctx → ℤ → M Status
unfolding locked
os_scheduler_set_soft_slot_num c (negsuc n) = pure Status.error_parameter
os_scheduler_set_soft_slot_num c (pos count) =
    if leb (max_hw_threads_nums - 1) count
    then pure Status.error_parameter
    else locked c (set_slot_num slot_s count)

-- osSchedulerSetTmodes
unfoldable pub os_scheduler_set_tmodes : Ctx → ℕ → ℕ → M Status
os_scheduler_set_tmodes c thread_id tmode = set_thread_mode (get_tid c thread_id) tmode

-- osSchedulerGetTmodes
unfoldable pub os_scheduler_get_tmodes : Ctx → ℕ → System → ℕ
os_scheduler_get_tmodes c thread_id s = get_or (get_tmodes s.tmodes) (get_tid c thread_id) 0

-- osSchedulerGetSRTTNum
unfoldable pub os_scheduler_get_srtt_num : System → ℕ
os_scheduler_get_srtt_num s = count_srtt everyone s 0 (get_tmodes s.tmodes)

-- The critical section of srtt_terminate.
unfoldable pub srtt_terminate_body : ℕ → M Status
unfolding when
srtt_terminate_body tid s =
    let res = count_srtt (all_but tid) s 0 (get_tmodes s.tmodes) in
    (set_slot_num tid 0 >>= λ _. when (res == 0) (set_slot_num slot_s 0)) s

-- srtt_terminate
unfoldable pub srtt_terminate : Ctx → ℕ → M Status
unfolding locked srtt_terminate_body
srtt_terminate c tid = locked c (srtt_terminate_body tid)

-- The critical section of change_srtt_to_hrtt.
unfoldable pub srtt_to_hrtt_body : ℕ → M Status
unfolding when
srtt_to_hrtt_body tid s =
    let slots = get_slots s.slots in
    let srtt_num = count_srtt (all_but tid) s 0 (get_tmodes s.tmodes) in
    (when (count_slots tid slots == 0) (set_slot_num tid 1) >>= λ _.
    set_thread_mode tid tmode_hard >>= λ _.
    when (srtt_num == 0 && not (soft_count tid slots == 0)) (set_slot_num slot_s 0))
      s

-- change_srtt_to_hrtt
unfoldable pub change_srtt_to_hrtt : Ctx → ℕ → M Status
unfolding locked srtt_to_hrtt_body
change_srtt_to_hrtt c tid = locked c (srtt_to_hrtt_body tid)

-- The critical section of change_hrtt_to_srtt.
unfoldable pub hrtt_to_srtt_body : ℕ → M Status
unfolding when
hrtt_to_srtt_body tid s =
    let slots = get_slots s.slots in
    let srtt_num = count_srtt (all_but tid) s 0 (get_tmodes s.tmodes) in
    (when (srtt_num == 0 && soft_count tid slots == 0) (set_slot_num slot_s 1) >>= λ _.
    set_thread_mode tid tmode_soft >>= λ _.
    when (not (count_slots tid slots == 0)) (set_slot_num tid 0))
      s

-- change_hrtt_to_srtt
unfoldable pub change_hrtt_to_srtt : Ctx → ℕ → M Status
unfolding locked hrtt_to_srtt_body
change_hrtt_to_srtt c tid = locked c (hrtt_to_srtt_body tid)

-- The attributes behind a pointer; the code never follows NULL here, and address 0 holds whatever the
-- caller's memory has there.
unfoldable pub thread_attr_at : AttrPtr → System → ThreadAttr
thread_attr_at AttrPtr.null s = s.user_thread_attr 0
thread_attr_at (AttrPtr.own i) s = s.thread_attr i
thread_attr_at (AttrPtr.user k) s = s.user_thread_attr k

-- *flexpret_thread_attr_entry[tid]
abbrev pub entry_of : ℕ → System → ThreadAttr
entry_of tid s = thread_attr_at (s.thread_attr_entry tid) s

-- The critical section of thread_after_create, by the priority of the thread.
unfoldable pub after_create_body : ℕ → Priority → M Status
unfolding when
after_create_body tid Priority.realtime = set_thread_mode tid tmode_ha >>= λ _. set_slot_num tid 1
after_create_body tid Priority.normal = set_thread_mode tid tmode_sa >>= λ _ s.
    let soft =
      if (s.startup_state tid).func == 0 then 0 else count_slots slot_s (get_slots s.slots) in
    when (soft == 0) (set_slot_num slot_s 1) s
after_create_body tid _ = pure Status.ok

-- thread_after_create
unfoldable pub thread_after_create : Ctx → ℕ → M Status
unfolding locked after_create_body thread_attr_at
thread_after_create c tid = locked c (λ s. after_create_body tid (entry_of tid s).priority s)
