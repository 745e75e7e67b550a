-- ===== src/Thread.antt =====
-- src/os/src/flexpret_threads.c: the threads, one for each hart.
pub mod Stack
pub mod Clean
pub mod Kill
pub mod Returns
pub mod Well
pub mod Reach
pub mod Suspend
pub mod Attr
pub mod End
pub mod Exit
pub mod Enter
pub mod New
pub mod SetPriority
pub mod Terminate
pub mod Join
pub mod JoinRound
pub mod JoinAll
use flexpret.Common.{
  ℕ, zero, suc, ◌+◌, ◌-◌, ◌%◌, ◌≡◌, Bool, true, false, not, ◌&&◌, ◌||◌, Option, none, some, List,
  [], ◌∷◌, ◌==◌, ltb, leb, if◌then◌else◌, update,
}
use flexpret.State.{
  Ctx, System, Status, Priority, ThreadState, KernelState, ThreadAttr, AttrPtr, HwThread, null_ptr,
  hw_threads_nums, u32_mod, thread_addr, sizeof_hwthread_state,
}
use flexpret.State.Run.{M, ◌>>=◌, ◌>>◌, pure, modify}
use flexpret.Tid.{get_tid, bad_tid, os_thread_get_id}
use flexpret.Timing.{set_compare, delay_until}
use flexpret.Tmodes.{tmode_active, tmode_zombie}
use flexpret.Scheduler.{
  entry_of, thread_attr_at, os_scheduler_set_tmodes, change_srtt_to_hrtt, change_hrtt_to_srtt,
  thread_after_create,
}
use flexpret.Scheduler.Harts.{is_live}
use flexpret.Timer.{os_thread_get_timer, os_timer_is_running}
use Stack.{init_stack_addr, default_stack_size}

-- == on osPriority_t
abbrev pub priority_eq : Priority → Priority → Bool
priority_eq Priority.normal Priority.normal = true
priority_eq Priority.realtime Priority.realtime = true
priority_eq Priority.error Priority.error = true
priority_eq (Priority.other a) (Priority.other b) = a == b
priority_eq _ _ = false

-- Neither osPriorityRealtime nor osPriorityNormal.
abbrev pub is_unsupported : Priority → Bool
is_unsupported Priority.normal = false
is_unsupported Priority.realtime = false
is_unsupported _ = true

-- A write through the pointer of an entry.
unfoldable pub put_attr : AttrPtr → ThreadAttr → System → System
put_attr AttrPtr.null a s = record s { user_thread_attr = update s.user_thread_attr 0 a }
put_attr (AttrPtr.own i) a s = record s { thread_attr = update s.thread_attr i a }
put_attr (AttrPtr.user k) a s = record s { user_thread_attr = update s.user_thread_attr k a }

abbrev pub put_entry : ℕ → ThreadAttr → System → System
put_entry tid a s = put_attr (s.thread_attr_entry tid) a s

abbrev pub put_thread : ℕ → HwThread → System → System
put_thread tid t s = record s { startup_state = update s.startup_state tid t }

-- flexpret_thread_init_attr with the stack and control block of hart tid; 1 stands for the address of
-- the string literal "FlexpretThread".
abbrev pub init_thread_attr : Ctx → ℕ → ThreadAttr
init_thread_attr c tid = record {
  name = 1;
  attr_bits = 0;
  cb_mem = thread_addr c tid;
  cb_size = sizeof_hwthread_state;
  stack_mem = init_stack_addr tid;
  stack_size = default_stack_size tid;
  priority = Priority.normal;
  tz_module = 0;
  reserved = 0;
}

-- The part of osThreadNew that fills in the attributes of hart tid. The caller's object is changed.
unfoldable pub new_attr : Ctx → ℕ → AttrPtr → System → System
unfolding put_attr thread_attr_at
new_attr c tid AttrPtr.null s = put_entry tid (init_thread_attr c tid) s
new_attr c tid attr s =
    let a = thread_attr_at attr s in
    let stack = if a.stack_mem == null_ptr then init_stack_addr tid else a.stack_mem in
    let size = if a.stack_size == 0 then default_stack_size tid else a.stack_size in
    put_attr attr (record a { stack_mem = stack; stack_size = size })
      (put_thread tid (record (s.startup_state tid) { stack_address = stack })
        (record s { thread_attr_entry = update s.thread_attr_entry tid attr }))

-- osThreadNew refuses attributes whose priority it does not support.
unfoldable pub refuses : AttrPtr → System → Bool
unfolding thread_attr_at
refuses AttrPtr.null s = false
refuses attr s = is_unsupported (thread_attr_at attr s).priority

abbrev pub is_running : KernelState → Bool
is_running KernelState.running = true
is_running _ = false

-- startup_state[tid].func = func; ... .state = FLEXPRET_ACTIVE; ... .arg = argument;
unfoldable pub set_up : ℕ → ℕ → ℕ → System → System
set_up tid func argument s =
    put_thread tid
      (record (s.startup_state tid) { func = func; state = ThreadState.active; arg = argument }) s

-- A kernel that runs gives the new thread its slot and mode.
unfoldable pub schedule_new : Ctx → ℕ → M Status
schedule_new c tid s =
    if is_running s.kernel_state then thread_after_create c tid s else some (Status.ok, s)

-- The rest of osThreadNew, for the hart that it chose.
unfoldable pub start_thread : Ctx → ℕ → ℕ → ℕ → M ℕ
unfolding set_up schedule_new
start_thread c tid func argument = do
  modify (set_up tid func argument)
  schedule_new c tid
  pure (thread_addr c tid)

-- osThreadNew; the answer is the thread's id, or NULL.
unfoldable pub os_thread_new : Ctx → ℕ → ℕ → AttrPtr → M ℕ
unfolding refuses new_attr start_thread
os_thread_new c func argument attr s =
    let tid = s.thread_num in
    if func == null_ptr
    then some (null_ptr, s)
    else if tid == hw_threads_nums
    then some (null_ptr, s)
    else if refuses attr s
    then some (null_ptr, s)
    else start_thread c tid func argument (new_attr c tid attr (record s { thread_num = tid + 1 }))

-- osThreadGetName, osThreadGetStackSize
unfoldable pub os_thread_get_name : Ctx → ℕ → System → ℕ
os_thread_get_name c thread_id s = (entry_of (get_tid c thread_id) s).name

unfoldable pub os_thread_get_stack_size : Ctx → ℕ → System → ℕ
os_thread_get_stack_size c thread_id s = (entry_of (get_tid c thread_id) s).stack_size

-- osThreadGetStackSpace; `tid_addr` is the address of its local variable, on the caller's stack.
unfoldable pub os_thread_get_stack_space : Ctx → ℕ → ℕ → System → ℕ
os_thread_get_stack_space c tid_addr thread_id s =
    let tid = get_tid c thread_id in
    let a = entry_of tid s in
    if not (tid == c.hartid)
    then 0
    else if ltb tid_addr a.stack_mem && ltb (a.stack_mem - tid_addr) a.stack_size
    then a.stack_size - (a.stack_mem - tid_addr)
    else 0

-- osThreadState_t, as far as osThreadGetState answers with it
pub data OsThreadState : Type 0 where
  inactive running blocked terminated : OsThreadState

-- osThreadGetState
unfoldable pub os_thread_get_state : Ctx → ℕ → System → OsThreadState
os_thread_get_state c thread_id s = elim (s.startup_state (get_tid c thread_id)).state [
  | ThreadState.active ↦ OsThreadState.running
  | ThreadState.blocked ↦ OsThreadState.blocked
  | ThreadState.inactive ↦ OsThreadState.inactive
  | ThreadState.terminated ↦ OsThreadState.terminated
]

-- The two changes of osThreadSetPriority, and their entry in the attributes.
unfoldable pub change_priority : Ctx → ℕ → Priority → M Status
unfolding put_attr
change_priority c tid Priority.realtime = change_srtt_to_hrtt c tid >>= λ _.
    modify (λ s. put_entry tid (record (entry_of tid s) { priority = Priority.realtime }) s)
    >>= λ _. pure Status.ok
change_priority c tid Priority.normal = change_hrtt_to_srtt c tid >>= λ _.
    modify (λ s. put_entry tid (record (entry_of tid s) { priority = Priority.normal }) s) >>= λ _.
    pure Status.ok
change_priority c tid _ = pure Status.error

-- osThreadSetPriority
unfoldable pub os_thread_set_priority : Ctx → ℕ → Priority → M Status
unfolding change_priority
os_thread_set_priority c thread_id priority s =
    let tid = get_tid c thread_id in
    if thread_id == null_ptr
    then some (Status.error_parameter, s)
    else if priority_eq (entry_of tid s).priority priority
    then some (Status.ok, s)
    else change_priority c tid priority s

-- osThreadGetPriority
unfoldable pub os_thread_get_priority : Ctx → ℕ → System → Priority
os_thread_get_priority c thread_id s =
    if thread_id == null_ptr then Priority.error else (entry_of (get_tid c thread_id) s).priority

abbrev pub put_state : ℕ → ThreadState → System → System
put_state tid st s = put_thread tid (record (s.startup_state tid) { state = st }) s

-- osThreadSuspend
unfoldable pub os_thread_suspend : Ctx → ℕ → M Status
os_thread_suspend c thread_id =
    modify (put_state (get_tid c thread_id) ThreadState.blocked) >>= λ _.
    os_scheduler_set_tmodes c thread_id tmode_zombie >>= λ _. pure Status.ok

-- osThreadResume
unfoldable pub os_thread_resume : Ctx → ℕ → M Status
os_thread_resume c thread_id = os_scheduler_set_tmodes c thread_id tmode_active >>= λ _.
    modify (put_state (get_tid c thread_id) ThreadState.active) >>= λ _. pure Status.ok

-- osThreadDetach
unfoldable pub os_thread_detach : Ctx → ℕ → M Status
unfolding put_attr
os_thread_detach c thread_id s =
    let tid = get_tid c thread_id in
    some (Status.ok, put_entry tid (record (entry_of tid s) { attr_bits = 0 }) s)

-- osThreadGetCount and osThreadEnumerate: the loops from hart i on, with `n` harts left.
unfoldable pub count_live : ℕ → ℕ → System → ℕ
count_live zero i s = 0
count_live (suc n) i s = (if is_live i s then 1 else 0) + count_live n (i + 1) s

unfoldable pub os_thread_get_count : System → ℕ
unfolding count_live
os_thread_get_count s = count_live hw_threads_nums 0 s

unfoldable pub enumerate_from : Ctx → ℕ → ℕ → ℕ → System → List ℕ
enumerate_from c array_items zero i s = []
enumerate_from c array_items (suc n) i s =
    let rest = enumerate_from c array_items n (i + 1) s in
    if ltb i array_items then (if is_live i s then thread_addr c i ∷ rest else rest) else []

-- osThreadEnumerate: what it writes to the array; its answer is the number of these.
unfoldable pub os_thread_enumerate : Ctx → ℕ → System → List ℕ
unfolding enumerate_from
os_thread_enumerate c array_items s = enumerate_from c array_items hw_threads_nums 0 s

-- osThreadYield, which is not supported and only says so on the console
unfoldable pub os_thread_yield : M Status
os_thread_yield s = some (Status.ok, s)

-- osDelayUntil
unfoldable pub os_delay_until : Ctx → ℕ → ℕ → M Status
unfolding set_compare delay_until
os_delay_until c n ticks s =
    if os_timer_is_running c (os_thread_get_timer c (os_thread_get_id c) s) s
    then some (Status.error, s)
    else some (Status.ok, delay_until c n (set_compare c ticks s))
