-- ===== src/Examples.antt =====
-- A small system on which the library's theorems are applied: hart 0 is live and owns slot 0, the other
-- slots are disabled, mutex 0 guards the slots, and the other harts do nothing.
pub mod EmulatorRuns
pub mod SlotRuns
pub mod MutexRuns
pub mod SwitchRuns
pub mod TimerRuns
pub mod ThreadRuns
pub mod EndRuns
pub mod KernelRuns
pub mod StringRuns
pub mod AppRuns
use flexpret.Common.{ℕ, ◌==◌, if◌then◌else◌, true, false, some, none, arith}
use flexpret.State.{
  Ctx, System, HwThread, ThreadState, ThreadAttr, MutexState, HwTimer, TimerAttr, AttrPtr, Expire,
  Priority, TrapHandler, KernelState,
}
use flexpret.Tid.Laws.{IsPlaced}

abbrev pub hart : ℕ → Ctx
hart i = record {
  hartid = i;
  startup_state_addr = 8192;
  startup_timer_state_addr = 16384;
  others = λ n s. s;
  rounds = 10;
}

abbrev pub thread_with : ℕ → HwThread
thread_with f = record { func = f; state = ThreadState.inactive; arg = 0; stack_address = 4096 }

abbrev pub attr : ThreadAttr
attr = record {
  name = 1;
  attr_bits = 0;
  cb_mem = 0;
  cb_size = 0;
  stack_mem = 0;
  stack_size = 0;
  priority = Priority.realtime;
  tz_module = 0;
  reserved = 0;
}

-- A free recursive and robust mutex, with the CSR of its number.
abbrev pub mutex : ℕ → MutexState
mutex i = record {
  owner = 0;
  name = 1;
  csr_addr = i;
  count = 0;
  if_recursive = true;
  if_robust = true;
  active = true;
  if_spin = false;
}

abbrev pub system : System
system = record {
  slots = 4294967280;
  tmodes = 0;
  mutex_csr = λ i. 0;
  compare = λ i. 0;
  expire = λ i. Expire.off;
  clock = 0;
  kernel_state = KernelState.running;
  slot_mutex = some 0;
  startup_state = λ i. thread_with (if i == 0 then 4096 else 0);
  thread_num = 1;
  thread_attr_entry = λ i. AttrPtr.own i;
  thread_attr = λ i. attr;
  user_thread_attr = λ i. attr;
  default_soft_slot_id = none;
  startup_mutex_state = mutex;
  mutex_num = 8;
  startup_timer_state = λ i. record { ticks = 0; func = 0; type = 0; arg = 0 };
  timer_attr_entry = λ i. AttrPtr.null;
  timer_attr = λ i. record { name = 0; attr_bits = 0; cb_mem = 0; cb_size = 0 };
  user_timer_attr = λ i. record { name = 0; attr_bits = 0; cb_mem = 0; cb_size = 0 };
  trap_handler_vector = λ i k. TrapHandler.null;
}

pub hart_0-IsPlaced : IsPlaced (hart 0)
hart_0-IsPlaced = record {
  hart = omega arith;
  threads_low = omega arith;
  threads_high = omega arith;
  timers_low = omega arith;
  timers_high = omega arith;
}
