-- ===== src/State.antt =====
-- src/os/include/flexpret_threads.h, flexpret_mutex.h, flexpret_timing.h, flexpret_trap.h,
-- flexpret_config.h and cmsis_os2.h: the types of the kernel, its global variables and the control
-- and status registers (CSRs) that it uses, as one record.
pub mod Run
use flexpret.Common.{ℕ, ◌+◌, ◌*◌, ◌^◌, Option, Bool}

-- osStatus_t
pub data Status : Type 0 where
  ok error error_timeout error_resource error_parameter : Status

-- osPriority_t: the two priorities that the kernel supports, osPriorityError, and any other value.
pub data Priority : Type 0 where
  normal realtime error : Priority
  other : ℕ → Priority

-- hwthread_state_type
pub data ThreadState : Type 0 where
  inactive active blocked terminated : ThreadState

-- osKernelState_t, as far as it is used
pub data KernelState : Type 0 where
  inactive ready running : KernelState

-- trap_handler: the handlers of flexpret_trap.c and flexpret_timing.c, and any other function
pub data TrapHandler : Type 0 where
  null default_ie default_ee default_int default_fault : TrapHandler
  timer_once timer_periodic : TrapHandler
  user : ℕ → TrapHandler

-- What happens when the clock reaches `compare`: nothing, or what interrupt_expire() arms.
pub data Expire : Type 0 where
  off interrupt : Expire

-- Pointers to attributes: NULL, an element of the kernel's own array, or an object of the caller.
pub data AttrPtr : Type 0 where
  null : AttrPtr
  own : ℕ → AttrPtr
  user : ℕ → AttrPtr

-- FLEXPRET_HW_THREADS_NUMS, FLEXPRET_MAX_HW_THREADS_NUMS, FLEXPRET_MUTEX_MAX_NUM and
-- FLEXPRET_WAIT_PERIOD
abbrev pub hw_threads_nums : ℕ
hw_threads_nums = 8

abbrev pub max_hw_threads_nums : ℕ
max_hw_threads_nums = 8

abbrev pub mutex_max_num : ℕ
mutex_max_num = 8

abbrev pub wait_period : ℕ
wait_period = 10000

-- Pointers are addresses, and 0 is NULL.
abbrev pub null_ptr : ℕ
null_ptr = 0

abbrev pub u32_mod : ℕ
u32_mod = 2 ^ 32

-- hwthread_state
pub record HwThread : Type 0 where
  pub func : ℕ
  pub state : ThreadState
  pub arg : ℕ
  pub stack_address : ℕ

-- sizeof(hwthread_state) and sizeof(hwtimer_state)
abbrev pub sizeof_hwthread_state : ℕ
sizeof_hwthread_state = 16

abbrev pub sizeof_hwtimer_state : ℕ
sizeof_hwtimer_state = 16

-- osThreadAttr_t
pub record ThreadAttr : Type 0 where
  pub name : ℕ
  pub attr_bits : ℕ
  pub cb_mem : ℕ
  pub cb_size : ℕ
  pub stack_mem : ℕ
  pub stack_size : ℕ
  pub priority : Priority
  pub tz_module : ℕ
  pub reserved : ℕ

-- mutex_state; `owner` is the address of a hwthread_state.
pub record MutexState : Type 0 where
  pub owner : ℕ
  pub name : ℕ
  pub csr_addr : ℕ
  pub count : ℕ
  pub if_recursive : Bool
  pub if_robust : Bool
  pub active : Bool
  pub if_spin : Bool

-- hwtimer_state
pub record HwTimer : Type 0 where
  pub ticks : ℕ
  pub func : ℕ
  pub type : ℕ
  pub arg : ℕ

-- osTimerAttr_t
pub record TimerAttr : Type 0 where
  pub name : ℕ
  pub attr_bits : ℕ
  pub cb_mem : ℕ
  pub cb_size : ℕ

pub record System : Type 0 where
  -- CSRs that all harts share: badvaddr (slots), ptbr (thread modes), uarch8 to uarch15 (mutexes)
  pub slots : ℕ
  pub tmodes : ℕ
  pub mutex_csr : ℕ → ℕ
  -- CSRs of each hart, and the clock
  pub compare : ℕ → ℕ
  pub expire : ℕ → Expire
  pub clock : ℕ
  -- flexpret_kernel.c
  pub kernel_state : KernelState
  pub slot_mutex : Option ℕ
  -- flexpret_threads.c and startup.S
  pub startup_state : ℕ → HwThread
  pub thread_num : ℕ
  pub thread_attr_entry : ℕ → AttrPtr
  pub thread_attr : ℕ → ThreadAttr
  pub user_thread_attr : ℕ → ThreadAttr
  pub default_soft_slot_id : Option ℕ
  -- flexpret_mutex.c
  pub startup_mutex_state : ℕ → MutexState
  pub mutex_num : ℕ
  -- flexpret_timing.c
  pub startup_timer_state : ℕ → HwTimer
  pub timer_attr_entry : ℕ → AttrPtr
  pub timer_attr : ℕ → TimerAttr
  pub user_timer_attr : ℕ → TimerAttr
  -- trap.S
  pub trap_handler_vector : ℕ → ℕ → TrapHandler

-- Who runs the code and where: the hart, the addresses that the linker gives to the arrays, what the
-- other harts do to the state while this one waits, and how many rounds of a wait are followed.
-- In a wait with `n` rounds left, `others n` is what happens before the next round.
pub record Ctx : Type 0 where
  pub hartid : ℕ
  pub startup_state_addr : ℕ
  pub startup_timer_state_addr : ℕ
  pub others : ℕ → System → System
  pub rounds : ℕ

-- osThreadId_t of hart i: &startup_state[i]
abbrev pub thread_addr : Ctx → ℕ → ℕ
thread_addr c i = c.startup_state_addr + sizeof_hwthread_state * i

-- osTimerId_t of hart i: &startup_timer_state[i]
abbrev pub timer_addr : Ctx → ℕ → ℕ
timer_addr c i = c.startup_timer_state_addr + sizeof_hwtimer_state * i
