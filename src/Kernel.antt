-- ===== src/Kernel.antt =====
-- src/os/src/flexpret_kernel.c: start-up, start and reset of the kernel.
pub mod Info
pub mod InfoRound
pub mod InfoText
pub mod Init
pub mod Start
pub mod Ready
pub mod Plan
pub mod Served
pub mod Boot
pub mod Run
use flexpret.Common.{ℕ, ◌+◌, ◌-◌, zero, suc, none, update}
use flexpret.State.{
  Ctx, System, Status, KernelState, ThreadState, TrapHandler, null_ptr, hw_threads_nums,
}
use flexpret.State.Run.{M}
use flexpret.Timing.{get_time}
use flexpret.Thread.Stack.{init_stack_addr}
use Init.{os_kernel_initialize}

-- osKernelGetState, osKernelGetTickCount, osKernelGetTickFreq (FLEXPRET_FREQ)
unfoldable pub os_kernel_get_state : System → KernelState
os_kernel_get_state s = s.kernel_state

unfoldable pub os_kernel_get_tick_count : System → ℕ
os_kernel_get_tick_count s = get_time s

unfoldable pub os_kernel_get_tick_freq : ℕ
os_kernel_get_tick_freq = 100000000

-- The loop of osKernelReset over the threads, from hart i on, with `n` harts left.
unfoldable pub reset_threads : ℕ → ℕ → System → System
reset_threads zero i s = s
reset_threads (suc n) i s = reset_threads n (i + 1) (record s {
  startup_state = update s.startup_state i (record {
    func = null_ptr;
    state = ThreadState.inactive;
    arg = null_ptr;
    stack_address = init_stack_addr i;
  });
})

-- The four default handlers of a hart.
abbrev pub default_handlers : (ℕ → TrapHandler) → ℕ → TrapHandler
default_handlers h =
    update
      (update (update (update h 0 TrapHandler.default_ie) 1 TrapHandler.default_ee) 2
        TrapHandler.default_int)
      3 TrapHandler.default_fault

-- The loop of osKernelReset over the trap handlers.
unfoldable pub reset_handlers : ℕ → ℕ → System → System
reset_handlers zero i s = s
reset_handlers (suc n) i s = reset_handlers n (i + 1) (record s {
  trap_handler_vector = update s.trap_handler_vector i (default_handlers (s.trap_handler_vector i));
})

-- osKernelReset
unfoldable pub os_kernel_reset : Ctx → ℕ → M Status
unfolding reset_threads reset_handlers
os_kernel_reset c bss_end s = os_kernel_initialize c bss_end (
    reset_handlers hw_threads_nums 0
      (record (reset_threads (hw_threads_nums - 1) 1
        (record s { slots = 0xfffffff0; tmodes = 0x55555554 })) {
          thread_num = 1;
          default_soft_slot_id = none;
          mutex_num = 0;
        }))
