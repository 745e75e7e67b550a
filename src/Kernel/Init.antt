-- ===== src/Kernel/Init.antt =====
-- `osKernelInitialize` of src/os/src/flexpret_kernel.c
use flexpret.Common.{ℕ, ◌+◌, ◌-◌, ◌%◌, true, false, zero, suc, some, update}
use flexpret.State.{
  Ctx, System, Status, KernelState, ThreadState, ThreadAttr, AttrPtr, Priority, null_ptr,
  hw_threads_nums, mutex_max_num, u32_mod, sizeof_hwthread_state,
}
use flexpret.State.Run.{M, ◌>>=◌, ◌>>◌, pure, modify}
use flexpret.Mutex.Csr.{csr_inactive, write_mutex_csr}
use flexpret.Mutex.Ops.{MutexAttr, os_mutex_new, os_mutex_set_spin}
use flexpret.Thread.{put_entry, put_attr}
use flexpret.Thread.Stack.{init_stack_addr}

-- slotMutexAttr: recursive (1) and robust (8); 2 stands for the address of the literal "slotMutex".
abbrev pub slot_mutex_attr : MutexAttr
slot_mutex_attr = record { name = 2; attr_bits = 9 }

-- The loop over the attribute entries, from hart i on, with `n` harts left.
unfoldable pub init_entries : ℕ → ℕ → System → System
init_entries zero i s = s
init_entries (suc n) i s = init_entries n (i + 1) (record s {
  thread_attr_entry = update s.thread_attr_entry i (AttrPtr.own i);
  timer_attr_entry = update s.timer_attr_entry i AttrPtr.null;
})

-- The loop over the mutexes.
unfoldable pub init_mutexes : ℕ → ℕ → System → System
init_mutexes zero i s = s
init_mutexes (suc n) i s = init_mutexes n (i + 1) (record s {
  startup_mutex_state = update s.startup_mutex_state i (record (s.startup_mutex_state i) {
    owner = null_ptr;
    count = 0;
    if_recursive = false;
    if_robust = false;
    active = false;
  });
})

-- The writes to CSR_MUTEX_0 to CSR_MUTEX_7.
unfoldable pub init_mutex_csrs : ℕ → ℕ → System → System
unfolding write_mutex_csr
init_mutex_csrs zero i s = s
init_mutex_csrs (suc n) i s = init_mutex_csrs n (i + 1) (write_mutex_csr i csr_inactive s)

-- The attributes of thread 0; 3 stands for the address of the literal "FlexPRET Thread 0".
abbrev pub thread_0_attr : ℕ → ThreadAttr
thread_0_attr bss_end = record {
  name = 3;
  attr_bits = 0;
  cb_mem = null_ptr;
  cb_size = sizeof_hwthread_state;
  stack_mem = init_stack_addr 0;
  stack_size = (init_stack_addr 0 + u32_mod - bss_end) % u32_mod;
  priority = Priority.realtime;
  tz_module = 0;
  reserved = 0;
}

-- The end of osKernelInitialize.
unfoldable pub init_thread_0 : ℕ → System → System
unfolding put_attr
init_thread_0 bss_end s =
    let s' = put_entry 0 (thread_0_attr bss_end) s in
    record s' {
      kernel_state = KernelState.ready;
      startup_state =
          update s'.startup_state 0 (record (s'.startup_state 0) { state = ThreadState.active });
    }

-- osKernelInitialize; `bss_end` is an address that the linker script defines.
unfoldable pub os_kernel_initialize : Ctx → ℕ → M Status
unfolding init_entries init_mutexes init_mutex_csrs init_thread_0
os_kernel_initialize c bss_end = do
  modify (init_entries hw_threads_nums 0)
  modify (init_mutexes mutex_max_num 0)
  modify (init_mutex_csrs mutex_max_num 0)
  m ← os_mutex_new (some slot_mutex_attr)
  modify (λ s. record s { slot_mutex = m })
  os_mutex_set_spin m true
  modify (init_thread_0 bss_end)
  pure Status.ok
