-- ===== src/Thread/Clean.antt =====
-- `thread_clean` of src/os/src/flexpret_threads.c
pub mod Laws
pub mod Ends
use flexpret.Common.{ℕ, zero, suc, ◌+◌, ◌&&◌, ◌==◌, not, if◌then◌else◌, update, some}
use flexpret.State.{Ctx, System, Status, ThreadState, HwThread, null_ptr, mutex_max_num}
use flexpret.State.Run.{M, ◌>>=◌, ◌>>◌, pure, modify}
use flexpret.Tid.{get_tid}
use flexpret.Mutex.Csr.{csr_active, write_mutex_csr}
use flexpret.Timer.{os_thread_get_timer, os_timer_delete}
use flexpret.Thread.Stack.{init_stack_addr}

abbrev put_thread : ℕ → HwThread → System → System
put_thread tid t s = record s { startup_state = update s.startup_state tid t }

-- The body of the loop over the mutexes. `mutex_state mu = startup_mutex_state[i]` is a copy, so the
-- writes to `mu.owner` and `mu.count` are lost; the write to the CSR is not.
unfoldable pub release_robust : ℕ → ℕ → System → System
unfolding write_mutex_csr
release_robust thread_id i s =
    let mu = s.startup_mutex_state i in
    if mu.if_robust && mu.active && mu.owner == thread_id
    then write_mutex_csr mu.csr_addr csr_active s
    else s

-- The loop, from mutex i on, with `n` mutexes left.
unfoldable pub release_all : ℕ → ℕ → ℕ → System → System
release_all thread_id zero i s = s
release_all thread_id (suc n) i s = release_all thread_id n (i + 1) (release_robust thread_id i s)

-- The first writes of thread_clean.
unfoldable pub end_thread : ℕ → System → System
end_thread tid s =
    put_thread tid
      (record (s.startup_state tid) {
        arg = null_ptr;
        state = ThreadState.terminated;
        stack_address = init_stack_addr tid;
      })
      s

-- if (timer != NULL) osTimerDelete(timer);
unfoldable pub delete_timer : Ctx → ℕ → M Status
delete_timer c thread_id s =
    let timer = os_thread_get_timer c thread_id s in
    if timer == null_ptr then some (Status.ok, s) else os_timer_delete c timer s

unfoldable pub clear_func : ℕ → System → System
clear_func tid s = put_thread tid (record (s.startup_state tid) { func = null_ptr }) s

-- thread_clean
unfoldable pub thread_clean : Ctx → ℕ → M ℕ
unfolding end_thread delete_timer release_all clear_func
thread_clean c thread_id = do
  modify (end_thread (get_tid c thread_id))
  delete_timer c thread_id
  modify (release_all thread_id mutex_max_num 0)
  modify (clear_func (get_tid c thread_id))
  pure (get_tid c thread_id)

-- raw_thread_after_return_handler, for the hart that runs it
unfoldable pub raw_thread_after_return_handler : Ctx → System → System
unfolding clear_func
raw_thread_after_return_handler c s = clear_func c.hartid s
