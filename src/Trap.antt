-- ===== src/Trap.antt =====
-- src/os/src/flexpret_trap.c: the table of trap handlers, four for each hart.
use flexpret.Common.{ℕ, Bool, true, false, some, ◌==◌, leb, if◌then◌else◌, update}
use flexpret.State.{Ctx, System, Status, TrapHandler, null_ptr}
use flexpret.State.Run.{M}
use flexpret.Tid.{get_tid}

-- osTrapType_t
abbrev pub interrupt_on_expire : ℕ
interrupt_on_expire = 0

abbrev pub trap_num_max : ℕ
trap_num_max = 4

abbrev pub is_null : TrapHandler → Bool
is_null TrapHandler.null = true
is_null _ = false

-- thread_id == NULL ? read_csr(hartid) : get_tid(thread_id)
unfoldable pub trap_tid : Ctx → ℕ → ℕ
trap_tid c thread_id = if thread_id == null_ptr then c.hartid else get_tid c thread_id

-- osThreadSetTrapHandler
unfoldable pub os_thread_set_trap_handler : Ctx → ℕ → TrapHandler → ℕ → M Status
os_thread_set_trap_handler c thread_id handler t s =
    if is_null handler
    then some (Status.error, s)
    else if leb trap_num_max t
    then some (Status.error, s)
    else (let tid = trap_tid c thread_id in
        some (
          Status.ok,
          record s {
            trap_handler_vector =
                update s.trap_handler_vector tid (update (s.trap_handler_vector tid) t handler);
          },
        ))

-- osThreadGetTrapHandler
unfoldable pub os_thread_get_trap_handler : Ctx → ℕ → ℕ → System → TrapHandler
os_thread_get_trap_handler c thread_id t s =
    if leb trap_num_max t then TrapHandler.null else s.trap_handler_vector (trap_tid c thread_id) t
