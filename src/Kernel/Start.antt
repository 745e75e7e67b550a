-- ===== src/Kernel/Start.antt =====
-- `osKernelStart` of src/os/src/flexpret_kernel.c: the first slots and modes.
use flexpret.Common.{
  ℕ, zero, suc, ◌+◌, ◌-◌, ◌*◌, ◌%◌, ◌^◌, Option, none, some, List, [], ◌∷◌, get_or, if◌then◌else◌,
  update,
}
use flexpret.State.{System, Status, KernelState, ThreadState, Priority, hw_threads_nums}
use flexpret.State.Run.{M}
use flexpret.Slots.{slot_s, slot_d, set_slots}
use flexpret.Tmodes.{tmode_ha, tmode_sa, tmode_sz}
use flexpret.Scheduler.{entry_of}
use flexpret.Scheduler.Harts.{is_live}

-- set_tmodes_8: the value that is written.
unfoldable pub set_tmodes : List ℕ → ℕ
set_tmodes t =
    get_or t 7 0 % 4 * 2 ^ 14
    + get_or t 6 0 % 4 * 2 ^ 12
    + get_or t 5 0 % 4 * 2 ^ 10
    + get_or t 4 0 % 4 * 2 ^ 8
    + get_or t 3 0 % 4 * 2 ^ 6
    + get_or t 2 0 % 4 * 2 ^ 4
    + get_or t 1 0 % 4 * 2 ^ 2
    + get_or t 0 0 % 4

-- The slot and the mode of one hart, and the hart whose slot is the soft one.
pub record Choice : Type 0 where
  pub slot : ℕ
  pub mode : ℕ
  pub soft_id : Option ℕ

-- The first normal thread gets a soft slot, which the others share.
unfoldable pub soft_choice : ℕ → Option ℕ → Choice
soft_choice i none = record { slot = slot_s; mode = tmode_sa; soft_id = some i }
soft_choice i (some j) = record { slot = slot_d; mode = tmode_sa; soft_id = some j }

-- The branches of the loop, for a live thread.
unfoldable pub choose : ℕ → Priority → Option ℕ → Choice
unfolding soft_choice
choose i Priority.realtime soft = record { slot = i; mode = tmode_ha; soft_id = soft }
choose i Priority.normal soft = soft_choice i soft
choose i _ soft = record { slot = slot_d; mode = tmode_sz; soft_id = soft }

unfoldable pub choose_hart : ℕ → Option ℕ → System → Choice
unfolding choose
choose_hart i soft s =
    if is_live i s
    then choose i (entry_of i s).priority soft
    else record { slot = slot_d; mode = tmode_sz; soft_id = soft }

-- What the loop leaves in its local arrays, from hart i on, with `n` harts left.
pub record Plan : Type 0 where
  pub slots : List ℕ
  pub modes : List ℕ
  pub soft_id : Option ℕ

unfoldable pub plan : ℕ → ℕ → Option ℕ → System → Plan
unfolding choose_hart
plan zero i soft s = record { slots = []; modes = []; soft_id = soft }
plan (suc n) i soft s =
    let ch = choose_hart i soft s in
    let rest = plan n (i + 1) ch.soft_id s in
    record { slots = ch.slot ∷ rest.slots; modes = ch.mode ∷ rest.modes; soft_id = rest.soft_id }

-- startup_state[i].state = FLEXPRET_ACTIVE for the live threads
unfoldable pub activate : ℕ → ℕ → System → System
activate zero i s = s
activate (suc n) i s = activate n (i + 1) (
    if is_live i s
    then record s {
      startup_state =
          update s.startup_state i (record (s.startup_state i) { state = ThreadState.active });
    }
    else s)

-- osKernelStart. With eight harts the loop that disables the slots beyond the last hart is empty.
unfoldable pub os_kernel_start : M Status
unfolding plan activate set_tmodes
os_kernel_start s =
    let p = plan (hw_threads_nums - 1) 1 s.default_soft_slot_id s in
    some (
      Status.ok,
      record (activate (hw_threads_nums - 1) 1 s) {
        slots = set_slots (0 ∷ p.slots);
        tmodes = set_tmodes (tmode_ha ∷ p.modes);
        default_soft_slot_id = p.soft_id;
        kernel_state = KernelState.running;
      },
    )
