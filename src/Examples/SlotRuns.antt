-- ===== src/Examples/SlotRuns.antt =====
-- Runs of the slot and mode registers' code on the example system.
use flexpret.Common.{◌≡◌, ◌↔◌, inr, some, arith}
use flexpret.State.{System, Status, thread_addr}
use flexpret.Slots.{set_slot_num, count_slots}
use flexpret.Slots.Assign.{slots_of, Assigned, set_slot_num_assigns}
use flexpret.Tid.{get_tid}
use flexpret.Tid.Laws.{get_tid_iff}
use flexpret.Examples.{hart, system, hart_0-IsPlaced}

-- Hart 1 gets two of the seven disabled slots.
set_slot_num_assigns_example :
    (s' : System) × (set_slot_num 1 2 system ≡ some (Status.ok, s')) × Assigned 1 2 system s'
unfolding slots_of count_slots
set_slot_num_assigns_example = set_slot_num_assigns 1 (omega arith) system 2 (inr (omega arith))

get_tid_iff_example : (get_tid (hart 0) 8224 ≡ 2) ↔ (8224 ≡ thread_addr (hart 0) 2)
get_tid_iff_example = get_tid_iff (hart 0) 8224 2 hart_0-IsPlaced (omega arith) (omega arith)
