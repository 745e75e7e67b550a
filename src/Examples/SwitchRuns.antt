-- ===== src/Examples/SwitchRuns.antt =====
-- Runs of the scheduler's code on the example system.
use flexpret.Common.{some, zero, suc, ◌≡◌, refl, inl, inr, arith, set}
use flexpret.Common.Int.{pos}
use flexpret.State.{System, Status, Priority}
use flexpret.Slots.{slot_s, count_slots}
use flexpret.Slots.Assign.{slots_of, Room}
use flexpret.Tmodes.{get_tmodes}
use flexpret.Tmodes.Fields.{make_hard, make_soft}
use flexpret.Tmodes.Modes.{tmode_of}
use flexpret.Tid.{get_tid}
use flexpret.Scheduler.{os_scheduler_set_slot_num, change_srtt_to_hrtt, change_hrtt_to_srtt}
use flexpret.Scheduler.Locked.{CanLock}
use flexpret.Scheduler.SlotNum.{Answers, os_scheduler_set_slot_num-Answers}
use flexpret.Scheduler.Steps.{Ends, OnlyRegs}
use flexpret.Scheduler.Switch.{change_srtt_to_hrtt_starves, change_hrtt_to_srtt_starves}
use flexpret.Scheduler.Service.{
  IsServed, change_srtt_to_hrtt-IsServed, change_hrtt_to_srtt-IsServed,
}
use flexpret.Thread.{os_thread_set_priority}
use flexpret.Thread.SetPriority.{RoomFor, SetTo, os_thread_set_priority-IsServed}
use flexpret.Examples.{hart, system, thread_with, hart_0-IsPlaced}

system-CanLock : CanLock (hart 0) 0 system
system-CanLock = record {
  placed = hart_0-IsPlaced;
  slot_mutex = refl;
  free = record { active = refl; csr_addr = omega arith; csr = refl; owner = refl; count = refl };
}

-- Hart 1 asks for six slots, the most that a hart may ask for.
os_scheduler_set_slot_num-Answers_example :
    Answers
      (get_tid (hart 0) 8208)
      (pos 6)
      system
      (os_scheduler_set_slot_num (hart 0) 8208 (pos 6) system)
unfolding get_tid
os_scheduler_set_slot_num-Answers_example =
    os_scheduler_set_slot_num-Answers (hart 0) 0 system system-CanLock 8208 (pos 6) (omega arith)

-- A soft slot at position 1, and hart 1 is live and soft.
abbrev soft : System
soft = record system {
  slots = 4294967264;
  tmodes = 8;
  startup_state = λ i. thread_with (elim i [ zero ↦ 4096 | suc zero ↦ 4096 | _ ↦ 0 ]);
}

soft-CanLock : CanLock (hart 0) 0 soft
soft-CanLock = record {
  placed = hart_0-IsPlaced;
  slot_mutex = refl;
  free = record { active = refl; csr_addr = omega arith; csr = refl; owner = refl; count = refl };
}

soft-Room : Room 1 1 soft
unfolding slots_of count_slots
soft-Room = inr (omega arith)

soft-IsServed : IsServed soft
unfolding slots_of count_slots tmode_of
soft-IsServed zero h l = omega arith
soft-IsServed (suc zero) h l = omega arith
soft-IsServed (suc (suc i)) h l = ground arith

change_srtt_to_hrtt-IsServed_example :
    (s' : System) × Ends (change_srtt_to_hrtt (hart 0) 1) soft s' × IsServed s'
change_srtt_to_hrtt-IsServed_example =
    change_srtt_to_hrtt-IsServed (hart 0) 0 soft soft-CanLock 1 (omega arith) soft-Room
      soft-IsServed

system-Room : Room slot_s 1 system
unfolding slots_of count_slots
system-Room = inr (omega arith)

system-IsServed : IsServed system
unfolding slots_of count_slots tmode_of
system-IsServed zero h l = omega arith
system-IsServed (suc i) h l = ground arith

change_hrtt_to_srtt-IsServed_example :
    (s' : System) × Ends (change_hrtt_to_srtt (hart 0) 0) system s' × IsServed s'
change_hrtt_to_srtt-IsServed_example =
    change_hrtt_to_srtt-IsServed (hart 0) 0 system system-CanLock 0 (omega arith) system-Room
      system-IsServed

-- All eight slots are hart 0's.
abbrev full : System
full = record system { slots = 0 }

full-CanLock : CanLock (hart 0) 0 full
full-CanLock = record {
  placed = hart_0-IsPlaced;
  slot_mutex = refl;
  free = record { active = refl; csr_addr = omega arith; csr = refl; owner = refl; count = refl };
}

no-Room_for_1 : ¬ Room 1 1 full
unfolding slots_of count_slots
no-Room_for_1 (inl h) = omega arith
no-Room_for_1 (inr h) = omega arith

no-Room_for_soft : ¬ Room slot_s 1 full
unfolding slots_of count_slots
no-Room_for_soft (inl h) = omega arith
no-Room_for_soft (inr h) = omega arith

change_srtt_to_hrtt_starves_example :
    (s' : System) × Ends (change_srtt_to_hrtt (hart 0) 1) full s'
    × (slots_of 1 s' ≡ 0)
    × (get_tmodes s'.tmodes ≡ set (get_tmodes full.tmodes) 1 (make_hard (tmode_of 1 full)))
    × OnlyRegs full s'
change_srtt_to_hrtt_starves_example =
    change_srtt_to_hrtt_starves (hart 0) 0 full full-CanLock 1 (omega arith) no-Room_for_1

change_hrtt_to_srtt_starves_example :
    (s' : System) × Ends (change_hrtt_to_srtt (hart 0) 0) full s'
    × (slots_of 0 s' ≡ 0)
    × (slots_of slot_s s' ≡ 0)
    × (get_tmodes s'.tmodes ≡ set (get_tmodes full.tmodes) 0 (make_soft (tmode_of 0 full)))
    × OnlyRegs full s'
change_hrtt_to_srtt_starves_example =
    change_hrtt_to_srtt_starves (hart 0) 0 full full-CanLock 0 (omega arith) no-Room_for_soft

tid_1 : get_tid (hart 0) 8208 ≡ 1
unfolding get_tid
tid_1 = refl

soft-RoomFor : RoomFor (get_tid (hart 0) 8208) Priority.realtime soft
unfolding get_tid
soft-RoomFor = soft-Room

-- The soft thread of hart 1 becomes a real-time thread.
os_thread_set_priority-IsServed_example :
    (st : Status) × (s' : System) × (os_thread_set_priority (hart 0) 8208 Priority.realtime soft
      ≡ some (st, s'))
    × CanLock (hart 0) 0 s'
    × IsServed s'
    × SetTo (get_tid (hart 0) 8208) Priority.realtime soft st s'
os_thread_set_priority-IsServed_example =
    os_thread_set_priority-IsServed (hart 0) 0 8208 Priority.realtime soft (λ e. omega arith)
      (omega (arith, tid_1)) soft-CanLock soft-IsServed soft-RoomFor
