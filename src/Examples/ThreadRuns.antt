-- ===== src/Examples/ThreadRuns.antt =====
-- Runs of the code that starts threads on the example system.
use flexpret.Common.{ℕ, zero, suc, ◌<◌, ◌≡◌, ◌≢◌, refl, true, inr, arith}
use flexpret.State.{System, Priority}
use flexpret.Slots.{count_slots}
use flexpret.Slots.Assign.{slots_of, Room}
use flexpret.Tmodes.Modes.{tmode_of}
use flexpret.Scheduler.{thread_after_create, entry_of, thread_attr_at}
use flexpret.Scheduler.Harts.{is_live}
use flexpret.Scheduler.Locked.{CanLock}
use flexpret.Scheduler.Steps.{Ends}
use flexpret.Scheduler.Service.{IsServed, service}
use flexpret.Scheduler.Create.{
  NewHard, hard, thread_after_create-NewHard, thread_after_create-IsServed,
}
use flexpret.Examples.{hart, system, thread_with, hart_0-IsPlaced}

-- Hart 0 has written the function of a new thread of hart 1; its attributes say osPriorityRealtime.
abbrev created : System
created = record system {
  startup_state = λ i. thread_with (elim i [ zero ↦ 4096 | suc zero ↦ 4096 | _ ↦ 0 ]);
}

created-CanLock : CanLock (hart 0) 0 created
created-CanLock = record {
  placed = hart_0-IsPlaced;
  slot_mutex = refl;
  free = record { active = refl; csr_addr = omega arith; csr = refl; owner = refl; count = refl };
}

created-Room : Room 1 1 created
unfolding slots_of count_slots
created-Room = inr (omega arith)

created_hard : (entry_of 1 created).priority ≡ Priority.realtime
unfolding thread_attr_at
created_hard = refl

thread_after_create-NewHard_example :
    (s' : System) × Ends (thread_after_create (hart 0) 1) created s' × NewHard 1 created s'
thread_after_create-NewHard_example =
    thread_after_create-NewHard (hart 0) 0 created created-CanLock 1 (omega arith) created_hard
      created-Room

others_served : (i : ℕ) → i < 8 → i ≢ 1 → is_live i created ≡ true → 0 < service i created
unfolding slots_of count_slots tmode_of
others_served zero h n l = omega arith
others_served (suc zero) h n l = absurd (n refl)
others_served (suc (suc i)) h n l = ground arith

thread_after_create-IsServed_example :
    (s' : System) × Ends (thread_after_create (hart 0) 1) created s' × IsServed s'
thread_after_create-IsServed_example =
    thread_after_create-IsServed (hart 0) 0 created created-CanLock 1 (omega arith)
      (hard created_hard created-Room) others_served
