-- ===== src/Examples/KernelRuns.antt =====
-- Runs of the kernel's code: start-up, start and reset of the example system, and a new thread.
use flexpret.Common.{
  leb, List, [], ◌∷◌, ℕ, zero, suc, ◌<◌, ◌≡◌, refl, true, false, some, inr, arith,
}
use flexpret.State.{System, Status, Priority, KernelState, AttrPtr, thread_addr}
use flexpret.Slots.{slot_s, count_slots}
use flexpret.Slots.Assign.{slots_of, Room}
use flexpret.Tmodes.Modes.{tmode_of}
use flexpret.Scheduler.{entry_of, thread_attr_at}
use flexpret.Scheduler.Harts.{is_live}
use flexpret.Scheduler.Locked.{CanLock}
use flexpret.Scheduler.Service.{IsServed}
use flexpret.Kernel.Plan.{IsSupported}
use flexpret.Thread.Exit.{IsCalm}
use flexpret.Tid.{get_tid, os_thread_get_id}
use flexpret.Tid.Laws.{IsPlaced}
use flexpret.Thread.Well.{IsWell}
use flexpret.Thread.Reach.{Step, Steps}
use flexpret.Thread.Suspend.{suspended, suspend_at}
use flexpret.Thread.Clean.Ends.{thread_clean-Cleaned}
use flexpret.Kernel.Run.{run-IsWell}
use flexpret.Kernel.Boot.{NewThread, AllAccepted, boot, addresses, boot-IsServed}
use flexpret.Thread.{os_thread_new, refuses}
use flexpret.Thread.New.{IsNewThread, os_thread_new-IsServed}
use flexpret.Examples.{hart, system, thread_with, attr, hart_0-IsPlaced}

-- The memory after the processor's start: no mutex is counted.
abbrev fresh : System
fresh = record system { mutex_num = 0 }

-- Two threads were made before the start, both with priority osPriorityNormal.
abbrev before_start : System
before_start = record system {
  kernel_state = KernelState.ready;
  startup_state =
      λ i. thread_with (elim i [ zero ↦ 4096 | suc zero ↦ 4096 | suc (suc zero) ↦ 4096 | _ ↦ 0 ]);
  thread_attr = λ i. record attr { priority = Priority.normal };
}

all-IsSupported :
    (i : ℕ)
    → 0 < i
    → i < 8
    → is_live i before_start ≡ true
    → IsSupported (entry_of i before_start).priority
unfolding thread_attr_at
all-IsSupported i p h l = tt

system-CanLock : CanLock (hart 0) 0 system
system-CanLock = record {
  placed = hart_0-IsPlaced;
  slot_mutex = refl;
  free = record { active = refl; csr_addr = omega arith; csr = refl; owner = refl; count = refl };
}

room : (t : ℕ) → Room t 1 system
unfolding slots_of count_slots
room t = inr (omega arith)

system-IsServed : IsServed system
unfolding slots_of count_slots tmode_of
system-IsServed zero h l = omega arith
system-IsServed (suc i) h l = ground arith

no_attr-accepted : refuses AttrPtr.null system ≡ false
unfolding refuses
no_attr-accepted = refl

os_thread_new-IsServed_example :
    (s' : System) × (os_thread_new (hart 0) 4096 7 AttrPtr.null system
      ≡ some (thread_addr (hart 0) 1, s'))
    × IsNewThread 1 4096 7 system s'
    × CanLock (hart 0) 0 s'
    × IsServed s'
os_thread_new-IsServed_example =
    os_thread_new-IsServed (hart 0) 0 system system-CanLock 4096 7 AttrPtr.null refl
      (λ e. omega arith) (omega arith) no_attr-accepted (room 1) (room slot_s) system-IsServed

-- Two threads, one with the default attributes and one with an object of the caller's.
abbrev two_threads : List NewThread
two_threads =
    record { func = 4096; argument = 0; attr = AttrPtr.null }
    ∷ record { func = 4128; argument = 5; attr = AttrPtr.user 3 }
    ∷ []

two_threads-AllAccepted : AllAccepted system two_threads
unfolding refuses
two_threads-AllAccepted = (
  record { func = λ e. omega arith; caller = tt; accepted = refl },
  (record { func = λ e. omega arith; caller = tt; accepted = refl }, tt),
)

boot-IsServed_example :
    (s' : System) × (boot (hart 0) 1024 two_threads system ≡ some (addresses (hart 0) 1 2, s'))
    × IsCalm (hart 0) 0 s'
    × (s'.kernel_state ≡ KernelState.running)
    × ((i : ℕ) → 0 < i → i < 8 → is_live i s' ≡ leb i 2)
boot-IsServed_example =
    boot-IsServed (hart 0) 1024 two_threads system hart_0-IsPlaced two_threads-AllAccepted
      (omega arith)

-- The start-up with these two threads; then the thread of hart 1 returns, and hart 0 suspends that of hart 2.
abbrev started : System
started =
    (boot-IsServed (hart 0) 1024 two_threads system hart_0-IsPlaced two_threads-AllAccepted
      (omega arith)).0

hart_1-IsPlaced : IsPlaced (hart 1)
hart_1-IsPlaced = record {
  hart = omega arith;
  threads_low = omega arith;
  threads_high = omega arith;
  timers_low = omega arith;
  timers_high = omega arith;
}

own_tid : get_tid (hart 1) (os_thread_get_id (hart 1)) < 8
unfolding get_tid
own_tid = omega arith

abbrev one_left : System
one_left =
    (thread_clean-Cleaned (hart 1) (os_thread_get_id (hart 1)) started hart_1-IsPlaced own_tid).0

calls : Steps started (suspended 2 one_left)
calls =
    Steps.and_then
      (Steps.and_then Steps.no_call (
        Step.return (hart 1) _ hart_1-IsPlaced
          (thread_clean-Cleaned (hart 1) (os_thread_get_id (hart 1)) started hart_1-IsPlaced
            own_tid).1))
      (Step.suspend (hart 0) 2 Status.ok hart_0-IsPlaced (omega arith)
        (suspend_at (hart 0) hart_0-IsPlaced 2 (omega arith) one_left))

run-IsWell_example : IsWell 0 (suspended 2 one_left)
run-IsWell_example =
    run-IsWell (hart 0) 1024 two_threads (addresses (hart 0) 1 2) system started
      (suspended 2 one_left) hart_0-IsPlaced two_threads-AllAccepted (omega arith)
      (boot-IsServed (hart 0) 1024 two_threads system hart_0-IsPlaced two_threads-AllAccepted
        (omega arith)).1
      calls
