-- ===== src/Examples/MutexRuns.antt =====
-- Runs of the mutexes' code on the example system.
use flexpret.Common.{ℕ, ◌≡◌, refl, some, arith, update, ◌≢◌, List, [], ◌∷◌}
use flexpret.State.{Ctx, System, Status}
use flexpret.Tid.{get_tid, os_thread_get_id}
use flexpret.Mutex.Csr.{csr_active}
use flexpret.Mutex.Ops.{os_mutex_release}
use flexpret.Mutex.Wait.{os_mutex_acquire, os_wait_forever, take}
use flexpret.Mutex.Laws.{IsFree, Holds, held, swapped}
use flexpret.Mutex.Nesting.{acquire_times, release_times, and_then, acquire-release_times}
use flexpret.Mutex.Others.{IsOrphaned}
use flexpret.Mutex.Exclusion.{Refused, os_mutex_acquire-Refused}
use flexpret.Mutex.Lock.{Lock, Call, answers, performs}
use flexpret.Mutex.Refines.{AreHarts, AllHarts, StandsFor, performs-answers}
use flexpret.Mutex.Progress.{addr_of, Polls, Releases, acquire_waits_until_released}
use flexpret.Thread.Clean.{thread_clean}
use flexpret.Thread.Clean.Laws.{IsRobustOf, thread_clean_orphans}
use flexpret.Examples.{hart, system, mutex, hart_0-IsPlaced}

mutex_1-IsFree : IsFree 1 system
mutex_1-IsFree = record {
  active = refl;
  csr_addr = omega arith;
  csr = refl;
  owner = refl;
  count = refl;
}

acquire-release_times_example :
    and_then (acquire_times (hart 0) 1 3 system) (release_times (hart 0) 1 3) ≡ some system
acquire-release_times_example =
    acquire-release_times (hart 0) 1 system hart_0-IsPlaced mutex_1-IsFree 2 refl (omega arith)

-- Hart 2 has mutex 1.
abbrev taken : System
taken = held (hart 2) 1 1 system

taken-Holds : Holds (hart 2) 1 1 taken
taken-Holds = record {
  active = refl;
  csr_addr = omega arith;
  csr = refl;
  owner = refl;
  count = refl;
}

other_hart : os_thread_get_id (hart 2) ≢ os_thread_get_id (hart 0)
other_hart e = omega arith

os_mutex_acquire-Refused_example :
    Refused (hart 2) 1 1 500 taken (os_mutex_acquire (hart 0) (some 1) 500 taken)
    × (os_mutex_release (hart 0) (some 1) taken ≡ some (Status.error_resource, taken))
os_mutex_acquire-Refused_example =
    os_mutex_acquire-Refused (hart 0) (hart 2) 1 1 500 taken taken-Holds other_hart (λ n t h. h)

-- Hart 0 waits, and in each round hart 2 runs osMutexRelease to its end.
abbrev give_back : ℕ → System → System
give_back n s = record s {
  mutex_csr = update s.mutex_csr (s.startup_mutex_state 1).csr_addr csr_active;
  startup_mutex_state =
      update s.startup_mutex_state 1 (record (s.startup_mutex_state 1) { owner = 0; count = 0 });
}

abbrev waiter : Ctx
waiter = record (hart 0) { others = give_back }

give_back-Releases : Releases waiter 1 5
give_back-Releases = record {
  in_time = (omega arith, omega arith);
  keeps = λ n s. (refl, refl);
  released = λ s. ground arith;
}

acquire_waits_until_released_example :
    (t : System) × Polls waiter 1 waiter.rounds (swapped 1 taken) t
    × (t.mutex_csr (addr_of 1 t) ≡ csr_active)
    × (os_mutex_acquire waiter (some 1) os_wait_forever taken
        ≡ some (Status.ok, take waiter 1 (swapped 1 t)))
    × Holds waiter 1 1 (take waiter 1 (swapped 1 t))
acquire_waits_until_released_example =
    acquire_waits_until_released waiter (hart 2) 1 5 1 taken give_back-Releases taken-Holds
      other_hart

-- The thread of hart 2 ends while it has mutex 1.
taken-IsRobustOf : IsRobustOf 8224 (taken.startup_mutex_state 1)
taken-IsRobustOf = record { robust = refl; active = refl; owner = refl; csr_addr = omega arith }

thread_clean_orphans_example :
    (s' : System) × (thread_clean (hart 2) 8224 taken ≡ some (get_tid (hart 2) 8224, s'))
    × IsOrphaned 1 s'
    × (s'.startup_mutex_state 1 ≡ taken.startup_mutex_state 1)
    × ((s'.startup_mutex_state 1).owner ≡ 8224)
thread_clean_orphans_example =
    thread_clean_orphans (hart 2) 8224 1 taken (omega arith) (λ e. omega arith) taken-IsRobustOf

-- The CSR of mutex 1 says free, and the record names hart 2.
abbrev orphaned : System
orphaned = record system {
  startup_mutex_state =
      update system.startup_mutex_state 1 (record (mutex 1) { owner = 8224; count = 1 });
}

orphaned-IsOrphaned : IsOrphaned 1 orphaned
orphaned-IsOrphaned = record {
  active = refl;
  csr_addr = omega arith;
  csr = refl;
  owner = λ e. omega arith;
}

-- Harts 0 and 2 call on mutex 1: hart 2 is refused until hart 0 has given it back twice.
abbrev calls : List (ℕ × Call)
calls =
    (0, Call.acquire)
    ∷ (2, Call.acquire)
    ∷ (0, Call.acquire)
    ∷ (0, Call.release)
    ∷ (2, Call.release)
    ∷ (0, Call.release)
    ∷ (2, Call.acquire)
    ∷ []

harts-AreHarts : AreHarts hart
harts-AreHarts = record {
  placed = λ i h. record {
    hart = h;
    threads_low = omega arith;
    threads_high = omega arith;
    timers_low = omega arith;
    timers_high = omega arith;
  };
  id = λ i h. refl;
  shared = λ i h. refl;
}

calls-AllHarts : AllHarts calls
calls-AllHarts = (
  omega arith,
  (omega arith, (omega arith, (omega arith, (omega arith, (omega arith, (omega arith, tt)))))),
)

performs-answers_example :
    (s' : System) × (performs hart 1 calls system ≡ some ((answers calls Lock.free).0, s'))
    × StandsFor hart 1 (answers calls Lock.free).1 s'
performs-answers_example =
    performs-answers hart 1 harts-AreHarts calls Lock.free system calls-AllHarts (omega arith)
      (refl, mutex_1-IsFree)
