-- ===== src/Examples/EndRuns.antt =====
-- Runs of the code that ends threads on the example system.
use flexpret.Common.{
  [], ◌∷◌, ℕ, zero, suc, ◌≡◌, refl, false, some, ◌≢◌, ◌%◌, ◌<◌, ◌⊎◌, update, arith,
}
use flexpret.State.{Ctx, System, Status, null_ptr, thread_addr}
use flexpret.Slots.{count_slots}
use flexpret.Slots.Assign.{slots_of}
use flexpret.Tmodes.Modes.{tmode_of}
use flexpret.Tid.{get_tid, os_thread_get_id, bad_tid}
use flexpret.Tid.Laws.{IsPlaced}
use flexpret.Scheduler.Harts.{is_live}
use flexpret.Scheduler.{entry_of, thread_attr_at}
use flexpret.Scheduler.Locked.{CanLock}
use flexpret.Scheduler.Service.{IsServed}
use flexpret.Thread.Terminate.{os_thread_terminate, Outcome}
use flexpret.Thread.Join.{os_thread_join, os_thread_join_all}
use flexpret.Thread.JoinRound.{AllThreads, AllEnded}
use flexpret.Thread.JoinAll.{AllExit, os_thread_join_all-ends}
use flexpret.Thread.Exit.{Exits, IsCalm, os_thread_join-ends}
use flexpret.Thread.Kill.{Killed, os_thread_terminate-Killed}
use flexpret.Thread.Returns.{with_return, return-os_thread_join}
use flexpret.Examples.{hart_0-IsPlaced, hart, system, thread_with, attr}

-- Hart 1 has a joinable thread, is soft, and position 1 is a soft slot.
abbrev joinable : System
joinable = record system {
  slots = 4294967264;
  tmodes = 8;
  startup_state = λ i. thread_with (elim i [ zero ↦ 4096 | suc zero ↦ 4096 | _ ↦ 0 ]);
  thread_attr = λ i. record attr { attr_bits = 1 };
}

joinable-IsServed : IsServed joinable
unfolding slots_of count_slots tmode_of
joinable-IsServed zero h l = omega arith
joinable-IsServed (suc zero) h l = omega arith
joinable-IsServed (suc (suc i)) h l = ground arith

-- In a round of a wait the thread of hart 1 ends.
abbrev finish : ℕ → System → System
finish n s = record s {
  startup_state = update s.startup_state 1 (record (s.startup_state 1) { func = 0 });
}

abbrev joiner : Ctx
joiner = record (hart 0) { others = finish }

joiner-IsPlaced : IsPlaced joiner
joiner-IsPlaced = record {
  hart = omega arith;
  threads_low = omega arith;
  threads_high = omega arith;
  timers_low = omega arith;
  timers_high = omega arith;
}

joinable-CanLock : CanLock joiner 0 joinable
joinable-CanLock = record {
  placed = joiner-IsPlaced;
  slot_mutex = refl;
  free = record { active = refl; csr_addr = omega arith; csr = refl; owner = refl; count = refl };
}

tid_1 : get_tid joiner 8208 ≡ 1
unfolding get_tid
tid_1 = refl

finish-CanLock : (s : System) → CanLock joiner 0 s → CanLock joiner 0 (finish 0 s)
finish-CanLock s l = record {
  placed = joiner-IsPlaced;
  slot_mutex = l.slot_mutex;
  free = record {
    active = l.free.active;
    csr_addr = l.free.csr_addr;
    csr = l.free.csr;
    owner = l.free.owner;
    count = l.free.count;
  };
}

finish-IsServed : (s : System) → IsServed s → IsServed (finish 0 s)
unfolding slots_of tmode_of
finish-IsServed s v zero h l = v zero h l
finish-IsServed s v (suc zero) h l = ground arith
finish-IsServed s v (suc (suc i)) h l = v (suc (suc i)) h (ground arith)

finish-Exits : Exits joiner 0 (get_tid joiner 8208) 5
unfolding get_tid
finish-Exits = record {
  in_time = (omega arith, omega arith);
  calm = λ n s (l, v). (finish-CanLock s l, finish-IsServed s v);
  done = λ s h. refl;
}

is_joinable : (entry_of (get_tid joiner 8208) joinable).attr_bits ≡ 1
unfolding thread_attr_at get_tid
is_joinable = refl

os_thread_join-ends_example :
    (s' : System) × (os_thread_join joiner 8208 joinable ≡ some (Status.ok, s'))
    × (is_live (get_tid joiner 8208) s' ≡ false)
    × (tmode_of (get_tid joiner 8208) s' % 2 ≡ 1)
    × IsServed s'
os_thread_join-ends_example =
    os_thread_join-ends joiner 0 5 8208 joinable (λ e. omega arith) (omega (arith, tid_1))
      (λ e. omega (arith, tid_1)) is_joinable (joinable-CanLock, joinable-IsServed) finish-Exits

-- Hart 0 waits for the thread of hart 1 by a list.
joined_all-AllThreads : AllThreads joiner (8208 ∷ [])
joined_all-AllThreads = (omega (arith, tid_1), tt)

finish_stays : (n : ℕ) (s : System) (j : ℕ) → is_live j s ≡ false → is_live j (finish n s) ≡ false
finish_stays n s j e = ground arith

finish-AllExit : AllExit joiner 0 (8208 ∷ []) 5
unfolding get_tid
finish-AllExit = record {
  in_time = (omega arith, omega arith);
  calm = λ n s (l, v). (finish-CanLock s l, finish-IsServed s v);
  done = λ s h. (refl, tt);
  stay = λ n s j w h e. finish_stays n s j e;
}

os_thread_join_all-ends_example :
    (s' : System) × (os_thread_join_all joiner (8208 ∷ []) joinable ≡ some (Status.ok, s'))
    × AllEnded joiner (8208 ∷ []) s'
    × IsCalm joiner 0 s'
os_thread_join_all-ends_example =
    os_thread_join_all-ends joiner 0 5 (8208 ∷ []) joinable joined_all-AllThreads (omega arith)
      (joinable-CanLock, joinable-IsServed) finish-AllExit

-- Hart 0 ends the thread of hart 1.
killer-CanLock : CanLock (hart 0) 0 joinable
killer-CanLock = record {
  placed = hart_0-IsPlaced;
  slot_mutex = refl;
  free = record { active = refl; csr_addr = omega arith; csr = refl; owner = refl; count = refl };
}

not_own : 8208 ≢ os_thread_get_id (hart 0)
not_own e = omega arith

os_thread_terminate-Killed_example :
    (((8208 ≡ null_ptr) ⊎ (get_tid (hart 0) 8208 ≡ bad_tid))
      × (os_thread_terminate (hart 0) 8208 joinable
          ≡ some (Outcome.returns Status.error_parameter, joinable)))
    ⊎ ((8208 ≢ null_ptr)
        × (get_tid (hart 0) 8208 < 8)
        × ((s' : System) × (os_thread_terminate (hart 0) 8208 joinable
              ≡ some (Outcome.returns Status.ok, s'))
            × Killed (hart 0) 0 8208 joinable s'))
os_thread_terminate-Killed_example =
    os_thread_terminate-Killed (hart 0) 0 8208 joinable killer-CanLock joinable-IsServed not_own

-- The thread of hart 1 returns in round 5 of a wait of hart 0.
abbrev waiting : Ctx
waiting = with_return (hart 0) 1 5 (λ n s. s)

waiting-CanLock : CanLock waiting 0 joinable
unfolding with_return
waiting-CanLock = record {
  placed = record {
    hart = omega arith;
    threads_low = omega arith;
    threads_high = omega arith;
    timers_low = omega arith;
    timers_high = omega arith;
  };
  slot_mutex = refl;
  free = record { active = refl; csr_addr = omega arith; csr = refl; owner = refl; count = refl };
}

return-os_thread_join_example :
    (s' : System) × (os_thread_join waiting (thread_addr (hart 0) 1) joinable
      ≡ some (Status.ok, s'))
    × (is_live 1 s' ≡ false)
    × (tmode_of 1 s' % 2 ≡ 1)
    × IsServed s'
unfolding thread_attr_at
return-os_thread_join_example =
    return-os_thread_join (hart 0) 0 1 5 (λ n s. s) joinable (omega arith) (λ e. omega arith)
      (omega arith) (omega arith) refl (waiting-CanLock, joinable-IsServed) (λ n t w. w)
