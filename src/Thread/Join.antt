-- ===== src/Thread/Join.antt =====
-- `osThreadJoin` and `osThreadJoinAll` of src/os/src/flexpret_threads.c
use flexpret.Common.{
  ℕ, zero, suc, ◌-◌, ◌^◌, ◌==◌, false, not, if◌then◌else◌, Option, none, some, List, [], ◌∷◌,
  bit_and, bit_or, ltb, length,
}
use flexpret.State.{Ctx, System, Status, null_ptr, wait_period, max_hw_threads_nums}
use flexpret.State.Run.{M, ◌>>=◌, pure}
use flexpret.Tid.{get_tid}
use flexpret.Mutex.Wait.{sleep}
use flexpret.Scheduler.{entry_of}
use flexpret.Scheduler.Harts.{is_live}
use flexpret.Thread.Terminate.{thread_terminate}

-- while (thread->func != NULL) { delay_until_periodic(...); }
unfoldable pub wait_for_exit : Ctx → ℕ → ℕ → System → Option System
wait_for_exit c tid zero s = none
wait_for_exit c tid (suc n) s =
    let again = wait_for_exit c tid n (sleep c n wait_period s) in
    if is_live tid s then again else some s

-- osThreadJoin
unfoldable pub os_thread_join : Ctx → ℕ → M Status
unfolding wait_for_exit
os_thread_join c thread_id s =
    let tid = get_tid c thread_id in
    if thread_id == null_ptr
    then some (Status.error, s)
    else if not ((entry_of tid s).attr_bits == 1)
    then some (Status.error, s)
    else if tid == c.hartid
    then some (Status.error, s)
    else elim (wait_for_exit c tid c.rounds s) [
      | none ↦ none
      | some s' ↦ (thread_terminate c thread_id false >>= λ _. pure Status.ok) s'
    ]

-- The loop that sets the flag of every thread.
unfoldable pub join_flags : Ctx → List ℕ → ℕ
join_flags c [] = 0
join_flags c (t ∷ ts) = bit_or (2 ^ get_tid c t) (join_flags c ts)

-- One round over the threads: those that are done are terminated, and their flags cleared.
unfoldable pub join_round : Ctx → List ℕ → ℕ → System → Option (ℕ × System)
join_round c [] flag s = some (flag, s)
join_round c (t ∷ ts) flag s =
    let skip = join_round c ts flag s in
    let done =
      (thread_terminate c t false >>= λ _. join_round c ts (flag - bit_and flag (2 ^ get_tid c t)))
        s in
    if is_live (get_tid c t) s then skip else done

-- The rounds, until no flag is left; between two of them the other harts run.
unfoldable pub join_rounds : Ctx → List ℕ → ℕ → ℕ → System → Option System
unfolding join_round
join_rounds c ts zero flag s = none
join_rounds c ts (suc n) flag s =
    let next : Option System = elim (join_round c ts flag s) [
      | none ↦ none
      | some (flag', s') ↦ join_rounds c ts n flag' (c.others n s')
    ] in
    if flag == 0 then some s else next

-- osThreadJoinAll; `none` also if the list does not fit into tids[8], past which the code then writes.
unfoldable pub os_thread_join_all : Ctx → List ℕ → M Status
unfolding join_flags join_rounds
os_thread_join_all c ts s =
    let joined : Option (Status × System) = elim (join_rounds c ts c.rounds (join_flags c ts) s) [
      | none ↦ none
      | some s' ↦ some (Status.ok, s')
    ] in
    if ltb max_hw_threads_nums (length ts) then none else joined
