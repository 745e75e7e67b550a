-- ===== src/Thread/Reach.antt =====
-- Sequences of calls that start, end and change threads, of any harts: each call runs to its end before the next one.
use mathlib.Core.Path.{subst}
use flexpret.Common.{ℕ, ◌<◌, ◌≡◌, ◌≢◌, inl, inr, false, some, arith}
use flexpret.Common.Int.{pos}
use flexpret.State.{
  Ctx, System, Status, Priority, KernelState, AttrPtr, null_ptr, hw_threads_nums, thread_addr,
}
use flexpret.Tid.{get_tid, os_thread_get_id}
use flexpret.Tid.Laws.{IsPlaced}
use flexpret.Slots.{slot_s}
use flexpret.Slots.Assign.{Room}
use flexpret.Scheduler.{os_scheduler_set_slot_num, os_scheduler_set_soft_slot_num}
use flexpret.Scheduler.SlotNum.{
  os_scheduler_set_slot_num-Answers, os_scheduler_set_soft_slot_num-Answers,
}
use flexpret.Thread.{
  refuses, os_thread_new, os_thread_set_priority, os_thread_suspend, os_thread_resume,
}
use flexpret.Thread.SetPriority.{RoomFor, os_thread_set_priority-IsServed}
use flexpret.Thread.New.{os_thread_new-IsServed}
use flexpret.Thread.Terminate.{os_thread_terminate, Outcome}
use flexpret.Thread.Kill.{Killed, os_thread_terminate-Killed, Cleaned-CanLock, Cleaned-IsServed}
use flexpret.Thread.Clean.{thread_clean}
use flexpret.Thread.Clean.Ends.{thread_clean-Cleaned}
use flexpret.Thread.Suspend.{suspended, resumed, suspend_at, resume_at}
use flexpret.Thread.Well.{
  IsWell, same_state, can_lock, to-IsWell, suspended-IsWell, resumed-IsWell, answered-IsWell,
  get_tid-own,
}

-- A call of the hart of `c`, with its answer. The guards are the room that a call for more slots needs, and at
-- least one slot for a hart.
pub data Step : System → System → Type 0 where
  new :
      {s s' : System} (c : Ctx) (f a id : ℕ) (p : AttrPtr)
      → IsPlaced c
      → s.kernel_state ≡ KernelState.running
      → f ≢ null_ptr
      → s.thread_num < hw_threads_nums
      → refuses p s ≡ false
      → Room s.thread_num 1 s
      → Room slot_s 1 s
      → os_thread_new c f a p s ≡ some (id, s')
      → Step s s'
  set_priority :
      {s s' : System} (c : Ctx) (thread_id : ℕ) (p : Priority) (st : Status)
      → IsPlaced c
      → thread_id ≢ null_ptr
      → get_tid c thread_id < 8
      → RoomFor (get_tid c thread_id) p s
      → os_thread_set_priority c thread_id p s ≡ some (st, s')
      → Step s s'
  set_slots :
      {s s' : System} (c : Ctx) (thread_id count : ℕ) (st : Status)
      → IsPlaced c
      → get_tid c thread_id < 8
      → 0 < count
      → os_scheduler_set_slot_num c thread_id (pos count) s ≡ some (st, s')
      → Step s s'
  set_soft_slots :
      {s s' : System} (c : Ctx) (count : ℕ) (st : Status)
      → IsPlaced c
      → 0 < count
      → os_scheduler_set_soft_slot_num c (pos count) s ≡ some (st, s')
      → Step s s'
  terminate :
      {s s' : System} (c : Ctx) (thread_id : ℕ) (r : Outcome)
      → IsPlaced c
      → thread_id ≢ os_thread_get_id c
      → os_thread_terminate c thread_id s ≡ some (r, s')
      → Step s s'
  -- thread_after_return_handler, before it sleeps
  return :
      {s s' : System} (c : Ctx) (tid : ℕ)
      → IsPlaced c
      → thread_clean c (os_thread_get_id c) s ≡ some (tid, s')
      → Step s s'
  suspend :
      {s s' : System} (c : Ctx) (i : ℕ) (st : Status)
      → IsPlaced c
      → i < 8
      → os_thread_suspend c (thread_addr c i) s ≡ some (st, s')
      → Step s s'
  resume :
      {s s' : System} (c : Ctx) (i : ℕ) (st : Status)
      → IsPlaced c
      → i < 8
      → os_thread_resume c (thread_addr c i) s ≡ some (st, s')
      → Step s s'

-- Calls after one another
pub data Steps : System → System → Type 0 where
  no_call : {s : System} → Steps s s
  and_then : {s s1 s2 : System} → Steps s s1 → Step s1 s2 → Steps s s2

module _ (m : ℕ) where
  step-IsWell : {s s' : System} → Step s s' → IsWell m s → IsWell m s'
  unfolding Killed
  step-IsWell {s} {s'} (Step.new c f a id p v k n h r own common e) w =
      let (t, q, x, l, z) =
        os_thread_new-IsServed c m s (can_lock m s w c v) f a p k n h r own common w.served in
      subst (IsWell m) (same_state _ _ t s' q e) (to-IsWell c m t l z)
  step-IsWell {s} {s'} (Step.set_priority c thread_id p st v n h r e) w =
      let (_, t, q, l, z, _) =
        os_thread_set_priority-IsServed c m thread_id p s n h (can_lock m s w c v) w.served r in
      subst (IsWell m) (same_state _ _ t s' q e) (to-IsWell c m t l z)
  step-IsWell {s} {s'} (Step.set_slots c thread_id count st v h p e) w =
      answered-IsWell m (get_tid c thread_id) count st s s' _ (omega arith) p
        (os_scheduler_set_slot_num-Answers c m s (can_lock m s w c v) thread_id (pos count) h) e w
  step-IsWell {s} {s'} (Step.set_soft_slots c count st v p e) w =
      answered-IsWell m slot_s count st s s' _ (omega arith) p
        (os_scheduler_set_soft_slot_num-Answers c m s (can_lock m s w c v) (pos count)) e w
  step-IsWell {s} {s'} (Step.terminate c thread_id r v n e) w =
      elim (os_thread_terminate-Killed c m thread_id s (can_lock m s w c v) w.served n) [
        | inl (_, q) ↦ subst (IsWell m) (same_state _ _ s s' q e) w
        | inr (_, _, (t, q, (l, z, _, _, _))) ↦
            subst (IsWell m) (same_state _ _ t s' q e) (to-IsWell c m t l z)
      ]
  step-IsWell {s} {s'} (Step.return c tid v e) w =
      let own = os_thread_get_id c in
      let h = get_tid-own c v in
      let (t, q, k) = thread_clean-Cleaned c own s v h in
      subst (IsWell m) (same_state _ _ t s' q e) (
        to-IsWell c m t (Cleaned-CanLock c (get_tid c own) m s t k (can_lock m s w c v))
          (Cleaned-IsServed (get_tid c own) s t k w.served))
  step-IsWell {s} {s'} (Step.suspend c i st v h e) w =
      subst (IsWell m) (same_state _ _ (suspended i s) s' (suspend_at c v i h s) e)
        (suspended-IsWell c m i s v h w)
  step-IsWell {s} {s'} (Step.resume c i st v h e) w =
      subst (IsWell m) (same_state _ _ (resumed i s) s' (resume_at c v i h s) e)
        (resumed-IsWell c m i s v h w)

  -- Any calls keep the slot mutex free, and each live hart served by a slot.
  pub steps-IsWell : {s s' : System} → Steps s s' → IsWell m s → IsWell m s'
  steps-IsWell Steps.no_call w = w
  steps-IsWell (Steps.and_then r x) w = step-IsWell x (steps-IsWell r w)
