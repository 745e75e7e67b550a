-- ===== src/Thread/New.antt =====
-- osThreadNew in a kernel that runs: the new thread has a slot to run in, and no other loses its own.
use flexpret.Common.{
  ℕ, ◌+◌, ◌%◌, ◌<◌, ◌≡◌, ◌≢◌, ◌⊎◌, inl, inr, refl, sym, ap, ◌∙◌, true, false, not, ◌==◌, Option,
  some, if◌then◌else◌, arith, get_or,
}
use flexpret.State.{
  Ctx, System, Status, Priority, KernelState, ThreadState, AttrPtr, null_ptr, thread_addr,
  hw_threads_nums,
}
use flexpret.State.Run.{◌>>=◌, pure}
use flexpret.Slots.{slot_s, slot_d, count_slots, get_slots}
use flexpret.Tmodes.{get_tmodes}
use flexpret.Slots.Assign.{slots_of, Room}
use flexpret.Tmodes.Modes.{tmode_of}
use flexpret.Mutex.Laws.{IsFree-same}
use flexpret.Scheduler.{entry_of, thread_after_create}
use flexpret.Scheduler.Harts.{is_live}
use flexpret.Scheduler.Locked.{CanLock}
use flexpret.Scheduler.Service.{IsServed, service}
use flexpret.Scheduler.Create.{CanCreate, hard, soft, create_serves}
use flexpret.Scheduler.GiveUp.{OnlyRegs-CanLock}
use flexpret.Thread.{
  new_attr, refuses, set_up, schedule_new, start_thread, os_thread_new, is_running,
}
use flexpret.Thread.Attr.{
  KeepsOthers, KeepsOthers-trans, put_thread-KeepsOthers, read_put_thread, supported_cases, wanted,
  new_attr-KeepsOthers, new_attr-priority,
}

pub refuses-wanted :
    (p : AttrPtr) (s : System)
    → refuses p s ≡ false
    → (wanted p s ≡ Priority.realtime) ⊎ (wanted p s ≡ Priority.normal)
unfolding refuses wanted
refuses-wanted AttrPtr.null s e = inr refl
refuses-wanted (AttrPtr.own j) s e = supported_cases _ e
refuses-wanted (AttrPtr.user j) s e = supported_cases _ e

pub wanted-count :
    (p : AttrPtr) (n : ℕ) (s : System) → wanted p (record s { thread_num = n }) ≡ wanted p s
unfolding wanted
wanted-count AttrPtr.null n s = refl
wanted-count (AttrPtr.own j) n s = refl
wanted-count (AttrPtr.user j) n s = refl

-- The state that thread_after_create finds.
module _ (c : Ctx) (f a : ℕ) (p : AttrPtr) (s : System) where
  abbrev pub made : System
  made =
      set_up s.thread_num f a
        (new_attr c s.thread_num p (record s { thread_num = s.thread_num + 1 }))

  pub count-KeepsOthers : KeepsOthers s.thread_num (record s { thread_num = s.thread_num + 1 }) made
  unfolding set_up
  count-KeepsOthers =
      KeepsOthers-trans s.thread_num _ _ _ (new_attr-KeepsOthers c s.thread_num _ p)
        (put_thread-KeepsOthers s.thread_num _ _)

  pub made-func : (made.startup_state s.thread_num).func ≡ f
  unfolding set_up
  made-func = ground arith

  pub made-thread :
      ((made.startup_state s.thread_num).state ≡ ThreadState.active)
      × ((made.startup_state s.thread_num).arg ≡ a)
  unfolding set_up
  made-thread = (ground arith, ground arith)

  pub made-priority :
      (entry_of s.thread_num made).priority ≡ wanted p (record s { thread_num = s.thread_num + 1 })
  unfolding set_up
  made-priority =
      let t = new_attr c s.thread_num p (record s { thread_num = s.thread_num + 1 }) in
      ap (λ x. x.priority) (read_put_thread (t.thread_attr_entry s.thread_num) s.thread_num _ t)
      ∙ new_attr-priority c s.thread_num (record s { thread_num = s.thread_num + 1 }) p

  pub made-live : f ≢ null_ptr → is_live s.thread_num made ≡ true
  made-live n = ground (arith, made-func)

  made-slots_of : (t : ℕ) → slots_of t made ≡ slots_of t s
  unfolding slots_of
  made-slots_of t = ap (λ w. count_slots t (get_slots w)) count-KeepsOthers.slots

  made-tmode_of : (i : ℕ) → tmode_of i made ≡ tmode_of i s
  unfolding tmode_of
  made-tmode_of i = ap (λ w. get_or (get_tmodes w) i 0) count-KeepsOthers.tmodes

  pub made-CanLock : (m : ℕ) → CanLock c m s → CanLock c m made
  made-CanLock m l = record {
    placed = l.placed;
    slot_mutex = count-KeepsOthers.slot_mutex ∙ l.slot_mutex;
    free = IsFree-same m s made count-KeepsOthers.mutexes count-KeepsOthers.csr l.free;
  }

  made-Room : (t n : ℕ) → Room t n s → Room t n made
  made-Room t n (inl h) = inl (omega (arith, made-slots_of t, h))
  made-Room t n (inr h) = inr (omega (arith, made-slots_of t, made-slots_of slot_d, h))

  made-service :
      IsServed s → (i : ℕ) → i < 8 → i ≢ s.thread_num → is_live i made ≡ true → 0 < service i made
  made-service h i q n l =
      let live = sym (ap (λ g. not (g == null_ptr)) (count-KeepsOthers.func i n)) ∙ l in
      ground (arith, h i q live, made-tmode_of i, made-slots_of i, made-slots_of slot_s)

  made-CanCreate :
      f ≢ null_ptr
      → refuses p s ≡ false
      → Room s.thread_num 1 s
      → Room slot_s 1 s
      → CanCreate s.thread_num made
  made-CanCreate n r own common = elim (refuses-wanted p s r) [
    | inl e ↦
        hard (made-priority ∙ wanted-count p (s.thread_num + 1) s ∙ e)
          (made-Room s.thread_num 1 own)
    | inr e ↦
        soft (made-priority ∙ wanted-count p (s.thread_num + 1) s ∙ e) (made-live n)
          (made-Room slot_s 1 common)
  ]

-- The new thread: its function, state and argument are set, its hart is awake, it is counted, and the others'
-- functions are as before.
pub record IsNewThread (tid f a : ℕ) (s s' : System) : Type 0 where
  pub func : (s'.startup_state tid).func ≡ f
  pub state : (s'.startup_state tid).state ≡ ThreadState.active
  pub arg : (s'.startup_state tid).arg ≡ a
  pub awake : tmode_of tid s' % 2 ≡ 0
  pub count : s'.thread_num ≡ s.thread_num + 1
  pub others : (i : ℕ) → i ≢ tid → (s'.startup_state i).func ≡ (s.startup_state i).func

module _ (c : Ctx) where
  schedule_new-steps :
      (tid : ℕ) (t u : System) (st : Status)
      → t.kernel_state ≡ KernelState.running
      → thread_after_create c tid t ≡ some (st, u)
      → schedule_new c tid t ≡ some (st, u)
  unfolding schedule_new
  schedule_new-steps tid t u st k e =
      ap (λ w. if is_running w then thread_after_create c tid t else some (Status.ok, t)) k ∙ e

  pub start_thread-steps :
      (tid f a : ℕ) (t u : System) (st : Status)
      → schedule_new c tid (set_up tid f a t) ≡ some (st, u)
      → start_thread c tid f a t ≡ some (thread_addr c tid, u)
  unfolding start_thread
  start_thread-steps tid f a t u st e =
      ap {A = Option (Status × System)} (λ o. ((λ _. o) >>= λ _. pure (thread_addr c tid)) t) e

module _ (c : Ctx) (s : System) where
  pub os_thread_new-steps :
      (f a : ℕ) (p : AttrPtr)
      → f ≢ null_ptr
      → s.thread_num < hw_threads_nums
      → refuses p s ≡ false
      → os_thread_new c f a p s
        ≡ start_thread c s.thread_num f a
            (new_attr c s.thread_num p (record s { thread_num = s.thread_num + 1 }))
  unfolding os_thread_new
  os_thread_new-steps f a p n h r = ground arith

module _ (c : Ctx) (m : ℕ) (s : System) (lock : CanLock c m s) where
  -- In a running kernel, with the slot mutex free, a function, fewer than eight threads, and attributes
  -- that osThreadNew supports: if every live hart has a slot to run in, and there is room for a hard slot
  -- of the next hart and for a soft slot, then osThreadNew gives the address of the next hart's thread,
  -- which has the function and the argument, is active and counted, and its hart is awake; all other threads keep their functions, the slot
  -- mutex is free, and every live hart has a slot to run in.
  pub os_thread_new-IsServed :
      (f a : ℕ) (p : AttrPtr)
      → s.kernel_state ≡ KernelState.running
      → f ≢ null_ptr
      → s.thread_num < hw_threads_nums
      → refuses p s ≡ false
      → Room s.thread_num 1 s
      → Room slot_s 1 s
      → IsServed s
      → (s' : System) × (os_thread_new c f a p s ≡ some (thread_addr c s.thread_num, s'))
        × IsNewThread s.thread_num f a s s'
        × CanLock c m s'
        × IsServed s'
  unfolding os_thread_new
  os_thread_new-IsServed f a p k n h r own common served =
      let t = new_attr c s.thread_num p (record s { thread_num = s.thread_num + 1 }) in
      let kept = count-KeepsOthers c f a p s in
      let (s', (st, e), ok, regs, awake) =
        create_serves c m (made c f a p s) (made-CanLock c f a p s m lock) s.thread_num h
          (made-CanCreate c f a p s n r own common) (made-service c f a p s served) in
      (
        s',
        os_thread_new-steps c s f a p n h r
            ∙ start_thread-steps c s.thread_num f a t s' st
                (schedule_new-steps c s.thread_num (made c f a p s) s' st (kept.kernel ∙ k) e),
        record {
          func = ap (λ x. (x.startup_state s.thread_num).func) regs ∙ made-func c f a p s;
          state = ap (λ x. (x.startup_state s.thread_num).state) regs ∙ (made-thread c f a p s).0;
          arg = ap (λ x. (x.startup_state s.thread_num).arg) regs ∙ (made-thread c f a p s).1;
          awake = awake;
          count = ap (λ x. x.thread_num) regs ∙ kept.count;
          others = λ i q. ap (λ x. (x.startup_state i).func) regs ∙ kept.func i q;
        },
        OnlyRegs-CanLock c m (made c f a p s) s' regs (made-CanLock c f a p s m lock),
        ok,
      )
