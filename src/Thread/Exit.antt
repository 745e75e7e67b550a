-- ===== src/Thread/Exit.antt =====
-- osThreadJoin waits for the thread of another hart to end, and then terminates it.
use mathlib.Core.Path.{subst}
use mathlib.Core.Bool.{false≢true}
use native.Mathlib.Decide.{dec_lt, ℕ_discrete}
use flexpret.Common.{
  ℕ, zero, suc, ◌+◌, ◌%◌, ◌<◌, ◌≡◌, ◌≢◌, refl, sym, ap, ◌∙◌, true, false, Bool-cases, ◌==◌, some,
  inl, inr, arith,
}
use flexpret.State.{Ctx, System, Status, null_ptr, wait_period, u32_mod}
use flexpret.State.Run.{◌>>=◌}
use flexpret.Tid.{get_tid}
use flexpret.Slots.Assign.{slots_of}
use flexpret.Tmodes.Modes.{tmode_of}
use flexpret.Timing.{get_time, set_compare, delay_until_periodic}
use flexpret.Mutex.Wait.{sleep}
use flexpret.Scheduler.{entry_of}
use flexpret.Scheduler.Harts.{is_live}
use flexpret.Scheduler.Locked.{CanLock}
use flexpret.Scheduler.Service.{IsServed, live_same}
use flexpret.Scheduler.GiveUp.{ServedBut}
use flexpret.Thread.End.{thread_terminate-IsAsleep}
use flexpret.Thread.Join.{wait_for_exit, os_thread_join}

-- What a round of the wait keeps: the slot mutex is free, and every live hart has a slot to run in.
abbrev pub IsCalm : Ctx → ℕ → System → Type 0
IsCalm c m s = CanLock c m s × IsServed s

-- What is asked of the other harts while one waits for a thread: in each round they leave the slot mutex
-- free and every live hart served, and with `i` rounds left the thread has ended.
pub record Exits (c : Ctx) (m tid i : ℕ) : Type 0 where
  pub in_time : (0 < i) × (i < c.rounds)
  pub calm : (n : ℕ) (s : System) → IsCalm c m s → IsCalm c m (c.others n s)
  pub done : (s : System) → IsCalm c m s → is_live tid (c.others i s) ≡ false

module _ (c : Ctx) (m tid i : ℕ) (x : Exits c m tid i) where
  abbrev next : ℕ → System → System
  next n s = sleep c n wait_period s

  -- The state in which the hart goes to sleep.
  abbrev asleep : System → System
  asleep s = set_compare c ((get_time s + wait_period) % u32_mod) s

  asleep-IsCalm : (s : System) → IsCalm c m s → IsCalm c m (asleep s)
  unfolding set_compare tmode_of slots_of
  asleep-IsCalm s (l, v) = (
    record {
      placed = l.placed;
      slot_mutex = l.slot_mutex;
      free = record {
        active = l.free.active;
        csr_addr = l.free.csr_addr;
        csr = l.free.csr;
        owner = l.free.owner;
        count = l.free.count;
      };
    },
    v,
  )

  next-IsCalm : (n : ℕ) (s : System) → IsCalm c m s → IsCalm c m (next n s)
  unfolding delay_until_periodic
  next-IsCalm n s h = x.calm n (asleep s) (asleep-IsCalm s h)

  next_done : (n : ℕ) (s : System) → i ≡ n → IsCalm c m s → is_live tid (next n s) ≡ false
  unfolding delay_until_periodic
  next_done n s e h =
      subst (λ j. is_live tid (c.others j (asleep s)) ≡ false) e
        (x.done (asleep s) (asleep-IsCalm s h))

  -- The wait ends, in a state that the next step can start from.
  abbrev Exited : ℕ → System → Type 0
  Exited n s =
      (s' : System) × (wait_for_exit c tid n s ≡ some s') × (is_live tid s' ≡ false) × IsCalm c m s'

  exit_now : (n : ℕ) (s : System) → 0 < n → is_live tid s ≡ false → IsCalm c m s → Exited n s
  unfolding wait_for_exit
  exit_now zero s p e h = absurd (omega arith)
  exit_now (suc n) s p e h = (s, rw e refl, e, h)

  exit_later : (n : ℕ) (s : System) → is_live tid s ≡ true → Exited n (next n s) → Exited (suc n) s
  unfolding wait_for_exit
  exit_later n s e (s', p, d, h) = (s', rw e p, d, h)

  wait_for_exit-Exited : (n : ℕ) (s : System) → i < n → IsCalm c m s → Exited n s
  wait_for_exit-Exited zero s p h = absurd (omega arith)
  wait_for_exit-Exited (suc n) s p h = elim (Bool-cases (is_live tid s)) [
    | inr ended ↦ exit_now (suc n) s (omega arith) ended h
    | inl live ↦ exit_later n s live (elim (dec_lt i n) [
      | yes more ↦ wait_for_exit-Exited n (next n s) more (next-IsCalm n s h)
      | no last ↦
          let e : i ≡ n = omega arith in
          exit_now n (next n s) (omega (arith, x.in_time)) (next_done n s e h) (next-IsCalm n s h)
    ])
  ]

-- The thread that has ended needs no slot.
pub IsServed-all : (tid : ℕ) (s : System) → is_live tid s ≡ false → ServedBut tid s → IsServed s
IsServed-all tid s d v i h l = elim (ℕ_discrete i tid) [
  | yes e ↦ absurd (false≢true (sym (ap (λ j. is_live j s) e ∙ d) ∙ l))
  | no n ↦ v i h n l
]

-- If the slot mutex is free, every live hart has a slot to run in, and while osThreadJoin waits the other
-- harts keep this so and the thread, which is joinable and of another hart, ends in time, then
-- osThreadJoin ends with osOK. Then the thread has ended and its hart is asleep, and every live hart has a slot
-- to run in.
pub os_thread_join-ends :
    (c : Ctx) (m i thread_id : ℕ) (s : System)
    → thread_id ≢ null_ptr
    → get_tid c thread_id < 8
    → get_tid c thread_id ≢ c.hartid
    → (entry_of (get_tid c thread_id) s).attr_bits ≡ 1
    → IsCalm c m s
    → Exits c m (get_tid c thread_id) i
    → (s' : System) × (os_thread_join c thread_id s ≡ some (Status.ok, s'))
      × (is_live (get_tid c thread_id) s' ≡ false)
      × (tmode_of (get_tid c thread_id) s' % 2 ≡ 1)
      × IsServed s'
unfolding os_thread_join
os_thread_join-ends c m i thread_id s p h n a calm x =
    let tid = get_tid c thread_id in
    let (s1, w, d, (l, v)) = wait_for_exit-Exited c m tid i x c.rounds s x.in_time.1 calm in
    let (s2, (st, e), served, r, z) =
      thread_terminate-IsAsleep c m thread_id h s1 l (λ j k o. v j k) in
    let dead : is_live tid s2 ≡ false = live_same tid s1 s2 r ∙ d in
    let p' : (thread_id == null_ptr) ≡ false = ground arith in
    let n' : (tid == c.hartid) ≡ false = ground arith in
    (s2, rw (p', a, n', w, ◌>>=◌, e) refl, dead, z, IsServed-all tid s2 dead served)
