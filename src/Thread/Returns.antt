-- ===== src/Thread/Returns.antt =====
-- A thread that returns while another one joins it: thread_after_return_handler on the one hart, osThreadJoin on
-- the other.
use mathlib.Core.Path.{subst, transport}
use flexpret.Common.{
  ℕ, ◌%◌, ◌<◌, ◌≡◌, ◌≢◌, sym, ap, ◌∙◌, Bool, true, false, Option, none, some, ◌==◌, if◌then◌else◌,
  arith,
}
use flexpret.State.{Ctx, System, Status, thread_addr}
use flexpret.Tid.{get_tid, os_thread_get_id}
use flexpret.Tid.Laws.{IsPlaced, get_tid-thread_addr}
use flexpret.Tmodes.Modes.{tmode_of}
use flexpret.Scheduler.{entry_of}
use flexpret.Scheduler.Harts.{is_live}
use flexpret.Scheduler.Service.{IsServed}
use flexpret.Thread.Clean.{thread_clean}
use flexpret.Thread.Clean.Ends.{Cleaned, thread_clean-Cleaned}
use flexpret.Thread.Kill.{Cleaned-CanLock, Cleaned-is_live, Cleaned-IsServed}
use flexpret.Thread.Exit.{IsCalm, Exits, os_thread_join-ends}
use flexpret.Thread.Join.{os_thread_join}

abbrev state_after : System → Option (ℕ × System) → System
state_after s none = s
state_after s (some (_, s')) = s'

-- What hart k does to the state when its thread returns, before it sleeps.
unfoldable pub returned : Ctx → ℕ → System → System
returned c k s =
    let own = record c { hartid = k } in state_after s (thread_clean own (os_thread_get_id own) s)

-- The hart of `c` runs, and when a wait has `i` rounds left the thread of hart k returns; in the other rounds
-- `before` happens.
unfoldable pub with_return : Ctx → ℕ → ℕ → (ℕ → System → System) → Ctx
unfolding returned
with_return c k i before = record c {
  others = λ n s. if n == i then returned c k s else before n s;
}

if-IsCalm :
    (c : Ctx) (m : ℕ) (b : Bool) (x y : System)
    → IsCalm c m x
    → IsCalm c m y
    → IsCalm c m (if b then x else y)
if-IsCalm c m true x y p q = p
if-IsCalm c m false x y p q = q

module _ (c : Ctx) (m k i : ℕ) (before : ℕ → System → System) where
  returned-Cleaned : (s : System) → IsPlaced c → k < 8 → Cleaned k s (returned c k s)
  unfolding returned
  returned-Cleaned s v h =
      let own = record c { hartid = k } in
      let w : IsPlaced own = record {
        hart = h;
        threads_low = v.threads_low;
        threads_high = v.threads_high;
        timers_low = v.timers_low;
        timers_high = v.timers_high;
      } in
      let e = get_tid-thread_addr own k w h in
      let (s', p, q) = thread_clean-Cleaned own (thread_addr own k) s w (omega arith) in
      transport (λ j. Cleaned (e j) s (sym (ap (state_after s) p) j)) q

  -- Both harts find the arrays at the same addresses.
  IsPlaced-with_return : IsPlaced (with_return c k i before) → IsPlaced c
  unfolding with_return
  IsPlaced-with_return v = record {
    hart = v.hart;
    threads_low = v.threads_low;
    threads_high = v.threads_high;
    timers_low = v.timers_low;
    timers_high = v.timers_high;
  }

  returns-IsCalm :
      (s : System)
      → k < 8
      → IsCalm (with_return c k i before) m s
      → IsCalm (with_return c k i before) m (returned c k s)
  returns-IsCalm s h (l, v) =
      let q = returned-Cleaned s (IsPlaced-with_return l.placed) h in
      (
        Cleaned-CanLock (with_return c k i before) k m s (returned c k s) q l,
        Cleaned-IsServed k s (returned c k s) q v,
      )

  with_return-Exits :
      k < 8
      → 0 < i
      → i < c.rounds
      → ((n : ℕ) (s : System)
          → IsCalm (with_return c k i before) m s
          → IsCalm (with_return c k i before) m (before n s))
      → Exits (with_return c k i before) m k i
  unfolding with_return
  with_return-Exits h p q calm = record {
    in_time = (p, q);
    calm = λ n s w.
        if-IsCalm (with_return c k i before) m (n == i) (returned c k s) (before n s)
          (returns-IsCalm s h w) (calm n s w);
    done = λ s w.
        let e : (i == i) ≡ true = ground arith in
        ap (λ b. is_live k (if b then returned c k s else before i s)) e
        ∙ Cleaned-is_live k s (returned c k s)
            (returned-Cleaned s (IsPlaced-with_return w.0.placed) h);
  }

-- osThreadJoin of a joinable thread of another hart k, whose thread returns in a round of the wait: with the slot
-- mutex free and every live hart served, and what else happens in the other rounds keeping this so, it ends with
-- osOK; then the thread has ended and hart k is asleep, and every live hart is served.
pub return-os_thread_join :
    (c : Ctx) (m k i : ℕ) (before : ℕ → System → System) (s : System)
    → let d = with_return c k i before in
      k < 8
      → k ≢ c.hartid
      → 0 < i
      → i < c.rounds
      → (entry_of k s).attr_bits ≡ 1
      → IsCalm d m s
      → ((n : ℕ) (t : System) → IsCalm d m t → IsCalm d m (before n t))
      → (s' : System) × (os_thread_join d (thread_addr c k) s ≡ some (Status.ok, s'))
        × (is_live k s' ≡ false)
        × (tmode_of k s' % 2 ≡ 1)
        × IsServed s'
unfolding with_return
return-os_thread_join c m k i before s h n p q joinable calm keeps =
    let d = with_return c k i before in
    let e : get_tid d (thread_addr c k) ≡ k = get_tid-thread_addr d k calm.0.placed h in
    let (s', r, b, z, v) =
      os_thread_join-ends d m i (thread_addr c k) s (omega (arith, calm.0.placed.threads_low))
        (omega arith) (subst (λ x. x ≢ c.hartid) (sym e) n)
        (subst (λ x. (entry_of x s).attr_bits ≡ 1) (sym e) joinable) calm
        (subst (λ x. Exits d m x i) (sym e) (with_return-Exits c m k i before h p q keeps)) in
    (s', r, subst (λ x. is_live x s' ≡ false) e b, subst (λ x. tmode_of x s' % 2 ≡ 1) e z, v)
