-- ===== src/Thread/Suspend.antt =====
-- A thread that is suspended and resumed.
use flexpret.Common.{
  ℕ, ◌%◌, ◌<◌, ◌≡◌, refl, ap, ◌∙◌, some, set, set-get_or, get_or-set_self, set-set, get_or, arith,
}
use flexpret.State.{Ctx, System, Status, ThreadState, thread_addr}
use flexpret.State.Run.{M, ◌>>=◌, pure}
use flexpret.Tid.Laws.{IsPlaced, get_tid-thread_addr}
use flexpret.Tmodes.{get_tmodes, set_thread_mode, switch_mode, tmode_active, tmode_zombie}
use flexpret.Tmodes.Fields.{make_active, make_zombie}
use flexpret.Tmodes.Modes.{tmode_of, requested, switch_mode-requested}
use flexpret.Scheduler.{os_scheduler_set_tmodes}
use flexpret.Thread.{os_thread_suspend, os_thread_resume, put_state}

abbrev pub suspended : ℕ → System → System
suspended i s = record (put_state i ThreadState.blocked s) {
  tmodes = switch_mode i tmode_zombie s.tmodes;
}

abbrev pub resumed : ℕ → System → System
resumed i s =
    put_state i ThreadState.active (record s { tmodes = switch_mode i tmode_active s.tmodes })

module _ (c : Ctx) (placed : IsPlaced c) (i : ℕ) (hart : i < 8) (s : System) where
  pub suspend_at : os_thread_suspend c (thread_addr c i) s ≡ some (Status.ok, suspended i s)
  unfolding os_thread_suspend os_scheduler_set_tmodes set_thread_mode
  suspend_at = ap (λ t. some (Status.ok, suspended t s)) (get_tid-thread_addr c i placed hart)

  pub resume_at : os_thread_resume c (thread_addr c i) s ≡ some (Status.ok, resumed i s)
  unfolding os_thread_resume os_scheduler_set_tmodes set_thread_mode
  resume_at = ap (λ t. some (Status.ok, resumed t s)) (get_tid-thread_addr c i placed hart)

  pub suspended_modes :
      get_tmodes (suspended i s).tmodes ≡ set (get_tmodes s.tmodes) i (make_zombie (tmode_of i s))
  unfolding tmode_of
  suspended_modes =
      switch_mode-requested i hart s.tmodes tmode_zombie (omega arith)
      ∙ ap (set (get_tmodes s.tmodes) i) (unfold requested in refl)

  pub resumed_modes :
      get_tmodes (resumed i s).tmodes ≡ set (get_tmodes s.tmodes) i (make_active (tmode_of i s))
  unfolding tmode_of
  resumed_modes =
      switch_mode-requested i hart s.tmodes tmode_active (omega arith)
      ∙ ap (set (get_tmodes s.tmodes) i) (unfold requested in refl)

-- osThreadSuspend and then osThreadResume of the same thread, with both answers.
unfoldable pub suspend_resume : Ctx → ℕ → M (Status × Status)
suspend_resume c thread_id = do
  a ← os_thread_suspend c thread_id
  b ← os_thread_resume c thread_id
  pure (a, b)

module _ (c : Ctx) (placed : IsPlaced c) (i : ℕ) (hart : i < 8) (s : System) where
  -- osThreadSuspend of a thread answers osOK and puts its hart to sleep: hard harts stay hard, soft ones
  -- soft, no other hart's mode changes, and the state of the thread is blocked.
  suspend-modes :
      (s' : System) × (os_thread_suspend c (thread_addr c i) s ≡ some (Status.ok, s'))
      × (get_tmodes s'.tmodes ≡ set (get_tmodes s.tmodes) i (make_zombie (tmode_of i s)))
      × ((s'.startup_state i).state ≡ ThreadState.blocked)
  suspend-modes =
      (suspended i s, suspend_at c placed i hart s, suspended_modes c placed i hart s, ground arith)

  -- For a thread whose hart is active, osThreadSuspend and then osThreadResume answer osOK, and then all
  -- modes are as before, and the state of the thread is active.
  suspend_resume-modes :
      tmode_of i s % 2 ≡ 0
      → (s' : System) × (suspend_resume c (thread_addr c i) s ≡ some ((Status.ok, Status.ok), s'))
        × (get_tmodes s'.tmodes ≡ get_tmodes s.tmodes)
        × ((s'.startup_state i).state ≡ ThreadState.active)
  unfolding suspend_resume tmode_of
  suspend_resume-modes e =
      let t = suspended i s in
      let awake = set (get_tmodes s.tmodes) i in
      let asleep = make_zombie (tmode_of i s) in
      (
        resumed i t,
        rw (suspend_at c placed i hart s, ◌>>=◌, resume_at c placed i hart t) refl,
        resumed_modes c placed i hart t
            ∙ ap (λ m. set m i (make_active (get_or m i 0))) (suspended_modes c placed i hart s)
            ∙ set-set (get_tmodes s.tmodes) i asleep _
            ∙ ap (λ k. awake (make_active k))
                (get_or-set_self (get_tmodes s.tmodes) i asleep 0 hart)
            ∙ ap awake (omega (arith, e))
            ∙ set-get_or (get_tmodes s.tmodes) i 0,
        ground arith,
      )
