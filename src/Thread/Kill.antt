-- ===== src/Thread/Kill.antt =====
-- osThreadTerminate, and a thread that returns while another one joins it.
use native.Mathlib.Decide.{ℕ_discrete}
use mathlib.Core.Path.{subst}
use mathlib.Core.Bool.{false≢true}
use flexpret.Common.{
  ℕ, ◌%◌, ◌<◌, ◌≡◌, ◌≢◌, ◌⊎◌, refl, sym, ap, ◌∙◌, true, false, not, Bool-cases, inl, inr, some,
  ◌==◌, ◌||◌, arith,
}
use flexpret.State.{Ctx, System, Status, null_ptr}
use flexpret.State.Run.{◌>>=◌}
use flexpret.Tid.{get_tid, bad_tid, os_thread_get_id}
use flexpret.Tid.Laws.{get_tid-range}
use flexpret.Tmodes.Modes.{tmode_of}
use flexpret.Mutex.Laws.{IsFree}
use flexpret.Scheduler.Harts.{is_live}
use flexpret.Scheduler.Locked.{CanLock}
use flexpret.Scheduler.Service.{IsServed, service-same, live_same}
use flexpret.Scheduler.GiveUp.{OnlyRegs-CanLock}
use flexpret.Thread.Terminate.{thread_terminate, os_thread_terminate, Outcome}
use flexpret.Thread.Clean.{thread_clean}
use flexpret.Thread.Clean.Ends.{Cleaned, thread_clean-Cleaned}
use flexpret.Thread.End.{thread_terminate-IsAsleep}

-- The slot mutex is as free as it was.
Cleaned-IsFree : (tid m : ℕ) (s s' : System) → Cleaned tid s s' → IsFree m s → IsFree m s'
Cleaned-IsFree tid m s s' k f =
    let e = ap (λ g. g m) k.mutexes in
    record {
      active = ap (λ x. x.active) e ∙ f.active;
      csr_addr = subst (λ x. x.csr_addr < 8) (sym e) f.csr_addr;
      csr = ap (λ x. s'.mutex_csr x.csr_addr) e ∙ k.csrs (s.startup_mutex_state m).csr_addr f.csr;
      owner = ap (λ x. x.owner) e ∙ f.owner;
      count = ap (λ x. x.count) e ∙ f.count;
    }

pub Cleaned-CanLock :
    (c : Ctx) (tid m : ℕ) (s s' : System) → Cleaned tid s s' → CanLock c m s → CanLock c m s'
Cleaned-CanLock c tid m s s' k l = record {
  placed = l.placed;
  slot_mutex = k.slot_mutex ∙ l.slot_mutex;
  free = Cleaned-IsFree tid m s s' k l.free;
}

pub Cleaned-is_live : (tid : ℕ) (s s' : System) → Cleaned tid s s' → is_live tid s' ≡ false
Cleaned-is_live tid s s' k = ap (λ f. not (f == null_ptr)) k.func

-- The live harts are still served.
pub Cleaned-IsServed : (tid : ℕ) (s s' : System) → Cleaned tid s s' → IsServed s → IsServed s'
Cleaned-IsServed tid s s' k v i h l = elim (ℕ_discrete i tid) [
  | yes e ↦ absurd (false≢true (sym (ap (λ j. is_live j s') e ∙ Cleaned-is_live tid s s' k) ∙ l))
  | no n ↦
      let live = sym (ap (λ f. not (f.func == null_ptr)) (k.others i n)) ∙ l in
      subst (λ x. 0 < x) (sym (service-same i s s' k.slots k.tmodes)) (v i h live)
]

module _ (c : Ctx) (m thread_id : ℕ) (s : System) where
  -- thread_terminate that cleans up is thread_clean, and then thread_terminate that does not.
  cleaned_then :
      (s1 : System)
      → thread_clean c thread_id s ≡ some (get_tid c thread_id, s1)
      → thread_terminate c thread_id true s ≡ thread_terminate c thread_id false s1
  unfolding thread_terminate
  cleaned_then s1 e = rw (◌>>=◌, e) refl

  -- What is left of the thread that another hart terminates.
  unfoldable pub Killed : System → Type 0
  Killed s' =
      CanLock c m s'
      × IsServed s'
      × (is_live (get_tid c thread_id) s' ≡ false)
      × (tmode_of (get_tid c thread_id) s' % 2 ≡ 1)
      × ((j : ℕ) → j ≢ get_tid c thread_id → is_live j s' ≡ is_live j s)

  kill :
      get_tid c thread_id < 8
      → CanLock c m s
      → IsServed s
      → (s' : System) × (st : Status) × (thread_terminate c thread_id true s ≡ some (st, s'))
        × Killed s'
  unfolding Killed
  kill hart lock served =
      let tid = get_tid c thread_id in
      let (s1, e, k) = thread_clean-Cleaned c thread_id s lock.placed hart in
      let l1 = Cleaned-CanLock c tid m s s1 k lock in
      let v1 = Cleaned-IsServed tid s s1 k served in
      let (s2, (st, f), v, r, z) =
        thread_terminate-IsAsleep c m thread_id hart s1 l1 (λ i p q. v1 i p) in
      let dead : is_live tid s2 ≡ false = live_same tid s1 s2 r ∙ Cleaned-is_live tid s s1 k in
      (
        s2,
        st,
        cleaned_then s1 e ∙ f,
        (
          OnlyRegs-CanLock c m s1 s2 r l1,
          (λ i p l. v i p (λ e. false≢true (sym (ap (λ j. is_live j s2) e ∙ dead) ∙ l)) l),
          dead,
          z,
          λ j n. live_same j s1 s2 r ∙ ap (λ g. not (g.func == null_ptr)) (k.others j n),
        ),
      )

not_null : (a t : ℕ) → (a == null_ptr || t == bad_tid) ≡ false → a ≢ null_ptr
not_null a t e p = ground arith

one_of : (a t : ℕ) → (a == null_ptr || t == bad_tid) ≡ true → (a ≡ null_ptr) ⊎ (t ≡ bad_tid)
one_of a t e = elim (Bool-cases (a == null_ptr)) [
  | inl f ↦ inl (ground arith)
  | inr f ↦ inr (ground arith)
]

-- With the slot mutex free and a slot to run in for every live hart, osThreadTerminate of an identifier
-- that is NULL or not a thread's answers osErrorParameter and changes nothing; of another hart's thread it
-- answers osOK. Then that thread is not live and its hart asleep, the same others are, the slot mutex is free, and every live hart has
-- a slot to run in.
pub os_thread_terminate-Killed :
    (c : Ctx) (m thread_id : ℕ) (s : System)
    → CanLock c m s
    → IsServed s
    → thread_id ≢ os_thread_get_id c
    → ((((thread_id ≡ null_ptr) ⊎ (get_tid c thread_id ≡ bad_tid))
          × (os_thread_terminate c thread_id s ≡ some (Outcome.returns Status.error_parameter, s)))
        ⊎ ((thread_id ≢ null_ptr)
            × (get_tid c thread_id < 8)
            × ((s' : System) × (os_thread_terminate c thread_id s
                  ≡ some (Outcome.returns Status.ok, s'))
                × Killed c m thread_id s s')))
unfolding os_thread_terminate
os_thread_terminate-Killed c m thread_id s lock served n =
    elim (Bool-cases (thread_id == null_ptr || get_tid c thread_id == bad_tid)) [
      | inl e ↦ inl (one_of thread_id (get_tid c thread_id) e, rw e refl)
      | inr e ↦
          let hart : get_tid c thread_id < 8 = get_tid-range c thread_id (ground arith) in
          let (s', st, f, k) = kill c m thread_id s hart lock served in
          let mine : (thread_id == os_thread_get_id c) ≡ false = ground arith in
          inr
            (not_null thread_id (get_tid c thread_id) e, hart, (s', rw (e, mine, ◌>>=◌, f) refl, k))
    ]
