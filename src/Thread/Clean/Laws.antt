-- ===== src/Thread/Clean/Laws.antt =====
-- What thread_clean leaves behind: the thread's entry, its timer, and the mutexes that it held.
use flexpret.Common.{
  ℕ, zero, suc, ◌+◌, ◌<◌, ◌≤◌, ◌≡◌, ◌≢◌, refl, sym, ap, ◌∙◌, true, Option, some, arith,
}
use native.Mathlib.Decide.{ℕ_discrete}
use flexpret.State.{Ctx, System, Status, MutexState, null_ptr, mutex_max_num}
use flexpret.State.Run.{M, ◌>>=◌, ◌>>◌, pure, modify}
use flexpret.Tid.{get_tid, get_timer_tid}
use flexpret.Mutex.Csr.{csr_active, write_mutex_csr}
use flexpret.Timing.{set_compare}
use flexpret.Mutex.Others.{IsOrphaned}
use flexpret.Timer.{os_thread_get_timer, os_timer_delete, delete_at}
use flexpret.Thread.Clean.{
  release_robust, release_all, thread_clean, end_thread, delete_timer, clear_func,
}

-- The loop over the mutexes writes their CSRs only.
release_robust-mutexes :
    (t i : ℕ) (s : System) → (release_robust t i s).startup_mutex_state ≡ s.startup_mutex_state
unfolding release_robust
release_robust-mutexes t i s = ground arith

pub release_all-mutexes :
    (t n i : ℕ) (s : System) → (release_all t n i s).startup_mutex_state ≡ s.startup_mutex_state
unfolding release_all
release_all-mutexes t zero i s = refl
release_all-mutexes t (suc n) i s =
    release_all-mutexes t n (i + 1) (release_robust t i s) ∙ release_robust-mutexes t i s

-- A CSR that says free is never changed.
pub release_all-free :
    (t n i a : ℕ) (s : System)
    → s.mutex_csr a ≡ csr_active
    → (release_all t n i s).mutex_csr a ≡ csr_active
unfolding release_all release_robust
release_all-free t zero i a s e = e
release_all-free t (suc n) i a s e =
    release_all-free t n (i + 1) a (release_robust t i s) (ground arith)

-- The record of a robust mutex that the thread holds.
pub record IsRobustOf (t : ℕ) (mu : MutexState) : Type 0 where
  pub robust : mu.if_robust ≡ true
  pub active : mu.active ≡ true
  pub owner : mu.owner ≡ t
  pub csr_addr : mu.csr_addr < 8

release_robust-frees :
    (t m : ℕ) (mu : MutexState) (s : System)
    → s.startup_mutex_state m ≡ mu
    → IsRobustOf t mu
    → (release_robust t m s).mutex_csr mu.csr_addr ≡ csr_active
unfolding release_robust write_mutex_csr
release_robust-frees t m mu s e r = ground (arith, r.robust, r.active, r.owner, r.csr_addr)

release_all-frees :
    (t n i m : ℕ) (f : ℕ → MutexState) (s : System)
    → s.startup_mutex_state ≡ f
    → i ≤ m
    → m < i + n
    → IsRobustOf t (f m)
    → (release_all t n i s).mutex_csr (f m).csr_addr ≡ csr_active
unfolding release_all
release_all-frees t zero i m f s g p q r = absurd (omega arith)
release_all-frees t (suc n) i m f s g p q r = elim (ℕ_discrete i m) [
  | yes e ↦
      release_all-free t n (i + 1) _ (release_robust t i s)
        (release_robust-frees t i (f m) s (ap (λ h. h i) g ∙ ap f e) r)
  | no e ↦
      release_all-frees t n (i + 1) m f (release_robust t i s) (release_robust-mutexes t i s ∙ g)
        (omega arith) (omega arith) r
]

-- osTimerDelete of the thread's timer touches neither the threads nor the mutexes, nor what the scheduler
-- keeps.
pub record Kept (s s' : System) : Type 0 where
  pub threads : s'.startup_state ≡ s.startup_state
  pub mutexes : s'.startup_mutex_state ≡ s.startup_mutex_state
  pub csrs : s'.mutex_csr ≡ s.mutex_csr
  pub slots : s'.slots ≡ s.slots
  pub tmodes : s'.tmodes ≡ s.tmodes
  pub slot_mutex : s'.slot_mutex ≡ s.slot_mutex

pub delete_at-Kept : (c : Ctx) (i : ℕ) (s : System) → Kept s (delete_at c i s)
unfolding delete_at set_compare
delete_at-Kept c i s = record {
  threads = ground arith;
  mutexes = ground arith;
  csrs = ground arith;
  slots = ground arith;
  tmodes = ground arith;
  slot_mutex = ground arith;
}

pub delete_timer-Kept :
    (c : Ctx) (t : ℕ) (s : System)
    → (s' : System) × (delete_timer c t s ≡ some (Status.ok, s')) × Kept s s'
unfolding delete_timer os_timer_delete
delete_timer-Kept c t s = elim (ℕ_discrete (os_thread_get_timer c t s) null_ptr) [
  | yes e ↦ (
    s,
    ground arith,
    record {
      threads = refl;
      mutexes = refl;
      csrs = refl;
      slots = refl;
      tmodes = refl;
      slot_mutex = refl;
    },
  )
  | no e ↦ (_, ground arith, delete_at-Kept c (get_timer_tid c (os_thread_get_timer c t s)) s)
]

pub thread_clean-steps :
    (c : Ctx) (t : ℕ) (s s2 : System)
    → delete_timer c t (end_thread (get_tid c t) s) ≡ some (Status.ok, s2)
    → thread_clean c t s
      ≡ some (get_tid c t, clear_func (get_tid c t) (release_all t mutex_max_num 0 s2))
unfolding thread_clean
thread_clean-steps c t s s2 p =
    let rest : M ℕ = do
      modify (release_all t mutex_max_num 0)
      modify (clear_func (get_tid c t))
      pure (get_tid c t)
    in ap {A = Option (Status × System)} (λ o. ((λ _. o) >>= λ _. rest) s) p

-- thread_clean of a thread that holds a robust mutex ends, and then the CSR of the mutex says free while
-- its record is as before, and so still names the thread as the owner.
pub thread_clean_orphans :
    (c : Ctx) (t m : ℕ) (s : System)
    → m < mutex_max_num
    → t ≢ null_ptr
    → IsRobustOf t (s.startup_mutex_state m)
    → (s' : System) × (thread_clean c t s ≡ some (get_tid c t, s'))
      × IsOrphaned m s'
      × (s'.startup_mutex_state m ≡ s.startup_mutex_state m)
      × ((s'.startup_mutex_state m).owner ≡ t)
unfolding thread_clean end_thread clear_func
thread_clean_orphans c t m s h n r =
    let s1 = end_thread (get_tid c t) s in
    let (s2, p, k) = delete_timer-Kept c t s1 in
    let s3 = release_all t mutex_max_num 0 s2 in
    let g : s3.startup_mutex_state ≡ s.startup_mutex_state =
      release_all-mutexes t mutex_max_num 0 s2 ∙ k.mutexes in
    let mu : s3.startup_mutex_state m ≡ s.startup_mutex_state m = ap (λ f. f m) g in
    (
      clear_func (get_tid c t) s3,
      thread_clean-steps c t s s2 p,
      record {
        active = ap (λ x. x.active) mu ∙ r.active;
        csr_addr = rw mu r.csr_addr;
        csr = rw mu (
            release_all-frees t mutex_max_num 0 m s.startup_mutex_state s2 k.mutexes (omega arith)
              (omega arith) r);
        owner = λ e. n (sym r.owner ∙ sym (ap (λ x. x.owner) mu) ∙ e);
      },
      mu,
      ap (λ x. x.owner) mu ∙ r.owner,
    )
