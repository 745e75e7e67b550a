-- ===== src/Thread/Clean/Ends.antt =====
-- thread_clean ends a thread: every part of the state after it.
use flexpret.Common.{
  ℕ, zero, suc, ◌+◌, ◌<◌, ◌≡◌, ◌≢◌, refl, ap, ◌∙◌, false, not, Bool-cases, inl, inr, some, ◌==◌,
  arith,
}
use flexpret.State.{Ctx, System, Status, ThreadState, null_ptr, mutex_max_num, timer_addr}
use flexpret.Tid.{get_tid}
use flexpret.Tid.Laws.{IsPlaced, get_timer_tid-timer_addr}
use flexpret.Mutex.Csr.{csr_active, write_mutex_csr}
use flexpret.Timer.{is_active, is_null, os_thread_get_timer, os_timer_delete, delete_at}
use flexpret.Timing.{set_compare}
use flexpret.Thread.Stack.{init_stack_addr}
use flexpret.Thread.Clean.{
  release_robust, release_all, thread_clean, end_thread, delete_timer, clear_func,
}
use flexpret.Thread.Clean.Laws.{
  Kept, delete_at-Kept, thread_clean-steps, release_all-mutexes, release_all-free,
}

-- The loop over the mutexes leaves everything else.
record OnlyCsrs (s s' : System) : Type 0 where
  threads : s'.startup_state ≡ s.startup_state
  slots : s'.slots ≡ s.slots
  tmodes : s'.tmodes ≡ s.tmodes
  slot_mutex : s'.slot_mutex ≡ s.slot_mutex
  timers : s'.timer_attr_entry ≡ s.timer_attr_entry

release_robust-OnlyCsrs : (t i : ℕ) (s : System) → OnlyCsrs s (release_robust t i s)
unfolding release_robust write_mutex_csr
release_robust-OnlyCsrs t i s = record {
  threads = ground arith;
  slots = ground arith;
  tmodes = ground arith;
  slot_mutex = ground arith;
  timers = ground arith;
}

release_all-OnlyCsrs : (t n i : ℕ) (s : System) → OnlyCsrs s (release_all t n i s)
unfolding release_all
release_all-OnlyCsrs t zero i s = record {
  threads = refl;
  slots = refl;
  tmodes = refl;
  slot_mutex = refl;
  timers = refl;
}
release_all-OnlyCsrs t (suc n) i s =
    let a = release_robust-OnlyCsrs t i s in
    let b = release_all-OnlyCsrs t n (i + 1) (release_robust t i s) in
    record {
      threads = b.threads ∙ a.threads;
      slots = b.slots ∙ a.slots;
      tmodes = b.tmodes ∙ a.tmodes;
      slot_mutex = b.slot_mutex ∙ a.slot_mutex;
      timers = b.timers ∙ a.timers;
    }

-- The thread of hart tid has ended, its timer is deleted, and a mutex that was free is free. The scheduler's
-- registers and the other threads are as before.
pub record Cleaned (tid : ℕ) (s s' : System) : Type 0 where
  pub func : (s'.startup_state tid).func ≡ null_ptr
  pub arg : (s'.startup_state tid).arg ≡ null_ptr
  pub state : (s'.startup_state tid).state ≡ ThreadState.terminated
  pub stack : (s'.startup_state tid).stack_address ≡ init_stack_addr tid
  pub others : (j : ℕ) → j ≢ tid → s'.startup_state j ≡ s.startup_state j
  pub timer : is_active tid s' ≡ false
  pub mutexes : s'.startup_mutex_state ≡ s.startup_mutex_state
  pub csrs : (a : ℕ) → s.mutex_csr a ≡ csr_active → s'.mutex_csr a ≡ csr_active
  pub slots : s'.slots ≡ s.slots
  pub tmodes : s'.tmodes ≡ s.tmodes
  pub slot_mutex : s'.slot_mutex ≡ s.slot_mutex

-- osTimerDelete takes the timer's attributes away.
delete_at-inactive : (c : Ctx) (i : ℕ) (s : System) → is_active i (delete_at c i s) ≡ false
unfolding delete_at set_compare
delete_at-inactive c i s = ground arith

-- The timer of the thread is deleted, if there is one.
delete_timer-Deleted :
    (c : Ctx) (t : ℕ) (s : System)
    → IsPlaced c
    → get_tid c t < 8
    → (s' : System) × (delete_timer c t s ≡ some (Status.ok, s'))
      × Kept s s'
      × (is_active (get_tid c t) s' ≡ false)
unfolding delete_timer os_thread_get_timer os_timer_delete
delete_timer-Deleted c t s v h =
    let tid = get_tid c t in
    elim (Bool-cases (is_active tid s)) [
      | inr off ↦ (
        s,
        rw off refl,
        record {
          threads = refl;
          mutexes = refl;
          csrs = refl;
          slots = refl;
          tmodes = refl;
          slot_mutex = refl;
        },
        off,
      )
      | inl on ↦
          let n : (timer_addr c tid == null_ptr) ≡ false = ground (arith, v.timers_low) in
          let e = get_timer_tid-timer_addr c tid v h in
          (
            delete_at c tid s,
            rw (on, n, e) refl,
            delete_at-Kept c tid s,
            delete_at-inactive c tid s,
          )
    ]

-- thread_clean of a thread of one of the eight harts ends, and leaves it so.
pub thread_clean-Cleaned :
    (c : Ctx) (t : ℕ) (s : System)
    → IsPlaced c
    → get_tid c t < 8
    → (s' : System) × (thread_clean c t s ≡ some (get_tid c t, s')) × Cleaned (get_tid c t) s s'
unfolding end_thread clear_func
thread_clean-Cleaned c t s v h =
    let tid = get_tid c t in
    let s1 = end_thread tid s in
    let (s2, p, k, off) = delete_timer-Deleted c t s1 v h in
    let s3 = release_all t mutex_max_num 0 s2 in
    let o = release_all-OnlyCsrs t mutex_max_num 0 s2 in
    let threads : s3.startup_state ≡ s1.startup_state = o.threads ∙ k.threads in
    (
      clear_func tid s3,
      thread_clean-steps c t s s2 p,
      record {
        func = ground arith;
        arg = ground (arith, ap (λ f. (f tid).arg) threads);
        state = ground (arith, ap (λ f. (f tid).state) threads);
        stack = ground (arith, ap (λ f. (f tid).stack_address) threads);
        others = λ j n. ground (arith, ap (λ f. f j) threads);
        timer = ap (λ f. not (is_null (f tid))) o.timers ∙ off;
        mutexes = release_all-mutexes t mutex_max_num 0 s2 ∙ k.mutexes;
        csrs = λ a e. release_all-free t mutex_max_num 0 a s2 (ap (λ f. f a) k.csrs ∙ e);
        slots = o.slots ∙ k.slots;
        tmodes = o.tmodes ∙ k.tmodes;
        slot_mutex = o.slot_mutex ∙ k.slot_mutex;
      },
    )
