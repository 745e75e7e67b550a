-- ===== src/Scheduler/Locked.antt =====
-- A critical section of the scheduler, entered while nobody holds the slot mutex, does what its body
-- does, and gives the mutex back.
use flexpret.Common.{ℕ, ◌≡◌, ap, ◌∙◌, some}
use flexpret.State.{Ctx, System, Status}
use flexpret.State.Run.{M, ◌>>=◌}
use flexpret.Tid.Laws.{IsPlaced}
use flexpret.Mutex.Ops.{os_mutex_release}
use flexpret.Mutex.Wait.{os_mutex_acquire, os_wait_forever}
use flexpret.Mutex.Laws.{IsFree, held, acquire_free}
use flexpret.Mutex.Nesting.{release_held_last}
use flexpret.Scheduler.{locked}

-- The hart can enter a critical section at once.
pub record CanLock (c : Ctx) (m : ℕ) (s : System) : Type 0 where
  pub placed : IsPlaced c
  pub slot_mutex : s.slot_mutex ≡ some m
  pub free : IsFree m s

-- The slots and modes replaced.
abbrev pub with_regs : ℕ → ℕ → System → System
with_regs w v s = record s { slots = w; tmodes = v }

pub with_regs-IsFree : (m w v : ℕ) (s : System) → IsFree m s → IsFree m (with_regs w v s)
with_regs-IsFree m w v s f = record {
  active = f.active;
  csr_addr = f.csr_addr;
  csr = f.csr;
  owner = f.owner;
  count = f.count;
}

module _ (c : Ctx) (m : ℕ) (s : System) (lock : CanLock c m s) where
  enter : os_mutex_acquire c s.slot_mutex os_wait_forever s ≡ some (Status.ok, held c m 1 s)
  enter =
      ap (λ i. os_mutex_acquire c i os_wait_forever s) lock.slot_mutex
      ∙ acquire_free c m s lock.free os_wait_forever

  leave :
      (w v : ℕ)
      → os_mutex_release c s.slot_mutex (with_regs w v (held c m 1 s))
        ≡ some (Status.ok, with_regs w v s)
  leave w v =
      ap (λ i. os_mutex_release c i (with_regs w v (held c m 1 s))) lock.slot_mutex
      ∙ release_held_last c m (with_regs w v s) (with_regs-IsFree m w v s lock.free) lock.placed

  pub locked_lem :
      {A : Type 0} (body : M A) (a : A) (w v : ℕ)
      → body (held c m 1 s) ≡ some (a, with_regs w v (held c m 1 s))
      → locked c body s ≡ some (a, with_regs w v s)
  unfolding locked
  locked_lem body a w v e = rw (enter, ◌>>=◌, e, ◌>>=◌, leave w v)
