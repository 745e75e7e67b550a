-- ===== src/Mutex/Others.antt =====
-- What osMutexAcquire and osMutexRelease do to a mutex that another hart holds, and to one that is free
-- by its CSR and has an owner in memory.
use flexpret.Common.{
  ℕ, ◌<◌, ◌≡◌, ◌≢◌, sym, ap, ◌∙◌, true, some, update, update-update, update_same, arith,
}
use flexpret.State.{Ctx, System, Status, null_ptr}
use flexpret.Tid.{os_thread_get_id}
use flexpret.Mutex.Csr.{csr_active, csr_inactive}
use flexpret.Mutex.Ops.{os_mutex_release}
use flexpret.Mutex.Wait.{os_mutex_acquire, os_wait_forever, wait_forever, after_forever}
use flexpret.Mutex.Laws.{Holds, swapped, swapped_same, acquire_refused}

-- While a hart holds a mutex, another hart that does not wait gets osErrorResource from osMutexAcquire
-- and from osMutexRelease, and neither call changes anything.
pub held_excludes :
    (c d : Ctx) (m k : ℕ) (s : System)
    → Holds d m k s
    → os_thread_get_id d ≢ os_thread_get_id c
    → (os_mutex_acquire c (some m) 0 s ≡ some (Status.error_resource, s))
      × (os_mutex_release c (some m) s ≡ some (Status.error_resource, s))
unfolding os_mutex_release
held_excludes c d m k s h n = (
  acquire_refused c m s h.active h.csr_addr h.csr (λ e. n (sym h.owner ∙ e))
      ∙ ap (λ t. some (Status.error_resource, t)) (swapped_same m s h.csr),
  ground arith,
)

-- A mutex whose CSR says free while its record still names an owner.
pub record IsOrphaned (m : ℕ) (s : System) : Type 0 where
  pub active : (s.startup_mutex_state m).active ≡ true
  pub csr_addr : (s.startup_mutex_state m).csr_addr < 8
  pub csr : s.mutex_csr (s.startup_mutex_state m).csr_addr ≡ csr_active
  pub owner : (s.startup_mutex_state m).owner ≢ null_ptr

orphaned_mutexes :
    (m : ℕ) (s : System)
    → IsOrphaned m s
    → update
        (update s.mutex_csr (s.startup_mutex_state m).csr_addr csr_inactive)
        (s.startup_mutex_state m).csr_addr
        csr_active
      ≡ s.mutex_csr
orphaned_mutexes m s o = update-update _ _ _ _ ∙ update_same s.mutex_csr _ o.csr

-- If the CSR of a mutex says free while its record still names an owner, every hart that tries to
-- acquire it, with any timeout, gets osError, and the call leaves the system as it was.
acquire_orphaned :
    (c : Ctx) (m timeout : ℕ) (s : System)
    → IsOrphaned m s
    → os_mutex_acquire c (some m) timeout s ≡ some (Status.error, s)
unfolding os_mutex_acquire
acquire_orphaned c m timeout s o =
    ground (arith, ap (λ f. record s { mutex_csr = f }) (orphaned_mutexes m s o))

-- osMutexAcquire of a mutex that is held, with osWaitForever, is the loop.
pub acquire_waits :
    (c : Ctx) (m : ℕ) (s : System)
    → (s.startup_mutex_state m).active ≡ true
    → (s.startup_mutex_state m).csr_addr < 8
    → s.mutex_csr (s.startup_mutex_state m).csr_addr ≡ csr_inactive
    → (s.startup_mutex_state m).owner ≢ os_thread_get_id c
    → os_mutex_acquire c (some m) os_wait_forever s
      ≡ after_forever c m (wait_forever c m c.rounds (swapped m s))
unfolding os_mutex_acquire
acquire_waits c m s a b e n = ground arith
