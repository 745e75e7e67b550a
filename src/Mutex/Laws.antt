-- ===== src/Mutex/Laws.antt =====
-- What osMutexAcquire and osMutexRelease do to a free mutex and to one that the caller holds.
use flexpret.Common.{◌∙◌, ℕ, ◌-◌, ◌^◌, ◌<◌, ◌≡◌, ◌≢◌, ap, true, some, update, update_same, arith}
use flexpret.State.{Ctx, System, Status, null_ptr}
use flexpret.Tid.{os_thread_get_id}
use flexpret.Tid.Laws.{IsPlaced}
use flexpret.Mutex.Csr.{csr_active, csr_inactive}
use flexpret.Mutex.Ops.{os_mutex_release, put_mutex, count_up}
use flexpret.Mutex.Wait.{os_mutex_acquire}

-- Nobody has the mutex.
pub record IsFree (m : ℕ) (s : System) : Type 0 where
  pub active : (s.startup_mutex_state m).active ≡ true
  pub csr_addr : (s.startup_mutex_state m).csr_addr < 8
  pub csr : s.mutex_csr (s.startup_mutex_state m).csr_addr ≡ csr_active
  pub owner : (s.startup_mutex_state m).owner ≡ null_ptr
  pub count : (s.startup_mutex_state m).count ≡ 0

pub IsFree-same :
    (m : ℕ) (s s' : System)
    → s'.startup_mutex_state ≡ s.startup_mutex_state
    → s'.mutex_csr ≡ s.mutex_csr
    → IsFree m s
    → IsFree m s'
IsFree-same m s s' e g h = record {
  active = ap (λ f. (f m).active) e ∙ h.active;
  csr_addr = ground (arith, ap (λ f. (f m).csr_addr) e, h.csr_addr);
  csr =
      ap (λ f. s'.mutex_csr (f m).csr_addr) e
      ∙ ap (λ f. f (s.startup_mutex_state m).csr_addr) g
      ∙ h.csr;
  owner = ap (λ f. (f m).owner) e ∙ h.owner;
  count = ap (λ f. (f m).count) e ∙ h.count;
}

-- The state when the hart of `c` has taken mutex m `k` times.
abbrev pub held : Ctx → ℕ → ℕ → System → System
held c m k s = record s {
  mutex_csr = update s.mutex_csr (s.startup_mutex_state m).csr_addr csr_inactive;
  startup_mutex_state =
      update s.startup_mutex_state m
        (record (s.startup_mutex_state m) { owner = os_thread_get_id c; count = k });
}

-- The hart of `c` has taken mutex m `k` times.
pub record Holds (c : Ctx) (m k : ℕ) (s : System) : Type 0 where
  pub active : (s.startup_mutex_state m).active ≡ true
  pub csr_addr : (s.startup_mutex_state m).csr_addr < 8
  pub csr : s.mutex_csr (s.startup_mutex_state m).csr_addr ≡ csr_inactive
  pub owner : (s.startup_mutex_state m).owner ≡ os_thread_get_id c
  pub count : (s.startup_mutex_state m).count ≡ k

abbrev pub with_count : ℕ → ℕ → System → System
with_count m k s = put_mutex m (record (s.startup_mutex_state m) { count = k }) s

abbrev pub released : ℕ → System → System
released m s = record s {
  mutex_csr = update s.mutex_csr (s.startup_mutex_state m).csr_addr csr_active;
  startup_mutex_state =
      update s.startup_mutex_state m
        (record (s.startup_mutex_state m) { owner = null_ptr; count = 0 });
}

-- What a failed swap leaves behind.
abbrev pub swapped : ℕ → System → System
swapped m s = record s {
  mutex_csr = update s.mutex_csr (s.startup_mutex_state m).csr_addr csr_inactive;
}

pub swapped_same :
    (m : ℕ) (s : System)
    → s.mutex_csr (s.startup_mutex_state m).csr_addr ≡ csr_inactive
    → swapped m s ≡ s
swapped_same m s e = ap (λ f. record s { mutex_csr = f }) (update_same s.mutex_csr _ e)

module _ (c : Ctx) (m : ℕ) (s : System) where
  -- Any hart gets a free mutex, whatever the timeout.
  pub acquire_free :
      IsFree m s
      → (timeout : ℕ) → os_mutex_acquire c (some m) timeout s ≡ some (Status.ok, held c m 1 s)
  unfolding os_mutex_acquire
  acquire_free f timeout = ground (arith, f.active, f.csr_addr, f.csr, f.owner)

  pub acquire_again :
      (k timeout : ℕ)
      → Holds c m k s
      → (s.startup_mutex_state m).if_recursive ≡ true
      → os_mutex_acquire c (some m) timeout s
        ≡ some (Status.ok, with_count m (count_up k) (swapped m s))
  unfolding os_mutex_acquire
  acquire_again k timeout h r = ground arith

  pub acquire_refused :
      (s.startup_mutex_state m).active ≡ true
      → (s.startup_mutex_state m).csr_addr < 8
      → s.mutex_csr (s.startup_mutex_state m).csr_addr ≡ csr_inactive
      → (s.startup_mutex_state m).owner ≢ os_thread_get_id c
      → os_mutex_acquire c (some m) 0 s ≡ some (Status.error_resource, swapped m s)
  unfolding os_mutex_acquire
  acquire_refused a b e n = ground arith

  pub release_last :
      IsPlaced c → Holds c m 1 s → os_mutex_release c (some m) s ≡ some (Status.ok, released m s)
  unfolding os_mutex_release
  release_last v h = ground arith

  pub release_inner :
      (k : ℕ)
      → IsPlaced c
      → Holds c m k s
      → 1 < k
      → k < 2 ^ 32
      → os_mutex_release c (some m) s ≡ some (Status.ok, with_count m (k - 1) s)
  unfolding os_mutex_release
  release_inner k v h p q = ground arith
