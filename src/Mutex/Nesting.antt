-- ===== src/Mutex/Nesting.antt =====
-- Acquiring and releasing by one hart, nested to any depth: from a free mutex back to the same state.
use mathlib.Core.Path.{fun_ext, ap₂}
use flexpret.Common.{
  ℕ, zero, suc, ◌+◌, ◌-◌, ◌^◌, ◌<◌, ◌≡◌, refl, ap, ◌∙◌, true, Option, none, some, arith,
}
use flexpret.State.{Ctx, System, Status, MutexState}
use flexpret.State.Run.{M, ◌>>=◌, pure}
use flexpret.Tid.Laws.{IsPlaced}
use flexpret.Mutex.Ops.{os_mutex_release}
use flexpret.Mutex.Wait.{os_mutex_acquire, os_wait_forever}
use flexpret.Mutex.Laws.{
  IsFree, Holds, held, acquire_free, acquire_again, release_last, release_inner,
}

-- Two states that differ in the mutexes at most.
same_mutexes :
    (s : System) {f f' : ℕ → ℕ} {g g' : ℕ → MutexState}
    → ((i : ℕ) → f i ≡ f' i)
    → ((i : ℕ) → g i ≡ g' i)
    → record s { mutex_csr = f; startup_mutex_state = g }
      ≡ record s { mutex_csr = f'; startup_mutex_state = g' }
same_mutexes s p q =
    ap₂ (λ f g. record s { mutex_csr = f; startup_mutex_state = g }) (fun_ext p) (fun_ext q)

module _ (c : Ctx) (m : ℕ) (s : System) (free : IsFree m s) where
  pub held-Holds : (k : ℕ) → Holds c m k (held c m k s)
  held-Holds k = record {
    active = ground (arith, free.active);
    csr_addr = ground (arith, free.csr_addr);
    csr = ground arith;
    owner = ground arith;
    count = ground arith;
  }

  acquire_held :
      (k timeout : ℕ)
      → (s.startup_mutex_state m).if_recursive ≡ true
      → k + 1 < 2 ^ 32
      → os_mutex_acquire c (some m) timeout (held c m k s) ≡ some (Status.ok, held c m (k + 1) s)
  acquire_held k timeout r h =
      acquire_again c m (held c m k s) k timeout (held-Holds k) (ground arith)
      ∙ ap (λ t. some (Status.ok, t)) (same_mutexes s (λ i. ground arith) (λ i. ground arith))

  release_held :
      (k : ℕ)
      → IsPlaced c
      → 1 < k
      → k < 2 ^ 32
      → os_mutex_release c (some m) (held c m k s) ≡ some (Status.ok, held c m (k - 1) s)
  release_held k v p q =
      release_inner c m (held c m k s) k v (held-Holds k) p q
      ∙ ap (λ t. some (Status.ok, t)) (same_mutexes s (λ i. refl) (λ i. ground arith))

  pub release_held_last :
      IsPlaced c → os_mutex_release c (some m) (held c m 1 s) ≡ some (Status.ok, s)
  release_held_last v =
      release_last c m (held c m 1 s) v (held-Holds 1)
      ∙ ap (λ t. some (Status.ok, t))
          (same_mutexes s (λ i. ground (arith, free.csr))
            (λ i. ground (arith, free.owner, free.count)))

-- One call after the other, as long as each answers osOK.
abbrev pub then_ok : Option (Status × System) → (System → Option System) → Option System
then_ok (some (Status.ok, s)) f = f s
then_ok _ f = none

abbrev pub and_then : Option System → (System → Option System) → Option System
and_then (some s) f = f s
and_then none f = none

unfoldable pub acquire_times : Ctx → ℕ → ℕ → System → Option System
acquire_times c m zero s = some s
acquire_times c m (suc n) s =
    then_ok (os_mutex_acquire c (some m) os_wait_forever s) (acquire_times c m n)

unfoldable pub release_times : Ctx → ℕ → ℕ → System → Option System
release_times c m zero s = some s
release_times c m (suc n) s = then_ok (os_mutex_release c (some m) s) (release_times c m n)

module _ (c : Ctx) (m : ℕ) (s : System) (v : IsPlaced c) (free : IsFree m s) where
  acquire_times-held :
      (n k : ℕ)
      → (s.startup_mutex_state m).if_recursive ≡ true
      → k + n < 2 ^ 32
      → acquire_times c m n (held c m k s) ≡ some (held c m (k + n) s)
  unfolding acquire_times
  acquire_times-held zero k r h = let e : k ≡ k + 0 = omega arith in ap (λ j. some (held c m j s)) e
  acquire_times-held (suc n) k r h =
      rw (acquire_held c m s free k os_wait_forever r (omega arith))
        (acquire_times-held n (k + 1) r (omega arith) ∙ ap (λ j. some (held c m j s)) (omega arith))

  release_times-held :
      (n : ℕ) → n + 1 < 2 ^ 32 → release_times c m (suc n) (held c m (suc n) s) ≡ some s
  unfolding release_times
  release_times-held zero h = rw (release_held_last c m s free v)
  release_times-held (suc n) h =
      rw (release_held c m s free (suc (suc n)) v (omega arith) (omega arith)) (
        ap (λ k. release_times c m (suc n) (held c m k s)) (omega arith)
        ∙ release_times-held n (omega arith))

  -- A hart that acquires a free recursive mutex n + 1 times, for n + 1 below 2 ^ 32, and then releases it
  -- as often, gets osOK every time, and leaves the system exactly as it was.
  pub acquire-release_times :
      (n : ℕ)
      → (s.startup_mutex_state m).if_recursive ≡ true
      → n + 1 < 2 ^ 32
      → and_then (acquire_times c m (suc n) s) (release_times c m (suc n)) ≡ some s
  unfolding acquire_times
  acquire-release_times n r h =
      rw (acquire_free c m s free os_wait_forever, acquire_times-held n 1 r (omega arith))
        (ap (λ k. release_times c m (suc n) (held c m k s)) (omega arith) ∙ release_times-held n h)

-- osMutexAcquire and then osMutexRelease, with both answers.
unfoldable pub acquire_release : Ctx → ℕ → ℕ → M (Status × Status)
acquire_release c m timeout = do
  taken ← os_mutex_acquire c (some m) timeout
  given ← os_mutex_release c (some m)
  pure (taken, given)

-- A hart that acquires a free mutex, recursive or not, with any timeout, and then releases it, gets osOK
-- twice and leaves the system exactly as it was.
acquire_release-free :
    (c : Ctx) (m timeout : ℕ) (s : System)
    → IsPlaced c
    → IsFree m s
    → acquire_release c m timeout s ≡ some ((Status.ok, Status.ok), s)
unfolding acquire_release
acquire_release-free c m timeout s v free =
    rw (acquire_free c m s free timeout, ◌>>=◌, release_held_last c m s free v)
