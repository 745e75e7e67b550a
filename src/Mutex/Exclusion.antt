-- ===== src/Mutex/Exclusion.antt =====
-- A mutex that another hart keeps: osMutexAcquire with any timeout, and osMutexRelease.
use mathlib.Core.Path.{subst}
use native.Mathlib.Decide.{ℕ_discrete}
use flexpret.Common.{
  ℕ, zero, suc, ◌+◌, ◌%◌, ◌≡◌, ◌≢◌, ◌⊎◌, inl, inr, refl, sym, ap, ◌∙◌, Bool, true, false,
  Bool-cases, Option, none, some, ltb, if◌then◌else◌, arith,
}
use flexpret.State.{Ctx, System, Status, wait_period, u32_mod}
use flexpret.Tid.{os_thread_get_id}
use flexpret.Timing.{get_time, set_compare, delay_until_periodic}
use flexpret.Mutex.Ops.{os_mutex_release}
use flexpret.Mutex.Wait.{
  os_mutex_acquire, os_wait_forever, wait_forever, spin_until, poll_until, sleep, acquire_taken,
  after_wait, after_forever,
}
use flexpret.Mutex.Laws.{Holds, swapped, swapped_same}
use flexpret.Mutex.Others.{held_excludes, acquire_waits}

module _ (c d : Ctx) (m k : ℕ)
    (stays : (n : ℕ) (t : System) → Holds d m k t → Holds d m k (c.others n t)) where
  -- A sleep of the hart that waits
  sleep-Holds : (n ticks : ℕ) (s : System) → Holds d m k s → Holds d m k (sleep c n ticks s)
  unfolding delay_until_periodic set_compare
  sleep-Holds n ticks s h = stays n (set_compare c ((get_time s + ticks) % u32_mod) s) (record {
    active = h.active;
    csr_addr = h.csr_addr;
    csr = h.csr;
    owner = h.owner;
    count = h.count;
  })

  swapped-Holds : (s : System) → Holds d m k s → Holds d m k (swapped m s)
  swapped-Holds s h = subst (Holds d m k) (sym (swapped_same m s h.csr)) h

  if-Holds :
      (b : Bool) (x y : System) → Holds d m k x → Holds d m k y → Holds d m k (if b then x else y)
  if-Holds true x y p q = p
  if-Holds false x y p q = q

  wait_forever-none : (n : ℕ) (s : System) → Holds d m k s → wait_forever c m n s ≡ none
  unfolding wait_forever
  wait_forever-none zero s h = refl
  wait_forever-none (suc n) s h =
      let u = swapped-Holds s h in
      let pause =
        if ((swapped m s).startup_mutex_state m).if_spin
        then c.others n (swapped m s)
        else sleep c n wait_period (swapped m s) in
      let rest =
        wait_forever-none n pause
          (if-Holds _ _ _ (stays n (swapped m s) u) (sleep-Holds n wait_period (swapped m s) u)) in
      ground (arith, h.csr, h.csr_addr, rest)

  -- A wait that ends with a timeout, and the mutex with its owner, or needs more rounds than are followed
  abbrev TimedOut : Option (Bool × System) → Type 0
  TimedOut r = (r ≡ none) ⊎ ((t : System) × (r ≡ some (false, t)) × Holds d m k t)

  spin_step :
      (deadline n : ℕ) (s : System)
      → Holds d m k s
      → spin_until c m deadline (suc n) s ≡ (
          if ltb (get_time (c.others n (swapped m s))) deadline
          then spin_until c m deadline n (c.others n (swapped m s))
          else some (false, c.others n (swapped m s)))
  unfolding spin_until
  spin_step deadline n s h = ground (arith, h.csr, h.csr_addr)

  if-TimedOut :
      (b : Bool) (r : Option (Bool × System)) (t : System)
      → TimedOut r
      → Holds d m k t
      → TimedOut (if b then r else some (false, t))
  if-TimedOut true r t p h = p
  if-TimedOut false r t p h = inr (t, refl, h)

  spin_until-TimedOut :
      (deadline n : ℕ) (s : System) → Holds d m k s → TimedOut (spin_until c m deadline n s)
  unfolding spin_until
  spin_until-TimedOut deadline zero s h = inl refl
  spin_until-TimedOut deadline (suc n) s h =
      let later = c.others n (swapped m s) in
      let u = stays n (swapped m s) (swapped-Holds s h) in
      subst TimedOut (sym (spin_step deadline n s h)) (
        if-TimedOut (ltb (get_time later) deadline) (spin_until c m deadline n later) later
          (spin_until-TimedOut deadline n later u) u)

  poll_step :
      (timeout period all_time n : ℕ) (s : System)
      → Holds d m k (sleep c n period s)
      → poll_until c m timeout period all_time (suc n) s ≡ (
          if ltb ((all_time + period) % u32_mod) timeout
          then poll_until c m timeout period
              ((all_time + period) % u32_mod)
              n
              (swapped m (sleep c n period s))
          else some (false, swapped m (sleep c n period s)))
  unfolding poll_until
  poll_step timeout period all_time n s h = ground (arith, h.csr, h.csr_addr)

  poll_until-TimedOut :
      (timeout period all_time n : ℕ) (s : System)
      → Holds d m k s
      → TimedOut (poll_until c m timeout period all_time n s)
  unfolding poll_until
  poll_until-TimedOut timeout period all_time zero s h = inl refl
  poll_until-TimedOut timeout period all_time (suc n) s h =
      let total = (all_time + period) % u32_mod in
      let woken = sleep c n period s in
      let u = sleep-Holds n period s h in
      let v = swapped-Holds woken u in
      subst TimedOut (sym (poll_step timeout period all_time n s u)) (
        if-TimedOut (ltb total timeout) (poll_until c m timeout period total n (swapped m woken))
          (swapped m woken) (poll_until-TimedOut timeout period total n (swapped m woken) v) v)

  after_wait-TimedOut :
      (r : Option (Bool × System))
      → TimedOut r
      → (after_wait c m r ≡ none)
        ⊎ ((t : System) × (after_wait c m r ≡ some (Status.error_timeout, t)) × Holds d m k t)
  unfolding after_wait
  after_wait-TimedOut r (inl e) = inl (ap (after_wait c m) e)
  after_wait-TimedOut r (inr (t, e, h)) = inr (t, ap (after_wait c m) e, h)

  acquire_step :
      (timeout : ℕ) (s : System)
      → Holds d m k s
      → os_thread_get_id d ≢ os_thread_get_id c
      → os_mutex_acquire c (some m) timeout s ≡ acquire_taken c m timeout (swapped m s)
  unfolding os_mutex_acquire
  acquire_step timeout s h n = ground (arith, h.active, h.csr, h.csr_addr)

  timed_wait :
      (timeout : ℕ) (s : System)
      → Holds d m k s
      → os_thread_get_id d ≢ os_thread_get_id c
      → timeout ≢ 0
      → timeout ≢ os_wait_forever
      → (r : Option (Bool × System)) × TimedOut r × (acquire_taken c m timeout s ≡ after_wait c m r)
  unfolding acquire_taken
  timed_wait timeout s h n z f = elim (Bool-cases (s.startup_mutex_state m).if_spin) [
    | inl e ↦ (
      spin_until c m ((timeout + get_time s) % u32_mod) c.rounds s,
      spin_until-TimedOut _ c.rounds s h,
      ground (arith, h.owner),
    )
    | inr e ↦
        let period = if ltb wait_period timeout then wait_period else timeout in
        (
          poll_until c m timeout period 0 c.rounds s,
          poll_until-TimedOut timeout period 0 c.rounds s h,
          ground (arith, h.owner),
        )
  ]

-- What osMutexAcquire answers: osErrorResource at once without a wait, nothing in a wait without an end, and
-- osErrorTimeout, or not yet anything, in a wait with a timeout. The mutex stays with its owner.
pub Refused : Ctx → ℕ → ℕ → ℕ → System → Option (Status × System) → Type 0
Refused d m k timeout s r =
    ((timeout ≡ 0) × (r ≡ some (Status.error_resource, s)))
    ⊎ ((timeout ≡ os_wait_forever) × (r ≡ none))
    ⊎ ((timeout ≢ 0)
        × (timeout ≢ os_wait_forever)
        × ((r ≡ none) ⊎ ((t : System) × (r ≡ some (Status.error_timeout, t)) × Holds d m k t)))

-- While another hart holds a mutex, and keeps it in whatever the other harts do between two rounds of a wait,
-- osMutexAcquire never answers osOK, with no timeout: it answers osErrorResource and changes nothing for 0, it does
-- not end for osWaitForever, and for any other timeout it answers osErrorTimeout, if it ends in the rounds that are
-- followed, with the mutex still that hart's. osMutexRelease answers osErrorResource and changes nothing.
pub os_mutex_acquire-Refused :
    (c d : Ctx) (m k timeout : ℕ) (s : System)
    → Holds d m k s
    → os_thread_get_id d ≢ os_thread_get_id c
    → ((n : ℕ) (t : System) → Holds d m k t → Holds d m k (c.others n t))
    → Refused d m k timeout s (os_mutex_acquire c (some m) timeout s)
      × (os_mutex_release c (some m) s ≡ some (Status.error_resource, s))
unfolding Refused after_forever
os_mutex_acquire-Refused c d m k timeout s h n stays =
    let (now, release) = held_excludes c d m k s h n in
    (
      elim (ℕ_discrete timeout 0) [
        | yes z ↦ inl (z, ap (λ x. os_mutex_acquire c (some m) x s) z ∙ now)
        | no z ↦ elim (ℕ_discrete timeout os_wait_forever) [
          | yes f ↦ inr (
              inl (
                f,
                ap (λ x. os_mutex_acquire c (some m) x s) f
                    ∙ acquire_waits c m s h.active h.csr_addr h.csr (λ e. n (sym h.owner ∙ e))
                    ∙ ap (after_forever c m) (
                        wait_forever-none c d m k stays c.rounds (swapped m s)
                          (swapped-Holds c d m k stays s h)),
              ))
          | no f ↦
              let u = swapped-Holds c d m k stays s h in
              let (r, t, e) = timed_wait c d m k stays timeout (swapped m s) u n z f in
              let q = acquire_step c d m k stays timeout s h n ∙ e in
              inr (
                inr (
                  z,
                  f,
                  elim (after_wait-TimedOut c d m k stays r t) [
                    | inl p ↦ inl (q ∙ p)
                    | inr (x, p, y) ↦ inr (x, q ∙ p, y)
                  ],
                ))
        ]
      ],
      release,
    )
