-- ===== src/Mutex/Progress.antt =====
-- The wait of osMutexAcquire with osWaitForever ends once the mutex is released.
use mathlib.Core.Path.{subst}
use native.Mathlib.Decide.{dec_lt}
use flexpret.Common.{
  ℕ, zero, suc, ◌+◌, ◌%◌, ◌<◌, ◌≡◌, ◌≢◌, refl, sym, ◌∙◌, false, some, inl, inr, Bool-cases, ◌==◌,
  if◌then◌else◌, arith,
}
use flexpret.State.{Ctx, System, Status, wait_period, u32_mod}
use flexpret.Tid.{os_thread_get_id}
use flexpret.Timing.{get_time, set_compare, delay_until_periodic}
use flexpret.Mutex.Csr.{csr_active}
use flexpret.Mutex.Wait.{
  os_mutex_acquire, os_wait_forever, wait_forever, sleep, take, after_forever,
}
use flexpret.Mutex.Laws.{Holds, swapped}
use flexpret.Mutex.Others.{acquire_waits}

-- The CSR of mutex m.
abbrev pub addr_of : ℕ → System → ℕ
addr_of m s = (s.startup_mutex_state m).csr_addr

-- Mutex m is still there, with the same CSR; owner and count may be others.
abbrev pub Keeps : ℕ → System → System → Type 0
Keeps m s t =
    (addr_of m t ≡ addr_of m s)
    × ((t.startup_mutex_state m).active ≡ (s.startup_mutex_state m).active)

-- What is asked of the other harts: they do not delete the mutex, and with `i` rounds of the wait left
-- they have released it.
pub record Releases (c : Ctx) (m i : ℕ) : Type 0 where
  pub in_time : (0 < i) × (i < c.rounds)
  pub keeps : (n : ℕ) (s : System) → Keeps m s (c.others n s)
  pub released : (s : System) → (c.others i s).mutex_csr (addr_of m s) ≡ csr_active

-- What one round leaves for the next: the hart that spins lets the others run, and the one that does not sleeps for
-- the period.
pub next_round : Ctx → ℕ → ℕ → System → System
next_round c m n s =
    if ((swapped m s).startup_mutex_state m).if_spin
    then c.others n (swapped m s)
    else sleep c n wait_period (swapped m s)

wait_round :
    (c : Ctx) (m n : ℕ) (s : System)
    → addr_of m s < 8
    → wait_forever c m (suc n) s ≡ (
        if s.mutex_csr (addr_of m s) == csr_active
        then some (swapped m s)
        else wait_forever c m n (next_round c m n s))
unfolding wait_forever next_round
wait_round c m n s h = ground arith

not_free : (a b : ℕ) → (a == b) ≡ false → a ≢ b
not_free a b e p = ground arith

-- The rounds of a wait, with `n` of them left: in each round the CSR says that the mutex is held, until it says free
-- in the state t.
pub data Polls (c : Ctx) (m : ℕ) : ℕ → System → System → Type 0 where
  free_now : {n : ℕ} {t : System} → t.mutex_csr (addr_of m t) ≡ csr_active → Polls c m n t t
  one_more :
      {n : ℕ} {s t : System}
      → s.mutex_csr (addr_of m s) ≢ csr_active
      → Polls c m n (next_round c m n s) t
      → Polls c m (suc n) s t

module _ (c : Ctx) (m i : ℕ) (r : Releases c m i) where
  -- The state in which a hart that does not spin goes to sleep.
  abbrev asleep : System → System
  asleep s = set_compare c ((get_time s + wait_period) % u32_mod) (swapped m s)

  next_round_record : (n : ℕ) (s : System) → Keeps m s (next_round c m n s)
  unfolding next_round delay_until_periodic
  next_round_record n s = elim (Bool-cases (s.startup_mutex_state m).if_spin) [
    | inl e ↦ simp e (r.keeps n (swapped m s))
    | inr e ↦ simp e (r.keeps n (asleep s))
  ]

  next_round_released : (s : System) → (next_round c m i s).mutex_csr (addr_of m s) ≡ csr_active
  unfolding next_round delay_until_periodic
  next_round_released s = elim (Bool-cases (s.startup_mutex_state m).if_spin) [
    | inl e ↦ simp e (r.released (swapped m s))
    | inr e ↦ simp e (r.released (asleep s))
  ]

  -- The outcome of the wait: some round found the CSR free and took it.
  abbrev Taken : ℕ → System → Type 0
  Taken n s =
      (t : System) × Polls c m n s t × (wait_forever c m n s ≡ some (swapped m t)) × Keeps m s t

  take_now :
      (n : ℕ) (s : System)
      → 0 < n
      → addr_of m s < 8
      → s.mutex_csr (addr_of m s) ≡ csr_active
      → Taken n s
  take_now zero s p h e = absurd (omega arith)
  take_now (suc n) s p h e =
      (s, Polls.free_now e, wait_round c m n s h ∙ ground arith, (refl, refl))

  take_later :
      (n : ℕ) (s : System)
      → addr_of m s < 8
      → (s.mutex_csr (addr_of m s) == csr_active) ≡ false
      → Taken n (next_round c m n s)
      → Taken (suc n) s
  take_later n s h e (t, w, p, q) =
      let k = next_round_record n s in
      (
        t,
        Polls.one_more (not_free (s.mutex_csr (addr_of m s)) csr_active e) w,
        wait_round c m n s h ∙ rw e p,
        (q.0 ∙ k.0, q.1 ∙ k.1),
      )

  addr_next : (n : ℕ) (s : System) → addr_of m (next_round c m n s) ≡ addr_of m s
  addr_next n s = (next_round_record n s).0

  released_next :
      (n : ℕ) (s : System)
      → i ≡ n
      → (next_round c m n s).mutex_csr (addr_of m (next_round c m n s)) ≡ csr_active
  released_next n s e = rw (addr_next n s) (
      subst (λ j. (next_round c m j s).mutex_csr (addr_of m s) ≡ csr_active) e
        (next_round_released s))

  wait_forever-Taken : (n : ℕ) (s : System) → addr_of m s < 8 → i < n → Taken n s
  wait_forever-Taken zero s h q = absurd (omega arith)
  wait_forever-Taken (suc n) s h q = elim (Bool-cases (s.mutex_csr (addr_of m s) == csr_active)) [
    | inl free ↦ take_now (suc n) s (omega arith) h (ground arith)
    | inr held ↦ take_later n s h held (elim (dec_lt i n) [
      | yes more ↦ wait_forever-Taken n (next_round c m n s) (rw (addr_next n s) h) more
      | no last ↦
          let e : i ≡ n = omega arith in
          take_now n (next_round c m n s) (omega (arith, r.in_time)) (rw (addr_next n s) h)
            (released_next n s e)
    ])
  ]

Polls-free :
    (c : Ctx) (m n : ℕ) (s t : System) → Polls c m n s t → t.mutex_csr (addr_of m t) ≡ csr_active
Polls-free c m n s t (Polls.free_now e) = e
Polls-free c m (suc n) s t (Polls.one_more h w) = Polls-free c m n _ t w

-- If another hart holds a mutex, and the other harts keep the mutex and release it in a round of the wait
-- that is followed, then osMutexAcquire with osWaitForever answers osOK, and the mutex is the caller's,
-- taken once. The state t from which it takes the mutex is the first one, round by round of the wait, whose CSR
-- says that the mutex is free.
pub acquire_waits_until_released :
    (c d : Ctx) (m i k : ℕ) (s : System)
    → Releases c m i
    → Holds d m k s
    → os_thread_get_id d ≢ os_thread_get_id c
    → (t : System) × Polls c m c.rounds (swapped m s) t
      × (t.mutex_csr (addr_of m t) ≡ csr_active)
      × (os_mutex_acquire c (some m) os_wait_forever s ≡ some (Status.ok, take c m (swapped m t)))
      × Holds c m 1 (take c m (swapped m t))
unfolding after_forever take
acquire_waits_until_released c d m i k s r h n =
    let (t, w, p, q) = wait_forever-Taken c m i r c.rounds (swapped m s) h.csr_addr r.in_time.1 in
    (
      t,
      w,
      Polls-free c m c.rounds (swapped m s) t w,
      acquire_waits c m s h.active h.csr_addr h.csr (λ e. n (sym h.owner ∙ e)) ∙ rw p,
      record {
        active = ground (arith, q.1, h.active);
        csr_addr = ground (arith, q.0, h.csr_addr);
        csr = ground arith;
        owner = ground arith;
        count = ground arith;
      },
    )
