-- ===== src/Mutex/Refines.antt =====
-- The mutex's code implements the lock: in every order of the harts' calls it gives the same answers.
use mathlib.Core.Path.{subst}
use native.Mathlib.Decide.{ℕ_discrete, dec_lt}
use flexpret.Common.{
  ℕ, ◌+◌, ◌-◌, ◌^◌, ◌<◌, ◌≤◌, ◌≡◌, ◌≢◌, refl, sym, ap, ◌∙◌, true, some, List, [], ◌∷◌, length,
  arith,
}
use flexpret.State.{Ctx, System, Status}
use flexpret.Tid.{os_thread_get_id}
use flexpret.Tid.Laws.{IsPlaced}
use flexpret.Mutex.Ops.{os_mutex_release, count_up}
use flexpret.Mutex.Laws.{
  IsFree, Holds, held, swapped, with_count, released, acquire_free, acquire_again, release_last,
  release_inner,
}
use flexpret.Mutex.Nesting.{held-Holds}
use flexpret.Mutex.Others.{held_excludes}
use flexpret.Mutex.Lock.{Lock, Call, answer, answers, goes_on, add_answer, perform, performs}

-- The contexts of the eight harts, which share the array of threads.
pub record AreHarts (c : ℕ → Ctx) : Type 0 where
  pub placed : (i : ℕ) → i < 8 → IsPlaced (c i)
  pub id : (i : ℕ) → i < 8 → (c i).hartid ≡ i
  pub shared : (i : ℕ) → i < 8 → (c i).startup_state_addr ≡ (c 0).startup_state_addr

module _ (c : ℕ → Ctx) (m : ℕ) where
  -- The lock that a state of the system stands for.
  abbrev IsLock : Lock → System → Type 0
  IsLock Lock.free s = IsFree m s
  IsLock (Lock.taken k n) s = (k < 8) × (0 < n) × Holds (c k) m n s

  -- A state of a recursive mutex that stands for the lock.
  abbrev pub StandsFor : Lock → System → Type 0
  StandsFor l s = ((s.startup_mutex_state m).if_recursive ≡ true) × IsLock l s

  -- The call answers as `r` says, and the next state stands for the lock of `r`.
  abbrev Gives : ℕ → Call → System → Status × Lock → Type 0
  Gives h call s r = (s' : System) × (perform c m h call s ≡ some (r.0, s')) × StandsFor r.1 s'

-- How often the lock is taken.
abbrev pub depth : Lock → ℕ
depth Lock.free = 0
depth (Lock.taken k n) = n

answer-depth : (h : ℕ) (call : Call) (l : Lock) → depth (answer h call l).1 ≤ depth l + 1
answer-depth h Call.acquire Lock.free = omega arith
answer-depth h Call.acquire (Lock.taken k n) = ground arith
answer-depth h Call.release Lock.free = omega arith
answer-depth h Call.release (Lock.taken k n) = ground arith

-- The calls are of the eight harts.
abbrev pub AllHarts : List (ℕ × Call) → Type 0
AllHarts [] = Unit {0}
AllHarts ((h, call) ∷ calls) = (h < 8) × AllHarts calls

module _ (c : ℕ → Ctx) (m : ℕ) (harts : AreHarts c) where
  other_thread : (h k : ℕ) → h < 8 → k < 8 → k ≢ h → os_thread_get_id (c k) ≢ os_thread_get_id (c h)
  other_thread h k p q n e =
      n (omega (arith, e, harts.id h p, harts.id k q, harts.shared h p, harts.shared k q))

  module _ (h : ℕ) (hart : h < 8) (s : System)
      (recursive : (s.startup_mutex_state m).if_recursive ≡ true) where
    acquire-free : IsFree m s → Gives c m h Call.acquire s (Status.ok, Lock.taken h 1)
    acquire-free f = (
      held (c h) m 1 s,
      acquire_free (c h) m s f 0,
      (ground arith, (hart, omega arith, held-Holds (c h) m s f 1)),
    )

    release-free : IsFree m s → Gives c m h Call.release s (Status.error_resource, Lock.free)
    unfolding os_mutex_release
    release-free f = (s, ground (arith, f.active, f.owner), (recursive, f))

    module _ (n : ℕ) (small : n + 1 < 2 ^ 32) (o : Holds (c h) m n s) where
      -- The owner takes it once more.
      acquire-own : Gives c m h Call.acquire s (Status.ok, Lock.taken h (n + 1))
      acquire-own = (
        with_count m (count_up n) (swapped m s),
        acquire_again (c h) m s n 0 o recursive,
        (
          ground arith,
          (
            hart,
            omega arith,
            record {
              active = ground (arith, o.active);
              csr_addr = ground (arith, o.csr_addr);
              csr = ground (arith, o.csr);
              owner = ground (arith, o.owner);
              count = ground arith;
            },
          ),
        ),
      )

      -- The owner gives it back as often as it took it.
      release-last : n ≡ 1 → Gives c m h Call.release s (Status.ok, Lock.free)
      release-last e = (
        released m s,
        release_last (c h) m s (harts.placed h hart) (subst (λ k. Holds (c h) m k s) e o),
        (
          ground arith,
          record {
            active = ground (arith, o.active);
            csr_addr = ground (arith, o.csr_addr);
            csr = ground arith;
            owner = ground arith;
            count = ground arith;
          },
        ),
      )

      release-inner : 1 < n → Gives c m h Call.release s (Status.ok, Lock.taken h (n - 1))
      release-inner q = (
        with_count m (n - 1) s,
        release_inner (c h) m s n (harts.placed h hart) o q (omega arith),
        (
          ground arith,
          (
            hart,
            omega arith,
            record {
              active = ground (arith, o.active);
              csr_addr = ground (arith, o.csr_addr);
              csr = ground (arith, o.csr);
              owner = ground (arith, o.owner);
              count = ground arith;
            },
          ),
        ),
      )

    -- Another hart is refused.
    other :
        (call : Call) (k n : ℕ)
        → k < 8
        → 0 < n
        → k ≢ h
        → Holds (c k) m n s
        → Gives c m h call s (Status.error_resource, Lock.taken k n)
    other Call.acquire k n q p d o =
        let (a, r) = held_excludes (c h) (c k) m n s o (other_thread h k hart q d) in
        (s, a, (recursive, (q, p, o)))
    other Call.release k n q p d o =
        let (a, r) = held_excludes (c h) (c k) m n s o (other_thread h k hart q d) in
        (s, r, (recursive, (q, p, o)))

    gives :
        (call : Call) (l : Lock) (r : Status × Lock)
        → answer h call l ≡ r
        → Gives c m h call s r
        → Gives c m h call s (answer h call l)
    gives call l r e g = subst (Gives c m h call s) (sym e) g

    perform-Gives :
        (call : Call) (l : Lock)
        → depth l + 1 < 2 ^ 32
        → IsLock c m l s
        → Gives c m h call s (answer h call l)
    perform-Gives Call.acquire Lock.free d f = acquire-free f
    perform-Gives Call.release Lock.free d f = release-free f
    perform-Gives Call.acquire (Lock.taken k n) d (q, p, o) = elim (ℕ_discrete k h) [
      | yes e ↦
          gives Call.acquire (Lock.taken k n) (Status.ok, Lock.taken h (n + 1)) (ground arith)
            (acquire-own n d (subst (λ j. Holds (c j) m n s) e o))
      | no e ↦
          gives Call.acquire (Lock.taken k n) (Status.error_resource, Lock.taken k n) (ground arith)
            (other Call.acquire k n q p e o)
    ]
    perform-Gives Call.release (Lock.taken k n) d (q, p, o) = elim (ℕ_discrete k h) [
      | no e ↦
          gives Call.release (Lock.taken k n) (Status.error_resource, Lock.taken k n) (ground arith)
            (other Call.release k n q p e o)
      | yes e ↦
          let o' = subst (λ j. Holds (c j) m n s) e o in
          elim (dec_lt 1 n) [
            | yes more ↦
                gives Call.release (Lock.taken k n) (Status.ok, Lock.taken h (n - 1)) (ground arith)
                  (release-inner n d o' more)
            | no last ↦
                gives Call.release (Lock.taken k n) (Status.ok, Lock.free) (ground arith)
                  (release-last n d o' (omega arith))
          ]
    ]

  performs-steps :
      (h : ℕ) (call : Call) (calls : List (ℕ × Call)) (s t u : System) (st : Status)
      (r : List Status)
      → perform c m h call s ≡ some (st, t)
      → performs c m calls t ≡ some (r, u)
      → performs c m ((h, call) ∷ calls) s ≡ some (st ∷ r, u)
  unfolding performs
  performs-steps h call calls s t u st r p q =
      ap (λ o. goes_on o (performs c m calls)) p ∙ ap (add_answer st) q

  -- On a recursive mutex that is free or held, let the eight harts call osMutexAcquire with timeout 0
  -- and osMutexRelease in any order, so often that it cannot be nested 2 ^ 32 deep: every call answers
  -- what it answers on a lock that is free or taken by one hart a number of times, and the state that is
  -- left stands for that lock.
  pub performs-answers :
      (calls : List (ℕ × Call)) (l : Lock) (s : System)
      → AllHarts calls
      → depth l + length calls < 2 ^ 32
      → StandsFor c m l s
      → (s' : System) × (performs c m calls s ≡ some ((answers calls l).0, s'))
        × StandsFor c m (answers calls l).1 s'
  unfolding answers performs
  performs-answers [] l s a d z = (s, refl, z)
  performs-answers ((h, call) ∷ calls) l s (p, a) d z =
      let (t, e, z') = perform-Gives h p s z.0 call l (omega arith) z.1 in
      let next = (answer h call l).1 in
      let (u, f, y) = performs-answers calls next t a (omega (arith, answer-depth h call l)) z' in
      (u, performs-steps h call calls s t u (answer h call l).0 (answers calls next).0 e f, y)
