-- ===== src/Thread/JoinAll.antt =====
-- osThreadJoinAll waits until the threads of its list have ended, and terminates each of them.
use mathlib.Core.Path.{subst}
use native.Mathlib.Decide.{dec_lt}
use flexpret.Common.{
  ℕ, zero, suc, ◌<◌, ◌≤◌, ◌≡◌, inl, inr, refl, ap, ◌∙◌, true, false, Bool-cases, ◌==◌, some, List,
  ltb, length, arith,
}
use flexpret.Common.Flags.{bit, no_bits}
use flexpret.State.{Ctx, System, Status}
use flexpret.Scheduler.Harts.{is_live}
use flexpret.Scheduler.Service.{live_same}
use flexpret.Thread.Exit.{IsCalm}
use flexpret.Thread.Join.{join_flags, join_round, join_rounds, os_thread_join_all}
use flexpret.Thread.JoinRound.{
  bit-zero, AllThreads, AllEnded, HasTid, has_tid, OnlyTids, join_flags-OnlyTids, ClearedEnded,
  join_flags-HasTid, AllEnded-each, join_round-Rounded, Rounded,
}

-- What is asked of the other harts while one waits for the threads of the list: between two rounds they
-- leave the slot mutex free and every live hart served, and do not start a thread of the list again, and with `i`
-- rounds left all of them have ended.
pub record AllExit (c : Ctx) (m : ℕ) (ts : List ℕ) (i : ℕ) : Type 0 where
  pub in_time : (1 < i) × (i < c.rounds)
  pub calm : (n : ℕ) (s : System) → IsCalm c m s → IsCalm c m (c.others n s)
  pub done : (s : System) → IsCalm c m s → AllEnded c ts (c.others i s)
  pub stay :
      (n : ℕ) (s : System) (j : ℕ)
      → IsCalm c m s
      → HasTid c j ts
      → is_live j s ≡ false
      → is_live j (c.others n s) ≡ false

module _ (c : Ctx) (m i : ℕ) (ts : List ℕ) (tids : AllThreads c ts) (x : AllExit c m ts i) where
  -- The wait ends, with every live hart served.
  abbrev Joined : ℕ → ℕ → System → Type 0
  Joined n flag s =
      (s' : System) × (join_rounds c ts n flag s ≡ some s') × AllEnded c ts s' × IsCalm c m s'

  OnlyTids-fewer :
      (flag flag' : ℕ)
      → OnlyTids c ts flag
      → ((j : ℕ) → bit j flag' ≤ bit j flag)
      → OnlyTids c ts flag'
  OnlyTids-fewer flag flag' o f j n = omega (arith, o j n, f j)

  -- A round in which all threads have ended leaves no flag.
  no_flag :
      (flag flag' : ℕ) (s s' : System)
      → OnlyTids c ts flag
      → AllEnded c ts s
      → Rounded c ts flag s flag' s'
      → flag' ≡ 0
  no_flag flag flag' s s' o e r = no_bits flag' flag' (omega arith) (λ j. elim (has_tid c j ts) [
    | inl h ↦ r.cleared e j h
    | inr n ↦ OnlyTids-fewer flag flag' o r.fewer j n
  ])

  -- A round, and what the others do after it, keep that a cleared flag means an end.
  Rounded-ClearedEnded :
      (n flag flag' : ℕ) (s s' : System)
      → Rounded c ts flag s flag' s'
      → IsCalm c m s'
      → ClearedEnded c ts flag s
      → ClearedEnded c ts flag' (c.others n s')
  Rounded-ClearedEnded n flag flag' s s' r w k j h b =
      x.stay n s' j w h
        (live_same j s s' r.regs ∙ elim (r.ended j b) [ inl q ↦ k j h q | inr d ↦ d ])

  Joined-now :
      (n flag : ℕ) (s : System)
      → 0 < n
      → flag ≡ 0
      → ClearedEnded c ts flag s
      → IsCalm c m s
      → Joined n flag s
  unfolding join_rounds
  Joined-now zero flag s p e k calm = absurd (omega arith)
  Joined-now (suc n) flag s p e k calm =
      let f : (flag == 0) ≡ true = ground arith in
      (s, rw f refl, AllEnded-each c ts s (λ j h. k j h (ap (bit j) e ∙ bit-zero j)), calm)

  Joined-later :
      (n flag flag' : ℕ) (s s' : System)
      → (flag == 0) ≡ false
      → join_round c ts flag s ≡ some (flag', s')
      → Joined n flag' (c.others n s')
      → Joined (suc n) flag s
  unfolding join_rounds
  Joined-later n flag flag' s s' f e (u, p, d, calm) = (u, rw (f, e) p, d, calm)

  -- All threads have ended: one round more, at most.
  Joined-last :
      (n flag : ℕ) (s : System)
      → 1 < n
      → OnlyTids c ts flag
      → AllEnded c ts s
      → ClearedEnded c ts flag s
      → IsCalm c m s
      → Joined n flag s
  Joined-last zero flag s p o e k calm = absurd (omega arith)
  Joined-last (suc n) flag s p o e k calm = elim (Bool-cases (flag == 0)) [
    | inl f ↦ Joined-now (suc n) flag s (omega arith) (ground arith) k calm
    | inr f ↦
        let (flag', s', q, w, r) = join_round-Rounded c m ts flag s tids calm in
        Joined-later n flag flag' s s' f q (
          Joined-now n flag' (c.others n s') (omega arith) (no_flag flag flag' s s' o e r)
            (Rounded-ClearedEnded n flag flag' s s' r w k) (x.calm n s' w))
  ]

  join_rounds-Joined :
      (n flag : ℕ) (s : System)
      → i < n
      → OnlyTids c ts flag
      → ClearedEnded c ts flag s
      → IsCalm c m s
      → Joined n flag s
  join_rounds-Joined zero flag s p o k calm = absurd (omega arith)
  join_rounds-Joined (suc n) flag s p o k calm = elim (Bool-cases (flag == 0)) [
    | inl f ↦ Joined-now (suc n) flag s (omega arith) (ground arith) k calm
    | inr f ↦
        let (flag', s', q, w, r) = join_round-Rounded c m ts flag s tids calm in
        let o' = OnlyTids-fewer flag flag' o r.fewer in
        let k' = Rounded-ClearedEnded n flag flag' s s' r w k in
        Joined-later n flag flag' s s' f q (elim (dec_lt i n) [
          | yes more ↦ join_rounds-Joined n flag' (c.others n s') more o' k' (x.calm n s' w)
          | no last ↦
              let e : i ≡ n = omega arith in
              Joined-last n flag' (c.others n s') (omega (arith, x.in_time)) o'
                (subst (λ k. AllEnded c ts (c.others k s')) e (x.done s' w)) k' (x.calm n s' w)
        ])
  ]

-- If the slot mutex is free, every live hart has a slot to run in, and while osThreadJoinAll waits the
-- other harts keep this so and the threads of the list, at most eight, end in time and stay so, then
-- osThreadJoinAll ends with osOK. Then all threads of the list have ended, the slot mutex is free and every live hart
-- has a slot to run in.
pub os_thread_join_all-ends :
    (c : Ctx) (m i : ℕ) (ts : List ℕ) (s : System)
    → AllThreads c ts
    → length ts ≤ 8
    → IsCalm c m s
    → AllExit c m ts i
    → (s' : System) × (os_thread_join_all c ts s ≡ some (Status.ok, s'))
      × AllEnded c ts s'
      × IsCalm c m s'
unfolding os_thread_join_all
os_thread_join_all-ends c m i ts s tids few calm x =
    let fits : ltb 8 (length ts) ≡ false = ground arith in
    let (s', e, d, w) =
      join_rounds-Joined c m i ts tids x c.rounds (join_flags c ts) s x.in_time.1
        (join_flags-OnlyTids c ts) (λ j h b. absurd (omega (arith, join_flags-HasTid c ts j h)))
        calm in
    (s', rw (fits, e) refl, d, w)
