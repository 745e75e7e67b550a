-- ===== src/Scheduler/Create.antt =====
-- thread_after_create, for the two priorities that are supported.
use native.Mathlib.Decide.{ℕ_discrete}
use flexpret.Common.{
  ℕ, ◌%◌, ◌<◌, ◌≡◌, ◌≢◌, refl, sym, ap, ◌∙◌, true, false, ◌==◌, set, if◌then◌else◌, arith, inl, inr,
  ◌⊎◌,
}
use flexpret.State.{Ctx, System, Status, Priority, AttrPtr}
use flexpret.State.Run.{M}
use flexpret.Slots.{slot_s, slot_d, set_slot_num, count_slots, get_slots}
use flexpret.Slots.Assign.{slots_of, Room, set_slot_num_assigns}
use flexpret.Tmodes.{get_tmodes, set_thread_mode, tmode_ha, tmode_sa}
use flexpret.Tmodes.Modes.{tmode_of, requested}
use flexpret.Mutex.Laws.{held}
use flexpret.Scheduler.{when, after_create_body, thread_after_create, entry_of, thread_attr_at}
use flexpret.Scheduler.Harts.{is_live}
use flexpret.Scheduler.Locked.{CanLock, with_regs}
use flexpret.Scheduler.Steps.{
  Ends, Ends->>=, OnlyRegs, OnlyRegs-trans, Moded, set_thread_mode-Ends, Assigned-OnlyRegs,
  Assigned-tmodes, slots_when, when-Ends,
}
use flexpret.Scheduler.Switch.{locked-Ends}
use flexpret.Scheduler.Service.{IsServed, service, mode_self, mode_other, live_same}

-- Hart tid is hard and active, with one slot.
pub record NewHard (tid : ℕ) (s s' : System) : Type 0 where
  pub own : slots_of tid s' ≡ 1
  pub others : (u : ℕ) → u ≢ tid → u ≢ slot_d → slots_of u s' ≡ slots_of u s
  pub modes : get_tmodes s'.tmodes ≡ set (get_tmodes s.tmodes) tid tmode_ha
  pub regs : OnlyRegs s s'

-- Hart tid is soft and active, and there is a soft slot.
pub record NewSoft (tid : ℕ) (s s' : System) : Type 0 where
  pub soft : slots_of slot_s s' ≡ (if slots_of slot_s s == 0 then 1 else slots_of slot_s s)
  pub others : (u : ℕ) → u ≢ slot_s → u ≢ slot_d → slots_of u s' ≡ slots_of u s
  pub modes : get_tmodes s'.tmodes ≡ set (get_tmodes s.tmodes) tid tmode_sa
  pub regs : OnlyRegs s s'

module _ (tid : ℕ) (hart : tid < 8) (s : System) where
  Moded-Room : (t n tmode : ℕ) (s1 : System) → Moded tid tmode s s1 → Room t n s → Room t n s1
  Moded-Room t n tmode s1 m (inl h) = inl (omega (arith, m.slots t, h))
  Moded-Room t n tmode s1 m (inr h) = inr (omega (arith, m.slots t, m.slots slot_d, h))

  create_hard :
      Room tid 1 s
      → (s' : System) × Ends (after_create_body tid Priority.realtime) s s' × NewHard tid s s'
  unfolding after_create_body
  create_hard r =
      let (s1, p, m) = set_thread_mode-Ends tid tmode_ha s hart (omega arith) in
      let (s2, e, a) =
        set_slot_num_assigns tid (omega arith) s1 1 (Moded-Room tid 1 tmode_ha s1 m r) in
      (
        s2,
        Ends->>= (set_thread_mode tid tmode_ha) (set_slot_num tid 1) s s1 s2 p (Status.ok, e),
        record {
          own = a.exact;
          others = λ u q d. a.others u q d ∙ m.slots u;
          modes =
              ap get_tmodes (Assigned-tmodes tid 1 s1 s2 a)
              ∙ m.modes
              ∙ ap (set (get_tmodes s.tmodes) tid) (unfold requested in refl);
          regs = OnlyRegs-trans s s1 s2 m.regs (Assigned-OnlyRegs tid 1 s1 s2 a);
        },
      )

  -- The soft part of the body, after the mode was set.
  abbrev soft_part : M Status
  soft_part t =
      let soft =
        if (t.startup_state tid).func == 0 then 0 else count_slots slot_s (get_slots t.slots) in
      when (soft == 0) (set_slot_num slot_s 1) t

  soft_part-when :
      (t : System)
      → is_live tid t ≡ true
      → soft_part t ≡ when (slots_of slot_s t == 0) (set_slot_num slot_s 1) t
  unfolding slots_of
  soft_part-when t l = let e : ((t.startup_state tid).func == 0) ≡ false = ground arith in rw e refl

  create_soft :
      Room slot_s 1 s
      → is_live tid s ≡ true
      → (s' : System) × Ends (after_create_body tid Priority.normal) s s' × NewSoft tid s s'
  unfolding after_create_body
  create_soft r l =
      let (s1, p, m) = set_thread_mode-Ends tid tmode_sa s hart (omega arith) in
      let (s2, (st, e), a) =
        when-Ends (slots_of slot_s s1 == 0) slot_s 1 s1 (omega arith)
          (Moded-Room slot_s 1 tmode_sa s1 m r) in
      let n = slots_when (slots_of slot_s s1 == 0) slot_s 1 s1 in
      (
        s2,
        Ends->>= (set_thread_mode tid tmode_sa) soft_part s s1 s2 p
            (st, soft_part-when s1 (live_same tid s s1 m.regs ∙ l) ∙ e),
        record {
          soft = ground (arith, a.exact, m.slots slot_s);
          others = λ u q d. a.others u q d ∙ m.slots u;
          modes =
              ap get_tmodes (Assigned-tmodes slot_s n s1 s2 a)
              ∙ m.modes
              ∙ ap (set (get_tmodes s.tmodes) tid) (unfold requested in refl);
          regs = OnlyRegs-trans s s1 s2 m.regs (Assigned-OnlyRegs slot_s n s1 s2 a);
        },
      )

-- What thread_after_create needs: a thread of one of the two priorities, and room for its slot.
pub data CanCreate (tid : ℕ) (s : System) : Type 0 where
  hard : (entry_of tid s).priority ≡ Priority.realtime → Room tid 1 s → CanCreate tid s
  soft :
      (entry_of tid s).priority ≡ Priority.normal
      → is_live tid s ≡ true
      → Room slot_s 1 s
      → CanCreate tid s

thread_attr_at-held :
    (c : Ctx) (m : ℕ) (s : System) (p : AttrPtr)
    → thread_attr_at p (held c m 1 s) ≡ thread_attr_at p s
unfolding thread_attr_at
thread_attr_at-held c m s AttrPtr.null = refl
thread_attr_at-held c m s (AttrPtr.own i) = refl
thread_attr_at-held c m s (AttrPtr.user i) = refl

module _ (c : Ctx) (m : ℕ) (s : System) (lock : CanLock c m s) (tid : ℕ) (hart : tid < 8) where
  -- With the slot mutex free, for one of the eight harts whose thread has priority osPriorityRealtime, and
  -- a slot of the hart's or room for one: thread_after_create makes the hart hard and active and gives it
  -- exactly one slot; no other owner's slots, no other mode, and nothing but the two registers changes.
  pub thread_after_create-NewHard :
      (entry_of tid s).priority ≡ Priority.realtime
      → Room tid 1 s
      → (s' : System) × Ends (thread_after_create c tid) s s' × NewHard tid s s'
  unfolding thread_after_create slots_of
  thread_after_create-NewHard e r =
      let (s', (st, p), h) = create_hard tid hart (held c m 1 s) r in
      (
        with_regs s'.slots s'.tmodes s,
        locked-Ends c m s (λ t. after_create_body tid (entry_of tid t).priority t) s' lock
            (
              st,
              ap (λ k. after_create_body tid k (held c m 1 s))
                    (ap (λ a. a.priority) (thread_attr_at-held c m s (s.thread_attr_entry tid)) ∙ e)
                  ∙ p,
            )
            h.regs,
        record { own = h.own; others = h.others; modes = h.modes; regs = refl },
      )

  -- With the slot mutex free, for one of the eight harts whose thread has a function and the priority
  -- osPriorityNormal, and a soft slot or room for one: thread_after_create makes the hart soft and active,
  -- and there is a soft slot, a new one if there was none; no other owner's slots, no other mode, and
  -- nothing but the two registers changes.
  thread_after_create-NewSoft :
      (entry_of tid s).priority ≡ Priority.normal
      → is_live tid s ≡ true
      → Room slot_s 1 s
      → (s' : System) × Ends (thread_after_create c tid) s s' × NewSoft tid s s'
  unfolding thread_after_create slots_of
  thread_after_create-NewSoft e l r =
      let (s', (st, p), h) = create_soft tid hart (held c m 1 s) r l in
      (
        with_regs s'.slots s'.tmodes s,
        locked-Ends c m s (λ t. after_create_body tid (entry_of tid t).priority t) s' lock
            (
              st,
              ap (λ k. after_create_body tid k (held c m 1 s))
                    (ap (λ a. a.priority) (thread_attr_at-held c m s (s.thread_attr_entry tid)) ∙ e)
                  ∙ p,
            )
            h.regs,
        record { soft = h.soft; others = h.others; modes = h.modes; regs = refl },
      )

  new-IsServed :
      (s' : System)
      → NewHard tid s s' ⊎ NewSoft tid s s'
      → ((i : ℕ) → i < 8 → i ≢ tid → is_live i s ≡ true → 0 < service i s)
      → IsServed s'
  new-IsServed s' (inl h) served i p l = elim (ℕ_discrete i tid) [
    | yes e ↦ rw e (ground (arith, mode_self tid tmode_ha s s' hart h.modes, h.own))
    | no n ↦ ground (
      arith,
      mode_other tid tmode_ha s s' hart h.modes i n,
      served i p n (sym (live_same i s s' h.regs) ∙ l),
      h.others slot_s (omega arith) (omega arith),
      h.others i n (omega arith),
    )
  ]
  new-IsServed s' (inr h) served i p l = elim (ℕ_discrete i tid) [
    | yes e ↦ rw e (ground (arith, mode_self tid tmode_sa s s' hart h.modes, h.soft))
    | no n ↦ ground (
      arith,
      mode_other tid tmode_sa s s' hart h.modes i n,
      served i p n (sym (live_same i s s' h.regs) ∙ l),
      h.soft,
      h.others i (omega arith) (omega arith),
    )
  ]

  pub create_serves :
      CanCreate tid s
      → ((i : ℕ) → i < 8 → i ≢ tid → is_live i s ≡ true → 0 < service i s)
      → (s' : System) × Ends (thread_after_create c tid) s s'
        × IsServed s'
        × OnlyRegs s s'
        × (tmode_of tid s' % 2 ≡ 0)
  create_serves (hard e r) served =
      let (s', p, h) = thread_after_create-NewHard e r in
      (
        s',
        p,
        new-IsServed s' (inl h) served,
        h.regs,
        ap (λ k. k % 2) (mode_self tid tmode_ha s s' hart h.modes),
      )
  create_serves (soft e l r) served =
      let (s', p, h) = thread_after_create-NewSoft e l r in
      (
        s',
        p,
        new-IsServed s' (inr h) served,
        h.regs,
        ap (λ k. k % 2) (mode_self tid tmode_sa s s' hart h.modes),
      )

  -- With the slot mutex free, for one of the eight harts with a thread of priority osPriorityRealtime and
  -- room for a slot of its own, or a thread of priority osPriorityNormal and room for a soft slot (or such
  -- a slot already): if every other live hart has a slot to run in, thread_after_create ends with a slot
  -- to run in for every live hart.
  pub thread_after_create-IsServed :
      CanCreate tid s
      → ((i : ℕ) → i < 8 → i ≢ tid → is_live i s ≡ true → 0 < service i s)
      → (s' : System) × Ends (thread_after_create c tid) s s' × IsServed s'
  thread_after_create-IsServed r served =
      let (s', p, h, _, _) = create_serves r served in (s', p, h)
