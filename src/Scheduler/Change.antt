-- ===== src/Scheduler/Change.antt =====
-- The critical sections of change_srtt_to_hrtt, change_hrtt_to_srtt and srtt_terminate.
use flexpret.Common.{
  ℕ, ◌<◌, ◌≡◌, ◌≢◌, refl, ap, ◌∙◌, Bool, not, ◌&&◌, inl, ◌==◌, set, if◌then◌else◌, arith,
}
use flexpret.State.{System, Status}
use flexpret.State.Run.{M, ◌>>=◌}
use flexpret.Slots.{slot_s, slot_d, get_slots, set_slot_num}
use flexpret.Slots.Assign.{slots_of, Room, Assigned, same-Assigned}
use flexpret.Tmodes.{get_tmodes, set_thread_mode, tmode_hard, tmode_soft}
use flexpret.Tmodes.Fields.{field, make_hard, make_soft}
use flexpret.Tmodes.Modes.{tmode_of, requested}
use flexpret.Scheduler.{when, soft_count, srtt_to_hrtt_body, hrtt_to_srtt_body}
use flexpret.Scheduler.Harts.{count_srtt, all_but}
use flexpret.Scheduler.Steps.{
  Ends, Ends->>=, OnlyRegs, OnlyRegs-trans, Moded, set_thread_mode-Ends, Assigned-OnlyRegs,
  Assigned-tmodes, slots_when, when-Ends, when-full, soft_count-slots,
}

-- The live soft harts but for hart tid.
abbrev pub other_srtt : ℕ → System → ℕ
other_srtt tid s = count_srtt (all_but tid) s 0 (get_tmodes s.tmodes)

-- Hart tid is hard, with at least one slot of its own, and the soft slots are gone if no other soft
-- hart is live.
pub record MadeHard (tid : ℕ) (s s' : System) : Type 0 where
  pub own : slots_of tid s' ≡ (if slots_of tid s == 0 then 1 else slots_of tid s)
  pub soft : slots_of slot_s s' ≡ (if other_srtt tid s == 0 then 0 else slots_of slot_s s)
  pub others : (u : ℕ) → u ≢ tid → u ≢ slot_s → u ≢ slot_d → slots_of u s' ≡ slots_of u s
  pub modes : get_tmodes s'.tmodes ≡ set (get_tmodes s.tmodes) tid (make_hard (tmode_of tid s))
  pub regs : OnlyRegs s s'

-- Hart tid is soft, without slots of its own, and there is a soft slot if there was no use for one.
pub record MadeSoft (tid : ℕ) (s s' : System) : Type 0 where
  pub own : slots_of tid s' ≡ 0
  pub soft :
      slots_of slot_s s'
      ≡ (if other_srtt tid s == 0 && slots_of slot_s s == 0 then 1 else slots_of slot_s s)
  pub others : (u : ℕ) → u ≢ tid → u ≢ slot_s → u ≢ slot_d → slots_of u s' ≡ slots_of u s
  pub modes : get_tmodes s'.tmodes ≡ set (get_tmodes s.tmodes) tid (make_soft (tmode_of tid s))
  pub regs : OnlyRegs s s'

module _ (tid : ℕ) (hart : tid < 8) (s : System) where
  soft_counted : soft_count tid (get_slots s.slots) ≡ slots_of slot_s s
  unfolding slots_of
  soft_counted = soft_count-slots tid (get_slots s.slots) (omega arith)

  -- The tests of the bodies.
  abbrev drops_soft : Bool
  drops_soft = other_srtt tid s == 0 && not (soft_count tid (get_slots s.slots) == 0)

  abbrev needs_soft : Bool
  needs_soft = other_srtt tid s == 0 && soft_count tid (get_slots s.slots) == 0

  -- A change of mode between two changes of slots.
  mode_between :
      (t u n k tmode : ℕ) (f : ℕ → ℕ) (s1 s2 s3 : System)
      → ((m : ℕ) → requested tmode m ≡ f m)
      → Assigned t n s s1
      → Moded tid tmode s1 s2
      → Assigned u k s2 s3
      → get_tmodes s3.tmodes ≡ set (get_tmodes s.tmodes) tid (f (tmode_of tid s))
  unfolding tmode_of
  mode_between t u n k tmode f s1 s2 s3 q a m b =
      ap get_tmodes (Assigned-tmodes u k s2 s3 b)
      ∙ m.modes
      ∙ ap (set (get_tmodes s1.tmodes) tid) (q (field tid s1.tmodes))
      ∙ ap (λ w. set (get_tmodes w) tid (f (field tid w))) (Assigned-tmodes t n s s1 a)

  regs_between :
      (t u n k tmode : ℕ) (s1 s2 s3 : System)
      → Assigned t n s s1
      → Moded tid tmode s1 s2
      → Assigned u k s2 s3
      → OnlyRegs s s3
  regs_between t u n k tmode s1 s2 s3 a m b =
      OnlyRegs-trans s s1 s3 (Assigned-OnlyRegs t n s s1 a)
        (OnlyRegs-trans s1 s2 s3 m.regs (Assigned-OnlyRegs u k s2 s3 b))

  made_hard :
      (s1 s2 s3 : System)
      → Assigned tid (slots_when (slots_of tid s == 0) tid 1 s) s s1
      → Moded tid tmode_hard s1 s2
      → Assigned slot_s (slots_when drops_soft slot_s 0 s2) s2 s3
      → MadeHard tid s s3
  made_hard s1 s2 s3 a m b = record {
    own = b.others tid (omega arith) (omega arith) ∙ m.slots tid ∙ a.exact;
    soft =
        ground (
          arith,
          b.exact,
          m.slots slot_s,
          a.others slot_s (omega arith) (omega arith),
          soft_counted,
        );
    others = λ u p q r. b.others u q r ∙ m.slots u ∙ a.others u p r;
    modes =
        mode_between _ _ _ _ tmode_hard make_hard s1 s2 s3 (λ x. unfold requested in refl) a m b;
    regs = regs_between _ _ _ _ _ s1 s2 s3 a m b;
  }

  made_soft :
      (s1 s2 s3 : System)
      → Assigned slot_s (slots_when needs_soft slot_s 1 s) s s1
      → Moded tid tmode_soft s1 s2
      → Assigned tid (slots_when (not (slots_of tid s == 0)) tid 0 s2) s2 s3
      → MadeSoft tid s s3
  made_soft s1 s2 s3 a m b = record {
    own = ground (arith, b.exact, m.slots tid, a.others tid (omega arith) (omega arith));
    soft =
        ground (
          arith,
          b.others slot_s (omega arith) (omega arith),
          m.slots slot_s,
          a.exact,
          soft_counted,
        );
    others = λ u p q r. b.others u p r ∙ m.slots u ∙ a.others u q r;
    modes =
        mode_between _ _ _ _ tmode_soft make_soft s1 s2 s3 (λ x. unfold requested in refl) a m b;
    regs = regs_between _ _ _ _ _ s1 s2 s3 a m b;
  }

  -- Three calls in a row.
  three_calls :
      (f g h : M Status) (s1 s2 s3 : System)
      → Ends f s s1
      → Ends g s1 s2
      → Ends h s2 s3
      → Ends (f >>= λ _. g >>= λ _. h) s s3
  three_calls f g h s1 s2 s3 p q r = Ends->>= f (g >>= λ _. h) s s1 s3 p (Ends->>= g h s1 s2 s3 q r)

  -- The calls of the two bodies.
  abbrev own_slot : M Status
  own_slot = when (slots_of tid s == 0) (set_slot_num tid 1)

  abbrev drop_soft : M Status
  drop_soft = when drops_soft (set_slot_num slot_s 0)

  abbrev soft_slot : M Status
  soft_slot = when needs_soft (set_slot_num slot_s 1)

  abbrev drop_own : M Status
  drop_own = when (not (slots_of tid s == 0)) (set_slot_num tid 0)

  pub srtt_to_hrtt_body-MadeHard :
      Room tid 1 s → (s' : System) × Ends (srtt_to_hrtt_body tid) s s' × MadeHard tid s s'
  unfolding srtt_to_hrtt_body slots_of
  srtt_to_hrtt_body-MadeHard r =
      let (s1, p, a) = when-Ends (slots_of tid s == 0) tid 1 s (omega arith) r in
      let (s2, q, m) = set_thread_mode-Ends tid tmode_hard s1 hart (omega arith) in
      let (s3, e, b) = when-Ends drops_soft slot_s 0 s2 (omega arith) (inl (omega arith)) in
      (
        s3,
        three_calls own_slot (set_thread_mode tid tmode_hard) drop_soft s1 s2 s3 p q e,
        made_hard s1 s2 s3 a m b,
      )

  pub hrtt_to_srtt_body-MadeSoft :
      Room slot_s 1 s → (s' : System) × Ends (hrtt_to_srtt_body tid) s s' × MadeSoft tid s s'
  unfolding hrtt_to_srtt_body slots_of
  hrtt_to_srtt_body-MadeSoft r =
      let (s1, p, a) = when-Ends needs_soft slot_s 1 s (omega arith) r in
      let (s2, q, m) = set_thread_mode-Ends tid tmode_soft s1 hart (omega arith) in
      let (s3, e, b) =
        when-Ends (not (slots_of tid s == 0)) tid 0 s2 (omega arith) (inl (omega arith)) in
      (
        s3,
        three_calls soft_slot (set_thread_mode tid tmode_soft) drop_own s1 s2 s3 p q e,
        made_soft s1 s2 s3 a m b,
      )

  -- Without room for a slot of its own, the hart is made hard all the same, and has none.
  pub srtt_to_hrtt_body_full :
      ¬ Room tid 1 s
      → (s' : System) × Ends (srtt_to_hrtt_body tid) s s'
        × (slots_of tid s' ≡ 0)
        × (get_tmodes s'.tmodes ≡ set (get_tmodes s.tmodes) tid (make_hard (tmode_of tid s)))
        × OnlyRegs s s'
  unfolding srtt_to_hrtt_body slots_of
  srtt_to_hrtt_body_full r =
      let none_own : slots_of tid s ≡ 0 = ground arith in
      let p = when-full (slots_of tid s == 0) tid 1 s (omega arith) r in
      let (s2, q, m) = set_thread_mode-Ends tid tmode_hard s hart (omega arith) in
      let (s3, e, b) = when-Ends drops_soft slot_s 0 s2 (omega arith) (inl (omega arith)) in
      (
        s3,
        three_calls own_slot (set_thread_mode tid tmode_hard) drop_soft s s2 s3 p q e,
        b.others tid (omega arith) (omega arith) ∙ m.slots tid ∙ none_own,
        mode_between _ _ _ _ tmode_hard make_hard s s2 s3 (λ x. unfold requested in refl)
            (same-Assigned tid (omega arith) s (slots_of tid s) refl) m b,
        regs_between _ _ _ _ _ s s2 s3 (same-Assigned tid (omega arith) s (slots_of tid s) refl) m
            b,
      )

  -- Without a soft slot and without room for one, the hart is made soft all the same and gives its own
  -- slots up, so that it has no slot to run in.
  pub hrtt_to_srtt_body_full :
      ¬ Room slot_s 1 s
      → (s' : System) × Ends (hrtt_to_srtt_body tid) s s'
        × (slots_of tid s' ≡ 0)
        × (slots_of slot_s s' ≡ 0)
        × (get_tmodes s'.tmodes ≡ set (get_tmodes s.tmodes) tid (make_soft (tmode_of tid s)))
        × OnlyRegs s s'
  unfolding hrtt_to_srtt_body slots_of
  hrtt_to_srtt_body_full r =
      let none_soft : slots_of slot_s s ≡ 0 = ground arith in
      let p = when-full needs_soft slot_s 1 s (omega arith) r in
      let (s2, q, m) = set_thread_mode-Ends tid tmode_soft s hart (omega arith) in
      let (s3, e, b) =
        when-Ends (not (slots_of tid s == 0)) tid 0 s2 (omega arith) (inl (omega arith)) in
      let same = same-Assigned tid (omega arith) s (slots_of tid s) refl in
      (
        s3,
        three_calls soft_slot (set_thread_mode tid tmode_soft) drop_own s s2 s3 p q e,
        ground (arith, b.exact, m.slots tid),
        b.others slot_s (omega arith) (omega arith) ∙ m.slots slot_s ∙ none_soft,
        mode_between _ _ _ _ tmode_soft make_soft s s2 s3 (λ x. unfold requested in refl) same m b,
        regs_between _ _ _ _ _ s s2 s3 same m b,
      )
