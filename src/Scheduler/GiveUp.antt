-- ===== src/Scheduler/GiveUp.antt =====
-- srtt_terminate and the other ways in which a thread that has ended gives up its slots.
use mathlib.Core.Path.{subst}
use flexpret.Common.{
  ℕ, ◌%◌, ◌<◌, ◌≡◌, ◌≢◌, refl, sym, ap, ◌∙◌, Bool, true, false, Option, some, inl, inr, ◌==◌,
  if◌then◌else◌, get_or, arith,
}
use flexpret.Common.Int.{pos}
use flexpret.State.{Ctx, System, Status}
use flexpret.State.Run.{M}
use flexpret.Tid.{get_tid}
use flexpret.Slots.{slot_s, slot_d, set_slot_num}
use flexpret.Slots.Assign.{slots_of, Assigned, set_slot_num_assigns}
use flexpret.Tmodes.{get_tmodes, set_thread_mode, tmode_zombie}
use flexpret.Tmodes.Modes.{tmode_of, requested}
use flexpret.Mutex.Laws.{held}
use flexpret.Scheduler.{
  when, srtt_terminate, srtt_terminate_body, os_scheduler_set_slot_num, os_scheduler_set_tmodes,
}
use flexpret.Scheduler.Harts.{is_live}
use flexpret.Scheduler.Locked.{CanLock, with_regs, with_regs-IsFree}
use flexpret.Scheduler.SlotNum.{Answers, os_scheduler_set_slot_num-Answers}
use flexpret.Scheduler.Steps.{
  Ends, Ends->>=, OnlyRegs, OnlyRegs-trans, Moded, set_thread_mode-Ends, Assigned-OnlyRegs,
  Assigned-tmodes, slots_when, when-Ends,
}
use flexpret.Scheduler.Change.{other_srtt}
use flexpret.Scheduler.Switch.{locked-Ends, other_srtt-held}
use flexpret.Scheduler.Service.{service, other_srtt_pos, mode_self, mode_other, live_same}

zombie_odd : (k : ℕ) → requested tmode_zombie k % 2 ≡ 1
unfolding requested
zombie_odd k = omega arith

-- Every live hart but `tid` has a slot to run in.
abbrev pub ServedBut : ℕ → System → Type 0
ServedBut tid s = (i : ℕ) → i < 8 → i ≢ tid → is_live i s ≡ true → 0 < service i s

-- A call for hart tid that ends with every other live hart served, and changes the two registers only.
abbrev pub Leaves : ℕ → System → Option (Status × System) → Type 0
Leaves tid s r =
    (s' : System) × ((st : Status) × (r ≡ some (st, s'))) × ServedBut tid s' × OnlyRegs s s'

pub if-Leaves :
    (tid : ℕ) (s : System) (b : Bool) (x y : Option (Status × System))
    → Leaves tid s x
    → Leaves tid s y
    → Leaves tid s (if b then x else y)
if-Leaves tid s true x y p q = p
if-Leaves tid s false x y p q = q

-- A change of the two registers leaves the slot mutex free.
pub OnlyRegs-CanLock :
    (c : Ctx) (m : ℕ) (s s' : System) → OnlyRegs s s' → CanLock c m s → CanLock c m s'
OnlyRegs-CanLock c m s s' e l = subst (CanLock c m) (sym e) (record {
  placed = l.placed;
  slot_mutex = l.slot_mutex;
  free = with_regs-IsFree m s'.slots s'.tmodes s l.free;
})

-- Hart tid has no slots, and the soft slots are gone if no other soft hart is live.
pub record GaveUp (tid : ℕ) (s s' : System) : Type 0 where
  pub own : slots_of tid s' ≡ 0
  pub soft : slots_of slot_s s' ≡ (if other_srtt tid s == 0 then 0 else slots_of slot_s s)
  pub others : (u : ℕ) → u ≢ tid → u ≢ slot_s → u ≢ slot_d → slots_of u s' ≡ slots_of u s
  pub modes : s'.tmodes ≡ s.tmodes
  pub regs : OnlyRegs s s'

module _ (tid : ℕ) (hart : tid < 8) (s : System) where
  body-GaveUp : (s' : System) × Ends (srtt_terminate_body tid) s s' × GaveUp tid s s'
  unfolding srtt_terminate_body
  body-GaveUp =
      let (s1, p, a) = set_slot_num_assigns tid (omega arith) s 0 (inl (omega arith)) in
      let last = other_srtt tid s == 0 in
      let (s2, e, b) = when-Ends last slot_s 0 s1 (omega arith) (inl (omega arith)) in
      (
        s2,
        Ends->>= (set_slot_num tid 0) (when last (set_slot_num slot_s 0)) s s1 s2 (Status.ok, p) e,
        record {
          own = b.others tid (omega arith) (omega arith) ∙ a.exact;
          soft = ground (arith, b.exact, a.others slot_s (omega arith) (omega arith));
          others = λ u p q r. b.others u q r ∙ a.others u p r;
          modes =
              Assigned-tmodes slot_s (slots_when last slot_s 0 s1) s1 s2 b
              ∙ Assigned-tmodes tid 0 s s1 a;
          regs =
              OnlyRegs-trans s s1 s2 (Assigned-OnlyRegs tid 0 s s1 a)
                (Assigned-OnlyRegs slot_s (slots_when last slot_s 0 s1) s1 s2 b);
        },
      )

  same_mode : (s' : System) → s'.tmodes ≡ s.tmodes → (i : ℕ) → tmode_of i s' ≡ tmode_of i s
  unfolding tmode_of
  same_mode s' e i = ap (λ w. get_or (get_tmodes w) i 0) e

  GaveUp-ServedBut : (s' : System) → GaveUp tid s s' → ServedBut tid s → ServedBut tid s'
  GaveUp-ServedBut s' g served i p n l =
      let live = sym (live_same i s s' g.regs) ∙ l in
      ground (
        arith,
        same_mode s' g.modes i,
        served i p n live,
        g.soft,
        g.others i n (omega arith) (omega arith),
        other_srtt_pos tid i s p n,
        live,
      )

  Assigned-ServedBut : (s' : System) → Assigned tid 0 s s' → ServedBut tid s → ServedBut tid s'
  Assigned-ServedBut s' a served i p n l =
      let live = sym (live_same i s s' (Assigned-OnlyRegs tid 0 s s' a)) ∙ l in
      ground (
        arith,
        same_mode s' (Assigned-tmodes tid 0 s s' a) i,
        served i p n live,
        a.others slot_s (omega arith) (omega arith),
        a.others i n (omega arith),
      )

  Moded-ServedBut : (k : ℕ) (s' : System) → Moded tid k s s' → ServedBut tid s → ServedBut tid s'
  Moded-ServedBut k s' m served i p n l =
      let live = sym (live_same i s s' m.regs) ∙ l in
      ground (
        arith,
        mode_other tid _ s s' hart m.modes i n,
        served i p n live,
        m.slots slot_s,
        m.slots i,
      )

module _ (c : Ctx) (m : ℕ) (s : System) (lock : CanLock c m s) (tid : ℕ) (hart : tid < 8) where
  -- With the slot mutex free, srtt_terminate of one of the eight harts takes all its slots, and the soft
  -- slots too if no other live hart is soft; no other hart's slots, no mode, and nothing but the two
  -- registers changes. So every other live hart that had a slot to run in still has one.
  pub srtt_terminate-GaveUp :
      (s' : System) × Ends (srtt_terminate c tid) s s'
      × GaveUp tid s s'
      × (ServedBut tid s → ServedBut tid s')
  unfolding srtt_terminate slots_of
  srtt_terminate-GaveUp =
      let (s1, e, g) = body-GaveUp tid hart (held c m 1 s) in
      let s' = with_regs s1.slots s1.tmodes s in
      let h : GaveUp tid s s' = record {
        own = g.own;
        soft =
            g.soft ∙ ap (λ n. if n == 0 then 0 else slots_of slot_s s) (other_srtt-held c m s tid);
        others = g.others;
        modes = g.modes;
        regs = refl;
      } in
      (
        s',
        locked-Ends c m s (srtt_terminate_body tid) s1 lock e g.regs,
        h,
        GaveUp-ServedBut tid hart s s' h,
      )

  pub srtt_terminate-Leaves : ServedBut tid s → Leaves tid s (srtt_terminate c tid s)
  srtt_terminate-Leaves served =
      let (s', e, g, h) = srtt_terminate-GaveUp in (s', e, h served, g.regs)

  from_answer : (r : M Status) → ServedBut tid s → Answers tid (pos 0) s (r s) → Leaves tid s (r s)
  from_answer r served (inl h) = absurd (omega (arith, h.0))
  from_answer r served (inr (inl (p, room, (s', e, a)))) = (
    s',
    (Status.ok, e),
    Assigned-ServedBut tid hart s s' a served,
    Assigned-OnlyRegs tid 0 s s' a,
  )
  from_answer r served (inr (inr (p, full, e))) = absurd (full (inl (omega arith)))

  pub no_slots-Leaves :
      (thread_id : ℕ)
      → get_tid c thread_id ≡ tid
      → ServedBut tid s
      → Leaves tid s (os_scheduler_set_slot_num c thread_id (pos 0) s)
  no_slots-Leaves thread_id e served =
      from_answer (os_scheduler_set_slot_num c thread_id (pos 0)) served (
        subst (λ t. Answers t (pos 0) s (os_scheduler_set_slot_num c thread_id (pos 0) s)) e
          (os_scheduler_set_slot_num-Answers c m s lock thread_id (pos 0) (omega (arith, e, hart))))

  pub zombie-Leaves :
      (thread_id : ℕ)
      → get_tid c thread_id ≡ tid
      → ServedBut tid s
      → (s' : System) × ((st : Status) × (os_scheduler_set_tmodes c thread_id tmode_zombie s
            ≡ some (st, s')))
        × ServedBut tid s'
        × OnlyRegs s s'
        × (tmode_of tid s' % 2 ≡ 1)
  unfolding os_scheduler_set_tmodes
  zombie-Leaves thread_id e served =
      let (s', (st, p), d) = set_thread_mode-Ends tid tmode_zombie s hart (omega arith) in
      (
        s',
        (st, ap (λ t. set_thread_mode t tmode_zombie s) e ∙ p),
        Moded-ServedBut tid hart s tmode_zombie s' d served,
        d.regs,
        ap (λ k. k % 2) (mode_self tid (requested tmode_zombie (tmode_of tid s)) s s' hart d.modes)
            ∙ zombie_odd (tmode_of tid s),
      )
