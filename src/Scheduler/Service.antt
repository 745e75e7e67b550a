-- ===== src/Scheduler/Service.antt =====
-- No live hart is without a slot to run in: kept by the two changes of priority.
use mathlib.Core.Path.{subst}
use native.Mathlib.Decide.{ℕ_discrete}
use flexpret.Common.{
  ℕ, zero, suc, ◌+◌, ◌<◌, ◌≡◌, ◌≢◌, refl, sym, ap, ◌∙◌, Bool, true, false, ◌&&◌, List, [], ◌∷◌,
  get_or, get_or-set_self, get_or-set_ne, length, if◌then◌else◌, arith, set,
}
use flexpret.State.{Ctx, System}
use flexpret.Slots.{slot_s, count_slots, get_slots}
use flexpret.Slots.Assign.{slots_of, Room}
use flexpret.Tmodes.{get_tmodes}
use flexpret.Tmodes.Modes.{tmode_of}
use flexpret.Scheduler.{change_srtt_to_hrtt, change_hrtt_to_srtt}
use flexpret.Scheduler.Harts.{count_srtt, all_but, is_soft, is_live}
use flexpret.Scheduler.Locked.{CanLock}
use flexpret.Scheduler.Steps.{Ends, OnlyRegs}
use flexpret.Scheduler.Change.{MadeHard, MadeSoft, other_srtt}
use flexpret.Scheduler.Switch.{change_srtt_to_hrtt-MadeHard, change_hrtt_to_srtt-MadeSoft}

-- The number of slots in which hart i may run: the soft ones if it is soft, otherwise its own.
abbrev pub service : ℕ → System → ℕ
service i s = if is_soft (tmode_of i s) then slots_of slot_s s else slots_of i s

abbrev pub IsServed : System → Type 0
IsServed s = (i : ℕ) → i < 8 → is_live i s ≡ true → 0 < service i s

-- The registers alone say in how many slots a hart may run.
pub service-same :
    (i : ℕ) (s s' : System) → s'.slots ≡ s.slots → s'.tmodes ≡ s.tmodes → service i s' ≡ service i s
unfolding slots_of tmode_of
service-same i s s' p q = λ j.
    if is_soft (get_or (get_tmodes (q j)) i 0)
    then count_slots slot_s (get_slots (p j))
    else count_slots i (get_slots (p j))

-- A live soft hart is counted.
count_srtt_pos :
    (keep : ℕ → Bool) (s : System) (i j : ℕ) (ms : List ℕ)
    → j < length ms
    → keep (i + j) ≡ true
    → is_soft (get_or ms j 0) ≡ true
    → is_live (i + j) s ≡ true
    → 0 < count_srtt keep s i ms
unfolding count_srtt
count_srtt_pos keep s i j [] h k f l = absurd (omega arith)
count_srtt_pos keep s i zero (x ∷ ms) h k f l =
    let e : i + 0 ≡ i = omega arith in
    ground (arith, subst (λ n. keep n ≡ true) e k, subst (λ n. is_live n s ≡ true) e l)
count_srtt_pos keep s i (suc j) (x ∷ ms) h k f l =
    let e : i + suc j ≡ i + 1 + j = omega arith in
    omega (
      arith,
      count_srtt_pos keep s (i + 1) j ms (omega arith) (subst (λ n. keep n ≡ true) e k) f
          (subst (λ n. is_live n s ≡ true) e l),
    )

pub other_srtt_pos :
    (tid i : ℕ) (s : System)
    → i < 8
    → i ≢ tid
    → is_soft (tmode_of i s) ≡ true
    → is_live i s ≡ true
    → 0 < other_srtt tid s
unfolding tmode_of
other_srtt_pos tid i s h n f l =
    let e : 0 + i ≡ i = omega arith in
    count_srtt_pos (all_but tid) s 0 i (get_tmodes s.tmodes) h (ground arith) f
      (subst (λ j. is_live j s ≡ true) (sym e) l)

-- Where no hart is both live and soft, none is counted.
count_srtt_zero :
    (keep : ℕ → Bool) (s : System) (i : ℕ) (ms : List ℕ)
    → ((j : ℕ) → j < length ms → is_soft (get_or ms j 0) && is_live (i + j) s ≡ false)
    → count_srtt keep s i ms ≡ 0
unfolding count_srtt
count_srtt_zero keep s i [] h = refl
count_srtt_zero keep s i (x ∷ ms) h = ground (arith, here, count_srtt_zero keep s (i + 1) ms later)
  where
    here : is_soft x && is_live i s ≡ false
    here = subst (λ n. is_soft x && is_live n s ≡ false) (omega arith) (h 0 (omega arith))

    later : (j : ℕ) → j < length ms → is_soft (get_or ms j 0) && is_live (i + 1 + j) s ≡ false
    later j p =
        subst (λ n. is_soft (get_or ms j 0) && is_live n s ≡ false) (omega arith)
          (h (suc j) (omega arith))

-- If the live harts are served and there is no soft slot, no other hart is live and soft.
no_other_srtt : (tid : ℕ) (s : System) → IsServed s → slots_of slot_s s ≡ 0 → other_srtt tid s ≡ 0
unfolding tmode_of
no_other_srtt tid s served none = count_srtt_zero (all_but tid) s 0 (get_tmodes s.tmodes) each
  where
    each :
        (j : ℕ)
        → j < length (get_tmodes s.tmodes)
        → is_soft (get_or (get_tmodes s.tmodes) j 0) && is_live (0 + j) s ≡ false
    each j p =
        let e : j ≡ 0 + j = omega arith in
        subst (λ n. is_soft (get_or (get_tmodes s.tmodes) j 0) && is_live n s ≡ false) e
          (ground (arith, served j p, none))

-- The mode of a hart, after the mode of hart tid was replaced.
module _ (tid k : ℕ) (s s' : System) (hart : tid < 8)
    (modes : get_tmodes s'.tmodes ≡ set (get_tmodes s.tmodes) tid k) where
  pub mode_self : tmode_of tid s' ≡ k
  unfolding tmode_of
  mode_self = ap (λ l. get_or l tid 0) modes ∙ get_or-set_self (get_tmodes s.tmodes) tid k 0 hart

  pub mode_other : (i : ℕ) → i ≢ tid → tmode_of i s' ≡ tmode_of i s
  unfolding tmode_of
  mode_other i n =
      ap (λ l. get_or l i 0) modes ∙ get_or-set_ne (get_tmodes s.tmodes) tid i k 0 (λ e. n (sym e))

pub live_same : (i : ℕ) (s s' : System) → OnlyRegs s s' → is_live i s' ≡ is_live i s
live_same i s s' r = ap (is_live i) r

module _ (tid : ℕ) (hart : tid < 8) (s s' : System) (served : IsServed s) where
  pub MadeHard-IsServed : MadeHard tid s s' → IsServed s'
  MadeHard-IsServed h i p l = elim (ℕ_discrete i tid) [
    | yes e ↦ rw e (ground (arith, mode_self tid _ s s' hart h.modes, h.own))
    | no n ↦
        let live = sym (live_same i s s' h.regs) ∙ l in
        ground (
          arith,
          mode_other tid _ s s' hart h.modes i n,
          served i p live,
          h.soft,
          h.others i n (omega arith) (omega arith),
          other_srtt_pos tid i s p n,
          live,
        )
  ]

  pub MadeSoft-IsServed : MadeSoft tid s s' → IsServed s'
  MadeSoft-IsServed h i p l = elim (ℕ_discrete i tid) [
    | yes e ↦
        rw e (ground (arith, mode_self tid _ s s' hart h.modes, h.soft, no_other_srtt tid s served))
    | no n ↦
        let live = sym (live_same i s s' h.regs) ∙ l in
        ground (
          arith,
          mode_other tid _ s s' hart h.modes i n,
          served i p live,
          h.soft,
          h.others i n (omega arith) (omega arith),
        )
  ]

module _ (c : Ctx) (m : ℕ) (s : System) (lock : CanLock c m s) (tid : ℕ) (hart : tid < 8) where
  -- With the slot mutex free, for one of the eight harts: if every live hart has a slot to run in, and
  -- there is room for a slot of hart tid (or it has one),
  -- this is still so after change_srtt_to_hrtt.
  pub change_srtt_to_hrtt-IsServed :
      Room tid 1 s
      → IsServed s
      → (s' : System) × Ends (change_srtt_to_hrtt c tid) s s' × IsServed s'
  change_srtt_to_hrtt-IsServed r served =
      let (s', e, h) = change_srtt_to_hrtt-MadeHard c m s lock tid hart r in
      (s', e, MadeHard-IsServed tid hart s s' served h)

  -- With the slot mutex free, for one of the eight harts: if every live hart has a slot to run in, and
  -- there is room for a soft slot (or there is one), this
  -- is still so after change_hrtt_to_srtt.
  pub change_hrtt_to_srtt-IsServed :
      Room slot_s 1 s
      → IsServed s
      → (s' : System) × Ends (change_hrtt_to_srtt c tid) s s' × IsServed s'
  change_hrtt_to_srtt-IsServed r served =
      let (s', e, h) = change_hrtt_to_srtt-MadeSoft c m s lock tid hart r in
      (s', e, MadeSoft-IsServed tid hart s s' served h)
