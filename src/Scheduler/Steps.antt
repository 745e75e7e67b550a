-- ===== src/Scheduler/Steps.antt =====
-- The steps that the critical sections are made of, and what they do to the two registers.
use flexpret.Common.{
  ℕ, ◌<◌, ◌≡◌, ◌≢◌, refl, sym, ap, ◌∙◌, Bool, true, false, some, List, [], ◌∷◌, set, if◌then◌else◌,
  arith,
}
use flexpret.State.{System, Status}
use flexpret.State.Run.{M, ◌>>=◌}
use flexpret.Slots.{slot_s, slot_d, count_slots, set_slot_num}
use flexpret.Slots.Assign.{
  slots_of, Room, Assigned, set_slot_num_assigns, set_slot_num_refuses, same-Assigned,
}
use flexpret.Tmodes.{get_tmodes, set_thread_mode}
use flexpret.Tmodes.Modes.{tmode_of, requested, set_thread_mode_lem}
use flexpret.Scheduler.{when, soft_count}
use flexpret.Scheduler.Locked.{with_regs}

-- A call ends in the state s', with some status.
abbrev pub Ends : M Status → System → System → Type 0
Ends f s s' = (st : Status) × (f s ≡ some (st, s'))

pub Ends->>= : (f g : M Status) (s t u : System) → Ends f s t → Ends g t u → Ends (f >>= λ _. g) s u
Ends->>= f g s t u (a, p) (b, q) = (b, rw (p, ◌>>=◌) q)

-- Only the two registers differ.
abbrev pub OnlyRegs : System → System → Type 0
OnlyRegs s s' = s' ≡ with_regs s'.slots s'.tmodes s

pub OnlyRegs-trans : (s t u : System) → OnlyRegs s t → OnlyRegs t u → OnlyRegs s u
OnlyRegs-trans s t u p q = q ∙ ap (with_regs u.slots u.tmodes) p

-- The mode of hart tid becomes what is requested, the other modes and all slots stay.
pub record Moded (tid tmode : ℕ) (s s' : System) : Type 0 where
  pub modes :
      get_tmodes s'.tmodes ≡ set (get_tmodes s.tmodes) tid (requested tmode (tmode_of tid s))
  pub slots : (u : ℕ) → slots_of u s' ≡ slots_of u s
  pub regs : OnlyRegs s s'

pub set_thread_mode-Ends :
    (tid tmode : ℕ) (s : System)
    → tid < 8
    → tmode < 8
    → (s' : System) × Ends (set_thread_mode tid tmode) s s' × Moded tid tmode s s'
unfolding slots_of
set_thread_mode-Ends tid tmode s p q =
    let (s', e, m, r) = set_thread_mode_lem tid tmode s p q in
    (
      s',
      (Status.ok, e),
      record {
        modes = m;
        slots = λ u. ap (slots_of u) r;
        regs = r ∙ ap (λ x. with_regs x s'.tmodes s) (sym (ap (λ x. x.slots) r));
      },
    )

pub Assigned-tmodes : (t n : ℕ) (s s' : System) → Assigned t n s s' → s'.tmodes ≡ s.tmodes
Assigned-tmodes t n s s' a = ap (λ x. x.tmodes) a.rest

pub Assigned-OnlyRegs : (t n : ℕ) (s s' : System) → Assigned t n s s' → OnlyRegs s s'
Assigned-OnlyRegs t n s s' a =
    a.rest ∙ ap (λ v. with_regs s'.slots v s) (sym (Assigned-tmodes t n s s' a))

-- The new number of slots of an owner, when it changes under a test.
abbrev pub slots_when : Bool → ℕ → ℕ → System → ℕ
slots_when b t n s = if b then n else slots_of t s

-- set_slot_num under a test, where there is room.
pub when-Ends :
    (b : Bool) (t n : ℕ) (s : System)
    → t < slot_d
    → Room t n s
    → (s' : System) × Ends (when b (set_slot_num t n)) s s' × Assigned t (slots_when b t n s) s s'
unfolding when
when-Ends true t n s h r =
    let (s', e, a) = set_slot_num_assigns t h s n r in (s', (Status.ok, e), a)
when-Ends false t n s h r = (s, (Status.ok, refl), same-Assigned t h s (slots_of t s) refl)

-- The same where there is none: nothing happens.
pub when-full :
    (b : Bool) (t n : ℕ) (s : System)
    → t < slot_d
    → ¬ Room t n s
    → Ends (when b (set_slot_num t n)) s s
unfolding when
when-full true t n s h r = (Status.error, set_slot_num_refuses t h s n r)
when-full false t n s h r = (Status.ok, refl)

-- The loops that test for the slots of a hart first count the soft slots right.
pub soft_count-slots : (t : ℕ) (l : List ℕ) → t ≢ slot_s → soft_count t l ≡ count_slots slot_s l
unfolding soft_count count_slots
soft_count-slots t [] h = refl
soft_count-slots t (x ∷ l) h = ground (arith, soft_count-slots t l h)
