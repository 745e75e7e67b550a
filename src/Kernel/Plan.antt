-- ===== src/Kernel/Plan.antt =====
-- The loop of osKernelStart that chooses a slot and a mode for each hart: the arrays that it fills.
use flexpret.Common.{
  ℕ, zero, suc, ◌+◌, ◌<◌, ◌≤◌, ◌≡◌, ◌≢◌, ◌⊎◌, inl, inr, refl, ap, true, false, Option, none, some,
  List, [], ◌∷◌, get_or, length, arith, Bool-cases,
}
use mathlib.Core.Path.{subst}
use flexpret.State.{System, Priority}
use flexpret.Slots.{slot_s, slot_d, count_slots}
use flexpret.Slots.Word.{AllSlots}
use flexpret.Tmodes.{get_tmodes, tmode_ha, tmode_sa, tmode_sz}
use flexpret.Scheduler.{entry_of}
use flexpret.Scheduler.Harts.{is_live}
use flexpret.Kernel.Start.{set_tmodes, Choice, soft_choice, choose, choose_hart, Plan, plan}

-- An array of values of two bits.
abbrev pub AllModes : List ℕ → Type 0
AllModes [] = Unit {0}
AllModes (x ∷ s) = (x < 4) × AllModes s

pub get_tmodes-set_tmodes : (t : List ℕ) → length t ≡ 8 → AllModes t → get_tmodes (set_tmodes t) ≡ t
unfolding set_tmodes
get_tmodes-set_tmodes (a ∷ b ∷ c ∷ d ∷ e ∷ f ∷ g ∷ h ∷ []) l s = ground arith
get_tmodes-set_tmodes _ l s = absurd (omega arith)

-- The priority is one that the kernel supports.
abbrev pub IsSupported : Priority → Type 0
IsSupported Priority.normal = Unit {0}
IsSupported Priority.realtime = Unit {0}
IsSupported _ = ⊥

-- What a hart is given: its own slot, or the soft mode, with a soft slot now or before.
abbrev Given : ℕ → Option ℕ → Choice → Type 0
Given i soft ch =
    ((ch.mode ≡ tmode_ha) × (ch.slot ≡ i))
    ⊎ ((ch.mode ≡ tmode_sa) × ((ch.slot ≡ slot_s) ⊎ (soft ≢ none)))

choose-Given :
    (i : ℕ) (p : Priority) (soft : Option ℕ) → IsSupported p → Given i soft (choose i p soft)
unfolding choose soft_choice
choose-Given i Priority.normal none h = inr (refl, inl refl)
choose-Given i Priority.normal (some j) h = inr (refl, inr (λ e. cc))
choose-Given i Priority.realtime soft h = inl (refl, refl)
choose-Given i Priority.error soft h = elim h [ ]
choose-Given i (Priority.other n) soft h = elim h [ ]

-- A hart that is noted as soft was noted before, or has the soft slot.
abbrev Noted : Option ℕ → Choice → Type 0
Noted soft ch = ch.soft_id ≢ none → (soft ≢ none) ⊎ (ch.slot ≡ slot_s)

choose-Noted : (i : ℕ) (p : Priority) (soft : Option ℕ) → Noted soft (choose i p soft)
unfolding choose soft_choice
choose-Noted i Priority.normal none h = inr refl
choose-Noted i Priority.normal (some j) h = inl h
choose-Noted i Priority.realtime soft h = inl h
choose-Noted i Priority.error soft h = inl h
choose-Noted i (Priority.other n) soft h = inl h

choose-small :
    (i : ℕ) (p : Priority) (soft : Option ℕ)
    → i < 16
    → ((choose i p soft).slot < 16) × ((choose i p soft).mode < 4)
unfolding choose soft_choice
choose-small i Priority.normal none h = omega arith
choose-small i Priority.normal (some j) h = omega arith
choose-small i Priority.realtime soft h = omega arith
choose-small i Priority.error soft h = omega arith
choose-small i (Priority.other n) soft h = omega arith

module _ (i : ℕ) (soft : Option ℕ) (s : System) where
  live_choice : is_live i s ≡ true → choose_hart i soft s ≡ choose i (entry_of i s).priority soft
  unfolding choose_hart
  live_choice l = rw l refl

  dead_choice :
      is_live i s ≡ false
      → choose_hart i soft s ≡ record { slot = slot_d; mode = tmode_sz; soft_id = soft }
  unfolding choose_hart
  dead_choice l = rw l refl

  choose_hart-Noted : Noted soft (choose_hart i soft s)
  choose_hart-Noted = elim (Bool-cases (is_live i s)) [
    | inl l ↦ rw (live_choice l) (choose-Noted i (entry_of i s).priority soft)
    | inr l ↦ rw (dead_choice l) (λ h. inl h)
  ]

  choose_hart-small :
      i < 16 → ((choose_hart i soft s).slot < 16) × ((choose_hart i soft s).mode < 4)
  choose_hart-small h = elim (Bool-cases (is_live i s)) [
    | inl l ↦ rw (live_choice l) (choose-small i (entry_of i s).priority soft h)
    | inr l ↦ rw (dead_choice l) (omega arith)
  ]

-- The arrays of the loop fit the registers.
pub plan-small :
    (n i : ℕ) (soft : Option ℕ) (s : System)
    → i + n ≤ 16
    → AllSlots (plan n i soft s).slots
      × AllModes (plan n i soft s).modes
      × (length (plan n i soft s).slots ≡ n)
      × (length (plan n i soft s).modes ≡ n)
unfolding plan
plan-small zero i soft s h = (tt, tt, refl, refl)
plan-small (suc n) i soft s h =
    let ch = choose_hart i soft s in
    let (a, b) = choose_hart-small i soft s (omega arith) in
    let (p, q, l, m) = plan-small n (i + 1) ch.soft_id s (omega arith) in
    ((a, p), (b, q), ap suc l, ap suc m)

-- A live hart with a supported priority is given its slot, or the soft mode while there is a soft slot.
abbrev pub Planned : ℕ → ℕ → Option ℕ → Plan → Type 0
Planned j k soft p =
    ((get_or p.modes k 0 ≡ tmode_ha) × (get_or p.slots k 0 ≡ j))
    ⊎ ((get_or p.modes k 0 ≡ tmode_sa) × ((0 < count_slots slot_s p.slots) ⊎ (soft ≢ none)))

-- The plan of one hart before that of the others.
abbrev add_choice : Choice → Plan → Plan
add_choice ch p = record {
  slots = ch.slot ∷ p.slots;
  modes = ch.mode ∷ p.modes;
  soft_id = p.soft_id;
}

Given-Planned :
    (i : ℕ) (soft : Option ℕ) (ch : Choice) (p : Plan)
    → Given i soft ch
    → Planned i 0 soft (add_choice ch p)
unfolding count_slots
Given-Planned i soft ch p (inl h) = inl h
Given-Planned i soft ch p (inr (m, inl e)) = inr (m, inl (ground arith))
Given-Planned i soft ch p (inr (m, inr e)) = inr (m, inr e)

Planned-later :
    (j k : ℕ) (soft : Option ℕ) (ch : Choice) (p : Plan)
    → Noted soft ch
    → Planned j k ch.soft_id p
    → Planned j (suc k) soft (add_choice ch p)
unfolding count_slots
Planned-later j k soft ch p noted (inl h) = inl h
Planned-later j k soft ch p noted (inr (m, inl c)) = inr (m, inl (ground arith))
Planned-later j k soft ch p noted (inr (m, inr n)) = elim (noted n) [
  | inl old ↦ inr (m, inr old)
  | inr e ↦ inr (m, inl (ground arith))
]

pub plan-Planned :
    (n i k j : ℕ) (soft : Option ℕ) (s : System)
    → i + k ≡ j
    → k < n
    → is_live j s ≡ true
    → IsSupported (entry_of j s).priority
    → Planned j k soft (plan n i soft s)
unfolding plan
plan-Planned zero i k j soft s e h l p = absurd (omega arith)
plan-Planned (suc n) i zero j soft s e h l p =
    let ch = choose_hart j soft s in
    let at_i : j ≡ i = omega arith in
    subst (λ t. Planned j zero soft (plan (suc n) t soft s)) at_i
      (Given-Planned j soft ch (plan n (j + 1) ch.soft_id s)
        (rw (live_choice j soft s l) (choose-Given j (entry_of j s).priority soft p)))
plan-Planned (suc n) i (suc k) j soft s e h l p =
    let ch = choose_hart i soft s in
    Planned-later j k soft ch (plan n (i + 1) ch.soft_id s) (choose_hart-Noted i soft s)
      (plan-Planned n (i + 1) k j ch.soft_id s (omega arith) (omega arith) l p)
