-- ===== src/Slots/Word.antt =====
-- The slot register as an array: what is written by set_slots is read by get_slots.
use flexpret.Common.{ℕ, ◌^◌, ◌<◌, ◌≡◌, List, [], ◌∷◌, length, arith}
use flexpret.Slots.{get_slots, set_slots}

-- An array of values of four bits.
abbrev pub AllSlots : List ℕ → Type 0
AllSlots [] = Unit {0}
AllSlots (x ∷ s) = (x < 16) × AllSlots s

pub get_slots-AllSlots : (w : ℕ) → AllSlots (get_slots w)
get_slots-AllSlots w = omega arith

pub get_slots-set_slots : (s : List ℕ) → length s ≡ 8 → AllSlots s → get_slots (set_slots s) ≡ s
get_slots-set_slots (a ∷ b ∷ c ∷ d ∷ e ∷ f ∷ g ∷ h ∷ []) l s = ground arith
get_slots-set_slots _ l s = absurd (omega arith)

pub set_slots-get_slots : (w : ℕ) → w < 2 ^ 32 → set_slots (get_slots w) ≡ w
set_slots-get_slots w h = omega arith
