-- ===== src/Slots/Table.antt =====
-- The slot register and tables of eight slots are the same type of data.
use mathlib.Core.Equiv.{◌≃◌, Iso, iso_to_equiv}
use mathlib.Core.HLevel.{×_prop, Unit-prop, Σ_prop_path, hedberg}
use native.Mathlib.Bridge.{le_prop}
use native.Mathlib.Decide.{ℕ_discrete}
use flexpret.Common.{ℕ, ◌^◌, ◌<◌, ◌≡◌, refl, List, [], ◌∷◌, length, arith}
use flexpret.Slots.{get_slots, set_slots}
use flexpret.Slots.Word.{AllSlots, get_slots-AllSlots, get_slots-set_slots, set_slots-get_slots}

-- A value of the register.
abbrev pub SlotWord : Type 0
SlotWord = (w : ℕ) × (w < 2 ^ 32)

-- Eight slots, each an owner of four bits.
abbrev pub IsTable : List ℕ → Type 0
IsTable s = (length s ≡ 8) × AllSlots s

abbrev pub SlotTable : Type 0
SlotTable = (s : List ℕ) × IsTable s

AllSlots-prop : (s : List ℕ) → IsProp (AllSlots s)
AllSlots-prop [] = Unit-prop
AllSlots-prop (x ∷ s) = ×_prop le_prop (AllSlots-prop s)

IsTable-prop : (s : List ℕ) → IsProp (IsTable s)
IsTable-prop s = ×_prop (hedberg ℕ_discrete (length s) 8) (AllSlots-prop s)

set_slots-bound : (s : List ℕ) → IsTable s → set_slots s < 2 ^ 32
set_slots-bound s t = omega arith

abbrev to_table : SlotWord → SlotTable
to_table (w, h) = (get_slots w, (refl, get_slots-AllSlots w))

abbrev to_word : SlotTable → SlotWord
to_word (s, t) = (set_slots s, set_slots-bound s t)

slots_iso : Iso SlotWord SlotTable
slots_iso = record {
  fun = to_table;
  inv = to_word;
  rinv = λ (s, t). Σ_prop_path IsTable-prop (get_slots-set_slots s t.0 t.1);
  linv = λ (w, h). Σ_prop_path (λ w. le_prop) (set_slots-get_slots w h);
}

-- The 32-bit values of the slot register and the tables of eight four-bit owners are equivalent types, by
-- get_slots and set_slots: get_slots of a word is the word's table, and set_slots of a table the table's word.
get_slots-equiv :
    (e : SlotWord ≃ SlotTable) × ((w : SlotWord) → (e.0 w).0 ≡ get_slots w.0)
    × ((s : SlotTable) → (w : SlotWord) × (e.0 w ≡ s) × (w.0 ≡ set_slots s.0))
unfolding slots_iso
get_slots-equiv =
    (iso_to_equiv slots_iso, λ w. refl, λ s. (slots_iso.inv s, slots_iso.rinv s, refl))
