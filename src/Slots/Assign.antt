-- ===== src/Slots/Assign.antt =====
-- What set_slot_num does to the table of slots, as seen through the register.
use mathlib.Core.Path.{subst}
use flexpret.Common.{
  ℕ, ◌+◌, ◌-◌, ◌≤◌, ◌<◌, ◌≡◌, ◌≢◌, ◌⊎◌, inl, inr, refl, sym, List, get_or, arith, some, true, false,
  compare_cases,
}
use flexpret.State.{System, Status}
use flexpret.Slots.{
  slot_d, get_slots, set_slots, count_slots, add_slots, remove_slots, set_slot_num, no_room,
}
use flexpret.Slots.Word.{get_slots-AllSlots, get_slots-set_slots}
use flexpret.Slots.Count

-- The slots of an owner.
unfoldable pub slots_of : ℕ → System → ℕ
slots_of t s = count_slots t (get_slots s.slots)

-- The owner of the slot at position i.
unfoldable pub owner_at : ℕ → System → ℕ
owner_at i s = get_or (get_slots s.slots) i slot_d

-- The request is no larger than what `t` has, or a disabled slot is left over after it.
abbrev pub Room : ℕ → ℕ → System → Type 0
Room t count s = (count ≤ slots_of t s) ⊎ (count < slots_of t s + slots_of slot_d s)

-- `t` has `count` slots, every other owner has those that it had, in their positions, and nothing
-- but the slot register is different.
pub record Assigned (t count : ℕ) (s s' : System) : Type 0 where
  pub exact : slots_of t s' ≡ count
  pub others : (u : ℕ) → u ≢ t → u ≢ slot_d → slots_of u s' ≡ slots_of u s
  pub kept : (u i : ℕ) → u ≢ t → u ≢ slot_d → owner_at i s ≡ u → owner_at i s' ≡ u
  pub rest : s' ≡ record s { slots = s'.slots }

module _ (t : ℕ) (owner : t < slot_d) (s : System) where
  abbrev old : List ℕ
  old = get_slots s.slots

  grown : ℕ → System
  grown n = record s { slots = set_slots (add_slots t n old) }

  shrunk : ℕ → System
  shrunk n = record s { slots = set_slots (remove_slots t n old) }

  read_grown : (n : ℕ) → get_slots (grown n).slots ≡ add_slots t n old
  unfolding grown
  read_grown n =
      get_slots-set_slots (add_slots t n old) (Count.length-add_slots t n old)
        (Count.add_slots-AllSlots t owner n old (get_slots-AllSlots s.slots))

  read_shrunk : (n : ℕ) → get_slots (shrunk n).slots ≡ remove_slots t n old
  unfolding shrunk
  read_shrunk n =
      get_slots-set_slots (remove_slots t n old) (Count.length-remove_slots t n old)
        (Count.remove_slots-AllSlots t n old (get_slots-AllSlots s.slots))

  grown-Assigned :
      (count n : ℕ)
      → 0 < n
      → n ≤ slots_of slot_d s
      → slots_of t s + n ≡ count
      → Assigned t count s (grown n)
  unfolding slots_of owner_at
  grown-Assigned count n p h e = record {
    exact = rw (read_grown n) (omega (arith, Count.count-add_slots_self t owner n old p h));
    others = λ u q r. rw (read_grown n) (Count.count-add_slots_other t owner u n old q r);
    kept = λ u i q r e.
        subst (λ l. get_or l i slot_d ≡ u) (sym (read_grown n))
          (Count.add_slots_keeps t owner u n i old r e);
    rest = unfold grown in refl;
  }

  shrunk-Assigned : (count n : ℕ) → 0 < n → count + n ≡ slots_of t s → Assigned t count s (shrunk n)
  unfolding slots_of owner_at
  shrunk-Assigned count n p e = record {
    exact =
        rw (read_shrunk n)
          (omega (arith, Count.count-remove_slots_self t owner n old p (omega arith)));
    others = λ u q r. rw (read_shrunk n) (Count.count-remove_slots_other t u n old q r);
    kept = λ u i q r e.
        subst (λ l. get_or l i slot_d ≡ u) (sym (read_shrunk n))
          (Count.remove_slots_keeps t u n i old q e);
    rest = unfold shrunk in refl;
  }

  pub same-Assigned : (count : ℕ) → count ≡ slots_of t s → Assigned t count s s
  same-Assigned count e = record {
    exact = sym e;
    others = λ u q r. refl;
    kept = λ u i q r e. e;
    rest = refl;
  }

  Room-no_room : (count : ℕ) → slots_of t s < count → Room t count s → no_room t count old ≡ false
  unfolding no_room slots_of
  Room-no_room count h r = ground (arith, Count.active-add-disabled t old (omega arith))

  no_room_test : (count : ℕ) → ¬ Room t count s → no_room t count old ≡ true
  unfolding no_room slots_of
  no_room_test count r = ground (arith, Count.active-add-disabled t old (omega arith))

  set_slot_num-same :
      (count : ℕ) → count ≡ slots_of t s → set_slot_num t count s ≡ some (Status.ok, s)
  unfolding set_slot_num slots_of
  set_slot_num-same count e = ground arith

  set_slot_num-grown :
      (count : ℕ)
      → slots_of t s < count
      → no_room t count old ≡ false
      → set_slot_num t count s ≡ some (Status.ok, grown (count - slots_of t s))
  unfolding set_slot_num slots_of grown
  set_slot_num-grown count h r = ground arith

  set_slot_num-shrunk :
      (count : ℕ)
      → count < slots_of t s
      → set_slot_num t count s ≡ some (Status.ok, shrunk (slots_of t s - count))
  unfolding set_slot_num slots_of shrunk
  set_slot_num-shrunk count h = ground arith

  -- For an owner t other than the one of disabled slots, and a count for which there is room,
  -- set_slot_num answers osOK and gives t exactly `count` slots; every other owner keeps its slots, in
  -- their positions, and nothing but the slot register changes.
  pub set_slot_num_assigns :
      (count : ℕ)
      → Room t count s
      → (s' : System) × (set_slot_num t count s ≡ some (Status.ok, s')) × Assigned t count s s'
  set_slot_num_assigns count r = elim (compare_cases count (slots_of t s)) [
    | inl less ↦ (
      shrunk (slots_of t s - count),
      set_slot_num-shrunk count less,
      shrunk-Assigned count _ (omega arith) (omega arith),
    )
    | inr (inl same) ↦ (s, set_slot_num-same count same, same-Assigned count same)
    | inr (inr more) ↦ (
      grown (count - slots_of t s),
      set_slot_num-grown count more (Room-no_room count more r),
      grown-Assigned count _ (omega arith) (omega arith) (omega arith),
    )
  ]

  -- For an owner other than the one of disabled slots, and a count for which there is no room, set_slot_num answers osError and changes
  -- nothing.
  pub set_slot_num_refuses :
      (count : ℕ) → ¬ Room t count s → set_slot_num t count s ≡ some (Status.error, s)
  unfolding set_slot_num slots_of
  set_slot_num_refuses count r = ground (arith, no_room_test count r)
