-- ===== src/Slots/Count.antt =====
-- How the two loops of set_slot_num change the number of slots that each owner has.
use flexpret.Common.{
  ℕ, zero, suc, ◌+◌, ◌-◌, ◌≤◌, ◌<◌, ◌≡◌, ◌≢◌, refl, List, [], ◌∷◌, length, get_or, arith,
}
use flexpret.Slots.{slot_d, count_slots, active_count, add_slots, remove_slots}
use flexpret.Slots.Word.{AllSlots}

-- The active slots are those that are not disabled.
pub active-add-disabled :
    (t : ℕ) (s : List ℕ) → t ≢ slot_d → active_count t s + count_slots slot_d s ≡ length s
unfolding active_count count_slots
active-add-disabled t [] h = refl
active-add-disabled t (x ∷ s) h = ground (arith, active-add-disabled t s h)

pub count_slots-le : (t : ℕ) (s : List ℕ) → t ≢ slot_d → count_slots t s ≤ active_count t s
unfolding active_count count_slots
count_slots-le t [] h = omega arith
count_slots-le t (x ∷ s) h = ground (arith, count_slots-le t s h)

module _ (t : ℕ) where
  pub length-add_slots : (n : ℕ) (s : List ℕ) → length (add_slots t n s) ≡ length s
  unfolding add_slots
  length-add_slots n [] = refl
  length-add_slots n (x ∷ s) = ground (arith, length-add_slots n s, length-add_slots (n - 1) s)

  pub length-remove_slots : (n : ℕ) (s : List ℕ) → length (remove_slots t n s) ≡ length s
  unfolding remove_slots
  length-remove_slots n [] = refl
  length-remove_slots n (x ∷ s) =
      ground (arith, length-remove_slots n s, length-remove_slots (n - 1) s)

  pub remove_slots-AllSlots : (n : ℕ) (s : List ℕ) → AllSlots s → AllSlots (remove_slots t n s)
  unfolding remove_slots
  remove_slots-AllSlots n [] h = tt
  remove_slots-AllSlots n (x ∷ s) h =
      ground (arith, remove_slots-AllSlots n s h.1, remove_slots-AllSlots (n - 1) s h.1)

  pub remove_slots_keeps :
      (u n i : ℕ) (s : List ℕ)
      → u ≢ t
      → get_or s i slot_d ≡ u
      → get_or (remove_slots t n s) i slot_d ≡ u
  unfolding remove_slots
  remove_slots_keeps u n i [] p h = h
  remove_slots_keeps u n zero (x ∷ s) p h = ground arith
  remove_slots_keeps u n (suc i) (x ∷ s) p h =
      ground (arith, remove_slots_keeps u n i s p h, remove_slots_keeps u (n - 1) i s p h)

  pub count-remove_slots_other :
      (u n : ℕ) (s : List ℕ)
      → u ≢ t
      → u ≢ slot_d
      → count_slots u (remove_slots t n s) ≡ count_slots u s
  unfolding remove_slots count_slots
  count-remove_slots_other u n [] p h = refl
  count-remove_slots_other u n (x ∷ s) p h =
      ground (arith, count-remove_slots_other u n s p h, count-remove_slots_other u (n - 1) s p h)

-- `t` is an owner: a hart, or the soft slots.
module _ (t : ℕ) (owner : t < slot_d) where
  pub add_slots-AllSlots : (n : ℕ) (s : List ℕ) → AllSlots s → AllSlots (add_slots t n s)
  unfolding add_slots
  add_slots-AllSlots n [] h = tt
  add_slots-AllSlots n (x ∷ s) h =
      ground (arith, add_slots-AllSlots n s h.1, add_slots-AllSlots (n - 1) s h.1)

  pub count-add_slots_self :
      (n : ℕ) (s : List ℕ)
      → 0 < n
      → n ≤ count_slots slot_d s
      → count_slots t (add_slots t n s) ≡ count_slots t s + n
  unfolding add_slots count_slots
  count-add_slots_self n [] p h = absurd (omega arith)
  count-add_slots_self n (x ∷ s) p h =
      ground (arith, count-add_slots_self n s, count-add_slots_self (n - 1) s)

  pub count-add_slots_other :
      (u n : ℕ) (s : List ℕ)
      → u ≢ t
      → u ≢ slot_d
      → count_slots u (add_slots t n s) ≡ count_slots u s
  unfolding add_slots count_slots
  count-add_slots_other u n [] p h = refl
  count-add_slots_other u n (x ∷ s) p h =
      ground (arith, count-add_slots_other u n s p h, count-add_slots_other u (n - 1) s p h)

  pub add_slots_keeps :
      (u n i : ℕ) (s : List ℕ)
      → u ≢ slot_d
      → get_or s i slot_d ≡ u
      → get_or (add_slots t n s) i slot_d ≡ u
  unfolding add_slots
  add_slots_keeps u n i [] p h = h
  add_slots_keeps u n zero (x ∷ s) p h = ground arith
  add_slots_keeps u n (suc i) (x ∷ s) p h =
      ground (arith, add_slots_keeps u n i s p h, add_slots_keeps u (n - 1) i s p h)

  pub count-remove_slots_self :
      (n : ℕ) (s : List ℕ)
      → 0 < n
      → n ≤ count_slots t s
      → count_slots t (remove_slots t n s) + n ≡ count_slots t s
  unfolding remove_slots count_slots
  count-remove_slots_self n [] p h = absurd (omega arith)
  count-remove_slots_self n (x ∷ s) p h =
      ground (arith, count-remove_slots_self n s, count-remove_slots_self (n - 1) s)
