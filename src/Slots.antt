-- ===== src/Slots.antt =====
-- The slot register (CSR badvaddr) of src/os/include/flexpret_threads.h and `set_slot_num` of
-- src/os/src/flexpret_scheduler.c. The register holds eight fields of four bits; each names the hart that
-- runs in that slot, or says soft (any soft hart may run) or disabled.
pub mod Word
pub mod Count
pub mod Assign
pub mod Table
use flexpret.Common.{
  ℕ, ◌+◌, ◌-◌, ◌*◌, ◌/◌, ◌%◌, ◌^◌, Bool, some, List, [], ◌∷◌, ◌==◌, ltb, if◌then◌else◌, get_or,
}
use flexpret.State.{Status, System, max_hw_threads_nums}
use flexpret.State.Run.{M}

-- SLOT_S and SLOT_D
abbrev pub slot_s : ℕ
slot_s = 14

abbrev pub slot_d : ℕ
slot_d = 15

-- get_slots: the fields of the register's value.
abbrev pub get_slots : ℕ → List ℕ
get_slots w =
    w % 16
    ∷ (w / 2 ^ 4 % 16)
    ∷ (w / 2 ^ 8 % 16)
    ∷ (w / 2 ^ 12 % 16)
    ∷ (w / 2 ^ 16 % 16)
    ∷ (w / 2 ^ 20 % 16)
    ∷ (w / 2 ^ 24 % 16)
    ∷ (w / 2 ^ 28 % 16)
    ∷ []

-- set_slots: the value that is written. The shifted fields are disjoint, so `|` is a sum.
abbrev pub set_slots : List ℕ → ℕ
set_slots s =
    get_or s 7 0 % 16 * 2 ^ 28
    + get_or s 6 0 % 16 * 2 ^ 24
    + get_or s 5 0 % 16 * 2 ^ 20
    + get_or s 4 0 % 16 * 2 ^ 16
    + get_or s 3 0 % 16 * 2 ^ 12
    + get_or s 2 0 % 16 * 2 ^ 8
    + get_or s 1 0 % 16 * 2 ^ 4
    + get_or s 0 0 % 16

-- The loops that count the slots of one owner.
unfoldable pub count_slots : ℕ → List ℕ → ℕ
count_slots t [] = 0
count_slots t (x ∷ s) = (if x == t then 1 else 0) + count_slots t s

-- `active_count` of set_slot_num: a slot of `t` counts, and any other that is not disabled.
unfoldable pub active_count : ℕ → List ℕ → ℕ
active_count t [] = 0
active_count t (x ∷ s) = (if x == t then 1 else if x == slot_d then 0 else 1) + active_count t s

-- The loop that hands `n` disabled slots to `t`, from the first on. The array has type uint8_t.
unfoldable pub add_slots : ℕ → ℕ → List ℕ → List ℕ
add_slots t n [] = []
add_slots t n (x ∷ s) =
    let taken = (t % 256) ∷ (if n == 1 then s else add_slots t (n - 1) s) in
    let kept = x ∷ add_slots t n s in if x == slot_d then taken else kept

-- The loop that disables `n` slots of `t`, from the first on.
unfoldable pub remove_slots : ℕ → ℕ → List ℕ → List ℕ
remove_slots t n [] = []
remove_slots t n (x ∷ s) =
    let taken = slot_d ∷ (if n == 1 then s else remove_slots t (n - 1) s) in
    let kept = x ∷ remove_slots t n s in if x == t then taken else kept

-- The test for room: one slot stays disabled.
unfoldable pub no_room : ℕ → ℕ → List ℕ → Bool
no_room t count s = ltb (max_hw_threads_nums - 1) (active_count t s + (count - count_slots t s))

-- set_slot_num
unfoldable pub set_slot_num : ℕ → ℕ → M Status
unfolding no_room
set_slot_num t count s =
    let slots = get_slots s.slots in
    let thread_count = count_slots t slots in
    if count == thread_count
    then some (Status.ok, s)
    else if ltb thread_count count
    then (if no_room t count slots
        then some (Status.error, s)
        else some
            (Status.ok, record s { slots = set_slots (add_slots t (count - thread_count) slots) }))
    else some
        (Status.ok, record s { slots = set_slots (remove_slots t (thread_count - count) slots) })
