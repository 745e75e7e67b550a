-- ===== src/Tmodes.antt =====
-- The thread mode register (CSR ptbr) of src/os/include/flexpret_threads.h, and `set_thread_mode` and its
-- callers of src/os/src/flexpret_scheduler.c. The register holds two bits for each hart: the high one says
-- soft, the low one says zombie.
pub mod Fields
pub mod Modes
use flexpret.Common.{
  ℕ, ◌+◌, ◌-◌, ◌*◌, ◌/◌, ◌%◌, ◌^◌, bit_and, bit_or, some, List, [], ◌∷◌, ◌==◌, if◌then◌else◌,
}
use flexpret.State.{Status, System}
use flexpret.State.Run.{M}

abbrev pub tmode_ha : ℕ
tmode_ha = 0

abbrev pub tmode_hz : ℕ
tmode_hz = 1

abbrev pub tmode_sa : ℕ
tmode_sa = 2

abbrev pub tmode_sz : ℕ
tmode_sz = 3

abbrev pub tmode_hard : ℕ
tmode_hard = 4

abbrev pub tmode_soft : ℕ
tmode_soft = 5

abbrev pub tmode_active : ℕ
tmode_active = 6

abbrev pub tmode_zombie : ℕ
tmode_zombie = 7

-- get_tmodes_8
abbrev pub get_tmodes : ℕ → List ℕ
get_tmodes w =
    w % 4
    ∷ (w / 2 ^ 2 % 4)
    ∷ (w / 2 ^ 4 % 4)
    ∷ (w / 2 ^ 6 % 4)
    ∷ (w / 2 ^ 8 % 4)
    ∷ (w / 2 ^ 10 % 4)
    ∷ (w / 2 ^ 12 % 4)
    ∷ (w / 2 ^ 14 % 4)
    ∷ []

-- csrrs and csrrc on ptbr: `w | mask` and `w & ~mask`.
abbrev pub set_bits : ℕ → ℕ → ℕ
set_bits w mask = bit_or w mask

abbrev pub clear_bits : ℕ → ℕ → ℕ
clear_bits w mask = w - bit_and w mask

pub hbit : ℕ → ℕ
hbit tid = 2 ^ (tid * 2 + 1)

pub lbit : ℕ → ℕ
lbit tid = 2 ^ (tid * 2)

-- The switch of set_thread_mode, on the value of the register.
pub switch_mode : ℕ → ℕ → ℕ → ℕ
switch_mode tid tmode w =
    if tmode == tmode_hard
    then clear_bits w (hbit tid)
    else if tmode == tmode_soft
    then set_bits w (hbit tid)
    else if tmode == tmode_active
    then clear_bits w (lbit tid)
    else if tmode == tmode_zombie
    then set_bits w (lbit tid)
    else if tmode == tmode_sz
    then set_bits (set_bits w (hbit tid)) (lbit tid)
    else if tmode == tmode_sa
    then clear_bits (set_bits w (hbit tid)) (lbit tid)
    else if tmode == tmode_hz
    then set_bits (clear_bits w (hbit tid)) (lbit tid)
    else if tmode == tmode_ha
    then clear_bits (clear_bits w (hbit tid)) (lbit tid)
    else w

-- set_thread_mode
unfoldable pub set_thread_mode : ℕ → ℕ → M Status
unfolding switch_mode hbit lbit
set_thread_mode tid tmode s = some (Status.ok, record s { tmodes = switch_mode tid tmode s.tmodes })
