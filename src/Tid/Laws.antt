-- ===== src/Tid/Laws.antt =====
-- Addresses and hart numbers determine one another.
use flexpret.Common.{ℕ, ◌+◌, ◌≤◌, ◌<◌, ◌≡◌, ◌≢◌, ◌↔◌, arith}
use flexpret.State.{Ctx, thread_addr, timer_addr, u32_mod}
use flexpret.Tid.{get_tid, get_timer_tid, bad_tid}

-- The arrays lie in the address space and not at NULL, and the hart is one of the eight.
pub record IsPlaced (c : Ctx) : Type 0 where
  pub hart : c.hartid < 8
  pub threads_low : 0 < c.startup_state_addr
  pub threads_high : c.startup_state_addr + 128 ≤ u32_mod
  pub timers_low : 0 < c.startup_timer_state_addr
  pub timers_high : c.startup_timer_state_addr + 128 ≤ u32_mod

pub get_tid-thread_addr : (c : Ctx) (i : ℕ) → IsPlaced c → i < 8 → get_tid c (thread_addr c i) ≡ i
unfolding get_tid
get_tid-thread_addr c i v h = ground arith

pub get_timer_tid-timer_addr :
    (c : Ctx) (i : ℕ) → IsPlaced c → i < 8 → get_timer_tid c (timer_addr c i) ≡ i
unfolding get_timer_tid
get_timer_tid-timer_addr c i v h = ground arith

-- get_tid answers a hart or -1.
pub get_tid-range : (c : Ctx) (a : ℕ) → get_tid c a ≢ bad_tid → get_tid c a < 8
unfolding get_tid
get_tid-range c a n = ground arith

-- Where the arrays lie in the address space, get_tid answers i, for i below 8 and a 32-bit address,
-- exactly if the address is that of element i.
pub get_tid_iff :
    (c : Ctx) (a i : ℕ)
    → IsPlaced c
    → a < u32_mod
    → i < 8
    → (get_tid c a ≡ i) ↔ (a ≡ thread_addr c i)
unfolding get_tid
get_tid_iff c a i v p q = (λ e. ground arith, λ e. ground arith)

-- Where the arrays lie in the address space, get_tid answers -1 to every 32-bit address that is not the
-- address of one of the eight elements.
get_tid_bad :
    (c : Ctx) (a : ℕ)
    → IsPlaced c
    → a < u32_mod
    → ((i : ℕ) → i < 8 → a ≢ thread_addr c i)
    → get_tid c a ≡ bad_tid
unfolding get_tid
get_tid_bad c a v p h = ground (arith, h 0, h 1, h 2, h 3, h 4, h 5, h 6, h 7)
