-- ===== src/Tid.antt =====
-- `get_tid` and `get_timer_tid` of src/os/src/flexpret_utils.c, and `osThreadGetId` of
-- src/os/src/flexpret_threads.c: from addresses of elements of the state arrays to hart numbers.
pub mod Laws
use flexpret.Common.{ℕ, ◌+◌, ◌-◌, ◌*◌, ◌%◌, ◌^◌, ◌==◌, if◌then◌else◌}
use flexpret.State.{Ctx, sizeof_hwthread_state, sizeof_hwtimer_state, u32_mod, thread_addr}

-- (uint32_t) -1
abbrev pub bad_tid : ℕ
bad_tid = 2 ^ 32 - 1

-- (uint32_t) a - (uint32_t) b
abbrev pub sub32 : ℕ → ℕ → ℕ
sub32 a b = (a + u32_mod - b) % u32_mod

-- The comparisons of an offset with the multiples of an element's size, `size << 1` and so on.
unfoldable pub index_of_offset : ℕ → ℕ → ℕ → ℕ
index_of_offset size offset otherwise =
    if offset == 0
    then 0
    else if offset == size
    then 1
    else if offset == size * 2
    then 2
    else if offset == size * 2 + size
    then 3
    else if offset == size * 4
    then 4
    else if offset == size * 4 + size
    then 5
    else if offset == size * 4 + size * 2
    then 6
    else if offset == size * 4 + size * 2 + size
    then 7
    else otherwise

-- get_tid
unfoldable pub get_tid : Ctx → ℕ → ℕ
unfolding index_of_offset
get_tid c thread_id =
    index_of_offset sizeof_hwthread_state (sub32 thread_id c.startup_state_addr) bad_tid

-- get_timer_tid: an address that is no timer's counts as the timer of hart 0.
unfoldable pub get_timer_tid : Ctx → ℕ → ℕ
unfolding index_of_offset
get_timer_tid c timer_id =
    index_of_offset sizeof_hwtimer_state (sub32 timer_id c.startup_timer_state_addr) 0

-- osThreadGetId
abbrev pub os_thread_get_id : Ctx → ℕ
os_thread_get_id c = thread_addr c c.hartid
