-- ===== src/Mutex/Csr.antt =====
-- `write_mutex_csr` and `swap_mutex_csr` of src/os/src/flexpret_mutex.c
use flexpret.Common.{ℕ, ◌-◌, ◌^◌, ltb, if◌then◌else◌, update}
use flexpret.State.{System, mutex_max_num}

-- FLEXPRET_MUTEX_ACTIVE: the mutex is free; FLEXPRET_MUTEX_INACTIVE: it is taken.
abbrev pub csr_active : ℕ
csr_active = 0

abbrev pub csr_inactive : ℕ
csr_inactive = 1

-- write_mutex_csr
unfoldable pub write_mutex_csr : ℕ → ℕ → System → System
write_mutex_csr i val s =
    if ltb i mutex_max_num then record s { mutex_csr = update s.mutex_csr i val } else s

-- swap_mutex_csr: the value that was read, and the state after the write
unfoldable pub swap_mutex_csr : ℕ → ℕ → System → ℕ × System
swap_mutex_csr i val s =
    if ltb i mutex_max_num
    then (s.mutex_csr i, record s { mutex_csr = update s.mutex_csr i val })
    else (2 ^ 32 - 1, s)
