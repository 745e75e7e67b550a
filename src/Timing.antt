-- ===== src/Timing.antt =====
-- The timing instructions of src/os/include/flexpret_timing.h and `osDelay` of
-- src/os/src/flexpret_threads.c.
pub mod Stats
pub mod Print
use flexpret.Common.{ℕ, ◌+◌, ◌%◌, update, some}
use flexpret.State.{Ctx, System, Status, off, interrupt, u32_mod}
use flexpret.State.Run.{M}

-- get_time
abbrev pub get_time : System → ℕ
get_time s = s.clock

-- set_compare; any write to `compare` also disables what was to happen when it expires.
unfoldable pub set_compare : Ctx → ℕ → System → System
set_compare c val s = record s {
  compare = update s.compare c.hartid val;
  expire = update s.expire c.hartid off;
}

-- interrupt_expire
unfoldable pub interrupt_expire : Ctx → System → System
interrupt_expire c s = record s { expire = update s.expire c.hartid interrupt }

-- delay_until, in a wait with `n` rounds left: the hart does nothing, the others run.
unfoldable pub delay_until : Ctx → ℕ → System → System
delay_until c n s = c.others n s

-- delay_until_periodic, for a time that the caller drops
unfoldable pub delay_until_periodic : Ctx → ℕ → ℕ → ℕ → System → System
unfolding set_compare delay_until
delay_until_periodic c n time period s =
    delay_until c n (set_compare c ((time + period) % u32_mod) s)

-- osDelay
unfoldable pub os_delay : Ctx → ℕ → ℕ → M Status
unfolding delay_until_periodic
os_delay c n ticks s = some (Status.ok, delay_until_periodic c n (get_time s) ticks s)
