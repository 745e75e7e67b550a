-- ===== src/Scheduler/Harts.antt =====
-- The loops of src/os/src/flexpret_scheduler.c that count the live soft harts.
use flexpret.Common.{ℕ, ◌+◌, Bool, true, not, ◌&&◌, ◌||◌, List, [], ◌∷◌, ◌==◌, if◌then◌else◌}
use flexpret.State.{System, null_ptr}
use flexpret.Tmodes.{tmode_sa, tmode_sz}

-- `tmodes[i] == TMODE_SA || tmodes[i] == TMODE_SZ`
abbrev pub is_soft : ℕ → Bool
is_soft m = m == tmode_sa || m == tmode_sz

-- `startup_state[i].func != NULL`
abbrev pub is_live : ℕ → System → Bool
is_live i s = not ((s.startup_state i).func == null_ptr)

-- The harts that a loop looks at: all, or all but the one of `if (i == tid) continue;`.
abbrev pub everyone : ℕ → Bool
everyone i = true

abbrev pub all_but : ℕ → ℕ → Bool
all_but tid i = not (i == tid)

-- The loop over the modes, from hart i on.
unfoldable pub count_srtt : (ℕ → Bool) → System → ℕ → List ℕ → ℕ
count_srtt keep s i [] = 0
count_srtt keep s i (m ∷ ms) =
    (if keep i && is_soft m && is_live i s then 1 else 0) + count_srtt keep s (i + 1) ms
