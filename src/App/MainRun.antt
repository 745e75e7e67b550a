-- ===== src/App/MainRun.antt =====
-- What main of src/os/app/main.c starts, and that it ends.
use flexpret.Common.{ℕ, suc, ◌<◌, ◌≡◌, ◌≢◌, true, false}
use flexpret.State.{Ctx, System, null_ptr}
use flexpret.Slots.Assign.{slots_of}
use flexpret.Tmodes.{tmode_ha}
use flexpret.Tmodes.Modes.{tmode_of}
use flexpret.Scheduler.Harts.{is_live}
use flexpret.App.Main.{all_done}

-- Every hart is hard and active, with one slot of its own.
pub IsRoundRobin : System → Type 0
IsRoundRobin s = (i : ℕ) → i < 8 → (slots_of i s ≡ 1) × (tmode_of i s ≡ tmode_ha)

-- The programs have addresses.
unfoldable pub IsProgram : (ℕ → ℕ) → Type 0
IsProgram funcs = (i : ℕ) → 0 < i → i < 8 → funcs i ≢ null_ptr

-- What main starts, from s: every hart is hard and active with one slot of its own, so that each runs in one slot of
-- eight; harts 1 to 7 have the programs, and hart 0 what it had.
pub record Started (funcs : ℕ → ℕ) (s b : System) : Type 0 where
  pub round_robin : IsRoundRobin b
  pub live : (j : ℕ) → j < 8 → 0 < j → (is_live j b ≡ true) × ((b.startup_state j).func ≡ funcs j)
  pub own : (b.startup_state 0).func ≡ (s.startup_state 0).func

-- The rounds of main's wait, with `n` of them left: the other harts run between two looks, and in t for the first
-- time all programs are done.
pub data Waited (c : Ctx) : ℕ → System → System → Type 0 where
  at_end : {n : ℕ} {t : System} → all_done t ≡ true → Waited c n t t
  one_more :
      {n : ℕ} {b t : System}
      → all_done b ≡ false
      → Waited c n (c.others n b) t
      → Waited c (suc n) b t
