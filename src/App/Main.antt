-- ===== src/App/Main.antt =====
-- main of src/os/app/main.c: the benchmark programs started on all harts without the kernel.
use flexpret.Common.{
  ℕ, zero, suc, Bool, ◌&&◌, ◌==◌, Option, none, some, [], ◌∷◌, if◌then◌else◌, update,
}
use flexpret.State.{Ctx, System, null_ptr}
use flexpret.Slots.{set_slots}
use flexpret.Tmodes.{tmode_ha}
use flexpret.Kernel.Start.{set_tmodes}

-- hwthread_start; the stack address stays if NULL is given.
unfoldable pub hwthread_start : ℕ → ℕ → ℕ → System → System
hwthread_start tid func stack_address s =
    let h = s.startup_state tid in
    record s {
      startup_state = update s.startup_state tid (record h {
        func = func;
        stack_address = if stack_address == null_ptr then h.stack_address else stack_address;
      });
    }

unfoldable pub hwthread_done : ℕ → System → Bool
hwthread_done tid s = (s.startup_state tid).func == null_ptr

-- The calls of hwthread_start; `funcs` has the addresses of the seven programs.
unfoldable pub start_programs : (ℕ → ℕ) → System → System
unfolding hwthread_start
start_programs funcs s = hwthread_start 7 (funcs 7) null_ptr (
    hwthread_start 6 (funcs 6) null_ptr (
      hwthread_start 5 (funcs 5) null_ptr (
        hwthread_start 4 (funcs 4) null_ptr (
          hwthread_start 3 (funcs 3) null_ptr
            (hwthread_start 2 (funcs 2) null_ptr (hwthread_start 1 (funcs 1) null_ptr s))))))

-- The slots and the modes: hart i in slot i, all hard and active.
unfoldable pub raw_schedule : System → System
unfolding set_tmodes
raw_schedule s = record s {
  slots = set_slots (0 ∷ 1 ∷ 2 ∷ 3 ∷ 4 ∷ 5 ∷ 6 ∷ 7 ∷ []);
  tmodes =
      set_tmodes (
        tmode_ha ∷ tmode_ha ∷ tmode_ha ∷ tmode_ha ∷ tmode_ha ∷ tmode_ha ∷ tmode_ha ∷ tmode_ha ∷ []);
}

-- The condition of the loop, negated.
unfoldable pub all_done : System → Bool
unfolding hwthread_done
all_done s =
    hwthread_done 1 s
    && hwthread_done 2 s
    && hwthread_done 3 s
    && hwthread_done 4 s
    && hwthread_done 5 s
    && hwthread_done 6 s
    && hwthread_done 7 s

-- The loop; the other harts run between two of its tests.
unfoldable pub wait_done : Ctx → ℕ → System → Option System
unfolding all_done
wait_done c zero s = none
wait_done c (suc n) s =
    let again = wait_done c n (c.others n s) in if all_done s then some s else again

unfoldable pub raw_main : Ctx → (ℕ → ℕ) → System → Option System
unfolding start_programs raw_schedule wait_done
raw_main c funcs s = wait_done c c.rounds (raw_schedule (start_programs funcs s))
