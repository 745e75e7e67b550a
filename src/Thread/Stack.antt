-- ===== src/Thread/Stack.antt =====
-- `flexpret_thread_init_stack_addr` of src/os/src/flexpret_threads.c, for eight harts.
use flexpret.Common.{ℕ, ◌-◌, ◌+◌, ◌%◌, [], ◌∷◌, get_or}
use flexpret.State.{u32_mod}

unfoldable pub init_stack_addr : ℕ → ℕ
init_stack_addr tid =
    get_or
      (0x20003BFC ∷ 0x200057FC ∷ 0x200073FC ∷ 0x20008FFC ∷ 0x2000ABFC ∷ 0x2000C7FC ∷ 0x2000E3FC
        ∷ 0x2000FFFC ∷ [])
      tid 0

-- The distance to the stack of the hart before.
unfoldable pub default_stack_size : ℕ → ℕ
unfolding init_stack_addr
default_stack_size tid = (init_stack_addr tid + u32_mod - init_stack_addr (tid - 1)) % u32_mod
