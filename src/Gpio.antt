-- ===== src/Gpio.antt =====
-- The general purpose output ports of src/os/include/flexpret_io.h: four CSRs, uarch4 to uarch7.
use Prim.Native.Nat.{max}
use flexpret.Common.{ℕ, ◌-◌, ◌≡◌, ◌≢◌, ap, ◌∙◌, update, arith}
use flexpret.Common.Flags.{bit, bit-or, bit-clear}
use flexpret.Tmodes.{set_bits, clear_bits}

-- gpo_write_0 to gpo_write_3: the whole port
unfoldable pub gpo_write : ℕ → ℕ → (ℕ → ℕ) → ℕ → ℕ
gpo_write port val gpo = update gpo port val

-- gpo_set_0 to gpo_set_3
unfoldable pub gpo_set : ℕ → ℕ → (ℕ → ℕ) → ℕ → ℕ
gpo_set port mask gpo = update gpo port (set_bits (gpo port) mask)

-- gpo_clear_0 to gpo_clear_3
unfoldable pub gpo_clear : ℕ → ℕ → (ℕ → ℕ) → ℕ → ℕ
gpo_clear port mask gpo = update gpo port (clear_bits (gpo port) mask)

-- gpo_read_0 to gpo_read_3
abbrev pub gpo_read : ℕ → (ℕ → ℕ) → ℕ
gpo_read port gpo = gpo port

-- gpi_read_0 to gpi_read_3, of the CSRs uarch0 to uarch3
abbrev pub gpi_read : ℕ → (ℕ → ℕ) → ℕ
gpi_read port gpi = gpi port

-- The port that is written is read back.
self : (gpo : ℕ → ℕ) (port v : ℕ) → update gpo port v port ≡ v
self gpo port v = ground arith

-- gpo_set sets the bits of the mask and gpo_clear clears them; the other bits of the port and the other ports
-- stay. gpo_write replaces the port's value.
gpo_read-ports :
    (port mask j : ℕ) (gpo : ℕ → ℕ)
    → (bit j (gpo_read port (gpo_set port mask gpo)) ≡ max (bit j (gpo_read port gpo)) (bit j mask))
      × (bit j (gpo_read port (gpo_clear port mask gpo)) ≡ bit j (gpo_read port gpo) - bit j mask)
      × (gpo_read port (gpo_write port mask gpo) ≡ mask)
      × ((p : ℕ)
          → p ≢ port
          → (gpo_read p (gpo_set port mask gpo) ≡ gpo_read p gpo)
            × (gpo_read p (gpo_clear port mask gpo) ≡ gpo_read p gpo)
            × (gpo_read p (gpo_write port mask gpo) ≡ gpo_read p gpo))
unfolding gpo_set gpo_clear gpo_write
gpo_read-ports port mask j gpo = (
  ap (bit j) (self gpo port (set_bits (gpo port) mask)) ∙ bit-or j (gpo port) mask,
  ap (bit j) (self gpo port (clear_bits (gpo port) mask)) ∙ bit-clear j (gpo port) mask,
  self gpo port mask,
  λ p n. (ground arith, ground arith, ground arith),
)
