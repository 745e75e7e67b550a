-- ===== src/Strings/Hex.antt =====
-- `itoa_hex` and `itoa_hex_removing_ldz` of src/os/src/flexpret_io.c. `qbuf` is the address of the
-- array of buffers, one of nine characters for each hart.
use flexpret.Common.{ℕ, zero, suc, ◌+◌, ◌*◌, ◌/◌, ◌%◌, ltb, ◌==◌, if◌then◌else◌, update}
use flexpret.State.{Ctx}
use flexpret.Strings.{Memory}

-- qbuf[tid]
abbrev pub row : Ctx → ℕ → ℕ
row c qbuf = qbuf + 9 * c.hartid

-- (n & 15) + 48, and 7 more from 58 on
abbrev pub digit : ℕ → ℕ
digit n = let d = n % 16 + 48 in if ltb d 58 then d else d + 7

-- The loop over the digits, from index i - 1 down to 0.
unfoldable pub digits : ℕ → ℕ → ℕ → Memory → Memory
digits zero buf n m = m
digits (suc i) buf n m = digits i buf (n / 16) (update m (buf + i) (digit n))

-- itoa_hex
unfoldable pub itoa_hex : Ctx → ℕ → ℕ → Memory → ℕ × Memory
unfolding digits
itoa_hex c qbuf n m = let buf = row c qbuf in (buf, update (digits 8 buf n m) (buf + 8) 0)

-- The loop that skips zeros, from index i on, with `left` indices below 7: the last i.
unfoldable pub skip_zeros : ℕ → ℕ → ℕ → Memory → ℕ
skip_zeros zero i buf m = i
skip_zeros (suc left) i buf m =
    let rest = skip_zeros left (i + 1) buf m in if m (buf + i) == 48 then rest else i

-- itoa_hex_removing_ldz
unfoldable pub itoa_hex_removing_ldz : Ctx → ℕ → ℕ → Memory → ℕ × Memory
unfolding digits skip_zeros
itoa_hex_removing_ldz c qbuf n m =
    let buf = row c qbuf in
    let written = update (digits 8 buf n m) (buf + 8) 0 in
    (buf + skip_zeros 7 0 buf written, written)
