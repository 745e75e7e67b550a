-- ===== src/Strings.antt =====
-- The memory and string functions of src/os/src/flexpret_utils.c, and the texts of numbers and the console of
-- src/os/src/flexpret_io.c. A memory gives the byte at each address; a pointer is an address, and 0 is
-- NULL. The buffers lie in the address space, so that the addresses in them do not wrap.
pub mod Hex
pub mod Copy
pub mod Digits
pub mod Short
pub mod Length
pub mod Console
use flexpret.Common.{ℕ, zero, suc, ◌+◌, ◌-◌, ◌%◌, Option, none, some, ◌==◌, if◌then◌else◌, update}
use flexpret.State.{null_ptr}

-- unsigned char memory[]
abbrev pub Memory : Type 0
Memory = ℕ → ℕ

-- The `for` of strlen, with `fuel` characters to look at: where `s` ends.
unfoldable pub scan : Memory → ℕ → ℕ → Option ℕ
scan m zero s = none
scan m (suc fuel) s = let rest = scan m fuel (s + 1) in if m s == 0 then some s else rest

-- strlen
unfoldable pub strlen : ℕ → Memory → ℕ → Option ℕ
unfolding scan
strlen fuel m str = elim (scan m fuel str) [ none ↦ none | some s ↦ some (s - str) ]

-- The `while` of strncpy, and the terminating zero.
unfoldable pub copy_text : ℕ → ℕ → ℕ → Memory → Memory
copy_text zero dest src m = update m dest 0
copy_text (suc size) dest src m =
    let rest = copy_text size (dest + 1) (src + 1) (update m dest (m src)) in
    if m src == 0 then update m dest 0 else rest

-- strncpy: the pointer that it answers, and the memory after it
unfoldable pub strncpy : ℕ → ℕ → ℕ → Memory → ℕ × Memory
unfolding copy_text
strncpy dest src size m =
    if dest == null_ptr then (null_ptr, m) else (dest, copy_text size dest src m)

-- The `for` of memset, with `left` bytes to write from index i on.
unfoldable pub fill : ℕ → ℕ → ℕ → ℕ → Memory → Memory
fill zero i s c m = m
fill (suc left) i s c m = fill left (i + 1) s c (update m (s + i) (c % 256))

-- memset
unfoldable pub memset : ℕ → ℕ → ℕ → Memory → ℕ × Memory
unfolding fill
memset s c n m = (s, fill n 0 s c m)

-- The `for` of memcpy, with `left` bytes to copy from index i on.
unfoldable pub copy_bytes : ℕ → ℕ → ℕ → ℕ → Memory → Memory
copy_bytes zero i d s m = m
copy_bytes (suc left) i d s m = copy_bytes left (i + 1) d s (update m (d + i) (m (s + i)))

-- memcpy
unfoldable pub memcpy : ℕ → ℕ → ℕ → Memory → ℕ × Memory
unfolding copy_bytes
memcpy dst src len m = (dst, copy_bytes len 0 dst src m)
