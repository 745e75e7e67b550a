-- ===== src/Kernel/Info.antt =====
-- `osKernelGetInfo` of src/os/src/flexpret_kernel.c, on a memory of bytes.
use flexpret.Common.{
  ℕ, ◌+◌, ◌-◌, ◌*◌, ◌/◌, ◌%◌, ◌^◌, not, ◌&&◌, leb, ◌==◌, if◌then◌else◌, Option, none, some, List,
  [], ◌∷◌, update,
}
use flexpret.State.{Ctx, Status, null_ptr, u32_mod}
use flexpret.Strings.{Memory, strlen, strncpy}
use flexpret.Strings.Hex.{itoa_hex_removing_ldz}

-- Where the objects of the function lie: the static qbuf, the array buf of its frame, and the string
-- literals "." and "\n".
pub record Places : Type 0 where
  pub qbuf : ℕ
  pub buf : ℕ
  pub dot : ℕ
  pub newline : ℕ

-- FLEXPRET_OS_VERSION, KERNEL_VER(1, 0, 0)
abbrev pub os_version : ℕ
os_version = 65536

-- KERNEL_VER_MAJOR, KERNEL_VER_MINOR, KERNEL_VER_PATCHLEVEL
abbrev pub kernel_ver_major : ℕ → ℕ
kernel_ver_major ver = ver / 2 ^ 16 % 256

abbrev pub kernel_ver_minor : ℕ → ℕ
kernel_ver_minor ver = ver / 2 ^ 8 % 256

abbrev pub kernel_ver_patchlevel : ℕ → ℕ
kernel_ver_patchlevel ver = ver % 256

-- id_size -= 1
abbrev pub less_one : ℕ → ℕ
less_one id_size = (id_size + u32_mod - 1) % u32_mod

-- What a round of the loop leaves: it returned, or id_buf and id_size are moved on.
pub data Printed : Type 0 where
  stop : Memory → Printed
  more : (id_buf id_size : ℕ) → Memory → Printed

-- What osKernelGetInfo answers after the loop.
abbrev pub printed_info : ℕ → Option Memory → Option (Status × Option (ℕ × ℕ) × Memory)
printed_info ver none = none
printed_info ver (some m) = some (Status.ok, some (ver, ver), m)

module _ (c : Ctx) (p : Places) where
  -- The first half of round i: the number v, whose text has at most eight characters.
  unfoldable pub print_number : ℕ → ℕ → ℕ → ℕ → Memory → Option Printed
  print_number i v id_buf id_size m =
      let (tmp, m1) = itoa_hex_removing_ldz c p.qbuf v m in
      let buf_i = p.buf + 9 * i in
      elim (strlen 9 m1 tmp) [
        | none ↦ none
        | some s ↦
            let m2 = (strncpy buf_i tmp s m1).1 in
            some (
              if leb s id_size
              then Printed.more (id_buf + s) (id_size - s) (strncpy id_buf buf_i s m2).1
              else Printed.stop (strncpy id_buf buf_i id_size m2).1)
      ]

  -- The loop, on the numbers that are left, each with the separator that follows it.
  unfoldable pub print_numbers : ℕ → List (ℕ × ℕ) → ℕ → ℕ → Memory → Option Memory
  unfolding print_number
  print_numbers i [] id_buf id_size m = some m
  print_numbers i ((v, separator) ∷ vs) id_buf id_size m =
      elim (print_number i v id_buf id_size m) [
        | none ↦ none
        | some (Printed.stop m') ↦ some m'
        | some (Printed.more b n m') ↦
            print_numbers (i + 1) vs (b + 1) (less_one n) (strncpy b separator 1 m').1
      ]

  -- osKernelGetInfo: the status, what is written to *version (api and kernel), and the memory
  unfoldable pub os_kernel_get_info : ℕ → ℕ → ℕ → Memory → Option (Status × Option (ℕ × ℕ) × Memory)
  unfolding print_numbers
  os_kernel_get_info version id_buf id_size m =
      let ver = os_version in
      let m1 = if id_size == 1 && not (id_buf == null_ptr) then update m id_buf 0 else m in
      let v =
        (kernel_ver_major ver, p.dot)
        ∷ (kernel_ver_minor ver, p.dot)
        ∷ (kernel_ver_patchlevel ver, p.newline)
        ∷ [] in
      if version == null_ptr
      then some (Status.error, none, m)
      else if id_buf == null_ptr
      then some (Status.error, some (ver, ver), m1)
      else printed_info ver (print_numbers 0 v id_buf (less_one id_size) m1)
