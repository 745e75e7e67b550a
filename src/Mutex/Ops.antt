-- ===== src/Mutex/Ops.antt =====
-- The operations of src/os/src/flexpret_mutex.c but for the waits of osMutexAcquire.
use flexpret.Common.{
  ℕ, ◌+◌, ◌-◌, ◌/◌, ◌%◌, Bool, true, false, not, ◌||◌, Option, none, some, ◌==◌, leb, if◌then◌else◌,
  update,
}
use flexpret.State.{Ctx, System, Status, MutexState, null_ptr, mutex_max_num, u32_mod}
use flexpret.State.Run.{M}
use flexpret.Tid.{os_thread_get_id}
use flexpret.Mutex.Csr.{csr_active, write_mutex_csr}

-- osMutexAttr_t: the members that are read
pub record MutexAttr : Type 0 where
  pub name : ℕ
  pub attr_bits : ℕ

-- attr_bits & osMutexRecursive (1), & osMutexRobust (8)
abbrev pub is_recursive : ℕ → Bool
is_recursive bits = bits % 2 == 1

abbrev pub is_robust : ℕ → Bool
is_robust bits = bits / 8 % 2 == 1

-- mutex->count++ and mutex->count--, on the bits of an int
abbrev pub count_up : ℕ → ℕ
count_up n = (n + 1) % u32_mod

abbrev pub count_down : ℕ → ℕ
count_down n = (n + u32_mod - 1) % u32_mod

-- mutex->… = …
abbrev pub put_mutex : ℕ → MutexState → System → System
put_mutex m mu s = record s { startup_mutex_state = update s.startup_mutex_state m mu }

-- The mutex that osMutexNew makes.
abbrev pub new_mutex : MutexAttr → ℕ → MutexState
new_mutex attr mid = record {
  owner = null_ptr;
  name = attr.name;
  csr_addr = mid;
  count = 0;
  if_recursive = is_recursive attr.attr_bits;
  if_robust = is_robust attr.attr_bits;
  active = true;
  if_spin = false;
}

-- osMutexNew
unfoldable pub os_mutex_new : Option MutexAttr → M (Option ℕ)
unfolding write_mutex_csr
os_mutex_new none s = some (none, s)
os_mutex_new (some attr) s =
    if leb mutex_max_num s.mutex_num
    then some (none, s)
    else (let mid = s.mutex_num in
        some (
          some mid,
          write_mutex_csr mid csr_active
              (put_mutex mid (new_mutex attr mid) (record s { mutex_num = mid + 1 })),
        ))

-- osMutexRelease
unfoldable pub os_mutex_release : Ctx → Option ℕ → M Status
unfolding write_mutex_csr
os_mutex_release c none s = some (Status.error_parameter, s)
os_mutex_release c (some m) s =
    let mu = s.startup_mutex_state m in
    if not mu.active
    then some (Status.error_parameter, s)
    else if mu.owner == null_ptr || not (mu.owner == os_thread_get_id c)
    then some (Status.error_resource, s)
    else if count_down mu.count == 0
    then some (
      Status.ok,
      write_mutex_csr mu.csr_addr csr_active
          (put_mutex m (record mu { count = count_down mu.count; owner = null_ptr }) s),
    )
    else some (Status.ok, put_mutex m (record mu { count = count_down mu.count }) s)

-- osMutexGetOwner
unfoldable pub os_mutex_get_owner : Option ℕ → System → ℕ
os_mutex_get_owner none s = null_ptr
os_mutex_get_owner (some m) s =
    let mu = s.startup_mutex_state m in if not mu.active then null_ptr else mu.owner

-- osMutexGetName; 0 stands for the address of the empty string literal.
unfoldable pub os_mutex_get_name : Option ℕ → System → ℕ
os_mutex_get_name none s = 0
os_mutex_get_name (some m) s = (s.startup_mutex_state m).name

-- osMutexDelete
unfoldable pub os_mutex_delete : Option ℕ → M Status
os_mutex_delete none s = some (Status.error_parameter, s)
os_mutex_delete (some m) s =
    let mu = s.startup_mutex_state m in
    if not mu.active
    then some (Status.error_parameter, s)
    else some (Status.ok, put_mutex m (record mu { active = false }) s)

-- osMutexSetSpin
unfoldable pub os_mutex_set_spin : Option ℕ → Bool → M Status
os_mutex_set_spin none spin s = some (Status.error_parameter, s)
os_mutex_set_spin (some m) spin s =
    let mu = s.startup_mutex_state m in
    if not mu.active
    then some (Status.error_parameter, s)
    else some (Status.ok, put_mutex m (record mu { if_spin = spin }) s)

-- osMutexGetSpin
unfoldable pub os_mutex_get_spin : Option ℕ → System → Bool
os_mutex_get_spin none s = false
os_mutex_get_spin (some m) s =
    let mu = s.startup_mutex_state m in if not mu.active then false else mu.if_spin
