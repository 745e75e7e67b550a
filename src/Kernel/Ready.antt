-- ===== src/Kernel/Ready.antt =====
-- What osKernelInitialize and osKernelReset leave: the slot mutex can be taken at once, and after a
-- reset hart 0 alone has a thread, and a slot to run in.
use flexpret.Common.{
  ◌-◌, not, ◌==◌, get_or, update, ℕ, zero, suc, ◌<◌, ◌≡◌, refl, sym, ap, ◌∙◌, true, false, none,
  some, arith, each_of_8,
}
use mathlib.Core.Path.{subst}
use flexpret.State.{
  Ctx, System, Status, AttrPtr, KernelState, ThreadState, HwThread, hw_threads_nums,
}
use flexpret.Tid.Laws.{IsPlaced}
use flexpret.Scheduler.Locked.{CanLock}
use flexpret.Mutex.Ops.{os_mutex_new, os_mutex_set_spin}
use flexpret.Slots.{count_slots, get_slots, slot_d}
use flexpret.Slots.Assign.{slots_of}
use flexpret.Tmodes.{get_tmodes, tmode_ha}
use flexpret.Tmodes.Modes.{tmode_of}
use flexpret.Scheduler.Harts.{is_live}
use flexpret.Scheduler.Service.{IsServed}
use flexpret.Kernel.Init.{os_kernel_initialize}
use flexpret.Kernel.{os_kernel_reset, reset_threads, reset_handlers}

-- The kernel is ready: the slot mutex is mutex 0, free, recursive and spinning, no other mutex is
-- active, no thread or timer has attributes of the caller's.
pub record IsReady (c : Ctx) (s : System) : Type 0 where
  pub lock : CanLock c 0 s
  pub recursive : (s.startup_mutex_state 0).if_recursive ≡ true
  pub spin : (s.startup_mutex_state 0).if_spin ≡ true
  pub others : (i : ℕ) → i < 8 → 0 < i → (s.startup_mutex_state i).active ≡ false
  pub entries : (i : ℕ) → i < 8 → s.thread_attr_entry i ≡ AttrPtr.own i
  pub timers : (i : ℕ) → i < 8 → s.timer_attr_entry i ≡ AttrPtr.null
  pub state : s.kernel_state ≡ KernelState.ready

-- osKernelInitialize leaves the registers and the threads' functions.
pub record KeepsRegs (s s' : System) : Type 0 where
  pub slots : s'.slots ≡ s.slots
  pub tmodes : s'.tmodes ≡ s.tmodes
  pub soft : s'.default_soft_slot_id ≡ s.default_soft_slot_id
  pub threads : s'.thread_num ≡ s.thread_num
  pub func : (i : ℕ) → (s'.startup_state i).func ≡ (s.startup_state i).func
  pub users : s'.user_thread_attr ≡ s.user_thread_attr

set_state-func :
    (f : ℕ → HwThread) (t : ThreadState) (i : ℕ)
    → (update f 0 (record (f 0) { state = t }) i).func ≡ (f i).func
set_state-func f t zero = refl
set_state-func f t (suc i) = ground arith

module _ (c : Ctx) (bss_end : ℕ) (placed : IsPlaced c) (s : System) where
  initialized :
      (s' : System) × (os_kernel_initialize c bss_end (record s { mutex_num = 0 })
        ≡ some (Status.ok, s'))
      × IsReady c s'
      × KeepsRegs s s'
  unfolding os_kernel_initialize os_mutex_new os_mutex_set_spin
  initialized = (
    _,
    refl,
    record {
      lock = record {
        placed = placed;
        slot_mutex = refl;
        free = record {
          active = refl;
          csr_addr = omega arith;
          csr = refl;
          owner = refl;
          count = refl;
        };
      };
      recursive = refl;
      spin = refl;
      others = each_of_8 _ (
        λ p. absurd (omega arith),
        λ p. refl,
        λ p. refl,
        λ p. refl,
        λ p. refl,
        λ p. refl,
        λ p. refl,
        λ p. refl,
      );
      entries = each_of_8 _ (refl, refl, refl, refl, refl, refl, refl, refl);
      timers = each_of_8 _ (refl, refl, refl, refl, refl, refl, refl, refl);
      state = refl;
    },
    record {
      slots = refl;
      tmodes = refl;
      soft = refl;
      threads = refl;
      func = set_state-func s.startup_state ThreadState.active;
      users = refl;
    },
  )

  -- osKernelInitialize answers osOK if no mutex was made before: the slot mutex is then mutex 0, free,
  -- recursive and spinning, so that a scheduler call can take it at once; no other mutex is active, every
  -- hart's entry points to its own attributes, no hart has a timer, and the kernel is ready. The slots,
  -- the modes, the default soft slot and the threads' functions are as before.
  os_kernel_initialize-IsReady :
      s.mutex_num ≡ 0
      → (s' : System) × (os_kernel_initialize c bss_end s ≡ some (Status.ok, s'))
        × IsReady c s'
        × KeepsRegs s s'
  os_kernel_initialize-IsReady e =
      subst
        (λ t.
          (s' : System) × (os_kernel_initialize c bss_end t ≡ some (Status.ok, s'))
          × IsReady c s'
          × KeepsRegs s s')
        (sym (ap (λ n. record s { mutex_num = n }) e)) initialized

-- The state that osKernelReset hands to osKernelInitialize.
reset_state : System → System
unfolding reset_threads reset_handlers
reset_state s =
    reset_handlers hw_threads_nums 0
      (record (reset_threads (hw_threads_nums - 1) 1
        (record s { slots = 0xfffffff0; tmodes = 0x55555554 })) {
          thread_num = 1;
          default_soft_slot_id = none;
          mutex_num = 0;
        })

-- After a reset hart 0 alone can have a thread, with one slot of its own.
pub record IsReset (s : System) : Type 0 where
  pub alone : (i : ℕ) → i < 8 → 0 < i → is_live i s ≡ false
  pub slot : slots_of 0 s ≡ 1
  pub disabled : slots_of slot_d s ≡ 7
  pub mode : tmode_of 0 s ≡ tmode_ha
  pub threads : s.thread_num ≡ 1
  pub soft : s.default_soft_slot_id ≡ none

reset_state-IsReset : (s : System) → IsReset (reset_state s)
unfolding reset_state slots_of count_slots tmode_of
reset_state-IsReset s = record {
  alone = each_of_8 _ (
    λ p. absurd (omega arith),
    λ p. refl,
    λ p. refl,
    λ p. refl,
    λ p. refl,
    λ p. refl,
    λ p. refl,
    λ p. refl,
  );
  slot = refl;
  disabled = refl;
  mode = refl;
  threads = refl;
  soft = refl;
}

KeepsRegs-IsReset : (s s' : System) → KeepsRegs s s' → IsReset s → IsReset s'
unfolding slots_of tmode_of
KeepsRegs-IsReset s s' k r = record {
  alone = λ i p q. ap (λ f. not (f == 0)) (k.func i) ∙ r.alone i p q;
  slot = ap (λ w. count_slots 0 (get_slots w)) k.slots ∙ r.slot;
  disabled = ap (λ w. count_slots slot_d (get_slots w)) k.slots ∙ r.disabled;
  mode = ap (λ w. get_or (get_tmodes w) 0 0) k.tmodes ∙ r.mode;
  threads = k.threads ∙ r.threads;
  soft = k.soft ∙ r.soft;
}

reset-initialize :
    (c : Ctx) (bss_end : ℕ) (s : System)
    → os_kernel_reset c bss_end s
      ≡ os_kernel_initialize c bss_end (record (reset_state s) { mutex_num = 0 })
unfolding os_kernel_reset reset_state
reset-initialize c bss_end s = refl

IsReset-IsServed : (s : System) → IsReset s → IsServed s
IsReset-IsServed s r zero p l = ground (arith, r.slot, r.mode)
IsReset-IsServed s r (suc i) p l = ground (arith, r.alone (suc i))

reset_state-users : (s : System) → (reset_state s).user_thread_attr ≡ s.user_thread_attr
unfolding reset_state
reset_state-users s = refl

-- What osKernelReset leaves, and that the caller's objects are as before.
pub IsReset-keeps :
    (c : Ctx) (bss_end : ℕ) (s : System)
    → IsPlaced c
    → (s' : System) × (os_kernel_reset c bss_end s ≡ some (Status.ok, s'))
      × IsReady c s'
      × IsReset s'
      × (s'.user_thread_attr ≡ s.user_thread_attr)
IsReset-keeps c bss_end s placed =
    let (s', e, r, k) = initialized c bss_end placed (reset_state s) in
    (
      s',
      reset-initialize c bss_end s ∙ e,
      r,
      KeepsRegs-IsReset (reset_state s) s' k (reset_state-IsReset s),
      k.users ∙ reset_state-users s,
    )

-- osKernelReset answers osOK in every state, and leaves the kernel ready: hart 0 alone can have a thread,
-- it is hard and has one slot, the other seven slots are disabled, and every live hart has a slot to run in.
os_kernel_reset-IsReset :
    (c : Ctx) (bss_end : ℕ) (s : System)
    → IsPlaced c
    → (s' : System) × (os_kernel_reset c bss_end s ≡ some (Status.ok, s'))
      × IsReady c s'
      × IsReset s'
      × IsServed s'
os_kernel_reset-IsReset c bss_end s placed =
    let (s', e, r, t, u) = IsReset-keeps c bss_end s placed in (s', e, r, t, IsReset-IsServed s' t)
