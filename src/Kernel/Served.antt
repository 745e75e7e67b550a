-- ===== src/Kernel/Served.antt =====
-- After osKernelStart every live hart has a slot to run in.
use flexpret.Common.{
  ℕ, zero, suc, ◌+◌, ◌<◌, ◌≡◌, inl, inr, refl, sym, ap, ◌∙◌, true, Option, none, some, List, [],
  ◌∷◌, get_or, length, update, if◌then◌else◌, arith, Bool-cases,
}
use flexpret.Mutex.Laws.{IsFree-same}
use flexpret.Scheduler.Locked.{CanLock}
use flexpret.State.{Ctx, System, Status, KernelState, ThreadState}
use flexpret.Slots.{slot_s, count_slots, get_slots, set_slots}
use flexpret.Slots.Word.{get_slots-set_slots}
use flexpret.Slots.Assign.{slots_of}
use flexpret.Tmodes.{get_tmodes, tmode_ha}
use flexpret.Tmodes.Modes.{tmode_of}
use flexpret.Scheduler.{entry_of}
use flexpret.Scheduler.Harts.{is_live}
use flexpret.Scheduler.Service.{IsServed, service}
use flexpret.Kernel.Start.{set_tmodes, Plan, plan, activate, os_kernel_start}
use flexpret.Kernel.Plan.{IsSupported, Planned, get_tmodes-set_tmodes, plan-small, plan-Planned}

-- One round of the loop that activates the threads.
abbrev activate_one : ℕ → System → System
activate_one i s =
    if is_live i s
    then record s {
      startup_state =
          update s.startup_state i (record (s.startup_state i) { state = ThreadState.active });
    }
    else s

activate_one-live : (i j : ℕ) (s : System) → is_live j (activate_one i s) ≡ is_live j s
activate_one-live i j s = elim (Bool-cases (is_live i s)) [
  | inl l ↦ rw l (ground arith)
  | inr l ↦ rw l refl
]

-- Activating the threads leaves their functions.
activate-live : (n i j : ℕ) (s : System) → is_live j (activate n i s) ≡ is_live j s
unfolding activate
activate-live zero i j s = refl
activate-live (suc n) i j s = activate-live n (i + 1) j (activate_one i s) ∙ activate_one-live i j s

-- Activating the threads leaves the mutexes.
record SameMutexes (s s' : System) : Type 0 where
  csr : s'.mutex_csr ≡ s.mutex_csr
  mutexes : s'.startup_mutex_state ≡ s.startup_mutex_state
  slot_mutex : s'.slot_mutex ≡ s.slot_mutex

activate_one-SameMutexes : (i : ℕ) (s : System) → SameMutexes s (activate_one i s)
activate_one-SameMutexes i s = elim (Bool-cases (is_live i s)) [
  | inl l ↦ rw l (record { csr = refl; mutexes = refl; slot_mutex = refl })
  | inr l ↦ rw l (record { csr = refl; mutexes = refl; slot_mutex = refl })
]

activate-SameMutexes : (n i : ℕ) (s : System) → SameMutexes s (activate n i s)
unfolding activate
activate-SameMutexes zero i s = record { csr = refl; mutexes = refl; slot_mutex = refl }
activate-SameMutexes (suc n) i s =
    let a = activate_one-SameMutexes i s in
    let b = activate-SameMutexes n (i + 1) (activate_one i s) in
    record {
      csr = b.csr ∙ a.csr;
      mutexes = b.mutexes ∙ a.mutexes;
      slot_mutex = b.slot_mutex ∙ a.slot_mutex;
    }

count_slots-pos : (l : List ℕ) (k t : ℕ) → k < length l → get_or l k 0 ≡ t → 0 < count_slots t l
unfolding count_slots
count_slots-pos [] k t h e = absurd (omega arith)
count_slots-pos (x ∷ l) zero t h e = ground arith
count_slots-pos (x ∷ l) (suc k) t h e = omega (arith, count_slots-pos l k t (omega arith) e)

-- The state that osKernelStart leaves, from the hart that has the soft slot, if there is one already.
started_from : Option ℕ → System → System
unfolding set_tmodes
started_from soft s =
    let p = plan 7 1 soft s in
    record (activate 7 1 s) {
      slots = set_slots (0 ∷ p.slots);
      tmodes = set_tmodes (tmode_ha ∷ p.modes);
      default_soft_slot_id = p.soft_id;
      kernel_state = KernelState.running;
    }

start-started_from :
    (s : System) → os_kernel_start s ≡ some (Status.ok, started_from s.default_soft_slot_id s)
unfolding os_kernel_start started_from
start-started_from s = refl

module _ (s : System) where
  first : Plan
  first = plan 7 1 none s

  abbrev started : System
  started = started_from none s

  started-live : (i : ℕ) → is_live i started ≡ is_live i s
  unfolding started_from
  started-live i = activate-live 7 1 i s

  started_slots : get_slots started.slots ≡ 0 ∷ first.slots
  unfolding started_from first
  started_slots =
      let (a, b, l, m) = plan-small 7 1 none s (omega arith) in
      get_slots-set_slots (0 ∷ first.slots) (ap suc l) (omega arith, a)

  started_modes : get_tmodes started.tmodes ≡ tmode_ha ∷ first.modes
  unfolding started_from first
  started_modes =
      let (a, b, l, m) = plan-small 7 1 none s (omega arith) in
      get_tmodes-set_tmodes (tmode_ha ∷ first.modes) (ap suc m) (omega arith, b)

  started-slots_of : (t : ℕ) → slots_of t started ≡ count_slots t (0 ∷ first.slots)
  unfolding slots_of
  started-slots_of t = ap (count_slots t) started_slots

  started-tmode_of : (i : ℕ) → tmode_of i started ≡ get_or (tmode_ha ∷ first.modes) i 0
  unfolding tmode_of
  started-tmode_of i = ap (λ m. get_or m i 0) started_modes

  first-Planned :
      (k : ℕ)
      → k < 7
      → is_live (suc k) s ≡ true
      → IsSupported (entry_of (suc k) s).priority
      → Planned (suc k) k none first × (length first.slots ≡ 7)
  unfolding first
  first-Planned k h l p = (
    plan-Planned 7 1 k (suc k) none s (omega arith) h l p,
    (plan-small 7 1 none s (omega arith)).2,
  )

  serves :
      (k : ℕ)
      → k < 7
      → Planned (suc k) k none first × (length first.slots ≡ 7)
      → 0 < service (suc k) started
  unfolding count_slots
  serves k h (inl (m, e), l) = ground (
    arith,
    started-tmode_of (suc k),
    started-slots_of (suc k),
    count_slots-pos first.slots k (suc k),
  )
  serves k h (inr (m, inl e), l) = ground (arith, started-tmode_of (suc k), started-slots_of slot_s)
  serves k h (inr (m, inr e), l) = absurd (e refl)

  started-IsServed :
      ((i : ℕ) → 0 < i → i < 8 → is_live i s ≡ true → IsSupported (entry_of i s).priority)
      → IsServed started
  unfolding count_slots
  started-IsServed h zero p l = ground (arith, started-tmode_of 0, started-slots_of 0)
  started-IsServed h (suc k) p l =
      let live = sym (started-live (suc k)) ∙ l in
      serves k (omega arith) (first-Planned k (omega arith) live (h (suc k) (omega arith) p live))

-- What osKernelStart leaves: it serves every live hart, and keeps the functions and the mutexes.
pub record IsStarted (s s' : System) : Type 0 where
  pub served : IsServed s'
  pub running : s'.kernel_state ≡ KernelState.running
  pub live : (i : ℕ) → is_live i s' ≡ is_live i s
  pub lock : (c : Ctx) (m : ℕ) → CanLock c m s → CanLock c m s'

pub os_kernel_start-IsStarted :
    (s : System)
    → s.default_soft_slot_id ≡ none
    → ((i : ℕ) → 0 < i → i < 8 → is_live i s ≡ true → IsSupported (entry_of i s).priority)
    → (s' : System) × (os_kernel_start s ≡ some (Status.ok, s')) × IsStarted s s'
unfolding started_from
os_kernel_start-IsStarted s e h =
    let a = activate-SameMutexes 7 1 s in
    (
      started_from none s,
      start-started_from s ∙ ap (λ soft. some (Status.ok, started_from soft s)) e,
      record {
        served = started-IsServed s h;
        running = refl;
        live = started-live s;
        lock = λ c m l. record {
          placed = l.placed;
          slot_mutex = a.slot_mutex ∙ l.slot_mutex;
          free = IsFree-same m s (started_from none s) a.mutexes a.csr l.free;
        };
      },
    )

-- osKernelStart answers osOK, and if every live thread but that of hart 0 has a supported priority, and no
-- soft slot was given before, then every live hart has a slot to run in, and the kernel is running.
os_kernel_start-IsServed :
    (s : System)
    → s.default_soft_slot_id ≡ none
    → ((i : ℕ) → 0 < i → i < 8 → is_live i s ≡ true → IsSupported (entry_of i s).priority)
    → (s' : System) × (os_kernel_start s ≡ some (Status.ok, s'))
      × IsServed s'
      × (s'.kernel_state ≡ KernelState.running)
os_kernel_start-IsServed s e h =
    let (s', p, t) = os_kernel_start-IsStarted s e h in (s', p, t.served, t.running)
