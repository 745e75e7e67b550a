-- ===== src/Kernel/Boot.antt =====
-- A start-up of the system: osKernelReset, osThreadNew for the threads of a list, and osKernelStart.
use native.Mathlib.Decide.{dec_lt}
use mathlib.Core.Path.{subst}
use flexpret.Common.{
  ℕ, zero, suc, ◌+◌, ◌<◌, ◌≤◌, ◌≡◌, ◌≢◌, inl, inr, refl, sym, ap, ◌∙◌, true, false, not, ◌==◌, leb,
  none, some, List, [], ◌∷◌, length, arith,
}
use flexpret.State.{Ctx, System, Status, KernelState, AttrPtr, null_ptr, thread_addr}
use flexpret.State.Run.{M, ◌>>=◌, pure}
use flexpret.Tid.Laws.{IsPlaced}
use flexpret.Scheduler.{entry_of, thread_attr_at}
use flexpret.Scheduler.Harts.{is_live}
use flexpret.Scheduler.Locked.{CanLock}
use flexpret.Thread.{os_thread_new, refuses, schedule_new, new_attr, is_running, is_unsupported}
use flexpret.Thread.Attr.{wanted}
use flexpret.Thread.Enter.{IsEntry, IsCallers, Enters, set_up-Enters}
use flexpret.Thread.Exit.{IsCalm}
use flexpret.Thread.New.{
  refuses-wanted, wanted-count, made, count-KeepsOthers, made-priority, made-live, made-CanLock,
  start_thread-steps, os_thread_new-steps,
}
use flexpret.Kernel.{os_kernel_reset}
use flexpret.Kernel.Start.{os_kernel_start}
use flexpret.Kernel.Plan.{IsSupported}
use flexpret.Kernel.Ready.{IsReady, IsReset, IsReset-keeps}
use flexpret.Kernel.Served.{os_kernel_start-IsStarted}

-- The arguments of a call of osThreadNew.
pub record NewThread : Type 0 where
  pub func : ℕ
  pub argument : ℕ
  pub attr : AttrPtr

-- The calls of osThreadNew, with their answers.
unfoldable pub new_threads : Ctx → List NewThread → M (List ℕ)
new_threads c [] = pure []
new_threads c (t ∷ ts) = do
  id ← os_thread_new c t.func t.argument t.attr
  ids ← new_threads c ts
  pure (id ∷ ids)

-- The start-up, with the identifiers of the threads.
unfoldable pub boot : Ctx → ℕ → List NewThread → M (List ℕ)
unfolding new_threads
boot c bss_end ts =
    os_kernel_reset c bss_end >>= λ _. new_threads c ts >>= λ ids. os_kernel_start >>= λ _. pure ids

-- A call with a function, and with attributes of the caller's that are supported, or none.
pub record IsAccepted (s : System) (t : NewThread) : Type 0 where
  pub func : t.func ≢ null_ptr
  pub caller : IsCallers t.attr
  pub accepted : refuses t.attr s ≡ false

abbrev pub AllAccepted : System → List NewThread → Type 0
AllAccepted s [] = Unit {0}
AllAccepted s (t ∷ ts) = IsAccepted s t × AllAccepted s ts

-- The kernel is not started, and threads were made for the harts below thread_num.
record IsFilling (c : Ctx) (s : System) : Type 0 where
  some_thread : 0 < s.thread_num
  kernel : s.kernel_state ≡ KernelState.ready
  soft : s.default_soft_slot_id ≡ none
  lock : CanLock c 0 s
  unused : (i : ℕ) → i < 8 → s.thread_num ≤ i → is_live i s ≡ false
  own : (i : ℕ) → i < 8 → s.thread_num ≤ i → s.thread_attr_entry i ≡ AttrPtr.own i
  entries : (i : ℕ) → i < 8 → i < s.thread_num → IsEntry i (s.thread_attr_entry i)
  used : (i : ℕ) → 0 < i → i < s.thread_num → is_live i s ≡ true
  supported : (i : ℕ) → 0 < i → i < s.thread_num → IsSupported (entry_of i s).priority

read_count :
    (q : AttrPtr) (n : ℕ) (s : System)
    → thread_attr_at q (record s { thread_num = n }) ≡ thread_attr_at q s
unfolding thread_attr_at
read_count AttrPtr.null n s = refl
read_count (AttrPtr.own i) n s = refl
read_count (AttrPtr.user k) n s = refl

wanted-IsSupported : (p : AttrPtr) (s : System) → refuses p s ≡ false → IsSupported (wanted p s)
wanted-IsSupported p s r = elim (refuses-wanted p s r) [
  | inl e ↦ subst IsSupported (sym e) tt
  | inr e ↦ subst IsSupported (sym e) tt
]

-- The same attributes are accepted where the caller's objects have the same priorities.
refuses-same :
    (p : AttrPtr) (s s' : System)
    → IsCallers p
    → ((k : ℕ) → (s'.user_thread_attr k).priority ≡ (s.user_thread_attr k).priority)
    → refuses p s' ≡ refuses p s
unfolding refuses thread_attr_at
refuses-same AttrPtr.null s s' h e = refl
refuses-same (AttrPtr.own i) s s' h e = absurd h
refuses-same (AttrPtr.user k) s s' h e = ap is_unsupported (e k)

AllAccepted-same :
    (s s' : System) (ts : List NewThread)
    → ((k : ℕ) → (s'.user_thread_attr k).priority ≡ (s.user_thread_attr k).priority)
    → AllAccepted s ts
    → AllAccepted s' ts
AllAccepted-same s s' [] e h = tt
AllAccepted-same s s' (t ∷ ts) e (h, hs) = (
  record {
    func = h.func;
    caller = h.caller;
    accepted = refuses-same t.attr s s' h.caller e ∙ h.accepted;
  },
  AllAccepted-same s s' ts e hs,
)

module _ (c : Ctx) (s : System) (t : NewThread) (fill : IsFilling c s) (ok : IsAccepted s t)
    (room : s.thread_num < 8) where
  abbrev counted : System
  counted = record s { thread_num = s.thread_num + 1 }

  abbrev next : System
  next = made c t.func t.argument t.attr s

  keeps-Enters : Enters s.thread_num counted next
  keeps-Enters =
      set_up-Enters c s.thread_num t.func t.argument t.attr counted ok.caller
        (fill.own s.thread_num room (omega arith))

  next_count : next.thread_num ≡ s.thread_num + 1
  next_count = (count-KeepsOthers c t.func t.argument t.attr s).count

  next_live : (i : ℕ) → i ≢ s.thread_num → is_live i next ≡ is_live i s
  next_live i n =
      ap (λ f. not (f == null_ptr)) ((count-KeepsOthers c t.func t.argument t.attr s).func i n)

  next_used : (i : ℕ) → 0 < i → i < s.thread_num + 1 → is_live i next ≡ true
  next_used i p h = elim (dec_lt i s.thread_num) [
    | yes old ↦ next_live i (omega arith) ∙ fill.used i p old
    | no new ↦
        let e : i ≡ s.thread_num = omega arith in
        rw e (made-live c t.func t.argument t.attr s ok.func)
  ]

  next_entry : (i : ℕ) → i < s.thread_num + 1 → IsEntry i (next.thread_attr_entry i)
  next_entry i h = elim (dec_lt i s.thread_num) [
    | yes old ↦
        subst (IsEntry i) (sym (keeps-Enters.pointers i (omega arith)))
          (fill.entries i (omega arith) old)
    | no new ↦ let e : i ≡ s.thread_num = omega arith in rw e keeps-Enters.entry
  ]

  next_priority : (i : ℕ) → 0 < i → i < s.thread_num + 1 → IsSupported (entry_of i next).priority
  next_priority i p h = elim (dec_lt i s.thread_num) [
    | yes old ↦
        let kept =
          keeps-Enters.priorities i (omega arith) (fill.entries i (omega arith) old)
          ∙ ap (λ a. a.priority) (read_count (s.thread_attr_entry i) (s.thread_num + 1) s) in
        subst IsSupported (sym kept) (fill.supported i p old)
    | no new ↦
        let e : i ≡ s.thread_num = omega arith in
        let given =
          made-priority c t.func t.argument t.attr s ∙ wanted-count t.attr (s.thread_num + 1) s in
        rw e (subst IsSupported (sym given) (wanted-IsSupported t.attr s ok.accepted))
  ]

  next-IsFilling : IsFilling c next
  next-IsFilling = record {
    some_thread = omega (arith, next_count);
    kernel = (count-KeepsOthers c t.func t.argument t.attr s).kernel ∙ fill.kernel;
    soft = keeps-Enters.soft ∙ fill.soft;
    lock = made-CanLock c t.func t.argument t.attr s 0 fill.lock;
    unused = λ i h p.
        next_live i (omega (arith, next_count)) ∙ fill.unused i h (omega (arith, next_count));
    own = λ i h p.
        keeps-Enters.pointers i (omega (arith, next_count))
        ∙ fill.own i h (omega (arith, next_count));
    entries = λ i h p. next_entry i (omega (arith, next_count));
    used = λ i p q. next_used i p (omega (arith, next_count));
    supported = λ i p q. next_priority i p (omega (arith, next_count));
  }

  not_scheduled :
      (u : System)
      → u.kernel_state ≡ KernelState.ready
      → schedule_new c s.thread_num u ≡ some (Status.ok, u)
  unfolding schedule_new
  not_scheduled u e = let f : is_running u.kernel_state ≡ false = ap is_running e in rw f refl

  os_thread_new-next :
      os_thread_new c t.func t.argument t.attr s ≡ some (thread_addr c s.thread_num, next)
  os_thread_new-next =
      os_thread_new-steps c s t.func t.argument t.attr ok.func room ok.accepted
      ∙ start_thread-steps c s.thread_num t.func t.argument (new_attr c s.thread_num t.attr counted)
          next Status.ok (not_scheduled next next-IsFilling.kernel)

-- The addresses of the threads from hart i on.
abbrev pub addresses : Ctx → ℕ → ℕ → List ℕ
addresses c i zero = []
addresses c i (suc n) = thread_addr c i ∷ addresses c (i + 1) n

module _ (c : Ctx) where
  new_threads-steps :
      (t : NewThread) (ts : List NewThread) (s s1 s2 : System) (id : ℕ) (ids : List ℕ)
      → os_thread_new c t.func t.argument t.attr s ≡ some (id, s1)
      → new_threads c ts s1 ≡ some (ids, s2)
      → new_threads c (t ∷ ts) s ≡ some (id ∷ ids, s2)
  unfolding new_threads
  new_threads-steps t ts s s1 s2 id ids p q = rw (p, ◌>>=◌, q) refl

  new_threads-IsFilling :
      (ts : List NewThread) (s : System)
      → IsFilling c s
      → AllAccepted s ts
      → s.thread_num + length ts ≤ 8
      → (s' : System) × (new_threads c ts s ≡ some (addresses c s.thread_num (length ts), s'))
        × IsFilling c s'
        × (s'.thread_num ≡ s.thread_num + length ts)
  unfolding new_threads
  new_threads-IsFilling [] s f a h = (s, refl, f, omega arith)
  new_threads-IsFilling (t ∷ ts) s f (a, rest) h =
      let room : s.thread_num < 8 = omega arith in
      let n = next_count c s t f a room in
      let users : (k : ℕ)
          → ((next c s t f a room).user_thread_attr k).priority ≡ (s.user_thread_attr k).priority =
        (keeps-Enters c s t f a room).users in
      let (s', e, g, q) =
        new_threads-IsFilling ts (next c s t f a room) (next-IsFilling c s t f a room)
          (AllAccepted-same s (next c s t f a room) ts users rest) (omega (arith, n)) in
      (
        s',
        new_threads-steps t ts s (next c s t f a room) s' (thread_addr c s.thread_num) _
            (os_thread_new-next c s t f a room)
            (e ∙ ap (λ k. some (addresses c k (length ts), s')) n),
        g,
        omega (arith, q, n),
      )

-- What osKernelReset leaves is ready for threads.
IsReset-IsFilling : (c : Ctx) (s : System) → IsReady c s → IsReset s → IsFilling c s
IsReset-IsFilling c s r t = record {
  some_thread = omega (arith, t.threads);
  kernel = r.state;
  soft = t.soft;
  lock = r.lock;
  unused = λ i h p. t.alone i h (omega (arith, t.threads));
  own = λ i h p. r.entries i h;
  entries = λ i h p. inl (r.entries i h);
  used = λ i p q. absurd (omega (arith, t.threads));
  supported = λ i p q. absurd (omega (arith, t.threads));
}

-- From any state of the system, osKernelReset, then osThreadNew for a list of at most seven threads, each
-- with a function and with attributes of the caller's that are supported (or none), and then
-- osKernelStart: the threads get the addresses of the harts 1, 2, 3 and so on, of the harts above 0 just
-- these are live, the kernel runs, the slot mutex is free, and every live hart has a slot to run in.
pub boot-IsServed :
    (c : Ctx) (bss_end : ℕ) (ts : List NewThread) (s : System)
    → IsPlaced c
    → AllAccepted s ts
    → length ts < 8
    → (s' : System) × (boot c bss_end ts s ≡ some (addresses c 1 (length ts), s'))
      × IsCalm c 0 s'
      × (s'.kernel_state ≡ KernelState.running)
      × ((i : ℕ) → 0 < i → i < 8 → is_live i s' ≡ leb i (length ts))
unfolding boot
boot-IsServed c bss_end ts s placed accepted h =
    let (s1, e, r, t, u) = IsReset-keeps c bss_end s placed in
    let users : (k : ℕ) → (s1.user_thread_attr k).priority ≡ (s.user_thread_attr k).priority =
      λ k. ap (λ f. (f k).priority) u in
    let (s2, p, f, n) =
      new_threads-IsFilling c ts s1 (IsReset-IsFilling c s1 r t)
        (AllAccepted-same s s1 ts users accepted) (omega (arith, t.threads)) in
    let total : s2.thread_num ≡ suc (length ts) = omega (arith, n, t.threads) in
    let live : (i : ℕ) → 0 < i → i < 8 → is_live i s2 ≡ leb i (length ts) = λ i q k.
      elim (dec_lt i s2.thread_num) [
        | yes made ↦ ground (arith, f.used i q made, total)
        | no other ↦ ground (arith, f.unused i k (omega (arith, other)), total)
      ] in
    let (s3, q, d) =
      os_kernel_start-IsStarted s2 f.soft
        (λ i a b l. f.supported i a (ground (arith, live i a b, l, total))) in
    let first = p ∙ ap (λ k. some (addresses c k (length ts), s2)) t.threads in
    (
      s3,
      rw (e, ◌>>=◌, first, q) refl,
      (d.lock c 0 f.lock, d.served),
      d.running,
      λ i a b. d.live i ∙ live i a b,
    )
