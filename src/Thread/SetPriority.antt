-- ===== src/Thread/SetPriority.antt =====
-- osThreadSetPriority, on all its branches: its answer, and the slots of the live harts.
use mathlib.Core.Bool.{false≢true}
use flexpret.Common.{
  ℕ, ◌<◌, ◌≡◌, ◌≢◌, ◌⊎◌, inl, inr, refl, sym, ap, ◌∙◌, true, false, not, ◌==◌, Bool-cases, some,
  get_or, arith,
}
use flexpret.State.{Ctx, System, Status, Priority, null_ptr}
use flexpret.State.Run.{◌>>=◌}
use flexpret.Tid.{get_tid}
use flexpret.Slots.{slot_s, count_slots, get_slots}
use flexpret.Slots.Assign.{slots_of, Room}
use flexpret.Tmodes.{get_tmodes}
use flexpret.Tmodes.Modes.{tmode_of}
use flexpret.Scheduler.{entry_of}
use flexpret.Scheduler.Locked.{CanLock}
use flexpret.Scheduler.Service.{IsServed, MadeHard-IsServed, MadeSoft-IsServed}
use flexpret.Mutex.Laws.{IsFree-same}
use flexpret.Scheduler.Change.{MadeHard, MadeSoft}
use flexpret.Scheduler.Switch.{change_srtt_to_hrtt-MadeHard, change_hrtt_to_srtt-MadeSoft}
use flexpret.Scheduler.GiveUp.{OnlyRegs-CanLock}
use flexpret.Thread.{
  priority_eq, is_unsupported, put_attr, put_entry, change_priority, os_thread_set_priority,
}
use flexpret.Thread.Attr.{KeepsOthers, put_attr-KeepsOthers, entry_of-put_attr}

-- The room that a change of priority needs.
abbrev pub RoomFor : ℕ → Priority → System → Type 0
RoomFor tid Priority.realtime s = Room tid 1 s
RoomFor tid Priority.normal s = Room slot_s 1 s
RoomFor tid _ s = Unit {0}

-- The new priority in the attributes
abbrev pub with_priority : ℕ → Priority → System → System
with_priority tid p t = put_entry tid (record (entry_of tid t) { priority = p }) t

-- Nothing changes if the priority is the old one; else the hart is made hard or soft, with its slots, and then the
-- attributes get the priority.
abbrev pub Switched : ℕ → Priority → System → System → Type 0
Switched tid p s s' =
    (((entry_of tid s).priority ≡ p) × (s' ≡ s))
    ⊎ (((entry_of tid s).priority ≢ p)
        × ((t : System) × (s' ≡ with_priority tid p t)
            × (((p ≡ Priority.realtime) × MadeHard tid s t)
                ⊎ ((p ≡ Priority.normal) × MadeSoft tid s t))))

-- The answer: osOK and the priority is set, or osError for one that is not supported, and no change.
abbrev pub SetTo : ℕ → Priority → System → Status → System → Type 0
SetTo tid p s st s' =
    ((st ≡ Status.ok) × ((entry_of tid s').priority ≡ p) × Switched tid p s s')
    ⊎ ((st ≡ Status.error)
        × ((entry_of tid s).priority ≢ p)
        × ((is_unsupported p ≡ true) × (s' ≡ s)))

priority_eq_lem : (a b : Priority) → priority_eq a b ≡ true → a ≡ b
priority_eq_lem Priority.normal Priority.normal e = refl
priority_eq_lem Priority.realtime Priority.realtime e = refl
priority_eq_lem Priority.error Priority.error e = refl
priority_eq_lem (Priority.other a) (Priority.other b) e =
    let q : a ≡ b = ground arith in ap Priority.other q
priority_eq_lem _ _ e = absurd (cc)

priority_eq_self : (a : Priority) → priority_eq a a ≡ true
priority_eq_self Priority.normal = refl
priority_eq_self Priority.realtime = refl
priority_eq_self Priority.error = refl
priority_eq_self (Priority.other a) = ground arith

-- No slot, mode or function changes.
KeepsOthers-IsServed : (s s' : System) → KeepsOthers 8 s s' → IsServed s → IsServed s'
unfolding slots_of tmode_of
KeepsOthers-IsServed s s' k served i h l =
    let live = sym (ap (λ f. not (f == null_ptr)) (k.func i (omega arith))) ∙ l in
    let mode = ap (λ w. get_or (get_tmodes w) i 0) k.tmodes in
    let own = ap (λ w. count_slots i (get_slots w)) k.slots in
    let soft = ap (λ w. count_slots slot_s (get_slots w)) k.slots in
    ground (arith, served i h live, mode, own, soft)

KeepsOthers-CanLock :
    (c : Ctx) (m : ℕ) (s s' : System) → KeepsOthers 8 s s' → CanLock c m s → CanLock c m s'
KeepsOthers-CanLock c m s s' k l = record {
  placed = l.placed;
  slot_mutex = k.slot_mutex ∙ l.slot_mutex;
  free = IsFree-same m s s' k.mutexes k.csr l.free;
}

module _ (c : Ctx) (tid m : ℕ) (s : System) where
  -- A change of mode, and the new priority in the attributes.
  Changed : Priority → Status × System → Type 0
  Changed p (st, s') = CanLock c m s' × IsServed s' × SetTo tid p s st s'

  -- The two ways to change the mode
  abbrev Made : Priority → System → Type 0
  Made p t =
      ((p ≡ Priority.realtime) × MadeHard tid s t) ⊎ ((p ≡ Priority.normal) × MadeSoft tid s t)

  with_priority-Changed :
      (p : Priority) (t : System)
      → CanLock c m t
      → IsServed t
      → Made p t
      → (entry_of tid s).priority ≢ p
      → Changed p (Status.ok, with_priority tid p t)
  unfolding Changed
  with_priority-Changed p t lock served made new =
      let a = record (entry_of tid t) { priority = p } in
      let q = t.thread_attr_entry tid in
      (
        KeepsOthers-CanLock c m t (put_attr q a t) (put_attr-KeepsOthers 8 q a t) lock,
        KeepsOthers-IsServed t (put_attr q a t) (put_attr-KeepsOthers 8 q a t) served,
        inl (
          refl,
          ap (λ x. x.priority) (entry_of-put_attr tid q a t refl),
          inr (new, (t, refl, made)),
        ),
      )

  change_priority-Changed :
      (p : Priority)
      → tid < 8
      → CanLock c m s
      → IsServed s
      → RoomFor tid p s
      → (entry_of tid s).priority ≢ p
      → (r : Status × System) × (change_priority c tid p s ≡ some r) × Changed p r
  unfolding change_priority Changed
  change_priority-Changed Priority.realtime h lock served room new =
      let (t, (st, e), w) = change_srtt_to_hrtt-MadeHard c m s lock tid h room in
      (
        _,
        rw (e, ◌>>=◌) refl,
        with_priority-Changed Priority.realtime t (OnlyRegs-CanLock c m s t w.regs lock)
            (MadeHard-IsServed tid h s t served w) (inl (refl, w)) new,
      )
  change_priority-Changed Priority.normal h lock served room new =
      let (t, (st, e), w) = change_hrtt_to_srtt-MadeSoft c m s lock tid h room in
      (
        _,
        rw (e, ◌>>=◌) refl,
        with_priority-Changed Priority.normal t (OnlyRegs-CanLock c m s t w.regs lock)
            (MadeSoft-IsServed tid h s t served w) (inr (refl, w)) new,
      )
  change_priority-Changed Priority.error h lock served room new =
      (_, refl, (lock, served, inr (refl, new, (refl, refl))))
  change_priority-Changed (Priority.other n) h lock served room new =
      (_, refl, (lock, served, inr (refl, new, (refl, refl))))

-- With the slot mutex free, for an identifier of a thread that is not NULL: if every live hart has a slot to run in,
-- and there is room for a slot of its own (for osPriorityRealtime) or for a soft slot (for osPriorityNormal), then
-- after osThreadSetPriority every live hart has a slot to run in and the slot mutex is free. For a priority that is
-- not supported it answers osError and changes nothing, unless it is the old one; else it answers osOK. With the old
-- priority nothing changes; with osPriorityRealtime the hart is made hard and keeps its slots or gets one; with
-- osPriorityNormal it is made soft and gives up its slots; and then the attributes have the priority.
pub os_thread_set_priority-IsServed :
    (c : Ctx) (m thread_id : ℕ) (p : Priority) (s : System)
    → thread_id ≢ null_ptr
    → get_tid c thread_id < 8
    → CanLock c m s
    → IsServed s
    → RoomFor (get_tid c thread_id) p s
    → (st : Status) × (s' : System) × (os_thread_set_priority c thread_id p s ≡ some (st, s'))
      × CanLock c m s'
      × IsServed s'
      × SetTo (get_tid c thread_id) p s st s'
unfolding os_thread_set_priority Changed
os_thread_set_priority-IsServed c m thread_id p s n h lock served room =
    let tid = get_tid c thread_id in
    let f : (thread_id == null_ptr) ≡ false = ground arith in
    elim (Bool-cases (priority_eq (entry_of tid s).priority p)) [
      | inl e ↦ (
        Status.ok,
        s,
        rw (f, e) refl,
        lock,
        served,
        inl (refl, priority_eq_lem _ p e, inl (priority_eq_lem _ p e, refl)),
      )
      | inr e ↦
          let ((st, s'), q, (k, w, a)) =
            change_priority-Changed c tid m s p h lock served room (λ q. false≢true (
              sym e
              ∙ ap (priority_eq (entry_of tid s).priority) (sym q)
              ∙ priority_eq_self (entry_of tid s).priority)) in
          (st, s', rw (f, e) q, k, w, a)
    ]
