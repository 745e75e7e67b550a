-- ===== src/Scheduler/SlotNum.antt =====
-- osSchedulerSetSlotNum and osSchedulerSetSoftSlotNum
use native.Mathlib.Decide.{dec_le, dec_lt}
use flexpret.Common.{
  ℕ, ◌≤◌, ◌<◌, ◌≡◌, refl, ap, ◌∙◌, Option, some, inl, inr, ◌⊎◌, ◌+◌, arith, leb, Bool-cases,
}
use flexpret.Common.Int.{ℤ, pos, negsuc}
use flexpret.State.{Ctx, System, Status}
use flexpret.Tid.{get_tid}
use flexpret.Slots.{slot_s, slot_d, set_slot_num}
use flexpret.Slots.Assign.{
  slots_of, owner_at, Room, Assigned, set_slot_num_assigns, set_slot_num_refuses,
}
use flexpret.Mutex.Laws.{held}
use flexpret.Scheduler.{locked, os_scheduler_set_slot_num, os_scheduler_set_soft_slot_num}
use flexpret.Scheduler.Locked.{CanLock, locked_lem}

-- The table is the same whether or not the slot mutex is held.
module _ (c : Ctx) (m : ℕ) (s : System) where
  Room-held : (t count : ℕ) → Room t count s → Room t count (held c m 1 s)
  unfolding slots_of
  Room-held t count r = r

  held-Room : (t count : ℕ) → Room t count (held c m 1 s) → Room t count s
  unfolding slots_of
  held-Room t count r = r

  Assigned-held :
      (t count : ℕ) (s' : System)
      → Assigned t count (held c m 1 s) s'
      → Assigned t count s (record s { slots = s'.slots })
  unfolding slots_of owner_at
  Assigned-held t count s' a = record {
    exact = a.exact;
    others = a.others;
    kept = a.kept;
    rest = refl;
  }

-- The critical section of both functions.
module _ (c : Ctx) (m : ℕ) (s : System) (lock : CanLock c m s) (t count : ℕ)
    (owner : t < slot_d) where
  locked_assigns :
      Room t count s
      → (s' : System) × (locked c (set_slot_num t count) s ≡ some (Status.ok, s'))
        × Assigned t count s s'
  locked_assigns r =
      let (s', e, a) =
        set_slot_num_assigns t owner (held c m 1 s) count (Room-held c m s t count r) in
      (
        record s { slots = s'.slots },
        locked_lem c m s lock (set_slot_num t count) Status.ok s'.slots s.tmodes
            (e ∙ ap (λ x. some (Status.ok, x)) a.rest),
        Assigned-held c m s t count s' a,
      )

  locked_refuses : ¬ Room t count s → locked c (set_slot_num t count) s ≡ some (Status.error, s)
  locked_refuses r =
      locked_lem c m s lock (set_slot_num t count) Status.error s.slots s.tmodes
        (set_slot_num_refuses t owner (held c m 1 s) count (λ h. r (held-Room c m s t count h)))

-- The three ways in which a request for `count` slots for owner t ends.
abbrev pub Answers : ℕ → ℤ → System → Option (Status × System) → Type 0
Answers t (negsuc n) s r = r ≡ some (Status.error_parameter, s)
Answers t (pos count) s r =
    ((7 ≤ count) × (r ≡ some (Status.error_parameter, s)))
    ⊎ ((count < 7)
        × Room t count s
        × ((s' : System) × (r ≡ some (Status.ok, s')) × Assigned t count s s'))
    ⊎ ((count < 7) × (¬ Room t count s) × (r ≡ some (Status.error, s)))

Room-cases : (t count : ℕ) (s : System) → Room t count s ⊎ (¬ Room t count s)
Room-cases t count s = elim (dec_le count (slots_of t s)) [
  | yes p ↦ inl (inl p)
  | no p ↦ elim (dec_lt count (slots_of t s + slots_of slot_d s)) [
    | yes q ↦ inl (inr q)
    | no q ↦ inr (λ r. ground arith)
  ]
]

module _ (c : Ctx) (m : ℕ) (s : System) (lock : CanLock c m s) where
  locked-Answers :
      (t count : ℕ)
      → t < slot_d
      → count < 7
      → Answers t (pos count) s (locked c (set_slot_num t count) s)
  locked-Answers t count h p = elim (Room-cases t count s) [
    | inl r ↦ inr (inl (p, r, locked_assigns c m s lock t count h r))
    | inr r ↦ inr (inr (p, r, locked_refuses c m s lock t count h r))
  ]

  -- With the slot mutex free, and an identifier of a thread, osSchedulerSetSlotNum answers osErrorParameter to a count below 0 or
  -- above 6; otherwise, if there is room, it answers osOK and gives the hart exactly `count` slots, and
  -- if not, it answers osError. Only osOK changes the system, and then only the slots of the hart.
  pub os_scheduler_set_slot_num-Answers :
      (thread_id : ℕ) (count : ℤ)
      → get_tid c thread_id < 8
      → Answers (get_tid c thread_id) count s (os_scheduler_set_slot_num c thread_id count s)
  unfolding os_scheduler_set_slot_num
  os_scheduler_set_slot_num-Answers thread_id (negsuc n) h = refl
  os_scheduler_set_slot_num-Answers thread_id (pos count) h = elim (Bool-cases (leb 7 count)) [
    | inl big ↦ inl (ground arith, rw big)
    | inr small ↦ rw small (locked-Answers (get_tid c thread_id) count (omega arith) (ground arith))
  ]

  -- With the slot mutex free, osSchedulerSetSoftSlotNum answers osErrorParameter to a count below 0 or
  -- above 6; otherwise, if there is room, it answers osOK and makes exactly `count` soft slots, and if
  -- not, it answers osError. Only osOK changes the system, and then only the soft slots.
  pub os_scheduler_set_soft_slot_num-Answers :
      (count : ℤ) → Answers slot_s count s (os_scheduler_set_soft_slot_num c count s)
  unfolding os_scheduler_set_soft_slot_num
  os_scheduler_set_soft_slot_num-Answers (negsuc n) = refl
  os_scheduler_set_soft_slot_num-Answers (pos count) = elim (Bool-cases (leb 7 count)) [
    | inl big ↦ inl (ground arith, rw big)
    | inr small ↦ rw small (locked-Answers slot_s count (omega arith) (ground arith))
  ]
