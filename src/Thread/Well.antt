-- ===== src/Thread/Well.antt =====
-- A state between two calls: the slot mutex is free and every live hart has a slot to run in; what keeps it so.
use mathlib.Core.Path.{subst}
use native.Mathlib.Decide.{ℕ_discrete}
use flexpret.Common.{
  ℕ, ◌<◌, ◌≡◌, ◌≢◌, inl, inr, refl, sym, ap, ◌∙◌, Option, none, some, if◌then◌else◌, Bool-cases,
  set, arith,
}
use flexpret.Common.Int.{pos}
use flexpret.State.{Ctx, System, Status, ThreadState}
use flexpret.Tid.{get_tid, os_thread_get_id}
use flexpret.Tid.Laws.{IsPlaced, get_tid-thread_addr}
use flexpret.Slots.{slot_s, slot_d, count_slots, get_slots}
use flexpret.Slots.Assign.{slots_of, Assigned}
use flexpret.Tmodes.Modes.{tmode_of}
use flexpret.Tmodes.Fields.{make_zombie, make_active}
use flexpret.Tmodes.{get_tmodes}
use flexpret.Mutex.Laws.{IsFree, IsFree-same}
use flexpret.Scheduler.Harts.{is_live, is_soft}
use flexpret.Scheduler.Locked.{CanLock}
use flexpret.Scheduler.Service.{IsServed, service, mode_self, mode_other}
use flexpret.Scheduler.SlotNum.{Answers}
use flexpret.Thread.{put_state}
use flexpret.Thread.Suspend.{suspended, resumed, suspended_modes, resumed_modes}

-- The slot mutex is m and free, and every live hart has a slot to run in.
pub record IsWell (m : ℕ) (s : System) : Type 0 where
  pub slot_mutex : s.slot_mutex ≡ some m
  pub free : IsFree m s
  pub served : IsServed s

-- What a call answers, it leaves.
left : {A : Type 0} (d : System) → Option (A × System) → System
left d none = d
left d (some (a, s)) = s

pub same_state :
    {A : Type 0} {r : Option (A × System)} (a b : A) (s t : System)
    → r ≡ some (a, s)
    → r ≡ some (b, t)
    → s ≡ t
unfolding left
same_state a b s t p q = ap (left s) (sym p ∙ q)

module _ (m : ℕ) (s : System) (well : IsWell m s) where
  pub can_lock : (c : Ctx) → IsPlaced c → CanLock c m s
  can_lock c v = record { placed = v; slot_mutex = well.slot_mutex; free = well.free }

pub to-IsWell : (c : Ctx) (m : ℕ) (s : System) → CanLock c m s → IsServed s → IsWell m s
to-IsWell c m s l v = record { slot_mutex = l.slot_mutex; free = l.free; served = v }

same_mode : (i : ℕ) (s s' : System) → tmode_of i (record s { slots = s'.slots }) ≡ tmode_of i s
unfolding tmode_of
same_mode i s s' = refl

keeps_some :
    (t count u : ℕ) (s s' : System)
    → 0 < count
    → Assigned t count s s'
    → u ≢ slot_d
    → 0 < slots_of u s
    → 0 < slots_of u s'
keeps_some t count u s s' p a n l = elim (ℕ_discrete u t) [
  | yes e ↦ subst (λ x. 0 < slots_of x s') (sym e) (omega (arith, a.exact))
  | no k ↦ omega (arith, a.others u k n)
]

served_by :
    (i : ℕ) (s s' : System)
    → is_soft (tmode_of i s') ≡ is_soft (tmode_of i s)
    → (0 < slots_of i s → 0 < slots_of i s')
    → (0 < slots_of slot_s s → 0 < slots_of slot_s s')
    → 0 < service i s
    → 0 < service i s'
served_by i s s' e own soft v = elim (Bool-cases (is_soft (tmode_of i s))) [
  | inl b ↦ rw (e, b) (soft (subst (λ b. 0 < (if b then slots_of slot_s s else slots_of i s)) b v))
  | inr b ↦ rw (e, b) (own (subst (λ b. 0 < (if b then slots_of slot_s s else slots_of i s)) b v))
]

Assigned-IsServed :
    (t count : ℕ) (s s' : System)
    → t < slot_d
    → 0 < count
    → Assigned t count s s'
    → IsServed s
    → IsServed s'
Assigned-IsServed t count s s' h p a v i q l =
    let live = sym (ap (is_live i) a.rest) ∙ l in
    let mode : tmode_of i s' ≡ tmode_of i s = ap (tmode_of i) a.rest ∙ same_mode i s s' in
    let old = v i q live in
    let own : 0 < slots_of i s → 0 < slots_of i s' = keeps_some t count i s s' p a (omega arith) in
    let soft : 0 < slots_of slot_s s → 0 < slots_of slot_s s' =
      keeps_some t count slot_s s s' p a (omega arith) in
    served_by i s s' (ap is_soft mode) own soft old

-- The modes keep each hart soft, or hard, and the slots are the same.
switched-IsServed :
    (s s' : System)
    → s'.slots ≡ s.slots
    → ((j : ℕ) → is_live j s' ≡ is_live j s)
    → ((j : ℕ) → is_soft (tmode_of j s') ≡ is_soft (tmode_of j s))
    → IsServed s
    → IsServed s'
unfolding slots_of
switched-IsServed s s' e f g v j q l =
    let same : (u : ℕ) → slots_of u s' ≡ slots_of u s =
      λ u. ap (λ w. count_slots u (get_slots w)) e in
    served_by j s s' (g j) (λ h. omega (arith, same j, h)) (λ h. omega (arith, same slot_s, h))
      (v j q (sym (f j) ∙ l))

-- Another mode of hart i, which is as soft as before
one_mode :
    (i k : ℕ) (s s' : System)
    → i < 8
    → get_tmodes s'.tmodes ≡ set (get_tmodes s.tmodes) i k
    → is_soft k ≡ is_soft (tmode_of i s)
    → (j : ℕ) → is_soft (tmode_of j s') ≡ is_soft (tmode_of j s)
one_mode i k s s' h e q j = elim (ℕ_discrete j i) [
  | yes p ↦ rw p (ap is_soft (mode_self i k s s' h e) ∙ q)
  | no n ↦ ap is_soft (mode_other i k s s' h e j n)
]

zombie_soft : (m : ℕ) → is_soft (make_zombie m) ≡ is_soft m
zombie_soft m = ground arith

active_soft : (m : ℕ) → is_soft (make_active m) ≡ is_soft m
active_soft m = ground arith

module _ (c : Ctx) (m i : ℕ) (s : System) (placed : IsPlaced c) (h : i < 8)
    (well : IsWell m s) where
  put_state-live : (x : ThreadState) (j : ℕ) → is_live j (put_state i x s) ≡ is_live j s
  put_state-live x j = ground arith

  pub suspended-IsWell : IsWell m (suspended i s)
  suspended-IsWell = record {
    slot_mutex = well.slot_mutex;
    free = IsFree-same m s (suspended i s) refl refl well.free;
    served =
        switched-IsServed s (suspended i s) refl (put_state-live ThreadState.blocked)
          (one_mode i (make_zombie (tmode_of i s)) s (suspended i s) h
            (suspended_modes c placed i h s) (zombie_soft (tmode_of i s)))
          well.served;
  }

  pub resumed-IsWell : IsWell m (resumed i s)
  resumed-IsWell = record {
    slot_mutex = well.slot_mutex;
    free = IsFree-same m s (resumed i s) refl refl well.free;
    served =
        switched-IsServed s (resumed i s) refl (put_state-live ThreadState.active)
          (one_mode i (make_active (tmode_of i s)) s (resumed i s) h (resumed_modes c placed i h s)
            (active_soft (tmode_of i s)))
          well.served;
  }

pub get_tid-own : (c : Ctx) → IsPlaced c → get_tid c (os_thread_get_id c) < 8
get_tid-own c v = omega (arith, get_tid-thread_addr c c.hartid v v.hart, v.hart)

-- What a call for slots leaves
pub answered-IsWell :
    (m t count : ℕ) (st : Status) (s s' : System) (r : Option (Status × System))
    → t < slot_d
    → 0 < count
    → Answers t (pos count) s r
    → r ≡ some (st, s')
    → IsWell m s
    → IsWell m s'
answered-IsWell m t count st s s' r h p (inl (b, q)) e w =
    subst (IsWell m) (same_state _ _ s s' q e) w
answered-IsWell m t count st s s' r h p (inr (inr (b, n, q))) e w =
    subst (IsWell m) (same_state _ _ s s' q e) w
answered-IsWell m t count st s s' r h p (inr (inl (b, n, (u, q, a)))) e w =
    subst (IsWell m) (same_state _ _ u s' q e) (record {
      slot_mutex = ap (λ x. x.slot_mutex) a.rest ∙ w.slot_mutex;
      free =
          subst (IsFree m) (sym a.rest)
            (IsFree-same m s (record s { slots = u.slots }) refl refl w.free);
      served = Assigned-IsServed t count s u h p a w.served;
    })
