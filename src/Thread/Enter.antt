-- ===== src/Thread/Enter.antt =====
-- osThreadNew before the kernel runs: what it does to the attributes of the other threads.
use flexpret.Common.{ℕ, ◌≡◌, ◌≢◌, ◌⊎◌, inl, inr, refl, sym, ap, ◌∙◌, update, arith}
use mathlib.Core.Path.{subst}
use flexpret.State.{Ctx, System, ThreadAttr, AttrPtr, HwThread}
use flexpret.Scheduler.{entry_of, thread_attr_at}
use flexpret.Thread.Attr.{read_put_thread}
use flexpret.Thread.{put_attr, new_attr, init_thread_attr, put_thread, set_up}

-- The attributes are the kernel's own for hart i, or an object of the caller.
abbrev pub IsEntry : ℕ → AttrPtr → Type 0
IsEntry i q = (q ≡ AttrPtr.own i) ⊎ ((k : ℕ) × (q ≡ AttrPtr.user k))

-- What a caller passes: NULL or an object of its own.
abbrev pub IsCallers : AttrPtr → Type 0
IsCallers AttrPtr.null = Unit {0}
IsCallers (AttrPtr.own i) = ⊥
IsCallers (AttrPtr.user k) = Unit {0}

-- Hart tid gets attributes; those of the other harts and of the caller keep their priorities.
pub record Enters (tid : ℕ) (s t : System) : Type 0 where
  pub entry : IsEntry tid (t.thread_attr_entry tid)
  pub pointers : (i : ℕ) → i ≢ tid → t.thread_attr_entry i ≡ s.thread_attr_entry i
  pub priorities :
      (i : ℕ)
      → i ≢ tid
      → IsEntry i (s.thread_attr_entry i)
      → (entry_of i t).priority ≡ (entry_of i s).priority
  pub users : (k : ℕ) → (t.user_thread_attr k).priority ≡ (s.user_thread_attr k).priority
  pub soft : t.default_soft_slot_id ≡ s.default_soft_slot_id

-- Through an entry, the attributes of hart i.
entry_at :
    (i : ℕ) (s : System) (q : AttrPtr)
    → s.thread_attr_entry i ≡ q
    → entry_of i s ≡ thread_attr_at q s
entry_at i s q e = ap (λ k. thread_attr_at k s) e

-- The kernel's own attributes of hart tid are written.
own-Enters :
    (tid : ℕ) (a : ThreadAttr) (s : System)
    → s.thread_attr_entry tid ≡ AttrPtr.own tid
    → Enters tid s (put_attr (AttrPtr.own tid) a s)
unfolding put_attr thread_attr_at
own-Enters tid a s e = record {
  entry = inl e;
  pointers = λ i n. refl;
  priorities = λ i n h. elim h [ inl q ↦ ground (arith, q) | inr (k, q) ↦ rw q refl ];
  users = λ k. refl;
  soft = refl;
}

-- The attributes of hart tid are the caller's object k, which changes in other fields than its priority.
user-Enters :
    (tid k : ℕ) (a : ThreadAttr) (h : HwThread) (s : System)
    → a.priority ≡ (s.user_thread_attr k).priority
    → Enters tid s (
        put_attr (AttrPtr.user k) a (
          put_thread tid h
            (record s { thread_attr_entry = update s.thread_attr_entry tid (AttrPtr.user k) })))
unfolding put_attr thread_attr_at
user-Enters tid k a h s p =
    let t = put_attr (AttrPtr.user k) a (
      put_thread tid h
        (record s { thread_attr_entry = update s.thread_attr_entry tid (AttrPtr.user k) })) in
    let kept : (j : ℕ) → (t.user_thread_attr j).priority ≡ (s.user_thread_attr j).priority =
      λ j. ground arith in
    let same : (i : ℕ) → i ≢ tid → t.thread_attr_entry i ≡ s.thread_attr_entry i =
      λ i n. ground arith in
    record {
      entry = inr (k, ground arith);
      pointers = same;
      priorities = λ i n h. elim h [
        | inl q ↦
            ap (λ w. (thread_attr_at w t).priority) (same i n ∙ q)
            ∙ ap (λ w. (thread_attr_at w s).priority) (sym q)
        | inr (j, q) ↦
            ap (λ w. (thread_attr_at w t).priority) (same i n ∙ q)
            ∙ kept j
            ∙ ap (λ w. (thread_attr_at w s).priority) (sym q)
      ];
      users = kept;
      soft = refl;
    }

-- A change of a thread's record.
put_thread-Enters :
    (tid : ℕ) (h : HwThread) (s t : System) → Enters tid s t → Enters tid s (put_thread tid h t)
put_thread-Enters tid h s t e = record {
  entry = e.entry;
  pointers = e.pointers;
  priorities = λ i n q.
      ap (λ x. x.priority) (read_put_thread (t.thread_attr_entry i) tid h t) ∙ e.priorities i n q;
  users = e.users;
  soft = e.soft;
}

-- The attributes of a new thread, whose entry still is the kernel's own.
pub new_attr-Enters :
    (c : Ctx) (tid : ℕ) (p : AttrPtr) (s : System)
    → IsCallers p
    → s.thread_attr_entry tid ≡ AttrPtr.own tid
    → Enters tid s (new_attr c tid p s)
unfolding new_attr thread_attr_at
new_attr-Enters c tid AttrPtr.null s h e =
    subst (λ q. Enters tid s (put_attr q (init_thread_attr c tid) s)) (sym e)
      (own-Enters tid (init_thread_attr c tid) s e)
new_attr-Enters c tid (AttrPtr.own i) s h e = absurd h
new_attr-Enters c tid (AttrPtr.user k) s h e = user-Enters tid k _ _ s refl

-- The state in which osThreadNew schedules the new thread.
pub set_up-Enters :
    (c : Ctx) (tid f a : ℕ) (p : AttrPtr) (s : System)
    → IsCallers p
    → s.thread_attr_entry tid ≡ AttrPtr.own tid
    → Enters tid s (set_up tid f a (new_attr c tid p s))
unfolding set_up
set_up-Enters c tid f a p s h e = put_thread-Enters tid _ s _ (new_attr-Enters c tid p s h e)
