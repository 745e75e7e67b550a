-- ===== src/Thread/Attr.antt =====
-- What osThreadNew makes of the attributes of a new thread, and what it leaves alone.
use flexpret.Common.{ℕ, ◌≡◌, ◌≢◌, ◌⊎◌, inl, inr, refl, ap, ◌∙◌, false, update, arith}
use flexpret.State.{Ctx, System, Priority, ThreadAttr, HwThread, AttrPtr}
use flexpret.Scheduler.{entry_of, thread_attr_at}
use flexpret.Thread.{put_attr, new_attr, init_thread_attr, is_unsupported, put_thread}

-- The registers, the mutexes and the kernel are the same, and so are the functions of all other threads.
pub record KeepsOthers (tid : ℕ) (s s' : System) : Type 0 where
  pub slots : s'.slots ≡ s.slots
  pub tmodes : s'.tmodes ≡ s.tmodes
  pub csr : s'.mutex_csr ≡ s.mutex_csr
  pub mutexes : s'.startup_mutex_state ≡ s.startup_mutex_state
  pub slot_mutex : s'.slot_mutex ≡ s.slot_mutex
  pub kernel : s'.kernel_state ≡ s.kernel_state
  pub count : s'.thread_num ≡ s.thread_num
  pub func : (i : ℕ) → i ≢ tid → (s'.startup_state i).func ≡ (s.startup_state i).func

pub put_attr-KeepsOthers :
    (tid : ℕ) (p : AttrPtr) (a : ThreadAttr) (s : System) → KeepsOthers tid s (put_attr p a s)
unfolding put_attr
put_attr-KeepsOthers tid AttrPtr.null a s = record {
  slots = refl;
  tmodes = refl;
  csr = refl;
  mutexes = refl;
  slot_mutex = refl;
  kernel = refl;
  count = refl;
  func = λ i n. refl;
}
put_attr-KeepsOthers tid (AttrPtr.own j) a s = record {
  slots = refl;
  tmodes = refl;
  csr = refl;
  mutexes = refl;
  slot_mutex = refl;
  kernel = refl;
  count = refl;
  func = λ i n. refl;
}
put_attr-KeepsOthers tid (AttrPtr.user j) a s = record {
  slots = refl;
  tmodes = refl;
  csr = refl;
  mutexes = refl;
  slot_mutex = refl;
  kernel = refl;
  count = refl;
  func = λ i n. refl;
}

pub KeepsOthers-trans :
    (tid : ℕ) (s t u : System) → KeepsOthers tid s t → KeepsOthers tid t u → KeepsOthers tid s u
KeepsOthers-trans tid s t u a b = record {
  slots = b.slots ∙ a.slots;
  tmodes = b.tmodes ∙ a.tmodes;
  csr = b.csr ∙ a.csr;
  mutexes = b.mutexes ∙ a.mutexes;
  slot_mutex = b.slot_mutex ∙ a.slot_mutex;
  kernel = b.kernel ∙ a.kernel;
  count = b.count ∙ a.count;
  func = λ i n. b.func i n ∙ a.func i n;
}

pub put_thread-KeepsOthers :
    (tid : ℕ) (t : HwThread) (s : System) → KeepsOthers tid s (put_thread tid t s)
put_thread-KeepsOthers tid t s = record {
  slots = refl;
  tmodes = refl;
  csr = refl;
  mutexes = refl;
  slot_mutex = refl;
  kernel = refl;
  count = refl;
  func = λ i n. ground arith;
}

set_entry-KeepsOthers :
    (tid : ℕ) (e : ℕ → AttrPtr) (s : System)
    → KeepsOthers tid s (record s { thread_attr_entry = e })
set_entry-KeepsOthers tid e s = record {
  slots = refl;
  tmodes = refl;
  csr = refl;
  mutexes = refl;
  slot_mutex = refl;
  kernel = refl;
  count = refl;
  func = λ i n. refl;
}

-- What the pointer of the new thread's entry leads to.
unfoldable pub wanted : AttrPtr → System → Priority
unfolding thread_attr_at
wanted AttrPtr.null s = Priority.normal
wanted p s = (thread_attr_at p s).priority

read_attr : (p : AttrPtr) (a : ThreadAttr) (s : System) → thread_attr_at p (put_attr p a s) ≡ a
unfolding thread_attr_at put_attr
read_attr AttrPtr.null a s = ground arith
read_attr (AttrPtr.own i) a s = ground arith
read_attr (AttrPtr.user i) a s = ground arith

pub read_put_thread :
    (q : AttrPtr) (i : ℕ) (t : HwThread) (s : System)
    → thread_attr_at q (put_thread i t s) ≡ thread_attr_at q s
unfolding thread_attr_at
read_put_thread AttrPtr.null i t s = refl
read_put_thread (AttrPtr.own j) i t s = refl
read_put_thread (AttrPtr.user j) i t s = refl

put_attr-entry :
    (q : AttrPtr) (a : ThreadAttr) (s : System)
    → (put_attr q a s).thread_attr_entry ≡ s.thread_attr_entry
unfolding put_attr
put_attr-entry AttrPtr.null a s = refl
put_attr-entry (AttrPtr.own j) a s = refl
put_attr-entry (AttrPtr.user j) a s = refl

pub entry_of-put_attr :
    (tid : ℕ) (q : AttrPtr) (a : ThreadAttr) (t : System)
    → t.thread_attr_entry tid ≡ q
    → entry_of tid (put_attr q a t) ≡ a
entry_of-put_attr tid q a t e =
    ap (λ k. thread_attr_at k (put_attr q a t)) (ap (λ f. f tid) (put_attr-entry q a t) ∙ e)
    ∙ read_attr q a t

-- The same where the entry was just set to the caller's object.
entry_of-caller :
    (tid : ℕ) (q : AttrPtr) (a : ThreadAttr) (t : HwThread) (s : System)
    → entry_of tid (
        put_attr q a
          (put_thread tid t (record s { thread_attr_entry = update s.thread_attr_entry tid q })))
      ≡ a
entry_of-caller tid q a t s =
    entry_of-put_attr tid q a
      (put_thread tid t (record s { thread_attr_entry = update s.thread_attr_entry tid q }))
      (ground arith)

pub supported_cases :
    (k : Priority) → is_unsupported k ≡ false → (k ≡ Priority.realtime) ⊎ (k ≡ Priority.normal)
supported_cases Priority.normal e = inr refl
supported_cases Priority.realtime e = inl refl
supported_cases Priority.error e = absurd (cc)
supported_cases (Priority.other n) e = absurd (cc)

module _ (c : Ctx) (tid : ℕ) (s : System) where
  pub new_attr-KeepsOthers : (p : AttrPtr) → KeepsOthers tid s (new_attr c tid p s)
  unfolding new_attr
  new_attr-KeepsOthers AttrPtr.null = put_attr-KeepsOthers tid (s.thread_attr_entry tid) _ s
  new_attr-KeepsOthers (AttrPtr.own j) =
      KeepsOthers-trans tid _ _ _
        (KeepsOthers-trans tid _ _ _ (set_entry-KeepsOthers tid _ s)
          (put_thread-KeepsOthers tid _ _))
        (put_attr-KeepsOthers tid (AttrPtr.own j) _ _)
  new_attr-KeepsOthers (AttrPtr.user j) =
      KeepsOthers-trans tid _ _ _
        (KeepsOthers-trans tid _ _ _ (set_entry-KeepsOthers tid _ s)
          (put_thread-KeepsOthers tid _ _))
        (put_attr-KeepsOthers tid (AttrPtr.user j) _ _)

  pub new_attr-priority : (p : AttrPtr) → (entry_of tid (new_attr c tid p s)).priority ≡ wanted p s
  unfolding new_attr wanted
  new_attr-priority AttrPtr.null =
      ap (λ a. a.priority)
        (entry_of-put_attr tid (s.thread_attr_entry tid) (init_thread_attr c tid) s refl)
  new_attr-priority (AttrPtr.own j) =
      ap (λ a. a.priority) (entry_of-caller tid (AttrPtr.own j) _ _ s)
  new_attr-priority (AttrPtr.user j) =
      ap (λ a. a.priority) (entry_of-caller tid (AttrPtr.user j) _ _ s)
