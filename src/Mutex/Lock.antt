-- ===== src/Mutex/Lock.antt =====
-- What osMutexAcquire without waiting and osMutexRelease promise to eight harts that share a recursive
-- mutex: a lock that is free, or taken by one hart a number of times.
use flexpret.Common.{ℕ, ◌+◌, ◌-◌, Option, none, some, List, [], ◌∷◌, ◌==◌, if◌then◌else◌, leb}
use flexpret.State.{Ctx, System, Status}
use flexpret.State.Run.{M}
use flexpret.Mutex.Ops.{os_mutex_release}
use flexpret.Mutex.Wait.{os_mutex_acquire}

pub data Lock : Type 0 where
  free : Lock
  taken : (hart count : ℕ) → Lock

pub data Call : Type 0 where
  acquire release : Call

-- The answer to a call of a hart, and the lock after it.
abbrev pub answer : ℕ → Call → Lock → Status × Lock
answer h Call.acquire Lock.free = (Status.ok, Lock.taken h 1)
answer h Call.acquire (Lock.taken k n) =
    if k == h then (Status.ok, Lock.taken k (n + 1)) else (Status.error_resource, Lock.taken k n)
answer h Call.release Lock.free = (Status.error_resource, Lock.free)
answer h Call.release (Lock.taken k n) =
    if k == h
    then (Status.ok, if leb n 1 then Lock.free else Lock.taken k (n - 1))
    else (Status.error_resource, Lock.taken k n)

-- The answers to the calls of several harts in some order, and the lock after them.
unfoldable pub answers : List (ℕ × Call) → Lock → List Status × Lock
answers [] l = ([], l)
answers ((h, call) ∷ calls) l =
    let (status, l') = answer h call l in
    let (rest, last) = answers calls l' in (status ∷ rest, last)

abbrev pub add_answer : Status → Option (List Status × System) → Option (List Status × System)
add_answer status none = none
add_answer status (some (rest, last)) = some (status ∷ rest, last)

abbrev pub goes_on :
    Option (Status × System)
    → (System → Option (List Status × System))
    → Option (List Status × System)
goes_on none next = none
goes_on (some (status, s)) next = add_answer status (next s)

-- The same calls of the code; `c i` is the context of hart i.
module _ (c : ℕ → Ctx) (m : ℕ) where
  abbrev pub perform : ℕ → Call → M Status
  perform h Call.acquire = os_mutex_acquire (c h) (some m) 0
  perform h Call.release = os_mutex_release (c h) (some m)

  unfoldable pub performs : List (ℕ × Call) → System → Option (List Status × System)
  performs [] s = some ([], s)
  performs ((h, call) ∷ calls) s = goes_on (perform h call s) (performs calls)
