-- ===== src/Kernel/Run.antt =====
-- A run of the system: a start-up with threads, and then calls of the harts.
use mathlib.Core.Path.{subst}
use flexpret.Common.{ℕ, ◌<◌, ◌≡◌, some, List, length}
use flexpret.State.{Ctx, System}
use flexpret.Tid.Laws.{IsPlaced}
use flexpret.Kernel.Boot.{NewThread, AllAccepted, boot, boot-IsServed}
use flexpret.Thread.Well.{IsWell, same_state, to-IsWell}
use flexpret.Thread.Reach.{Steps, steps-IsWell}

-- A start-up with osKernelReset, osThreadNew for at most seven threads that are supported, and osKernelStart,
-- from any state; then any calls of the harts in any order, each to its end before the next one: osThreadNew and
-- osThreadSetPriority when there is room for the slots they need, osSchedulerSetSlotNum and
-- osSchedulerSetSoftSlotNum for at least one slot, osThreadTerminate of other harts' threads, osThreadSuspend and
-- osThreadResume, and returns of threads. Afterwards the slot mutex is free and every live hart has a slot to run
-- in.
pub run-IsWell :
    (c : Ctx) (bss_end : ℕ) (ts : List NewThread) (ids : List ℕ) (s s1 s2 : System)
    → IsPlaced c
    → AllAccepted s ts
    → length ts < 8
    → boot c bss_end ts s ≡ some (ids, s1)
    → Steps s1 s2
    → IsWell 0 s2
run-IsWell c bss_end ts ids s s1 s2 placed accepted h e r =
    let (t, q, (l, v), _, _) = boot-IsServed c bss_end ts s placed accepted h in
    steps-IsWell 0 r (subst (IsWell 0) (same_state _ _ t s1 q e) (to-IsWell c 0 t l v))
