-- ===== src/Examples/TimerRuns.antt =====
-- Runs of the timers' code on the example system.
use flexpret.Timing.Stats.{Stats, Counting, stats_get, stats_get-snapshot}
use flexpret.Common.{ℕ, ◌+◌, ◌*◌, ◌/◌, ◌^◌, ◌≤◌, ◌<◌, ◌≢◌, ◌≡◌, refl, true, some, arith}
use flexpret.State.{System, Status, AttrPtr, TrapHandler, timer_addr, null_ptr}
use flexpret.Tid.{os_thread_get_id, get_timer_tid}
use flexpret.Trap.{os_thread_get_trap_handler, interrupt_on_expire}
use flexpret.Timer.{os_timer_is_running, os_timer_delete}
use flexpret.Timer.Delete.{IsDeleted, delete-IsDeleted}
use flexpret.Timer.Laws.{IsTimer, IsArmed, expiry_handler, new_and_start, new_and_start-IsArmed}
use flexpret.Timer.Handlers.{timer_periodic_handler}
use flexpret.Timer.Callback.{CallsNull, deleting, periodic_handler-deleting}
use flexpret.Examples.{hart, system, hart_0-IsPlaced}

new_and_start-IsArmed_example :
    (s' : System) × (new_and_start (hart 0) 4096 1 7 AttrPtr.null 500 system
      ≡ some ((timer_addr (hart 0) 0, Status.ok), s'))
    × (os_timer_is_running (hart 0) (timer_addr (hart 0) 0) s' ≡ true)
    × IsTimer (hart 0) 4096 1 7 s'
    × IsArmed (hart 0) 500 (expiry_handler 1) system s'
new_and_start-IsArmed_example =
    new_and_start-IsArmed (hart 0) hart_0-IsPlaced system 4096 1 7 500 AttrPtr.null
      (λ e. omega arith) refl (omega arith) (omega arith)

-- Hart 0 has a periodic timer, which runs.
abbrev ticking : System
ticking = record system {
  startup_timer_state = λ i. record { ticks = 500; func = 4096; type = 1; arg = 7 };
  timer_attr_entry = λ i. AttrPtr.own i;
  trap_handler_vector = λ i k. TrapHandler.timer_periodic;
}

ticking-IsTimer : IsTimer (hart 0) 4096 1 7 ticking
ticking-IsTimer = record { active = refl; func = refl; type = refl; arg = refl }

ticking_runs : os_timer_is_running (hart 0) (timer_addr (hart 0) 0) ticking ≡ true
unfolding os_timer_is_running get_timer_tid
ticking_runs = refl

ticking_handler :
    os_thread_get_trap_handler (hart 0) (os_thread_get_id (hart 0)) interrupt_on_expire ticking
    ≡ TrapHandler.timer_periodic
unfolding os_thread_get_trap_handler
ticking_handler = refl

delete-IsDeleted_example :
    (s' : System) × (os_timer_delete (hart 0) (timer_addr (hart 0) 0) ticking
      ≡ some (Status.ok, s'))
    × IsDeleted (hart 0) ticking s'
    × ((f t a ticks : ℕ) (attr : AttrPtr)
        → f ≢ null_ptr
        → 0 < ticks
        → t < 2
        → (s'' : System) × (new_and_start (hart 0) f t a attr ticks s'
            ≡ some ((timer_addr (hart 0) 0, Status.ok), s''))
          × (os_timer_is_running (hart 0) (timer_addr (hart 0) 0) s'' ≡ true)
          × IsTimer (hart 0) f t a s''
          × IsArmed (hart 0) ticks (expiry_handler t) s' s'')
delete-IsDeleted_example = delete-IsDeleted (hart 0) hart_0-IsPlaced ticking

periodic_handler-deleting_example :
    CallsNull (hart 0) ticking (timer_periodic_handler (deleting (hart 0)) (hart 0) ticking)
periodic_handler-deleting_example =
    periodic_handler-deleting (hart 0) ticking hart_0-IsPlaced ticking_handler

-- Counters that stats_get reads: the low half of the first one wraps between its first two reads.
abbrev cycle_count : ℕ → ℕ
cycle_count t = 4294967295 + t

abbrev inst_count : ℕ → ℕ
inst_count t = t / 2

counts-Counting : Counting cycle_count inst_count 0 18
counts-Counting = record {
  cycles_grow = λ a b l. omega arith;
  instrs_grow = λ a b l. omega arith;
  cycles_slow = omega arith;
  instrs_slow = omega arith;
  cycles_fit = omega arith;
  instrs_fit = omega arith;
}

stats_get-snapshot_example :
    (s : Stats) × (b : ℕ) × (stats_get cycle_count inst_count 3 0 ≡ some (s, b))
    × (0 ≤ b)
    × (b + 6 ≤ 18)
    × (s.cycleh * 2 ^ 32 + s.cycle ≡ cycle_count (b + 2))
    × (s.instreth * 2 ^ 32 + s.instret ≡ inst_count (b + 3))
stats_get-snapshot_example =
    stats_get-snapshot cycle_count inst_count 0 18 counts-Counting (omega arith)
