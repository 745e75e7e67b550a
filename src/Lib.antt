-- ===== src/Lib.antt =====
-- Verification of the FlexPRET operating system (src/os): the CMSIS-RTOS2 interface on a processor with
-- eight hardware threads (harts).
--
-- The processor gives its time slots to the harts by a register of eight fields (who runs in which slot)
-- and a mode register of two bits for each hart (hard or soft, active or asleep). A soft hart has no slot
-- of its own and runs in the soft slots. The scheduler writes both registers in critical sections under
-- the slot mutex; the threads, one for each hart, are started, ended and changed through the scheduler;
-- a mutex is a record in memory and a CSR that is swapped atomically; a timer uses the `compare` CSR and
-- the table of trap handlers; the kernel sets all this up.
--
-- Files, and the code that they are about:
--   Common         numbers, tests, lists and bit operations that the others share
--   State          src/os/include: types, constants, global variables and CSRs, as one record;
--                  State/Run: code that changes it, as a monad
--   Slots          the slot register of flexpret_threads.h, and set_slot_num of flexpret_scheduler.c; Table
--                  the register's values as tables
--   Tmodes         the mode register of flexpret_threads.h, and set_thread_mode of flexpret_scheduler.c
--   Tid            get_tid and get_timer_tid of src/os/src/flexpret_utils.c
--   Timing         the timing instructions of flexpret_timing.h, and osDelay; Stats and Print the
--                  statistics of flexpret_io.h; Gpio its ports of general purpose
--   Mutex          src/os/src/flexpret_mutex.c: Csr and Ops the operations, Wait osMutexAcquire; Lock the
--                  abstract lock that they implement; Exclusion and Progress the waits
--   Trap           src/os/src/flexpret_trap.c
--   Timer          src/os/src/flexpret_timing.c: Handlers and Callback the expiry, Delete osTimerDelete
--   Scheduler      src/os/src/flexpret_scheduler.c; Locked, Steps and Change for its critical sections,
--                  Service for the slots in which a hart may run
--   Thread         src/os/src/flexpret_threads.c: Attr, Enter and New for osThreadNew, SetPriority for
--                  osThreadSetPriority, Suspend for suspending, Clean, Terminate, End, Kill, Join, JoinRound, JoinAll,
--                  Exit and Returns for the end of threads, Well and Reach for sequences of calls
--   Kernel         src/os/src/flexpret_kernel.c: Init and Ready start-up and reset, Start, Plan and Served
--                  osKernelStart, Boot a start-up with threads, Run what may follow; Info,
--                  InfoRound and InfoText osKernelGetInfo
--   Strings        the memory and string functions of src/os/src/flexpret_utils.c (Copy, Length), and the
--                  texts of numbers and the console of src/os/src/flexpret_io.c (Hex, Digits, Short,
--                  Console)
--   Emulator       the testbenches of emulator/testbench, which simulate the processor: Loop their loop,
--                  Output what they print, Verdict the result of a test, Counters the counters of cycles,
--                  Keeps what a test keeps, Chars and Written what the threads write, Sweep the tests of a run,
--                  CommandLine the options, Main main
--   App            programs of src/os/app: Main and MainRun main.c, Duff duff.c, Search and SearchLoop bs.c,
--                  InsertSort insertsort.c, Fib fibcall.c, Lcd lcdnum.c, Loop3 loop3.c, Cover cover.c,
--                  Nested ns.c
--   Examples       concrete runs
-- A function keeps its name in snake case: osMutexAcquire is os_mutex_acquire.
--
-- Conventions and bounds:
--   - The configuration is the one of flexpret_config.h: eight harts, eight slots, eight mutexes.
--   - Pointers to threads and timers are addresses, as get_tid computes with them; a mutex identifier is
--     NULL or the number of an element of startup_mutex_state; attributes are the kernel's own or an
--     object of the caller.
--   - uint32_t arithmetic wraps at 2 ^ 32 where the code can reach it; counts of slots are at most eight.
--   - A function runs for one hart. The others run only while it waits: `Ctx.others` is what they do in
--     a round of a wait, and `Ctx.rounds` is the number of rounds that are followed. A wait that needs
--     more gives `none`; a theorem that a wait ends says which round is enough.
--   - The functions on characters work on a memory of bytes, a function from addresses, apart from the
--     system's state. strlen looks at a given number of characters; `Kernel/Info` uses nine, for texts of
--     at most eight. binary_search makes at most 17 tests of its loop's condition, and the loops of
--     the other programs of src/os/app have a bound that is enough for every input.
--   - stats_get makes at most three rounds, for counters that grow slowly enough; `stats_get-snapshot`
--     says how slowly.
--   - The testbench has FLEXPRET defined and eight threads; the generated core is a parameter, what its
--     pins show in each cycle. Its loop makes at most max_cycles + 1 tests of its condition when
--     max_cycles is not 0.
--   - The wait of main.c looks at the other harts as the waits of the system do.
--   - In a sequence of calls (Thread/Reach) each call of a hart runs to its end before the next one.
--   - getopt_long and atoi are parameters of main of the testbench: the options in their order, and what a text
--     stands for.
--   - Text on the console is left out of the functions that write it, but for `emulator_outputstr` and
--     `stats_print`.
--
-- Not modelled: the functions that the source leaves unimplemented, the assembly of src/os/asm, the tests,
-- and the processor itself; of the testbenches the VCD dump, the trace and the file of
-- statistics. What a timer's callback does is an argument of the handlers that call it.
pub mod Common
pub mod State
pub mod Slots
pub mod Tmodes
pub mod Strings
pub mod Tid
pub mod Timing
pub mod Mutex
pub mod Trap
pub mod Timer
pub mod Scheduler
pub mod Thread
pub mod Gpio
pub mod Kernel
pub mod App
pub mod Emulator
pub mod Examples
