-- ===== src/Program.antt =====
-- src/main.cpp, and the construction, `stop` and destruction of `NetworkSimulator`
-- (src/sim/Simulator.cpp) with the start and the join of the mediums' threads
-- (src/sim/PhysicalMedium.cpp). What the two threads do to their mediums while `start` runs is an
-- argument. Once stopped, the two threads share nothing, and their steps are put one thread after the
-- other.
pub mod Shutdown
pub mod Signals
mod Tests
use x6losim.Prelude.{ℕ, List, [], ◌∷◌, Bool, true, false, Option, none, some, ◌==◌, if◌then◌else◌}
use x6losim.Prelude.Fault.{
  Fault, thrown, asserted, dangling, null_pointer, out_of_bounds, overflow, Result, ok, fail, ◌>>=◌,
  ◌>>◌, require, or_fail,
}
use x6losim.Clock.{Timespec, ClockId, get_highres_clock}
use x6losim.Store.{Medium, Kernel, powerline, wireless}
use x6losim.Medium.Construction.{MediumAnswers, new_medium}
use x6losim.Medium.Destruction.{delete_medium}
use x6losim.Thread.{Wait, stop_medium}
use x6losim.Thread.Points.{Point, join_thread}
use x6losim.Socket.Unblocker.{Pipes, unblock}
use x6losim.Socket.Listening.{Descriptors}
use x6losim.Server.{Turn, Nodes}
use x6losim.Server.Startup.{OpenAnswers, start}

pub record NetworkSimulator : Type 0 where
  pub debug : Bool
  pub stop : Bool
  pub plc_medium : Medium
  pub wl_medium : Medium

-- What the constructor finds: the clocks, the memory of two members, and whether the calls for the two
-- mediums and their threads are granted.
pub record SimulatorAnswers : Type 0 where
  pub clock_getres : ClockId → Option Timespec
  pub plc_found : Timespec
  pub wl_found : Timespec
  pub plc_answers : MediumAnswers
  pub wl_answers : MediumAnswers
  pub plc_thread : Bool
  pub wl_thread : Bool

unfoldable pub new_pimpl : Bool → SimulatorAnswers → Result NetworkSimulator
new_pimpl debug a = do
  plc ← new_medium powerline a.plc_found a.plc_answers
  wl ← new_medium wireless a.wl_found a.wl_answers
  ok (record { debug = debug; stop = false; plc_medium = plc; wl_medium = wl })

-- `PhysicalMedium::start`; the thread begins at `run_start`.
abbrev pub start_medium : Bool → Result (Unit {0})
start_medium created = require created thrown

-- The mediums are made before the clock is looked at.
unfoldable pub new_simulator : Bool → SimulatorAnswers → Result NetworkSimulator
new_simulator debug a = do
  sim ← new_pimpl debug a
  clock ← or_fail (get_highres_clock a.clock_getres) thrown
  start_medium a.plc_thread
  start_medium a.wl_thread
  ok sim

-- `stop`: the bytes in the unblocker's pipe, and the simulator.
unfoldable pub stop_simulator : Pipes → Bool → ℕ → NetworkSimulator → ℕ × NetworkSimulator
stop_simulator pipes written pending sim =
    (unblock pipes written pending, record sim { stop = true })

-- Where a thread is when it is stopped, in a wait for instance, and the kernel's answers to each of its
-- further steps.
pub record Running : Type 0 where
  pub point : Point
  pub kernel : Kernel
  pub answers : ℕ → ℕ → Wait

-- `waitForExit`: the thread's steps up to its end, on fuel.
abbrev pub wait_for_exit : ℕ → Running → Medium → Option (Result Medium)
wait_for_exit fuel r w = join_thread fuel r.kernel r.answers r.point w

abbrev pub after_exit :
    {A : Type 0} → Option (Result Medium) → (Medium → Option (Result A)) → Option (Result A)
after_exit none next = none
after_exit (some (fail e)) next = some (fail e)
after_exit (some (ok w)) next = next w

unfoldable pub delete_pimpl : Medium → Medium → Result (Medium × Medium)
delete_pimpl plc wl = do plc' ← delete_medium plc; wl' ← delete_medium wl; ok (plc'.1, wl'.1)

unfoldable pub delete_simulator :
    ℕ → Running → Running → NetworkSimulator → Option (Result (Medium × Medium))
delete_simulator fuel plc wl sim =
    after_exit (wait_for_exit fuel plc (stop_medium sim.plc_medium)) (λ v.
      after_exit (wait_for_exit fuel wl (stop_medium sim.wl_medium)) (λ w. some (delete_pimpl v w)))

pub data Signal : Type 0 where
  sigint sigterm sighup : Signal

-- `sim` is NULL until the constructor has returned.
unfoldable pub signal_handler :
    Pipes → Bool → Signal → ℕ → Option NetworkSimulator → ℕ × Option NetworkSimulator
signal_handler pipes written sighup pending sim = (pending, sim)
signal_handler pipes written _ pending none = (pending, none)
signal_handler pipes written _ pending (some sim) =
    let (pending', sim') = stop_simulator pipes written pending sim in (pending', some sim')

-- How the process ends.
pub data Exit : Type 0 where
  exit_success exit_failure : Exit
  aborted : Fault → Exit

-- The results of `getopt` up to its -1: `x`, or anything else.
unfoldable pub main_options : List ℕ → Bool → Option Bool
main_options [] debug = some debug
main_options (opt ∷ opts) debug =
    let rest = main_options opts true in if opt == 120 then rest else none

-- Only what is thrown is caught.
abbrev pub is_caught : Fault → Bool
is_caught thrown = true
is_caught _ = false

-- `delete(sim)` and what follows.
abbrev pub leave : Option (Result (Medium × Medium)) → Option Exit
leave none = none
leave (some (ok _)) = some exit_success
leave (some (fail e)) = some (aborted e)

-- The threads of the process while `start` runs, and when they are stopped.
pub record Others : Type 0 where
  pub meanwhile : NetworkSimulator → NetworkSimulator
  pub plc_running : Running
  pub wl_running : Running

abbrev pub after_start :
    ℕ → Others → NetworkSimulator → Option (Result Nodes × Descriptors) → Option Exit
after_start fuel o sim none = none
after_start fuel o sim (some (ok _, d)) =
    leave (delete_simulator fuel o.plc_running o.wl_running (o.meanwhile sim))
after_start fuel o sim (some (fail e, d)) =
    if is_caught e
    then leave (delete_simulator fuel o.plc_running o.wl_running (o.meanwhile sim))
    else some (aborted e)

-- The handler of exceptions around construction and `start`. Where the constructor throws, `sim` is
-- NULL.
abbrev pub run_simulator :
    ℕ → Others → Result NetworkSimulator → Option (Result Nodes × Descriptors) → Option Exit
run_simulator fuel o (fail e) started = some (if is_caught e then exit_success else aborted e)
run_simulator fuel o (ok sim) started = after_start fuel o sim started

unfoldable pub main :
    List ℕ
    → SimulatorAnswers
    → OpenAnswers
    → OpenAnswers
    → Option ℕ
    → List Turn
    → Descriptors
    → ℕ
    → Others
    → Option Exit
main opts a han air pipe ts d fuel o = elim (main_options opts false) [
  | none ↦ some exit_failure
  | some debug ↦ run_simulator fuel o (new_simulator debug a) (start han air pipe ts d)
]
