-- ===== src/Thread/Points.antt =====
-- `run` and `stop` of src/sim/PhysicalMedium.cpp once more, now with every test and assignment of the
-- state, every start and end of a wait and every call as a step of its own, so that the `stop` of
-- another thread can come between any two of them, while the thread waits included. A load or store of
-- the state is indivisible here, and so is a call. A step is otherwise that of the code.

pub mod Stop
pub mod Waiting
pub mod Whole
use x6losim.Prelude.{
  ℕ, zero, suc, List, [], ◌∷◌, Bool, true, false, Option, none, some, if◌then◌else◌,
}
use x6losim.Prelude.Fault.{Result, ok, fail, thrown}
use x6losim.Clock.{timespec_add_ms}
use x6losim.Store.{Medium, M, Kernel, idle, stopped, tx_802514_frame}
use x6losim.Medium.{
  process_cca_list, tx_collision_check, process_tx_list, check_node_registration_timeout,
  is_idle_state, is_stopping_state,
}
use x6losim.Thread.{Wait, wait_loop}

-- What the thread does next.
pub data Point : Type 0 where
  idle_test idle_arm idle_wait idle_stop_test idle_list_test idle_set idle_answers : Point
  tx_test tx_arm tx_wait tx_stop_test tx_answers tx_check tx_process : Point
  end_test end_set end_timeouts loop_test exit_set ended : Point

-- `interval` up to its loop.
arm : Kernel → ℕ → M (Unit {0})
arm k ms w =
    if k.timer_settime
    then ok (tt, record w { cur_time = timespec_add_ms w.cur_time ms })
    else fail thrown

pub go : Point → Result (Unit {0} × Medium) → Result (Point × Medium)
go q (ok (_, w)) = ok (q, w)
go q (fail e) = fail e

go_waited : Point → Option (Result (Unit {0} × Medium)) → Option (Result (Point × Medium))
unfolding go
go_waited q none = none
go_waited q (some r) = some (go q r)

-- The tests of the list of transmissions.
by_list : List ℕ → Point → Point → Point
by_list [] empty full = empty
by_list (_ ∷ _) empty full = full

pub point_step : ℕ → Kernel → (ℕ → Wait) → Point → Medium → Option (Result (Point × Medium))
unfolding arm go go_waited by_list
point_step fuel k a idle_test w = some (ok (if is_idle_state w.state then idle_arm else tx_test, w))
point_step fuel k a idle_arm w = some (go idle_wait (arm k 1000 w))
point_step fuel k a idle_wait w = go_waited idle_stop_test (wait_loop fuel k a w)
point_step fuel k a idle_stop_test w =
    some (ok (if is_stopping_state w.state then exit_set else idle_list_test, w))
point_step fuel k a idle_list_test w = some (ok (by_list w.tx_list idle_answers idle_set, w))
point_step fuel k a idle_set w = some (ok (idle_answers, record w { state = tx_802514_frame }))
point_step fuel k a idle_answers w = some (go tx_test (process_cca_list w))
point_step fuel k a tx_test w = some (ok (by_list w.tx_list end_test tx_arm, w))
point_step fuel k a tx_arm w = some (go tx_wait (arm k 1 w))
point_step fuel k a tx_wait w = go_waited tx_stop_test (wait_loop fuel k a w)
point_step fuel k a tx_stop_test w =
    some (ok (if is_stopping_state w.state then end_test else tx_answers, w))
point_step fuel k a tx_answers w = some (go tx_check (process_cca_list w))
point_step fuel k a tx_check w = some (go tx_process (tx_collision_check w))
point_step fuel k a tx_process w = some (go tx_test (process_tx_list k w))
point_step fuel k a end_test w =
    some (ok (if is_stopping_state w.state then loop_test else end_set, w))
point_step fuel k a end_set w = some (ok (end_timeouts, record w { state = idle }))
point_step fuel k a end_timeouts w = some (go loop_test (check_node_registration_timeout k w))
point_step fuel k a loop_test w =
    some (ok (if is_stopping_state w.state then exit_set else idle_test, w))
point_step fuel k a exit_set w = some (ok (ended, record w { state = stopped }))
point_step fuel k a ended w = some (ok (ended, w))

is_ended : Point → Bool
is_ended ended = true
is_ended _ = false

-- `pthread_join`: the thread's further steps up to its end, on fuel, with the kernel's answers for each.
pub join_thread : ℕ → Kernel → (ℕ → ℕ → Wait) → Point → Medium → Option (Result Medium)
unfolding point_step is_ended
join_thread zero k answers q w = if is_ended q then some (ok w) else none
join_thread (suc fuel) k answers q w = elim (point_step 1 k (answers 0) q w) [
  | none ↦ none
  | some (fail e) ↦ some (fail e)
  | some (ok (q', w')) ↦ join_thread fuel k (λ i. answers (suc i)) q' w'
]
