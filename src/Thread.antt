-- ===== src/Thread.antt =====
-- The thread of a medium: `interval`, `run` and `stop` of src/sim/PhysicalMedium.cpp. What the kernel
-- answers is an argument. The thread is a sequence of steps, each up to the next test of a loop: what it
-- does from one such test to the next while no other thread calls `stop`. Thread/Points has the tests,
-- assignments, waits and calls within them one by one, so that `stop` can come between any two, and
-- Thread/Points/Whole shows that they make up these steps.
pub mod Interval
pub mod Stopping
pub mod Idle
pub mod Shutdown
pub mod Turns
pub mod Points
mod Tests
use x6losim.Prelude.{
  ℕ, zero, suc, ◌+◌, ◌*◌, ◌/◌, List, [], ◌∷◌, Bool, true, false, not, ◌&&◌, Option, none, some, ltb,
  if◌then◌else◌,
}
use x6losim.Prelude.Fault.{Result, ok, fail, thrown}
use x6losim.Clock.{Timespec, timespec_add_ms}
use x6losim.Store.{
  Medium, M, ◌>>=◌, ◌>>◌, pure, raise, check, modify, Kernel, stopped, idle, tx_802514_frame,
  stopping,
}
use x6losim.Medium.{
  PollEvent, process_poller_events, process_cca_list, tx_collision_check, process_tx_list,
  check_node_registration_timeout, set_state, is_idle_state, is_stopping_state,
}

-- What `epoll_wait` returns: -1 with EINTR or with another error, or the events, none at a timeout.
pub data EpollAnswer : Type 0 where
  interrupted epoll_failure : EpollAnswer
  ready : List PollEvent → EpollAnswer

-- One turn of the loop of `interval`: the answers of `epoll_wait` and of `timer_gettime`.
pub record Wait : Type 0 where
  pub epoll : EpollAnswer
  pub left : Option (ℕ × ℕ)

-- The end of the loop's body and its condition, `rv > 0 && waitms > 0`; `rv` is `none` for -1.
abbrev positive : Option ℕ → Bool
positive none = false
positive (some rv) = ltb 0 rv

go_on : Option ℕ → Option (ℕ × ℕ) → M Bool
go_on rv none = raise thrown
go_on rv (some (sec, nsec)) = pure (positive rv && ltb 0 (sec * 1000 + nsec / 1000000))

-- One turn, and whether another follows.
wait_once : Kernel → Wait → M Bool
unfolding go_on
wait_once k a = elim a.epoll [
  | epoll_failure ↦ raise thrown
  | interrupted ↦ go_on none a.left
  | ready [] ↦ go_on (some 0) a.left
  | ready (e ∷ es) ↦ do process_poller_events k (e ∷ es); pure false
]

-- The loop on fuel, which the first turn of `do ... while` needs too.
pub wait_loop : ℕ → Kernel → (ℕ → Wait) → Medium → Option (Result (Unit {0} × Medium))
unfolding wait_once
wait_loop zero k answers w = none
wait_loop (suc fuel) k answers w = elim (wait_once k (answers 0) w) [
  | fail e ↦ some (fail e)
  | ok (true, w') ↦ wait_loop fuel k (λ i. answers (suc i)) w'
  | ok (false, w') ↦ some (ok (tt, w'))
]

unfoldable pub interval : ℕ → Kernel → (ℕ → Wait) → ℕ → Medium → Option (Result (Unit {0} × Medium))
unfolding wait_loop
interval fuel k answers waitms w =
    let w' = record w { cur_time = timespec_add_ms w.cur_time waitms } in
    if k.timer_settime then wait_loop fuel k answers w' else some (fail thrown)

-- Where the thread stands: at the start of the outer loop's body, at the test of the inner loop, or
-- at its end.
pub data Phase : Type 0 where
  outer inner finished : Phase

-- `run` before its loops; `now` is the answer of `clock_gettime`.
pub run_start : Option Timespec → M Phase
run_start none w = fail thrown
run_start (some now) w = ok (outer, record w { state = idle; cur_time = now })

-- Behind the loops.
finish : M Phase
finish = do set_state stopped; pure finished

-- The state by the list of transmissions: the medium stays idle while it is empty.
set_tx_state : List ℕ → Medium → Medium
set_tx_state [] w = w
set_tx_state (_ ∷ _) w = record w { state = tx_802514_frame }

-- Behind the wait in the idle state: `state` is read after the events have been handled.
pub after_idle_wait : M Phase
unfolding finish set_tx_state
after_idle_wait w =
    if is_stopping_state w.state
    then finish w
    else (do modify (λ v. set_tx_state v.tx_list v); process_cca_list; pure inner) w

-- Behind the inner loop.
after_inner : Kernel → M Phase
unfolding finish
after_inner k w =
    if is_stopping_state w.state
    then finish w
    else (do
      set_state idle
      check_node_registration_timeout k
      λ v. if is_stopping_state v.state then finish v else pure outer v)
        w

-- Behind the wait in the inner loop.
pub after_tx_wait : Kernel → M Phase
unfolding after_inner
after_tx_wait k w =
    if is_stopping_state w.state
    then after_inner k w
    else (do process_cca_list; tx_collision_check; process_tx_list k; pure inner) w

-- A wait and what follows it.
wait_then : Option (Result (Unit {0} × Medium)) → M Phase → Option (Result (Phase × Medium))
wait_then none next = none
wait_then (some (fail e)) next = some (fail e)
wait_then (some (ok (_, w))) next = some (next w)

-- The body of the inner loop, by the list in its test.
inner_step : ℕ → Kernel → (ℕ → Wait) → List ℕ → Medium → Option (Result (Phase × Medium))
unfolding interval after_tx_wait wait_then
inner_step fuel k answers [] w = some (after_inner k w)
inner_step fuel k answers (_ ∷ _) w = wait_then (interval fuel k answers 1 w) (after_tx_wait k)

-- One step of `run`, undisturbed.
pub thread_step : ℕ → Kernel → (ℕ → Wait) → Phase → Medium → Option (Result (Phase × Medium))
unfolding interval after_idle_wait inner_step wait_then
thread_step fuel k answers outer w =
    if is_idle_state w.state
    then wait_then (interval fuel k answers 1000 w) after_idle_wait
    else some (pure inner w)
thread_step fuel k answers inner w = inner_step fuel k answers w.tx_list w
thread_step fuel k answers finished w = some (pure finished w)

-- `stop`, which another thread calls: a store of its own, between any two points of Thread/Points.
unfoldable pub stop_medium : Medium → Medium
stop_medium w = record w { state = stopping }
