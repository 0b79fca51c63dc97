-- ===== src/Thread/Interval.antt =====
-- What one call of `interval` does.
use x6losim.Prelude.{
  ℕ, suc, ◌≡◌, refl, [], ◌∷◌, Bool, true, false, Option, none, some, if◌then◌else◌,
}
use x6losim.Prelude.Fault.{Result, ok, fail, thrown}
use x6losim.Clock.{timespec_add_ms}
use x6losim.Store.{Medium, Kernel, pure}
use x6losim.Medium.{process_poller_events}
use x6losim.Thread.{
  Wait, EpollAnswer, interrupted, epoll_failure, ready, go_on, wait_once, wait_loop, interval,
}

-- The end of a wait without events, by the answer of `timer_gettime`.
abbrev pub woken : Option (ℕ × ℕ) → Medium → Result (Unit {0} × Medium)
woken none w = fail thrown
woken (some left) w = ok (tt, w)

-- A single turn of the wait.
abbrev pub answered : Kernel → EpollAnswer → Option (ℕ × ℕ) → Medium → Result (Unit {0} × Medium)
answered k epoll_failure left w = fail thrown
answered k interrupted left w = woken left w
answered k (ready []) left w = woken left w
answered k (ready (e ∷ es)) left w = process_poller_events k (e ∷ es) w

abbrev pub waited : Kernel → Wait → ℕ → Medium → Result (Unit {0} × Medium)
waited k a waitms w =
    if k.timer_settime
    then answered k a.epoll a.left (record w { cur_time = timespec_add_ms w.cur_time waitms })
    else fail thrown

-- Its result, with whether another turn follows: never.
abbrev last_turn : Result (Unit {0} × Medium) → Result (Bool × Medium)
last_turn (ok (_, w)) = ok (false, w)
last_turn (fail e) = fail e

last_turn-pure :
    (r : Result (Unit {0} × Medium))
    → (elim r [ ok (_, w) ↦ pure false w | fail e ↦ fail e ]) ≡ last_turn r
last_turn-pure (ok (_, w)) = refl
last_turn-pure (fail e) = refl

wait_once_lem :
    (k : Kernel) (epoll : EpollAnswer) (left : Option (ℕ × ℕ)) (w : Medium)
    → wait_once k (record { epoll = epoll; left = left }) w ≡ last_turn (answered k epoll left w)
unfolding wait_once go_on
wait_once_lem k epoll_failure left w = refl
wait_once_lem k interrupted none w = refl
wait_once_lem k interrupted (some left) w = refl
wait_once_lem k (ready []) none w = refl
wait_once_lem k (ready []) (some left) w = refl
wait_once_lem k (ready (e ∷ es)) left w = last_turn-pure (process_poller_events k (e ∷ es) w)

pub wait_loop_lem :
    (fuel : ℕ) (k : Kernel) (answers : ℕ → Wait) (w : Medium)
    → wait_loop (suc fuel) k answers w ≡ some (answered k (answers 0).epoll (answers 0).left w)
unfolding wait_loop
wait_loop_lem fuel k answers w =
    rw (wait_once_lem k (answers 0).epoll (answers 0).left w, wait_loop)
      (ended (answered k (answers 0).epoll (answers 0).left w))
  where
    ended :
        (r : Result (Unit {0} × Medium))
        → (elim (last_turn r) [
          | fail e ↦ some (fail e)
          | ok (true, w') ↦ wait_loop fuel k (λ i. answers (suc i)) w'
          | ok (false, w') ↦ some (ok (tt, w'))
        ])
          ≡ some r
    ended (ok (_, w')) = refl
    ended (fail e) = refl

-- A wait is over after the first answer of `epoll_wait`: it sets the medium's time forward by the
-- time to wait, and handles the events if there are any. A signal that interrupts it and a timeout
-- end it too, whatever time is left. It fails only where the timer, `epoll_wait` or an event fails,
-- and never comes to a second turn.
pub interval_lem :
    (fuel : ℕ) (k : Kernel) (answers : ℕ → Wait) (waitms : ℕ) (w : Medium)
    → interval (suc fuel) k answers waitms w ≡ some (waited k (answers 0) waitms w)
unfolding interval
interval_lem fuel k answers waitms w =
    rw (wait_loop_lem fuel k answers (record w { cur_time = timespec_add_ms w.cur_time waitms }))
      (armed k.timer_settime)
  where
    armed :
        (b : Bool)
        → (if b
            then some (
                answered k
                  (answers 0).epoll
                  (answers 0).left
                  (record w { cur_time = timespec_add_ms w.cur_time waitms }))
            else some (fail thrown))
          ≡ some (
              if b
              then answered k
                  (answers 0).epoll
                  (answers 0).left
                  (record w { cur_time = timespec_add_ms w.cur_time waitms })
              else fail thrown)
    armed true = refl
    armed false = refl
