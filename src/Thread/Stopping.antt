-- ===== src/Thread/Stopping.antt =====
-- How the thread ends.
use x6losim.Prelude.{
  ℕ, suc, ◌<◌, ◌≡◌, refl, ap, sym, ◌∙◌, List, ◌∷◌, true, some, ◌||◌, length, if◌then◌else◌,
}
use x6losim.Prelude.Fault.{Result, ok, fail, thrown}
use x6losim.Clock.{timespec_add_ms}
use x6losim.Store.{Medium, Kernel, pure, idle, stopping, stopped}
use x6losim.Medium.{PollEvent, unblocker, is_idle_state, is_stopping_state}
use x6losim.Medium.Unblock.{process_poller_events_unblocked}
use x6losim.Thread.{
  Wait, ready, Phase, outer, inner, finished, interval, finish, after_idle_wait, after_inner,
  after_tx_wait, wait_then, inner_step, thread_step,
}
use x6losim.Thread.Interval.{waited, answered, interval_lem}

-- The thread waits: in the idle state, or while there are transmissions. The time it waits for.
abbrev pub Waits : Phase → Medium → ℕ → Type 0
Waits outer w ms = (w.state ≡ idle) × (ms ≡ 1000)
Waits inner w ms = ((q : ℕ) × (qs : List ℕ) × (w.tx_list ≡ q ∷ qs)) × (ms ≡ 1)
Waits finished w ms = ⊥

-- What comes behind the wait of a phase.
abbrev pub behind : Kernel → Phase → Medium → Result (Phase × Medium)
behind k outer = after_idle_wait
behind k _ = after_tx_wait k

pub thread_step-waited :
    (fuel : ℕ) (k : Kernel) (answers : ℕ → Wait) (p : Phase) (w : Medium) (ms : ℕ) {w' : Medium}
    → Waits p w ms
    → waited k (answers 0) ms w ≡ ok (tt, w')
    → thread_step (suc fuel) k answers p w ≡ some (behind k p w')
unfolding thread_step inner_step wait_then
thread_step-waited fuel k answers outer w ms (e, f) h =
    ap
      (λ s.
        if is_idle_state s
        then wait_then (interval (suc fuel) k answers 1000 w) after_idle_wait
        else some (pure inner w))
      e
    ∙ (ap (λ r. wait_then r after_idle_wait) (interval_lem fuel k answers 1000 w)
        ∙ ap (λ r. wait_then (some r) after_idle_wait)
            (ap (λ m. waited k (answers 0) m w) (sym f) ∙ h))
thread_step-waited fuel k answers inner w ms ((q, qs, e), f) h =
    ap (λ l. inner_step (suc fuel) k answers l w) e
    ∙ (ap (λ r. wait_then r (after_tx_wait k)) (interval_lem fuel k answers 1 w)
        ∙ ap (λ r. wait_then (some r) (after_tx_wait k))
            (ap (λ m. waited k (answers 0) m w) (sym f) ∙ h))
thread_step-waited fuel k answers finished w ms e h = absurd e

behind_stopped :
    (k : Kernel) (p : Phase) (w : Medium) (ms : ℕ) (w₀ : Medium)
    → Waits p w₀ ms
    → w.state ≡ stopping
    → behind k p w ≡ ok (finished, record w { state = stopped })
unfolding after_idle_wait after_tx_wait after_inner finish
behind_stopped k outer w ms w₀ h e =
    let b : is_stopping_state w.state ≡ true = ap is_stopping_state e in rw b
behind_stopped k inner w ms w₀ h e =
    let b : is_stopping_state w.state ≡ true = ap is_stopping_state e in rw b
behind_stopped k finished w ms w₀ h e = absurd h

-- While the thread waits, in the idle state or with transmissions, the event of the unblocker ends
-- it: where `epoll_wait` returns it as the first of at most 64 events and the timer can be armed,
-- the thread's step ends it in the state `stopped`, and changes nothing else but the time. The
-- events behind it are not handled, and no answer or packet goes out any more.
pub thread_step_unblocked :
    (fuel : ℕ) (k : Kernel) (answers : ℕ → Wait) (p : Phase) (w : Medium) (ms : ℕ) (e : PollEvent)
    (es : List PollEvent)
    → Waits p w ms
    → k.timer_settime ≡ true
    → (answers 0).epoll ≡ ready (e ∷ es)
    → e.source ≡ unblocker
    → (e.rdhup || e.readable) ≡ true
    → length es < 64
    → thread_step (suc fuel) k answers p w
      ≡ some (ok (finished, record w { cur_time = timespec_add_ms w.cur_time ms; state = stopped }))
thread_step_unblocked fuel k answers p w ms e es waits armed a h g n =
    let w' : Medium = record w { cur_time = timespec_add_ms w.cur_time ms } in
    let now : waited k (answers 0) ms w ≡ ok (tt, record w' { state = stopping }) =
      ap (λ b. if b then answered k (answers 0).epoll (answers 0).left w' else fail thrown) armed
      ∙ (ap (λ x. answered k x (answers 0).left w') a
          ∙ process_poller_events_unblocked k e es w' h g n) in
    thread_step-waited fuel k answers p w ms waits now
    ∙ ap some (behind_stopped k p (record w' { state = stopping }) ms w waits refl)
