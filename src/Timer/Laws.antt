-- ===== src/Timer/Laws.antt =====
-- The expiry that a transmission timer is armed with.
use x6losim.Prelude.{ℕ, ◌+◌, ◌*◌, ◌<◌, ◌≡◌, ap, ◌∙◌, true, false, not, arith, ◌==◌, if◌then◌else◌}
use x6losim.Prelude.Fault.{ok, ◌>>◌, require, asserted, thrown}
use x6losim.Store.{Timer, Kernel}
use x6losim.Timer.{set_expiry, start, start_ms, stop}

-- The expiry that `start(ms)` sets is never zero, which would disarm the timer, has its nanoseconds
-- below a second, and is `ms` milliseconds, or 1 ns where `ms` is 0.
pub set_expiry_lem :
    (ms : ℕ) (t : Timer)
    → let u = set_expiry ms t in
      (0 < u.tv_sec + u.tv_nsec)
      × (u.tv_nsec < 1000000000)
      × (1000000000 * u.tv_sec + u.tv_nsec ≡ (if ms == 0 then 1 else ms * 1000000))
unfolding set_expiry
set_expiry_lem ms t = ground arith

-- The timer while it runs.
abbrev pub armed : ℕ → Timer → Timer
armed ms t = record (set_expiry ms t) { started = true }

pub start_ms_lem :
    (k : Kernel) (ms : ℕ) (t : Timer)
    → k.timer_create ≡ true
    → k.timer_settime ≡ true
    → t.started ≡ false
    → start_ms k ms t ≡ ok (armed ms t)
unfolding start_ms
start_ms_lem k ms t c s r =
    ap
      (λ b. do
        require (not b) asserted
        require k.timer_create thrown
        require k.timer_settime thrown
        ok (armed ms t))
      r
    ∙ (λ i. do require (c i) thrown; require (s i) thrown; ok (armed ms t))

pub start_lem :
    (k : Kernel) (t : Timer)
    → k.timer_create ≡ true
    → k.timer_settime ≡ true
    → t.started ≡ false
    → start k t ≡ ok (record t { started = true })
unfolding start
start_lem k t c s r =
    ap
      (λ b. do
        require (not b) asserted
        require k.timer_create thrown
        require k.timer_settime thrown
        ok (record t { started = true }))
      r
    ∙ (λ i. do require (c i) thrown; require (s i) thrown; ok (record t { started = true }))

pub stop-started : (t : Timer) → (stop t).started ≡ false
unfolding stop
stop-started t = ground arith

pub start_ms_returns :
    (k : Kernel) (ms : ℕ) (t : Timer) {u : Timer}
    → start_ms k ms t ≡ ok u
    → (k.timer_create ≡ true) × (k.timer_settime ≡ true)
unfolding start_ms
start_ms_returns k ms t h = ground arith
