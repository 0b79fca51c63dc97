-- ===== src/Timer.antt =====
-- `DeviceNodeTimer` of src/sim/DeviceNode.cpp.
pub mod Laws
use x6losim.Prelude.{
  ℕ, ◌*◌, ◌/◌, ◌%◌, Bool, true, false, not, ◌&&◌, Option, none, some, ◌==◌, if◌then◌else◌,
}
use x6losim.Prelude.Fault.{Result, ok, fail, ◌>>=◌, ◌>>◌, require, asserted, thrown}
use x6losim.Store.{Timer, Kernel}

-- The constructor, with the seconds and nanoseconds of the first expiry.
unfoldable pub new_timer : ℕ → ℕ → Timer
new_timer sec nsec = record { started = false; tv_sec = sec; tv_nsec = nsec }

-- `start()`, with the expiry as it is set.
unfoldable pub start : Kernel → Timer → Result Timer
start k t = do
  require (not t.started) asserted
  require k.timer_create thrown
  require k.timer_settime thrown
  ok (record t { started = true })

-- The expiry that `start(ms)` sets: 1 ns for none, since 0 would disarm the timer.
unfoldable pub set_expiry : ℕ → Timer → Timer
set_expiry ms t =
    if ms == 0
    then record t { tv_sec = 0; tv_nsec = 1 }
    else record t { tv_sec = ms / 1000; tv_nsec = ms % 1000 * 1000000 }

unfoldable pub start_ms : Kernel → ℕ → Timer → Result Timer
unfolding set_expiry
start_ms k ms t = do
  require (not t.started) asserted
  require k.timer_create thrown
  require k.timer_settime thrown
  ok (record (set_expiry ms t) { started = true })

unfoldable pub stop : Timer → Timer
stop t = if t.started then record t { started = false } else t

-- `left` is the answer of `timer_gettime`.
unfoldable pub expired : Option (ℕ × ℕ) → Timer → Result Bool
expired none t = require t.started asserted >> fail thrown
expired (some (sec, nsec)) t = require t.started asserted >> ok (sec == 0 && nsec == 0)
