-- ===== src/Clock/AddMs.antt =====
-- `timespec_add_ms`.
use x6losim.Prelude.{ℕ, ◌*◌, ◌<◌, ◌≡◌, arith}
use x6losim.Prelude.Int.{pos, ◌+ℤ◌}
use x6losim.Clock.{Timespec, IsNormal, nanos, nanos_parts, timespec_add_ms}

-- Adding milliseconds to a time with nanoseconds below a second moves it on by exactly that much,
-- and leaves the nanoseconds below a second, if the `long` sum does not wrap.
pub timespec_add_ms-nanos :
    (t : Timespec) (ms : ℕ)
    → IsNormal t
    → ms < 9_000_000_000_000
    → (nanos (timespec_add_ms t ms) ≡ nanos t +ℤ pos (ms * 1000000))
      × IsNormal (timespec_add_ms t ms)
unfolding timespec_add_ms ◌+ℤ◌
timespec_add_ms-nanos t ms ht h =
    let n = nanos_parts t in let m = nanos_parts (timespec_add_ms t ms) in ground arith
