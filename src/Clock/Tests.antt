-- ===== src/Clock/Tests.antt =====
-- Runs of the clock functions, and the theorems at concrete times.
use x6losim.Prelude.{◌≡◌, ◌↔◌, refl, some, none, Option, true, arith}
use x6losim.Prelude.Int.{pos, negsuc, ◌-ℤ◌, ◌<ℤ◌}
use x6losim.Prelude.Fault.{ok}
use x6losim.Clock.{
  Timespec, IsNormal, nanos, compare_timespecs, timespec_subtract, Difference, get_highres_clock,
  clock_monotonic, clock_realtime, clock_process_cputime_id, ClockId,
}
use x6losim.Clock.Order.{compare_timespecs-nanos}
use x6losim.Clock.Subtract.{timespec_subtract-nanos}

abbrev early : Timespec
early = record { tv_sec = pos 1; tv_nsec = pos 999999999 }

abbrev late : Timespec
late = record { tv_sec = pos 2; tv_nsec = pos 1 }

-- The realtime clock is coarse here.
abbrev resolution : ClockId → Option Timespec
resolution clock_realtime = some (record { tv_sec = pos 0; tv_nsec = pos 1000 })
resolution clock_monotonic = some (record { tv_sec = pos 0; tv_nsec = pos 1 })
resolution clock_process_cputime_id = none

picks_monotonic : get_highres_clock resolution ≡ some clock_monotonic
unfolding get_highres_clock
picks_monotonic = refl

compare_timespecs-nanos_example :
    (compare_timespecs early late ≡ negsuc 0) ↔ (nanos early <ℤ nanos late)
compare_timespecs-nanos_example = (compare_timespecs-nanos early late (omega arith) (omega arith)).0

timespec_subtract-nanos_example :
    (d : Difference) × (timespec_subtract late early ≡ ok d)
    × (nanos d.result ≡ nanos late -ℤ nanos early)
    × IsNormal d.result
    × (nanos d.y_after ≡ nanos early)
    × ((d.is_negative ≡ true) ↔ (nanos late <ℤ nanos early))
timespec_subtract-nanos_example = timespec_subtract-nanos late early (omega arith) (omega arith)
