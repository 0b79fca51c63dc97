-- ===== src/Clock/Order.antt =====
-- `compare_timespecs` and `get_highres_clock`.
use x6losim.Prelude.{◌≡◌, ◌↔◌, arith}
use x6losim.Prelude.Int.{pos, negsuc, ◌<ℤ◌, eq_of_parts, parts_of_eq}
use x6losim.Clock.{nanos_parts, Timespec, IsNormal, nanos, compare_timespecs}

module _ (a b : Timespec) (ha : IsNormal a) (hb : IsNormal b) where
  earlier_iff : (compare_timespecs a b ≡ negsuc 0) ↔ (nanos a <ℤ nanos b)
  unfolding compare_timespecs
  earlier_iff = ground (arith, nanos_parts a, nanos_parts b)

  later_iff : (compare_timespecs a b ≡ pos 1) ↔ (nanos b <ℤ nanos a)
  unfolding compare_timespecs
  later_iff = ground (arith, nanos_parts a, nanos_parts b)

  same_iff : (compare_timespecs a b ≡ pos 0) ↔ (nanos a ≡ nanos b)
  unfolding compare_timespecs
  same_iff = ground (
    arith,
    nanos_parts a,
    nanos_parts b,
    eq_of_parts (nanos a) (nanos b),
    parts_of_eq (nanos a) (nanos b),
  )

-- On times with nanoseconds below a second, `compare_timespecs` returns -1 exactly when the first
-- time is earlier, 1 exactly when it is later, and 0 exactly when the two are the same instant.
pub compare_timespecs-nanos :
    (a b : Timespec)
    → IsNormal a
    → IsNormal b
    → ((compare_timespecs a b ≡ negsuc 0) ↔ (nanos a <ℤ nanos b))
      × ((compare_timespecs a b ≡ pos 0) ↔ (nanos a ≡ nanos b))
      × ((compare_timespecs a b ≡ pos 1) ↔ (nanos b <ℤ nanos a))
compare_timespecs-nanos a b ha hb = (earlier_iff a b ha hb, same_iff a b ha hb, later_iff a b ha hb)
