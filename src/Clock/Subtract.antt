-- ===== src/Clock/Subtract.antt =====
-- `timespec_subtract`.
use x6losim.Prelude.{◌≡◌, ◌↔◌, arith, if◌then◌else◌, true}
use x6losim.Prelude.Int.{pos, ◌<ℤ◌, ◌+ℤ◌, ◌-ℤ◌, int_laws, parts_of_eq, eq_of_parts, ltb_ℤ}
use x6losim.Prelude.Fault.{ok}
use x6losim.Clock.{
  Timespec, nanos_parts, borrow, give_back, IsNormal, nanos, timespec_subtract, Difference,
}

-- `*y` after the borrow, on normal times: one second moves over where the nanoseconds need it.
borrowed : Timespec → Timespec → Timespec
unfolding ◌+ℤ◌ ◌-ℤ◌
borrowed x y =
    if ltb_ℤ x.tv_nsec y.tv_nsec
    then record { tv_sec = y.tv_sec +ℤ pos 1; tv_nsec = y.tv_nsec -ℤ pos 1000000000 }
    else y

abbrev difference : Timespec → Timespec → Difference
difference x y = record {
  result = record {
    tv_sec = x.tv_sec -ℤ (borrowed x y).tv_sec;
    tv_nsec = x.tv_nsec -ℤ (borrowed x y).tv_nsec;
  };
  y_after = borrowed x y;
  is_negative = ltb_ℤ x.tv_sec (borrowed x y).tv_sec;
}

module _ (x y : Timespec) (hx : IsNormal x) (hy : IsNormal y) where
  borrow_lem : borrow x y ≡ ok (borrowed x y)
  unfolding borrow borrowed
  borrow_lem = ground arith

  give_back_lem : give_back x (borrowed x y) ≡ ok (borrowed x y)
  unfolding give_back borrowed
  give_back_lem = ground arith

  nanos-borrowed : nanos (borrowed x y) ≡ nanos y
  unfolding borrowed
  nanos-borrowed = eq_of_parts _ _ (ground (arith, nanos_parts y, nanos_parts (borrowed x y)))

  subtract_lem : timespec_subtract x y ≡ ok (difference x y)
  unfolding timespec_subtract
  subtract_lem = rw (borrow_lem, give_back_lem)

  nanos-result : nanos (difference x y).result ≡ nanos x -ℤ nanos y
  nanos-result =
      eq_of_parts _ _
        (omega (int_laws, nanos_parts, parts_of_eq (nanos (borrowed x y)) (nanos y) nanos-borrowed))

  result-IsNormal : IsNormal (difference x y).result
  unfolding borrowed
  result-IsNormal = ground arith

  is_negative_iff : ((difference x y).is_negative ≡ true) ↔ (nanos x <ℤ nanos y)
  unfolding borrowed
  is_negative_iff = ground (arith, nanos_parts x, nanos_parts y)

-- For two times with nanoseconds below a second, `timespec_subtract` succeeds: the result is the
-- exact difference, its nanoseconds are below a second, `*y` still stands for the same instant, and
-- the returned flag is set exactly when `x` is earlier than `y`.
pub timespec_subtract-nanos :
    (x y : Timespec)
    → IsNormal x
    → IsNormal y
    → (d : Difference) × (timespec_subtract x y ≡ ok d)
      × (nanos d.result ≡ nanos x -ℤ nanos y)
      × IsNormal d.result
      × (nanos d.y_after ≡ nanos y)
      × ((d.is_negative ≡ true) ↔ (nanos x <ℤ nanos y))
timespec_subtract-nanos x y hx hy = (
  difference x y,
  subtract_lem x y hx hy,
  nanos-result x y hx hy,
  result-IsNormal x y hx hy,
  nanos-borrowed x y hx hy,
  is_negative_iff x y hx hy,
)
