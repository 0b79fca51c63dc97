-- ===== src/Clock.antt =====
-- src/utils/time.cpp: the clock choice and the arithmetic on `struct timespec`. Seconds are exact
-- integers (a 64-bit `time_t` is not exhausted); nanoseconds are a `long`, and `int` products that
-- leave their type are the fault `overflow`.
pub mod Order
pub mod Subtract
pub mod AddMs
mod Tests
use x6losim.Prelude.{
  ℕ, ◌+◌, ◌-◌, ◌*◌, ◌/◌, ◌%◌, ◌^◌, ◌≤◌, ◌<◌, ◌≡◌, arith, Bool, true, false, Option, none, some, ltb,
  leb, ◌==◌, if◌then◌else◌,
}
use x6losim.Prelude.Int.{
  ℤ, pos, negsuc, pos_part, neg_part, sub_ℕ, ◌+ℤ◌, ◌-ℤ◌, ◌<ℤ◌, ◌≤ℤ◌, ltb_ℤ, eqb_ℤ,
}
use x6losim.Prelude.Fault.{Result, ok, fail, ◌>>=◌, ◌>>◌, require, overflow}

pub record Timespec : Type 0 where
  pub tv_sec : ℤ
  pub tv_nsec : ℤ

pub data ClockId : Type 0 where
  clock_realtime clock_monotonic clock_process_cputime_id : ClockId

-- k times an integer.
abbrev scale : ℕ → ℤ → ℤ
scale k z = sub_ℕ (k * pos_part z) (k * neg_part z)

-- The nanoseconds that a time stands for.
unfoldable pub nanos : Timespec → ℤ
unfolding ◌+ℤ◌
nanos t = scale 1000000000 t.tv_sec +ℤ t.tv_nsec

pub nanos_parts :
    (t : Timespec)
    → pos_part (nanos t) + 1000000000 * neg_part t.tv_sec + neg_part t.tv_nsec
      ≡ neg_part (nanos t) + 1000000000 * pos_part t.tv_sec + pos_part t.tv_nsec
unfolding nanos
nanos_parts t = ground arith

-- One stage of `get_highres_clock`: `none` is the -1 of `clock_getres`.
has_nanosecond_resolution : Option Timespec → Bool
unfolding nanos
has_nanosecond_resolution none = false
has_nanosecond_resolution (some res) = eqb_ℤ (nanos res) (pos 1)

-- `clock_getres` is the kernel's, and `none` is the result -1.
unfoldable pub get_highres_clock : (ClockId → Option Timespec) → Option ClockId
unfolding has_nanosecond_resolution
get_highres_clock clock_getres =
    if has_nanosecond_resolution (clock_getres clock_realtime)
    then some clock_realtime
    else if has_nanosecond_resolution (clock_getres clock_monotonic)
    then some clock_monotonic
    else if has_nanosecond_resolution (clock_getres clock_process_cputime_id)
    then some clock_process_cputime_id
    else none

pub compare_timespecs : Timespec → Timespec → ℤ
compare_timespecs t1 t2 =
    if ltb_ℤ t1.tv_sec t2.tv_sec
    then negsuc 0
    else if eqb_ℤ t1.tv_sec t2.tv_sec
    then (if ltb_ℤ t1.tv_nsec t2.tv_nsec
        then negsuc 0
        else if eqb_ℤ t1.tv_nsec t2.tv_nsec
        then pos 0
        else pos 1)
    else pos 1

-- The conversion of a `long` quotient to `int`.
abbrev narrow : ℕ → ℤ
narrow n = let m = n % 2 ^ 32 in if ltb m (2 ^ 31) then pos m else negsuc (2 ^ 32 - 1 - m)

-- `1000000000 * nsec` in `int`, which holds it for -2, -1, 0, 1 and 2 only.
billions : ℤ → Result ℤ
billions n = if leb (pos_part n + neg_part n) 2 then ok (scale 1000000000 n) else fail overflow

-- The first `if` of `timespec_subtract`: borrow whole seconds for `y`.
borrow : Timespec → Timespec → Result Timespec
unfolding billions ◌+ℤ◌ ◌-ℤ◌
borrow x y =
    let nsec = narrow (pos_part (y.tv_nsec -ℤ x.tv_nsec) / 1000000000 + 1) in
    if ltb_ℤ x.tv_nsec y.tv_nsec
    then (billions nsec >>= λ b.
        ok (record { tv_sec = y.tv_sec +ℤ nsec; tv_nsec = y.tv_nsec -ℤ b }))
    else ok y

-- The second `if`: give back whole seconds where the gap is more than one.
give_back : Timespec → Timespec → Result Timespec
unfolding billions ◌+ℤ◌ ◌-ℤ◌
give_back x y =
    let nsec = narrow (pos_part (x.tv_nsec -ℤ y.tv_nsec) / 1000000000) in
    if ltb_ℤ (pos 1000000000) (x.tv_nsec -ℤ y.tv_nsec)
    then (billions nsec >>= λ b.
        ok (record { tv_sec = y.tv_sec -ℤ nsec; tv_nsec = y.tv_nsec +ℤ b }))
    else ok y

-- `*result`, the changed `*y`, and whether the function returns 1.
pub record Difference : Type 0 where
  pub result : Timespec
  pub y_after : Timespec
  pub is_negative : Bool

pub timespec_subtract : Timespec → Timespec → Result Difference
unfolding borrow give_back
timespec_subtract x y = do
  y' ← borrow x y
  y'' ← give_back x y'
  ok (record {
    result = record { tv_sec = x.tv_sec -ℤ y''.tv_sec; tv_nsec = x.tv_nsec -ℤ y''.tv_nsec };
    y_after = y'';
    is_negative = ltb_ℤ x.tv_sec y''.tv_sec;
  })

-- A `long` as the `unsigned long` that the sum is made in, and back.
abbrev to_u64 : ℤ → ℕ
to_u64 (pos n) = n % 2 ^ 64
to_u64 (negsuc n) = 2 ^ 64 - 1 - n % 2 ^ 64

abbrev to_i64 : ℕ → ℤ
to_i64 m = if ltb m (2 ^ 63) then pos m else negsuc (2 ^ 64 - 1 - m)

-- `ms` is an `unsigned long`.
unfoldable pub timespec_add_ms : Timespec → ℕ → Timespec
unfolding ◌+ℤ◌
timespec_add_ms x ms =
    let nsec = to_i64 ((to_u64 x.tv_nsec + ms * 1000000 % 2 ^ 64) % 2 ^ 64) in
    let n = pos_part nsec in
    if ltb_ℤ nsec (pos 1000000000)
    then record x { tv_nsec = nsec }
    else record { tv_sec = x.tv_sec +ℤ pos (n / 1000000000); tv_nsec = pos (n % 1000000000) }

-- The nanoseconds are those of one second.
abbrev pub IsNormal : Timespec → Type 0
IsNormal t = (pos 0 ≤ℤ t.tv_nsec) × (t.tv_nsec <ℤ pos 1000000000)
