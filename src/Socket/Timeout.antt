-- ===== src/Socket/Timeout.antt =====
-- The timeout of `recvReply` of src/socket/Socket.cpp.
use x6losim.Prelude.{
  ℕ, zero, suc, ◌+◌, ◌*◌, ◌^◌, ◌≤◌, ◌<◌, ◌≡◌, refl, true, false, Option, none, some, ◌==◌, ltb,
  arith,
}
use x6losim.Prelude.Fault.{ok, fail, overflow}
use x6losim.Socket.{Timeval, timeout_of}

-- A timeout of up to 2147483 ms is given to `select` exactly, in whole seconds and microseconds; a
-- longer one overflows the `int` product.
pub timeout_of_lem :
    (ms_timeout : ℕ)
    → (0 < ms_timeout
        → ms_timeout ≤ 2147483
        → (t : Timeval) × (timeout_of ms_timeout ≡ ok (some t))
          × (t.tv_sec * 1000000 + t.tv_usec ≡ ms_timeout * 1000)
          × (t.tv_usec < 1000000))
      × (2147483 < ms_timeout → timeout_of ms_timeout ≡ fail overflow)
unfolding timeout_of
timeout_of_lem ms = (
  λ pos small.
      let waits : (ms == 0) ≡ false = ground arith in
      let fits : ltb (ms * 1000) (2 ^ 31) ≡ true = ground arith in
      rw (waits, fits) (_, refl, omega arith, omega arith),
  λ large.
      let waits : (ms == 0) ≡ false = ground arith in
      let over : ltb (ms * 1000) (2 ^ 31) ≡ false = ground arith in rw (waits, over) refl,
)

pub timeout_of_small : (ms : ℕ) → ms ≤ 2147483 → (t : Option Timeval) × (timeout_of ms ≡ ok t)
unfolding timeout_of
timeout_of_small zero h = (none, refl)
timeout_of_small (suc ms) h =
    let (t, time, _, _) = (timeout_of_lem (suc ms)).0 (omega arith) h in (some t, time)
