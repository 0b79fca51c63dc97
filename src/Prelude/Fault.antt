-- ===== src/Prelude/Fault.antt =====
-- How a call of the simulator can end: with a value, or with what ends the process or leaves the
-- language's rules.
use mathlib.Core.Bool.{Bool, true, false}
use mathlib.Core.Option.{Option, none, some}

pub data Fault : Type 0 where
  -- A `throw`; nothing between it and the thread's start catches it.
  thrown : Fault
  -- A failed `assert`.
  asserted : Fault
  -- A call through a pointer to a deleted node.
  dangling : Fault
  -- A call through NULL.
  null_pointer : Fault
  -- A read or write outside the allocated bytes.
  out_of_bounds : Fault
  -- A signed product or sum outside its type.
  overflow : Fault

pub data Result {ℓ} (A : Type ℓ) : Type ℓ where
  ok : A → Result A
  fail : Fault → Result A

-- `assert(b)`, and a test whose failure throws.
abbrev pub require : Bool → Fault → Result (Unit {0})
require false e = fail e
require true _ = ok tt

-- What runs next, unless the call before it ended the process.
abbrev pub ◌>>=◌ {ℓ κ} : {A : Type ℓ} {B : Type κ} → Result A → (A → Result B) → Result B
fail fault >>= next = fail fault
ok value >>= next = next value

-- A pointer that a test for NULL precedes.
abbrev pub or_fail {ℓ} : {A : Type ℓ} → Option A → Fault → Result A
or_fail (some value) _ = ok value
or_fail none fault = fail fault

abbrev pub ◌>>◌ {κ} : {B : Type κ} → Result (Unit {0}) → Result B → Result B
first >> next = first >>= λ _. next

infixl 5 ◌>>=◌ ◌>>◌
