-- ===== src/Store/Returns.antt =====
-- What is known of the parts of a call that returned.
use x6losim.Prelude.{
  ℕ, ◌≡◌, refl, sym, subst, ◌⊎◌, inl, inr, if◌then◌else◌, Bool, true, false, Option, none, some,
}
use x6losim.Prelude.Fault.{Fault, Result, ok, fail, dangling}
use x6losim.Store.{Medium, M, DeviceNode, ◌>>=◌, ◌>>◌, deref, check, lift, pure}
use x6losim.Store.Frame.{bind_returns}

pub deref_returns :
    (p : ℕ) (w : Medium) {n : DeviceNode} {w' : Medium}
    → ◌≡◌ {A = Result (DeviceNode × Medium)} (deref p w) (ok (n, w'))
    → (w.heap p ≡ some n) × (w ≡ w')
deref_returns p w {n} {w'} h = found (w.heap p) h
  where
    found :
        (o : Option DeviceNode)
        → ◌≡◌ {A = Result (DeviceNode × Medium)}
            (elim o [ none ↦ fail dangling | some m ↦ ok (m, w) ])
            (ok (n, w'))
        → (o ≡ some n) × (w ≡ w')
    found none h = cc
    found (some m) h = (cc, cc)

pub check_returns :
    (b : Bool) (f : Fault) (w : Medium) {a : Unit {0}} {w' : Medium}
    → ◌≡◌ {A = Result (Unit {0} × Medium)} (check b f w) (ok (a, w'))
    → (b ≡ true) × (w ≡ w')
check_returns true f w h = (refl, cc)
check_returns false f w h = cc

pub lift_returns :
    {A : Type 0} (r : Result A) (w : Medium) {a : A} {w' : Medium}
    → ◌≡◌ {A = Result (A × Medium)} (lift r w) (ok (a, w'))
    → (r ≡ ok a) × (w ≡ w')
lift_returns (ok b) w h = (cc, cc)
lift_returns (fail f) w h = cc

-- Inversions of `do` blocks, with the state that the part leaves put back.
pub after_deref :
    {B : Type 0} (p : ℕ) (f : DeviceNode → M B) (w : Medium) {b : B} {w' : Medium}
    → (deref p >>= f) w ≡ ok (b, w')
    → (n : DeviceNode) × (w.heap p ≡ some n) × (f n w ≡ ok (b, w'))
after_deref p f w {b} {w'} h =
    let (n, v, e, g) = bind_returns (deref p w) f h in
    let (there, same) = deref_returns p w e in
    (n, there, subst (λ x. f n x ≡ ok (b, w')) (sym same) g)

pub after_check :
    {B : Type 0} (c : Bool) (e : Fault) (k : M B) (w : Medium) {b : B} {w' : Medium}
    → (check c e >> k) w ≡ ok (b, w')
    → (c ≡ true) × (k w ≡ ok (b, w'))
after_check c e k w {b} {w'} h =
    let (u, v, g, rest) = bind_returns (check c e w) (λ _. k) h in
    let (passed, same) = check_returns c e w g in
    (passed, subst (λ x. k x ≡ ok (b, w')) (sym same) rest)

pub after_lift :
    {A B : Type 0} (r : Result A) (f : A → M B) (w : Medium) {b : B} {w' : Medium}
    → (lift r >>= f) w ≡ ok (b, w')
    → (a : A) × (r ≡ ok a) × (f a w ≡ ok (b, w'))
after_lift r f w {b} {w'} h =
    let (a, v, e, g) = bind_returns (lift r w) f h in
    let (value, same) = lift_returns r w e in
    (a, value, subst (λ x. f a x ≡ ok (b, w')) (sym same) g)

-- The branch that was taken.
pub taken :
    {A : Type 0} (b : Bool) (m k : M A) (w : Medium) {r : Result (A × Medium)}
    → (if b then m else k) w ≡ r
    → (m w ≡ r) ⊎ (k w ≡ r)
taken true m k w h = inl h
taken false m k w h = inr h

pub pure_returns :
    {A : Type 0} (a : A) (w : Medium) {b : A} {w' : Medium}
    → ◌≡◌ {A = Result (A × Medium)} (pure a w) (ok (b, w'))
    → w' ≡ w
pure_returns a w h = cc
