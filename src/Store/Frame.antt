-- ===== src/Store/Frame.antt =====
-- Relations between the medium before and after a call, composed along the call.
use x6losim.Prelude.{
  ℕ, List, [], ◌∷◌, ◌++◌, ◌≡◌, refl, subst, Bool, true, false, Option, none, some,
}
use x6losim.Prelude.Fault.{dangling, Fault, Result, ok, fail}
use x6losim.Store.{
  Medium, M, ◌>>=◌, ◌>>◌, pure, raise, check, lift, modify, deref, store, put_node, DeviceNode,
  update,
}

-- Where the call returns, the relation holds between its two states.
abbrev pub Keeps : (Medium → Medium → Type 0) → {A : Type 0} → M A → Type 0
Keeps R {A} m = (w w' : Medium) (a : A) → m w ≡ ok (a, w') → R w w'

pub bind_returns :
    {A B : Type 0} (r : Result (A × Medium)) (f : A → M B) {b : B} {w'' : Medium}
    → (elim r [ ok (a, w') ↦ f a w' | fail e ↦ fail e ]) ≡ ok (b, w'')
    → (a : A) × (w' : Medium) × (r ≡ ok (a, w')) × (f a w' ≡ ok (b, w''))
bind_returns (ok (a, w')) f h = (a, w', refl, h)
bind_returns (fail e) f h = cc

pub returned :
    (R : Medium → Medium → Type 0) {A : Type 0} {a b : A} {u v w : Medium}
    → ◌≡◌ {A = Result (A × Medium)} (ok (a, v)) (ok (b, w))
    → R u v
    → R u w
returned R {A} {a} {b} {u} {v} {w} e = let state : v ≡ w = cc in subst (R u) state

-- What a relation has to allow so that the handlers of the node at `p` keep it.
pub record Frame (p : ℕ) (R : Medium → Medium → Type 0) : Type 0 where
  pub same : (w : Medium) → R w w
  pub next : {u v w : Medium} → R u v → R v w → R u w
  pub changes_node : (w : Medium) (n : DeviceNode) → R w (put_node p n w)
  pub deletes_node : (w : Medium) → R w (record w { heap = update w.heap p none })
  pub sends : (w : Medium) (msg : List ℕ) → R w (record w { sent = w.sent ++ (p, msg) ∷ [] })
  pub asks_cca : (w : Medium) → R w (record w { cca_list = w.cca_list ++ p ∷ [] })
  pub asks_tx : (w : Medium) → R w (record w { tx_list = w.tx_list ++ p ∷ [] })
  pub changes_maps :
      (w : Medium) (reg nodes : List (ℕ × ℕ))
      → R w (record w { reg_list_map = reg; node_hash_map = nodes })

module _ {p : ℕ} {R : Medium → Medium → Type 0} (fr : Frame p R) where
  pub bind-Keeps :
      {A B : Type 0} (m : M A) (f : A → M B)
      → Keeps R m
      → ((a : A) → Keeps R (f a))
      → Keeps R (m >>= f)
  bind-Keeps m f km kf w w'' b h =
      let (a, w', e, g) = bind_returns (m w) f h in fr.next (km w w' a e) (kf a w' w'' b g)

  pub modify-Keeps : (f : Medium → Medium) → ((w : Medium) → R w (f w)) → Keeps R (modify f)
  modify-Keeps f h w w' a e = returned R e (h w)

  pub pure-Keeps : {A : Type 0} (a : A) → Keeps R (pure a)
  pure-Keeps a w w' b e = returned R e (fr.same w)

  pub raise-Keeps : {A : Type 0} (f : Fault) → Keeps R {A = A} (raise f)
  raise-Keeps f w w' b e = cc

  pub check-Keeps : (b : Bool) (f : Fault) → Keeps R (check b f)
  check-Keeps true f w w' a e = returned R e (fr.same w)
  check-Keeps false f w w' a e = cc

  pub lift-Keeps : {A : Type 0} (r : Result A) → Keeps R (lift r)
  lift-Keeps (ok a) w w' b e = returned R e (fr.same w)
  lift-Keeps (fail f) w w' b e = cc

  pub deref-Keeps : (q : ℕ) → Keeps R (deref q)
  deref-Keeps q w w' a e = found (w.heap q) e
    where
      found :
          (n : Option DeviceNode)
          → ◌≡◌ {A = Result (DeviceNode × Medium)}
              (elim n [ none ↦ fail dangling | some m ↦ ok (m, w) ])
              (ok (a, w'))
          → R w w'
      found none e = cc
      found (some m) e = returned R e (fr.same w)

  pub then-Keeps :
      {B : Type 0} (m : M (Unit {0})) (k : M B) → Keeps R m → Keeps R k → Keeps R (m >> k)
  then-Keeps m k hm hk = bind-Keeps m (λ _. k) hm (λ _. hk)

  pub store-Keeps : (n : DeviceNode) → Keeps R (store p n)
  store-Keeps n = modify-Keeps (put_node p n) (λ w. fr.changes_node w n)
