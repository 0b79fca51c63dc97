-- ===== src/Store/Heap.antt =====
-- Laws of the heap.
use mathlib.Core.Path.{fun_ext}
use x6losim.Prelude.{
  ℕ, ◌≡◌, ap, sym, ◌∙◌, Option, ◌==◌, ==_iff, ==_refl, arith, Bool-cases, inl, inr,
}
use x6losim.Store.{DeviceNode, update}

pub update_self :
    (heap : ℕ → Option DeviceNode) (p : ℕ) (n : Option DeviceNode) → update heap p n p ≡ n
update_self heap p n = rw (==_refl p)

-- The last write counts.
pub update-update :
    (heap : ℕ → Option DeviceNode) (p : ℕ) (m n : Option DeviceNode)
    → update (update heap p m) p n ≡ update heap p n
update-update heap p m n = fun_ext (λ q. ground arith)

-- Writing what stands there changes nothing.
pub update_same :
    (heap : ℕ → Option DeviceNode) (p : ℕ) {n : Option DeviceNode}
    → heap p ≡ n
    → update heap p n ≡ heap
update_same heap p {n} e = fun_ext at_key
  where
    at_key : (q : ℕ) → update heap p n q ≡ heap q
    at_key q = elim (Bool-cases (p == q)) [
      | inl same ↦ rw same (sym e ∙ ap heap ((==_iff p q).0 same))
      | inr other ↦ rw other
    ]
