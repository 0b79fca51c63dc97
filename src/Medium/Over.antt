-- ===== src/Medium/Over.antt =====
-- The lists of `processTxList` when the time of all transmissions is over.
use x6losim.Prelude.{
  ℕ, ◌+◌, ◌≡◌, refl, sym, ap, ◌∙◌, List, [], ◌∷◌, true, not, Option, some, length, arith, All,
  All-mono, contains, keep, ◌==◌, ==_iff, Bool-cases, inl, inr,
}
use x6losim.Store.{Kernel, DeviceNode}
use x6losim.Medium.TxOutcome.{Answers, is_over, packet_at, has_collided, goes_out, is_lost}

-- The kernel says that a transmission's time is over.
abbrev pub IsOver : Kernel → ℕ → Type 0
IsOver k p = k.tx_left p ≡ some (0, 0)

module _ (k : Kernel) (heap : ℕ → Option DeviceNode) where
  over_true : (p : ℕ) → IsOver k p → is_over k p ≡ true
  over_true p e = rw (is_over, e) refl

  pub over-Answers : (ps : List ℕ) → All (IsOver k) ps → All (Answers k) ps
  over-Answers = All-mono (λ p e. (0, 0, e))

  pub over_leave : (ps : List ℕ) → All (IsOver k) ps → keep (λ p. not (is_over k p)) ps ≡ []
  over_leave [] h = refl
  over_leave (p ∷ ps) h = ground (arith, over_true p h.0, over_leave ps h.1)

  pub over_told : (ps : List ℕ) → All (IsOver k) ps → keep (is_over k) ps ≡ ps
  over_told [] h = refl
  over_told (p ∷ ps) h = ground (arith, over_true p h.0, over_told ps h.1)

  pub over_goes_out :
      (ps : List ℕ)
      → All (IsOver k) ps
      → keep (goes_out k heap) ps ≡ keep (λ p. not (has_collided (packet_at heap p))) ps
  over_goes_out [] h = refl
  over_goes_out (p ∷ ps) h = ground (arith, over_true p h.0, over_goes_out ps h.1)

  pub over_counted :
      (ps : List ℕ)
      → All (IsOver k) ps
      → length (keep (goes_out k heap) ps) + length (keep (is_lost k heap) ps) ≡ length ps
  over_counted [] h = refl
  over_counted (p ∷ ps) h = ground (arith, over_true p h.0, over_counted ps h.1)

  pub over-contains :
      (ps : List ℕ) (p : ℕ) → All (IsOver k) ps → contains p ps ≡ true → is_over k p ≡ true
  over-contains [] p h c = cc
  over-contains (x ∷ ps) p h c = elim (Bool-cases (x == p)) [
    | inl same ↦ ap (is_over k) (sym ((==_iff x p).0 same)) ∙ over_true x h.0
    | inr other ↦ over-contains ps p h.1 (ground arith)
  ]
