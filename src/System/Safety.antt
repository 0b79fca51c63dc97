-- ===== src/System/Safety.antt =====
-- In a medium that is well the thread's work on its lists does not fail.
use x6losim.Prelude.{
  ℕ, ◌≡◌, refl, List, [], ◌∷◌, ◌++◌, map, true, not, Option, none, some, ==_refl, leb, Bool-cases,
  inl, inr, ◌⊎◌, contains, keep, length, All, arith,
}
use x6losim.Prelude.Fault.{ok}
use x6losim.Packet.{NetSimPacket}
use x6losim.Store.{
  Medium, Kernel, DeviceNode, NodeState, registering, active, transmitting, powerline, wireless,
  MediumKind,
}
use x6losim.Medium.{process_cca_list, tx_collision_check, process_tx_list}
use x6losim.Medium.Outgoing.{IsSendable}
use x6losim.Medium.TxOutcome.{Transmits, Answers, is_over, Outcome}
use x6losim.Medium.TxList.{process_tx_list_lem}
use x6losim.Medium.Channel.{
  Alive, HasPacket, cca_answer, collided, process_cca_list_lem, tx_collision_check_lem,
}
use x6losim.System.{IsTransmitting, InState, Slot, IsWell}

each_of : (P : ℕ → Type 0) (l : List ℕ) → ((q : ℕ) → contains q l ≡ true → P q) → All P l
each_of P [] h = tt
each_of P (x ∷ l) h = (h x (rw (==_refl x) refl), each_of P l (λ q e. h q (ground (arith, e))))

-- The packets that are to go out are complete.
abbrev pub IsComplete : (ℕ → Option DeviceNode) → ℕ → Type 0
IsComplete heap p =
    (n : DeviceNode) (pkt : NetSimPacket) → heap p ≡ some n → n.tx_pkt ≡ some pkt → IsSendable pkt

module _ (w : Medium) (h : IsWell w) where
  pub sender :
      (q : ℕ)
      → contains q w.tx_list ≡ true
      → (n : DeviceNode) × (w.heap q ≡ some n) × (n.cur_state ≡ transmitting) × IsTransmitting w q n
  sender q c = by_slot (w.heap q) refl (h.slots q)
    where
      by_state :
          (n : DeviceNode) (s : NodeState)
          → n.cur_state ≡ s
          → InState s w q n
          → (n.cur_state ≡ transmitting) × IsTransmitting w q n
      by_state n registering st i = absurd (let out = i.not_sending in cc)
      by_state n active st i = absurd (let out = i.not_sending in cc)
      by_state n transmitting st i = (st, i)

      by_slot :
          (o : Option DeviceNode)
          → w.heap q ≡ o
          → Slot w q o
          → (n : DeviceNode) × (w.heap q ≡ some n)
            × (n.cur_state ≡ transmitting)
            × IsTransmitting w q n
      by_slot none e (a, b) = cc
      by_slot (some n) e i = let (st, t) = by_state n n.cur_state refl i in (n, e, st, t)

  pub cca_list-Alive : All (Alive w.heap) w.cca_list
  cca_list-Alive = each_of (Alive w.heap) w.cca_list (λ q c. alive q c (w.heap q) refl (h.slots q))
    where
      alive :
          (q : ℕ)
          → contains q w.cca_list ≡ true
          → (o : Option DeviceNode) → w.heap q ≡ o
          → Slot w q o
          → Alive w.heap q
      alive q c none e (a, b) = cc
      alive q c (some n) e i = (n, e)

  pub tx_list_packets : All (HasPacket w.heap) w.tx_list
  tx_list_packets =
      each_of (HasPacket w.heap) w.tx_list
        (λ q c. let (n, e, _, t) = sender q c in (n, t.packet.0, e, t.packet.1))

  tx_list-Transmits : All (IsComplete w.heap) w.tx_list → All (Transmits w.heap) w.tx_list
  tx_list-Transmits complete = both w.tx_list complete (
      each_of (λ q. IsComplete w.heap q → Transmits w.heap q) w.tx_list
        (λ q c f.
          let (n, e, st, t) = sender q c in
          (n, t.packet.0, e, st, t.tx_runs, t.packet.1, f n t.packet.0 e t.packet.1)))
    where
      both :
          (l : List ℕ)
          → All (IsComplete w.heap) l
          → All (λ q. IsComplete w.heap q → Transmits w.heap q) l
          → All (Transmits w.heap) l
      both [] a b = tt
      both (x ∷ l) a b = (b.0 a.0, both l a.1 b.1)

  -- Every node that waits for an answer gets one.
  pub answers_well :
      process_cca_list w
      ≡ ok (tt, record w { cca_list = []; sent = w.sent ++ map (cca_answer w) w.cca_list })
  answers_well = process_cca_list_lem w cca_list-Alive

  pub finishes_well :
      (k : Kernel)
      → All (IsComplete w.heap) w.tx_list
      → All (Answers k) w.tx_list
      → (w' : Medium) × (process_tx_list k w ≡ ok (tt, w'))
        × (w'.tx_list ≡ keep (λ p. not (is_over k p)) w.tx_list)
        × Outcome k w w' w.tx_list
  finishes_well k complete a = process_tx_list_lem k w h.tx_distinct (tx_list-Transmits complete) a

  -- The check either marks all that transmit or changes nothing.
  pub collides_well :
      (tx_collision_check w ≡ ok (tt, record w { heap = collided w.tx_list w.heap }))
      ⊎ (tx_collision_check w ≡ ok (tt, w))
  collides_well = by_kind w.kind refl
    where
      by_kind :
          (m : MediumKind)
          → w.kind ≡ m
          → (tx_collision_check w ≡ ok (tt, record w { heap = collided w.tx_list w.heap }))
            ⊎ (tx_collision_check w ≡ ok (tt, w))
      by_kind powerline e = elim (Bool-cases (leb 2 (length w.tx_list))) [
        | inl many ↦ inl ((tx_collision_check_lem w tx_list_packets).0 e (ground arith))
        | inr few ↦ inr ((tx_collision_check_lem w tx_list_packets).1 e (ground arith))
      ]
      by_kind wireless e = inr ((tx_collision_check_lem w tx_list_packets).2 e)
