-- ===== src/System/Collision.antt =====
-- Two frames at once on the power line, from the bytes of their messages to the indications.
use x6losim.Prelude.{
  ℕ, ◌+◌, ◌≡◌, ◌≢◌, ◌<◌, ◌^◌, refl, ap, ◌∙◌, [], ◌∷◌, ◌++◌, true, false, some, arith, length,
  ==_refl, map, keep, contains, ◌==◌, if◌then◌else◌, inr,
}
use mathlib.Core.List.{append-nil}
use x6losim.Prelude.Fault.{ok}
use x6losim.Wire.{tx_done_indication, tx_done_collided}
use x6losim.Wire.Messages.{DataInd, data_ind}
use x6losim.Packet.{pktbuf_size}
use x6losim.Store.{Medium, powerline, Kernel, DeviceNode, active, update, ◌>>◌, >>-ok}
use x6losim.Store.Heap.{update_self}
use x6losim.Node.Transmission.{SetsTimers, sending}
use x6losim.Medium.{tx_collision_check, process_tx_list}
use x6losim.Medium.Channel.{mark, mark_node, collided, tx_collision_check_lem}
use x6losim.Medium.Outgoing.{IsSendable}
use x6losim.Medium.TxOutcome.{
  Outcome, is_over, goes_out, is_lost, packet_at, bytes_out, frame_of, indication,
}
use x6losim.Medium.TxList.{process_tx_list_lem}
use x6losim.Reader.Built.{arrival}
use x6losim.System.{IsWell}
use x6losim.System.Steps.{reads, Step-IsWell}
use x6losim.System.Messages.{packet_of, member_messages_arrive}
use x6losim.System.Delivery.{IsWhole, packet_sends}

-- An active member that hands over a message with its whole frame, whose time on the wire is over when
-- the thread looks.
pub record Hands (k : Kernel) (w : Medium) (p : ℕ) (n : DeviceNode) (m : DataInd) : Type 0 where
  pub node : w.heap p ≡ some n
  pub id_fits : n.socket < 2 ^ 64
  pub is_active : n.cur_state ≡ active
  pub whole : IsWhole m
  pub over : k.tx_left p ≡ some (0, 0)

-- A node behind the collision check.
abbrev marked : ℕ → DeviceNode → DataInd → DeviceNode
marked p n m = record (sending (packet_of p n.socket m) n) {
  tx_pkt = some (mark (packet_of p n.socket m));
}

marked_sends :
    (k : Kernel) (p : ℕ) (n : DeviceNode) (m : DataInd) (w : Medium)
    → IsWell w
    → Hands k w p n m
    → SetsTimers k
    → IsSendable (mark (packet_of p n.socket m))
unfolding pktbuf_size
marked_sends k p n m w h hands sets =
    let s : IsSendable (packet_of p n.socket m) =
      packet_sends p n.socket m
        (member_messages_arrive k p n w (λ i. i) h hands.node hands.id_fits hands.is_active sets m
          hands.whole.len_reads hands.whole.psdu_fits).2
        hands.whole.has_frame in
    record { has_header = s.has_header; has_frame = s.has_frame }

module _ (k : Kernel) (p q : ℕ) (n_p n_q : DeviceNode) (m_p m_q : DataInd) (w : Medium)
    (junk : ℕ → ℕ) (h : IsWell w) (sets : SetsTimers k) (line : w.kind ≡ powerline)
    (idle : w.tx_list ≡ []) (apart : p ≢ q) (hands_p : Hands k w p n_p m_p)
    (hands_q : Hands k w q n_q m_q) where
  abbrev first : Medium
  first = record w {
    heap = update w.heap p (some (sending (packet_of p n_p.socket m_p) n_p));
    tx_list = p ∷ [];
  }

  abbrev both : Medium
  both = record w {
    heap = update first.heap q (some (sending (packet_of q n_q.socket m_q) n_q));
    tx_list = p ∷ q ∷ [];
  }

  first_taken : arrival k p (data_ind n_p.socket m_p) junk w ≡ ok (tt, first)
  first_taken =
      (member_messages_arrive k p n_p w junk h hands_p.node hands_p.id_fits hands_p.is_active sets
        m_p hands_p.whole.len_reads hands_p.whole.psdu_fits).1
      ∙ (λ i. ok (tt, record first { tx_list = idle i ++ p ∷ [] }))

  at_first : first.heap p ≡ some (sending (packet_of p n_p.socket m_p) n_p)
  at_first = update_self w.heap p _

  first-IsWell : IsWell first
  first-IsWell =
      Step-IsWell
        (reads k p _ _ junk (inr (sending (packet_of p n_p.socket m_p) n_p, at_first)) first_taken)
        h

  other_kept : first.heap q ≡ some n_q
  other_kept = let b : (p == q) ≡ false = ground arith in rw b hands_q.node

  both_taken : arrival k q (data_ind n_q.socket m_q) junk first ≡ ok (tt, both)
  both_taken =
      (member_messages_arrive k q n_q first junk first-IsWell other_kept hands_q.id_fits
        hands_q.is_active sets m_q hands_q.whole.len_reads hands_q.whole.psdu_fits).1

  at_p : both.heap p ≡ some (sending (packet_of p n_p.socket m_p) n_p)
  at_p = let b : (q == p) ≡ false = ground arith in rw (b, ==_refl p) refl

  at_q : both.heap q ≡ some (sending (packet_of q n_q.socket m_q) n_q)
  at_q = rw (==_refl q) refl

  abbrev crashed : Medium
  crashed = record both { heap = collided (p ∷ q ∷ []) both.heap }

  marks : tx_collision_check both ≡ ok (tt, crashed)
  marks =
      (tx_collision_check_lem both ((_, _, at_p, refl), ((_, _, at_q, refl), tt))).0 line
        (omega arith)

  p_listed : contains p (p ∷ q ∷ []) ≡ true
  p_listed = rw (==_refl p) refl

  q_listed : contains q (p ∷ q ∷ []) ≡ true
  q_listed = let b : (p == q) ≡ false = ground arith in rw (b, ==_refl q) refl

  marked_p : crashed.heap p ≡ some (marked p n_p m_p)
  marked_p =
      ap (λ b. if b then mark_node (both.heap p) else both.heap p) p_listed ∙ ap mark_node at_p

  marked_q : crashed.heap q ≡ some (marked q n_q m_q)
  marked_q =
      ap (λ b. if b then mark_node (both.heap q) else both.heap q) q_listed ∙ ap mark_node at_q

  p_over : is_over k p ≡ true
  p_over = rw (is_over, hands_p.over) refl

  q_over : is_over k q ≡ true
  q_over = rw (is_over, hands_q.over) refl

  finished :
      (w' : Medium) × (process_tx_list k crashed ≡ ok (tt, w'))
      × (w'.tx_list ≡ [])
      × Outcome k crashed w' (p ∷ q ∷ [])
  finished =
      let apart' : contains p (q ∷ []) ≡ false = ground arith in
      let (w', run, left, o) =
        process_tx_list_lem k crashed (apart', (refl, tt))
          (
            (
              marked p n_p m_p,
              _,
              marked_p,
              refl,
              refl,
              refl,
              marked_sends k p n_p m_p w h hands_p sets,
            ),
            (
              (
                marked q n_q m_q,
                _,
                marked_q,
                refl,
                refl,
                refl,
                marked_sends k q n_q m_q w h hands_q sets,
              ),
              tt,
            ),
          )
          ((0, 0, hands_p.over), ((0, 0, hands_q.over), tt)) in
      (w', run, left ∙ ground (arith, p_over, q_over), o)

  packet_p : packet_at crashed.heap p ≡ some (mark (packet_of p n_p.socket m_p))
  packet_p = rw (packet_at, marked_p) refl

  packet_q : packet_at crashed.heap q ≡ some (mark (packet_of q n_q.socket m_q))
  packet_q = rw (packet_at, marked_q) refl

  p_not_out : goes_out k crashed.heap p ≡ false
  p_not_out = rw (goes_out, p_over, packet_p) refl

  q_not_out : goes_out k crashed.heap q ≡ false
  q_not_out = rw (goes_out, q_over, packet_q) refl

  p_lost : is_lost k crashed.heap p ≡ true
  p_lost = rw (is_lost, p_over, packet_p) refl

  q_lost : is_lost k crashed.heap q ≡ true
  q_lost = rw (is_lost, q_over, packet_q) refl

  told_p : indication crashed.heap p ≡ (p, tx_done_indication n_p.socket tx_done_collided)
  told_p = rw (indication, marked_p) refl

  told_q : indication crashed.heap q ≡ (q, tx_done_indication n_q.socket tx_done_collided)
  told_q = rw (indication, marked_q) refl

  none_out : keep (goes_out k crashed.heap) (p ∷ q ∷ []) ≡ []
  none_out = ground (arith, p_not_out, q_not_out)

  both_over : keep (is_over k) (p ∷ q ∷ []) ≡ p ∷ q ∷ []
  both_over = ground (arith, p_over, q_over)

  both_lost : keep (is_lost k crashed.heap) (p ∷ q ∷ []) ≡ p ∷ q ∷ []
  both_lost = ground (arith, p_lost, q_lost)

  -- Two active members of a power line medium on which no node transmits each hand over a data indication
  -- with its whole frame, before the thread looks for collisions. When the time of both on the wire is
  -- over, the thread's look at the transmissions sends nothing to the multicast group and nothing to the
  -- capture file; both are told, in their order, that their transmission collided, and are counted; and no
  -- transmission is left.
  pub frames_collide :
      (w' : Medium) × ((arrival k p (data_ind n_p.socket m_p) junk
            >> (arrival k q (data_ind n_q.socket m_q) junk
                >> (tx_collision_check >> process_tx_list k)))
          w
        ≡ ok (tt, w'))
      × (w'.tx_list ≡ [])
      × (w'.multicast ≡ w.multicast)
      × (w'.dumped ≡ w.dumped)
      × (w'.tx_pkts_ok ≡ w.tx_pkts_ok)
      × (w'.tx_pkts_collided ≡ w.tx_pkts_collided + 2)
      × (w'.sent
          ≡ w.sent
            ++ (p, tx_done_indication n_p.socket tx_done_collided)
              ∷ (q, tx_done_indication n_q.socket tx_done_collided)
              ∷ [])
  frames_collide =
      let (w', run, left, o) = finished in
      let look = tx_collision_check >> process_tx_list k in
      (
        w',
        >>-ok (arrival k p (data_ind n_p.socket m_p) junk)
              (arrival k q (data_ind n_q.socket m_q) junk >> look) {w = w} first_taken
            ∙ (>>-ok (arrival k q (data_ind n_q.socket m_q) junk) look {w = first} both_taken
                ∙ (>>-ok tx_collision_check (process_tx_list k) {w = both} marks ∙ run)),
        left,
        o.multicast_after
            ∙ (ap (λ ps. w.multicast ++ map (λ x. bytes_out (packet_at crashed.heap x)) ps) none_out
                ∙ append-nil w.multicast),
        o.dumped_after
            ∙ (ap (λ ps. w.dumped ++ map (λ x. frame_of (packet_at crashed.heap x)) ps) none_out
                ∙ append-nil w.dumped),
        o.ok_after ∙ (ap (λ ps. w.tx_pkts_ok + length ps) none_out ∙ omega arith),
        o.collided_after ∙ ap (λ ps. w.tx_pkts_collided + length ps) both_lost,
        o.sent_after
            ∙ (ap (λ ps. w.sent ++ map (indication crashed.heap) ps) both_over
                ∙ (λ i. w.sent ++ told_p i ∷ told_q i ∷ [])),
      )
