-- ===== src/System/Exchange.antt =====
-- Carrier sense from end to end: what the thread of a medium makes of the messages of two nodes, one of
-- which asks and transmits, while the other asks during the transmission.
use mathlib.Core.List.{append_assoc, append-nil}
use x6losim.Prelude.{
  ℕ, ◌≡◌, ◌≢◌, ◌<◌, ◌^◌, refl, sym, ap, ◌∙◌, List, [], ◌∷◌, ◌++◌, true, false, some, none, arith,
  take, drop, ◌==◌, inr,
}
use x6losim.Prelude.Fault.{ok}
use x6losim.Checksum.{generate_checksum}
use x6losim.Wire.{
  cca_confirm, tx_done_indication, tx_done_ok, decode_header, store_cksum, msg_code, tx_data_ind,
}
use x6losim.Wire.Header.{blank_header}
use x6losim.Wire.Messages.{DataInd, cca_request, data_ind, data_ind_payload}
use x6losim.Packet.{NetSimPacket, pktbuf_size}
use x6losim.Store.{Medium, Kernel, DeviceNode, active, idle, tx_802514_frame, update}
use x6losim.Store.Heap.{update_self}
use x6losim.Node.Transmission.{SetsTimers, sending}
use x6losim.Medium.{process_cca_list}
use x6losim.Medium.Channel.{socket_at, process_cca_list_lem}
use x6losim.Medium.Outgoing.{IsSendable, outgoing}
use x6losim.Medium.Transmit.{after_tx, retired}
use x6losim.Medium.TxOutcome.{Transmits, is_over}
use x6losim.Medium.Single.{single_unmarked, single_goes_on, single_finished}
use x6losim.Reader.{received}
use x6losim.Reader.Built.{arrival}
use x6losim.Thread.{Wait, outer, inner, thread_step}
use x6losim.Thread.Idle.{thread_step_answers}
use x6losim.Thread.Turns.{
  later_by, brings, silence, waited-brings, waited-silence, inner_ends, inner_rests, inner_turn,
  run_turns, run_turns-next,
}
use x6losim.System.{IsWell}
use x6losim.System.Steps.{reads, moves, Step-IsWell}
use x6losim.System.Messages.{packet_of, member_messages_arrive}
use x6losim.System.Delivery.{IsWhole, packet_sends, packet_on_air}
use x6losim.System.Similar.{unlinked}

-- Nothing goes on.
abbrev pub quiet : Medium → Medium
quiet w = record w { state = idle; tx_list = []; cca_list = []; reg_list_map = [] }

-- A whole message that a node has sent.
abbrev pub hands : ℕ → List ℕ → (ℕ → ℕ) → ℕ → Wait
hands p msg junk = brings p (received (take 2 msg)) (received (drop 2 msg)) junk

-- An active member of a medium, with an identifier of its width.
pub record IsMember (w : Medium) (p : ℕ) (n : DeviceNode) : Type 0 where
  pub there : w.heap p ≡ some n
  pub id_fits : n.socket < 2 ^ 64
  pub is_active : n.cur_state ≡ active

asks :
    (k : Kernel) (p : ℕ) (n : DeviceNode) (w : Medium) (junk : ℕ → ℕ) (m : DataInd)
    → IsWell w
    → IsMember w p n
    → SetsTimers k
    → IsWhole m
    → arrival k p (cca_request n.socket) junk w
      ≡ ok (tt, record w { cca_list = w.cca_list ++ p ∷ [] })
asks k p n w junk m h i sets whole =
    (member_messages_arrive k p n w junk h i.there i.id_fits i.is_active sets m whole.len_reads
      whole.psdu_fits).0

sends :
    (k : Kernel) (p : ℕ) (n : DeviceNode) (w : Medium) (junk : ℕ → ℕ) (m : DataInd)
    → IsWell w
    → IsMember w p n
    → SetsTimers k
    → IsWhole m
    → arrival k p (data_ind n.socket m) junk w
      ≡ ok (
        tt,
        record w {
          heap = update w.heap p (some (sending (packet_of p n.socket m) n));
          tx_list = w.tx_list ++ p ∷ [];
        },
      )
sends k p n w junk m h i sets whole =
    (member_messages_arrive k p n w junk h i.there i.id_fits i.is_active sets m whole.len_reads
      whole.psdu_fits).1

member_of :
    {w v : Medium} {p : ℕ} {n : DeviceNode} → IsMember w p n → v.heap p ≡ w.heap p → IsMember v p n
member_of i e = record { there = e ∙ i.there; id_fits = i.id_fits; is_active = i.is_active }

socket_of :
    (w : Medium) (p : ℕ) (n : DeviceNode) → w.heap p ≡ some n → socket_at w.heap p ≡ n.socket
socket_of w p n e = rw (socket_at, e) refl

module _ (k k_late : Kernel) (p q : ℕ) (n_p n_q : DeviceNode) (w : Medium) (junk : ℕ → ℕ)
    (m : DataInd) (h : IsWell (quiet w)) (at_p : IsMember w p n_p) (at_q : IsMember w q n_q)
    (apart : p ≢ q) (sets : SetsTimers k) (sets_late : SetsTimers k_late) (whole : IsWhole m)
    (left : ℕ × ℕ) (goes_on : k.tx_left p ≡ some left) (not_over : is_over k p ≡ false)
    (over : k_late.tx_left p ≡ some (0, 0)) where
  abbrev w_0 : Medium
  w_0 = quiet w

  -- The node has asked, and been told that the medium is free.
  abbrev w_1 : Medium
  w_1 = record (later_by 1000 w_0) { sent = w.sent ++ (p, cca_confirm n_p.socket true) ∷ [] }

  first_turn :
      thread_step 1 k (hands p (cca_request n_p.socket) junk) outer w_0 ≡ some (ok (inner, w_1))
  first_turn =
      let v = later_by 1000 w_0 in
      let v-IsWell = Step-IsWell (moves idle v.cur_time refl) h in
      let arrives = asks k p n_p v junk m v-IsWell (member_of at_p refl) sets whole in
      thread_step_answers 0 k (hands p (cca_request n_p.socket) junk) w_0
        (record v { cca_list = p ∷ [] }) refl
        (waited-brings k p _ _ junk 1000 w_0 _ sets.sets arrives) refl ((n_p, at_p.there), tt)
      ∙ ap (λ s. some (ok (inner, record v { sent = w.sent ++ (p, cca_confirm s true) ∷ [] })))
          (socket_of w p n_p at_p.there)

  w_1-IsWell : IsWell w_1
  w_1-IsWell = unlinked w_0 w_1 refl refl refl refl (λ x a. a) h

  second_turn : thread_step 1 k silence inner w_1 ≡ some (ok (outer, w_1))
  second_turn = inner_rests k silence w_1

  abbrev pkt : NetSimPacket
  pkt = packet_of p n_p.socket m

  -- Its frame is on the wire.
  abbrev w_3 : Medium
  w_3 = record (later_by 1000 w_1) {
    heap = update w.heap p (some (sending pkt n_p));
    tx_list = p ∷ [];
    state = tx_802514_frame;
  }

  third_turn :
      thread_step 1 k (hands p (data_ind n_p.socket m) junk) outer w_1 ≡ some (ok (inner, w_3))
  third_turn =
      let v = later_by 1000 w_1 in
      let v-IsWell = Step-IsWell (moves idle v.cur_time refl) w_1-IsWell in
      let arrives = sends k p n_p v junk m v-IsWell (member_of at_p refl) sets whole in
      thread_step_answers 0 k (hands p (data_ind n_p.socket m) junk) w_1
        (record w_3 { state = idle }) refl (waited-brings k p _ _ junk 1000 w_1 _ sets.sets arrives)
        refl tt
      ∙ ap (λ s. some (ok (inner, record w_3 { sent = s }))) (append-nil w_1.sent)

  w_3-IsWell : IsWell w_3
  w_3-IsWell =
      let v = later_by 1000 w_1 in
      let v-IsWell = Step-IsWell (moves idle v.cur_time refl) w_1-IsWell in
      let arrives = sends k p n_p v junk m v-IsWell (member_of at_p refl) sets whole in
      let now : w_3.heap p ≡ some (sending pkt n_p) = update_self w.heap p _ in
      unlinked (record w_3 { state = idle }) w_3 refl refl refl refl (λ x a. a)
        (Step-IsWell (reads k p _ _ junk (inr (sending pkt n_p, now)) arrives) v-IsWell)

  on_wire : w_3.heap p ≡ some (sending pkt n_p)
  on_wire = update_self w.heap p _

  elsewhere : w_3.heap q ≡ some n_q
  elsewhere = let b : (p == q) ≡ false = ground arith in rw b at_q.there

  frame_len : pktbuf_size pkt ≡ m.psdu_len
  frame_len =
      (member_messages_arrive k p n_p w_0 junk h at_p.there at_p.id_fits at_p.is_active sets m
        whole.len_reads whole.psdu_fits).2

  pkt-IsSendable : IsSendable pkt
  pkt-IsSendable = packet_sends p n_p.socket m frame_len whole.has_frame

  -- The other node has asked, and been told that the medium is busy.
  abbrev w_4 : Medium
  w_4 = record (later_by 1 w_3) { sent = w_3.sent ++ (q, cca_confirm n_q.socket false) ∷ [] }

  transmits : Transmits w_3.heap p
  transmits = (sending pkt n_p, pkt, on_wire, refl, refl, refl, pkt-IsSendable)

  asked :
      arrival k q (cca_request n_q.socket) junk (later_by 1 w_3)
      ≡ ok (tt, record (later_by 1 w_3) { cca_list = q ∷ [] })
  asked =
      let v = later_by 1 w_3 in
      asks k q n_q v junk m (Step-IsWell (moves tx_802514_frame v.cur_time refl) w_3-IsWell)
        (member_of at_q (elsewhere ∙ sym at_q.there)) sets whole

  fourth_turn :
      thread_step 1 k (hands q (cca_request n_q.socket) junk) inner w_3 ≡ some (ok (inner, w_4))
  fourth_turn =
      let v = record (later_by 1 w_3) { cca_list = q ∷ [] } in
      let told_all : process_cca_list v ≡ ok (tt, w_4) =
        process_cca_list_lem v ((n_q, elsewhere), tt)
        ∙ ap (λ s. ok (tt, record w_4 { sent = w_3.sent ++ (q, cca_confirm s false) ∷ [] }))
            (socket_of w_3 q n_q elsewhere) in
      inner_turn k (hands q (cca_request n_q.socket) junk) w_3 v p [] refl
        (waited-brings k q _ _ junk 1 w_3 _ sets.sets asked) told_all
        (single_unmarked w.kind w_4 p refl (sending pkt n_p, pkt, on_wire, refl) refl)
        (single_goes_on k p w_4 transmits (left.0, left.1, goes_on) not_over)

  -- The transmission is over.
  abbrev w_5 : Medium
  w_5 = record (after_tx p (sending pkt n_p) pkt (later_by 1 w_4)) { tx_list = [] }

  fifth_turn : thread_step 1 k_late silence inner w_4 ≡ some (ok (inner, w_5))
  fifth_turn =
      let v = later_by 1 w_4 in
      let told_none : process_cca_list v ≡ ok (tt, v) =
        process_cca_list_lem v tt ∙ ap (λ s. ok (tt, record v { sent = s })) (append-nil v.sent) in
      inner_turn k_late silence w_4 v p [] refl (waited-silence k_late 1 w_4 sets_late.sets)
        told_none (single_unmarked w.kind v p refl (sending pkt n_p, pkt, on_wire, refl) refl)
        (single_finished k_late p v (sending pkt n_p) pkt on_wire refl refl refl pkt-IsSendable
          (0, 0, over) (rw (is_over, over) refl))

  sixth_turn :
      thread_step 1 k_late silence inner w_5 ≡ some (ok (outer, record w_5 { state = idle }))
  sixth_turn = inner_ends k_late silence w_5

  others_kept : (x : ℕ) → x ≢ p → w_5.heap x ≡ w.heap x
  others_kept x other = let b : (p == x) ≡ false = ground (arith, other) in rw b refl

  -- A medium on which nothing goes on, and two of its active members. While the thread waits, the first
  -- asks, and is told that the medium is free; then it hands over a data indication with its whole frame,
  -- and the second asks: it is told that the medium is busy. When the kernel says that the time on the
  -- wire is over, one packet goes to the multicast group, which has the header of the message and
  -- verifies, and its frame to the capture file; the first node is told that its transmission succeeded,
  -- and is active again without a packet. The thread is then in the idle state at the start of its outer
  -- loop, with both lists empty; the nodes got the three answers and no other, and no other node changed.
  pub carrier_sense :
      (w' : Medium) × (n' : DeviceNode) × (out : List ℕ) × (run_turns
          ((k, hands p (cca_request n_p.socket) junk)
            ∷ (k, silence)
            ∷ (k, hands p (data_ind n_p.socket m) junk)
            ∷ (k, hands q (cca_request n_q.socket) junk)
            ∷ (k_late, silence)
            ∷ (k_late, silence)
            ∷ [])
          outer
          (quiet w)
        ≡ some (ok (outer, w')))
      × (w'.state ≡ idle)
      × (w'.tx_list ≡ [])
      × (w'.cca_list ≡ [])
      × (w'.sent
          ≡ w.sent
            ++ (p, cca_confirm n_p.socket true)
              ∷ (q, cca_confirm n_q.socket false)
              ∷ (p, tx_done_indication n_p.socket tx_done_ok)
              ∷ [])
      × (w'.multicast ≡ w.multicast ++ out ∷ [])
      × (record (decode_header out) { cksum = 0 }
          ≡ blank_header (msg_code tx_data_ind) n_p.socket (data_ind_payload m))
      × (generate_checksum (store_cksum 0 out) ≡ (decode_header out).cksum)
      × (w'.dumped ≡ w.dumped ++ take m.psdu_len m.pkt_data ∷ [])
      × (w'.heap p ≡ some n')
      × (n'.cur_state ≡ active)
      × (n'.tx_pkt ≡ none)
      × ((x : ℕ) → x ≢ p → w'.heap x ≡ w.heap x)
  carrier_sense =
      let (kept, verifies, shown) = packet_on_air p n_p.socket m whole at_p.id_fits frame_len in
      let t_6 = (k_late, silence) ∷ [] in
      let t_5 = (k_late, silence) ∷ t_6 in
      let t_4 = (k, hands q (cca_request n_q.socket) junk) ∷ t_5 in
      let t_3 = (k, hands p (data_ind n_p.socket m) junk) ∷ t_4 in
      let t_2 = (k, silence) ∷ t_3 in
      let sent_p : ℕ × List ℕ = (p, cca_confirm n_p.socket true) in
      let sent_q : ℕ × List ℕ = (q, cca_confirm n_q.socket false) in
      let sent_done : ℕ × List ℕ = (p, tx_done_indication n_p.socket tx_done_ok) in
      (
        record w_5 { state = idle },
        retired (sending pkt n_p),
        (outgoing pkt).pkt_buffer,
        run_turns-next k _ t_2 outer inner w_0 w_1 first_turn
            ∙ (run_turns-next k _ t_3 inner outer w_1 w_1 second_turn
                ∙ (run_turns-next k _ t_4 outer inner w_1 w_3 third_turn
                    ∙ (run_turns-next k _ t_5 inner inner w_3 w_4 fourth_turn
                        ∙ (run_turns-next k_late _ t_6 inner inner w_4 w_5 fifth_turn
                            ∙ run_turns-next k_late _ [] inner outer w_5
                                (record w_5 { state = idle }) sixth_turn)))),
        refl,
        refl,
        refl,
        append_assoc (w.sent ++ sent_p ∷ []) (sent_q ∷ []) (sent_done ∷ [])
            ∙ append_assoc w.sent (sent_p ∷ []) (sent_q ∷ sent_done ∷ []),
        refl,
        kept,
        verifies,
        ap (λ f. w.dumped ++ f ∷ []) shown,
        update_self w_4.heap p (some (retired (sending pkt n_p))),
        refl,
        refl,
        others_kept,
      )
