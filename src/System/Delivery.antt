-- ===== src/System/Delivery.antt =====
-- A frame on an idle medium, from the bytes of its message to the multicast group.
use x6losim.Prelude.{
  ℕ, ◌+◌, ◌≤◌, ◌<◌, ◌^◌, ◌≡◌, refl, ap, ◌∙◌, List, [], ◌∷◌, ◌++◌, true, some, none, arith, length,
  take, drop, ==_refl, map, keep, contains, ◌&&◌, if◌then◌else◌,
}
use x6losim.Prelude.Fault.{ok}
use x6losim.Checksum.{generate_checksum}
use x6losim.Wire.{
  hdr_size, tx_data_ind, msg_code, encode_header, decode_header, store_cksum, bytes_le,
  tx_done_indication, tx_done_ok,
}
use x6losim.Wire.Header.{blank_header, length-encode_header}
use x6losim.Wire.Messages.{DataInd, data_ind_payload, data_ind}
use x6losim.Packet.{NetSimPacket, pktbuf_size}
use x6losim.Packet.Verify.{generate_packet_checksum_verifies}
use x6losim.Store.{Medium, Kernel, DeviceNode, active, update, ◌>>◌, >>-ok}
use x6losim.Store.Heap.{update_self}
use x6losim.Node.Transmission.{SetsTimers, sending}
use x6losim.Medium.{tx_collision_check, process_tx_list}
use x6losim.Medium.Single.{single_unmarked}
use x6losim.Medium.Outgoing.{IsSendable, outgoing, frame, frame_as_sent}
use x6losim.Medium.Transmit.{retired}
use x6losim.Medium.TxOutcome.{
  Transmits, Outcome, is_over, goes_out, packet_at, bytes_out, frame_of, indication, retire,
}
use x6losim.Medium.TxList.{process_tx_list_lem}
use x6losim.Reader.Built.{arrival, FitsReader}
use x6losim.System.{IsWell}
use x6losim.System.Messages.{packet_of, member_messages_arrive}

-- A message with its whole frame.
pub record IsWhole (m : DataInd) : Type 0 where
  pub len_reads : FitsReader (hdr_size + length (data_ind_payload m))
  pub psdu_fits : m.psdu_len < 2 ^ 16
  pub has_frame : m.psdu_len ≤ length m.pkt_data

length_payload : (m : DataInd) → length (data_ind_payload m) ≡ 16 + length m.pkt_data
unfolding data_ind_payload bytes_le
length_payload m = omega arith

behind_header :
    (p node_id : ℕ) (m : DataInd) → drop 34 (packet_of p node_id m).pkt_buffer ≡ m.pkt_data
unfolding data_ind_payload bytes_le encode_header
behind_header p node_id m = refl

-- The packet of such a message can be sent.
pub packet_sends :
    (p node_id : ℕ) (m : DataInd)
    → pktbuf_size (packet_of p node_id m) ≡ m.psdu_len
    → m.psdu_len ≤ length m.pkt_data
    → IsSendable (packet_of p node_id m)
packet_sends p node_id m frame_len has_frame =
    let long =
      length-encode_header (blank_header (msg_code tx_data_ind) node_id (data_ind_payload m))
        (data_ind_payload m) in
    record {
      has_header = omega (arith, long, length_payload m);
      has_frame = omega (arith, long, length_payload m, frame_len, has_frame);
    }

-- Such a packet goes out with the header of its message and verifies, and the frame in it is the node's.
pub packet_on_air :
    (p node_id : ℕ) (m : DataInd)
    → IsWhole m
    → node_id < 2 ^ 64
    → pktbuf_size (packet_of p node_id m) ≡ m.psdu_len
    → let out = (outgoing (packet_of p node_id m)).pkt_buffer in
      (record (decode_header out) { cksum = 0 }
        ≡ blank_header (msg_code tx_data_ind) node_id (data_ind_payload m))
      × (generate_checksum (store_cksum 0 out) ≡ (decode_header out).cksum)
      × (frame (packet_of p node_id m) ≡ take m.psdu_len m.pkt_data)
packet_on_air p node_id m whole id_fits frame_len =
    let pkt = packet_of p node_id m in
    let (kept, verifies) =
      generate_packet_checksum_verifies pkt
        (blank_header (msg_code tx_data_ind) node_id (data_ind_payload m)) (data_ind_payload m) 127
        (record {
          len_fits = whole.len_reads.len_fits;
          msg_type_fits = omega arith;
          interface_version_fits = omega arith;
          node_id_fits = id_fits;
          cksum_fits = omega arith;
        })
        refl refl in
    (
      kept,
      verifies,
      frame_as_sent pkt
          ∙ (ap (λ l. take l (drop 34 pkt.pkt_buffer)) frame_len
              ∙ ap (take m.psdu_len) (behind_header p node_id m)),
    )

module _ (k : Kernel) (p : ℕ) (n : DeviceNode) (w : Medium) (junk : ℕ → ℕ) (m : DataInd)
    (h : IsWell w) (e : w.heap p ≡ some n) (id_fits : n.socket < 2 ^ 64) (st : n.cur_state ≡ active)
    (sets : SetsTimers k) (whole : IsWhole m) (idle : w.tx_list ≡ [])
    (over : k.tx_left p ≡ some (0, 0)) where
  abbrev pkt : NetSimPacket
  pkt = packet_of p n.socket m

  -- The medium while the frame is on the wire.
  abbrev on_wire : Medium
  on_wire = record w { heap = update w.heap p (some (sending pkt n)); tx_list = p ∷ [] }

  frame_len : pktbuf_size pkt ≡ m.psdu_len
  frame_len =
      (member_messages_arrive k p n w junk h e id_fits st sets m whole.len_reads whole.psdu_fits).2

  taken : arrival k p (data_ind n.socket m) junk w ≡ ok (tt, on_wire)
  taken =
      (member_messages_arrive k p n w junk h e id_fits st sets m whole.len_reads whole.psdu_fits).1
      ∙ (λ i. ok (
        tt,
        record w { heap = update w.heap p (some (sending pkt n)); tx_list = idle i ++ p ∷ [] },
      ))

  pkt-IsSendable : IsSendable pkt
  pkt-IsSendable = packet_sends p n.socket m frame_len whole.has_frame

  here_now : on_wire.heap p ≡ some (sending pkt n)
  here_now = update_self w.heap p (some (sending pkt n))

  is_over_now : is_over k p ≡ true
  is_over_now = rw (is_over, over) refl

  finished :
      (w' : Medium) × (process_tx_list k on_wire ≡ ok (tt, w'))
      × (w'.tx_list ≡ [])
      × Outcome k on_wire w' (p ∷ [])
  finished =
      let transmits : Transmits on_wire.heap p =
        (sending pkt n, pkt, here_now, refl, refl, refl, pkt-IsSendable) in
      let (w', run, left, o) =
        process_tx_list_lem k on_wire (refl, tt) (transmits, tt) ((0, 0, over), tt) in
      (w', run, left ∙ ground (arith, is_over_now), o)

  packet_now : packet_at on_wire.heap p ≡ some pkt
  packet_now = rw (packet_at, here_now) refl

  goes_now : goes_out k on_wire.heap p ≡ true
  goes_now = rw (goes_out, is_over_now, packet_now) refl

  indication_now : indication on_wire.heap p ≡ (p, tx_done_indication n.socket tx_done_ok)
  indication_now = rw (indication, here_now) refl

  kept_over : keep (is_over k) (p ∷ []) ≡ p ∷ []
  kept_over = ground (arith, is_over_now)

  kept_out : keep (goes_out k on_wire.heap) (p ∷ []) ≡ p ∷ []
  kept_out = ground (arith, goes_now)

  contained : contains p (p ∷ []) && is_over k p ≡ true
  contained = rw (==_refl p, is_over_now) refl

  -- An active member hands over a data indication with its whole frame while no node transmits. The
  -- thread's check for collisions marks nothing, and when the kernel says that the time on the wire is
  -- over, its look at the transmissions sends one packet to the multicast group, which has the header of
  -- the message and verifies; the capture file gets the frame as the node sent it; the node is told that
  -- its transmission succeeded, and is active again without a packet; and no transmission is left.
  pub frame_delivered :
      (w' : Medium) × (n' : DeviceNode) × (out : List ℕ) × ((arrival k p (data_ind n.socket m) junk
            >> (tx_collision_check >> process_tx_list k))
          w
        ≡ ok (tt, w'))
      × (w'.tx_list ≡ [])
      × (w'.multicast ≡ w.multicast ++ out ∷ [])
      × (record (decode_header out) { cksum = 0 }
          ≡ blank_header (msg_code tx_data_ind) n.socket (data_ind_payload m))
      × (generate_checksum (store_cksum 0 out) ≡ (decode_header out).cksum)
      × (w'.dumped ≡ w.dumped ++ take m.psdu_len m.pkt_data ∷ [])
      × (w'.sent ≡ w.sent ++ (p, tx_done_indication n.socket tx_done_ok) ∷ [])
      × (w'.heap p ≡ some n')
      × (n'.cur_state ≡ active)
      × (n'.tx_pkt ≡ none)
  frame_delivered =
      let (w', run, left, o) = finished in
      let (kept, verifies, shown) = packet_on_air p n.socket m whole id_fits frame_len in
      (
        w',
        retired (sending pkt n),
        (outgoing pkt).pkt_buffer,
        >>-ok (arrival k p (data_ind n.socket m) junk) (tx_collision_check >> process_tx_list k)
              {w = w} taken
            ∙ (>>-ok tx_collision_check (process_tx_list k) {w = on_wire}
                  (single_unmarked w.kind on_wire p refl (sending pkt n, pkt, here_now, refl) refl)
                ∙ run),
        left,
        o.multicast_after
            ∙ ap (λ l. w.multicast ++ l)
                (ap (map (λ q. bytes_out (packet_at on_wire.heap q))) kept_out
                  ∙ ap (λ x. bytes_out x ∷ []) packet_now),
        kept,
        verifies,
        o.dumped_after
            ∙ ap (λ l. w.dumped ++ l)
                (ap (map (λ q. frame_of (packet_at on_wire.heap q))) kept_out
                  ∙ (ap (λ x. frame_of x ∷ []) packet_now ∙ ap (λ x. x ∷ []) shown)),
        o.sent_after
            ∙ ap (λ l. w.sent ++ l)
                (ap (map (indication on_wire.heap)) kept_over ∙ ap (λ x. x ∷ []) indication_now),
        o.heap_after p
            ∙ (ap (λ b. if b then retire (on_wire.heap p) else on_wire.heap p) contained
                ∙ ap retire here_now),
        refl,
        refl,
      )
