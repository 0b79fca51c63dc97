-- ===== src/Medium/Transmit.antt =====
-- What becomes of a node whose transmission is over, and of its packet.
use x6losim.Prelude.{ℕ, suc, ◌≡◌, [], ◌∷◌, ◌++◌, none, some, if◌then◌else◌, Bool-cases, inl, inr}
use x6losim.Prelude.Fault.{ok}
use x6losim.Wire.{tx_done_indication, tx_done_ok, tx_done_collided}
use x6losim.Packet.{NetSimPacket, set_rssi, generate_packet_checksum, pktbuf_size}
use x6losim.Store.{
  Medium, DeviceNode, ◌>>=◌, ◌>>◌, >>-ok, deref, lift, modify, update, active, transmitting,
}
use x6losim.Store.Heap.{update_self, update-update}
use x6losim.Timer.{stop}
use x6losim.Node.{handle_tx_timer_expired, send_tx_done_indication, tx_result}
use x6losim.Medium.{tx_packet, account, finish_tx}
use x6losim.Medium.Outgoing.{IsSendable, outgoing, frame, tx_packet_lem}

expired_handler :
    (p : ℕ) (w : Medium) (n : DeviceNode) (pkt : NetSimPacket)
    → w.heap p ≡ some n
    → n.cur_state ≡ transmitting
    → n.tx_pkt ≡ some pkt
    → handle_tx_timer_expired p w
      ≡ ok (
        tt,
        record w {
          heap = update w.heap p (
              some (record n {
                cur_state = active;
                tx_timer = stop n.tx_timer;
                tx_pkt = some (tx_result pkt);
              }));
        },
      )
unfolding handle_tx_timer_expired
expired_handler p w n pkt e st f =
    let ended = record n { tx_timer = stop n.tx_timer; tx_pkt = some (tx_result pkt) } in
    let heaps = update-update w.heap p (some ended) (some (record ended { cur_state = active })) in
    rw (e, st, e, f, update_self w.heap p, deref, ◌>>=◌, ◌>>◌, lift)
      (λ i. ok (tt, record w { heap = heaps i }))

-- The node after its transmission.
abbrev pub retired : DeviceNode → DeviceNode
retired n = record n { cur_state = active; tx_timer = stop n.tx_timer; tx_pkt = none }

abbrev pub verdict : NetSimPacket → ℕ
verdict pkt = if pkt.collision then tx_done_collided else tx_done_ok

-- What one finished transmission makes of the medium, its list aside: the node is active again, it
-- is told the verdict, and the packet goes out unless it collided.
abbrev pub after_tx : ℕ → DeviceNode → NetSimPacket → Medium → Medium
after_tx p n pkt w = record w {
  heap = update w.heap p (some (retired n));
  sent = w.sent ++ (p, tx_done_indication n.socket (verdict pkt)) ∷ [];
  multicast = if pkt.collision then w.multicast else w.multicast ++ (outgoing pkt).pkt_buffer ∷ [];
  dumped = if pkt.collision then w.dumped else w.dumped ++ frame pkt ∷ [];
  tx_pkts_ok = if pkt.collision then w.tx_pkts_ok else suc w.tx_pkts_ok;
  tx_pkts_collided = if pkt.collision then suc w.tx_pkts_collided else w.tx_pkts_collided;
}

account_lem :
    (pkt : NetSimPacket) (w : Medium)
    → IsSendable pkt
    → account (tx_result pkt).tx_done_result (tx_result pkt) w
      ≡ ok (
        tt,
        record w {
          multicast =
              if pkt.collision then w.multicast else w.multicast ++ (outgoing pkt).pkt_buffer ∷ [];
          dumped = if pkt.collision then w.dumped else w.dumped ++ frame pkt ∷ [];
          tx_pkts_ok = if pkt.collision then w.tx_pkts_ok else suc w.tx_pkts_ok;
          tx_pkts_collided = if pkt.collision then suc w.tx_pkts_collided else w.tx_pkts_collided;
        },
      )
unfolding account tx_result set_rssi generate_packet_checksum pktbuf_size
account_lem pkt w s = elim (Bool-cases pkt.collision) [
  | inl c ↦ rw c
  | inr c ↦ rw c (
      >>-ok (tx_packet (tx_result pkt)) (modify (λ v. record v { tx_pkts_ok = suc v.tx_pkts_ok })) (
        tx_packet_lem (tx_result pkt) w
          (record { has_header = s.has_header; has_frame = s.has_frame })))
]

send_tx_done_indication_lem :
    (p result : ℕ) (w : Medium) (n : DeviceNode)
    → w.heap p ≡ some n
    → send_tx_done_indication p result w
      ≡ ok (tt, record w { sent = w.sent ++ (p, tx_done_indication n.socket result) ∷ [] })
unfolding send_tx_done_indication
send_tx_done_indication_lem p result w n e = rw (e, deref, ◌>>=◌)

pub finish_tx_lem :
    (p : ℕ) (w : Medium) (n : DeviceNode) (pkt : NetSimPacket)
    → w.heap p ≡ some n
    → n.cur_state ≡ transmitting
    → n.tx_pkt ≡ some pkt
    → IsSendable pkt
    → finish_tx p w ≡ ok (tt, after_tx p n pkt w)
unfolding finish_tx tx_result
finish_tx_lem p w n pkt e st f s =
    let n1 : DeviceNode = record n {
      cur_state = active;
      tx_timer = stop n.tx_timer;
      tx_pkt = some (tx_result pkt);
    } in
    let w1 : Medium = record w { heap = update w.heap p (some n1) } in
    let r = (tx_result pkt).tx_done_result in
    let w2 : Medium = record w1 { sent = w.sent ++ (p, tx_done_indication n.socket r) ∷ [] } in
    let here = update_self w.heap p (some n1) in
    let heaps = update-update w.heap p (some n1) (some (retired n)) in
    rw
      (
        e,
        f,
        expired_handler p w n pkt e st f,
        here,
        send_tx_done_indication_lem p r w1 n1 here,
        account_lem pkt w2 s,
        here,
        deref,
        ◌>>=◌,
        ◌>>◌,
        lift,
      )
      (λ i. ok (tt, record (after_tx p n pkt w) { heap = heaps i }))
