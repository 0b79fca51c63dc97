-- ===== src/Medium/Outgoing.antt =====
-- `txPacket`: what the multicast group and the capture file get.
use x6losim.Prelude.{
  ℕ, zero, suc, ◌+◌, ◌≤◌, ◌<◌, ◌/◌, ◌%◌, ◌≡◌, refl, ap, ◌∙◌, List, [], ◌∷◌, ◌++◌, true, leb, length,
  take, drop, set, arith, length-set,
}
use x6losim.Prelude.Fault.{ok}
use x6losim.Wire.{field, store_cksum, htons, value_le}
use x6losim.Checksum.{generate_checksum}
use x6losim.Packet.{NetSimPacket, set_rssi, generate_packet_checksum, pktbuf_size}
use x6losim.Store.{Medium}
use x6losim.Medium.{tx_packet}

-- The frame that the length field of the packet promises is there.
pub record IsSendable (pkt : NetSimPacket) : Type 0 where
  pub has_header : 34 ≤ length pkt.pkt_buffer
  pub has_frame : 34 + pktbuf_size pkt ≤ length pkt.pkt_buffer

-- The packet as it goes out.
abbrev pub outgoing : NetSimPacket → NetSimPacket
outgoing pkt = generate_packet_checksum (set_rssi 127 pkt)

-- The frame that the capture file gets.
abbrev pub frame : NetSimPacket → List ℕ
frame pkt = take (pktbuf_size (outgoing pkt)) (drop 34 (outgoing pkt).pkt_buffer)

drop-set : (off i v : ℕ) (bs : List ℕ) → i < off → drop off (set bs i v) ≡ drop off bs
drop-set zero i v bs h = elim h [ ]
drop-set (suc off) zero v [] h = refl
drop-set (suc off) zero v (b ∷ bs) h = refl
drop-set (suc off) (suc i) v [] h = refl
drop-set (suc off) (suc i) v (b ∷ bs) h = drop-set off i v bs (omega arith)

take-set : (n i v : ℕ) (bs : List ℕ) → n ≤ i → take n (set bs i v) ≡ take n bs
take-set zero i v bs h = refl
take-set (suc n) zero v bs h = absurd (omega arith)
take-set (suc n) (suc i) v [] h = refl
take-set (suc n) (suc i) v (b ∷ bs) h = ap (◌∷◌ b) (take-set n i v bs (omega arith))

take-drop-set :
    (off n i v : ℕ) (bs : List ℕ)
    → off + n ≤ i
    → take n (drop off (set bs i v)) ≡ take n (drop off bs)
take-drop-set zero n i v bs h = take-set n i v bs (omega arith)
take-drop-set (suc off) n zero v bs h = absurd (omega arith)
take-drop-set (suc off) n (suc i) v [] h = refl
take-drop-set (suc off) n (suc i) v (b ∷ bs) h = take-drop-set off n i v bs (omega arith)

-- Neither the signal strength nor the checksum moves the frame's length field.
pktbuf_size-outgoing : (pkt : NetSimPacket) → pktbuf_size (outgoing pkt) ≡ pktbuf_size pkt
unfolding pktbuf_size field generate_packet_checksum set_rssi
pktbuf_size-outgoing pkt =
    let rssi = set pkt.pkt_buffer 33 127 in
    let c = htons (generate_checksum rssi) in
    ap (λ bs. htons (value_le bs))
      (ap (take 2) (
          drop-set 26 17 (c / 256 % 256) (set rssi 16 (c % 256)) (omega arith)
          ∙ drop-set 26 16 (c % 256) rssi (omega arith))
        ∙ take-drop-set 26 2 33 127 pkt.pkt_buffer (omega arith))

-- The capture file gets the frame as it came.
pub frame_as_sent :
    (pkt : NetSimPacket) → frame pkt ≡ take (pktbuf_size pkt) (drop 34 pkt.pkt_buffer)
unfolding generate_packet_checksum set_rssi store_cksum
frame_as_sent pkt =
    let rssi = set pkt.pkt_buffer 33 127 in
    let c = htons (generate_checksum rssi) in
    ap (λ n. take n (drop 34 (outgoing pkt).pkt_buffer)) (pktbuf_size-outgoing pkt)
    ∙ ap (take (pktbuf_size pkt)) (
        drop-set 34 17 (c / 256 % 256) (set rssi 16 (c % 256)) (omega arith)
        ∙ (drop-set 34 16 (c % 256) rssi (omega arith)
            ∙ drop-set 34 33 127 pkt.pkt_buffer (omega arith)))

length-outgoing : (pkt : NetSimPacket) → length (outgoing pkt).pkt_buffer ≡ length pkt.pkt_buffer
unfolding generate_packet_checksum set_rssi store_cksum
length-outgoing pkt =
    let rssi = set pkt.pkt_buffer 33 127 in
    let c = htons (generate_checksum rssi) in
    omega (
      arith,
      length-set {0} (set rssi 16 (c % 256)) 17 (c / 256 % 256),
      length-set {0} rssi 16 (c % 256),
      length-set {0} pkt.pkt_buffer 33 127,
    )

pub tx_packet_lem :
    (pkt : NetSimPacket) (w : Medium)
    → IsSendable pkt
    → tx_packet pkt w
      ≡ ok (
        tt,
        record w {
          multicast = w.multicast ++ (outgoing pkt).pkt_buffer ∷ [];
          dumped = w.dumped ++ frame pkt ∷ [];
        },
      )
unfolding tx_packet
tx_packet_lem pkt w s =
    let a : leb 34 (length pkt.pkt_buffer) ≡ true = ground arith in
    let b : leb (34 + pktbuf_size (outgoing pkt)) (length (outgoing pkt).pkt_buffer) ≡ true =
      ground (arith, pktbuf_size-outgoing pkt, length-outgoing pkt) in
    rw (a, b)
