-- ===== src/Packet/Ack.antt =====
-- Which packets `isAck` takes for acknowledgements.
use x6losim.Prelude.{ℕ, ◌/◌, ◌%◌, ◌<◌, ◌^◌, ◌≡◌, List, false, ◌==◌, get_or, arith}
use x6losim.Wire.{byte_swap, NetsimPktHdr, encode_header}
use x6losim.Wire.Header.{FitsHeader}
use x6losim.Packet.{NetSimPacket, is_ack}

first_byte :
    (h : NetsimPktHdr) (rest : List ℕ)
    → h.len < 2 ^ 16
    → get_or (encode_header h rest) 0 0 ≡ h.len / 256
unfolding encode_header byte_swap
first_byte h rest fits = omega arith

-- For a packet that starts with an encoded header, `isAck` looks at the length of the message: it
-- says yes exactly when the high byte of the length field has 2 in its low three bits. So no
-- message below 512 bytes counts as an acknowledgement, whatever frame it carries.
pub is_ack-len :
    (pkt : NetSimPacket) (h : NetsimPktHdr) (rest : List ℕ)
    → FitsHeader h
    → pkt.pkt_buffer ≡ encode_header h rest
    → (is_ack pkt ≡ (h.len / 256 % 8 == 2)) × (h.len < 512 → is_ack pkt ≡ false)
unfolding is_ack
is_ack-len pkt h rest f e =
    let b : get_or pkt.pkt_buffer 0 0 ≡ h.len / 256 = rw e (first_byte h rest f.len_fits) in
    (rw b, λ small. ground (arith, b))
