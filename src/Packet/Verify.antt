-- ===== src/Packet/Verify.antt =====
-- What the nodes receive from the multicast group.
use x6losim.Prelude.{ℕ, ◌%◌, ◌≡◌, List, set, refl, ap, ◌∙◌, sym}
use x6losim.Checksum.{generate_checksum}
use x6losim.Checksum.Bounds.{generate_checksum-lt}
use x6losim.Wire.{NetsimPktHdr, encode_header, decode_header, store_cksum, htons}
use x6losim.Wire.Header.{
  FitsHeader, decode_header-encode_header, store_cksum-encode_header, zero_swaps,
}
use x6losim.Packet.{NetSimPacket, set_rssi, generate_packet_checksum}

set_in_body :
    (h : NetsimPktHdr) (rest : List ℕ) (v : ℕ)
    → set (encode_header h rest) 33 v ≡ encode_header h (set rest 15 v)
unfolding encode_header
set_in_body h rest v = refl

clear_cksum :
    (h : NetsimPktHdr) (c : ℕ) (rest : List ℕ)
    → h.cksum ≡ 0
    → store_cksum 0 (encode_header (record h { cksum = c }) rest) ≡ encode_header h rest
clear_cksum h c rest e =
    ap (λ v. store_cksum v (encode_header (record h { cksum = c }) rest)) (sym zero_swaps)
    ∙ (store_cksum-encode_header (record h { cksum = c }) 0 rest
        ∙ ap (λ c'. encode_header (record h { cksum = c' }) rest) (sym e))

-- A packet whose checksum field is 0 goes out, after the signal strength is set and the checksum
-- made, with every header field but the checksum as it was, and it verifies: the receiver that
-- clears the field and computes the checksum again gets the value of the field.
pub generate_packet_checksum_verifies :
    (pkt : NetSimPacket) (h : NetsimPktHdr) (rest : List ℕ) (rssi : ℕ)
    → FitsHeader h
    → h.cksum ≡ 0
    → pkt.pkt_buffer ≡ encode_header h rest
    → let out = (generate_packet_checksum (set_rssi rssi pkt)).pkt_buffer in
      (record (decode_header out) { cksum = 0 } ≡ h)
      × (generate_checksum (store_cksum 0 out) ≡ (decode_header out).cksum)
unfolding generate_packet_checksum set_rssi
generate_packet_checksum_verifies pkt h rest rssi f z e =
    let body = set rest 15 (rssi % 256) in
    let c = generate_checksum (encode_header h body) in
    let sent : store_cksum (htons (generate_checksum (set pkt.pkt_buffer 33 (rssi % 256))))
          (set pkt.pkt_buffer 33 (rssi % 256))
        ≡ encode_header (record h { cksum = c }) body =
      rw (e, set_in_body) (store_cksum-encode_header h c body) in
    let decoded : decode_header (encode_header (record h { cksum = c }) body)
        ≡ record h { cksum = c } =
      decode_header-encode_header (record h { cksum = c }) body
        (record {
          len_fits = f.len_fits;
          msg_type_fits = f.msg_type_fits;
          interface_version_fits = f.interface_version_fits;
          node_id_fits = f.node_id_fits;
          cksum_fits = generate_checksum-lt (encode_header h body);
        }) in
    rw sent (
      rw decoded (sym (ap (λ v. record h { cksum = v }) z)),
      rw decoded (ap generate_checksum (clear_cksum h c body z)),
    )
