-- ===== src/Packet.antt =====
-- `NetSimPacket` of src/sim/Simulator.hpp and src/sim/DeviceNode.cpp: a copy of a data indication
-- with what the simulator decides about it.
pub mod Ack
pub mod Verify
use x6losim.Prelude.{ℕ, ◌%◌, List, [], ◌∷◌, Bool, true, false, leb, ◌==◌, length, take, get_or, set}
use x6losim.Prelude.Fault.{Result, ok, fail, ◌>>=◌, ◌>>◌, require, out_of_bounds}
use x6losim.Checksum.{generate_checksum}
use x6losim.Wire.{htons, field, store_cksum}

pub record NetSimPacket : Type 0 where
  pub pkt_buffer_len : ℕ
  pub pkt_buffer : List ℕ
  pub from_node : ℕ
  pub collision : Bool
  pub tx_done_result : ℕ

-- The constructor: it copies as many bytes as the header's length field says.
unfoldable pub new_packet : List ℕ → ℕ → Result NetSimPacket
new_packet data_ind from_node =
    let len = htons (field 0 2 data_ind) in
    require (leb len (length data_ind)) out_of_bounds
    >> ok (record {
      pkt_buffer_len = len;
      pkt_buffer = take len data_ind;
      from_node = from_node;
      collision = false;
      tx_done_result = 0;
    })

-- `pktBuffer[0] & 0x07`: the byte is the first of the buffer, where the message header starts.
unfoldable pub is_ack : NetSimPacket → Bool
is_ack pkt = get_or pkt.pkt_buffer 0 0 % 8 == 2

unfoldable pub get_time_on_wire : NetSimPacket → ℕ
get_time_on_wire pkt = 4

unfoldable pub set_rssi : ℕ → NetSimPacket → NetSimPacket
set_rssi rssi pkt = record pkt { pkt_buffer = set pkt.pkt_buffer 33 (rssi % 256) }

-- The checksum of the buffer as it is: the field is not cleared here.
unfoldable pub generate_packet_checksum : NetSimPacket → NetSimPacket
unfolding store_cksum
generate_packet_checksum pkt = record pkt {
  pkt_buffer = store_cksum (htons (generate_checksum pkt.pkt_buffer)) pkt.pkt_buffer;
}

-- `psdu_len`, which stands behind the header and the source address.
unfoldable pub pktbuf_size : NetSimPacket → ℕ
unfolding field
pktbuf_size pkt = htons (field 26 2 pkt.pkt_buffer)
