-- ===== src/Wire.antt =====
-- src/x6losim_interface.h: the messages between the simulator and the nodes, as the bytes of the
-- packed structs, and the byte order functions of src/sim/DeviceNode.cpp on a little endian host.
pub mod Order
pub mod Header
pub mod Messages
mod Tests
use x6losim.Prelude.{
  ℕ, zero, suc, ◌+◌, ◌*◌, ◌/◌, ◌%◌, ◌<◌, ◌^◌, List, [], ◌∷◌, ◌++◌, Bool, true, false, Option, none,
  some, if◌then◌else◌, ltb, ◌==◌, length, take, drop, set,
}
use x6losim.Checksum.{generate_checksum}

abbrev pub netsim_interface_version : ℕ
netsim_interface_version = 1

pub data MsgType : Type 0 where
  reg_req reg_con dereg_req dereg_con cca_req cca_con tx_data_ind tx_done_ind : MsgType

abbrev pub msg_code : MsgType → ℕ
msg_code reg_req = 0
msg_code reg_con = 1
msg_code dereg_req = 2
msg_code dereg_con = 3
msg_code cca_req = 4
msg_code cca_con = 5
msg_code tx_data_ind = 6
msg_code tx_done_ind = 7

-- The values of `enum tx_done_enum`.
abbrev pub tx_done_ok : ℕ
tx_done_ok = 0

abbrev pub tx_done_collided : ℕ
tx_done_collided = 1

abbrev pub tx_done_failure : ℕ
tx_done_failure = 2

-- An unsigned number of `k` bytes in the host's memory, and back.
unfoldable pub bytes_le : ℕ → ℕ → List ℕ
bytes_le zero x = []
bytes_le (suc k) x = x % 256 ∷ bytes_le k (x / 256)

unfoldable pub value_le : List ℕ → ℕ
value_le [] = 0
value_le (b ∷ bs) = b + 256 * value_le bs

unfoldable pub rev_onto : List ℕ → List ℕ → List ℕ
rev_onto [] acc = acc
rev_onto (b ∷ bs) acc = rev_onto bs (b ∷ acc)

-- The number whose bytes stand the other way round: `bswap_64` and its like.
unfoldable pub byte_swap : ℕ → ℕ → ℕ
unfolding bytes_le value_le rev_onto
byte_swap k x = value_le (rev_onto (bytes_le k x) [])

abbrev pub htons : ℕ → ℕ
htons = byte_swap 2

abbrev pub htonl : ℕ → ℕ
htonl = byte_swap 4

abbrev pub htonll : ℕ → ℕ
htonll = byte_swap 8

-- `struct netsim_pkt_hdr`, its fields in host order.
pub record NetsimPktHdr : Type 0 where
  pub len : ℕ
  pub msg_type : ℕ
  pub interface_version : ℕ
  pub node_id : ℕ
  pub cksum : ℕ

abbrev pub hdr_size : ℕ
hdr_size = 18

-- The header in memory, each field stored through its `hton` function.
unfoldable pub encode_header : NetsimPktHdr → List ℕ → List ℕ
unfolding bytes_le
encode_header h rest =
    bytes_le 2 (htons h.len)
    ++ (bytes_le 2 (htons h.msg_type)
        ++ (bytes_le 4 (htonl h.interface_version)
            ++ (bytes_le 8 (htonll h.node_id) ++ (bytes_le 2 (htons h.cksum) ++ rest))))

-- The field of `width` bytes at an offset, as the host reads it.
unfoldable pub field : ℕ → ℕ → List ℕ → ℕ
unfolding value_le
field offset width buf = value_le (take width (drop offset buf))

-- The header fields through the `ntoh` functions; the caller sees to the 18 bytes.
unfoldable pub decode_header : List ℕ → NetsimPktHdr
unfolding field
decode_header buf = record {
  len = htons (field 0 2 buf);
  msg_type = htons (field 2 2 buf);
  interface_version = htonl (field 4 4 buf);
  node_id = htonll (field 8 8 buf);
  cksum = htons (field 16 2 buf);
}

-- `hdr->cksum = v`, a store of two bytes.
unfoldable pub store_cksum : ℕ → List ℕ → List ℕ
store_cksum v buf = set (set buf 16 (v % 256)) 17 (v / 256 % 256)

-- `hdr->len = v`.
unfoldable pub store_len : ℕ → List ℕ → List ℕ
store_len v buf = set (set buf 0 (v % 256)) 1 (v / 256 % 256)

-- How every message is built: the header with the checksum field 0, then the checksum of the whole.
unfoldable pub build : ℕ → ℕ → List ℕ → List ℕ
unfolding encode_header store_cksum
build msg_type node_id payload = store_cksum (htons (generate_checksum msg)) msg
  where
    msg : List ℕ
    msg =
        encode_header
          (record {
            len = hdr_size + length payload;
            msg_type = msg_type;
            interface_version = netsim_interface_version;
            node_id = node_id;
            cksum = 0;
          })
          payload

-- What `sendRegistrationRequest`, `sendDeregistrationConfirm`, `sendCcaConfirm` and
-- `sendTxDoneIndication` hand to the socket.
unfoldable pub registration_request : ℕ → List ℕ
unfolding build
registration_request node_id = build (msg_code reg_req) node_id []

unfoldable pub deregistration_confirm : ℕ → List ℕ
unfolding build
deregistration_confirm node_id = build (msg_code dereg_con) node_id []

unfoldable pub cca_confirm : ℕ → Bool → List ℕ
unfolding build
cca_confirm node_id result = build (msg_code cca_con) node_id ((if result then 1 else 0) ∷ [])

unfoldable pub tx_done_indication : ℕ → ℕ → List ℕ
unfolding build
tx_done_indication node_id result = build (msg_code tx_done_ind) node_id (result % 256 ∷ [])
