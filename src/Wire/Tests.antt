-- ===== src/Wire/Tests.antt =====
-- Runs of the message builders, and the theorems at concrete messages.
use x6losim.Prelude.{◌≡◌, refl, [], ◌∷◌, arith}
use x6losim.Checksum.{generate_checksum}
use x6losim.Wire.{byte_swap, NetsimPktHdr, decode_header, store_cksum, build}
use x6losim.Wire.Order.{byte_swap-byte_swap}
use x6losim.Wire.Header.{FitsHeader, build_verifies}

swaps : byte_swap 4 0x12345678 ≡ 0x78563412
unfolding byte_swap
swaps = refl

abbrev request : NetsimPktHdr
request = record {
  len = 18;
  msg_type = 4;
  interface_version = 1;
  node_id = 0x5566_7788;
  cksum = 0xbeef;
}

request-FitsHeader : FitsHeader request
request-FitsHeader = omega arith

byte_swap-byte_swap_example : byte_swap 8 (byte_swap 8 0x5566_7788) ≡ 0x5566_7788
byte_swap-byte_swap_example = byte_swap-byte_swap 8 0x5566_7788 (omega arith)

build_verifies_example :
    generate_checksum (store_cksum 0 (build 5 0x5566_7788 (1 ∷ [])))
    ≡ (decode_header (build 5 0x5566_7788 (1 ∷ []))).cksum
build_verifies_example =
    (build_verifies 5 0x5566_7788 (1 ∷ []) (omega arith) (omega arith) (omega arith)).4
