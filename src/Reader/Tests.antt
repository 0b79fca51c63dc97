-- ===== src/Reader/Tests.antt =====
-- The theorems about `readMsg`, for messages to node 3.
use x6losim.Prelude.{ℕ, ◌≡◌, ◌≤◌, ◌∙◌, refl, [], ◌∷◌, take, drop, arith}
use x6losim.Prelude.Fault.{ok, fail, asserted}
use x6losim.Checksum.{generate_checksum}
use x6losim.Checksum.Bounds.{generate_checksum-lt}
use x6losim.Wire.{NetsimPktHdr, encode_header, htons, byte_swap}
use x6losim.Wire.Header.{FitsHeader}
use x6losim.Store.Samples.{busy_medium, kernel, active_node}
use x6losim.Store.{Medium}
use x6losim.Node.Requests.{handle_cca_request_lem}
use x6losim.Reader.Confined.{Confined, read_msg-Confined}
use x6losim.Reader.{received, failed, read_msg, dispatch}
use x6losim.Reader.Accepts.{read_msg-dispatch, read_msg_refuses, read_msg_aborts_on_round_length}

abbrev blank : NetsimPktHdr
blank = record { len = 18; msg_type = 4; interface_version = 1; node_id = 12288; cksum = 0 }

-- A channel assessment request with the right checksum, and one with a wrong one.
abbrev cca_header : NetsimPktHdr
cca_header = record blank { cksum = generate_checksum (encode_header blank []) }

abbrev corrupt_header : NetsimPktHdr
corrupt_header = record blank { cksum = 0xffff }

cca_header-FitsHeader : FitsHeader cca_header
cca_header-FitsHeader = record {
  len_fits = omega arith;
  msg_type_fits = omega arith;
  interface_version_fits = omega arith;
  node_id_fits = omega arith;
  cksum_fits = generate_checksum-lt (encode_header blank []);
}

junk : ℕ → ℕ
junk n = n

long_enough : 8 ≤ htons 18
unfolding byte_swap
long_enough = omega arith

cca_request_read :
    read_msg kernel 3
      (received (take 2 (encode_header cca_header [])))
      (received (drop 2 (encode_header cca_header [])))
      junk
      busy_medium
    ≡ dispatch kernel 3 4 (encode_header blank []) busy_medium
cca_request_read =
    read_msg-dispatch kernel 3 (active_node 12288) cca_header [] junk busy_medium
      cca_header-FitsHeader refl long_enough refl refl refl refl

wrong : generate_checksum (encode_header blank []) ≡ 59599
unfolding generate_checksum encode_header byte_swap
wrong = refl

read_msg_refuses_example :
    read_msg kernel 3
      (received (take 2 (encode_header corrupt_header [])))
      (received (drop 2 (encode_header corrupt_header [])))
      junk
      busy_medium
    ≡ ok (tt, busy_medium)
read_msg_refuses_example =
    (read_msg_refuses kernel 3 (active_node 12288) corrupt_header [] junk busy_medium (omega arith)
        refl long_enough refl).0
      (omega (arith, wrong))

read_msg_aborts_on_round_length_example :
    read_msg kernel 3
      (received (take 2 (encode_header (record blank { len = 512 }) [])))
      failed
      junk
      busy_medium
    ≡ fail asserted
read_msg_aborts_on_round_length_example =
    read_msg_aborts_on_round_length kernel 3 (active_node 12288) (record blank { len = 512 }) []
      failed junk busy_medium refl (omega arith) (omega arith)

-- Node 3 on the list once more.
abbrev asked_twice : Medium
asked_twice = record busy_medium { cca_list = 3 ∷ 3 ∷ [] }

dispatch_cca : dispatch kernel 3 4 (encode_header blank []) busy_medium ≡ ok (tt, asked_twice)
unfolding dispatch
dispatch_cca = handle_cca_request_lem 3 (active_node 12288) busy_medium refl refl refl

read_msg-Confined_example : Confined 3 busy_medium asked_twice
read_msg-Confined_example =
    read_msg-Confined kernel 3 (received (take 2 (encode_header cca_header [])))
      (received (drop 2 (encode_header cca_header []))) junk busy_medium asked_twice
      (cca_request_read ∙ dispatch_cca)
