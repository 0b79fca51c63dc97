-- ===== src/System/Samples.antt =====
-- A medium that one node joins, and then another, which the tests of several modules share.
use x6losim.Prelude.{
  ℕ, sym, ap, Bool, true, false, Option, ◌==◌, if◌then◌else◌, ◌++◌, ◌≡◌, refl, [], ◌∷◌, none, some,
  replicate, take, drop, inr, arith,
}
use x6losim.Prelude.Fault.{ok}
use x6losim.Wire.{registration_request, byte_swap}
use x6losim.System.Delivery.{IsWhole}
use x6losim.System.Membership.{IsFresh}
use x6losim.System.Steps.{Step-IsWell, reads, Step, joins, IsEmpty, here, later, Reach-IsWell}
use x6losim.Store.{DeviceNode, Medium, Kernel, update}
use x6losim.Store.Samples.{empty_medium, kernel}
use x6losim.Membership.{insert, erase_key}
use x6losim.Node.Transmission.{SetsTimers}
use x6losim.Node.Joining.{joined, new_node_joins}
use x6losim.System.{IsWell}
use x6losim.Reader.{received}
use x6losim.Reader.Built.{arrival, FitsReader}
use x6losim.Wire.Messages.{RegistrationCon, DataInd, registration_con, data_ind_payload}
use x6losim.Node.Registration.{confirmed}
use x6losim.System.Messages.{registration_con_arrives}

pub kernel-SetsTimers : SetsTimers kernel
kernel-SetsTimers = record { creates = refl; sets = refl }

-- Node 1 with its socket at 4096 has joined.
abbrev pub one_node : Medium
one_node = record empty_medium {
  sent = (1, registration_request 4096) ∷ [];
  heap = update empty_medium.heap 1 (some (joined 4096 7));
  reg_list_map = insert 4096 1 [];
}

pub empty : IsEmpty empty_medium
empty = record {
  no_nodes = λ p. refl;
  no_listed = refl;
  no_mapped = refl;
  no_asking = refl;
  no_sending = refl;
}

pub one_joins : Step empty_medium one_node
one_joins =
    joins kernel 1 4096 7 kernel-SetsTimers refl refl (λ q m e. cc)
      (new_node_joins kernel 1 4096 7 empty_medium kernel-SetsTimers refl)

-- Node 1 says that it runs "L".
abbrev pub linux : RegistrationCon
linux = record { os = 76 ∷ replicate 31 0; os_version = replicate 32 0 }

pub junk : ℕ → ℕ
junk i = i

abbrev pub one_member : Medium
one_member = record one_node {
  heap = update one_node.heap 1 (some (confirmed linux.os linux.os_version (joined 4096 7)));
  reg_list_map = erase_key 4096 one_node.reg_list_map;
  node_hash_map = insert 4096 1 [];
}

pub one_node-IsWell : IsWell one_node
one_node-IsWell = Reach-IsWell empty (later here one_joins)

pub one_confirms :
    arrival kernel 1 (registration_con 4096 linux) junk one_node ≡ ok (tt, one_member)
one_confirms =
    registration_con_arrives kernel 1 (joined 4096 7) one_node junk one_node-IsWell refl
      (omega arith) linux (record { os_fits = refl; os_version_fits = refl }) refl

pub one_confirming : Step one_node one_member
one_confirming =
    reads kernel 1 (received (take 2 (registration_con 4096 linux)))
      (received (drop 2 (registration_con 4096 linux))) junk (inr (_, refl)) one_confirms

pub one_member-IsWell : IsWell one_member
one_member-IsWell = Reach-IsWell empty (later (later here one_joins) one_confirming)

-- A frame of three bytes.
abbrev pub frame : DataInd
frame = record {
  source_addr = 9;
  psdu_len = 3;
  extra_hdr = 0;
  rep_code = 0;
  tx_power = 1;
  cca_mode = 2;
  rssi = 0;
  pkt_data = 65 ∷ 66 ∷ 67 ∷ [];
}

pub frame-FitsReader : FitsReader 37
unfolding byte_swap
frame-FitsReader = record { len_fits = omega arith; long_enough = omega arith }

pub frame-IsWhole : IsWhole frame
unfolding data_ind_payload
frame-IsWhole = record {
  len_reads = frame-FitsReader;
  psdu_fits = omega arith;
  has_frame = omega arith;
}

-- Node 2 joins with its socket at 8192, and confirms.
abbrev pub two_nodes : Medium
two_nodes = record one_member {
  sent = one_member.sent ++ (2, registration_request 8192) ∷ [];
  heap = update one_member.heap 2 (some (joined 8192 8));
  reg_list_map = insert 8192 2 one_member.reg_list_map;
}

abbrev pub socket_of : Option DeviceNode → ℕ
socket_of none = 0
socket_of (some n) = n.socket

pub other_socket : IsFresh one_member 8192
other_socket q n e = by_address (1 == q) (1 == q) e
  where
    by_address :
        (b c : Bool)
        → (if b
            then some (confirmed linux.os linux.os_version (joined 4096 7))
            else if c
            then some (joined 4096 7)
            else none)
          ≡ some n
        → (8192 == n.socket) ≡ false
    by_address true c f = ap (λ x. 8192 == socket_of x) (sym f)
    by_address false true f = ap (λ x. 8192 == socket_of x) (sym f)
    by_address false false f = cc

pub two_join : Step one_member two_nodes
two_join =
    joins kernel 2 8192 8 kernel-SetsTimers refl refl other_socket
      (new_node_joins kernel 2 8192 8 one_member kernel-SetsTimers refl)

pub two_nodes-IsWell : IsWell two_nodes
two_nodes-IsWell = Step-IsWell two_join one_member-IsWell

abbrev pub two_members : Medium
two_members = record two_nodes {
  heap = update two_nodes.heap 2 (some (confirmed linux.os linux.os_version (joined 8192 8)));
  reg_list_map = erase_key 8192 two_nodes.reg_list_map;
  node_hash_map = insert 8192 2 two_nodes.node_hash_map;
}

pub two_confirm :
    arrival kernel 2 (registration_con 8192 linux) junk two_nodes ≡ ok (tt, two_members)
two_confirm =
    registration_con_arrives kernel 2 (joined 8192 8) two_nodes junk two_nodes-IsWell refl
      (omega arith) linux (record { os_fits = refl; os_version_fits = refl }) refl

pub two_members-IsWell : IsWell two_members
two_members-IsWell =
    Step-IsWell
      (reads kernel 2 (received (take 2 (registration_con 8192 linux)))
        (received (drop 2 (registration_con 8192 linux))) junk (inr (_, refl)) two_confirm)
      two_nodes-IsWell

-- All transmissions are over.
abbrev pub over_kernel : Kernel
over_kernel = record kernel { tx_left = λ p. some (0, 0) }

pub over_kernel-SetsTimers : SetsTimers over_kernel
over_kernel-SetsTimers = record { creates = refl; sets = refl }
