-- ===== src/Reader.antt =====
-- `DeviceNode::readMsg` of src/sim/DeviceNode.cpp: two calls of `recv`, the checks of the header, and
-- the dispatch on the message type.
pub mod Whole
pub mod Accepts
pub mod Frame
pub mod Confined
pub mod Effects
pub mod Built
mod Tests
use x6losim.Prelude.{
  ℕ, zero, suc, ◌+◌, ◌-◌, ◌≤◌, List, [], ◌∷◌, ◌++◌, Bool, true, false, not, Option, none, some,
  ◌==◌, leb, ltb, if◌then◌else◌, length, take, drop,
}
use x6losim.Prelude.Fault.{asserted, out_of_bounds}
use x6losim.Checksum.{generate_checksum}
use x6losim.Wire.{
  htons, field, decode_header, store_cksum, store_len, hdr_size, netsim_interface_version, MsgType,
  reg_con, dereg_req, cca_req, tx_data_ind, msg_code,
}
use x6losim.Store.{Medium, M, ◌>>=◌, ◌>>◌, pure, raise, check, deref, store, Kernel, DeviceNode}
use x6losim.Node.{
  handle_registration_confirm, handle_deregistration_request, handle_cca_request,
  handle_data_indication,
}

-- The answer of a `recv`: the bytes that it wrote, or -1.
pub data Recv : Type 0 where
  received : List ℕ → Recv
  failed : Recv

-- The number that the source compares with the result of a failed or a full call.
abbrev eagain : ℕ
eagain = 11

-- `malloc(n)`: what the bytes hold is not known, hence the argument.
unfoldable pub malloc : ℕ → (ℕ → ℕ) → List ℕ
malloc zero junk = []
malloc (suc n) junk = junk n ∷ malloc n junk

-- `recv` into the buffer behind its first two bytes.
unfoldable pub receive_into : List ℕ → List ℕ → List ℕ
receive_into bs buf = take 2 buf ++ (bs ++ drop (2 + length bs) buf)

-- The `switch` on the message type. Types that are not for the simulator are logged.
unfoldable pub dispatch : Kernel → ℕ → ℕ → List ℕ → M (Unit {0})
unfolding handle_registration_confirm handle_deregistration_request handle_cca_request
    handle_data_indication
dispatch k p msg_type msg =
    if msg_type == msg_code reg_con
    then handle_registration_confirm p msg
    else if msg_type == msg_code dereg_req
    then handle_deregistration_request p
    else if msg_type == msg_code cca_req
    then handle_cca_request p
    else if msg_type == msg_code tx_data_ind
    then handle_data_indication k p msg
    else pure tt

-- `pimpl->stats.failedReads++`.
count_failed_read : ℕ → DeviceNode → M (Unit {0})
count_failed_read p n = store p (record n { failed_reads = suc n.failed_reads })

-- From the header on: `buf` is the message with its length field not yet set.
process_msg : Kernel → ℕ → DeviceNode → ℕ → List ℕ → M (Unit {0})
unfolding dispatch
process_msg k p n len buf =
    let rx_cksum = htons (field 16 2 buf) in
    let msg = store_len (htons len) (store_cksum 0 buf) in
    let h = decode_header msg in
    check (leb hdr_size len) out_of_bounds
    >> (if not (generate_checksum msg == rx_cksum)
        then pure tt
        else (check (h.node_id == n.socket) asserted
            >> (if h.interface_version == netsim_interface_version
                then dispatch k p h.msg_type msg
                else pure tt)))

-- The second `recv`, of the `len - 2` bytes behind the length field. A failed one is not noticed.
-- With a length below 2 the request wraps around and runs over the buffer.
read_body : Kernel → ℕ → DeviceNode → ℕ → Recv → (ℕ → ℕ) → M (Unit {0})
unfolding malloc receive_into count_failed_read process_msg
read_body k p n len failed junk = process_msg k p n len (malloc len junk)
read_body k p n len (received bs) junk =
    let body = take (len - 2) bs in
    check (leb 2 len) out_of_bounds
    >> (if length body == eagain
        then count_failed_read p n
        else process_msg k p n len (receive_into body (malloc len junk)))

-- The first `recv`, of the length field. The assertion on the length reads the two bytes in the
-- host's order, and compares with the size of a pointer.
pub read_msg : Kernel → ℕ → Recv → Recv → (ℕ → ℕ) → M (Unit {0})
read_msg k p failed second junk = do n ← deref p; raise asserted
read_msg k p (received bs) second junk = do
  n ← deref p
  let len = field 0 2 (take 2 bs)
  check (length (take 2 bs) == 2) asserted
  check (leb 8 len) asserted
  read_body k p n (htons len) second junk
