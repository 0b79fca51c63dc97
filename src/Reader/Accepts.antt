-- ===== src/Reader/Accepts.antt =====
-- What `readMsg` accepts, ignores and aborts on.
use x6losim.Prelude.{
  ℕ, ◌+◌, ◌%◌, ◌<◌, ◌≤◌, ◌≡◌, ◌≢◌, ◌∙◌, List, true, false, some, ◌==◌, leb, length, take, drop,
  arith,
}
use x6losim.Prelude.Fault.{fail, ok, asserted}
use x6losim.Checksum.{generate_checksum}
use x6losim.Wire.{htons, NetsimPktHdr, encode_header, hdr_size, netsim_interface_version}
use x6losim.Wire.Header.{FitsHeader}
use x6losim.Store.{Medium, deref, ◌>>=◌, ◌>>◌, check, Kernel, DeviceNode}
use x6losim.Reader.{Recv, received, dispatch, read_msg}
use x6losim.Reader.Whole.{blanked, read_msg_lem, raw_length, two_bytes, short_length}

module _ (k : Kernel) (p : ℕ) (n : DeviceNode) (h : NetsimPktHdr) (payload : List ℕ) (junk : ℕ → ℕ)
    (w : Medium) (fits : FitsHeader h) (own_length : h.len ≡ hdr_size + length payload)
    (big : 8 ≤ htons h.len) (alive : w.heap p ≡ some n) where
  -- A message that arrives whole, with a header whose fields have their widths, its own length, the
  -- node's identifier, the interface version and the right checksum reaches the handler of its type,
  -- with the checksum field cleared. (The length read in the host's order has to be 8 or more.)
  pub read_msg-dispatch :
      h.cksum ≡ generate_checksum (encode_header (blanked h) payload)
      → h.node_id ≡ n.socket
      → h.interface_version ≡ netsim_interface_version
      → read_msg k p
          (received (take 2 (encode_header h payload)))
          (received (drop 2 (encode_header h payload)))
          junk
          w
        ≡ dispatch k p h.msg_type (encode_header (blanked h) payload) w
  read_msg-dispatch right mine version =
      let a : (generate_checksum (encode_header (blanked h) payload) == h.cksum) ≡ true =
        ground arith in
      let b : (h.node_id == n.socket) ≡ true = ground arith in
      let c : (h.interface_version == netsim_interface_version) ≡ true = ground arith in
      read_msg_lem k p n h payload junk w fits own_length big alive ∙ rw (a, b, c)

  -- Such a message with a wrong checksum, or with the right one and the node's identifier but
  -- another interface version, changes nothing; with the right checksum and another node's
  -- identifier it fails the assertion.
  pub read_msg_refuses :
      (h.cksum ≢ generate_checksum (encode_header (blanked h) payload)
        → read_msg k p
            (received (take 2 (encode_header h payload)))
            (received (drop 2 (encode_header h payload)))
            junk
            w
          ≡ ok (tt, w))
      × (h.cksum ≡ generate_checksum (encode_header (blanked h) payload)
          → h.node_id ≡ n.socket
          → h.interface_version ≢ netsim_interface_version
          → read_msg k p
              (received (take 2 (encode_header h payload)))
              (received (drop 2 (encode_header h payload)))
              junk
              w
            ≡ ok (tt, w))
      × (h.cksum ≡ generate_checksum (encode_header (blanked h) payload)
          → h.node_id ≢ n.socket
          → read_msg k p
              (received (take 2 (encode_header h payload)))
              (received (drop 2 (encode_header h payload)))
              junk
              w
            ≡ fail asserted)
  read_msg_refuses =
      let all = read_msg_lem k p n h payload junk w fits own_length big alive in
      (
        λ wrong.
            let a : (generate_checksum (encode_header (blanked h) payload) == h.cksum) ≡ false =
              ground arith in
            all ∙ rw a,
        λ right mine other.
            let a : (generate_checksum (encode_header (blanked h) payload) == h.cksum) ≡ true =
              ground arith in
            let b : (h.node_id == n.socket) ≡ true = ground arith in
            let c : (h.interface_version == netsim_interface_version) ≡ false = ground arith in
            all ∙ rw (a, b, c),
        λ right stranger.
            let a : (generate_checksum (encode_header (blanked h) payload) == h.cksum) ≡ true =
              ground arith in
            let b : (h.node_id == n.socket) ≡ false = ground arith in all ∙ rw (a, b),
      )

-- A node that sends a message whose length is a multiple of 256 below 2048, or any message whose
-- first two bytes say such a length, fails the assertion on the length, whatever else it sends.
pub read_msg_aborts_on_round_length :
    (k : Kernel) (p : ℕ) (n : DeviceNode) (h : NetsimPktHdr) (payload : List ℕ) (second : Recv)
    (junk : ℕ → ℕ) (w : Medium)
    → w.heap p ≡ some n
    → h.len % 256 ≡ 0
    → h.len < 2048
    → read_msg k p (received (take 2 (encode_header h payload))) second junk w ≡ fail asserted
unfolding read_msg
read_msg_aborts_on_round_length k p n h payload second junk w alive round small =
    let short : leb 8 (htons h.len) ≡ false = short_length h.len round small in
    rw (alive, two_bytes h payload, raw_length h payload, deref, ◌>>=◌, ◌>>◌, check, short)
