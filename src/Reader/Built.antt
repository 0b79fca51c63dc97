-- ===== src/Reader/Built.antt =====
-- A message that a node has built reaches the handler of its type.
use x6losim.Prelude.{
  ℕ, ◌+◌, ◌<◌, ◌≤◌, ◌^◌, ◌≡◌, refl, ap, ◌∙◌, List, length, take, drop, some, arith,
}
use x6losim.Checksum.Bounds.{generate_checksum-lt}
use x6losim.Wire.{htons, build, encode_header, hdr_size}
use x6losim.Wire.Header.{FitsHeader, blank_header, full_header, build_lem}
use x6losim.Store.{Medium, Kernel, DeviceNode, M}
use x6losim.Reader.{received, dispatch, read_msg}
use x6losim.Reader.Accepts.{read_msg-dispatch}

-- The message comes whole.
abbrev pub arrival : Kernel → ℕ → List ℕ → (ℕ → ℕ) → M (Unit {0})
arrival k p msg junk = read_msg k p (received (take 2 msg)) (received (drop 2 msg)) junk

-- The lengths that the reader takes: those of the field, but for multiples of 256 below 2048.
pub record FitsReader (len : ℕ) : Type 0 where
  pub len_fits : len < 2 ^ 16
  pub long_enough : 8 ≤ htons len

pub arrival-build :
    (k : Kernel) (p : ℕ) (n : DeviceNode) (msg_type : ℕ) (payload : List ℕ) (junk : ℕ → ℕ)
    (w : Medium)
    → w.heap p ≡ some n
    → msg_type < 2 ^ 16
    → n.socket < 2 ^ 64
    → FitsReader (hdr_size + length payload)
    → arrival k p (build msg_type n.socket payload) junk w
      ≡ dispatch k p msg_type (encode_header (blank_header msg_type n.socket payload) payload) w
arrival-build k p n msg_type payload junk w e ht hn f =
    let h = full_header msg_type n.socket payload in
    let fits : FitsHeader h = record {
      len_fits = f.len_fits;
      msg_type_fits = ht;
      interface_version_fits = omega arith;
      node_id_fits = hn;
      cksum_fits = generate_checksum-lt _;
    } in
    ap (λ msg. arrival k p msg junk w) (build_lem msg_type n.socket payload)
    ∙ read_msg-dispatch k p n h payload junk w fits refl f.long_enough e refl refl refl
