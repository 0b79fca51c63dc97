-- ===== src/Wire/Header.antt =====
-- The header's round trip, and the messages that the simulator builds.
use x6losim.Prelude.{ℕ, ◌+◌, ◌<◌, ◌^◌, ◌≡◌, refl, ◌∙◌, sym, ap, List, length, arith}
use x6losim.Checksum.{generate_checksum}
use x6losim.Checksum.Bounds.{generate_checksum-lt}
use x6losim.Wire.{
  bytes_le, value_le, byte_swap, htons, NetsimPktHdr, encode_header, decode_header, store_cksum,
  build, hdr_size, netsim_interface_version,
}
use x6losim.Wire.Order.{value_le-bytes_le, byte_swap-lt, byte_swap-byte_swap}

-- Every field of the header has its width.
pub record FitsHeader (h : NetsimPktHdr) : Type 0 where
  pub len_fits : h.len < 2 ^ 16
  pub msg_type_fits : h.msg_type < 2 ^ 16
  pub interface_version_fits : h.interface_version < 2 ^ 32
  pub node_id_fits : h.node_id < 2 ^ 64
  pub cksum_fits : h.cksum < 2 ^ 16

pub through_memory :
    (k x : ℕ) → x < 256 ^ k → byte_swap k (value_le (bytes_le k (byte_swap k x))) ≡ x
through_memory k x h =
    rw (value_le-bytes_le k (byte_swap k x) (byte_swap-lt k x)) (byte_swap-byte_swap k x h)

-- Decoding the bytes of a header whose fields have their widths gives back the header, whatever
-- bytes follow.
pub decode_header-encode_header :
    (h : NetsimPktHdr) (rest : List ℕ) → FitsHeader h → decode_header (encode_header h rest) ≡ h
unfolding decode_header encode_header
decode_header-encode_header h rest f = λ i. record {
  len = through_memory 2 h.len f.len_fits i;
  msg_type = through_memory 2 h.msg_type f.msg_type_fits i;
  interface_version = through_memory 4 h.interface_version f.interface_version_fits i;
  node_id = through_memory 8 h.node_id f.node_id_fits i;
  cksum = through_memory 2 h.cksum f.cksum_fits i;
}

-- A store into the checksum field changes that field alone.
pub store_cksum-encode_header :
    (h : NetsimPktHdr) (v : ℕ) (rest : List ℕ)
    → store_cksum (htons v) (encode_header h rest) ≡ encode_header (record h { cksum = v }) rest
unfolding store_cksum encode_header
store_cksum-encode_header h v rest = refl

pub length-encode_header :
    (h : NetsimPktHdr) (rest : List ℕ) → length (encode_header h rest) ≡ hdr_size + length rest
unfolding encode_header
length-encode_header h rest = omega arith

-- The header of a built message, its checksum still to come.
abbrev pub blank_header : ℕ → ℕ → List ℕ → NetsimPktHdr
blank_header msg_type node_id payload = record {
  len = hdr_size + length payload;
  msg_type = msg_type;
  interface_version = netsim_interface_version;
  node_id = node_id;
  cksum = 0;
}

abbrev pub full_header : ℕ → ℕ → List ℕ → NetsimPktHdr
full_header msg_type node_id payload = record (blank_header msg_type node_id payload) {
  cksum = generate_checksum (encode_header (blank_header msg_type node_id payload) payload);
}

pub build_lem :
    (msg_type node_id : ℕ) (payload : List ℕ)
    → build msg_type node_id payload ≡ encode_header (full_header msg_type node_id payload) payload
unfolding build
build_lem msg_type node_id payload =
    store_cksum-encode_header (blank_header msg_type node_id payload)
      (generate_checksum (encode_header (blank_header msg_type node_id payload) payload)) payload

pub length-build :
    (msg_type node_id : ℕ) (payload : List ℕ)
    → length (build msg_type node_id payload) ≡ hdr_size + length payload
length-build msg_type node_id payload =
    ap length (build_lem msg_type node_id payload)
    ∙ length-encode_header (full_header msg_type node_id payload) payload

pub zero_swaps : htons 0 ≡ 0
unfolding byte_swap
zero_swaps = refl

-- Clearing the checksum field of a built message gives the bytes that the checksum was made of.
pub store_cksum-build :
    (msg_type node_id : ℕ) (payload : List ℕ)
    → store_cksum 0 (build msg_type node_id payload)
      ≡ encode_header (blank_header msg_type node_id payload) payload
store_cksum-build msg_type node_id payload = rw build_lem (
    ap (λ v. store_cksum v (encode_header (full_header msg_type node_id payload) payload))
      (sym zero_swaps)
    ∙ store_cksum-encode_header (full_header msg_type node_id payload) 0 payload)

-- Every message that the simulator builds says its own length, type, node and the interface
-- version in its header, and verifies: clearing the checksum field and computing the checksum
-- again gives the value of the field.
pub build_verifies :
    (msg_type node_id : ℕ) (payload : List ℕ)
    → msg_type < 2 ^ 16
    → node_id < 2 ^ 64
    → hdr_size + length payload < 2 ^ 16
    → let msg = build msg_type node_id payload in
      let h = decode_header msg in
      (h.len ≡ length msg)
      × (h.msg_type ≡ msg_type)
      × (h.interface_version ≡ netsim_interface_version)
      × (h.node_id ≡ node_id)
      × (generate_checksum (store_cksum 0 msg) ≡ h.cksum)
build_verifies msg_type node_id payload ht hn hl =
    let e = decoded in
    (
      ap (λ h. h.len) e ∙ sym (length-build msg_type node_id payload),
      ap (λ h. h.msg_type) e,
      ap (λ h. h.interface_version) e,
      ap (λ h. h.node_id) e,
      ap generate_checksum (store_cksum-build msg_type node_id payload) ∙ sym (ap (λ h. h.cksum) e),
    )
  where
    fits : FitsHeader (full_header msg_type node_id payload)
    fits = record {
      len_fits = hl;
      msg_type_fits = ht;
      interface_version_fits = omega arith;
      node_id_fits = hn;
      cksum_fits = generate_checksum-lt _;
    }

    decoded : decode_header (build msg_type node_id payload) ≡ full_header msg_type node_id payload
    decoded =
        ap decode_header (build_lem msg_type node_id payload)
        ∙ decode_header-encode_header (full_header msg_type node_id payload) payload fits
