-- ===== src/Reader/Whole.antt =====
-- What `readMsg` does with a message that arrives whole.
use x6losim.Prelude.{
  ℕ, zero, suc, ◌+◌, ◌-◌, ◌%◌, ◌<◌, ◌≤◌, ◌≡◌, refl, ap, ◌∙◌, List, [], ◌∷◌, ◌++◌, true, false, not,
  some, ◌==◌, leb, if◌then◌else◌, length, take, drop, arith, length-drop,
}
use x6losim.Prelude.Fault.{asserted}
use x6losim.Checksum.{generate_checksum}
use x6losim.Wire.{
  htons, byte_swap, field, NetsimPktHdr, encode_header, store_cksum, store_len, hdr_size,
  netsim_interface_version,
}
use x6losim.Wire.Order.{value_le-bytes_le, byte_swap-lt, byte_swap-byte_swap}
use x6losim.Wire.Header.{
  FitsHeader, decode_header-encode_header, length-encode_header, through_memory,
}
use x6losim.Store.{Medium, deref, ◌>>=◌, ◌>>◌, pure, check, Kernel, DeviceNode}
use x6losim.Reader.{received, malloc, receive_into, dispatch, process_msg, read_body, read_msg}

length-malloc : (n : ℕ) (junk : ℕ → ℕ) → length (malloc n junk) ≡ n
unfolding malloc
length-malloc zero junk = refl
length-malloc (suc n) junk = ap suc (length-malloc n junk)

append-nil : (bs : List ℕ) → bs ++ [] ≡ bs
append-nil [] = refl
append-nil (b ∷ bs) = ap (◌∷◌ b) (append-nil bs)

drop_all : (n : ℕ) (bs : List ℕ) → length bs ≤ n → drop n bs ≡ []
drop_all zero [] h = refl
drop_all zero (b ∷ bs) h = absurd (omega arith)
drop_all (suc n) [] h = refl
drop_all (suc n) (b ∷ bs) h = drop_all n bs (omega arith)

take_all : (n : ℕ) (bs : List ℕ) → length bs ≤ n → take n bs ≡ bs
take_all zero [] h = refl
take_all zero (b ∷ bs) h = absurd (omega arith)
take_all (suc n) [] h = refl
take_all (suc n) (b ∷ bs) h = ap (◌∷◌ b) (take_all n bs (omega arith))

-- A full body fills the buffer behind its first two bytes.
receive_full :
    (n : ℕ) (bs : List ℕ) (junk : ℕ → ℕ)
    → length bs ≡ n
    → receive_into bs (malloc (suc (suc n)) junk) ≡ junk (suc n) ∷ junk n ∷ bs
unfolding receive_into malloc
receive_full n bs junk e =
    let none_left : drop (2 + length bs) (malloc (suc (suc n)) junk) ≡ [] =
      drop_all (2 + length bs) (malloc (suc (suc n)) junk) (omega (arith, length-malloc n junk)) in
    rw none_left (ap (λ r. junk (suc n) ∷ junk n ∷ r) (append-nil bs))

abbrev pub blanked : NetsimPktHdr → NetsimPktHdr
blanked h = record h { cksum = 0 }

-- The length and checksum stores give the message with its checksum field cleared.
prepared :
    (h : NetsimPktHdr) (payload : List ℕ) (a b : ℕ)
    → store_len (htons h.len) (store_cksum 0 (a ∷ b ∷ drop 2 (encode_header h payload)))
      ≡ encode_header (blanked h) payload
unfolding store_len store_cksum encode_header byte_swap
prepared h payload a b = refl

cksum_field :
    (h : NetsimPktHdr) (payload : List ℕ) (a b : ℕ)
    → FitsHeader h
    → htons (field 16 2 (a ∷ b ∷ drop 2 (encode_header h payload))) ≡ h.cksum
unfolding field encode_header
cksum_field h payload a b f = through_memory 2 h.cksum f.cksum_fits

blanked-FitsHeader : {h : NetsimPktHdr} → FitsHeader h → FitsHeader (blanked h)
blanked-FitsHeader f = record {
  len_fits = f.len_fits;
  msg_type_fits = f.msg_type_fits;
  interface_version_fits = f.interface_version_fits;
  node_id_fits = f.node_id_fits;
  cksum_fits = omega arith;
}

-- A message that says its own length gets through to the checks of its header.
process_full :
    (k : Kernel) (p : ℕ) (n : DeviceNode) (h : NetsimPktHdr) (payload : List ℕ) (a b : ℕ)
    (w : Medium)
    → FitsHeader h
    → h.len ≡ hdr_size + length payload
    → process_msg k p n h.len (a ∷ b ∷ drop 2 (encode_header h payload)) w
      ≡ (if not (generate_checksum (encode_header (blanked h) payload) == h.cksum)
            then pure tt
            else (check (h.node_id == n.socket) asserted
                >> (if h.interface_version == netsim_interface_version
                    then dispatch k p h.msg_type (encode_header (blanked h) payload)
                    else pure tt)))
          w
unfolding process_msg
process_full k p n h payload a b w f e = rw (
  prepared h payload a b,
  cksum_field h payload a b f,
  decode_header-encode_header (blanked h) payload (blanked-FitsHeader f),
  long_enough,
)
  where
    long_enough : leb hdr_size h.len ≡ true
    long_enough = ground arith

-- The first two bytes of an encoded header, as the host reads them.
pub raw_length :
    (h : NetsimPktHdr) (payload : List ℕ)
    → field 0 2 (take 2 (take 2 (encode_header h payload))) ≡ htons h.len
unfolding field encode_header
raw_length h payload = value_le-bytes_le 2 (htons h.len) (byte_swap-lt 2 h.len)

pub two_bytes :
    (h : NetsimPktHdr) (payload : List ℕ) → length (take 2 (take 2 (encode_header h payload))) ≡ 2
unfolding encode_header
two_bytes h payload = refl

length-body :
    (h : NetsimPktHdr) (payload : List ℕ)
    → h.len ≡ hdr_size + length payload
    → length (drop 2 (encode_header h payload)) ≡ h.len - 2
length-body h payload e =
    omega (arith, length-drop {0} 2 (encode_header h payload), length-encode_header h payload)

pub short_length : (len : ℕ) → len % 256 ≡ 0 → len < 2048 → leb 8 (htons len) ≡ false
unfolding byte_swap
short_length len round small = ground arith

read_whole :
    (k : Kernel) (p : ℕ) (n : DeviceNode) (h : NetsimPktHdr) (payload : List ℕ) (junk : ℕ → ℕ)
    (m : ℕ) (w : Medium)
    → h.len ≡ hdr_size + length payload
    → h.len ≡ suc (suc m)
    → read_body k p n h.len (received (drop 2 (encode_header h payload))) junk w
      ≡ process_msg k p n h.len (junk (suc m) ∷ junk m ∷ drop 2 (encode_header h payload)) w
unfolding read_body
read_whole k p n h payload junk m w e s =
    let l = length-body h payload e in
    let all : take (h.len - 2) (drop 2 (encode_header h payload))
        ≡ drop 2 (encode_header h payload) =
      take_all (h.len - 2) (drop 2 (encode_header h payload)) (omega arith) in
    let full : receive_into (drop 2 (encode_header h payload)) (malloc h.len junk)
        ≡ junk (suc m) ∷ junk m ∷ drop 2 (encode_header h payload) =
      ap (λ len. receive_into (drop 2 (encode_header h payload)) (malloc len junk)) s
      ∙ receive_full m (drop 2 (encode_header h payload)) junk (omega arith) in
    let fits : leb 2 h.len ≡ true = ground arith in
    let long : (length (drop 2 (encode_header h payload)) == 11) ≡ false = ground arith in
    rw (all, fits, long, full)

-- Everything that `readMsg` does with a message that arrives whole.
pub read_msg_lem :
    (k : Kernel) (p : ℕ) (n : DeviceNode) (h : NetsimPktHdr) (payload : List ℕ) (junk : ℕ → ℕ)
    (w : Medium)
    → FitsHeader h
    → h.len ≡ hdr_size + length payload
    → 8 ≤ htons h.len
    → w.heap p ≡ some n
    → read_msg k p
        (received (take 2 (encode_header h payload)))
        (received (drop 2 (encode_header h payload)))
        junk
        w
      ≡ (if not (generate_checksum (encode_header (blanked h) payload) == h.cksum)
            then pure tt
            else (check (h.node_id == n.socket) asserted
                >> (if h.interface_version == netsim_interface_version
                    then dispatch k p h.msg_type (encode_header (blanked h) payload)
                    else pure tt)))
          w
unfolding read_msg
read_msg_lem k p n h payload junk w f e big alive =
    let ok_length : leb 8 (htons h.len) ≡ true = ground arith in
    let back : htons (field 0 2 (take 2 (take 2 (encode_header h payload)))) ≡ h.len =
      ap htons (raw_length h payload) ∙ byte_swap-byte_swap 2 h.len f.len_fits in
    let s : h.len ≡ suc (suc (h.len - 2)) = omega arith in
    rw
      (alive, two_bytes h payload, raw_length h payload, deref, ◌>>=◌, ◌>>◌, check, ok_length, back)
      (read_whole k p n h payload junk (h.len - 2) w e s
        ∙ process_full k p n h payload (junk (suc (h.len - 2))) (junk (h.len - 2)) w f e)
