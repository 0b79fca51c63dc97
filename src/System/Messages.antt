-- ===== src/System/Messages.antt =====
-- What the messages of a node do, from their bytes to the state of a medium that is well.
use x6losim.Prelude.{
  ℕ, subst, length-append, zero, suc, ◌+◌, ◌<◌, ◌^◌, ◌≡◌, refl, sym, ap, ◌∙◌, inl, List, [], ◌∷◌,
  ◌++◌, some, none, length, drop, take, replicate, true, false, arith, leb,
}
use mathlib.Core.List.{append-nil}
use x6losim.Prelude.Fault.{ok}
use x6losim.Wire.{
  hdr_size, reg_con, dereg_req, cca_req, tx_data_ind, msg_code, encode_header, bytes_le, byte_swap,
  htons, field, deregistration_confirm,
}
use x6losim.Wire.Header.{blank_header, through_memory, length-encode_header}
use x6losim.Wire.Messages.{
  RegistrationCon, FitsRegistrationCon, DataInd, registration_con, deregistration_req, cca_request,
  data_ind_payload, data_ind,
}
use x6losim.Packet.{NetSimPacket, new_packet, pktbuf_size}
use x6losim.Store.{Medium, Kernel, DeviceNode, registering, active, update}
use x6losim.Membership.{erase_key, insert}
use x6losim.Node.{strncpy}
use x6losim.Node.Registration.{HasNames, confirmed, handle_registration_confirm_lem}
use x6losim.Node.Transmission.{SetsTimers, sending, handle_data_indication_lem}
use x6losim.Node.Requests.{handle_cca_request_lem, handle_deregistration_request_lem}
use x6losim.Reader.{dispatch}
use x6losim.Reader.Built.{arrival, FitsReader, arrival-build}
use x6losim.System.{IsWell, IsRegistering, IsActive}
use x6losim.System.Maps.{contains_key_of_some}
use x6losim.System.Change.{as_state}
use x6losim.System.Handlers.{member}

-- A text in an array: its bytes up to the first 0, and zeros.
abbrev pub c_text : List ℕ → List ℕ
c_text [] = []
c_text (zero ∷ bs) = replicate (suc (length bs)) 0
c_text (suc c ∷ bs) = suc c ∷ c_text bs

strncpy_lem : (bs rest : List ℕ) → strncpy (length bs) (bs ++ rest) ≡ ok (c_text bs)
unfolding strncpy
strncpy_lem [] rest = refl
strncpy_lem (zero ∷ bs) rest = refl
strncpy_lem (suc c ∷ bs) rest = rw (strncpy_lem bs rest) refl

drop-append : (bs rest : List ℕ) → drop (length bs) (bs ++ rest) ≡ rest
drop-append [] rest = refl
drop-append (b ∷ bs) rest = drop-append bs rest

-- The names of the message, as the handler reads them.
names :
    (node_id : ℕ) (m : RegistrationCon)
    → FitsRegistrationCon m
    → HasNames
        (encode_header
          (blank_header (msg_code reg_con) node_id (m.os ++ m.os_version))
          (m.os ++ m.os_version))
        (c_text m.os)
        (c_text m.os_version)
unfolding encode_header bytes_le
names node_id m f = record {
  first_name =
      ap (λ l. strncpy l (m.os ++ m.os_version)) (sym f.os_fits) ∙ strncpy_lem m.os m.os_version;
  second_name =
      ap (λ l. strncpy 32 (drop l (m.os ++ m.os_version))) (sym f.os_fits)
      ∙ (ap (strncpy 32) (drop-append m.os m.os_version)
          ∙ (ap (λ l. strncpy l m.os_version) (sym f.os_version_fits)
              ∙ (ap (strncpy (length m.os_version)) (sym (append-nil m.os_version))
                  ∙ strncpy_lem m.os_version [])));
}

short_lengths : FitsReader 18 × FitsReader 82
unfolding byte_swap
short_lengths = (
  record { len_fits = omega arith; long_enough = omega arith },
  record { len_fits = omega arith; long_enough = omega arith },
)

-- The packet of a data indication: a copy of the message with its checksum field cleared.
abbrev pub packet_of : ℕ → ℕ → DataInd → NetSimPacket
packet_of p node_id m = record {
  pkt_buffer_len = hdr_size + length (data_ind_payload m);
  pkt_buffer =
      encode_header (blank_header (msg_code tx_data_ind) node_id (data_ind_payload m))
        (data_ind_payload m);
  from_node = p;
  collision = false;
  tx_done_result = 0;
}

take_all : (bs : List ℕ) → take (length bs) bs ≡ bs
take_all [] = refl
take_all (b ∷ bs) = ap (◌∷◌ b) (take_all bs)

-- The copy of a message that says its own length.
copied :
    (msg : List ℕ) (p : ℕ)
    → htons (field 0 2 msg) ≡ length msg
    → new_packet msg p
      ≡ ok (record {
        pkt_buffer_len = length msg;
        pkt_buffer = msg;
        from_node = p;
        collision = false;
        tx_done_result = 0;
      })
unfolding new_packet
copied msg p size =
    let whole : leb (length msg) (length msg) ≡ true = ground arith in
    rw (size, whole, take_all msg) refl

packet_built :
    (p node_id : ℕ) (m : DataInd)
    → hdr_size + length (data_ind_payload m) < 2 ^ 16
    → new_packet (packet_of p node_id m).pkt_buffer p ≡ ok (packet_of p node_id m)
unfolding field encode_header bytes_le
packet_built p node_id m f =
    let h = blank_header (msg_code tx_data_ind) node_id (data_ind_payload m) in
    let same : length (encode_header h (data_ind_payload m)) ≡ h.len =
      length-encode_header h (data_ind_payload m) in
    copied (encode_header h (data_ind_payload m)) p (through_memory 2 h.len f ∙ sym same)
    ∙ ap (λ l. ok (record (packet_of p node_id m) { pkt_buffer_len = l })) same

frame_length :
    (p node_id : ℕ) (m : DataInd)
    → m.psdu_len < 2 ^ 16
    → pktbuf_size (packet_of p node_id m) ≡ m.psdu_len
unfolding pktbuf_size field encode_header bytes_le data_ind_payload
frame_length p node_id m f = through_memory 2 m.psdu_len f

module _ (k : Kernel) (p : ℕ) (n : DeviceNode) (w : Medium) (junk : ℕ → ℕ) (h : IsWell w)
    (e : w.heap p ≡ some n) (id_fits : n.socket < 2 ^ 64) where
  -- The confirm of a node that is registering makes it a member: it is active, in the map of nodes under
  -- its identifier and no longer on the registration list, its registration timer is stopped, and it has
  -- the two names of the message, each up to its first 0. Nothing else changes.
  pub registration_con_arrives :
      (m : RegistrationCon)
      → FitsRegistrationCon m
      → n.cur_state ≡ registering
      → arrival k p (registration_con n.socket m) junk w
        ≡ ok (
          tt,
          record w {
            heap = update w.heap p (some (confirmed (c_text m.os) (c_text m.os_version) n));
            reg_list_map = erase_key n.socket w.reg_list_map;
            node_hash_map = insert n.socket p w.node_hash_map;
          },
        )
  unfolding registration_con dispatch
  registration_con_arrives m f st =
      let i : IsRegistering w p n = as_state w h p n e registering st in
      let size : 82 ≡ hdr_size + length (m.os ++ m.os_version) =
        omega (arith, length-append {0} m.os m.os_version, f.os_fits, f.os_version_fits) in
      arrival-build k p n (msg_code reg_con) (m.os ++ m.os_version) junk w e (omega arith) id_fits
        (subst FitsReader size short_lengths.1)
      ∙ handle_registration_confirm_lem p n w _ (c_text m.os) (c_text m.os_version) e
          (names n.socket m f) st i.has_medium
          (contains_key_of_some n.socket p w.reg_list_map i.listed)

  -- An active member's messages. A channel assessment request puts it at the end of the list of those
  -- that wait for an answer. A data indication puts it at the end of the list of transmissions, with its
  -- timer set and the packet that it sent, whose frame has the length that the message says. A
  -- deregistration request is confirmed, and deletes the node with its entry in the map. Nothing else
  -- changes.
  pub member_messages_arrive :
      n.cur_state ≡ active
      → SetsTimers k
      → (m : DataInd) → FitsReader (hdr_size + length (data_ind_payload m))
      → m.psdu_len < 2 ^ 16
      → (arrival k p (cca_request n.socket) junk w
          ≡ ok (tt, record w { cca_list = w.cca_list ++ p ∷ [] }))
        × (arrival k p (data_ind n.socket m) junk w
            ≡ ok (
              tt,
              record w {
                heap = update w.heap p (some (sending (packet_of p n.socket m) n));
                tx_list = w.tx_list ++ p ∷ [];
              },
            ))
        × (pktbuf_size (packet_of p n.socket m) ≡ m.psdu_len)
        × (arrival k p (deregistration_req n.socket) junk w
            ≡ ok (
              tt,
              record w {
                node_hash_map = erase_key n.socket w.node_hash_map;
                heap = update w.heap p none;
                sent = w.sent ++ (p, deregistration_confirm n.socket) ∷ [];
              },
            ))
  unfolding cca_request data_ind deregistration_req dispatch
  member_messages_arrive st sets m f frame =
      let i : IsActive w p n = as_state w h p n e active st in
      (
        arrival-build k p n (msg_code cca_req) [] junk w e (omega arith) id_fits short_lengths.0
            ∙ handle_cca_request_lem p n w e i.has_medium st,
        arrival-build k p n (msg_code tx_data_ind) (data_ind_payload m) junk w e (omega arith)
              id_fits f
            ∙ handle_data_indication_lem k p n w _ (packet_of p n.socket m) e
                (packet_built p n.socket m f.len_fits) sets i.has_medium i.tx_rests st,
        frame_length p n.socket m frame,
        arrival-build k p n (msg_code dereg_req) [] junk w e (omega arith) id_fits short_lengths.0
            ∙ handle_deregistration_request_lem p n w (member w h p n e (inl st) i.has_medium),
      )
