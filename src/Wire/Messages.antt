-- ===== src/Wire/Messages.antt =====
-- The messages of a node, by their structs in src/x6losim_interface.h.
use x6losim.Prelude.{ℕ, ◌≡◌, List, [], ◌∷◌, ◌++◌, length, ◌%◌}
use x6losim.Wire.{build, msg_code, reg_con, dereg_req, cca_req, tx_data_ind, bytes_le, htons}

-- `node_to_netsim_registration_con_pkt` behind its header.
pub record RegistrationCon : Type 0 where
  pub os : List ℕ
  pub os_version : List ℕ

-- The widths of the two arrays.
pub record FitsRegistrationCon (m : RegistrationCon) : Type 0 where
  pub os_fits : length m.os ≡ 32
  pub os_version_fits : length m.os_version ≡ 32

-- `netsim_data_ind_pkt` behind its header; `pkt_data` is the frame.
pub record DataInd : Type 0 where
  pub source_addr : ℕ
  pub psdu_len : ℕ
  pub extra_hdr : ℕ
  pub rep_code : ℕ
  pub tx_power : ℕ
  pub cca_mode : ℕ
  pub rssi : ℕ
  pub pkt_data : List ℕ

-- The bytes that a node sends, with its header and checksum. Of the numbers behind the header the
-- simulator reads only `psdu_len`, in network order.
unfoldable pub registration_con : ℕ → RegistrationCon → List ℕ
unfolding build
registration_con node_id m = build (msg_code reg_con) node_id (m.os ++ m.os_version)

unfoldable pub deregistration_req : ℕ → List ℕ
unfolding build
deregistration_req node_id = build (msg_code dereg_req) node_id []

unfoldable pub cca_request : ℕ → List ℕ
unfolding build
cca_request node_id = build (msg_code cca_req) node_id []

unfoldable pub data_ind_payload : DataInd → List ℕ
unfolding bytes_le
data_ind_payload m =
    bytes_le 8 m.source_addr
    ++ (bytes_le 2 (htons m.psdu_len)
        ++ (bytes_le 2 m.extra_hdr
            ++ (m.rep_code % 256
                ∷ m.tx_power % 256
                ∷ m.cca_mode % 256
                ∷ m.rssi % 256
                ∷ m.pkt_data)))

unfoldable pub data_ind : ℕ → DataInd → List ℕ
unfolding build data_ind_payload
data_ind node_id m = build (msg_code tx_data_ind) node_id (data_ind_payload m)
