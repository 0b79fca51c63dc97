-- ===== src/Reader/Frame.antt =====
-- `readMsg` keeps every relation that the `Frame` of its node describes.
use x6losim.Prelude.{ℕ, suc, List, ◌==◌, leb, length, take, ◌-◌, not}
use x6losim.Prelude.Fault.{asserted, out_of_bounds}
use x6losim.Checksum.{generate_checksum}
use x6losim.Wire.{
  htons, field, decode_header, store_cksum, store_len, hdr_size, netsim_interface_version, reg_con,
  dereg_req, cca_req, tx_data_ind, msg_code,
}
use x6losim.Store.{Medium, Kernel, DeviceNode}
use x6losim.Store.Frame.{
  Keeps, Frame, bind-Keeps, then-Keeps, pure-Keeps, raise-Keeps, check-Keeps, deref-Keeps,
  store-Keeps,
}
use x6losim.Node.Frame.{
  if-Keeps, handle_registration_confirm-Keeps, handle_deregistration_request-Keeps,
  handle_cca_request-Keeps, handle_data_indication-Keeps,
}
use x6losim.Reader.{
  Recv, received, failed, eagain, malloc, receive_into, dispatch, count_failed_read, process_msg,
  read_body, read_msg,
}

module _ {p : ℕ} {R : Medium → Medium → Type 0} (fr : Frame p R) where
  dispatch-Keeps : (k : Kernel) (msg_type : ℕ) (msg : List ℕ) → Keeps R (dispatch k p msg_type msg)
  unfolding dispatch
  dispatch-Keeps k msg_type msg =
      if-Keeps fr (msg_type == msg_code reg_con) _ _ (handle_registration_confirm-Keeps fr msg) (
        if-Keeps fr (msg_type == msg_code dereg_req) _ _ (handle_deregistration_request-Keeps fr) (
          if-Keeps fr (msg_type == msg_code cca_req) _ _ (handle_cca_request-Keeps fr) (
            if-Keeps fr (msg_type == msg_code tx_data_ind) _ _
              (handle_data_indication-Keeps fr k msg) (pure-Keeps fr tt))))

  process_msg-Keeps :
      (k : Kernel) (n : DeviceNode) (len : ℕ) (buf : List ℕ) → Keeps R (process_msg k p n len buf)
  unfolding process_msg
  process_msg-Keeps k n len buf =
      let msg = store_len (htons len) (store_cksum 0 buf) in
      let h = decode_header msg in
      then-Keeps fr _ _ (check-Keeps fr (leb hdr_size len) out_of_bounds) (
        if-Keeps fr (not (generate_checksum msg == htons (field 16 2 buf))) _ _ (pure-Keeps fr tt) (
          then-Keeps fr _ _ (check-Keeps fr (h.node_id == n.socket) asserted) (
            if-Keeps fr (h.interface_version == netsim_interface_version) _ _
              (dispatch-Keeps k h.msg_type msg) (pure-Keeps fr tt))))

  read_body-Keeps :
      (k : Kernel) (n : DeviceNode) (len : ℕ) (second : Recv) (junk : ℕ → ℕ)
      → Keeps R (read_body k p n len second junk)
  unfolding read_body count_failed_read
  read_body-Keeps k n len failed junk = process_msg-Keeps k n len (malloc len junk)
  read_body-Keeps k n len (received bs) junk =
      then-Keeps fr _ _ (check-Keeps fr (leb 2 len) out_of_bounds) (
        if-Keeps fr (length (take (len - 2) bs) == eagain) _ _
          (store-Keeps fr (record n { failed_reads = suc n.failed_reads }))
          (process_msg-Keeps k n len (receive_into (take (len - 2) bs) (malloc len junk))))

  pub read_msg-Keeps :
      (k : Kernel) (first second : Recv) (junk : ℕ → ℕ) → Keeps R (read_msg k p first second junk)
  unfolding read_msg
  read_msg-Keeps k failed second junk =
      bind-Keeps fr _ _ (deref-Keeps fr p) (λ n. raise-Keeps fr asserted)
  read_msg-Keeps k (received bs) second junk =
      let len = field 0 2 (take 2 bs) in
      bind-Keeps fr _ _ (deref-Keeps fr p) (λ n.
        then-Keeps fr _ _ (check-Keeps fr (length (take 2 bs) == 2) asserted) (
          then-Keeps fr _ _ (check-Keeps fr (leb 8 len) asserted)
            (read_body-Keeps k n (htons len) second junk)))
