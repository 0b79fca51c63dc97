-- ===== src/Reader/Effects.antt =====
-- The three ways in which `readMsg` can return.
use x6losim.Prelude.{
  ℕ, suc, ◌-◌, ◌≡◌, sym, inl, inr, List, Bool, true, false, not, some, ◌==◌, leb, if◌then◌else◌,
  length, take,
}
use x6losim.Prelude.Fault.{ok, asserted, out_of_bounds}
use x6losim.Checksum.{generate_checksum}
use x6losim.Wire.{
  htons, field, decode_header, store_cksum, store_len, hdr_size, netsim_interface_version,
}
use x6losim.Store.{Medium, Kernel, DeviceNode, ◌>>◌, pure, check, raise, put_node}
use x6losim.Store.Returns.{taken, pure_returns, after_deref, after_check}
use x6losim.Reader.{
  Recv, received, failed, eagain, malloc, receive_into, dispatch, count_failed_read, process_msg,
  read_body, read_msg,
}

-- The message is ignored, the failure is counted, or the message is dispatched.
pub data Effect (k : Kernel) (p : ℕ) (w w' : Medium) : Type 0 where
  ignored : w' ≡ w → Effect k p w w'
  counted :
      (n : DeviceNode)
      → w.heap p ≡ some n
      → w' ≡ put_node p (record n { failed_reads = suc n.failed_reads }) w
      → Effect k p w w'
  dispatched :
      (msg_type : ℕ) (msg : List ℕ) → dispatch k p msg_type msg w ≡ ok (tt, w') → Effect k p w w'

module _ (k : Kernel) (p : ℕ) (w w' : Medium) (n : DeviceNode) (e : w.heap p ≡ some n) where
  process_msg_effect :
      (len : ℕ) (buf : List ℕ) → process_msg k p n len buf w ≡ ok (tt, w') → Effect k p w w'
  unfolding process_msg
  process_msg_effect len buf h =
      let msg = store_len (htons len) (store_cksum 0 buf) in
      let hd = decode_header msg in
      let (_, g) = after_check (leb hdr_size len) out_of_bounds _ w h in
      by_cksum hd.msg_type msg (not (generate_checksum msg == htons (field 16 2 buf)))
        (hd.node_id == n.socket) (hd.interface_version == netsim_interface_version) g
    where
      by_version :
          (t : ℕ) (m : List ℕ) (version : Bool)
          → (if version then dispatch k p t m else pure tt) w ≡ ok (tt, w')
          → Effect k p w w'
      by_version t m true h = dispatched t m h
      by_version t m false h = ignored (pure_returns tt w h)

      by_cksum :
          (t : ℕ) (m : List ℕ) (wrong mine version : Bool)
          → (if wrong
                then pure tt
                else (check mine asserted >> (if version then dispatch k p t m else pure tt)))
              w
            ≡ ok (tt, w')
          → Effect k p w w'
      by_cksum t m true mine version h = ignored (pure_returns tt w h)
      by_cksum t m false mine version h = by_version t m version (after_check mine asserted _ w h).1

  read_body_effect :
      (len : ℕ) (second : Recv) (junk : ℕ → ℕ)
      → read_body k p n len second junk w ≡ ok (tt, w')
      → Effect k p w w'
  unfolding read_body count_failed_read
  read_body_effect len failed junk h = process_msg_effect len (malloc len junk) h
  read_body_effect len (received bs) junk h =
      let body = take (len - 2) bs in
      let (_, g) = after_check (leb 2 len) out_of_bounds _ w h in
      elim (taken (length body == eagain) _ _ w g) [
        | inl counts ↦ counted n e (
            let done : put_node p (record n { failed_reads = suc n.failed_reads }) w ≡ w' = cc in
            sym done)
        | inr processes ↦ process_msg_effect len (receive_into body (malloc len junk)) processes
      ]

-- Where `readMsg` returns, it has ignored the message and changed nothing, or has counted a failed
-- read of its node and changed nothing else, or has done what the handler of some message does.
pub read_msg_effect :
    (k : Kernel) (p : ℕ) (first second : Recv) (junk : ℕ → ℕ) (w w' : Medium)
    → read_msg k p first second junk w ≡ ok (tt, w')
    → Effect k p w w'
unfolding read_msg
read_msg_effect k p failed second junk w w' h =
    let (n, e, g) = after_deref p (λ _. raise asserted) w h in cc
read_msg_effect k p (received bs) second junk w w' h =
    let len = field 0 2 (take 2 bs) in
    let (n, e, g) = after_deref p _ w h in
    let (_, g₁) = after_check (length (take 2 bs) == 2) asserted _ w g in
    let (_, g₂) = after_check (leb 8 len) asserted _ w g₁ in
    read_body_effect k p w w' n e (htons len) second junk g₂
