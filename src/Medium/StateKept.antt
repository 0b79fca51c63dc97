-- ===== src/Medium/StateKept.antt =====
-- The routines that the thread calls leave the state of the medium alone.
use x6losim.Prelude.{
  ℕ, ◌≡◌, refl, ◌∙◌, List, [], ◌∷◌, Bool, true, false, Option, none, some, ltb, leb, length, suc,
  ◌+◌, take, drop, if◌then◌else◌, ◌==◌, ◌++◌,
}
use x6losim.Prelude.Fault.{asserted, out_of_bounds, ok}
use x6losim.Packet.{NetSimPacket, generate_packet_checksum, set_rssi, pktbuf_size}
use x6losim.Timer.{expired}
use x6losim.Wire.{cca_confirm, tx_done_ok, tx_done_collided, tx_done_failure}
use x6losim.Store.{
  Medium, MediumKind, NodeState, Kernel, powerline, wireless, registering, active, transmitting,
  modify, ◌>>◌, send_msg,
}
use x6losim.Store.Frame.{
  Frame, Keeps, bind-Keeps, then-Keeps, modify-Keeps, pure-Keeps, raise-Keeps, check-Keeps,
  deref-Keeps, lift-Keeps, store-Keeps, returned,
}
use x6losim.Node.{
  handle_tx_timer_expired, handle_reg_timer_expired, state_tx_timer_expired,
  state_reg_timer_expired, send_cca_confirm, send_tx_done_indication,
}
use x6losim.Node.Frame.{if-Keeps, at-Keeps, transition-Keeps}
use x6losim.Medium.{
  is_idle_state, or_null, cca_loop, process_cca_list, set_collided, collide_all, check_by_kind,
  tx_collision_check, tx_packet, account, finish_tx, tx_loop, process_tx_list, registration_loop,
  check_node_registration_timeout,
}

abbrev pub SameState : Medium → Medium → Type 0
SameState w w' = w'.state ≡ w.state

fr : (p : ℕ) → Frame p SameState
fr p = record {
  same = λ w. refl;
  next = λ a b. b ∙ a;
  changes_node = λ w n. refl;
  deletes_node = λ w. refl;
  sends = λ w msg. refl;
  asks_cca = λ w. refl;
  asks_tx = λ w. refl;
  changes_maps = λ w reg nodes. refl;
}

or_null-Keeps : {A : Type 0} (x : Option A) → Keeps SameState (or_null x)
or_null-Keeps none = raise-Keeps (fr 0) _
or_null-Keeps (some a) = pure-Keeps (fr 0) a

send_msg-Keeps : (p : ℕ) (msg : List ℕ) → Keeps SameState (send_msg p msg)
send_msg-Keeps p msg =
    modify-Keeps (fr p) (λ w. record w { sent = w.sent ++ (p, msg) ∷ [] }) (λ w. refl)

cca_loop-Keeps : (ps : List ℕ) → Keeps SameState (cca_loop ps)
unfolding cca_loop send_cca_confirm
cca_loop-Keeps [] = pure-Keeps (fr 0) tt
cca_loop-Keeps (p ∷ ps) =
    then-Keeps (fr p) _ _ (modify-Keeps (fr p) (λ w. record w { cca_list = ps }) (λ w. refl)) (
      at-Keeps (fr p) _ (λ v.
        then-Keeps (fr p) _ _
          (bind-Keeps (fr p) _ _ (deref-Keeps (fr p) p)
            (λ n. send_msg-Keeps p (cca_confirm n.socket (is_idle_state v.state))))
          (cca_loop-Keeps ps)))

pub process_cca_list-Keeps : Keeps SameState process_cca_list
unfolding process_cca_list
process_cca_list-Keeps = at-Keeps (fr 0) _ (λ v. cca_loop-Keeps v.cca_list)

collide_all-Keeps : (ps : List ℕ) → Keeps SameState (collide_all ps)
unfolding collide_all set_collided
collide_all-Keeps [] = pure-Keeps (fr 0) tt
collide_all-Keeps (p ∷ ps) =
    then-Keeps (fr p) _ _
      (bind-Keeps (fr p) _ _ (deref-Keeps (fr p) p)
        (λ n. bind-Keeps (fr p) _ _ (or_null-Keeps n.tx_pkt) (λ pkt. store-Keeps (fr p) _)))
      (collide_all-Keeps ps)

pub tx_collision_check-Keeps : Keeps SameState tx_collision_check
unfolding tx_collision_check check_by_kind
tx_collision_check-Keeps = at-Keeps (fr 0) _ (λ v. by_kind v.kind)
  where
    by_kind : (m : MediumKind) → Keeps SameState (check_by_kind m)
    by_kind powerline w w' a h = by_length (ltb 1 (length w.tx_list)) h
      where
        by_length :
            (b : Bool)
            → (if b then collide_all w.tx_list w else ok (tt, w)) ≡ ok (a, w')
            → w'.state ≡ w.state
        by_length true g = collide_all-Keeps w.tx_list w w' a g
        by_length false g = returned SameState {u = w} g refl
    by_kind wireless w w' a h = returned SameState {u = w} h refl

tx_packet-Keeps : (pkt : NetSimPacket) → Keeps SameState (tx_packet pkt)
unfolding tx_packet
tx_packet-Keeps pkt =
    let f = fr 0 in
    let out = generate_packet_checksum (set_rssi 127 pkt) in
    then-Keeps f _ _ (check-Keeps f (leb 34 (length pkt.pkt_buffer)) out_of_bounds) (
      then-Keeps f _ _
        (modify-Keeps f (λ w. record w { multicast = w.multicast ++ out.pkt_buffer ∷ [] })
          (λ w. refl))
        (then-Keeps f _ _
          (check-Keeps f (leb (34 + pktbuf_size out) (length out.pkt_buffer)) out_of_bounds)
          (modify-Keeps f
            (λ w. record w {
              dumped = w.dumped ++ take (pktbuf_size out) (drop 34 out.pkt_buffer) ∷ [];
            })
            (λ w. refl))))

account-Keeps : (r : ℕ) (pkt : NetSimPacket) → Keeps SameState (account r pkt)
unfolding account
account-Keeps r pkt =
    let f = fr 0 in
    if-Keeps f (r == tx_done_ok) _ _
      (then-Keeps f _ _ (tx_packet-Keeps pkt)
        (modify-Keeps f (λ w. record w { tx_pkts_ok = suc w.tx_pkts_ok }) (λ w. refl)))
      (if-Keeps f (r == tx_done_collided) _ _
        (modify-Keeps f (λ w. record w { tx_pkts_collided = suc w.tx_pkts_collided }) (λ w. refl))
        (if-Keeps f (r == tx_done_failure) _ _
          (modify-Keeps f (λ w. record w { tx_pkts_failed = suc w.tx_pkts_failed }) (λ w. refl))
          (raise-Keeps f _)))

handle_tx_timer_expired-Keeps : (p : ℕ) → Keeps SameState (handle_tx_timer_expired p)
unfolding handle_tx_timer_expired state_tx_timer_expired
handle_tx_timer_expired-Keeps p =
    bind-Keeps (fr p) _ _ (deref-Keeps (fr p) p)
      (λ n. bind-Keeps (fr p) _ _ (by_state n.cur_state) (transition-Keeps (fr p)))
  where
    by_state : (s : NodeState) → Keeps SameState (state_tx_timer_expired s p)
    by_state registering = raise-Keeps (fr p) _
    by_state active = raise-Keeps (fr p) _
    by_state transmitting = bind-Keeps (fr p) _ _ (deref-Keeps (fr p) p) (λ n.
        bind-Keeps (fr p) _ _ (lift-Keeps (fr p) _)
          (λ pkt. then-Keeps (fr p) _ _ (store-Keeps (fr p) _) (pure-Keeps (fr p) _)))

handle_reg_timer_expired-Keeps : (p : ℕ) → Keeps SameState (handle_reg_timer_expired p)
unfolding handle_reg_timer_expired state_reg_timer_expired
handle_reg_timer_expired-Keeps p =
    bind-Keeps (fr p) _ _ (deref-Keeps (fr p) p)
      (λ n. bind-Keeps (fr p) _ _ (by_state n.cur_state) (transition-Keeps (fr p)))
  where
    by_state : (s : NodeState) → Keeps SameState (state_reg_timer_expired s p)
    by_state registering =
        then-Keeps (fr p) _ _ (modify-Keeps (fr p) _ (fr p).deletes_node) (pure-Keeps (fr p) none)
    by_state active = raise-Keeps (fr p) _
    by_state transmitting = raise-Keeps (fr p) _

finish_tx-Keeps : (p : ℕ) → Keeps SameState (finish_tx p)
unfolding finish_tx send_tx_done_indication
finish_tx-Keeps p =
    let f = fr p in
    bind-Keeps f _ _ (deref-Keeps f p) (λ n. bind-Keeps f _ _ (lift-Keeps f _) (λ a.
      then-Keeps f _ _ (handle_tx_timer_expired-Keeps p) (
        bind-Keeps f _ _ (deref-Keeps f p) (λ n'. bind-Keeps f _ _ (or_null-Keeps n'.tx_pkt) (λ pkt.
          then-Keeps f _ _ (bind-Keeps f _ _ (deref-Keeps f p) (λ m. send_msg-Keeps p _)) (
            then-Keeps f _ _ (account-Keeps pkt.tx_done_result pkt)
              (bind-Keeps f _ _ (deref-Keeps f p) (λ m. store-Keeps f _))))))))

tx_loop-Keeps : (k : Kernel) (ps passed : List ℕ) → Keeps SameState (tx_loop k passed ps)
unfolding tx_loop
tx_loop-Keeps k [] passed = pure-Keeps (fr 0) tt
tx_loop-Keeps k (p ∷ ps) passed = bind-Keeps (fr p) _ _ (deref-Keeps (fr p) p) (λ n.
    bind-Keeps (fr p) _ _ (lift-Keeps (fr p) _)
      (by_done (tx_loop-Keeps k ps passed) (tx_loop-Keeps k ps (passed ++ p ∷ []))))
  where
    by_done :
        Keeps SameState (tx_loop k passed ps)
        → Keeps SameState (tx_loop k (passed ++ p ∷ []) ps)
        → (b : Bool)
        → Keeps SameState (elim b [
          | true ↦
              finish_tx p
              >> (modify (λ w. record w { tx_list = passed ++ ps }) >> tx_loop k passed ps)
          | false ↦ tx_loop k (passed ++ p ∷ []) ps
        ])
    by_done a b true = then-Keeps (fr p) _ _ (finish_tx-Keeps p) (
        then-Keeps (fr p) _ _
          (modify-Keeps (fr p) (λ w. record w { tx_list = passed ++ ps }) (λ w. refl)) a)
    by_done a b false = b

pub process_tx_list-Keeps : (k : Kernel) → Keeps SameState (process_tx_list k)
unfolding process_tx_list
process_tx_list-Keeps k = at-Keeps (fr 0) _ (λ v. tx_loop-Keeps k v.tx_list [])

registration_loop-Keeps :
    (k : Kernel) (es passed : List (ℕ × ℕ)) → Keeps SameState (registration_loop k passed es)
unfolding registration_loop
registration_loop-Keeps k [] passed = pure-Keeps (fr 0) tt
registration_loop-Keeps k ((key, p) ∷ es) passed =
    bind-Keeps (fr p) _ _ (deref-Keeps (fr p) p) (λ n.
      then-Keeps (fr p) _ _ (check-Keeps (fr p) (n.socket == key) asserted) (
        bind-Keeps (fr p) _ _ (lift-Keeps (fr p) (expired (k.reg_left p) n.reg_timer)) (
          by_late (registration_loop-Keeps k es passed)
            (registration_loop-Keeps k es (passed ++ (key, p) ∷ [])))))
  where
    by_late :
        Keeps SameState (registration_loop k passed es)
        → Keeps SameState (registration_loop k (passed ++ (key, p) ∷ []) es)
        → (b : Bool)
        → Keeps SameState (elim b [
          | true ↦
              modify (λ w. record w { reg_list_map = passed ++ es })
              >> (handle_reg_timer_expired p >> registration_loop k passed es)
          | false ↦ registration_loop k (passed ++ (key, p) ∷ []) es
        ])
    by_late a b true =
        then-Keeps (fr p) _ _
          (modify-Keeps (fr p) (λ w. record w { reg_list_map = passed ++ es }) (λ w. refl))
          (then-Keeps (fr p) _ _ (handle_reg_timer_expired-Keeps p) a)
    by_late a b false = b

pub check_node_registration_timeout-Keeps :
    (k : Kernel) → Keeps SameState (check_node_registration_timeout k)
unfolding check_node_registration_timeout
check_node_registration_timeout-Keeps k =
    at-Keeps (fr 0) _ (λ v. registration_loop-Keeps k v.reg_list_map [])
