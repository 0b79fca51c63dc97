-- ===== src/Node/Frame.antt =====
-- The handlers of a node keep every relation that its `Frame` describes.
use x6losim.Prelude.{drop, ℕ, List, Bool, true, false, Option, none, some, if◌then◌else◌}
use x6losim.Prelude.Fault.{asserted, null_pointer}
use x6losim.Packet.{NetSimPacket, is_ack, get_time_on_wire}
use x6losim.Timer.{start_ms}
use x6losim.Store.{Medium, M, Kernel, delete, NodeState, registering, active, transmitting}
use x6losim.Store.Frame.{
  Keeps, Frame, bind-Keeps, then-Keeps, modify-Keeps, pure-Keeps, raise-Keeps, check-Keeps,
  lift-Keeps, deref-Keeps, store-Keeps,
}
use x6losim.Membership.{
  contains_key, erase_key, register_node, deregister_node, add_node_to_cca_list,
  add_node_to_tx_list,
}
use x6losim.Node.{
  state_registration_confirm, state_deregistration_request, state_cca_request, state_tx_request,
  transition, strncpy, handle_registration_confirm, handle_deregistration_request,
  handle_cca_request, handle_data_indication,
}

module _ {p : ℕ} {R : Medium → Medium → Type 0} (fr : Frame p R) where
  pub at-Keeps :
      {A : Type 0} (g : Medium → M A) → ((v : Medium) → Keeps R (g v)) → Keeps R (λ w. g w w)
  at-Keeps g h w = h w w

  pub if-Keeps :
      {A : Type 0} (b : Bool) (m n : M A) → Keeps R m → Keeps R n → Keeps R (if b then m else n)
  if-Keeps true m n hm hn = hm
  if-Keeps false m n hm hn = hn

  register_node-Keeps : Keeps R (register_node p)
  unfolding register_node
  register_node-Keeps = bind-Keeps fr _ _ (deref-Keeps fr p) (λ n. at-Keeps _ (λ v.
      then-Keeps fr _ _ (check-Keeps fr _ _) (modify-Keeps fr _ (λ u. fr.changes_maps u _ _))))

  pub deregister_node-Keeps : Keeps R (deregister_node p)
  unfolding deregister_node
  deregister_node-Keeps = bind-Keeps fr _ _ (deref-Keeps fr p) (λ n. at-Keeps _ (λ v.
      if-Keeps (contains_key n.socket v.reg_list_map) _ _
        (then-Keeps fr _ _
          (modify-Keeps fr _
            (λ u. fr.changes_maps u (erase_key n.socket u.reg_list_map) u.node_hash_map))
          deleted)
        (then-Keeps fr _ _ (check-Keeps fr (contains_key n.socket v.node_hash_map) asserted) (
          then-Keeps fr _ _
            (modify-Keeps fr _
              (λ u. fr.changes_maps u u.reg_list_map (erase_key n.socket u.node_hash_map)))
            deleted))))
    where
      deleted : Keeps R (delete p)
      deleted = modify-Keeps fr _ fr.deletes_node

  pub transition-Keeps : (s : Option NodeState) → Keeps R (transition p s)
  unfolding transition
  transition-Keeps none = pure-Keeps fr tt
  transition-Keeps (some s) = bind-Keeps fr _ _ (deref-Keeps fr p) (λ n. store-Keeps fr _)

  state_registration_confirm-Keeps : (s : NodeState) → Keeps R (state_registration_confirm s p)
  unfolding state_registration_confirm
  state_registration_confirm-Keeps registering = bind-Keeps fr _ _ (deref-Keeps fr p) (λ n.
      then-Keeps fr _ _ (store-Keeps fr _) (
        then-Keeps fr _ _ (check-Keeps fr _ _)
          (then-Keeps fr _ _ register_node-Keeps (pure-Keeps fr _))))
  state_registration_confirm-Keeps active = raise-Keeps fr _
  state_registration_confirm-Keeps transmitting = raise-Keeps fr _

  state_deregistration_request-Keeps : (s : NodeState) → Keeps R (state_deregistration_request s p)
  unfolding state_deregistration_request
  state_deregistration_request-Keeps s = bind-Keeps fr _ _ (deref-Keeps fr p) (λ n.
      then-Keeps fr _ _ (check-Keeps fr _ _)
        (then-Keeps fr _ _ deregister_node-Keeps (pure-Keeps fr _)))

  state_cca_request-Keeps : (s : NodeState) → Keeps R (state_cca_request s p)
  unfolding state_cca_request
  state_cca_request-Keeps registering = raise-Keeps fr _
  state_cca_request-Keeps active = pure-Keeps fr _
  state_cca_request-Keeps transmitting = pure-Keeps fr _

  state_tx_request-Keeps :
      (k : Kernel) (s : NodeState) (pkt : NetSimPacket) → Keeps R (state_tx_request k s p pkt)
  unfolding state_tx_request add_node_to_tx_list
  state_tx_request-Keeps k registering pkt = raise-Keeps fr _
  state_tx_request-Keeps k active pkt = bind-Keeps fr _ _ (deref-Keeps fr p) (λ n.
      bind-Keeps fr _ _
        (lift-Keeps fr (start_ms k (if is_ack pkt then 0 else get_time_on_wire pkt) n.tx_timer))
        (λ t. then-Keeps fr _ _ (store-Keeps fr (record n { tx_timer = t; tx_pkt = some pkt })) (
          then-Keeps fr _ _ (check-Keeps fr n.has_medium null_pointer) (
            then-Keeps fr _ _ (modify-Keeps fr _ fr.asks_tx) (pure-Keeps fr (some transmitting))))))
  state_tx_request-Keeps k transmitting pkt = raise-Keeps fr _

  pub handle_registration_confirm-Keeps :
      (msg : List ℕ) → Keeps R (handle_registration_confirm p msg)
  unfolding handle_registration_confirm
  handle_registration_confirm-Keeps msg = bind-Keeps fr _ _ (deref-Keeps fr p) (λ n.
      bind-Keeps fr _ _ (lift-Keeps fr (strncpy 32 (drop 18 msg))) (λ os.
        bind-Keeps fr _ _ (lift-Keeps fr (strncpy 32 (drop 50 msg))) (λ os_version.
          then-Keeps fr _ _ (store-Keeps fr (record n { os = os; os_version = os_version }))
            (bind-Keeps fr _ _ (state_registration_confirm-Keeps n.cur_state) transition-Keeps))))

  pub handle_deregistration_request-Keeps : Keeps R (handle_deregistration_request p)
  unfolding handle_deregistration_request
  handle_deregistration_request-Keeps = bind-Keeps fr _ _ (deref-Keeps fr p) (λ n.
      then-Keeps fr _ _ (modify-Keeps fr _ (λ w. fr.sends w _))
        (bind-Keeps fr _ _ (state_deregistration_request-Keeps n.cur_state) transition-Keeps))

  pub handle_cca_request-Keeps : Keeps R (handle_cca_request p)
  unfolding handle_cca_request add_node_to_cca_list
  handle_cca_request-Keeps = bind-Keeps fr _ _ (deref-Keeps fr p) (λ n.
      then-Keeps fr _ _ (check-Keeps fr _ _) (
        then-Keeps fr _ _ (modify-Keeps fr _ fr.asks_cca)
          (bind-Keeps fr _ _ (state_cca_request-Keeps n.cur_state) transition-Keeps)))

  pub handle_data_indication-Keeps :
      (k : Kernel) (msg : List ℕ) → Keeps R (handle_data_indication k p msg)
  unfolding handle_data_indication
  handle_data_indication-Keeps k msg = bind-Keeps fr _ _ (deref-Keeps fr p) (λ n.
      bind-Keeps fr _ _ (lift-Keeps fr _)
        (λ pkt. bind-Keeps fr _ _ (state_tx_request-Keeps k n.cur_state pkt) transition-Keeps))
