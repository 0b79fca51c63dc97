-- ===== src/Node/Requests.antt =====
-- What an active node's requests do.
use x6losim.Prelude.{ℕ, ◌≡◌, refl, [], ◌∷◌, ◌++◌, true, false, none, some}
use x6losim.Prelude.Fault.{ok, fail, thrown}
use x6losim.Wire.{deregistration_confirm}
use x6losim.Store.{Medium, DeviceNode, registering, active, transmitting, ◌>>=◌, deref, update}
use x6losim.Membership.{contains_key, erase_key, deregister_node, add_node_to_cca_list}
use x6losim.Node.{
  state_cca_request, state_deregistration_request, transition, handle_cca_request,
  handle_deregistration_request,
}

-- A registered node that is not on the registration list.
pub record IsMember (p : ℕ) (n : DeviceNode) (w : Medium) : Type 0 where
  pub at_p : w.heap p ≡ some n
  pub with_medium : n.has_medium ≡ true
  pub not_registering : contains_key n.socket w.reg_list_map ≡ false
  pub registered : contains_key n.socket w.node_hash_map ≡ true

pub handle_cca_request_lem :
    (p : ℕ) (n : DeviceNode) (w : Medium)
    → w.heap p ≡ some n
    → n.has_medium ≡ true
    → n.cur_state ≡ active
    → handle_cca_request p w ≡ ok (tt, record w { cca_list = w.cca_list ++ p ∷ [] })
unfolding handle_cca_request add_node_to_cca_list state_cca_request transition
handle_cca_request_lem p n w e m a = rw (e, deref, ◌>>=◌, m, a) refl

pub deregister_node_lem :
    (p : ℕ) (n : DeviceNode) (w : Medium)
    → IsMember p n w
    → deregister_node p w
      ≡ ok (
        tt,
        record w {
          node_hash_map = erase_key n.socket w.node_hash_map;
          heap = update w.heap p none;
        },
      )
unfolding deregister_node
deregister_node_lem p n w h = rw (h.at_p, deref, ◌>>=◌, h.not_registering, h.registered) refl

pub handle_deregistration_request_lem :
    (p : ℕ) (n : DeviceNode) (w : Medium)
    → IsMember p n w
    → handle_deregistration_request p w
      ≡ ok (
        tt,
        record w {
          node_hash_map = erase_key n.socket w.node_hash_map;
          heap = update w.heap p none;
          sent = w.sent ++ (p, deregistration_confirm n.socket) ∷ [];
        },
      )
unfolding handle_deregistration_request state_deregistration_request transition
handle_deregistration_request_lem p n w h =
    let w' : Medium = record w { sent = w.sent ++ (p, deregistration_confirm n.socket) ∷ [] } in
    let h' : IsMember p n w' = record {
      at_p = h.at_p;
      with_medium = h.with_medium;
      not_registering = h.not_registering;
      registered = h.registered;
    } in
    rw (h.at_p, deref, ◌>>=◌, h.at_p, h.with_medium, deregister_node_lem p n w' h') refl

-- A registered node and one that transmits are served alike.
pub handle_cca_request_transmitting :
    (p : ℕ) (n : DeviceNode) (w : Medium)
    → w.heap p ≡ some n
    → n.has_medium ≡ true
    → n.cur_state ≡ transmitting
    → handle_cca_request p w ≡ ok (tt, record w { cca_list = w.cca_list ++ p ∷ [] })
unfolding handle_cca_request add_node_to_cca_list state_cca_request transition
handle_cca_request_transmitting p n w e m a = rw (e, deref, ◌>>=◌, m, a) refl

pub handle_cca_request_refused :
    (p : ℕ) (n : DeviceNode) (w : Medium)
    → w.heap p ≡ some n
    → n.has_medium ≡ true
    → n.cur_state ≡ registering
    → handle_cca_request p w ≡ fail thrown
unfolding handle_cca_request add_node_to_cca_list state_cca_request
handle_cca_request_refused p n w e m a = rw (e, deref, ◌>>=◌, m, a) refl

-- A node that leaves before it is registered.
pub deregister_listed :
    (p : ℕ) (n : DeviceNode) (w : Medium)
    → w.heap p ≡ some n
    → contains_key n.socket w.reg_list_map ≡ true
    → deregister_node p w
      ≡ ok (
        tt,
        record w { reg_list_map = erase_key n.socket w.reg_list_map; heap = update w.heap p none },
      )
unfolding deregister_node
deregister_listed p n w e c = rw (e, deref, ◌>>=◌, c) refl

pub handle_deregistration_request_listed :
    (p : ℕ) (n : DeviceNode) (w : Medium)
    → w.heap p ≡ some n
    → n.has_medium ≡ true
    → contains_key n.socket w.reg_list_map ≡ true
    → handle_deregistration_request p w
      ≡ ok (
        tt,
        record w {
          reg_list_map = erase_key n.socket w.reg_list_map;
          heap = update w.heap p none;
          sent = w.sent ++ (p, deregistration_confirm n.socket) ∷ [];
        },
      )
unfolding handle_deregistration_request state_deregistration_request transition
handle_deregistration_request_listed p n w e m c =
    let w' : Medium = record w { sent = w.sent ++ (p, deregistration_confirm n.socket) ∷ [] } in
    rw (e, deref, ◌>>=◌, e, m, deregister_listed p n w' e c) refl
