-- ===== src/Medium/Deregistered.antt =====
-- A node that leaves while the medium still points to it.
use x6losim.Prelude.{ℕ, ◌≡◌, refl, ◌∙◌, [], ◌∷◌, ◌++◌, false, none, ◌==◌, All, All-mono}
use x6losim.Prelude.Fault.{fail, dangling}
use x6losim.Wire.{deregistration_confirm}
use x6losim.Store.{Medium, DeviceNode, active, ◌>>◌, >>-ok, update}
use x6losim.Store.Heap.{update_self}
use x6losim.Membership.{erase_key}
use x6losim.Node.{handle_cca_request, handle_deregistration_request}
use x6losim.Node.Requests.{IsMember, handle_cca_request_lem, handle_deregistration_request_lem}
use x6losim.Medium.{process_cca_list}
use x6losim.Medium.Channel.{Alive, process_cca_list_dangling}

-- Another node that is alive.
abbrev pub Other : ℕ → Medium → ℕ → Type 0
Other p w q = ((p == q) ≡ false) × Alive w.heap q

-- An active and registered node that asks for a channel assessment and then deregisters, both
-- before the thread answers, is deleted but stays on the list: the thread follows the dangling
-- pointer. The nodes that asked before have to be others that are alive.
pub cca_then_deregistration :
    (p : ℕ) (n : DeviceNode) (w : Medium)
    → IsMember p n w
    → n.cur_state ≡ active
    → All (Other p w) w.cca_list
    → (handle_cca_request p >> (handle_deregistration_request p >> process_cca_list)) w
      ≡ fail dangling
cca_then_deregistration p n w h a others =
    let w₁ : Medium = record w { cca_list = w.cca_list ++ p ∷ [] } in
    let w₂ : Medium = record w₁ {
      node_hash_map = erase_key n.socket w.node_hash_map;
      heap = update w.heap p none;
      sent = w.sent ++ (p, deregistration_confirm n.socket) ∷ [];
    } in
    let h₁ : IsMember p n w₁ = record {
      at_p = h.at_p;
      with_medium = h.with_medium;
      not_registering = h.not_registering;
      registered = h.registered;
    } in
    >>-ok (handle_cca_request p) (handle_deregistration_request p >> process_cca_list) {w = w}
      (handle_cca_request_lem p n w h.at_p h.with_medium a)
    ∙ (>>-ok (handle_deregistration_request p) process_cca_list {w = w₁}
          (handle_deregistration_request_lem p n w₁ h₁)
        ∙ process_cca_list_dangling w₂ w.cca_list [] p refl (All-mono still_alive w.cca_list others)
            (update_self w.heap p none))
  where
    still_alive : (q : ℕ) → Other p w q → Alive (update w.heap p none) q
    still_alive q (d, (m, e)) = (m, rw (d, e) refl)
