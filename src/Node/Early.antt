-- ===== src/Node/Early.antt =====
-- A registration confirm that the medium's thread reads while another thread is in `addNode`.
use x6losim.Prelude.{ℕ, ◌≡◌, refl, ap, ◌∙◌, List, [], ◌∷◌, ◌++◌, true, false, some, ◌||◌, ==_refl}
use x6losim.Prelude.Fault.{ok, fail, asserted, null_pointer}
use x6losim.Wire.{registration_request}
use x6losim.Store.{
  Medium, Kernel, DeviceNode, registering, active, ◌>>=◌, ◌>>◌, >>-ok, >>-fail, >>=-fail, pure,
  deref, check, lift, update,
}
use x6losim.Store.Heap.{update_self}
use x6losim.Timer.{stop}
use x6losim.Membership.{contains_key, insert, erase_key, watch_node, add_node, register_node}
use x6losim.Node.{
  state_registration_confirm, transition, handle_registration_confirm, new_device_node,
}
use x6losim.Node.Registration.{HasNames, confirmed, handle_registration_confirm_lem}
use x6losim.Node.Transmission.{SetsTimers}
use x6losim.Node.Joining.{joined, new_device_node_lem, watch_node_lem, add_node_lem}

module _ (p : ℕ) (n : DeviceNode) (w : Medium) (e : w.heap p ≡ some n) (m : n.has_medium ≡ true)
    (c : contains_key n.socket w.reg_list_map ≡ false) where
  unlisted_confirm : state_registration_confirm registering p w ≡ fail asserted
  unfolding state_registration_confirm register_node
  unlisted_confirm =
      let n' : DeviceNode = record n { reg_timer = stop n.reg_timer } in
      let w' : Medium = record w { heap = update w.heap p (some n') } in
      let unlisted : register_node p w' ≡ fail asserted =
        rw (update_self w.heap p (some n'), deref, ◌>>=◌, c) refl in
      rw (e, deref, ◌>>=◌)
        (>>-ok (check n.has_medium null_pointer) (register_node p >> pure (some active)) {w = w'}
            (ap (λ b. check b null_pointer w') m)
          ∙ >>-fail (register_node p) (pure (some active)) {w = w'} unlisted)

unlisted_handler :
    (p : ℕ) (n : DeviceNode) (w : Medium) (msg os os_version : List ℕ)
    → w.heap p ≡ some n
    → n.has_medium ≡ true
    → contains_key n.socket w.reg_list_map ≡ false
    → n.cur_state ≡ registering
    → HasNames msg os os_version
    → handle_registration_confirm p msg w ≡ fail asserted
unfolding handle_registration_confirm
unlisted_handler p n w msg os os_version e m c st names =
    let n₁ : DeviceNode = record n { os = os; os_version = os_version } in
    let w₁ : Medium = record w { heap = update w.heap p (some n₁) } in
    rw (e, names.first_name, names.second_name, deref, lift, ◌>>=◌)
      (>>=-fail (state_registration_confirm n.cur_state p) (transition p) {w = w₁} (
        ap (λ x. state_registration_confirm x p w₁) st
        ∙ unlisted_confirm p n₁ w₁ (update_self w.heap p (some n₁)) m c))

inserted :
    (key p : ℕ) (m : List (ℕ × ℕ))
    → contains_key key m ≡ false
    → contains_key key (insert key p m) ≡ true
unfolding insert contains_key
inserted key p m c = rw c (ap (λ b. b || contains_key key m) (==_refl key))

-- A node that has got its registration request, with an identifier that is not on the registration
-- list. Where the medium's thread handles its confirmation when `addNode` has called `epoll_ctl`, but
-- before it has put the node on the list, the assertion of `registerNode` fails and ends the simulator.
-- The same confirmation behind `addNode` makes the node a member: it is active, in the map of nodes,
-- and not on the registration list.
pub early_confirm_aborts :
    (k : Kernel) (p socket sockfd : ℕ) (w : Medium) (msg os os_version : List ℕ)
    → SetsTimers k
    → k.epoll_ctl ≡ true
    → contains_key socket w.reg_list_map ≡ false
    → HasNames msg os os_version
    → ((new_device_node k p socket sockfd true
            >> (watch_node k p >> handle_registration_confirm p msg))
          w
        ≡ fail asserted)
      × ((w' : Medium) × ((new_device_node k p socket sockfd true
                >> (add_node k p >> handle_registration_confirm p msg))
              w
            ≡ ok (tt, w'))
          × (w'.heap p ≡ some (confirmed os os_version (joined socket sockfd)))
          × (w'.reg_list_map ≡ erase_key socket (insert socket p w.reg_list_map))
          × (w'.node_hash_map ≡ insert socket p w.node_hash_map))
early_confirm_aborts k p socket sockfd w msg os os_version sets adds c names =
    let n : DeviceNode = joined socket sockfd in
    let n₀ : DeviceNode = record n { has_medium = false } in
    let heap₁ = update w.heap p (some n₀) in
    let heap₂ = update heap₁ p (some n) in
    let w₁ : Medium = record w {
      sent = w.sent ++ (p, registration_request socket) ∷ [];
      heap = heap₁;
    } in
    let w₂ : Medium = record w₁ { heap = heap₂ } in
    let w₃ : Medium = record w₂ { reg_list_map = insert socket p w.reg_list_map } in
    let built = new_device_node_lem k p socket sockfd w sets in
    let there = update_self heap₁ p (some n) in
    let handler = handle_registration_confirm p msg in
    (
      >>-ok (new_device_node k p socket sockfd true) (watch_node k p >> handler) {w = w} built
          ∙ (>>-ok (watch_node k p) handler {w = w₁}
                (watch_node_lem k p n₀ w₁ (update_self w.heap p (some n₀)) adds)
              ∙ unlisted_handler p n w₂ msg os os_version there refl c refl names),
      (
        _,
        >>-ok (new_device_node k p socket sockfd true) (add_node k p >> handler) {w = w} built
            ∙ (>>-ok (add_node k p) handler {w = w₁}
                  (add_node_lem k p n₀ w₁ (update_self w.heap p (some n₀)) adds)
                ∙ handle_registration_confirm_lem p n w₃ msg os os_version there names refl refl
                    (inserted socket p w.reg_list_map c)),
        update_self heap₂ p (some (confirmed os os_version n)),
        refl,
        refl,
      ),
    )
