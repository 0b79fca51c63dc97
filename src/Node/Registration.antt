-- ===== src/Node/Registration.antt =====
-- What a registration confirm does, in each state.
use x6losim.Prelude.{ℕ, ◌≡◌, refl, ap, ◌∙◌, ◌⊎◌, inl, inr, List, true, some, drop}
use x6losim.Prelude.Fault.{ok, fail, thrown, null_pointer}
use x6losim.Store.{
  Medium, DeviceNode, NodeState, registering, active, transmitting, ◌>>=◌, ◌>>◌, >>-ok, >>=-ok,
  pure, deref, check, lift, update,
}
use x6losim.Store.Heap.{update_self, update-update}
use x6losim.Timer.{stop}
use x6losim.Membership.{contains_key, erase_key, insert, register_node}
use x6losim.Node.{strncpy, state_registration_confirm, transition, handle_registration_confirm}

pub transition_lem :
    (p : ℕ) (s : NodeState) (n : DeviceNode) (w : Medium)
    → w.heap p ≡ some n
    → transition p (some s) w
      ≡ ok (tt, record w { heap = update w.heap p (some (record n { cur_state = s })) })
unfolding transition
transition_lem p s n w e = rw (e, deref, ◌>>=◌) refl

-- The two names that the message holds, each at most 32 bytes.
pub record HasNames (msg os os_version : List ℕ) : Type 0 where
  pub first_name : strncpy 32 (drop 18 msg) ≡ ok os
  pub second_name : strncpy 32 (drop 50 msg) ≡ ok os_version

-- The node after its registration.
abbrev pub confirmed : List ℕ → List ℕ → DeviceNode → DeviceNode
confirmed os os_version n = record n {
  os = os;
  os_version = os_version;
  reg_timer = stop n.reg_timer;
  cur_state = active;
}

register_node_lem :
    (p : ℕ) (n : DeviceNode) (w : Medium)
    → w.heap p ≡ some n
    → contains_key n.socket w.reg_list_map ≡ true
    → register_node p w
      ≡ ok (
        tt,
        record w {
          reg_list_map = erase_key n.socket w.reg_list_map;
          node_hash_map = insert n.socket p w.node_hash_map;
        },
      )
unfolding register_node
register_node_lem p n w e c = rw (e, deref, ◌>>=◌, c) refl

state_registration_confirm_lem :
    (p : ℕ) (n : DeviceNode) (w : Medium)
    → w.heap p ≡ some n
    → n.has_medium ≡ true
    → contains_key n.socket w.reg_list_map ≡ true
    → state_registration_confirm registering p w
      ≡ ok (
        some active,
        record w {
          heap = update w.heap p (some (record n { reg_timer = stop n.reg_timer }));
          reg_list_map = erase_key n.socket w.reg_list_map;
          node_hash_map = insert n.socket p w.node_hash_map;
        },
      )
unfolding state_registration_confirm
state_registration_confirm_lem p n w e m c =
    let n' : DeviceNode = record n { reg_timer = stop n.reg_timer } in
    let w' : Medium = record w { heap = update w.heap p (some n') } in
    let registered = register_node_lem p n' w' (update_self w.heap p (some n')) c in
    rw (e, deref, ◌>>=◌)
      (>>-ok (check n.has_medium null_pointer) (register_node p >> pure (some active)) {w = w'}
          (ap (λ b. check b null_pointer w') m)
        ∙ >>-ok (register_node p) (pure (some active)) {w = w'} registered)

module _ (p : ℕ) (n : DeviceNode) (w : Medium) (msg os os_version : List ℕ) (e : w.heap p ≡ some n)
    (names : HasNames msg os os_version) where
  pub handle_registration_confirm_lem :
      n.cur_state ≡ registering
      → n.has_medium ≡ true
      → contains_key n.socket w.reg_list_map ≡ true
      → handle_registration_confirm p msg w
        ≡ ok (
          tt,
          record w {
            heap = update w.heap p (some (confirmed os os_version n));
            reg_list_map = erase_key n.socket w.reg_list_map;
            node_hash_map = insert n.socket p w.node_hash_map;
          },
        )
  unfolding handle_registration_confirm state_registration_confirm transition
  handle_registration_confirm_lem st m c =
      let n₁ : DeviceNode = record n { os = os; os_version = os_version } in
      let n₂ : DeviceNode = record n₁ { reg_timer = stop n.reg_timer } in
      let n₃ : DeviceNode = confirmed os os_version n in
      let heap₁ = update w.heap p (some n₁) in
      let heap₂ = update heap₁ p (some n₂) in
      let stepped =
        state_registration_confirm_lem p n₁ (record w { heap = heap₁ })
          (update_self w.heap p (some n₁)) m c in
      let heaps =
        update-update heap₁ p (some n₂) (some n₃) ∙ update-update w.heap p (some n₁) (some n₃) in
      rw (e, names.first_name, names.second_name, deref, lift, ◌>>=◌)
        (>>=-ok (state_registration_confirm n.cur_state p) (transition p)
            {w = record w { heap = heap₁ }}
            (ap (λ x. state_registration_confirm x p (record w { heap = heap₁ })) st ∙ stepped)
          ∙ (transition_lem p active n₂
                (record w {
                  heap = heap₂;
                  reg_list_map = erase_key n.socket w.reg_list_map;
                  node_hash_map = insert n.socket p w.node_hash_map;
                })
                (update_self heap₁ p (some n₂))
              ∙ (λ i. ok (
                tt,
                record w {
                  heap = heaps i;
                  reg_list_map = erase_key n.socket w.reg_list_map;
                  node_hash_map = insert n.socket p w.node_hash_map;
                },
              ))))

  pub handle_registration_confirm_refused :
      (n.cur_state ≡ active) ⊎ (n.cur_state ≡ transmitting)
      → handle_registration_confirm p msg w ≡ fail thrown
  unfolding handle_registration_confirm state_registration_confirm
  handle_registration_confirm_refused (inl st) =
      rw (e, names.first_name, names.second_name, deref, lift, ◌>>=◌, st) refl
  handle_registration_confirm_refused (inr st) =
      rw (e, names.first_name, names.second_name, deref, lift, ◌>>=◌, st) refl
