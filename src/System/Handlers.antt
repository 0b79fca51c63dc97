-- ===== src/System/Handlers.antt =====
-- Every message of a node, whatever it holds, keeps the medium well, unless it deletes a node that
-- waits for an answer or transmits.
use x6losim.Prelude.{
  ℕ, suc, ◌≡◌, refl, sym, subst, ap, ◌∙◌, ◌⊎◌, inl, inr, List, [], ◌∷◌, ◌++◌, true, none, some,
  ◌==◌, ==_iff, Bool-cases, drop,
}
use x6losim.Prelude.Fault.{Fault, Result, ok, fail}
use x6losim.Wire.{reg_con, dereg_req, cca_req, tx_data_ind, msg_code, deregistration_confirm}
use x6losim.Packet.{new_packet}
use x6losim.Store.{
  Medium, Kernel, DeviceNode, NodeState, registering, active, transmitting, update, put_node,
}
use x6losim.Store.Heap.{update_self}
use x6losim.Store.Returns.{after_deref, after_lift, taken, pure_returns}
use x6losim.Membership.{erase_key, deregister_node}
use x6losim.Node.{
  strncpy, handle_registration_confirm, handle_deregistration_request, handle_cca_request,
  handle_data_indication,
}
use x6losim.Node.Registration.{
  HasNames, handle_registration_confirm_lem, handle_registration_confirm_refused,
}
use x6losim.Node.Requests.{
  IsMember, handle_cca_request_lem, handle_cca_request_transmitting, handle_cca_request_refused,
  handle_deregistration_request_lem, handle_deregistration_request_listed, deregister_node_lem,
  deregister_listed,
}
use x6losim.Node.Transmission.{
  state_tx_request_returns, handle_data_indication_lem, handle_data_indication_refused,
}
use x6losim.Reader.{Recv, dispatch, read_msg}
use x6losim.Reader.Effects.{ignored, counted, dispatched, read_msg_effect}
use x6losim.System.{IsRegistering, IsActive, IsTransmitting, IsWell}
use x6losim.System.Maps.{contains_key_of_some, contains_key_of_none}
use x6losim.System.Change.{as_state, registered}
use x6losim.System.Similar.{Same, one_node_at, similar-IsWell, unlinked}
use x6losim.System.Requests.{asked-IsWell, confirmed-IsWell, sending-IsWell}
use x6losim.System.Membership.{IsIdle, left-IsWell, unlisted-IsWell}

-- What is known of the result of a call holds of the state in which it returned.
pub result :
    (P : Medium → Type 0) {r : Result (Unit {0} × Medium)} (v : Medium) {w' : Medium}
    → r ≡ ok (tt, v)
    → r ≡ ok (tt, w')
    → P v
    → P w'
result P v {w'} e h = let same : v ≡ w' = cc in subst P same

cannot_return :
    {r : Result (Unit {0} × Medium)} {w' : Medium} {f : Fault} → r ≡ fail f → r ≡ ok (tt, w') → ⊥
cannot_return e h = cc

-- The state of a node, with the equation.
pub state_cases : (s : NodeState) → (s ≡ registering) ⊎ (s ≡ active) ⊎ (s ≡ transmitting)
state_cases registering = inl refl
state_cases active = inr (inl refl)
state_cases transmitting = inr (inr refl)

counted_node : (n : DeviceNode) → Same n (record n { failed_reads = suc n.failed_reads })
counted_node n = record {
  same_socket = refl;
  same_state = refl;
  same_medium = refl;
  same_reg_timer = refl;
  same_tx_timer = refl;
  keeps_packet = λ pkt e. (pkt, e);
}

-- Nothing on the request lists points to the node, or it is still there afterwards.
abbrev pub Orderly : ℕ → Medium → Medium → Type 0
Orderly p w w' = IsIdle w p ⊎ ((n : DeviceNode) × (w'.heap p ≡ some n))

tidy_leaver : (p : ℕ) (w w' : Medium) → Orderly p w w' → w'.heap p ≡ none → IsIdle w p
tidy_leaver p w w' (inl idle) gone = idle
tidy_leaver p w w' (inr (n, e)) gone = cc

module _ (w : Medium) (h : IsWell w) (p : ℕ) where
  confirm-IsWell :
      (msg : List ℕ) {w' : Medium} → handle_registration_confirm p msg w ≡ ok (tt, w') → IsWell w'
  unfolding handle_registration_confirm
  confirm-IsWell msg g =
      let (n, e, g₁) = after_deref p _ w g in
      let (os, a, g₂) = after_lift (strncpy 32 (drop 18 msg)) _ w g₁ in
      let (os_version, b, g₃) = after_lift (strncpy 32 (drop 50 msg)) _ w g₂ in
      let names : HasNames msg os os_version = record { first_name = a; second_name = b } in
      elim (state_cases n.cur_state) [
        | inl st ↦
            let i : IsRegistering w p n = as_state w h p n e registering st in
            result IsWell _
              (handle_registration_confirm_lem p n w msg os os_version e names st i.has_medium
                (contains_key_of_some n.socket p w.reg_list_map i.listed))
              g (confirmed-IsWell w h p n e os os_version st)
        | inr st ↦ absurd (
            cannot_return (handle_registration_confirm_refused p n w msg os os_version e names st)
              g)
      ]

  data_indication-IsWell :
      (k : Kernel) (msg : List ℕ) {w' : Medium}
      → handle_data_indication k p msg w ≡ ok (tt, w')
      → IsWell w'
  unfolding handle_data_indication
  data_indication-IsWell k msg g =
      let (n, e, g₁) = after_deref p _ w g in
      let (pkt, built, g₂) = after_lift (new_packet msg p) _ w g₁ in
      elim (state_cases n.cur_state) [
        | inl st ↦
            absurd
              (cannot_return (handle_data_indication_refused k p n w msg pkt e built (inl st)) g)
        | inr (inl st) ↦
            let i : IsActive w p n = as_state w h p n e active st in
            result IsWell _
              (handle_data_indication_lem k p n w msg pkt e built
                (state_tx_request_returns k p pkt w n.cur_state st g₂) i.has_medium i.tx_rests st)
              g (sending-IsWell w h p n e pkt st)
        | inr (inr st) ↦
            absurd
              (cannot_return (handle_data_indication_refused k p n w msg pkt e built (inr st)) g)
      ]

  cca_request-IsWell : {w' : Medium} → handle_cca_request p w ≡ ok (tt, w') → IsWell w'
  unfolding handle_cca_request
  cca_request-IsWell g =
      let (n, e, _) = after_deref p _ w g in
      elim (state_cases n.cur_state) [
        | inl st ↦
            let i : IsRegistering w p n = as_state w h p n e registering st in
            absurd (cannot_return (handle_cca_request_refused p n w e i.has_medium st) g)
        | inr (inl st) ↦
            let i : IsActive w p n = as_state w h p n e active st in
            result IsWell _ (handle_cca_request_lem p n w e i.has_medium st) g
              (asked-IsWell w h p n e (inl st))
        | inr (inr st) ↦
            let i : IsTransmitting w p n = as_state w h p n e transmitting st in
            result IsWell _ (handle_cca_request_transmitting p n w e i.has_medium st) g
              (asked-IsWell w h p n e (inr st))
      ]

  pub member :
      (n : DeviceNode)
      → w.heap p ≡ some n
      → (n.cur_state ≡ active) ⊎ (n.cur_state ≡ transmitting)
      → n.has_medium ≡ true
      → IsMember p n w
  member n e st m = record {
    at_p = e;
    with_medium = m;
    not_registering = contains_key_of_none n.socket w.reg_list_map (registered w h p n e st).0;
    registered = contains_key_of_some n.socket p w.node_hash_map (registered w h p n e st).1;
  }

  has_medium :
      (n : DeviceNode)
      → w.heap p ≡ some n
      → (n.cur_state ≡ active) ⊎ (n.cur_state ≡ transmitting)
      → n.has_medium ≡ true
  has_medium n e (inl st) = let i : IsActive w p n = as_state w h p n e active st in i.has_medium
  has_medium n e (inr st) =
      let i : IsTransmitting w p n = as_state w h p n e transmitting st in i.has_medium

  deregistration_request-IsWell :
      {w' : Medium} → Orderly p w w' → handle_deregistration_request p w ≡ ok (tt, w') → IsWell w'
  unfolding handle_deregistration_request
  deregistration_request-IsWell {w'} orderly g =
      let (n, e, _) = after_deref p _ w g in
      elim (state_cases n.cur_state) [
        | inl st ↦
            let i : IsRegistering w p n = as_state w h p n e registering st in
            let v : Medium = record w {
              heap = update w.heap p none;
              reg_list_map = erase_key n.socket w.reg_list_map;
            } in
            let v' : Medium = record v {
              sent = w.sent ++ (p, deregistration_confirm n.socket) ∷ [];
            } in
            result IsWell v'
              (handle_deregistration_request_listed p n w e i.has_medium
                (contains_key_of_some n.socket p w.reg_list_map i.listed))
              g (unlinked v v' refl refl refl refl (λ q a. a) (unlisted-IsWell w h p n e st))
        | inr st ↦
            let v : Medium = record w {
              heap = update w.heap p none;
              node_hash_map = erase_key n.socket w.node_hash_map;
            } in
            let v' : Medium = record v {
              sent = w.sent ++ (p, deregistration_confirm n.socket) ∷ [];
            } in
            let done =
              handle_deregistration_request_lem p n w (member n e st (has_medium n e st)) in
            let gone : w'.heap p ≡ none =
              result (λ x. x.heap p ≡ none) v' done g (update_self w.heap p none) in
            result IsWell v' done g (
              unlinked v v' refl refl refl refl (λ q a. a)
                (left-IsWell w h p n e st (tidy_leaver p w w' orderly gone)))
      ]

  pub deregister-IsWell : {w' : Medium} → IsIdle w p → deregister_node p w ≡ ok (tt, w') → IsWell w'
  unfolding deregister_node
  deregister-IsWell idle g =
      let (n, e, _) = after_deref p _ w g in
      elim (state_cases n.cur_state) [
        | inl st ↦
            let i : IsRegistering w p n = as_state w h p n e registering st in
            result IsWell _
              (deregister_listed p n w e (contains_key_of_some n.socket p w.reg_list_map i.listed))
              g (unlisted-IsWell w h p n e st)
        | inr st ↦
            result IsWell _ (deregister_node_lem p n w (member n e st (has_medium n e st))) g
              (left-IsWell w h p n e st idle)
      ]

  dispatch-IsWell :
      (k : Kernel) (msg_type : ℕ) (msg : List ℕ) {w' : Medium}
      → Orderly p w w'
      → dispatch k p msg_type msg w ≡ ok (tt, w')
      → IsWell w'
  unfolding dispatch
  dispatch-IsWell k msg_type msg {w'} orderly g =
      elim (taken (msg_type == msg_code reg_con) _ _ w g) [
        | inl g₁ ↦ confirm-IsWell msg g₁
        | inr g₁ ↦ elim (taken (msg_type == msg_code dereg_req) _ _ w g₁) [
          | inl g₂ ↦ deregistration_request-IsWell orderly g₂
          | inr g₂ ↦ elim (taken (msg_type == msg_code cca_req) _ _ w g₂) [
            | inl g₃ ↦ cca_request-IsWell g₃
            | inr g₃ ↦ elim (taken (msg_type == msg_code tx_data_ind) _ _ w g₃) [
              | inl g₄ ↦ data_indication-IsWell k msg g₄
              | inr g₄ ↦ subst IsWell (sym (pure_returns tt w g₄)) h
            ]
          ]
        ]
      ]

  -- Whatever a node of a well medium sends: where `readMsg` returns, the medium is well again, unless
  -- the node was on a request list and has been deleted.
  pub read_msg-IsWell :
      (k : Kernel) (first second : Recv) (junk : ℕ → ℕ) {w' : Medium}
      → Orderly p w w'
      → read_msg k p first second junk w ≡ ok (tt, w')
      → IsWell w'
  read_msg-IsWell k first second junk {w'} orderly g =
      elim (read_msg_effect k p first second junk w w' g) [
        | ignored same ↦ subst IsWell (sym same) h
        | counted n e same ↦ subst IsWell (sym same) (counted-IsWell n e)
        | dispatched t msg done ↦ dispatch-IsWell k t msg orderly done
      ]
    where
      counted-IsWell :
          (n : DeviceNode)
          → w.heap p ≡ some n
          → IsWell (put_node p (record n { failed_reads = suc n.failed_reads }) w)
      counted-IsWell n e =
          let n' : DeviceNode = record n { failed_reads = suc n.failed_reads } in
          similar-IsWell w (put_node p n' w)
            (record {
              still_gone = λ q f. elim (Bool-cases (p == q)) [
                | inl same ↦
                    let here : w.heap q ≡ some n = ap w.heap (sym ((==_iff p q).0 same)) ∙ e in cc
                | inr other ↦ rw other f
              ];
              still_there = λ q m f. elim (Bool-cases (p == q)) [
                | inl same ↦
                    let here : w.heap q ≡ some n = ap w.heap (sym ((==_iff p q).0 same)) ∙ e in
                    let it : n ≡ m = cc in
                    (n', rw same refl, subst (λ x. Same x n') it (counted_node n))
                | inr other ↦ (m, rw other f, one_node_at m)
              ];
              same_listed = refl;
              same_mapped = refl;
              same_sending = refl;
              no_new_asking = λ q a. a;
            })
            h
