-- ===== src/Node/Transmission.antt =====
-- What a data indication does, in each state.
use x6losim.Prelude.{
  ℕ, ◌≡◌, refl, sym, ap, ◌∙◌, ◌⊎◌, inl, inr, List, [], ◌∷◌, ◌++◌, true, false, some, if◌then◌else◌,
}
use x6losim.Prelude.Fault.{ok, fail, thrown, null_pointer}
use x6losim.Packet.{NetSimPacket, new_packet, is_ack, get_time_on_wire}
use x6losim.Store.{
  Medium, Kernel, DeviceNode, NodeState, registering, active, transmitting, ◌>>=◌, ◌>>◌, >>-ok,
  >>=-ok, pure, deref, check, lift, update,
}
use x6losim.Store.Frame.{bind_returns}
use x6losim.Store.Returns.{after_deref, after_lift}
use x6losim.Store.Heap.{update_self, update-update}
use x6losim.Timer.{start_ms}
use x6losim.Timer.Laws.{start_ms_returns, armed, start_ms_lem}
use x6losim.Membership.{add_node_to_tx_list}
use x6losim.Node.{state_tx_request, transition, handle_data_indication}
use x6losim.Node.Registration.{transition_lem}

-- The milliseconds that a packet takes.
abbrev pub time_of : NetSimPacket → ℕ
time_of pkt = if is_ack pkt then 0 else get_time_on_wire pkt

-- The node while it transmits a packet.
abbrev pub sending : NetSimPacket → DeviceNode → DeviceNode
sending pkt n = record n {
  tx_timer = armed (time_of pkt) n.tx_timer;
  tx_pkt = some pkt;
  cur_state = transmitting;
}

-- The kernel sets up a timer.
pub record SetsTimers (k : Kernel) : Type 0 where
  pub creates : k.timer_create ≡ true
  pub sets : k.timer_settime ≡ true

module _ (k : Kernel) (p : ℕ) (n : DeviceNode) (w : Medium) (msg : List ℕ) (pkt : NetSimPacket)
    (e : w.heap p ≡ some n) (built : new_packet msg p ≡ ok pkt) where
  state_tx_request_lem :
      SetsTimers k
      → n.has_medium ≡ true
      → n.tx_timer.started ≡ false
      → state_tx_request k active p pkt w
        ≡ ok (
          some transmitting,
          record w {
            heap =
                update w.heap p (
                  some (record n { tx_timer = armed (time_of pkt) n.tx_timer; tx_pkt = some pkt }));
            tx_list = w.tx_list ++ p ∷ [];
          },
        )
  unfolding state_tx_request add_node_to_tx_list
  state_tx_request_lem sets m rests =
      let n' : DeviceNode = record n {
        tx_timer = armed (time_of pkt) n.tx_timer;
        tx_pkt = some pkt;
      } in
      let w' : Medium = record w { heap = update w.heap p (some n') } in
      rw
        (
          e,
          deref,
          ◌>>=◌,
          start_ms_lem k (time_of pkt) n.tx_timer sets.creates sets.sets rests,
          lift,
        )
        (>>-ok (check n.has_medium null_pointer) (add_node_to_tx_list p >> pure (some transmitting))
          {w = w'} (ap (λ b. check b null_pointer w') m))

  pub handle_data_indication_lem :
      SetsTimers k
      → n.has_medium ≡ true
      → n.tx_timer.started ≡ false
      → n.cur_state ≡ active
      → handle_data_indication k p msg w
        ≡ ok (
          tt,
          record w { heap = update w.heap p (some (sending pkt n)); tx_list = w.tx_list ++ p ∷ [] },
        )
  unfolding handle_data_indication
  handle_data_indication_lem sets m rests st =
      let n' : DeviceNode = record n {
        tx_timer = armed (time_of pkt) n.tx_timer;
        tx_pkt = some pkt;
      } in
      let w' : Medium = record w {
        heap = update w.heap p (some n');
        tx_list = w.tx_list ++ p ∷ [];
      } in
      let heaps = update-update w.heap p (some n') (some (sending pkt n)) in
      rw (e, built, deref, lift, ◌>>=◌)
        (>>=-ok (state_tx_request k n.cur_state p pkt) (transition p) {w = w}
            (ap (λ x. state_tx_request k x p pkt w) st ∙ state_tx_request_lem sets m rests)
          ∙ (transition_lem p transmitting n' w' (update_self w.heap p (some n'))
              ∙ (λ i. ok (tt, record w { heap = heaps i; tx_list = w.tx_list ++ p ∷ [] }))))

  pub handle_data_indication_refused :
      (n.cur_state ≡ registering) ⊎ (n.cur_state ≡ transmitting)
      → handle_data_indication k p msg w ≡ fail thrown
  unfolding handle_data_indication state_tx_request
  handle_data_indication_refused (inl st) = rw (e, built, deref, lift, ◌>>=◌, st) refl
  handle_data_indication_refused (inr st) = rw (e, built, deref, lift, ◌>>=◌, st) refl

-- A request that was granted has set up the timer.
pub state_tx_request_returns :
    (k : Kernel) (p : ℕ) (pkt : NetSimPacket) (w : Medium) (st : NodeState) {w' : Medium}
    → st ≡ active
    → (state_tx_request k st p pkt >>= λ s. transition p s) w ≡ ok (tt, w')
    → SetsTimers k
unfolding state_tx_request
state_tx_request_returns k p pkt w st {w'} e h =
    let (s, v, g, _) =
      bind_returns (state_tx_request k active p pkt w) (λ s. transition p s)
        (ap (λ x. (state_tx_request k x p pkt >>= λ s. transition p s) w) (sym e) ∙ h) in
    let (n, there, g₁) = after_deref p _ w g in
    let (t, started, _) = after_lift (start_ms k (time_of pkt) n.tx_timer) _ w g₁ in
    let (c, s) = start_ms_returns k (time_of pkt) n.tx_timer started in
    record { creates = c; sets = s }
