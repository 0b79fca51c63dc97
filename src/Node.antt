-- ===== src/Node.antt =====
-- The device node of src/sim/DeviceNode.cpp: its construction, its timers, the three classes of
-- `IDeviceNodeState`, and the handlers that delegate to the current state.
pub mod Frame
pub mod Requests
pub mod Early
pub mod Joining
pub mod Registration
pub mod Transmission
pub mod Release
use x6losim.Prelude.{
  ℕ, zero, suc, List, [], ◌∷◌, ◌++◌, Bool, true, false, Option, none, some, ◌==◌, if◌then◌else◌,
  length, replicate, take, drop,
}
use x6losim.Prelude.Fault.{
  Fault, Result, ok, fail, asserted, thrown, dangling, null_pointer, out_of_bounds,
}
use x6losim.Wire.{
  registration_request, deregistration_confirm, cca_confirm, tx_done_indication, tx_done_ok,
  tx_done_collided,
}
use x6losim.Packet.{NetSimPacket, new_packet, is_ack, get_time_on_wire}
use x6losim.Store.{
  Medium, M, ◌>>=◌, ◌>>◌, pure, raise, check, lift, modify, deref, store, put_node, delete,
  send_msg, Kernel, DeviceNode, Timer, NodeState, registering, active, transmitting,
}
use x6losim.Timer.{new_timer, start, start_ms, stop}
use x6losim.Membership.{register_node, deregister_node, add_node_to_cca_list, add_node_to_tx_list}

abbrev pub registration_time : ℕ
registration_time = 120

-- `DeviceNode(sockfd)` at address `p` with its socket at `socket`: the registration request goes out
-- whole, or the assertion on `sendMsg` fails, and the registration timer starts.
unfoldable pub new_device_node : Kernel → ℕ → ℕ → ℕ → Bool → M (Unit {0})
unfolding new_timer start
new_device_node k p socket sockfd sent_whole = do
  send_msg p (registration_request socket)
  check sent_whole asserted
  t ← lift (start k (new_timer registration_time 0))
  store p (record {
    socket = socket;
    sockfd = sockfd;
    has_medium = false;
    os = replicate 32 0;
    os_version = replicate 32 0;
    cur_state = registering;
    reg_timer = t;
    tx_timer = new_timer 0 0;
    tx_pkt = none;
    failed_reads = 0;
  })

-- `assert(pkt)`.
abbrev pub or_assert {ℓ} : {A : Type ℓ} → Option A → Result A
or_assert none = fail asserted
or_assert (some a) = ok a

-- The state classes. A handler returns the new state, or `none` for NULL.

unfoldable pub state_reg_timer_expired : NodeState → ℕ → M (Option NodeState)
state_reg_timer_expired registering p = do delete p; pure none
state_reg_timer_expired active p = raise thrown
state_reg_timer_expired transmitting p = raise thrown

-- The result is OK, and collided if the packet is marked so; the transmit timer stops.
unfoldable pub tx_result : NetSimPacket → NetSimPacket
tx_result pkt = record pkt {
  tx_done_result = if pkt.collision then tx_done_collided else tx_done_ok;
}

unfoldable pub state_tx_timer_expired : NodeState → ℕ → M (Option NodeState)
unfolding tx_result stop
state_tx_timer_expired registering p = raise thrown
state_tx_timer_expired active p = raise thrown
state_tx_timer_expired transmitting p = do
  n ← deref p
  pkt ← lift (or_assert n.tx_pkt)
  store p (record n { tx_pkt = some (tx_result pkt); tx_timer = stop n.tx_timer })
  pure (some active)

unfoldable pub state_registration_confirm : NodeState → ℕ → M (Option NodeState)
unfolding stop register_node
state_registration_confirm registering p = do
  n ← deref p
  store p (record n { reg_timer = stop n.reg_timer })
  check n.has_medium null_pointer
  register_node p
  pure (some active)
state_registration_confirm active p = raise thrown
state_registration_confirm transmitting p = raise thrown

-- All three classes do the same.
unfoldable pub state_deregistration_request : NodeState → ℕ → M (Option NodeState)
unfolding deregister_node
state_deregistration_request s p = do
  n ← deref p
  check n.has_medium null_pointer
  deregister_node p
  pure none

-- `TxState` declares `handleCcaRequest(DeviceNode &)`, which overrides nothing: a call without
-- argument reaches the base class, which returns NULL.
unfoldable pub state_cca_request : NodeState → ℕ → M (Option NodeState)
state_cca_request registering p = raise thrown
state_cca_request active p = pure none
state_cca_request transmitting p = pure none

unfoldable pub state_tx_request : Kernel → NodeState → ℕ → NetSimPacket → M (Option NodeState)
unfolding is_ack get_time_on_wire start_ms add_node_to_tx_list
state_tx_request k registering p pkt = raise thrown
state_tx_request k active p pkt = do
  n ← deref p
  t ← lift (start_ms k (if is_ack pkt then 0 else get_time_on_wire pkt) n.tx_timer)
  store p (record n { tx_timer = t; tx_pkt = some pkt })
  check n.has_medium null_pointer
  add_node_to_tx_list p
  pure (some transmitting)
state_tx_request k transmitting p pkt = raise thrown

-- What each handler does with the state that it gets: `exit` and `enter` are empty.
unfoldable pub transition : ℕ → Option NodeState → M (Unit {0})
transition p none = pure tt
transition p (some s) = do n ← deref p; store p (record n { cur_state = s })

unfoldable pub handle_reg_timer_expired : ℕ → M (Unit {0})
unfolding state_reg_timer_expired transition
handle_reg_timer_expired p = do
  n ← deref p
  s ← state_reg_timer_expired n.cur_state p
  transition p s

unfoldable pub handle_tx_timer_expired : ℕ → M (Unit {0})
unfolding state_tx_timer_expired transition
handle_tx_timer_expired p = do n ← deref p; s ← state_tx_timer_expired n.cur_state p; transition p s

-- `strncpy`: up to the first 0 or `n` bytes, then zeros; a source that ends before either is read
-- beyond its end.
unfoldable pub strncpy : ℕ → List ℕ → Result (List ℕ)
strncpy zero src = ok []
strncpy (suc n) [] = fail out_of_bounds
strncpy (suc n) (zero ∷ src) = ok (replicate (suc n) 0)
strncpy (suc n) (suc c ∷ src) =
    let rest = strncpy n src in elim rest [ ok bs ↦ ok (suc c ∷ bs) | fail e ↦ fail e ]

-- The names follow the header in the message.
unfoldable pub handle_registration_confirm : ℕ → List ℕ → M (Unit {0})
unfolding strncpy state_registration_confirm transition
handle_registration_confirm p reg_con = do
  n ← deref p
  os ← lift (strncpy 32 (drop 18 reg_con))
  os_version ← lift (strncpy 32 (drop 50 reg_con))
  store p (record n { os = os; os_version = os_version })
  s ← state_registration_confirm n.cur_state p
  transition p s

unfoldable pub handle_deregistration_request : ℕ → M (Unit {0})
unfolding state_deregistration_request transition
handle_deregistration_request p = do
  n ← deref p
  send_msg p (deregistration_confirm n.socket)
  s ← state_deregistration_request n.cur_state p
  transition p s

unfoldable pub handle_cca_request : ℕ → M (Unit {0})
unfolding add_node_to_cca_list state_cca_request transition
handle_cca_request p = do
  n ← deref p
  check n.has_medium null_pointer
  add_node_to_cca_list p
  s ← state_cca_request n.cur_state p
  transition p s

unfoldable pub handle_data_indication : Kernel → ℕ → List ℕ → M (Unit {0})
unfolding new_packet state_tx_request transition
handle_data_indication k p data_ind = do
  n ← deref p
  pkt ← lift (new_packet data_ind p)
  s ← state_tx_request k n.cur_state p pkt
  transition p s

-- `sendCcaConfirm` and `sendTxDoneIndication`; their callers do not look at `sendMsg`'s result.
unfoldable pub send_cca_confirm : ℕ → Bool → M (Unit {0})
send_cca_confirm p result = do n ← deref p; send_msg p (cca_confirm n.socket result)

unfoldable pub send_tx_done_indication : ℕ → ℕ → M (Unit {0})
send_tx_done_indication p result = do n ← deref p; send_msg p (tx_done_indication n.socket result)
