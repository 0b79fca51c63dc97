-- ===== src/Medium.antt =====
-- The work of the medium's thread, `PhysicalMedium` and its subclasses in
-- src/sim/PhysicalMedium.cpp: the events of the poller, the answers to channel assessments, the
-- collision check, and the lists of transmissions and registrations.
pub mod Construction
pub mod Destruction
pub mod Channel
pub mod Outgoing
pub mod Transmit
pub mod TxOutcome
pub mod TxList
pub mod Over
pub mod StateKept
pub mod Unblock
pub mod Single
pub mod Events
pub mod Deregistered
mod Tests
use x6losim.Prelude.{
  ℕ, zero, suc, ◌+◌, List, [], ◌∷◌, ◌++◌, Bool, true, false, not, ◌&&◌, Option, none, some, ◌==◌,
  leb, ltb, if◌then◌else◌, length, take, drop,
}
use x6losim.Prelude.Fault.{ok, fail, asserted, thrown, out_of_bounds, null_pointer}
use x6losim.Wire.{tx_done_ok, tx_done_collided, tx_done_failure}
use x6losim.Packet.{NetSimPacket, set_rssi, generate_packet_checksum, pktbuf_size}
use x6losim.Clock.{timespec_add_ms}
use x6losim.Store.{
  Medium, M, ◌>>=◌, ◌>>◌, pure, raise, check, lift, modify, deref, store, Kernel, DeviceNode,
  MediumKind, powerline, wireless, PhysicalMediumState, stopped, idle, tx_802514_frame, stopping,
}
use x6losim.Timer.{expired}
use x6losim.Membership.{deregister_node}
use x6losim.Node.{
  handle_reg_timer_expired, handle_tx_timer_expired, send_cca_confirm, send_tx_done_indication,
  or_assert,
}
use x6losim.Reader.{Recv, read_msg}

abbrev pub is_idle_state : PhysicalMediumState → Bool
is_idle_state idle = true
is_idle_state _ = false

abbrev pub is_stopping_state : PhysicalMediumState → Bool
is_stopping_state stopping = true
is_stopping_state _ = false

abbrev pub set_state : PhysicalMediumState → M (Unit {0})
set_state s = modify (λ w. record w { state = s })

-- `isIdle`.
unfoldable pub is_idle : Medium → Bool
is_idle w = is_idle_state w.state

-- The loop of `processCcaList`: the entry leaves the list before it is answered.
cca_loop : List ℕ → M (Unit {0})
cca_loop [] = pure tt
cca_loop (p ∷ rest) = do
  modify (λ w. record w { cca_list = rest })
  λ w. (send_cca_confirm p (is_idle_state w.state) >> cca_loop rest) w

pub process_cca_list : M (Unit {0})
unfolding cca_loop
process_cca_list w = cca_loop w.cca_list w

-- A packet pointer that is followed.
abbrev or_null : {A : Type 0} → Option A → M A
or_null none = raise null_pointer
or_null (some a) = pure a

-- `node->getTxPacket()->setCollided(true)`, through a packet that must be there.
set_collided : ℕ → M (Unit {0})
set_collided p = do
  n ← deref p
  pkt ← or_null n.tx_pkt
  store p (record n { tx_pkt = some (record pkt { collision = true }) })

collide_all : List ℕ → M (Unit {0})
unfolding set_collided
collide_all [] = pure tt
collide_all (p ∷ rest) = do set_collided p; collide_all rest

-- `txCollisionCheck`, by subclass: on the power line all that transmit at the same time collide.
check_by_kind : MediumKind → M (Unit {0})
unfolding collide_all
check_by_kind powerline w = if ltb 1 (length w.tx_list) then collide_all w.tx_list w else ok (tt, w)
check_by_kind wireless w = ok (tt, w)

pub tx_collision_check : M (Unit {0})
tx_collision_check w = check_by_kind w.kind w

-- `txPacket`: the packet as it goes out, and the frame that the capture file and the log read.
pub tx_packet : NetSimPacket → M (Unit {0})
tx_packet pkt = do
  check (leb 34 (length pkt.pkt_buffer)) out_of_bounds
  let out = generate_packet_checksum (set_rssi 127 pkt)
  modify (λ w. record w { multicast = w.multicast ++ out.pkt_buffer ∷ [] })
  check (leb (34 + pktbuf_size out) (length out.pkt_buffer)) out_of_bounds
  modify
      (λ w. record w { dumped = w.dumped ++ take (pktbuf_size out) (drop 34 out.pkt_buffer) ∷ [] })

-- The packet goes out, or not, by the result; the counters are exact numbers here.
account : ℕ → NetSimPacket → M (Unit {0})
unfolding tx_packet
account result pkt =
    if result == tx_done_ok
    then (tx_packet pkt >> modify (λ w. record w { tx_pkts_ok = suc w.tx_pkts_ok }))
    else if result == tx_done_collided
    then modify (λ w. record w { tx_pkts_collided = suc w.tx_pkts_collided })
    else if result == tx_done_failure
    then modify (λ w. record w { tx_pkts_failed = suc w.tx_pkts_failed })
    else raise thrown

-- The body of the loop of `processTxList` for a node whose timer has expired, but for the erasure.
pub finish_tx : ℕ → M (Unit {0})
unfolding account
finish_tx p = do
  n ← deref p
  _pkt ← lift (or_assert n.tx_pkt)
  handle_tx_timer_expired p
  n' ← deref p
  pkt ← or_null n'.tx_pkt
  send_tx_done_indication p pkt.tx_done_result
  account pkt.tx_done_result pkt
  n'' ← deref p
  store p (record n'' { tx_pkt = none })

-- `passed` are the nodes that stay in the list.
pub tx_loop : Kernel → List ℕ → List ℕ → M (Unit {0})
unfolding finish_tx
tx_loop k passed [] = pure tt
tx_loop k passed (p ∷ rest) = do
  n ← deref p
  done ← lift (expired (k.tx_left p) n.tx_timer)
  elim done [
    | true ↦ do
      finish_tx p
      modify (λ w. record w { tx_list = passed ++ rest })
      tx_loop k passed rest
    | false ↦ tx_loop k (passed ++ p ∷ []) rest
  ]

pub process_tx_list : Kernel → M (Unit {0})
unfolding tx_loop
process_tx_list k w = tx_loop k [] w.tx_list w

-- The loop of `checkNodeRegistrationTimeout`.
unfoldable pub registration_loop : Kernel → List (ℕ × ℕ) → List (ℕ × ℕ) → M (Unit {0})
registration_loop k passed [] = pure tt
registration_loop k passed ((key, p) ∷ rest) = do
  n ← deref p
  check (n.socket == key) asserted
  late ← lift (expired (k.reg_left p) n.reg_timer)
  elim late [
    | true ↦ do
      modify (λ w. record w { reg_list_map = passed ++ rest })
      handle_reg_timer_expired p
      registration_loop k passed rest
    | false ↦ registration_loop k (passed ++ (key, p) ∷ []) rest
  ]

unfoldable pub check_node_registration_timeout : Kernel → M (Unit {0})
unfolding registration_loop
check_node_registration_timeout k w = registration_loop k [] w.reg_list_map w

-- `epoll_event`: what `data.ptr` points to, the flags, and what the node's `recv` calls then return.
pub data EventSource : Type 0 where
  unblocker : EventSource
  node_at : ℕ → EventSource
  null_data : EventSource

pub record PollEvent : Type 0 where
  pub source : EventSource
  pub rdhup : Bool
  pub readable : Bool
  pub first : Recv
  pub second : Recv
  pub junk : ℕ → ℕ

-- One event: whether the loop goes on.
closed_event : EventSource → M Bool
closed_event unblocker = do set_state stopping; pure false
closed_event (node_at p) = do n ← deref p; deregister_node p; pure true
closed_event null_data = raise thrown

readable_event : Kernel → PollEvent → EventSource → M Bool
readable_event k e unblocker = do set_state stopping; pure false
readable_event k e (node_at p) = do read_msg k p e.first e.second e.junk; pure true
readable_event k e null_data = raise thrown

process_event : Kernel → PollEvent → M Bool
unfolding closed_event readable_event
process_event k e =
    if e.rdhup
    then closed_event e.source
    else if e.readable
    then readable_event k e e.source
    else pure true

event_loop : Kernel → List PollEvent → M (Unit {0})
unfolding process_event
event_loop k [] = pure tt
event_loop k (e ∷ es) = do
  more ← process_event k e
  elim more [ true ↦ event_loop k es | false ↦ pure tt ]

abbrev epoll_max_events : ℕ
epoll_max_events = 64

pub process_poller_events : Kernel → List PollEvent → M (Unit {0})
unfolding event_loop
process_poller_events k events = do
  check (leb (length events) epoll_max_events) asserted
  event_loop k events
