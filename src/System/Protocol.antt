-- ===== src/System/Protocol.antt =====
-- What the simulator promises a node, without addresses, maps, timers and packets: a specification
-- of the messages that a node sends, by its phase.
pub mod Phases
pub mod Refine
use x6losim.Prelude.{
  ℕ, ◌≡◌, List, [], ◌∷◌, Bool, true, false, not, ◌&&◌, Option, none, some, ◌==◌, if◌then◌else◌,
  contains,
}
use x6losim.Prelude.Fault.{ok}
use x6losim.Wire.{MsgType, reg_con, dereg_req, cca_req, tx_data_ind, msg_code}
use x6losim.Packet.{NetSimPacket, new_packet}
use x6losim.Store.{
  Medium, M, Kernel, DeviceNode, NodeState, registering, active, transmitting, ◌>>◌, pure,
}
use x6losim.Node.Registration.{HasNames}
use x6losim.Reader.{dispatch}

pub data Phase : Type 0 where
  absent joining member sender : Phase

-- The phase, and whether the node waits for an answer to a channel assessment.
pub record Peer : Type 0 where
  pub phase : Phase
  pub asks : Bool

-- `NetworkSimulator`'s messages from a node.
pub data Request : Type 0 where
  confirm leave assess transmit : Request

-- The phase after a request, or none where the request is a violation.
abbrev pub next_phase : Phase → Request → Option Phase
next_phase absent r = none
next_phase joining confirm = some member
next_phase joining leave = some absent
next_phase joining _ = none
next_phase member confirm = none
next_phase member leave = some absent
next_phase member assess = some member
next_phase member transmit = some sender
next_phase sender leave = some absent
next_phase sender assess = some sender
next_phase sender _ = none

abbrev pub asks_after : Request → Bool → Bool
asks_after assess b = true
asks_after _ b = b

abbrev pub next_peer : Peer → Request → Option Peer
next_peer x r = elim (next_phase x.phase r) [
  | none ↦ none
  | some f ↦ some (record { phase = f; asks = asks_after r x.asks })
]

abbrev pub Peers : Type 0
Peers = ℕ → Peer

abbrev pub with_peer : Peers → ℕ → Peer → Peers
with_peer s p x q = if p == q then x else s q

-- A sequence of requests of several nodes.
unfoldable pub specified : Peers → List (ℕ × Request × List ℕ) → Option Peers
specified s [] = some s
specified s ((p, r, msg) ∷ rs) = elim (next_peer (s p) r) [
  | none ↦ none
  | some x ↦ specified (with_peer s p x) rs
]

abbrev pub is_sender : Phase → Bool
is_sender sender = true
is_sender _ = false

-- A node does not leave while it waits for an answer or transmits.
abbrev pub is_tidy : Peer → Request → Bool
is_tidy x leave = not x.asks && not (is_sender x.phase)
is_tidy x _ = true

-- The message is complete: it holds the names, or the packet.
abbrev pub IsProper : ℕ → Request → List ℕ → Type 0
IsProper p confirm msg = (os : List ℕ) × (os_version : List ℕ) × HasNames msg os os_version
IsProper p transmit msg = (pkt : NetSimPacket) × (new_packet msg p ≡ ok pkt)
IsProper p _ msg = Unit {0}

-- All requests of a sequence are tidy where the specification has come to them, and proper.
abbrev pub AreTidy : Peers → List (ℕ × Request × List ℕ) → Type 0
AreTidy s [] = Unit {0}
AreTidy s ((p, r, msg) ∷ rs) =
    IsProper p r msg
    × (is_tidy (s p) r ≡ true)
    × ((x : Peer) → next_peer (s p) r ≡ some x → AreTidy (with_peer s p x) rs)

-- The same sequence in the code.
abbrev pub code_of : Request → ℕ
code_of confirm = msg_code reg_con
code_of leave = msg_code dereg_req
code_of assess = msg_code cca_req
code_of transmit = msg_code tx_data_ind

pub dispatched : Kernel → List (ℕ × Request × List ℕ) → M (Unit {0})
dispatched k [] = pure tt
dispatched k ((p, r, msg) ∷ rs) = do dispatch k p (code_of r) msg; dispatched k rs

-- What the specification sees of a medium.
abbrev pub phase_of_state : NodeState → Phase
phase_of_state registering = joining
phase_of_state active = member
phase_of_state transmitting = sender

abbrev pub phase_of : Option DeviceNode → Phase
phase_of none = absent
phase_of (some n) = phase_of_state n.cur_state

abbrev pub view : Medium → Peers
view w p = record { phase = phase_of (w.heap p); asks = contains p w.cca_list }
