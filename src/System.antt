-- ===== src/System.antt =====
-- A medium with its nodes as a whole (src/sim/PhysicalMedium.cpp, src/sim/DeviceNode.cpp): what its
-- maps, lists, timers and states have to do with one another while the simulator runs.
pub mod Maps
pub mod Change
pub mod Similar
pub mod Finished
pub mod Timeouts
pub mod Handlers
pub mod Steps
pub mod Safety
pub mod Progress
pub mod Construction
pub mod Lifetime
pub mod Messages
pub mod Delivery
pub mod Exchange
pub mod Release
pub mod Marks
pub mod Draining
pub mod Dangling
pub mod Collision
pub mod Protocol
pub mod Samples
mod Tests
mod TrafficTests
pub mod Requests
pub mod Membership
use x6losim.Prelude.{
  ℕ, ◌≡◌, List, [], ◌∷◌, Bool, true, false, Option, none, some, ◌==◌, if◌then◌else◌, contains, map,
  Distinct,
}
use x6losim.Packet.{NetSimPacket}
use x6losim.Store.{Medium, DeviceNode, NodeState, registering, active, transmitting}

-- The pointer that a map holds for a key.
abbrev pub find : ℕ → List (ℕ × ℕ) → Option ℕ
find key [] = none
find key ((k, p) ∷ m) = if k == key then some p else find key m

-- What holds of a node by its state: the map that it is in, its timers, the lists that it is on, and
-- its packet.
pub record IsRegistering (w : Medium) (p : ℕ) (n : DeviceNode) : Type 0 where
  pub listed : find n.socket w.reg_list_map ≡ some p
  pub not_mapped : find n.socket w.node_hash_map ≡ none
  pub has_medium : n.has_medium ≡ true
  pub reg_runs : n.reg_timer.started ≡ true
  pub tx_rests : n.tx_timer.started ≡ false
  pub not_sending : contains p w.tx_list ≡ false
  pub not_asking : contains p w.cca_list ≡ false

pub record IsActive (w : Medium) (p : ℕ) (n : DeviceNode) : Type 0 where
  pub not_listed : find n.socket w.reg_list_map ≡ none
  pub mapped : find n.socket w.node_hash_map ≡ some p
  pub has_medium : n.has_medium ≡ true
  pub tx_rests : n.tx_timer.started ≡ false
  pub not_sending : contains p w.tx_list ≡ false

pub record IsTransmitting (w : Medium) (p : ℕ) (n : DeviceNode) : Type 0 where
  pub not_listed : find n.socket w.reg_list_map ≡ none
  pub mapped : find n.socket w.node_hash_map ≡ some p
  pub has_medium : n.has_medium ≡ true
  pub tx_runs : n.tx_timer.started ≡ true
  pub sending : contains p w.tx_list ≡ true
  pub packet : (pkt : NetSimPacket) × (n.tx_pkt ≡ some pkt)

abbrev pub InState : NodeState → Medium → ℕ → DeviceNode → Type 0
InState registering w p n = IsRegistering w p n
InState active w p n = IsActive w p n
InState transmitting w p n = IsTransmitting w p n

-- An address: what is there, and that nothing points to it where nothing is.
abbrev pub Slot : Medium → ℕ → Option DeviceNode → Type 0
Slot w p none = (contains p w.tx_list ≡ false) × (contains p w.cca_list ≡ false)
Slot w p (some n) = InState n.cur_state w p n

-- A map's entry leads to a node with the key as its identifier.
abbrev pub Points : (ℕ → Option DeviceNode) → ℕ → ℕ → Type 0
Points heap key p = (n : DeviceNode) × (heap p ≡ some n) × (n.socket ≡ key)

abbrev pub keys : List (ℕ × ℕ) → List ℕ
keys = map (λ e. e.0)

pub record IsWell (w : Medium) : Type 0 where
  pub slots : (p : ℕ) → Slot w p (w.heap p)
  pub reg_points : (key p : ℕ) → find key w.reg_list_map ≡ some p → Points w.heap key p
  pub map_points : (key p : ℕ) → find key w.node_hash_map ≡ some p → Points w.heap key p
  pub reg_keys : Distinct (keys w.reg_list_map)
  pub map_keys : Distinct (keys w.node_hash_map)
  pub tx_distinct : Distinct w.tx_list
