-- ===== src/Node/Release.antt =====
-- The destructor of `DeviceNode` (src/sim/DeviceNode.cpp): what it gives back, and what it leaves. The
-- deletion in the heap of a medium is Store's `delete`.
use x6losim.Prelude.{ℕ, ◌+◌, List, [], ◌∷◌, true, false, Option, none, some}
use x6losim.Packet.{NetSimPacket}
use x6losim.Store.{DeviceNode, Timer}
use x6losim.Timer.{stop}

-- The descriptors that are closed, how many of the kernel's timers stay, and the packets that stay
-- allocated.
pub record Released : Type 0 where
  pub closed : List ℕ
  pub timers_left : ℕ
  pub packets_left : List NetSimPacket

-- `timer_create` has made a timer for the kernel, and `timer_delete` has not been called.
abbrev pub kernel_timers : Timer → ℕ
kernel_timers t = elim t.started [ true ↦ 1 | false ↦ 0 ]

abbrev pub packet_list : Option NetSimPacket → List NetSimPacket
packet_list none = []
packet_list (some pkt) = pkt ∷ []

unfoldable pub stop_registration_timer : DeviceNode → DeviceNode
unfolding stop
stop_registration_timer n = record n { reg_timer = stop n.reg_timer }

-- The socket closes its descriptor and the state has nothing of its own; the timers and the packet are
-- not looked at.
unfoldable pub delete_node_pimpl : DeviceNode → Released
delete_node_pimpl n = record {
  closed = n.sockfd ∷ [];
  timers_left = kernel_timers n.reg_timer + kernel_timers n.tx_timer;
  packets_left = packet_list n.tx_pkt;
}

unfoldable pub delete_device_node : DeviceNode → Released
unfolding stop_registration_timer delete_node_pimpl
delete_device_node n = delete_node_pimpl (stop_registration_timer n)
