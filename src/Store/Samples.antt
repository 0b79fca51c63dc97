-- ===== src/Store/Samples.antt =====
-- Nodes, kernels and mediums that the tests of several modules share.
use x6losim.Prelude.{ℕ, [], ◌∷◌, Bool, true, false, Option, none, some, ◌==◌, if◌then◌else◌}
use x6losim.Prelude.Int.{pos}
use x6losim.Packet.{NetSimPacket}
use x6losim.Store.{Medium, DeviceNode, Timer, Kernel, powerline, idle, active, transmitting}

abbrev pub timer : Bool → Timer
timer started = record { started = started; tv_sec = 0; tv_nsec = 4000000 }

abbrev pub active_node : ℕ → DeviceNode
active_node socket = record {
  socket = socket;
  sockfd = 5;
  has_medium = true;
  os = [];
  os_version = [];
  cur_state = active;
  reg_timer = timer false;
  tx_timer = timer false;
  tx_pkt = none;
  failed_reads = 0;
}

-- A data indication of 37 bytes with a frame of three.
abbrev pub packet : ℕ → Bool → NetSimPacket
packet from collision = record {
  pkt_buffer_len = 37;
  pkt_buffer =
      0 ∷ 37 ∷ 0 ∷ 6 ∷ 0 ∷ 0 ∷ 0 ∷ 1 ∷ 0 ∷ 0 ∷ 0 ∷ 0 ∷ 0 ∷ 0 ∷ 16 ∷ 0 ∷ 0 ∷ 0 ∷ 0 ∷ 0 ∷ 0 ∷ 0 ∷ 0
      ∷ 0 ∷ 0 ∷ 9 ∷ 0 ∷ 3 ∷ 0 ∷ 0 ∷ 1 ∷ 2 ∷ 3 ∷ 0 ∷ 65 ∷ 66 ∷ 67 ∷ [];
  from_node = from;
  collision = collision;
  tx_done_result = 0;
}

abbrev pub transmitting_node : ℕ → ℕ → Bool → DeviceNode
transmitting_node p socket collision = record (active_node socket) {
  cur_state = transmitting;
  tx_timer = timer true;
  tx_pkt = some (packet p collision);
}

-- Nodes 1 and 2 transmit, node 3 is active and waits for an answer.
abbrev pub three_nodes : ℕ → Option DeviceNode
three_nodes p =
    if p == 1
    then some (transmitting_node 1 4096 false)
    else if p == 2
    then some (transmitting_node 2 8192 true)
    else if p == 3
    then some (active_node 12288)
    else none

abbrev pub busy_medium : Medium
busy_medium = record {
  kind = powerline;
  cur_time = record { tv_sec = pos 0; tv_nsec = pos 0 };
  state = idle;
  heap = three_nodes;
  reg_list_map = [];
  node_hash_map = (4096, 1) ∷ (8192, 2) ∷ (12288, 3) ∷ [];
  cca_list = 3 ∷ [];
  tx_list = 1 ∷ 2 ∷ [];
  tx_pkts_ok = 0;
  tx_pkts_collided = 0;
  tx_pkts_failed = 0;
  sent = [];
  multicast = [];
  dumped = [];
}

-- All calls succeed; node 2 has 1 ms left.
abbrev pub kernel : Kernel
kernel = record {
  timer_create = true;
  timer_settime = true;
  epoll_ctl = true;
  reg_left = λ p. some (100, 0);
  tx_left = λ p. if p == 2 then some (0, 1000000) else some (0, 0);
}

-- A medium before the first node connects.
abbrev pub empty_medium : Medium
empty_medium = record busy_medium {
  heap = λ p. none;
  node_hash_map = [];
  cca_list = [];
  tx_list = [];
}
