-- ===== src/Store.antt =====
-- The state that one `PhysicalMedium` and its nodes share: the members of `PhysicalMedium_pimpl` and
-- `DeviceNode_pimpl` (src/sim/PhysicalMedium.cpp, src/sim/DeviceNode.cpp), with the heap that the
-- `DeviceNode *` of its maps and lists point into, and the messages that left it.
pub mod Heap
pub mod Samples
pub mod Frame
pub mod Returns
use x6losim.Prelude.{
  ℕ, ◌+◌, List, [], ◌∷◌, ◌++◌, ◌≡◌, refl, Bool, true, false, Option, none, some, ◌==◌,
  if◌then◌else◌,
}
use x6losim.Prelude.Fault.{Fault, Result, ok, fail, dangling}
use x6losim.Clock.{Timespec}
use x6losim.Packet.{NetSimPacket}

-- `curState`: which subclass of `IDeviceNodeState` it points to.
pub data NodeState : Type 0 where
  registering active transmitting : NodeState

-- `DeviceNodeTimer`; `it_interval` stays 0.
pub record Timer : Type 0 where
  pub started : Bool
  pub tv_sec : ℕ
  pub tv_nsec : ℕ

-- `socket` is the address of the node's `Socket`, which serves as its identifier; `has_medium` is
-- false for a NULL `medium`.
pub record DeviceNode : Type 0 where
  pub socket : ℕ
  pub sockfd : ℕ
  pub has_medium : Bool
  pub os : List ℕ
  pub os_version : List ℕ
  pub cur_state : NodeState
  pub reg_timer : Timer
  pub tx_timer : Timer
  pub tx_pkt : Option NetSimPacket
  pub failed_reads : ℕ

pub data PhysicalMediumState : Type 0 where
  stopped idle tx_802514_frame stopping : PhysicalMediumState

-- Which subclass's `txCollisionCheck` the medium has.
pub data MediumKind : Type 0 where
  powerline wireless : MediumKind

-- `heap p` is the node at address `p`, `none` where none is or where it was deleted. The maps are
-- lists of keys and pointers. `sent` holds what was handed to the sockets, with the node's address,
-- `multicast` the packets given to `sendto`, `dumped` those given to `pcap_dump`; newest last.
pub record Medium : Type 0 where
  pub kind : MediumKind
  pub cur_time : Timespec
  pub state : PhysicalMediumState
  pub heap : ℕ → Option DeviceNode
  pub reg_list_map : List (ℕ × ℕ)
  pub node_hash_map : List (ℕ × ℕ)
  pub cca_list : List ℕ
  pub tx_list : List ℕ
  pub tx_pkts_ok : ℕ
  pub tx_pkts_collided : ℕ
  pub tx_pkts_failed : ℕ
  pub sent : List (ℕ × List ℕ)
  pub multicast : List (List ℕ)
  pub dumped : List (List ℕ)

-- The kernel's answers while one call runs: whether `timer_create`, `timer_settime` and `epoll_ctl`
-- succeed, and what `timer_gettime` says is left on a node's two timers, `none` for its -1.
pub record Kernel : Type 0 where
  pub timer_create : Bool
  pub timer_settime : Bool
  pub epoll_ctl : Bool
  pub reg_left : ℕ → Option (ℕ × ℕ)
  pub tx_left : ℕ → Option (ℕ × ℕ)

-- A call that changes the medium, and may end in a fault.
abbrev pub M : Type 0 → Type 0
M A = Medium → Result (A × Medium)

infixl 5 ◌>>=◌ ◌>>◌
abbrev pub ◌>>=◌ : {A B : Type 0} → M A → (A → M B) → M B
◌>>=◌ m f w = elim (m w) [ ok (a, w') ↦ f a w' | fail e ↦ fail e ]

abbrev pub ◌>>◌ : {B : Type 0} → M (Unit {0}) → M B → M B
m >> k = m >>= λ _. k

-- A call that succeeds hands on its state.
pub >>-ok :
    {A : Type 0} (m : M (Unit {0})) (k : M A) {w w' : Medium}
    → m w ≡ ok (tt, w')
    → (m >> k) w ≡ k w'
>>-ok m k e = rw (e, ◌>>◌, ◌>>=◌)

pub >>=-ok :
    {A B : Type 0} (m : M A) (f : A → M B) {a : A} {w w' : Medium}
    → m w ≡ ok (a, w')
    → (m >>= f) w ≡ f a w'
>>=-ok m f e = rw (e, ◌>>=◌)

-- And one that fails ends the rest.
pub >>-fail :
    {A : Type 0} (m : M (Unit {0})) (k : M A) {e : Fault} {w : Medium}
    → m w ≡ fail e
    → (m >> k) w ≡ fail e
>>-fail m k h = rw (h, ◌>>◌, ◌>>=◌)

pub >>=-fail :
    {A B : Type 0} (m : M A) (f : A → M B) {e : Fault} {w : Medium}
    → m w ≡ fail e
    → (m >>= f) w ≡ fail e
>>=-fail m f h = rw (h, ◌>>=◌)

abbrev pub pure : {A : Type 0} → A → M A
pure a w = ok (a, w)

abbrev pub raise : {A : Type 0} → Fault → M A
raise e w = fail e

-- `assert`, or a test whose failure throws.
abbrev pub check : Bool → Fault → M (Unit {0})
check true e w = ok (tt, w)
check false e w = fail e

abbrev pub lift : {A : Type 0} → Result A → M A
lift (ok a) w = ok (a, w)
lift (fail e) w = fail e

abbrev pub modify : (Medium → Medium) → M (Unit {0})
modify f w = ok (tt, f w)

-- A pointer that is followed: a fault unless it points to a node that is alive.
abbrev pub deref : ℕ → M DeviceNode
deref p w = elim (w.heap p) [ none ↦ fail dangling | some n ↦ ok (n, w) ]

abbrev pub update : (ℕ → Option DeviceNode) → ℕ → Option DeviceNode → ℕ → Option DeviceNode
update heap p n q = if p == q then n else heap q

-- A change of the node at an address.
abbrev pub put_node : ℕ → DeviceNode → Medium → Medium
put_node p n w = record w { heap = update w.heap p (some n) }

abbrev pub store : ℕ → DeviceNode → M (Unit {0})
store p n = modify (put_node p n)

-- `delete node`. The timer and the socket go with it; a packet that it holds is leaked.
abbrev pub delete : ℕ → M (Unit {0})
delete p = modify (λ w. record w { heap = update w.heap p none })

-- A message handed to a node's socket.
abbrev pub send_msg : ℕ → List ℕ → M (Unit {0})
send_msg p msg = modify (λ w. record w { sent = w.sent ++ (p, msg) ∷ [] })
