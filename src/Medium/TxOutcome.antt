-- ===== src/Medium/TxOutcome.antt =====
-- What `processTxList` is to do, said of the medium before and after.
use x6losim.Prelude.{
  ℕ, ◌+◌, ◌≡◌, refl, ◌∙◌, List, [], ◌∷◌, ◌++◌, map, Bool, true, false, not, ◌&&◌, Option, none,
  some, ◌==◌, ==_iff, if◌then◌else◌, length, arith, All, contains, keep,
}
use x6losim.Wire.{tx_done_indication}
use x6losim.Packet.{NetSimPacket}
use x6losim.Store.{Medium, DeviceNode, update, transmitting, Kernel}
use x6losim.Medium.Outgoing.{IsSendable, outgoing, frame}
use x6losim.Medium.Transmit.{retired}

-- A pointer to a node that transmits: its timer runs and its packet is complete.
abbrev pub Transmits : (ℕ → Option DeviceNode) → ℕ → Type 0
Transmits heap p =
    (n : DeviceNode) × (pkt : NetSimPacket) × (heap p ≡ some n)
    × (n.cur_state ≡ transmitting)
    × (n.tx_timer.started ≡ true)
    × (n.tx_pkt ≡ some pkt)
    × IsSendable pkt

-- The kernel answers for the timer of a node.
abbrev pub Answers : Kernel → ℕ → Type 0
Answers k p = (sec : ℕ) × (nsec : ℕ) × (k.tx_left p ≡ some (sec, nsec))

-- The kernel says that nothing is left on a node's transmit timer.
abbrev pub is_over : Kernel → ℕ → Bool
is_over k p = elim (k.tx_left p) [ none ↦ false | some (sec, nsec) ↦ sec == 0 && nsec == 0 ]

-- The packet of the node at an address, and whether it is marked as collided.
abbrev pub packet_at : (ℕ → Option DeviceNode) → ℕ → Option NetSimPacket
packet_at heap p = elim (heap p) [ none ↦ none | some n ↦ n.tx_pkt ]

abbrev pub has_collided : Option NetSimPacket → Bool
has_collided none = false
has_collided (some pkt) = pkt.collision

abbrev pub bytes_out : Option NetSimPacket → List ℕ
bytes_out none = []
bytes_out (some pkt) = (outgoing pkt).pkt_buffer

abbrev pub frame_of : Option NetSimPacket → List ℕ
frame_of none = []
frame_of (some pkt) = frame pkt

abbrev pub retire : Option DeviceNode → Option DeviceNode
retire none = none
retire (some n) = some (retired n)

-- The indication that a node gets.
abbrev pub indication : (ℕ → Option DeviceNode) → ℕ → ℕ × List ℕ
indication heap p = elim (heap p) [
  | none ↦ (p, [])
  | some n ↦ (p, tx_done_indication n.socket (if has_collided n.tx_pkt then 1 else 0))
]

abbrev pub goes_out : Kernel → (ℕ → Option DeviceNode) → ℕ → Bool
goes_out k heap p = is_over k p && not (has_collided (packet_at heap p))

abbrev pub is_lost : Kernel → (ℕ → Option DeviceNode) → ℕ → Bool
is_lost k heap p = is_over k p && has_collided (packet_at heap p)

-- What the loop over `ps` makes of the medium `w`, the list of transmissions aside.
pub record Outcome (k : Kernel) (w w' : Medium) (ps : List ℕ) : Type 0 where
  pub heap_after :
      (q : ℕ) → w'.heap q ≡ (if contains q ps && is_over k q then retire (w.heap q) else w.heap q)
  pub sent_after : w'.sent ≡ w.sent ++ map (indication w.heap) (keep (is_over k) ps)
  pub multicast_after :
      w'.multicast
      ≡ w.multicast ++ map (λ p. bytes_out (packet_at w.heap p)) (keep (goes_out k w.heap) ps)
  pub dumped_after :
      w'.dumped ≡ w.dumped ++ map (λ p. frame_of (packet_at w.heap p)) (keep (goes_out k w.heap) ps)
  pub ok_after : w'.tx_pkts_ok ≡ w.tx_pkts_ok + length (keep (goes_out k w.heap) ps)
  pub collided_after :
      w'.tx_pkts_collided ≡ w.tx_pkts_collided + length (keep (is_lost k w.heap) ps)
  pub failed_after : w'.tx_pkts_failed ≡ w.tx_pkts_failed
  pub state_after : w'.state ≡ w.state
  pub cca_after : w'.cca_list ≡ w.cca_list
  pub reg_after : w'.reg_list_map ≡ w.reg_list_map
  pub map_after : w'.node_hash_map ≡ w.node_hash_map
  pub kind_after : w'.kind ≡ w.kind
  pub time_after : w'.cur_time ≡ w.cur_time

-- Two heaps that agree on a list.
abbrev pub Agree : (ℕ → Option DeviceNode) → (ℕ → Option DeviceNode) → List ℕ → Type 0
Agree h g ps = All (λ q. h q ≡ g q) ps

pub update-Agree :
    (heap : ℕ → Option DeviceNode) (p : ℕ) (n : Option DeviceNode) (ps : List ℕ)
    → contains p ps ≡ false
    → Agree (update heap p n) heap ps
update-Agree heap p n [] h = tt
update-Agree heap p n (q ∷ ps) h =
    (ground (arith, ==_iff p q), update-Agree heap p n ps (ground arith))

pub Transmits-Agree :
    (h g : ℕ → Option DeviceNode) (ps : List ℕ)
    → Agree h g ps
    → All (Transmits g) ps
    → All (Transmits h) ps
Transmits-Agree h g [] a t = tt
Transmits-Agree h g (p ∷ ps) a (((n, pkt, e, st, r, f, s)), t) =
    ((n, pkt, a.0 ∙ e, st, r, f, s), Transmits-Agree h g ps a.1 t)

module _ (k : Kernel) (h g : ℕ → Option DeviceNode) where
  pub indications-Agree :
      (ps : List ℕ)
      → Agree h g ps
      → map (indication h) (keep (is_over k) ps) ≡ map (indication g) (keep (is_over k) ps)
  indications-Agree [] a = refl
  indications-Agree (p ∷ ps) a = ground (arith, a.0, indications-Agree ps a.1)

  pub goes_out-Agree :
      (ps : List ℕ) → Agree h g ps → keep (goes_out k h) ps ≡ keep (goes_out k g) ps
  goes_out-Agree [] a = refl
  goes_out-Agree (p ∷ ps) a = ground (arith, a.0, goes_out-Agree ps a.1)

  pub is_lost-Agree : (ps : List ℕ) → Agree h g ps → keep (is_lost k h) ps ≡ keep (is_lost k g) ps
  is_lost-Agree [] a = refl
  is_lost-Agree (p ∷ ps) a = ground (arith, a.0, is_lost-Agree ps a.1)

  pub bytes-Agree :
      (f : Option NetSimPacket → List ℕ) (ps : List ℕ)
      → Agree h g ps
      → map (λ p. f (packet_at h p)) (keep (goes_out k h) ps)
        ≡ map (λ p. f (packet_at g p)) (keep (goes_out k g) ps)
  bytes-Agree f [] a = refl
  bytes-Agree f (p ∷ ps) a = ground (arith, a.0, bytes-Agree f ps a.1)
