-- ===== src/Medium/Channel.antt =====
-- What `processCcaList` answers and what `txCollisionCheck` marks.
use mathlib.Core.Path.{fun_ext}
use mathlib.Core.List.{append_assoc, append-nil}
use x6losim.Prelude.{
  ℕ, ◌≤◌, ◌<◌, ◌≡◌, refl, ap, sym, ◌∙◌, List, [], ◌∷◌, ◌++◌, map, Bool, true, false, Option, none,
  some, ◌==◌, ltb, ==_iff, All-mono, if◌then◌else◌, length, arith, All, contains, Bool-cases, inl,
  inr,
}
use x6losim.Prelude.Fault.{fail, ok, dangling}
use x6losim.Wire.{cca_confirm}
use x6losim.Packet.{NetSimPacket}
use x6losim.Store.{Medium, DeviceNode, ◌>>=◌, >>-ok, >>-fail, deref, update, powerline, wireless}
use x6losim.Node.{send_cca_confirm}
use x6losim.Medium.{
  or_null, is_idle_state, cca_loop, process_cca_list, set_collided, collide_all, tx_collision_check,
  check_by_kind,
}

-- The pointer points to a node.
abbrev pub Alive : (ℕ → Option DeviceNode) → ℕ → Type 0
Alive heap p = (n : DeviceNode) × (heap p ≡ some n)

-- The identifier of the node at an address.
abbrev pub socket_at : (ℕ → Option DeviceNode) → ℕ → ℕ
socket_at heap p = elim (heap p) [ none ↦ 0 | some n ↦ n.socket ]

-- The answer that a node on the list gets.
abbrev pub cca_answer : Medium → ℕ → ℕ × List ℕ
cca_answer w p = (p, cca_confirm (socket_at w.heap p) (is_idle_state w.state))

send_cca_confirm_lem :
    (p : ℕ) (result : Bool) (w : Medium)
    → Alive w.heap p
    → send_cca_confirm p result w
      ≡ ok (tt, record w { sent = w.sent ++ (p, cca_confirm (socket_at w.heap p) result) ∷ [] })
unfolding send_cca_confirm
send_cca_confirm_lem p result w (n, e) = rw (e, socket_at, deref, ◌>>=◌)

cca_loop_lem :
    (ps : List ℕ) (w : Medium)
    → w.cca_list ≡ ps
    → All (Alive w.heap) ps
    → cca_loop ps w ≡ ok (tt, record w { cca_list = []; sent = w.sent ++ map (cca_answer w) ps })
unfolding cca_loop
cca_loop_lem [] w e h = λ i. ok (tt, record w { cca_list = e i; sent = sym (append-nil w.sent) i })
cca_loop_lem (p ∷ ps) w e h =
    let w' : Medium = record w { cca_list = ps; sent = w.sent ++ cca_answer w p ∷ [] } in
    let sent_one =
      send_cca_confirm_lem p (is_idle_state w.state) (record w { cca_list = ps }) h.0 in
    let grouped = append_assoc w.sent (cca_answer w p ∷ []) (map (cca_answer w) ps) in
    >>-ok (send_cca_confirm p (is_idle_state w.state)) (cca_loop ps) sent_one
    ∙ (cca_loop_lem ps w' refl h.1 ∙ (λ i. ok (tt, record w { cca_list = []; sent = grouped i })))

-- Every node on the list is sent one confirm, in the order of the list, that says whether the medium
-- is idle; the list is empty afterwards, and nothing else changes. All pointers on the list have to
-- point to nodes.
pub process_cca_list_lem :
    (w : Medium)
    → All (Alive w.heap) w.cca_list
    → process_cca_list w
      ≡ ok (tt, record w { cca_list = []; sent = w.sent ++ map (cca_answer w) w.cca_list })
unfolding process_cca_list
process_cca_list_lem w h = cca_loop_lem w.cca_list w refl h

send_cca_confirm_dangling :
    (p : ℕ) (result : Bool) (w : Medium)
    → w.heap p ≡ none
    → send_cca_confirm p result w ≡ fail dangling
unfolding send_cca_confirm
send_cca_confirm_dangling p result w e = rw (e, deref, ◌>>=◌)

cca_loop_dangling :
    (before after : List ℕ) (p : ℕ) (w : Medium)
    → All (Alive w.heap) before
    → w.heap p ≡ none
    → cca_loop (before ++ p ∷ after) w ≡ fail dangling
unfolding cca_loop
cca_loop_dangling [] after p w h gone =
    >>-fail (send_cca_confirm p (is_idle_state w.state)) (cca_loop after)
      (send_cca_confirm_dangling p (is_idle_state w.state) (record w { cca_list = after }) gone)
cca_loop_dangling (q ∷ before) after p w h gone =
    let rest = before ++ p ∷ after in
    >>-ok (send_cca_confirm q (is_idle_state w.state)) (cca_loop rest)
      (send_cca_confirm_lem q (is_idle_state w.state) (record w { cca_list = rest }) h.0)
    ∙ cca_loop_dangling before after p
        (record w { cca_list = rest; sent = w.sent ++ cca_answer w q ∷ [] }) h.1 gone

-- If a pointer on the list is that of a deleted node, and those before it are not, the function
-- follows it.
pub process_cca_list_dangling :
    (w : Medium) (before after : List ℕ) (p : ℕ)
    → w.cca_list ≡ before ++ p ∷ after
    → All (Alive w.heap) before
    → w.heap p ≡ none
    → process_cca_list w ≡ fail dangling
unfolding process_cca_list
process_cca_list_dangling w before after p e h gone =
    ap (λ ps. cca_loop ps w) e ∙ cca_loop_dangling before after p w h gone

-- A pointer to a node that holds a packet.
abbrev pub HasPacket : (ℕ → Option DeviceNode) → ℕ → Type 0
HasPacket heap p =
    (n : DeviceNode) × (pkt : NetSimPacket) × (heap p ≡ some n) × (n.tx_pkt ≡ some pkt)

abbrev pub mark : NetSimPacket → NetSimPacket
mark pkt = record pkt { collision = true }

abbrev pub mark_pkt : Option NetSimPacket → Option NetSimPacket
mark_pkt none = none
mark_pkt (some pkt) = some (mark pkt)

abbrev pub mark_node : Option DeviceNode → Option DeviceNode
mark_node none = none
mark_node (some n) = some (record n { tx_pkt = mark_pkt n.tx_pkt })

-- The nodes at the addresses of a list, their packets marked as collided.
abbrev pub collided : List ℕ → (ℕ → Option DeviceNode) → ℕ → Option DeviceNode
collided ps heap q = if contains q ps then mark_node (heap q) else heap q

set_collided_at :
    (heap : ℕ → Option DeviceNode) (p q : ℕ) (n : DeviceNode) (pkt : NetSimPacket)
    → heap p ≡ some n
    → n.tx_pkt ≡ some pkt
    → update heap p (some (record n { tx_pkt = some (mark pkt) })) q ≡ collided (p ∷ []) heap q
set_collided_at heap p q n pkt e f = elim (Bool-cases (p == q)) [
  | inl same ↦
      let here : heap q ≡ some n = ap heap (sym ((==_iff p q).0 same)) ∙ e in rw (same, here, f)
  | inr other ↦ rw other
]

set_collided_lem :
    (p : ℕ) (w : Medium)
    → HasPacket w.heap p
    → set_collided p w ≡ ok (tt, record w { heap = collided (p ∷ []) w.heap })
unfolding set_collided
set_collided_lem p w (n, pkt, e, f) =
    let heaps = fun_ext (λ q. set_collided_at w.heap p q n pkt e f) in
    rw (e, f, deref, or_null, ◌>>=◌) (λ i. ok (tt, record w { heap = heaps i }))

collided-cons :
    (p : ℕ) (ps : List ℕ) (heap : ℕ → Option DeviceNode) (q : ℕ)
    → collided ps (collided (p ∷ []) heap) q ≡ collided (p ∷ ps) heap q
collided-cons p ps heap q = ground arith

still_packets :
    (p : ℕ) (ps : List ℕ) (heap : ℕ → Option DeviceNode)
    → All (HasPacket heap) ps
    → All (HasPacket (collided (p ∷ []) heap)) ps
still_packets p ps heap = All-mono keep_packet ps
  where
    keep_packet : (q : ℕ) → HasPacket heap q → HasPacket (collided (p ∷ []) heap) q
    keep_packet q (n, pkt, e, f) = elim (Bool-cases (p == q)) [
      | inl same ↦ (record n { tx_pkt = some (mark pkt) }, mark pkt, rw (same, e, f), refl)
      | inr other ↦ (n, pkt, rw (other, e), f)
    ]

collide_all_lem :
    (ps : List ℕ) (w : Medium)
    → All (HasPacket w.heap) ps
    → collide_all ps w ≡ ok (tt, record w { heap = collided ps w.heap })
unfolding collide_all
collide_all_lem [] w h = refl
collide_all_lem (p ∷ ps) w h =
    let heaps = fun_ext (collided-cons p ps w.heap) in
    >>-ok (set_collided p) (collide_all ps) {w = w} (set_collided_lem p w h.0)
    ∙ (collide_all_lem ps (record w { heap = collided (p ∷ []) w.heap })
          (still_packets p ps w.heap h.1)
        ∙ (λ i. ok (tt, record w { heap = heaps i })))

-- On the power line, while two nodes or more transmit and all that do hold packets, the check marks
-- exactly their packets as collided and changes nothing else. With fewer, or on the wireless medium,
-- it changes nothing.
pub tx_collision_check_lem :
    (w : Medium)
    → All (HasPacket w.heap) w.tx_list
    → (w.kind ≡ powerline
        → 2 ≤ length w.tx_list
        → tx_collision_check w ≡ ok (tt, record w { heap = collided w.tx_list w.heap }))
      × (w.kind ≡ powerline → length w.tx_list < 2 → tx_collision_check w ≡ ok (tt, w))
      × (w.kind ≡ wireless → tx_collision_check w ≡ ok (tt, w))
unfolding tx_collision_check check_by_kind
tx_collision_check_lem w h = (
  λ kind many. ap (λ k. check_by_kind k w) kind ∙ (several many ∙ collide_all_lem w.tx_list w h),
  λ kind few. ap (λ k. check_by_kind k w) kind ∙ single few,
  λ kind. ap (λ k. check_by_kind k w) kind,
)
  where
    several : 2 ≤ length w.tx_list → check_by_kind powerline w ≡ collide_all w.tx_list w
    several many = let e : ltb 1 (length w.tx_list) ≡ true = ground arith in rw e

    single : length w.tx_list < 2 → check_by_kind powerline w ≡ ok (tt, w)
    single few = let e : ltb 1 (length w.tx_list) ≡ false = ground arith in rw e
