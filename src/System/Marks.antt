-- ===== src/System/Marks.antt =====
-- Which packets `txCollisionCheck` marks, in a medium that is well.
use x6losim.Prelude.{
  ℕ, ◌≡◌, refl, sym, subst, ap, ◌∙◌, List, true, false, ◌⊎◌, Option, none, some, if◌then◌else◌, leb,
  length, arith, All, All-mono, contains, Bool-cases, inl, inr,
}
use x6losim.Prelude.Fault.{ok}
use x6losim.Packet.{NetSimPacket, pktbuf_size}
use x6losim.Medium.Outgoing.{IsSendable}
use x6losim.Store.{Medium, DeviceNode, MediumKind, powerline, wireless}
use x6losim.Medium.{tx_collision_check}
use x6losim.Medium.Channel.{HasPacket, collided, mark, mark_pkt, mark_node, tx_collision_check_lem}
use x6losim.System.{IsWell}
use x6losim.System.Finished.{collided-IsWell}
use x6losim.System.Safety.{IsComplete}

-- The nodes behind the collision check: on the power line all that transmit are marked where there
-- are two or more.
abbrev pub marked_nodes : Medium → ℕ → Option DeviceNode
marked_nodes w = elim w.kind [
  | powerline ↦ if leb 2 (length w.tx_list) then collided w.tx_list w.heap else w.heap
  | wireless ↦ w.heap
]

many_marked :
    (w : Medium)
    → w.kind ≡ powerline
    → leb 2 (length w.tx_list) ≡ true
    → collided w.tx_list w.heap ≡ marked_nodes w
many_marked w e many = rw (e, many) refl

few_unmarked :
    (w : Medium) → w.kind ≡ powerline → leb 2 (length w.tx_list) ≡ false → w.heap ≡ marked_nodes w
few_unmarked w e few = rw (e, few) refl

wireless_unmarked : (w : Medium) → w.kind ≡ wireless → w.heap ≡ marked_nodes w
wireless_unmarked w e = rw e refl

-- The check marks all that transmit, or nothing.
marked_cases :
    (w : Medium) → (collided w.tx_list w.heap ≡ marked_nodes w) ⊎ (w.heap ≡ marked_nodes w)
marked_cases w = by_kind w.kind refl
  where
    by_kind :
        (m : MediumKind)
        → w.kind ≡ m
        → (collided w.tx_list w.heap ≡ marked_nodes w) ⊎ (w.heap ≡ marked_nodes w)
    by_kind powerline e = elim (Bool-cases (leb 2 (length w.tx_list))) [
      | inl many ↦ inl (many_marked w e many)
      | inr few ↦ inr (few_unmarked w e few)
    ]
    by_kind wireless e = inr (wireless_unmarked w e)

pub check_marks :
    (w : Medium)
    → All (HasPacket w.heap) w.tx_list
    → tx_collision_check w ≡ ok (tt, record w { heap = marked_nodes w })
check_marks w h = by_kind w.kind refl
  where
    by_kind :
        (m : MediumKind)
        → w.kind ≡ m
        → tx_collision_check w ≡ ok (tt, record w { heap = marked_nodes w })
    by_kind powerline e = elim (Bool-cases (leb 2 (length w.tx_list))) [
      | inl many ↦
          (tx_collision_check_lem w h).0 e (ground arith)
          ∙ ap (λ g. ok (tt, record w { heap = g })) (many_marked w e many)
      | inr few ↦
          (tx_collision_check_lem w h).1 e (ground arith)
          ∙ ap (λ g. ok (tt, record w { heap = g })) (few_unmarked w e few)
    ]
    by_kind wireless e =
        (tx_collision_check_lem w h).2 e
        ∙ ap (λ g. ok (tt, record w { heap = g })) (wireless_unmarked w e)

pub marked-IsWell : (w : Medium) → IsWell w → IsWell (record w { heap = marked_nodes w })
marked-IsWell w h = elim (marked_cases w) [
  | inl marks ↦ subst (λ g. IsWell (record w { heap = g })) marks (collided-IsWell w w.tx_list h)
  | inr same ↦ subst (λ g. IsWell (record w { heap = g })) same h
]

marked-IsSendable : (pkt : NetSimPacket) → IsSendable pkt → IsSendable (mark pkt)
unfolding pktbuf_size
marked-IsSendable pkt s = record { has_header = s.has_header; has_frame = s.has_frame }

abbrev pub packet_of_node : Option DeviceNode → Option NetSimPacket
packet_of_node none = none
packet_of_node (some n) = n.tx_pkt

collided-IsComplete :
    (w : Medium) (ps : List ℕ) (p : ℕ) → IsComplete w.heap p → IsComplete (collided ps w.heap) p
collided-IsComplete w ps p c n pkt e f = elim (Bool-cases (contains p ps)) [
  | inl hit ↦
      from_marked (w.heap p) refl
        (sym (ap (λ b. if b then mark_node (w.heap p) else w.heap p) hit) ∙ e)
  | inr miss ↦ c n pkt (sym (ap (λ b. if b then mark_node (w.heap p) else w.heap p) miss) ∙ e) f
]
  where
    from_packet :
        (o : DeviceNode) (q : Option NetSimPacket)
        → w.heap p ≡ some o
        → o.tx_pkt ≡ q
        → mark_pkt q ≡ some pkt
        → IsSendable pkt
    from_packet o none a b m = cc
    from_packet o (some sent) a b m =
        let same : mark sent ≡ pkt = cc in
        subst IsSendable same (marked-IsSendable sent (c o sent a b))

    from_marked : (o : Option DeviceNode) → w.heap p ≡ o → mark_node o ≡ some n → IsSendable pkt
    from_marked none a m = cc
    from_marked (some o) a m = from_packet o o.tx_pkt a refl (ap (λ x. packet_of_node x) m ∙ f)

pub marked-IsComplete :
    (w : Medium) → All (IsComplete w.heap) w.tx_list → All (IsComplete (marked_nodes w)) w.tx_list
marked-IsComplete w c = elim (marked_cases w) [
  | inl marks ↦
      subst (λ g. All (IsComplete g) w.tx_list) marks
        (All-mono (collided-IsComplete w w.tx_list) w.tx_list c)
  | inr same ↦ subst (λ g. All (IsComplete g) w.tx_list) same c
]
