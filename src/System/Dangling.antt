-- ===== src/System/Dangling.antt =====
-- Why the steps of a medium leave a node alone that waits for an answer: what the code makes of the
-- medium if one is deleted then.
use x6losim.Prelude.{
  ℕ, ◌≡◌, refl, ap, inl, inr, List, [], ◌∷◌, ◌++◌, true, false, Option, none, some, ◌==◌, ==_iff,
  contains, All, All-mono, Bool-cases, arith,
}
use x6losim.Prelude.Fault.{ok, fail, dangling}
use x6losim.Store.{Medium, DeviceNode, NodeState, registering, active, transmitting, update}
use x6losim.Store.Heap.{update_self}
use x6losim.Membership.{deregister_node, erase_key}
use x6losim.Node.Requests.{IsMember, deregister_node_lem}
use x6losim.Medium.{process_cca_list}
use x6losim.Medium.Channel.{Alive, process_cca_list_dangling}
use x6losim.Medium.Deregistered.{Other}
use x6losim.System.{IsWell, InState, Slot}
use x6losim.System.Handlers.{member}
use x6losim.System.Safety.{cca_list-Alive}

-- The list up to the first entry of a node.
first_at :
    (w : Medium) (p : ℕ) (l : List ℕ)
    → contains p l ≡ true
    → All (Alive w.heap) l
    → (before : List ℕ) × (after : List ℕ) × (l ≡ before ++ p ∷ after) × All (Other p w) before
first_at w p [] c a = cc
first_at w p (x ∷ l) c a = elim (Bool-cases (x == p)) [
  | inl same ↦ ([], l, ap (λ y. y ∷ l) ((==_iff x p).0 same), tt)
  | inr other ↦
      let (before, after, e, o) = first_at w p l (ground (arith, c, other)) a.1 in
      let apart : (p == x) ≡ false = ground (arith, other, ==_iff x p, ==_iff p x) in
      (x ∷ before, after, ap (λ m. x ∷ m) e, ((apart, a.0), o))
]

module _ (w : Medium) (h : IsWell w) (p : ℕ) (c : contains p w.cca_list ≡ true) where
  waiting-IsMember : (n : DeviceNode) × IsMember p n w
  waiting-IsMember = by_slot (w.heap p) refl (h.slots p)
    where
      by_state :
          (n : DeviceNode) (s : NodeState)
          → n.cur_state ≡ s
          → w.heap p ≡ some n
          → InState s w p n
          → IsMember p n w
      by_state n registering st e i = absurd (let out = i.not_asking in cc)
      by_state n active st e i = member w h p n e (inl st) i.has_medium
      by_state n transmitting st e i = member w h p n e (inr st) i.has_medium

      by_slot :
          (o : Option DeviceNode) → w.heap p ≡ o → Slot w p o → (n : DeviceNode) × IsMember p n w
      by_slot none e (a, b) = cc
      by_slot (some n) e i = (n, by_state n n.cur_state refl e i)

  pub deregistered-dangles :
      (w' : Medium) × (deregister_node p w ≡ ok (tt, w')) × (process_cca_list w' ≡ fail dangling)
  deregistered-dangles =
      let (n, m) = waiting-IsMember in
      let (before, after, e, others) = first_at w p w.cca_list c (cca_list-Alive w h) in
      let w' : Medium = record w {
        node_hash_map = erase_key n.socket w.node_hash_map;
        heap = update w.heap p none;
      } in
      (
        w',
        deregister_node_lem p n w m,
        process_cca_list_dangling w' before after p e (All-mono still_alive before others)
            (update_self w.heap p none),
      )
    where
      still_alive : (q : ℕ) → Other p w q → Alive (update w.heap p none) q
      still_alive q (d, (m, f)) = (m, rw (d, f) refl)
