-- ===== src/System/Change.antt =====
-- A call that changes one node and its entries keeps the rest of the medium well.
use x6losim.Prelude.{
  ℕ, ◌≡◌, refl, sym, ap, subst, ◌∙◌, false, Option, none, some, ◌==◌, ==_iff, Bool-cases, inl, inr,
  ◌⊎◌, contains, Distinct, arith,
}
use x6losim.Store.{Medium, DeviceNode, NodeState, registering, active, transmitting}
use x6losim.System.{keys, find, IsActive, IsTransmitting, InState, Slot, Points, IsWell}

-- The change is confined to the node at `p`, whose identifier is `s`, and leaves that node well.
pub record Change (w w' : Medium) (p s : ℕ) : Type 0 where
  pub other_nodes : (q : ℕ) → (p == q) ≡ false → w'.heap q ≡ w.heap q
  pub other_listed : (k : ℕ) → (s == k) ≡ false → find k w'.reg_list_map ≡ find k w.reg_list_map
  pub other_mapped : (k : ℕ) → (s == k) ≡ false → find k w'.node_hash_map ≡ find k w.node_hash_map
  pub other_sending : (q : ℕ) → (p == q) ≡ false → contains q w'.tx_list ≡ contains q w.tx_list
  pub other_asking : (q : ℕ) → (p == q) ≡ false → contains q w'.cca_list ≡ contains q w.cca_list
  pub own_socket : (n : DeviceNode) → w.heap p ≡ some n → n.socket ≡ s
  pub apart :
      (q : ℕ) (n : DeviceNode) → (p == q) ≡ false → w.heap q ≡ some n → (s == n.socket) ≡ false
  pub own_slot : Slot w' p (w'.heap p)
  pub own_listed : (q : ℕ) → find s w'.reg_list_map ≡ some q → Points w'.heap s q
  pub own_mapped : (q : ℕ) → find s w'.node_hash_map ≡ some q → Points w'.heap s q
  pub still_keys : Distinct (keys w'.reg_list_map)
  pub still_mapped_keys : Distinct (keys w'.node_hash_map)
  pub still_distinct : Distinct w'.tx_list

module _ (w w' : Medium) (p s : ℕ) (c : Change w w' p s) where
  other_state :
      (q : ℕ) (n : DeviceNode) (st : NodeState)
      → (p == q) ≡ false
      → (s == n.socket) ≡ false
      → InState st w q n
      → InState st w' q n
  other_state q n registering d a i = record {
    listed = c.other_listed n.socket a ∙ i.listed;
    not_mapped = c.other_mapped n.socket a ∙ i.not_mapped;
    has_medium = i.has_medium;
    reg_runs = i.reg_runs;
    tx_rests = i.tx_rests;
    not_sending = c.other_sending q d ∙ i.not_sending;
    not_asking = c.other_asking q d ∙ i.not_asking;
  }
  other_state q n active d a i = record {
    not_listed = c.other_listed n.socket a ∙ i.not_listed;
    mapped = c.other_mapped n.socket a ∙ i.mapped;
    has_medium = i.has_medium;
    tx_rests = i.tx_rests;
    not_sending = c.other_sending q d ∙ i.not_sending;
  }
  other_state q n transmitting d a i = record {
    not_listed = c.other_listed n.socket a ∙ i.not_listed;
    mapped = c.other_mapped n.socket a ∙ i.mapped;
    has_medium = i.has_medium;
    tx_runs = i.tx_runs;
    sending = c.other_sending q d ∙ i.sending;
    packet = i.packet;
  }

  other-Slot :
      (q : ℕ) (o : Option DeviceNode) → (p == q) ≡ false → w.heap q ≡ o → Slot w q o → Slot w' q o
  other-Slot q none d e (a, b) = (c.other_sending q d ∙ a, c.other_asking q d ∙ b)
  other-Slot q (some n) d e i = other_state q n n.cur_state d (c.apart q n d e) i

  other-Points : (k q : ℕ) → (s == k) ≡ false → Points w.heap k q → Points w'.heap k q
  other-Points k q d (n, e, f) = elim (Bool-cases (p == q)) [
    | inl same ↦
        let here : w.heap p ≡ some n = ap w.heap ((==_iff p q).0 same) ∙ e in
        let own : n.socket ≡ s = c.own_socket n here in absurd (ground (arith, ==_iff s k))
    | inr other ↦ (n, c.other_nodes q other ∙ e, f)
  ]

  pub change-IsWell : IsWell w → IsWell w'
  change-IsWell h = record {
    slots = λ q. elim (Bool-cases (p == q)) [
      | inl same ↦ subst (λ x. Slot w' x (w'.heap x)) ((==_iff p q).0 same) c.own_slot
      | inr other ↦
          subst (Slot w' q) (sym (c.other_nodes q other))
            (other-Slot q (w.heap q) other refl (h.slots q))
    ];
    reg_points = λ k q e. elim (Bool-cases (s == k)) [
      | inl same ↦
          subst (λ x. find x w'.reg_list_map ≡ some q → Points w'.heap x q) ((==_iff s k).0 same)
            (c.own_listed q) e
      | inr other ↦ other-Points k q other (h.reg_points k q (sym (c.other_listed k other) ∙ e))
    ];
    map_points = λ k q e. elim (Bool-cases (s == k)) [
      | inl same ↦
          subst (λ x. find x w'.node_hash_map ≡ some q → Points w'.heap x q) ((==_iff s k).0 same)
            (c.own_mapped q) e
      | inr other ↦ other-Points k q other (h.map_points k q (sym (c.other_mapped k other) ∙ e))
    ];
    reg_keys = c.still_keys;
    map_keys = c.still_mapped_keys;
    tx_distinct = c.still_distinct;
  }

-- A node's identifier leads to it by exactly one of the two maps.
pub place :
    (w : Medium) (p : ℕ) (n : DeviceNode) (s : NodeState)
    → InState s w p n
    → ((find n.socket w.reg_list_map ≡ some p) × (find n.socket w.node_hash_map ≡ none))
      ⊎ ((find n.socket w.reg_list_map ≡ none) × (find n.socket w.node_hash_map ≡ some p))
place w p n registering i = inl (i.listed, i.not_mapped)
place w p n active i = inr (i.not_listed, i.mapped)
place w p n transmitting i = inr (i.not_listed, i.mapped)

same_place :
    (a b : Option ℕ) (p q : ℕ)
    → ((a ≡ some p) × (b ≡ none)) ⊎ ((a ≡ none) × (b ≡ some p))
    → ((a ≡ some q) × (b ≡ none)) ⊎ ((a ≡ none) × (b ≡ some q))
    → p ≡ q
same_place a b p q (inl (x, y)) (inl (x', y')) = cc
same_place a b p q (inl (x, y)) (inr (x', y')) = cc
same_place a b p q (inr (x, y)) (inl (x', y')) = cc
same_place a b p q (inr (x, y)) (inr (x', y')) = cc

module _ (w : Medium) (h : IsWell w) (p : ℕ) (n : DeviceNode) (e : w.heap p ≡ some n) where
  pub in_state : InState n.cur_state w p n
  in_state = subst (Slot w p) e (h.slots p)

  pub as_state : (s : NodeState) → n.cur_state ≡ s → InState s w p n
  as_state s st = subst (λ x. InState x w p n) st in_state

  pub own_node : (m : DeviceNode) → w.heap p ≡ some m → m.socket ≡ n.socket
  own_node m f = let same : m ≡ n = cc in ap (λ x. x.socket) same

  -- Two nodes have different identifiers.
  pub sockets_differ :
      (q : ℕ) (m : DeviceNode)
      → (p == q) ≡ false
      → w.heap q ≡ some m
      → (n.socket == m.socket) ≡ false
  sockets_differ q m d f = elim (Bool-cases (n.socket == m.socket)) [
    | inl same ↦
        let there = place w q m m.cur_state (subst (Slot w q) f (h.slots q)) in
        let here = place w p n n.cur_state in_state in
        let meet : p ≡ q =
          same_place (find n.socket w.reg_list_map) (find n.socket w.node_hash_map) p q here (
            subst
              (λ s.
                ((find s w.reg_list_map ≡ some q) × (find s w.node_hash_map ≡ none))
                ⊎ ((find s w.reg_list_map ≡ none) × (find s w.node_hash_map ≡ some q)))
              (sym ((==_iff n.socket m.socket).0 same)) there) in
        absurd (ground (arith, ==_iff p q))
    | inr other ↦ other
  ]

  -- A registered node is found by the map of nodes alone.
  pub registered :
      (n.cur_state ≡ active) ⊎ (n.cur_state ≡ transmitting)
      → (find n.socket w.reg_list_map ≡ none) × (find n.socket w.node_hash_map ≡ some p)
  registered (inl st) = let i : IsActive w p n = as_state active st in (i.not_listed, i.mapped)
  registered (inr st) =
      let i : IsTransmitting w p n = as_state transmitting st in (i.not_listed, i.mapped)
