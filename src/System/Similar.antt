-- ===== src/System/Similar.antt =====
-- Changes of packets, messages, answers and counters keep the medium well.
use x6losim.Prelude.{
  ℕ, ◌≡◌, refl, sym, subst, ap, ◌∙◌, false, Option, none, some, contains, Distinct,
}
use x6losim.Packet.{NetSimPacket}
use x6losim.Store.{Medium, DeviceNode, NodeState, registering, active, transmitting}
use x6losim.System.{keys, find, InState, Slot, Points, IsWell}

-- Two nodes that differ at most in their names, their packet, and their count of failed reads.
pub record Same (n n' : DeviceNode) : Type 0 where
  pub same_socket : n'.socket ≡ n.socket
  pub same_state : n'.cur_state ≡ n.cur_state
  pub same_medium : n'.has_medium ≡ n.has_medium
  pub same_reg_timer : n'.reg_timer ≡ n.reg_timer
  pub same_tx_timer : n'.tx_timer ≡ n.tx_timer
  pub keeps_packet :
      (pkt : NetSimPacket) → n.tx_pkt ≡ some pkt → (pkt' : NetSimPacket) × (n'.tx_pkt ≡ some pkt')

pub record Similar (w w' : Medium) : Type 0 where
  pub still_gone : (q : ℕ) → w.heap q ≡ none → w'.heap q ≡ none
  pub still_there :
      (q : ℕ) (n : DeviceNode)
      → w.heap q ≡ some n
      → (n' : DeviceNode) × (w'.heap q ≡ some n') × Same n n'
  pub same_listed : w'.reg_list_map ≡ w.reg_list_map
  pub same_mapped : w'.node_hash_map ≡ w.node_hash_map
  pub same_sending : w'.tx_list ≡ w.tx_list
  pub no_new_asking : (q : ℕ) → contains q w.cca_list ≡ false → contains q w'.cca_list ≡ false

module _ (w w' : Medium) (c : Similar w w') where
  similar_state :
      (q : ℕ) (n n' : DeviceNode) (s : NodeState) → Same n n' → InState s w q n → InState s w' q n'
  similar_state q n n' registering m i = record {
    listed =
        ap (find n'.socket) c.same_listed
        ∙ (ap (λ s. find s w.reg_list_map) m.same_socket ∙ i.listed);
    not_mapped =
        ap (find n'.socket) c.same_mapped
        ∙ (ap (λ s. find s w.node_hash_map) m.same_socket ∙ i.not_mapped);
    has_medium = m.same_medium ∙ i.has_medium;
    reg_runs = ap (λ t. t.started) m.same_reg_timer ∙ i.reg_runs;
    tx_rests = ap (λ t. t.started) m.same_tx_timer ∙ i.tx_rests;
    not_sending = ap (contains q) c.same_sending ∙ i.not_sending;
    not_asking = c.no_new_asking q i.not_asking;
  }
  similar_state q n n' active m i = record {
    not_listed =
        ap (find n'.socket) c.same_listed
        ∙ (ap (λ s. find s w.reg_list_map) m.same_socket ∙ i.not_listed);
    mapped =
        ap (find n'.socket) c.same_mapped
        ∙ (ap (λ s. find s w.node_hash_map) m.same_socket ∙ i.mapped);
    has_medium = m.same_medium ∙ i.has_medium;
    tx_rests = ap (λ t. t.started) m.same_tx_timer ∙ i.tx_rests;
    not_sending = ap (contains q) c.same_sending ∙ i.not_sending;
  }
  similar_state q n n' transmitting m i = record {
    not_listed =
        ap (find n'.socket) c.same_listed
        ∙ (ap (λ s. find s w.reg_list_map) m.same_socket ∙ i.not_listed);
    mapped =
        ap (find n'.socket) c.same_mapped
        ∙ (ap (λ s. find s w.node_hash_map) m.same_socket ∙ i.mapped);
    has_medium = m.same_medium ∙ i.has_medium;
    tx_runs = ap (λ t. t.started) m.same_tx_timer ∙ i.tx_runs;
    sending = ap (contains q) c.same_sending ∙ i.sending;
    packet = m.keeps_packet i.packet.0 i.packet.1;
  }

  similar-Slot : (q : ℕ) (o : Option DeviceNode) → w.heap q ≡ o → Slot w q o → Slot w' q (w'.heap q)
  similar-Slot q none e (a, b) =
      subst (Slot w' q) (sym (c.still_gone q e))
        (ap (contains q) c.same_sending ∙ a, c.no_new_asking q b)
  similar-Slot q (some n) e i =
      let (n', f, m) = c.still_there q n e in
      subst (Slot w' q) (sym f)
        (subst (λ s. InState s w' q n') (sym m.same_state) (similar_state q n n' n.cur_state m i))

  similar-Points : (k q : ℕ) → Points w.heap k q → Points w'.heap k q
  similar-Points k q (n, e, s) = let (n', f, m) = c.still_there q n e in (n', f, m.same_socket ∙ s)

  pub similar-IsWell : IsWell w → IsWell w'
  similar-IsWell h = record {
    slots = λ q. similar-Slot q (w.heap q) refl (h.slots q);
    reg_points =
        λ k q e. similar-Points k q (h.reg_points k q (sym (ap (find k) c.same_listed) ∙ e));
    map_points =
        λ k q e. similar-Points k q (h.map_points k q (sym (ap (find k) c.same_mapped) ∙ e));
    reg_keys = subst (λ m. Distinct (keys m)) (sym c.same_listed) h.reg_keys;
    map_keys = subst (λ m. Distinct (keys m)) (sym c.same_mapped) h.map_keys;
    tx_distinct = subst Distinct (sym c.same_sending) h.tx_distinct;
  }

pub one_node_at : (n : DeviceNode) → Same n n
one_node_at n = record {
  same_socket = refl;
  same_state = refl;
  same_medium = refl;
  same_reg_timer = refl;
  same_tx_timer = refl;
  keeps_packet = λ pkt e. (pkt, e);
}

-- Where only what left the medium, its state, its time, its counters and fewer requests differ.
pub unlinked :
    (w w' : Medium)
    → w'.heap ≡ w.heap
    → w'.reg_list_map ≡ w.reg_list_map
    → w'.node_hash_map ≡ w.node_hash_map
    → w'.tx_list ≡ w.tx_list
    → ((q : ℕ) → contains q w.cca_list ≡ false → contains q w'.cca_list ≡ false)
    → IsWell w
    → IsWell w'
unlinked w w' e r m t a = similar-IsWell w w' (record {
  still_gone = λ q f. ap (λ g. g q) e ∙ f;
  still_there = λ q n f. (n, ap (λ g. g q) e ∙ f, one_node_at n);
  same_listed = r;
  same_mapped = m;
  same_sending = t;
  no_new_asking = a;
})
