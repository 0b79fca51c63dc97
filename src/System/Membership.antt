-- ===== src/System/Membership.antt =====
-- Nodes that come and go keep the medium well.
use x6losim.Prelude.{
  ℕ, ◌≡◌, refl, sym, subst, ◌∙◌, ◌⊎◌, List, false, Option, none, some, ◌==◌, ==_refl, ==_iff,
  contains, arith,
}
use x6losim.Store.{Medium, DeviceNode, registering, active, transmitting, update}
use x6losim.Store.Heap.{update_self}
use x6losim.Node.Joining.{joined}
use x6losim.Membership.{insert, erase_key}
use x6losim.System.{find, IsRegistering, Slot, Points, IsWell}
use x6losim.System.Maps.{Distinct-erase_key, Distinct-insert, find-insert, find-erase_key}
use x6losim.System.Change.{change-IsWell, as_state, own_node, sockets_differ, registered}

-- Nothing on the two request lists points to the node.
pub record IsIdle (w : Medium) (p : ℕ) : Type 0 where
  pub not_sending : contains p w.tx_list ≡ false
  pub not_asking : contains p w.cca_list ≡ false

module _ (w : Medium) (h : IsWell w) (p : ℕ) (n : DeviceNode) (e : w.heap p ≡ some n) where
  -- A registered node that leaves.
  pub left-IsWell :
      (n.cur_state ≡ active) ⊎ (n.cur_state ≡ transmitting)
      → IsIdle w p
      → IsWell (record w {
        heap = update w.heap p none;
        node_hash_map = erase_key n.socket w.node_hash_map;
      })
  left-IsWell st idle =
      let w' : Medium = record w {
        heap = update w.heap p none;
        node_hash_map = erase_key n.socket w.node_hash_map;
      } in
      let erased = λ (k : ℕ). find-erase_key n.socket k w.node_hash_map in
      change-IsWell w w' p n.socket
        (record {
          other_nodes = λ q d. rw d refl;
          other_listed = λ k d. refl;
          other_mapped = λ k d. erased k ∙ rw d refl;
          other_sending = λ q d. refl;
          other_asking = λ q d. refl;
          own_socket = own_node w h p n e;
          apart = sockets_differ w h p n e;
          own_slot =
              subst (Slot w' p) (sym (update_self w.heap p none))
                (idle.not_sending, idle.not_asking);
          own_listed = λ q f. cc (unlisted, f);
          own_mapped = λ q f.
              let gone : find n.socket w'.node_hash_map ≡ none =
                erased n.socket ∙ rw (==_refl n.socket) refl in
              cc (gone, f);
          still_keys = h.reg_keys;
          still_mapped_keys = Distinct-erase_key n.socket w.node_hash_map h.map_keys;
          still_distinct = h.tx_distinct;
        })
        h
    where
      unlisted : find n.socket w.reg_list_map ≡ none
      unlisted = (registered w h p n e st).0

  -- One that leaves before it is registered.
  pub unlisted-IsWell :
      n.cur_state ≡ registering
      → IsWell (record w {
        heap = update w.heap p none;
        reg_list_map = erase_key n.socket w.reg_list_map;
      })
  unlisted-IsWell st =
      let w' : Medium = record w {
        heap = update w.heap p none;
        reg_list_map = erase_key n.socket w.reg_list_map;
      } in
      let i : IsRegistering w p n = as_state w h p n e registering st in
      let erased = λ (k : ℕ). find-erase_key n.socket k w.reg_list_map in
      change-IsWell w w' p n.socket
        (record {
          other_nodes = λ q d. rw d refl;
          other_listed = λ k d. erased k ∙ rw d refl;
          other_mapped = λ k d. refl;
          other_sending = λ q d. refl;
          other_asking = λ q d. refl;
          own_socket = own_node w h p n e;
          apart = sockets_differ w h p n e;
          own_slot =
              subst (Slot w' p) (sym (update_self w.heap p none)) (i.not_sending, i.not_asking);
          own_listed = λ q f.
              let gone : find n.socket w'.reg_list_map ≡ none =
                erased n.socket ∙ rw (==_refl n.socket) refl in
              cc (gone, f);
          own_mapped = λ q f. cc (i.not_mapped, f);
          still_keys = Distinct-erase_key n.socket w.reg_list_map h.reg_keys;
          still_mapped_keys = h.map_keys;
          still_distinct = h.tx_distinct;
        })
        h

-- No node has the identifier.
abbrev pub IsFresh : Medium → ℕ → Type 0
IsFresh w socket = (q : ℕ) (m : DeviceNode) → w.heap q ≡ some m → (socket == m.socket) ≡ false

-- A node that joins, at an address where none is and with an identifier that none has.
pub joined-IsWell :
    (w : Medium) (p socket sockfd : ℕ) (sent : List (ℕ × List ℕ))
    → IsWell w
    → w.heap p ≡ none
    → IsFresh w socket
    → IsWell (record w {
      sent = sent;
      heap = update w.heap p (some (joined socket sockfd));
      reg_list_map = insert socket p w.reg_list_map;
    })
joined-IsWell w p socket sockfd sent h e fresh =
    let n : DeviceNode = joined socket sockfd in
    let heap' = update w.heap p (some n) in
    let w' : Medium = record w {
      sent = sent;
      heap = heap';
      reg_list_map = insert socket p w.reg_list_map;
    } in
    let inserted = λ (k : ℕ). find-insert socket p k w.reg_list_map unlisted in
    let here : find socket w'.reg_list_map ≡ some p = inserted socket ∙ rw (==_refl socket) refl in
    let slot : Slot w p none = subst (Slot w p) e (h.slots p) in
    change-IsWell w w' p socket
      (record {
        other_nodes = λ q d. rw d refl;
        other_listed = λ k d. inserted k ∙ rw d refl;
        other_mapped = λ k d. refl;
        other_sending = λ q d. refl;
        other_asking = λ q d. refl;
        own_socket = λ m f. cc (e, f);
        apart = λ q m d f. fresh q m f;
        own_slot = subst (Slot w' p) (sym (update_self w.heap p (some n))) (record {
          listed = here;
          not_mapped = unmapped;
          has_medium = refl;
          reg_runs = refl;
          tx_rests = refl;
          not_sending = slot.0;
          not_asking = slot.1;
        });
        own_listed = λ q f.
            let same : p ≡ q = cc (here, f) in
            subst (Points heap' socket) same (n, update_self w.heap p (some n), refl);
        own_mapped = λ q f. cc (unmapped, f);
        still_keys = Distinct-insert socket p w.reg_list_map unlisted h.reg_keys;
        still_mapped_keys = h.map_keys;
        still_distinct = h.tx_distinct;
      })
      h
  where
    nowhere : (q : ℕ) → Points w.heap socket q → ⊥
    nowhere q (m, f, s) = ground (arith, fresh q m f, ==_iff socket m.socket)

    missing : (o : Option ℕ) → ((q : ℕ) → o ≡ some q → Points w.heap socket q) → o ≡ none
    missing none points = refl
    missing (some q) points = absurd (nowhere q (points q refl))

    unlisted : find socket w.reg_list_map ≡ none
    unlisted = missing (find socket w.reg_list_map) (h.reg_points socket)

    unmapped : find socket w.node_hash_map ≡ none
    unmapped = missing (find socket w.node_hash_map) (h.map_points socket)
