-- ===== src/System/Requests.antt =====
-- The requests of a node that stays keep the medium well.
use x6losim.Prelude.{
  ℕ, ◌≡◌, refl, ◌⊎◌, inl, inr, sym, subst, ◌∙◌, List, [], ◌∷◌, ◌++◌, Option, none, some, ==_refl,
  arith,
}
use x6losim.Packet.{NetSimPacket}
use x6losim.Store.{Medium, DeviceNode, registering, active, transmitting, update}
use x6losim.Store.Heap.{update_self}
use x6losim.Membership.{insert, erase_key}
use x6losim.Node.Registration.{confirmed}
use x6losim.Node.Transmission.{sending}
use x6losim.System.{find, IsRegistering, IsActive, IsTransmitting, InState, Slot, Points, IsWell}
use x6losim.System.Maps.{
  Distinct-erase_key, Distinct-insert, find-insert, find-erase_key, contains-append_one,
  Distinct-append_one,
}
use x6losim.System.Change.{change-IsWell, as_state, own_node, sockets_differ}

module _ (w : Medium) (h : IsWell w) (p : ℕ) (n : DeviceNode) (e : w.heap p ≡ some n) where
  registered-Points :
      (heap : ℕ → Option DeviceNode) (m : DeviceNode) (q : ℕ)
      → heap p ≡ some m
      → m.socket ≡ n.socket
      → some p ≡ some q
      → Points heap n.socket q
  registered-Points heap m q f s g =
      let same : p ≡ q = cc in subst (Points heap n.socket) same (m, f, s)

  asked_slot :
      (n.cur_state ≡ active) ⊎ (n.cur_state ≡ transmitting)
      → InState n.cur_state (record w { cca_list = w.cca_list ++ p ∷ [] }) p n
  asked_slot (inl st) =
      let i : IsActive w p n = as_state w h p n e active st in
      subst (λ x. InState x (record w { cca_list = w.cca_list ++ p ∷ [] }) p n) (sym st)
        (record {
          not_listed = i.not_listed;
          mapped = i.mapped;
          has_medium = i.has_medium;
          tx_rests = i.tx_rests;
          not_sending = i.not_sending;
        })
  asked_slot (inr st) =
      let i : IsTransmitting w p n = as_state w h p n e transmitting st in
      subst (λ x. InState x (record w { cca_list = w.cca_list ++ p ∷ [] }) p n) (sym st)
        (record {
          not_listed = i.not_listed;
          mapped = i.mapped;
          has_medium = i.has_medium;
          tx_runs = i.tx_runs;
          sending = i.sending;
          packet = i.packet;
        })

  pub asked-IsWell :
      (n.cur_state ≡ active) ⊎ (n.cur_state ≡ transmitting)
      → IsWell (record w { cca_list = w.cca_list ++ p ∷ [] })
  asked-IsWell st =
      let w' : Medium = record w { cca_list = w.cca_list ++ p ∷ [] } in
      change-IsWell w w' p n.socket
        (record {
          other_nodes = λ q d. refl;
          other_listed = λ k d. refl;
          other_mapped = λ k d. refl;
          other_sending = λ q d. refl;
          other_asking = λ q d. ground (arith, contains-append_one q p w.cca_list);
          own_socket = own_node w h p n e;
          apart = sockets_differ w h p n e;
          own_slot = subst (Slot w' p) (sym e) (asked_slot st);
          own_listed = h.reg_points n.socket;
          own_mapped = h.map_points n.socket;
          still_keys = h.reg_keys;
          still_mapped_keys = h.map_keys;
          still_distinct = h.tx_distinct;
        })
        h

  -- A node whose registration is confirmed.
  pub confirmed-IsWell :
      (os os_version : List ℕ)
      → n.cur_state ≡ registering
      → IsWell (record w {
        heap = update w.heap p (some (confirmed os os_version n));
        reg_list_map = erase_key n.socket w.reg_list_map;
        node_hash_map = insert n.socket p w.node_hash_map;
      })
  confirmed-IsWell os os_version st =
      let n' : DeviceNode = confirmed os os_version n in
      let heap' = update w.heap p (some n') in
      let w' : Medium = record w {
        heap = heap';
        reg_list_map = erase_key n.socket w.reg_list_map;
        node_hash_map = insert n.socket p w.node_hash_map;
      } in
      let i : IsRegistering w p n = as_state w h p n e registering st in
      let erased = find-erase_key n.socket in
      let inserted = λ (k : ℕ). find-insert n.socket p k w.node_hash_map i.not_mapped in
      let gone : find n.socket w'.reg_list_map ≡ none =
        erased n.socket w.reg_list_map ∙ rw (==_refl n.socket) refl in
      let there : find n.socket w'.node_hash_map ≡ some p =
        inserted n.socket ∙ rw (==_refl n.socket) refl in
      change-IsWell w w' p n.socket
        (record {
          other_nodes = λ q d. rw d refl;
          other_listed = λ k d. erased k w.reg_list_map ∙ rw d refl;
          other_mapped = λ k d. inserted k ∙ rw d refl;
          other_sending = λ q d. refl;
          other_asking = λ q d. refl;
          own_socket = own_node w h p n e;
          apart = sockets_differ w h p n e;
          own_slot = subst (Slot w' p) (sym (update_self w.heap p (some n'))) (record {
            not_listed = gone;
            mapped = there;
            has_medium = i.has_medium;
            tx_rests = i.tx_rests;
            not_sending = i.not_sending;
          });
          own_listed = λ q f. cc (gone, f);
          own_mapped = λ q f.
              registered-Points heap' n' q (update_self w.heap p (some n')) refl (sym there ∙ f);
          still_keys = Distinct-erase_key n.socket w.reg_list_map h.reg_keys;
          still_mapped_keys = Distinct-insert n.socket p w.node_hash_map i.not_mapped h.map_keys;
          still_distinct = h.tx_distinct;
        })
        h

  -- A node that begins to transmit.
  pub sending-IsWell :
      (pkt : NetSimPacket)
      → n.cur_state ≡ active
      → IsWell (record w {
        heap = update w.heap p (some (sending pkt n));
        tx_list = w.tx_list ++ p ∷ [];
      })
  sending-IsWell pkt st =
      let n' : DeviceNode = sending pkt n in
      let heap' = update w.heap p (some n') in
      let w' : Medium = record w { heap = heap'; tx_list = w.tx_list ++ p ∷ [] } in
      let i : IsActive w p n = as_state w h p n e active st in
      change-IsWell w w' p n.socket
        (record {
          other_nodes = λ q d. rw d refl;
          other_listed = λ k d. refl;
          other_mapped = λ k d. refl;
          other_sending = λ q d. ground (arith, contains-append_one q p w.tx_list);
          other_asking = λ q d. refl;
          own_socket = own_node w h p n e;
          apart = sockets_differ w h p n e;
          own_slot = subst (Slot w' p) (sym (update_self w.heap p (some n'))) (record {
            not_listed = i.not_listed;
            mapped = i.mapped;
            has_medium = i.has_medium;
            tx_runs = refl;
            sending = ground (arith, contains-append_one p p w.tx_list, ==_refl p);
            packet = (pkt, refl);
          });
          own_listed = λ q f. cc (i.not_listed, f);
          own_mapped = λ q f.
              registered-Points heap' n' q (update_self w.heap p (some n')) refl (sym i.mapped ∙ f);
          still_keys = h.reg_keys;
          still_mapped_keys = h.map_keys;
          still_distinct = Distinct-append_one p w.tx_list i.not_sending h.tx_distinct;
        })
        h
