-- ===== src/Reader/Confined.antt =====
-- What a message of one node can change.
use mathlib.Core.List.{append_assoc, append-nil}
use x6losim.Prelude.{
  ℕ, zero, suc, ◌+◌, ◌≡◌, refl, ap, sym, ◌∙◌, List, [], ◌∷◌, ◌++◌, map, false, ◌==◌, Option, none,
  some, arith, replicate,
}
use x6losim.Prelude.Fault.{ok}
use x6losim.Store.{Medium, Kernel, DeviceNode, update}
use x6losim.Store.Frame.{Frame}
use x6losim.Reader.{Recv, read_msg}
use x6losim.Reader.Frame.{read_msg-Keeps}

-- A list that a node was added to, at the end and any number of times.
abbrev pub Added : ℕ → List ℕ → List ℕ → Type 0
Added p before after = (n : ℕ) × (after ≡ before ++ replicate n p)

-- What was sent in between went to one node.
abbrev pub SentTo : ℕ → List (ℕ × List ℕ) → List (ℕ × List ℕ) → Type 0
SentTo p before after = (msgs : List (List ℕ)) × (after ≡ before ++ map (λ m. (p, m)) msgs)

-- The changes between two states are those of one node: the node itself, its memberships, its
-- requests and the messages to it.
pub record Confined (p : ℕ) (w w' : Medium) : Type 0 where
  pub same_kind : w'.kind ≡ w.kind
  pub same_time : w'.cur_time ≡ w.cur_time
  pub same_state : w'.state ≡ w.state
  pub same_nodes : (q : ℕ) → (p == q) ≡ false → w'.heap q ≡ w.heap q
  pub cca_requests : Added p w.cca_list w'.cca_list
  pub tx_requests : Added p w.tx_list w'.tx_list
  pub same_ok : w'.tx_pkts_ok ≡ w.tx_pkts_ok
  pub same_collided : w'.tx_pkts_collided ≡ w.tx_pkts_collided
  pub same_failed : w'.tx_pkts_failed ≡ w.tx_pkts_failed
  pub sent_messages : SentTo p w.sent w'.sent
  pub same_multicast : w'.multicast ≡ w.multicast
  pub same_dumped : w'.dumped ≡ w.dumped

confined :
    (p : ℕ) (w : Medium) {heap : ℕ → Option DeviceNode} {reg nodes : List (ℕ × ℕ)} {cca tx : List ℕ}
    {sent : List (ℕ × List ℕ)}
    → ((q : ℕ) → (p == q) ≡ false → heap q ≡ w.heap q)
    → Added p w.cca_list cca
    → Added p w.tx_list tx
    → SentTo p w.sent sent
    → Confined p w (record w {
      heap = heap;
      reg_list_map = reg;
      node_hash_map = nodes;
      cca_list = cca;
      tx_list = tx;
      sent = sent;
    })
confined p w h c t s = record {
  same_kind = refl;
  same_time = refl;
  same_state = refl;
  same_nodes = h;
  cca_requests = c;
  tx_requests = t;
  same_ok = refl;
  same_collided = refl;
  same_failed = refl;
  sent_messages = s;
  same_multicast = refl;
  same_dumped = refl;
}

no_request : (p : ℕ) (ps : List ℕ) → Added p ps ps
no_request p ps = (0, sym (append-nil ps))

no_message : (p : ℕ) (sent : List (ℕ × List ℕ)) → SentTo p sent sent
no_message p sent = ([], sym (append-nil sent))

changed_heap :
    (p : ℕ) (w : Medium) (n : Option DeviceNode)
    → Confined p w (record w { heap = update w.heap p n })
changed_heap p w n =
    confined p w (λ q h. rw h refl) (no_request p w.cca_list) (no_request p w.tx_list)
      (no_message p w.sent)

append-replicate : (m n p : ℕ) → replicate m p ++ replicate n p ≡ replicate (m + n) p
append-replicate zero n p = ap (λ k. replicate k p) (omega arith)
append-replicate (suc m) n p =
    ap (◌∷◌ p) (append-replicate m n p)
    ∙ ap (λ k. replicate k p) (let e : suc (m + n) ≡ suc m + n = omega arith in e)

Added-trans : (p : ℕ) (a : List ℕ) {b c : List ℕ} → Added p a b → Added p b c → Added p a c
Added-trans p a (m, e) (n, f) = (
  m + n,
  f
      ∙ (ap (λ x. x ++ replicate n p) e
          ∙ (append_assoc a (replicate m p) (replicate n p)
              ∙ ap (◌++◌ a) (append-replicate m n p))),
)

map-append_to :
    (p : ℕ) (ms ns : List (List ℕ))
    → map {B = ℕ × List ℕ} (λ m. (p, m)) ms ++ map (λ m. (p, m)) ns ≡ map (λ m. (p, m)) (ms ++ ns)
map-append_to p [] ns = refl
map-append_to p (m ∷ ms) ns = ap (◌∷◌ (p, m)) (map-append_to p ms ns)

SentTo-trans :
    (p : ℕ) (a : List (ℕ × List ℕ)) {b c : List (ℕ × List ℕ)}
    → SentTo p a b
    → SentTo p b c
    → SentTo p a c
SentTo-trans p a (ms, e) (ns, f) = (
  ms ++ ns,
  f
      ∙ (ap (λ x. x ++ map (λ m. (p, m)) ns) e
          ∙ (append_assoc a (map (λ m. (p, m)) ms) (map (λ m. (p, m)) ns)
              ∙ ap (◌++◌ a) (map-append_to p ms ns))),
)

chained : {p : ℕ} {u v w : Medium} → Confined p u v → Confined p v w → Confined p u w
chained {p} {u} c d = record {
  same_kind = d.same_kind ∙ c.same_kind;
  same_time = d.same_time ∙ c.same_time;
  same_state = d.same_state ∙ c.same_state;
  same_nodes = λ q h. d.same_nodes q h ∙ c.same_nodes q h;
  cca_requests = Added-trans p u.cca_list c.cca_requests d.cca_requests;
  tx_requests = Added-trans p u.tx_list c.tx_requests d.tx_requests;
  same_ok = d.same_ok ∙ c.same_ok;
  same_collided = d.same_collided ∙ c.same_collided;
  same_failed = d.same_failed ∙ c.same_failed;
  sent_messages = SentTo-trans p u.sent c.sent_messages d.sent_messages;
  same_multicast = d.same_multicast ∙ c.same_multicast;
  same_dumped = d.same_dumped ∙ c.same_dumped;
}

Confined-Frame : (p : ℕ) → Frame p (Confined p)
Confined-Frame p = record {
  same = λ w. others w (no_request p w.cca_list) (no_request p w.tx_list) (no_message p w.sent);
  next = chained;
  changes_node = λ w n. changed_heap p w (some n);
  deletes_node = λ w. changed_heap p w none;
  sends = λ w msg. others w (no_request p w.cca_list) (no_request p w.tx_list) (msg ∷ [], refl);
  asks_cca = λ w. others w (1, refl) (no_request p w.tx_list) (no_message p w.sent);
  asks_tx = λ w. others w (no_request p w.cca_list) (1, refl) (no_message p w.sent);
  changes_maps = λ w reg nodes.
      others w (no_request p w.cca_list) (no_request p w.tx_list) (no_message p w.sent);
}
  where
    others :
        (w : Medium) {reg nodes : List (ℕ × ℕ)} {cca tx : List ℕ} {sent : List (ℕ × List ℕ)}
        → Added p w.cca_list cca
        → Added p w.tx_list tx
        → SentTo p w.sent sent
        → Confined p w (record w {
          reg_list_map = reg;
          node_hash_map = nodes;
          cca_list = cca;
          tx_list = tx;
          sent = sent;
        })
    others w c t s = confined p w (λ q h. refl) c t s

-- Whatever a node sends and whatever state it is in, where its `readMsg` returns, only that node has
-- changed: the other nodes, the state, the time, the counters and what went to the multicast group
-- and the capture file are as before, the node has at most been added to the ends of the two
-- request lists, and messages went to it alone. The two maps are left open.
pub read_msg-Confined :
    (k : Kernel) (p : ℕ) (first second : Recv) (junk : ℕ → ℕ) (w w' : Medium)
    → read_msg k p first second junk w ≡ ok (tt, w')
    → Confined p w w'
read_msg-Confined k p first second junk w w' h =
    read_msg-Keeps (Confined-Frame p) k first second junk w w' tt h
