-- ===== src/Node/Joining.antt =====
-- A node that connects: its construction, and `addNode`.
use x6losim.Prelude.{ℕ, ◌≡◌, refl, ap, ◌∙◌, [], ◌∷◌, ◌++◌, true, false, none, some, replicate}
use x6losim.Prelude.Fault.{ok, thrown}
use x6losim.Wire.{registration_request}
use x6losim.Store.{
  Medium, Kernel, DeviceNode, registering, ◌>>=◌, ◌>>◌, >>-ok, deref, lift, check, update,
}
use x6losim.Store.Heap.{update_self, update-update}
use x6losim.Timer.{new_timer}
use x6losim.Timer.Laws.{start_lem}
use x6losim.Membership.{insert, watch_node, list_node, add_node}
use x6losim.Node.{new_device_node}
use x6losim.Node.Transmission.{SetsTimers}

-- The node when it has joined.
abbrev pub joined : ℕ → ℕ → DeviceNode
joined socket sockfd = record {
  socket = socket;
  sockfd = sockfd;
  has_medium = true;
  os = replicate 32 0;
  os_version = replicate 32 0;
  cur_state = registering;
  reg_timer = record { started = true; tv_sec = 120; tv_nsec = 0 };
  tx_timer = record { started = false; tv_sec = 0; tv_nsec = 0 };
  tx_pkt = none;
  failed_reads = 0;
}

pub watch_node_lem :
    (k : Kernel) (p : ℕ) (n : DeviceNode) (w : Medium)
    → w.heap p ≡ some n
    → k.epoll_ctl ≡ true
    → watch_node k p w
      ≡ ok (tt, record w { heap = update w.heap p (some (record n { has_medium = true })) })
unfolding watch_node
watch_node_lem k p n w e adds =
    let w' : Medium = record w { heap = update w.heap p (some (record n { has_medium = true })) } in
    rw (e, deref, ◌>>=◌) (ap (λ b. check b thrown w') adds)

pub add_node_lem :
    (k : Kernel) (p : ℕ) (n : DeviceNode) (w : Medium)
    → w.heap p ≡ some n
    → k.epoll_ctl ≡ true
    → add_node k p w
      ≡ ok (
        tt,
        record w {
          heap = update w.heap p (some (record n { has_medium = true }));
          reg_list_map = insert n.socket p w.reg_list_map;
        },
      )
unfolding add_node list_node
add_node_lem k p n w e adds =
    let n' : DeviceNode = record n { has_medium = true } in
    >>-ok (watch_node k p) (list_node p) {w = w} (watch_node_lem k p n w e adds)
    ∙ rw (update_self w.heap p (some n'), deref, ◌>>=◌) refl

module _ (k : Kernel) (p socket sockfd : ℕ) (w : Medium) (sets : SetsTimers k) where
  pub new_device_node_lem :
      new_device_node k p socket sockfd true w
      ≡ ok (
        tt,
        record w {
          sent = w.sent ++ (p, registration_request socket) ∷ [];
          heap = update w.heap p (some (record (joined socket sockfd) { has_medium = false }));
        },
      )
  unfolding new_device_node new_timer
  new_device_node_lem =
      rw (start_lem k (new_timer 120 0) sets.creates sets.sets refl, lift, ◌>>=◌) refl

  -- The node is registering, on the registration list, with its timer running for two minutes, and
  -- its registration request is on the way.
  pub new_node_joins :
      k.epoll_ctl ≡ true
      → (new_device_node k p socket sockfd true >> add_node k p) w
        ≡ ok (
          tt,
          record w {
            sent = w.sent ++ (p, registration_request socket) ∷ [];
            heap = update w.heap p (some (joined socket sockfd));
            reg_list_map = insert socket p w.reg_list_map;
          },
        )
  new_node_joins adds =
      let n : DeviceNode = record (joined socket sockfd) { has_medium = false } in
      let w' : Medium = record w {
        sent = w.sent ++ (p, registration_request socket) ∷ [];
        heap = update w.heap p (some n);
      } in
      let heaps = update-update w.heap p (some n) (some (joined socket sockfd)) in
      >>-ok (new_device_node k p socket sockfd true) (add_node k p) {w = w} new_device_node_lem
      ∙ (add_node_lem k p n w' (update_self w.heap p (some n)) adds ∙ (λ i. ok (
        tt,
        record w {
          sent = w.sent ++ (p, registration_request socket) ∷ [];
          heap = heaps i;
          reg_list_map = insert socket p w.reg_list_map;
        },
      )))
