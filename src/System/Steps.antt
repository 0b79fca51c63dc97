-- ===== src/System/Steps.antt =====
-- The steps of a medium and of those who act on it, and what every reachable state has in common.
use x6losim.Prelude.{
  ℕ, ◌≡◌, refl, sym, subst, ap, inl, inr, [], ◌++◌, true, none, contains, map, Distinct, All,
}
use x6losim.Prelude.Fault.{ok}
use x6losim.Clock.{Timespec}
use x6losim.Store.{Medium, Kernel, PhysicalMediumState, ◌>>◌}
use x6losim.Membership.{add_node, deregister_node}
use x6losim.Node.{new_device_node}
use x6losim.Node.Transmission.{SetsTimers}
use x6losim.Node.Joining.{new_node_joins}
use x6losim.Reader.{Recv, read_msg}
use x6losim.Medium.{
  process_cca_list, tx_collision_check, process_tx_list, check_node_registration_timeout,
}
use x6losim.Medium.TxOutcome.{Answers}
use x6losim.System.{find, keys, Slot, IsWell}
use x6losim.Medium.Channel.{cca_answer}
use x6losim.System.Similar.{unlinked}
use x6losim.System.Membership.{IsIdle, IsFresh, joined-IsWell}
use x6losim.System.Finished.{finished-IsWell, collided-IsWell}
use x6losim.System.Timeouts.{AnswersReg, check_node_registration_timeout_lem}
use x6losim.System.Handlers.{result, Orderly, read_msg-IsWell, deregister-IsWell}
use x6losim.System.Safety.{IsComplete, answers_well, finishes_well, collides_well}

-- What can happen, each as a call that returned. `moves` are the assignments of the thread and of
-- `stop` to the state and the time.
pub data Step (w w' : Medium) : Type 0 where
  joins :
      (k : Kernel) (p socket sockfd : ℕ)
      → SetsTimers k
      → k.epoll_ctl ≡ true
      → w.heap p ≡ none
      → IsFresh w socket
      → (new_device_node k p socket sockfd true >> add_node k p) w ≡ ok (tt, w')
      → Step w w'
  reads :
      (k : Kernel) (p : ℕ) (first second : Recv) (junk : ℕ → ℕ)
      → Orderly p w w'
      → read_msg k p first second junk w ≡ ok (tt, w')
      → Step w w'
  leaves : (p : ℕ) → IsIdle w p → deregister_node p w ≡ ok (tt, w') → Step w w'
  answers : process_cca_list w ≡ ok (tt, w') → Step w w'
  collides : tx_collision_check w ≡ ok (tt, w') → Step w w'
  finishes :
      (k : Kernel)
      → All (IsComplete w.heap) w.tx_list
      → All (Answers k) w.tx_list
      → process_tx_list k w ≡ ok (tt, w')
      → Step w w'
  times_out :
      (k : Kernel)
      → All (AnswersReg k) w.reg_list_map
      → check_node_registration_timeout k w ≡ ok (tt, w')
      → Step w w'
  moves :
      (s : PhysicalMediumState) (t : Timespec)
      → w' ≡ record w { state = s; cur_time = t }
      → Step w w'

-- A medium without nodes.
pub record IsEmpty (w : Medium) : Type 0 where
  pub no_nodes : (p : ℕ) → w.heap p ≡ none
  pub no_listed : w.reg_list_map ≡ []
  pub no_mapped : w.node_hash_map ≡ []
  pub no_asking : w.cca_list ≡ []
  pub no_sending : w.tx_list ≡ []

pub data Reach (w₀ : Medium) : Medium → Type 0 where
  here : Reach w₀ w₀
  later : {v w : Medium} → Reach w₀ v → Step v w → Reach w₀ w

pub empty-IsWell : (w : Medium) → IsEmpty w → IsWell w
empty-IsWell w h = record {
  slots = λ p.
      subst (Slot w p) (sym (h.no_nodes p))
        (ap (contains p) h.no_sending, ap (contains p) h.no_asking);
  reg_points = λ key p e. let none_there = ap (find key) h.no_listed in cc;
  map_points = λ key p e. let none_there = ap (find key) h.no_mapped in cc;
  reg_keys = subst (λ m. Distinct (keys m)) (sym h.no_listed) tt;
  map_keys = subst (λ m. Distinct (keys m)) (sym h.no_mapped) tt;
  tx_distinct = subst Distinct (sym h.no_sending) tt;
}

pub Step-IsWell : {w w' : Medium} → Step w w' → IsWell w → IsWell w'
Step-IsWell {w} (joins k p socket sockfd sets adds free fresh run) h =
    result IsWell _ (new_node_joins k p socket sockfd w sets adds) run
      (joined-IsWell w p socket sockfd _ h free fresh)
Step-IsWell {w} (reads k p first second junk orderly run) h =
    read_msg-IsWell w h p k first second junk orderly run
Step-IsWell {w} (leaves p idle run) h = deregister-IsWell w h p idle run
Step-IsWell {w} (answers run) h =
    let w' : Medium = record w { cca_list = []; sent = w.sent ++ map (cca_answer w) w.cca_list } in
    result IsWell w' (answers_well w h) run (unlinked w w' refl refl refl refl (λ q a. refl) h)
Step-IsWell {w} (collides run) h = elim (collides_well w h) [
  | inl marks ↦ result IsWell _ marks run (collided-IsWell w w.tx_list h)
  | inr nothing ↦ result IsWell w nothing run h
]
Step-IsWell {w} (finishes k complete a run) h =
    let (w', done, left, o) = finishes_well w h k complete a in
    result IsWell w' done run (finished-IsWell k w w' o left h)
Step-IsWell {w} (times_out k a run) h =
    let (w', done, _, _, well) = check_node_registration_timeout_lem k w h a in
    result IsWell w' done run well
Step-IsWell {w} (moves s t e) h =
    let w' : Medium = record w { state = s; cur_time = t } in
    subst IsWell (sym e) (unlinked w w' refl refl refl refl (λ q a. a) h)

-- From a medium without nodes, whatever the nodes send and in whatever order they come, go, transmit
-- and time out, every state is well: a node's state, its timers, the maps, the two lists and its
-- packet agree. The steps are those of Step: a node that joins has an address and an identifier that
-- no other has, the calls return, the kernel answers for the timers, the packets on the list of
-- transmissions are complete when it is gone through, and no node is deleted while it is on one of the
-- two lists.
pub Reach-IsWell : {w₀ w : Medium} → IsEmpty w₀ → Reach w₀ w → IsWell w
Reach-IsWell {w₀} empty here = empty-IsWell w₀ empty
Reach-IsWell empty (later r st) = Step-IsWell st (Reach-IsWell empty r)
