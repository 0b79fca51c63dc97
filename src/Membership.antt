-- ===== src/Membership.antt =====
-- The maps and lists of src/sim/PhysicalMedium.cpp: `addNode`, `registerNode`, `deregisterNode`,
-- `addNodeToCcaList`, `addNodeToTxList` and `removeNodeFromTxList`. A lock is held around each use
-- of the registration map, so a call is one step.
pub mod Removal
mod Tests
use x6losim.Prelude.{
  ℕ, zero, suc, List, [], ◌∷◌, ◌++◌, Bool, true, false, ◌||◌, Option, none, some, ◌==◌,
  if◌then◌else◌,
}
use x6losim.Prelude.Fault.{Result, asserted, thrown}
use x6losim.Store.{
  Medium, M, ◌>>=◌, ◌>>◌, check, modify, deref, store, delete, Kernel, PhysicalMediumState,
  tx_802514_frame,
}

-- `unordered_map`: at most one entry for a key, and `insert` does not replace one.
unfoldable pub contains_key : ℕ → List (ℕ × ℕ) → Bool
contains_key key [] = false
contains_key key ((k, p) ∷ m) = k == key || contains_key key m

unfoldable pub insert : ℕ → ℕ → List (ℕ × ℕ) → List (ℕ × ℕ)
unfolding contains_key
insert key p m = if contains_key key m then m else (key, p) ∷ m

unfoldable pub erase_key : ℕ → List (ℕ × ℕ) → List (ℕ × ℕ)
erase_key key [] = []
erase_key key ((k, p) ∷ m) = let rest = erase_key key m in if k == key then rest else (k, p) ∷ rest

-- `addNode` up to `epoll_ctl`, from where the medium's thread reads the node's messages.
-- `epoll_ctl` fails with -1, and both branches of the source throw.
unfoldable pub watch_node : Kernel → ℕ → M (Unit {0})
watch_node k p = do n ← deref p; store p (record n { has_medium = true }); check k.epoll_ctl thrown

-- And the rest, under the lock of the registration list.
unfoldable pub list_node : ℕ → M (Unit {0})
unfolding insert
list_node p = do
  n ← deref p
  modify (λ w. record w { reg_list_map = insert n.socket p w.reg_list_map })

unfoldable pub add_node : Kernel → ℕ → M (Unit {0})
unfolding watch_node list_node
add_node k p = do watch_node k p; list_node p

unfoldable pub add_node_to_cca_list : ℕ → M (Unit {0})
add_node_to_cca_list p = modify (λ w. record w { cca_list = w.cca_list ++ p ∷ [] })

unfoldable pub add_node_to_tx_list : ℕ → M (Unit {0})
add_node_to_tx_list p = modify (λ w. record w { tx_list = w.tx_list ++ p ∷ [] })

-- `assert(n == 1)` on the result of the erasure comes before the insertion.
unfoldable pub register_node : ℕ → M (Unit {0})
unfolding contains_key insert erase_key
register_node p = do
  n ← deref p
  λ w.
      (check (contains_key n.socket w.reg_list_map) asserted
          >> modify (λ v. record v {
            reg_list_map = erase_key n.socket v.reg_list_map;
            node_hash_map = insert n.socket p v.node_hash_map;
          }))
        w

unfoldable pub deregister_node : ℕ → M (Unit {0})
unfolding contains_key erase_key
deregister_node p = do
  n ← deref p
  λ w.
      (if contains_key n.socket w.reg_list_map
          then (modify (λ v. record v { reg_list_map = erase_key n.socket v.reg_list_map })
              >> delete p)
          else (check (contains_key n.socket w.node_hash_map) asserted
              >> (modify (λ v. record v { node_hash_map = erase_key n.socket v.node_hash_map })
                  >> delete p)))
        w

abbrev is_tx_frame : PhysicalMediumState → Bool
is_tx_frame tx_802514_frame = true
is_tx_frame _ = false

-- The loop of `removeNodeFromTxList`, on fuel: `erase` moves the iterator on, and nothing else does.
unfoldable pub remove_loop : ℕ → ℕ → List ℕ → List ℕ → Bool → Option (List ℕ × Bool)
remove_loop zero p passed rest found = none
remove_loop (suc fuel) p passed [] found = some (passed, found)
remove_loop (suc fuel) p passed (q ∷ rest) found =
    let again = remove_loop fuel p passed (q ∷ rest) found in
    let next = remove_loop fuel p passed rest true in if q == p then next else again

-- `assert(state == TX_802514_FRAME)` and `assert(found)` come after the loop; `none` is a loop that
-- did not end on this fuel.
unfoldable pub remove_node_from_tx_list : ℕ → ℕ → Medium → Option (Result (Unit {0} × Medium))
unfolding remove_loop
remove_node_from_tx_list fuel p w = elim (remove_loop fuel p [] w.tx_list false) [
  | none ↦ none
  | some (left, found) ↦ some (
      (check (is_tx_frame w.state) asserted
          >> (check found asserted >> modify (λ v. record v { tx_list = left })))
        w)
]
