-- ===== src/Medium/Destruction.antt =====
-- Destruction of `PhysicalMedium_pimpl` (src/sim/PhysicalMedium.cpp): the nodes of its two maps are
-- deleted. The kernel's objects that it closes do not show in the state.
use x6losim.Prelude.{ℕ, List, [], ◌∷◌, ◌==◌}
use x6losim.Prelude.Fault.{asserted}
use x6losim.Store.{Medium, M, ◌>>=◌, ◌>>◌, deref, check, modify, delete, pure}

-- The entries of one of the two maps are the rest of an iteration.
abbrev pub set_listed : List (ℕ × ℕ) → Medium → Medium
set_listed m w = record w { reg_list_map = m }

abbrev pub set_mapped : List (ℕ × ℕ) → Medium → Medium
set_mapped m w = record w { node_hash_map = m }

-- The loop, which is the same for both maps.
unfoldable pub delete_nodes : (List (ℕ × ℕ) → Medium → Medium) → List (ℕ × ℕ) → M (Unit {0})
delete_nodes set [] = pure tt
delete_nodes set ((key, p) ∷ rest) = do
  n ← deref p
  check (n.socket == key) asserted
  modify (set rest)
  delete p
  delete_nodes set rest

unfoldable pub delete_medium : M (Unit {0})
unfolding delete_nodes
delete_medium = do
  λ w. delete_nodes set_listed w.reg_list_map w
  λ w. delete_nodes set_mapped w.node_hash_map w
