-- ===== src/Membership/Tests.antt =====
-- `removeNodeFromTxList` with another node on the list.
use x6losim.Prelude.{◌≡◌, refl, [], ◌∷◌, none}
use x6losim.Store.Samples.{busy_medium}
use x6losim.Membership.{remove_node_from_tx_list}
use x6losim.Membership.Removal.{remove_node_from_tx_list_lem}

remove_node_from_tx_list_lem_example : remove_node_from_tx_list 100 1 busy_medium ≡ none
remove_node_from_tx_list_lem_example =
    (remove_node_from_tx_list_lem 1 busy_medium).0 100 2 (1 ∷ []) [] refl refl
