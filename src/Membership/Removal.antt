-- ===== src/Membership/Removal.antt =====
-- When `removeNodeFromTxList` ends.
use x6losim.Prelude.{
  ℕ, zero, suc, ◌≡◌, refl, ap, ◌∙◌, List, [], ◌∷◌, ◌++◌, Bool, true, false, none, some, ◌==◌,
  ==_refl, replicate, Bool-cases, inl, inr,
}
use x6losim.Prelude.Fault.{ok, asserted}
use x6losim.Store.{◌>>◌, check, modify, Medium, tx_802514_frame}
use x6losim.Membership.{is_tx_frame, remove_loop, remove_node_from_tx_list}

remove_loop_stays :
    (fuel p q : ℕ) (passed before after : List ℕ) (found : Bool)
    → (q == p) ≡ false
    → remove_loop fuel p passed (before ++ q ∷ after) found ≡ none
unfolding remove_loop
remove_loop_stays zero p q passed before after found d = refl
remove_loop_stays (suc fuel) p q passed [] after found d =
    rw d (remove_loop_stays fuel p q passed [] after found d)
remove_loop_stays (suc fuel) p q passed (b ∷ before) after found d = elim (Bool-cases (b == p)) [
  | inl same ↦ rw same (remove_loop_stays fuel p q passed before after true d)
  | inr other ↦ rw other (remove_loop_stays fuel p q passed (b ∷ before) after found d)
]

remove_loop_erases :
    (fuel p : ℕ) (passed rest : List ℕ) (found : Bool)
    → remove_loop (suc fuel) p passed (p ∷ rest) found ≡ remove_loop fuel p passed rest true
unfolding remove_loop
remove_loop_erases fuel p passed rest found = rw (==_refl p) refl

remove_loop_ends : (n p : ℕ) → remove_loop (suc n) p [] (replicate n p) true ≡ some ([], true)
unfolding remove_loop
remove_loop_ends zero p = refl
remove_loop_ends (suc n) p =
    remove_loop_erases (suc n) p [] (replicate n p) true ∙ remove_loop_ends n p

-- With another node anywhere on the list, `removeNodeFromTxList` never ends: no number of turns is
-- enough. With the node alone on it, once or several times, and the medium in the state of
-- transmission, it leaves the list empty after one turn for each entry and one for the end.
pub remove_node_from_tx_list_lem :
    (p : ℕ) (w : Medium)
    → ((fuel q : ℕ) (before after : List ℕ)
        → w.tx_list ≡ before ++ q ∷ after
        → (q == p) ≡ false
        → remove_node_from_tx_list fuel p w ≡ none)
      × ((n : ℕ)
          → w.tx_list ≡ replicate (suc n) p
          → w.state ≡ tx_802514_frame
          → remove_node_from_tx_list (suc (suc n)) p w ≡ some (ok (tt, record w { tx_list = [] })))
unfolding remove_node_from_tx_list
remove_node_from_tx_list_lem p w = (never, ends)
  where
    never :
        (fuel q : ℕ) (before after : List ℕ)
        → w.tx_list ≡ before ++ q ∷ after
        → (q == p) ≡ false
        → remove_node_from_tx_list fuel p w ≡ none
    never fuel q before after e d =
        let stays : remove_loop fuel p [] w.tx_list false ≡ none =
          ap (λ l. remove_loop fuel p [] l false) e
          ∙ remove_loop_stays fuel p q [] before after false d in
        rw (stays, remove_node_from_tx_list) refl

    ends :
        (n : ℕ)
        → w.tx_list ≡ replicate (suc n) p
        → w.state ≡ tx_802514_frame
        → remove_node_from_tx_list (suc (suc n)) p w ≡ some (ok (tt, record w { tx_list = [] }))
    ends n e s =
        let empty : remove_loop (suc (suc n)) p [] w.tx_list false ≡ some ([], true) =
          ap (λ l. remove_loop (suc (suc n)) p [] l false) e
          ∙ (remove_loop_erases (suc n) p [] (replicate n p) false ∙ remove_loop_ends n p) in
        rw (empty, remove_node_from_tx_list)
          (ap
            (λ t. some (
              (check (is_tx_frame t) asserted
                  >> (check true asserted >> modify (λ v. record v { tx_list = [] })))
                w))
            s)
