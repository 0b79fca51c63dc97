-- ===== src/System/Draining.antt =====
-- The end of a round of transmissions: what the thread of a medium makes of any number of nodes that
-- transmit, once their time on the wire is over.
use x6losim.Prelude.{
  ℕ, ◌+◌, ◌≡◌, refl, sym, subst, ap, ◌∙◌, List, [], ◌∷◌, ◌++◌, map, true, not, Option, none, some,
  length, arith, All, contains, keep, Bool-cases, inl, inr,
}
use x6losim.Prelude.Fault.{ok}
use x6losim.Store.{Medium, Kernel, DeviceNode, active, idle, tx_802514_frame}
use x6losim.Medium.{
  process_cca_list, tx_collision_check, process_tx_list, check_node_registration_timeout,
}
use x6losim.Medium.Channel.{cca_answer}
use x6losim.Medium.Transmit.{retired}
use x6losim.Medium.TxOutcome.{
  is_over, packet_at, has_collided, bytes_out, indication, retire, Outcome,
}
use x6losim.Thread.{outer, inner, thread_step}
use x6losim.Thread.Turns.{
  later_by, silence, waited-silence, inner_turn, inner_over, run_turns, run_turns-next,
}
use x6losim.System.{IsWell, IsActive, find}
use x6losim.System.Change.{as_state}
use x6losim.System.Finished.{finished-IsWell}
use x6losim.System.Safety.{IsComplete, answers_well, finishes_well, tx_list_packets, sender}
use x6losim.System.Similar.{unlinked}
use x6losim.System.Steps.{IsEmpty, Reach, Reach-IsWell}
use x6losim.System.Timeouts.{
  AnswersReg, is_late, late_nodes, Expiry, check_node_registration_timeout_lem,
}
use x6losim.System.Marks.{marked_nodes, check_marks, marked-IsWell, marked-IsComplete}
use x6losim.Medium.Over.{
  IsOver, over-Answers, over_leave, over_told, over_goes_out, over_counted, over-contains,
}

-- What two turns of the thread leave of a medium `w` on which nodes transmit.
pub record IsDrained (w w' : Medium) : Type 0 where
  pub ends_idle : w'.state ≡ idle
  pub none_sends : w'.tx_list ≡ []
  pub none_waits : w'.cca_list ≡ []
  pub nodes_free :
      (p : ℕ)
      → contains p w.tx_list ≡ true
      → (n : DeviceNode) × (w'.heap p ≡ some n) × (n.cur_state ≡ active) × (n.tx_pkt ≡ none)
  pub all_told :
      w'.sent
      ≡ (w.sent ++ map (cca_answer w) w.cca_list) ++ map (indication (marked_nodes w)) w.tx_list
  pub multicast_after :
      w'.multicast
      ≡ w.multicast
        ++ map
            (λ p. bytes_out (packet_at (marked_nodes w) p))
            (keep (λ p. not (has_collided (packet_at (marked_nodes w) p))) w.tx_list)
  pub all_counted :
      w'.tx_pkts_ok + w'.tx_pkts_collided ≡ (w.tx_pkts_ok + w.tx_pkts_collided) + length w.tx_list
  pub well : IsWell w'

module _ (k k_next : Kernel) (w : Medium) (h : IsWell w)
    (some_sends : (q : ℕ) × (qs : List ℕ) × (w.tx_list ≡ q ∷ qs))
    (on_air : w.state ≡ tx_802514_frame) (armed : k.timer_settime ≡ true)
    (complete : All (IsComplete w.heap) w.tx_list) (over : All (IsOver k) w.tx_list)
    (a : All (AnswersReg k_next) w.reg_list_map) where
  -- The nodes that asked have been answered, and the collisions marked.
  abbrev told : Medium
  told = record (later_by 1 w) { cca_list = []; sent = w.sent ++ map (cca_answer w) w.cca_list }

  abbrev checked : Medium
  checked = record told { heap = marked_nodes w }

  told-IsWell : IsWell told
  told-IsWell = unlinked w told refl refl refl refl (λ q a. refl) h

  answers : process_cca_list (later_by 1 w) ≡ ok (tt, told)
  answers = answers_well (later_by 1 w) (unlinked w (later_by 1 w) refl refl refl refl (λ q a. a) h)

  marks : tx_collision_check told ≡ ok (tt, checked)
  marks = check_marks told (tx_list_packets told told-IsWell)

  finishes :
      (w' : Medium) × (process_tx_list k checked ≡ ok (tt, w'))
      × (w'.tx_list ≡ keep (λ p. not (is_over k p)) w.tx_list)
      × Outcome k checked w' w.tx_list
  finishes =
      finishes_well checked (marked-IsWell told told-IsWell) k (marked-IsComplete w complete)
        (over-Answers k w.heap w.tx_list over)

  -- Behind the last transmission.
  abbrev over_all : Medium
  over_all = finishes.0

  abbrev rests : Medium
  rests = record over_all { state = idle }

  over_all-IsWell : IsWell over_all
  over_all-IsWell =
      finished-IsWell k checked over_all finishes.3 finishes.2 (marked-IsWell told told-IsWell)

  none_left : over_all.tx_list ≡ []
  none_left = finishes.2 ∙ over_leave k w.heap w.tx_list over

  first_turn : thread_step 1 k silence inner w ≡ some (ok (inner, over_all))
  first_turn =
      let v = later_by 1 w in
      inner_turn k silence w v some_sends.0 some_sends.1 some_sends.2
        (waited-silence k 1 w armed ∙ ap (λ s. ok (tt, record v { state = s })) on_air)
        (ap (λ s. process_cca_list (record v { state = s })) (sym on_air) ∙ answers) marks
        finishes.1

  rests-IsWell : IsWell rests
  rests-IsWell = unlinked over_all rests refl refl refl refl (λ q a. a) over_all-IsWell

  expires :
      (w' : Medium) × (check_node_registration_timeout k_next rests ≡ ok (tt, w'))
      × (w'.reg_list_map ≡ keep (λ e. not (is_late k_next e)) rests.reg_list_map)
      × Expiry k_next rests w' rests.reg_list_map
      × IsWell w'
  expires =
      check_node_registration_timeout_lem k_next rests rests-IsWell
        (subst (All (AnswersReg k_next)) (sym finishes.3.reg_after) a)

  -- At the start of the outer loop.
  abbrev at_rest : Medium
  at_rest = expires.0

  -- What the ends of registrations leave alone.
  kept {ℓ} :
      {A : Type ℓ} (f : Medium → A)
      → ((heap : ℕ → Option DeviceNode) (m : List (ℕ × ℕ))
          → f (record rests { heap = heap; reg_list_map = m }) ≡ f rests)
      → f at_rest ≡ f rests
  kept f same = ap f expires.3.rest_after ∙ same at_rest.heap at_rest.reg_list_map

  second_turn : thread_step 1 k_next silence inner over_all ≡ some (ok (outer, at_rest))
  second_turn =
      inner_over k_next silence over_all at_rest none_left (finishes.3.state_after ∙ on_air)
        expires.1 (kept (λ v. v.state) (λ g m. refl))

  -- Every node that transmitted is still there, and active.
  is_free :
      (p : ℕ)
      → contains p w.tx_list ≡ true
      → (n : DeviceNode) × (at_rest.heap p ≡ some n) × (n.cur_state ≡ active) × (n.tx_pkt ≡ none)
  is_free p c =
      let (n, e, _, _) = sender checked (marked-IsWell told told-IsWell) p c in
      let over_p = over-contains k w.heap w.tx_list p over c in
      let ended : over_all.heap p ≡ some (retired n) =
        finishes.3.heap_after p ∙ (rw (c, over_p) (ap retire e)) in
      let i : IsActive over_all p (retired n) =
        as_state over_all over_all-IsWell p (retired n) ended active refl in
      let maps = kept (λ v. v.node_hash_map) (λ g m. refl) in
      let (m, there, _) = expires.4.map_points n.socket p (ap (find n.socket) maps ∙ i.mapped) in
      let late = contains p (late_nodes k_next rests.reg_list_map) in
      elim (Bool-cases late) [
        | inl gone ↦
            let none_there : at_rest.heap p ≡ none = expires.3.nodes_after p ∙ rw gone refl in
            absurd cc
        | inr stays ↦ (retired n, expires.3.nodes_after p ∙ (rw stays ended), refl, refl)
      ]

  at_rest-IsDrained : IsDrained w at_rest
  at_rest-IsDrained = record {
    ends_idle = kept (λ v. v.state) (λ g m. refl);
    none_sends = kept (λ v. v.tx_list) (λ g m. refl) ∙ none_left;
    none_waits = kept (λ v. v.cca_list) (λ g m. refl) ∙ finishes.3.cca_after;
    nodes_free = is_free;
    all_told =
        kept (λ v. v.sent) (λ g m. refl)
        ∙ (finishes.3.sent_after
            ∙ ap (λ ps. told.sent ++ map (indication (marked_nodes w)) ps)
                (over_told k w.heap w.tx_list over));
    multicast_after =
        kept (λ v. v.multicast) (λ g m. refl)
        ∙ (finishes.3.multicast_after
            ∙ ap (λ ps. w.multicast ++ map (λ p. bytes_out (packet_at (marked_nodes w) p)) ps)
                (over_goes_out k (marked_nodes w) w.tx_list over));
    all_counted =
        let oks = kept (λ v. v.tx_pkts_ok) (λ g m. refl) in
        let losses = kept (λ v. v.tx_pkts_collided) (λ g m. refl) in
        let parts = over_counted k (marked_nodes w) w.tx_list over in
        let oks_counted = finishes.3.ok_after in
        let losses_counted = finishes.3.collided_after in omega arith;
    well = expires.4;
  }

  both_turns :
      run_turns ((k, silence) ∷ (k_next, silence) ∷ []) inner w ≡ some (ok (outer, at_rest))
  both_turns =
      run_turns-next k silence ((k_next, silence) ∷ []) inner inner w over_all first_turn
      ∙ run_turns-next k_next silence [] inner outer over_all at_rest second_turn

-- Transmissions end. In a reachable state in which nodes transmit, however many, with whole packets,
-- and the medium's state says so, the kernel sets the timer of the wait, says that the time of all
-- transmissions is over and in the next turn answers for the registrations, and no event comes. Then
-- the thread is after two turns at the start of its outer loop, in the idle state and with both lists
-- empty. Every node that transmitted is still there and is active, without a packet. Each that waited
-- for an answer got one, and then each that transmitted one indication, in order, which says whether
-- its packet collided: on the power line all that transmit do, where there are two or more. The
-- packets that did not collide went to the multicast group, in order; each transmission is counted
-- once as successful or collided; and the state is well.
pub transmissions_end :
    {w₀ w : Medium} (k k_next : Kernel) (q : ℕ) (qs : List ℕ)
    → IsEmpty w₀
    → Reach w₀ w
    → w.tx_list ≡ q ∷ qs
    → w.state ≡ tx_802514_frame
    → k.timer_settime ≡ true
    → All (IsComplete w.heap) w.tx_list
    → All (IsOver k) w.tx_list
    → All (AnswersReg k_next) w.reg_list_map
    → (w' : Medium) × (run_turns ((k, silence) ∷ (k_next, silence) ∷ []) inner w
        ≡ some (ok (outer, w')))
      × IsDrained w w'
transmissions_end {w = w} k k_next q qs empty r l on_air armed complete over a =
    let h = Reach-IsWell empty r in
    (
      at_rest k k_next w h (q, qs, l) on_air armed complete over a,
      both_turns k k_next w h (q, qs, l) on_air armed complete over a,
      at_rest-IsDrained k k_next w h (q, qs, l) on_air armed complete over a,
    )
