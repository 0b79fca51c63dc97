-- ===== src/System/Progress.antt =====
-- What the thread can rely on in every reachable state.
use x6losim.Prelude.{ℕ, ◌≡◌, ◌⊎◌, true, contains, [], ◌++◌, map, not, keep, All}
use x6losim.Prelude.Fault.{ok, fail, dangling}
use x6losim.Membership.{deregister_node}
use x6losim.System.Dangling.{deregistered-dangles}
use x6losim.Store.{Medium, Kernel}
use x6losim.Medium.{
  process_cca_list, tx_collision_check, process_tx_list, check_node_registration_timeout,
}
use x6losim.Medium.TxOutcome.{Answers, is_over, Outcome}
use x6losim.Medium.Channel.{cca_answer, collided}
use x6losim.System.{IsWell}
use x6losim.System.Timeouts.{AnswersReg, is_late, Expiry, check_node_registration_timeout_lem}
use x6losim.System.Safety.{IsComplete, answers_well, finishes_well, collides_well}
use x6losim.System.Steps.{IsEmpty, Reach, Reach-IsWell}

-- In every state that is reached by the steps of Step, in which no node is deleted while it waits for an
-- answer or transmits, the four routines of the thread succeed, and no pointer that they follow is
-- dangling: each node on the list of channel assessments is answered; the collision check marks all
-- transmissions or changes nothing; with the kernel's answers for the timers, the transmissions whose
-- time is over are finished, where the packets have the frames that they promise; and the registrations
-- whose time is over are ended. Of the condition the first half is needed: in every such state, the deregistration of a
-- node that waits for an answer succeeds, and the thread then follows a dangling pointer.
pub reachable_work :
    {w₀ w : Medium}
    → IsEmpty w₀
    → Reach w₀ w
    → (process_cca_list w
        ≡ ok (tt, record w { cca_list = []; sent = w.sent ++ map (cca_answer w) w.cca_list }))
      × ((tx_collision_check w ≡ ok (tt, record w { heap = collided w.tx_list w.heap }))
          ⊎ (tx_collision_check w ≡ ok (tt, w)))
      × ((k : Kernel)
          → All (IsComplete w.heap) w.tx_list
          → All (Answers k) w.tx_list
          → (w' : Medium) × (process_tx_list k w ≡ ok (tt, w'))
            × (w'.tx_list ≡ keep (λ p. not (is_over k p)) w.tx_list)
            × Outcome k w w' w.tx_list)
      × ((k : Kernel)
          → All (AnswersReg k) w.reg_list_map
          → (w' : Medium) × (check_node_registration_timeout k w ≡ ok (tt, w'))
            × (w'.reg_list_map ≡ keep (λ e. not (is_late k e)) w.reg_list_map)
            × Expiry k w w' w.reg_list_map
            × IsWell w')
      × ((p : ℕ)
          → contains p w.cca_list ≡ true
          → (w' : Medium) × (deregister_node p w ≡ ok (tt, w'))
            × (process_cca_list w' ≡ fail dangling))
reachable_work {w} empty r =
    let h = Reach-IsWell empty r in
    (
      answers_well w h,
      collides_well w h,
      λ k. finishes_well w h k,
      λ k. check_node_registration_timeout_lem k w h,
      deregistered-dangles w h,
    )
