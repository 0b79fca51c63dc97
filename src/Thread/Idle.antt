-- ===== src/Thread/Idle.antt =====
-- What the nodes are told behind the wait in the idle state.
use x6losim.Prelude.{
  ℕ, suc, ◌≡◌, refl, ap, ◌∙◌, List, [], ◌∷◌, ◌++◌, map, Bool, true, false, Option, some, All,
  if◌then◌else◌,
}
use x6losim.Prelude.Fault.{ok}
use x6losim.Wire.{cca_confirm}
use x6losim.Store.{
  Medium, Kernel, DeviceNode, PhysicalMediumState, >>-ok, pure, idle, tx_802514_frame,
}
use x6losim.Medium.{process_cca_list}
use x6losim.Medium.Channel.{Alive, socket_at, process_cca_list_lem}
use x6losim.Thread.{Wait, outer, inner, set_tx_state, after_idle_wait, thread_step}
use x6losim.Thread.Interval.{waited}
use x6losim.Thread.Stopping.{thread_step-waited}

abbrev pub is_empty : List ℕ → Bool
is_empty [] = true
is_empty (_ ∷ _) = false

-- The answer that the medium is free, or not.
abbrev pub told : (ℕ → Option DeviceNode) → Bool → ℕ → ℕ × List ℕ
told heap free p = (p, cca_confirm (socket_at heap p) free)

abbrev pub state_with : List ℕ → PhysicalMediumState
state_with txs = if is_empty txs then idle else tx_802514_frame

after_idle_wait_lem :
    (w : Medium) (txs : List ℕ)
    → All (Alive w.heap) w.cca_list
    → after_idle_wait (record w { state = idle; tx_list = txs })
      ≡ ok (
        inner,
        record w {
          tx_list = txs;
          state = state_with txs;
          cca_list = [];
          sent = w.sent ++ map (told w.heap (is_empty txs)) w.cca_list;
        },
      )
unfolding after_idle_wait set_tx_state
after_idle_wait_lem w [] h =
    let w' : Medium = record w { state = idle; tx_list = [] } in
    >>-ok process_cca_list (pure inner) {w = w'} (process_cca_list_lem w' h)
after_idle_wait_lem w (t ∷ txs) h =
    let w' : Medium = record w { state = tx_802514_frame; tx_list = t ∷ txs } in
    >>-ok process_cca_list (pure inner) {w = w'} (process_cca_list_lem w' h)

-- In the idle state, where the wait and its events leave the medium idle and every pointer on the
-- list of channel assessments points to a node, the step tells each node on the list, in order, that
-- the medium is free exactly if no node has asked to transmit; the list is empty afterwards. The
-- medium is then in the state of transmission exactly if some node has.
pub thread_step_answers :
    (fuel : ℕ) (k : Kernel) (answers : ℕ → Wait) (w w' : Medium)
    → w.state ≡ idle
    → waited k (answers 0) 1000 w ≡ ok (tt, w')
    → w'.state ≡ idle
    → All (Alive w'.heap) w'.cca_list
    → thread_step (suc fuel) k answers outer w
      ≡ some (
          ok (
            inner,
            record w' {
              state = state_with w'.tx_list;
              cca_list = [];
              sent = w'.sent ++ map (told w'.heap (is_empty w'.tx_list)) w'.cca_list;
            },
          ))
thread_step_answers fuel k answers w w' e h e' alive =
    thread_step-waited fuel k answers outer w 1000 (e, refl) h
    ∙ ap some (
        ap (λ s. after_idle_wait (record w' { state = s })) e'
        ∙ after_idle_wait_lem w' w'.tx_list alive)
