-- ===== src/Thread/Turns.antt =====
-- Turns of the thread while all goes well: a message in the idle state, the way from the inner loop to
-- the outer one, and a look at the transmissions.
use x6losim.Prelude.{ℕ, ◌≡◌, refl, ap, ◌∙◌, List, [], ◌∷◌, true, Option, none, some, if◌then◌else◌}
use x6losim.Prelude.Fault.{Result, ok, fail, thrown}
use x6losim.Clock.{timespec_add_ms}
use x6losim.Store.{Medium, Kernel, ◌>>◌, >>-ok, pure, idle, tx_802514_frame}
use x6losim.Reader.{Recv, read_msg}
use x6losim.Medium.{
  process_cca_list, tx_collision_check, process_tx_list, check_node_registration_timeout,
  is_stopping_state,
}
use x6losim.Medium.Single.{message_event, message_event_lem}
use x6losim.Thread.{
  Wait, ready, Phase, outer, inner, after_inner, after_tx_wait, inner_step, thread_step, finish,
}
use x6losim.Thread.Interval.{waited, answered}
use x6losim.Thread.Stopping.{thread_step-waited}

-- The time is set forward by a wait.
abbrev pub later_by : ℕ → Medium → Medium
later_by ms w = record w { cur_time = timespec_add_ms w.cur_time ms }

-- A wait that one node's message ends, and one that nothing ends before its time.
abbrev pub brings : ℕ → Recv → Recv → (ℕ → ℕ) → ℕ → Wait
brings p first second junk _ = record {
  epoll = ready (message_event p first second junk ∷ []);
  left = some (0, 0);
}

abbrev pub silence : ℕ → Wait
silence _ = record { epoll = ready []; left = some (0, 0) }

pub waited-brings :
    (k : Kernel) (p : ℕ) (first second : Recv) (junk : ℕ → ℕ) (ms : ℕ) (w w' : Medium)
    → k.timer_settime ≡ true
    → read_msg k p first second junk (later_by ms w) ≡ ok (tt, w')
    → waited k (brings p first second junk 0) ms w ≡ ok (tt, w')
waited-brings k p first second junk ms w w' armed e =
    ap
      (λ b.
        if b
        then answered k (brings p first second junk 0).epoll (some (0, 0)) (later_by ms w)
        else fail thrown)
      armed
    ∙ message_event_lem k p first second junk (later_by ms w) w' e

pub waited-silence :
    (k : Kernel) (ms : ℕ) (w : Medium)
    → k.timer_settime ≡ true
    → waited k (silence 0) ms w ≡ ok (tt, later_by ms w)
waited-silence k ms w armed =
    ap (λ b. if b then answered k (ready []) (some (0, 0)) (later_by ms w) else fail thrown) armed

-- Without transmissions and registrations the thread goes from the inner loop to the outer one.
pub inner_ends :
    (k : Kernel) (answers : ℕ → Wait) (w : Medium)
    → thread_step 1 k answers inner
        (record w { state = tx_802514_frame; tx_list = []; reg_list_map = [] })
      ≡ some (ok (outer, record w { state = idle; tx_list = []; reg_list_map = [] }))
unfolding thread_step inner_step after_inner check_node_registration_timeout
inner_ends k answers w = refl

pub inner_rests :
    (k : Kernel) (answers : ℕ → Wait) (w : Medium)
    → thread_step 1 k answers inner (record w { state = idle; tx_list = []; reg_list_map = [] })
      ≡ some (ok (outer, record w { state = idle; tx_list = []; reg_list_map = [] }))
unfolding thread_step inner_step after_inner check_node_registration_timeout
inner_rests k answers w = refl

-- A turn of the inner loop: what the wait brings, the answers, the collisions and the transmissions.
pub inner_turn :
    (k : Kernel) (answers : ℕ → Wait) (w v : Medium) (q : ℕ) (qs : List ℕ) {a b c : Medium}
    → w.tx_list ≡ q ∷ qs
    → waited k (answers 0) 1 w ≡ ok (tt, record v { state = tx_802514_frame })
    → process_cca_list (record v { state = tx_802514_frame }) ≡ ok (tt, a)
    → tx_collision_check a ≡ ok (tt, b)
    → process_tx_list k b ≡ ok (tt, c)
    → thread_step 1 k answers inner w ≡ some (ok (inner, c))
unfolding after_tx_wait
inner_turn k answers w v q qs {a} {b} {c} l h answered_all marked looked =
    thread_step-waited 0 k answers inner w 1 ((q, qs, l), refl) h
    ∙ ap some (
        >>-ok process_cca_list (tx_collision_check >> (process_tx_list k >> pure inner))
          {w = record v { state = tx_802514_frame }} answered_all
        ∙ (>>-ok tx_collision_check (process_tx_list k >> pure inner) {w = a} marked
            ∙ >>-ok (process_tx_list k) (pure inner) {w = b} looked))

after_inner_lem :
    (k : Kernel) (w w' : Medium)
    → w.state ≡ tx_802514_frame
    → check_node_registration_timeout k (record w { state = idle }) ≡ ok (tt, w')
    → w'.state ≡ idle
    → after_inner k w ≡ ok (outer, w')
unfolding after_inner finish
after_inner_lem k w w' s checked rests = rw s (
    >>-ok (check_node_registration_timeout k)
      (λ v. if is_stopping_state v.state then finish v else pure outer v)
      {w = record w { state = idle }} checked
    ∙ rw rests refl)

-- The turn behind the last transmission.
pub inner_over :
    (k : Kernel) (answers : ℕ → Wait) (w w' : Medium)
    → w.tx_list ≡ []
    → w.state ≡ tx_802514_frame
    → check_node_registration_timeout k (record w { state = idle }) ≡ ok (tt, w')
    → w'.state ≡ idle
    → thread_step 1 k answers inner w ≡ some (ok (outer, w'))
unfolding thread_step inner_step
inner_over k answers w w' l s checked rests =
    ap (λ ps. inner_step 1 k answers ps w) l ∙ ap some (after_inner_lem k w w' s checked rests)

-- The thread's steps, each with what the kernel answers in it.
abbrev pub run_turns :
    List (Kernel × (ℕ → Wait)) → Phase → Medium → Option (Result (Phase × Medium))
run_turns [] p w = some (ok (p, w))
run_turns ((k, a) ∷ ts) p w = elim (thread_step 1 k a p w) [
  | none ↦ none
  | some (fail e) ↦ some (fail e)
  | some (ok (p', w')) ↦ run_turns ts p' w'
]

pub run_turns-next :
    (k : Kernel) (a : ℕ → Wait) (ts : List (Kernel × (ℕ → Wait))) (p p' : Phase) (w w' : Medium)
    → thread_step 1 k a p w ≡ some (ok (p', w'))
    → run_turns ((k, a) ∷ ts) p w ≡ run_turns ts p' w'
run_turns-next k a ts p p' w w' e = rw (run_turns, e) refl
