-- ===== src/Thread/Points/Stop.antt =====
-- A `stop` that comes at any point of the thread: where it ends the thread, and where it is lost.
use x6losim.Prelude.{
  ℕ, zero, suc, ◌≤◌, ◌≡◌, refl, sym, ap, ◌∙◌, ◌⊎◌, inl, inr, List, [], ◌∷◌, Bool, true, false,
  Option, none, some, if◌then◌else◌, arith, subst,
}
use x6losim.Prelude.Fault.{Fault, Result, ok, fail, thrown}
use x6losim.Clock.{timespec_add_ms}
use x6losim.Store.{Medium, Kernel, stopping, tx_802514_frame}
use x6losim.Medium.{
  process_cca_list, tx_collision_check, process_tx_list, check_node_registration_timeout,
  is_idle_state, is_stopping_state,
}
use x6losim.Medium.StateKept.{
  process_cca_list-Keeps, tx_collision_check-Keeps, process_tx_list-Keeps,
  check_node_registration_timeout-Keeps,
}
use x6losim.Thread.{Wait, wait_loop, stop_medium}
use x6losim.Thread.Interval.{wait_loop_lem, answered}
use x6losim.Thread.Shutdown.{answered_stopping}
use x6losim.Thread.Points.{
  Point, idle_test, idle_arm, idle_wait, idle_stop_test, idle_list_test, idle_set, idle_answers,
  tx_test, tx_arm, tx_wait, tx_stop_test, tx_answers, tx_check, tx_process, end_test, end_set,
  end_timeouts, loop_test, exit_set, ended, arm, go, go_waited, by_list, point_step, is_ended,
  join_thread,
}

-- The points between a test of the state and the assignment that overwrites it.
abbrev pub Loses : Point → List ℕ → Type 0
Loses idle_list_test [] = ⊥
Loses idle_list_test (_ ∷ _) = Unit {0}
Loses idle_set _ = Unit {0}
Loses end_set _ = Unit {0}
Loses _ _ = ⊥

-- An upper bound of the steps to the end, once the state is that of stopping.
abbrev pub rank : Point → ℕ
rank ended = 0
rank exit_set = 1
rank loop_test = 2
rank end_test = 3
rank end_timeouts = 3
rank end_set = 4
rank tx_stop_test = 4
rank tx_wait = 5
rank tx_arm = 6
rank tx_test = 7
rank tx_process = 8
rank tx_check = 9
rank tx_answers = 10
rank idle_test = 8
rank idle_answers = 8
rank idle_set = 9
rank idle_list_test = 10
rank idle_stop_test = 2
rank idle_wait = 3
rank idle_arm = 4

-- The thread is on its way to its end.
abbrev Doomed : Point → Medium → Type 0
Doomed ended w = Unit {0}
Doomed idle_set w = ⊥
Doomed end_set w = ⊥
Doomed idle_list_test w = (w.state ≡ stopping) × (w.tx_list ≡ [])
Doomed _ w = w.state ≡ stopping

abbrev Next : Point → Option (Result (Point × Medium)) → Type 0
Next q none = ⊥
Next q (some (fail e)) = Unit {0}
Next q (some (ok (q', w'))) = Doomed q' w' × (suc (rank q') ≤ rank q)

stops_at : (w : Medium) → w.state ≡ stopping → is_stopping_state w.state ≡ true
stops_at w e = ap is_stopping_state e

-- A call that keeps the state, followed by a point that only needs it.
call-Next :
    (q q' : Point) (w : Medium) (r : Result (Unit {0} × Medium))
    → suc (rank q') ≤ rank q
    → ((v : Medium) → v.state ≡ stopping → Doomed q' v)
    → ((v : Medium) → r ≡ ok (tt, v) → v.state ≡ stopping)
    → Next q (some (go q' r))
unfolding go
call-Next q q' w (ok (_, v)) less doomed kept = (doomed v (kept v refl), less)
call-Next q q' w (fail e) less doomed kept = tt

arm-state :
    (k : Kernel) (ms : ℕ) (w v : Medium)
    → w.state ≡ stopping
    → arm k ms w ≡ ok (tt, v)
    → v.state ≡ stopping
unfolding arm
arm-state k ms w v s h = by_timer k.timer_settime h
  where
    by_timer :
        (b : Bool)
        → ◌≡◌ {A = Result (Unit {0} × Medium)}
            (if b
              then ok (tt, record w { cur_time = timespec_add_ms w.cur_time ms })
              else fail thrown)
            (ok (tt, v))
        → v.state ≡ stopping
    by_timer true g =
        let same : record w { cur_time = timespec_add_ms w.cur_time ms } ≡ v = cc in
        ap (λ u. u.state) (sym same) ∙ s
    by_timer false g = cc

wait-Next :
    (k : Kernel) (a : ℕ → Wait) (q q' : Point) (w : Medium)
    → suc (rank q') ≤ rank q
    → ((v : Medium) → v.state ≡ stopping → Doomed q' v)
    → w.state ≡ stopping
    → Next q (go_waited q' (wait_loop 1 k a w))
unfolding go_waited
wait-Next k a q q' w less doomed s = rw (wait_loop_lem 0 k a w) (
    call-Next q q' w (answered k (a 0).epoll (a 0).left w) less doomed
      (λ v. answered_stopping k (a 0).epoll (a 0).left w v s))

step-Next :
    (k : Kernel) (a : ℕ → Wait) (q : Point) (w : Medium)
    → Doomed q w
    → (q ≡ ended → ⊥)
    → Next q (point_step 1 k a q w)
unfolding point_step by_list
step-Next k a idle_test w s n =
    let b : is_idle_state w.state ≡ false = ap is_idle_state s in rw b (s, omega arith)
step-Next k a idle_arm w s n =
    call-Next idle_arm idle_wait w (arm k 1000 w) (omega arith) (λ v e. e)
      (λ v. arm-state k 1000 w v s)
step-Next k a idle_wait w s n = wait-Next k a idle_wait idle_stop_test w (omega arith) (λ v e. e) s
step-Next k a idle_stop_test w s n = rw (stops_at w s) (s, omega arith)
step-Next k a idle_list_test w (s, l) n = rw l (s, omega arith)
step-Next k a idle_set w s n = absurd s
step-Next k a idle_answers w s n =
    call-Next idle_answers tx_test w (process_cca_list w) (omega arith) (λ v e. e)
      (λ v h. process_cca_list-Keeps w v tt h ∙ s)
step-Next k a tx_test w s n = by_txs w.tx_list
  where
    by_txs : (l : List ℕ) → Next tx_test (some (ok (by_list l end_test tx_arm, w)))
    by_txs [] = (s, omega arith)
    by_txs (_ ∷ _) = (s, omega arith)
step-Next k a tx_arm w s n =
    call-Next tx_arm tx_wait w (arm k 1 w) (omega arith) (λ v e. e) (λ v. arm-state k 1 w v s)
step-Next k a tx_wait w s n = wait-Next k a tx_wait tx_stop_test w (omega arith) (λ v e. e) s
step-Next k a tx_stop_test w s n = rw (stops_at w s) (s, omega arith)
step-Next k a tx_answers w s n =
    call-Next tx_answers tx_check w (process_cca_list w) (omega arith) (λ v e. e)
      (λ v h. process_cca_list-Keeps w v tt h ∙ s)
step-Next k a tx_check w s n =
    call-Next tx_check tx_process w (tx_collision_check w) (omega arith) (λ v e. e)
      (λ v h. tx_collision_check-Keeps w v tt h ∙ s)
step-Next k a tx_process w s n =
    call-Next tx_process tx_test w (process_tx_list k w) (omega arith) (λ v e. e)
      (λ v h. process_tx_list-Keeps k w v tt h ∙ s)
step-Next k a end_test w s n = rw (stops_at w s) (s, omega arith)
step-Next k a end_set w s n = absurd s
step-Next k a end_timeouts w s n =
    call-Next end_timeouts loop_test w (check_node_registration_timeout k w) (omega arith)
      (λ v e. e) (λ v h. check_node_registration_timeout-Keeps k w v tt h ∙ s)
step-Next k a loop_test w s n = rw (stops_at w s) (s, omega arith)
step-Next k a exit_set w s n = (tt, omega arith)
step-Next k a ended w s n = absurd (n refl)

ended_or_before : (q : Point) → (q ≡ ended) ⊎ (1 ≤ rank q)
ended_or_before ended = inl refl
ended_or_before idle_test = inr (omega arith)
ended_or_before idle_arm = inr (omega arith)
ended_or_before idle_wait = inr (omega arith)
ended_or_before idle_stop_test = inr (omega arith)
ended_or_before idle_list_test = inr (omega arith)
ended_or_before idle_set = inr (omega arith)
ended_or_before idle_answers = inr (omega arith)
ended_or_before tx_test = inr (omega arith)
ended_or_before tx_arm = inr (omega arith)
ended_or_before tx_wait = inr (omega arith)
ended_or_before tx_stop_test = inr (omega arith)
ended_or_before tx_answers = inr (omega arith)
ended_or_before tx_check = inr (omega arith)
ended_or_before tx_process = inr (omega arith)
ended_or_before end_test = inr (omega arith)
ended_or_before end_set = inr (omega arith)
ended_or_before end_timeouts = inr (omega arith)
ended_or_before loop_test = inr (omega arith)
ended_or_before exit_set = inr (omega arith)

rank_at_most_ten : (q : Point) → rank q ≤ 10
rank_at_most_ten ended = omega arith
rank_at_most_ten idle_test = omega arith
rank_at_most_ten idle_arm = omega arith
rank_at_most_ten idle_wait = omega arith
rank_at_most_ten idle_stop_test = omega arith
rank_at_most_ten idle_list_test = omega arith
rank_at_most_ten idle_set = omega arith
rank_at_most_ten idle_answers = omega arith
rank_at_most_ten tx_test = omega arith
rank_at_most_ten tx_arm = omega arith
rank_at_most_ten tx_wait = omega arith
rank_at_most_ten tx_stop_test = omega arith
rank_at_most_ten tx_answers = omega arith
rank_at_most_ten tx_check = omega arith
rank_at_most_ten tx_process = omega arith
rank_at_most_ten end_test = omega arith
rank_at_most_ten end_set = omega arith
rank_at_most_ten end_timeouts = omega arith
rank_at_most_ten loop_test = omega arith
rank_at_most_ten exit_set = omega arith

join-ended :
    (n : ℕ) (k : Kernel) (answers : ℕ → ℕ → Wait) (w : Medium)
    → join_thread n k answers ended w ≡ some (ok w)
unfolding join_thread point_step is_ended
join-ended zero k answers w = refl
join-ended (suc n) k answers w = join-ended n k (λ i. answers (suc i)) w

-- The join returns, or a call throws.
abbrev pub IsOver : Option (Result Medium) → Type 0
IsOver r = ((w : Medium) × (r ≡ some (ok w))) ⊎ ((e : Fault) × (r ≡ some (fail e)))

joins :
    (n : ℕ) (k : Kernel) (answers : ℕ → ℕ → Wait) (q : Point) (w : Medium)
    → rank q ≤ n
    → Doomed q w
    → IsOver (join_thread n k answers q w)
unfolding join_thread
joins zero k answers q w low d = elim (ended_or_before q) [
  | inl e ↦ inl (w, ap (λ x. join_thread zero k answers x w) e ∙ join-ended zero k answers w)
  | inr before ↦ absurd (omega arith)
]
joins (suc n) k answers q w low d = elim (ended_or_before q) [
  | inl e ↦ inl (w, ap (λ x. join_thread (suc n) k answers x w) e ∙ join-ended (suc n) k answers w)
  | inr before ↦
      by_step (point_step 1 k (answers 0) q w) refl
        (step-Next k (answers 0) q w d (λ e. let none_left = ap rank e in omega arith))
        (λ q' w'. joins n k (λ i. answers (suc i)) q' w')
]
  where
    by_step :
        (r : Option (Result (Point × Medium)))
        → point_step 1 k (answers 0) q w ≡ r
        → Next q r
        → ((q' : Point) (w' : Medium)
            → rank q' ≤ n
            → Doomed q' w'
            → IsOver (join_thread n k (λ i. answers (suc i)) q' w'))
        → IsOver (join_thread (suc n) k answers q w)
    by_step none e x again = absurd x
    by_step (some (fail f)) e x again = inr (f, rw (join_thread, e) refl)
    by_step (some (ok (q', w'))) e (d', less) again =
        let next : join_thread (suc n) k answers q w
            ≡ join_thread n k (λ i. answers (suc i)) q' w' =
          rw (join_thread, e) refl in
        subst IsOver (sym next) (again q' w' (omega arith) d')

stopped-Doomed : (q : Point) (w : Medium) → (Loses q w.tx_list → ⊥) → Doomed q (stop_medium w)
unfolding stop_medium
stopped-Doomed ended w n = tt
stopped-Doomed idle_set w n = n tt
stopped-Doomed end_set w n = n tt
stopped-Doomed idle_list_test w n = (refl, empty w.tx_list n)
  where
    empty : (l : List ℕ) → (Loses idle_list_test l → ⊥) → l ≡ []
    empty [] m = refl
    empty (_ ∷ _) m = absurd (m tt)
stopped-Doomed idle_test w n = refl
stopped-Doomed idle_arm w n = refl
stopped-Doomed idle_wait w n = refl
stopped-Doomed idle_stop_test w n = refl
stopped-Doomed idle_answers w n = refl
stopped-Doomed tx_test w n = refl
stopped-Doomed tx_arm w n = refl
stopped-Doomed tx_wait w n = refl
stopped-Doomed tx_stop_test w n = refl
stopped-Doomed tx_answers w n = refl
stopped-Doomed tx_check w n = refl
stopped-Doomed tx_process w n = refl
stopped-Doomed end_test w n = refl
stopped-Doomed end_timeouts w n = refl
stopped-Doomed loop_test w n = refl
stopped-Doomed exit_set w n = refl

-- Two steps on from a list that is not empty.
set_ahead :
    (n : ℕ) (k : Kernel) (answers : ℕ → ℕ → Wait) (w : Medium) (x : ℕ) (xs : List ℕ)
    → w.tx_list ≡ x ∷ xs
    → join_thread (suc (suc n)) k answers idle_list_test w
      ≡ join_thread n k
          (λ i. answers (suc (suc i)))
          idle_answers
          (record w { state = tx_802514_frame })
unfolding join_thread point_step by_list
set_ahead n k answers w x xs e =
    ap (λ ps. join_thread (suc n) k (λ i. answers (suc i)) (by_list ps idle_answers idle_set) w) e

lost_at :
    (n : ℕ) (k : Kernel) (answers : ℕ → ℕ → Wait) (q : Point) (w : Medium) (l : List ℕ)
    → w.tx_list ≡ l
    → Loses q l
    → join_thread (suc (suc n)) k answers q (stop_medium w)
      ≡ join_thread (suc (suc n)) k answers q w
unfolding join_thread point_step stop_medium by_list
lost_at n k answers idle_set w l e h = refl
lost_at n k answers end_set w l e h = refl
lost_at n k answers idle_list_test w [] e h = absurd h
lost_at n k answers idle_list_test w (x ∷ xs) e h =
    set_ahead n k answers (stop_medium w) x xs e ∙ sym (set_ahead n k answers w x xs e)
lost_at n k answers idle_test w l e h = absurd h
lost_at n k answers idle_arm w l e h = absurd h
lost_at n k answers idle_wait w l e h = absurd h
lost_at n k answers idle_stop_test w l e h = absurd h
lost_at n k answers idle_answers w l e h = absurd h
lost_at n k answers tx_test w l e h = absurd h
lost_at n k answers tx_arm w l e h = absurd h
lost_at n k answers tx_wait w l e h = absurd h
lost_at n k answers tx_stop_test w l e h = absurd h
lost_at n k answers tx_answers w l e h = absurd h
lost_at n k answers tx_check w l e h = absurd h
lost_at n k answers tx_process w l e h = absurd h
lost_at n k answers end_test w l e h = absurd h
lost_at n k answers end_timeouts w l e h = absurd h
lost_at n k answers loop_test w l e h = absurd h
lost_at n k answers exit_set w l e h = absurd h
lost_at n k answers ended w l e h = absurd h

-- A `stop` that comes at any point of the loops of `run`, in a wait too. Between a test of the state and
-- the assignment that overwrites it (before `state = IDLE` behind the inner loop, and before
-- `state = TX_802514_FRAME`, or before the test of a list that is not empty ahead of that) it is lost:
-- the thread goes on, or does not, as without it. At every other point the thread is over within ten
-- further steps, whatever the kernel and the nodes do: it ends, and the join returns, or a call throws,
-- which ends the process.
pub stop_at_any_point :
    (n : ℕ) (k : Kernel) (answers : ℕ → ℕ → Wait) (q : Point) (w : Medium)
    → 10 ≤ n
    → (Loses q w.tx_list → join_thread n k answers q (stop_medium w) ≡ join_thread n k answers q w)
      × ((Loses q w.tx_list → ⊥) → IsOver (join_thread n k answers q (stop_medium w)))
stop_at_any_point zero k answers q w h = absurd (omega arith)
stop_at_any_point (suc zero) k answers q w h = absurd (omega arith)
stop_at_any_point (suc (suc n)) k answers q w h = (
  lost_at n k answers q w w.tx_list refl,
  λ safe.
      let low = rank_at_most_ten q in
      joins (suc (suc n)) k answers q (stop_medium w) (omega arith) (stopped-Doomed q w safe),
)
