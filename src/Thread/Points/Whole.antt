-- ===== src/Thread/Points/Whole.antt =====
-- A step of Thread is a run of points without a `stop` of another thread in between.
use x6losim.Prelude.{
  ℕ, zero, suc, ◌≡◌, refl, sym, subst, ap, List, [], ◌∷◌, Bool, true, false, Bool-cases, inl, inr,
  Option, none, some, if◌then◌else◌,
}
use x6losim.Prelude.Fault.{Fault, Result, ok, fail, thrown}
use x6losim.Clock.{timespec_add_ms}
use x6losim.Store.{Medium, Kernel, idle, stopped, tx_802514_frame, ◌>>◌, pure}
use x6losim.Medium.{
  process_cca_list, tx_collision_check, process_tx_list, check_node_registration_timeout,
  is_idle_state, is_stopping_state,
}
use x6losim.Thread.{
  Wait, wait_loop, Phase, outer, inner, finished, interval, finish, set_tx_state, after_idle_wait,
  after_inner, after_tx_wait, wait_then, inner_step, thread_step,
}
use x6losim.Thread.Points.{
  Point, idle_test, idle_arm, idle_wait, idle_stop_test, idle_list_test, idle_set, idle_answers,
  tx_test, tx_arm, tx_wait, tx_stop_test, tx_answers, tx_check, tx_process, end_test, end_set,
  end_timeouts, loop_test, exit_set, ended, arm, go, go_waited, by_list, point_step,
}

abbrev pub point_of : Phase → Point
point_of outer = idle_test
point_of inner = tx_test
point_of finished = ended

abbrev pub at_point : Option (Result (Phase × Medium)) → Option (Result (Point × Medium))
at_point none = none
at_point (some (fail e)) = some (fail e)
at_point (some (ok (p, w))) = some (ok (point_of p, w))

-- Some points in a row, with the same answers of the kernel.
abbrev pub run_points :
    ℕ → ℕ → Kernel → (ℕ → Wait) → Point → Medium → Option (Result (Point × Medium))
run_points zero fuel k a q w = some (ok (q, w))
run_points (suc n) fuel k a q w = elim (point_step fuel k a q w) [
  | none ↦ none
  | some (fail e) ↦ some (fail e)
  | some (ok (q', w')) ↦ run_points n fuel k a q' w'
]

module _ (fuel : ℕ) (k : Kernel) (a : ℕ → Wait) where
  abbrev pub Runs : Point → Medium → Option (Result (Point × Medium)) → Type 0
  Runs q w t = (n : ℕ) × (run_points n fuel k a q w ≡ t)

  next :
      {q q' : Point} {w w' : Medium} {t : Option (Result (Point × Medium))}
      → point_step fuel k a q w ≡ some (ok (q', w'))
      → Runs q' w' t
      → Runs q w t
  next e (n, h) = (suc n, rw (run_points, e) h)

  breaks :
      {q : Point} {w : Medium} {e : Fault}
      → point_step fuel k a q w ≡ some (fail e)
      → Runs q w (some (fail e))
  breaks e = (1, rw (run_points, e) refl)

  hangs : {q : Point} {w : Medium} → point_step fuel k a q w ≡ none → Runs q w none
  hangs e = (1, rw (run_points, e) refl)

  arrives : (q : Point) (w : Medium) → Runs q w (some (ok (q, w)))
  arrives q w = (0, refl)

  -- A call and what comes behind it.
  called :
      (q q' : Point) (w : Medium) (x : Result (Unit {0} × Medium))
      (f : Medium → Result (Phase × Medium))
      → point_step fuel k a q w ≡ some (go q' x)
      → ((w' : Medium) → Runs q' w' (at_point (some (f w'))))
      → Runs q w (at_point (some (elim x [ ok (_, w') ↦ f w' | fail e ↦ fail e ])))
  unfolding go
  called q q' w (ok (_, w')) f e h = next e (h w')
  called q q' w (fail e') f e h = breaks e

  finishes : (w : Medium) → Runs exit_set w (at_point (some (finish w)))
  unfolding point_step finish
  finishes w = next refl (arrives ended (record w { state = stopped }))

  loops :
      (w : Medium)
      → Runs loop_test w
          (at_point (some (if is_stopping_state w.state then finish w else ok (outer, w))))
  unfolding point_step
  loops w = elim (Bool-cases (is_stopping_state w.state)) [
    | inl stops ↦ rw stops (next (rw stops refl) (finishes w))
    | inr goes ↦ rw goes (next (rw goes refl) (arrives idle_test w))
  ]

  -- A test of the state.
  tests :
      (b : Bool) (q x y : Point) (w : Medium) (f g : Result (Phase × Medium))
      → point_step fuel k a q w ≡ some (ok (if b then x else y, w))
      → (b ≡ true → Runs x w (at_point (some f)))
      → (b ≡ false → Runs y w (at_point (some g)))
      → Runs q w (at_point (some (if b then f else g)))
  tests true q x y w f g e hx hy = next e (hx refl)
  tests false q x y w f g e hx hy = next e (hy refl)

  -- Behind the inner loop.
  inner_left : (w : Medium) → Runs end_test w (at_point (some (after_inner k w)))
  unfolding point_step after_inner
  inner_left w =
      let v : Medium = record w { state = idle } in
      tests (is_stopping_state w.state) end_test loop_test end_set w (finish w) _ refl
        (λ s.
          subst (λ b. Runs loop_test w (at_point (some (if b then finish w else ok (outer, w))))) s
            (loops w))
        (λ s. next {q' = end_timeouts} {w' = v} refl (
          called end_timeouts loop_test v (check_node_registration_timeout k v)
            (λ u. if is_stopping_state u.state then finish u else ok (outer, u)) refl loops))

  -- Behind the wait of the inner loop.
  tx_waited : (w : Medium) → Runs tx_stop_test w (at_point (some (after_tx_wait k w)))
  unfolding point_step after_tx_wait
  tx_waited w =
      tests (is_stopping_state w.state) tx_stop_test end_test tx_answers w (after_inner k w) _ refl
        (λ s. inner_left w)
        (λ s.
          called tx_answers tx_check w (process_cca_list w)
            (tx_collision_check >> (process_tx_list k >> pure inner)) refl
            (λ u.
              called tx_check tx_process u (tx_collision_check u) (process_tx_list k >> pure inner)
                refl
                (λ v.
                  called tx_process tx_test v (process_tx_list k v) (pure inner) refl
                    (arrives tx_test))))

  -- Behind the wait of the idle state.
  idle_waited : (w : Medium) → Runs idle_stop_test w (at_point (some (after_idle_wait w)))
  unfolding point_step after_idle_wait set_tx_state by_list
  idle_waited w =
      tests (is_stopping_state w.state) idle_stop_test exit_set idle_list_test w (finish w) _ refl
        (λ s. finishes w) (λ s. by_txs w.tx_list refl)
    where
      answers :
          (v : Medium) → Runs idle_answers v (at_point (some ((process_cca_list >> pure inner) v)))
      answers v =
          called idle_answers tx_test v (process_cca_list v) (pure inner) refl (arrives tx_test)

      by_txs :
          (l : List ℕ)
          → w.tx_list ≡ l
          → Runs idle_list_test w
              (at_point (some ((process_cca_list >> pure inner) (set_tx_state w.tx_list w))))
      by_txs [] e =
          subst
            (λ ps.
              Runs idle_list_test w
                (at_point (some ((process_cca_list >> pure inner) (set_tx_state ps w)))))
            (sym e)
            (next {q' = idle_answers} {w' = w}
              (ap (λ ps. some (ok (by_list ps idle_answers idle_set, w))) e) (answers w))
      by_txs (_ ∷ _) e =
          let v : Medium = record w { state = tx_802514_frame } in
          subst
            (λ ps.
              Runs idle_list_test w
                (at_point (some ((process_cca_list >> pure inner) (set_tx_state ps w)))))
            (sym e)
            (next {q' = idle_set} {w' = w}
              (ap (λ ps. some (ok (by_list ps idle_answers idle_set, w))) e)
              (next {q' = idle_answers} {w' = v} refl (answers v)))

  -- A wait with what follows it.
  waits :
      (q q' : Point) (w : Medium) (x : Option (Result (Unit {0} × Medium)))
      (f : Medium → Result (Phase × Medium))
      → point_step fuel k a q w ≡ go_waited q' x
      → ((w' : Medium) → Runs q' w' (at_point (some (f w'))))
      → Runs q w (at_point (wait_then x f))
  unfolding go go_waited wait_then
  waits q q' w none f e h = hangs e
  waits q q' w (some (fail g)) f e h = breaks e
  waits q q' w (some (ok (_, v))) f e h = next e (h v)

  armed :
      (q q' : Point) (ms : ℕ) (w : Medium) (f : Medium → Result (Phase × Medium))
      → point_step fuel k a q w ≡ some (go q' (arm k ms w))
      → ((w' : Medium) → Runs q' w' (at_point (wait_then (wait_loop fuel k a w') f)))
      → Runs q w (at_point (wait_then (interval fuel k a ms w) f))
  unfolding go arm wait_then interval
  armed q q' ms w f e h = by_timer k.timer_settime e
    where
      v : Medium
      v = record w { cur_time = timespec_add_ms w.cur_time ms }

      by_timer :
          (b : Bool)
          → point_step fuel k a q w ≡ some (go q' (if b then ok (tt, v) else fail thrown))
          → Runs q w
              (at_point (wait_then (if b then wait_loop fuel k a v else some (fail thrown)) f))
      by_timer true g = next g (h v)
      by_timer false g = breaks g

  from_outer : (w : Medium) → Runs idle_test w (at_point (thread_step fuel k a outer w))
  unfolding point_step thread_step
  from_outer w = by_state (is_idle_state w.state) refl
    where
      by_state :
          (b : Bool)
          → is_idle_state w.state ≡ b
          → Runs idle_test w (
              at_point (
                if is_idle_state w.state
                then wait_then (interval fuel k a 1000 w) after_idle_wait
                else some (ok (inner, w))))
      by_state true e = rw e (
          next {q' = idle_arm} {w' = w} (rw e refl) (
            armed idle_arm idle_wait 1000 w after_idle_wait refl (λ v.
              waits idle_wait idle_stop_test v (wait_loop fuel k a v) after_idle_wait refl
                idle_waited)))
      by_state false e = rw e (next {q' = tx_test} {w' = w} (rw e refl) (arrives tx_test w))

  from_inner :
      (w : Medium) (l : List ℕ)
      → w.tx_list ≡ l
      → Runs tx_test w (at_point (inner_step fuel k a l w))
  unfolding point_step inner_step by_list
  from_inner w [] e =
      next {q' = end_test} {w' = w} (ap (λ ps. some (ok (by_list ps end_test tx_arm, w))) e)
        (inner_left w)
  from_inner w (_ ∷ _) e =
      next {q' = tx_arm} {w' = w} (ap (λ ps. some (ok (by_list ps end_test tx_arm, w))) e) (
        armed tx_arm tx_wait 1 w (after_tx_wait k) refl (λ v.
          waits tx_wait tx_stop_test v (wait_loop fuel k a v) (after_tx_wait k) refl tx_waited))

  -- A step of the thread is what its points come to in a row, without a `stop` in between: what it
  -- returns, with the phase as a point, its fault, or that the wait has run out of fuel.
  pub thread_step-points :
      (p : Phase) (w : Medium) → Runs (point_of p) w (at_point (thread_step fuel k a p w))
  unfolding thread_step
  thread_step-points outer w = from_outer w
  thread_step-points inner w = from_inner w w.tx_list refl
  thread_step-points finished w = arrives ended w
