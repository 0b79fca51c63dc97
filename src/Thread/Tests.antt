-- ===== src/Thread/Tests.antt =====
-- The theorems about the thread, at the medium with two transmissions.
use x6losim.Prelude.{ℕ, ◌≡◌, refl, [], ◌∷◌, map, true, false, none, some, arith, ◌*◌}
use x6losim.Prelude.Fault.{ok}
use x6losim.Clock.{timespec_add_ms, Timespec}
use x6losim.Store.{Medium, tx_802514_frame, stopped}
use x6losim.Store.Samples.{busy_medium, kernel, active_node, three_nodes, empty_medium}
use x6losim.Medium.{PollEvent, unblocker}
use x6losim.Reader.{failed}
use x6losim.Thread.{
  Wait, interrupted, ready, outer, inner, finished, interval, thread_step, run_start, stop_medium,
}
use x6losim.Thread.Interval.{waited, interval_lem}
use x6losim.Thread.Stopping.{thread_step_unblocked}
use x6losim.Thread.Shutdown.{steps, stop_before_run_lost}
use x6losim.Thread.Points.{tx_wait, join_thread}
use x6losim.Thread.Points.Stop.{IsOver, stop_at_any_point}
use x6losim.Thread.Idle.{told, thread_step_answers}

-- A signal after 4 of 10 ms.
abbrev signal : ℕ → Wait
signal _ = record { epoll = interrupted; left = some (0, 6000000) }

interval_lem_example :
    interval 1 kernel signal 10 busy_medium ≡ some (waited kernel (signal 0) 10 busy_medium)
interval_lem_example = interval_lem 0 kernel signal 10 busy_medium

abbrev stop_event : PollEvent
stop_event = record {
  source = unblocker;
  rdhup = false;
  readable = true;
  first = failed;
  second = failed;
  junk = λ i. i;
}

abbrev stop_answer : ℕ → Wait
stop_answer _ = record { epoll = ready (stop_event ∷ []); left = none }

thread_step_unblocked_example :
    thread_step 1 kernel stop_answer inner busy_medium
    ≡ some (
        ok (
          finished,
          record busy_medium { cur_time = timespec_add_ms busy_medium.cur_time 1; state = stopped },
        ))
thread_step_unblocked_example =
    thread_step_unblocked 0 kernel stop_answer inner busy_medium 1 stop_event []
      ((1, (2 ∷ []), refl), refl) refl refl refl refl (omega arith)

-- The medium after a second without events.
abbrev later : Medium
later = record busy_medium { cur_time = timespec_add_ms busy_medium.cur_time 1000 }

thread_step_answers_example :
    thread_step 1 kernel signal outer busy_medium
    ≡ some (
        ok (
          inner,
          record later {
            state = tx_802514_frame;
            cca_list = [];
            sent = map (told three_nodes false) (3 ∷ []);
          },
        ))
thread_step_answers_example =
    thread_step_answers 0 kernel signal busy_medium later refl refl refl
      ((active_node 12288, refl), tt)

-- A second without events.
abbrev silence : ℕ → Wait
silence _ = record { epoll = ready []; left = some (0, 0) }

stop_at_any_point_example :
    IsOver (join_thread 10 kernel (λ i. silence) tx_wait (stop_medium busy_medium))
stop_at_any_point_example =
    (stop_at_any_point 10 kernel (λ i. silence) tx_wait busy_medium (omega arith)).1 (λ lost. lost)

stop_before_run_lost_example :
    (run_start (some empty_medium.cur_time) (stop_medium empty_medium)
      ≡ run_start (some empty_medium.cur_time) empty_medium)
    × ((v : Medium) × (run_start (some empty_medium.cur_time) (stop_medium empty_medium)
          ≡ ok (outer, v))
        × ((t : Timespec) × (steps (2 * 50) kernel silence outer v
              ≡ some (ok (outer, record v { cur_time = t })))))
stop_before_run_lost_example =
    stop_before_run_lost 50 kernel silence empty_medium empty_medium.cur_time refl refl refl
      (refl, refl, (0, 0), refl)
