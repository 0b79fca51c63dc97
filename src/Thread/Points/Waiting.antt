-- ===== src/Thread/Points/Waiting.antt =====
-- A stop while the thread waits in the idle state, and nothing comes.
use x6losim.Prelude.{ℕ, ◌≡◌, refl, [], some}
use x6losim.Prelude.Fault.{ok}
use x6losim.Store.{Medium, Kernel, stopped}
use x6losim.Thread.{Wait, ready, stop_medium, wait_loop, wait_once, go_on}
use x6losim.Thread.Points.{idle_wait, point_step, join_thread, go, go_waited, is_ended}

abbrev pub no_events : ℕ → ℕ → Wait
no_events i j = record { epoll = ready []; left = some (0, 0) }

pub idle_wait_ends :
    (k : Kernel) (w : Medium)
    → join_thread 10 k no_events idle_wait (stop_medium w)
      ≡ some (ok (record w { state = stopped }))
unfolding join_thread point_step go go_waited is_ended stop_medium wait_loop wait_once go_on
idle_wait_ends k w = refl
