-- ===== src/Medium/Unblock.antt =====
-- The event that another thread raises to end the medium's thread.
use x6losim.Prelude.{
  suc, ◌<◌, ◌≡◌, refl, List, ◌∷◌, Bool, true, false, ◌||◌, length, leb, arith, if◌then◌else◌,
}
use x6losim.Prelude.Fault.{ok}
use x6losim.Store.{Medium, Kernel, ◌>>=◌, pure, stopping}
use x6losim.Medium.{
  PollEvent, unblocker, process_event, event_loop, closed_event, readable_event,
  process_poller_events,
}

process_event_unblocked :
    (k : Kernel) (e : PollEvent) (w : Medium)
    → e.source ≡ unblocker
    → (e.rdhup || e.readable) ≡ true
    → process_event k e w ≡ ok (false, record w { state = stopping })
unfolding process_event closed_event readable_event
process_event_unblocked k e w h g = rw (h) (either e.rdhup e.readable g)
  where
    either :
        (a b : Bool)
        → (a || b) ≡ true
        → (if a
              then closed_event unblocker
              else if b
              then readable_event k e unblocker
              else pure true)
            w
          ≡ ok (false, record w { state = stopping })
    either true b g = refl
    either false true g = refl
    either false false g = cc

-- The events behind that of the unblocker are not handled.
pub process_poller_events_unblocked :
    (k : Kernel) (e : PollEvent) (es : List PollEvent) (w : Medium)
    → e.source ≡ unblocker
    → (e.rdhup || e.readable) ≡ true
    → length es < 64
    → process_poller_events k (e ∷ es) w ≡ ok (tt, record w { state = stopping })
unfolding process_poller_events event_loop
process_poller_events_unblocked k e es w h g n =
    let fits : leb (suc (length es)) 64 ≡ true = ground arith in rw fits (event_loop_lem)
  where
    event_loop_lem : event_loop k (e ∷ es) w ≡ ok (tt, record w { state = stopping })
    event_loop_lem = rw (process_event_unblocked k e w h g, ◌>>=◌)
