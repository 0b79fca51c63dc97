-- ===== src/Thread/Shutdown.antt =====
-- A `stop` that comes before the thread of a medium has begun to run. One that comes later is in
-- Thread/Points.
use x6losim.Prelude.{
  ℕ, subst, ◌*◌, arith, zero, suc, ◌≡◌, refl, ap, sym, ◌∙◌, inl, inr, [], ◌∷◌, true, Option, none,
  some, if◌then◌else◌,
}
use x6losim.Prelude.Fault.{Result, ok, fail, thrown}
use x6losim.Clock.{Timespec, timespec_add_ms}
use x6losim.Store.{Medium, Kernel, idle, stopping}
use x6losim.Medium.{check_node_registration_timeout}
use x6losim.Medium.Events.{process_poller_events-Calm}
use x6losim.Thread.{
  Wait, EpollAnswer, interrupted, epoll_failure, ready, Phase, outer, inner, after_inner,
  inner_step, thread_step, run_start, stop_medium,
}
use x6losim.Thread.Interval.{waited, woken, answered}
use x6losim.Thread.Idle.{thread_step_answers}
use mathlib.Core.List.{append-nil}

-- Some steps of the thread, each with the same answers of the kernel.
abbrev pub steps : ℕ → Kernel → (ℕ → Wait) → Phase → Medium → Option (Result (Phase × Medium))
steps zero k answers p w = some (ok (p, w))
steps (suc n) k answers p w = elim (thread_step 1 k answers p w) [
  | some (ok (p', w')) ↦ steps n k answers p' w'
  | some (fail e) ↦ some (fail e)
  | none ↦ none
]

steps-next :
    (n : ℕ) (k : Kernel) (answers : ℕ → Wait) (p p' : Phase) (w w' : Medium)
    → thread_step 1 k answers p w ≡ some (ok (p', w'))
    → steps (suc n) k answers p w ≡ steps n k answers p' w'
steps-next n k answers p p' w w' e = rw (e, steps)

-- A wait keeps a medium that is stopping so.
pub answered_stopping :
    (k : Kernel) (e : EpollAnswer) (left : Option (ℕ × ℕ)) (w w' : Medium)
    → w.state ≡ stopping
    → answered k e left w ≡ ok (tt, w')
    → w'.state ≡ stopping
answered_stopping k epoll_failure left w w' s h = cc
answered_stopping k interrupted none w w' s h = cc
answered_stopping k interrupted (some l) w w' s h =
    let e : w ≡ w' = cc in ap (λ v. v.state) (sym e) ∙ s
answered_stopping k (ready []) none w w' s h = cc
answered_stopping k (ready []) (some l) w w' s h =
    let e : w ≡ w' = cc in ap (λ v. v.state) (sym e) ∙ s
answered_stopping k (ready (e ∷ es)) left w w' s h =
    elim (process_poller_events-Calm k (e ∷ es) w w' h).state_or_stopping [
      | inl same ↦ same ∙ s
      | inr stops ↦ stops
    ]

-- A medium without nodes that has begun to run.
abbrev alone : Medium → Timespec → Medium
alone w t = record w { state = idle; cur_time = t; tx_list = []; cca_list = []; reg_list_map = [] }

-- The kernel has nothing to report.
abbrev pub TimesOut : Kernel → Wait → Type 0
TimesOut k a =
    (k.timer_settime ≡ true) × (a.epoll ≡ ready []) × (left : ℕ × ℕ) × (a.left ≡ some left)

two_steps :
    (k : Kernel) (answers : ℕ → Wait) (w : Medium) (t : Timespec) (n : ℕ)
    → TimesOut k (answers 0)
    → steps (suc (suc n)) k answers outer (alone w t)
      ≡ steps n k answers outer (alone w (timespec_add_ms t 1000))
unfolding thread_step inner_step after_inner check_node_registration_timeout
two_steps k answers w t n (armed, none_ready, left, has_left) =
    let v : Medium = alone w (timespec_add_ms t 1000) in
    let over : waited k (answers 0) 1000 (alone w t) ≡ ok (tt, v) =
      ap (λ b. if b then answered k (answers 0).epoll (answers 0).left v else fail thrown) armed
      ∙ (ap (λ e. answered k e (answers 0).left v) none_ready ∙ ap (λ l. woken l v) has_left) in
    let first : thread_step 1 k answers outer (alone w t) ≡ some (ok (inner, v)) =
      thread_step_answers 0 k answers (alone w t) v refl over refl tt
      ∙ ap (λ s. some (ok (inner, record v { sent = s }))) (append-nil w.sent) in
    steps-next (suc n) k answers outer inner (alone w t) v first
    ∙ steps-next n k answers inner outer v v refl

stays :
    (n : ℕ) (k : Kernel) (answers : ℕ → Wait) (w : Medium) (t : Timespec)
    → TimesOut k (answers 0)
    → (t' : Timespec) × (steps (2 * n) k answers outer (alone w t) ≡ some (ok (outer, alone w t')))
stays zero k answers w t h = (t, refl)
stays (suc n) k answers w t h =
    let (t', e) = stays n k answers w (timespec_add_ms t 1000) h in
    let twice : 2 * suc n ≡ suc (suc (2 * n)) = omega arith in
    (
      t',
      ap (λ m. steps m k answers outer (alone w t)) twice ∙ (two_steps k answers w t (2 * n) h ∙ e),
    )

-- Where `stop` comes before the first assignment of `run`, it is as if it had not come: `run` begins in
-- the same state without it. In a medium without nodes that ask, transmit or register, and while the
-- kernel reports no event, the thread then goes on for ever: behind each second step it is at the start
-- of its outer loop again, and only the time has changed.
pub stop_before_run_lost :
    (n : ℕ) (k : Kernel) (answers : ℕ → Wait) (w : Medium) (now : Timespec)
    → w.tx_list ≡ []
    → w.cca_list ≡ []
    → w.reg_list_map ≡ []
    → TimesOut k (answers 0)
    → (run_start (some now) (stop_medium w) ≡ run_start (some now) w)
      × ((v : Medium) × (run_start (some now) (stop_medium w) ≡ ok (outer, v))
          × ((t : Timespec) × (steps (2 * n) k answers outer v
                ≡ some (ok (outer, record v { cur_time = t })))))
unfolding run_start stop_medium
stop_before_run_lost n k answers w now e f g h =
    let v : Medium = record w { state = idle; cur_time = now } in
    let empty : alone w now ≡ v = λ i. record w {
      state = idle;
      cur_time = now;
      tx_list = sym e i;
      cca_list = sym f i;
      reg_list_map = sym g i;
    } in
    let (t, run) = stays n k answers w now h in
    (
      refl,
      (
        v,
        refl,
        (
          t,
          subst
              (λ u. steps (2 * n) k answers outer u ≡ some (ok (outer, record u { cur_time = t })))
              empty run,
        ),
      ),
    )
