-- ===== src/Program/Shutdown.antt =====
-- How the program ends, once `start` has: the threads, the destructor and `exit`.
use x6losim.Prelude.{
  ℕ, ◌≡◌, ◌≢◌, ◌≤◌, inl, inr, refl, ap, ◌∙◌, List, Bool, true, false, Option, none, some,
  if◌then◌else◌,
}
use x6losim.Prelude.Fault.{Fault, Result, ok, fail, thrown, ◌>>=◌, ◌>>◌, or_fail}
use x6losim.Clock.{Timespec, get_highres_clock}
use x6losim.Store.{Medium, MediumKind, powerline, wireless}
use x6losim.Medium.Construction.{MediumAnswers, new_medium}
use x6losim.Medium.Destruction.{delete_medium}
use x6losim.Thread.{stop_medium}
use x6losim.Thread.Points.Stop.{Loses, stop_at_any_point}
use x6losim.System.Steps.{Reach}
use x6losim.System.Lifetime.{IsDestroyed, medium_lifetime}
use x6losim.Socket.Listening.{Descriptors}
use x6losim.Server.{Nodes, Turn}
use x6losim.Server.Startup.{OpenAnswers, start}
use x6losim.Program.{
  NetworkSimulator, SimulatorAnswers, new_pimpl, new_simulator, start_medium, Running,
  wait_for_exit, after_exit, delete_pimpl, delete_simulator, exit_success, aborted, is_caught,
  main_options, Others, leave, after_start, run_simulator, main,
}

-- A thread that is stopped at a point where that is not lost, and whose further steps do not throw and are
-- steps of Step, so that its medium is reached from `w₀`.
pub record Ends (n : ℕ) (w₀ : Medium) (r : Running) (w : Medium) : Type 0 where
  pub not_lost : Loses r.point w.tx_list → ⊥
  pub no_throw : (e : Fault) → wait_for_exit n r (stop_medium w) ≢ some (fail e)
  pub reached : (v : Medium) → wait_for_exit n r (stop_medium w) ≡ some (ok v) → Reach w₀ v

Ends-IsDestroyed :
    (kind : MediumKind) (found : Timespec) (a : MediumAnswers) {w₀ : Medium} (n : ℕ) (r : Running)
    (w : Medium)
    → 10 ≤ n
    → new_medium kind found a ≡ ok w₀
    → Ends n w₀ r w
    → (v : Medium) × (wait_for_exit n r (stop_medium w) ≡ some (ok v))
      × ((v' : Medium) × (delete_medium v ≡ ok (tt, v')) × IsDestroyed v')
Ends-IsDestroyed kind found a n r w enough made h =
    elim ((stop_at_any_point n r.kernel r.answers r.point w enough).1 h.not_lost) [
      | inl (v, e) ↦ (v, e, medium_lifetime kind found a made (h.reached v e))
      | inr (f, e) ↦ absurd (h.no_throw f e)
    ]

-- The two mediums of a new simulator come from their constructor.
made :
    (debug : Bool) (a : SimulatorAnswers) (sim : NetworkSimulator)
    → new_pimpl debug a ≡ ok sim
    → (new_medium powerline a.plc_found a.plc_answers ≡ ok sim.plc_medium)
      × (new_medium wireless a.wl_found a.wl_answers ≡ ok sim.wl_medium)
unfolding new_pimpl
made debug a sim e =
    by_results (new_medium powerline a.plc_found a.plc_answers)
      (new_medium wireless a.wl_found a.wl_answers) e
  where
    by_results :
        (x y : Result Medium)
        → (x >>= λ p.
            y >>= λ q. ok (record { debug = debug; stop = false; plc_medium = p; wl_medium = q }))
          ≡ ok sim
        → (x ≡ ok sim.plc_medium) × (y ≡ ok sim.wl_medium)
    by_results (fail e) y g = cc
    by_results (ok p) (fail e) g = cc
    by_results (ok p) (ok q) g =
        (ap (λ x. x >>= λ s. ok s.plc_medium) g, ap (λ x. x >>= λ s. ok s.wl_medium) g)

new_simulator-pimpl :
    (debug : Bool) (a : SimulatorAnswers) (sim : NetworkSimulator)
    → new_simulator debug a ≡ ok sim
    → new_pimpl debug a ≡ ok sim
unfolding new_simulator
new_simulator-pimpl debug a sim e =
    by_pimpl (new_pimpl debug a) (get_highres_clock a.clock_getres) a.plc_thread a.wl_thread e
  where
    by_pimpl :
        {C : Type 0} (x : Result NetworkSimulator) (c : Option C) (b b' : Bool)
        → (x >>= λ s. or_fail c thrown >>= λ _. start_medium b >> (start_medium b' >> ok s))
          ≡ ok sim
        → x ≡ ok sim
    by_pimpl (fail f) c b b' g = cc
    by_pimpl (ok s) none b b' g = cc
    by_pimpl (ok s) (some c) false b' g = cc
    by_pimpl (ok s) (some c) true false g = cc
    by_pimpl (ok s) (some c) true true g = g

-- The destructor of a simulator: both threads end, and nothing is left of the nodes of both mediums.
delete_simulator_lem :
    (debug : Bool) (a : SimulatorAnswers) (sim₀ sim : NetworkSimulator) (n : ℕ) (plc wl : Running)
    → 10 ≤ n
    → new_simulator debug a ≡ ok sim₀
    → Ends n sim₀.plc_medium plc sim.plc_medium
    → Ends n sim₀.wl_medium wl sim.wl_medium
    → (v w : Medium) × (delete_simulator n plc wl sim ≡ some (ok (v, w)))
      × IsDestroyed v
      × IsDestroyed w
unfolding delete_simulator delete_pimpl
delete_simulator_lem debug a sim₀ sim n plc wl enough built ends_plc ends_wl =
    let (made_plc, made_wl) = made debug a sim₀ (new_simulator-pimpl debug a sim₀ built) in
    let (p, exit_p, (p', del_p, gone_p)) =
      Ends-IsDestroyed powerline a.plc_found a.plc_answers n plc sim.plc_medium enough made_plc
        ends_plc in
    let (q, exit_q, (q', del_q, gone_q)) =
      Ends-IsDestroyed wireless a.wl_found a.wl_answers n wl sim.wl_medium enough made_wl ends_wl in
    let deleted : delete_pimpl p q ≡ ok (p', q') =
      ap (λ x. x >>= λ r. delete_medium q >>= λ s. ok (r.1, s.1)) del_p
      ∙ ap (λ x. x >>= λ s. ok (p', s.1)) del_q in
    (
      p',
      q',
      ap
            (λ x. after_exit x (λ v.
              after_exit (wait_for_exit n wl (stop_medium sim.wl_medium))
                (λ w. some (delete_pimpl v w))))
            exit_p
          ∙ (ap (λ x. after_exit x (λ w. some (delete_pimpl p w))) exit_q ∙ ap some deleted),
      gone_p,
      gone_q,
    )

-- A return, or something thrown.
abbrev pub IsCaught : Result Nodes → Type 0
IsCaught (ok _) = Unit {0}
IsCaught (fail e) = is_caught e ≡ true

-- With options that `main` knows and a simulator that is constructed: when `start` returns or throws
-- something that is caught (a failed assertion ends the process there instead), `main` stops both mediums,
-- both threads end within ten steps, the destructor deletes the nodes of both mediums, each once, and the
-- process exits with success. Each thread may be at any point of its loops, in a wait too, but for those
-- between a test of the state and the assignment that overwrites it, where the stop is lost; its further
-- steps must not throw, and both mediums must have been changed by steps of Step only.
pub main_exits :
    (opts : List ℕ) (debug : Bool) (a : SimulatorAnswers) (sim : NetworkSimulator)
    (han air : OpenAnswers) (pipe : Option ℕ) (ts : List Turn) (d d' : Descriptors) (n : ℕ)
    (o : Others) (r : Result Nodes)
    → 10 ≤ n
    → main_options opts false ≡ some debug
    → new_simulator debug a ≡ ok sim
    → start han air pipe ts d ≡ some (r, d')
    → IsCaught r
    → Ends n sim.plc_medium o.plc_running (o.meanwhile sim).plc_medium
    → Ends n sim.wl_medium o.wl_running (o.meanwhile sim).wl_medium
    → (main opts a han air pipe ts d n o ≡ some exit_success)
      × ((v w : Medium) × (delete_simulator n o.plc_running o.wl_running (o.meanwhile sim)
            ≡ some (ok (v, w)))
          × IsDestroyed v
          × IsDestroyed w)
unfolding main
main_exits opts debug a sim han air pipe ts d d' n o r enough options built started caught ends_p
      ends_w =
    let (v, w, deleted, gone_p, gone_w) =
      delete_simulator_lem debug a sim (o.meanwhile sim) n o.plc_running o.wl_running enough built
        ends_p ends_w in
    (
      rw (main, options)
          (ap (λ x. run_simulator n o x (start han air pipe ts d)) built
            ∙ (ap (after_start n o sim) started ∙ (by_return r caught ∙ ap leave deleted))),
      (v, w, deleted, gone_p, gone_w),
    )
  where
    by_return :
        (x : Result Nodes)
        → IsCaught x
        → after_start n o sim (some (x, d'))
          ≡ leave (delete_simulator n o.plc_running o.wl_running (o.meanwhile sim))
    by_return (ok _) c = refl
    by_return (fail e) c =
        ap
          (λ b.
            if b
            then leave (delete_simulator n o.plc_running o.wl_running (o.meanwhile sim))
            else some (aborted e))
          c
