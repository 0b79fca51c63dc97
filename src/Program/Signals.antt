-- ===== src/Program/Signals.antt =====
-- What a signal does: from the handler to the end of `start`.
use x6losim.Prelude.{
  ℕ, suc, ◌<◌, ◌≡◌, ◌⊎◌, inl, inr, refl, sym, ap, subst, List, ◌∷◌, true, none, some, arith,
}
use x6losim.Prelude.Fault.{ok}
use x6losim.Socket.{selected}
use x6losim.Socket.Unblocker.{Pipes, unblock}
use x6losim.Server.{
  Answers, Creation, AcceptFds, Accepted, Nodes, Turn, setup_accept_fd_set, accept_air, accept_han,
  nothing_accepted, serve,
}
use x6losim.Server.Loop.{serve_unblocked}
use x6losim.Program.{
  NetworkSimulator, stop_simulator, Signal, sigint, sigterm, sighup, signal_handler,
}

-- The kernel's next answer to the simulator's `select`: it reports the unblocker's pipe if a byte is in
-- it.
pub record Sees (pending : ℕ) (a : Answers) : Type 0 where
  pub ready : ℕ
  pub is_ready : 0 < pending → a.select ≡ selected (suc ready)
  pub pipe_set : 0 < pending → a.pipe_ready ≡ true

-- SIGINT and SIGTERM, once the simulator is constructed, set its `stop` and put a byte into the
-- unblocker's pipe, where `write` takes it; both mediums stay as they are. If the kernel then reports the
-- pipe, the loop of `start` ends in its next turn with the nodes that it has. The server's descriptors
-- have to be valid, and the assertion on a failed `accept` has to hold. SIGHUP changes nothing, nor does
-- any signal while the simulator is being constructed: then it is lost.
pub signal_ends_start :
    (pipes : Pipes) (fd : ℕ) (signal : Signal) (pending : ℕ) (sim : NetworkSimulator)
    (fds : AcceptFds) (err_count : ℕ) (nodes : Nodes) (a : Answers) (han air : Creation)
    (ts : List Turn) (m : ℕ) (s : Accepted)
    → pipes.write_end ≡ some fd
    → Sees (signal_handler pipes true signal pending (some sim)).0 a
    → setup_accept_fd_set fds ≡ ok (suc m)
    → accept_air a (accept_han a nothing_accepted) ≡ ok s
    → ((signal ≡ sigint) ⊎ (signal ≡ sigterm)
        → (signal_handler pipes true signal pending (some sim)
            ≡ (suc pending, some (record sim { stop = true })))
          × (serve fds err_count nodes
                (record { answers = a; han_creation = han; air_creation = air; stop = true } ∷ ts)
              ≡ some (ok nodes)))
      × (signal_handler pipes true sighup pending (some sim) ≡ (pending, some sim))
      × (signal_handler pipes true signal pending none ≡ (pending, none))
unfolding signal_handler stop_simulator unblock
signal_ends_start pipes fd signal pending sim fds err_count nodes a han air ts m s has sees valid
      accepts =
    (λ ends. (handled signal ends, ended ends), refl, alone signal)
  where
    handled :
        (g : Signal)
        → (g ≡ sigint) ⊎ (g ≡ sigterm)
        → signal_handler pipes true g pending (some sim)
          ≡ (suc pending, some (record sim { stop = true }))
    handled sigint e = rw has refl
    handled sigterm e = rw has refl
    handled sighup (inl e) = cc
    handled sighup (inr e) = cc

    alone : (g : Signal) → signal_handler pipes true g pending none ≡ (pending, none)
    alone sigint = refl
    alone sigterm = refl
    alone sighup = refl

    ended :
        (signal ≡ sigint) ⊎ (signal ≡ sigterm)
        → serve fds err_count nodes
            (record { answers = a; han_creation = han; air_creation = air; stop = true } ∷ ts)
          ≡ some (ok nodes)
    ended e =
        let more : 0 < (signal_handler pipes true signal pending (some sim)).0 =
          subst (λ x. 0 < x) (sym (ap (λ x. x.0) (handled signal e))) (omega arith) in
        serve_unblocked fds err_count nodes
          (record { answers = a; han_creation = han; air_creation = air; stop = true }) ts m
          sees.ready valid (sees.is_ready more) (sees.pipe_set more) accepts
