-- ===== src/Program/Tests.antt =====
-- The theorems about the end of the program, for a simulator with one node on the power line.
use x6losim.Prelude.{
  ℕ, ◌≡◌, ◌⊎◌, refl, sym, ap, subst, ◌∙◌, Option, arith, [], ◌∷◌, true, false, none, some,
}
use x6losim.Prelude.Int.{pos}
use x6losim.Prelude.Fault.{Result, ok}
use x6losim.Clock.{get_highres_clock}
use x6losim.Wire.{registration_request}
use x6losim.Store.{Medium, wireless, stopped, idle, update}
use x6losim.Store.Samples.{empty_medium, kernel}
use x6losim.Membership.{insert}
use x6losim.Node.Joining.{joined, new_node_joins}
use x6losim.Node.Transmission.{SetsTimers}
use x6losim.Medium.Construction.{MediumAnswers, new_medium}
use x6losim.Thread.Points.{idle_wait}
use x6losim.Thread.Points.Waiting.{no_events, idle_wait_ends}
use x6losim.System.Steps.{Step, Reach, joins, moves, here, later}
use x6losim.System.Lifetime.{IsDestroyed}
use x6losim.Socket.{selected}
use x6losim.Socket.Unblocker.{Pipes}
use x6losim.Socket.Listening.{
  Descriptors, new_server_socket, set_reuse_address, bind_any_address, set_passive, blocking_of,
  close_on_exec_of,
}
use x6losim.Server.{
  AcceptFds, Answers, Creation, Turn, setup_accept_fd_set, accept_air, accept_connections,
  after_accept, serve,
}
use x6losim.Server.Startup.{OpenAnswers, open_server, open_servers, serve_and_close, start}
use x6losim.Program.{
  NetworkSimulator, SimulatorAnswers, new_pimpl, new_simulator, Running, delete_simulator, sigint,
  sigterm, sighup, signal_handler, exit_success, main_options, Others, main,
}
use x6losim.Program.Shutdown.{Ends, main_exits}
use x6losim.Program.Signals.{signal_ends_start}

abbrev granted : MediumAnswers
granted = record {
  epoll_create = true;
  epoll_ctl = true;
  timer_create = true;
  pcap_open = true;
  pcap_dump_open = true;
}

abbrev all_granted : SimulatorAnswers
all_granted = record {
  clock_getres = λ c. some (record { tv_sec = pos 0; tv_nsec = pos 1 });
  plc_found = empty_medium.cur_time;
  wl_found = empty_medium.cur_time;
  plc_answers = granted;
  wl_answers = granted;
  plc_thread = true;
  wl_thread = true;
}

-- What the constructor makes.
abbrev quiet : Medium
quiet = record empty_medium { state = stopped }

abbrev simulator : NetworkSimulator
simulator = record {
  debug = false;
  stop = false;
  plc_medium = quiet;
  wl_medium = record quiet { kind = wireless };
}

simulator_made : new_simulator false all_granted ≡ ok simulator
unfolding new_simulator new_pimpl new_medium get_highres_clock
simulator_made = refl

-- A node has joined.
abbrev one_node : Medium
one_node = record empty_medium {
  sent = (1, registration_request 4096) ∷ [];
  heap = update empty_medium.heap 1 (some (joined 4096 7));
  reg_list_map = insert 4096 1 [];
}

kernel-SetsTimers : SetsTimers kernel
kernel-SetsTimers = record { creates = refl; sets = refl }

one_joins : Step (record quiet { state = idle }) one_node
one_joins =
    joins kernel 1 4096 7 kernel-SetsTimers refl refl (λ q m e. cc)
      (new_node_joins kernel 1 4096 7 empty_medium kernel-SetsTimers refl)

one_reached : Reach quiet (record one_node { state = stopped })
one_reached =
    later (later (later here (moves idle empty_medium.cur_time refl)) one_joins)
      (moves stopped empty_medium.cur_time refl)

-- The medium that a computed join leaves.
abbrev left_by : Option (Result Medium) → Medium
left_by (some (ok w)) = w
left_by _ = quiet

-- The thread waits in the idle state.
abbrev waits : Running
waits = record { point = idle_wait; kernel = kernel; answers = no_events }

abbrev others : Others
others = record {
  meanwhile = λ sim. record sim { plc_medium = one_node };
  plc_running = waits;
  wl_running = waits;
}

waits-Ends : (w₀ w : Medium) → Reach w₀ (record w { state = stopped }) → Ends 10 w₀ waits w
waits-Ends w₀ w r = record {
  not_lost = λ lost. lost;
  no_throw = λ e h. let ends = idle_wait_ends kernel w in cc;
  reached = λ v h.
      let same : record w { state = stopped } ≡ v =
        ap left_by (sym (idle_wait_ends kernel w) ∙ h) in
      subst (Reach w₀) same r;
}

abbrev opens_at : ℕ → OpenAnswers
opens_at fd = record {
  socket = some (fd, record { status_flags = 2; fd_flags = 0 });
  blocking = record { gets = true; sets = true };
  close_on_exec = record { gets = true; sets = true };
  reuse = true;
  bind = true;
  listen = true;
}

-- `select` reports the unblocker alone.
abbrev unblocks : Answers
unblocks = record {
  select = selected 1;
  han_ready = false;
  air_ready = false;
  pipe_ready = true;
  han_accept = none;
  air_accept = none;
}

abbrev creation : Creation
creation = record {
  kernel = kernel;
  address = 2;
  socket = 8192;
  sent_whole = true;
  medium = one_node;
}

abbrev last_turn : Turn
last_turn = record {
  answers = unblocks;
  han_creation = creation;
  air_creation = creation;
  stop = true;
}

abbrev no_descriptors : Descriptors
no_descriptors i = none

main_exits_example :
    (main [] all_granted
        (opens_at 4)
        (opens_at 5)
        (some 3)
        (last_turn ∷ [])
        no_descriptors
        10
        others
      ≡ some exit_success)
    × ((v w : Medium) × (delete_simulator 10 waits waits
            (record simulator { plc_medium = one_node })
          ≡ some (ok (v, w)))
        × IsDestroyed v
        × IsDestroyed w)
unfolding main_options start open_servers open_server new_server_socket set_reuse_address
    bind_any_address set_passive serve_and_close accept_connections after_accept blocking_of
    close_on_exec_of
main_exits_example =
    main_exits [] false all_granted simulator (opens_at 4) (opens_at 5) (some 3) (last_turn ∷ [])
      no_descriptors _ 10 others (ok []) (omega arith) refl simulator_made refl tt
      (waits-Ends quiet one_node one_reached)
      (waits-Ends simulator.wl_medium simulator.wl_medium here)

abbrev pipes : Pipes
pipes = record { read_end = some 3; write_end = some 9 }

abbrev fds : AcceptFds
fds = record { han_server = some 4; air_server = some 5; read_pipe = some 3 }

signal_ends_start_example :
    ((sigterm ≡ sigint) ⊎ (sigterm ≡ sigterm)
      → (signal_handler pipes true sigterm 0 (some simulator)
          ≡ (1, some (record simulator { stop = true })))
        × (serve fds 2 [] (last_turn ∷ []) ≡ some (ok [])))
    × (signal_handler pipes true sighup 0 (some simulator) ≡ (0, some simulator))
    × (signal_handler pipes true sigterm 0 none ≡ (0, none))
unfolding setup_accept_fd_set accept_air
signal_ends_start_example =
    signal_ends_start pipes 9 sigterm 0 simulator fds 2 [] unblocks creation creation [] 4 _ refl
      (record { ready = 0; is_ready = λ h. refl; pipe_set = λ h. refl }) refl refl
