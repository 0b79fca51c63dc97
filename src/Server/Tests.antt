-- ===== src/Server/Tests.antt =====
-- The theorems about the server, and the fate of a client whose neighbour's connection failed.
use x6losim.Prelude.{ℕ, ◌≢◌, ◌≡◌, ◌⊎◌, refl, [], ◌∷◌, ◌++◌, true, false, none, some, arith}
use x6losim.Prelude.Fault.{Fault, Result, ok, fail, thrown, asserted}
use x6losim.Socket.{Fcntl, selected, select_failed}
use x6losim.Server.{
  AcceptFds, Nodes, Answers, Accepted, Creation, Turn, setup_accept_fd_set, accept_connections,
  accept_error, nothing_accepted, serve,
}
use x6losim.Server.Clients.{Accounted, accept_connections-Accounted}
use x6losim.Socket.Listening.{Descriptors}
use x6losim.Server.Startup.{OpenAnswers, open_servers, start}
use x6losim.Server.Opening.{open_servers_lem}
use x6losim.Server.Closing.{Broken, start_lem}
use x6losim.Store.Samples.{empty_medium, kernel}
use x6losim.Server.Serving.{returned}
use x6losim.Server.Loop.{Errs, serve_counts_errors}

abbrev fds : AcceptFds
fds = record { han_server = some 4; air_server = some 5; read_pipe = some 3 }

-- Where new nodes are built.
abbrev creation : Creation
creation = record {
  kernel = kernel;
  address = 1;
  socket = 4096;
  sent_whole = true;
  medium = empty_medium;
}

-- A Hanadu client on descriptor 7, while the wireless server's `accept` fails.
abbrev one_failed : Answers
one_failed = record {
  select = selected 2;
  han_ready = true;
  air_ready = true;
  pipe_ready = false;
  han_accept = some 7;
  air_accept = none;
}

abbrev half_accepted : Accepted
half_accepted = record {
  status = accept_error;
  han_client = some 7;
  air_client = none;
  handled = 2;
  closed = [];
}

one_failed_result : accept_connections fds one_failed ≡ ok half_accepted
unfolding accept_connections
one_failed_result = refl

accept_connections-Accounted_example : Accounted (7 ∷ []) half_accepted
unfolding setup_accept_fd_set
accept_connections-Accounted_example =
    accept_connections-Accounted fds one_failed 4 1 half_accepted refl refl one_failed_result

-- The client is neither closed nor made a node.
client_lost :
    serve fds 0 [] (
      record { answers = one_failed; han_creation = creation; air_creation = creation; stop = true }
      ∷ [])
    ≡ some (ok [])
unfolding serve
client_lost = refl

-- With the client on descriptor 11 the assertion on the other failure ends the process.
eleven_asserts : accept_connections fds (record one_failed { han_accept = some 11 }) ≡ fail asserted
unfolding accept_connections
eleven_asserts = refl

abbrev failing : Turn
failing = record {
  answers = record one_failed { select = select_failed };
  han_creation = creation;
  air_creation = creation;
  stop = false;
}

failing-Errs : Errs fds failing
unfolding accept_connections
failing-Errs = (refl, (record nothing_accepted { status = accept_error }, refl, refl))

serve_counts_errors_example : serve fds 4 [] ((failing ∷ failing ∷ []) ++ []) ≡ some (fail thrown)
serve_counts_errors_example =
    (serve_counts_errors fds 4 [] (failing ∷ failing ∷ []) [] (failing-Errs, (failing-Errs, tt))
        (omega arith)).1
      (omega arith)

abbrev working : Fcntl
working = record { gets = true; sets = true }

-- A server socket on a descriptor that is read and written; nothing fails.
abbrev opens_at : ℕ → OpenAnswers
opens_at fd = record {
  socket = some (fd, record { status_flags = 2; fd_flags = 0 });
  blocking = working;
  close_on_exec = working;
  reuse = true;
  bind = true;
  listen = true;
}

abbrev no_descriptors : Descriptors
no_descriptors i = none

-- The port of the wireless nodes is in use.
open_servers_lem_example :
    (d' : Descriptors) × (open_servers
        (opens_at 4)
        (record (opens_at 5) { bind = false })
        no_descriptors
      ≡ (fail thrown, d'))
    × (d' 4 ≢ none)
    × (d' 5 ≢ none)
    × ((i : ℕ) → i ≢ 4 → i ≢ 5 → d' i ≡ none)
open_servers_lem_example =
    (open_servers_lem (opens_at 4) (record (opens_at 5) { bind = false }) no_descriptors 4 5
        (record { status_flags = 2; fd_flags = 0 }) (record { status_flags = 2; fd_flags = 0 }) refl
        refl (omega arith)).1
      refl

-- A Hanadu client comes, and the timer of its node cannot be created.
abbrev poor : Turn
poor = record {
  answers = record one_failed { select = selected 1; air_ready = false };
  han_creation = record creation { kernel = record kernel { timer_create = false } };
  air_creation = creation;
  stop = false;
}

start_lem_example :
    (returned (start (opens_at 4) (opens_at 5) (some 3) (poor ∷ []) no_descriptors)
      ≡ serve fds 0 [] (poor ∷ []))
    × ((r : Result Nodes) (d' : Descriptors)
        → start (opens_at 4) (opens_at 5) (some 3) (poor ∷ []) no_descriptors ≡ some (r, d')
        → ((i : ℕ) → d' i ≡ none)
          ⊎ ((d' 4 ≢ none)
              × (d' 5 ≢ none)
              × ((i : ℕ) → i ≢ 4 → i ≢ 5 → d' i ≡ none)
              × (e : Fault) × (r ≡ fail e)
              × Broken fds e (poor ∷ [])))
start_lem_example =
    start_lem (opens_at 4) (opens_at 5) no_descriptors 4 5 3
      (record { status_flags = 2; fd_flags = 0 }) (record { status_flags = 2; fd_flags = 0 })
      (poor ∷ []) refl refl (omega arith) refl refl refl
