-- ===== src/Server/Startup.antt =====
-- `NetworkSimulator::start` of src/sim/Simulator.cpp as a whole: it opens the two server sockets, runs
-- its loop and closes them.
use x6losim.Prelude.{ℕ, List, [], ◌∷◌, Bool, true, false, not, ◌&&◌, Option, none, some}
use x6losim.Prelude.Fault.{Result, ok, fail}
use x6losim.Socket.{Descriptor, Fcntl}
use x6losim.Socket.Listening.{
  Descriptors, Call, ◌>>=◌, ◌>>◌, pure, ServerSocket, new_server_socket, delete_socket, blocking_of,
  close_on_exec_of, set_reuse_address, bind_any_address, set_passive,
}
use x6losim.Server.{
  AcceptStatus, accept_error, AcceptFds, Nodes, Turn, accept_connections, after_accept, is_unblock,
}

abbrev pub hanadu_node_port : ℕ
hanadu_node_port = 11555

abbrev pub wireless_node_port : ℕ
wireless_node_port = 11556

-- The kernel's answers while one server socket is opened.
pub record OpenAnswers : Type 0 where
  pub socket : Option (ℕ × Descriptor)
  pub blocking : Fcntl
  pub close_on_exec : Fcntl
  pub reuse : Bool
  pub bind : Bool
  pub listen : Bool

-- The five calls, the same for both sockets.
unfoldable pub open_server : ServerSocket → OpenAnswers → Call (Unit {0})
open_server s a = do
  blocking_of s.base a.blocking false
  close_on_exec_of s.base a.close_on_exec true
  r ← set_reuse_address s.base a.reuse true
  bind_any_address s a.bind
  set_passive s a.listen 20

unfoldable pub open_servers : OpenAnswers → OpenAnswers → Call (ServerSocket × ServerSocket)
open_servers a b = do
  han ← new_server_socket hanadu_node_port a.socket
  air ← new_server_socket wireless_node_port b.socket
  open_server han a
  open_server air b
  pure (han, air)

unfoldable pub delete_servers : ServerSocket × ServerSocket → Descriptors → Descriptors
delete_servers (han, air) d = delete_socket air.base (delete_socket han.base d)

abbrev pub accept_fds : ServerSocket × ServerSocket → Option ℕ → AcceptFds
accept_fds (han, air) pipe = record {
  han_server = han.base.fd;
  air_server = air.base.fd;
  read_pipe = pipe;
}

-- The sockets behind a throw in the body of the loop: only the branch of `ACCEPT_ERROR` deletes them.
abbrev pub closed_by : AcceptStatus → ServerSocket × ServerSocket → Descriptors → Descriptors
closed_by accept_error s d = delete_servers s d
closed_by _ s d = d

-- The loop and what follows it. Both sockets are deleted behind the loop and where it gives up, but not
-- where `acceptConnections` or the creation of a node throws; `none` is as in `serve`.
unfoldable pub serve_and_close :
    ServerSocket × ServerSocket
    → Option ℕ
    → ℕ
    → Nodes
    → List Turn
    → Descriptors
    → Option (Result Nodes × Descriptors)
serve_and_close s pipe err_count nodes [] d = none
serve_and_close s pipe err_count nodes (t ∷ ts) d =
    elim (accept_connections (accept_fds s pipe) t.answers) [
      | fail e ↦ some (fail e, d)
      | ok r ↦ elim (after_accept t r.status r err_count nodes) [
        | fail e ↦ some (fail e, closed_by r.status s d)
        | ok (err_count', nodes') ↦ elim (not t.stop && not (is_unblock r.status)) [
          | true ↦ serve_and_close s pipe err_count' nodes' ts d
          | false ↦ some (ok nodes', delete_servers s d)
        ]
      ]
    ]

-- What follows the opening, unless that threw.
abbrev pub serve_opened :
    Result (ServerSocket × ServerSocket) × Descriptors
    → Option ℕ
    → List Turn
    → Option (Result Nodes × Descriptors)
serve_opened (ok s, d) pipe ts = serve_and_close s pipe 0 [] ts d
serve_opened (fail e, d) pipe ts = some (fail e, d)

unfoldable pub start :
    OpenAnswers
    → OpenAnswers
    → Option ℕ
    → List Turn
    → Descriptors
    → Option (Result Nodes × Descriptors)
start a b pipe ts d = serve_opened (open_servers a b d) pipe ts
