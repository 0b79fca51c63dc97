-- ===== src/Server.antt =====
-- `NetworkSimulator` of src/sim/Simulator.cpp: which descriptors it waits for, how it accepts
-- connections, and the loop of `start`. What `select` and `accept` return is an argument.
pub mod Clients
pub mod Loop
pub mod Startup
pub mod OneServer
pub mod Opening
pub mod Serving
pub mod Closing
mod Tests
use x6losim.Prelude.{
  ℕ, zero, suc, ◌+◌, List, [], ◌∷◌, ◌++◌, map, Bool, true, false, not, ◌&&◌, Option, none, some,
  ◌==◌, ltb, if◌then◌else◌,
}
use x6losim.Prelude.Fault.{Result, ok, fail, ◌>>=◌, ◌>>◌, require, or_fail, asserted, thrown}
use x6losim.Socket.{max_fd, SelectAnswer, select_interrupted, select_failed, selected}
use x6losim.Store.{Kernel, Medium, MediumKind, powerline, wireless}
use x6losim.Membership.{add_node}
use x6losim.Node.{new_device_node}

pub data AcceptStatus : Type 0 where
  accept_unblock accept_ok accept_timeout accept_error : AcceptStatus

-- The two server sockets and the unblocker's read pipe; `none` is a negative descriptor.
pub record AcceptFds : Type 0 where
  pub han_server : Option ℕ
  pub air_server : Option ℕ
  pub read_pipe : Option ℕ

unfoldable pub setup_accept_fd_set : AcceptFds → Result ℕ
setup_accept_fd_set fds = do
  han ← or_fail fds.han_server thrown
  air ← or_fail fds.air_server thrown
  pipe ← or_fail fds.read_pipe thrown
  ok (max_fd (max_fd han air) pipe)

-- The answers of the kernel to one call of `acceptConnections`: `select`, which descriptors are set,
-- and the clients that `accept` returns, `none` for -1.
pub record Answers : Type 0 where
  pub select : SelectAnswer
  pub han_ready : Bool
  pub air_ready : Bool
  pub pipe_ready : Bool
  pub han_accept : Option ℕ
  pub air_accept : Option ℕ

-- The result, with the descriptors closed on the way. `handled` is how often `count` was lowered.
pub record Accepted : Type 0 where
  pub status : AcceptStatus
  pub han_client : Option ℕ
  pub air_client : Option ℕ
  pub handled : ℕ
  pub closed : List ℕ

abbrev pub nothing_accepted : Accepted
nothing_accepted = record {
  status = accept_ok;
  han_client = none;
  air_client = none;
  handled = 0;
  closed = [];
}

abbrev pub client_list : Option ℕ → List ℕ
client_list none = []
client_list (some c) = c ∷ []

-- The Hanadu server's connection. The assertion on a failure tests -1, and holds.
unfoldable pub accept_han : Answers → Accepted → Accepted
accept_han a s =
    if a.han_ready
    then record s {
      han_client = a.han_accept;
      status = elim a.han_accept [ none ↦ accept_error | some _ ↦ s.status ];
      handled = suc s.handled;
    }
    else s

abbrev pub ewouldblock : ℕ
ewouldblock = 11

abbrev pub is_client : ℕ → Option ℕ → Bool
is_client fd none = false
is_client fd (some c) = c == fd

-- The wireless server's connection. The assertion on a failure tests the other client.
unfoldable pub air_result : Option ℕ → Accepted → Result Accepted
air_result none s =
    require (not (is_client ewouldblock s.han_client)) asserted
    >> ok (record s { air_client = none; status = accept_error; handled = suc s.handled })
air_result (some c) s = ok (record s { air_client = some c; handled = suc s.handled })

unfoldable pub accept_air : Answers → Accepted → Result Accepted
unfolding air_result
accept_air a s = if a.air_ready then air_result a.air_accept s else ok s

unfoldable pub close_clients : Accepted → Accepted
close_clients s = record s {
  closed = s.closed ++ (client_list s.han_client ++ client_list s.air_client);
  han_client = none;
  air_client = none;
}

unfoldable pub unblocked : Answers → Accepted → Accepted
unfolding close_clients
unblocked a s =
    if a.pipe_ready
    then record (close_clients s) { status = accept_unblock; handled = suc s.handled }
    else s

abbrev worse : AcceptStatus → AcceptStatus
worse accept_ok = accept_error
worse s = s

-- `count != 0` at the end.
unfoldable pub check_count : ℕ → Accepted → Accepted
unfolding close_clients
check_count count s =
    if count == s.handled then s else record (close_clients s) { status = worse s.status }

-- By the answer of `select`. The `continue` after an interruption leaves `do ... while(0)`.
unfoldable pub select_result : SelectAnswer → Answers → Result Accepted
unfolding accept_han accept_air unblocked check_count
select_result select_interrupted a = ok nothing_accepted
select_result select_failed a = ok (record nothing_accepted { status = accept_error })
select_result (selected zero) a = ok (record nothing_accepted { status = accept_timeout })
select_result (selected (suc n)) a = do
  s ← accept_air a (accept_han a nothing_accepted)
  ok (check_count (suc n) (unblocked a s))

unfoldable pub accept_connections : AcceptFds → Answers → Result Accepted
unfolding setup_accept_fd_set select_result
accept_connections fds a = do
  fdmax ← setup_accept_fd_set fds
  elim (ltb 0 fdmax) [
    | true ↦ select_result a.select a
    | false ↦ ok (record nothing_accepted { status = accept_error })
  ]

-- The clients that became nodes, with the medium of each.
abbrev pub Nodes : Type 0
Nodes = List (MediumKind × ℕ)

abbrev pub new_nodes : Accepted → Nodes
new_nodes s =
    map (λ c. (powerline, c)) (client_list s.han_client)
    ++ map (λ c. (wireless, c)) (client_list s.air_client)

-- What building a node and adding it to its medium meets: the kernel, the addresses of the node and its
-- socket, whether the registration request goes out whole, and the medium.
pub record Creation : Type 0 where
  pub kernel : Kernel
  pub address : ℕ
  pub socket : ℕ
  pub sent_whole : Bool
  pub medium : Medium

-- `new HanaduDeviceNode(client)` or `new WirelessDeviceNode(client)`, and `addNode`.
unfoldable pub create_node : Creation → ℕ → Result (Unit {0})
create_node c client =
    elim (new_device_node c.kernel c.address c.socket client c.sent_whole c.medium) [
      | fail e ↦ fail e
      | ok (_, w) ↦ elim (add_node c.kernel c.address w) [ fail e ↦ fail e | ok _ ↦ ok tt ]
    ]

abbrev pub create_client : Creation → Option ℕ → Result (Unit {0})
create_client c none = ok tt
create_client c (some client) = create_node c client

-- One turn of the loop: the answers, what the new nodes meet, and `stop` as the condition reads it.
pub record Turn : Type 0 where
  pub answers : Answers
  pub han_creation : Creation
  pub air_creation : Creation
  pub stop : Bool

-- The nodes of the clients, the Hanadu one first.
unfoldable pub create_clients : Turn → Accepted → Result (Unit {0})
create_clients t s = do
  create_client t.han_creation s.han_client
  create_client t.air_creation s.air_client

-- The body of the loop of `start`: the error count and the nodes.
unfoldable pub after_accept : Turn → AcceptStatus → Accepted → ℕ → Nodes → Result (ℕ × Nodes)
unfolding create_clients
after_accept t accept_ok s err_count nodes = do create_clients t s; ok (0, nodes ++ new_nodes s)
after_accept t accept_timeout s err_count nodes = ok (0, nodes)
after_accept t accept_error s err_count nodes =
    if ltb 5 (suc err_count) then fail thrown else ok (suc err_count, nodes)
after_accept t accept_unblock s err_count nodes = ok (err_count, nodes)

abbrev pub is_unblock : AcceptStatus → Bool
is_unblock accept_unblock = true
is_unblock _ = false

-- One turn, and whether another follows.
unfoldable pub serve_once : AcceptFds → Turn → ℕ → Nodes → Result (Bool × ℕ × Nodes)
unfolding accept_connections after_accept
serve_once fds t err_count nodes = do
  s ← accept_connections fds t.answers
  r ← after_accept t s.status s err_count nodes
  ok (not t.stop && not (is_unblock s.status), r.0, r.1)

-- The loop of `start`: `none` while it waits for what comes behind the turns given.
pub serve : AcceptFds → ℕ → Nodes → List Turn → Option (Result Nodes)
unfolding serve_once
serve fds err_count nodes [] = none
serve fds err_count nodes (t ∷ ts) = elim (serve_once fds t err_count nodes) [
  | fail e ↦ some (fail e)
  | ok (true, err_count', nodes') ↦ serve fds err_count' nodes' ts
  | ok (false, err_count', nodes') ↦ some (ok nodes')
]
