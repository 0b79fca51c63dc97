-- ===== src/Server/Closing.antt =====
-- `start` as a whole: what it returns, and that it closes its two sockets.
use x6losim.Prelude.{
  ℕ, ◌≡◌, ◌≢◌, ◌⊎◌, refl, sym, ap, subst, ◌∙◌, List, [], ◌∷◌, ◌++◌, Bool, true, false, not, ◌&&◌,
  Bool-cases, inl, inr, Option, none, some, ◌==◌, arith,
}
use x6losim.Prelude.Fault.{Fault, Result, ok, fail, thrown, asserted, ◌>>=◌}
use x6losim.Socket.{Descriptor}
use x6losim.Socket.Listening.{Descriptors, with_endpoint, ServerSocket, delete_socket}
use x6losim.Server.{
  AcceptStatus, accept_ok, accept_error, accept_timeout, accept_unblock, AcceptFds, Accepted, Nodes,
  Turn, accept_connections, after_accept, create_clients, new_nodes, serve, is_unblock,
}
use x6losim.Server.Startup.{
  OpenAnswers, hanadu_node_port, wireless_node_port, delete_servers, closed_by, accept_fds,
  serve_and_close, serve_opened, start,
}
use x6losim.Server.Opening.{open_servers_lem}
use x6losim.Server.OneServer.{server_on}
use x6losim.Server.Serving.{returned, serve_and_close-serve, accept_connections_fails}

-- A turn ends the loop with a fault: by an assertion of `acceptConnections`, or while a node is built or added.
abbrev pub Breaks : AcceptFds → Fault → Turn → Type 0
Breaks fds e t =
    ((e ≡ asserted) × (accept_connections fds t.answers ≡ fail e))
    ⊎ ((r : Accepted) × (accept_connections fds t.answers ≡ ok r)
        × (r.status ≡ accept_ok)
        × (create_clients t r ≡ fail e))

abbrev pub Broken : AcceptFds → Fault → List Turn → Type 0
Broken fds e [] = ⊥
Broken fds e (t ∷ ts) = Breaks fds e t ⊎ Broken fds e ts

abbrev fault_of : {A : Type 0} → Result A → Fault
fault_of (ok _) = thrown
fault_of (fail e) = e

after_accept_fails :
    (t : Turn) (c : AcceptStatus) (r : Accepted) (err_count : ℕ) (nodes : Nodes) (e : Fault)
    → after_accept t c r err_count nodes ≡ fail e
    → (c ≡ accept_error) ⊎ ((c ≡ accept_ok) × (create_clients t r ≡ fail e))
unfolding after_accept
after_accept_fails t accept_error r err_count nodes e h = inl refl
after_accept_fails t accept_timeout r err_count nodes e h = cc
after_accept_fails t accept_unblock r err_count nodes e h = cc
after_accept_fails t accept_ok r err_count nodes e h =
    inr (refl, by_creation (create_clients t r) h)
  where
    by_creation :
        (x : Result (Unit {0}))
        → ◌≡◌ {A = Result (ℕ × Nodes)} (x >>= λ _. ok (0, nodes ++ new_nodes r)) (fail e)
        → x ≡ fail e
    by_creation (ok _) g = cc
    by_creation (fail e') g = let same : e' ≡ e = ap fault_of g in ap (λ x. fail x) same

module _ (h s p : ℕ) where
  abbrev servers : ServerSocket × ServerSocket
  servers = (server_on hanadu_node_port h, server_on wireless_node_port s)

  abbrev fds : AcceptFds
  fds = accept_fds servers (some p)

  -- How the table is left, `d` being that before the loop.
  abbrev Left : List Turn → Result Nodes → Descriptors → Descriptors → Type 0
  Left ts r d d' =
      (delete_servers servers d ≡ d') ⊎ ((d ≡ d') × (e : Fault) × (r ≡ fail e) × Broken fds e ts)

  abbrev Closes : List Turn → Option (Result Nodes × Descriptors) → Descriptors → Type 0
  Closes ts x d = (r : Result Nodes) (d' : Descriptors) → x ≡ some (r, d') → Left ts r d d'

  serve_and_close-Closes :
      (err_count : ℕ) (nodes : Nodes) (ts : List Turn) (d : Descriptors)
      → Closes ts (serve_and_close servers (some p) err_count nodes ts d) d
  unfolding serve_and_close
  serve_and_close-Closes err_count nodes [] d = λ r d' e. cc
  serve_and_close-Closes err_count nodes (t ∷ ts) d =
      by_accept (accept_connections fds t.answers) refl (λ n ns. serve_and_close-Closes n ns ts d)
    where
      turn : Option (Result Nodes × Descriptors)
      turn = serve_and_close servers (some p) err_count nodes (t ∷ ts) d

      Goal : Type 0
      Goal = Closes (t ∷ ts) turn d

      along : {x : Option (Result Nodes × Descriptors)} → turn ≡ x → Closes (t ∷ ts) x d → Goal
      along e c = subst (λ y. Closes (t ∷ ts) y d) (sym e) c

      closes : (r : Result Nodes) → turn ≡ some (r, delete_servers servers d) → Goal
      closes r e = along e (λ r' d' g. inl cc)

      breaks : (e : Fault) → turn ≡ some (fail e, d) → Breaks fds e t → Goal
      breaks e g b = along g (λ r' d' g'. inr (cc, e, cc, inl b))

      Again : Type 0
      Again = (n : ℕ) (ns : Nodes) → Closes ts (serve_and_close servers (some p) n ns ts d) d

      later_on : {r : Result Nodes} {d' : Descriptors} → Left ts r d d' → Left (t ∷ ts) r d d'
      later_on (inl x) = inl x
      later_on (inr (x, e, f, b)) = inr (x, e, f, inr b)

      by_go :
          (r : Accepted) (n : ℕ) (ns : Nodes) (b : Bool)
          → accept_connections fds t.answers ≡ ok r
          → after_accept t r.status r err_count nodes ≡ ok (n, ns)
          → (not t.stop && not (is_unblock r.status)) ≡ b
          → Again
          → Goal
      by_go r n ns true g h' b again =
          along (rw (serve_and_close, g, h', b) refl) (λ r' d' e. later_on (again n ns r' d' e))
      by_go r n ns false g h' b again = closes (ok ns) (rw (serve_and_close, g, h', b) refl)

      by_after :
          (r : Accepted) (x : Result (ℕ × Nodes))
          → accept_connections fds t.answers ≡ ok r
          → after_accept t r.status r err_count nodes ≡ x
          → Again
          → Goal
      by_after r (fail e) g h' again =
          let stopped : turn ≡ some (fail e, closed_by r.status servers d) =
            rw (serve_and_close, g, h') refl in
          elim (after_accept_fails t r.status r err_count nodes e h') [
            | inl given_up ↦
                closes (fail e) (stopped ∙ ap (λ c. some (fail e, closed_by c servers d)) given_up)
            | inr (good, failed) ↦
                breaks e (stopped ∙ ap (λ c. some (fail e, closed_by c servers d)) good)
                  (inr (r, g, good, failed))
          ]
      by_after r (ok (n, ns)) g h' again =
          by_go r n ns (not t.stop && not (is_unblock r.status)) g h' refl again

      by_accept : (x : Result Accepted) → accept_connections fds t.answers ≡ x → Again → Goal
      by_accept (fail e) g again =
          breaks e (rw (serve_and_close, g) refl)
            (inl (accept_connections_fails h s p t.answers e g, g))
      by_accept (ok r) g again = by_after r (after_accept t r.status r err_count nodes) g refl again

-- The two descriptors are unused before and closed behind.
closed_again :
    (h s : ℕ) (d d' : Descriptors)
    → d h ≡ none
    → d s ≡ none
    → ((i : ℕ) → i ≢ h → i ≢ s → d' i ≡ d i)
    → (i : ℕ)
    → delete_servers (server_on hanadu_node_port h, server_on wireless_node_port s) d' i ≡ d i
unfolding delete_servers delete_socket with_endpoint
closed_again h s d d' new_h new_s others i = elim (Bool-cases (s == i)) [
  | inl at_s ↦ rw at_s (sym new_s ∙ ap d (ground arith))
  | inr not_s ↦ elim (Bool-cases (h == i)) [
    | inl at_h ↦ rw (not_s, at_h) (sym new_h ∙ ap d (ground arith))
    | inr not_h ↦ rw (not_s, not_h) (others i (ground arith) (ground arith))
  ]
]

-- Where both sockets are created and all calls of `bind` and `listen` succeed, `start` returns or throws
-- what its loop does, and goes on waiting just as long. When it ends, the table of open descriptors is
-- what it was before the call, but for the clients, which are not in it; or it ends by a failed
-- assertion of `acceptConnections`, or by a fault in the creation of a node behind an accept that succeeded, and then the two
-- servers are still open and the rest of the table is as before.
pub start_lem :
    (a b : OpenAnswers) (d : Descriptors) (h s p : ℕ) (old_h old_s : Descriptor) (ts : List Turn)
    → a.socket ≡ some (h, old_h)
    → b.socket ≡ some (s, old_s)
    → h ≢ s
    → d h ≡ none
    → d s ≡ none
    → a.bind && a.listen && (b.bind && b.listen) ≡ true
    → (returned (start a b (some p) ts d)
        ≡ serve (record { han_server = some h; air_server = some s; read_pipe = some p }) 0 [] ts)
      × ((r : Result Nodes) (d' : Descriptors)
          → start a b (some p) ts d ≡ some (r, d')
          → ((i : ℕ) → d' i ≡ d i)
            ⊎ ((d' h ≢ none)
                × (d' s ≢ none)
                × ((i : ℕ) → i ≢ h → i ≢ s → d' i ≡ d i)
                × (e : Fault) × (r ≡ fail e)
                × Broken
                    (record { han_server = some h; air_server = some s; read_pipe = some p })
                    e
                    ts))
unfolding start
start_lem a b d h s p old_h old_s ts got_h got_s apart new_h new_s all =
    let (d1, _, _, opened, at_h, _, at_s, _, others) =
      (open_servers_lem a b d h s old_h old_s got_h got_s apart).0 all in
    let runs : start a b (some p) ts d ≡ serve_and_close (servers h s p) (some p) 0 [] ts d1 =
      ap (λ x. serve_opened x (some p) ts) opened in
    (
      ap returned runs ∙ serve_and_close-serve (servers h s p) (some p) 0 [] ts d1,
      λ r d' e. elim (serve_and_close-Closes h s p 0 [] ts d1 r d' (sym runs ∙ e)) [
        | inl closed ↦
            inl (λ i. ap (λ x. x i) (sym closed) ∙ closed_again h s d d1 new_h new_s others i)
        | inr (kept, f, g, b) ↦ inr (
          (λ q. let still = ap (λ x. x h) kept in cc),
          (λ q. let still = ap (λ x. x s) kept in cc),
          (λ i x y. ap (λ t. t i) (sym kept) ∙ others i x y),
          f,
          g,
          b,
        )
      ],
    )
