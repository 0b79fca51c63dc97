-- ===== src/Server/Serving.antt =====
-- The loop of `start` with its descriptors: that it runs as `serve`, and how `acceptConnections` fails.
use x6losim.Prelude.{
  ℕ, zero, suc, ◌≡◌, refl, List, [], ◌∷◌, Bool, true, false, not, ◌&&◌, Option, none, some,
  if◌then◌else◌,
}
use x6losim.Prelude.Fault.{Fault, Result, ok, fail, asserted, ◌>>=◌, ◌>>◌, require}
use x6losim.Socket.{SelectAnswer, select_interrupted, select_failed, selected}
use x6losim.Socket.Listening.{Descriptors, ServerSocket}
use x6losim.Server.{
  Answers, Accepted, Nodes, Turn, setup_accept_fd_set, air_result, accept_air, accept_han,
  nothing_accepted, select_result, accept_connections, after_accept, serve_once, serve, is_unblock,
  is_client, ewouldblock, accept_error,
}
use x6losim.Server.Startup.{accept_fds, serve_and_close}

-- What `start` returns or throws, without the table.
abbrev pub returned : Option (Result Nodes × Descriptors) → Option (Result Nodes)
returned none = none
returned (some (r, d)) = some r

pub serve_and_close-serve :
    (s : ServerSocket × ServerSocket) (pipe : Option ℕ) (err_count : ℕ) (nodes : Nodes)
    (ts : List Turn) (d : Descriptors)
    → returned (serve_and_close s pipe err_count nodes ts d)
      ≡ serve (accept_fds s pipe) err_count nodes ts
unfolding serve_and_close serve serve_once
serve_and_close-serve s pipe err_count nodes [] d = refl
serve_and_close-serve s pipe err_count nodes (t ∷ ts) d =
    by_accept (accept_connections (accept_fds s pipe) t.answers) refl
      (λ n ns. serve_and_close-serve s pipe n ns ts d)
  where
    Goal : Type 0
    Goal =
        returned (serve_and_close s pipe err_count nodes (t ∷ ts) d)
        ≡ serve (accept_fds s pipe) err_count nodes (t ∷ ts)

    Again : Type 0
    Again =
        (n : ℕ) (ns : Nodes)
        → returned (serve_and_close s pipe n ns ts d) ≡ serve (accept_fds s pipe) n ns ts

    by_go :
        (r : Accepted) (n : ℕ) (ns : Nodes) (b : Bool)
        → accept_connections (accept_fds s pipe) t.answers ≡ ok r
        → after_accept t r.status r err_count nodes ≡ ok (n, ns)
        → (not t.stop && not (is_unblock r.status)) ≡ b
        → Again
        → Goal
    by_go r n ns true g h b again = rw (g, h, b, ◌>>=◌) (again n ns)
    by_go r n ns false g h b again = rw (g, h, b, ◌>>=◌) refl

    by_after :
        (r : Accepted) (x : Result (ℕ × Nodes))
        → accept_connections (accept_fds s pipe) t.answers ≡ ok r
        → after_accept t r.status r err_count nodes ≡ x
        → Again
        → Goal
    by_after r (fail e) g h again = rw (g, h, ◌>>=◌) refl
    by_after r (ok (n, ns)) g h again =
        by_go r n ns (not t.stop && not (is_unblock r.status)) g h refl again

    by_accept :
        (x : Result Accepted) → accept_connections (accept_fds s pipe) t.answers ≡ x → Again → Goal
    by_accept (fail e) g again = rw (g, ◌>>=◌) refl
    by_accept (ok r) g again = by_after r (after_accept t r.status r err_count nodes) g refl again

require_fails :
    {A : Type 0} (b : Bool) (x : A) (e : Fault)
    → (require b asserted >> ok x) ≡ fail e
    → e ≡ asserted
require_fails true x e f = cc
require_fails false x e f = cc

air_result_fails :
    (c : Option ℕ) (s : Accepted) (e : Fault) → air_result c s ≡ fail e → e ≡ asserted
unfolding air_result
air_result_fails none s e f = require_fails (not (is_client ewouldblock s.han_client)) _ e f
air_result_fails (some c) s e f = cc

select_result_fails :
    (x : SelectAnswer) (a : Answers) (e : Fault) → select_result x a ≡ fail e → e ≡ asserted
unfolding select_result accept_air
select_result_fails select_interrupted a e f = cc
select_result_fails select_failed a e f = cc
select_result_fails (selected zero) a e f = cc
select_result_fails (selected (suc n)) a e f =
    by_air a.air_ready _ (accept_han a nothing_accepted) f
  where
    by_result :
        (r : Result Accepted) (g : Accepted → Accepted)
        → (r >>= λ s. ok (g s)) ≡ fail e
        → r ≡ fail e
    by_result (ok s) g h = cc
    by_result (fail e') g h = h

    by_air :
        (b : Bool) (g : Accepted → Accepted) (s : Accepted)
        → ((if b then air_result a.air_accept s else ok s) >>= λ s'. ok (g s')) ≡ fail e
        → e ≡ asserted
    by_air true g s h =
        air_result_fails a.air_accept s e (by_result (air_result a.air_accept s) g h)
    by_air false g s h = cc

-- With valid descriptors only an assertion stops `acceptConnections`.
pub accept_connections_fails :
    (h s p : ℕ) (a : Answers) (e : Fault)
    → accept_connections (record { han_server = some h; air_server = some s; read_pipe = some p }) a
      ≡ fail e
    → e ≡ asserted
unfolding accept_connections setup_accept_fd_set
accept_connections_fails h s p a e f = by_max _ f
  where
    by_max :
        (b : Bool)
        → ◌≡◌ {A = Result Accepted}
            (elim b [
              | true ↦ select_result a.select a
              | false ↦ ok (record nothing_accepted { status = accept_error })
            ])
            (fail e)
        → e ≡ asserted
    by_max true g = select_result_fails a.select a e g
    by_max false g = cc
