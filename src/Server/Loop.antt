-- ===== src/Server/Loop.antt =====
-- How the loop of `start` ends.
use x6losim.Prelude.{
  ℕ, suc, ◌+◌, ◌≤◌, ◌≡◌, refl, ap, leb, Bool-cases, inl, inr, ◌∙◌, List, [], ◌∷◌, ◌++◌, Bool, true,
  false, not, ◌&&◌, ◌==◌, some, ltb, All, length, arith, if◌then◌else◌,
}
use x6losim.Prelude.Fault.{Result, ok, fail, thrown, ◌>>=◌}
use x6losim.Socket.{selected}
use x6losim.Server.{
  AcceptFds, Answers, Accepted, nothing_accepted, Nodes, Turn, setup_accept_fd_set, accept_air,
  accept_han, unblocked, check_count, select_result, accept_connections, accept_error,
  accept_unblock, after_accept, serve_once, serve,
}

-- A turn whose `acceptConnections` reports an error, without `stop`.
abbrev pub Errs : AcceptFds → Turn → Type 0
Errs fds t =
    (t.stop ≡ false)
    × ((s : Accepted) × (accept_connections fds t.answers ≡ ok s) × (s.status ≡ accept_error))

serve_once_error :
    (fds : AcceptFds) (t : Turn) (err_count : ℕ) (nodes : Nodes)
    → Errs fds t
    → (err_count ≤ 4 → serve_once fds t err_count nodes ≡ ok (true, suc err_count, nodes))
      × (5 ≤ err_count → serve_once fds t err_count nodes ≡ fail thrown)
unfolding serve_once after_accept
serve_once_error fds t err_count nodes (go, (s, e, f)) = (few, many)
  where
    few : err_count ≤ 4 → serve_once fds t err_count nodes ≡ ok (true, suc err_count, nodes)
    few h = let b : ltb 5 (suc err_count) ≡ false = ground arith in rw (e, ◌>>=◌, f, b, go) refl

    many : 5 ≤ err_count → serve_once fds t err_count nodes ≡ fail thrown
    many h = let b : ltb 5 (suc err_count) ≡ true = ground arith in rw (e, ◌>>=◌, f, b) refl

-- Errors in a row, without a good turn in between, are counted from the count at their start: with
-- those before them they may be five, and change nothing else; the sixth ends the simulator.
pub serve_counts_errors :
    (fds : AcceptFds) (err_count : ℕ) (nodes : Nodes) (ts rest : List Turn)
    → All (Errs fds) ts
    → err_count ≤ 5
    → (err_count + length ts ≤ 5
        → serve fds err_count nodes (ts ++ rest) ≡ serve fds (err_count + length ts) nodes rest)
      × (6 ≤ err_count + length ts → serve fds err_count nodes (ts ++ rest) ≡ some (fail thrown))
unfolding serve
serve_counts_errors fds err_count nodes [] rest errs low =
    (λ h. ap (λ c. serve fds c nodes rest) (omega arith), λ h. absurd (omega arith))
serve_counts_errors fds err_count nodes (t ∷ ts) rest errs low =
    let again : err_count ≤ 4 → _ =
      λ h. serve_counts_errors fds (suc err_count) nodes ts rest errs.1 (omega arith) in
    (
      λ h.
          next (omega arith)
          ∙ ((again (omega arith)).0 (omega arith)
              ∙ ap (λ c. serve fds c nodes rest) (omega arith)),
      λ h. elim (Bool-cases (leb err_count 4)) [
        | inl low' ↦ next (ground arith) ∙ (again (ground arith)).1 (omega arith)
        | inr high ↦
            rw ((serve_once_error fds t err_count nodes errs.0).1 (ground arith), serve) refl
      ],
    )
  where
    next :
        err_count ≤ 4
        → serve fds err_count nodes (t ∷ ts ++ rest) ≡ serve fds (suc err_count) nodes (ts ++ rest)
    next h = rw ((serve_once_error fds t err_count nodes errs.0).0 h, serve) refl

unblocked_status :
    (n : ℕ) (a : Answers) (s : Accepted)
    → a.pipe_ready ≡ true
    → (check_count n (unblocked a s)).status ≡ accept_unblock
unfolding check_count unblocked
unblocked_status n a s r = rw r (either (n == suc s.handled) _ _ refl refl)
  where
    either :
        (b : Bool) (x y : Accepted)
        → x.status ≡ accept_unblock
        → y.status ≡ accept_unblock
        → (if b then x else y).status ≡ accept_unblock
    either true x y hx hy = hx
    either false x y hx hy = hy

-- The unblocker ends the loop in the turn in which `select` reports it, whatever `stop` says: the
-- simulator returns with the nodes that it had, and the clients that were accepted in the same turn
-- become none. The descriptors have to be valid, and the assertion on a failed `accept` has to hold.
pub serve_unblocked :
    (fds : AcceptFds) (err_count : ℕ) (nodes : Nodes) (t : Turn) (ts : List Turn) (m n : ℕ)
    {s : Accepted}
    → setup_accept_fd_set fds ≡ ok (suc m)
    → t.answers.select ≡ selected (suc n)
    → t.answers.pipe_ready ≡ true
    → accept_air t.answers (accept_han t.answers nothing_accepted) ≡ ok s
    → serve fds err_count nodes (t ∷ ts) ≡ some (ok nodes)
unfolding serve serve_once accept_connections select_result
serve_unblocked fds err_count nodes t ts m n {s} g e r a =
    let waits : ltb 0 (suc m) ≡ true = ground arith in
    let answer : select_result (selected (suc n)) t.answers
        ≡ ok (check_count (suc n) (unblocked t.answers s)) =
      rw (a, ◌>>=◌) refl in
    let returned : accept_connections fds t.answers
        ≡ ok (check_count (suc n) (unblocked t.answers s)) =
      rw (g, ◌>>=◌, waits) (ap (λ x. select_result x t.answers) e ∙ answer) in
    let last : serve_once fds t err_count nodes ≡ ok (false, err_count, nodes) =
      rw (returned, ◌>>=◌, unblocked_status (suc n) t.answers s r) (ended (not t.stop)) in
    rw (last, serve) refl
  where
    ended :
        (b : Bool)
        → ◌≡◌ {A = Result (Bool × ℕ × Nodes)}
            (ok (b && false, err_count, nodes))
            (ok (false, err_count, nodes))
    ended true = refl
    ended false = refl
