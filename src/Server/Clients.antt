-- ===== src/Server/Clients.antt =====
-- No client is lost inside `acceptConnections`.
use mathlib.Core.List.{append-nil}
use x6losim.Prelude.{
  ℕ, suc, ◌≡◌, refl, ap, subst, arith, ltb, Bool-cases, sym, ◌∙◌, ◌⊎◌, inl, inr, List, [], ◌++◌,
  Bool, true, false, not, Option, none, some, ◌==◌, if◌then◌else◌,
}
use x6losim.Prelude.Fault.{require, asserted, Result, ok, fail, ◌>>=◌, ◌>>◌}
use x6losim.Socket.{selected}
use x6losim.Server.{
  setup_accept_fd_set, is_client, ewouldblock, AcceptFds, Answers, Accepted, nothing_accepted,
  client_list, accept_han, air_result, accept_air, close_clients, unblocked, check_count,
  select_result, accept_connections,
}

-- The clients that one call gives out, and those that the kernel's answers hold.
abbrev pub given_out : Accepted → List ℕ
given_out s = client_list s.han_client ++ client_list s.air_client

abbrev pub accepted_if : Bool → Option ℕ → List ℕ
accepted_if ready c = if ready then client_list c else []

abbrev pub arrived : Answers → List ℕ
arrived a = accepted_if a.han_ready a.han_accept ++ accepted_if a.air_ready a.air_accept

-- All of them are given out, or all are closed.
abbrev pub Accounted : List ℕ → Accepted → Type 0
Accounted clients s =
    ((s.closed ≡ []) × (given_out s ≡ clients)) ⊎ ((s.closed ≡ clients) × (given_out s ≡ []))

close_clients-Accounted :
    (clients : List ℕ) (s : Accepted) → Accounted clients s → Accounted clients (close_clients s)
unfolding close_clients
close_clients-Accounted clients s (inl (c, g)) = inr (ap (λ x. x ++ given_out s) c ∙ g, refl)
close_clients-Accounted clients s (inr (c, g)) =
    inr (ap (◌++◌ s.closed) g ∙ (append-nil s.closed ∙ c), refl)

if-Accounted :
    {clients : List ℕ} (b : Bool) (s t : Accepted)
    → Accounted clients s
    → Accounted clients t
    → Accounted clients (if b then s else t)
if-Accounted true s t hs ht = hs
if-Accounted false s t hs ht = ht

unblocked-Accounted :
    (a : Answers) (clients : List ℕ) (s : Accepted)
    → Accounted clients s
    → Accounted clients (unblocked a s)
unfolding unblocked
unblocked-Accounted a clients s h =
    if-Accounted a.pipe_ready _ s (close_clients-Accounted clients s h) h

check_count-Accounted :
    (count : ℕ) (clients : List ℕ) (s : Accepted)
    → Accounted clients s
    → Accounted clients (check_count count s)
unfolding check_count
check_count-Accounted count clients s h =
    if-Accounted (count == s.handled) s _ h (close_clients-Accounted clients s h)

required : {A : Type 0} (b : Bool) {a a' : A} → (require b asserted >> ok a) ≡ ok a' → a ≡ a'
required true h = cc
required false h = cc

air_result_lem :
    (air : Option ℕ) (s : Accepted) {s' : Accepted}
    → air_result air s ≡ ok s'
    → (s.closed ≡ s'.closed) × (s.han_client ≡ s'.han_client) × (air ≡ s'.air_client)
unfolding air_result
air_result_lem none s h =
    let e = required (not (is_client ewouldblock s.han_client)) h in
    (ap (λ x. x.closed) e, ap (λ x. x.han_client) e, ap (λ x. x.air_client) e)
air_result_lem (some c) s {s'} h =
    let e : record s { air_client = some c; handled = suc s.handled } ≡ s' = cc in
    (ap (λ x. x.closed) e, ap (λ x. x.han_client) e, ap (λ x. x.air_client) e)

accept_han_lem :
    (a : Answers)
    → ((accept_han a nothing_accepted).closed ≡ [])
      × (client_list (accept_han a nothing_accepted).han_client
          ≡ accepted_if a.han_ready a.han_accept)
      × ((accept_han a nothing_accepted).air_client ≡ none)
unfolding accept_han
accept_han_lem a = elim (Bool-cases a.han_ready) [
  | inl e ↦ rw e (refl, refl, refl)
  | inr e ↦ rw e (refl, refl, refl)
]

both : {a b c d : List ℕ} → a ≡ b → c ≡ d → a ++ c ≡ b ++ d
both p q = λ i. p i ++ q i

mapped :
    {A B : Type 0} (m : Result A) (f : A → B) {b : B}
    → (m >>= λ a. ok (f a)) ≡ ok b
    → (a : A) × (m ≡ ok a) × (f a ≡ b)
mapped (ok a) f h = (a, refl, cc)
mapped (fail e) f h = cc

accepted-Accounted :
    (a : Answers) {s : Accepted}
    → accept_air a (accept_han a nothing_accepted) ≡ ok s
    → Accounted (arrived a) s
unfolding accept_air
accepted-Accounted a {s} h = go a.air_ready h
  where
    s₀ : Accepted
    s₀ = accept_han a nothing_accepted

    go :
        (ready : Bool)
        → (if ready then air_result a.air_accept s₀ else ok s₀) ≡ ok s
        → Accounted (accepted_if a.han_ready a.han_accept ++ accepted_if ready a.air_accept) s
    go true h =
        let e = air_result_lem a.air_accept s₀ h in
        inl (
          sym e.0 ∙ (accept_han_lem a).0,
          both (ap client_list (sym e.1) ∙ (accept_han_lem a).1) (ap client_list (sym e.2)),
        )
    go false h =
        let e : s₀ ≡ s = cc in
        inl (
          ap (λ x. x.closed) (sym e) ∙ (accept_han_lem a).0,
          ap given_out (sym e) ∙ both (accept_han_lem a).1 (ap client_list (accept_han_lem a).2),
        )

-- Where `select` reports ready descriptors and `acceptConnections` returns, every client that it
-- accepted has been given out, Hanadu's first, or closed, and that is so for both of them alike:
-- after a call of the unblocker, or for a count that does not fit, none is given out. The
-- descriptors have to be valid.
pub accept_connections-Accounted :
    (fds : AcceptFds) (a : Answers) (m n : ℕ) (s : Accepted)
    → setup_accept_fd_set fds ≡ ok (suc m)
    → a.select ≡ selected (suc n)
    → accept_connections fds a ≡ ok s
    → Accounted (arrived a) s
unfolding accept_connections select_result
accept_connections-Accounted fds a m n s g e h =
    let waits : ltb 0 (suc m) ≡ true = ground arith in
    let started : accept_connections fds a ≡ select_result a.select a = rw (g, ◌>>=◌, waits) in
    let (s₁, e₁, f) =
      mapped (accept_air a (accept_han a nothing_accepted))
        (λ x. check_count (suc n) (unblocked a x))
        (ap (λ x. select_result x a) (sym e) ∙ (sym started ∙ h)) in
    subst (Accounted (arrived a)) f (
      check_count-Accounted (suc n) (arrived a) (unblocked a s₁)
        (unblocked-Accounted a (arrived a) s₁ (accepted-Accounted a e₁)))
