-- ===== src/Server/Opening.antt =====
-- How `start` opens its two server sockets, and what stays open where a call fails.
use x6losim.Prelude.{
  ℕ, ◌≡◌, ◌≢◌, refl, sym, ap, ◌∙◌, Bool, true, false, ◌&&◌, Option, none, some, ==_refl, arith,
  if◌then◌else◌, Bool-cases, inl, inr,
}
use x6losim.Prelude.Fault.{Result, ok, fail, thrown}
use x6losim.Socket.{Descriptor}
use x6losim.Socket.Listening.{
  Endpoint, Descriptors, Call, and_then, ◌>>=◌, ◌>>◌, pure, with_endpoint, ServerSocket,
  new_server_socket,
}
use x6losim.Server.Startup.{
  OpenAnswers, hanadu_node_port, wireless_node_port, open_server, open_servers,
}
use x6losim.Server.OneServer.{
  server_on, Listens, fresh, configured, with_endpoint_swap, open_server_lem, configured-Listens,
}

-- A call that returns, before another.
>>=-returns :
    {A B : Type 0} (m : Call A) (f : A → Call B) {a : A} {d d' : Descriptors}
    → m d ≡ (ok a, d')
    → (m >>= f) d ≡ f a d'
>>=-returns m f e = ap (λ x. and_then x f) e

-- Two calls one after the other, each of which may throw.
both_calls :
    {A : Type 0} (m n : Call (Unit {0})) (x : A) (c e : Bool) {d d' d'' : Descriptors}
    → m d ≡ (if c then ok tt else fail thrown, d')
    → n d' ≡ (if e then ok tt else fail thrown, d'')
    → (m >> (n >> pure x)) d
      ≡ (if c then (if e then ok x else fail thrown, d'') else (fail thrown, d'))
both_calls m n x true true g h =
    ap (λ y. and_then y (λ _. n >> pure x)) g ∙ ap (λ y. and_then y (λ _. pure x)) h
both_calls m n x true false g h =
    ap (λ y. and_then y (λ _. n >> pure x)) g ∙ ap (λ y. and_then y (λ _. pure x)) h
both_calls m n x false e g h = ap (λ y. and_then y (λ _. n >> pure x)) g

and_true : (x y : Bool) → x && y ≡ true → (x ≡ true) × (y ≡ true)
and_true true y e = (refl, e)
and_true false y e = cc

is_open : (x : Option Endpoint) (e : Endpoint) → x ≡ some e → x ≢ none
is_open x e f g = cc

module _ (a b : OpenAnswers) (d : Descriptors) (h s : ℕ) (old_h old_s : Descriptor)
    (got_h : a.socket ≡ some (h, old_h)) (got_s : b.socket ≡ some (s, old_s)) (apart : h ≢ s) where
  -- The table behind the calls for the first socket, and behind those for both.
  first_ready : Descriptors
  first_ready =
      with_endpoint s (some (fresh old_s))
        (with_endpoint h (some (configured hanadu_node_port h a old_h)) d)

  both_ready : Descriptors
  both_ready =
      with_endpoint s (some (configured wireless_node_port s b old_s))
        (with_endpoint h (some (configured hanadu_node_port h a old_h)) d)

  open_servers_eq : open_servers a b d ≡ (
      if a.bind && a.listen
      then (
        if b.bind && b.listen
            then ok (server_on hanadu_node_port h, server_on wireless_node_port s)
            else fail thrown,
        both_ready,
      )
      else (fail thrown, first_ready))
  unfolding open_servers new_server_socket both_ready first_ready
  open_servers_eq =
      let han = server_on hanadu_node_port h in
      let air = server_on wireless_node_port s in
      let d_s = with_endpoint s (some (fresh old_s)) d in
      let made_h : new_server_socket hanadu_node_port a.socket d
          ≡ (ok han, with_endpoint h (some (fresh old_h)) d) =
        ap (λ x. new_server_socket hanadu_node_port x d) got_h in
      let made_s : new_server_socket wireless_node_port b.socket
            (with_endpoint h (some (fresh old_h)) d)
          ≡ (ok air, with_endpoint h (some (fresh old_h)) d_s) =
        ap (λ x. new_server_socket wireless_node_port x (with_endpoint h (some (fresh old_h)) d))
          got_s
        ∙ ap (λ x. (ok air, x))
            (with_endpoint_swap h s (some (fresh old_h)) (some (fresh old_s)) d apart) in
      let first : open_server han a (with_endpoint h (some (fresh old_h)) d_s)
          ≡ (if a.bind && a.listen then ok tt else fail thrown, first_ready) =
        open_server_lem hanadu_node_port h old_h d_s a
        ∙ ap (λ x. (if a.bind && a.listen then ok tt else fail thrown, x))
            (sym (
              with_endpoint_swap h s (some (configured hanadu_node_port h a old_h))
                (some (fresh old_s)) d apart)) in
      let second : open_server air b first_ready
          ≡ (if b.bind && b.listen then ok tt else fail thrown, both_ready) =
        open_server_lem wireless_node_port s old_s
          (with_endpoint h (some (configured hanadu_node_port h a old_h)) d) b in
      let finish : ServerSocket → ServerSocket → Call (ServerSocket × ServerSocket) =
        λ x y. open_server x a >> (open_server y b >> pure (x, y)) in
      >>=-returns (new_server_socket hanadu_node_port a.socket)
        (λ x. new_server_socket wireless_node_port b.socket >>= finish x) made_h
      ∙ (>>=-returns (new_server_socket wireless_node_port b.socket) (finish han) made_s
          ∙ both_calls (open_server han a) (open_server air b) (han, air) (a.bind && a.listen)
              (b.bind && b.listen) first second)

  abbrev Elsewhere : Descriptors → Type 0
  Elsewhere d' = (i : ℕ) → i ≢ h → i ≢ s → d' i ≡ d i

  -- Two sockets, one on the other.
  two : Option Endpoint → Option Endpoint → Descriptors
  two x y = with_endpoint s y (with_endpoint h x d)

  two_lem : (x y : Option Endpoint) → (two x y h ≡ x) × (two x y s ≡ y) × Elsewhere (two x y)
  unfolding two with_endpoint
  two_lem x y = (ground (arith, apart), rw (==_refl s) refl, λ i ne_h ne_s. ground arith)

  -- Both sockets are created; that `fcntl` and `setsockopt` may fail, `start` ignores. Where all calls of
  -- `bind` and `listen` succeed, the two listen on the ports of the two kinds of nodes, with a queue of 20
  -- and with the flags that were asked for, as far as these were granted. Where one fails, `start` throws
  -- and both stay open. No other descriptor changes.
  pub open_servers_lem :
      (a.bind && a.listen && (b.bind && b.listen) ≡ true
        → (d' : Descriptors) × (e_h : Endpoint) × (e_s : Endpoint) × (open_servers a b d
            ≡ (ok (server_on hanadu_node_port h, server_on wireless_node_port s), d'))
          × (d' h ≡ some e_h)
          × Listens hanadu_node_port a old_h e_h
          × (d' s ≡ some e_s)
          × Listens wireless_node_port b old_s e_s
          × Elsewhere d')
      × (a.bind && a.listen && (b.bind && b.listen) ≡ false
          → (d' : Descriptors) × (open_servers a b d ≡ (fail thrown, d'))
            × (d' h ≢ none)
            × (d' s ≢ none)
            × Elsewhere d')
  unfolding both_ready first_ready two
  open_servers_lem = (
    λ all.
        let (x, y) = and_true _ _ all in
        let (at_h, at_s, others) = two_lem (some e_h) (some e_s) in
        (
          both_ready,
          e_h,
          e_s,
          open_servers_eq ∙ (ap outcome x ∙ ap (λ c. (outcome_b c, both_ready)) y),
          at_h,
          configured-Listens hanadu_node_port h a old_h x,
          at_s,
          configured-Listens wireless_node_port s b old_s y,
          others,
        ),
    λ one. elim (Bool-cases (a.bind && a.listen)) [
      | inl x ↦
          let y : b.bind && b.listen ≡ false = ap (λ c. c && (b.bind && b.listen)) (sym x) ∙ one in
          let (at_h, at_s, others) = two_lem (some e_h) (some e_s) in
          (
            both_ready,
            open_servers_eq ∙ (ap outcome x ∙ ap (λ c. (outcome_b c, both_ready)) y),
            is_open _ e_h at_h,
            is_open _ e_s at_s,
            others,
          )
      | inr x ↦
          let (at_h, at_s, others) = two_lem (some e_h) (some (fresh old_s)) in
          (
            first_ready,
            open_servers_eq ∙ ap outcome x,
            is_open _ e_h at_h,
            is_open _ (fresh old_s) at_s,
            others,
          )
    ],
  )
    where
      e_h : Endpoint
      e_h = configured hanadu_node_port h a old_h

      e_s : Endpoint
      e_s = configured wireless_node_port s b old_s

      outcome_b : Bool → Result (ServerSocket × ServerSocket)
      outcome_b c =
          if c
          then ok (server_on hanadu_node_port h, server_on wireless_node_port s)
          else fail thrown

      outcome : Bool → Result (ServerSocket × ServerSocket) × Descriptors
      outcome c =
          if c then (outcome_b (b.bind && b.listen), both_ready) else (fail thrown, first_ready)
