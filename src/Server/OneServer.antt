-- ===== src/Server/OneServer.antt =====
-- One server socket, from its creation until it listens.
use mathlib.Core.Path.{fun_ext}
use x6losim.Prelude.{
  ℕ, ◌≡◌, ◌≢◌, refl, ap, Bool, true, false, ◌&&◌, Option, none, some, ◌==◌, ==_refl, arith,
  if◌then◌else◌, Bool-cases, inl, inr,
}
use x6losim.Prelude.Fault.{ok, fail, thrown}
use x6losim.Wire.{htons}
use x6losim.Socket.{Descriptor, Fcntl, o_nonblock, fd_cloexec, set_blocking, set_close_on_exec}
use x6losim.Socket.Flags.{Switched, with_nonblock, with_cloexec}
use x6losim.Socket.Listening.{
  Endpoint, Descriptors, with_endpoint, change, ServerSocket, blocking_of, close_on_exec_of,
  set_reuse_address, bind_any_address, set_passive,
}
use x6losim.Server.Startup.{OpenAnswers, open_server}

abbrev pub server_on : ℕ → ℕ → ServerSocket
server_on port fd = record { base = record { fd = some fd }; port = port }

-- What a descriptor with these flags is once its server listens.
pub record Listens (port : ℕ) (a : OpenAnswers) (old : Descriptor) (new : Endpoint) : Type 0 where
  pub nonblocking :
      a.blocking.gets && a.blocking.sets ≡ true
      → Switched o_nonblock true old.status_flags new.flags.status_flags
  pub closed_on_exec :
      a.close_on_exec.gets && a.close_on_exec.sets ≡ true
      → Switched fd_cloexec true old.fd_flags new.flags.fd_flags
  pub reuses : new.reuse_address ≡ a.reuse
  pub bound : new.sin_port ≡ some (htons port)
  pub queue : new.backlog ≡ some 20

abbrev pub fresh : Descriptor → Endpoint
fresh old = record { flags = old; reuse_address = false; sin_port = none; backlog = none }

-- The table with one descriptor changed.
pub change-with_endpoint :
    (fd : ℕ) (d : Descriptors) (f : Endpoint → Endpoint) (e : Endpoint)
    → change (some fd) f (with_endpoint fd (some e) d) ≡ with_endpoint fd (some (f e)) d
unfolding change with_endpoint
change-with_endpoint fd d f e = fun_ext (λ i. elim (Bool-cases (fd == i)) [
  | inl same ↦ rw (same, ==_refl fd) refl
  | inr other ↦ rw other refl
])

pub with_endpoint_swap :
    (h s : ℕ) (x y : Option Endpoint) (d : Descriptors)
    → h ≢ s
    → with_endpoint s y (with_endpoint h x d) ≡ with_endpoint h x (with_endpoint s y d)
unfolding with_endpoint
with_endpoint_swap h s x y d ne = fun_ext (λ i. ground arith)

pub with_endpoint_here :
    (fd : ℕ) (x : Option Endpoint) (d : Descriptors) → with_endpoint fd x d fd ≡ x
unfolding with_endpoint
with_endpoint_here fd x d = rw (==_refl fd) refl

-- What becomes of a socket that has just been created.
abbrev pub configured : ℕ → ℕ → OpenAnswers → Descriptor → Endpoint
configured port fd a old = record (fresh old) {
  flags =
      (set_close_on_exec (some fd) a.close_on_exec true
        (set_blocking (some fd) a.blocking false old).1).1;
  reuse_address = a.reuse;
  sin_port = if a.bind then some (htons port) else none;
  backlog = if a.bind && a.listen then some 20 else none;
}

module _ (port fd : ℕ) (old : Descriptor) (d : Descriptors) (s : Option (ℕ × Descriptor))
    (f g : Fcntl) where
  abbrev answers : Bool → Bool → Bool → OpenAnswers
  answers reuse bind listen = record {
    socket = s;
    blocking = f;
    close_on_exec = g;
    reuse = reuse;
    bind = bind;
    listen = listen;
  }

  abbrev Opens : OpenAnswers → Type 0
  Opens a = open_server (server_on port fd) a (with_endpoint fd (some (fresh old)) d) ≡ (
    if a.bind && a.listen then ok tt else fail thrown,
    with_endpoint fd (some (configured port fd a old)) d,
  )

  open_by : (reuse bind listen : Bool) → Opens (answers reuse bind listen)
  unfolding open_server blocking_of close_on_exec_of set_reuse_address bind_any_address set_passive
  open_by true true true = let c = change-with_endpoint fd d in rw (c, c, c, c, c) refl
  open_by true true false = let c = change-with_endpoint fd d in rw (c, c, c, c) refl
  open_by true false l = let c = change-with_endpoint fd d in rw (c, c, c) refl
  open_by false true true = let c = change-with_endpoint fd d in rw (c, c, c, c) refl
  open_by false true false = let c = change-with_endpoint fd d in rw (c, c, c) refl
  open_by false false l = let c = change-with_endpoint fd d in rw (c, c) refl

pub open_server_lem :
    (port fd : ℕ) (old : Descriptor) (d : Descriptors) (a : OpenAnswers)
    → Opens port fd old d a.socket a.blocking a.close_on_exec a
open_server_lem port fd old d a =
    open_by port fd old d a.socket a.blocking a.close_on_exec a.reuse a.bind a.listen

pub configured-Listens :
    (port fd : ℕ) (a : OpenAnswers) (old : Descriptor)
    → a.bind && a.listen ≡ true
    → Listens port a old (configured port fd a old)
unfolding set_blocking set_close_on_exec
configured-Listens port fd a old h = record {
  nonblocking = λ v. rw v (elim (Bool-cases (a.close_on_exec.gets && a.close_on_exec.sets)) [
    | inl w ↦ rw w (with_nonblock old.status_flags)
    | inr w ↦ rw w (with_nonblock old.status_flags)
  ]);
  closed_on_exec = λ v. rw v (elim (Bool-cases (a.blocking.gets && a.blocking.sets)) [
    | inl w ↦ rw w (with_cloexec old.fd_flags)
    | inr w ↦ rw w (with_cloexec old.fd_flags)
  ]);
  reuses = refl;
  bound = bound_of a.bind a.listen h;
  queue = ap (λ b. if b then some 20 else none) h;
}
  where
    bound_of :
        (b l : Bool) → b && l ≡ true → (if b then some (htons port) else none) ≡ some (htons port)
    bound_of true l e = refl
    bound_of false l e = cc
