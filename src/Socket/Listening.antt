-- ===== src/Socket/Listening.antt =====
-- `ServerSocket` of src/socket/Socket.cpp, with the calls of `Socket` that a server makes first. The
-- calls may throw, and the kernel's table of open descriptors outlives a throw.
use x6losim.Prelude.{ℕ, Bool, true, false, Option, none, some, ◌==◌, if◌then◌else◌}
use x6losim.Prelude.Fault.{Result, ok, fail, thrown}
use x6losim.Wire.{htons}
use x6losim.Socket.{Descriptor, Fcntl, set_blocking, set_close_on_exec}

-- An open descriptor: its flags, SO_REUSEADDR, the port that it is bound to, in the order of the
-- network, and the length of its queue where it listens.
pub record Endpoint : Type 0 where
  pub flags : Descriptor
  pub reuse_address : Bool
  pub sin_port : Option ℕ
  pub backlog : Option ℕ

abbrev pub Descriptors : Type 0
Descriptors = ℕ → Option Endpoint

unfoldable pub with_endpoint : ℕ → Option Endpoint → Descriptors → Descriptors
with_endpoint fd e d i = if fd == i then e else d i

-- A call: what it returns or throws, and the table afterwards.
abbrev pub Call : Type 0 → Type 0
Call A = Descriptors → Result A × Descriptors

-- What follows a call: nothing where it threw.
abbrev pub and_then :
    {A B : Type 0} → Result A × Descriptors → (A → Call B) → Result B × Descriptors
and_then (ok a, d) f = f a d
and_then (fail e, d) f = (fail e, d)

infixl 5 ◌>>=◌ ◌>>◌
abbrev pub ◌>>=◌ : {A B : Type 0} → Call A → (A → Call B) → Call B
◌>>=◌ m f d = and_then (m d) f

abbrev pub ◌>>◌ : {B : Type 0} → Call (Unit {0}) → Call B → Call B
m >> k = m >>= λ _. k

abbrev pub pure : {A : Type 0} → A → Call A
pure a d = (ok a, d)

abbrev throw_unless : Bool → Call (Unit {0})
throw_unless true d = (ok tt, d)
throw_unless false d = (fail thrown, d)

-- `fd`; `none` is -1.
pub record Socket : Type 0 where
  pub fd : Option ℕ

abbrev pub new_socket : Socket
new_socket = record { fd = none }

abbrev pub set_sock_fd : ℕ → Socket → Socket
set_sock_fd fd s = record s { fd = some fd }

pub record ServerSocket : Type 0 where
  pub base : Socket
  pub port : ℕ

-- The flags that the kernel gives a new socket belong to its answer.
unfoldable pub new_server_socket : ℕ → Option (ℕ × Descriptor) → Call ServerSocket
new_server_socket port none d = (fail thrown, d)
new_server_socket port (some (fd, flags)) d = (
  ok (record { base = set_sock_fd fd new_socket; port = port }),
  with_endpoint fd
      (some (record { flags = flags; reuse_address = false; sin_port = none; backlog = none })) d,
)

unfoldable pub delete_socket : Socket → Descriptors → Descriptors
delete_socket s d = elim s.fd [ none ↦ d | some fd ↦ with_endpoint fd none d ]

-- What the kernel does to an open descriptor.
abbrev pub on_endpoint : (Endpoint → Endpoint) → Option Endpoint → Option Endpoint
on_endpoint f none = none
on_endpoint f (some e) = some (f e)

unfoldable pub change : Option ℕ → (Endpoint → Endpoint) → Descriptors → Descriptors
change none f d = d
change (some fd) f d = with_endpoint fd (on_endpoint f (d fd)) d

-- `setBlocking` and `setCloseOnExec` where their result is not used.
unfoldable pub blocking_of : Socket → Fcntl → Bool → Call (Unit {0})
blocking_of s f blocking d =
    (ok tt, change s.fd (λ e. record e { flags = (set_blocking s.fd f blocking e.flags).1 }) d)

unfoldable pub close_on_exec_of : Socket → Fcntl → Bool → Call (Unit {0})
close_on_exec_of s f close_on_exec d = (
  ok tt,
  change s.fd (λ e. record e { flags = (set_close_on_exec s.fd f close_on_exec e.flags).1 }) d,
)

-- `granted` is whether `setsockopt` succeeds.
unfoldable pub set_reuse_address : Socket → Bool → Bool → Call Bool
set_reuse_address s granted reuse d = elim s.fd [
  | none ↦ (fail thrown, d)
  | some fd ↦ (
    ok granted,
    if granted then change (some fd) (λ e. record e { reuse_address = reuse }) d else d,
  )
]

-- `granted` is whether `bind` succeeds; `listen` likewise.
unfoldable pub bind_any_address : ServerSocket → Bool → Call (Unit {0})
bind_any_address s granted = do
  throw_unless granted
  λ d. (ok tt, change s.base.fd (λ e. record e { sin_port = some (htons s.port) }) d)

unfoldable pub set_passive : ServerSocket → Bool → ℕ → Call (Unit {0})
set_passive s granted backlog = do
  throw_unless granted
  λ d. (ok tt, change s.base.fd (λ e. record e { backlog = some backlog }) d)
