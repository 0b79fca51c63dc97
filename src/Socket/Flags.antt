-- ===== src/Socket/Flags.antt =====
-- `setBlocking` and `setCloseOnExec` of src/socket/Socket.cpp.
use x6losim.Prelude.{
  ℕ, ◌*◌, ◌/◌, ◌%◌, ◌≡◌, refl, Bool, true, false, not, ◌&&◌, Option, arith, if◌then◌else◌,
}
use x6losim.Socket.{
  Descriptor, Fcntl, o_nonblock, fd_cloexec, has_flag, with_flag, without_flag, is_fd, set_blocking,
  set_close_on_exec,
}

-- The flags above and below one that is a power of 2.
abbrev pub Others : ℕ → ℕ → ℕ → Type 0
Others flag old new = (new / (2 * flag) ≡ old / (2 * flag)) × (new % flag ≡ old % flag)

-- The flag is set or cleared, and no other is touched.
abbrev pub Switched : ℕ → Bool → ℕ → ℕ → Type 0
Switched flag on old new = (has_flag flag new ≡ on) × Others flag old new

pub with_nonblock : (s : ℕ) → Switched 2048 true s (with_flag 2048 s)
with_nonblock s = ground arith

without_nonblock : (s : ℕ) → Switched 2048 false s (without_flag 2048 s)
without_nonblock s = ground arith

pub with_cloexec : (s : ℕ) → Switched 1 true s (with_flag 1 s)
with_cloexec s = ground arith

without_cloexec : (s : ℕ) → Switched 1 false s (without_flag 1 s)
without_cloexec s = ground arith

by_choice :
    (flag s a b : ℕ) (choice : Bool)
    → Switched flag true s a
    → Switched flag false s b
    → Switched flag choice s (if choice then a else b)
by_choice flag s a b true ha hb = ha
by_choice flag s a b false ha hb = hb

-- Both succeed exactly where the descriptor is valid and the two calls of the kernel succeed. Then
-- `O_NONBLOCK` is set exactly if the socket is not to block, and `FD_CLOEXEC` exactly if it is to be
-- closed; every other flag, and all flags of the other kind, stay as they were. Where they fail,
-- nothing changes.
pub set_flags_lem :
    (fd : Option ℕ) (f : Fcntl) (choice : Bool) (d : Descriptor)
    → (is_fd fd && f.gets && f.sets ≡ true
        → (b c : ℕ) × (set_blocking fd f choice d ≡ (true, record d { status_flags = b }))
          × Switched o_nonblock (not choice) d.status_flags b
          × (set_close_on_exec fd f choice d ≡ (true, record d { fd_flags = c }))
          × Switched fd_cloexec choice d.fd_flags c)
      × (is_fd fd && f.gets && f.sets ≡ false
          → (set_blocking fd f choice d ≡ (false, d))
            × (set_close_on_exec fd f choice d ≡ (false, d)))
unfolding set_blocking set_close_on_exec
set_flags_lem fd f choice d = (
  λ valid. rw valid (
    _,
    _,
    refl,
    by_nonblock choice,
    refl,
    by_choice 1 d.fd_flags _ _ choice (with_cloexec d.fd_flags) (without_cloexec d.fd_flags),
  ),
  λ invalid. rw invalid (refl, refl),
)
  where
    by_nonblock :
        (b : Bool)
        → Switched 2048
            (not b)
            d.status_flags
            (if b then without_flag 2048 d.status_flags else with_flag 2048 d.status_flags)
    by_nonblock true = without_nonblock d.status_flags
    by_nonblock false = with_nonblock d.status_flags
