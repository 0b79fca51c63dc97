-- ===== src/Socket/Unblocker.antt =====
-- `SocketUnblocker` of src/socket/Socket.cpp: the pipe that ends the waits of the other threads.
use x6losim.Prelude.{
  ℕ, suc, ◌≡◌, ◌≢◌, refl, sym, subst, ◌∙◌, List, [], ◌∷◌, ◌++◌, Bool, true, false, ◌&&◌, Option,
  none, some, ◌==◌, ==_refl, arith, if◌then◌else◌,
}
use x6losim.Prelude.Fault.{Result, ok, fail, ◌>>=◌, ◌>>◌, require, or_fail, thrown}
use x6losim.Socket.{Descriptor, Fcntl, o_nonblock, fd_cloexec, with_flag}
use x6losim.Socket.Flags.{Switched, with_nonblock, with_cloexec}

-- `unblockPipes`; `none` is -1.
pub record Pipes : Type 0 where
  pub read_end : Option ℕ
  pub write_end : Option ℕ

-- What `pipe` and the calls of `fcntl` return, in their order.
pub record PipeAnswers : Type 0 where
  pub pipe : Option (ℕ × ℕ)
  pub write_status : Fcntl
  pub write_fd : Fcntl
  pub read_status : Fcntl
  pub read_fd : Fcntl

abbrev pub with_descriptor : ℕ → Descriptor → (ℕ → Descriptor) → ℕ → Descriptor
with_descriptor fd x d i = if fd == i then x else d i

abbrev pub works : Fcntl → Bool
works f = f.gets && f.sets

-- `flags |= O_NONBLOCK` and `flags |= FD_CLOEXEC` on a descriptor.
abbrev pub nonblocking : ℕ → (ℕ → Descriptor) → ℕ → Descriptor
nonblocking fd d =
    with_descriptor fd (record (d fd) { status_flags = with_flag o_nonblock (d fd).status_flags }) d

abbrev pub closed_on_exec : ℕ → (ℕ → Descriptor) → ℕ → Descriptor
closed_on_exec fd d =
    with_descriptor fd (record (d fd) { fd_flags = with_flag fd_cloexec (d fd).fd_flags }) d

-- All descriptors' flags afterwards.
pub open_pipes : PipeAnswers → (ℕ → Descriptor) → Result (Pipes × (ℕ → Descriptor))
open_pipes a d = do
  ends ← or_fail a.pipe thrown
  require (works a.write_status) thrown
  require (works a.write_fd) thrown
  require (works a.read_status) thrown
  require (works a.read_fd) thrown
  ok (
    record { read_end = some ends.0; write_end = some ends.1 },
    closed_on_exec ends.0 (nonblocking ends.0 (closed_on_exec ends.1 (nonblocking ends.1 d))),
  )

-- How many bytes the pipe holds afterwards; `written` is whether `write` took the byte.
unfoldable pub unblock : Pipes → Bool → ℕ → ℕ
unblock p written pending = elim p.write_end [
  | none ↦ pending
  | some fd ↦ if written then suc pending else pending
]

abbrev end_list : Option ℕ → List ℕ
end_list none = []
end_list (some fd) = fd ∷ []

-- The members afterwards, and the descriptors that are closed.
pub close_pipes : Pipes → Pipes × List ℕ
close_pipes p =
    (record { read_end = none; write_end = none }, end_list p.read_end ++ end_list p.write_end)

abbrev pub all_work : PipeAnswers → Bool
all_work a = works a.write_status && works a.write_fd && works a.read_status && works a.read_fd

-- Both kinds of flags of an end are set, and no other flag of it is touched.
abbrev pub Prepared : Descriptor → Descriptor → Type 0
Prepared old new =
    Switched o_nonblock true old.status_flags new.status_flags
    × Switched fd_cloexec true old.fd_flags new.fd_flags

-- A sequence of tests succeeds if all do and throws if one fails.
required_all :
    {A : Type 0} (b c e f : Bool) (x : Result A)
    → (b && c && e && f ≡ true
        → (require b thrown >> (require c thrown >> (require e thrown >> (require f thrown >> x))))
          ≡ x)
      × (b && c && e && f ≡ false
          → (require b thrown
              >> (require c thrown >> (require e thrown >> (require f thrown >> x))))
            ≡ fail thrown)
required_all true true true true x = (λ _. refl, λ h. cc)
required_all true true true false x = (λ h. cc, λ _. refl)
required_all true true false f x = (λ h. cc, λ _. refl)
required_all true false e f x = (λ h. cc, λ _. refl)
required_all false c e f x = (λ h. cc, λ _. refl)

module _ (fd : ℕ) (d : ℕ → Descriptor) where
  prepared : ℕ → Descriptor
  prepared = closed_on_exec fd (nonblocking fd d)

  prepared-Prepared : Prepared (d fd) (prepared fd)
  unfolding prepared
  prepared-Prepared =
      rw (==_refl fd) (with_nonblock (d fd).status_flags, with_cloexec (d fd).fd_flags)

  prepared_elsewhere : (i : ℕ) → i ≢ fd → prepared i ≡ d i
  unfolding prepared
  prepared_elsewhere i ne = let b : (fd == i) ≡ false = ground arith in rw b refl

-- Where `pipe` gives two descriptors and the calls of `fcntl` succeed, `openPipes` makes both ends of
-- the pipe non-blocking and closed on exec and touches no other flag of any descriptor; `unblock` then
-- adds a byte to the pipe, and `closePipes` closes exactly the two and forgets them. Where a call of
-- `fcntl` fails, `openPipes` throws.
pub open_pipes_lem :
    (a : PipeAnswers) (d : ℕ → Descriptor) (r w : ℕ)
    → a.pipe ≡ some (r, w)
    → r ≢ w
    → (all_work a ≡ true
        → (p : Pipes) × (d' : ℕ → Descriptor) × (open_pipes a d ≡ ok (p, d'))
          × Prepared (d r) (d' r)
          × Prepared (d w) (d' w)
          × ((i : ℕ) → i ≢ r → i ≢ w → d' i ≡ d i)
          × ((pending : ℕ) → unblock p true pending ≡ suc pending)
          × (close_pipes p ≡ (record { read_end = none; write_end = none }, r ∷ w ∷ [])))
      × (all_work a ≡ false → open_pipes a d ≡ fail thrown)
unfolding open_pipes unblock close_pipes prepared
open_pipes_lem a d r w e ne =
    let p : Pipes = record { read_end = some r; write_end = some w } in
    let d' = prepared r (prepared w d) in
    let (opens, throws) =
      required_all (works a.write_status) (works a.write_fd) (works a.read_status) (works a.read_fd)
        (ok (p, d')) in
    (
      λ all. (
        p,
        d',
        rw (e, ◌>>=◌) (opens all),
        subst (λ x. Prepared x (d' r)) (prepared_elsewhere w d r ne)
            (prepared-Prepared r (prepared w d)),
        subst (λ x. Prepared (d w) x)
            (sym (prepared_elsewhere r (prepared w d) w (λ m. ne (sym m)))) (prepared-Prepared w d),
        λ i nr nw. prepared_elsewhere r (prepared w d) i nr ∙ prepared_elsewhere w d i nw,
        λ pending. refl,
        refl,
      ),
      λ some_fail. rw (e, ◌>>=◌) (throws some_fail),
    )
