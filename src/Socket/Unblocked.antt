-- ===== src/Socket/Unblocked.antt =====
-- `recvReply` of src/socket/Socket.cpp behind its unblocker.
use x6losim.Prelude.{
  ℕ, suc, ◌≤◌, ◌<◌, ◌≡◌, refl, ◌∙◌, ap, Bool, true, false, Option, none, some, ◌==◌, ltb, arith,
  if◌then◌else◌,
}
use x6losim.Prelude.Fault.{ok, ◌>>=◌}
use x6losim.Socket.{
  selected, max_fd, setup_read_fd_set, sock_read_unblocked, Timeval, RecvAnswers, Reply, no_reply,
  recv_result, read_reply, flush, not_ok, check_reply_count, by_select, recv_reply,
}
use x6losim.Socket.Timeout.{timeout_of_small}

read_reply_lem :
    (len : ℕ) (a : RecvAnswers) (s : Reply)
    → ((n : ℕ) → a.recv ≡ some n → n < len)
    → (s' : Reply) × (read_reply len a s ≡ ok s')
unfolding read_reply recv_result
read_reply_lem len a s fits = by_ready a.fd_ready
  where
    by_recv : (o : Option ℕ) → a.recv ≡ o → (s' : Reply) × (recv_result len o s ≡ ok s')
    by_recv none e = (_, refl)
    by_recv (some n) e =
        let small = fits n e in let test : ltb n len ≡ true = ground arith in rw test (_, refl)

    by_ready : (b : Bool) → (s' : Reply) × ((if b then recv_result len a.recv s else ok s) ≡ ok s')
    by_ready true = by_recv a.recv refl
    by_ready false = (s, refl)

unblocked_kept :
    (count : ℕ) (s : Reply)
    → s.status ≡ sock_read_unblocked
    → ((check_reply_count count s).status ≡ sock_read_unblocked)
      × ((check_reply_count count s).flushed ≡ s.flushed)
unfolding check_reply_count
unblocked_kept count s h = by_test (count == s.handled)
  where
    by_test :
        (b : Bool)
        → ((if b then s else record s { status = not_ok s.status }).status ≡ sock_read_unblocked)
          × ((if b then s else record s { status = not_ok s.status }).flushed ≡ s.flushed)
    by_test true = (h, refl)
    by_test false = (ap not_ok h, refl)

by_select_ready :
    (pipe len count : ℕ) (a : RecvAnswers) (t : Option Timeval) (s : Reply)
    → read_reply len a (no_reply t) ≡ ok s
    → a.pipe_ready ≡ true
    → by_select (some (some pipe)) len (selected (suc count)) a (no_reply t)
      ≡ ok (
          check_reply_count
            (suc count)
            (record s { status = sock_read_unblocked; handled = suc s.handled; flushed = true }))
unfolding by_select flush
by_select_ready pipe len count a t s got ready =
    let left : Reply = record s {
      status = sock_read_unblocked;
      handled = suc s.handled;
      flushed = true;
    } in
    rw (got, ◌>>=◌) (ap (λ b. ok (check_reply_count (suc count) (if b then left else s))) ready)

-- While the bytes of `recv` are fewer than the buffer holds and the timeout is at most 2147483 ms: a
-- ready unblocker ends `recvReply` with SOCK_READ_UNBLOCKED, its pipe read, whatever else is ready and
-- whatever `recv` returns.
pub recv_reply_unblocked :
    (fd pipe len ms_timeout count : ℕ) (a : RecvAnswers)
    → 0 < fd
    → ms_timeout ≤ 2147483
    → a.select ≡ selected (suc count)
    → a.pipe_ready ≡ true
    → ((n : ℕ) → a.recv ≡ some n → n < len)
    → (r : Reply) × (recv_reply (some fd) (some (some pipe)) len ms_timeout false a ≡ ok r)
      × (r.status ≡ sock_read_unblocked)
      × (r.flushed ≡ true)
unfolding recv_reply setup_read_fd_set
recv_reply_unblocked fd pipe len ms count a pos small chosen ready fits =
    let some_fd : ltb 0 (max_fd fd pipe) ≡ true = ground arith in
    let (t, time) = timeout_of_small ms small in
    let (s, got) = read_reply_lem len a (no_reply t) fits in
    let left : Reply = record s {
      status = sock_read_unblocked;
      handled = suc s.handled;
      flushed = true;
    } in
    let (status, flushed) = unblocked_kept (suc count) left refl in
    (
      check_reply_count (suc count) left,
      rw (some_fd, ◌>>=◌, time)
          (ap (λ x. by_select (some (some pipe)) len x a (no_reply t)) chosen
            ∙ by_select_ready pipe len count a t s got ready),
      status,
      flushed,
    )
