-- ===== src/Socket/Replies.antt =====
-- `recvReply` of src/socket/Socket.cpp: what its results tell the caller.
use x6losim.Prelude.{
  ℕ, zero, suc, ◌<◌, ◌≡◌, ◌≢◌, ◌⊎◌, inl, inr, refl, sym, ◌∙◌, ap, Bool, true, false, ◌&&◌, Option,
  none, some, ◌==◌, ==_iff, ltb, arith, if◌then◌else◌,
}
use x6losim.Prelude.Fault.{Result, ok, fail, ◌>>=◌, ◌>>◌, require, asserted}
use x6losim.Socket.{
  SelectAnswer, select_interrupted, select_failed, selected, setup_read_fd_set, SocketReadStatus,
  sock_read_conn_closed, sock_read_unblocked, sock_read_ok, sock_read_timeout, sock_read_error,
  Timeval, timeout_of, untouched, negative, bytes, RecvAnswers, Reply, no_reply, recv_result,
  read_reply, is_unblocker, flush, not_ok, check_reply_count, by_select, recv_reply,
}

-- Data has come: `recv` returned a number of bytes, and nothing else was ready.
abbrev pub HasData : Option (Option ℕ) → ℕ → SelectAnswer → RecvAnswers → Reply → Type 0
HasData unblocker len select a r =
    (n : ℕ) × (select ≡ selected 1)
    × (a.recv ≡ some n)
    × (r.bytes_read ≡ bytes n)
    × (0 < n)
    × (n < len)
    × (is_unblocker unblocker && a.pipe_ready ≡ false)

abbrev pub IsInterrupted : SelectAnswer → Reply → Type 0
IsInterrupted select r = (select ≡ select_interrupted) × (r.bytes_read ≡ untouched)

not_ok_lem : (s : SocketReadStatus) → not_ok s ≢ sock_read_ok
not_ok_lem sock_read_ok h = cc
not_ok_lem sock_read_conn_closed h = cc
not_ok_lem sock_read_unblocked h = cc
not_ok_lem sock_read_timeout h = cc
not_ok_lem sock_read_error h = cc

-- The steps behind `recv` leave the status well only where they do nothing.
check_reply_count_lem :
    (count : ℕ) (s : Reply)
    → (check_reply_count count s).status ≡ sock_read_ok
    → (count ≡ s.handled) × (check_reply_count count s ≡ s)
unfolding check_reply_count
check_reply_count_lem count s h = by_test (count == s.handled) refl h
  where
    by_test :
        (b : Bool)
        → (count == s.handled) ≡ b
        → (if b then s else record s { status = not_ok s.status }).status ≡ sock_read_ok
        → (count ≡ s.handled) × ((if b then s else record s { status = not_ok s.status }) ≡ s)
    by_test true e g = (ground (arith, ==_iff count s.handled), refl)
    by_test false e g = absurd (not_ok_lem s.status g)

flush_lem :
    (u : Option (Option ℕ)) (a : RecvAnswers) (s : Reply)
    → (flush u a s).status ≡ sock_read_ok
    → (is_unblocker u && a.pipe_ready ≡ false) × (flush u a s ≡ s)
unfolding flush
flush_lem u a s h = by_test (is_unblocker u && a.pipe_ready) h
  where
    by_test :
        (b : Bool)
        → (if b
            then record s { status = sock_read_unblocked; handled = suc s.handled; flushed = true }
            else s).status
          ≡ sock_read_ok
        → (b ≡ false)
          × ((if b
                then record s {
                  status = sock_read_unblocked;
                  handled = suc s.handled;
                  flushed = true;
                }
                else s)
              ≡ s)
    by_test true g = cc
    by_test false g = (refl, refl)

recv_result_lem :
    (len : ℕ) (o : Option ℕ) (s s' : Reply)
    → recv_result len o s ≡ ok s'
    → s'.status ≡ sock_read_ok
    → (n : ℕ) × (o ≡ some n)
      × (s'.bytes_read ≡ bytes n)
      × (0 < n)
      × (n < len)
      × (s'.handled ≡ suc s.handled)
unfolding recv_result
recv_result_lem len none s s' h g =
    let e : record s { status = sock_read_error; bytes_read = negative; handled = suc s.handled }
        ≡ s' =
      cc in
    let st : sock_read_error ≡ sock_read_ok = ap (λ x. x.status) e ∙ g in cc
recv_result_lem len (some n) s s' h g = by_tests (ltb n len) (n == 0) refl refl h
  where
    by_tests :
        (b z : Bool)
        → ltb n len ≡ b
        → (n == 0) ≡ z
        → (require b asserted
            >> ok (record s {
              status = if z then sock_read_conn_closed else s.status;
              bytes_read = bytes n;
              handled = suc s.handled;
            }))
          ≡ ok s'
        → (m : ℕ) × (some n ≡ some m)
          × (s'.bytes_read ≡ bytes m)
          × (0 < m)
          × (m < len)
          × (s'.handled ≡ suc s.handled)
    by_tests false z e f k = cc
    by_tests true true e f k =
        let t : record s {
          status = sock_read_conn_closed;
          bytes_read = bytes n;
          handled = suc s.handled;
        }
            ≡ s' =
          cc in
        let st : sock_read_conn_closed ≡ sock_read_ok = ap (λ x. x.status) t ∙ g in cc
    by_tests true false e f k =
        let t : record s { bytes_read = bytes n; handled = suc s.handled } ≡ s' = cc in
        (
          n,
          refl,
          sym (ap (λ x. x.bytes_read) t),
          ground arith,
          ground arith,
          sym (ap (λ x. x.handled) t),
        )

by_select_ok :
    (u : Option (Option ℕ)) (len : ℕ) (select : SelectAnswer) (a : RecvAnswers) (t : Option Timeval)
    (r : Reply)
    → by_select u len select a (no_reply t) ≡ ok r
    → r.status ≡ sock_read_ok
    → IsInterrupted select r ⊎ HasData u len select a r
unfolding by_select read_reply
by_select_ok u len select_interrupted a t r h g =
    let e : no_reply t ≡ r = cc in inl (refl, sym (ap (λ x. x.bytes_read) e))
by_select_ok u len select_failed a t r h g =
    let e : record (no_reply t) { status = sock_read_error } ≡ r = cc in
    let st : sock_read_error ≡ sock_read_ok = ap (λ x. x.status) e ∙ g in cc
by_select_ok u len (selected zero) a t r h g =
    let e : record (no_reply t) { status = sock_read_timeout } ≡ r = cc in
    let st : sock_read_timeout ≡ sock_read_ok = ap (λ x. x.status) e ∙ g in cc
by_select_ok u len (selected (suc k)) a t r h g = inr (by_ready a.fd_ready h)
  where
    behind :
        (s : Reply)
        → ok (check_reply_count (suc k) (flush u a s)) ≡ ok r
        → (s ≡ r) × (suc k ≡ s.handled) × (is_unblocker u && a.pipe_ready ≡ false)
    behind s m =
        let e : check_reply_count (suc k) (flush u a s) ≡ r = cc in
        let (count, same) =
          check_reply_count_lem (suc k) (flush u a s) (ap (λ x. x.status) e ∙ g) in
        let (quiet, kept) = flush_lem u a s (ap (λ x. x.status) (sym same ∙ e) ∙ g) in
        (sym kept ∙ sym same ∙ e, count ∙ ap (λ x. x.handled) kept, quiet)

    by_recv :
        (o : Result Reply)
        → recv_result len a.recv (no_reply t) ≡ o
        → (o >>= λ s. ok (check_reply_count (suc k) (flush u a s))) ≡ ok r
        → HasData u len (selected (suc k)) a r
    by_recv (fail e) m l = cc
    by_recv (ok s) m l =
        let (same, count, quiet) = behind s l in
        let (n, answer, read, pos, fits, handled) =
          recv_result_lem len a.recv (no_reply t) s m (ap (λ x. x.status) same ∙ g) in
        (
          n,
          ap selected (count ∙ handled),
          answer,
          sym (ap (λ x. x.bytes_read) same) ∙ read,
          pos,
          fits,
          quiet,
        )

    by_ready :
        (b : Bool)
        → ((if b then recv_result len a.recv (no_reply t) else ok (no_reply t)) >>= λ s.
            ok (check_reply_count (suc k) (flush u a s)))
          ≡ ok r
        → HasData u len (selected (suc k)) a r
    by_ready true m = by_recv (recv_result len a.recv (no_reply t)) refl m
    by_ready false m = let (same, count, quiet) = behind (no_reply t) m in cc

-- Whatever the kernel answers: where `recvReply` returns SOCK_READ_OK, there are two cases. Either
-- `select` was interrupted, and `*bytesReadOut` is as the caller left it; or one descriptor was ready,
-- `recv` returned more than 0 bytes and fewer than the buffer holds, `*bytesReadOut` is their number,
-- and the unblocker was quiet.
pub recv_reply_ok :
    (fd : Option ℕ) (unblocker : Option (Option ℕ)) (len ms_timeout : ℕ) (is_null : Bool)
    (a : RecvAnswers) (r : Reply)
    → recv_reply fd unblocker len ms_timeout is_null a ≡ ok r
    → r.status ≡ sock_read_ok
    → IsInterrupted a.select r ⊎ HasData unblocker len a.select a r
unfolding recv_reply
recv_reply_ok fd u len ms true a r h g = cc
recv_reply_ok fd u len ms false a r h g = by_fds (setup_read_fd_set fd u) h
  where
    by_timeout :
        (o : Result (Option Timeval))
        → (o >>= λ t. by_select u len a.select a (no_reply t)) ≡ ok r
        → IsInterrupted a.select r ⊎ HasData u len a.select a r
    by_timeout (fail e) m = cc
    by_timeout (ok t) m = by_select_ok u len a.select a t r m g

    by_max :
        (b : Bool)
        → elim b [
          | true ↦ timeout_of ms >>= λ t. by_select u len a.select a (no_reply t)
          | false ↦ ok (record (no_reply none) { status = sock_read_error })
        ]
          ≡ ok r
        → IsInterrupted a.select r ⊎ HasData u len a.select a r
    by_max true m = by_timeout (timeout_of ms) m
    by_max false m =
        let e : record (no_reply none) { status = sock_read_error } ≡ r = cc in
        let st : sock_read_error ≡ sock_read_ok = ap (λ x. x.status) e ∙ g in cc

    by_fds :
        (o : Result ℕ)
        → (o >>= λ fdmax. elim (ltb 0 fdmax) [
          | true ↦ timeout_of ms >>= λ t. by_select u len a.select a (no_reply t)
          | false ↦ ok (record (no_reply none) { status = sock_read_error })
        ])
          ≡ ok r
        → IsInterrupted a.select r ⊎ HasData u len a.select a r
    by_fds (fail e) m = cc
    by_fds (ok fdmax) m = by_max (ltb 0 fdmax) m
