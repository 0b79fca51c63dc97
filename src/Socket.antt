-- ===== src/Socket.antt =====
-- `Socket` of src/socket/Socket.cpp. What the kernel's calls return is an argument. Descriptors are
-- below FD_SETSIZE, and `none` is a negative one.
pub mod Sending
pub mod Replies
pub mod Flags
pub mod Timeout
pub mod Unblocked
pub mod Unblocker
pub mod Listening
mod Tests
use x6losim.Prelude.{
  ℕ, zero, suc, ◌+◌, ◌-◌, ◌*◌, ◌/◌, ◌%◌, ◌^◌, List, [], ◌∷◌, ◌++◌, Bool, true, false, not, ◌&&◌,
  Option, none, some, ◌==◌, ltb, leb, if◌then◌else◌, take, drop,
}
use x6losim.Prelude.Fault.{
  Result, ok, fail, ◌>>=◌, ◌>>◌, require, or_fail, asserted, thrown, overflow,
}

-- `send`: a negative result, or how many bytes the kernel took.
pub data SendAnswer : Type 0 where
  send_failed : SendAnswer
  took : ℕ → SendAnswer

-- What `sendMsg` returns, `none` for the negative result, and the bytes that the kernel took.
pub record SendResult : Type 0 where
  pub returned : Option ℕ
  pub out : List ℕ

-- The loop of `sendMsg` from `m`; `none` while it waits for an answer behind those given.
pub send_loop : List SendAnswer → List ℕ → ℕ → ℕ → List ℕ → Option SendResult
send_loop [] m left bytes_sent out = none
send_loop (send_failed ∷ answers) m left bytes_sent out =
    some (record { returned = none; out = out })
send_loop (took n ∷ answers) m left bytes_sent out =
    let again = send_loop answers (drop n m) (left - n) (bytes_sent + n) (out ++ take n m) in
    if ltb 0 (left - n)
    then again
    else some (record { returned = some (bytes_sent + n); out = out ++ take n m })

pub send_msg : List SendAnswer → List ℕ → ℕ → Option SendResult
unfolding send_loop
send_msg answers msg msglen = send_loop answers msg msglen 0 []

abbrev pub max_fd : ℕ → ℕ → ℕ
max_fd fd_max fd = if ltb fd_max fd then fd else fd_max

-- `select`: -1 with EINTR or with another error, or the number of ready descriptors.
pub data SelectAnswer : Type 0 where
  select_interrupted select_failed : SelectAnswer
  selected : ℕ → SelectAnswer

-- The unblocker is NULL or has a read pipe.
pub setup_read_fd_set : Option ℕ → Option (Option ℕ) → Result ℕ
setup_read_fd_set fd none = or_fail fd thrown
setup_read_fd_set fd (some pipe) = do
  fd_max ← or_fail fd thrown
  read_pipe ← or_fail pipe thrown
  ok (max_fd fd_max read_pipe)

pub data SocketReadStatus : Type 0 where
  sock_read_conn_closed sock_read_unblocked sock_read_ok sock_read_timeout sock_read_error :
      SocketReadStatus

pub record Timeval : Type 0 where
  pub tv_sec : ℕ
  pub tv_usec : ℕ

-- `timeout_p`, for a timeout that is not negative: `msTimeout * 1000` is an `int`.
pub timeout_of : ℕ → Result (Option Timeval)
timeout_of ms_timeout =
    if ms_timeout == 0
    then ok none
    else (require (ltb (ms_timeout * 1000) (2 ^ 31)) overflow
        >> ok (some (record { tv_sec = ms_timeout / 1000; tv_usec = ms_timeout * 1000 % 1000000 })))

-- What `*bytesReadOut` was set to.
pub data BytesRead : Type 0 where
  untouched negative : BytesRead
  bytes : ℕ → BytesRead

-- The answers to one call of `recvReply`: `select`, which descriptors are set, and `recv`, `none`
-- for -1.
pub record RecvAnswers : Type 0 where
  pub select : SelectAnswer
  pub fd_ready : Bool
  pub pipe_ready : Bool
  pub recv : Option ℕ

-- `handled` is how often `count` was lowered, `flushed` whether the pipe was read.
pub record Reply : Type 0 where
  pub status : SocketReadStatus
  pub bytes_read : BytesRead
  pub handled : ℕ
  pub flushed : Bool
  pub timeout : Option Timeval

abbrev pub no_reply : Option Timeval → Reply
no_reply t = record {
  status = sock_read_ok;
  bytes_read = untouched;
  handled = 0;
  flushed = false;
  timeout = t;
}

-- What `recv` returned, into a buffer of `reply_msg_len` bytes.
pub recv_result : ℕ → Option ℕ → Reply → Result Reply
recv_result reply_msg_len none s =
    ok (record s { status = sock_read_error; bytes_read = negative; handled = suc s.handled })
recv_result reply_msg_len (some n) s =
    require (ltb n reply_msg_len) asserted
    >> ok (record s {
      status = if n == 0 then sock_read_conn_closed else s.status;
      bytes_read = bytes n;
      handled = suc s.handled;
    })

pub read_reply : ℕ → RecvAnswers → Reply → Result Reply
unfolding recv_result
read_reply reply_msg_len a s = if a.fd_ready then recv_result reply_msg_len a.recv s else ok s

abbrev pub is_unblocker : Option (Option ℕ) → Bool
is_unblocker none = false
is_unblocker (some pipe) = true

pub flush : Option (Option ℕ) → RecvAnswers → Reply → Reply
flush unblocker a s =
    if is_unblocker unblocker && a.pipe_ready
    then record s { status = sock_read_unblocked; handled = suc s.handled; flushed = true }
    else s

abbrev pub not_ok : SocketReadStatus → SocketReadStatus
not_ok sock_read_ok = sock_read_error
not_ok s = s

-- `count != 0` at the end.
pub check_reply_count : ℕ → Reply → Reply
check_reply_count count s = if count == s.handled then s else record s { status = not_ok s.status }

-- By the answer of `select`. The `continue` after an interruption leaves `do ... while(0)`.
pub by_select : Option (Option ℕ) → ℕ → SelectAnswer → RecvAnswers → Reply → Result Reply
unfolding read_reply flush check_reply_count
by_select unblocker len select_interrupted a s = ok s
by_select unblocker len select_failed a s = ok (record s { status = sock_read_error })
by_select unblocker len (selected zero) a s = ok (record s { status = sock_read_timeout })
by_select unblocker len (selected (suc n)) a s = do
  s' ← read_reply len a s
  ok (check_reply_count (suc n) (flush unblocker a s'))

-- `is_null` is whether `bytesReadOut` is NULL.
pub recv_reply : Option ℕ → Option (Option ℕ) → ℕ → ℕ → Bool → RecvAnswers → Result Reply
unfolding setup_read_fd_set timeout_of by_select
recv_reply fd unblocker reply_msg_len ms_timeout is_null a = do
  require (not is_null) thrown
  fdmax ← setup_read_fd_set fd unblocker
  elim (ltb 0 fdmax) [
    | true ↦ do t ← timeout_of ms_timeout; by_select unblocker reply_msg_len a.select a (no_reply t)
    | false ↦ ok (record (no_reply none) { status = sock_read_error })
  ]

-- The flags of a descriptor, by F_GETFL and by F_GETFD, and whether the two calls of `fcntl` succeed.
pub record Descriptor : Type 0 where
  pub status_flags : ℕ
  pub fd_flags : ℕ

pub record Fcntl : Type 0 where
  pub gets : Bool
  pub sets : Bool

abbrev pub o_nonblock : ℕ
o_nonblock = 2048

abbrev pub fd_cloexec : ℕ
fd_cloexec = 1

-- Whether one of two flags is set, and `|=` and `&= ~` with it, for a flag that is a power of 2.
abbrev pub has_flag : ℕ → ℕ → Bool
has_flag flag flags = flags / flag % 2 == 1

abbrev pub with_flag : ℕ → ℕ → ℕ
with_flag flag flags = if has_flag flag flags then flags else flags + flag

abbrev pub without_flag : ℕ → ℕ → ℕ
without_flag flag flags = if has_flag flag flags then flags - flag else flags

abbrev pub is_fd : Option ℕ → Bool
is_fd none = false
is_fd (some fd) = true

-- The result is 0 (true) or -1 (false).
unfoldable pub set_blocking : Option ℕ → Fcntl → Bool → Descriptor → Bool × Descriptor
set_blocking fd f blocking d =
    if is_fd fd && f.gets && f.sets
    then (
      true,
      record d {
        status_flags =
            if blocking
            then without_flag o_nonblock d.status_flags
            else with_flag o_nonblock d.status_flags;
      },
    )
    else (false, d)

unfoldable pub set_close_on_exec : Option ℕ → Fcntl → Bool → Descriptor → Bool × Descriptor
set_close_on_exec fd f close_on_exec d =
    if is_fd fd && f.gets && f.sets
    then (
      true,
      record d {
        fd_flags =
            if close_on_exec
            then with_flag fd_cloexec d.fd_flags
            else without_flag fd_cloexec d.fd_flags;
      },
    )
    else (false, d)
