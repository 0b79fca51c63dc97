-- ===== src/Socket/Tests.antt =====
-- The theorems about sockets, on a socket with descriptor 4 and a pipe of 5 and 6.
use x6losim.Prelude.{ℕ, ◌≡◌, ◌⊎◌, refl, [], ◌∷◌, true, false, none, some, arith}
use x6losim.Prelude.Fault.{ok}
use x6losim.Socket.{
  took, send_failed, send_msg, selected, timeout_of, RecvAnswers, Reply, bytes, no_reply,
  recv_reply, Descriptor, Fcntl, setup_read_fd_set, by_select, read_reply, recv_result, flush,
  check_reply_count,
}
use x6losim.Socket.Sending.{send_msg_lem}
use x6losim.Socket.Replies.{IsInterrupted, HasData, recv_reply_ok}
use x6losim.Socket.Unblocker.{PipeAnswers}

send_msg_lem_example :
    send_msg (took 2 ∷ took 0 ∷ took 1 ∷ []) (7 ∷ 8 ∷ 9 ∷ 10 ∷ []) 3
    ≡ some (record { returned = some 3; out = 7 ∷ 8 ∷ 9 ∷ [] })
send_msg_lem_example =
    (send_msg_lem (took 2 ∷ took 0 ∷ took 1 ∷ []) (7 ∷ 8 ∷ 9 ∷ 10 ∷ []) 3 (omega arith)
        (omega arith, (omega arith, (omega arith, tt)))).0
      (omega arith)

-- The kernel fails after two bytes.
send_msg_fails :
    send_msg (took 2 ∷ send_failed ∷ []) (7 ∷ 8 ∷ 9 ∷ []) 3
    ≡ some (record { returned = none; out = 7 ∷ 8 ∷ [] })
unfolding send_msg
send_msg_fails = refl

abbrev five_bytes : RecvAnswers
five_bytes = record { select = selected 1; fd_ready = true; pipe_ready = false; recv = some 5 }

abbrev five_read : Reply
five_read = record (no_reply none) { bytes_read = bytes 5; handled = 1 }

recv_reply_reads : recv_reply (some 4) (some (some 5)) 10 0 false five_bytes ≡ ok five_read
unfolding recv_reply setup_read_fd_set timeout_of by_select read_reply recv_result flush
    check_reply_count
recv_reply_reads = refl

recv_reply_ok_example :
    IsInterrupted (selected 1) five_read
    ⊎ HasData (some (some 5)) 10 (selected 1) five_bytes five_read
recv_reply_ok_example =
    recv_reply_ok (some 4) (some (some 5)) 10 0 false five_bytes five_read recv_reply_reads refl

-- Both descriptors are ready.
abbrev both_ready : RecvAnswers
both_ready = record { select = selected 2; fd_ready = true; pipe_ready = true; recv = some 5 }

abbrev working : Fcntl
working = record { gets = true; sets = true }

abbrev plain : Descriptor
plain = record { status_flags = 2; fd_flags = 1 }

abbrev pipe_answers : PipeAnswers
pipe_answers = record {
  pipe = some (5, 6);
  write_status = working;
  write_fd = working;
  read_status = working;
  read_fd = working;
}

abbrev plain_table : ℕ → Descriptor
plain_table i = plain
