-- ===== src/Medium/Single.antt =====
-- The thread's look at a single transmission, and the event of a single message.
use x6losim.Prelude.{
  ℕ, ◌≡◌, refl, ap, [], ◌∷◌, true, false, some, arith, ◌<◌, sym, subst, All, length,
}
use x6losim.Prelude.Fault.{ok}
use x6losim.Packet.{NetSimPacket}
use x6losim.Store.{
  Medium, Kernel, DeviceNode, ◌>>=◌, ◌>>◌, transmitting, MediumKind, powerline, wireless,
}
use x6losim.Reader.{read_msg, Recv}
use x6losim.Medium.{
  PollEvent, node_at, process_event, event_loop, readable_event, process_poller_events, tx_loop,
  process_tx_list, tx_collision_check,
}
use x6losim.Medium.Channel.{HasPacket, tx_collision_check_lem}
use x6losim.Medium.Outgoing.{IsSendable}
use x6losim.Medium.Transmit.{after_tx}
use x6losim.Medium.TxOutcome.{Transmits, Answers, is_over}
use x6losim.Medium.TxList.{tx_loop_wait, tx_loop_over}

-- A node has sent something.
abbrev pub message_event : ℕ → Recv → Recv → (ℕ → ℕ) → PollEvent
message_event p first second junk = record {
  source = node_at p;
  rdhup = false;
  readable = true;
  first = first;
  second = second;
  junk = junk;
}

-- One message event is handled by the reader.
pub message_event_lem :
    (k : Kernel) (p : ℕ) (first second : Recv) (junk : ℕ → ℕ) (w w' : Medium)
    → read_msg k p first second junk w ≡ ok (tt, w')
    → process_poller_events k (message_event p first second junk ∷ []) w ≡ ok (tt, w')
unfolding process_poller_events event_loop process_event readable_event
message_event_lem k p first second junk w w' e = rw (e, ◌>>=◌, ◌>>◌) refl

-- A single transmission collides with nothing.
pub single_unmarked :
    (kind : MediumKind) (w : Medium) (p : ℕ)
    → w.kind ≡ kind
    → HasPacket w.heap p
    → w.tx_list ≡ p ∷ []
    → tx_collision_check w ≡ ok (tt, w)
single_unmarked kind w p e f l =
    let holds : All (HasPacket w.heap) w.tx_list = subst (All (HasPacket w.heap)) (sym l) (f, tt) in
    let few : length w.tx_list < 2 = omega (arith, ap length l) in
    by_kind kind e (tx_collision_check_lem w holds).1 (tx_collision_check_lem w holds).2 few
  where
    by_kind :
        (kind' : MediumKind)
        → w.kind ≡ kind'
        → (w.kind ≡ powerline → length w.tx_list < 2 → tx_collision_check w ≡ ok (tt, w))
        → (w.kind ≡ wireless → tx_collision_check w ≡ ok (tt, w))
        → length w.tx_list < 2
        → tx_collision_check w ≡ ok (tt, w)
    by_kind powerline e' line air few = line e' few
    by_kind wireless e' line air few = air e'

-- While its time is not over, the only transmission goes on.
pub single_goes_on :
    (k : Kernel) (p : ℕ) (w : Medium)
    → Transmits w.heap p
    → Answers k p
    → is_over k p ≡ false
    → process_tx_list k (record w { tx_list = p ∷ [] }) ≡ ok (tt, record w { tx_list = p ∷ [] })
unfolding process_tx_list tx_loop
single_goes_on k p w t a late = tx_loop_wait k p [] [] (record w { tx_list = p ∷ [] }) t a late

-- When its time is over it is finished.
pub single_finished :
    (k : Kernel) (p : ℕ) (w : Medium) (n : DeviceNode) (pkt : NetSimPacket)
    → w.heap p ≡ some n
    → n.cur_state ≡ transmitting
    → n.tx_timer.started ≡ true
    → n.tx_pkt ≡ some pkt
    → IsSendable pkt
    → Answers k p
    → is_over k p ≡ true
    → process_tx_list k (record w { tx_list = p ∷ [] })
      ≡ ok (tt, record (after_tx p n pkt w) { tx_list = [] })
unfolding process_tx_list tx_loop
single_finished k p w n pkt e st r f s a over =
    tx_loop_over k p [] [] (record w { tx_list = p ∷ [] }) n pkt e st r f s a over
