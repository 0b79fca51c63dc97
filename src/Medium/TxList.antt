-- ===== src/Medium/TxList.antt =====
-- What `processTxList` does with all the transmissions whose time is over.
use mathlib.Core.List.{append_assoc, append-nil}
use x6losim.Prelude.{
  ℕ, ◌≡◌, refl, sym, ◌∙◌, List, [], ◌∷◌, ◌++◌, map, true, false, not, some, ==_iff, arith, All,
  contains, Distinct, keep, Bool-cases, inl, inr,
}
use x6losim.Prelude.Fault.{Result, ok}
use x6losim.Wire.{tx_done_indication}
use x6losim.Packet.{NetSimPacket}
use x6losim.Store.{
  Medium, DeviceNode, ◌>>=◌, ◌>>◌, deref, lift, modify, update, transmitting, Kernel,
}
use x6losim.Timer.{expired}
use x6losim.Medium.{tx_loop, process_tx_list}
use x6losim.Medium.Outgoing.{IsSendable, outgoing, frame}
use x6losim.Medium.Transmit.{retired, verdict, after_tx, finish_tx_lem}
use x6losim.Medium.TxOutcome.{
  Transmits, Answers, is_over, packet_at, bytes_out, frame_of, indication, goes_out, Outcome,
  update-Agree, Transmits-Agree, indications-Agree, goes_out-Agree, is_lost-Agree, bytes-Agree,
}

finished :
    (k : Kernel) (p : ℕ) (rest : List ℕ) (w : Medium) (n : DeviceNode) (pkt : NetSimPacket)
    (w' : Medium)
    → w.heap p ≡ some n
    → n.tx_pkt ≡ some pkt
    → is_over k p ≡ true
    → contains p rest ≡ false
    → Outcome k (after_tx p n pkt w) w' rest
    → Outcome k w w' (p ∷ rest)
finished k p rest w n pkt w' e f over fresh o =
    let agree = update-Agree w.heap p (some (retired n)) rest fresh in
    record {
      heap_after = λ q. ground (arith, o.heap_after q, ==_iff p q);
      sent_after = ground (
        arith,
        o.sent_after,
        indications-Agree k (update w.heap p (some (retired n))) w.heap rest agree,
        append_assoc w.sent ((p, tx_done_indication n.socket (verdict pkt)) ∷ [])
            (map (indication w.heap) (keep (is_over k) rest)),
      );
      multicast_after = ground (
        arith,
        o.multicast_after,
        bytes-Agree k (update w.heap p (some (retired n))) w.heap bytes_out rest agree,
        append_assoc w.multicast ((outgoing pkt).pkt_buffer ∷ [])
            (map (λ (q : ℕ). bytes_out (packet_at w.heap q)) (keep (goes_out k w.heap) rest)),
      );
      dumped_after = ground (
        arith,
        o.dumped_after,
        bytes-Agree k (update w.heap p (some (retired n))) w.heap frame_of rest agree,
        append_assoc w.dumped (frame pkt ∷ [])
            (map (λ (q : ℕ). frame_of (packet_at w.heap q)) (keep (goes_out k w.heap) rest)),
      );
      ok_after = ground (
        arith,
        o.ok_after,
        goes_out-Agree k (update w.heap p (some (retired n))) w.heap rest agree,
      );
      collided_after = ground (
        arith,
        o.collided_after,
        is_lost-Agree k (update w.heap p (some (retired n))) w.heap rest agree,
      );
      failed_after = o.failed_after;
      state_after = o.state_after;
      cca_after = o.cca_after;
      reg_after = o.reg_after;
      map_after = o.map_after;
      kind_after = o.kind_after;
      time_after = o.time_after;
    }

skipped :
    (k : Kernel) (p : ℕ) (rest : List ℕ) (w w' : Medium)
    → is_over k p ≡ false
    → Outcome k w w' rest
    → Outcome k w w' (p ∷ rest)
skipped k p rest w w' over o = record {
  heap_after = λ q. ground (arith, o.heap_after q, ==_iff p q);
  sent_after = ground (arith, o.sent_after);
  multicast_after = ground (arith, o.multicast_after);
  dumped_after = ground (arith, o.dumped_after);
  ok_after = ground (arith, o.ok_after);
  collided_after = ground (arith, o.collided_after);
  failed_after = o.failed_after;
  state_after = o.state_after;
  cca_after = o.cca_after;
  reg_after = o.reg_after;
  map_after = o.map_after;
  kind_after = o.kind_after;
  time_after = o.time_after;
}

timer_lem :
    (k : Kernel) (p : ℕ) (n : DeviceNode)
    → n.tx_timer.started ≡ true
    → Answers k p
    → expired (k.tx_left p) n.tx_timer ≡ Result.ok (is_over k p)
unfolding expired
timer_lem k p n running (sec, nsec, e) = ground (arith, e, running)

-- One round of the loop.
pub tx_loop_wait :
    (k : Kernel) (p : ℕ) (rest passed : List ℕ) (w : Medium)
    → Transmits w.heap p
    → Answers k p
    → is_over k p ≡ false
    → tx_loop k passed (p ∷ rest) w ≡ tx_loop k (passed ++ p ∷ []) rest w
unfolding tx_loop
tx_loop_wait k p rest passed w (n, pkt, e, st, r, f, s) a over =
    rw (e, timer_lem k p n r a, over, deref, lift, ◌>>=◌)

pub tx_loop_over :
    (k : Kernel) (p : ℕ) (rest passed : List ℕ) (w : Medium) (n : DeviceNode) (pkt : NetSimPacket)
    → w.heap p ≡ some n
    → n.cur_state ≡ transmitting
    → n.tx_timer.started ≡ true
    → n.tx_pkt ≡ some pkt
    → IsSendable pkt
    → Answers k p
    → is_over k p ≡ true
    → tx_loop k passed (p ∷ rest) w
      ≡ tx_loop k passed rest (record (after_tx p n pkt w) { tx_list = passed ++ rest })
unfolding tx_loop
tx_loop_over k p rest passed w n pkt e st r f s a over = rw (
  e,
  timer_lem k p n r a,
  over,
  finish_tx_lem p w n pkt e st f s,
  deref,
  lift,
  modify,
  ◌>>=◌,
  ◌>>◌,
)

relist :
    {k : Kernel} {w w' : Medium} {ps left : List ℕ}
    → Outcome k (record w { tx_list = left }) w' ps
    → Outcome k w w' ps
relist o = record {
  heap_after = o.heap_after;
  sent_after = o.sent_after;
  multicast_after = o.multicast_after;
  dumped_after = o.dumped_after;
  ok_after = o.ok_after;
  collided_after = o.collided_after;
  failed_after = o.failed_after;
  state_after = o.state_after;
  cca_after = o.cca_after;
  reg_after = o.reg_after;
  map_after = o.map_after;
  kind_after = o.kind_after;
  time_after = o.time_after;
}

unchanged : (k : Kernel) (w : Medium) → Outcome k w w []
unchanged k w = record {
  heap_after = λ q. refl;
  sent_after = sym (append-nil w.sent);
  multicast_after = sym (append-nil w.multicast);
  dumped_after = sym (append-nil w.dumped);
  ok_after = omega arith;
  collided_after = omega arith;
  failed_after = refl;
  state_after = refl;
  cca_after = refl;
  reg_after = refl;
  map_after = refl;
  kind_after = refl;
  time_after = refl;
}

tx_loop_lem :
    (k : Kernel) (ps passed : List ℕ) (w : Medium)
    → w.tx_list ≡ passed ++ ps
    → Distinct ps
    → All (Transmits w.heap) ps
    → All (Answers k) ps
    → (w' : Medium) × (tx_loop k passed ps w ≡ ok (tt, w'))
      × (w'.tx_list ≡ passed ++ keep (λ p. not (is_over k p)) ps)
      × Outcome k w w' ps
tx_loop_lem k [] passed w l d t a = (w, unfold tx_loop in refl, l, unchanged k w)
tx_loop_lem k (p ∷ rest) passed w l d ((n, pkt, e, st, r, f, s), t) a =
    elim (Bool-cases (is_over k p)) [
      | inl over ↦
          let v : Medium = record (after_tx p n pkt w) { tx_list = passed ++ rest } in
          let agree = update-Agree w.heap p (some (retired n)) rest d.0 in
          let (w', run, left, o) =
            tx_loop_lem k rest passed v refl d.1 (Transmits-Agree v.heap w.heap rest agree t) a.1 in
          (
            w',
            tx_loop_over k p rest passed w n pkt e st r f s a.0 over ∙ run,
            ground (arith, left),
            finished k p rest w n pkt w' e f over d.0 (relist o),
          )
      | inr over ↦
          let (w', run, left, o) =
            tx_loop_lem k rest (passed ++ p ∷ []) w (l ∙ sym (append_assoc passed (p ∷ []) rest))
              d.1 t a.1 in
          (
            w',
            tx_loop_wait k p rest passed w (n, pkt, e, st, r, f, s) a.0 over ∙ run,
            ground (
              arith,
              left,
              append_assoc passed (p ∷ []) (keep (λ (q : ℕ). not (is_over k q)) rest),
            ),
            skipped k p rest w w' over o,
          )
    ]

-- With every node on the list transmitting, no node on it twice, and the kernel's answers for their
-- timers, `processTxList` succeeds. Exactly the nodes whose timers have nothing left leave the list,
-- and the others keep their order. Those that leave are active again, without a packet and with
-- their timer stopped; each is sent one indication, in order, that says whether its packet had been
-- marked as collided; the packets that were not go out, in order; and each is counted. Nothing else
-- changes.
pub process_tx_list_lem :
    (k : Kernel) (w : Medium)
    → Distinct w.tx_list
    → All (Transmits w.heap) w.tx_list
    → All (Answers k) w.tx_list
    → (w' : Medium) × (process_tx_list k w ≡ ok (tt, w'))
      × (w'.tx_list ≡ keep (λ p. not (is_over k p)) w.tx_list)
      × Outcome k w w' w.tx_list
unfolding process_tx_list
process_tx_list_lem k w d t a = tx_loop_lem k w.tx_list [] w refl d t a
