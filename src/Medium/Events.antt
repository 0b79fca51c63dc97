-- ===== src/Medium/Events.antt =====
-- What the events of the poller leave alone.
use x6losim.Prelude.{
  ℕ, ◌≡◌, refl, ◌∙◌, ◌⊎◌, inl, inr, List, [], ◌∷◌, Bool, true, false, leb, length,
}
use x6losim.Prelude.Fault.{ok, thrown, asserted}
use x6losim.Store.{◌>>◌, pure, Medium, Kernel, stopping}
use x6losim.Store.Frame.{
  Frame, Keeps, bind-Keeps, then-Keeps, modify-Keeps, pure-Keeps, raise-Keeps, check-Keeps,
  deref-Keeps,
}
use x6losim.Node.Frame.{if-Keeps, deregister_node-Keeps}
use x6losim.Reader.Frame.{read_msg-Keeps}
use x6losim.Medium.{
  PollEvent, EventSource, unblocker, node_at, null_data, set_state, closed_event, readable_event,
  process_event, event_loop, process_poller_events, epoll_max_events,
}

-- The state is as before or that of stopping; the kind, the time, the counters and the output are as
-- before.
pub record Calm (w w' : Medium) : Type 0 where
  pub state_or_stopping : (w'.state ≡ w.state) ⊎ (w'.state ≡ stopping)
  pub kept_kind : w'.kind ≡ w.kind
  pub kept_time : w'.cur_time ≡ w.cur_time
  pub kept_ok : w'.tx_pkts_ok ≡ w.tx_pkts_ok
  pub kept_collided : w'.tx_pkts_collided ≡ w.tx_pkts_collided
  pub kept_failed : w'.tx_pkts_failed ≡ w.tx_pkts_failed
  pub kept_multicast : w'.multicast ≡ w.multicast
  pub kept_dumped : w'.dumped ≡ w.dumped

calm :
    (w w' : Medium)
    → (w'.state ≡ w.state) ⊎ (w'.state ≡ stopping)
    → w' ≡ record w {
      state = w'.state;
      heap = w'.heap;
      reg_list_map = w'.reg_list_map;
      node_hash_map = w'.node_hash_map;
      cca_list = w'.cca_list;
      tx_list = w'.tx_list;
      sent = w'.sent;
    }
    → Calm w w'
calm w w' s e = record {
  state_or_stopping = s;
  kept_kind = λ i. (e i).kind;
  kept_time = λ i. (e i).cur_time;
  kept_ok = λ i. (e i).tx_pkts_ok;
  kept_collided = λ i. (e i).tx_pkts_collided;
  kept_failed = λ i. (e i).tx_pkts_failed;
  kept_multicast = λ i. (e i).multicast;
  kept_dumped = λ i. (e i).dumped;
}

Calm-Frame : (p : ℕ) → Frame p Calm
Calm-Frame p = record {
  same = λ w. calm w w (inl refl) refl;
  next = chained;
  changes_node = λ w n. calm w _ (inl refl) refl;
  deletes_node = λ w. calm w _ (inl refl) refl;
  sends = λ w msg. calm w _ (inl refl) refl;
  asks_cca = λ w. calm w _ (inl refl) refl;
  asks_tx = λ w. calm w _ (inl refl) refl;
  changes_maps = λ w reg nodes. calm w _ (inl refl) refl;
}
  where
    states :
        (u v w : Medium)
        → (v.state ≡ u.state) ⊎ (v.state ≡ stopping)
        → (w.state ≡ v.state) ⊎ (w.state ≡ stopping)
        → (w.state ≡ u.state) ⊎ (w.state ≡ stopping)
    states u v w (inl c) (inl d) = inl (d ∙ c)
    states u v w (inr c) (inl d) = inr (d ∙ c)
    states u v w c (inr d) = inr d

    chained : {u v w : Medium} → Calm u v → Calm v w → Calm u w
    chained {u} {v} {w} c d = record {
      state_or_stopping = states u v w c.state_or_stopping d.state_or_stopping;
      kept_kind = d.kept_kind ∙ c.kept_kind;
      kept_time = d.kept_time ∙ c.kept_time;
      kept_ok = d.kept_ok ∙ c.kept_ok;
      kept_collided = d.kept_collided ∙ c.kept_collided;
      kept_failed = d.kept_failed ∙ c.kept_failed;
      kept_multicast = d.kept_multicast ∙ c.kept_multicast;
      kept_dumped = d.kept_dumped ∙ c.kept_dumped;
    }

set_stopping-Keeps : (b : Bool) → Keeps Calm (set_state stopping >> pure b)
set_stopping-Keeps b =
    let fr = Calm-Frame 0 in
    then-Keeps fr _ _ (modify-Keeps fr _ (λ w. calm w _ (inr refl) refl)) (pure-Keeps fr b)

closed_event-Keeps : (s : EventSource) → Keeps Calm (closed_event s)
unfolding closed_event
closed_event-Keeps unblocker = set_stopping-Keeps false
closed_event-Keeps (node_at p) =
    let fr = Calm-Frame p in
    bind-Keeps fr _ _ (deref-Keeps fr p)
      (λ n. then-Keeps fr _ _ (deregister_node-Keeps fr) (pure-Keeps fr true))
closed_event-Keeps null_data = raise-Keeps (Calm-Frame 0) thrown

readable_event-Keeps :
    (k : Kernel) (e : PollEvent) (s : EventSource) → Keeps Calm (readable_event k e s)
unfolding readable_event
readable_event-Keeps k e unblocker = set_stopping-Keeps false
readable_event-Keeps k e (node_at p) =
    let fr = Calm-Frame p in
    then-Keeps fr _ _ (read_msg-Keeps fr k e.first e.second e.junk) (pure-Keeps fr true)
readable_event-Keeps k e null_data = raise-Keeps (Calm-Frame 0) thrown

process_event-Keeps : (k : Kernel) (e : PollEvent) → Keeps Calm (process_event k e)
unfolding process_event
process_event-Keeps k e =
    let fr = Calm-Frame 0 in
    if-Keeps fr e.rdhup _ _ (closed_event-Keeps e.source)
      (if-Keeps fr e.readable _ _ (readable_event-Keeps k e e.source) (pure-Keeps fr true))

event_loop-Keeps : (k : Kernel) (es : List PollEvent) → Keeps Calm (event_loop k es)
unfolding event_loop
event_loop-Keeps k [] = pure-Keeps (Calm-Frame 0) tt
event_loop-Keeps k (e ∷ es) =
    bind-Keeps (Calm-Frame 0) _ _ (process_event-Keeps k e) (goes_on (event_loop-Keeps k es))
  where
    goes_on :
        Keeps Calm (event_loop k es)
        → (more : Bool) → Keeps Calm (elim more [ true ↦ event_loop k es | false ↦ pure tt ])
    goes_on h true = h
    goes_on h false = pure-Keeps (Calm-Frame 0) tt

-- Whatever the nodes send, and with nodes that leave: where the events of one wait have been
-- handled, the medium is in the state it was in or is stopping, and its kind, time, counters and
-- output are as before.
pub process_poller_events-Calm :
    (k : Kernel) (es : List PollEvent) (w w' : Medium)
    → process_poller_events k es w ≡ ok (tt, w')
    → Calm w w'
unfolding process_poller_events
process_poller_events-Calm k es w w' h =
    then-Keeps (Calm-Frame 0) _ _
      (check-Keeps (Calm-Frame 0) (leb (length es) epoll_max_events) asserted)
      (event_loop-Keeps k es) w w' tt h
