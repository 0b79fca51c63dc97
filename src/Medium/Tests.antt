-- ===== src/Medium/Tests.antt =====
-- The theorems about the medium's lists, at a medium with two transmissions and one request.
use x6losim.Prelude.{ℕ, ◌≡◌, refl, [], ◌∷◌, Bool, true, false, arith}
use x6losim.Prelude.Fault.{ok, fail, dangling}
use x6losim.Wire.{byte_swap}
use x6losim.Packet.{pktbuf_size}
use x6losim.Store.{Medium, ◌>>◌, stopping}
use x6losim.Store.Samples.{busy_medium, three_nodes, kernel, packet, active_node, transmitting_node}
use x6losim.Membership.{contains_key}
use x6losim.Node.{handle_cca_request, handle_deregistration_request}
use x6losim.Node.Requests.{IsMember}
use x6losim.Medium.Deregistered.{cca_then_deregistration}
use x6losim.Medium.{process_cca_list, tx_collision_check, process_tx_list, PollEvent, unblocker}
use x6losim.Medium.Channel.{collided, tx_collision_check_lem}
use x6losim.Reader.{failed}
use x6losim.Medium.Unblock.{process_poller_events_unblocked}
use x6losim.Medium.Events.{Calm, process_poller_events-Calm}
use x6losim.Medium.Outgoing.{IsSendable}
use x6losim.Medium.TxOutcome.{Outcome}
use x6losim.Medium.TxList.{process_tx_list_lem}

tx_collision_check_lem_example :
    tx_collision_check busy_medium
    ≡ ok (tt, record busy_medium { heap = collided (1 ∷ 2 ∷ []) three_nodes })
tx_collision_check_lem_example =
    (tx_collision_check_lem busy_medium (
      (transmitting_node 1 4096 false, packet 1 false, refl, refl),
      ((transmitting_node 2 8192 true, packet 2 true, refl, refl), tt),
    )).0
      refl (omega arith)

packet-IsSendable : (p : ℕ) (c : Bool) → IsSendable (packet p c)
unfolding pktbuf_size byte_swap
packet-IsSendable p c = record { has_header = omega arith; has_frame = omega arith }

process_tx_list_lem_example :
    (w' : Medium) × (process_tx_list kernel busy_medium ≡ ok (tt, w'))
    × (w'.tx_list ≡ 2 ∷ [])
    × Outcome kernel busy_medium w' (1 ∷ 2 ∷ [])
process_tx_list_lem_example =
    process_tx_list_lem kernel busy_medium (refl, (refl, tt))
      (
        (
          transmitting_node 1 4096 false,
          packet 1 false,
          refl,
          refl,
          refl,
          refl,
          packet-IsSendable 1 false,
        ),
        (
          (
            transmitting_node 2 8192 true,
            packet 2 true,
            refl,
            refl,
            refl,
            refl,
            packet-IsSendable 2 true,
          ),
          tt,
        ),
      )
      ((0, 0, refl), ((0, 1000000, refl), tt))

-- Nobody waits for an answer.
abbrev quiet_medium : Medium
quiet_medium = record busy_medium { cca_list = [] }

third-IsMember : IsMember 3 (active_node 12288) quiet_medium
unfolding contains_key
third-IsMember = record {
  at_p = refl;
  with_medium = refl;
  not_registering = refl;
  registered = refl;
}

cca_then_deregistration_example :
    (handle_cca_request 3 >> (handle_deregistration_request 3 >> process_cca_list)) quiet_medium
    ≡ fail dangling
cca_then_deregistration_example =
    cca_then_deregistration 3 (active_node 12288) quiet_medium third-IsMember refl tt

abbrev stop_event : PollEvent
stop_event = record {
  source = unblocker;
  rdhup = true;
  readable = false;
  first = failed;
  second = failed;
  junk = λ i. i;
}

process_poller_events-Calm_example : Calm busy_medium (record busy_medium { state = stopping })
process_poller_events-Calm_example =
    process_poller_events-Calm kernel (stop_event ∷ []) busy_medium
      (record busy_medium { state = stopping })
      (process_poller_events_unblocked kernel stop_event [] busy_medium refl refl (omega arith))
