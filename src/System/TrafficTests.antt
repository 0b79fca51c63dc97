-- ===== src/System/TrafficTests.antt =====
-- The theorems about frames on the wire, from a medium with one member or two.
use x6losim.System.Draining.{IsDrained, transmissions_end}
use x6losim.Store.{tx_802514_frame, ◌>>◌, DeviceNode, active, Medium, Kernel, update, idle}
use x6losim.Thread.{inner, outer}
use x6losim.System.Marks.{packet_of_node}
use x6losim.Packet.{pktbuf_size, NetSimPacket}
use x6losim.Medium.Outgoing.{IsSendable}
use x6losim.System.Delivery.{packet_sends, frame_delivered}
use x6losim.Prelude.{
  subst, ◌∙◌, ap, ℕ, true, false, ◌++◌, ◌≡◌, refl, [], ◌∷◌, none, some, List, take, drop, inr,
  arith, ◌≢◌,
}
use x6losim.System.Steps.{moves, reads, Step, here, later}
use x6losim.Prelude.Fault.{ok, fail, dangling}
use x6losim.System.Progress.{reachable_work}
use x6losim.Membership.{deregister_node}
use x6losim.Medium.{process_cca_list}
use x6losim.System.Steps.{Step-IsWell}
use x6losim.Wire.{
  msg_code, tx_data_ind, decode_header, store_cksum, tx_done_indication, tx_done_ok,
  tx_done_collided, cca_confirm,
}
use x6losim.Wire.Header.{blank_header}
use x6losim.Checksum.{generate_checksum}
use x6losim.System.Collision.{frames_collide}
use x6losim.Store.Samples.{kernel}
use x6losim.Membership.{insert, erase_key}
use x6losim.Node.Joining.{joined}
use x6losim.Medium.{tx_collision_check, process_tx_list}
use x6losim.System.{IsWell}
use x6losim.Reader.{received}
use x6losim.Reader.Built.{arrival}
use x6losim.Wire.Messages.{data_ind, cca_request, data_ind_payload}
use x6losim.Node.Registration.{confirmed}
use x6losim.System.Messages.{member_messages_arrive, packet_of}
use x6losim.System.Samples.{
  kernel-SetsTimers, empty, one_joins, linux, junk, one_member, one_member-IsWell, frame,
  frame-FitsReader, frame-IsWhole, two_members, two_members-IsWell, over_kernel,
  over_kernel-SetsTimers, one_confirming,
}
use x6losim.Thread.Turns.{silence, run_turns}
use x6losim.System.Similar.{unlinked}
use x6losim.System.Exchange.{quiet, hands, carrier_sense}
use x6losim.Node.Transmission.{sending}
use x6losim.Node.Release.{delete_device_node}
use x6losim.System.Release.{delete_device_node_lem}

-- The member has handed over its frame.
abbrev sender : DeviceNode
sender = sending (packet_of 1 4096 frame) (confirmed linux.os linux.os_version (joined 4096 7))

abbrev one_sender : Medium
one_sender = record one_member { heap = update one_member.heap 1 (some sender); tx_list = 1 ∷ [] }

frame_fits : pktbuf_size (packet_of 1 4096 frame) ≡ frame.psdu_len
unfolding data_ind_payload
frame_fits =
    (member_messages_arrive kernel 1 (confirmed linux.os linux.os_version (joined 4096 7))
      one_member junk one_member-IsWell refl (omega arith) refl kernel-SetsTimers frame
      frame-FitsReader (omega arith)).2

one_sends : Step one_member one_sender
unfolding data_ind_payload
one_sends =
    reads kernel 1 (received (take 2 (data_ind 4096 frame)))
      (received (drop 2 (data_ind 4096 frame))) junk (inr (_, refl))
      (member_messages_arrive kernel 1 (confirmed linux.os linux.os_version (joined 4096 7))
        one_member junk one_member-IsWell refl (omega arith) refl kernel-SetsTimers frame
        frame-FitsReader (omega arith)).1

-- The member asks, and hands over its frame before the answer.
abbrev one_asked : Medium
one_asked = record one_member { cca_list = 1 ∷ [] }

one_asks : Step one_member one_asked
unfolding data_ind_payload
one_asks =
    reads kernel 1 (received (take 2 (cca_request 4096))) (received (drop 2 (cca_request 4096)))
      junk (inr (_, refl))
      (member_messages_arrive kernel 1 (confirmed linux.os linux.os_version (joined 4096 7))
        one_member junk one_member-IsWell refl (omega arith) refl kernel-SetsTimers frame
        frame-FitsReader (omega arith)).0

abbrev one_hasty : Medium
one_hasty = record one_asked { heap = update one_asked.heap 1 (some sender); tx_list = 1 ∷ [] }

one_hurries : Step one_asked one_hasty
unfolding data_ind_payload
one_hurries =
    reads kernel 1 (received (take 2 (data_ind 4096 frame)))
      (received (drop 2 (data_ind 4096 frame))) junk (inr (_, refl))
      (member_messages_arrive kernel 1 (confirmed linux.os linux.os_version (joined 4096 7))
        one_asked junk (Step-IsWell one_asks one_member-IsWell) refl (omega arith) refl
        kernel-SetsTimers frame frame-FitsReader (omega arith)).1

-- It is answered while it transmits; if it were deleted first, the thread would follow a dangling
-- pointer.
reachable_work_example :
    (w' : Medium) × (deregister_node 1 one_hasty ≡ ok (tt, w'))
    × (process_cca_list w' ≡ fail dangling)
reachable_work_example =
    (reachable_work empty
        (later (later (later (later here one_joins) one_confirming) one_asks) one_hurries)).4
      1 refl

delete_device_node_lem_example :
    ((delete_device_node sender).timers_left ≡ 1)
    × (pkt : NetSimPacket) × ((delete_device_node sender).packets_left ≡ pkt ∷ [])
delete_device_node_lem_example =
    (delete_device_node_lem 1 sender empty
        (later (later (later here one_joins) one_confirming) one_sends) refl).2
      refl

-- The thread knows of the transmission.
abbrev one_on_air : Medium
one_on_air = record one_sender { state = tx_802514_frame }

frame_whole :
    (n : DeviceNode) (pkt : NetSimPacket)
    → one_on_air.heap 1 ≡ some n
    → n.tx_pkt ≡ some pkt
    → IsSendable pkt
frame_whole n pkt e f =
    let held : some (packet_of 1 4096 frame) ≡ some pkt = ap packet_of_node e ∙ f in
    let same : packet_of 1 4096 frame ≡ pkt = cc in
    subst IsSendable same (packet_sends 1 4096 frame frame_fits frame-IsWhole.has_frame)

transmissions_end_example :
    (w' : Medium) × (run_turns ((over_kernel, silence) ∷ (kernel, silence) ∷ []) inner one_on_air
      ≡ some (ok (outer, w')))
    × IsDrained one_on_air w'
unfolding erase_key insert
transmissions_end_example =
    transmissions_end over_kernel kernel 1 [] empty
      (later (later (later (later here one_joins) one_confirming) one_sends)
        (moves tx_802514_frame one_sender.cur_time refl))
      refl refl refl (frame_whole, tt) (refl, tt) tt

frame_delivered_example :
    (w' : Medium) × (n' : DeviceNode) × (out : List ℕ) × ((arrival kernel 1
            (data_ind 4096 frame)
            junk
          >> (tx_collision_check >> process_tx_list kernel))
        one_member
      ≡ ok (tt, w'))
    × (w'.tx_list ≡ [])
    × (w'.multicast ≡ out ∷ [])
    × (record (decode_header out) { cksum = 0 }
        ≡ blank_header (msg_code tx_data_ind) 4096 (data_ind_payload frame))
    × (generate_checksum (store_cksum 0 out) ≡ (decode_header out).cksum)
    × (w'.dumped ≡ (65 ∷ 66 ∷ 67 ∷ []) ∷ [])
    × (w'.sent ≡ one_member.sent ++ (1, tx_done_indication 4096 tx_done_ok) ∷ [])
    × (w'.heap 1 ≡ some n')
    × (n'.cur_state ≡ active)
    × (n'.tx_pkt ≡ none)
frame_delivered_example =
    frame_delivered kernel 1 (confirmed linux.os linux.os_version (joined 4096 7)) one_member junk
      frame one_member-IsWell refl (omega arith) refl kernel-SetsTimers frame-IsWhole refl refl

frames_collide_example :
    (w' : Medium) × ((arrival over_kernel 1 (data_ind 4096 frame) junk
          >> (arrival over_kernel 2 (data_ind 8192 frame) junk
              >> (tx_collision_check >> process_tx_list over_kernel)))
        two_members
      ≡ ok (tt, w'))
    × (w'.tx_list ≡ [])
    × (w'.multicast ≡ [])
    × (w'.dumped ≡ [])
    × (w'.tx_pkts_ok ≡ 0)
    × (w'.tx_pkts_collided ≡ 2)
    × (w'.sent
        ≡ two_members.sent
          ++ (1, tx_done_indication 4096 tx_done_collided)
            ∷ (2, tx_done_indication 8192 tx_done_collided)
            ∷ [])
frames_collide_example =
    frames_collide over_kernel 1 2 (confirmed linux.os linux.os_version (joined 4096 7))
      (confirmed linux.os linux.os_version (joined 8192 8)) frame frame two_members junk
      two_members-IsWell over_kernel-SetsTimers refl refl (omega arith)
      (record {
        node = refl;
        id_fits = omega arith;
        is_active = refl;
        whole = frame-IsWhole;
        over = refl;
      })
      (record {
        node = refl;
        id_fits = omega arith;
        is_active = refl;
        whole = frame-IsWhole;
        over = refl;
      })

-- The kernel says that 1 ms is left of the transmission.
abbrev early_kernel : Kernel
early_kernel = record kernel { tx_left = λ p. some (0, 1000000) }

two_quiet-IsWell : IsWell (quiet two_members)
unfolding erase_key insert
two_quiet-IsWell =
    unlinked two_members (quiet two_members) refl refl refl refl (λ q a. refl) two_members-IsWell

carrier_sense_example :
    (w' : Medium) × (n' : DeviceNode) × (out : List ℕ) × (run_turns
        ((early_kernel, hands 1 (cca_request 4096) junk)
          ∷ (early_kernel, silence)
          ∷ (early_kernel, hands 1 (data_ind 4096 frame) junk)
          ∷ (early_kernel, hands 2 (cca_request 8192) junk)
          ∷ (over_kernel, silence)
          ∷ (over_kernel, silence)
          ∷ [])
        outer
        (quiet two_members)
      ≡ some (ok (outer, w')))
    × (w'.state ≡ idle)
    × (w'.tx_list ≡ [])
    × (w'.cca_list ≡ [])
    × (w'.sent
        ≡ two_members.sent
          ++ (1, cca_confirm 4096 true)
            ∷ (2, cca_confirm 8192 false)
            ∷ (1, tx_done_indication 4096 tx_done_ok)
            ∷ [])
    × (w'.multicast ≡ out ∷ [])
    × (record (decode_header out) { cksum = 0 }
        ≡ blank_header (msg_code tx_data_ind) 4096 (data_ind_payload frame))
    × (generate_checksum (store_cksum 0 out) ≡ (decode_header out).cksum)
    × (w'.dumped ≡ (65 ∷ 66 ∷ 67 ∷ []) ∷ [])
    × (w'.heap 1 ≡ some n')
    × (n'.cur_state ≡ active)
    × (n'.tx_pkt ≡ none)
    × ((x : ℕ) → x ≢ 1 → w'.heap x ≡ two_members.heap x)
carrier_sense_example =
    carrier_sense early_kernel over_kernel 1 2 (confirmed linux.os linux.os_version (joined 4096 7))
      (confirmed linux.os linux.os_version (joined 8192 8)) two_members junk frame two_quiet-IsWell
      (record { there = refl; id_fits = omega arith; is_active = refl })
      (record { there = refl; id_fits = omega arith; is_active = refl }) (omega arith)
      (record { creates = refl; sets = refl }) over_kernel-SetsTimers frame-IsWhole (0, 1000000)
      refl refl refl
