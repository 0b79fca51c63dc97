-- ===== src/System/Tests.antt =====
-- The theorems about the whole medium, from an empty one that a node joins.
use x6losim.Prelude.{ℕ, true, ◌≡◌, refl, [], ◌∷◌, none, some, replicate, List, arith}
use x6losim.Prelude.Fault.{ok, fail, asserted}
use x6losim.Store.{◌>>◌, Medium, Kernel, powerline, stopped, idle}
use x6losim.Medium.Construction.{MediumAnswers, new_medium}
use x6losim.Medium.Destruction.{delete_medium}
use x6losim.System.Lifetime.{IsDestroyed, medium_lifetime}
use x6losim.Store.Samples.{empty_medium, kernel}
use x6losim.Membership.{insert, contains_key, watch_node}
use x6losim.Node.Early.{early_confirm_aborts}
use x6losim.Node.Registration.{HasNames, confirmed}
use x6losim.Node.{strncpy, new_device_node, handle_registration_confirm}
use x6losim.Node.Joining.{joined}
use x6losim.Medium.{check_node_registration_timeout}
use x6losim.System.{IsWell}
use x6losim.Reader.Built.{arrival}
use x6losim.Wire.Messages.{registration_con, cca_request, data_ind_payload}
use x6losim.System.Messages.{registration_con_arrives, member_messages_arrive}
use x6losim.System.Timeouts.{Expiry, check_node_registration_timeout_lem}
use x6losim.System.Steps.{moves, here, later, Reach-IsWell}
use x6losim.System.Protocol.{Request, confirm, assess, specified, view, AreTidy}
use x6losim.System.Protocol.Refine.{RefinesAll, dispatched_refines}
use x6losim.System.Samples.{
  kernel-SetsTimers, one_node, empty, one_joins, linux, junk, one_member, one_member-IsWell, frame,
  frame-FitsReader,
}

Reach-IsWell_example : IsWell one_node
Reach-IsWell_example = Reach-IsWell empty (later here one_joins)

abbrev granted : MediumAnswers
granted = record {
  epoll_create = true;
  epoll_ctl = true;
  timer_create = true;
  pcap_open = true;
  pcap_dump_open = true;
}

-- The thread has not begun.
abbrev new_one : Medium
new_one = record empty_medium { state = stopped }

new_one_made : new_medium powerline empty_medium.cur_time granted ≡ ok new_one
unfolding new_medium
new_one_made = refl

medium_lifetime_example : (w' : Medium) × (delete_medium one_node ≡ ok (tt, w')) × IsDestroyed w'
medium_lifetime_example =
    medium_lifetime powerline empty_medium.cur_time granted new_one_made
      (later (later here (moves idle empty_medium.cur_time refl)) one_joins)

-- The kernel says that nothing is left on the registration timer.
abbrev late_kernel : Kernel
late_kernel = record kernel { reg_left = λ p. some (0, 0) }

check_node_registration_timeout_lem_example :
    (w' : Medium) × (check_node_registration_timeout late_kernel one_node ≡ ok (tt, w'))
    × (w'.reg_list_map ≡ [])
    × Expiry late_kernel one_node w' ((4096, 1) ∷ [])
    × IsWell w'
unfolding insert
check_node_registration_timeout_lem_example =
    check_node_registration_timeout_lem late_kernel one_node
      (Reach-IsWell empty (later here one_joins)) ((0, 0, refl), tt)

-- The node confirms its registration, asks for an answer, and confirms once more.
abbrev requests : List (ℕ × Request × List ℕ)
requests = (1, confirm, replicate 82 0) ∷ (1, assess, []) ∷ (1, confirm, replicate 82 0) ∷ []

no_names : HasNames (replicate 82 0) (replicate 32 0) (replicate 32 0)
unfolding strncpy
no_names = record { first_name = refl; second_name = refl }

requests-AreTidy : AreTidy (view one_node) requests
unfolding strncpy
requests-AreTidy = (
  (replicate 32 0, replicate 32 0, no_names),
  refl,
  λ x e. (tt, refl, λ y f. ((replicate 32 0, replicate 32 0, no_names), refl, λ z g. tt)),
)

dispatched_refines_example :
    RefinesAll kernel one_node requests (specified (view one_node) requests)
dispatched_refines_example =
    dispatched_refines kernel one_node requests kernel-SetsTimers
      (Reach-IsWell empty (later here one_joins)) requests-AreTidy

-- The specification refuses the second confirmation.
requests_refused : specified (view one_node) requests ≡ none
unfolding specified
requests_refused = refl

early_confirm_aborts_example :
    (new_device_node kernel 1 4096 7 true
        >> (watch_node kernel 1 >> handle_registration_confirm 1 (replicate 82 0)))
      empty_medium
    ≡ fail asserted
unfolding contains_key
early_confirm_aborts_example =
    (early_confirm_aborts kernel 1 4096 7 empty_medium (replicate 82 0) (replicate 32 0)
      (replicate 32 0) kernel-SetsTimers refl refl no_names).0

registration_con_arrives_example :
    arrival kernel 1 (registration_con 4096 linux) junk one_node ≡ ok (tt, one_member)
registration_con_arrives_example =
    registration_con_arrives kernel 1 (joined 4096 7) one_node junk Reach-IsWell_example refl
      (omega arith) linux (record { os_fits = refl; os_version_fits = refl }) refl

member_messages_arrive_example :
    arrival kernel 1 (cca_request 4096) junk one_member
    ≡ ok (tt, record one_member { cca_list = 1 ∷ [] })
unfolding data_ind_payload
member_messages_arrive_example =
    (member_messages_arrive kernel 1 (confirmed linux.os linux.os_version (joined 4096 7))
      one_member junk one_member-IsWell refl (omega arith) refl kernel-SetsTimers frame
      frame-FitsReader (omega arith)).0
