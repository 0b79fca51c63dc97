-- ===== src/System/Protocol/Phases.antt =====
-- What each request does in each phase.
use x6losim.Prelude.{
  ℕ, ◌≡◌, refl, subst, ap, ◌∙◌, ◌⊎◌, inl, inr, List, [], ◌∷◌, ◌++◌, true, false, Option, none, some,
  ◌==◌, ==_iff, ==_refl, Bool-cases, contains, arith,
}
use x6losim.Prelude.Fault.{Fault, ok, fail, dangling}
use x6losim.Wire.{deregistration_confirm}
use x6losim.Store.{
  Medium, Kernel, DeviceNode, registering, active, transmitting, ◌>>=◌, deref, update,
}
use x6losim.Store.Heap.{update_self}
use x6losim.Membership.{insert, erase_key}
use x6losim.Node.{
  handle_registration_confirm, handle_deregistration_request, handle_cca_request,
  handle_data_indication,
}
use x6losim.Node.Registration.{
  confirmed, handle_registration_confirm_lem, handle_registration_confirm_refused,
}
use x6losim.Node.Requests.{
  handle_cca_request_lem, handle_cca_request_transmitting, handle_cca_request_refused,
  handle_deregistration_request_lem, handle_deregistration_request_listed,
}
use x6losim.Node.Transmission.{
  SetsTimers, sending, handle_data_indication_lem, handle_data_indication_refused,
}
use x6losim.Reader.{dispatch}
use x6losim.System.{IsRegistering, IsActive, IsTransmitting, IsWell}
use x6losim.System.Maps.{contains_key_of_some, contains-append_one}
use x6losim.System.Change.{as_state}
use x6losim.System.Similar.{unlinked}
use x6losim.System.Requests.{asked-IsWell, confirmed-IsWell, sending-IsWell}
use x6losim.System.Membership.{IsIdle, left-IsWell, unlisted-IsWell}
use x6losim.System.Handlers.{member as is_member}
use x6losim.System.Protocol.{
  Phase, absent, joining, member, sender, Peer, Request, confirm, leave, assess, transmit,
  next_peer, with_peer, is_tidy, IsProper, code_of, phase_of, phase_of_state, view,
}

-- What one request does, by what the specification says of it.
abbrev pub Refines : Kernel → Medium → ℕ → Request → List ℕ → Option Peer → Type 0
Refines k w p r msg none = (f : Fault) × (dispatch k p (code_of r) msg w ≡ fail f)
Refines k w p r msg (some x) =
    (w' : Medium) × (dispatch k p (code_of r) msg w ≡ ok (tt, w'))
    × IsWell w'
    × ((q : ℕ) → view w' q ≡ with_peer (view w) p x q)

view_changed :
    (w w' : Medium) (p : ℕ) (x : Peer)
    → ((q : ℕ) → (p == q) ≡ false → w'.heap q ≡ w.heap q)
    → ((q : ℕ) → (p == q) ≡ false → contains q w'.cca_list ≡ contains q w.cca_list)
    → phase_of (w'.heap p) ≡ x.phase
    → contains p w'.cca_list ≡ x.asks
    → (q : ℕ) → view w' q ≡ with_peer (view w) p x q
view_changed w w' p x heaps ccas f a q = elim (Bool-cases (p == q)) [
  | inl same ↦
      rw same
        (subst (λ y. view w' y ≡ x) ((==_iff p q).0 same) (λ i. record { phase = f i; asks = a i }))
  | inr other ↦ rw other (λ i. record { phase = phase_of (heaps q other i); asks = ccas q other i })
]

pub absent_fails :
    (k : Kernel) (w : Medium) (p : ℕ) (r : Request) (msg : List ℕ)
    → w.heap p ≡ none
    → dispatch k p (code_of r) msg w ≡ fail dangling
unfolding dispatch handle_registration_confirm handle_deregistration_request handle_cca_request
    handle_data_indication
absent_fails k w p confirm msg e = rw (e, deref, ◌>>=◌) refl
absent_fails k w p leave msg e = rw (e, deref, ◌>>=◌) refl
absent_fails k w p assess msg e = rw (e, deref, ◌>>=◌) refl
absent_fails k w p transmit msg e = rw (e, deref, ◌>>=◌) refl

module _ (k : Kernel) (sets : SetsTimers k) (w : Medium) (h : IsWell w) (p : ℕ) (n : DeviceNode)
    (e : w.heap p ≡ some n) where
  pub joining-Refines :
      (r : Request) (msg : List ℕ)
      → n.cur_state ≡ registering
      → IsProper p r msg
      → Refines k w p r msg (next_peer (record { phase = joining; asks = contains p w.cca_list }) r)
  unfolding dispatch
  joining-Refines confirm msg st (os, os_version, names) =
      let i : IsRegistering w p n = as_state w h p n e registering st in
      let n' : DeviceNode = confirmed os os_version n in
      let w' : Medium = record w {
        heap = update w.heap p (some n');
        reg_list_map = erase_key n.socket w.reg_list_map;
        node_hash_map = insert n.socket p w.node_hash_map;
      } in
      (
        w',
        handle_registration_confirm_lem p n w msg os os_version e names st i.has_medium
            (contains_key_of_some n.socket p w.reg_list_map i.listed),
        confirmed-IsWell w h p n e os os_version st,
        view_changed w w' p (record { phase = phase_of_state active; asks = contains p w.cca_list })
            (λ q d. rw d refl) (λ q d. refl) (ap phase_of (update_self w.heap p (some n'))) refl,
      )
  joining-Refines leave msg st _ =
      let i : IsRegistering w p n = as_state w h p n e registering st in
      let v : Medium = record w {
        heap = update w.heap p none;
        reg_list_map = erase_key n.socket w.reg_list_map;
      } in
      let w' : Medium = record v { sent = w.sent ++ (p, deregistration_confirm n.socket) ∷ [] } in
      (
        w',
        handle_deregistration_request_listed p n w e i.has_medium
            (contains_key_of_some n.socket p w.reg_list_map i.listed),
        unlinked v w' refl refl refl refl (λ q a. a) (unlisted-IsWell w h p n e st),
        view_changed w w' p (record { phase = absent; asks = contains p w.cca_list })
            (λ q d. rw d refl) (λ q d. refl) (ap phase_of (update_self w.heap p none)) refl,
      )
  joining-Refines assess msg st _ =
      let i : IsRegistering w p n = as_state w h p n e registering st in
      (_, handle_cca_request_refused p n w e i.has_medium st)
  joining-Refines transmit msg st (pkt, built) =
      (_, handle_data_indication_refused k p n w msg pkt e built (inl st))

  asked-Refines :
      (x : Phase) (msg : List ℕ)
      → (n.cur_state ≡ active) ⊎ (n.cur_state ≡ transmitting)
      → phase_of_state n.cur_state ≡ x
      → handle_cca_request p w ≡ ok (tt, record w { cca_list = w.cca_list ++ p ∷ [] })
      → Refines k w p assess msg (some (record { phase = x; asks = true }))
  unfolding dispatch
  asked-Refines x msg st f run =
      let w' : Medium = record w { cca_list = w.cca_list ++ p ∷ [] } in
      (
        w',
        run,
        asked-IsWell w h p n e st,
        view_changed w w' p (record { phase = x; asks = true }) (λ q d. refl)
            (λ q d. ground (arith, contains-append_one q p w.cca_list)) (ap phase_of e ∙ f)
            (ground (arith, contains-append_one p p w.cca_list, ==_refl p)),
      )

  pub member-Refines :
      (r : Request) (msg : List ℕ)
      → n.cur_state ≡ active
      → IsProper p r msg
      → is_tidy (record { phase = member; asks = contains p w.cca_list }) r ≡ true
      → Refines k w p r msg (next_peer (record { phase = member; asks = contains p w.cca_list }) r)
  unfolding dispatch
  member-Refines confirm msg st (os, os_version, names) t =
      (_, handle_registration_confirm_refused p n w msg os os_version e names (inl st))
  member-Refines leave msg st _ t =
      let i : IsActive w p n = as_state w h p n e active st in
      let idle : IsIdle w p = record { not_sending = i.not_sending; not_asking = ground arith } in
      let v : Medium = record w {
        heap = update w.heap p none;
        node_hash_map = erase_key n.socket w.node_hash_map;
      } in
      let w' : Medium = record v { sent = w.sent ++ (p, deregistration_confirm n.socket) ∷ [] } in
      (
        w',
        handle_deregistration_request_lem p n w (is_member w h p n e (inl st) i.has_medium),
        unlinked v w' refl refl refl refl (λ q a. a) (left-IsWell w h p n e (inl st) idle),
        view_changed w w' p (record { phase = absent; asks = contains p w.cca_list })
            (λ q d. rw d refl) (λ q d. refl) (ap phase_of (update_self w.heap p none)) refl,
      )
  member-Refines assess msg st _ t =
      let i : IsActive w p n = as_state w h p n e active st in
      asked-Refines member msg (inl st) (ap phase_of_state st)
        (handle_cca_request_lem p n w e i.has_medium st)
  member-Refines transmit msg st (pkt, built) t =
      let i : IsActive w p n = as_state w h p n e active st in
      let w' : Medium = record w {
        heap = update w.heap p (some (sending pkt n));
        tx_list = w.tx_list ++ p ∷ [];
      } in
      (
        w',
        handle_data_indication_lem k p n w msg pkt e built sets i.has_medium i.tx_rests st,
        sending-IsWell w h p n e pkt st,
        view_changed w w' p (record { phase = sender; asks = contains p w.cca_list })
            (λ q d. rw d refl) (λ q d. refl)
            (ap phase_of (update_self w.heap p (some (sending pkt n)))) refl,
      )

  pub sender-Refines :
      (r : Request) (msg : List ℕ)
      → n.cur_state ≡ transmitting
      → IsProper p r msg
      → is_tidy (record { phase = sender; asks = contains p w.cca_list }) r ≡ true
      → Refines k w p r msg (next_peer (record { phase = sender; asks = contains p w.cca_list }) r)
  unfolding dispatch
  sender-Refines confirm msg st (os, os_version, names) t =
      (_, handle_registration_confirm_refused p n w msg os os_version e names (inr st))
  sender-Refines leave msg st _ t = absurd (ground arith)
  sender-Refines assess msg st _ t =
      let i : IsTransmitting w p n = as_state w h p n e transmitting st in
      asked-Refines sender msg (inr st) (ap phase_of_state st)
        (handle_cca_request_transmitting p n w e i.has_medium st)
  sender-Refines transmit msg st (pkt, built) t =
      (_, handle_data_indication_refused k p n w msg pkt e built (inr st))
