-- ===== src/System/Release.antt =====
-- What the destructor of a node leaves, by what the node is doing.
use x6losim.Prelude.{ℕ, ◌≡◌, refl, ap, ◌⊎◌, inl, inr, [], ◌∷◌, Bool, true, false, some, arith}
use x6losim.Packet.{NetSimPacket}
use x6losim.Store.{Medium, DeviceNode, Timer, registering, active, transmitting}
use x6losim.Timer.{stop}
use x6losim.Node.Release.{
  kernel_timers, packet_list, stop_registration_timer, delete_node_pimpl, delete_device_node,
}
use x6losim.System.{IsWell, IsRegistering, IsActive, IsTransmitting}
use x6losim.System.Change.{as_state}
use x6losim.System.Steps.{IsEmpty, Reach, Reach-IsWell}

stop_deletes : (t : Timer) → kernel_timers (stop t) ≡ 0
unfolding stop
stop_deletes t = by_started t.started refl
  where
    by_started : (b : Bool) → t.started ≡ b → kernel_timers (stop t) ≡ 0
    by_started true e = rw (stop, e) refl
    by_started false e = rw (stop, e) refl

timers_left_lem : (n : DeviceNode) → (delete_device_node n).timers_left ≡ kernel_timers n.tx_timer
unfolding delete_device_node stop_registration_timer delete_node_pimpl
timers_left_lem n = omega (arith, stop_deletes n.reg_timer)

timers_by_state :
    (n : DeviceNode) (b : Bool)
    → n.tx_timer.started ≡ b
    → (delete_device_node n).timers_left ≡ kernel_timers (record n.tx_timer { started = b })
timers_by_state n true e = rw (timers_left_lem n, e) refl
timers_by_state n false e = rw (timers_left_lem n, e) refl

-- A node in any reachable state of a medium that began without nodes is deleted: its own socket is
-- closed and nothing else, and no timer of the kernel stays unless the node is transmitting. When it
-- is, one timer of the kernel and the packet of the transmission stay behind.
pub delete_device_node_lem :
    {w₀ w : Medium} (p : ℕ) (n : DeviceNode)
    → IsEmpty w₀
    → Reach w₀ w
    → w.heap p ≡ some n
    → ((delete_device_node n).closed ≡ n.sockfd ∷ [])
      × ((n.cur_state ≡ registering) ⊎ (n.cur_state ≡ active)
          → (delete_device_node n).timers_left ≡ 0)
      × (n.cur_state ≡ transmitting
          → ((delete_device_node n).timers_left ≡ 1)
            × (pkt : NetSimPacket) × ((delete_device_node n).packets_left ≡ pkt ∷ []))
unfolding delete_device_node stop_registration_timer delete_node_pimpl
delete_device_node_lem {w₀} {w} p n empty r e = (
  refl,
  (λ q. elim q [
    | inl st ↦
        let i : IsRegistering w p n = as_state w well p n e registering st in
        timers_by_state n false i.tx_rests
    | inr st ↦
        let i : IsActive w p n = as_state w well p n e active st in
        timers_by_state n false i.tx_rests
  ]),
  λ st.
      let i : IsTransmitting w p n = as_state w well p n e transmitting st in
      (timers_by_state n true i.tx_runs, i.packet.0, ap packet_list i.packet.1),
)
  where
    well : IsWell w
    well = Reach-IsWell empty r
