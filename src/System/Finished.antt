-- ===== src/System/Finished.antt =====
-- Collisions and finished transmissions keep the medium well.
use x6losim.Prelude.{
  ℕ, ◌≡◌, refl, sym, subst, ap, ◌∙◌, List, true, false, not, ◌&&◌, Option, none, some, contains,
  Distinct, keep, Bool-cases, inl, inr,
}
use x6losim.Store.{Medium, DeviceNode, NodeState, Kernel, registering, active, transmitting}
use x6losim.Timer.Laws.{stop-started}
use x6losim.Medium.Transmit.{retired}
use x6losim.Medium.TxOutcome.{is_over, retire, Outcome}
use x6losim.Medium.Channel.{collided, mark_node, mark_pkt}
use x6losim.System.{keys, find, InState, Slot, Points, IsWell}
use x6losim.System.Maps.{contains-keep, Distinct-keep}
use x6losim.System.Similar.{Same, one_node_at, similar-IsWell}

module _ (k : Kernel) (w w' : Medium) (o : Outcome k w w' w.tx_list)
    (left : w'.tx_list ≡ keep (λ p. not (is_over k p)) w.tx_list) where
  still_sending : (q : ℕ) → contains q w'.tx_list ≡ (contains q w.tx_list && not (is_over k q))
  still_sending q = ap (contains q) left ∙ contains-keep (λ p. not (is_over k p)) q w.tx_list

  -- A node that does not finish is as before.
  waits : (q : ℕ) → (contains q w.tx_list && is_over k q) ≡ false → w'.heap q ≡ w.heap q
  waits q h = o.heap_after q ∙ rw h refl

  finished_state :
      (q : ℕ) (n : DeviceNode) (s : NodeState)
      → n.cur_state ≡ s
      → w.heap q ≡ some n
      → InState s w q n
      → Slot w' q (w'.heap q)
  finished_state q n registering st e i =
      subst (Slot w' q) (sym (waits q (rw i.not_sending refl) ∙ e)) (
        subst (λ s. InState s w' q n) (sym st)
          (record {
            listed = ap (find n.socket) o.reg_after ∙ i.listed;
            not_mapped = ap (find n.socket) o.map_after ∙ i.not_mapped;
            has_medium = i.has_medium;
            reg_runs = i.reg_runs;
            tx_rests = i.tx_rests;
            not_sending = still_sending q ∙ rw i.not_sending refl;
            not_asking = ap (contains q) o.cca_after ∙ i.not_asking;
          }))
  finished_state q n active st e i = subst (Slot w' q) (sym (waits q (rw i.not_sending refl) ∙ e)) (
      subst (λ s. InState s w' q n) (sym st)
        (record {
          not_listed = ap (find n.socket) o.reg_after ∙ i.not_listed;
          mapped = ap (find n.socket) o.map_after ∙ i.mapped;
          has_medium = i.has_medium;
          tx_rests = i.tx_rests;
          not_sending = still_sending q ∙ rw i.not_sending refl;
        }))
  finished_state q n transmitting st e i = elim (Bool-cases (is_over k q)) [
    | inl over ↦
        let gone : w'.heap q ≡ some (retired n) =
          o.heap_after q ∙ (rw (i.sending, over) (ap retire e)) in
        subst (Slot w' q) (sym gone) (record {
          not_listed = ap (find n.socket) o.reg_after ∙ i.not_listed;
          mapped = ap (find n.socket) o.map_after ∙ i.mapped;
          has_medium = i.has_medium;
          tx_rests = stop-started n.tx_timer;
          not_sending = still_sending q ∙ rw (i.sending, over) refl;
        })
    | inr busy ↦ subst (Slot w' q) (sym (waits q (rw (i.sending, busy) refl) ∙ e)) (
        subst (λ s. InState s w' q n) (sym st)
          (record {
            not_listed = ap (find n.socket) o.reg_after ∙ i.not_listed;
            mapped = ap (find n.socket) o.map_after ∙ i.mapped;
            has_medium = i.has_medium;
            tx_runs = i.tx_runs;
            sending = still_sending q ∙ rw (i.sending, busy) refl;
            packet = i.packet;
          }))
  ]

  finished-Slot :
      (q : ℕ) (n : Option DeviceNode) → w.heap q ≡ n → Slot w q n → Slot w' q (w'.heap q)
  finished-Slot q none e (a, b) =
      subst (Slot w' q) (sym (waits q (rw a refl) ∙ e))
        (still_sending q ∙ rw a refl, ap (contains q) o.cca_after ∙ b)
  finished-Slot q (some n) e i = finished_state q n n.cur_state refl e i

  finished-Points : (key q : ℕ) → Points w.heap key q → Points w'.heap key q
  finished-Points key q (n, e, s) = elim (Bool-cases (contains q w.tx_list && is_over k q)) [
    | inl over ↦ (retired n, o.heap_after q ∙ rw over (ap retire e), s)
    | inr busy ↦ (n, waits q busy ∙ e, s)
  ]

  pub finished-IsWell : IsWell w → IsWell w'
  finished-IsWell h = record {
    slots = λ q. finished-Slot q (w.heap q) refl (h.slots q);
    reg_points =
        λ key q e. finished-Points key q (h.reg_points key q (sym (ap (find key) o.reg_after) ∙ e));
    map_points =
        λ key q e. finished-Points key q (h.map_points key q (sym (ap (find key) o.map_after) ∙ e));
    reg_keys = subst (λ m. Distinct (keys m)) (sym o.reg_after) h.reg_keys;
    map_keys = subst (λ m. Distinct (keys m)) (sym o.map_after) h.map_keys;
    tx_distinct =
        subst Distinct (sym left) (Distinct-keep (λ p. not (is_over k p)) w.tx_list h.tx_distinct);
  }

-- Packets that are marked as collided.
pub collided-IsWell :
    (w : Medium) (ps : List ℕ) → IsWell w → IsWell (record w { heap = collided ps w.heap })
collided-IsWell w ps =
    similar-IsWell w (record w { heap = collided ps w.heap })
      (record {
        still_gone = λ q e. elim (Bool-cases (contains q ps)) [
          | inl hit ↦ rw hit (ap mark_node e)
          | inr miss ↦ rw miss e
        ];
        still_there = λ q n e. elim (Bool-cases (contains q ps)) [
          | inl hit ↦ (record n { tx_pkt = mark_pkt n.tx_pkt }, rw hit (ap mark_node e), marked n)
          | inr miss ↦ (n, rw miss e, one_node_at n)
        ];
        same_listed = refl;
        same_mapped = refl;
        same_sending = refl;
        no_new_asking = λ q a. a;
      })
  where
    marked : (n : DeviceNode) → Same n (record n { tx_pkt = mark_pkt n.tx_pkt })
    marked n = record {
      same_socket = refl;
      same_state = refl;
      same_medium = refl;
      same_reg_timer = refl;
      same_tx_timer = refl;
      keeps_packet = λ pkt e. (record pkt { collision = true }, ap mark_pkt e);
    }
