-- ===== src/System/Protocol/Refine.antt =====
-- The handlers of src/sim/DeviceNode.cpp implement the specification.
use mathlib.Core.Path.{fun_ext}
use x6losim.Prelude.{
  ℕ, ◌≡◌, refl, sym, subst, ap, ◌∙◌, inl, inr, List, [], ◌∷◌, true, Option, none, some, contains,
}
use x6losim.Prelude.Fault.{Fault, ok, fail, dangling}
use x6losim.Store.{Medium, Kernel, DeviceNode, >>-ok, >>-fail}
use x6losim.Node.Transmission.{SetsTimers}
use x6losim.Reader.{dispatch}
use x6losim.System.{IsWell}
use x6losim.System.Handlers.{state_cases}
use x6losim.System.Protocol.{
  Phase, absent, joining, member, sender, Peer, Request, next_peer, Peers, with_peer, specified,
  is_tidy, IsProper, AreTidy, code_of, dispatched, phase_of, phase_of_state, view,
}
use x6losim.System.Protocol.Phases.{
  Refines, absent_fails, joining-Refines, member-Refines, sender-Refines,
}

-- One request, whatever the phase.
request-Refines :
    (k : Kernel) (w : Medium) (p : ℕ) (r : Request) (msg : List ℕ)
    → SetsTimers k
    → IsWell w
    → IsProper p r msg
    → is_tidy (view w p) r ≡ true
    → Refines k w p r msg (next_peer (view w p) r)
request-Refines k w p r msg sets h proper tidy = by_slot (w.heap p) refl
  where
    transported :
        (f : Phase)
        → phase_of (w.heap p) ≡ f
        → Refines k w p r msg (next_peer (record { phase = f; asks = contains p w.cca_list }) r)
        → Refines k w p r msg (next_peer (view w p) r)
    transported f e =
        subst
          (λ x.
            Refines k w p r msg (next_peer (record { phase = x; asks = contains p w.cca_list }) r))
          (sym e)

    tidy_in :
        (f : Phase)
        → phase_of (w.heap p) ≡ f
        → is_tidy (record { phase = f; asks = contains p w.cca_list }) r ≡ true
    tidy_in f e =
        subst (λ x. is_tidy (record { phase = x; asks = contains p w.cca_list }) r ≡ true) e tidy

    by_slot : (o : Option DeviceNode) → w.heap p ≡ o → Refines k w p r msg (next_peer (view w p) r)
    by_slot none e = transported absent (ap phase_of e) (dangling, absent_fails k w p r msg e)
    by_slot (some n) e = elim (state_cases n.cur_state) [
      | inl st ↦
          transported joining (ap phase_of e ∙ ap phase_of_state st)
            (joining-Refines k sets w h p n e r msg st proper)
      | inr (inl st) ↦
          let f : phase_of (w.heap p) ≡ member = ap phase_of e ∙ ap phase_of_state st in
          transported member f (member-Refines k sets w h p n e r msg st proper (tidy_in member f))
      | inr (inr st) ↦
          let f : phase_of (w.heap p) ≡ sender = ap phase_of e ∙ ap phase_of_state st in
          transported sender f (sender-Refines k sets w h p n e r msg st proper (tidy_in sender f))
    ]

-- A sequence, by what the specification says of it.
abbrev pub RefinesAll : Kernel → Medium → List (ℕ × Request × List ℕ) → Option Peers → Type 0
RefinesAll k w rs none = (f : Fault) × (dispatched k rs w ≡ fail f)
RefinesAll k w rs (some s) =
    (w' : Medium) × (dispatched k rs w ≡ ok (tt, w')) × IsWell w' × (view w' ≡ s)

-- A request that returned, before the rest of a sequence.
preceded :
    (k : Kernel) (w w' : Medium) (p : ℕ) (r : Request) (msg : List ℕ)
    (rs : List (ℕ × Request × List ℕ)) (o : Option Peers)
    → dispatch k p (code_of r) msg w ≡ ok (tt, w')
    → RefinesAll k w' rs o
    → RefinesAll k w ((p, r, msg) ∷ rs) o
unfolding dispatched
preceded k w w' p r msg rs none e (f, g) =
    (f, >>-ok (dispatch k p (code_of r) msg) (dispatched k rs) {w = w} e ∙ g)
preceded k w w' p r msg rs (some s) e (v, g, well, seen) =
    (v, >>-ok (dispatch k p (code_of r) msg) (dispatched k rs) {w = w} e ∙ g, well, seen)

continued :
    (k : Kernel) (w : Medium) (p : ℕ) (r : Request) (msg : List ℕ)
    (rs : List (ℕ × Request × List ℕ)) (o : Option Peer)
    → Refines k w p r msg o
    → ((x : Peer) → o ≡ some x → AreTidy (with_peer (view w) p x) rs)
    → ((w' : Medium)
        → IsWell w'
        → AreTidy (view w') rs
        → RefinesAll k w' rs (specified (view w') rs))
    → RefinesAll k w
        ((p, r, msg) ∷ rs)
        (elim o [ none ↦ none | some x ↦ specified (with_peer (view w) p x) rs ])
unfolding dispatched
continued k w p r msg rs none (f, e) rest again =
    (f, >>-fail (dispatch k p (code_of r) msg) (dispatched k rs) {w = w} e)
continued k w p r msg rs (some x) (w', e, well, views) rest again =
    let seen : view w' ≡ with_peer (view w) p x = fun_ext views in
    preceded k w w' p r msg rs (specified (with_peer (view w) p x) rs) e (
      subst (λ s. RefinesAll k w' rs (specified s rs)) seen
        (again w' well (subst (λ s. AreTidy s rs) (sym seen) (rest x refl))))

-- In a medium that is well, for every sequence of complete messages of any nodes in which none
-- leaves while it waits for an answer or transmits: where the specification comes to its end, so
-- does the code, in a medium that is well and has the phases and the waiting nodes that the
-- specification gives; where the specification refuses a request, the code fails.
pub dispatched_refines :
    (k : Kernel) (w : Medium) (rs : List (ℕ × Request × List ℕ))
    → SetsTimers k
    → IsWell w
    → AreTidy (view w) rs
    → RefinesAll k w rs (specified (view w) rs)
unfolding dispatched specified
dispatched_refines k w [] sets h tidy = (w, refl, h, refl)
dispatched_refines k w ((p, r, msg) ∷ rs) sets h (proper, orderly, rest) =
    continued k w p r msg rs (next_peer (view w p) r)
      (request-Refines k w p r msg sets h proper orderly) rest
      (λ w'. dispatched_refines k w' rs sets)
