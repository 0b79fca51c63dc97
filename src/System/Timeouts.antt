-- ===== src/System/Timeouts.antt =====
-- `checkNodeRegistrationTimeout` of src/sim/PhysicalMedium.cpp in a medium that is well.
use mathlib.Core.List.{append_assoc}
use x6losim.Prelude.{
  ℕ, ◌≡◌, refl, sym, subst, ap, ◌∙◌, List, [], ◌∷◌, ◌++◌, map, Bool, true, false, not, ◌&&◌, none,
  some, ◌==◌, ==_iff, ==_refl, contains, Distinct, keep, All, arith, if◌then◌else◌, Bool-cases, inl,
  inr,
}
use x6losim.Prelude.Fault.{Result, ok}
use x6losim.Store.{
  Medium, DeviceNode, NodeState, Kernel, registering, active, transmitting, ◌>>=◌, ◌>>◌, deref,
  lift, update,
}
use x6losim.Timer.{expired}
use x6losim.Membership.{erase_key}
use x6losim.Node.{state_reg_timer_expired, transition, handle_reg_timer_expired}
use x6losim.Medium.{registration_loop, check_node_registration_timeout}
use x6losim.System.{find, keys, InState, IsWell}
use x6losim.System.Change.{in_state}
use x6losim.System.Membership.{unlisted-IsWell}

-- The kernel answers for the registration timer of a node, and says that nothing is left on it.
abbrev pub AnswersReg : Kernel → ℕ × ℕ → Type 0
AnswersReg k e = (sec : ℕ) × (nsec : ℕ) × (k.reg_left e.1 ≡ some (sec, nsec))

abbrev pub is_late : Kernel → ℕ × ℕ → Bool
is_late k e = elim (k.reg_left e.1) [ none ↦ false | some (sec, nsec) ↦ sec == 0 && nsec == 0 ]

-- The nodes of the late entries.
abbrev pub late_nodes : Kernel → List (ℕ × ℕ) → List ℕ
late_nodes k es = map (λ e. e.1) (keep (is_late k) es)

contains-middle :
    (key : ℕ) (before after : List (ℕ × ℕ)) (p : ℕ)
    → contains key (keys (before ++ (key, p) ∷ after)) ≡ true
contains-middle key [] after p = rw (==_refl key) refl
contains-middle key ((k, q) ∷ before) after p = ground (arith, contains-middle key before after p)

-- Another entry's key, where the keys are distinct.
keys_differ :
    (k key : ℕ) (before after : List (ℕ × ℕ)) (p : ℕ)
    → contains k (keys (before ++ (key, p) ∷ after)) ≡ false
    → (k == key) ≡ false
keys_differ k key before after p d = ground (
  arith,
  contains-middle k before after p,
  ==_iff k key,
  λ (e : key ≡ k).
      subst (λ x. contains k (keys (before ++ (x, p) ∷ after)) ≡ true) (sym e)
        (contains-middle k before after p),
)

erase_key_absent :
    (key : ℕ) (m : List (ℕ × ℕ)) → contains key (keys m) ≡ false → erase_key key m ≡ m
unfolding erase_key
erase_key_absent key [] h = refl
erase_key_absent key ((k, p) ∷ m) h = ground (arith, erase_key_absent key m)

erase_key-middle :
    (key : ℕ) (before after : List (ℕ × ℕ)) (p : ℕ)
    → Distinct (keys (before ++ (key, p) ∷ after))
    → erase_key key (before ++ (key, p) ∷ after) ≡ before ++ after
unfolding erase_key
erase_key-middle key [] after p d = rw (==_refl key) (erase_key_absent key after d.0)
erase_key-middle key ((k, q) ∷ before) after p d =
    rw (keys_differ k key before after p d.0)
      (ap (◌∷◌ (k, q)) (erase_key-middle key before after p d.1))

find-middle :
    (key : ℕ) (before after : List (ℕ × ℕ)) (p : ℕ)
    → Distinct (keys (before ++ (key, p) ∷ after))
    → find key (before ++ (key, p) ∷ after) ≡ some p
find-middle key [] after p d = rw (==_refl key) refl
find-middle key ((k, q) ∷ before) after p d =
    rw (keys_differ k key before after p d.0) (find-middle key before after p d.1)

-- A node that the registration list holds is registering.
listed_state :
    (w : Medium) (p : ℕ) (n : DeviceNode) (s : NodeState)
    → InState s w p n
    → find n.socket w.reg_list_map ≡ some p
    → (s ≡ registering) × (n.reg_timer.started ≡ true)
listed_state w p n registering i f = (refl, i.reg_runs)
listed_state w p n active i f = absurd (let none_there = i.not_listed in cc)
listed_state w p n transmitting i f = absurd (let none_there = i.not_listed in cc)

timer_lem :
    (k : Kernel) (e : ℕ × ℕ) (n : DeviceNode)
    → n.reg_timer.started ≡ true
    → AnswersReg k e
    → expired (k.reg_left e.1) n.reg_timer ≡ Result.ok (is_late k e)
unfolding expired
timer_lem k e n running (sec, nsec, a) = ground (arith, a, running)

expired_handler :
    (p : ℕ) (n : DeviceNode) (w : Medium)
    → w.heap p ≡ some n
    → n.cur_state ≡ registering
    → handle_reg_timer_expired p w ≡ ok (tt, record w { heap = update w.heap p none })
unfolding handle_reg_timer_expired state_reg_timer_expired transition
expired_handler p n w e st = rw (e, deref, ◌>>=◌, st) refl

-- What the loop over `es` makes of the medium.
pub record Expiry (k : Kernel) (w w' : Medium) (es : List (ℕ × ℕ)) : Type 0 where
  pub nodes_after : (q : ℕ) → w'.heap q ≡ (if contains q (late_nodes k es) then none else w.heap q)
  pub rest_after : w' ≡ record w { heap = w'.heap; reg_list_map = w'.reg_list_map }

-- One round of the loop.
module _ (k : Kernel) (key p : ℕ) (rest passed : List (ℕ × ℕ)) (w : Medium) (n : DeviceNode)
    (e : w.heap p ≡ some n) (s : n.socket ≡ key) (running : n.reg_timer.started ≡ true)
    (a : AnswersReg k (key, p)) where
  loop_keeps :
      is_late k (key, p) ≡ false
      → registration_loop k passed ((key, p) ∷ rest) w
        ≡ registration_loop k (passed ++ (key, p) ∷ []) rest w
  unfolding registration_loop
  loop_keeps l =
      let keyed : (n.socket == key) ≡ true = (==_iff n.socket key).1 s in
      rw (e, deref, ◌>>=◌, keyed, timer_lem k (key, p) n running a, lift, l) refl

  loop_deletes :
      n.cur_state ≡ registering
      → is_late k (key, p) ≡ true
      → registration_loop k passed ((key, p) ∷ rest) w
        ≡ registration_loop k passed rest
            (record w { reg_list_map = passed ++ rest; heap = update w.heap p none })
  unfolding registration_loop
  loop_deletes st l =
      let keyed : (n.socket == key) ≡ true = (==_iff n.socket key).1 s in
      let deleted = expired_handler p n (record w { reg_list_map = passed ++ rest }) e st in
      rw (e, deref, ◌>>=◌, keyed, timer_lem k (key, p) n running a, lift, l, deleted, ◌>>◌) refl

record Head (w : Medium) (key p : ℕ) (rest passed : List (ℕ × ℕ)) : Type 0 where
  node : DeviceNode
  there : w.heap p ≡ some node
  own_key : node.socket ≡ key
  is_registering : node.cur_state ≡ registering
  running : node.reg_timer.started ≡ true
  next_well : IsWell (record w { reg_list_map = passed ++ rest; heap = update w.heap p none })

-- The node of the entry that the loop has come to.
first_entry :
    (w : Medium) (key p : ℕ) (rest passed : List (ℕ × ℕ))
    → IsWell w
    → w.reg_list_map ≡ passed ++ (key, p) ∷ rest
    → Head w key p rest passed
first_entry w key p rest passed h l =
    let d : Distinct (keys (passed ++ (key, p) ∷ rest)) =
      subst (λ m. Distinct (keys m)) l h.reg_keys in
    let found : find key w.reg_list_map ≡ some p =
      ap (find key) l ∙ find-middle key passed rest p d in
    let (n, e, s) = h.reg_points key p found in
    let listed =
      listed_state w p n n.cur_state (in_state w h p n e)
        (ap (λ x. find x w.reg_list_map) s ∙ found) in
    let erased : erase_key n.socket w.reg_list_map ≡ passed ++ rest =
      ap (λ x. erase_key x w.reg_list_map) s
      ∙ (ap (erase_key key) l ∙ erase_key-middle key passed rest p d) in
    record {
      node = n;
      there = e;
      own_key = s;
      is_registering = listed.0;
      running = listed.1;
      next_well =
          subst (λ m. IsWell (record w { reg_list_map = m; heap = update w.heap p none })) erased
            (unlisted-IsWell w h p n e listed.0);
    }

registration_loop_lem :
    (k : Kernel) (es passed : List (ℕ × ℕ)) (w : Medium)
    → IsWell w
    → w.reg_list_map ≡ passed ++ es
    → All (AnswersReg k) es
    → (w' : Medium) × (registration_loop k passed es w ≡ ok (tt, w'))
      × (w'.reg_list_map ≡ passed ++ keep (λ e. not (is_late k e)) es)
      × Expiry k w w' es
      × IsWell w'
registration_loop_lem k [] passed w h l a = (
  w,
  unfold registration_loop in refl,
  l,
  record { nodes_after = λ q. refl; rest_after = refl },
  h,
)
registration_loop_lem k ((key, p) ∷ rest) passed w h l a =
    let at = first_entry w key p rest passed h l in
    elim (Bool-cases (is_late k (key, p))) [
      | inl late ↦
          let v : Medium = record w {
            reg_list_map = passed ++ rest;
            heap = update w.heap p none;
          } in
          let (w', run, left, o, well) =
            registration_loop_lem k rest passed v at.next_well refl a.1 in
          (
            w',
            loop_deletes k key p rest passed w at.node at.there at.own_key at.running a.0
                  at.is_registering late
                ∙ run,
            rw late left,
            record {
              nodes_after = λ q. ground (arith, o.nodes_after q, late);
              rest_after = o.rest_after;
            },
            well,
          )
      | inr early ↦
          let (w', run, left, o, well) =
            registration_loop_lem k rest (passed ++ (key, p) ∷ []) w h
              (l ∙ sym (append_assoc passed ((key, p) ∷ []) rest)) a.1 in
          (
            w',
            loop_keeps k key p rest passed w at.node at.there at.own_key at.running a.0 early ∙ run,
            rw early
                (left ∙ append_assoc passed ((key, p) ∷ []) (keep (λ e. not (is_late k e)) rest)),
            record {
              nodes_after = λ q. ground (arith, o.nodes_after q, early);
              rest_after = o.rest_after;
            },
            well,
          )
    ]

-- In a medium that is well, with the kernel's answers for the timers of the nodes that register,
-- `checkNodeRegistrationTimeout` succeeds. Exactly the nodes of the registration list whose timers
-- have nothing left are deleted, and with them their entries; the other entries keep their order,
-- nothing else changes, and the medium is well afterwards.
pub check_node_registration_timeout_lem :
    (k : Kernel) (w : Medium)
    → IsWell w
    → All (AnswersReg k) w.reg_list_map
    → (w' : Medium) × (check_node_registration_timeout k w ≡ ok (tt, w'))
      × (w'.reg_list_map ≡ keep (λ e. not (is_late k e)) w.reg_list_map)
      × Expiry k w w' w.reg_list_map
      × IsWell w'
unfolding check_node_registration_timeout
check_node_registration_timeout_lem k w h a = registration_loop_lem k w.reg_list_map [] w h refl a
