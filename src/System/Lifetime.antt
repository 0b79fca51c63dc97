-- ===== src/System/Lifetime.antt =====
-- The destructor of a medium: every node is deleted, and each once.
use x6losim.Prelude.{
  ℕ, ◌≡◌, refl, sym, ap, subst, ◌∙◌, List, [], ◌∷◌, true, false, Option, none, some, ◌==◌, ==_iff,
  ==_refl, Bool-cases, Option-cases, inl, inr, contains, Distinct, All, arith,
}
use x6losim.Prelude.Fault.{ok}
use x6losim.Clock.{Timespec}
use x6losim.Medium.Construction.{MediumAnswers, new_medium}
use x6losim.System.Construction.{new_medium-IsEmpty}
use x6losim.System.Steps.{Reach, Reach-IsWell}
use x6losim.Store.{MediumKind, Medium, DeviceNode, ◌>>=◌, ◌>>◌, >>-ok, deref, update}
use x6losim.Membership.{contains_key}
use x6losim.Medium.Destruction.{set_listed, set_mapped, delete_nodes, delete_medium}
use x6losim.System.{keys, find, Points, IsWell}
use x6losim.System.Maps.{contains-keys, contains_key_of_some}
use x6losim.System.Change.{place, in_state}

abbrev PointsAll : (ℕ → Option DeviceNode) → List (ℕ × ℕ) → Type 0
PointsAll heap = All (λ e. Points heap e.0 e.1)

-- What is found by a key is true of every entry.
each_entry :
    (P : ℕ → ℕ → Type 0) (m : List (ℕ × ℕ))
    → Distinct (keys m)
    → ((key p : ℕ) → find key m ≡ some p → P key p)
    → All (λ e. P e.0 e.1) m
each_entry P [] d h = tt
each_entry P ((k, q) ∷ m) d h = (
  h k q (rw (==_refl k) refl),
  each_entry P m d.1 (λ key p e. elim (Bool-cases (k == key)) [
    | inl same ↦
        let there : contains_key key m ≡ true = contains_key_of_some key p m e in
        let here : contains key (keys m) ≡ false =
          subst (λ x. contains x (keys m) ≡ false) ((==_iff k key).0 same) d.0 in
        let both : false ≡ true = sym here ∙ (contains-keys key m ∙ there) in cc
    | inr other ↦ h key p (rw other e)
  ]),
)

-- Two identifiers of one node.
one_socket :
    (heap : ℕ → Option DeviceNode) (p : ℕ) (n n' : DeviceNode) (k key : ℕ)
    → heap p ≡ some n
    → heap p ≡ some n'
    → n.socket ≡ key
    → n'.socket ≡ k
    → k ≡ key
one_socket heap p n n' k key e e' s s' =
    let same : n' ≡ n = cc in sym s' ∙ (ap (λ x. x.socket) same ∙ s)

-- The entries with other keys point to nodes that stay.
targets_elsewhere :
    (heap : ℕ → Option DeviceNode) (key p : ℕ) (m : List (ℕ × ℕ))
    → Points heap key p
    → contains key (keys m) ≡ false
    → PointsAll heap m
    → PointsAll (update heap p none) m
targets_elsewhere heap key p [] here new h = tt
targets_elsewhere heap key p ((k, q) ∷ m) (n, e, s) new ((n', e', s'), hs) = (
  elim (Bool-cases (p == q)) [
    | inl same ↦
        let there : heap p ≡ some n' = ap heap ((==_iff p q).0 same) ∙ e' in
        let keyed : k ≡ key = one_socket heap p n n' k key e there s s' in absurd (ground arith)
    | inr other ↦ (n', rw other e', s')
  ],
  targets_elsewhere heap key p m (n, e, s) (ground arith) hs,
)

-- What is left of the nodes after the loop.
record Deleted (es : List (ℕ × ℕ)) (heap heap' : ℕ → Option DeviceNode) : Type 0 where
  gone : (q : ℕ) → heap q ≡ none → heap' q ≡ none
  deleted : (q : ℕ) (n : DeviceNode) → heap q ≡ some n → find n.socket es ≡ some q → heap' q ≡ none
  left : (q : ℕ) (n : DeviceNode) → heap q ≡ some n → find n.socket es ≡ none → heap' q ≡ some n

-- One more entry in front.
Deleted-cons :
    (heap heap' : ℕ → Option DeviceNode) (key p : ℕ) (rest : List (ℕ × ℕ)) (n : DeviceNode)
    → heap p ≡ some n
    → n.socket ≡ key
    → Deleted rest (update heap p none) heap'
    → Deleted ((key, p) ∷ rest) heap heap'
Deleted-cons heap heap' key p rest n e s o = record {
  gone = λ q f.
      o.gone q (elim (Bool-cases (p == q)) [ inl same ↦ rw same refl | inr other ↦ rw other f ]);
  deleted = λ q m f g. elim (Bool-cases (p == q)) [
    | inl same ↦ o.gone q (rw same refl)
    | inr other ↦ o.deleted q m (rw other f) (elim (Bool-cases (key == m.socket)) [
      | inl hit ↦
          let found : some p ≡ some q = sym (rw hit refl) ∙ g in
          let meet : p ≡ q = cc in absurd (ground (arith, ==_iff p q))
      | inr miss ↦ sym (rw miss refl) ∙ g
    ])
  ];
  left = λ q m f g. elim (Bool-cases (key == m.socket)) [
    | inl hit ↦ let found : some p ≡ none = sym (rw hit refl) ∙ g in cc
    | inr miss ↦ elim (Bool-cases (p == q)) [
      | inl same ↦
          let there : heap p ≡ some m = ap heap ((==_iff p q).0 same) ∙ f in
          let keyed : m.socket ≡ key = one_socket heap p n m m.socket key e there s refl in
          absurd (ground (arith, ==_iff key m.socket))
      | inr other ↦ o.left q m (rw other f) (sym (rw miss refl) ∙ g)
    ]
  ];
}

module _ (set : List (ℕ × ℕ) → Medium → Medium)
    (keeps : (m : List (ℕ × ℕ)) (w : Medium) → (set m w).heap ≡ w.heap) where
  -- The state after the loop.
  emptied : List (ℕ × ℕ) → Medium → Medium
  emptied [] w = w
  emptied ((key, p) ∷ rest) w =
      emptied rest (record (set rest w) { heap = update (set rest w).heap p none })

  emptied-Deleted :
      (es : List (ℕ × ℕ)) (w : Medium)
      → Distinct (keys es)
      → PointsAll w.heap es
      → (delete_nodes set es w ≡ ok (tt, emptied es w)) × Deleted es w.heap (emptied es w).heap
  unfolding delete_nodes emptied
  emptied-Deleted [] w d h =
      (refl, record { gone = λ q e. e; deleted = λ q n e f. cc; left = λ q n e f. e })
  emptied-Deleted ((key, p) ∷ rest) w d ((n, e, s), hs) =
      let v : Medium = record (set rest w) { heap = update (set rest w).heap p none } in
      let alike : v.heap ≡ update w.heap p none = ap (λ f. update f p none) (keeps rest w) in
      let later = targets_elsewhere w.heap key p rest (n, e, s) d.0 hs in
      let (goes, o) =
        emptied-Deleted rest v d.1 (subst (λ f. PointsAll f rest) (sym alike) later) in
      let keyed : (n.socket == key) ≡ true = (==_iff n.socket key).1 s in
      (
        rw (e, deref, ◌>>=◌, keyed, ◌>>◌) goes,
        Deleted-cons w.heap (emptied rest v).heap key p rest n e s
            (subst (λ f. Deleted rest f (emptied rest v).heap) alike o),
      )

listed_emptied :
    (es : List (ℕ × ℕ)) (w : Medium)
    → w.reg_list_map ≡ es
    → let v = emptied set_listed (λ m w. refl) es w in
      (v.reg_list_map ≡ []) × (v.node_hash_map ≡ w.node_hash_map)
unfolding emptied
listed_emptied [] w e = (e, refl)
listed_emptied ((key, p) ∷ rest) w e =
    listed_emptied rest (record w { reg_list_map = rest; heap = update w.heap p none }) refl

mapped_emptied :
    (es : List (ℕ × ℕ)) (w : Medium)
    → w.node_hash_map ≡ es
    → let v = emptied set_mapped (λ m w. refl) es w in
      (v.node_hash_map ≡ []) × (v.reg_list_map ≡ w.reg_list_map)
unfolding emptied
mapped_emptied [] w e = (e, refl)
mapped_emptied ((key, p) ∷ rest) w e =
    mapped_emptied rest (record w { node_hash_map = rest; heap = update w.heap p none }) refl

-- Nothing is left of a medium's nodes.
pub record IsDestroyed (w : Medium) : Type 0 where
  pub no_nodes : (p : ℕ) → w.heap p ≡ none
  pub no_listed : w.reg_list_map ≡ []
  pub no_mapped : w.node_hash_map ≡ []

module _ (w : Medium) (h : IsWell w) where
  -- A registered node is in the one map only.
  mapped_alone :
      (p : ℕ) (n : DeviceNode)
      → w.heap p ≡ some n
      → find n.socket w.node_hash_map ≡ some p
      → find n.socket w.reg_list_map ≡ none
  mapped_alone p n e f = elim (place w p n n.cur_state (in_state w h p n e)) [
    | inl (a, b) ↦ cc
    | inr (a, b) ↦ a
  ]

  none_left :
      (heap heap' : ℕ → Option DeviceNode) (es : List (ℕ × ℕ))
      → Deleted w.reg_list_map w.heap heap
      → Deleted es heap heap'
      → es ≡ w.node_hash_map
      → (p : ℕ) → heap' p ≡ none
  none_left heap heap' es o o' same p = elim (Option-cases (w.heap p)) [
    | inl e ↦ o'.gone p (o.gone p e)
    | inr (n, e) ↦ elim (place w p n n.cur_state (in_state w h p n e)) [
      | inl (a, b) ↦ o'.gone p (o.deleted p n e a)
      | inr (a, b) ↦ o'.deleted p n (o.left p n e a) (ap (find n.socket) same ∙ b)
    ]
  ]

  delete_medium-IsWell : (w' : Medium) × (delete_medium w ≡ ok (tt, w')) × IsDestroyed w'
  unfolding delete_medium
  delete_medium-IsWell =
      let v = emptied set_listed (λ m w. refl) w.reg_list_map w in
      let (goes, o) =
        emptied-Deleted set_listed (λ m w. refl) w.reg_list_map w h.reg_keys
          (each_entry (Points w.heap) w.reg_list_map h.reg_keys h.reg_points) in
      let (no_listed, same) = listed_emptied w.reg_list_map w refl in
      let es = v.node_hash_map in
      let distinct : Distinct (keys es) = subst (λ m. Distinct (keys m)) (sym same) h.map_keys in
      let w' = emptied set_mapped (λ m w. refl) es v in
      let (goes_on, o') =
        emptied-Deleted set_mapped (λ m w. refl) es v distinct
          (each_entry (Points v.heap) es distinct (λ key p f.
            let g = sym (ap (find key) same) ∙ f in
            let (n, e, s) = h.map_points key p g in
            (n, o.left p n e (mapped_alone p n e (ap (λ x. find x w.node_hash_map) s ∙ g)), s))) in
      let (no_mapped, still) = mapped_emptied es v refl in
      (
        w',
        >>-ok (λ u. delete_nodes set_listed u.reg_list_map u)
              (λ u. delete_nodes set_mapped u.node_hash_map u) {w = w} goes
            ∙ goes_on,
        record {
          no_nodes = none_left v.heap w'.heap es o o' same;
          no_listed = still ∙ no_listed;
          no_mapped = no_mapped;
        },
      )

-- From a constructor that returns, and behind any steps of Step (in which no node is deleted while it
-- is on one of the two lists), the destructor of a medium succeeds: it deletes every node that there
-- is, none of them twice, and both maps are empty afterwards.
pub medium_lifetime :
    (kind : MediumKind) (found : Timespec) (a : MediumAnswers) {w₀ w : Medium}
    → new_medium kind found a ≡ ok w₀
    → Reach w₀ w
    → (w' : Medium) × (delete_medium w ≡ ok (tt, w')) × IsDestroyed w'
medium_lifetime kind found a {w = w} made run =
    delete_medium-IsWell w (Reach-IsWell (new_medium-IsEmpty kind found a made) run)
