-- ===== src/System/Maps.antt =====
-- The operations on `unordered_map` as functions of the key.
use x6losim.Prelude.{
  ℕ, ◌≡◌, refl, List, [], ◌∷◌, ◌++◌, Bool, true, false, ◌||◌, none, some, ◌==◌, ==_iff,
  if◌then◌else◌, arith, contains, Distinct, keep, not, ◌&&◌, Bool-cases, inl, inr, ap, sym, subst,
  ◌∙◌,
}
use x6losim.Membership.{contains_key, insert, erase_key}
use x6losim.System.{find, keys}

pub contains_key_of_some :
    (key p : ℕ) (m : List (ℕ × ℕ)) → find key m ≡ some p → contains_key key m ≡ true
unfolding contains_key
contains_key_of_some key p [] h = cc
contains_key_of_some key p ((k, q) ∷ m) h = ground (arith, contains_key_of_some key p m)

pub contains_key_of_none :
    (key : ℕ) (m : List (ℕ × ℕ)) → find key m ≡ none → contains_key key m ≡ false
unfolding contains_key
contains_key_of_none key [] h = refl
contains_key_of_none key ((k, q) ∷ m) h = ground (arith, contains_key_of_none key m)

pub find-insert :
    (key p j : ℕ) (m : List (ℕ × ℕ))
    → find key m ≡ none
    → find j (insert key p m) ≡ (if key == j then some p else find j m)
unfolding insert
find-insert key p j m h = ground (arith, contains_key_of_none key m h)

pub find-erase_key :
    (key j : ℕ) (m : List (ℕ × ℕ))
    → find j (erase_key key m) ≡ (if key == j then none else find j m)
unfolding erase_key
find-erase_key key j [] = ground arith
find-erase_key key j ((k, q) ∷ m) =
    ground (arith, find-erase_key key j m, ==_iff k key, ==_iff k j, ==_iff key j)

-- A pointer that is added at the end of a list.
pub contains-append_one :
    (q p : ℕ) (ps : List ℕ) → contains q (ps ++ p ∷ []) ≡ (contains q ps || p == q)
contains-append_one q p [] = ground arith
contains-append_one q p (x ∷ ps) = ground (arith, contains-append_one q p ps)

pub Distinct-append_one :
    (p : ℕ) (ps : List ℕ) → contains p ps ≡ false → Distinct ps → Distinct (ps ++ p ∷ [])
Distinct-append_one p [] h d = (refl, tt)
Distinct-append_one p (x ∷ ps) h d = (
  ground (arith, contains-append_one x p ps, ==_iff x p, ==_iff p x, d.0),
  Distinct-append_one p ps (ground arith) d.1,
)

pub contains-keep :
    (f : ℕ → Bool) (q : ℕ) (ps : List ℕ) → contains q (keep f ps) ≡ (contains q ps && f q)
contains-keep f q [] = refl
contains-keep f q (x ∷ ps) = elim (Bool-cases (x == q)) [
  | inl same ↦
      let at_q : f x ≡ f q = ap f ((==_iff x q).0 same) in
      ground (arith, contains-keep f q ps, same, at_q)
  | inr other ↦ ground (arith, contains-keep f q ps, other)
]

pub Distinct-keep : (f : ℕ → Bool) (ps : List ℕ) → Distinct ps → Distinct (keep f ps)
Distinct-keep f [] d = tt
Distinct-keep f (x ∷ ps) d = elim (Bool-cases (f x)) [
  | inl kept ↦ rw kept (contains-keep f x ps ∙ rw d.0 refl, Distinct-keep f ps d.1)
  | inr dropped ↦ rw dropped (Distinct-keep f ps d.1)
]

pub contains-keys : (key : ℕ) (m : List (ℕ × ℕ)) → contains key (keys m) ≡ contains_key key m
unfolding contains_key
contains-keys key [] = refl
contains-keys key ((k, p) ∷ m) = ground (arith, contains-keys key m)

keys-erase_key :
    (key : ℕ) (m : List (ℕ × ℕ)) → keys (erase_key key m) ≡ keep (λ k. not (k == key)) (keys m)
unfolding erase_key
keys-erase_key key [] = refl
keys-erase_key key ((k, p) ∷ m) = ground (arith, keys-erase_key key m)

pub Distinct-erase_key :
    (key : ℕ) (m : List (ℕ × ℕ)) → Distinct (keys m) → Distinct (keys (erase_key key m))
Distinct-erase_key key m d =
    subst Distinct (sym (keys-erase_key key m)) (Distinct-keep (λ k. not (k == key)) (keys m) d)

pub Distinct-insert :
    (key p : ℕ) (m : List (ℕ × ℕ))
    → find key m ≡ none
    → Distinct (keys m)
    → Distinct (keys (insert key p m))
unfolding insert
Distinct-insert key p m h d =
    let new : contains_key key m ≡ false = contains_key_of_none key m h in
    rw new (contains-keys key m ∙ new, d)
