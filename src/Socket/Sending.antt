-- ===== src/Socket/Sending.antt =====
-- `sendMsg` of src/socket/Socket.cpp: what goes out, whatever parts the kernel takes.
use mathlib.Core.List.{append_assoc, append-nil}
use x6losim.Prelude.{
  ◌≤◌, ◌<◌, ◌⊎◌, ℕ, zero, suc, ◌+◌, ◌-◌, ◌≡◌, ◌∙◌, refl, sym, ap, List, [], ◌∷◌, ◌++◌, Bool, true,
  false, Option, none, some, ltb, inl, inr, arith, take, drop,
}
use x6losim.Socket.{SendAnswer, send_failed, took, SendResult, send_loop, send_msg}

-- How many bytes the kernel took before it failed, and whether it failed.
abbrev pub total : List SendAnswer → ℕ
total [] = 0
total (send_failed ∷ answers) = 0
total (took n ∷ answers) = n + total answers

abbrev pub fails : List SendAnswer → Bool
fails [] = false
fails (send_failed ∷ answers) = true
fails (took n ∷ answers) = fails answers

-- `send` takes at most what it is given.
abbrev pub Within : ℕ → List SendAnswer → Type 0
Within left [] = Unit {0}
Within left (send_failed ∷ answers) = Unit {0}
Within left (took n ∷ answers) = (n ≤ left) × Within (left - n) answers

take-nil : (k : ℕ) → ◌≡◌ {A = List ℕ} [] (take k [])
take-nil zero = refl
take-nil (suc k) = refl

take-split : (n k : ℕ) (m : List ℕ) → take n m ++ take k (drop n m) ≡ take (n + k) m
take-split zero k m = let e : k ≡ 0 + k = omega arith in ap (λ i. take i m) e
take-split (suc n) k [] = sym (take-nil k) ∙ take-nil (suc n + k)
take-split (suc n) k (x ∷ m) =
    let e : suc (n + k) ≡ suc n + k = omega arith in
    ap (◌∷◌ x) (take-split n k m) ∙ ap (λ i. take i (x ∷ m)) e

append-split :
    (out : List ℕ) (n k : ℕ) (m : List ℕ)
    → (out ++ take n m) ++ take k (drop n m) ≡ out ++ take (n + k) m
append-split out n k m =
    append_assoc out (take n m) (take k (drop n m)) ∙ ap (◌++◌ out) (take-split n k m)

Nat-cases : (n left : ℕ) → n ≤ left → (0 < left - n) ⊎ (n ≡ left)
Nat-cases n left h = ground arith

abbrev Outcome : List SendAnswer → List ℕ → ℕ → ℕ → List ℕ → Option SendResult → Type 0
Outcome answers m left bytes_sent out r =
    (left ≤ total answers
      → r ≡ some (record { returned = some (bytes_sent + left); out = out ++ take left m }))
    × (total answers < left
        → fails answers ≡ true
        → r ≡ some (record { returned = none; out = out ++ take (total answers) m }))
    × (total answers < left → fails answers ≡ false → r ≡ none)

send_loop_lem :
    (answers : List SendAnswer) (m : List ℕ) (left bytes_sent : ℕ) (out : List ℕ)
    → 0 < left
    → Within left answers
    → Outcome answers m left bytes_sent out (send_loop answers m left bytes_sent out)
unfolding send_loop
send_loop_lem [] m left b out pos h = (λ e. absurd (omega arith), λ _ f. cc, λ _ _. refl)
send_loop_lem (send_failed ∷ answers) m left b out pos h =
    (λ e. absurd (omega arith), λ _ _. rw (append-nil out) refl, λ _ f. cc)
send_loop_lem (took n ∷ answers) m left b out pos (h, hs) = elim (Nat-cases n left h) [
  | inl more ↦
      let (all, part, waits) =
        send_loop_lem answers (drop n m) (left - n) (b + n) (out ++ take n m) more hs in
      let goes_on : ltb 0 (left - n) ≡ true = ground arith in
      rw goes_on (
        λ e.
            let count : b + n + (left - n) ≡ b + left = omega arith in
            let whole : n + (left - n) ≡ left = omega arith in
            all (omega arith) ∙ rw (append-split out n (left - n) m, count, whole) refl,
        λ e f. part (omega arith) f ∙ rw (append-split out n (total answers) m) refl,
        λ e f. waits (omega arith) f,
      )
  | inr done ↦
      let stops : ltb 0 (left - n) ≡ false = ground arith in
      rw stops (
        λ e. ap (λ i. some (record { returned = some (b + i); out = out ++ take i m })) done,
        λ e f. absurd (omega arith),
        λ e f. absurd (omega arith),
      )
]

-- While the kernel takes at most what it is given: once the parts that it took make up a message that
-- is not empty, `sendMsg` returns its length, and exactly the message went out, in its order. If the
-- kernel fails before, `sendMsg` returns the negative result, and the part of the message that was
-- taken went out. Otherwise it asks again.
pub send_msg_lem :
    (answers : List SendAnswer) (msg : List ℕ) (msglen : ℕ)
    → 0 < msglen
    → Within msglen answers
    → (msglen ≤ total answers
        → send_msg answers msg msglen
          ≡ some (record { returned = some msglen; out = take msglen msg }))
      × (total answers < msglen
          → fails answers ≡ true
          → send_msg answers msg msglen
            ≡ some (record { returned = none; out = take (total answers) msg }))
      × (total answers < msglen → fails answers ≡ false → send_msg answers msg msglen ≡ none)
unfolding send_msg
send_msg_lem answers msg msglen pos h =
    let (all, part, waits) = send_loop_lem answers msg msglen 0 [] pos h in
    let count : 0 + msglen ≡ msglen = omega arith in (λ e. all e ∙ rw count refl, part, waits)
