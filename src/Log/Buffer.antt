-- ===== src/Log/Buffer.antt =====
-- Texts in a buffer.
use mathlib.Core.List.{append_assoc}
use x6losim.Prelude.{
  ℕ, zero, suc, ◌<◌, ◌≡◌, refl, sym, ap, ◌∙◌, List, [], ◌∷◌, ◌++◌, length, length-append,
  length-set, set, drop, All, ltb, arith, true,
}
use x6losim.Prelude.Fault.{ok, ◌>>=◌}
use x6losim.Log.{put, sprintf_at, c_string}

put-ok : (i v : ℕ) (buf : List ℕ) → i < length buf → put i v buf ≡ ok (set buf i v)
unfolding put
put-ok i v buf h = let inside : ltb i (length buf) ≡ true = ground arith in rw inside refl

set-prefix :
    (text : List ℕ) (r v : ℕ) (rest : List ℕ)
    → set (text ++ r ∷ rest) (length text) v ≡ text ++ v ∷ rest
set-prefix [] r v rest = refl
set-prefix (t ∷ text) r v rest = ap (◌∷◌ t) (set-prefix text r v rest)

-- A store behind a text.
pub put-prefix :
    (text : List ℕ) (r v : ℕ) (rest : List ℕ)
    → put (length text) v (text ++ r ∷ rest) ≡ ok (text ++ v ∷ rest)
put-prefix text r v rest =
    put-ok (length text) v (text ++ r ∷ rest) (omega (arith, length-append {0} text (r ∷ rest)))
    ∙ ap ok (set-prefix text r v rest)

pub sprintf_at-prefix :
    (text s rest : List ℕ)
    → length s < length rest
    → sprintf_at (length text) s (text ++ rest) ≡ ok (text ++ (s ++ 0 ∷ drop (suc (length s)) rest))
unfolding sprintf_at
sprintf_at-prefix text [] [] h = absurd (omega arith)
sprintf_at-prefix text [] (r ∷ rest) h = put-prefix text r 0 rest
sprintf_at-prefix text (c ∷ s) [] h = absurd (omega arith)
sprintf_at-prefix text (c ∷ s) (r ∷ rest) h =
    let longer : suc (length text) ≡ length (text ++ c ∷ []) =
      omega (arith, length-append {0} text (c ∷ [])) in
    rw (put-prefix text r c rest, ◌>>=◌)
      (ap (λ b. sprintf_at (suc (length text)) s b) (sym (append_assoc text (c ∷ []) rest))
        ∙ (ap (λ i. sprintf_at i s ((text ++ c ∷ []) ++ rest)) longer
            ∙ (sprintf_at-prefix (text ++ c ∷ []) s rest (omega arith)
                ∙ ap ok (append_assoc text (c ∷ []) (s ++ 0 ∷ drop (suc (length s)) rest)))))

set-behind :
    (text : List ℕ) (r i v : ℕ) (rest : List ℕ)
    → length text < i
    → (rest' : List ℕ) × (set (text ++ r ∷ rest) i v ≡ text ++ r ∷ rest')
      × (length rest' ≡ length rest)
set-behind [] r zero v rest h = absurd (omega arith)
set-behind [] r (suc i) v rest h = (set rest i v, refl, length-set {0} rest i v)
set-behind (t ∷ text) r zero v rest h = absurd (omega arith)
set-behind (t ∷ text) r (suc i) v rest h =
    let (rest', e, l) = set-behind text r i v rest (omega arith) in (rest', ap (◌∷◌ t) e, l)

-- A store behind a text that is ended.
pub put-behind :
    (text : List ℕ) (r i v : ℕ) (rest : List ℕ)
    → length text < i
    → i < length (text ++ r ∷ rest)
    → (rest' : List ℕ) × (put i v (text ++ r ∷ rest) ≡ ok (text ++ r ∷ rest'))
      × (length rest' ≡ length rest)
put-behind text r i v rest h g =
    let (rest', e, l) = set-behind text r i v rest h in
    (rest', put-ok i v (text ++ r ∷ rest) g ∙ ap ok e, l)

pub c_string-prefix : (text rest : List ℕ) → All (◌<◌ 0) text → c_string (text ++ 0 ∷ rest) ≡ text
unfolding c_string
c_string-prefix [] rest h = refl
c_string-prefix (zero ∷ text) rest (h, hs) = absurd (omega arith)
c_string-prefix (suc t ∷ text) rest (h, hs) = ap (◌∷◌ (suc t)) (c_string-prefix text rest hs)
