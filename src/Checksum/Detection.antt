-- ===== src/Checksum/Detection.antt =====
-- What the checksum detects.
use x6losim.Prelude.{
  ℕ, ◌+◌, ◌*◌, ◌^◌, ◌%◌, ◌<◌, ◌≡◌, ◌≢◌, ◌⊎◌, inl, inr, ap, List, [], ◌∷◌, ◌++◌, arith, length,
  length-append,
}
use x6losim.Checksum.{IsBytes, sum_words, fold_carries, generate_checksum}
use x6losim.Checksum.Bounds.{sum_words_fits_int}

-- The place value of the byte behind `before`.
weight : List ℕ → ℕ
weight [] = 1
weight (b ∷ []) = 256
weight (lo ∷ hi ∷ rest) = weight rest

weight_cases : (before : List ℕ) → (weight before ≡ 1) ⊎ (weight before ≡ 256)
unfolding weight
weight_cases [] = omega arith
weight_cases (b ∷ []) = omega arith
weight_cases (lo ∷ hi ∷ rest) = weight_cases rest

sum_words_base : (a b : ℕ) (msg : List ℕ) → sum_words a msg + b ≡ sum_words b msg + a
unfolding sum_words
sum_words_base a b [] = omega arith
sum_words_base a b (x ∷ []) = omega arith
sum_words_base a b (lo ∷ hi ∷ rest) =
    omega (arith, sum_words_base (a + (lo + 256 * hi)) (b + (lo + 256 * hi)) rest)

-- Changing one byte moves the sum by its place value times the change.
sum_words_change :
    (acc x y : ℕ) (before after : List ℕ)
    → x < 256
    → y < 256
    → sum_words acc (before ++ x ∷ after) + weight before * y
      ≡ sum_words acc (before ++ y ∷ after) + weight before * x
unfolding sum_words weight
sum_words_change acc x y [] [] hx hy = omega arith
sum_words_change acc x y [] (b ∷ after) hx hy =
    omega (arith, sum_words_base (acc + (x + 256 * b)) (acc + (y + 256 * b)) after)
sum_words_change acc x y (b ∷ []) after hx hy =
    omega (arith, sum_words_base (acc + (b + 256 * x)) (acc + (b + 256 * y)) after)
sum_words_change acc x y (lo ∷ hi ∷ rest) after hx hy =
    sum_words_change (acc + (lo + 256 * hi)) x y rest after hx hy

byte_at : {x : ℕ} (before after : List ℕ) → IsBytes (before ++ x ∷ after) → x < 256
byte_at [] after h = h.0
byte_at (b ∷ before) after h = byte_at before after h.1

fold_carries_mod :
    (s t : ℕ) → s < 2 ^ 31 → t < 2 ^ 31 → fold_carries s ≡ fold_carries t → s % 65535 ≡ t % 65535
unfolding fold_carries
fold_carries_mod s t hs ht h = omega arith

-- Sums that differ by the change of one byte, times 1 or 256, are not congruent.
not_congruent :
    (s t w x y : ℕ)
    → x < 256
    → y < 256
    → x ≢ y
    → (w ≡ 1) ⊎ (w ≡ 256)
    → s + w * y ≡ t + w * x
    → s % 65535 ≢ t % 65535
not_congruent s t w x y hx hy ne (inl e) h m =
    omega (arith, ap (λ (k : ℕ). k * x) e, ap (λ (k : ℕ). k * y) e)
not_congruent s t w x y hx hy ne (inr e) h m =
    omega (arith, ap (λ (k : ℕ). k * x) e, ap (λ (k : ℕ). k * y) e)

-- Two messages of bytes, no longer than the length field can say, that differ in exactly one byte
-- have different checksums.
pub generate_checksum_detects :
    (before after : List ℕ) (x y : ℕ)
    → IsBytes (before ++ x ∷ after)
    → IsBytes (before ++ y ∷ after)
    → length (before ++ x ∷ after) < 2 ^ 16
    → x ≢ y
    → generate_checksum (before ++ x ∷ after) ≢ generate_checksum (before ++ y ∷ after)
unfolding generate_checksum
generate_checksum_detects before after x y hx hy short ne same =
    let bx = byte_at before after hx in
    let by = byte_at before after hy in
    let short' : length (before ++ y ∷ after) < 2 ^ 16 =
      omega (arith, length-append {0} before (x ∷ after), length-append {0} before (y ∷ after)) in
    not_congruent (sum_words 0 (before ++ x ∷ after)) (sum_words 0 (before ++ y ∷ after))
      (weight before) x y bx by ne (weight_cases before) (sum_words_change 0 x y before after bx by)
      (fold_carries_mod _ _ (sum_words_fits_int _ hx short).0 (sum_words_fits_int _ hy short').0
        same)
