-- ===== src/Checksum/Bounds.antt =====
-- The accumulator of `generate_checksum` stays in its `int`, and the result is a 16-bit word.
use x6losim.Prelude.{ℕ, ◌+◌, ◌*◌, ◌/◌, ◌%◌, ◌^◌, ◌≤◌, ◌<◌, ◌≡◌, List, [], ◌∷◌, arith, length}
use x6losim.Checksum.{IsBytes, sum_words, generate_checksum}

-- Two bytes add at most one full word, an odd byte at most 255.
sum_words-le :
    (acc : ℕ) (msg : List ℕ)
    → IsBytes msg
    → sum_words acc msg ≤ acc + length msg / 2 * 65535 + length msg % 2 * 255
unfolding sum_words
sum_words-le acc [] h = omega arith
sum_words-le acc (b ∷ []) h = omega arith
sum_words-le acc (lo ∷ hi ∷ rest) h = omega (arith, sum_words-le (acc + (lo + 256 * hi)) rest h.1.1)

-- For a message of bytes whose length fits the 16-bit length field, the sum of its words never
-- leaves the `int` that it is kept in, and no more does the sum with the carries folded in.
pub sum_words_fits_int :
    (msg : List ℕ)
    → IsBytes msg
    → length msg < 2 ^ 16
    → let sum = sum_words 0 msg in
      let once = sum / 65536 + sum % 65536 in (sum < 2 ^ 31) × (once + once / 65536 < 2 ^ 17)
sum_words_fits_int msg h short = omega (arith, sum_words-le 0 msg h)

pub generate_checksum-lt : (msg : List ℕ) → generate_checksum msg < 65536
unfolding generate_checksum
generate_checksum-lt msg = omega arith

-- The checksum of such a message is the complement of its word sum in ones' complement arithmetic:
-- the two add up to a multiple of 65535.
pub generate_checksum_complements :
    (msg : List ℕ)
    → IsBytes msg
    → length msg < 2 ^ 16
    → (sum_words 0 msg + generate_checksum msg) % 65535 ≡ 0
unfolding generate_checksum
generate_checksum_complements msg h short = omega (arith, sum_words-le 0 msg h)
