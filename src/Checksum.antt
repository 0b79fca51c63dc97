-- ===== src/Checksum.antt =====
-- `generate_checksum` of src/sim/DeviceNode.cpp (test/nodesim/common.cpp has the same function). A
-- message is the list of its bytes; the host is little endian. The accumulator is exact here: that
-- the source's `int` holds it is a theorem of the child `Bounds`.
pub mod Bounds
pub mod Detection
mod Tests
use x6losim.Prelude.{ℕ, ◌+◌, ◌-◌, ◌*◌, ◌/◌, ◌%◌, ◌<◌, List, [], ◌∷◌, All}

abbrev pub IsBytes : List ℕ → Type 0
IsBytes = All (λ b. b < 256)

-- The two bytes of a 16-bit word, exchanged.
abbrev pub swap16 : ℕ → ℕ
swap16 x = x % 256 * 256 + x / 256 % 256

-- The loop over 16-bit words, and the odd byte behind it.
unfoldable pub sum_words : ℕ → List ℕ → ℕ
sum_words cksum [] = cksum
sum_words cksum (b ∷ []) = cksum + swap16 (b * 256)
sum_words cksum (lo ∷ hi ∷ rest) = sum_words (cksum + (lo + 256 * hi)) rest

-- The carries come back in twice, and the result is the complement of the low 16 bits.
fold_carries : ℕ → ℕ
fold_carries cksum =
    let once = cksum / 65536 + cksum % 65536 in
    let again = once + once / 65536 in 65535 - again % 65536

unfoldable pub generate_checksum : List ℕ → ℕ
unfolding sum_words fold_carries
generate_checksum msg = fold_carries (sum_words 0 msg)
