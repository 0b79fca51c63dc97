-- ===== src/Checksum/Tests.antt =====
-- Runs of the checksum, and the theorems at concrete messages.
use x6losim.Prelude.{ℕ, ◌<◌, ◌^◌, ◌≡◌, ◌≢◌, refl, List, [], ◌∷◌, arith}
use x6losim.Checksum.{sum_words, generate_checksum}
use x6losim.Checksum.Bounds.{sum_words_fits_int}
use x6losim.Checksum.Detection.{generate_checksum_detects}

abbrev odd_message : List ℕ
odd_message = 0xff ∷ 0xff ∷ 0x34 ∷ 0x12 ∷ 0x05 ∷ []

odd_checksum : generate_checksum odd_message ≡ 0xedc6
unfolding generate_checksum
odd_checksum = refl

sum_words_fits_int_example : sum_words 0 odd_message < 2 ^ 31
sum_words_fits_int_example = (sum_words_fits_int odd_message (omega arith) (omega arith)).0

generate_checksum_detects_example :
    generate_checksum (0xff ∷ 0xff ∷ 0x34 ∷ []) ≢ generate_checksum (0xff ∷ 0xfe ∷ 0x34 ∷ [])
generate_checksum_detects_example =
    generate_checksum_detects (0xff ∷ []) (0x34 ∷ []) 0xff 0xfe (omega arith) (omega arith)
      (omega arith) (omega arith)
