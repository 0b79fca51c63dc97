-- ===== src/Wire/Order.antt =====
-- Byte order: a number survives the way into memory and back, and through two swaps.
use mathlib.Core.Path.{ap}
use native.Mathlib.Nat.{pow-suc}
use x6losim.Prelude.{
  ℕ, zero, suc, ◌+◌, ◌*◌, ◌/◌, ◌%◌, ◌<◌, ◌^◌, ◌≡◌, refl, List, [], ◌∷◌, ◌++◌, length, arith,
}
use x6losim.Checksum.{IsBytes}
use x6losim.Wire.{bytes_le, value_le, rev_onto, byte_swap}

pub value_le-bytes_le : (k x : ℕ) → x < 256 ^ k → value_le (bytes_le k x) ≡ x
unfolding value_le bytes_le
value_le-bytes_le zero x h = omega arith
value_le-bytes_le (suc k) x h =
    let p = pow-suc 256 k in
    let small : x / 256 < 256 ^ k = omega arith in
    omega (arith, value_le-bytes_le k (x / 256) small)

pub length-bytes_le : (k x : ℕ) → length (bytes_le k x) ≡ k
unfolding bytes_le
length-bytes_le zero x = refl
length-bytes_le (suc k) x = ap suc (length-bytes_le k (x / 256))

pub bytes_le-IsBytes : (k x : ℕ) → IsBytes (bytes_le k x)
unfolding bytes_le
bytes_le-IsBytes zero x = tt
bytes_le-IsBytes (suc k) x = (omega arith, bytes_le-IsBytes k (x / 256))

value_le-lt : (bs : List ℕ) → IsBytes bs → value_le bs < 256 ^ length bs
unfolding value_le
value_le-lt [] h = omega arith
value_le-lt (b ∷ bs) h = omega (arith, pow-suc 256 (length bs), value_le-lt bs h.1, h.0)

bytes_le-value_le : (bs : List ℕ) → IsBytes bs → bytes_le (length bs) (value_le bs) ≡ bs
unfolding bytes_le value_le
bytes_le-value_le [] h = refl
bytes_le-value_le (b ∷ bs) h =
    let q : (b + 256 * value_le bs) / 256 ≡ value_le bs = omega (arith, h.0) in
    let r : (b + 256 * value_le bs) % 256 ≡ b = omega (arith, h.0) in
    rw (r, q) (ap (◌∷◌ b) (bytes_le-value_le bs h.1))

rev_onto-IsBytes : (bs acc : List ℕ) → IsBytes bs → IsBytes acc → IsBytes (rev_onto bs acc)
unfolding rev_onto
rev_onto-IsBytes [] acc h k = k
rev_onto-IsBytes (b ∷ bs) acc h k = rev_onto-IsBytes bs (b ∷ acc) h.1 (h.0, k)

length-rev_onto : (bs acc : List ℕ) → length (rev_onto bs acc) ≡ length bs + length acc
unfolding rev_onto
length-rev_onto [] acc = omega arith
length-rev_onto (b ∷ bs) acc = omega (arith, length-rev_onto bs (b ∷ acc))

rev_onto-rev_onto :
    (bs acc more : List ℕ) → rev_onto (rev_onto bs acc) more ≡ rev_onto acc (bs ++ more)
unfolding rev_onto
rev_onto-rev_onto [] acc more = refl
rev_onto-rev_onto (b ∷ bs) acc more = rev_onto-rev_onto bs (b ∷ acc) more

pub byte_swap-lt : (k x : ℕ) → byte_swap k x < 256 ^ k
unfolding byte_swap
byte_swap-lt k x =
    let n : length (rev_onto (bytes_le k x) []) ≡ k =
      omega (arith, length-rev_onto (bytes_le k x) [], length-bytes_le k x) in
    rw n at (
      value_le-lt (rev_onto (bytes_le k x) [])
        (rev_onto-IsBytes (bytes_le k x) [] (bytes_le-IsBytes k x) tt))

append-nil : (bs : List ℕ) → bs ++ [] ≡ bs
append-nil [] = refl
append-nil (b ∷ bs) = ap (◌∷◌ b) (append-nil bs)

-- The byte order functions undo themselves on every number of their width, and stay in it.
pub byte_swap-byte_swap : (k x : ℕ) → x < 256 ^ k → byte_swap k (byte_swap k x) ≡ x
unfolding byte_swap rev_onto
byte_swap-byte_swap k x h =
    let there = rev_onto (bytes_le k x) [] in
    let n : length there ≡ k =
      omega (arith, length-rev_onto (bytes_le k x) [], length-bytes_le k x) in
    let are : IsBytes there = rev_onto-IsBytes (bytes_le k x) [] (bytes_le-IsBytes k x) tt in
    let e : bytes_le k (value_le there) ≡ there = rw n at (bytes_le-value_le there are) in
    rw (e, rev_onto-rev_onto (bytes_le k x) [] [], append-nil) (value_le-bytes_le k x h)
