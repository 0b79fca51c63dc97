-- ===== src/Log/HexDump.antt =====
-- What can be read from the lines of a hex dump.
use mathlib.Core.List.{append_assoc, append-nil}
use x6losim.Prelude.{
  ℕ, zero, suc, ◌+◌, ◌-◌, ◌*◌, ◌/◌, ◌%◌, ◌^◌, ◌<◌, ◌≤◌, ◌≡◌, inl, inr, refl, sym, ap, ◌∙◌, List, [],
  ◌∷◌, ◌++◌, true, false, Bool-cases, none, some, length, length-append, replicate, All, arith, leb,
  ltb, ◌==◌, if◌then◌else◌,
}
use x6losim.Prelude.Fault.{ok}
use x6losim.Log.{Row, xlog_hexdump, hex_digit}
use x6losim.Log.Cells.{Cell, hex_text, row_of, length-hex_text, length-map_char}
use x6losim.Log.Rows.{layout, hexdump_layout, length-replicate, length-append_one}

-- A reader of the hex texts: three characters for a byte, and dots for none.
abbrev pub digit_value : ℕ → ℕ
digit_value c = if ltb c 65 then c - 48 else c - 55

abbrev pub read_hex : List ℕ → List ℕ
read_hex (a ∷ b ∷ _ ∷ s) =
    let rest = read_hex s in if a == 46 then rest else (16 * digit_value a + digit_value b) ∷ rest
read_hex _ = []

abbrev pub read_back : List Row → List ℕ
read_back [] = []
read_back (r ∷ rows) = read_hex r.hex_text ++ read_back rows

-- The lines show consecutive addresses, 16 columns each.
abbrev pub Ruled : ℕ → List Row → Type 0
Ruled addr [] = Unit {0}
Ruled addr (r ∷ rows) =
    (r.row_start_addr ≡ addr)
    × (length r.hex_text ≡ 48)
    × (length r.char_text ≡ 16)
    × Ruled ((addr + 16) % 2 ^ 64) rows

abbrev IsByte : ℕ → Type 0
IsByte b = b < 256

abbrev IsShown : Cell → Type 0
IsShown none = Unit {0}
IsShown (some b) = b < 256

bytes_in : List Cell → List ℕ
bytes_in [] = []
bytes_in (none ∷ cells) = bytes_in cells
bytes_in (some b ∷ cells) = b ∷ bytes_in cells

digit_back : (d : ℕ) → d < 16 → digit_value (hex_digit d) ≡ d
digit_back d h = ground arith

read_hex-hex_text :
    (cells : List Cell) → All IsShown cells → read_hex (hex_text cells) ≡ bytes_in cells
unfolding hex_text bytes_in
read_hex-hex_text [] h = refl
read_hex-hex_text (none ∷ cells) (_, hs) = read_hex-hex_text cells hs
read_hex-hex_text (some b ∷ cells) (h, hs) =
    let digit : (hex_digit (b % 256 / 16) == 46) ≡ false = ground arith in
    let value : 16 * digit_value (hex_digit (b % 256 / 16)) + digit_value (hex_digit (b % 16)) ≡ b =
      omega
        (arith, digit_back (b % 256 / 16) (omega arith), digit_back (b % 16) (omega arith), h) in
    rw digit (λ i. value i ∷ read_hex-hex_text cells hs i)

bytes_in-append : (xs ys : List Cell) → bytes_in (xs ++ ys) ≡ bytes_in xs ++ bytes_in ys
unfolding bytes_in
bytes_in-append [] ys = refl
bytes_in-append (none ∷ xs) ys = bytes_in-append xs ys
bytes_in-append (some b ∷ xs) ys = ap (◌∷◌ b) (bytes_in-append xs ys)

bytes_in-none : (n : ℕ) → bytes_in (replicate n none) ≡ []
unfolding bytes_in
bytes_in-none zero = refl
bytes_in-none (suc n) = bytes_in-none n

append-IsShown : (xs ys : List Cell) → All IsShown xs → All IsShown ys → All IsShown (xs ++ ys)
append-IsShown [] ys h g = g
append-IsShown (x ∷ xs) ys (h, hs) g = (h, append-IsShown xs ys hs g)

none-IsShown : (n : ℕ) → All IsShown (replicate n none)
none-IsShown zero = tt
none-IsShown (suc n) = (tt, none-IsShown n)

-- What the lines of a layout say, from the columns of the first on.
record Reads (addr : ℕ) (cells : List Cell) (bs : List ℕ) (rows : List Row) : Type 0 where
  reads : read_back rows ≡ bytes_in cells ++ bs
  ruled : Ruled addr rows
  enough : length cells + length bs ≤ 16 * length rows
  no_more : 16 * length rows < length cells + length bs + 16

no_bytes : (cells : List Cell) → (length cells == 0) ≡ true → bytes_in cells ≡ []
unfolding bytes_in
no_bytes [] h = refl
no_bytes (c ∷ cells) h = absurd (ground arith)

-- The text of a line reads as its bytes.
row_reads :
    (cells : List Cell) (n : ℕ)
    → All IsShown cells
    → read_hex (hex_text (cells ++ replicate n none)) ≡ bytes_in cells
row_reads cells n h =
    read_hex-hex_text (cells ++ replicate n none)
      (append-IsShown cells (replicate n none) h (none-IsShown n))
    ∙ (bytes_in-append cells (replicate n none)
        ∙ (ap (λ t. bytes_in cells ++ t) (bytes_in-none n) ∙ append-nil (bytes_in cells)))

layout-Reads :
    (bs : List ℕ) (cells : List Cell) (addr : ℕ)
    → length cells < 16
    → All IsShown cells
    → All IsByte bs
    → Reads addr cells bs (layout addr cells bs)
unfolding layout row_of bytes_in
layout-Reads [] cells addr small h g = elim (Bool-cases (length cells == 0)) [
  | inl empty ↦ rw empty (record {
    reads = sym (append-nil (bytes_in cells) ∙ no_bytes cells empty);
    ruled = tt;
    enough = ground arith;
    no_more = ground arith;
  })
  | inr begun ↦
      let pad : List Cell = replicate (16 - length cells) none in
      let full : length (cells ++ pad) ≡ 16 =
        omega (arith, length-append {0} cells pad, length-replicate (16 - length cells), small) in
      rw begun (record {
        reads = ap (λ t. t ++ []) (row_reads cells (16 - length cells) h);
        ruled = (
          refl,
          omega (arith, length-hex_text (cells ++ pad), full),
          length-map_char (cells ++ pad) ∙ full,
          tt,
        );
        enough = omega (arith, small);
        no_more = ground arith;
      })
]
layout-Reads (b ∷ bs) cells addr small h (g, gs) =
    let cells' : List Cell = cells ++ some b ∷ [] in
    let with_b : bytes_in cells' ≡ bytes_in cells ++ b ∷ [] = bytes_in-append cells (some b ∷ []) in
    let shown' : All IsShown cells' = append-IsShown cells (some b ∷ []) h (g, tt) in
    let longer = length-append_one cells (some b) in
    elim (Bool-cases (leb 16 (suc (length cells)))) [
      | inl last ↦
          let rest = layout-Reads bs [] ((addr + 16) % 2 ^ 64) (omega arith) tt gs in
          let full : length cells' ≡ 16 = ground (arith, longer, small, last) in
          rw last (record {
            reads =
                (λ i. (read_hex-hex_text cells' shown' ∙ with_b) i ++ rest.reads i)
                ∙ append_assoc (bytes_in cells) (b ∷ []) bs;
            ruled = (
              refl,
              omega (arith, length-hex_text cells', full),
              length-map_char cells' ∙ full,
              rest.ruled,
            );
            enough = omega (arith, rest.enough, longer, full);
            no_more = omega (arith, rest.no_more, longer, full);
          })
      | inr room ↦
          let small' : length cells' < 16 = ground (arith, longer, room) in
          let rest = layout-Reads bs cells' addr small' shown' gs in
          rw room (record {
            reads =
                rest.reads ∙ (ap (λ t. t ++ bs) with_b ∙ append_assoc (bytes_in cells) (b ∷ []) bs);
            ruled = rest.ruled;
            enough = omega (arith, rest.enough, longer);
            no_more = omega (arith, rest.no_more, longer);
          })
    ]

-- With buffers of the sizes that the function allocates and a priority that is logged, the dump of any
-- bytes at any address stays inside its buffers. Reading the hex texts of its lines back gives the bytes,
-- in their order. The lines show consecutive addresses from the multiple of 16 at or below the first
-- byte's on, with 48 characters of hex text and 16 others each, and there are just as many as hold the
-- bytes with the columns before the first.
pub hexdump_lem :
    (loglevel pri : ℕ) (bytes : List ℕ) (print_address : ℕ) (hex chars : List ℕ)
    → pri ≤ loglevel
    → length hex ≡ 81
    → length chars ≡ 17
    → All (λ b. b < 256) bytes
    → (rows : List Row) × (xlog_hexdump loglevel pri bytes print_address hex chars ≡ ok rows)
      × (read_back rows ≡ bytes)
      × Ruled (print_address - print_address % 16) rows
      × (print_address % 16 + length bytes ≤ 16 * length rows)
      × (16 * length rows < print_address % 16 + length bytes + 16)
hexdump_lem loglevel pri bytes print_address hex chars logs hex_size char_size are_bytes =
    let n = print_address % 16 in
    let counted = length-replicate n in
    let r =
      layout-Reads bytes (replicate n none) (print_address - n) (omega (arith, counted))
        (none-IsShown n) are_bytes in
    (
      layout (print_address - n) (replicate n none) bytes,
      hexdump_layout loglevel pri bytes print_address hex chars logs hex_size char_size,
      r.reads ∙ ap (λ t. t ++ bytes) (bytes_in-none n),
      r.ruled,
      omega (arith, r.enough, counted),
      omega (arith, r.no_more, counted),
    )
