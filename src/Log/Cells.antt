-- ===== src/Log/Cells.antt =====
-- The columns of a line of the hex dump, and how the buffers hold them.
use mathlib.Core.List.{append_assoc, append-nil}
use x6losim.Prelude.{
  ℕ, suc, ◌+◌, ◌-◌, ◌*◌, ◌%◌, ◌^◌, ◌<◌, ◌≡◌, ◌⊎◌, inl, inr, refl, sym, ap, ◌∙◌, List, [], ◌∷◌, ◌++◌,
  map, Option, none, some, length, length-append, drop, length-drop, All, arith,
}
use x6losim.Prelude.Fault.{ok, ◌>>=◌}
use x6losim.Log.{put, sprintf_at, Row, Dump, hex_of, shown, dots, write_cell, print_row}
use x6losim.Log.Buffer.{put-prefix, sprintf_at-prefix, put-behind, c_string-prefix}

-- A column shows a byte or, before the first and behind the last, none.
abbrev pub Cell : Type 0
Cell = Option ℕ

abbrev pub cell_hex : Cell → List ℕ
cell_hex none = dots
cell_hex (some b) = hex_of b

abbrev pub cell_char : Cell → ℕ
cell_char none = 32
cell_char (some b) = shown b

unfoldable pub hex_text : List Cell → List ℕ
hex_text [] = []
hex_text (c ∷ cells) = cell_hex c ++ hex_text cells

unfoldable pub row_of : ℕ → List Cell → Row
unfolding hex_text
row_of addr cells = record {
  row_start_addr = addr;
  hex_text = hex_text cells;
  char_text = map cell_char cells;
}

pub length-hex_text : (cells : List Cell) → length (hex_text cells) ≡ 3 * length cells
unfolding hex_text
length-hex_text [] = refl
length-hex_text (none ∷ cells) = omega (arith, length-hex_text cells)
length-hex_text (some b ∷ cells) = omega (arith, length-hex_text cells)

hex_text-append :
    (cells : List Cell) (c : Cell) → hex_text (cells ++ c ∷ []) ≡ hex_text cells ++ cell_hex c
unfolding hex_text
hex_text-append [] c = append-nil (cell_hex c)
hex_text-append (d ∷ cells) c =
    ap (λ t. cell_hex d ++ t) (hex_text-append cells c)
    ∙ sym (append_assoc (cell_hex d) (hex_text cells) (cell_hex c))

map-append_one :
    (cells : List Cell) (c : Cell)
    → map cell_char (cells ++ c ∷ []) ≡ map cell_char cells ++ cell_char c ∷ []
map-append_one [] c = refl
map-append_one (d ∷ cells) c = ap (◌∷◌ (cell_char d)) (map-append_one cells c)

pub length-map_char : (cells : List Cell) → length (map cell_char cells) ≡ length cells
length-map_char [] = refl
length-map_char (c ∷ cells) = omega (arith, length-map_char cells)

-- No character of the texts is 0.
All-append : (xs ys : List ℕ) → All (◌<◌ 0) xs → All (◌<◌ 0) ys → All (◌<◌ 0) (xs ++ ys)
All-append [] ys h g = g
All-append (x ∷ xs) ys (h, hs) g = (h, All-append xs ys hs g)

cell_hex_positive : (c : Cell) → All (◌<◌ 0) (cell_hex c)
cell_hex_positive none = (omega arith, (omega arith, (omega arith, tt)))
cell_hex_positive (some b) = (ground arith, (ground arith, (omega arith, tt)))

hex_text_positive : (cells : List Cell) → All (◌<◌ 0) (hex_text cells)
unfolding hex_text
hex_text_positive [] = tt
hex_text_positive (c ∷ cells) =
    All-append (cell_hex c) (hex_text cells) (cell_hex_positive c) (hex_text_positive cells)

char_text_positive : (cells : List Cell) → All (◌<◌ 0) (map cell_char cells)
char_text_positive [] = tt
char_text_positive (none ∷ cells) = (omega arith, char_text_positive cells)
char_text_positive (some b ∷ cells) = (ground arith, char_text_positive cells)

-- The buffers hold the columns of a line that is begun; the hex text is ended by a 0.
pub record Buffers (cells : List Cell) (s : Dump) : Type 0 where
  pub wr : s.hex_wr ≡ length (hex_text cells)
  pub hex_rest : List ℕ
  pub hex_holds : s.hex_buff ≡ hex_text cells ++ hex_rest
  pub hex_size : length s.hex_buff ≡ 81
  pub ended : (cells ≡ []) ⊎ ((rest : List ℕ) × (hex_rest ≡ 0 ∷ rest))
  pub char_rest : List ℕ
  pub char_holds : s.char_buff ≡ map cell_char cells ++ char_rest
  pub char_size : length s.char_buff ≡ 17

-- What the writes of a line leave alone.
pub record Beside (s s' : Dump) : Type 0 where
  pub same_column : s'.column ≡ s.column
  pub same_addr : s'.next_addr ≡ s.next_addr
  pub same_rows : s'.rows ≡ s.rows

non_empty :
    (n : ℕ) (rest : List ℕ) → length rest ≡ suc n → (r : ℕ) × (rest' : List ℕ) × (rest ≡ r ∷ rest')
non_empty n [] h = absurd (omega arith)
non_empty n (r ∷ rest) h = (r, rest, refl)

length-cell_hex : (c : Cell) → length (cell_hex c) ≡ 3
length-cell_hex none = refl
length-cell_hex (some b) = refl

module _ (cells : List Cell) (s : Dump) (h : Buffers cells s) where
  hex_left : length h.hex_rest + 3 * length cells ≡ 81
  hex_left = omega (
    arith,
    length-append {0} (hex_text cells) h.hex_rest,
    length-hex_text cells,
    ap length h.hex_holds,
    h.hex_size,
  )

  char_left : length h.char_rest + length cells ≡ 17
  char_left = omega (
    arith,
    length-append {0} (map cell_char cells) h.char_rest,
    length-map_char cells,
    ap length h.char_holds,
    h.char_size,
  )

  -- A cell is written inside the buffers.
  pub write_cell-Buffers :
      (c : Cell)
      → length cells < 16
      → (s' : Dump) × (write_cell (length cells) (cell_hex c) (cell_char c) s ≡ ok s')
        × Buffers (cells ++ c ∷ []) s'
        × Beside s s'
  unfolding write_cell
  write_cell-Buffers c small =
      let (r, rest, e) = non_empty (16 - length cells) h.char_rest (omega (arith, char_left)) in
      let left = drop (suc (length (cell_hex c))) h.hex_rest in
      let hex' = hex_text cells ++ (cell_hex c ++ 0 ∷ left) in
      let char' = map cell_char cells ++ cell_char c ∷ rest in
      let s' : Dump = record s {
        hex_buff = hex';
        char_buff = char';
        hex_wr = s.hex_wr + length (cell_hex c);
      } in
      let hex_written : sprintf_at s.hex_wr (cell_hex c) s.hex_buff ≡ ok hex' =
        ap (λ i. sprintf_at i (cell_hex c) s.hex_buff) h.wr
        ∙ (ap (sprintf_at (length (hex_text cells)) (cell_hex c)) h.hex_holds
            ∙ sprintf_at-prefix (hex_text cells) (cell_hex c) h.hex_rest
                (omega (arith, hex_left, length-cell_hex c))) in
      let char_written : put (length cells) (cell_char c) s.char_buff ≡ ok char' =
        ap (λ i. put i (cell_char c) s.char_buff) (sym (length-map_char cells))
        ∙ (ap (put (length (map cell_char cells)) (cell_char c))
              (h.char_holds ∙ ap (λ t. map cell_char cells ++ t) e)
            ∙ put-prefix (map cell_char cells) r (cell_char c) rest) in
      (
        s',
        rw (hex_written, ◌>>=◌) (rw (char_written, ◌>>=◌) refl),
        record {
          wr = omega (
            arith,
            h.wr,
            ap length (hex_text-append cells c),
            length-append {0} (hex_text cells) (cell_hex c),
          );
          hex_rest = 0 ∷ left;
          hex_holds =
              sym (append_assoc (hex_text cells) (cell_hex c) (0 ∷ left))
              ∙ ap (λ t. t ++ 0 ∷ left) (sym (hex_text-append cells c));
          hex_size = omega (
            arith,
            length-append {0} (hex_text cells) (cell_hex c ++ 0 ∷ left),
            length-append {0} (cell_hex c) (0 ∷ left),
            length-hex_text cells,
            length-cell_hex c,
            length-drop {0} (suc (length (cell_hex c))) h.hex_rest,
            hex_left,
          );
          ended = inr (left, refl);
          char_rest = rest;
          char_holds =
              sym (append_assoc (map cell_char cells) (cell_char c ∷ []) rest)
              ∙ ap (λ t. t ++ rest) (sym (map-append_one cells c));
          char_size = omega (
            arith,
            length-append {0} (map cell_char cells) (cell_char c ∷ rest),
            length-map_char cells,
            char_left,
            ap length e,
          );
        },
        record { same_column = refl; same_addr = refl; same_rows = refl },
      )

  -- A full line is printed as its two texts, and the buffers are free again.
  pub print_row-Buffers :
      length cells ≡ 16
      → (s' : Dump) × (print_row s ≡ ok s')
        × Buffers [] s'
        × (s'.column ≡ 0)
        × (s'.next_addr ≡ (s.next_addr + 16) % 2 ^ 64)
        × (s'.rows ≡ s.rows ++ row_of s.next_addr cells ∷ [])
  unfolding print_row row_of hex_text
  print_row-Buffers full = elim h.ended [
    | inl nothing ↦ absurd (omega (arith, ap length nothing))
    | inr (rest, e) ↦
        let held : s.hex_buff ≡ hex_text cells ++ 0 ∷ rest =
          h.hex_holds ∙ ap (λ t. hex_text cells ++ t) e in
        let (rest', hex_put, same) =
          put-behind (hex_text cells) 0 80 0 rest (omega (arith, length-hex_text cells))
            (omega (arith, ap length held, h.hex_size)) in
        let (r, more, f) = non_empty 0 h.char_rest (omega (arith, char_left)) in
        let hex' = hex_text cells ++ 0 ∷ rest' in
        let char' = map cell_char cells ++ 0 ∷ more in
        let ended_hex : put 80 0 s.hex_buff ≡ ok hex' = ap (put 80 0) held ∙ hex_put in
        let ended_char : put 16 0 s.char_buff ≡ ok char' =
          ap (λ i. put i 0 s.char_buff) (sym full ∙ sym (length-map_char cells))
          ∙ (ap (put (length (map cell_char cells)) 0)
                (h.char_holds ∙ ap (λ t. map cell_char cells ++ t) f)
              ∙ put-prefix (map cell_char cells) r 0 more) in
        (
          _,
          rw (ended_hex, ◌>>=◌) (rw (ended_char, ◌>>=◌) refl),
          record {
            wr = refl;
            hex_rest = hex';
            hex_holds = refl;
            hex_size = omega (
              arith,
              length-append {0} (hex_text cells) (0 ∷ rest'),
              length-append {0} (hex_text cells) (0 ∷ rest),
              same,
              ap length held,
              h.hex_size,
            );
            ended = inl refl;
            char_rest = char';
            char_holds = refl;
            char_size = omega (
              arith,
              length-append {0} (map cell_char cells) (0 ∷ more),
              length-map_char cells,
              char_left,
              ap length f,
            );
          },
          refl,
          refl,
          λ i.
              s.rows
              ++ record {
                row_start_addr = s.next_addr;
                hex_text = c_string-prefix (hex_text cells) rest' (hex_text_positive cells) i;
                char_text = c_string-prefix (map cell_char cells) more (char_text_positive cells) i;
              }
                ∷ [],
        )
  ]
