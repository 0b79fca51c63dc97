-- ===== src/Log/Rows.antt =====
-- The loops of the hex dump: which lines they make.
use mathlib.Core.List.{append_assoc, append-nil}
use x6losim.Prelude.{
  ℕ, zero, suc, ◌+◌, ◌-◌, ◌%◌, ◌^◌, ◌<◌, ◌≤◌, ◌≡◌, inl, inr, refl, sym, ap, subst, ◌∙◌, List, [],
  ◌∷◌, ◌++◌, true, false, Bool-cases, none, some, length, length-append, replicate, arith, leb,
  ◌==◌, if◌then◌else◌,
}
use x6losim.Prelude.Fault.{Result, ok, fail, ◌>>=◌}
use x6losim.Log.{
  Row, Dump, hex_of, shown, dots, write_cell, print_row, lead_in, dump_bytes, lead_out, last_row,
  xlog_hexdump,
}
use x6losim.Log.Cells.{
  Cell, hex_text, row_of, Buffers, Beside, write_cell-Buffers, print_row-Buffers,
}

pub length-append_one :
    (cells : List Cell) (c : Cell) → length (cells ++ c ∷ []) ≡ suc (length cells)
length-append_one cells c = omega (arith, length-append {0} cells (c ∷ []))

-- The lines: 16 columns each, the last filled up.
unfoldable pub layout : ℕ → List Cell → List ℕ → List Row
unfolding row_of
layout addr cells [] =
    if length cells == 0 then [] else row_of addr (cells ++ replicate (16 - length cells) none) ∷ []
layout addr cells (b ∷ bs) =
    let next = layout ((addr + 16) % 2 ^ 64) [] bs in
    let same = layout addr (cells ++ some b ∷ []) bs in
    if leb 16 (suc (length cells)) then row_of addr (cells ++ some b ∷ []) ∷ next else same

-- A line is begun, and the dump stands behind its columns.
record Begun (cells : List Cell) (s : Dump) : Type 0 where
  buffers : Buffers cells s
  at_column : s.column ≡ length cells
  has_room : length cells < 16

-- The column moves on.
moved-Buffers :
    (cells : List Cell) (c : ℕ) (s : Dump)
    → Buffers cells s
    → Buffers cells (record s { column = c })
moved-Buffers cells c s h = record {
  wr = h.wr;
  hex_rest = h.hex_rest;
  hex_holds = h.hex_holds;
  hex_size = h.hex_size;
  ended = h.ended;
  char_rest = h.char_rest;
  char_holds = h.char_holds;
  char_size = h.char_size;
}

lead_in_lem :
    (n : ℕ) (cells : List Cell) (s : Dump)
    → Begun cells s
    → n + length cells < 16
    → (s' : Dump) × (lead_in n s ≡ ok s')
      × Begun (cells ++ replicate n none) s'
      × (s'.next_addr ≡ s.next_addr)
      × (s'.rows ≡ s.rows)
unfolding lead_in
lead_in_lem zero cells s h small =
    (s, refl, subst (λ c. Begun c s) (sym (append-nil cells)) h, refl, refl)
lead_in_lem (suc n) cells s h small =
    let (s', e, b, o) = write_cell-Buffers cells s h.buffers none h.has_room in
    let cells' : List Cell = cells ++ none ∷ [] in
    let moved : Dump = record s' { column = suc s.column } in
    let begun : Begun cells' moved = record {
      buffers = moved-Buffers cells' (suc s.column) s' b;
      at_column = ap suc h.at_column ∙ sym (length-append_one cells none);
      has_room = omega (arith, length-append_one cells none);
    } in
    let (t, run, d, a, r) =
      lead_in_lem n cells' moved begun (omega (arith, length-append_one cells none)) in
    (
      t,
      rw (ap (λ i. write_cell i dots 32 s) h.at_column ∙ e, ◌>>=◌) run,
      subst (λ c. Begun c t) (append_assoc cells (none ∷ []) (replicate n none)) d,
      a ∙ o.same_addr,
      r ∙ o.same_rows,
    )

lead_out_lem :
    (n : ℕ) (cells : List Cell) (s : Dump)
    → Buffers cells s
    → n + length cells ≡ 16
    → (s' : Dump) × (lead_out n (length cells) s ≡ ok s')
      × Buffers (cells ++ replicate n none) s'
      × Beside s s'
unfolding lead_out
lead_out_lem zero cells s h full = (
  s,
  refl,
  subst (λ c. Buffers c s) (sym (append-nil cells)) h,
  record { same_column = refl; same_addr = refl; same_rows = refl },
)
lead_out_lem (suc n) cells s h full =
    let (s', e, b, o) = write_cell-Buffers cells s h none (omega arith) in
    let (t, run, d, q) =
      lead_out_lem n (cells ++ none ∷ []) s' b (omega (arith, length-append_one cells none)) in
    (
      t,
      rw (e, ◌>>=◌) (ap (λ i. lead_out n i s') (sym (length-append_one cells none)) ∙ run),
      subst (λ c. Buffers c t) (append_assoc cells (none ∷ []) (replicate n none)) d,
      record {
        same_column = q.same_column ∙ o.same_column;
        same_addr = q.same_addr ∙ o.same_addr;
        same_rows = q.same_rows ∙ o.same_rows;
      },
    )

pub length-replicate : (n : ℕ) → length (replicate {A = Cell} n none) ≡ n
length-replicate zero = refl
length-replicate (suc n) = ap suc (length-replicate n)

last_row_lem :
    (cells : List Cell) (s : Dump)
    → Begun cells s
    → (s' : Dump) × (last_row s ≡ ok s') × (s'.rows ≡ s.rows ++ layout s.next_addr cells [])
unfolding last_row layout
last_row_lem cells s h = elim (Bool-cases (length cells == 0)) [
  | inl none_begun ↦
      let at : (s.column == 0) ≡ true = ap (λ c. c == 0) h.at_column ∙ none_begun in
      (s, rw at refl, rw none_begun (sym (append-nil s.rows)))
  | inr begun ↦
      let at : (s.column == 0) ≡ false = ap (λ c. c == 0) h.at_column ∙ begun in
      let n = 16 - length cells in
      let (s', run, b, o) = lead_out_lem n cells s h.buffers (omega (arith, h.has_room)) in
      let filled = cells ++ replicate n none in
      let (t, prints, _, _, _, r) = print_row-Buffers filled s' b (
        omega
          (arith, h.has_room, length-append {0} cells (replicate n none), length-replicate n)) in
      (
        t,
        rw at (ap (λ c. lead_out (16 - c) c s >>= print_row) h.at_column ∙ rw (run, ◌>>=◌) prints),
        rw begun (r ∙ (λ i. o.same_rows i ++ row_of (o.same_addr i) filled ∷ [])),
      )
]

dump_lem :
    (bs : List ℕ) (cells : List Cell) (s : Dump)
    → Begun cells s
    → (s' : Dump) × ((dump_bytes bs s >>= last_row) ≡ ok s')
      × (s'.rows ≡ s.rows ++ layout s.next_addr cells bs)
unfolding dump_bytes layout
dump_lem [] cells s h = last_row_lem cells s h
dump_lem (b ∷ bs) cells s h =
    let (s', e, held, o) = write_cell-Buffers cells s h.buffers (some b) h.has_room in
    let cells' : List Cell = cells ++ some b ∷ [] in
    let moved : Dump = record s' { column = suc s.column } in
    let held' = moved-Buffers cells' (suc s.column) s' held in
    let written = ap (λ i. write_cell i (hex_of b) (shown b) s) h.at_column ∙ e in
    elim (Bool-cases (leb 16 (suc (length cells)))) [
      | inl full ↦
          let test : leb 16 (suc s.column) ≡ true = ap (λ c. leb 16 (suc c)) h.at_column ∙ full in
          let (t, prints, free, at_0, a, r) =
            print_row-Buffers cells' moved held'
              (ground (arith, length-append_one cells (some b), h.has_room)) in
          let (u, run, rows) =
            dump_lem bs [] t
              (record { buffers = free; at_column = at_0; has_room = omega arith }) in
          (
            u,
            rw (written, ◌>>=◌, test, prints) run,
            rw full (
                rows
                ∙ ((λ i. r i ++ layout (a i) [] bs)
                    ∙ ((λ i.
                          (o.same_rows i ++ row_of (o.same_addr i) cells' ∷ [])
                          ++ layout ((o.same_addr i + 16) % 2 ^ 64) [] bs)
                        ∙ append_assoc s.rows (row_of s.next_addr cells' ∷ [])
                            (layout ((s.next_addr + 16) % 2 ^ 64) [] bs)))),
          )
      | inr room ↦
          let test : leb 16 (suc s.column) ≡ false = ap (λ c. leb 16 (suc c)) h.at_column ∙ room in
          let (u, run, rows) = dump_lem bs cells' moved (record {
            buffers = held';
            at_column = ap suc h.at_column ∙ sym (length-append_one cells (some b));
            has_room = ground (arith, length-append_one cells (some b));
          }) in
          (
            u,
            rw (written, ◌>>=◌, test) run,
            rw room (rows ∙ (λ i. o.same_rows i ++ layout (o.same_addr i) cells' bs)),
          )
    ]

rows_of :
    {t : Dump} (m : Result Dump)
    → (m >>= last_row) ≡ ok t
    → (m >>= λ s. last_row s >>= λ s'. ok s'.rows) ≡ ok t.rows
rows_of (fail e) h = cc
rows_of (ok s) h = rw (h, ◌>>=◌) refl

-- The dump as a whole: the buffers are written inside their bounds, and the lines are those of the
-- layout.
pub hexdump_layout :
    (loglevel pri : ℕ) (bytes : List ℕ) (print_address : ℕ) (hex chars : List ℕ)
    → pri ≤ loglevel
    → length hex ≡ 81
    → length chars ≡ 17
    → xlog_hexdump loglevel pri bytes print_address hex chars
      ≡ ok (layout (print_address - print_address % 16) (replicate (print_address % 16) none) bytes)
unfolding xlog_hexdump hex_text
hexdump_layout loglevel pri bytes print_address hex chars logs hex_size char_size =
    let first : Dump = record {
      hex_buff = hex;
      char_buff = chars;
      hex_wr = 0;
      column = 0;
      next_addr = print_address - print_address % 16;
      rows = [];
    } in
    let begun : Begun [] first = record {
      buffers = record {
        wr = refl;
        hex_rest = hex;
        hex_holds = refl;
        hex_size = hex_size;
        ended = inl refl;
        char_rest = chars;
        char_holds = refl;
        char_size = char_size;
      };
      at_column = refl;
      has_room = omega arith;
    } in
    let (s, leads, held, a, r) = lead_in_lem (print_address % 16) [] first begun (omega arith) in
    let (t, run, rows) = dump_lem bytes (replicate (print_address % 16) none) s held in
    let logged : leb pri loglevel ≡ true = ground arith in
    rw (logged, leads, ◌>>=◌)
      (rows_of (dump_bytes bytes s) run
        ∙ ap ok (rows ∙ (λ i. r i ++ layout (a i) (replicate (print_address % 16) none) bytes)))
