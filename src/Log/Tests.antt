-- ===== src/Log/Tests.antt =====
-- The theorems about the hex dump, for four bytes at an address in the middle of a line.
use x6losim.Prelude.{
  ℕ, ◌+◌, ◌*◌, ◌%◌, ◌<◌, ◌≤◌, ◌≡◌, refl, List, [], ◌∷◌, ◌++◌, replicate, length, arith, false,
}
use x6losim.Prelude.Fault.{ok}
use x6losim.Log.{Row, xlog, red, plain, xlog_hexdump, has_no_newline}
use x6losim.Log.HexDump.{read_back, Ruled, hexdump_lem}

abbrev some_bytes : List ℕ
some_bytes = 65 ∷ 0 ∷ 255 ∷ 126 ∷ []

hexdump_lem_example :
    (rows : List Row) × (xlog_hexdump 7 6 some_bytes 4109 (replicate 81 1) (replicate 17 1)
      ≡ ok rows)
    × (read_back rows ≡ some_bytes)
    × Ruled 4096 rows
    × (4109 % 16 + 4 ≤ 16 * length rows)
    × (16 * length rows < 4109 % 16 + 4 + 16)
hexdump_lem_example =
    hexdump_lem 7 6 some_bytes 4109 (replicate 81 1) (replicate 17 1) (omega arith) refl refl
      (omega arith, (omega arith, (omega arith, (omega arith, tt))))

-- An error whose format has no newline.
xlog_ends_line :
    (xlog false 3 (91 ∷ 93 ∷ []) (104 ∷ []) (104 ∷ [])).printed
    ≡ red ++ (91 ∷ 93 ∷ 104 ∷ 10 ∷ plain)
unfolding xlog has_no_newline
xlog_ends_line = refl
