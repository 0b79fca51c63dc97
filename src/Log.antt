-- ===== src/Log.antt =====
-- src/log/log.cpp: the lines of the log, and the hex dump of a packet.
pub mod Buffer
pub mod Cells
pub mod Rows
pub mod HexDump
mod Tests
use x6losim.Prelude.{
  ℕ, zero, suc, ◌+◌, ◌-◌, ◌*◌, ◌/◌, ◌%◌, ◌^◌, List, [], ◌∷◌, ◌++◌, Bool, true, false, ◌&&◌, ◌||◌,
  ◌==◌, ltb, leb, if◌then◌else◌, length, set,
}
use x6losim.Prelude.Fault.{Result, ok, fail, ◌>>=◌, out_of_bounds}

abbrev pub log_err : ℕ
log_err = 3

abbrev pub log_notice : ℕ
log_notice = 5

-- The colours of the terminal: `\033[1;31m`, `\033[1;32m` and `\033[0;0m`.
abbrev pub red : List ℕ
red = 27 ∷ 91 ∷ 49 ∷ 59 ∷ 51 ∷ 49 ∷ 109 ∷ []

abbrev pub green : List ℕ
green = 27 ∷ 91 ∷ 49 ∷ 59 ∷ 51 ∷ 50 ∷ 109 ∷ []

abbrev pub plain : List ℕ
plain = 27 ∷ 91 ∷ 48 ∷ 59 ∷ 48 ∷ 109 ∷ []

abbrev pub colour : ℕ → List ℕ
colour level = if level == log_err then red else if level == log_notice then green else plain

-- The scan of the format up to `\r`, `\n` or its end: whether it came to its end.
pub has_no_newline : List ℕ → Bool
has_no_newline [] = true
has_no_newline (c ∷ s) = let rest = has_no_newline s in if c == 13 || c == 10 then false else rest

-- What goes to the terminal and to syslog. `place` is the function and the line, `text` the message,
-- both as `printf` renders them.
pub record Logged : Type 0 where
  pub printed : List ℕ
  pub to_syslog : List (ℕ × List ℕ)

pub xlog : Bool → ℕ → List ℕ → List ℕ → List ℕ → Logged
unfolding has_no_newline
xlog log_to_syslog level place fmt text =
    if log_to_syslog then record { printed = []; to_syslog = (level, text) ∷ [] } else record {
      printed =
          colour level
          ++ (place ++ (text ++ ((if has_no_newline fmt then 10 ∷ [] else []) ++ plain)));
      to_syslog = [];
    }

abbrev pub hexdump_bytes_per_line : ℕ
hexdump_bytes_per_line = 16

abbrev pub hexdump_max_hex_length : ℕ
hexdump_max_hex_length = 80

-- A store into a buffer.
pub put : ℕ → ℕ → List ℕ → Result (List ℕ)
put i v buf = if ltb i (length buf) then ok (set buf i v) else fail out_of_bounds

-- `sprintf` of a text at an offset of a buffer, with the 0 behind it.
pub sprintf_at : ℕ → List ℕ → List ℕ → Result (List ℕ)
unfolding put
sprintf_at i [] buf = put i 0 buf
sprintf_at i (c ∷ s) buf = put i c buf >>= λ buf'. sprintf_at (suc i) s buf'

-- The text up to the first 0, as `%s` prints it.
pub c_string : List ℕ → List ℕ
c_string [] = []
c_string (zero ∷ s) = []
c_string (suc c ∷ s) = suc c ∷ c_string s

-- A line of the dump: what `_xlog` is called with.
pub record Row : Type 0 where
  pub row_start_addr : ℕ
  pub hex_text : List ℕ
  pub char_text : List ℕ

-- The function's variables, and the lines so far. `hex_wr` is the offset of `hex_wr_p`.
pub record Dump : Type 0 where
  pub hex_buff : List ℕ
  pub char_buff : List ℕ
  pub hex_wr : ℕ
  pub column : ℕ
  pub next_addr : ℕ
  pub rows : List Row

-- `"%02X "`, and the character that stands for a byte.
abbrev pub hex_digit : ℕ → ℕ
hex_digit d = if ltb d 10 then 48 + d else 55 + d

abbrev pub hex_of : ℕ → List ℕ
hex_of b = hex_digit (b % 256 / 16) ∷ hex_digit (b % 16) ∷ 32 ∷ []

abbrev pub shown : ℕ → ℕ
shown b = if leb 32 b && leb b 126 then b else 46

-- `".. "`.
abbrev pub dots : List ℕ
dots = 46 ∷ 46 ∷ 32 ∷ []

-- `hex_wr_p += sprintf(hex_wr_p, ...)` and the store of the character in column `i`.
pub write_cell : ℕ → List ℕ → ℕ → Dump → Result Dump
unfolding sprintf_at put
write_cell i text c s = do
  hex_buff ← sprintf_at s.hex_wr text s.hex_buff
  char_buff ← put i c s.char_buff
  ok (record s { hex_buff = hex_buff; char_buff = char_buff; hex_wr = s.hex_wr + length text })

pub lead_in : ℕ → Dump → Result Dump
unfolding write_cell
lead_in zero s = ok s
lead_in (suc n) s = do
  s' ← write_cell s.column dots 32 s
  lead_in n (record s' { column = suc s.column })

-- The print of a completed line, and the start of the next.
pub print_row : Dump → Result Dump
unfolding put c_string
print_row s = do
  hex_buff ← put hexdump_max_hex_length 0 s.hex_buff
  char_buff ← put hexdump_bytes_per_line 0 s.char_buff
  ok (record {
    hex_buff = hex_buff;
    char_buff = char_buff;
    hex_wr = 0;
    column = 0;
    next_addr = (s.next_addr + hexdump_bytes_per_line) % 2 ^ 64;
    rows =
        s.rows
        ++ record {
          row_start_addr = s.next_addr;
          hex_text = c_string hex_buff;
          char_text = c_string char_buff;
        }
          ∷ [];
  })

pub dump_bytes : List ℕ → Dump → Result Dump
unfolding write_cell print_row
dump_bytes [] s = ok s
dump_bytes (b ∷ bs) s = do
  s' ← write_cell s.column (hex_of b) (shown b) s
  let s'' = record s' { column = suc s.column }
  s''' ← if leb hexdump_bytes_per_line s''.column then print_row s'' else ok s''
  dump_bytes bs s'''

pub lead_out : ℕ → ℕ → Dump → Result Dump
unfolding write_cell
lead_out zero i s = ok s
lead_out (suc n) i s = do s' ← write_cell i dots 32 s; lead_out n (suc i) s'

-- The last line, where one is begun.
pub last_row : Dump → Result Dump
unfolding lead_out print_row
last_row s =
    if s.column == 0
    then ok s
    else (lead_out (hexdump_bytes_per_line - s.column) s.column s >>= λ s'. print_row s')

-- `hex` and `chars` are the buffers as `malloc` gives them, `print_address` the address shown for the
-- first byte. The lines that are logged.
pub xlog_hexdump : ℕ → ℕ → List ℕ → ℕ → List ℕ → List ℕ → Result (List Row)
unfolding lead_in dump_bytes last_row
xlog_hexdump loglevel pri bytes print_address hex chars =
    if leb pri loglevel
    then (do
      s ← lead_in (print_address % hexdump_bytes_per_line) (record {
        hex_buff = hex;
        char_buff = chars;
        hex_wr = 0;
        column = 0;
        next_addr = print_address - print_address % hexdump_bytes_per_line;
        rows = [];
      })
      s' ← dump_bytes bytes s
      s'' ← last_row s'
      ok s''.rows)
    else ok []
