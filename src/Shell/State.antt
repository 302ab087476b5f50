-- ===== src/Shell/State.antt =====
-- super.c, the static state of the line editor (`gbl_*`), with the terminal that it talks to.
use puny_gui.Prelude.{ℕ, ◌≤◌, ◌<◌, ◌≡◌, Bool, List, Option, slice, suc, arith}

-- JANET_LINE_MAX, JANET_MATCH_MAX, JANET_HISTORY_MAX
abbrev pub line_max : ℕ
line_max = 1024

abbrev pub match_max : ℕ
match_max = 256

abbrev pub history_max : ℕ
history_max = 100

-- `exited` is a call of exit(1), `crashed` a call that C leaves undefined. `uncounted` is a process
-- that goes on with gbl_history_count at -1, which the count of an editor does not show.
pub data Status : Type 0 where
  running exited crashed uncounted : Status

-- A key of a Janet table, as far as completion looks: a symbol's bytes, or something else.
pub data Key : Type 0 where
  symbol : List ℕ → Key
  other : Key

-- One call of read(2): a byte, the end of the input, or an error.
pub data Read : Type 0 where
  byte : ℕ → Read
  eof failed : Read

-- What the process finds outside itself. `tty_ok` says whether a write to standard output
-- succeeds, `malloc` whether a request for so many bytes is served; `winsize` is the column count
-- of TIOCGWINSZ, `none` if ioctl fails; `scan_cols` is the second number of
-- sscanf (_, "%d;%d", …), `none` if not both are read. `isatty`, `tcgetattr_ok` and `tcsetattr_ok`
-- are the calls of those names, `term` is $TERM, and `stale` is what an array on the stack holds
-- before it is written.
pub record Host : Type 0 where
  pub tty_ok : Bool
  pub malloc : ℕ → Bool
  pub winsize : Option ℕ
  pub scan_cols : List ℕ → Option ℕ
  pub isatty : Bool
  pub tcgetattr_ok : Bool
  pub tcsetattr_ok : Bool
  pub term : Option (List ℕ)
  pub stale : ℕ → ℕ

-- `prompt` holds the bytes before the NUL. `matches` holds the first gbl_match_count entries.
-- `history` is the array of pointers to C strings, NULL as `none`. `complete_env` is NULL or the
-- chain of tables from gbl_complete_env along `proto`, each with its slots in order. `input` is
-- what the reads to come give, `out` and `err` are what was written, and `raised` counts the
-- calls of raise (SIGINT).
pub record Editor : Type 0 where
  pub prompt : List ℕ
  pub plen : ℕ
  pub buf : ℕ → ℕ
  pub len : ℕ
  pub pos : ℕ
  pub cols : ℕ
  pub history : ℕ → Option (List ℕ)
  pub history_count : ℕ
  pub historyi : ℕ
  pub sigint_flag : Bool
  pub israwmode : Bool
  pub complete_env : Option (List (List Key))
  pub matches : List (List ℕ)
  pub lines_below : ℕ
  pub host : Host
  pub input : List Read
  pub out : List ℕ
  pub err : List ℕ
  pub raised : ℕ
  pub status : Status

-- The text on the line.
abbrev pub text : Editor → List ℕ
text s = slice s.buf 0 s.len

-- The cursor is in the line, the line fits the buffer with its NUL, no byte of the line is NUL,
-- and the last cell of the buffer and the memory behind it hold NUL.
pub record IsValid (s : Editor) : Type 0 where
  pub cursor : s.pos ≤ s.len
  pub fits : s.len < line_max
  pub terminated : s.buf s.len ≡ 0
  pub no_null : (j : ℕ) → j < s.len → 0 < s.buf j
  pub clean : (j : ℕ) → line_max ≤ suc j → s.buf j ≡ 0

-- Validity is about the buffer, the length and the cursor alone.
pub IsValid-same :
    (s t : Editor) → IsValid s → t.buf ≡ s.buf → t.len ≡ s.len → t.pos ≤ t.len → IsValid t
IsValid-same s t v b l c = record {
  cursor = c;
  fits = omega (arith, v.fits);
  terminated = rw (b, l) v.terminated;
  no_null = λ j h. rw b (v.no_null j (omega arith));
  clean = λ j h. rw b (v.clean j h);
}
