-- ===== src/Shell/Tests.antt =====
-- Runs of the line editor on concrete input.
use puny_gui.Prelude.{ℕ, ◌≡◌, refl, true, false, List, [], ◌∷◌, ◌++◌, none, some, codes}
use puny_gui.Shell.State.{Editor, Host, symbol, other, running}
use puny_gui.Shell.Prompt.Typing.{typed_bytes}
use puny_gui.Shell.Prompt.{janet_line_get}

abbrev pub tty : Host
tty = record {
  tty_ok = true;
  malloc = λ n. true;
  winsize = some 80;
  scan_cols = λ r. none;
  isatty = true;
  tcgetattr_ok = true;
  tcsetattr_ok = true;
  term = none;
  stale = λ i. 0;
}

abbrev pub start : List ℕ → Editor
start keys = record {
  prompt = [];
  plen = 2;
  buf = λ i. 0;
  len = 0;
  pos = 0;
  cols = 80;
  history = λ i. none;
  history_count = 0;
  historyi = 0;
  sigint_flag = false;
  israwmode = false;
  complete_env = none;
  matches = [];
  lines_below = 0;
  host = tty;
  input = typed_bytes keys;
  out = [];
  err = [];
  raised = 0;
  status = running;
}

get_line : List ℕ → List ℕ
get_line keys = (janet_line_get (codes "> ") (start keys)).0

plain_line : get_line (codes "ab" ++ 13 ∷ []) ≡ codes "ab" ++ 10 ∷ []
unfolding get_line janet_line_get
plain_line = refl

-- Left arrow, then a character; word erase; ctrl-a and delete.
edited_line :
    get_line (codes "foo bar" ++ 27 ∷ codes "[D" ++ codes "x" ++ 23 ∷ 1 ∷ 4 ∷ 13 ∷ [])
    ≡ codes "oo r" ++ 10 ∷ []
unfolding get_line janet_line_get
edited_line = refl

-- Home as Esc O H is not understood: the H is typed.
esc_o_h_line : get_line (codes "ab" ++ 27 ∷ codes "OHx" ++ 13 ∷ []) ≡ codes "abHx" ++ 10 ∷ []
unfolding get_line janet_line_get
esc_o_h_line = refl

completed_line :
    (janet_line_get (codes "> ") (record (start (codes "(string/s" ++ 9 ∷ codes "x" ++ 13 ∷ [])) {
      complete_env =
          some (
            (symbol (codes "string/slice") ∷ other ∷ [])
            ∷ (symbol (codes "string/slip") ∷ [])
            ∷ []);
    })).0
    ≡ codes "(string/slix" ++ 10 ∷ []
unfolding janet_line_get
completed_line = refl
