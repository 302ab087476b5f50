-- ===== src/Shell/History.antt =====
-- super.c, the history of lines: `sdup`, `historymove`, `addhistory` and `replacehistory`.
pub mod Kept
pub mod Refine
pub mod Valid
pub mod Recall
pub mod Index
use puny_gui.Prelude.{
  ℕ, zero, suc, ◌+◌, ◌-◌, Bool, true, false, ◌&&◌, ◌||◌, List, [], ◌∷◌, Option, none, some, length,
  ltb, leb, ◌==◌, if◌then◌else◌, update, slice, c_string, strncpy,
}
use puny_gui.Shell.State.{Editor, crashed, uncounted, line_max, history_max}
use puny_gui.Shell.Screen.{refresh}

-- gbl_buf as a C string.
unfoldable pub line_string : Editor → List ℕ
unfolding c_string
line_string s = c_string line_max s.buf 0

-- sdup (gbl_buf)
unfoldable pub sdup_line : Editor → Option (List ℕ)
unfolding line_string
sdup_line s = if s.host.malloc (length (line_string s) + 1) then some (line_string s) else none

-- The argument of `historymove`: plus or minus so many entries.
pub data Delta : Type 0 where
  plus minus : ℕ → Delta

-- gbl_historyi after the addition, clamped to the entries.
unfoldable pub moved_index : ℕ → ℕ → Delta → ℕ
moved_index count i (plus d) = if leb count (i + d) then count - 1 else i + d
moved_index count i (minus d) =
    if ltb i d then 0 else (if leb count (i - d) then count - 1 else i - d)

-- The entry is copied over the line, and the cursor goes to its end.
unfoldable pub load_entry : List ℕ → Editor → Editor
unfolding c_string
load_entry entry s =
    let copied = strncpy s.buf entry (line_max - 1) in
    let n = length (c_string line_max copied 0) in
    record s { buf = update copied n 0; len = n; pos = n }

-- A NULL entry is handed to strncpy if the memory ran out when it was stored.
unfoldable pub show_entry : Option (List ℕ) → Editor → Editor
unfolding load_entry refresh
show_entry none s = record s { status = crashed }
show_entry (some entry) s = refresh (load_entry entry s)

-- gbl_history[gbl_historyi] = sdup (gbl_buf), and the move of gbl_historyi.
unfoldable pub store_line : Delta → Editor → Editor
unfolding sdup_line moved_index
store_line delta s = record s {
  history = update s.history s.historyi (sdup_line s);
  historyi = moved_index s.history_count s.historyi delta;
}

unfoldable pub historymove : Delta → Editor → Editor
unfolding show_entry store_line
historymove delta s =
    if ltb 1 s.history_count
    then show_entry ((store_line delta s).history (store_line delta s).historyi)
        (store_line delta s)
    else s

-- for (i = n; i > 0; i--) gbl_history[i] = gbl_history[i - 1];
unfoldable pub shift_up : {A : Type 0} → ℕ → (ℕ → A) → ℕ → A
shift_up zero h = h
shift_up (suc i) h = shift_up i (update h (suc i) (h i))

-- for (i = from; i < from + n; i++) gbl_history[i - 1] = gbl_history[i]; from > 0
unfoldable pub shift_down : {A : Type 0} → ℕ → ℕ → (ℕ → A) → ℕ → A
shift_down zero from h = h
shift_down (suc n) from h = shift_down n (suc from) (update h (from - 1) (h from))

-- With a full array the last entry is freed, and the others move over it.
unfoldable pub push_entry : Option (List ℕ) → Editor → Editor
unfolding shift_up
push_entry newline s =
    if ltb s.history_count history_max
    then record s {
      history =
          update (shift_up s.history_count (update s.history s.history_count newline)) 0 newline;
      history_count = s.history_count + 1;
    }
    else record s { history = update (shift_up (s.history_count - 1) s.history) 0 newline }

unfoldable pub addhistory : Editor → Editor
unfolding sdup_line push_entry
addhistory s = elim (sdup_line s) [ none ↦ s | some line ↦ push_entry (some line) s ]

-- !strcmp (a, b)
unfoldable pub str_same : List ℕ → List ℕ → Bool
str_same [] [] = true
str_same [] (y ∷ ys) = false
str_same (x ∷ xs) [] = false
str_same (x ∷ xs) (y ∷ ys) = x == y && str_same xs ys

-- The entry goes. With no entry gbl_history_count becomes -1 and the code goes on; this is the
-- status `uncounted`, and the entry that comes next is written in front of the array.
unfoldable pub delete_entry : Editor → Editor
unfolding shift_down
delete_entry s = if s.history_count == 0 then record s { status = uncounted } else record s {
  history = shift_down (s.history_count - 1) 1 s.history;
  history_count = s.history_count - 1;
}

unfoldable pub replace_entry : Editor → Editor
unfolding sdup_line
replace_entry s = elim (sdup_line s) [
  | none ↦ s
  | some line ↦ record s { history = update s.history 0 (some line) }
]

-- The test at a line that is not empty. strcmp reads gbl_history[1], which must not be NULL.
unfoldable pub replace_line : Editor → Editor
unfolding delete_entry replace_entry str_same line_string
replace_line s =
    if ltb 1 s.history_count
    then elim (s.history 1) [
      | none ↦ record s { status = crashed }
      | some last ↦ if str_same (line_string s) last then delete_entry s else replace_entry s
    ]
    else replace_entry s

unfoldable pub replacehistory : Editor → Editor
unfolding delete_entry replace_line
replacehistory s = if s.len == 0 then delete_entry s else replace_line s

-- The entries, the newest first.
abbrev pub entries : Editor → List (Option (List ℕ))
entries s = slice s.history 0 s.history_count
