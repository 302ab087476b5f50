-- ===== src/Shell/Complete.antt =====
-- super.c, `kshowcomp`: completion of the symbol at the cursor.
pub mod Valid
use puny_gui.Prelude.{
  until_nul, ℕ, zero, suc, ◌+◌, ◌-◌, ◌*◌, ◌/◌, ◌%◌, Bool, true, false, not, ◌&&◌, ◌||◌, List, [],
  ◌∷◌, ◌++◌, Option, none, some, length, drop, ltb, leb, ◌==◌, if◌then◌else◌, codes, decimal,
}
use puny_gui.Shell.State.{Editor, Key, symbol, other, line_max}
use puny_gui.Shell.Screen.{clearlines}
use puny_gui.Shell.Terminal.{getcols}
use puny_gui.Shell.Edit.{insert}
use puny_gui.Shell.Words.{forth_while}
use puny_gui.Shell.Matches.{
  is_symbol_char_gen, get_symprefix, check_match, check_specials, longest_common_prefix,
}

-- The symbols of a table go to `check_match`, slot by slot.
unfoldable pub check_table : List ℕ → List Key → List (List ℕ) → List (List ℕ)
unfolding check_match
check_table src [] matches = matches
check_table src (other ∷ kvs) matches = check_table src kvs matches
check_table src (symbol sym ∷ kvs) matches = check_table src kvs (check_match src sym matches)

-- The tables of the chain.
unfoldable pub check_env : List ℕ → List (List Key) → List (List ℕ) → List (List ℕ)
unfolding check_table
check_env src [] matches = matches
check_env src (table ∷ proto) matches = check_env src proto (check_table src table matches)

unfoldable pub find_matches : List ℕ → List (List Key) → List (List ℕ)
unfolding check_env check_specials
find_matches src env = check_specials src (check_env src env [])

-- Advance while on a symbol character. The line ends in NUL, which is none.
unfoldable pub to_symbol_end : Editor → Editor
unfolding forth_while is_symbol_char_gen
to_symbol_end s = record s { pos = forth_while (line_max - s.pos) is_symbol_char_gen s.buf s.pos }

-- for (…) insert (lcp.bytes[i], 0);
unfoldable pub insert_all : List ℕ → Editor → Editor
unfolding insert
insert_all [] s = s
insert_all (c ∷ cs) s = insert_all cs (insert c false s).0

unfoldable pub max_length : List (List ℕ) → ℕ → ℕ
max_length [] best = best
max_length (m ∷ ms) best = max_length ms (if ltb best (length m) then length m else best)

unfoldable pub spaces : ℕ → List ℕ
spaces zero = []
spaces (suc n) = 32 ∷ spaces n

-- The second pass: the candidates, each up to its first NUL, in columns, with the lines that it takes.
unfoldable pub print_matches : ℕ → ℕ → ℕ → List (List ℕ) → Editor → Editor
unfolding spaces
print_matches col_width columns current [] s = s
print_matches col_width columns current (m ∷ ms) s =
    print_matches col_width columns ((current + 1) % columns) ms (record s {
      err =
          (if current == 0 then s.err ++ 10 ∷ [] else s.err)
          ++ (until_nul m ++ spaces (col_width - length m));
      lines_below = if current == 0 then s.lines_below + 1 else s.lines_below;
    })

unfoldable pub go_up : Editor → Editor
unfolding decimal
go_up s = record s { err = s.err ++ 27 ∷ b'[' ∷ decimal s.lines_below ++ codes "A" }

-- `if (cols == 0) cols = 1;`
unfoldable pub column_count : ℕ → ℕ → ℕ
column_count num_cols col_width = if num_cols / col_width == 0 then 1 else num_cols / col_width

unfoldable pub show_matches : List (List ℕ) → Editor → Editor
unfolding clearlines print_matches column_count go_up max_length getcols
show_matches matches s =
    let col_width : ℕ = max_length matches 0 + 4 in
    let (num_cols, s₁) = getcols s in
    let s₂ = clearlines s₁ in
    if ltb (length matches) 2
    then s₂
    else go_up (print_matches col_width (column_count num_cols col_width) 0 matches s₂)

-- The longest common front of the matches is put in behind the partial symbol. Only when nothing
-- was added, or when candidates are on the screen, they are printed.
unfoldable pub complete_with : List ℕ → List (List ℕ) → Editor → Editor
unfolding insert_all longest_common_prefix show_matches
complete_with prefix matches s =
    let lcp = longest_common_prefix matches in
    let s' = insert_all (drop (length prefix) lcp) (record s { matches = matches }) in
    if s'.lines_below == 0 && not (length prefix == length lcp) then s' else show_matches matches s'

unfoldable pub complete_symbol : List (List Key) → Editor → Editor
unfolding get_symprefix find_matches complete_with
complete_symbol env s =
    let prefix = get_symprefix s in
    if length prefix == 0 then s else complete_with prefix (find_matches prefix env) s

-- By gbl_complete_env: two spaces are put in without one.
unfoldable pub complete_by : Option (List (List Key)) → Editor → Editor
unfolding insert_all to_symbol_end complete_symbol
complete_by none s = insert_all (32 ∷ 32 ∷ []) s
complete_by (some env) s = complete_symbol env (to_symbol_end s)

unfoldable pub kshowcomp : Editor → Editor
unfolding complete_by
kshowcomp s = complete_by s.complete_env s
