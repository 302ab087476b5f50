-- ===== src/Shell/Edit.antt =====
-- super.c, the operations on the line: `insert`, the single steps of the cursor, and the two
-- deletions of a character.
pub mod Refine
pub mod Valid
use puny_gui.Prelude.{
  ℕ, suc, ◌+◌, ◌-◌, Bool, true, false, [], ◌∷◌, ◌++◌, not, ltb, ◌==◌, if◌then◌else◌, update,
  memmove,
}
use puny_gui.Shell.State.{Editor, line_max}
use puny_gui.Shell.Screen.{refresh}

-- The two cases of `insert`, before anything is drawn.
unfoldable pub append_char : ℕ → Editor → Editor
append_char c s = record s {
  buf = update (update s.buf s.pos c) (suc s.len) 0;
  pos = suc s.pos;
  len = suc s.len;
}

unfoldable pub insert_char : ℕ → Editor → Editor
insert_char c s = record s {
  buf = update (update (memmove s.buf (s.pos + 1) s.pos (s.len - s.pos)) s.pos c) (suc s.len) 0;
  pos = suc s.pos;
  len = suc s.len;
}

-- The drawing of a character at the end of the line; the flag is a result of -1.
unfoldable pub draw_char : ℕ → Editor → Editor × Bool
unfolding refresh
draw_char c s =
    if ltb (s.plen + s.len) s.cols
    then (record s { out = if s.host.tty_ok then s.out ++ c ∷ [] else s.out }, not s.host.tty_ok)
    else (refresh s, false)

unfoldable pub insert : ℕ → Bool → Editor → Editor × Bool
unfolding append_char insert_char draw_char
insert c draw s =
    if ltb s.len (line_max - 1)
    then (if s.len == s.pos
        then (if draw then draw_char c (append_char c s) else (append_char c s, false))
        else (if draw then refresh (insert_char c s) else insert_char c s, false))
    else (s, false)

unfoldable pub kleft : Editor → Editor
unfolding refresh
kleft s = if ltb 0 s.pos then refresh (record s { pos = s.pos - 1 }) else s

unfoldable pub kright : Editor → Editor
unfolding refresh
kright s = if s.pos == s.len then s else refresh (record s { pos = suc s.pos })

-- What the two deletions do to the buffer, before the line is drawn.
unfoldable pub backspace_char : Editor → Editor
backspace_char s = record s {
  buf = update (memmove s.buf (s.pos - 1) s.pos (s.len - s.pos)) (s.len - 1) 0;
  pos = s.pos - 1;
  len = s.len - 1;
}

unfoldable pub delete_char : Editor → Editor
delete_char s = record s {
  buf = update (memmove s.buf s.pos (s.pos + 1) (s.len - s.pos)) (s.len - 1) 0;
  len = s.len - 1;
}

unfoldable pub kbackspace : Bool → Editor → Editor
unfolding refresh backspace_char
kbackspace draw s =
    if ltb 0 s.pos then (if draw then refresh (backspace_char s) else backspace_char s) else s

unfoldable pub kdelete : Bool → Editor → Editor
unfolding refresh delete_char
kdelete draw s =
    if s.pos == s.len then s else (if draw then refresh (delete_char s) else delete_char s)
