-- ===== src/Shell/Keys/Refine.antt =====
-- The keys of `line` that edit the line, against their meaning on the two lists around the cursor.
use puny_gui.Prelude.{
  ◌-◌, ◌≤◌, ◌≡◌, refl, ap, ◌∙◌, sym, Bool, true, ltb, ◌==◌, if◌then◌else◌, if_ind, arith, slice,
  slice_agree, slice-eq-reverse, down, down_ext, ==_iff, reverse,
}
use mathlib.Core.List.{reverse-reverse}
use puny_gui.Shell.State.{Editor, line_max}
use puny_gui.Shell.Cursor.{
  Cursor, view, typed, erased_left, erased_right, moved_left, moved_right, moved_home, moved_end,
  word_erased_left, killed_left, killed_right,
}
use puny_gui.Shell.Screen.{refresh, clear}
use puny_gui.Shell.Terminal.{rawmode, norawmode}
use puny_gui.Shell.Edit.Refine.{
  text-eq-content, view_ext, view-insert, view-kbackspace, view-kdelete, view-kleft, view-kright,
  right_end,
}
use puny_gui.Shell.Words.{is_space}
use puny_gui.Shell.Words.Refine.{view-kbackspacew}
use puny_gui.Shell.Drawn.{Drawn, clearlines-Drawn}
use puny_gui.Shell.Keys.{
  Keypress, Next, plain, ignored, home, back, cancel, eof_or_delete, end, forward, backspace, tab,
  kill, clear_screen, enter, next, previous, kill_before, erase_word, suspend, escape, press,
  go_home, go_end, kill_line, kill_front, suspend_self,
}

-- The keys whose meaning is in the line alone: all but completion, the history and the escape
-- sequences.
abbrev pub IsEdit : Keypress → Type 0
IsEdit tab = ⊥
IsEdit next = ⊥
IsEdit previous = ⊥
IsEdit escape = ⊥
IsEdit _ = Unit

-- Their meaning; the flag says that there is room for one more byte.
abbrev pub edited : Bool → Keypress → Cursor → Cursor
edited room (plain c) l = if room then typed c l else l
edited room home l = moved_home l
edited room back l = moved_left l
edited room eof_or_delete l = erased_right l
edited room end l = moved_end l
edited room forward l = moved_right l
edited room backspace l = erased_left l
edited room kill l = killed_right l
edited room kill_before l = killed_left l
edited room erase_word l = word_erased_left is_space l
edited room _ l = l

pub view-Drawn : {s t : Editor} → Drawn s t → view t ≡ view s
view-Drawn {s} {t} d = λ i. record {
  left = down (d.buf i) (d.pos i);
  right = slice (d.buf i) (d.pos i) (d.len i - d.pos i);
}

view-go_home : (s : Editor) → s.pos ≤ s.len → view (go_home s) ≡ moved_home (view s)
unfolding go_home refresh
view-go_home s h =
    let whole : s.len - 0 ≡ s.len = omega arith in
    view_ext (go_home s) (moved_home (view s)) refl (ap (slice s.buf 0) whole ∙ text-eq-content s h)

view-go_end : (s : Editor) → s.pos ≤ s.len → view (go_end s) ≡ moved_end (view s)
unfolding go_end refresh
view-go_end s h =
    view_ext (go_end s) (moved_end (view s))
      (sym (reverse-reverse (down s.buf s.len))
        ∙ ap reverse (sym (slice-eq-reverse s.buf s.len) ∙ text-eq-content s h))
      (right_end (go_end s) refl)

view-kill_line : (s : Editor) → view (kill_line s) ≡ killed_right (view s)
unfolding kill_line refresh
view-kill_line s =
    view_ext (kill_line s) _ (down_ext (kill_line s).buf s.buf s.pos λ j l. ground arith)
      (right_end (kill_line s) refl)

view-kill_front : (s : Editor) → s.pos ≤ s.len → view (kill_front s) ≡ killed_left (view s)
unfolding kill_front refresh
view-kill_front s h = view_ext (kill_front s) _ refl (
    sym (
      slice_agree s.buf (kill_front s).buf s.pos s.pos 0 _ _ (omega arith) (omega arith)
        λ j p q. ground arith))

view-cleared : (s : Editor) → view (refresh (clear s)) ≡ view s
unfolding refresh clear
view-cleared s = refl

view-suspend_self : (s : Editor) → view (suspend_self s) ≡ view s
unfolding suspend_self rawmode norawmode refresh
view-suspend_self s = ground arith

empty : (s : Editor) → s.pos ≡ s.len → view s ≡ erased_right (view s)
empty s e = rw (right_end s e) refl

-- With the cursor in the line, the code of a key other than Tab, ctrl-n, ctrl-p and Esc does to
-- the buffer what the key means for the two lists around the cursor.
pub view-press :
    (k : Keypress) (s : Editor)
    → IsEdit k
    → s.pos ≤ s.len
    → view (press k s).0 ≡ edited (ltb s.len (line_max - 1)) k (view s)
unfolding press
view-press (plain c) s e h = view-insert c true s h
view-press ignored s e h = refl
view-press home s e h = view-go_home s h
view-press back s e h = view-kleft s h
view-press cancel s e h = view-Drawn (clearlines-Drawn (record s { sigint_flag = true }))
view-press eof_or_delete s e h =
    if_ind (λ (r : Editor × Next). view r.0 ≡ erased_right (view s)) (s.len == 0)
      (λ z. view-Drawn (clearlines-Drawn s) ∙ empty s (omega (arith, (==_iff _ _).0 z)))
      (λ z. view-kdelete true s h)
view-press end s e h = view-go_end s h
view-press forward s e h = view-kright s h
view-press backspace s e h = view-kbackspace true s h
view-press kill s e h = view-kill_line s
view-press clear_screen s e h = view-cleared s
view-press enter s e h = view-Drawn (clearlines-Drawn s)
view-press kill_before s e h = view-kill_front s h
view-press erase_word s e h = view-kbackspacew s h
view-press suspend s e h = view-suspend_self s
view-press tab s e h = absurd e
view-press next s e h = absurd e
view-press previous s e h = absurd e
view-press escape s e h = absurd e
