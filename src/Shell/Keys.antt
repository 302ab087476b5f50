-- ===== src/Shell/Keys.antt =====
-- super.c, the body of the loop in `line`: one key, or one escape sequence, and what it does.
pub mod Escape
pub mod Ready
pub mod Refine
pub mod Steady
pub mod Valid
use puny_gui.Prelude.{
  ℕ, zero, suc, ◌+◌, ◌-◌, Bool, true, false, ◌&&◌, ◌||◌, List, [], ◌∷◌, Option, none, some, ltb,
  leb, ◌==◌, if◌then◌else◌, update, memmove,
}
use puny_gui.Shell.State.{Editor, Read, byte, eof, failed, history_max}
use puny_gui.Shell.Screen.{refresh, clear, clearlines}
use puny_gui.Shell.Terminal.{next_read, after_read, rawmode, norawmode}
use puny_gui.Shell.Edit.{insert, kleft, kright, kbackspace, kdelete}
use puny_gui.Shell.Words.{kleftw, krightw, kbackspacew, kdeletew}
use puny_gui.Shell.History.{historymove, plus, minus}
use puny_gui.Shell.Complete.{kshowcomp}

-- The cases of the switch on the byte that was read.
pub data Keypress : Type 0 where
  plain : ℕ → Keypress
  ignored home back cancel eof_or_delete end forward backspace tab kill clear_screen enter next
        previous kill_before erase_word suspend escape :
      Keypress

-- The labels of the switch below 0x20.
abbrev pub control_keys : List (ℕ × Keypress)
control_keys =
    (1, home)
    ∷ (2, back)
    ∷ (3, cancel)
    ∷ (4, eof_or_delete)
    ∷ (5, end)
    ∷ (6, forward)
    ∷ (8, backspace)
    ∷ (9, tab)
    ∷ (11, kill)
    ∷ (12, clear_screen)
    ∷ (13, enter)
    ∷ (14, next)
    ∷ (16, previous)
    ∷ (21, kill_before)
    ∷ (23, erase_word)
    ∷ (26, suspend)
    ∷ (27, escape)
    ∷ []

unfoldable pub labelled : ℕ → List (ℕ × Keypress) → Keypress
labelled c [] = ignored
labelled c ((label, key) ∷ keys) = if c == label then key else labelled c keys

-- A `char` is signed: a byte of 128 or more is negative, and so below 0x20.
unfoldable pub key_of : ℕ → Keypress
unfolding labelled
key_of c =
    if ltb c 32
    then labelled c control_keys
    else (if c == 127 then backspace else (if leb 128 c then ignored else plain c))

-- The escape sequences that have a meaning.
pub data Sequence : Type 0 where
  unknown start_of_line end_of_line delete up down right left word_delete word_left word_right
        oldest newest word_erase :
      Sequence

-- The third byte, behind a digit: `none` where the read fails.
unfoldable pub tilde_sequence : ℕ → Option ℕ → Sequence
tilde_sequence d none = unknown
tilde_sequence d (some e) =
    if e == b'~'
    then (if d == b'1'
        then start_of_line
        else (if d == b'3' then delete else (if d == b'4' then end_of_line else unknown)))
    else unknown

-- Esc [ and one letter.
unfoldable pub letter_sequence : ℕ → Sequence
letter_sequence d =
    if d == b'A'
    then up
    else (if d == b'B'
        then down
        else (if d == b'C'
            then right
            else (if d == b'D'
                then left
                else (if d == b'H'
                    then start_of_line
                    else (if d == b'F' then end_of_line else unknown)))))

-- The bindings of Alt and a key.
unfoldable pub alt_sequence : ℕ → Sequence
alt_sequence c =
    if c == b'd'
    then word_delete
    else (if c == b'b'
        then word_left
        else (if c == b'f'
            then word_right
            else (if c == b','
                then oldest
                else (if c == b'.' then newest else (if c == 127 then word_erase else unknown)))))

-- Esc O and one letter, inside the branch of Esc [.
unfoldable pub o_sequence : Option ℕ → Sequence
o_sequence none = unknown
o_sequence (some d) =
    if d == b'H' then start_of_line else (if d == b'F' then end_of_line else unknown)

-- read (STDIN_FILENO, seq + i, 1), with what seq[i] holds: `none` where it returns -1. At the end
-- of the input the array keeps what it holds.
unfoldable pub read_seq : ℕ → Editor → Option ℕ
unfolding next_read
read_seq held s = elim (next_read s.input) [ byte c ↦ some c | eof ↦ some held | failed ↦ none ]

-- Behind Esc [, by the second byte. The test on seq[0] for an `O` stands in the branch where
-- seq[0] is `[`.
unfoldable pub csi_from : Option ℕ → ℕ → Editor → Sequence × Editor
unfolding read_seq tilde_sequence letter_sequence o_sequence after_read
csi_from none first s = (unknown, s)
csi_from (some d) first s =
    if leb b'0' d && leb d b'9'
    then (tilde_sequence d (read_seq (s.host.stale 2) s), after_read s)
    else (if first == b'O'
        then (o_sequence (read_seq d s), after_read s)
        else (letter_sequence d, s))

-- By the first byte.
unfoldable pub sequence_from : Option ℕ → Editor → Sequence × Editor
unfolding csi_from alt_sequence after_read read_seq
sequence_from none s = (unknown, s)
sequence_from (some c) s =
    if c == b'['
    then csi_from (read_seq (s.host.stale 1) s) c (after_read s)
    else (alt_sequence c, s)

unfoldable pub read_sequence : Editor → Sequence × Editor
unfolding sequence_from read_seq after_read
read_sequence s = sequence_from (read_seq (s.host.stale 0) s) (after_read s)

unfoldable pub go_home : Editor → Editor
unfolding refresh
go_home s = refresh (record s { pos = 0 })

unfoldable pub go_end : Editor → Editor
unfolding refresh
go_end s = refresh (record s { pos = s.len })

unfoldable pub run_sequence : Sequence → Editor → Editor
unfolding go_home go_end kdelete historymove kright kleft kdeletew kleftw krightw kbackspacew
run_sequence unknown s = s
run_sequence start_of_line s = go_home s
run_sequence end_of_line s = go_end s
run_sequence delete s = kdelete true s
run_sequence up s = historymove (plus 1) s
run_sequence down s = historymove (minus 1) s
run_sequence right s = kright s
run_sequence left s = kleft s
run_sequence word_delete s = kdeletew s
run_sequence word_left s = kleftw s
run_sequence word_right s = krightw s
run_sequence oldest s = historymove (plus history_max) s
run_sequence newest s = historymove (minus history_max) s
run_sequence word_erase s = kbackspacew s

-- ctrl-k and ctrl-u
unfoldable pub kill_line : Editor → Editor
unfolding refresh
kill_line s = refresh (record s { buf = update s.buf s.pos 0; len = s.pos })

unfoldable pub kill_front : Editor → Editor
unfolding refresh
kill_front s = refresh (record s {
  buf = update (memmove s.buf 0 s.pos (s.len - s.pos)) (s.len - s.pos) 0;
  len = s.len - s.pos;
  pos = 0;
})

-- ctrl-z: the process stops itself, and goes on here when it is continued.
unfoldable pub suspend_self : Editor → Editor
unfolding rawmode norawmode refresh
suspend_self s = refresh (rawmode (norawmode s)).0

-- The loop goes on, or `line` returns 0 or -1.
pub data Next : Type 0 where
  again accepted rejected : Next

unfoldable pub press : Keypress → Editor → Editor × Next
unfolding go_home go_end kill_line kill_front suspend_self run_sequence read_sequence insert
    clearlines clear kleft kright kdelete kbackspace kbackspacew kshowcomp historymove refresh
press (plain c) s = let (s', broken) = insert c true s in (s', if broken then rejected else again)
press ignored s = (s, again)
press home s = (go_home s, again)
press back s = (kleft s, again)
press cancel s = (clearlines (record s { sigint_flag = true }), rejected)
press eof_or_delete s = if s.len == 0 then (clearlines s, rejected) else (kdelete true s, again)
press end s = (go_end s, again)
press forward s = (kright s, again)
press backspace s = (kbackspace true s, again)
press tab s = (refresh (kshowcomp s), again)
press kill s = (kill_line s, again)
press clear_screen s = (refresh (clear s), again)
press enter s = (clearlines s, accepted)
press next s = (historymove (minus 1) s, again)
press previous s = (historymove (plus 1) s, again)
press kill_before s = (kill_front s, again)
press erase_word s = (kbackspacew s, again)
press suspend s = (suspend_self s, again)
press escape s = let (q, s') = read_sequence s in (run_sequence q s', again)
