-- ===== src/Shell/Keys/Valid.antt =====
-- The cases of the switch in `line` and the well-formedness of the editor.
use puny_gui.Prelude.{
  ℕ, ◌<◌, refl, true, List, [], ◌∷◌, Option, none, some, arith, ltb, leb, ◌==◌, ◌&&◌, if_ind, All,
}
use puny_gui.Shell.State.{Editor, IsValid-same, history_max}
use puny_gui.Shell.Screen.{refresh, clear}
use puny_gui.Shell.Terminal.{after_read}
use puny_gui.Shell.Edit.Valid.{
  refresh-IsValid, insert-IsValid, kbackspace-IsValid, kdelete-IsValid, kleft-IsValid,
  kright-IsValid,
}
use puny_gui.Shell.Words.Valid.{
  kleftw-IsValid, krightw-IsValid, kbackspacew-IsValid, kdeletew-IsValid,
}
use puny_gui.Shell.Frame.{
  Frame-refl, refresh-Frame, insert-Frame, kbackspace-Frame, kdelete-Frame, kleft-Frame,
  kright-Frame, kleftw-Frame, krightw-Frame, kbackspacew-Frame, kdeletew-Frame,
}
use puny_gui.Shell.Drawn.{Drawn, Drawn-refl, Drawn-trans, after_read-Drawn, clearlines-Drawn}
use puny_gui.Shell.History.{plus, minus}
use puny_gui.Shell.Complete.Valid.{kshowcomp-Kept}
use puny_gui.Shell.Keys.{
  Keypress, plain, ignored, home, back, cancel, eof_or_delete, end, forward, backspace, tab, kill,
  clear_screen, enter, next, previous, kill_before, erase_word, suspend, escape, key_of, labelled,
  control_keys, Sequence, unknown, start_of_line, end_of_line, delete, up, down, right, left,
  word_delete, word_left, word_right, oldest, newest, word_erase, run_sequence, read_sequence,
  csi_from, sequence_from, read_seq, press, Next,
}
use puny_gui.Shell.Keys.Ready.{
  IsReady, Leads, Leads-trans, leads, Drawn-Leads, historymove-Leads, go_home-Leads, go_end-Leads,
  kill_line-Leads, kill_front-Leads, suspend_self-Leads,
}

module _ {s : Editor} (r : IsReady s) where
  -- Every escape sequence keeps the editor well formed.
  pub run_sequence-Leads : (q : Sequence) → Leads s (run_sequence q s)
  unfolding run_sequence
  run_sequence-Leads unknown = leads r r.line (Frame-refl s)
  run_sequence-Leads start_of_line = go_home-Leads r
  run_sequence-Leads end_of_line = go_end-Leads r
  run_sequence-Leads delete = leads r (kdelete-IsValid true r.line) (kdelete-Frame true s)
  run_sequence-Leads up = historymove-Leads (plus 1) r
  run_sequence-Leads down = historymove-Leads (minus 1) r
  run_sequence-Leads right = leads r (kright-IsValid r.line) (kright-Frame s)
  run_sequence-Leads left = leads r (kleft-IsValid r.line) (kleft-Frame s)
  run_sequence-Leads word_delete = leads r (kdeletew-IsValid r.line) (kdeletew-Frame s)
  run_sequence-Leads word_left = leads r (kleftw-IsValid r.line) (kleftw-Frame s)
  run_sequence-Leads word_right = leads r (krightw-IsValid r.line) (krightw-Frame s)
  run_sequence-Leads oldest = historymove-Leads (plus history_max) r
  run_sequence-Leads newest = historymove-Leads (minus history_max) r
  run_sequence-Leads word_erase = leads r (kbackspacew-IsValid r.line) (kbackspacew-Frame s)

-- The sequence and the state behind it: only input is taken.
abbrev TakesInput : Editor → Sequence × Editor → Type 0
TakesInput s r = Drawn s r.1

csi_from-Drawn : (o : Option ℕ) (c : ℕ) (s : Editor) → Drawn s (csi_from o c s).1
unfolding csi_from
csi_from-Drawn none c s = Drawn-refl s
csi_from-Drawn (some d) c s =
    if_ind (TakesInput s) (leb b'0' d && leb d b'9') (λ e. after_read-Drawn s)
      (λ e. if_ind (TakesInput s) (c == b'O') (λ e. after_read-Drawn s) (λ e. Drawn-refl s))

sequence_from-Drawn : (o : Option ℕ) (s : Editor) → Drawn s (sequence_from o s).1
unfolding sequence_from
sequence_from-Drawn none s = Drawn-refl s
sequence_from-Drawn (some c) s =
    if_ind (TakesInput s) (c == b'[')
      (λ e.
        Drawn-trans (after_read-Drawn s)
          (csi_from-Drawn (read_seq (s.host.stale 1) s) c (after_read s)))
      (λ e. Drawn-refl s)

read_sequence-Drawn : (s : Editor) → Drawn s (read_sequence s).1
unfolding read_sequence
read_sequence-Drawn s =
    Drawn-trans (after_read-Drawn s)
      (sequence_from-Drawn (read_seq (s.host.stale 0) s) (after_read s))

-- A byte that is put in the line is not NUL.
abbrev pub IsTyped : Keypress → Type 0
IsTyped (plain c) = 0 < c
IsTyped _ = Unit

labelled-IsTyped :
    (c : ℕ) (keys : List (ℕ × Keypress)) → All (λ p. IsTyped p.1) keys → IsTyped (labelled c keys)
unfolding labelled
labelled-IsTyped c [] h = tt
labelled-IsTyped c ((d, k) ∷ keys) h =
    if_ind IsTyped (c == d) (λ e. h.0) (λ e. labelled-IsTyped c keys h.1)

pub key_of-IsTyped : (c : ℕ) → IsTyped (key_of c)
unfolding key_of
key_of-IsTyped c =
    if_ind IsTyped (ltb c 32) (λ e. labelled-IsTyped c control_keys (omega arith))
      (λ e.
        if_ind IsTyped (c == 127) (λ e. tt)
          (λ e'. if_ind IsTyped (leb 128 c) (λ e''. tt) (λ e''. ground arith)))

flagged : {s : Editor} → IsReady s → Leads s (record s { sigint_flag = true })
flagged {s} r = leads r (IsValid-same s _ r.line refl refl r.line.cursor) (record {
  history = refl;
  history_count = refl;
  historyi = refl;
  complete_env = refl;
  host = refl;
  reads = omega arith;
})

redrawn : {s : Editor} → IsReady s → Leads s (refresh s)
redrawn r = leads r (refresh-IsValid r.line) (refresh-Frame (Frame-refl _))

cleared : {s : Editor} → IsReady s → Leads s (refresh (clear s))
unfolding clear
cleared {s} r = leads r (refresh-IsValid (IsValid-same s _ r.line refl refl r.line.cursor)) (
    refresh-Frame (record {
      history = refl;
      history_count = refl;
      historyi = refl;
      complete_env = refl;
      host = refl;
      reads = omega arith;
    }))

abbrev LeavesReady : Editor → Editor × Next → Type 0
LeavesReady s r = Leads s r.0

-- Every case of the switch in `line`, the escape sequences and completion among them, keeps a
-- well-formed editor well formed: the cursor in the line, the line within the buffer with its
-- NUL and no other, the index and the entries of the history, and the tables. No read is given
-- back. A plain byte is to be other than NUL.
pub press-Leads : (k : Keypress) {s : Editor} → IsTyped k → IsReady s → Leads s (press k s).0
unfolding press
press-Leads (plain c) {s} p r = leads r (insert-IsValid c true p r.line) (insert-Frame c true s)
press-Leads ignored {s} p r = leads r r.line (Frame-refl s)
press-Leads home p r = go_home-Leads r
press-Leads back {s} p r = leads r (kleft-IsValid r.line) (kleft-Frame s)
press-Leads cancel p r =
    Leads-trans (flagged r) (Drawn-Leads (clearlines-Drawn _) (flagged r).ready)
press-Leads eof_or_delete {s} p r =
    if_ind (LeavesReady s) (s.len == 0) (λ e. Drawn-Leads (clearlines-Drawn s) r)
      (λ e. leads r (kdelete-IsValid true r.line) (kdelete-Frame true s))
press-Leads end p r = go_end-Leads r
press-Leads forward {s} p r = leads r (kright-IsValid r.line) (kright-Frame s)
press-Leads backspace {s} p r = leads r (kbackspace-IsValid true r.line) (kbackspace-Frame true s)
press-Leads tab {s} p r =
    let (v, f) = kshowcomp-Kept {s = s} r.tables r.line in
    Leads-trans (leads r v f) (redrawn (leads r v f).ready)
press-Leads kill p r = kill_line-Leads r
press-Leads clear_screen p r = cleared r
press-Leads enter {s} p r = Drawn-Leads (clearlines-Drawn s) r
press-Leads next p r = historymove-Leads (minus 1) r
press-Leads previous p r = historymove-Leads (plus 1) r
press-Leads kill_before p r = kill_front-Leads r
press-Leads erase_word {s} p r = leads r (kbackspacew-IsValid r.line) (kbackspacew-Frame s)
press-Leads suspend p r = suspend_self-Leads r
press-Leads escape {s} p r =
    let read = Drawn-Leads (read_sequence-Drawn s) r in
    Leads-trans read (run_sequence-Leads read.ready (read_sequence s).0)
