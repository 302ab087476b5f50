-- ===== src/Shell/Prompt/Typing.antt =====
-- A line that is typed, edited and entered: the loop of `line` against the meaning of the keys.
use puny_gui.Prelude.{
  ℕ, zero, suc, ◌+◌, ◌-◌, ◌≤◌, ◌<◌, ◌≡◌, refl, ap, ap₂, ◌∙◌, sym, true, false, List, [], ◌∷◌, ◌++◌,
  All, length, ltb, arith, length-slice, down,
}
use puny_gui.Shell.State.{Editor, Read, byte, running, line_max}
use puny_gui.Shell.Cursor.{Cursor, view}
use puny_gui.Shell.Screen.{clearlines}
use puny_gui.Shell.Terminal.{next_read, later_reads, after_read}
use puny_gui.Shell.Drawn.{Drawn, Drawn-trans, after_read-Drawn, clearlines-Drawn}
use puny_gui.Shell.Keys.{
  Keypress, Next, again, accepted, rejected, plain, ignored, home, back, cancel, eof_or_delete, end,
  forward, backspace, tab, kill, clear_screen, enter, next, previous, kill_before, erase_word,
  suspend, escape, press, key_of,
}
use puny_gui.Shell.Keys.Ready.{IsReady, Drawn-Leads}
use puny_gui.Shell.Keys.Valid.{press-Leads, key_of-IsTyped}
use puny_gui.Shell.Keys.Refine.{IsEdit, edited, view-press, view-Drawn}
use puny_gui.Shell.Keys.Steady.{IsLasting, IsOpen, IsOpen-Steady, press-Steady}
use puny_gui.Shell.Prompt.{on_read, round, carry_on, rounds, is_running}

-- Bytes as the reads that give them.
abbrev pub typed_bytes : List ℕ → List Read
typed_bytes [] = []
typed_bytes (c ∷ cs) = byte c ∷ typed_bytes cs

abbrev pub size : Cursor → ℕ
size l = length l.left + length l.right

-- What the keys of these bytes mean for a line, one after the other.
abbrev pub edit_all : List ℕ → Cursor → Cursor
edit_all [] l = l
edit_all (c ∷ cs) l = edit_all cs (edited (ltb (size l) (line_max - 1)) (key_of c) l)

abbrev pub AreLasting : List ℕ → Type 0
AreLasting keys = All (λ c. IsLasting (key_of c)) keys

lasting-IsEdit : (k : Keypress) → IsLasting k → IsEdit k
lasting-IsEdit tab e = absurd e
lasting-IsEdit next e = absurd e
lasting-IsEdit previous e = absurd e
lasting-IsEdit escape e = absurd e
lasting-IsEdit cancel e = tt
lasting-IsEdit eof_or_delete e = tt
lasting-IsEdit enter e = tt
lasting-IsEdit (plain c) e = tt
lasting-IsEdit ignored e = tt
lasting-IsEdit home e = tt
lasting-IsEdit back e = tt
lasting-IsEdit end e = tt
lasting-IsEdit forward e = tt
lasting-IsEdit backspace e = tt
lasting-IsEdit kill e = tt
lasting-IsEdit clear_screen e = tt
lasting-IsEdit kill_before e = tt
lasting-IsEdit erase_word e = tt
lasting-IsEdit suspend e = tt

length-down : (m : ℕ → ℕ) (n : ℕ) → length (down m n) ≡ n
length-down m zero = refl
length-down m (suc n) = ap suc (length-down m n)

size-view : (s : Editor) → s.pos ≤ s.len → size (view s) ≡ s.len
size-view s h = omega (arith, length-down s.buf s.pos, length-slice s.buf s.pos (s.len - s.pos))

round_byte :
    (s : Editor) (c : ℕ) (rest : List Read)
    → s.input ≡ byte c ∷ rest
    → round s ≡ press (key_of c) (after_read s)
unfolding round on_read next_read
round_byte s c rest e = ap (λ input. on_read (next_read input) (after_read s)) e

after_read_rest :
    (s : Editor) (c : ℕ) (rest : List Read) → s.input ≡ byte c ∷ rest → (after_read s).input ≡ rest
unfolding after_read later_reads
after_read_rest s c rest e = ap later_reads e

after_read-IsOpen : {s : Editor} → IsOpen s → IsOpen (after_read s)
unfolding after_read
after_read-IsOpen o = record { narrow = o.narrow; writes = o.writes }

after_read_running : (s : Editor) → s.status ≡ running → (after_read s).status ≡ running
unfolding after_read
after_read_running s e = e

carry_on_again :
    (rest : Editor → Editor × Next) (r : Editor × Next)
    → r.1 ≡ again
    → r.0.status ≡ running
    → carry_on rest r ≡ rest r.0
unfolding carry_on
carry_on_again rest (t, again) e run =
    ap (λ x. elim (is_running x) [ true ↦ rest t | false ↦ (t, rejected) ]) run
carry_on_again rest (t, accepted) e run = cc
carry_on_again rest (t, rejected) e run = cc

clearlines_rest : (s : Editor) → (clearlines s).input ≡ s.input
unfolding clearlines
clearlines_rest s = ground arith

clearlines_status : (s : Editor) → (clearlines s).status ≡ s.status
unfolding clearlines
clearlines_status s = ground arith

-- Enter ends the loop, with the line as it stands.
rounds_enter :
    (f : ℕ) (s : Editor) (rest : List Read)
    → s.input ≡ byte 13 ∷ rest
    → rounds (suc f) s ≡ (clearlines (after_read s), accepted)
unfolding rounds carry_on press key_of
rounds_enter f s rest e = ap (carry_on (rounds f)) (round_byte s 13 rest e)

-- One key of the line.
rounds_key :
    (f : ℕ) {s : Editor} (c : ℕ) (rest : List Read)
    → IsReady s
    → IsOpen s
    → s.status ≡ running
    → IsLasting (key_of c)
    → s.input ≡ byte c ∷ rest
    → rounds (suc f) s ≡ rounds f (press (key_of c) (after_read s)).0
unfolding rounds
rounds_key f {s} c rest r o run k e =
    let taken = Drawn-Leads (after_read-Drawn s) r in
    let (d, goes_on) = press-Steady (key_of c) k (after_read-IsOpen o) taken.ready.line.cursor in
    ap (carry_on (rounds f)) (round_byte s c rest e)
    ∙ carry_on_again (rounds f) (press (key_of c) (after_read s)) goes_on
        (d.status ∙ after_read_running s run)

-- What a key does to the line of a state, whose size is the length.
meaning :
    (c : ℕ) (s : Editor)
    → IsLasting (key_of c)
    → (after_read s).pos ≤ (after_read s).len
    → view (press (key_of c) (after_read s)).0
      ≡ edited (ltb (size (view s)) (line_max - 1)) (key_of c) (view s)
meaning c s k h =
    let before : view (after_read s) ≡ view s = view-Drawn (after_read-Drawn s) in
    let room : (after_read s).len ≡ size (view s) =
      sym (size-view (after_read s) h) ∙ ap size before in
    view-press (key_of c) (after_read s) (lasting-IsEdit (key_of c) k) h
    ∙ ap₂ (λ n l. edited (ltb n (line_max - 1)) (key_of c) l) room before

-- How the loop ends on a line that was entered.
pub record Entered (s : Editor) (l : Cursor) (rest : List Read) (r : Editor × Next) : Type 0 where
  pub ready : IsReady r.0
  pub taken : r.1 ≡ accepted
  pub line : view r.0 ≡ l
  pub left : r.0.input ≡ rest
  pub status : r.0.status ≡ running
  pub host : r.0.host ≡ s.host
  pub history : r.0.history ≡ s.history
  pub history_count : r.0.history_count ≡ s.history_count

-- From a well-formed running state, with a prompt narrower than the screen and a terminal that
-- takes what is written, and with fuel above the number of keys: the loop of `line` that reads
-- keys which edit the line and never end it, and then Enter, accepts the line in a well-formed
-- state. The line is then what the keys mean one after the other, the reads behind the Enter
-- are left, the process still runs, and the host and the history are as they were.
pub rounds-Entered :
    (keys : List ℕ) (rest : List Read) (f : ℕ) {s : Editor}
    → IsReady s
    → IsOpen s
    → s.status ≡ running
    → AreLasting keys
    → s.input ≡ typed_bytes keys ++ byte 13 ∷ rest
    → length keys < f
    → Entered s (edit_all keys (view s)) rest (rounds f s)
rounds-Entered keys rest zero r o run k e h = absurd (omega arith)
rounds-Entered [] rest (suc f) {s} r o run k e h =
    let taken = Drawn-Leads (after_read-Drawn s) r in
    let drawn : Drawn s (clearlines (after_read s)) =
      Drawn-trans (after_read-Drawn s) (clearlines-Drawn (after_read s)) in
    rw (rounds_enter f s rest e) (record {
      ready = (Drawn-Leads (clearlines-Drawn (after_read s)) taken.ready).ready;
      taken = refl;
      line = view-Drawn (clearlines-Drawn (after_read s)) ∙ view-Drawn (after_read-Drawn s);
      left = clearlines_rest (after_read s) ∙ after_read_rest s 13 rest e;
      status = clearlines_status (after_read s) ∙ after_read_running s run;
      host = drawn.frame.host;
      history = drawn.frame.history;
      history_count = drawn.frame.history_count;
    })
rounds-Entered (c ∷ keys) rest (suc f) {s} r o run k e h =
    let first = Drawn-Leads (after_read-Drawn s) r in
    let (d, goes_on) = press-Steady (key_of c) k.0 (after_read-IsOpen o) first.ready.line.cursor in
    let ready = (press-Leads (key_of c) (key_of-IsTyped c) first.ready).ready in
    let fed : (press (key_of c) (after_read s)).0.input ≡ typed_bytes keys ++ byte 13 ∷ rest =
      d.input ∙ after_read_rest s c _ e in
    let later =
      rounds-Entered keys rest f ready (IsOpen-Steady (after_read-IsOpen o) d)
        (d.status ∙ after_read_running s run) k.1 fed (omega arith) in
    rw (rounds_key f c _ r o run k.0 e) (record {
      ready = later.ready;
      taken = later.taken;
      line = later.line ∙ ap (edit_all keys) (meaning c s k.0 first.ready.line.cursor);
      left = later.left;
      status = later.status;
      host = later.host ∙ d.host ∙ (after_read-Drawn s).frame.host;
      history = later.history ∙ d.history ∙ (after_read-Drawn s).frame.history;
      history_count =
          later.history_count ∙ d.history_count ∙ (after_read-Drawn s).frame.history_count;
    })
