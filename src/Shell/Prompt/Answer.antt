-- ===== src/Shell/Prompt/Answer.antt =====
-- `janet_line_get` from the prompt to the bytes that it hands back.
use puny_gui.Prelude.{
  take, drop, none, Option, ◌≢◌, ℕ, suc, ◌-◌, ◌≤◌, ◌<◌, ◌≡◌, refl, ap, ap₂, subst, ◌∙◌, sym, Bool,
  true, not, ◌&&◌, ◌||◌, List, [], ◌∷◌, ◌++◌, some, if_ind, if_true, if◌then◌else◌, length, arith,
  update, slice, down,
}
use puny_gui.Shell.State.{
  Editor, Read, byte, running, text, Host, history_max, IsValid, IsValid-same,
}
use puny_gui.Shell.Cursor.{Cursor, view, content}
use puny_gui.Shell.Terminal.{rawmode, norawmode, getcols, cols_from}
use puny_gui.Shell.Edit.Refine.{text-eq-content}
use puny_gui.Shell.History.{addhistory, entries}
use puny_gui.Shell.History.Valid.{IsStored, IsEntry}
use puny_gui.Shell.History.Kept.{IsFilled, HasLines, replacehistory-Keeps, addhistory-HasLines}
use puny_gui.Shell.History.Refine.{entries-addhistory, entries-replacehistory}
use puny_gui.Shell.History.Refine.{accepted as entered}
use puny_gui.Shell.Drawn.{norawmode-Drawn}
use puny_gui.Shell.Complete.Valid.{IsTables}
use puny_gui.Shell.Keys.{accepted, rejected, again}
use puny_gui.Shell.Keys.Steady.{IsOpen, norawmode-Steady}
use puny_gui.Shell.Prompt.{
  fresh_line, line, rounds, give_up, take_line, edit_line, checktermsupport, janet_line_get,
  simpleline,
}
use puny_gui.Shell.Prompt.Fresh.{
  IsClean, emptied, addhistory-Same, shown, line_lem, opened-IsReady, emptied-IsValid,
}
use puny_gui.Shell.Prompt.Typing.{typed_bytes, edit_all, AreLasting, Entered, rounds-Entered}

-- The editor between two lines.
pub record IsIdle (s : Editor) : Type 0 where
  pub alive : s.status ≡ running
  pub clean : IsClean s
  pub bounded : s.history_count ≤ history_max
  pub lines : HasLines s
  pub tables : IsTables s.complete_env

-- A terminal that the editor supports, with `w` + 1 columns.
pub record IsTerminal (w : ℕ) (s : Editor) : Type 0 where
  pub isatty : s.host.isatty ≡ true
  pub gets : s.host.tcgetattr_ok ≡ true
  pub sets : s.host.tcsetattr_ok ≡ true
  pub writes : s.host.tty_ok ≡ true
  pub supported : checktermsupport s ≡ true
  pub columns : s.host.winsize ≡ some (suc w)

-- The state in which the history gets its new entry.
abbrev started : ℕ → Editor → Editor
started cols s = emptied cols (length s.prompt) s

cols_from_lem : (w : ℕ) (s : Editor) → cols_from (some (suc w)) s ≡ (suc w, s)
unfolding cols_from
cols_from_lem w s = ground arith

getcols_lem : {w : ℕ} (s : Editor) → s.host.winsize ≡ some (suc w) → getcols s ≡ (suc w, s)
unfolding getcols
getcols_lem {w} s e = ap (λ o. cols_from o s) e ∙ cols_from_lem w s

fresh_line_lem :
    {w : ℕ} (s : Editor)
    → s.host.winsize ≡ some (suc w)
    → fresh_line s ≡ addhistory (started (suc w) s)
unfolding fresh_line
fresh_line_lem {w} s e =
    ap
      (λ (r : ℕ × Editor). addhistory (record r.1 {
        cols = r.0;
        plen = length s.prompt;
        len = 0;
        pos = 0;
        buf = update r.1.buf 0 0;
      }))
      (getcols_lem s e)

edit_line-accepted : (s : Editor) → (line s).1 ≡ accepted → edit_line s ≡ take_line (line s).0
unfolding edit_line
edit_line-accepted s e =
    ap
      (λ n. elim n [
        | accepted ↦ take_line (line s).0
        | rejected ↦ ([], give_up (line s).0)
        | again ↦ ([], give_up (line s).0)
      ])
      e

take_line-text : (s : Editor) → (take_line s).0 ≡ text s ++ 10 ∷ []
unfolding take_line norawmode
take_line-text s =
    if_ind (λ (t : Editor). slice t.buf 0 t.len ++ 10 ∷ [] ≡ text s ++ 10 ∷ [])
      (s.israwmode && s.host.tcsetattr_ok) (λ e. refl) (λ e. refl)

abbrev prompted : List ℕ → Editor → Editor
prompted p s = record s { prompt = p; historyi = 0 }

abbrev raw_line : Editor × Bool → List ℕ × Editor
raw_line r = if r.1 then edit_line r.0 else simpleline r.0

prompted_supported :
    (p : List ℕ) (s : Editor) → checktermsupport s ≡ true → checktermsupport (prompted p s) ≡ true
unfolding checktermsupport
prompted_supported p s e = e

rawmode_lem :
    (s : Editor)
    → s.host.isatty ≡ true
    → s.host.tcgetattr_ok ≡ true
    → s.host.tcsetattr_ok ≡ true
    → rawmode s ≡ (record s { israwmode = true }, true)
unfolding rawmode
rawmode_lem s a b c = if_true _ _ (ap₂ (λ x y. x && y) a (ap₂ (λ x y. x && y) b c))

janet_line_get_raw :
    (p : List ℕ) {w : ℕ} (s : Editor)
    → IsTerminal w s
    → janet_line_get p s ≡ edit_line (record s { prompt = p; historyi = 0; israwmode = true })
unfolding janet_line_get
janet_line_get_raw p s t =
    ap (λ b. if b then simpleline (prompted p s) else raw_line (rawmode (prompted p s)))
      (ap₂ (λ a b. not a || not b) t.isatty (prompted_supported p s t.supported))
    ∙ ap raw_line (rawmode_lem (prompted p s) t.isatty t.gets t.sets)

-- The editor before the first key: the history has its entry, and the prompt is on the screen.
abbrev opened : ℕ → Editor → Editor
opened cols s = shown (addhistory (started cols s))

-- The empty line.
abbrev pub blank : Cursor
blank = record { left = []; right = [] }

view-opened : (cols : ℕ) (s : Editor) → view (opened cols s) ≡ blank
view-opened cols s =
    let d = addhistory-Same (started cols s) in
    λ i. record {
      left = down (d.buf i) (d.pos i);
      right = slice (d.buf i) (d.pos i) (d.len i - d.pos i);
    }

length-typed :
    (keys : List ℕ) (rest : List Read) → length keys < suc (length (typed_bytes keys ++ rest))
length-typed [] rest = omega arith
length-typed (c ∷ keys) rest = omega (arith, length-typed keys rest)

line_opened :
    {w : ℕ} (s : Editor)
    → s.host.winsize ≡ some (suc w)
    → s.host.tty_ok ≡ true
    → line s ≡ rounds (suc (length (opened (suc w) s).input)) (opened (suc w) s)
line_opened {w} s columns writes =
    let e = fresh_line_lem s columns in
    line_lem s (
      ap (λ (t : Editor). t.host.tty_ok) e
      ∙ ap (λ (h : Host). h.tty_ok) (addhistory-Same (started (suc w) s)).host
      ∙ writes)
    ∙ ap (λ (t : Editor). rounds (suc (length t.input)) (shown t)) e

line-Entered :
    (keys : List ℕ) (rest : List Read) {w : ℕ} {s : Editor}
    → IsClean s
    → IsStored s
    → IsTables s.complete_env
    → s.status ≡ running
    → s.host.winsize ≡ some (suc w)
    → s.host.tty_ok ≡ true
    → length s.prompt ≤ w
    → AreLasting keys
    → s.input ≡ typed_bytes keys ++ byte 13 ∷ rest
    → Entered (opened (suc w) s) (edit_all keys blank) rest (line s)
line-Entered keys rest {w} {s} clean h k run columns writes narrow lasting e =
    let d = addhistory-Same (started (suc w) s) in
    let wide : (opened (suc w) s).plen < (opened (suc w) s).cols = omega (arith, d.plen, d.cols) in
    let open_screen : IsOpen (opened (suc w) s) = record {
      narrow = wide;
      writes = ap (λ (h : Host). h.tty_ok) d.host ∙ writes;
    } in
    let fuel : length keys < suc (length (opened (suc w) s).input) =
      omega (arith, ap length (d.input ∙ e), length-typed keys (byte 13 ∷ rest)) in
    subst (Entered (opened (suc w) s) (edit_all keys blank) rest)
      (sym (line_opened s columns writes))
      (subst
        (λ l.
          Entered (opened (suc w) s) (edit_all keys l) rest
            (rounds (suc (length (opened (suc w) s).input)) (opened (suc w) s)))
        (view-opened (suc w) s)
        (rounds-Entered keys rest _ (opened-IsReady (suc w) (length s.prompt) s clean h k)
          open_screen (d.status ∙ run) lasting (d.input ∙ e) fuel))

filled-IsEntry : (o : Option (List ℕ)) → IsFilled o → IsEntry o
filled-IsEntry none h = tt
filled-IsEntry (some e) h = h

-- What is left of a call that reads the line `l`, from the editor `s` between two lines.
pub record HandsBack (l : List ℕ) (rest : List Read) (s : Editor) (r : List ℕ × Editor)
    : Type 0 where
  pub bytes : r.0 ≡ l ++ 10 ∷ []
  pub idle : IsIdle r.1
  pub stored : entries r.1 ≡ entered l (take (history_max - 1) (entries s))
  pub left : r.1.input ≡ rest
  pub host : r.1.host ≡ s.host

-- The entries behind the first one.
older :
    (s : Editor) (n : ℕ) (x : Option (List ℕ)) (xs : List (Option (List ℕ)))
    → s.history_count ≡ suc n
    → entries s ≡ x ∷ xs
    → slice s.history 1 n ≡ xs
older s n x xs count e = ap (drop 1) (sym (ap (slice s.history 0) count) ∙ e)

-- The editor behind the line, before the history is put in order.
abbrev noted : Editor → Editor
noted t = record (norawmode t) { err = (norawmode t).err ++ 10 ∷ [] }

noted-IsValid : {t : Editor} → IsValid t → IsValid (noted t)
noted-IsValid {t} v =
    let d = norawmode-Drawn t in
    IsValid-same t (noted t) v d.buf d.len (omega (arith, d.pos, d.len, v.cursor))

noted-HasLines : (t : Editor) → HasLines t → HasLines (noted t)
noted-HasLines t h j b =
    let d = (norawmode-Drawn t).frame in rw d.history (h j (omega (arith, d.history_count)))

take_line-entries :
    {t : Editor} (n : ℕ) (xs : List (Option (List ℕ)))
    → IsValid t
    → HasLines t
    → ((k : ℕ) → t.host.malloc k ≡ true)
    → t.history_count ≡ suc n
    → slice t.history 1 n ≡ xs
    → entries (take_line t).1 ≡ entered (text t) xs
unfolding take_line
take_line-entries {t} n xs v h served count e =
    let d = norawmode-Drawn t in
    entries-replacehistory n (noted-IsValid v) (d.frame.history_count ∙ count)
      (rw d.frame.host (served _)) (λ many null. second (noted t) many (noted-HasLines t h) null)
    ∙ ap₂ entered (ap₂ (λ b m. slice b 0 m) d.buf d.len) (ap (λ m. slice m 1 n) d.frame.history ∙ e)
  where
    second : (u : Editor) → 1 < u.history_count → HasLines u → u.history 1 ≢ none
    second u many k null = subst IsFilled null (k 1 many)

take_line-HandsBack :
    {l : Cursor} {rest : List Read} {s o t : Editor}
    → Entered o l rest (t, accepted)
    → HasLines o
    → 0 < o.history_count
    → ((k : ℕ) → s.host.malloc k ≡ true)
    → o.host ≡ s.host
    → entries o ≡ some [] ∷ take (history_max - 1) (entries s)
    → HandsBack (content l) rest s (take_line t)
unfolding take_line
take_line-HandsBack {l} {rest} {s} {o} {t} done h many served host made =
    let v = done.ready.line in
    let lines : HasLines t = λ j b. rw done.history (h j (omega (arith, done.history_count))) in
    let count : t.history_count ≡ suc (t.history_count - 1) = omega (arith, done.history_count) in
    let listed : entries t ≡ some [] ∷ take (history_max - 1) (entries s) =
      ap₂ (λ m c. slice m 0 c) done.history done.history_count ∙ made in
    let typed : text t ≡ content l = text-eq-content t v.cursor ∙ ap content done.line in
    let d = norawmode-Drawn t in
    let e = norawmode-Steady t v.cursor in
    let k =
      replacehistory-Keeps (noted-IsValid v)
        (omega (arith, d.frame.history_count, done.history_count)) (noted-HasLines t lines) in
    record {
      bytes = take_line-text t ∙ ap (λ xs. xs ++ 10 ∷ []) typed;
      idle = record {
        alive = k.status ∙ e.status ∙ done.status;
        clean = k.line.clean;
        bounded = omega (arith, k.fewer, d.frame.history_count, done.ready.stored.bounded);
        lines = k.lines;
        tables = rw (k.complete_env, d.frame.complete_env) done.ready.tables;
      };
      stored =
          take_line-entries (t.history_count - 1) _ v lines (λ n. rw (done.host, host) (served n))
            count (older t (t.history_count - 1) _ _ count listed)
          ∙ ap (λ xs. entered xs (take (history_max - 1) (entries s))) typed;
      left = k.input ∙ e.input ∙ done.left;
      host = k.host ∙ d.frame.host ∙ done.host ∙ host;
    }

-- Between two lines (the process runs, the cells behind the line are NUL, the history is within
-- its bound and each entry is a line and not NULL, and the tables for completion are well
-- formed), on a supported terminal that takes every write and has more columns than the prompt
-- has bytes, and with memory for every request: when bytes whose keys edit the line and never
-- end it are typed, and then Enter, `janet_line_get` hands back the line that the keys mean one
-- after the other, starting from the empty line, and a newline. The process still runs and the
-- editor is between two lines again, with the reads behind the Enter left and the host as it
-- was. The entries are then the newest 99 of the older ones, with the line in front unless it
-- is empty or the same as the newest of them.
pub janet_line_get_lem :
    (p keys : List ℕ) (rest : List Read) {w : ℕ} {s : Editor}
    → IsIdle s
    → IsTerminal w s
    → ((n : ℕ) → s.host.malloc n ≡ true)
    → length p ≤ w
    → AreLasting keys
    → s.input ≡ typed_bytes keys ++ byte 13 ∷ rest
    → HandsBack (content (edit_all keys blank)) rest s (janet_line_get p s)
janet_line_get_lem p keys rest {w} {s} idle t served narrow lasting e =
    let begun : Editor = record s { prompt = p; historyi = 0; israwmode = true } in
    let h : IsStored begun = record {
      bounded = idle.bounded;
      index = omega arith;
      stored = λ j b. filled-IsEntry (s.history j) (idle.lines j b);
    } in
    let made : Editor = started (suc w) begun in
    let v : IsValid made = emptied-IsValid (suc w) (length p) begun idle.clean in
    let (lines, some_entry) = addhistory-HasLines v (served _) idle.bounded idle.lines in
    let done : Entered (opened (suc w) begun) (edit_all keys blank) rest (line begun) =
      line-Entered keys rest idle.clean h idle.tables idle.alive t.columns t.writes narrow lasting
        e in
    subst (HandsBack (content (edit_all keys blank)) rest s)
      (sym (janet_line_get_raw p s t ∙ edit_line-accepted begun done.taken))
      (take_line-HandsBack
        (subst (λ n. Entered (opened (suc w) begun) (edit_all keys blank) rest ((line begun).0, n))
          done.taken done)
        lines some_entry served (addhistory-Same made).host
        (entries-addhistory v idle.bounded (served _)))
