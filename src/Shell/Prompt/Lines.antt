-- ===== src/Shell/Prompt/Lines.antt =====
-- `janet_line_getter`, called for one line after the other.
use puny_gui.Prelude.{
  ℕ, ◌-◌, ◌≤◌, ◌≡◌, refl, ap, ◌∙◌, true, List, [], ◌∷◌, ◌++◌, Option, none, some, length, take,
  until_nul,
}
use puny_gui.Shell.State.{Editor, Read, byte, history_max}
use puny_gui.Shell.Cursor.{content}
use puny_gui.Shell.History.{entries}
use puny_gui.Shell.History.Refine.{accepted}
use puny_gui.Shell.Prompt.{string, janet_line_get, janet_line_getter, checktermsupport}
use puny_gui.Shell.Prompt.Typing.{typed_bytes, edit_all, AreLasting}
use puny_gui.Shell.Prompt.Answer.{IsIdle, IsTerminal, HandsBack, blank, janet_line_get_lem}

-- A call with a prompt, and the keys that are typed before its Enter.
pub record Prompted : Type 0 where
  pub prompt : List ℕ
  pub keys : List ℕ

-- The lines that the keys mean.
abbrev meant : Prompted → List ℕ
meant l = content (edit_all l.keys blank)

-- The reads that give the lines, and the ones behind them.
abbrev pub typed_lines : List Prompted → List Read → List Read
typed_lines [] rest = rest
typed_lines (l ∷ ls) rest = typed_bytes l.keys ++ byte 13 ∷ typed_lines ls rest

-- What the calls are to hand back.
abbrev pub handed_back : List Prompted → List (List ℕ)
handed_back [] = []
handed_back (l ∷ ls) = (meant l ++ 10 ∷ []) ∷ handed_back ls

-- The history behind the lines.
abbrev pub recorded_lines : List Prompted → List (Option (List ℕ)) → List (Option (List ℕ))
recorded_lines [] es = es
recorded_lines (l ∷ ls) es = recorded_lines ls (accepted (meant l) (take (history_max - 1) es))

-- The prompts are narrower than the screen, and the keys edit the line and never end it.
abbrev pub AreTypable : ℕ → List Prompted → Type 0
AreTypable w [] = Unit
AreTypable w (l ∷ ls) = ((length (until_nul l.prompt) ≤ w) × AreLasting l.keys) × AreTypable w ls

abbrev with_line : List ℕ → Option (List (List ℕ) × Editor) → Option (List (List ℕ) × Editor)
with_line b none = none
with_line b (some (bs, s)) = some (b ∷ bs, s)

abbrev and_later :
    (Editor → Option (List (List ℕ) × Editor))
    → Option (List ℕ × Editor)
    → Option (List (List ℕ) × Editor)
and_later later none = none
and_later later (some (b, s)) = with_line b (later s)

-- The calls, one after the other.
abbrev pub getlines : List Prompted → Editor → Option (List (List ℕ) × Editor)
getlines [] s = some ([], s)
getlines (l ∷ ls) s = and_later (getlines ls) (janet_line_getter (string l.prompt ∷ []) s)

no_tables-IsIdle : {s : Editor} → IsIdle s → IsIdle (record s { complete_env = none })
no_tables-IsIdle idle = record {
  alive = idle.alive;
  clean = idle.clean;
  bounded = idle.bounded;
  lines = idle.lines;
  tables = tt;
}

host-IsTerminal : {w : ℕ} (s t : Editor) → t.host ≡ s.host → IsTerminal w s → IsTerminal w t
unfolding checktermsupport
host-IsTerminal s t e k = record {
  isatty = rw e k.isatty;
  gets = rw e k.gets;
  sets = rw e k.sets;
  writes = rw e k.writes;
  supported = rw e k.supported;
  columns = rw e k.columns;
}

-- One call.
janet_line_getter_lem :
    (l : Prompted) (rest : List Read) {w : ℕ} (s : Editor)
    → IsIdle s
    → IsTerminal w s
    → ((n : ℕ) → s.host.malloc n ≡ true)
    → length (until_nul l.prompt) ≤ w
    → AreLasting l.keys
    → s.input ≡ typed_bytes l.keys ++ byte 13 ∷ rest
    → (t : Editor) × (janet_line_getter (string l.prompt ∷ []) s ≡ some (meant l ++ 10 ∷ [], t))
      × IsIdle t
      × (entries t ≡ accepted (meant l) (take (history_max - 1) (entries s)))
      × (t.input ≡ rest)
      × (t.host ≡ s.host)
unfolding janet_line_getter
janet_line_getter_lem l rest s idle k served narrow lasting e =
    let begun : Editor = record s { complete_env = none } in
    let done : HandsBack (meant l) rest begun (janet_line_get (until_nul l.prompt) begun) =
      janet_line_get_lem (until_nul l.prompt) l.keys rest (no_tables-IsIdle idle)
        (host-IsTerminal s begun refl k) served narrow lasting e in
    let t : Editor = record (janet_line_get (until_nul l.prompt) begun).1 { complete_env = none } in
    (
      t,
      ap (λ b. some (b, t)) done.bytes,
      no_tables-IsIdle done.idle,
      done.stored,
      done.left,
      done.host,
    )

-- Between two lines (the process runs, the cells behind the line are NUL, the history is within
-- its bound and each entry is a line and not NULL, and the tables for completion are well
-- formed), on a supported terminal that takes every write, and with memory for every request:
-- when `janet_line_getter` is called with one prompt after the other, each with fewer bytes
-- than the screen has columns, and for each the bytes typed are keys that edit the line and
-- never end it, and then Enter, every call hands back the line that its keys mean, starting
-- from the empty line, and a newline. The process still runs and the editor is between two
-- lines again, with the reads behind the last Enter left; and the history is what it was with
-- each line put in front of the newest 99 entries, unless it is empty or the same as the newest
-- of them.
pub getlines_lem :
    (ls : List Prompted) (rest : List Read) {w : ℕ} (s : Editor)
    → IsIdle s
    → IsTerminal w s
    → ((n : ℕ) → s.host.malloc n ≡ true)
    → AreTypable w ls
    → s.input ≡ typed_lines ls rest
    → (t : Editor) × (getlines ls s ≡ some (handed_back ls, t))
      × IsIdle t
      × (entries t ≡ recorded_lines ls (entries s))
      × (t.input ≡ rest)
getlines_lem [] rest s idle k served h e = (s, refl, idle, refl, e)
getlines_lem (l ∷ ls) rest s idle k served ((narrow, lasting), later) e =
    let (t, got, idle', stored, left, host) =
      janet_line_getter_lem l (typed_lines ls rest) s idle k served narrow lasting e in
    let (u, all, idle'', stored', left') =
      getlines_lem ls rest t idle' (host-IsTerminal s t host k) (λ n. rw host (served n)) later
        left in
    (
      u,
      ap (and_later (getlines ls)) got ∙ ap (with_line (meant l ++ 10 ∷ [])) all,
      idle'',
      stored' ∙ ap (recorded_lines ls) stored,
      left',
    )
