-- ===== src/Shell/Store.antt =====
-- super.c, the history as an array of pointers: what `sdup`, `historymove`, `addhistory`,
-- `replacehistory` and `janet_line_deinit` allocate, read and free.
pub mod Owned
pub mod Cells
pub mod Contents
pub mod Sound
pub mod Adds
pub mod Replaces
pub mod Moves
pub mod Safe
pub mod Refine
use puny_gui.Prelude.{
  ℕ, zero, suc, ◌+◌, ◌-◌, Bool, List, [], ◌∷◌, Option, none, some, length, ltb, ◌==◌, if◌then◌else◌,
  update,
}
use puny_gui.Shell.State.{history_max}
use puny_gui.Shell.History.{Delta, moved_index, shift_up, shift_down, str_same}

-- gbl_history, gbl_history_count and gbl_historyi, and the blocks of memory, by the number of the
-- call of malloc that gave them; `top` is the number of such calls.
pub record Store : Type 0 where
  pub cells : ℕ → Option ℕ
  pub count : ℕ
  pub index : ℕ
  pub blocks : ℕ → Option (List ℕ)
  pub top : ℕ

-- In what follows, none stands for what C leaves undefined: to read through NULL or a freed pointer,
-- and to free twice.
infixl 5 ◌>>◌
abbrev pub ◌>>◌ : {A B : Type 0} → Option A → (A → Option B) → Option B
none >> f = none
some a >> f = f a

-- free (p)
unfoldable pub free_block : Option ℕ → Store → Option Store
free_block none s = some s
free_block (some a) s = elim (s.blocks a) [
  | none ↦ none
  | some text ↦ some (record s { blocks = update s.blocks a none })
]

-- The string at a pointer.
abbrev pub string_at : Option ℕ → Store → Option (List ℕ)
string_at none s = none
string_at (some a) s = s.blocks a

-- The entries behind the first, one place down.
abbrev pub moved_down : Store → Store
moved_down s = record s { cells = shift_down (s.count - 1) 1 s.cells; count = s.count - 1 }

-- With no entry the count would become -1.
unfoldable pub drop_first : Store → Option Store
unfolding free_block shift_down
drop_first s = if s.count == 0 then none else (free_block (s.cells 0) s >> λ t. some (moved_down t))

-- A new first entry, and the others one place up, over the last.
abbrev pub pushed_over : ℕ → Store → Store
pushed_over a s = record s { cells = update (shift_up (s.count - 1) s.cells) 0 (some a) }

abbrev pub with_line : Option ℕ × Store → Option Store
with_line (none, s) = some s
with_line (some a, s) =
    if ltb s.count history_max
    then some (record s {
      cells = update (shift_up s.count (update s.cells s.count (some a))) 0 (some a);
      count = s.count + 1;
    })
    else (free_block (s.cells (history_max - 1)) s >> λ t. some (pushed_over a t))

abbrev pub put_first : ℕ → Store → Store
put_first a s = record s { cells = update s.cells 0 (some a) }

abbrev pub in_place : Option ℕ × Store → Option Store
in_place (none, s) = some s
in_place (some a, s) = free_block (s.cells 0) s >> λ t. some (put_first a t)

-- The entry that is left holds the line, and the entry that is come to is read.
abbrev pub moved_to : Delta → Option ℕ × Store → Store
moved_to delta (p, s) = record s {
  cells = update s.cells s.index p;
  index = moved_index s.count s.index delta;
}

module _ (malloc : ℕ → Bool) where
  -- sdup of a line: the pointer, or NULL, and the memory behind the call.
  unfoldable pub sdup : List ℕ → Store → Option ℕ × Store
  sdup line s =
      if malloc (length line + 1)
      then (some s.top, record s { blocks = update s.blocks s.top (some line); top = s.top + 1 })
      else (none, s)

  unfoldable pub add_line : List ℕ → Store → Option Store
  unfolding sdup free_block shift_up
  add_line line s = with_line (sdup line s)

  unfoldable pub replace_first : List ℕ → Store → Option Store
  unfolding sdup free_block
  replace_first line s = in_place (sdup line s)

  -- strcmp with the newest of the older entries.
  unfoldable pub finish_line : List ℕ → Store → Option Store
  unfolding drop_first replace_first str_same
  finish_line line s =
      if length line == 0
      then drop_first s
      else (if ltb 1 s.count
          then (string_at (s.cells 1) s >> λ last.
              if str_same line last then drop_first s else replace_first line s)
          else replace_first line s)

  unfoldable pub move_line : Delta → List ℕ → Store → Option Store
  unfolding free_block sdup moved_index
  move_line delta line s =
      if ltb 1 s.count
      then (free_block (s.cells s.index) s >> λ t.
          let u = moved_to delta (sdup line t) in string_at (u.cells u.index) u >> λ entry. some u)
      else some s

-- The loop of janet_line_deinit, over the entries from `i` on.
unfoldable pub free_entries : ℕ → ℕ → Store → Option Store
unfolding free_block
free_entries zero i s = some s
free_entries (suc n) i s = free_block (s.cells i) s >> free_entries n (suc i)

unfoldable pub janet_line_deinit : Store → Option Store
unfolding free_entries
janet_line_deinit s = free_entries s.count 0 s >> λ t. some (record t { index = 0 })

-- What a call of `janet_line_get` that edits a line does to the history: the moves, each with the
-- line that is left, and the line that is accepted, if one is.
pub record Session : Type 0 where
  pub moves : List (Delta × List ℕ)
  pub accepted : Option (List ℕ)

module _ (malloc : ℕ → Bool) where
  abbrev pub move_all : List (Delta × List ℕ) → Store → Option Store
  move_all [] s = some s
  move_all ((delta, line) ∷ rest) s = move_line malloc delta line s >> move_all rest

  abbrev pub finished : Option (List ℕ) → Store → Option Store
  finished none s = some s
  finished (some line) s = finish_line malloc line s

  -- The index is reset, and an entry is made of the empty line.
  abbrev pub run_session : Session → Store → Option Store
  run_session session s = add_line malloc [] (record s { index = 0 }) >> λ t.
      move_all session.moves t >> finished session.accepted

  abbrev pub run_sessions : List Session → Store → Option Store
  run_sessions [] s = some s
  run_sessions (session ∷ rest) s = run_session session s >> run_sessions rest

-- What a process starts with.
abbrev pub no_history : Store
no_history = record { cells = λ i. none; count = 0; index = 0; blocks = λ a. none; top = 0 }
