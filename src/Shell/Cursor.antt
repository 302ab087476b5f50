-- ===== src/Shell/Cursor.antt =====
-- What the line editor of super.c promises: a line is what stands before the cursor, the nearest
-- byte first, and what stands behind it. Each operation of the editor has its meaning here on
-- two lists.
use puny_gui.Prelude.{ℕ, ◌-◌, Bool, not, List, [], ◌∷◌, ◌++◌, reverse, drop_while, down, slice}
use puny_gui.Shell.State.{Editor}

pub record Cursor : Type 0 where
  pub left : List ℕ
  pub right : List ℕ

abbrev pub view : Editor → Cursor
view s = record { left = down s.buf s.pos; right = slice s.buf s.pos (s.len - s.pos) }

abbrev pub content : Cursor → List ℕ
content l = reverse l.left ++ l.right

abbrev pub typed : ℕ → Cursor → Cursor
typed c l = record l { left = c ∷ l.left }

abbrev pub erased_left : Cursor → Cursor
erased_left l = record l { left = elim l.left [ [] ↦ [] | _ ∷ xs ↦ xs ] }

abbrev pub erased_right : Cursor → Cursor
erased_right l = record l { right = elim l.right [ [] ↦ [] | _ ∷ xs ↦ xs ] }

abbrev pub moved_left : Cursor → Cursor
moved_left l = elim l.left [ [] ↦ l | x ∷ xs ↦ record { left = xs; right = x ∷ l.right } ]

abbrev pub moved_right : Cursor → Cursor
moved_right l = elim l.right [ [] ↦ l | x ∷ xs ↦ record { left = x ∷ l.left; right = xs } ]

abbrev pub moved_home : Cursor → Cursor
moved_home l = record { left = []; right = content l }

abbrev pub moved_end : Cursor → Cursor
moved_end l = record { left = reverse (content l); right = [] }

-- Deleting the word before the cursor, and the one behind it, with the spaces on the way.
abbrev pub word_erased_left : (ℕ → Bool) → Cursor → Cursor
word_erased_left space l = record l {
  left = drop_while (λ c. not (space c)) (drop_while space l.left);
}

abbrev pub word_erased_right : (ℕ → Bool) → Cursor → Cursor
word_erased_right space l = record l {
  right = drop_while (λ c. not (space c)) (drop_while space l.right);
}

abbrev pub killed_right : Cursor → Cursor
killed_right l = record l { right = [] }

abbrev pub killed_left : Cursor → Cursor
killed_left l = record l { left = [] }
