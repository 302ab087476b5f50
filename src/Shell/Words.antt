-- ===== src/Shell/Words.antt =====
-- super.c, the operations over words: `kleftw`, `krightw`, `kbackspacew` and `kdeletew`.
pub mod Refine
pub mod Valid
use puny_gui.Prelude.{ℕ, zero, suc, ◌-◌, Bool, true, false, not, ◌||◌, ◌&&◌, leb, ltb, ◌==◌}
use puny_gui.Shell.State.{Editor}
use puny_gui.Shell.Screen.{refresh}
use puny_gui.Shell.Edit.{kbackspace, kdelete}

-- `isspace` of the C library, in its C locale.
abbrev pub is_space : ℕ → Bool
is_space c = (leb 9 c && leb c 13) || c == 32

abbrev pub not_space : ℕ → Bool
not_space c = not (is_space c)

-- while (gbl_pos > 0 && test (gbl_buf[gbl_pos - 1])) gbl_pos--;
unfoldable pub back_while : (ℕ → Bool) → (ℕ → ℕ) → ℕ → ℕ
back_while test m zero = zero
back_while test m (suc p) = elim (test (m p)) [ true ↦ back_while test m p | false ↦ suc p ]

-- while (gbl_pos != gbl_len && test (gbl_buf[gbl_pos])) gbl_pos++;
-- The first argument is gbl_len - gbl_pos, the rounds that are left.
unfoldable pub forth_while : ℕ → (ℕ → Bool) → (ℕ → ℕ) → ℕ → ℕ
forth_while zero test m p = p
forth_while (suc n) test m p = elim (test (m p)) [ true ↦ forth_while n test m (suc p) | false ↦ p ]

unfoldable pub skip_right : (ℕ → Bool) → Editor → Editor
unfolding forth_while
skip_right test s = record s { pos = forth_while (s.len - s.pos) test s.buf s.pos }

unfoldable pub skip_left : (ℕ → Bool) → Editor → Editor
unfolding back_while
skip_left test s = record s { pos = back_while test s.buf s.pos }

unfoldable pub kleftw : Editor → Editor
unfolding skip_left refresh
kleftw s = refresh (skip_left not_space (skip_left is_space s))

unfoldable pub krightw : Editor → Editor
unfolding skip_right refresh
krightw s = refresh (skip_right is_space (skip_right not_space s))

-- while (gbl_pos && test (gbl_buf[gbl_pos - 1])) kbackspace (0);
-- Each round takes one from gbl_pos, so that many rounds are enough.
unfoldable pub backspace_while : ℕ → (ℕ → Bool) → Editor → Editor
unfolding kbackspace
backspace_while zero test s = s
backspace_while (suc n) test s = elim (not (s.pos == 0) && test (s.buf (s.pos - 1))) [
  | true ↦ backspace_while n test (kbackspace false s)
  | false ↦ s
]

unfoldable pub erase_left : (ℕ → Bool) → Editor → Editor
unfolding backspace_while
erase_left test s = backspace_while s.pos test s

-- while (gbl_pos < gbl_len && test (gbl_buf[gbl_pos])) kdelete (0);
unfoldable pub delete_while : ℕ → (ℕ → Bool) → Editor → Editor
unfolding kdelete
delete_while zero test s = s
delete_while (suc n) test s = elim (ltb s.pos s.len && test (s.buf s.pos)) [
  | true ↦ delete_while n test (kdelete false s)
  | false ↦ s
]

unfoldable pub erase_right : (ℕ → Bool) → Editor → Editor
unfolding delete_while
erase_right test s = delete_while (s.len - s.pos) test s

unfoldable pub kbackspacew : Editor → Editor
unfolding erase_left refresh
kbackspacew s = refresh (erase_left not_space (erase_left is_space s))

unfoldable pub kdeletew : Editor → Editor
unfolding erase_right refresh
kdeletew s = refresh (erase_right not_space (erase_right is_space s))
