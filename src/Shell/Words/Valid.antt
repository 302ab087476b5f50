-- ===== src/Shell/Words/Valid.antt =====
-- The operations over words and the well-formedness of the line.
use puny_gui.Prelude.{ℕ, ◌-◌, refl, Bool, false, arith}
use puny_gui.Shell.State.{Editor, IsValid, IsValid-same}
use puny_gui.Shell.Edit.Valid.{kbackspace-IsValid, kdelete-IsValid, refresh-IsValid}
use puny_gui.Shell.Frame.{erase_left_inv, erase_right_inv}
use puny_gui.Shell.Words.{
  is_space, not_space, skip_left, skip_right, kleftw, krightw, erase_left, erase_right, kbackspacew,
  kdeletew,
}
use puny_gui.Shell.Words.Refine.{back_while-le, forth_while_bounds}

erase_left-IsValid : (test : ℕ → Bool) {s : Editor} → IsValid s → IsValid (erase_left test s)
erase_left-IsValid test {s} v = erase_left_inv IsValid test (λ t w. kbackspace-IsValid false w) s v

erase_right-IsValid : (test : ℕ → Bool) {s : Editor} → IsValid s → IsValid (erase_right test s)
erase_right-IsValid test {s} v = erase_right_inv IsValid test (λ t w. kdelete-IsValid false w) s v

pub kbackspacew-IsValid : {s : Editor} → IsValid s → IsValid (kbackspacew s)
unfolding kbackspacew
kbackspacew-IsValid v =
    refresh-IsValid (erase_left-IsValid not_space (erase_left-IsValid is_space v))

pub kdeletew-IsValid : {s : Editor} → IsValid s → IsValid (kdeletew s)
unfolding kdeletew
kdeletew-IsValid v =
    refresh-IsValid (erase_right-IsValid not_space (erase_right-IsValid is_space v))

skip_left-IsValid : (test : ℕ → Bool) {s : Editor} → IsValid s → IsValid (skip_left test s)
unfolding skip_left
skip_left-IsValid test {s} v =
    IsValid-same s _ v refl refl (omega (arith, v.cursor, back_while-le test s.buf s.pos))

skip_right-IsValid : (test : ℕ → Bool) {s : Editor} → IsValid s → IsValid (skip_right test s)
unfolding skip_right
skip_right-IsValid test {s} v =
    IsValid-same s _ v refl refl
      (omega (arith, v.cursor, forth_while_bounds (s.len - s.pos) test s.buf s.pos))

pub kleftw-IsValid : {s : Editor} → IsValid s → IsValid (kleftw s)
unfolding kleftw
kleftw-IsValid v = refresh-IsValid (skip_left-IsValid not_space (skip_left-IsValid is_space v))

pub krightw-IsValid : {s : Editor} → IsValid s → IsValid (krightw s)
unfolding krightw
krightw-IsValid v = refresh-IsValid (skip_right-IsValid is_space (skip_right-IsValid not_space v))
