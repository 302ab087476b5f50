-- ===== src/Shell/Words/Refine.antt =====
-- The operations over words against their meaning on the two lists around the cursor.
use puny_gui.Prelude.{
  ℕ, zero, suc, ◌+◌, ◌-◌, ◌≤◌, ◌<◌, ◌≡◌, refl, ap, ◌∙◌, sym, Bool, false, arith, slice, down,
  drop_while,
}
use puny_gui.Shell.State.{Editor}
use puny_gui.Shell.Cursor.{Cursor, view, content, word_erased_left, word_erased_right}
use puny_gui.Shell.Screen.{refresh}
use puny_gui.Shell.Edit.{kbackspace, kdelete}
use puny_gui.Shell.Edit.Refine.{
  text-eq-content, view-kbackspace, view-kdelete, down_zero, down_pos, right_end, right_pos,
}
use puny_gui.Shell.Words.{
  is_space, not_space, back_while, forth_while, skip_left, skip_right, kleftw, krightw,
  backspace_while, erase_left, delete_while, erase_right, kbackspacew, kdeletew,
}

view-refresh : (s : Editor) → view (refresh s) ≡ view s
unfolding refresh
view-refresh s = refl

-- The cursor stays in the line.
pub kbackspace-IsInside :
    (draw : Bool) (s : Editor) → s.pos ≤ s.len → (kbackspace draw s).pos ≤ (kbackspace draw s).len
unfolding kbackspace
kbackspace-IsInside draw s h = ground arith

pub kdelete-IsInside :
    (draw : Bool) (s : Editor) → s.pos ≤ s.len → (kdelete draw s).pos ≤ (kdelete draw s).len
unfolding kdelete
kdelete-IsInside draw s h = ground arith

pos-kbackspace : (s : Editor) → 0 < s.pos → (kbackspace false s).pos ≡ s.pos - 1
unfolding kbackspace
pos-kbackspace s h = ground arith

-- The loop takes from the list before the cursor while the test holds, with fuel for every byte.
backspace_while_lem :
    (n : ℕ) (test : ℕ → Bool) (s : Editor)
    → s.pos ≤ n
    → s.pos ≤ s.len
    → (view (backspace_while n test s) ≡ record (view s) { left = drop_while test (view s).left })
      × ((backspace_while n test s).pos ≤ (backspace_while n test s).len)
unfolding backspace_while
backspace_while_lem zero test s h l = (rw (down_zero s (omega arith)), l)
backspace_while_lem (suc n) test s h l = ground (
  arith,
  backspace_while_lem n test (kbackspace false s),
  view-kbackspace false s,
  kbackspace-IsInside false s,
  pos-kbackspace s,
  down_zero s,
  down_pos s,
)

pos-kdelete :
    (s : Editor)
    → s.pos < s.len
    → ((kdelete false s).pos ≡ s.pos) × ((kdelete false s).len ≡ s.len - 1)
unfolding kdelete
pos-kdelete s h = ground arith

delete_while_lem :
    (n : ℕ) (test : ℕ → Bool) (s : Editor)
    → s.len - s.pos ≤ n
    → s.pos ≤ s.len
    → (view (delete_while n test s) ≡ record (view s) { right = drop_while test (view s).right })
      × ((delete_while n test s).pos ≤ (delete_while n test s).len)
unfolding delete_while
delete_while_lem zero test s h l = (rw (right_end s (omega arith)), l)
delete_while_lem (suc n) test s h l = ground (
  arith,
  delete_while_lem n test (kdelete false s),
  view-kdelete false s,
  kdelete-IsInside false s,
  pos-kdelete s,
  right_end s,
  right_pos s,
)

erase_left_lem :
    (test : ℕ → Bool) (s : Editor)
    → s.pos ≤ s.len
    → (view (erase_left test s) ≡ record (view s) { left = drop_while test (view s).left })
      × ((erase_left test s).pos ≤ (erase_left test s).len)
unfolding erase_left
erase_left_lem test s l = backspace_while_lem s.pos test s (omega arith) l

erase_right_lem :
    (test : ℕ → Bool) (s : Editor)
    → s.pos ≤ s.len
    → (view (erase_right test s) ≡ record (view s) { right = drop_while test (view s).right })
      × ((erase_right test s).pos ≤ (erase_right test s).len)
unfolding erase_right
erase_right_lem test s l = delete_while_lem (s.len - s.pos) test s (omega arith) l

pub view-kbackspacew :
    (s : Editor) → s.pos ≤ s.len → view (kbackspacew s) ≡ word_erased_left is_space (view s)
unfolding kbackspacew
view-kbackspacew s h =
    let (first, inside) = erase_left_lem is_space s h in
    (erase_left_lem not_space (erase_left is_space s) inside).0
    ∙ ap (λ (l : Cursor). record l { left = drop_while not_space l.left }) first

pub view-kdeletew :
    (s : Editor) → s.pos ≤ s.len → view (kdeletew s) ≡ word_erased_right is_space (view s)
unfolding kdeletew
view-kdeletew s h =
    let (first, inside) = erase_right_lem is_space s h in
    (erase_right_lem not_space (erase_right is_space s) inside).0
    ∙ ap (λ (l : Cursor). record l { right = drop_while not_space l.right }) first

down-back_while :
    (test : ℕ → Bool) (m : ℕ → ℕ) (p : ℕ)
    → (down m (back_while test m p) ≡ drop_while test (down m p)) × (back_while test m p ≤ p)
unfolding back_while
down-back_while test m zero = (refl, omega arith)
down-back_while test m (suc p) = ground (arith, down-back_while test m p)

slice-forth_while :
    (n : ℕ) (test : ℕ → Bool) (m : ℕ → ℕ) (p e : ℕ)
    → p + n ≡ e
    → (slice m (forth_while n test m p) (e - forth_while n test m p)
        ≡ drop_while test (slice m p n))
      × (p ≤ forth_while n test m p)
      × (forth_while n test m p ≤ e)
unfolding forth_while
slice-forth_while zero test m p e h =
    (ap (slice m p) {y = 0} (omega arith), omega arith, omega arith)
slice-forth_while (suc n) test m p e h =
    let k : e - p ≡ suc n = omega arith in ground (arith, slice-forth_while n test m (suc p) e)

pub view-kleftw :
    (s : Editor)
    → s.pos ≤ s.len
    → ((view (kleftw s)).left ≡ (word_erased_left is_space (view s)).left)
      × (content (view (kleftw s)) ≡ content (view s))
unfolding kleftw skip_left
view-kleftw s h =
    let (e, l) = down-back_while is_space s.buf s.pos in
    let (e', l') = down-back_while not_space s.buf (back_while is_space s.buf s.pos) in
    (
      e' ∙ ap (drop_while not_space) e,
      sym (text-eq-content (kleftw s) (omega arith)) ∙ text-eq-content s h,
    )

pub view-krightw :
    (s : Editor)
    → s.pos ≤ s.len
    → ((view (krightw s)).right ≡ drop_while is_space (drop_while not_space (view s).right))
      × (content (view (krightw s)) ≡ content (view s))
unfolding krightw skip_right
view-krightw s h =
    let p : ℕ = forth_while (s.len - s.pos) not_space s.buf s.pos in
    let (e, l, r) = slice-forth_while (s.len - s.pos) not_space s.buf s.pos s.len (omega arith) in
    let (e', l', r') = slice-forth_while (s.len - p) is_space s.buf p s.len (omega arith) in
    (
      e' ∙ ap (drop_while is_space) e,
      sym (text-eq-content (krightw s) (omega arith)) ∙ text-eq-content s h,
    )

pub back_while-le : (test : ℕ → Bool) (m : ℕ → ℕ) (p : ℕ) → back_while test m p ≤ p
back_while-le test m p = (down-back_while test m p).1

pub forth_while_bounds :
    (n : ℕ) (test : ℕ → Bool) (m : ℕ → ℕ) (p : ℕ)
    → (p ≤ forth_while n test m p) × (forth_while n test m p ≤ p + n)
forth_while_bounds n test m p = let (e, l, r) = slice-forth_while n test m p (p + n) refl in (l, r)

-- With the cursor in the line: `kbackspacew` erases the spaces before the cursor and then the
-- word before them, `kdeletew` the spaces behind it and then the word behind them, and nothing
-- else of the line; `kleftw` moves the cursor to the place that `kbackspacew` erases from, and
-- `krightw` moves it over the rest of the word behind it and then the spaces behind that; the
-- text stays.
pub word_edits :
    (s : Editor)
    → s.pos ≤ s.len
    → (view (kbackspacew s) ≡ word_erased_left is_space (view s))
      × (view (kdeletew s) ≡ word_erased_right is_space (view s))
      × ((view (kleftw s)).left ≡ (word_erased_left is_space (view s)).left)
      × (content (view (kleftw s)) ≡ content (view s))
      × ((view (krightw s)).right ≡ drop_while is_space (drop_while not_space (view s).right))
      × (content (view (krightw s)) ≡ content (view s))
word_edits s h =
    let (left, kept) = view-kleftw s h in
    let (right, kept') = view-krightw s h in
    (view-kbackspacew s h, view-kdeletew s h, left, kept, right, kept')
