-- ===== src/Shell/Edit/Refine.antt =====
-- The operations on the buffer against their meaning on the two lists around the cursor.
use puny_gui.Prelude.{
  ℕ, suc, ◌+◌, ◌-◌, ◌≤◌, ◌<◌, ◌≡◌, ap, ap₂, ◌∙◌, sym, Bool, [], ◌∷◌, ◌++◌, arith, slice,
  slice-append, slice_agree, down, down_ext, slice-eq-reverse, ltb, if◌then◌else◌,
}
use puny_gui.Shell.State.{Editor, text, line_max}
use puny_gui.Shell.Cursor.{
  Cursor, view, content, typed, erased_left, erased_right, moved_left, moved_right,
}
use puny_gui.Shell.Edit.{
  insert, append_char, insert_char, backspace_char, delete_char, kbackspace, kdelete, kleft, kright,
}

-- The view forgets nothing of the line.
pub text-eq-content : (s : Editor) → s.pos ≤ s.len → text s ≡ content (view s)
text-eq-content s h =
    ap (slice s.buf 0) {y = s.pos + (s.len - s.pos)} (omega arith)
    ∙ slice-append s.buf 0 s.pos s.pos (s.len - s.pos) (omega arith)
    ∙ ap (λ xs. xs ++ slice s.buf s.pos (s.len - s.pos)) (slice-eq-reverse s.buf s.pos)

-- Two editors show the same line if their lists agree.
pub view_ext :
    (s : Editor) (l : Cursor)
    → down s.buf s.pos ≡ l.left
    → slice s.buf s.pos (s.len - s.pos) ≡ l.right
    → view s ≡ l
view_ext s l p q = λ i. record { left = p i; right = q i }

view-append_char : (c : ℕ) (s : Editor) → s.len ≡ s.pos → view (append_char c s) ≡ typed c (view s)
unfolding append_char
view-append_char c s h =
    view_ext (append_char c s) (typed c (view s))
      (ap₂ ◌∷◌ (ground arith) (down_ext (append_char c s).buf s.buf s.pos λ j l. ground arith))
      (slice_agree (append_char c s).buf s.buf 1 (suc s.pos) s.pos _ _ (omega arith) (omega arith)
        λ j p q. absurd (omega arith))

view-insert_char : (c : ℕ) (s : Editor) → s.pos ≤ s.len → view (insert_char c s) ≡ typed c (view s)
unfolding insert_char
view-insert_char c s h =
    view_ext (insert_char c s) (typed c (view s))
      (ap₂ ◌∷◌ (ground arith) (down_ext (insert_char c s).buf s.buf s.pos λ j l. ground arith))
      (slice_agree (insert_char c s).buf s.buf 1 (suc s.pos) s.pos _ _ (omega arith) (omega arith)
        cell)
  where
    cell :
        (j : ℕ) → s.pos ≤ j → j < s.pos + (s.len - s.pos) → (insert_char c s).buf (1 + j) ≡ s.buf j
    cell j p q = let e : s.pos + (1 + j - (s.pos + 1)) ≡ j = omega arith in ground arith

-- The list before the cursor by its nearest byte.
pub down_pos :
    (s : Editor) → 0 < s.pos → down s.buf s.pos ≡ s.buf (s.pos - 1) ∷ down s.buf (s.pos - 1)
down_pos s h = ap (down s.buf) {y = suc (s.pos - 1)} (omega arith)

pub right_pos :
    (s : Editor)
    → s.pos < s.len
    → slice s.buf s.pos (s.len - s.pos) ≡ s.buf s.pos ∷ slice s.buf (suc s.pos) (s.len - suc s.pos)
right_pos s h = ap (slice s.buf s.pos) {y = suc (s.len - suc s.pos)} (omega arith)

pub down_zero : (s : Editor) → s.pos ≡ 0 → down s.buf s.pos ≡ []
down_zero s e = rw e

pub right_end : (s : Editor) → s.pos ≡ s.len → slice s.buf s.pos (s.len - s.pos) ≡ []
right_end s e = ap (slice s.buf s.pos) {y = 0} (omega arith)

-- One step to the left and one to the right, on the list behind the cursor.
pub right_before :
    (s : Editor)
    → 0 < s.pos
    → s.pos ≤ s.len
    → slice s.buf (s.pos - 1) (s.len - (s.pos - 1))
      ≡ s.buf (s.pos - 1) ∷ slice s.buf s.pos (s.len - s.pos)
right_before s h l =
    let n : s.len - (s.pos - 1) ≡ suc (s.len - s.pos) = omega arith in
    let e : suc (s.pos - 1) ≡ s.pos = omega arith in
    rw n (ap (λ i. s.buf (s.pos - 1) ∷ slice s.buf i (s.len - s.pos)) e)

view-backspace_char :
    (s : Editor) → 0 < s.pos → s.pos ≤ s.len → view (backspace_char s) ≡ erased_left (view s)
unfolding backspace_char
view-backspace_char s h l = rw (down_pos s h) (
    view_ext (backspace_char s) _
      (down_ext (backspace_char s).buf s.buf (s.pos - 1) λ j q. ground arith)
      (sym (
        slice_agree s.buf (backspace_char s).buf 1 s.pos (s.pos - 1) _ _ (omega arith) (omega arith)
          cell)))
  where
    cell :
        (j : ℕ)
        → s.pos - 1 ≤ j
        → j < s.pos - 1 + (s.len - 1 - (s.pos - 1))
        → s.buf (1 + j) ≡ (backspace_char s).buf j
    cell j p q = let e : s.pos + (j - (s.pos - 1)) ≡ 1 + j = omega arith in ground arith

view-delete_char : (s : Editor) → s.pos < s.len → view (delete_char s) ≡ erased_right (view s)
unfolding delete_char
view-delete_char s h = rw (right_pos s h) (
    view_ext (delete_char s) _ (down_ext (delete_char s).buf s.buf s.pos λ j q. ground arith) (
      sym (
        slice_agree s.buf (delete_char s).buf 1 (suc s.pos) s.pos _ _ (omega arith) (omega arith)
          cell)))
  where
    cell :
        (j : ℕ)
        → s.pos ≤ j
        → j < s.pos + (s.len - 1 - s.pos)
        → s.buf (1 + j) ≡ (delete_char s).buf j
    cell j p q = let e : s.pos + 1 + (j - s.pos) ≡ 1 + j = omega arith in ground arith

-- With the cursor in the line, `insert` puts the byte before the cursor while the buffer has
-- room, drawn or not, and otherwise changes nothing of the line.
pub view-insert :
    (c : ℕ) (draw : Bool) (s : Editor)
    → s.pos ≤ s.len
    → view (insert c draw s).0 ≡ (if ltb s.len (line_max - 1) then typed c (view s) else view s)
unfolding insert
view-insert c draw s h = ground (arith, view-append_char c s, view-insert_char c s)

pub view-kbackspace :
    (draw : Bool) (s : Editor) → s.pos ≤ s.len → view (kbackspace draw s) ≡ erased_left (view s)
unfolding kbackspace
view-kbackspace draw s h = ground (arith, view-backspace_char s, down_zero s)

pub view-kdelete :
    (draw : Bool) (s : Editor) → s.pos ≤ s.len → view (kdelete draw s) ≡ erased_right (view s)
unfolding kdelete
view-kdelete draw s h = ground (arith, view-delete_char s, right_end s)

pub view-kleft : (s : Editor) → s.pos ≤ s.len → view (kleft s) ≡ moved_left (view s)
unfolding kleft
view-kleft s h = ground (arith, down_zero s, down_pos s, right_before s)

pub view-kright : (s : Editor) → s.pos ≤ s.len → view (kright s) ≡ moved_right (view s)
unfolding kright
view-kright s h = ground (arith, right_end s, right_pos s)

-- With the cursor in the line: `kbackspace` erases the byte before the cursor, `kdelete` the
-- byte behind it, and `kleft` and `kright` move it over one byte; at the start or the end of
-- the line, where there is no such byte, the line and the cursor stay.
pub byte_edits :
    (draw : Bool) (s : Editor)
    → s.pos ≤ s.len
    → (view (kbackspace draw s) ≡ erased_left (view s))
      × (view (kdelete draw s) ≡ erased_right (view s))
      × (view (kleft s) ≡ moved_left (view s))
      × (view (kright s) ≡ moved_right (view s))
byte_edits draw s h =
    (view-kbackspace draw s h, view-kdelete draw s h, view-kleft s h, view-kright s h)
