-- ===== src/Shell/Edit/Valid.antt =====
-- The operations on the line and its well-formedness.
use puny_gui.Prelude.{
  ℕ, suc, ◌+◌, ◌-◌, ◌<◌, ◌≡◌, refl, Bool, true, false, arith, ltb, ◌==◌, if◌then◌else◌, if_ind,
  ltb→lt, ==_iff,
}
use puny_gui.Shell.State.{Editor, IsValid, IsValid-same, line_max}
use puny_gui.Shell.Screen.{refresh}
use puny_gui.Shell.Edit.{
  insert, draw_char, append_char, insert_char, backspace_char, delete_char, kbackspace, kdelete,
  kleft, kright,
}

pub refresh-IsValid : {s : Editor} → IsValid s → IsValid (refresh s)
unfolding refresh
refresh-IsValid {s} v = IsValid-same s (refresh s) v refl refl v.cursor

module _ (c : ℕ) {s : Editor} (v : IsValid s) (room : s.len < line_max - 1) where
  append_char-IsValid : 0 < c → s.len ≡ s.pos → IsValid (append_char c s)
  unfolding append_char
  append_char-IsValid p e = record {
    cursor = omega (arith, v.cursor);
    fits = omega arith;
    terminated = ground arith;
    no_null = λ j h. ground (arith, v.no_null j);
    clean = λ j h. ground (arith, v.clean j);
  }

  insert_char-IsValid : 0 < c → IsValid (insert_char c s)
  unfolding insert_char
  insert_char-IsValid p = record {
    cursor = omega (arith, v.cursor);
    fits = omega arith;
    terminated = ground arith;
    no_null = λ j h. ground (arith, v.no_null j, v.no_null (s.pos + (j - (s.pos + 1))));
    clean = λ j h. ground (arith, v.clean j);
  }

backspace_char-IsValid : {s : Editor} → IsValid s → 0 < s.pos → IsValid (backspace_char s)
unfolding backspace_char
backspace_char-IsValid {s} v p = record {
  cursor = omega (arith, v.cursor);
  fits = omega (arith, v.fits);
  terminated = ground arith;
  no_null = λ j h. ground (arith, v.cursor, v.no_null j, v.no_null (s.pos + (j - (s.pos - 1))));
  clean = λ j h. ground (arith, v.cursor, v.fits, v.clean j);
}

delete_char-IsValid : {s : Editor} → IsValid s → s.pos < s.len → IsValid (delete_char s)
unfolding delete_char
delete_char-IsValid {s} v p = record {
  cursor = omega (arith, v.cursor);
  fits = omega (arith, v.fits);
  terminated = ground arith;
  no_null = λ j h. ground (arith, v.no_null j, v.no_null (s.pos + 1 + (j - s.pos)));
  clean = λ j h. ground (arith, v.fits, v.clean j);
}

-- The editor of a result is valid.
abbrev LeavesValid : Editor × Bool → Type 0
LeavesValid r = IsValid r.0

draw_char-IsValid : (c : ℕ) {s : Editor} → IsValid s → IsValid (draw_char c s).0
unfolding draw_char
draw_char-IsValid c {s} v =
    if_ind LeavesValid (ltb (s.plen + s.len) s.cols) (λ e. IsValid-same s _ v refl refl v.cursor)
      (λ e. refresh-IsValid v)

-- The two cases of `insert` that change the line.
draw_append-IsValid :
    (c : ℕ) (draw : Bool) (s : Editor)
    → IsValid (append_char c s)
    → IsValid (if draw then draw_char c (append_char c s) else (append_char c s, false)).0
draw_append-IsValid c true s v = draw_char-IsValid c v
draw_append-IsValid c false s v = v

drawn-IsValid : (draw : Bool) {s : Editor} → IsValid s → IsValid (if draw then refresh s else s)
drawn-IsValid true v = refresh-IsValid v
drawn-IsValid false v = v

pub insert-IsValid :
    (c : ℕ) (draw : Bool) {s : Editor} → 0 < c → IsValid s → IsValid (insert c draw s).0
unfolding insert
insert-IsValid c draw {s} p v =
    if_ind LeavesValid (ltb s.len (line_max - 1))
      (λ room.
        if_ind LeavesValid (s.len == s.pos)
          (λ e.
            draw_append-IsValid c draw s
              (append_char-IsValid c v (ltb→lt _ _ room) p ((==_iff _ _).0 e)))
          (λ e. drawn-IsValid draw (insert_char-IsValid c v (ltb→lt _ _ room) p)))
      (λ full. v)

pub kbackspace-IsValid : (draw : Bool) {s : Editor} → IsValid s → IsValid (kbackspace draw s)
unfolding kbackspace
kbackspace-IsValid draw {s} v =
    if_ind IsValid (ltb 0 s.pos) (λ e. drawn-IsValid draw (backspace_char-IsValid v (ltb→lt _ _ e)))
      (λ e. v)

pub kdelete-IsValid : (draw : Bool) {s : Editor} → IsValid s → IsValid (kdelete draw s)
unfolding kdelete
kdelete-IsValid draw {s} v =
    if_ind IsValid (s.pos == s.len) (λ e. v)
      (λ e. drawn-IsValid draw (delete_char-IsValid v (ground (arith, v.cursor))))

pub kleft-IsValid : {s : Editor} → IsValid s → IsValid (kleft s)
unfolding kleft
kleft-IsValid {s} v =
    if_ind IsValid (ltb 0 s.pos)
      (λ e.
        refresh-IsValid
          (IsValid-same s (record s { pos = s.pos - 1 }) v refl refl (omega (arith, v.cursor))))
      (λ e. v)

pub kright-IsValid : {s : Editor} → IsValid s → IsValid (kright s)
unfolding kright
kright-IsValid {s} v =
    if_ind IsValid (s.pos == s.len) (λ e. v)
      (λ e.
        refresh-IsValid
          (IsValid-same s (record s { pos = suc s.pos }) v refl refl (ground (arith, v.cursor))))
