-- ===== src/Shell/Screen.antt =====
-- super.c, what the line editor draws: `clear`, `refresh` and `clearlines`.
pub mod Window
use puny_gui.Prelude.{
  ℕ, zero, suc, ◌+◌, ◌-◌, true, false, List, [], ◌∷◌, ◌++◌, leb, ltb, if◌then◌else◌, slice, codes,
  decimal, decimal_diff,
}
use puny_gui.Shell.State.{Editor, exited, crashed}

-- `if (write (STDOUT_FILENO, bytes, n) == -1) exit (1);`
unfoldable pub write_out : List ℕ → Editor → Editor
write_out bytes s = record s {
  out = if s.host.tty_ok then s.out ++ bytes else s.out;
  status = if s.host.tty_ok then s.status else exited;
}

unfoldable pub clear : Editor → Editor
unfolding write_out
clear s = write_out (27 ∷ codes "[H" ++ 27 ∷ codes "[2J") s

-- The first loop of `refresh`: `k` rounds are made, and `_pos` is gbl_pos - k.
unfoldable pub scroll : ℕ → Editor → ℕ → ℕ
scroll zero s k = k
scroll (suc f) s k = elim (leb (s.cols + k) (s.plen + s.pos)) [
  | true ↦ scroll f s (suc k)
  | false ↦ k
]

-- The second loop: `_len` is gbl_len - k.
unfoldable pub trim : ℕ → Editor → ℕ → ℕ
trim zero s k = k
trim (suc f) s k = elim (ltb (s.cols + k) (s.plen + s.len)) [ true ↦ trim f s (suc k) | false ↦ k ]

-- How far the text is scrolled, and by how much `_len` is below gbl_len in the end.
unfoldable pub offset : Editor → ℕ
unfolding scroll
offset s = scroll (suc (s.plen + s.pos)) s 0

unfoldable pub cut : Editor → ℕ
unfolding offset trim
cut s = trim (suc (s.plen + s.len)) s (offset s)

-- The bytes of `b`, where `_len` is not negative.
unfoldable pub frame : Editor → List ℕ
unfolding offset cut decimal_diff
frame s =
    13 ∷ s.prompt
    ++ (slice s.buf (offset s) (s.len - cut s)
        ++ (27 ∷ codes "[0K"
            ++ (13 ∷ 27 ∷ b'[' ∷ decimal_diff (s.plen + s.pos) (offset s) ++ codes "C")))

-- A negative `_len` is handed to janet_buffer_push_bytes, which takes a count of bytes.
unfoldable pub refresh : Editor → Editor
unfolding write_out frame
refresh s = record s {
  out = if ltb s.len (cut s) then s.out else (write_out (frame s) s).out;
  status = if ltb s.len (cut s) then crashed else (write_out (frame s) s).status;
}

-- One round for each line below.
unfoldable pub down_lines : ℕ → List ℕ
down_lines zero = []
down_lines (suc n) = 27 ∷ codes "[1B" ++ (27 ∷ codes "[999D" ++ (27 ∷ codes "[K" ++ down_lines n))

unfoldable pub clearlines : Editor → Editor
unfolding down_lines decimal
clearlines s =
    if ltb 0 s.lines_below
    then record s {
      err =
          s.err
          ++ (down_lines s.lines_below
              ++ (27 ∷ b'[' ∷ decimal s.lines_below ++ (codes "A" ++ 27 ∷ codes "[999D")));
      lines_below = 0;
    }
    else s
