-- ===== src/Shell/Terminal.antt =====
-- super.c, the terminal: reading, raw mode, and the width of the screen.
use puny_gui.Prelude.{
  ℕ, zero, suc, ◌-◌, Bool, true, false, ◌&&◌, List, [], ◌∷◌, ◌++◌, Option, none, some, ltb, ◌==◌,
  if◌then◌else◌, codes, decimal,
}
use puny_gui.Shell.State.{Editor, Read, byte, eof, failed, exited}

-- read (STDIN_FILENO, …, 1). An exhausted input is at its end.
unfoldable pub next_read : List Read → Read
next_read [] = eof
next_read (r ∷ rest) = r

unfoldable pub later_reads : List Read → List Read
later_reads [] = []
later_reads (r ∷ rest) = rest

unfoldable pub after_read : Editor → Editor
unfolding later_reads
after_read s = record s { input = later_reads s.input }

-- `rawmode`, which is true where the code returns 0. The termios settings are not kept.
unfoldable pub rawmode : Editor → Editor × Bool
rawmode s =
    if s.host.isatty && (s.host.tcgetattr_ok && s.host.tcsetattr_ok)
    then (record s { israwmode = true }, true)
    else (s, false)

unfoldable pub norawmode : Editor → Editor
norawmode s = if s.israwmode && s.host.tcsetattr_ok then record s { israwmode = false } else s

-- The loop of `curpos`: at most so many bytes, up to an `R`. The bytes read, and the reads to come.
unfoldable pub read_reply : ℕ → List Read → List ℕ × List Read
unfolding next_read later_reads
read_reply zero input = ([], input)
read_reply (suc n) input = elim (next_read input) [
  | byte c ↦ elim (c == b'R') [
    | true ↦ ([], later_reads input)
    | false ↦ let (reply, input') = read_reply n (later_reads input) in (c ∷ reply, input')
  ]
  | eof ↦ ([], later_reads input)
  | failed ↦ ([], later_reads input)
]

-- The reply must begin with ESC [.
unfoldable pub reply_cols : Editor → List ℕ → Option ℕ
reply_cols s (c ∷ d ∷ rest) = if c == 27 && d == b'[' then s.host.scan_cols rest else none
reply_cols s _ = none

unfoldable pub curpos : Editor → Option ℕ × Editor
unfolding read_reply reply_cols
curpos s =
    if s.host.tty_ok
    then (
      reply_cols s (read_reply 31 s.input).0,
      record s { out = s.out ++ 27 ∷ codes "[6n"; input = (read_reply 31 s.input).1 },
    )
    else (none, s)

-- The end of the fallback: the cursor goes back from the right edge to where it stood.
unfoldable pub step_back : ℕ → ℕ → Editor → Editor
unfolding decimal
step_back start cols s =
    if ltb start cols
    then record s {
      out =
          if s.host.tty_ok then s.out ++ 27 ∷ b'[' ∷ decimal (cols - start) ++ codes "D" else s.out;
      status = if s.host.tty_ok then s.status else exited;
    }
    else s

-- Without the window size the terminal is asked for the column of the cursor, twice.
unfoldable pub ask_cols : Editor → ℕ × Editor
unfolding curpos step_back
ask_cols s =
    let (first, s₁) = curpos s in
    elim first [
      | none ↦ (80, s₁)
      | some start ↦
          let moved : Editor = record s₁ { out = s₁.out ++ 27 ∷ codes "[999C" } in
          let (second, s₂) = curpos moved in
          elim second [ none ↦ (80, s₂) | some cols ↦ (cols, step_back start cols s₂) ]
    ]

-- By the result of ioctl.
unfoldable pub cols_from : Option ℕ → Editor → ℕ × Editor
unfolding ask_cols
cols_from none s = ask_cols s
cols_from (some ws) s = if ws == 0 then ask_cols s else (ws, s)

unfoldable pub getcols : Editor → ℕ × Editor
unfolding cols_from
getcols s = cols_from s.host.winsize s
