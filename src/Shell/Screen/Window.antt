-- ===== src/Shell/Screen/Window.antt =====
-- `refresh`: the window of the line that it shows.
use puny_gui.Prelude.{ℕ, zero, suc, ◌+◌, ◌-◌, ◌≤◌, ◌<◌, max, ◌≡◌, true, ◌++◌, arith}
use puny_gui.Shell.State.{Editor, crashed}
use puny_gui.Shell.Screen.{scroll, trim, offset, cut, frame, refresh, write_out}

-- The loops in closed form, with fuel for their rounds.
scroll_lem :
    (f : ℕ) (s : Editor) (k : ℕ)
    → s.plen + s.pos < k + f
    → scroll f s k ≡ max k (suc (s.plen + s.pos) - s.cols)
unfolding scroll
scroll_lem zero s k h = omega arith
scroll_lem (suc f) s k h = ground (arith, scroll_lem f s (suc k))

trim_lem :
    (f : ℕ) (s : Editor) (k : ℕ)
    → s.plen + s.len < k + f
    → trim f s k ≡ max k (s.plen + s.len - s.cols)
unfolding trim
trim_lem zero s k h = omega arith
trim_lem (suc f) s k h = ground (arith, trim_lem f s (suc k))

pub offset_lem : (s : Editor) → offset s ≡ suc (s.plen + s.pos) - s.cols
unfolding offset
offset_lem s = omega (arith, scroll_lem (suc (s.plen + s.pos)) s 0)

pub cut_lem : (s : Editor) → cut s ≡ max (offset s) (s.plen + s.len - s.cols)
unfolding cut
cut_lem s = trim_lem (suc (s.plen + s.len)) s (offset s) (omega arith)

-- With the cursor in the line, a prompt narrower than the screen and a terminal that takes what
-- is written: `refresh` writes one frame and goes on, the cursor is in the part of the line
-- that is shown and on the screen, and that part fits behind the prompt.
pub refresh_lem :
    (s : Editor)
    → s.pos ≤ s.len
    → s.plen < s.cols
    → s.host.tty_ok ≡ true
    → ((refresh s).out ≡ s.out ++ frame s)
      × ((refresh s).status ≡ s.status)
      × (offset s ≤ s.pos)
      × (s.pos ≤ offset s + (s.len - cut s))
      × (s.plen + s.pos - offset s < s.cols)
      × (s.plen + (s.len - cut s) ≤ s.cols)
unfolding refresh write_out
refresh_lem s h narrow tty =
    let o = offset_lem s in
    let c = cut_lem s in
    (ground arith, ground arith, omega arith, omega arith, omega arith, omega arith)

-- With a prompt at least as wide as the screen and the cursor at the end of the line, `refresh`
-- asks for a negative number of bytes to be copied.
pub refresh_wide_prompt :
    (s : Editor) → s.cols ≤ s.plen → s.pos ≡ s.len → (refresh s).status ≡ crashed
unfolding refresh
refresh_wide_prompt s wide e = let o = offset_lem s in let c = cut_lem s in ground arith
