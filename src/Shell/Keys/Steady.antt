-- ===== src/Shell/Keys/Steady.antt =====
-- The keys that edit the line, on a screen that is wider than the prompt: the result, the status
-- and the input.
use puny_gui.Prelude.{
  ℕ, ◌+◌, ◌-◌, ◌≤◌, ◌<◌, ◌≡◌, refl, ap, ◌∙◌, Bool, true, false, ltb, ◌==◌, ◌&&◌, if_ind, arith, not,
}
use puny_gui.Shell.State.{Editor, line_max}
use puny_gui.Shell.Screen.{refresh, clear, write_out}
use puny_gui.Shell.Screen.Window.{refresh_lem}
use puny_gui.Shell.Terminal.{rawmode, norawmode}
use puny_gui.Shell.Frame.{erase_left_inv}
use puny_gui.Shell.Edit.{
  insert, append_char, insert_char, draw_char, kbackspace, kleft, kright, backspace_char,
}
use puny_gui.Shell.Words.{is_space, not_space, erase_left, kbackspacew}
use puny_gui.Shell.Keys.{
  Keypress, Next, again, plain, ignored, home, back, cancel, eof_or_delete, end, forward, backspace,
  tab, kill, clear_screen, enter, next, previous, kill_before, erase_word, suspend, escape, press,
  go_home, go_end, kill_line, kill_front, suspend_self,
}

-- The keys that edit the line and never return from the loop.
abbrev pub IsLasting : Keypress → Type 0
IsLasting tab = ⊥
IsLasting next = ⊥
IsLasting previous = ⊥
IsLasting escape = ⊥
IsLasting cancel = ⊥
IsLasting eof_or_delete = ⊥
IsLasting enter = ⊥
IsLasting _ = Unit

-- The screen takes what `refresh` draws.
pub record IsOpen (s : Editor) : Type 0 where
  pub narrow : s.plen < s.cols
  pub writes : s.host.tty_ok ≡ true

pub record Steady (s t : Editor) : Type 0 where
  pub plen : t.plen ≡ s.plen
  pub cols : t.cols ≡ s.cols
  pub host : t.host ≡ s.host
  pub status : t.status ≡ s.status
  pub input : t.input ≡ s.input
  pub history : t.history ≡ s.history
  pub history_count : t.history_count ≡ s.history_count
  pub inside : t.pos ≤ t.len

pub Steady-refl : (s : Editor) → s.pos ≤ s.len → Steady s s
Steady-refl s h = record {
  plen = refl;
  cols = refl;
  host = refl;
  status = refl;
  input = refl;
  history = refl;
  history_count = refl;
  inside = h;
}

pub IsOpen-Steady : {s t : Editor} → IsOpen s → Steady s t → IsOpen t
IsOpen-Steady {s} {t} o d = record {
  narrow = omega (arith, d.plen, d.cols, o.narrow);
  writes = rw d.host o.writes;
}

-- A step that leaves these fields alone.
Steady-step :
    {s t : Editor}
    → Steady s t
    → (u : Editor) → u.plen ≡ t.plen
    → u.cols ≡ t.cols
    → u.host ≡ t.host
    → u.status ≡ t.status
    → u.input ≡ t.input
    → u.history ≡ t.history
    → u.history_count ≡ t.history_count
    → u.pos ≤ u.len
    → Steady s u
Steady-step d u p c h t i a b n = record {
  plen = p ∙ d.plen;
  cols = c ∙ d.cols;
  host = h ∙ d.host;
  status = t ∙ d.status;
  input = i ∙ d.input;
  history = a ∙ d.history;
  history_count = b ∙ d.history_count;
  inside = n;
}

module _ {s : Editor} (o : IsOpen s) where
  refresh-Steady : {t : Editor} → Steady s t → Steady s (refresh t)
  unfolding refresh
  refresh-Steady {t} d =
      let o' = IsOpen-Steady o d in
      Steady-step d (refresh t) refl refl refl (refresh_lem t d.inside o'.narrow o'.writes).1 refl
        refl refl d.inside

  kbackspace-Steady : {t : Editor} → Steady s t → Steady s (kbackspace false t)
  unfolding kbackspace backspace_char
  kbackspace-Steady {t} d =
      if_ind (Steady s) (ltb 0 t.pos)
        (λ e. Steady-step d _ refl refl refl refl refl refl refl (omega (arith, d.inside))) (λ e. d)

  erase_left-Steady : (test : ℕ → Bool) {t : Editor} → Steady s t → Steady s (erase_left test t)
  erase_left-Steady test {t} d = erase_left_inv (Steady s) test (λ u h. kbackspace-Steady h) t d

  kbackspacew-Steady : {t : Editor} → Steady s t → Steady s (kbackspacew t)
  unfolding kbackspacew
  kbackspacew-Steady d = refresh-Steady (erase_left-Steady not_space (erase_left-Steady is_space d))

  -- One field of the state is moved, and the line is drawn.
  redrawn :
      (u : Editor)
      → u.plen ≡ s.plen
      → u.cols ≡ s.cols
      → u.host ≡ s.host
      → u.status ≡ s.status
      → u.input ≡ s.input
      → u.history ≡ s.history
      → u.history_count ≡ s.history_count
      → u.pos ≤ u.len
      → Steady s (refresh u)
  redrawn u p c h t i a b n = refresh-Steady (record {
    plen = p;
    cols = c;
    host = h;
    status = t;
    input = i;
    history = a;
    history_count = b;
    inside = n;
  })

abbrev Lasts : Editor → Editor × Next → Type 0
Lasts s r = Steady s r.0 × (r.1 ≡ again)

abbrev Unbroken : Editor → Editor × Bool → Type 0
Unbroken s r = Steady s r.0 × (r.1 ≡ false)

append_char-Steady : (c : ℕ) (s : Editor) → s.pos ≤ s.len → Steady s (append_char c s)
unfolding append_char
append_char-Steady c s h = record {
  plen = refl;
  cols = refl;
  host = refl;
  status = refl;
  input = refl;
  history = refl;
  history_count = refl;
  inside = omega arith;
}

insert_char-Steady : (c : ℕ) (s : Editor) → s.pos ≤ s.len → Steady s (insert_char c s)
unfolding insert_char
insert_char-Steady c s h = record {
  plen = refl;
  cols = refl;
  host = refl;
  status = refl;
  input = refl;
  history = refl;
  history_count = refl;
  inside = omega arith;
}

draw_char-Steady : (c : ℕ) {s t : Editor} → IsOpen s → Steady s t → Unbroken s (draw_char c t)
unfolding draw_char
draw_char-Steady c {s} {t} o d =
    if_ind (Unbroken s) (ltb (t.plen + t.len) t.cols)
      (λ e. (
        Steady-step d _ refl refl refl refl refl refl refl d.inside,
        ap not ((IsOpen-Steady o d).writes),
      ))
      (λ e. (refresh-Steady o d, refl))

insert-Steady : (c : ℕ) {s : Editor} → IsOpen s → s.pos ≤ s.len → Unbroken s (insert c true s)
unfolding insert
insert-Steady c {s} o h =
    if_ind (Unbroken s) (ltb s.len (line_max - 1))
      (λ room.
        if_ind (Unbroken s) (s.len == s.pos) (λ e. draw_char-Steady c o (append_char-Steady c s h))
          (λ e. (refresh-Steady o (insert_char-Steady c s h), refl)))
      (λ full. (Steady-refl s h, refl))

backspace_char-Steady : (s : Editor) → s.pos ≤ s.len → Steady s (backspace_char s)
unfolding backspace_char
backspace_char-Steady s h = record {
  plen = refl;
  cols = refl;
  host = refl;
  status = refl;
  input = refl;
  history = refl;
  history_count = refl;
  inside = omega arith;
}

clear-Steady : {s : Editor} → IsOpen s → s.pos ≤ s.len → Steady s (clear s)
unfolding clear write_out
clear-Steady {s} o h = record {
  plen = refl;
  cols = refl;
  host = refl;
  status = rw o.writes refl;
  input = refl;
  history = refl;
  history_count = refl;
  inside = h;
}

pub norawmode-Steady : (s : Editor) → s.pos ≤ s.len → Steady s (norawmode s)
unfolding norawmode
norawmode-Steady s h =
    if_ind (Steady s) (s.israwmode && s.host.tcsetattr_ok)
      (λ e. Steady-step (Steady-refl s h) _ refl refl refl refl refl refl refl h)
      (λ e. Steady-refl s h)

abbrev Set : Editor → Editor × Bool → Type 0
Set s r = Steady s r.0

rawmode-Steady : {s t : Editor} → Steady s t → Steady s (rawmode t).0
unfolding rawmode
rawmode-Steady {s} {t} d =
    if_ind (Set s) (t.host.isatty && (t.host.tcgetattr_ok && t.host.tcsetattr_ok))
      (λ e. Steady-step d _ refl refl refl refl refl refl refl d.inside) (λ e. d)

suspend_self-Steady : {s : Editor} → IsOpen s → s.pos ≤ s.len → Steady s (suspend_self s)
unfolding suspend_self
suspend_self-Steady {s} o h = refresh-Steady o (rawmode-Steady (norawmode-Steady s h))

-- A key that edits the line leaves the loop running, and takes no input.
pub press-Steady :
    (k : Keypress) {s : Editor}
    → IsLasting k
    → IsOpen s
    → s.pos ≤ s.len
    → Steady s (press k s).0 × ((press k s).1 ≡ again)
unfolding press go_home go_end kill_line kill_front kleft kright kbackspace clear write_out
press-Steady (plain c) {s} e o h = let (d, whole) = insert-Steady c o h in (d, rw whole refl)
press-Steady ignored {s} e o h = (Steady-refl s h, refl)
press-Steady home {s} e o h = (redrawn o _ refl refl refl refl refl refl refl (omega arith), refl)
press-Steady back {s} e o h = (
  if_ind (Steady s) (ltb 0 s.pos)
      (λ e. redrawn o _ refl refl refl refl refl refl refl (omega arith)) (λ e. Steady-refl s h),
  refl,
)
press-Steady end {s} e o h = (redrawn o _ refl refl refl refl refl refl refl (omega arith), refl)
press-Steady forward {s} e o h = (
  if_ind (Steady s) (s.pos == s.len) (λ e. Steady-refl s h)
      (λ e. redrawn o _ refl refl refl refl refl refl refl (ground arith)),
  refl,
)
press-Steady backspace {s} e o h = (
  if_ind (Steady s) (ltb 0 s.pos) (λ e. refresh-Steady o (backspace_char-Steady s h))
      (λ e. Steady-refl s h),
  refl,
)
press-Steady kill {s} e o h = (redrawn o _ refl refl refl refl refl refl refl (omega arith), refl)
press-Steady clear_screen {s} e o h = (refresh-Steady o (clear-Steady o h), refl)
press-Steady kill_before {s} e o h =
    (redrawn o _ refl refl refl refl refl refl refl (omega arith), refl)
press-Steady erase_word {s} e o h = (kbackspacew-Steady o (Steady-refl s h), refl)
press-Steady suspend {s} e o h = (suspend_self-Steady o h, refl)
press-Steady tab e o h = absurd e
press-Steady next e o h = absurd e
press-Steady previous e o h = absurd e
press-Steady escape e o h = absurd e
press-Steady cancel e o h = absurd e
press-Steady eof_or_delete e o h = absurd e
press-Steady enter e o h = absurd e
