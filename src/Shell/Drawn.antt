-- ===== src/Shell/Drawn.antt =====
-- The operations that draw or read, and the line.
use puny_gui.Prelude.{
  ℕ, zero, suc, ◌≤◌, ◌≡◌, refl, ◌∙◌, List, [], ◌∷◌, Option, none, some, arith, ltb, ◌==◌, if_ind,
  length, codes, ◌++◌, Option-cases, inl, inr,
}
use puny_gui.Shell.State.{Editor, IsValid, IsValid-same, Read}
use puny_gui.Shell.Screen.{clearlines}
use puny_gui.Shell.Terminal.{
  later_reads, after_read, read_reply, curpos, step_back, ask_cols, cols_from, getcols, rawmode,
  norawmode,
}
use puny_gui.Shell.Complete.{print_matches, go_up, show_matches}
use puny_gui.Shell.Frame.{Frame, Frame-refl, Frame-trans}

pub record Drawn (s t : Editor) : Type 0 where
  pub buf : t.buf ≡ s.buf
  pub len : t.len ≡ s.len
  pub pos : t.pos ≡ s.pos
  pub frame : Frame s t

pub Drawn-refl : (s : Editor) → Drawn s s
Drawn-refl s = record { buf = refl; len = refl; pos = refl; frame = Frame-refl s }

pub Drawn-trans : {s t u : Editor} → Drawn s t → Drawn t u → Drawn s u
Drawn-trans p q = record {
  buf = q.buf ∙ p.buf;
  len = q.len ∙ p.len;
  pos = q.pos ∙ p.pos;
  frame = Frame-trans p.frame q.frame;
}

pub Drawn-IsValid : {s t : Editor} → Drawn s t → IsValid s → IsValid t
Drawn-IsValid {s} {t} d v = IsValid-same s t v d.buf d.len (rw (d.pos, d.len) v.cursor)

-- Field by field.
Drawn-fields :
    (s t : Editor)
    → t.buf ≡ s.buf
    → t.len ≡ s.len
    → t.pos ≡ s.pos
    → t.history ≡ s.history
    → t.history_count ≡ s.history_count
    → t.historyi ≡ s.historyi
    → t.complete_env ≡ s.complete_env
    → t.host ≡ s.host
    → length t.input ≤ length s.input
    → Drawn s t
Drawn-fields s t b l p h c i e o r = record {
  buf = b;
  len = l;
  pos = p;
  frame = record {
    history = h;
    history_count = c;
    historyi = i;
    complete_env = e;
    host = o;
    reads = r;
  };
}

abbrev LeavesDrawn : Editor → ℕ × Editor → Type 0
LeavesDrawn s r = Drawn s r.1

later_reads-le : (input : List Read) → length (later_reads input) ≤ length input
unfolding later_reads
later_reads-le [] = omega arith
later_reads-le (r ∷ rest) = omega arith

pub after_read-Drawn : (s : Editor) → Drawn s (after_read s)
unfolding after_read
after_read-Drawn s =
    Drawn-fields s _ refl refl refl refl refl refl refl refl (later_reads-le s.input)

pub clearlines-Drawn : (s : Editor) → Drawn s (clearlines s)
unfolding clearlines
clearlines-Drawn s = ground arith

rawmode-Drawn : (s : Editor) → Drawn s (rawmode s).0
unfolding rawmode
rawmode-Drawn s = ground arith

pub norawmode-Drawn : (s : Editor) → Drawn s (norawmode s)
unfolding norawmode
norawmode-Drawn s = ground arith

pub raw_again-Drawn : (s : Editor) → Drawn s (rawmode (norawmode s)).0
raw_again-Drawn s = Drawn-trans (norawmode-Drawn s) (rawmode-Drawn (norawmode s))

read_reply-le : (n : ℕ) (input : List Read) → length (read_reply n input).1 ≤ length input
unfolding read_reply
read_reply-le zero input = omega arith
read_reply-le (suc n) input =
    ground (arith, read_reply-le n (later_reads input), later_reads-le input)

curpos-Drawn : (s : Editor) → Drawn s (curpos s).1
unfolding curpos
curpos-Drawn s =
    if_ind (λ (r : Option ℕ × Editor). Drawn s r.1) s.host.tty_ok
      (λ e. Drawn-fields s _ refl refl refl refl refl refl refl refl (read_reply-le 31 s.input))
      (λ e. Drawn-refl s)

step_back-Drawn : (start cols : ℕ) (s : Editor) → Drawn s (step_back start cols s)
unfolding step_back
step_back-Drawn start cols s = ground arith

go_up-Drawn : (s : Editor) → Drawn s (go_up s)
unfolding go_up
go_up-Drawn s = Drawn-fields s _ refl refl refl refl refl refl refl refl (omega arith)

-- The fallback of `getcols`, at each place where it may stop.
ask_cols-Drawn : (s : Editor) → Drawn s (ask_cols s).1
unfolding ask_cols
ask_cols-Drawn s = elim (Option-cases (curpos s).0) [
  | inl none_found ↦ rw (ask_cols, none_found) (curpos-Drawn s)
  | inr (start, found) ↦
      let moved : Editor = record (curpos s).1 { out = (curpos s).1.out ++ 27 ∷ codes "[999C" } in
      let first : Drawn s moved =
        Drawn-trans (curpos-Drawn s)
          (Drawn-fields (curpos s).1 moved refl refl refl refl refl refl refl refl (omega arith)) in
      elim (Option-cases (curpos moved).0) [
        | inl none_found ↦ rw (ask_cols, found, none_found) (Drawn-trans first (curpos-Drawn moved))
        | inr (cols, found') ↦
            rw (ask_cols, found, found')
              (Drawn-trans first
                (Drawn-trans (curpos-Drawn moved) (step_back-Drawn start cols (curpos moved).1)))
      ]
]

cols_from-Drawn : (o : Option ℕ) (s : Editor) → Drawn s (cols_from o s).1
unfolding cols_from
cols_from-Drawn none s = ask_cols-Drawn s
cols_from-Drawn (some ws) s =
    if_ind (LeavesDrawn s) (ws == 0) (λ e. ask_cols-Drawn s) (λ e. Drawn-refl s)

pub getcols-Drawn : (s : Editor) → Drawn s (getcols s).1
unfolding getcols
getcols-Drawn s = cols_from-Drawn s.host.winsize s

print_matches-Drawn :
    (w n : ℕ) (ms : List (List ℕ)) (k : ℕ) (s : Editor) → Drawn s (print_matches w n k ms s)
unfolding print_matches
print_matches-Drawn w n [] k s = Drawn-refl s
print_matches-Drawn w n (m ∷ ms) k s =
    Drawn-trans (Drawn-fields s _ refl refl refl refl refl refl refl refl (omega arith))
      (print_matches-Drawn w n ms _ _)

pub show_matches-Drawn : (ms : List (List ℕ)) (s : Editor) → Drawn s (show_matches ms s)
unfolding show_matches
show_matches-Drawn ms s =
    if_ind (Drawn s) (ltb (length ms) 2) (λ e. cleared)
      (λ e. Drawn-trans cleared (Drawn-trans (print_matches-Drawn _ _ ms 0 _) (go_up-Drawn _)))
  where
    cleared : Drawn s (clearlines (getcols s).1)
    cleared = Drawn-trans (getcols-Drawn s) (clearlines-Drawn (getcols s).1)
