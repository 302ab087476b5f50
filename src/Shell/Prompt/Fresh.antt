-- ===== src/Shell/Prompt/Fresh.antt =====
-- The start of `line`, with its entry in the history and the prompt.
use puny_gui.Prelude.{
  ℕ, suc, ◌≤◌, ◌≡◌, refl, true, List, ◌++◌, Option, some, Option-cases, inl, inr, if_ind, if_true,
  ltb, length, arith, update,
}
use puny_gui.Shell.State.{Editor, history_max, line_max, IsValid, IsValid-same}
use puny_gui.Shell.History.{sdup_line, push_entry, addhistory}
use puny_gui.Shell.History.Valid.{IsStored, addhistory-IsValid}
use puny_gui.Shell.Complete.Valid.{IsTables}
use puny_gui.Shell.Keys.Ready.{IsReady}
use puny_gui.Shell.Prompt.{fresh_line, line, rounds}

-- The cells behind the longest line hold NUL.
abbrev pub IsClean : Editor → Type 0
IsClean s = (j : ℕ) → line_max ≤ suc j → s.buf j ≡ 0

-- The state in which the history gets its new entry.
abbrev pub emptied : ℕ → ℕ → Editor → Editor
emptied cols plen s = record s {
  cols = cols;
  plen = plen;
  len = 0;
  pos = 0;
  buf = update s.buf 0 0;
}

-- The fields that the new entry leaves alone.
pub record Same (s t : Editor) : Type 0 where
  pub buf : t.buf ≡ s.buf
  pub len : t.len ≡ s.len
  pub pos : t.pos ≡ s.pos
  pub plen : t.plen ≡ s.plen
  pub cols : t.cols ≡ s.cols
  pub host : t.host ≡ s.host
  pub status : t.status ≡ s.status
  pub input : t.input ≡ s.input
  pub complete_env : t.complete_env ≡ s.complete_env

Same-refl : (s : Editor) → Same s s
Same-refl s = record {
  buf = refl;
  len = refl;
  pos = refl;
  plen = refl;
  cols = refl;
  host = refl;
  status = refl;
  input = refl;
  complete_env = refl;
}

push_entry-Same : (o : Option (List ℕ)) (s : Editor) → Same s (push_entry o s)
unfolding push_entry
push_entry-Same o s =
    if_ind (Same s) (ltb s.history_count history_max)
      (λ e. record {
        buf = refl;
        len = refl;
        pos = refl;
        plen = refl;
        cols = refl;
        host = refl;
        status = refl;
        input = refl;
        complete_env = refl;
      })
      (λ e. record {
        buf = refl;
        len = refl;
        pos = refl;
        plen = refl;
        cols = refl;
        host = refl;
        status = refl;
        input = refl;
        complete_env = refl;
      })

pub addhistory-Same : (s : Editor) → Same s (addhistory s)
unfolding addhistory
addhistory-Same s = elim (Option-cases (sdup_line s)) [
  | inl null ↦ rw (addhistory, null) (Same-refl s)
  | inr (e, served) ↦ rw (addhistory, served) (push_entry-Same (some e) s)
]

abbrev pub shown : Editor → Editor
shown s = record s { out = s.out ++ s.prompt }

pub line_lem :
    (s : Editor)
    → (fresh_line s).host.tty_ok ≡ true
    → line s ≡ rounds (suc (length (fresh_line s).input)) (shown (fresh_line s))
unfolding line
line_lem s e = if_true _ _ e

shown-IsReady : {s : Editor} → IsReady s → IsReady (shown s)
shown-IsReady {s} r = record {
  line = IsValid-same s _ r.line refl refl r.line.cursor;
  stored = record { bounded = r.stored.bounded; index = r.stored.index; stored = r.stored.stored };
  tables = r.tables;
}

pub emptied-IsValid : (cols plen : ℕ) (s : Editor) → IsClean s → IsValid (emptied cols plen s)
emptied-IsValid cols plen s clean = record {
  cursor = omega arith;
  fits = omega arith;
  terminated = ground arith;
  no_null = λ j h. absurd (omega arith);
  clean = λ j h. ground (arith, clean j h);
}

added-IsReady :
    (cols plen : ℕ) (s : Editor)
    → IsClean s
    → IsStored s
    → IsTables s.complete_env
    → IsReady (addhistory (emptied cols plen s))
added-IsReady cols plen s clean h k =
    let (v, h') =
      addhistory-IsValid (emptied-IsValid cols plen s clean)
        (record { bounded = h.bounded; index = h.index; stored = h.stored }) in
    record {
      line = v;
      stored = h';
      tables = rw ((addhistory-Same (emptied cols plen s)).complete_env) k;
    }

pub opened-IsReady :
    (cols plen : ℕ) (s : Editor)
    → IsClean s
    → IsStored s
    → IsTables s.complete_env
    → IsReady (shown (addhistory (emptied cols plen s)))
opened-IsReady cols plen s clean h k = shown-IsReady (added-IsReady cols plen s clean h k)
