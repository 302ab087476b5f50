-- ===== src/Shell/History/Kept.antt =====
-- `replacehistory` and what it keeps of the history.
use puny_gui.Prelude.{
  ℕ, suc, ◌-◌, ◌≤◌, ◌<◌, ◌≡◌, refl, List, Option, none, some, Option-cases, inl, inr, if_ind, subst,
  if◌then◌else◌, ◌==◌, ltb, arith, update, update_ind, ltb→lt, Bool-cases, true, zero, ◌+◌,
}
use puny_gui.Shell.State.{Editor, IsValid, IsValid-same, text, crashed, history_max}
use puny_gui.Shell.History.{
  sdup_line, str_same, line_string, shift_down, delete_entry, replace_entry, replace_line,
  replacehistory, addhistory, push_entry,
}
use puny_gui.Shell.History.Refine.{shift_down_lem, sdup_line-eq-some}
use puny_gui.Shell.History.Valid.{
  IsLine, IsEntry, sdup_line-IsEntry, text-IsLine, count-push_entry, cell-push_entry,
  first-push_entry,
}

-- An entry that is a line, and not NULL.
abbrev pub IsFilled : Option (List ℕ) → Type 0
IsFilled none = ⊥
IsFilled (some e) = IsLine e

-- All entries are lines.
abbrev pub HasLines : Editor → Type 0
HasLines s = (j : ℕ) → j < s.history_count → IsFilled (s.history j)

-- The line is well formed and all entries are lines, at most one less than before; the process goes
-- on as it was, with the tables, the host and the reads as they were.
pub record Keeps (s t : Editor) : Type 0 where
  pub line : IsValid t
  pub fewer : t.history_count ≤ s.history_count
  pub one_less : s.history_count ≤ suc t.history_count
  pub lines : HasLines t
  pub complete_env : t.complete_env ≡ s.complete_env
  pub status : t.status ≡ s.status
  pub host : t.host ≡ s.host
  pub input : t.input ≡ s.input

-- A change of the entries alone.
same :
    (s t : Editor)
    → IsValid s
    → t.buf ≡ s.buf
    → t.len ≡ s.len
    → t.pos ≡ s.pos
    → t.history_count ≤ s.history_count
    → s.history_count ≤ suc t.history_count
    → HasLines t
    → t.complete_env ≡ s.complete_env
    → t.status ≡ s.status
    → t.host ≡ s.host
    → t.input ≡ s.input
    → Keeps s t
same s t v b l p c d e k r o i = record {
  line = IsValid-same s t v b l (omega (arith, v.cursor));
  fewer = c;
  one_less = d;
  lines = e;
  complete_env = k;
  status = r;
  host = o;
  input = i;
}

delete_entry-Keeps :
    {s : Editor} → IsValid s → 0 < s.history_count → HasLines s → Keeps s (delete_entry s)
unfolding delete_entry
delete_entry-Keeps {s} v p h = elim (Bool-cases (s.history_count == 0)) [
  | inl e ↦ absurd (ground arith)
  | inr e ↦
      rw (delete_entry, e)
        (same s _ v refl refl refl (omega arith) (omega arith) entry refl refl refl refl)
]
  where
    cell :
        (j : ℕ)
        → j < s.history_count - 1
        → shift_down (s.history_count - 1) 1 s.history j ≡ s.history (suc j)
    cell j l = ground (arith, shift_down_lem (s.history_count - 1) 1 s.history j)

    entry :
        (j : ℕ)
        → j < s.history_count - 1
        → IsFilled (shift_down (s.history_count - 1) 1 s.history j)
    entry j l = rw (cell j l) (h (suc j) (omega arith))

replace_entry-Keeps : {s : Editor} → IsValid s → HasLines s → Keeps s (replace_entry s)
unfolding replace_entry
replace_entry-Keeps {s} v h = elim (Option-cases (sdup_line s)) [
  | inl null ↦
      rw (replace_entry, null)
        (same s s v refl refl refl (omega arith) (omega arith) h refl refl refl refl)
  | inr (e, served) ↦
      rw (replace_entry, served)
        (same s (record s { history = update s.history 0 (some e) }) v refl refl refl (omega arith)
          (omega arith) (entry e (subst IsEntry served (sdup_line-IsEntry v))) refl refl refl refl)
]
  where
    entry :
        (e : List ℕ)
        → IsLine e
        → (j : ℕ) → j < s.history_count
        → IsFilled (update s.history 0 (some e) j)
    entry e n j l = update_ind IsFilled s.history 0 (some e) j n (h j l)

replace_line-Keeps :
    {s : Editor} → IsValid s → 0 < s.history_count → HasLines s → Keeps s (replace_line s)
unfolding replace_line
replace_line-Keeps {s} v p h =
    if_ind (Keeps s) (ltb 1 s.history_count) (λ many. by_last (s.history 1) (h 1 (ltb→lt _ _ many)))
      (λ few. replace_entry-Keeps v h)
  where
    by_last :
        (o : Option (List ℕ))
        → IsFilled o
        → Keeps s (elim o [
          | none ↦ record s { status = crashed }
          | some last ↦ if str_same (line_string s) last then delete_entry s else replace_entry s
        ])
    by_last none n = absurd n
    by_last (some last) n =
        if_ind (Keeps s) (str_same (line_string s) last) (λ e. delete_entry-Keeps v p h)
          (λ e. replace_entry-Keeps v h)

-- With a well-formed line, at least one entry, and lines and no NULL in all entries: whether
-- the first entry is dropped, replaced or, without memory for the copy, kept, `replacehistory`
-- leaves the line well formed and lines and no NULL in all entries, takes at most one entry
-- away and adds none, does not end the process, and leaves the tables, the host and the reads
-- as they are.
pub replacehistory-Keeps :
    {s : Editor} → IsValid s → 0 < s.history_count → HasLines s → Keeps s (replacehistory s)
unfolding replacehistory
replacehistory-Keeps {s} v p h =
    if_ind (Keeps s) (s.len == 0) (λ e. delete_entry-Keeps v p h) (λ e. replace_line-Keeps v p h)

push_entry-HasLines :
    (e : List ℕ) (s : Editor)
    → IsLine e
    → s.history_count ≤ history_max
    → HasLines s
    → HasLines (push_entry (some e) s)
push_entry-HasLines e s n b h zero l = rw (first-push_entry (some e) s) n
push_entry-HasLines e s n b h (suc j) l =
    let (same_cell, inside) = cell-push_entry (some e) s j b l in
    let next_cell : suc j ≡ 1 + j = omega arith in rw (next_cell, same_cell) (h j inside)

-- With memory for the copy the new entry is a line, and there is one at least.
pub addhistory-HasLines :
    {s : Editor}
    → IsValid s
    → s.host.malloc (suc s.len) ≡ true
    → s.history_count ≤ history_max
    → HasLines s
    → HasLines (addhistory s) × (0 < (addhistory s).history_count)
unfolding addhistory
addhistory-HasLines {s} v served b h =
    rw (addhistory, sdup_line-eq-some v served)
      (
        push_entry-HasLines _ s (text-IsLine v) b h,
        omega (arith, count-push_entry (some (text s)) s b),
      )
