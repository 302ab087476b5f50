-- ===== src/Shell/History/Index.antt =====
-- `addhistory` and `replacehistory`, and the index of the history.
use puny_gui.Prelude.{
  ℕ, ◌≡◌, refl, List, Option, none, some, if_ind, ltb, ◌==◌, if◌then◌else◌, update,
}
use puny_gui.Shell.State.{Editor, history_max, crashed}
use puny_gui.Shell.History.{
  addhistory, push_entry, replacehistory, delete_entry, replace_entry, replace_line, str_same,
  line_string, sdup_line,
}

-- The index stays.
abbrev pub SameIndex : Editor → Editor → Type 0
SameIndex s t = t.historyi ≡ s.historyi

push_entry-SameIndex : (s : Editor) (line : Option (List ℕ)) → SameIndex s (push_entry line s)
unfolding push_entry
push_entry-SameIndex s line =
    if_ind (SameIndex s) (ltb s.history_count history_max) (λ e. refl) (λ e. refl)

pub addhistory-SameIndex : (s : Editor) → SameIndex s (addhistory s)
unfolding addhistory
addhistory-SameIndex s = by_copy (sdup_line s)
  where
    by_copy :
        (o : Option (List ℕ))
        → SameIndex s (elim o [ none ↦ s | some line ↦ push_entry (some line) s ])
    by_copy none = refl
    by_copy (some line) = push_entry-SameIndex s (some line)

delete_entry-SameIndex : (s : Editor) → SameIndex s (delete_entry s)
unfolding delete_entry
delete_entry-SameIndex s = if_ind (SameIndex s) (s.history_count == 0) (λ e. refl) (λ e. refl)

replace_entry-SameIndex : (s : Editor) → SameIndex s (replace_entry s)
unfolding replace_entry
replace_entry-SameIndex s = by_copy (sdup_line s)
  where
    by_copy :
        (o : Option (List ℕ))
        → SameIndex s (elim o [
          | none ↦ s
          | some line ↦ record s { history = update s.history 0 (some line) }
        ])
    by_copy none = refl
    by_copy (some line) = refl

replace_line-SameIndex : (s : Editor) → SameIndex s (replace_line s)
unfolding replace_line
replace_line-SameIndex s =
    if_ind (SameIndex s) (ltb 1 s.history_count) (λ many. by_last (s.history 1))
      (λ single. replace_entry-SameIndex s)
  where
    by_last :
        (o : Option (List ℕ))
        → SameIndex s (elim o [
          | none ↦ record s { status = crashed }
          | some last ↦ if str_same (line_string s) last then delete_entry s else replace_entry s
        ])
    by_last none = refl
    by_last (some last) =
        if_ind (SameIndex s) (str_same (line_string s) last) (λ e. delete_entry-SameIndex s)
          (λ e. replace_entry-SameIndex s)

pub replacehistory-SameIndex : (s : Editor) → SameIndex s (replacehistory s)
unfolding replacehistory
replacehistory-SameIndex s =
    if_ind (SameIndex s) (s.len == 0) (λ e. delete_entry-SameIndex s)
      (λ e. replace_line-SameIndex s)
