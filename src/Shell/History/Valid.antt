-- ===== src/Shell/History/Valid.antt =====
-- The history and its well-formedness.
use puny_gui.Prelude.{
  ℕ, zero, suc, ◌+◌, ◌-◌, ◌≤◌, ◌<◌, max, ◌≡◌, refl, ap, subst, dec_lt, ◌∙◌, List, Option, none,
  some, arith, length, All, get_or_past, get_or-All, ltb, if_ind, ltb→lt, slice, slice_list,
  length-slice, update, c_string, c_string-eq-slice, strncpy, update_ind, Option-cases, inl, inr,
}
use puny_gui.Shell.State.{Editor, IsValid, IsValid-same, text, line_max, history_max}
use puny_gui.Shell.Screen.{refresh}
use puny_gui.Shell.Edit.Valid.{refresh-IsValid}
use puny_gui.Shell.History.{
  line_string, sdup_line, addhistory, push_entry, load_entry, show_entry, store_line, historymove,
  Delta, moved_index, plus, minus,
}
use puny_gui.Shell.History.Refine.{line_string-eq-text, pushed_room, pushed_full}

-- A line that fits the buffer, with no NUL in it.
abbrev pub IsLine : List ℕ → Type 0
IsLine e = (length e < line_max) × All (λ c. 0 < c) e

-- An entry is NULL where memory ran out.
abbrev pub IsEntry : Option (List ℕ) → Type 0
IsEntry none = Unit
IsEntry (some e) = IsLine e

-- The copy of an entry over the line, as a string.
loaded :
    (e : List ℕ) (s : Editor)
    → IsValid s
    → IsLine e
    → c_string line_max (strncpy s.buf e (line_max - 1)) 0 ≡ e
loaded e s v (fits, n) =
    c_string-eq-slice line_max (strncpy s.buf e (line_max - 1)) 0 (length e) (length e)
      (omega arith) fits (ground (arith, get_or_past e (length e) 0, v.clean (length e)))
      (λ j a b. ground (arith, get_or-All (λ c. 0 < c) e j 0 n b))
    ∙ slice_list 0 (strncpy s.buf e (line_max - 1)) 0 e
        λ j l. let z : 0 + j ≡ j = omega arith in rw z (ground arith)

len-load_entry : (e : List ℕ) (s : Editor) → IsValid s → IsLine e → (load_entry e s).len ≡ length e
unfolding load_entry
len-load_entry e s v l = ap length (loaded e s v l)

buf-load_entry :
    (e : List ℕ) (s : Editor) (j : ℕ)
    → IsValid s
    → IsLine e
    → (load_entry e s).buf j ≡ update (strncpy s.buf e (line_max - 1)) (length e) 0 j
unfolding load_entry
buf-load_entry e s j v l = rw (loaded e s v l)

pos-load_entry : (e : List ℕ) (s : Editor) → (load_entry e s).pos ≤ (load_entry e s).len
unfolding load_entry
pos-load_entry e s = omega arith

-- A stored line comes back whole, and the editor is valid.
pub text-load_entry : (e : List ℕ) (s : Editor) → IsValid s → IsLine e → text (load_entry e s) ≡ e
text-load_entry e s v l =
    ap (slice (load_entry e s).buf 0) (len-load_entry e s v l)
    ∙ slice_list 0 (load_entry e s).buf 0 e
        λ j b. let z : 0 + j ≡ j = omega arith in rw z (ground (arith, buf-load_entry e s j v l))

pub load_entry-IsValid : (e : List ℕ) (s : Editor) → IsValid s → IsLine e → IsValid (load_entry e s)
load_entry-IsValid e s v l =
    let n = len-load_entry e s v l in
    record {
      cursor = pos-load_entry e s;
      fits = omega arith;
      terminated = rw n (ground (arith, buf-load_entry e s (length e) v l));
      no_null = λ j h.
          ground (arith, buf-load_entry e s j v l, get_or-All (λ c. 0 < c) e j 0 l.1 (omega arith));
      clean = λ j h. ground (arith, buf-load_entry e s j v l, get_or_past e j 0, v.clean j);
    }

show_entry-IsValid :
    (o : Option (List ℕ)) (s : Editor) → IsValid s → IsEntry o → IsValid (show_entry o s)
unfolding show_entry
show_entry-IsValid none s v l = IsValid-same s _ v refl refl v.cursor
show_entry-IsValid (some e) s v l = refresh-IsValid (load_entry-IsValid e s v l)

-- The array of entries: at most as many as it has cells, gbl_historyi among them, and each a line.
pub record IsStored (s : Editor) : Type 0 where
  pub bounded : s.history_count ≤ history_max
  pub index : s.historyi < max 1 s.history_count
  pub stored : (j : ℕ) → j < s.history_count → IsEntry (s.history j)

moved_index-lt : (count i : ℕ) (delta : Delta) → 1 < count → moved_index count i delta < count
unfolding moved_index
moved_index-lt count i (plus d) h = ground arith
moved_index-lt count i (minus d) h = ground arith

All-slice :
    (m : ℕ → ℕ) (i n : ℕ) → ((j : ℕ) → i ≤ j → j < i + n → 0 < m j) → All (λ c. 0 < c) (slice m i n)
All-slice m i zero h = tt
All-slice m i (suc n) h = (
  h i (omega arith) (omega arith),
  All-slice m (suc i) n λ j a b. h j (omega arith) (omega arith),
)

pub text-IsLine : {s : Editor} → IsValid s → IsLine (text s)
text-IsLine {s} v = (
  omega (arith, v.fits, length-slice s.buf 0 s.len),
  All-slice s.buf 0 s.len λ j a b. v.no_null j (omega arith),
)

pub sdup_line-IsEntry : {s : Editor} → IsValid s → IsEntry (sdup_line s)
unfolding sdup_line
sdup_line-IsEntry {s} v =
    if_ind IsEntry (s.host.malloc (length (line_string s) + 1))
      (λ e. rw (line_string-eq-text v) (text-IsLine v)) (λ e. tt)

store_line-IsStored :
    {s : Editor} (delta : Delta)
    → IsValid s
    → IsStored s
    → 1 < s.history_count
    → IsStored (store_line delta s)
unfolding store_line
store_line-IsStored {s} delta v h m = record {
  bounded = h.bounded;
  index = omega (arith, moved_index-lt s.history_count s.historyi delta m);
  stored = λ j l.
      update_ind IsEntry s.history s.historyi (sdup_line s) j (sdup_line-IsEntry v) (h.stored j l);
}

index_below :
    (s : Editor) (delta : Delta)
    → 1 < s.history_count
    → (store_line delta s).historyi < (store_line delta s).history_count
unfolding store_line
index_below s delta m = moved_index-lt s.history_count s.historyi delta m

pub store_line-IsValid : {s : Editor} (delta : Delta) → IsValid s → IsValid (store_line delta s)
unfolding store_line
store_line-IsValid {s} delta v = IsValid-same s _ v refl refl v.cursor

show_entry-IsStored : (o : Option (List ℕ)) (s : Editor) → IsStored s → IsStored (show_entry o s)
unfolding show_entry load_entry refresh
show_entry-IsStored none s h = record { bounded = h.bounded; index = h.index; stored = h.stored }
show_entry-IsStored (some e) s h = record {
  bounded = h.bounded;
  index = h.index;
  stored = h.stored;
}

pub historymove-IsValid :
    {s : Editor} (delta : Delta)
    → IsValid s
    → IsStored s
    → IsValid (historymove delta s) × IsStored (historymove delta s)
unfolding historymove
historymove-IsValid {s} delta v h =
    if_ind (λ t. IsValid t × IsStored t) (ltb 1 s.history_count)
      (λ e.
        let kept = store_line-IsStored delta v h (ltb→lt _ _ e) in
        let found =
          kept.stored (store_line delta s).historyi (index_below s delta (ltb→lt _ _ e)) in
        (show_entry-IsValid _ _ (store_line-IsValid delta v) found, show_entry-IsStored _ _ kept))
      (λ e. (v, h))

push_entry-IsValid : (o : Option (List ℕ)) {s : Editor} → IsValid s → IsValid (push_entry o s)
unfolding push_entry
push_entry-IsValid o {s} v =
    if_ind IsValid (ltb s.history_count history_max) (λ e. IsValid-same s _ v refl refl v.cursor)
      (λ e. IsValid-same s _ v refl refl v.cursor)

pub count-push_entry :
    (o : Option (List ℕ)) (s : Editor)
    → s.history_count ≤ history_max
    → (1 ≤ (push_entry o s).history_count)
      × (s.history_count ≤ (push_entry o s).history_count)
      × ((push_entry o s).history_count ≤ history_max)
      × ((push_entry o s).history_count ≤ suc s.history_count)
      × ((push_entry o s).historyi ≡ s.historyi)
unfolding push_entry
count-push_entry o s h = ground arith

pub cell-push_entry :
    (o : Option (List ℕ)) (s : Editor) (j : ℕ)
    → s.history_count ≤ history_max
    → suc j < (push_entry o s).history_count
    → ((push_entry o s).history (1 + j) ≡ s.history j) × (j < s.history_count)
unfolding push_entry
cell-push_entry o s j full l = elim (dec_lt s.history_count history_max) [
  | yes room ↦ (pushed_room o s j room (ground arith), ground arith)
  | no no_room ↦ (pushed_full o s j (omega arith) (ground arith), ground arith)
]

pub first-push_entry : (o : Option (List ℕ)) (s : Editor) → (push_entry o s).history 0 ≡ o
unfolding push_entry
first-push_entry o s = ground arith

push_entry-IsStored :
    (o : Option (List ℕ)) {s : Editor} → IsEntry o → IsStored s → IsStored (push_entry o s)
push_entry-IsStored o {s} p h =
    let n = count-push_entry o s h.bounded in
    record { bounded = n.2; index = omega (arith, h.index); stored = cells }
  where
    cells : (j : ℕ) → j < (push_entry o s).history_count → IsEntry ((push_entry o s).history j)
    cells zero l = rw (first-push_entry o s) p
    cells (suc j) l =
        let (e, b) = cell-push_entry o s j h.bounded l in
        let a : suc j ≡ 1 + j = omega arith in rw (a, e) (h.stored j b)

-- `addhistory` and `replacehistory` keep the line and the entries well formed.
pub addhistory-IsValid :
    {s : Editor} → IsValid s → IsStored s → IsValid (addhistory s) × IsStored (addhistory s)
unfolding addhistory
addhistory-IsValid {s} v h = elim (Option-cases (sdup_line s)) [
  | inl null ↦ rw (addhistory, null) (v, h)
  | inr (e, served) ↦
      let line : IsEntry (some e) = subst IsEntry served (sdup_line-IsEntry v) in
      rw (addhistory, served) (push_entry-IsValid (some e) v, push_entry-IsStored (some e) line h)
]

pub historymove-env :
    (delta : Delta) (s : Editor)
    → ((historymove delta s).complete_env ≡ s.complete_env)
      × ((historymove delta s).input ≡ s.input)
unfolding historymove
historymove-env delta s =
    if_ind (λ (t : Editor). (t.complete_env ≡ s.complete_env) × (t.input ≡ s.input))
      (ltb 1 s.history_count) (λ e. shown _) (λ e. (refl, refl))
  where
    shown :
        (o : Option (List ℕ))
        → ((show_entry o (store_line delta s)).complete_env ≡ s.complete_env)
          × ((show_entry o (store_line delta s)).input ≡ s.input)
    shown none = (refl, refl)
    shown (some e) = (refl, refl)
