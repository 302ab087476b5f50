-- ===== src/Shell/History/Refine.antt =====
-- The array of history entries against a list that holds the newest entry first.
use puny_gui.Prelude.{
  ℕ, zero, suc, ◌+◌, ◌-◌, ◌≤◌, ◌<◌, ◌≡◌, ◌≢◌, refl, ap, ap₂, ◌∙◌, sym, Bool, true, false, ◌&&◌,
  ◌||◌, List, [], ◌∷◌, Option, none, some, arith, length, take, ltb, leb, ◌==◌, if◌then◌else◌,
  slice, slice_ext, slice_agree, Bool-cases, Option-cases, inl, inr, dec_lt, lt→ltb, le→ltb_false,
  length-slice, take-slice, min, update, c_string-eq-slice,
}
use puny_gui.Shell.State.{Editor, IsValid, text, line_max, history_max}
use puny_gui.Shell.History.{
  line_string, sdup_line, addhistory, push_entry, shift_up, shift_down, entries, replacehistory,
  delete_entry, replace_entry, replace_line, str_same,
}

-- In a valid editor the C string in the buffer is the text of the line.
pub line_string-eq-text : {s : Editor} → IsValid s → line_string s ≡ text s
unfolding line_string
line_string-eq-text {s} v =
    c_string-eq-slice line_max s.buf 0 s.len s.len (omega arith) v.fits v.terminated
      λ j a b. v.no_null j b

pub sdup_line-eq-some :
    {s : Editor} → IsValid s → s.host.malloc (suc s.len) ≡ true → sdup_line s ≡ some (text s)
unfolding sdup_line
sdup_line-eq-some {s} v served =
    let n : length (text s) + 1 ≡ suc s.len = omega (arith, length-slice s.buf 0 s.len) in
    rw (line_string-eq-text v, n, served)

module _ {A : Type 0} where
  pub shift_up_lem :
      (n : ℕ) (h : ℕ → A) (j : ℕ) → shift_up n h j ≡ (if ltb 0 j && leb j n then h (j - 1) else h j)
  unfolding shift_up
  shift_up_lem zero h j = ground arith
  shift_up_lem (suc n) h j = ground (arith, shift_up_lem n (update h (suc n) (h n)) j)

  pub shift_down_lem :
      (n from : ℕ) (h : ℕ → A) (j : ℕ)
      → 0 < from
      → shift_down n from h j
        ≡ (if leb from (suc j) && ltb (suc j) (from + n) then h (suc j) else h j)
  unfolding shift_down
  shift_down_lem zero from h j p = ground arith
  shift_down_lem (suc n) from h j p =
      ground (arith, shift_down_lem n (suc from) (update h (from - 1) (h from)) j)

-- A new first cell, and the cells of `h` behind it.
pub slice_pushed :
    {A : Type 0} (h h' : ℕ → A) (x : A) (c c' : ℕ)
    → c' ≡ suc c
    → h' 0 ≡ x
    → ((j : ℕ) → j < c → h' (1 + j) ≡ h j)
    → slice h' 0 c' ≡ x ∷ slice h 0 c
slice_pushed h h' x c c' n e k =
    rw n (ap₂ ◌∷◌ e (slice_agree h' h 1 1 0 c c (omega arith) refl λ j a b. k j (omega arith)))

-- The cells behind the new entry, with room in the array and without.
pub pushed_room :
    (newline : Option (List ℕ)) (s : Editor) (j : ℕ)
    → s.history_count < history_max
    → j < s.history_count
    → (push_entry newline s).history (1 + j) ≡ s.history j
unfolding push_entry
pushed_room newline s j room l = rw (lt→ltb _ _ room) (
    ground (arith, shift_up_lem s.history_count (update s.history s.history_count newline) (1 + j)))

pub pushed_full :
    (newline : Option (List ℕ)) (s : Editor) (j : ℕ)
    → history_max ≤ s.history_count
    → j < s.history_count - 1
    → (push_entry newline s).history (1 + j) ≡ s.history j
unfolding push_entry
pushed_full newline s j full l =
    rw (le→ltb_false _ _ full)
      (ground (arith, shift_up_lem (s.history_count - 1) s.history (1 + j)))

-- A new entry stands first, and only the newest entries that the array holds are kept.
entries-push_entry :
    (newline : Option (List ℕ)) (s : Editor)
    → s.history_count ≤ history_max
    → entries (push_entry newline s) ≡ newline ∷ take (history_max - 1) (entries s)
unfolding push_entry
entries-push_entry newline s full =
    slice_pushed s.history (push_entry newline s).history newline (min 99 s.history_count) _
      (ground arith) (ground arith)
      (λ j l. elim (dec_lt s.history_count history_max) [
        | yes room ↦ pushed_room newline s j room (omega arith)
        | no no_room ↦ pushed_full newline s j (omega arith) (omega arith)
      ])
    ∙ ap (newline ∷◌) (sym (take-slice 99 s.history 0 s.history_count))

-- The entry at the front goes.
entries-delete_entry :
    (s : Editor) {n : ℕ} → s.history_count ≡ suc n → entries (delete_entry s) ≡ slice s.history 1 n
unfolding delete_entry
entries-delete_entry s {n} e = sym (
    slice_agree s.history (delete_entry s).history 1 1 0 n _ refl (ground arith)
      λ j a b. ground (arith, shift_down_lem (s.history_count - 1) 1 s.history j))

-- With a well-formed line, a history that is not over its bound and memory for the copy,
-- `addhistory` puts the text of the line in front of the entries and keeps as many of the
-- others as the array holds.
pub entries-addhistory :
    {s : Editor}
    → IsValid s
    → s.history_count ≤ history_max
    → s.host.malloc (suc s.len) ≡ true
    → entries (addhistory s) ≡ some (text s) ∷ take (history_max - 1) (entries s)
unfolding addhistory
entries-addhistory {s} v full served =
    rw (addhistory, sdup_line-eq-some v served) (entries-push_entry (some (text s)) s full)

entries-replace_entry :
    {s : Editor} {n : ℕ}
    → IsValid s
    → s.history_count ≡ suc n
    → s.host.malloc (suc s.len) ≡ true
    → entries (replace_entry s) ≡ some (text s) ∷ slice s.history 1 n
unfolding replace_entry
entries-replace_entry {s} {n} v e served =
    rw (replace_entry, sdup_line-eq-some v served, e)
      (ap (some (text s) ∷◌)
        (slice_ext (update s.history 0 (some (text s))) s.history 1 n λ j a b. ground arith))

-- The line is the same as the newest of the older entries.
abbrev pub repeats : List ℕ → List (Option (List ℕ)) → Bool
repeats line [] = false
repeats line (none ∷ _) = false
repeats line (some last ∷ _) = str_same line last

-- What the history is to hold once a line is accepted, from the older entries.
abbrev pub accepted : List ℕ → List (Option (List ℕ)) → List (Option (List ℕ))
accepted line older = if length line == 0 || repeats line older then older else some line ∷ older

replace_line_single : (s : Editor) → s.history_count ≡ 1 → replace_line s ≡ replace_entry s
unfolding replace_line
replace_line_single s e = rw (replace_line, le→ltb_false 1 s.history_count (omega arith))

replace_line_many :
    (s : Editor) {last : List ℕ}
    → 1 < s.history_count
    → s.history 1 ≡ some last
    → replace_line s ≡ (if str_same (line_string s) last then delete_entry s else replace_entry s)
unfolding replace_line
replace_line_many s m found = rw (replace_line, lt→ltb 1 s.history_count m, found)

-- The second half of the test, at a line that is not empty.
after_text :
    {s : Editor} (n : ℕ)
    → IsValid s
    → s.history_count ≡ suc n
    → s.host.malloc (suc s.len) ≡ true
    → (1 < s.history_count → s.history 1 ≢ none)
    → entries (replace_line s) ≡ (
        if repeats (text s) (slice s.history 1 n)
        then slice s.history 1 n
        else some (text s) ∷ slice s.history 1 n)
after_text {s} zero v e served full =
    ap entries (replace_line_single s e) ∙ entries-replace_entry v e served
after_text {s} (suc n) v e served full = elim (Option-cases (s.history 1)) [
  | inl null ↦ absurd (full (omega arith) null)
  | inr (last, found) ↦
      ap entries (replace_line_many s (omega arith) found)
      ∙ rw (line_string-eq-text v, found)
          (elim (Bool-cases (str_same (text s) last)) [
            | inl same ↦ rw same (entries-delete_entry s e ∙ rw found)
            | inr other ↦ rw other (entries-replace_entry v e served ∙ rw found)
          ])
]

-- With a well-formed line, at least one entry, memory for the copy, and a second entry, if
-- there is one, that is not NULL: `replacehistory` drops the first entry, and puts the line in
-- its place unless that is empty or the same as the newest of the others.
pub entries-replacehistory :
    {s : Editor} (n : ℕ)
    → IsValid s
    → s.history_count ≡ suc n
    → s.host.malloc (suc s.len) ≡ true
    → (1 < s.history_count → s.history 1 ≢ none)
    → entries (replacehistory s) ≡ accepted (text s) (slice s.history 1 n)
unfolding replacehistory
entries-replacehistory {s} n v e served full = elim (Bool-cases (s.len == 0)) [
  | inl empty ↦ rw (replacehistory, length-slice, empty) (entries-delete_entry s e)
  | inr some_text ↦ rw (replacehistory, length-slice, some_text) (after_text n v e served full)
]
