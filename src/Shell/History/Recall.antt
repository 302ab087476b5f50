-- ===== src/Shell/History/Recall.antt =====
-- `historymove`: what a move through the history shows.
use puny_gui.Prelude.{
  ℕ, suc, ◌+◌, ◌≤◌, ◌<◌, ◌≡◌, ap, subst, ◌∙◌, true, List, Option, some, arith, lt→ltb, update,
}
use puny_gui.Shell.State.{Editor, IsValid, text}
use puny_gui.Shell.Screen.{refresh}
use puny_gui.Shell.History.{
  show_entry, store_line, load_entry, historymove, Delta, moved_index, plus, minus,
}
use puny_gui.Shell.History.Refine.{sdup_line-eq-some}
use puny_gui.Shell.History.Valid.{
  IsLine, IsEntry, IsStored, text-IsLine, historymove-IsValid, text-load_entry, store_line-IsValid,
}

-- The entries once the line is stored.
abbrev pub stored : Editor → ℕ → Option (List ℕ)
stored s = update s.history s.historyi (some (text s))

pub moved :
    {s : Editor} (delta : Delta) {e : List ℕ}
    → IsValid s
    → s.host.malloc (suc s.len) ≡ true
    → 1 < s.history_count
    → stored s (moved_index s.history_count s.historyi delta) ≡ some e
    → historymove delta s ≡ refresh (load_entry e (store_line delta s))
unfolding historymove store_line show_entry
moved {s} delta v served many found =
    rw (historymove, lt→ltb 1 s.history_count many, sdup_line-eq-some v served, found)

-- What the code does, by its own index.
show_moved :
    {s : Editor} (delta : Delta) {e : List ℕ}
    → IsValid s
    → s.host.malloc (suc s.len) ≡ true
    → 1 < s.history_count
    → stored s (moved_index s.history_count s.historyi delta) ≡ some e
    → IsLine e
    → (text (historymove delta s) ≡ e)
      × ((historymove delta s).historyi ≡ moved_index s.history_count s.historyi delta)
      × ((historymove delta s).history ≡ stored s)
unfolding load_entry store_line refresh
show_moved {s} delta {e} v served many found line =
    let to = moved delta v served many found in
    (
      ap text to ∙ text-load_entry e (store_line delta s) (store_line-IsValid delta v) line,
      ap (λ (t : Editor). t.historyi) to,
      ap (λ (t : Editor). t.history) to ∙ rw (sdup_line-eq-some v served),
    )

same_host :
    {s : Editor} (delta : Delta) {e : List ℕ}
    → IsValid s
    → s.host.malloc (suc s.len) ≡ true
    → 1 < s.history_count
    → stored s (moved_index s.history_count s.historyi delta) ≡ some e
    → ((historymove delta s).host ≡ s.host)
      × ((historymove delta s).history_count ≡ s.history_count)
unfolding load_entry store_line refresh
same_host {s} delta v served many found =
    let to = moved delta v served many found in
    (ap (λ (t : Editor). t.host) to, ap (λ (t : Editor). t.history_count) to)

-- The place that a move comes to: so many entries older or newer, and no further than the oldest
-- and the newest one.
abbrev pub ComesTo : ℕ → ℕ → Delta → ℕ → Type 0
ComesTo count i (plus d) j = (i + d < count → j ≡ i + d) × (count ≤ i + d → suc j ≡ count)
ComesTo count i (minus d) j = (d ≤ i → j + d ≡ i) × (i < d → j ≡ 0)

comes_to :
    (count i : ℕ) (delta : Delta) (j : ℕ)
    → 1 < count
    → i < count
    → ComesTo count i delta j
    → (moved_index count i delta ≡ j) × (j < count)
unfolding moved_index
comes_to count i (plus d) j h l (inside, beyond) = (ground arith, ground arith)
comes_to count i (minus d) j h l (inside, beyond) = (ground arith, ground arith)

-- With a well-formed line, several entries with the index at one of them, memory for the copy,
-- and a line of text in the entry that is come to: `historymove` stores the line in the entry
-- that it leaves, moves the index by so many entries, stopping at the oldest one and at the
-- newest one, and shows the entry that it comes to.
pub historymove_lem :
    {s : Editor} (delta : Delta) (j : ℕ) {e : List ℕ}
    → IsValid s
    → s.host.malloc (suc s.len) ≡ true
    → 1 < s.history_count
    → s.historyi < s.history_count
    → ComesTo s.history_count s.historyi delta j
    → stored s j ≡ some e
    → IsLine e
    → (text (historymove delta s) ≡ e)
      × ((historymove delta s).historyi ≡ j)
      × (j < s.history_count)
      × ((historymove delta s).history ≡ stored s)
historymove_lem {s} delta j v served many inside to found line =
    let (index, bound) = comes_to s.history_count s.historyi delta j many inside to in
    let (shown, at, kept) = show_moved delta v served many (ap (stored s) index ∙ found) line in
    (shown, at ∙ index, bound, kept)

older_index : (count i : ℕ) → suc i < count → moved_index count i (plus 1) ≡ suc i
unfolding moved_index
older_index count i h = ground arith

newer_index : (count i : ℕ) → suc i < count → moved_index count (suc i) (minus 1) ≡ i
unfolding moved_index
newer_index count i h = ground arith

-- With a well-formed line and history, memory for every copy, and an older entry that is not
-- NULL: going one entry back and one forth shows the line as it was left.
pub historymove-historymove :
    {s : Editor} {e : List ℕ}
    → IsValid s
    → IsStored s
    → ((n : ℕ) → s.host.malloc n ≡ true)
    → suc s.historyi < s.history_count
    → s.history (suc s.historyi) ≡ some e
    → text (historymove (minus 1) (historymove (plus 1) s)) ≡ text s
historymove-historymove {s} {e} v h served older found =
    let i = older_index s.history_count s.historyi older in
    let many : 1 < s.history_count = omega arith in
    let line : IsLine e = subst IsEntry found (h.stored (suc s.historyi) older) in
    let there : stored s (moved_index s.history_count s.historyi (plus 1)) ≡ some e =
      rw i (ground arith) in
    let (shown, index, kept) = show_moved (plus 1) v (served _) many there line in
    let (host, count) = same_host (plus 1) v (served _) many there in
    let (v', h') = historymove-IsValid (plus 1) v h in
    let back : moved_index (historymove (plus 1) s).history_count (historymove (plus 1) s).historyi
          (minus 1)
        ≡ s.historyi =
      rw (index, count, i) (newer_index s.history_count s.historyi older) in
    (show_moved (minus 1) v' (rw host (served _)) (omega arith)
      (rw (back, index, i, kept) (ground arith)) (text-IsLine v)).0
