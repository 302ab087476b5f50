-- ===== src/Shell/Store/Refine.antt =====
-- The history as pointers and blocks against the history of the editor.
use puny_gui.Prelude.{
  ℕ, zero, suc, ◌+◌, ◌-◌, ◌≤◌, ◌<◌, ◌≡◌, ◌≢◌, refl, sym, ap, subst, ◌∙◌, Bool, true, false, List,
  [], ◌∷◌, Option, none, some, arith, length, length-slice, slice, slice_ext, update, take, drop,
  ◌==◌, Bool-cases, inl, inr, dec_lt, le→ltb_false,
}
use puny_gui.Shell.State.{Editor, IsValid, text, history_max}
use puny_gui.Shell.Screen.{refresh}
use puny_gui.Shell.History.{
  Delta, moved_index, entries, addhistory, replacehistory, historymove, store_line, load_entry,
}
use puny_gui.Shell.History.Refine.{
  sdup_line-eq-some, entries-addhistory, entries-replacehistory, accepted,
}
use puny_gui.Shell.History.Index.{addhistory-SameIndex, replacehistory-SameIndex}
use puny_gui.Shell.History.Recall.{stored, moved}
use puny_gui.Shell.Store.{Store, add_line, finish_line, move_line}
use puny_gui.Shell.Store.Contents.{shown, strings, contents-slice, length-shown}
use puny_gui.Shell.Store.Sound.{IsSound, Succeeds, Becomes}
use puny_gui.Shell.Store.Adds.{add_lem}
use puny_gui.Shell.Store.Replaces.{readable, string_at-eq-text_at, finish_lem}
use puny_gui.Shell.Store.Moves.{moved_index-lt, move_lem}

-- The memory of the history of an editor.
pub record Holds (m : Store) (s : Editor) : Type 0 where
  pub sound : IsSound m
  pub shows : shown m ≡ entries s
  pub index : m.index ≡ s.historyi

abbrev head_or : {A : Type 0} → A → List A → A
head_or d [] = d
head_or d (x ∷ xs) = x

slice_at :
    {A : Type 0} (f g : ℕ → A) (i n : ℕ)
    → slice f i n ≡ slice g i n
    → (j : ℕ) → i ≤ j
    → j < i + n
    → f j ≡ g j
slice_at f g i zero e j l r = absurd (omega arith)
slice_at f g i (suc n) e j l r = elim (Bool-cases (j == i)) [
  | inl p ↦ let q : j ≡ i = ground arith in rw q (ap (head_or (f i)) e)
  | inr p ↦ slice_at f g (suc i) n (ap (drop 1) e) j (ground arith) (ground arith)
]

Holds-count : {m : Store} {s : Editor} → Holds m s → m.count ≡ s.history_count
Holds-count {m} {s} h =
    sym (length-shown m) ∙ ap length h.shows ∙ length-slice s.history 0 s.history_count

-- The arrays of strings agree.
strings_at :
    {m : Store} {s : Editor} → Holds m s → (j : ℕ) → j < s.history_count → strings m j ≡ s.history j
strings_at {m} {s} h j l =
    let c = Holds-count h in
    slice_at (strings m) s.history 0 s.history_count
      (ap (slice (strings m) 0) (sym c) ∙ sym (contents-slice m 0 m.count) ∙ h.shows) j
      (omega arith) (omega arith)

-- Each entry is a string.
entry_of :
    {m : Store} {s : Editor}
    → Holds m s
    → (j : ℕ) → j < s.history_count
    → (e : List ℕ) × (s.history j ≡ some e)
entry_of {m} {s} h j l =
    let c = Holds-count h in
    let (e, found) = readable m j h.sound (omega arith) in
    (e, sym (strings_at h j l) ∙ sym (string_at-eq-text_at (m.cells j) m) ∙ found)

-- What an operation on the memory leaves, and what the one on the editor leaves.
Becomes-Holds :
    (t : Store) (s : Editor) (es : List (Option (List ℕ))) (i : ℕ)
    → es ≡ entries s
    → i ≡ s.historyi
    → Becomes es i t
    → Holds t s
Becomes-Holds t s es i e e' (sound, shows, index) = record {
  sound = sound;
  shows = shows ∙ e;
  index = index ∙ e';
}

module _ {m : Store} {s : Editor} (malloc : ℕ → Bool) (serves : (n : ℕ) → malloc n ≡ true)
    (served : s.host.malloc (suc s.len) ≡ true) (v : IsValid s) (h : Holds m s) where
  add_line-Holds : Succeeds (λ t. Holds t (addhistory s)) (add_line malloc (text s) m)
  add_line-Holds =
      let c = Holds-count h in
      let (t, e, b) = add_lem malloc serves (text s) m h.sound in
      (
        t,
        e,
        Becomes-Holds t (addhistory s) _ _
            (ap (λ es. some (text s) ∷ take (history_max - 1) es) h.shows
              ∙ sym (entries-addhistory v (omega (arith, h.sound.bounded)) served))
            (h.index ∙ sym (addhistory-SameIndex s)) b,
      )

  finish_line-Holds :
      0 < s.history_count
      → Succeeds (λ t. Holds t (replacehistory s)) (finish_line malloc (text s) m)
  finish_line-Holds pos =
      let c = Holds-count h in
      let n : ℕ = s.history_count - 1 in
      let k : s.history_count ≡ suc n = omega arith in
      let (t, e, b) = finish_lem malloc serves (text s) m h.sound (omega arith) in
      let whole : 1 < s.history_count → s.history 1 ≢ none =
        λ many null. let (last, found) = entry_of h 1 many in cc in
      (
        t,
        e,
        Becomes-Holds t (replacehistory s) _ _
            (ap (λ es. accepted (text s) (drop 1 es)) h.shows
              ∙ ap (λ j. accepted (text s) (drop 1 (slice s.history 0 j))) k
              ∙ sym (entries-replacehistory n v k served whole))
            (h.index ∙ sym (replacehistory-SameIndex s)) b,
      )

  -- The entry that is come to.
  stored_entry : (j : ℕ) → j < s.history_count → (e : List ℕ) × (stored s j ≡ some e)
  stored_entry j l = elim (Bool-cases (j == s.historyi)) [
    | inl here ↦ (text s, ap (λ b. elim b [ true ↦ some (text s) | false ↦ s.history j ]) here)
    | inr other ↦
        let (e, found) = entry_of h j l in
        (e, ap (λ b. elim b [ true ↦ some (text s) | false ↦ s.history j ]) other ∙ found)
  ]

  entries-historymove :
      (delta : Delta)
      → 1 < s.history_count
      → s.historyi < s.history_count
      → (entries (historymove delta s) ≡ slice (stored s) 0 s.history_count)
        × ((historymove delta s).historyi ≡ moved_index s.history_count s.historyi delta)
  unfolding load_entry store_line refresh
  entries-historymove delta many l =
      let inside = moved_index-lt s.history_count s.historyi delta (omega arith) l in
      let (e, found) = stored_entry (moved_index s.history_count s.historyi delta) inside in
      let to = moved delta v served many found in
      (ap entries to ∙ rw (sdup_line-eq-some v served) refl, ap (λ (t : Editor). t.historyi) to)

  move_line-Holds :
      (delta : Delta)
      → 1 < s.history_count
      → s.historyi < s.history_count
      → Succeeds (λ t. Holds t (historymove delta s)) (move_line malloc delta (text s) m)
  move_line-Holds delta many l =
      let c = Holds-count h in
      let i = h.index in
      let (t, e, b) = move_lem malloc serves delta (text s) m h.sound (omega arith) (omega arith) in
      let (es, index) = entries-historymove delta many l in
      (
        t,
        e,
        Becomes-Holds t (historymove delta s) _ _
            (rw (c, i)
                (slice_ext (update (strings m) s.historyi (some (text s))) (stored s) 0
                  s.history_count
                  λ j a b.
                    ap (λ o. elim (j == s.historyi) [ true ↦ some (text s) | false ↦ o ])
                      (strings_at h j (omega arith)))
              ∙ sym es)
            (rw (c, i) (sym index)) b,
      )

-- The operations on the history.
pub data Operation : Type 0 where
  adds replaces : Operation
  moves : Delta → Operation

abbrev pub on_editor : Operation → Editor → Editor
on_editor adds s = addhistory s
on_editor replaces s = replacehistory s
on_editor (moves delta) s = historymove delta s

abbrev pub on_store : (ℕ → Bool) → Operation → List ℕ → Store → Option Store
on_store malloc adds line m = add_line malloc line m
on_store malloc replaces line m = finish_line malloc line m
on_store malloc (moves delta) line m = move_line malloc delta line m

-- What an operation needs: an entry to replace, or an index that is in the history.
abbrev pub Allows : Operation → Editor → Type 0
Allows adds s = Unit
Allows replaces s = 0 < s.history_count
Allows (moves delta) s = s.historyi < s.history_count

stays :
    {m : Store} {s : Editor} (malloc : ℕ → Bool) (delta : Delta)
    → Holds m s
    → s.history_count ≤ 1
    → Succeeds (λ t. Holds t (historymove delta s)) (move_line malloc delta (text s) m)
unfolding historymove move_line
stays {m} {s} malloc delta h few =
    let c = Holds-count h in
    let still : historymove delta s ≡ s =
      rw (historymove, le→ltb_false 1 s.history_count few) refl in
    (m, rw (move_line, le→ltb_false 1 m.count (omega arith)) refl, subst (Holds m) (sym still) h)

-- Where malloc serves every request, with a well-formed line: the operations on pointers and
-- blocks refine those on the history of strings. From a memory in which each block belongs to
-- one entry and that shows the history, `addhistory`, `replacehistory` with at least one entry,
-- and `historymove` with the index in the history, succeed, and leave such a memory, which
-- shows what the operation makes of the history, with the same index.
pub on_store-Holds :
    {m : Store} {s : Editor} (malloc : ℕ → Bool) (operation : Operation)
    → ((n : ℕ) → malloc n ≡ true)
    → s.host.malloc (suc s.len) ≡ true
    → IsValid s
    → Holds m s
    → Allows operation s
    → Succeeds (λ t. Holds t (on_editor operation s)) (on_store malloc operation (text s) m)
on_store-Holds malloc adds serves served v h allowed = add_line-Holds malloc serves served v h
on_store-Holds malloc replaces serves served v h allowed =
    finish_line-Holds malloc serves served v h allowed
on_store-Holds {m} {s} malloc (moves delta) serves served v h allowed =
    elim (dec_lt 1 s.history_count) [
      | yes many ↦ move_line-Holds malloc serves served v h delta many allowed
      | no few ↦ stays malloc delta h (omega arith)
    ]
