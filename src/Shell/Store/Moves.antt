-- ===== src/Shell/Store/Moves.antt =====
-- `historymove` on pointers and blocks.
use puny_gui.Prelude.{
  ℕ, suc, ◌-◌, ◌≤◌, ◌<◌, ◌≡◌, refl, sym, ap, ap₂, subst, ◌∙◌, Bool, true, List, ◌∷◌, ◌++◌, Option,
  none, some, arith, update, slice, lt→ltb,
}
use puny_gui.Shell.History.{Delta, plus, minus, moved_index}
use puny_gui.Shell.Store.{Store, ◌>>◌, free_block, string_at, sdup, moved_to, move_line}
use puny_gui.Shell.Store.Owned.{Owned}
use puny_gui.Shell.Store.Cells.{slice-update}
use puny_gui.Shell.Store.Contents.{
  Blocks, contents, strings, Owned-IsHeld, IsHeld-front, IsHeld-back, contents-update,
  contents-append, contents-slice,
}
use puny_gui.Shell.Store.Sound.{
  IsSound, Succeeds, Becomes, freed, freed-unborn, freed-kept, free_block_lem, copied, copied-Owned,
  copied-texts, sdup_lem,
}
use puny_gui.Shell.Store.Replaces.{owner_at, readable}

pub moved_index-lt :
    (count i : ℕ) (delta : Delta) → 0 < count → i < count → moved_index count i delta < count
unfolding moved_index
moved_index-lt count i (plus d) h l = ground arith
moved_index-lt count i (minus d) h l = ground arith

-- The strings in front of a new block and behind it, with the old block freed.
texts_moved :
    (line : List ℕ) (s : Store) (before behind : List (Option ℕ))
    → (freed (s.cells s.index) s.blocks) s.top ≡ none
    → Owned (before ++ behind) (freed (s.cells s.index) s.blocks)
    → contents
        (update (freed (s.cells s.index) s.blocks) s.top (some line))
        (before ++ (some s.top ∷ behind))
      ≡ contents s.blocks before ++ (some line ∷ contents s.blocks behind)
texts_moved line s before behind n left =
    let p : Option ℕ = s.cells s.index in
    let b : Blocks = freed p s.blocks in
    let held = Owned-IsHeld b (before ++ behind) left in
    let front = IsHeld-front b before behind held in
    let back = IsHeld-back b before behind held in
    contents-append (update b s.top (some line)) before (some s.top ∷ behind)
    ∙ ap₂ ◌++◌
        (contents-update b s.top (some line) before n front ∙ freed-kept p s.blocks before front)
        (copied-texts line (record s { blocks = b }) behind n back
          ∙ ap (some line ∷◌) (freed-kept p s.blocks behind back))

-- The state that a move comes to.
abbrev after_move : Delta → List ℕ → Store → Store
after_move delta line s =
    moved_to delta
      (some s.top, copied line (record s { blocks = freed (s.cells s.index) s.blocks }))

-- The entries but the one at the index.
abbrev before_index : Store → List (Option ℕ)
before_index s = slice s.cells 0 s.index

abbrev behind_index : Store → List (Option ℕ)
behind_index s = slice s.cells (suc s.index) (s.count - suc s.index)

after_move-Becomes :
    (delta : Delta) (line : List ℕ) (s : Store)
    → IsSound s
    → s.index < s.count
    → Owned (before_index s ++ behind_index s) (freed (s.cells s.index) s.blocks)
    → Becomes
        (slice (update (strings s) s.index (some line)) 0 s.count)
        (moved_index s.count s.index delta)
        (after_move delta line s)
after_move-Becomes delta line s h l left =
    let t : Store = record s { blocks = freed (s.cells s.index) s.blocks } in
    let u : Store = after_move delta line s in
    let unborn : (a : ℕ) → s.top ≤ a → t.blocks a ≡ none =
      λ a b. freed-unborn (s.cells s.index) s.blocks a (h.unborn a b) in
    let cells = slice-update s.cells (some s.top) s.index s.count l in
    (
      record {
        owned =
            subst (λ ps. Owned ps u.blocks) (sym cells)
              (copied-Owned line t (before_index s) (behind_index s) left (unborn _ (omega arith)));
        unborn = λ a b. let e = unborn a (omega arith) in ground arith;
        bounded = h.bounded;
      },
      ap (contents u.blocks) cells
          ∙ texts_moved line s (before_index s) (behind_index s) (unborn _ (omega arith)) left
          ∙ ap₂ ◌++◌ (contents-slice s 0 s.index)
              (ap (some line ∷◌) (contents-slice s (suc s.index) (s.count - suc s.index)))
          ∙ sym (slice-update (strings s) (some line) s.index s.count l),
      refl,
    )

-- The entry at the index is read, behind a move.
abbrev read_entry : Store → Option Store
read_entry u = string_at (u.cells u.index) u >> λ entry. some u

module _ (malloc : ℕ → Bool) (serves : (n : ℕ) → malloc n ≡ true) where
  move_line-eq-after_move :
      (delta : Delta) (line : List ℕ) (s : Store)
      → 1 < s.count
      → free_block (s.cells s.index) s
        ≡ some (record s { blocks = freed (s.cells s.index) s.blocks })
      → move_line malloc delta line s ≡ read_entry (after_move delta line s)
  unfolding move_line
  move_line-eq-after_move delta line s many step =
      rw (move_line, lt→ltb 1 s.count many)
        (ap (λ (o : Option Store). o >> λ v. read_entry (moved_to delta (sdup malloc line v))) step
          ∙ ap (λ (r : Option ℕ × Store). read_entry (moved_to delta r))
              (sdup_lem malloc line (record s { blocks = freed (s.cells s.index) s.blocks })
                (serves _)))

  pub move_lem :
      (delta : Delta) (line : List ℕ) (s : Store)
      → IsSound s
      → s.index < s.count
      → 1 < s.count
      → Succeeds
          (Becomes
            (slice (update (strings s) s.index (some line)) 0 s.count)
            (moved_index s.count s.index delta))
          (move_line malloc delta line s)
  move_lem delta line s h l many =
      let (step, left) =
        free_block_lem (s.cells s.index) (before_index s ++ behind_index s) s
          (owner_at s s.index h l) in
      let u : Store = after_move delta line s in
      let becomes = after_move-Becomes delta line s h l left in
      let inside = moved_index-lt s.count s.index delta (omega arith) l in
      let (entry, e) = readable u u.index becomes.0 inside in
      (
        u,
        move_line-eq-after_move delta line s many step
            ∙ ap (λ (o : Option (List ℕ)). o >> λ entry. some u) e,
        becomes,
      )
