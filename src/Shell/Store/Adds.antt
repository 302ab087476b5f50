-- ===== src/Shell/Store/Adds.antt =====
-- `addhistory` on pointers and blocks.
use puny_gui.Prelude.{
  ℕ, ◌+◌, ◌-◌, ◌≤◌, ◌<◌, ◌≡◌, refl, sym, ap, subst, ◌∙◌, Bool, true, List, [], ◌∷◌, ◌++◌,
  append-nil, Option, some, arith, update, slice, slice-suc, take-slice, min, lt→ltb, le→ltb_false,
  dec_lt, take,
}
use puny_gui.Shell.State.{history_max}
use puny_gui.Shell.History.{shift_up}
use puny_gui.Shell.Store.{Store, ◌>>◌, pushed_over, with_line, add_line}
use puny_gui.Shell.Store.Owned.{Owned, Owned-split}
use puny_gui.Shell.Store.Cells.{slice-shift_up_room, slice-shift_up_full}
use puny_gui.Shell.Store.Contents.{
  contents, shown, IsHeld, Owned-IsHeld, IsHeld-front, contents-take,
}
use puny_gui.Shell.Store.Sound.{
  IsSound, Succeeds, Becomes, freed, freed-unborn, freed-kept, free_block_lem, copied,
  copied-unborn, copied-Owned, copied-texts, sdup_lem,
}

-- The newest entries.
newest :
    (s : Store) (k : ℕ)
    → min (history_max - 1) s.count ≡ k
    → contents s.blocks (slice s.cells 0 k) ≡ take (history_max - 1) (shown s)
newest s k e = sym (
    sym (contents-take s.blocks (history_max - 1) (slice s.cells 0 s.count))
    ∙ ap (contents s.blocks)
        (take-slice (history_max - 1) s.cells 0 s.count ∙ ap (slice s.cells 0) e))

-- The entries of a full array.
full_cells :
    (s : Store) → s.count ≡ 100 → slice s.cells 0 s.count ≡ slice s.cells 0 99 ++ (s.cells 99 ∷ [])
full_cells s c = ap (slice s.cells 0) c ∙ slice-suc s.cells 0 99

-- The state with a new entry, where the array was full.
abbrev pushed_out : List ℕ → Store → Store
pushed_out line s = record (copied line s) {
  blocks = freed (s.cells 99) (copied line s).blocks;
  cells = update (shift_up (s.count - 1) s.cells) 0 (some s.top);
}

pushed_out-Becomes :
    (line : List ℕ) (s : Store)
    → IsSound s
    → s.count ≡ 100
    → Owned (some s.top ∷ slice s.cells 0 99) (pushed_out line s).blocks
    → Becomes (some line ∷ take (history_max - 1) (shown s)) s.index (pushed_out line s)
pushed_out-Becomes line s h c left =
    let t : Store = pushed_out line s in
    let newest_99 : List (Option ℕ) = slice s.cells 0 99 in
    let cells : slice t.cells 0 s.count ≡ some s.top ∷ newest_99 =
      rw c (slice-shift_up_full s.cells (some s.top) 99) in
    (
      record {
        owned = subst (λ ps. Owned ps t.blocks) (sym cells) left;
        unborn =
            λ a l. freed-unborn (s.cells 99) (copied line s).blocks a (copied-unborn line s h a l);
        bounded = h.bounded;
      },
      ap (contents t.blocks) cells
          ∙ freed-kept (s.cells 99) (copied line s).blocks (some s.top ∷ newest_99)
              (Owned-IsHeld t.blocks (some s.top ∷ newest_99) left)
          ∙ copied-texts line s newest_99 (h.unborn _ (omega arith)) (
              IsHeld-front s.blocks newest_99 (s.cells 99 ∷ []) (
                subst (IsHeld s.blocks) (full_cells s c)
                  (Owned-IsHeld s.blocks (slice s.cells 0 s.count) h.owned)))
          ∙ ap (some line ∷◌) (newest s 99 (omega arith)),
      refl,
    )

module _ (malloc : ℕ → Bool) (serves : (n : ℕ) → malloc n ≡ true) where
  add_room :
      (line : List ℕ) (s : Store)
      → IsSound s
      → s.count < history_max
      → Succeeds
          (Becomes (some line ∷ take (history_max - 1) (shown s)) s.index)
          (add_line malloc line s)
  unfolding add_line
  add_room line s h room =
      let x : Option ℕ = some s.top in
      let t : Store = record (copied line s) {
        cells = update (shift_up s.count (update s.cells s.count x)) 0 x;
        count = s.count + 1;
      } in
      (
        t,
        ap with_line (sdup_lem malloc line s (serves _)) ∙ rw (lt→ltb _ _ room) refl,
        (
          record {
            owned =
                subst (λ ps. Owned ps t.blocks) (sym (slice-shift_up_room s.cells x s.count))
                  (copied-Owned line s [] (slice s.cells 0 s.count) h.owned
                    (h.unborn _ (omega arith)));
            unborn = copied-unborn line s h;
            bounded = omega arith;
          },
          ap (contents t.blocks) (slice-shift_up_room s.cells x s.count)
              ∙ copied-texts line s (slice s.cells 0 s.count) (h.unborn _ (omega arith))
                  (Owned-IsHeld s.blocks (slice s.cells 0 s.count) h.owned)
              ∙ ap (some line ∷◌) (newest s s.count (omega arith)),
          refl,
        ),
      )

  add_full :
      (line : List ℕ) (s : Store)
      → IsSound s
      → history_max ≤ s.count
      → Succeeds
          (Becomes (some line ∷ take (history_max - 1) (shown s)) s.index)
          (add_line malloc line s)
  unfolding add_line
  add_full line s h full =
      let c : s.count ≡ 100 = omega (arith, h.bounded) in
      let owned =
        copied-Owned line s [] (slice s.cells 0 99 ++ (s.cells 99 ∷ []))
          (subst (λ ps. Owned ps s.blocks) (full_cells s c) h.owned) (h.unborn _ (omega arith)) in
      let (step, left) =
        free_block_lem (s.cells 99) (some s.top ∷ (slice s.cells 0 99 ++ [])) (copied line s) (
          Owned-split (some s.top ∷ slice s.cells 0 99) (s.cells 99) [] (copied line s).blocks
            owned) in
      (
        pushed_out line s,
        ap with_line (sdup_lem malloc line s (serves _))
            ∙ rw (le→ltb_false _ _ full)
                (ap (λ (o : Option Store). o >> λ u. some (pushed_over s.top u)) step),
        pushed_out-Becomes line s h c (
            subst (λ ps. Owned (some s.top ∷ ps) (pushed_out line s).blocks)
              (append-nil (slice s.cells 0 99)) left),
      )

  pub add_lem :
      (line : List ℕ) (s : Store)
      → IsSound s
      → Succeeds
          (Becomes (some line ∷ take (history_max - 1) (shown s)) s.index)
          (add_line malloc line s)
  add_lem line s h = elim (dec_lt s.count history_max) [
    | yes room ↦ add_room line s h room
    | no full ↦ add_full line s h (omega arith)
  ]
