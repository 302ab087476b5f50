-- ===== src/Shell/Store/Replaces.antt =====
-- `replacehistory` on pointers and blocks.
use puny_gui.Prelude.{
  ℕ, suc, ◌-◌, ◌<◌, ◌≡◌, refl, sym, ap, subst, ◌∙◌, Bool, true, false, List, [], ◌∷◌, ◌++◌, Option,
  none, some, arith, length, ltb, ◌==◌, update, slice, ltb→lt, drop, Bool-cases, inl, inr,
}
use puny_gui.Shell.History.{shift_down, str_same}
use puny_gui.Shell.Store.{
  Store, ◌>>◌, string_at, drop_first, moved_down, put_first, in_place, replace_first, finish_line,
}
use puny_gui.Shell.Store.Owned.{Owned, OwnsOne, Owned-split}
use puny_gui.Shell.Store.Cells.{slice-middle, slice-shift_down, slice-update}
use puny_gui.Shell.Store.Contents.{text_at, contents, shown, IsHeld, Owned-IsHeld, IsHeld-back}
use puny_gui.Shell.Store.Sound.{
  IsSound, Succeeds, Becomes, freed, freed-unborn, freed-kept, free_block_lem, copied,
  copied-unborn, copied-Owned, copied-texts, sdup_lem, behind_first,
}
use puny_gui.Shell.History.Refine.{accepted}

pub owner_at :
    (s : Store) (i : ℕ)
    → IsSound s
    → i < s.count
    → OwnsOne (s.cells i) (slice s.cells 0 i ++ slice s.cells (suc i) (s.count - suc i)) s.blocks
owner_at s i h l =
    Owned-split (slice s.cells 0 i) (s.cells i) (slice s.cells (suc i) (s.count - suc i)) s.blocks
      (subst (λ ps. Owned ps s.blocks) (slice-middle s.cells i s.count l) h.owned)

string_of :
    (p : Option ℕ) (ps : List (Option ℕ)) (s : Store)
    → OwnsOne p ps s.blocks
    → (text : List ℕ) × (string_at p s ≡ some text)
string_of none ps s h = absurd h
string_of (some a) ps s h = h.0

-- Each entry is a string.
pub readable :
    (s : Store) (i : ℕ)
    → IsSound s
    → i < s.count
    → (text : List ℕ) × (string_at (s.cells i) s ≡ some text)
readable s i h l = string_of (s.cells i) _ s (owner_at s i h l)

drop_lem :
    (s : Store)
    → IsSound s
    → 0 < s.count
    → Succeeds (Becomes (drop 1 (shown s)) s.index) (drop_first s)
unfolding drop_first
drop_lem s h pos =
    let n : ℕ = s.count - 1 in
    let c : s.count ≡ suc n = omega arith in
    let (step, left) = free_block_lem (s.cells 0) (slice s.cells 1 n) s (
      Owned-split [] (s.cells 0) (slice s.cells 1 n) s.blocks
        (subst (λ k. Owned (slice s.cells 0 k) s.blocks) c h.owned)) in
    let t : Store = record s {
      blocks = freed (s.cells 0) s.blocks;
      cells = shift_down n 1 s.cells;
      count = n;
    } in
    let some_entry : (s.count == 0) ≡ false = ground arith in
    (
      t,
      rw (drop_first, some_entry) (ap (λ (o : Option Store). o >> λ u. some (moved_down u)) step),
      (
        record {
          owned = subst (λ ps. Owned ps t.blocks) (sym (slice-shift_down s.cells n)) left;
          unborn = λ a l. freed-unborn (s.cells 0) s.blocks a (h.unborn a l);
          bounded = omega (arith, h.bounded);
        },
        ap (contents t.blocks) (slice-shift_down s.cells n)
            ∙ freed-kept (s.cells 0) s.blocks (slice s.cells 1 n)
                (Owned-IsHeld t.blocks (slice s.cells 1 n) left)
            ∙ sym (behind_first s n c),
        refl,
      ),
    )

-- Equal calls succeed alike.
Succeeds-same :
    (es es' : List (Option (List ℕ))) (i : ℕ) (o o' : Option Store)
    → es ≡ es'
    → o ≡ o'
    → Succeeds (Becomes es i) o
    → Succeeds (Becomes es' i) o'
Succeeds-same es es' i o o' e e' h =
    subst (λ fs. Succeeds (Becomes fs i) o') e (subst (Succeeds (Becomes es i)) e' h)

pub string_at-eq-text_at : (p : Option ℕ) (s : Store) → string_at p s ≡ text_at s.blocks p
string_at-eq-text_at none s = refl
string_at-eq-text_at (some a) s = refl

-- The entry behind the first.
second_first :
    (s : Store) {text : List ℕ}
    → 1 < s.count
    → string_at (s.cells 1) s ≡ some text
    → drop 1 (shown s) ≡ some text ∷ contents s.blocks (slice s.cells 2 (s.count - 2))
second_first s l e =
    behind_first s (suc (s.count - 2)) (omega arith)
    ∙ ap (λ o. o ∷ contents s.blocks (slice s.cells 2 (s.count - 2)))
        (sym (string_at-eq-text_at (s.cells 1) s) ∙ e)

module _ (malloc : ℕ → Bool) (serves : (n : ℕ) → malloc n ≡ true) where
  replace_lem :
      (line : List ℕ) (s : Store)
      → IsSound s
      → 0 < s.count
      → Succeeds (Becomes (some line ∷ drop 1 (shown s)) s.index) (replace_first malloc line s)
  unfolding replace_first
  replace_lem line s h pos =
      let n : ℕ = s.count - 1 in
      let c : s.count ≡ suc n = omega arith in
      let x : Option ℕ = some s.top in
      let owned =
        copied-Owned line s [] (slice s.cells 0 s.count) h.owned (h.unborn _ (omega arith)) in
      let (step, left) = free_block_lem (s.cells 0) (x ∷ slice s.cells 1 n) (copied line s) (
        Owned-split (x ∷ []) (s.cells 0) (slice s.cells 1 n) (copied line s).blocks
          (subst (λ k. Owned (x ∷ slice s.cells 0 k) (copied line s).blocks) c owned)) in
      let t : Store = record (copied line s) {
        blocks = freed (s.cells 0) (copied line s).blocks;
        cells = update s.cells 0 x;
      } in
      (
        t,
        ap in_place (sdup_lem malloc line s (serves _))
            ∙ ap (λ (o : Option Store). o >> λ u. some (put_first s.top u)) step,
        (
          record {
            owned =
                subst (λ ps. Owned ps t.blocks)
                  (sym (slice-update s.cells x 0 s.count (omega arith))) left;
            unborn = λ a l.
                freed-unborn (s.cells 0) (copied line s).blocks a (copied-unborn line s h a l);
            bounded = h.bounded;
          },
          ap (contents t.blocks) (slice-update s.cells x 0 s.count (omega arith))
              ∙ freed-kept (s.cells 0) (copied line s).blocks (x ∷ slice s.cells 1 n)
                  (Owned-IsHeld t.blocks (x ∷ slice s.cells 1 n) left)
              ∙ copied-texts line s (slice s.cells 1 n) (h.unborn _ (omega arith)) (
                  IsHeld-back s.blocks (s.cells 0 ∷ []) (slice s.cells 1 n) (
                    subst (λ k. IsHeld s.blocks (slice s.cells 0 k)) c
                      (Owned-IsHeld s.blocks (slice s.cells 0 s.count) h.owned)))
              ∙ ap (some line ∷◌) (sym (behind_first s n c)),
          refl,
        ),
      )

  pub finish_lem :
      (line : List ℕ) (s : Store)
      → IsSound s
      → 0 < s.count
      → Succeeds (Becomes (accepted line (drop 1 (shown s))) s.index) (finish_line malloc line s)
  unfolding finish_line
  finish_lem line s h pos = elim (Bool-cases (length line == 0)) [
    | inl e ↦
        Succeeds-same (drop 1 (shown s)) _ s.index (drop_first s) _ (rw e refl)
          (rw (finish_line, e) refl) (drop_lem s h pos)
    | inr e ↦ elim (Bool-cases (ltb 1 s.count)) [
      | inr single ↦
          let older : drop 1 (shown s) ≡ [] = behind_first s 0 (ground arith) in
          Succeeds-same (some line ∷ drop 1 (shown s)) _ s.index (replace_first malloc line s) _
            (rw (older, e) refl) (rw (finish_line, e, single) refl) (replace_lem line s h pos)
      | inl many ↦ with_last e many (readable s 1 h (ltb→lt 1 s.count many))
    ]
  ]
    where
      with_last :
          (length line == 0) ≡ false
          → ltb 1 s.count ≡ true
          → (text : List ℕ) × (string_at (s.cells 1) s ≡ some text)
          → Succeeds
              (Becomes (accepted line (drop 1 (shown s))) s.index)
              (finish_line malloc line s)
      with_last e many (text, r) =
          let older = second_first s (ltb→lt 1 s.count many) r in
          elim (Bool-cases (str_same line text)) [
            | inl same ↦
                Succeeds-same (drop 1 (shown s)) _ s.index (drop_first s) _
                  (rw (older, e, same) refl) (rw (finish_line, e, many, r, same) refl)
                  (drop_lem s h pos)
            | inr other ↦
                Succeeds-same (some line ∷ drop 1 (shown s)) _ s.index (replace_first malloc line s)
                  _ (rw (older, e, other) refl) (rw (finish_line, e, many, r, other) refl)
                  (replace_lem line s h pos)
          ]
