-- ===== src/Shell/Store/Cells.antt =====
-- The entries of the array of the history as a list, under the writes of its operations.
use puny_gui.Prelude.{
  ℕ, suc, ◌+◌, ◌-◌, ◌<◌, ◌≡◌, refl, sym, ap, ap₂, ◌∙◌, ◌∷◌, ◌++◌, arith, update, slice,
  slice-append, slice_ext, slice_agree,
}
use puny_gui.Shell.History.{shift_up, shift_down}
use puny_gui.Shell.History.Refine.{shift_up_lem, shift_down_lem, slice_pushed}

module _ {A : Type 0} (h : ℕ → A) where
  -- An entry in the middle.
  pub slice-middle :
      (i c : ℕ) → i < c → slice h 0 c ≡ slice h 0 i ++ (h i ∷ slice h (suc i) (c - suc i))
  slice-middle i c l =
      ap (slice h 0) {y = i + suc (c - suc i)} (omega arith)
      ∙ slice-append h 0 i i (suc (c - suc i)) (omega arith)

  pub slice-shift_up_room :
      (x : A) (c : ℕ) → slice (update (shift_up c (update h c x)) 0 x) 0 (c + 1) ≡ x ∷ slice h 0 c
  slice-shift_up_room x c =
      slice_pushed h (update (shift_up c (update h c x)) 0 x) x c (c + 1) (omega arith) refl
        λ j l. ground (arith, shift_up_lem c (update h c x) (1 + j))

  pub slice-shift_up_full :
      (x : A) (n : ℕ) → slice (update (shift_up n h) 0 x) 0 (suc n) ≡ x ∷ slice h 0 n
  slice-shift_up_full x n =
      slice_pushed h (update (shift_up n h) 0 x) x n (suc n) refl refl
        λ j l. ground (arith, shift_up_lem n h (1 + j))

  pub slice-shift_down : (n : ℕ) → slice (shift_down n 1 h) 0 n ≡ slice h 1 n
  slice-shift_down n = sym (
      slice_agree h (shift_down n 1 h) 1 1 0 n n refl refl
        λ j a b. ground (arith, shift_down_lem n 1 h j))

-- A write in the middle.
pub slice-update :
    {A : Type 0} (h : ℕ → A) (x : A) (i c : ℕ)
    → i < c
    → slice (update h i x) 0 c ≡ slice h 0 i ++ (x ∷ slice h (suc i) (c - suc i))
slice-update h x i c l =
    slice-middle (update h i x) i c l
    ∙ ap₂ ◌++◌ (slice_ext (update h i x) h 0 i λ j a b. ground arith) (
        ap₂ ◌∷◌ (ground arith)
          (slice_ext (update h i x) h (suc i) (c - suc i) λ j a b. ground arith))
