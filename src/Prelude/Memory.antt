-- ===== src/Prelude/Memory.antt =====
-- Blocks of C memory as functions from an index, the writes on them, and the list of the cells
-- in a range.
use Prim.Native.Nat.{ℕ, zero, suc, ◌+◌, ◌-◌, ◌≤◌, ◌<◌, min}
use mathlib.Core.Path.{◌≡◌, refl, sym, ap, ap₂, ◌∙◌}
use mathlib.Core.Bool.{true, false, ◌&&◌}
use mathlib.Core.List.{List, [], ◌∷◌, ◌++◌, reverse, reverse-cons}
use native.Mathlib.Omega.{arith}
use puny_gui.Prelude.Tests.{ltb, leb, ◌==◌}
use puny_gui.Prelude.Lists.{length, get_or, take}

module _ {ℓ} {A : Type ℓ} where
  -- m[i] = v
  abbrev pub update : (ℕ → A) → ℕ → A → ℕ → A
  update m i v j = elim (j == i) [ true ↦ v | false ↦ m j ]

  -- memmove (m + dst, m + src, n), which reads all before it writes.
  abbrev pub memmove : (ℕ → A) → ℕ → ℕ → ℕ → ℕ → A
  memmove m dst src n j = elim (leb dst j && ltb j (dst + n)) [
    | true ↦ m (src + (j - dst))
    | false ↦ m j
  ]

  -- The n cells from index i.
  abbrev pub slice : (ℕ → A) → ℕ → ℕ → List A
  slice m i zero = []
  slice m i (suc n) = m i ∷ slice m (suc i) n

  pub length-slice : (m : ℕ → A) (i n : ℕ) → length (slice m i n) ≡ n
  length-slice m i zero = refl
  length-slice m i (suc n) = omega (arith, length-slice m (suc i) n)

  -- Two ranges that agree cell by cell are one list.
  pub slice_ext :
      (m m' : ℕ → A) (i n : ℕ)
      → ((j : ℕ) → i ≤ j → j < i + n → m j ≡ m' j)
      → slice m i n ≡ slice m' i n
  slice_ext m m' i zero h = refl
  slice_ext m m' i (suc n) h =
      ap₂ ◌∷◌ (h i (omega arith) (omega arith))
        (slice_ext m m' (suc i) n λ j p q. h j (omega arith) (omega arith))

  -- A range that was copied down by `d` cells.
  pub slice_moved :
      (m m' : ℕ → A) (i d n : ℕ)
      → ((j : ℕ) → i ≤ j → j < i + n → m j ≡ m' (d + j))
      → slice m i n ≡ slice m' (d + i) n
  slice_moved m m' i d zero h = refl
  slice_moved m m' i d (suc n) h =
      ap₂ ◌∷◌ (h i (omega arith) (omega arith))
        (slice_moved m m' (suc i) d n (λ j p q. h j (omega arith) (omega arith)) ∙ next)
    where
      next : slice m' (d + suc i) n ≡ slice m' (suc (d + i)) n
      next = let e : d + suc i ≡ suc (d + i) = omega arith in rw e

  pub slice-append :
      (m : ℕ → A) (i j n n' : ℕ) → i + n ≡ j → slice m i (n + n') ≡ slice m i n ++ slice m j n'
  slice-append m i j zero n' e =
      let e' : i ≡ j = omega arith in let z : 0 + n' ≡ n' = omega arith in rw (z, e')
  slice-append m i j (suc n) n' e =
      let s : suc n + n' ≡ suc (n + n') = omega arith in
      rw s (ap (m i ∷◌) (slice-append m (suc i) j n n' (omega arith)))

  -- The last cell of a range.
  pub slice-suc : (m : ℕ → A) (i n : ℕ) → slice m i (suc n) ≡ slice m i n ++ m (i + n) ∷ []
  slice-suc m i n = ap (slice m i) (grow n) ∙ slice-append m i (i + n) n 1 refl
    where
      grow : (k : ℕ) → suc k ≡ k + 1
      grow k = omega arith

  -- Two ranges that agree, the first `d` cells further up, with their bounds as equations.
  pub slice_agree :
      (m m' : ℕ → A) (d i i' n n' : ℕ)
      → i ≡ d + i'
      → n ≡ n'
      → ((j : ℕ) → i' ≤ j → j < i' + n' → m (d + j) ≡ m' j)
      → slice m i n ≡ slice m' i' n'
  slice_agree m m' d i i' n n' e e' h =
      rw (e, e') (sym (slice_moved m' m i' d n' λ j p q. sym (h j p q)))

  -- The n cells from index 0, the last one first.
  abbrev pub down : (ℕ → A) → ℕ → List A
  down m zero = []
  down m (suc n) = m n ∷ down m n

  pub down_ext : (m m' : ℕ → A) (n : ℕ) → ((j : ℕ) → j < n → m j ≡ m' j) → down m n ≡ down m' n
  down_ext m m' zero h = refl
  down_ext m m' (suc n) h = ap₂ ◌∷◌ (h n (omega arith)) (down_ext m m' n λ j l. h j (omega arith))

  pub slice-eq-reverse : (m : ℕ → A) (n : ℕ) → slice m 0 n ≡ reverse (down m n)
  slice-eq-reverse m zero = refl
  slice-eq-reverse m (suc n) =
      slice-suc m 0 n
      ∙ ap₂ ◌++◌ (slice-eq-reverse m n) (ap (λ i. m i ∷ []) (omega arith))
      ∙ sym (reverse-cons (m n) (down m n))

-- The C string at an index: the bytes up to the NUL, at most as many as the fuel.
unfoldable pub c_string : ℕ → (ℕ → ℕ) → ℕ → List ℕ
c_string zero m i = []
c_string (suc f) m i = elim (m i == 0) [ true ↦ [] | false ↦ m i ∷ c_string f m (suc i) ]

-- strncpy (m, src, n) for a C string `src`: what is left of the n cells is filled with NUL.
abbrev pub strncpy : (ℕ → ℕ) → List ℕ → ℕ → ℕ → ℕ
strncpy m src n j = elim (ltb j n) [ true ↦ get_or src j 0 | false ↦ m j ]

-- A string that ends at its first NUL is read whole, with fuel for it and the NUL.
pub c_string-eq-slice :
    (f : ℕ) (m : ℕ → ℕ) (i n e : ℕ)
    → i + n ≡ e
    → n < f
    → m e ≡ 0
    → ((j : ℕ) → i ≤ j → j < e → 0 < m j)
    → c_string f m i ≡ slice m i n
unfolding c_string
c_string-eq-slice zero m i n e p l z nz = absurd (omega arith)
c_string-eq-slice (suc f) m i zero e p l z nz =
    let q : m i ≡ 0 = ap m (omega arith) ∙ z in ground arith
c_string-eq-slice (suc f) m i (suc n) e p l z nz =
    let q : 0 < m i = nz i (omega arith) (omega arith) in
    ground (
      arith,
      c_string-eq-slice f m (suc i) n e (omega arith) (omega arith) z
          λ j a b. nz j (omega arith) (omega arith),
    )

pub take-slice {ℓ} :
    {A : Type ℓ} (n : ℕ) (m : ℕ → A) (i k : ℕ) → take n (slice m i k) ≡ slice m i (min n k)
take-slice zero m i k = ap (slice m i) {x = 0} (omega arith)
take-slice (suc n) m i zero = ap (slice m i) {x = 0} (omega arith)
take-slice (suc n) m i (suc k) =
    ap (m i ∷◌) (take-slice n m (suc i) k) ∙ ap (slice m i) {x = suc (min n k)} (omega arith)

-- A range that holds a list's elements is that list.
pub slice_list :
    {A : Type 0} (d : A) (m : ℕ → A) (i : ℕ) (xs : List A)
    → ((j : ℕ) → j < length xs → m (i + j) ≡ get_or xs j d)
    → slice m i (length xs) ≡ xs
slice_list d m i [] h = refl
slice_list d m i (x ∷ xs) h = ap₂ ◌∷◌ (ap m {x = i} {y = i + 0} (omega arith) ∙ h 0 (omega arith)) (
    slice_list d m (suc i) xs
      λ j l. ap m {x = suc i + j} {y = i + suc j} (omega arith) ∙ h (suc j) (omega arith))

-- What holds of the value written and of the cell as it was holds of the cell after the write.
pub update_ind {ℓ κ} :
    {A : Type ℓ} (P : A → Type κ) (m : ℕ → A) (i : ℕ) (v : A) (j : ℕ)
    → P v
    → P (m j)
    → P (update m i v j)
update_ind P m i v j p q = elim (j == i) as (λ b. P (elim b [ true ↦ v | false ↦ m j ])) [
  | true ↦ p
  | false ↦ q
]
