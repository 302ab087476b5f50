-- ===== src/Shell/Matches/Prefix.antt =====
-- `longest_common_prefix` and the test of `check_match`, against fronts of lists.
use puny_gui.Prelude.{
  ℕ, ◌≡◌, refl, ◌∙◌, true, List, [], ◌∷◌, foldl, All, ◌↔◌, ◌<◌, ◌≤◌, length, arith,
}
use puny_gui.Shell.Matches.{common, longest_common_prefix, strncmp, is_eq, is_match}

-- One list is a front of the other.
abbrev pub Begins : List ℕ → List ℕ → Type 0
Begins [] ys = Unit
Begins (x ∷ xs) [] = ⊥
Begins (x ∷ xs) (y ∷ ys) = (x ≡ y) × Begins xs ys

-- `p` is a front of every list.
abbrev pub BeginsAll : List ℕ → List (List ℕ) → Type 0
BeginsAll p ms = All (Begins p) ms

Begins-trans : (xs ys zs : List ℕ) → Begins xs ys → Begins ys zs → Begins xs zs
Begins-trans [] ys zs h k = tt
Begins-trans (x ∷ xs) [] zs h k = absurd h
Begins-trans (x ∷ xs) (y ∷ ys) [] h k = absurd k
Begins-trans (x ∷ xs) (y ∷ ys) (z ∷ zs) h k = (h.0 ∙ k.0, Begins-trans xs ys zs h.1 k.1)

Begins-refl : (xs : List ℕ) → Begins xs xs
Begins-refl [] = tt
Begins-refl (x ∷ xs) = (refl, Begins-refl xs)

Begins-common : (xs ys : List ℕ) → Begins (common xs ys) xs × Begins (common xs ys) ys
unfolding common
Begins-common [] ys = (tt, tt)
Begins-common (x ∷ xs) [] = (tt, tt)
Begins-common (x ∷ xs) (y ∷ ys) = ground (arith, Begins-common xs ys)

common-greatest : (p xs ys : List ℕ) → Begins p xs → Begins p ys → Begins p (common xs ys)
unfolding common
common-greatest [] xs ys h k = tt
common-greatest (c ∷ p) [] ys h k = absurd h
common-greatest (c ∷ p) (x ∷ xs) [] h k = absurd k
common-greatest (c ∷ p) (x ∷ xs) (y ∷ ys) h k = ground (arith, common-greatest p xs ys)

Begins-foldl :
    (acc : List ℕ) (ms : List (List ℕ))
    → Begins (foldl common acc ms) acc × BeginsAll (foldl common acc ms) ms
Begins-foldl acc [] = (Begins-refl acc, tt)
Begins-foldl acc (m ∷ ms) =
    let (front, rest) = Begins-foldl (common acc m) ms in
    let (l, r) = Begins-common acc m in
    (Begins-trans _ (common acc m) acc front l, (Begins-trans _ (common acc m) m front r, rest))

foldl-common_greatest :
    (p acc : List ℕ) (ms : List (List ℕ))
    → Begins p acc
    → BeginsAll p ms
    → Begins p (foldl common acc ms)
foldl-common_greatest p acc [] h k = h
foldl-common_greatest p acc (m ∷ ms) h k =
    foldl-common_greatest p (common acc m) ms (common-greatest p acc m h k.0) k.1

-- With at least one match, the result of `longest_common_prefix` is a front of each match, and
-- every common front of the matches is a front of it.
pub longest_common_prefix_lem :
    (m : List ℕ) (ms : List (List ℕ))
    → BeginsAll (longest_common_prefix (m ∷ ms)) (m ∷ ms)
      × ((p : List ℕ) → BeginsAll p (m ∷ ms) → Begins p (longest_common_prefix (m ∷ ms)))
unfolding longest_common_prefix
longest_common_prefix_lem m ms =
    ((Begins-foldl m (m ∷ ms)).1, λ p h. foldl-common_greatest p m (m ∷ ms) h.0 h)

strncmp-Begins :
    (src test : List ℕ)
    → All (λ c. 0 < c) src
    → (is_eq (strncmp (length src) src test) ≡ true) ↔ Begins src test
unfolding strncmp
strncmp-Begins [] test n = (λ e. tt, λ b. refl)
strncmp-Begins (x ∷ src) [] n = (λ e. ground arith, λ b. absurd b)
strncmp-Begins (x ∷ src) (y ∷ test) n =
    let ih = strncmp-Begins src test n.1 in (λ e. ground (arith, ih.0), λ b. ground (arith, ih.1))

Begins-length : (xs ys : List ℕ) → Begins xs ys → length xs ≤ length ys
Begins-length [] ys b = omega arith
Begins-length (x ∷ xs) [] b = absurd b
Begins-length (x ∷ xs) (y ∷ ys) b = omega (arith, Begins-length xs ys b.1)

-- For a partial symbol without NUL, the test of `check_match` holds exactly when that symbol is
-- a front of the candidate.
pub is_match_iff :
    (src test : List ℕ) → All (λ c. 0 < c) src → (is_match src test ≡ true) ↔ Begins src test
unfolding is_match
is_match_iff src test n =
    let b = strncmp-Begins src test n in
    (λ e. ground (arith, b.0), λ h. ground (arith, b.1, Begins-length src test h))
