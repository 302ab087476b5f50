-- ===== src/Shell/Matches/Order.antt =====
-- `compare_bytes` and `check_match`: the order of the matches.
use Prim.Native.Nat.{compare, Ordering}
use mathlib.Core.List.{Perm}
use mathlib.Core.List.Perm
use puny_gui.Prelude.{
  ℕ, zero, suc, ◌<◌, min, ◌≡◌, refl, ap, true, false, List, [], ◌∷◌, ◌++◌, All, arith, length,
  Bool-cases, inl, inr, if_ind, ◌==◌,
}
use puny_gui.Shell.State.{match_max}
use puny_gui.Shell.Matches.{strncmp, compare_bytes, swap_in, check_match, is_match, is_lt}

-- No byte is NUL.
abbrev pub NoNull : List ℕ → Type 0
NoNull xs = All (λ c. 0 < c) xs

-- The order of a dictionary.
unfoldable pub lex : List ℕ → List ℕ → Ordering
lex [] [] = Ordering.eq
lex [] (y ∷ ys) = Ordering.lt
lex (x ∷ xs) [] = Ordering.gt
lex (x ∷ xs) (y ∷ ys) = elim (compare x y) [
  | Ordering.eq ↦ lex xs ys
  | Ordering.lt ↦ Ordering.lt
  | Ordering.gt ↦ Ordering.gt
]

-- strncmp over the shorter length and then the lengths is the order of a dictionary.
compare_by : ℕ → List ℕ → List ℕ → Ordering
compare_by n a b = elim (strncmp n a b) [
  | Ordering.eq ↦ compare (length a) (length b)
  | Ordering.lt ↦ Ordering.lt
  | Ordering.gt ↦ Ordering.gt
]

compare_by-eq-lex :
    (n : ℕ) (a b : List ℕ) → n ≡ min (length a) (length b) → NoNull a → compare_by n a b ≡ lex a b
unfolding compare_by strncmp lex
compare_by-eq-lex zero [] [] e h = ground arith
compare_by-eq-lex zero [] (y ∷ b) e h = ground arith
compare_by-eq-lex zero (x ∷ a) [] e h = ground arith
compare_by-eq-lex zero (x ∷ a) (y ∷ b) e h = absurd (omega arith)
compare_by-eq-lex (suc n) [] b e h = absurd (omega arith)
compare_by-eq-lex (suc n) (x ∷ a) [] e h = absurd (omega arith)
compare_by-eq-lex (suc n) (x ∷ a) (y ∷ b) e h = ground (arith, compare_by-eq-lex n a b)

-- For a first string without NUL, `compare_bytes` is the order of a dictionary, in which a
-- front of a string comes before it.
pub compare_bytes-eq-lex : (a b : List ℕ) → NoNull a → compare_bytes a b ≡ lex a b
unfolding compare_bytes compare_by
compare_bytes-eq-lex a b h = compare_by-eq-lex _ a b refl h

-- `a` does not come after `b`.
abbrev pub Le : List ℕ → List ℕ → Type 0
Le a b = is_lt (lex b a) ≡ false

abbrev pub IsSorted : List (List ℕ) → Type 0
IsSorted [] = Unit
IsSorted (m ∷ ms) = All (Le m) ms × IsSorted ms

Le-trans : (a b c : List ℕ) → Le a b → Le b c → Le a c
unfolding lex
Le-trans [] b [] h k = refl
Le-trans [] b (z ∷ c) h k = refl
Le-trans (x ∷ a) [] c h k = cc
Le-trans (x ∷ a) (y ∷ b) [] h k = cc
Le-trans (x ∷ a) (y ∷ b) (z ∷ c) h k = ground (arith, Le-trans a b c)

Le-of_lt : (a b : List ℕ) → is_lt (lex a b) ≡ true → Le a b
unfolding lex
Le-of_lt [] [] h = cc
Le-of_lt [] (y ∷ b) h = refl
Le-of_lt (x ∷ a) [] h = cc
Le-of_lt (x ∷ a) (y ∷ b) h = ground (arith, Le-of_lt a b)

Le-All : (a b : List ℕ) (ms : List (List ℕ)) → Le a b → All (Le b) ms → All (Le a) ms
Le-All a b [] h k = tt
Le-All a b (m ∷ ms) h k = (Le-trans a b m h k.0, Le-All a b ms h k.1)

-- The matches after the loop, with what the loop carries at their end.
pub swapped : List ℕ → List (List ℕ) → List (List ℕ)
swapped mm ms = (swap_in mm ms).0 ++ (swap_in mm ms).1 ∷ []

swapped_less :
    (mm m : List ℕ) (ms : List (List ℕ))
    → is_lt (compare_bytes mm m) ≡ true
    → swapped mm (m ∷ ms) ≡ mm ∷ swapped m ms
unfolding swapped swap_in
swapped_less mm m ms h = rw (swapped, swap_in, h)

swapped_not_less :
    (mm m : List ℕ) (ms : List (List ℕ))
    → is_lt (compare_bytes mm m) ≡ false
    → swapped mm (m ∷ ms) ≡ m ∷ swapped mm ms
unfolding swapped swap_in
swapped_not_less mm m ms h = rw (swapped, swap_in, h)

swapped-nil : (mm : List ℕ) → swapped mm [] ≡ mm ∷ []
unfolding swapped swap_in
swapped-nil mm = refl

All-swapped {ℓ} :
    (P : List ℕ → Type ℓ) (mm : List ℕ) (ms : List (List ℕ))
    → P mm
    → All P ms
    → All P (swapped mm ms)
All-swapped P mm [] p ps = rw swapped-nil (p, tt)
All-swapped P mm (m ∷ ms) p ps = elim (Bool-cases (is_lt (compare_bytes mm m))) [
  | inl less ↦ rw (swapped_less mm m ms less) (p, All-swapped P m ms ps.0 ps.1)
  | inr not_less ↦ rw (swapped_not_less mm m ms not_less) (ps.0, All-swapped P mm ms p ps.1)
]

swapped-IsSorted :
    (mm : List ℕ) (ms : List (List ℕ))
    → NoNull mm
    → All NoNull ms
    → IsSorted ms
    → IsSorted (swapped mm ms)
swapped-IsSorted mm [] n ns s = rw swapped-nil (tt, tt)
swapped-IsSorted mm (m ∷ ms) n ns s = elim (Bool-cases (is_lt (compare_bytes mm m))) [
  | inl less ↦
      let below : Le mm m = Le-of_lt mm m (rw (compare_bytes-eq-lex mm m n) at less) in
      rw (swapped_less mm m ms less) (
        All-swapped (Le mm) m ms below (Le-All mm m ms below s.0),
        swapped-IsSorted m ms ns.0 ns.1 s.1,
      )
  | inr not_less ↦
      let above : Le m mm = rw (compare_bytes-eq-lex mm m n) at not_less in
      rw (swapped_not_less mm m ms not_less)
        (All-swapped (Le m) mm ms above s.0, swapped-IsSorted mm ms n ns.1 s.1)
]

Perm-swapped : (mm : List ℕ) (ms : List (List ℕ)) → Perm (swapped mm ms) (mm ∷ ms)
Perm-swapped mm [] = rw swapped-nil (Perm.refl (mm ∷ []))
Perm-swapped mm (m ∷ ms) = elim (Bool-cases (is_lt (compare_bytes mm m))) [
  | inl less ↦ rw (swapped_less mm m ms less) (Perm.cons mm (Perm-swapped m ms))
  | inr not_less ↦
      rw (swapped_not_less mm m ms not_less)
        (Perm.trans (Perm.cons m (Perm-swapped mm ms)) (Perm.swap mm m ms))
]

length-swap_in : (mm : List ℕ) (ms : List (List ℕ)) → length (swap_in mm ms).0 ≡ length ms
unfolding swap_in
length-swap_in mm [] = refl
length-swap_in mm (m ∷ ms) = elim (Bool-cases (is_lt (compare_bytes mm m))) [
  | inl less ↦ rw (length, less) (ap suc (length-swap_in m ms))
  | inr not_less ↦ rw (length, not_less) (ap suc (length-swap_in mm ms))
]

-- The two outcomes for a candidate that matches.
inserted :
    (src test : List ℕ) (ms : List (List ℕ))
    → is_match src test ≡ true
    → length ms < match_max
    → check_match src test ms ≡ swapped test ms
unfolding check_match swapped
inserted src test ms fits room =
    let n : length (swap_in test ms).0 ≡ length ms = length-swap_in test ms in ground arith

kept :
    (src test : List ℕ) (ms : List (List ℕ))
    → is_match src test ≡ true
    → length ms ≡ match_max
    → check_match src test ms ≡ (swap_in test ms).0
unfolding check_match
kept src test ms fits full =
    let n : length (swap_in test ms).0 ≡ length ms = length-swap_in test ms in ground arith

All-init {ℓ} :
    (P : List ℕ → Type ℓ) (ms : List (List ℕ)) (d : List ℕ) → All P (ms ++ d ∷ []) → All P ms × P d
All-init P [] d h = (tt, h.0)
All-init P (m ∷ ms) d h = let (r, p) = All-init P ms d h.1 in ((h.0, r), p)

IsSorted-init :
    (ms : List (List ℕ)) (d : List ℕ) → IsSorted (ms ++ d ∷ []) → IsSorted ms × All (λ m. Le m d) ms
IsSorted-init [] d h = (tt, tt)
IsSorted-init (m ∷ ms) d h =
    let (below, le) = All-init (Le m) ms d h.0 in
    let (sorted, rest) = IsSorted-init ms d h.1 in ((below, sorted), (le, rest))

-- A candidate that begins with the partial symbol, among fewer matches than there are places,
-- all of them without NUL and sorted: `check_match` leaves the matches sorted, and they are the
-- old ones and the candidate.
pub check_match_room :
    (src test : List ℕ) (ms : List (List ℕ))
    → is_match src test ≡ true
    → length ms < match_max
    → NoNull test
    → All NoNull ms
    → IsSorted ms
    → IsSorted (check_match src test ms) × Perm (check_match src test ms) (test ∷ ms)
check_match_room src test ms fits room n ns s =
    rw (inserted src test ms fits room) (swapped-IsSorted test ms n ns s, Perm-swapped test ms)

-- A candidate that begins with the partial symbol, with all places taken by matches that are
-- sorted, and no NUL in any of them: `check_match` leaves the matches sorted, and they are the
-- old ones and the candidate without one that none of them comes after.
pub check_match_full :
    (src test : List ℕ) (ms : List (List ℕ))
    → is_match src test ≡ true
    → length ms ≡ match_max
    → NoNull test
    → All NoNull ms
    → IsSorted ms
    → (dropped : List ℕ) × IsSorted (check_match src test ms)
      × All (λ m. Le m dropped) (check_match src test ms)
      × Perm (check_match src test ms ++ dropped ∷ []) (test ∷ ms)
unfolding swapped
check_match_full src test ms fits full n ns s =
    let (sorted, le) =
      IsSorted-init (swap_in test ms).0 (swap_in test ms).1 (swapped-IsSorted test ms n ns s) in
    ((swap_in test ms).1, rw e sorted, rw e le, rw e (Perm-swapped test ms))
  where
    e : check_match src test ms ≡ (swap_in test ms).0
    e = kept src test ms fits full

-- The matches hold no NUL if the candidates do not.
pub check_match-NoNull :
    (src test : List ℕ) (ms : List (List ℕ))
    → NoNull test
    → All NoNull ms
    → All NoNull (check_match src test ms)
unfolding check_match swapped
check_match-NoNull src test ms n ns =
    let whole = All-swapped NoNull test ms n ns in
    if_ind (All NoNull) (is_match src test)
      (λ fits.
        if_ind (All NoNull) (length (swap_in test ms).0 == match_max)
          (λ full. (All-init NoNull (swap_in test ms).0 (swap_in test ms).1 whole).0)
          (λ room. whole))
      (λ other. ns)
