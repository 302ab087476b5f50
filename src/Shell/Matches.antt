-- ===== src/Shell/Matches.antt =====
-- super.c, the candidates of a completion: `is_symbol_char_gen`, `get_symprefix`,
-- `compare_bytes`, `check_match`, `check_specials` and `longest_common_prefix`.
pub mod Order
pub mod Prefix
use Prim.Native.Nat.{compare, Ordering}
use puny_gui.Prelude.{
  ℕ, zero, suc, ◌-◌, min, Bool, true, false, not, ◌||◌, ◌&&◌, List, [], ◌∷◌, ◌++◌, foldl, length,
  ltb, leb, ◌==◌, if◌then◌else◌, slice, codes,
}
use puny_gui.Shell.State.{Editor, match_max}
use puny_gui.Shell.Words.{back_while}

abbrev pub is_one_of : ℕ → List ℕ → Bool
is_one_of c [] = false
is_one_of c (x ∷ xs) = c == x || is_one_of c xs

unfoldable pub is_symbol_char_gen : ℕ → Bool
is_symbol_char_gen c =
    leb 128 c
    || ((leb b'a' c && leb c b'z')
        || ((leb b'A' c && leb c b'Z')
            || ((leb b'0' c && leb c b'9') || is_one_of c (codes "!$%&*+-./:<?=>@^_"))))

-- The loop goes down from gbl_pos - 1; `i + 1` is the result of `back_while`.
unfoldable pub get_symprefix : Editor → List ℕ
unfolding back_while is_symbol_char_gen
get_symprefix s =
    let start = back_while is_symbol_char_gen s.buf s.pos in slice s.buf start (s.pos - start)

-- strncmp over at most n bytes. The byte behind the end of a list is its NUL.
unfoldable pub strncmp : ℕ → List ℕ → List ℕ → Ordering
strncmp zero xs ys = Ordering.eq
strncmp (suc n) [] [] = Ordering.eq
strncmp (suc n) [] (y ∷ ys) = compare 0 y
strncmp (suc n) (x ∷ xs) [] = compare x 0
strncmp (suc n) (x ∷ xs) (y ∷ ys) = elim (compare x y) [
  | Ordering.eq ↦ if x == 0 then Ordering.eq else strncmp n xs ys
  | Ordering.lt ↦ Ordering.lt
  | Ordering.gt ↦ Ordering.gt
]

abbrev pub is_eq : Ordering → Bool
is_eq Ordering.eq = true
is_eq _ = false

abbrev pub is_lt : Ordering → Bool
is_lt Ordering.lt = true
is_lt _ = false

unfoldable pub compare_bytes : List ℕ → List ℕ → Ordering
unfolding strncmp
compare_bytes a b = elim (strncmp (min (length a) (length b)) a b) [
  | Ordering.eq ↦ compare (length a) (length b)
  | Ordering.lt ↦ Ordering.lt
  | Ordering.gt ↦ Ordering.gt
]

-- The loop of `check_match`: the matches after the swaps, and what `mm` holds in the end.
unfoldable pub swap_in : List ℕ → List (List ℕ) → List (List ℕ) × List ℕ
unfolding compare_bytes
swap_in mm [] = ([], mm)
swap_in mm (m ∷ ms) = elim (is_lt (compare_bytes mm m)) [
  | true ↦ let (swapped, last) = swap_in m ms in (mm ∷ swapped, last)
  | false ↦ let (swapped, last) = swap_in mm ms in (m ∷ swapped, last)
]

-- The test on the candidate.
unfoldable pub is_match : List ℕ → List ℕ → Bool
unfolding strncmp
is_match src test = leb (length src) (length test) && is_eq (strncmp (length src) src test)

unfoldable pub check_match : List ℕ → List ℕ → List (List ℕ) → List (List ℕ)
unfolding swap_in is_match
check_match src test matches =
    if is_match src test
    then (let (swapped, last) = swap_in test matches in
        if length swapped == match_max then swapped else swapped ++ last ∷ [])
    else matches

abbrev pub specials : List (List ℕ)
specials =
    codes "break"
    ∷ codes "def"
    ∷ codes "do"
    ∷ codes "fn"
    ∷ codes "if"
    ∷ codes "quasiquote"
    ∷ codes "quote"
    ∷ codes "set"
    ∷ codes "splice"
    ∷ codes "unquote"
    ∷ codes "var"
    ∷ codes "while"
    ∷ []

unfoldable pub check_all : List ℕ → List (List ℕ) → List (List ℕ) → List (List ℕ)
unfolding check_match
check_all src [] matches = matches
check_all src (test ∷ tests) matches = check_all src tests (check_match src test matches)

unfoldable pub check_specials : List ℕ → List (List ℕ) → List (List ℕ)
unfolding check_all
check_specials src matches = check_all src specials matches

-- The inner loop of `longest_common_prefix`: bv.len goes up to the first difference.
unfoldable pub common : List ℕ → List ℕ → List ℕ
common [] other = []
common (x ∷ xs) [] = []
common (x ∷ xs) (y ∷ ys) = elim (x == y) [ true ↦ x ∷ common xs ys | false ↦ [] ]

unfoldable pub longest_common_prefix : List (List ℕ) → List ℕ
unfolding common
longest_common_prefix [] = []
longest_common_prefix (m ∷ ms) = foldl common m (m ∷ ms)
