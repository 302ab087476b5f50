-- ===== src/Json/Strings/Ends.antt =====
-- The end of `decode_string`, and the text that it leaves.
use puny_gui.Prelude.{
  ℕ, zero, suc, ◌≤◌, ◌<◌, true, false, List, [], ◌∷◌, ◌++◌, Option, none, some, ltb, leb, ◌==◌,
  ◌&&◌, ◌||◌, arith, length, drop, if_ind,
}
use puny_gui.Json.Result.{Error, Result, ok, err, out_of_fuel, ◌>>=◌, Decoded}
use puny_gui.Json.Unicode.{peek, next, hexdig, hex_value, decode_utf16_escape}
use puny_gui.Json.Strings.{
  white, skipwhite, Unescaped, low_surrogate, surrogates, escape, one_piece, decode_string, scan,
  is_plain, at_place, string_case,
}

-- With fuel enough, and at most `n` bytes of text left.
abbrev pub Within : ℕ → Unescaped → Type 0
Within n (ok (bytes, q)) = length q ≤ n
Within n (err e) = Unit
Within n out_of_fuel = ⊥

abbrev Decides : Result Error ℕ → Type 0
Decides (ok u) = Unit
Decides (err e) = Unit
Decides out_of_fuel = ⊥

pub length-drop-le : (n : ℕ) (xs : List ℕ) → length (drop n xs) ≤ length xs
length-drop-le zero xs = omega arith
length-drop-le (suc n) [] = omega arith
length-drop-le (suc n) (x ∷ xs) = omega (arith, length-drop-le n xs)

pub length-next-le : (p : List ℕ) → length (next p) ≤ length p
length-next-le [] = omega arith
length-next-le (c ∷ cs) = omega arith

hex_value-Decides : (a b c d : Option ℕ) → Decides (hex_value a b c d)
hex_value-Decides (some a) (some b) (some c) (some d) = tt
hex_value-Decides none b c d = tt
hex_value-Decides (some a) none c d = tt
hex_value-Decides (some a) (some b) none d = tt
hex_value-Decides (some a) (some b) (some c) none = tt

decode_utf16_escape-Decides : (q : List ℕ) → Decides (decode_utf16_escape q)
unfolding decode_utf16_escape
decode_utf16_escape-Decides (a ∷ b ∷ c ∷ d ∷ rest) =
    if_ind Decides (a == 0 || (b == 0 || (c == 0 || d == 0))) (λ e. tt)
      (λ e. hex_value-Decides (hexdig a) (hexdig b) (hexdig c) (hexdig d))
decode_utf16_escape-Decides [] = tt
decode_utf16_escape-Decides (a ∷ []) = tt
decode_utf16_escape-Decides (a ∷ b ∷ []) = tt
decode_utf16_escape-Decides (a ∷ b ∷ c ∷ []) = tt

Within-bind :
    (n : ℕ) (r : Result Error ℕ) (k : ℕ → Unescaped)
    → Decides r
    → ((u : ℕ) → Within n (k u))
    → Within n (r >>= k)
Within-bind n (ok u) k d h = h u
Within-bind n (err e) k d h = tt
Within-bind n out_of_fuel k d h = absurd d

low_surrogate-Within : (u : ℕ) (q : List ℕ) → Within (length q) (low_surrogate u q)
unfolding low_surrogate
low_surrogate-Within u q =
    if_ind (Within (length q)) (peek q == b'\\')
      (λ e.
        if_ind (Within (length q)) (peek (next q) == b'u')
          (λ e'.
            Within-bind (length q) (decode_utf16_escape (next (next q))) _
              (decode_utf16_escape-Decides (next (next q)))
              λ low.
                if_ind (Within (length q)) (ltb low 0xDC00 || ltb 0xDFFF low) (λ _. tt)
                  (λ _. length-drop-le 6 q))
          (λ e'. tt))
      (λ e. tt)

Within-mono : (n m : ℕ) (r : Unescaped) → n ≤ m → Within n r → Within m r
Within-mono n m (ok r) h w = omega arith
Within-mono n m (err e) h w = tt
Within-mono n m out_of_fuel h w = w

surrogates-Within : (u : ℕ) (q : List ℕ) → Within (length q) (surrogates u q)
unfolding surrogates
surrogates-Within u q =
    if_ind (Within (length q)) (leb 0xDC00 u && leb u 0xDFFF) (λ e. tt)
      (λ e.
        if_ind (Within (length q)) (leb 0xD800 u && leb u 0xDBFF)
          (λ e'.
            Within-mono _ _ (low_surrogate u (drop 4 q)) (length-drop-le 4 q)
              (low_surrogate-Within u (drop 4 q)))
          (λ e'. length-drop-le 4 q))

escape-Within : (c : ℕ) (q : List ℕ) → Within (length q) (escape c q)
unfolding escape
escape-Within c q =
    if_ind (Within (length q)) (c == b'b') (λ e. omega arith)
      (λ _.
        if_ind (Within (length q)) (c == b'f') (λ e. omega arith)
          (λ _.
            if_ind (Within (length q)) (c == b'n') (λ e. omega arith)
              (λ _.
                if_ind (Within (length q)) (c == b'r') (λ e. omega arith)
                  (λ _.
                    if_ind (Within (length q)) (c == b't') (λ e. omega arith)
                      (λ _.
                        if_ind (Within (length q)) (c == b'"' || (c == b'\\' || c == b'/'))
                          (λ e. omega arith)
                          (λ _.
                            if_ind (Within (length q)) (c == b'u')
                              (λ e.
                                Within-bind (length q) (decode_utf16_escape q) _
                                  (decode_utf16_escape-Decides q) λ u. surrogates-Within u q)
                              (λ e. tt)))))))

one_piece-Within : (c : ℕ) (q : List ℕ) → Within (length q) (one_piece c q)
unfolding one_piece
one_piece-Within c q =
    if_ind (Within (length q)) (ltb c 32) (λ e. tt)
      (λ e.
        if_ind (Within (length q)) (c == b'\\')
          (λ e'.
            Within-mono _ _ (escape (peek q) (next q)) (length-next-le q)
              (escape-Within (peek q) (next q)))
          (λ e'. omega arith))

-- A round and the rounds behind it.
bind-Within :
    (n : ℕ) (r : Unescaped) (k : List ℕ × List ℕ → Unescaped) (m : ℕ)
    → Within m r
    → ((a q : List ℕ) → length q ≤ m → Within n (k (a, q)))
    → Within n (r >>= k)
bind-Within n (ok (a, q)) k m w h = h a q w
bind-Within n (err e) k m w h = tt
bind-Within n out_of_fuel k m w h = absurd w

-- Every round takes a byte, so that fuel above the length of the text is enough.
pub decode_string-Within :
    (f : ℕ) (p : List ℕ) → length p < f → Within (length p) (decode_string f p)
unfolding decode_string
decode_string-Within zero p h = absurd (omega arith)
decode_string-Within (suc f) [] h = unfold one_piece in tt
decode_string-Within (suc f) (c ∷ cs) h =
    elim (c == b'"')
      as (λ b. Within (suc (length cs)) (elim b [
        | true ↦ ok ([], cs)
        | false ↦ one_piece c cs >>= λ (piece, q).
            decode_string f q >>= λ (bytes, rest). ok (piece ++ bytes, rest)
      ])) [
        | true ↦ omega arith
        | false ↦
            bind-Within (suc (length cs)) (one_piece c cs) _ (length cs) (one_piece-Within c cs)
              λ a q l.
                bind-Within (suc (length cs)) (decode_string f q) _ (length q)
                  (decode_string-Within f q (omega arith)) λ b r l'. omega arith
      ]

-- The same for the cases of decode_one: less than `n` bytes are left, or the error is at a place
-- with `n` bytes left at most.
abbrev pub Ends : {A : Type 0} → ℕ → Decoded A → Type 0
Ends n (ok (a, q)) = length q < n
Ends n (err (e, q)) = length q ≤ n
Ends n out_of_fuel = ⊥

pub skipwhite-le : (p : List ℕ) → length (skipwhite p) ≤ length p
unfolding skipwhite
skipwhite-le [] = omega arith
skipwhite-le (c ∷ cs) =
    elim (white c)
      as (λ b. length (elim b [ true ↦ skipwhite cs | false ↦ c ∷ cs ]) ≤ suc (length cs)) [
        | true ↦ omega (arith, skipwhite-le cs)
        | false ↦ omega arith
      ]

abbrev LeavesAtMost : ℕ → List ℕ × List ℕ → Type 0
LeavesAtMost n (plain, rest) = length rest ≤ n

scan-LeavesAtMost : (p : List ℕ) → LeavesAtMost (length p) (scan p)
unfolding scan
scan-LeavesAtMost [] = omega arith
scan-LeavesAtMost (c ∷ cs) =
    elim (is_plain c)
      as (λ b.
        LeavesAtMost (suc (length cs))
          (elim b [ true ↦ (c ∷ (scan cs).0, (scan cs).1) | false ↦ ([], c ∷ cs) ])) [
            | true ↦ omega (arith, scan-LeavesAtMost cs)
            | false ↦ omega arith
          ]

at_place-Ends :
    (p : List ℕ) (r : Unescaped) → Within (length p) r → Ends (suc (length p)) (at_place p r)
at_place-Ends p (ok (a, q)) w = omega arith
at_place-Ends p (err e) w = omega arith
at_place-Ends p out_of_fuel w = w

pub string_case-Ends : (c : ℕ) (cs : List ℕ) → Ends (suc (length cs)) (string_case (c ∷ cs))
unfolding string_case
string_case-Ends c cs =
    if_ind (Ends (suc (length cs))) (peek (scan cs).1 == b'\\')
      (λ e.
        at_place-Ends cs (decode_string (suc (suc (length cs))) cs)
          (decode_string-Within (suc (suc (length cs))) cs (omega arith)))
      (λ e.
        if_ind (Ends (suc (length cs))) (peek (scan cs).1 == b'"')
          (λ e'. omega (arith, length-next-le (scan cs).1, scan-LeavesAtMost cs))
          (λ e'. omega arith))
