-- ===== src/Json/RoundTrip/Atoms.antt =====
-- White space, strings and numbers, written and read again.
use puny_gui.Prelude.{
  ℕ, zero, suc, ◌≤◌, ◌<◌, ◌≡◌, refl, sym, ap, ◌∙◌, true, false, ◌&&◌, ◌||◌, List, [], ◌∷◌, ◌++◌,
  some, append_assoc, length, length-append, All, ltb, leb, ◌==◌, arith, drop, if_ind,
}
use puny_gui.Json.Value.{Platform, string, number}
use puny_gui.Json.Result.{ok}
use puny_gui.Json.Unicode.{peek, write_codepoint, escape_codepoint, unicode_escape, escapes}
use puny_gui.Json.Unicode.RoundTrip.{misread, read_front, read_codepoint-write_codepoint}
use puny_gui.Json.Strings.{white, skipwhite, string_case}
use puny_gui.Json.Strings.RoundTrip.{IsScalar, utf8, decode_string-escapes}
use puny_gui.Json.Strings.Scan.{string_case_iff}
use puny_gui.Json.Printed.{
  Layout, tabs, new_line, cons_point, read_points, code_points, quoted, string_points,
}
use puny_gui.Json.Decode.{kind_of, digits, decode_number}
use puny_gui.Json.RoundTrip.Canonical.{IsText, IsNumber, IsWhite, IsBlank, stops}

pub skipwhite_stays : (p : List ℕ) → white (peek p) ≡ false → skipwhite p ≡ p
unfolding skipwhite
skipwhite_stays [] h = refl
skipwhite_stays (c ∷ cs) h = rw (skipwhite, h) refl

pub skipwhite-append : (w p : List ℕ) → IsWhite w → white (peek p) ≡ false → skipwhite (w ++ p) ≡ p
unfolding skipwhite
skipwhite-append [] p h n = skipwhite_stays p n
skipwhite-append (c ∷ w) p h n = rw (skipwhite, h.0) (skipwhite-append w p h.1 n)

All-append : (P : ℕ → Type 0) (xs ys : List ℕ) → All P xs → All P ys → All P (xs ++ ys)
All-append P [] ys h k = k
All-append P (x ∷ xs) ys h k = (h.0, All-append P xs ys h.1 k)

tabs-IsWhite : (n : ℕ) (tab : List ℕ) → IsWhite tab → IsWhite (tabs n tab)
tabs-IsWhite zero tab h = tt
tabs-IsWhite (suc n) tab h =
    All-append (λ c. white c ≡ true) tab (tabs n tab) h (tabs-IsWhite n tab h)

pub new_line-IsWhite : (l : Layout) (n : ℕ) → IsBlank l → IsWhite (new_line l n)
new_line-IsWhite l n h =
    All-append (λ c. white c ≡ true) l.newline (tabs n l.tab) h.newline (tabs-IsWhite n l.tab h.tab)

code_points_step :
    (f : ℕ) (p : List ℕ) (u : ℕ) (rest : List ℕ)
    → read_front p ≡ some (u, rest)
    → code_points (suc f) p ≡ cons_point u (code_points f rest)
unfolding code_points
code_points_step f [] u rest h = cc
code_points_step f (c ∷ cs) u rest h = ap (read_points (code_points f)) h

code_points-utf8 :
    (f : ℕ) (us : List ℕ)
    → All IsScalar us
    → All (λ u. misread u ≡ u) us
    → length us ≤ f
    → code_points f (utf8 us) ≡ some us
unfolding code_points
code_points-utf8 f [] s k h = refl
code_points-utf8 zero (u ∷ us) s k h = absurd (omega arith)
code_points-utf8 (suc f) (u ∷ us) s k h =
    code_points_step f (write_codepoint u ++ utf8 us) u (utf8 us)
      (read_codepoint-write_codepoint u (utf8 us) s.0.below ∙ ap (λ v. some (v, utf8 us)) k.0)
    ∙ ap (cons_point u) (code_points-utf8 f us s.1 k.1 (omega arith))

abbrev NonEmpty : List ℕ → Type 0
NonEmpty [] = ⊥
NonEmpty (c ∷ cs) = Unit

length_pos : (xs : List ℕ) → NonEmpty xs → 0 < length xs
length_pos [] h = absurd h
length_pos (x ∷ xs) h = omega arith

write_codepoint-NonEmpty : (u : ℕ) → NonEmpty (write_codepoint u)
unfolding write_codepoint
write_codepoint-NonEmpty u =
    if_ind NonEmpty (leb u 0x7F) (λ e. tt)
      (λ e.
        if_ind NonEmpty (leb u 0x7FF) (λ e. tt)
          (λ e. if_ind NonEmpty (leb u 0xFFFF) (λ e. tt) (λ e. tt)))

length-utf8 : (us : List ℕ) → length us ≤ length (utf8 us)
length-utf8 [] = omega arith
length-utf8 (u ∷ us) = omega (
  arith,
  length-append (write_codepoint u) (utf8 us),
  length_pos (write_codepoint u) (write_codepoint-NonEmpty u),
  length-utf8 us,
)

pub string_points_lem : (s : List ℕ) (t : IsText s) → string_points s ≡ some t.points
string_points_lem s t =
    ap string_points t.is_utf8
    ∙ code_points-utf8 (length (utf8 t.points)) t.points t.scalar t.kept (length-utf8 t.points)

escape_codepoint-NonEmpty : (u : ℕ) → NonEmpty (escape_codepoint u)
unfolding escape_codepoint unicode_escape
escape_codepoint-NonEmpty u =
    if_ind NonEmpty (ltb 0x1F u && ltb u 0x80)
      (λ e. if_ind NonEmpty (u == b'\\' || u == b'"') (λ e'. tt) (λ e'. tt))
      (λ e. if_ind NonEmpty (ltb u 0x10000) (λ e'. tt) (λ e'. tt))

length-escapes : (us : List ℕ) → length us ≤ length (escapes us)
length-escapes [] = omega arith
length-escapes (u ∷ us) = omega (
  arith,
  length-append (escape_codepoint u) (escapes us),
  length_pos (escape_codepoint u) (escape_codepoint-NonEmpty u),
  length-escapes us,
)

-- The case of a quote, at what the encoder writes for a string.
pub string_case-quoted :
    (s : List ℕ) (rest : List ℕ)
    → IsText s
    → string_case (quoted (string_points s) ++ rest) ≡ ok (string s, rest)
string_case-quoted s rest t =
    let p = b'"' ∷ (escapes t.points ++ b'"' ∷ rest) in
    ap (λ o. string_case (quoted o ++ rest)) (string_points_lem s t)
    ∙ ap (λ q. string_case (b'"' ∷ q)) (append_assoc (escapes t.points) (b'"' ∷ []) rest)
    ∙ (string_case_iff p (utf8 t.points) rest).1 (
        decode_string-escapes t.points rest (suc (length p)) t.scalar
          (omega (arith, length-escapes t.points, length-append (escapes t.points) (b'"' ∷ rest))))
    ∙ ap (λ b. ok (string b, rest)) (sym t.is_utf8)

drop-length-append : (xs ys : List ℕ) → drop (length xs) (xs ++ ys) ≡ ys
drop-length-append [] ys = refl
drop-length-append (x ∷ xs) ys = drop-length-append xs ys

pub digits_not_white : (c : ℕ) → kind_of c ≡ digits → white c ≡ false
unfolding kind_of white
digits_not_white c h = ground arith

starts-NonEmpty : (p : List ℕ) → kind_of (peek p) ≡ digits → NonEmpty p
unfolding kind_of
starts-NonEmpty [] h = cc
starts-NonEmpty (c ∷ cs) h = tt

some_digits : (pf : Platform) (x : ℕ) → IsNumber pf x → (length (pf.print x) == 0) ≡ false
some_digits pf x n =
    let l = length_pos (pf.print x) (starts-NonEmpty (pf.print x) n.starts) in ground arith

pub decode_number-print :
    (pf : Platform) (x : ℕ) (rest : List ℕ)
    → IsNumber pf x
    → stops (peek rest) ≡ true
    → decode_number pf (pf.print x ++ rest) ≡ ok (number x, rest)
unfolding decode_number
decode_number-print pf x rest n h =
    rw (n.reads rest h, some_digits pf x n)
      (ap (λ q. ok (number x, q)) (drop-length-append (pf.print x) rest))
