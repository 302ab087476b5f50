-- ===== src/Json/Strings.antt =====
-- json/json.c: white space, `decode_string`, and the string case of `decode_one`.
pub mod Ends
pub mod RoundTrip
pub mod Scan
use puny_gui.Prelude.{
  ℕ, zero, suc, ◌+◌, ◌-◌, ◌*◌, Bool, true, false, not, ◌&&◌, ◌||◌, List, [], ◌∷◌, ◌++◌, length, ltb,
  leb, ◌==◌, if◌then◌else◌, drop,
}
use puny_gui.Json.Value.{Value, string}
use puny_gui.Json.Result.{
  Error, Result, ok, err, out_of_fuel, ◌>>=◌, Decoded, invalid_character, unknown_escape,
  unexpected_character, unexpected_low_surrogate, expected_low_surrogate,
}
use puny_gui.Json.Unicode.{peek, next, decode_utf16_escape, write_codepoint}

unfoldable pub white : ℕ → Bool
white c = c == 9 || (c == 10 || (c == 32 || c == 13))

unfoldable pub skipwhite : List ℕ → List ℕ
unfolding white
skipwhite [] = []
skipwhite (c ∷ cs) = elim (white c) [ true ↦ skipwhite cs | false ↦ c ∷ cs ]

-- What a step of decode_string pushes, and the text behind it.
abbrev pub Unescaped : Type 0
Unescaped = Result Error (List ℕ × List ℕ)

-- The second half of a surrogate pair, behind the first half `high`.
unfoldable pub low_surrogate : ℕ → List ℕ → Unescaped
unfolding decode_utf16_escape write_codepoint
low_surrogate high q =
    if peek q == b'\\'
    then (if peek (next q) == b'u'
        then (decode_utf16_escape (next (next q)) >>= λ low.
            if ltb low 0xDC00 || ltb 0xDFFF low
            then err expected_low_surrogate
            else ok (write_codepoint ((high - 0xD800) * 1024 + (low - 0xDC00) + 0x10000), drop 6 q))
        else err expected_low_surrogate)
    else err expected_low_surrogate

-- By the code point of the digits at `q`, behind \u.
unfoldable pub surrogates : ℕ → List ℕ → Unescaped
unfolding low_surrogate write_codepoint
surrogates u q =
    if leb 0xDC00 u && leb u 0xDFFF
    then err unexpected_low_surrogate
    else (if leb 0xD800 u && leb u 0xDBFF
        then low_surrogate u (drop 4 q)
        else ok (write_codepoint u, drop 4 q))

-- The switch behind a backslash.
unfoldable pub escape : ℕ → List ℕ → Unescaped
unfolding decode_utf16_escape surrogates
escape c q =
    if c == b'b'
    then ok (8 ∷ [], q)
    else (if c == b'f'
        then ok (12 ∷ [], q)
        else (if c == b'n'
            then ok (10 ∷ [], q)
            else (if c == b'r'
                then ok (13 ∷ [], q)
                else (if c == b't'
                    then ok (9 ∷ [], q)
                    else (if c == b'"' || (c == b'\\' || c == b'/')
                        then ok (c ∷ [], q)
                        else (if c == b'u'
                            then (decode_utf16_escape q >>= λ u. surrogates u q)
                            else err unknown_escape))))))

-- One round of the loop, at a byte other than the closing quote.
unfoldable pub one_piece : ℕ → List ℕ → Unescaped
unfolding escape
one_piece b q =
    if ltb b 32
    then err invalid_character
    else (if b == b'\\' then escape (peek q) (next q) else ok (b ∷ [], q))

-- The loop: the bytes of the string, and the text behind its closing quote. Every round takes a
-- byte.
unfoldable pub decode_string : ℕ → List ℕ → Unescaped
unfolding one_piece
decode_string zero p = out_of_fuel
decode_string (suc f) p = elim (peek p == b'"') [
  | true ↦ ok ([], next p)
  | false ↦ one_piece (peek p) (next p) >>= λ (piece, q).
      decode_string f q >>= λ (bytes, rest). ok (piece ++ bytes, rest)
]

-- The scan for a byte that ends the string or wants the buffer: what it passes over, and the text
-- from that byte on.
abbrev pub is_plain : ℕ → Bool
is_plain c = leb 32 c && (not (c == b'"') && not (c == b'\\'))

unfoldable pub scan : List ℕ → List ℕ × List ℕ
scan [] = ([], [])
scan (c ∷ cs) = elim (is_plain c) [
  | true ↦ let (plain, rest) = scan cs in (c ∷ plain, rest)
  | false ↦ ([], c ∷ cs)
]

-- decode_string moves the pointer only when it succeeds.
abbrev pub at_place : List ℕ → Unescaped → Decoded Value
at_place p (ok (bytes, rest)) = ok (string bytes, rest)
at_place p (err e) = err (e, p)
at_place p out_of_fuel = out_of_fuel

-- The case of a quote, at the quote `p`.
unfoldable pub string_case : List ℕ → Decoded Value
unfolding scan decode_string
string_case p =
    let (plain, rest) = scan (next p) in
    if peek rest == b'\\'
    then at_place (next p) (decode_string (suc (length p)) (next p))
    else (if peek rest == b'"' then ok (string plain, next rest) else err (unexpected_character, p))
