-- ===== src/Json/Strings/RoundTrip.antt =====
-- The escapes that the encoder writes, read by `decode_string`.
use puny_gui.Prelude.{
  ℕ, zero, suc, ◌+◌, ◌-◌, ◌*◌, ◌/◌, ◌%◌, ◌≤◌, ◌<◌, ◌≡◌, refl, ap, ◌∙◌, true, false, List, [], ◌∷◌,
  ◌++◌, append_assoc, ltb, leb, ◌==◌, ◌&&◌, ◌||◌, arith, length, All, if_ind,
}
use puny_gui.Json.Result.{ok}
use puny_gui.Json.Unicode.{
  peek, next, four_digits, unicode_escape, write_codepoint, escape_codepoint, escapes,
}
use puny_gui.Json.Unicode.RoundTrip.{decode_utf16_escape-four_digits}
use puny_gui.Json.Strings.{Unescaped, low_surrogate, surrogates, escape, one_piece, decode_string}

-- A code point that UTF-8 may hold.
pub record IsScalar (u : ℕ) : Type 0 where
  pub below : u < 0x110000
  pub plain : (leb 0xD800 u && leb u 0xDFFF) ≡ false

abbrev pub utf8 : List ℕ → List ℕ
utf8 [] = []
utf8 (u ∷ us) = write_codepoint u ++ utf8 us

-- A round of the loop at the text `p`.
abbrev piece_at : List ℕ → Unescaped
piece_at p = one_piece (peek p) (next p)

-- One escape of four digits.
piece_unicode :
    (u : ℕ) (q : List ℕ)
    → u < 0x10000
    → piece_at (unicode_escape u ++ q) ≡ surrogates u (four_digits u ++ q)
unfolding one_piece escape unicode_escape
piece_unicode u q h = rw (decode_utf16_escape-four_digits u q h) refl

surrogates_plain :
    (u : ℕ) (q : List ℕ)
    → (leb 0xD800 u && leb u 0xDFFF) ≡ false
    → surrogates u (four_digits u ++ q) ≡ ok (write_codepoint u, q)
unfolding surrogates
surrogates_plain u q h = ground arith

low_surrogate-unicode_escape :
    (high low : ℕ) (q : List ℕ)
    → 0xDC00 ≤ low
    → low ≤ 0xDFFF
    → low_surrogate high (unicode_escape low ++ q)
      ≡ ok (write_codepoint ((high - 0xD800) * 1024 + (low - 0xDC00) + 0x10000), q)
unfolding low_surrogate unicode_escape
low_surrogate-unicode_escape high low q h l =
    rw (decode_utf16_escape-four_digits low q (omega arith)) (ground arith)

surrogates_high :
    (high : ℕ) (q : List ℕ)
    → 0xD800 ≤ high
    → high ≤ 0xDBFF
    → surrogates high (four_digits high ++ q) ≡ low_surrogate high q
unfolding surrogates
surrogates_high high q h l = ground arith

surrogates_pair :
    (u : ℕ) (q : List ℕ)
    → 0x10000 ≤ u
    → u < 0x110000
    → surrogates ((u - 0x10000) / 1024 + 0xD800) (
        four_digits ((u - 0x10000) / 1024 + 0xD800)
        ++ (unicode_escape ((u - 0x10000) % 1024 + 0xDC00) ++ q))
      ≡ ok (write_codepoint u, q)
surrogates_pair u q h l =
    let low : ℕ = (u - 0x10000) % 1024 + 0xDC00 in
    let high : ℕ = (u - 0x10000) / 1024 + 0xD800 in
    let whole : (high - 0xD800) * 1024 + (low - 0xDC00) + 0x10000 ≡ u = omega arith in
    surrogates_high high (unicode_escape low ++ q) (omega arith) (omega arith)
    ∙ low_surrogate-unicode_escape high low q (omega arith) (omega arith)
    ∙ ap (λ n. ok (write_codepoint n, q)) whole

-- Each of the encoder's ways to write a code point.
piece_plain :
    (u : ℕ) (q : List ℕ)
    → 0x1F < u
    → u < 0x80
    → ((u == b'\\') || (u == b'"')) ≡ false
    → one_piece u q ≡ ok (write_codepoint u, q)
unfolding one_piece write_codepoint
piece_plain u q h l n = ground arith

piece_escaped :
    (u : ℕ) (q : List ℕ)
    → ((u == b'\\') || (u == b'"')) ≡ true
    → one_piece b'\\' (u ∷ q) ≡ ok (write_codepoint u, q)
unfolding one_piece escape write_codepoint
piece_escaped u q n = ground arith

-- The text `t` in front of `q` is read as one piece, the UTF-8 of `u`, and does not start with a
-- quote.
abbrev ReadsAs : ℕ → List ℕ → List ℕ → Type 0
ReadsAs u q t = (piece_at (t ++ q) ≡ ok (write_codepoint u, q)) × ((peek (t ++ q) == b'"') ≡ false)

piece_escape : (u : ℕ) (q : List ℕ) → IsScalar u → ReadsAs u q (escape_codepoint u)
unfolding escape_codepoint unicode_escape
piece_escape u q v =
    if_ind (ReadsAs u q) (ltb 0x1F u && ltb u 0x80)
      (λ printable.
        if_ind (ReadsAs u q) (u == b'\\' || u == b'"')
          (λ special. (piece_escaped u q special, refl))
          (λ normal. (piece_plain u q (ground arith) (ground arith) normal, ground arith)))
      (λ coded.
        if_ind (ReadsAs u q) (ltb u 0x10000)
          (λ short. (piece_unicode u q (ground arith) ∙ surrogates_plain u q v.plain, refl))
          (λ long. (
            piece_unicode _ _ (omega (arith, v.below)) ∙ surrogates_pair u q (ground arith) v.below,
            refl,
          )))

-- A round of the loop.
pub decode_string_step :
    (f : ℕ) (p : List ℕ) {piece q bytes rest : List ℕ}
    → (peek p == b'"') ≡ false
    → one_piece (peek p) (next p) ≡ ok (piece, q)
    → decode_string f q ≡ ok (bytes, rest)
    → decode_string (suc f) p ≡ ok (piece ++ bytes, rest)
unfolding decode_string
decode_string_step f p other one more = rw (decode_string, other, one, more) refl

-- The loop gives back the UTF-8 of the code points, and the text behind the closing quote.
pub decode_string-escapes :
    (us : List ℕ) (rest : List ℕ) (f : ℕ)
    → All IsScalar us
    → length us < f
    → decode_string f (escapes us ++ b'"' ∷ rest) ≡ ok (utf8 us, rest)
unfolding decode_string
decode_string-escapes us rest zero v h = absurd (omega arith)
decode_string-escapes [] rest (suc f) v h = refl
decode_string-escapes (u ∷ us) rest (suc f) v h =
    let (piece, other) = piece_escape u (escapes us ++ b'"' ∷ rest) v.0 in
    ap (decode_string (suc f)) (append_assoc (escape_codepoint u) (escapes us) (b'"' ∷ rest))
    ∙ decode_string_step f (escape_codepoint u ++ (escapes us ++ b'"' ∷ rest)) other piece
        (decode_string-escapes us rest f v.1 (omega arith))
