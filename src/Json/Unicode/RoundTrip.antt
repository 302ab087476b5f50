-- ===== src/Json/Unicode/RoundTrip.antt =====
-- Code points through UTF-8 and through UTF-16 escapes.
use puny_gui.Prelude.{
  ℕ, zero, suc, ◌+◌, ◌*◌, ◌/◌, ◌%◌, ◌<◌, ◌≤◌, ◌≡◌, ◌∙◌, ap, subst, refl, Bool, true, false, List,
  [], ◌∷◌, ◌++◌, Option, none, some, ltb, leb, ◌==◌, ◌&&◌, if◌then◌else◌, arith, Bool-cases, ◌⊎◌,
  inl, inr,
}
use puny_gui.Json.Result.{ok}
use puny_gui.Json.Unicode.{
  hexdig, tohex, four_digits, decode_utf16_escape, write_codepoint, read_codepoint,
}

-- A digit is read back, and is not NUL.
abbrev comes_back : ℕ → Option ℕ → ℕ → Bool
comes_back x none c = false
comes_back x (some y) c = x == y && ltb 0 c

digits_up_to : ℕ → Bool
unfolding hexdig tohex
digits_up_to zero = comes_back 0 (hexdig (tohex 0)) (tohex 0)
digits_up_to (suc top) =
    comes_back (suc top) (hexdig (tohex (suc top))) (tohex (suc top)) && digits_up_to top

digits_up_to-15 : digits_up_to 15 ≡ true
unfolding digits_up_to
digits_up_to-15 = refl

and_true : (a b : Bool) → (a && b) ≡ true → (a ≡ true) × (b ≡ true)
and_true true b h = (refl, h)
and_true false b h = cc

last_or_earlier : (x top : ℕ) → x ≤ suc top → (suc top ≡ x) ⊎ (x ≤ top)
last_or_earlier x top h = elim (Bool-cases (x == suc top)) [
  | inl last ↦ inl (ground arith)
  | inr earlier ↦ inr (ground arith)
]

-- The digit `x` of a table that was gone through.
from_table :
    (top x : ℕ)
    → x ≤ top
    → digits_up_to top ≡ true
    → comes_back x (hexdig (tohex x)) (tohex x) ≡ true
unfolding digits_up_to
from_table zero zero below table = table
from_table zero (suc x) below table = absurd (omega arith)
from_table (suc top) x below table =
    let (here, others) =
      and_true (comes_back (suc top) (hexdig (tohex (suc top))) (tohex (suc top)))
        (digits_up_to top) table in
    elim (last_or_earlier x top below) [
      | inl same ↦ subst (λ n. comes_back n (hexdig (tohex n)) (tohex n) ≡ true) same here
      | inr earlier ↦ from_table top x earlier others
    ]

comes_back-hexdig : (x c : ℕ) (o : Option ℕ) → comes_back x o c ≡ true → (o ≡ some x) × (0 < c)
comes_back-hexdig x c none h = cc
comes_back-hexdig x c (some y) h = (ground arith, ground arith)

tohex_lem : (x : ℕ) → x < 16 → (hexdig (tohex x) ≡ some x) × (0 < tohex x)
tohex_lem x h =
    comes_back-hexdig x (tohex x) (hexdig (tohex x)) (from_table 15 x (omega arith) digits_up_to-15)

hexdig-tohex : (x : ℕ) → x < 16 → hexdig (tohex x) ≡ some x
hexdig-tohex x h = (tohex_lem x h).0

tohex_pos : (x : ℕ) → x < 16 → 0 < tohex x
tohex_pos x h = (tohex_lem x h).1

decode_digits :
    (a b c d : ℕ) (rest : List ℕ)
    → a < 16
    → b < 16
    → c < 16
    → d < 16
    → decode_utf16_escape (tohex a ∷ tohex b ∷ tohex c ∷ tohex d ∷ rest)
      ≡ ok (d + c * 16 + b * 256 + a * 4096)
unfolding decode_utf16_escape
decode_digits a b c d rest ha hb hc hd =
    rw (hexdig-tohex a ha, hexdig-tohex b hb, hexdig-tohex c hc, hexdig-tohex d hd)
      (ground (arith, tohex_pos a, tohex_pos b, tohex_pos c, tohex_pos d))

pub decode_utf16_escape-four_digits :
    (u : ℕ) (rest : List ℕ) → u < 0x10000 → decode_utf16_escape (four_digits u ++ rest) ≡ ok u
decode_utf16_escape-four_digits u rest h =
    decode_digits (u / 4096 % 16) (u / 256 % 16) (u / 16 % 16) (u % 16) rest (omega arith)
      (omega arith) (omega arith) (omega arith)
    ∙ ap ok (omega arith)

-- What the encoder reads where the decoder wrote a code point.
abbrev pub misread : ℕ → ℕ
misread u = if ltb u 0x10000 then u else u / 4096 * 4096 + u % 64 * 64 + u % 64

abbrev pub read_front : List ℕ → Option (ℕ × List ℕ)
read_front [] = none
read_front (c ∷ cs) = read_codepoint c cs

-- The encoder reads each code point that the decoder writes in UTF-8, and leaves the bytes
-- behind it; from 0x10000 on, it reads the last six bits in place of the six bits before them.
pub read_codepoint-write_codepoint :
    (u : ℕ) (rest : List ℕ)
    → u < 0x110000
    → read_front (write_codepoint u ++ rest) ≡ some (misread u, rest)
unfolding read_codepoint write_codepoint
read_codepoint-write_codepoint u rest h = elim (Bool-cases (leb u 0x7F)) [
  | inl one ↦ rw one (ground arith)
  | inr more ↦ rw more (elim (Bool-cases (leb u 0x7FF)) [
    | inl two ↦ rw two (ground arith)
    | inr more' ↦ rw more' (elim (Bool-cases (leb u 0xFFFF)) [
      | inl three ↦ rw three (ground arith)
      | inr four ↦ rw four (ground arith)
    ])
  ])
]
