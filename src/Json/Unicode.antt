-- ===== src/Json/Unicode.antt =====
-- json/json.c: hexadecimal digits, UTF-16 escapes and UTF-8. Bits that are put together with `|`
-- stand in different places, and are added here; `& 0x3F` and the like are remainders.
pub mod RoundTrip
use puny_gui.Prelude.{
  ℕ, zero, suc, ◌+◌, ◌-◌, ◌*◌, ◌/◌, ◌%◌, Bool, true, false, not, ◌&&◌, ◌||◌, List, [], ◌∷◌, ◌++◌,
  Option, none, some, ltb, leb, ◌==◌, if◌then◌else◌, drop, get_or, codes,
}
use puny_gui.Json.Result.{
  Error, Result, ok, err, out_of_fuel, ◌>>=◌, unexpected_end, invalid_hex, invalid_utf8,
}

-- *p, with the NUL at the end, and p + 1.
abbrev pub peek : List ℕ → ℕ
peek [] = 0
peek (c ∷ cs) = c

abbrev pub next : List ℕ → List ℕ
next [] = []
next (c ∷ cs) = cs

-- `none` for -1.
unfoldable pub hexdig : ℕ → Option ℕ
hexdig dig =
    if leb b'0' dig && leb dig b'9'
    then some (dig - b'0')
    else (if leb b'a' dig && leb dig b'f'
        then some (10 + (dig - b'a'))
        else (if leb b'A' dig && leb dig b'F' then some (10 + (dig - b'A')) else none))

unfoldable pub tohex : ℕ → ℕ
tohex x = get_or (codes "0123456789ABCDEF") x 0

-- The value of four digits.
abbrev pub hex_value : Option ℕ → Option ℕ → Option ℕ → Option ℕ → Result Error ℕ
hex_value (some d₁) (some d₂) (some d₃) (some d₄) = ok (d₄ + d₃ * 16 + d₂ * 256 + d₁ * 4096)
hex_value _ _ _ _ = err invalid_hex

unfoldable pub decode_utf16_escape : List ℕ → Result Error ℕ
unfolding hexdig
decode_utf16_escape (p₀ ∷ p₁ ∷ p₂ ∷ p₃ ∷ rest) =
    if p₀ == 0 || (p₁ == 0 || (p₂ == 0 || p₃ == 0))
    then err unexpected_end
    else hex_value (hexdig p₀) (hexdig p₁) (hexdig p₂) (hexdig p₃)
decode_utf16_escape _ = err unexpected_end

-- The bytes that the decoder writes for a code point.
unfoldable pub write_codepoint : ℕ → List ℕ
write_codepoint u =
    if leb u 0x7F
    then u ∷ []
    else (if leb u 0x7FF
        then (u / 64 % 32 + 0xC0) ∷ (u % 64 + 0x80) ∷ []
        else (if leb u 0xFFFF
            then (u / 4096 % 16 + 0xE0) ∷ (u / 64 % 64 + 0x80) ∷ (u % 64 + 0x80) ∷ []
            else (u / 262144 % 8 + 0xF0)
              ∷ (u / 4096 % 64 + 0x80)
              ∷ (u / 64 % 64 + 0x80)
              ∷ (u % 64 + 0x80)
              ∷ []))

-- (c >> 6) == 2
abbrev pub is_continuation : ℕ → Bool
is_continuation c = c / 64 == 2

-- The readers of two, three and four bytes, by the bytes that are left.
abbrev pub read_two : ℕ → List ℕ → Option (ℕ × List ℕ)
read_two c₀ (c₁ ∷ rest) = if is_continuation c₁ then some (c₀ % 32 * 64 + c₁ % 64, rest) else none
read_two c₀ _ = none

abbrev pub read_three : ℕ → List ℕ → Option (ℕ × List ℕ)
read_three c₀ (c₁ ∷ c₂ ∷ rest) =
    if is_continuation c₁ && is_continuation c₂
    then some (c₀ % 16 * 4096 + c₁ % 64 * 64 + c₂ % 64, rest)
    else none
read_three c₀ _ = none

-- The last byte is taken twice, and the third one is not read.
abbrev pub read_four : ℕ → List ℕ → Option (ℕ × List ℕ)
read_four c₀ (c₁ ∷ c₂ ∷ c₃ ∷ rest) =
    if is_continuation c₁ && (is_continuation c₂ && is_continuation c₃)
    then some (c₀ % 8 * 262144 + c₁ % 64 * 4096 + c₃ % 64 * 64 + c₃ % 64, rest)
    else none
read_four c₀ _ = none

-- The encoder's reader of a code point: `none` for invalid UTF-8.
unfoldable pub read_codepoint : ℕ → List ℕ → Option (ℕ × List ℕ)
read_codepoint c rest =
    if ltb c 0x80
    then some (c, rest)
    else (if ltb c 0xE0
        then read_two c rest
        else (if ltb c 0xF0
            then read_three c rest
            else (if ltb c 0xF8 then read_four c rest else none)))

abbrev pub four_digits : ℕ → List ℕ
four_digits u =
    tohex (u / 4096 % 16) ∷ tohex (u / 256 % 16) ∷ tohex (u / 16 % 16) ∷ tohex (u % 16) ∷ []

-- \u and four digits.
unfoldable pub unicode_escape : ℕ → List ℕ
unfolding tohex
unicode_escape u = b'\\' ∷ b'u' ∷ four_digits u

-- What the encoder writes for a code point.
unfoldable pub escape_codepoint : ℕ → List ℕ
unfolding unicode_escape
escape_codepoint u =
    if ltb 0x1F u && ltb u 0x80
    then (if u == b'\\' || u == b'"' then b'\\' ∷ u ∷ [] else u ∷ [])
    else (if ltb u 0x10000
        then unicode_escape u
        else unicode_escape ((u - 0x10000) / 1024 + 0xD800)
          ++ unicode_escape ((u - 0x10000) % 1024 + 0xDC00))

abbrev pub escapes : List ℕ → List ℕ
escapes [] = []
escapes (u ∷ us) = escape_codepoint u ++ escapes us
