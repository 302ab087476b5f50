-- ===== src/Json/Witnesses.antt =====
-- The theorems of json/json.c at concrete values.
use puny_gui.Prelude.{
  ℕ, ◌≡◌, ◌↔◌, ◌⊎◌, refl, true, false, List, [], ◌∷◌, ◌++◌, some, codes, leb, ◌&&◌, arith, decimal,
}
use puny_gui.Json.Result.{ok, invalid_utf8, ◌>>=◌}
use puny_gui.Json.Value.{
  Value, nil, boolean, number, string, symbol, keyword, buffer, array, tuple, table, struct,
  no_items, item, no_slots, slot, Slots, returned, unencodable,
}
use puny_gui.Json.Unicode.{peek, read_codepoint, write_codepoint}
use puny_gui.Json.Unicode.RoundTrip.{read_front, read_codepoint-write_codepoint}
use puny_gui.Json.Strings.{white, string_case, decode_string}
use puny_gui.Json.Strings.Scan.{string_case_iff}
use puny_gui.Json.Printed.{Layout, printed, verdict}
use puny_gui.Json.Encode.{encode_text, json_encode, key_kind}
use puny_gui.Json.Encode.Refine.{encode_text_lem}
use puny_gui.Json.Decode.{json_decode, kind_of}
use puny_gui.Json.Decode.Total.{Answers, json_decode-Answers}
use puny_gui.Json.RoundTrip.Canonical.{
  IsText, IsNumber, IsBlank, IsPlain, stops, canonical, nesting,
}
use puny_gui.Json.RoundTrip.Calls.{decode_again, json_decode-json_encode}
use puny_gui.Json.Decode.Shapes.{IsKey, IsData, SlotsData}
use puny_gui.Json.RoundTrip.Again.{in_one_line, json_encode-json_decode}
use puny_gui.Json.Tests.{put_last, digits_of, whole_numbers}

digits_stop :
    (rest : List ℕ) (n taken : ℕ) → stops (peek rest) ≡ true → digits_of rest n taken ≡ (n, taken)
unfolding stops white
digits_stop [] n taken h = refl
digits_stop (c ∷ cs) n taken h =
    let no_digit : (leb b'0' c && leb c b'9') ≡ false = ground arith in
    rw (digits_of, no_digit) refl

seven-IsNumber : IsNumber whole_numbers 7
unfolding kind_of decimal
seven-IsNumber = record { starts = refl; reads = λ rest h. digits_stop rest 7 1 h }

key-IsText : IsText (codes "k")
unfolding write_codepoint
key-IsText = record {
  points = b'k' ∷ [];
  scalar = (record { below = omega arith; plain = refl }, tt);
  kept = (refl, tt);
  is_utf8 = refl;
}

-- An e with an acute accent, and a quote.
accent-IsText : IsText (195 ∷ 169 ∷ 34 ∷ [])
unfolding write_codepoint
accent-IsText = record {
  points = 0xE9 ∷ 0x22 ∷ [];
  scalar = (
    record { below = omega arith; plain = refl },
    (record { below = omega arith; plain = refl }, tt),
  );
  kept = (refl, (refl, tt));
  is_utf8 = refl;
}

abbrev spaced : Layout
spaced = record { tab = codes "  "; newline = 10 ∷ [] }

spaced-IsBlank : IsBlank spaced
unfolding white
spaced-IsBlank = record { tab = (refl, (refl, tt)); newline = (refl, tt) }

abbrev mixed : Value
mixed = tuple (
    item (number 7) (
      item (struct (slot nil nil (slot (keyword (codes "k")) nil no_slots)))
        (item (symbol (195 ∷ 169 ∷ 34 ∷ [])) no_items)))

mixed-IsPlain : IsPlain whole_numbers mixed
unfolding IsPlain key_kind
mixed-IsPlain = (seven-IsNumber, (((tt, (tt, ((key-IsText, (tt, tt)))))), (accent-IsText, tt)))

json_decode-json_encode_example :
    decode_again whole_numbers
      (boolean true)
      nil
      (json_encode whole_numbers (mixed ∷ string (codes "  ") ∷ string (10 ∷ []) ∷ []))
    ≡ returned (canonical whole_numbers true false mixed)
json_decode-json_encode_example =
    json_decode-json_encode whole_numbers spaced mixed (boolean true) nil (omega arith)
      spaced-IsBlank mixed-IsPlain (unfold nesting in omega arith)

encode_text_example :
    encode_text whole_numbers (codes "  ") (10 ∷ []) (codes "x=") mixed
    ≡ (verdict mixed >>= λ _. ok (codes "x=" ++ printed whole_numbers spaced 0 mixed))
encode_text_example = encode_text_lem whole_numbers spaced (codes "x=") mixed

json_decode-Answers_example :
    Answers whole_numbers
      (string (codes "[1,[2,]") ∷ [])
      (json_decode whole_numbers (string (codes "[1,[2,]") ∷ []))
json_decode-Answers_example =
    json_decode-Answers whole_numbers (string (codes "[1,[2,]") ∷ []) (omega arith)

string_case_example :
    (string_case (codes "\"ab\"c") ≡ ok (string (codes "ab"), codes "c"))
    ↔ (decode_string 6 (codes "ab\"c") ≡ ok (codes "ab", codes "c"))
string_case_example = string_case_iff (codes "\"ab\"c") (codes "ab") (codes "c")

read_codepoint-write_codepoint_example :
    read_front (240 ∷ 159 ∷ 152 ∷ 128 ∷ b'x' ∷ []) ≡ some (0x1F000, b'x' ∷ [])
unfolding read_codepoint write_codepoint
read_codepoint-write_codepoint_example =
    read_codepoint-write_codepoint 0x1F600 (b'x' ∷ []) (omega arith)

put_last-SlotsData :
    (t : Slots) (k v : Value) → SlotsData t → IsKey k → IsData v → SlotsData (put_last t k v)
put_last-SlotsData no_slots k v d h e = (h, (e, tt))
put_last-SlotsData (slot j w kvs) k v d h e = (d.0, (d.1.0, put_last-SlotsData kvs k v d.1.1 h e))

abbrev source : List Value
source = string (codes "[7,{\"a\":null}]") ∷ []

abbrev parsed : Value
parsed = array (
    item (number 7)
      (item (table (slot (string (codes "a")) (keyword (codes "null")) no_slots)) no_items))

json_encode-json_decode_example :
    IsData parsed
    × ((json_encode whole_numbers (parsed ∷ [])
          ≡ returned (buffer (printed whole_numbers in_one_line 0 parsed)))
        ⊎ (json_encode whole_numbers (parsed ∷ []) ≡ unencodable invalid_utf8))
unfolding json_decode
json_encode-json_decode_example =
    json_encode-json_decode whole_numbers source parsed put_last-SlotsData refl
