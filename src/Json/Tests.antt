-- ===== src/Json/Tests.antt =====
-- The decoder and the encoder on concrete texts.
use puny_gui.Prelude.{
  ℕ, ◌+◌, ◌-◌, ◌*◌, ◌≡◌, refl, true, false, List, [], ◌∷◌, ◌++◌, codes, leb, ◌&&◌, decimal,
}
use puny_gui.Json.Result.{unexpected_character}
use puny_gui.Json.Value.{
  Value, Slots, Platform, nil, number, string, keyword, buffer, array, table, no_items, item,
  no_slots, slot, returned, panicked,
}
use puny_gui.Json.Decode.{json_decode}
use puny_gui.Json.Encode.{json_encode}

-- Whole numbers only, and a table that keeps its entries in the order of their coming.
abbrev pub digits_of : List ℕ → ℕ → ℕ → ℕ × ℕ
digits_of [] n taken = (n, taken)
digits_of (c ∷ cs) n taken = elim (leb b'0' c && leb c b'9') [
  | true ↦ digits_of cs (n * 10 + (c - b'0')) (taken + 1)
  | false ↦ (n, taken)
]

abbrev pub put_last : Slots → Value → Value → Slots
put_last no_slots k v = slot k v no_slots
put_last (slot j w kvs) k v = slot j w (put_last kvs k v)

abbrev pub whole_numbers : Platform
whole_numbers = record {
  strtod = λ p. digits_of p 0 0;
  print = decimal;
  put = put_last;
  recursion_guard = 1024;
}

decoded :
    json_decode whole_numbers (string (codes " [1, {\"a\":null},\"\\u0041\\\\\"] ") ∷ [])
    ≡ returned (
        array (
          item (number 1) (
            item
              (table (slot (string (codes "a")) (keyword (codes "null")) no_slots))
              (item (string (codes "A\\")) no_items))))
unfolding json_decode
decoded = refl

encoded :
    json_encode whole_numbers (
      array (
        item (number 12) (
          item
            (table (slot (keyword (codes "a")) nil no_slots))
            (item (string (codes "x\"" ++ 195 ∷ 169 ∷ [])) no_items)))
      ∷ [])
    ≡ returned (buffer (codes "[12,{\"a\":null},\"x\\\"\\u00E9\"]"))
unfolding json_encode decimal
encoded = refl

comma_at_end :
    json_decode whole_numbers (string (codes "[1,]") ∷ [])
    ≡ returned (array (item (number 1) no_items))
unfolding json_decode
comma_at_end = refl

comma_and_space :
    json_decode whole_numbers (string (codes "[1, ]") ∷ []) ≡ panicked unexpected_character 4
unfolding json_decode
comma_and_space = refl

-- U+1F600 comes back as U+1F000.
four_bytes :
    json_encode whole_numbers (string (0xF0 ∷ 0x9F ∷ 0x98 ∷ 0x80 ∷ []) ∷ [])
    ≡ returned (buffer (codes "\"\\uD83C\\uDC00\""))
unfolding json_encode
four_bytes = refl
