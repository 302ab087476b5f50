-- ===== src/Json/Decode.antt =====
-- json/json.c: `decode_one` and `json_decode`.
pub mod Shapes
pub mod Data
pub mod Ends
pub mod Total
use puny_gui.Prelude.{
  ℕ, zero, suc, ◌+◌, ◌-◌, ◌/◌, ◌%◌, Bool, true, false, ◌&&◌, ◌||◌, List, [], ◌∷◌, ◌++◌, Option,
  none, some, length, ltb, leb, ◌==◌, if◌then◌else◌, drop, codes,
}
use puny_gui.Json.Value.{
  Value, Items, Slots, Platform, nil, other, boolean, number, string, symbol, keyword, buffer,
  array, tuple, table, struct, no_items, item, no_slots, slot, truthy, bytes_of, Outcome, returned,
  bad_arity, bad_argument, no_outcome, panicked,
}
use puny_gui.Json.Result.{
  Error, Result, ok, err, out_of_fuel, ◌>>=◌, Decoded, recured_too_deeply, unexpected_end,
  bad_identifier, bad_number, expected_comma, expected_colon, unexpected_character, expected_string,
  extra_token,
}
use puny_gui.Json.Unicode.{peek, next}
use puny_gui.Json.Strings.{skipwhite, string_case}

-- The two flags stand above the sixteen bits of the depth.
abbrev pub keyword_key : ℕ
keyword_key = 0x10000

abbrev pub null_to_nil : ℕ
null_to_nil = 0x20000

abbrev pub has_keyword_key : ℕ → Bool
has_keyword_key depth = depth / keyword_key % 2 == 1

abbrev pub has_null_to_nil : ℕ → Bool
has_null_to_nil depth = depth / null_to_nil % 2 == 1

-- Whether the text goes on with these characters.
unfoldable pub goes_on : List ℕ → List ℕ → Bool
goes_on [] p = true
goes_on (c ∷ cs) p = peek p == c && goes_on cs (next p)

-- The cases of the main switch.
pub data Kind : Type 0 where
  bad end_of_source digits false_word null_word true_word quote bracket brace : Kind

unfoldable pub kind_of : ℕ → Kind
kind_of c =
    if c == 0
    then end_of_source
    else (if c == b'-' || (leb b'0' c && leb c b'9')
        then digits
        else (if c == b'f'
            then false_word
            else (if c == b'n'
                then null_word
                else (if c == b't'
                    then true_word
                    else (if c == b'"'
                        then quote
                        else (if c == b'['
                            then bracket
                            else (if c == b'{' then brace else bad)))))))

-- Behind an item of an array: the end, or a comma and the rounds of the loop to come.
unfoldable pub after_item : (List ℕ → Decoded Items) → Value × List ℕ → Decoded Items
unfolding skipwhite
after_item more (v, q) =
    if peek (skipwhite q) == b']'
    then ok (item v no_items, next (skipwhite q))
    else (if peek (skipwhite q) == b','
        then (more (next (skipwhite q)) >>= λ (vs, rest). ok (item v vs, rest))
        else err (expected_comma, skipwhite q))

-- The loop of an array, at its test; `one` is the call of decode_one for an item. Every round takes
-- a byte.
unfoldable pub decode_items : ℕ → (List ℕ → Decoded Value) → List ℕ → Decoded Items
unfolding after_item
decode_items zero one p = out_of_fuel
decode_items (suc f) one p = elim (peek p == b']') [
  | true ↦ ok (no_items, next p)
  | false ↦ one p >>= after_item (decode_items f one)
]

-- janet_unwrap_string and janet_keywordv: a key that was decoded is a string.
abbrev pub to_keyword : Value → Value
to_keyword (string s) = keyword s
to_keyword v = v

-- The key, the colon and the value of an object's entry.
unfoldable pub decode_entry : (List ℕ → Decoded Value) → List ℕ → Decoded (Value × Value)
unfolding skipwhite
decode_entry one p =
    if peek (skipwhite p) == b'"'
    then (one (skipwhite p) >>= λ (key, q).
        if peek (skipwhite q) == b':'
        then (one (next (skipwhite q)) >>= λ (v, r). ok ((key, v), r))
        else err (expected_colon, skipwhite q))
    else err (expected_string, skipwhite p)

-- Behind an entry of an object: the end, or a comma and the rounds of the loop to come.
unfoldable pub after_entry : (Slots → List ℕ → Decoded Slots) → Slots → List ℕ → Decoded Slots
unfolding skipwhite
after_entry more t q =
    if peek (skipwhite q) == b'}'
    then ok (t, next (skipwhite q))
    else (if peek (skipwhite q) == b','
        then more t (next (skipwhite q))
        else err (expected_comma, skipwhite q))

-- janet_table_put, with the key as the flag wants it.
abbrev pub put_entry : Platform → Bool → Slots → Value × Value → Slots
put_entry pf keywords t (key, v) = pf.put t (if keywords then to_keyword key else key) v

-- The loop of an object, with the table so far.
unfoldable pub decode_fields :
    ℕ → Platform → Bool → (List ℕ → Decoded Value) → Slots → List ℕ → Decoded Slots
unfolding decode_entry after_entry
decode_fields zero pf keywords one t p = out_of_fuel
decode_fields (suc f) pf keywords one t p = elim (peek p == b'}') [
  | true ↦ ok (t, next p)
  | false ↦ decode_entry one p >>= λ (kv, q).
      after_entry (decode_fields f pf keywords one) (put_entry pf keywords t kv) q
]

-- strtod, which takes nothing where there is no number.
unfoldable pub decode_number : Platform → List ℕ → Decoded Value
decode_number pf p =
    let (x, taken) = pf.strtod p in
    if taken == 0 then err (bad_number, p) else ok (number x, drop taken p)

-- The rest of a word, the first letter being read.
unfoldable pub decode_word : List ℕ → Value → List ℕ → Decoded Value
unfolding goes_on
decode_word letters v p =
    if goes_on letters (next p)
    then ok (v, drop (suc (length letters)) p)
    else err (bad_identifier, p)

-- The main switch; `one` decodes with the depth of the parts.
unfoldable pub decode_kind : Platform → ℕ → (List ℕ → Decoded Value) → Kind → List ℕ → Decoded Value
unfolding decode_items decode_fields decode_number decode_word string_case skipwhite
decode_kind pf depth one bad p = err (unexpected_character, p)
decode_kind pf depth one end_of_source p = err (unexpected_end, p)
decode_kind pf depth one digits p = decode_number pf p
decode_kind pf depth one false_word p = decode_word (codes "alse") (boolean false) p
decode_kind pf depth one null_word p =
    decode_word (codes "ull") (if has_null_to_nil depth then nil else keyword (codes "null")) p
decode_kind pf depth one true_word p = decode_word (codes "rue") (boolean true) p
decode_kind pf depth one quote p = string_case p
decode_kind pf depth one bracket p =
    decode_items (suc (length p)) one (skipwhite (next p)) >>= λ (vs, rest). ok (array vs, rest)
decode_kind pf depth one brace p =
    decode_fields (suc (length p)) pf (has_keyword_key depth) one no_slots (skipwhite (next p))
    >>= λ (t, rest). ok (table t, rest)

-- The fuel bounds the nesting, as the guard does.
unfoldable pub decode_one : ℕ → Platform → ℕ → List ℕ → Decoded Value
unfolding decode_kind kind_of skipwhite
decode_one zero pf depth p = out_of_fuel
decode_one (suc f) pf depth p = elim (ltb pf.recursion_guard (depth % 0x10000)) [
  | true ↦ err (recured_too_deeply, p)
  | false ↦
      decode_kind pf depth (decode_one f pf (depth + 1)) (kind_of (peek (skipwhite p)))
        (skipwhite p)
]

unfoldable pub flags_of : Value → Value → ℕ
flags_of keywords nils =
    (if truthy keywords then keyword_key else 0) + (if truthy nils then null_to_nil else 0)

-- Behind the value there is white space only.
unfoldable pub finish : Value × List ℕ → Result (Error × List ℕ) Value
unfolding skipwhite
finish (v, rest) = if peek (skipwhite rest) == 0 then ok v else err (extra_token, skipwhite rest)

unfoldable pub decode_text : Platform → ℕ → List ℕ → Result (Error × List ℕ) Value
unfolding decode_one finish
decode_text pf flags text = decode_one (pf.recursion_guard + 2) pf flags text >>= finish

-- The position is the difference of two pointers into the text, the later one with fewer bytes left.
abbrev pub outcome_of : List ℕ → Result (Error × List ℕ) Value → Outcome
outcome_of text (ok v) = returned v
outcome_of text (err (e, p)) = panicked e (length text - length p)
outcome_of text out_of_fuel = no_outcome

abbrev pub decode_source : Platform → ℕ → Option (List ℕ) → Outcome
decode_source pf flags none = bad_argument
decode_source pf flags (some text) = outcome_of text (decode_text pf flags text)

unfoldable pub json_decode : Platform → List Value → Outcome
unfolding decode_text flags_of
json_decode pf (x ∷ []) = decode_source pf (flags_of nil nil) (bytes_of x)
json_decode pf (x ∷ k ∷ []) = decode_source pf (flags_of k nil) (bytes_of x)
json_decode pf (x ∷ k ∷ n ∷ []) = decode_source pf (flags_of k n) (bytes_of x)
json_decode pf _ = bad_arity
