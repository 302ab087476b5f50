-- ===== src/Json/RoundTrip/Again.antt =====
-- What is decoded, encoded again.
use puny_gui.Prelude.{
  ℕ, ◌+◌, ◌≡◌, refl, ap, ◌∙◌, sym, subst, List, [], ◌∷◌, Option, none, some, ◌==◌, if_ind, ◌⊎◌, inl,
  inr,
}
use puny_gui.Json.Value.{
  Value, Items, Slots, Platform, nil, other, boolean, number, string, symbol, keyword, buffer,
  array, tuple, table, struct, no_items, item, no_slots, slot, bytes_of, Outcome, returned,
  unencodable,
}
use puny_gui.Json.Result.{Error, Result, ok, err, out_of_fuel, ◌>>=◌, Decoded, invalid_utf8}
use puny_gui.Json.Unicode.{peek}
use puny_gui.Json.Strings.{skipwhite}
use puny_gui.Json.Decode.{
  decode_one, finish, flags_of, decode_text, outcome_of, decode_source, json_decode,
}
use puny_gui.Json.Decode.Shapes.{IsData, ItemsData, SlotsData, IsKey}
use puny_gui.Json.Decode.Data.{Gives, PutsData, decode_one-Gives}
use puny_gui.Json.Encode.{outcome_of as encoded_outcome, json_encode, key_kind}
use puny_gui.Json.Encode.Refine.{encode_text_lem}
use puny_gui.Json.Printed.{
  Layout, printed, string_points, text_verdict, slot_verdict, verdict, items_verdict, slots_verdict,
}

-- What the end of the text leaves of it.
abbrev ResultData : Result (Error × List ℕ) Value → Type 0
ResultData (ok v) = IsData v
ResultData (err e) = Unit
ResultData out_of_fuel = Unit

abbrev ReturnsData : Outcome → Type 0
ReturnsData (returned v) = IsData v
ReturnsData _ = Unit

finish-ResultData : (r : Decoded Value) → Gives IsData r → ResultData (r >>= finish)
unfolding finish
finish-ResultData (ok (v, q)) h = if_ind ResultData (peek (skipwhite q) == 0) (λ e. h) (λ e. tt)
finish-ResultData (err e) h = tt
finish-ResultData out_of_fuel h = tt

outcome_of-ReturnsData :
    (text : List ℕ) (r : Result (Error × List ℕ) Value)
    → ResultData r
    → ReturnsData (outcome_of text r)
outcome_of-ReturnsData text (ok v) h = h
outcome_of-ReturnsData text (err (e, q)) h = tt
outcome_of-ReturnsData text out_of_fuel h = tt

decode_source-ReturnsData :
    (pf : Platform) (flags : ℕ) (source : Option (List ℕ))
    → PutsData pf
    → ReturnsData (decode_source pf flags source)
unfolding decode_text
decode_source-ReturnsData pf flags none puts = tt
decode_source-ReturnsData pf flags (some text) puts =
    outcome_of-ReturnsData text (decode_text pf flags text) (
      finish-ResultData (decode_one (pf.recursion_guard + 2) pf flags text)
        ((decode_one-Gives (pf.recursion_guard + 2) pf flags puts).0 text))

json_decode-ReturnsData :
    (pf : Platform) (args : List Value) → PutsData pf → ReturnsData (json_decode pf args)
unfolding json_decode
json_decode-ReturnsData pf [] puts = tt
json_decode-ReturnsData pf (x ∷ []) puts =
    decode_source-ReturnsData pf (flags_of nil nil) (bytes_of x) puts
json_decode-ReturnsData pf (x ∷ k ∷ []) puts =
    decode_source-ReturnsData pf (flags_of k nil) (bytes_of x) puts
json_decode-ReturnsData pf (x ∷ k ∷ n ∷ []) puts =
    decode_source-ReturnsData pf (flags_of k n) (bytes_of x) puts
json_decode-ReturnsData pf (x ∷ k ∷ n ∷ y ∷ rest) puts = tt

-- Nothing to complain of but a string that is not in UTF-8.
abbrev OnlyText : Result Error Unit → Type 0
OnlyText r = (r ≡ ok tt) ⊎ (r ≡ err invalid_utf8)

text_verdict-OnlyText : (points : Option (List ℕ)) → OnlyText (text_verdict points)
text_verdict-OnlyText none = inr refl
text_verdict-OnlyText (some us) = inl refl

bind-OnlyText :
    (r next_one : Result Error Unit)
    → OnlyText r
    → OnlyText next_one
    → OnlyText (r >>= λ _. next_one)
bind-OnlyText r next_one (inl e) h = subst (λ x. OnlyText (x >>= λ _. next_one)) (sym e) h
bind-OnlyText r next_one (inr e) h = inr (ap (λ x. x >>= λ _. next_one) e)

slot_verdict-OnlyText :
    (k : Value) (value more : Result Error Unit)
    → IsKey k
    → OnlyText value
    → OnlyText more
    → OnlyText (slot_verdict (key_kind k) value more)
unfolding key_kind
slot_verdict-OnlyText nil value more k h l = l
slot_verdict-OnlyText (string s) value more k h l =
    bind-OnlyText _ _ (text_verdict-OnlyText (string_points s)) (bind-OnlyText value more h l)
slot_verdict-OnlyText (keyword s) value more k h l =
    bind-OnlyText _ _ (text_verdict-OnlyText (string_points s)) (bind-OnlyText value more h l)
slot_verdict-OnlyText other value more k h l = absurd k
slot_verdict-OnlyText (boolean b) value more k h l = absurd k
slot_verdict-OnlyText (number x) value more k h l = absurd k
slot_verdict-OnlyText (symbol s) value more k h l = absurd k
slot_verdict-OnlyText (buffer s) value more k h l = absurd k
slot_verdict-OnlyText (array xs) value more k h l = absurd k
slot_verdict-OnlyText (tuple xs) value more k h l = absurd k
slot_verdict-OnlyText (table kvs) value more k h l = absurd k
slot_verdict-OnlyText (struct kvs) value more k h l = absurd k

mutual
  unfolding verdict

  verdict-OnlyText : (v : Value) → IsData v → OnlyText (verdict v)
  verdict-OnlyText nil d = inl refl
  verdict-OnlyText (boolean b) d = inl refl
  verdict-OnlyText (number x) d = inl refl
  verdict-OnlyText (string s) d = text_verdict-OnlyText (string_points s)
  verdict-OnlyText (keyword s) d = text_verdict-OnlyText (string_points s)
  verdict-OnlyText (array xs) d = items_verdict-OnlyText xs d
  verdict-OnlyText (table kvs) d = slots_verdict-OnlyText kvs d
  verdict-OnlyText other d = absurd d
  verdict-OnlyText (symbol s) d = absurd d
  verdict-OnlyText (buffer s) d = absurd d
  verdict-OnlyText (tuple xs) d = absurd d
  verdict-OnlyText (struct kvs) d = absurd d

  items_verdict-OnlyText : (xs : Items) → ItemsData xs → OnlyText (items_verdict xs)
  items_verdict-OnlyText no_items d = inl refl
  items_verdict-OnlyText (item x xs) d =
      bind-OnlyText (verdict x) (items_verdict xs) (verdict-OnlyText x d.0)
        (items_verdict-OnlyText xs d.1)

  slots_verdict-OnlyText : (kvs : Slots) → SlotsData kvs → OnlyText (slots_verdict kvs)
  slots_verdict-OnlyText no_slots d = inl refl
  slots_verdict-OnlyText (slot k v kvs) d =
      slot_verdict-OnlyText k (verdict v) (slots_verdict kvs) d.0 (verdict-OnlyText v d.1.0)
        (slots_verdict-OnlyText kvs d.1.1)

-- No indentation.
abbrev pub in_one_line : Layout
in_one_line = record { tab = []; newline = [] }

-- Where janet_table_put keeps the slots that are there: a value that `json_decode` returns is
-- made of nil, booleans, numbers, strings, keywords, arrays, and tables whose keys are strings
-- or keywords, and nothing else; and `json_encode` of it alone returns its text, or fails for a
-- string that is not in UTF-8, and never for its type or a key.
pub json_encode-json_decode :
    (pf : Platform) (args : List Value) (v : Value)
    → PutsData pf
    → json_decode pf args ≡ returned v
    → IsData v
      × ((json_encode pf (v ∷ []) ≡ returned (buffer (printed pf in_one_line 0 v)))
          ⊎ (json_encode pf (v ∷ []) ≡ unencodable invalid_utf8))
unfolding json_encode
json_encode-json_decode pf args v puts e =
    let data_of : IsData v = subst ReturnsData e (json_decode-ReturnsData pf args puts) in
    let encoded = encode_text_lem pf in_one_line [] v in
    (
      data_of,
      elim (verdict-OnlyText v data_of) [
        | inl fine ↦
            inl (ap encoded_outcome (encoded ∙ ap (◌>>= λ _. ok (printed pf in_one_line 0 v)) fine))
        | inr text ↦
            inr (ap encoded_outcome (encoded ∙ ap (◌>>= λ _. ok (printed pf in_one_line 0 v)) text))
      ],
    )
