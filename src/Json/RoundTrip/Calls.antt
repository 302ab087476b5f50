-- ===== src/Json/RoundTrip/Calls.antt =====
-- `json_encode`, and `json_decode` of what it returns.
use puny_gui.Prelude.{
  ℕ, ◌+◌, ◌≤◌, ◌<◌, ◌≡◌, refl, sym, ap, ◌∙◌, Bool, true, false, List, [], ◌∷◌, append-nil,
  if◌then◌else◌, arith,
}
use puny_gui.Json.Value.{
  Value, Items, Slots, Platform, nil, other, boolean, number, string, symbol, keyword, buffer,
  array, tuple, table, struct, no_items, item, no_slots, slot, truthy, Outcome, returned,
}
use puny_gui.Json.Result.{ok, Error, ◌>>=◌, Result}
use puny_gui.Json.Encode.{KeyKind, key_kind, empty, no_bytes, bytes, encode_text, json_encode}
use puny_gui.Json.Encode as Encoding
use puny_gui.Json.Encode.Refine.{encode_text_lem}
use puny_gui.Json.Printed.{
  Layout, string_points, text_verdict, slot_verdict, printed, verdict, items_verdict, slots_verdict,
}
use puny_gui.Json.Decode.{
  finish, decode_text, flags_of, has_keyword_key, has_null_to_nil, keyword_key, null_to_nil,
  json_decode, outcome_of,
}
use puny_gui.Json.Decode.Total.{flags_low}
use puny_gui.Json.RoundTrip.Canonical.{
  IsText, IsBlank, KeyIsText, IsPlain, ItemsPlain, SlotsPlain, nesting, stops, canonical,
}
use puny_gui.Json.RoundTrip.Atoms.{string_points_lem}
use puny_gui.Json.RoundTrip.Whole.{At, value_back}

text_accepted : (s : List ℕ) → IsText s → text_verdict (string_points s) ≡ ok tt
text_accepted s t = ap text_verdict (string_points_lem s t)

slot_accepted :
    (k : KeyKind) (v w : Result Error Unit)
    → KeyIsText k
    → v ≡ ok tt
    → w ≡ ok tt
    → slot_verdict k v w ≡ ok tt
slot_accepted empty v w t h g = g
slot_accepted no_bytes v w t h g = absurd t
slot_accepted (bytes s) v w t h g = rw (text_accepted s t, h, g) refl

mutual
  unfolding verdict IsPlain

  accepted : (pf : Platform) (x : Value) → IsPlain pf x → verdict x ≡ ok tt
  accepted pf nil p = refl
  accepted pf (boolean b) p = refl
  accepted pf (number x) p = refl
  accepted pf (string s) p = text_accepted s p
  accepted pf (symbol s) p = text_accepted s p
  accepted pf (keyword s) p = text_accepted s p
  accepted pf (buffer s) p = text_accepted s p
  accepted pf (array xs) p = items_accepted pf xs p
  accepted pf (tuple xs) p = items_accepted pf xs p
  accepted pf (table kvs) p = slots_accepted pf kvs p
  accepted pf (struct kvs) p = slots_accepted pf kvs p
  accepted pf other p = absurd p

  items_accepted : (pf : Platform) (xs : Items) → ItemsPlain pf xs → items_verdict xs ≡ ok tt
  items_accepted pf no_items p = refl
  items_accepted pf (item x xs) p = rw (accepted pf x p.0, items_accepted pf xs p.1) refl

  slots_accepted : (pf : Platform) (kvs : Slots) → SlotsPlain pf kvs → slots_verdict kvs ≡ ok tt
  slots_accepted pf no_slots p = refl
  slots_accepted pf (slot k v kvs) p =
      slot_accepted (key_kind k) (verdict v) (slots_verdict kvs) p.0 (accepted pf v p.1.0)
        (slots_accepted pf kvs p.1.1)

keyword_flag :
    (a b : Bool)
    → has_keyword_key ((if a then keyword_key else 0) + (if b then null_to_nil else 0)) ≡ a
keyword_flag true true = refl
keyword_flag true false = refl
keyword_flag false true = refl
keyword_flag false false = refl

nil_flag :
    (a b : Bool)
    → has_null_to_nil ((if a then keyword_key else 0) + (if b then null_to_nil else 0)) ≡ b
nil_flag true true = refl
nil_flag true false = refl
nil_flag false true = refl
nil_flag false false = refl

flags_of-At :
    (pf : Platform) (k n : Value)
    → pf.recursion_guard < 0xFFFF
    → At pf (truthy k) (truthy n) (flags_of k n)
unfolding flags_of
flags_of-At pf k n g = record {
  guard = g;
  keyword_flag = keyword_flag (truthy k) (truthy n);
  nil_flag = nil_flag (truthy k) (truthy n);
}

decode_text-printed :
    (pf : Platform) (l : Layout) (x k n : Value)
    → pf.recursion_guard < 0xFFFF
    → IsBlank l
    → IsPlain pf x
    → nesting x ≤ pf.recursion_guard
    → decode_text pf (flags_of k n) (printed pf l 0 x) ≡ ok (canonical pf (truthy k) (truthy n) x)
unfolding decode_text finish stops
decode_text-printed pf l x k n g b p m =
    ap (λ t. decode_text pf (flags_of k n) t) (sym (append-nil (printed pf l 0 x)))
    ∙ ap (◌>>= finish) (
        value_back pf l (truthy k) (truthy n) b x p 0 (pf.recursion_guard + 2) (flags_of k n)
          (flags_of-At pf k n g) (omega (arith, flags_low k n)) (omega arith) [] [] tt refl)

-- What json_encode returned is given to json_decode.
abbrev pub decode_again : Platform → Value → Value → Outcome → Outcome
decode_again pf k n (returned x) = json_decode pf (x ∷ k ∷ n ∷ [])
decode_again pf k n other_outcome = other_outcome

-- With a recursion guard below 65535, a tab and a newline of white space, and a value of known
-- types that nests no deeper than the guard, whose strings and keys are UTF-8 of code points
-- that the encoder reads as they are, and whose numbers strtod reads back from what sprintf
-- prints: what `json_encode` returns is decoded by `json_decode` to the same value, with
-- sequences as arrays, byte sequences as strings, dictionaries as tables without their empty
-- slots, and keys and null as the two flags ask.
pub json_decode-json_encode :
    (pf : Platform) (l : Layout) (x k n : Value)
    → pf.recursion_guard < 0xFFFF
    → IsBlank l
    → IsPlain pf x
    → nesting x ≤ pf.recursion_guard
    → decode_again pf k n (json_encode pf (x ∷ string l.tab ∷ string l.newline ∷ []))
      ≡ returned (canonical pf (truthy k) (truthy n) x)
unfolding json_encode json_decode
json_decode-json_encode pf l x k n g b p m =
    ap (λ r. decode_again pf k n (Encoding.outcome_of r))
      (encode_text_lem pf l [] x ∙ ap (◌>>= λ _. ok (printed pf l 0 x)) (accepted pf x p))
    ∙ ap (outcome_of (printed pf l 0 x)) (decode_text-printed pf l x k n g b p m)
