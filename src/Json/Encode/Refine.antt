-- ===== src/Json/Encode/Refine.antt =====
-- `encode_one` against the text of a value.
use puny_gui.Prelude.{ℕ, ◌≡◌, refl, sym, ap, ◌∙◌, List, ◌++◌, codes}
use puny_gui.Json.Value.{
  Value, Items, Slots, Platform, nil, other, boolean, number, string, symbol, keyword, buffer,
  array, tuple, table, struct, no_items, item, no_slots, slot,
}
use puny_gui.Json.Result.{Error, Result, ok, err, out_of_fuel, ◌>>=◌}
use puny_gui.Json.Encode.{
  Encoder, push, indented, key_kind, encode_one, encode_items, encode_slots, encode_text,
}
use puny_gui.Json.Encode.Buffer.{layout, writes, push-nil, encode_string_lem}
use puny_gui.Json.Printed.{
  Layout, printed, items_printed, slots_printed, verdict, items_verdict, slots_verdict,
}
use puny_gui.Json.Encode.Parts.{
  WritesFirst, WritesMore, first_item, more_items, closed_lem, first_slot, more_slot,
}

abbrev BothItems : Platform → Items → Type 0
BothItems pf xs =
    WritesFirst (items_verdict xs) (λ l n. items_printed pf l n xs) (encode_items pf xs)
    × WritesMore (items_verdict xs) (λ l n. items_printed pf l n xs) (encode_items pf xs)

abbrev BothSlots : Platform → Slots → Type 0
BothSlots pf kvs =
    WritesFirst (slots_verdict kvs) (λ l n. slots_printed pf l n kvs) (encode_slots pf kvs)
    × WritesMore (slots_verdict kvs) (λ l n. slots_printed pf l n kvs) (encode_slots pf kvs)

mutual
  unfolding encode_one verdict printed

  encode_one_lem :
      (pf : Platform) (x : Value) (e : Encoder)
      → encode_one pf x e ≡ writes (verdict x) (printed pf (layout e) e.indent x) e
  encode_one_lem pf nil e = refl
  encode_one_lem pf (boolean b) e = refl
  encode_one_lem pf (number x) e = refl
  encode_one_lem pf (string s) e = encode_string_lem s e
  encode_one_lem pf (symbol s) e = encode_string_lem s e
  encode_one_lem pf (keyword s) e = encode_string_lem s e
  encode_one_lem pf (buffer s) e = encode_string_lem s e
  encode_one_lem pf (array xs) e =
      closed_lem (items_verdict xs) _ b'[' b']' e _ refl
        ((encode_items_lem pf xs).0 (indented (push (codes "[") e)))
  encode_one_lem pf (tuple xs) e =
      closed_lem (items_verdict xs) _ b'[' b']' e _ refl
        ((encode_items_lem pf xs).0 (indented (push (codes "[") e)))
  encode_one_lem pf (table kvs) e =
      closed_lem (slots_verdict kvs) _ b'{' b'}' e _ refl
        ((encode_slots_lem pf kvs).0 (indented (push (codes "{") e)))
  encode_one_lem pf (struct kvs) e =
      closed_lem (slots_verdict kvs) _ b'{' b'}' e _ refl
        ((encode_slots_lem pf kvs).0 (indented (push (codes "{") e)))
  encode_one_lem pf other e = refl

  encode_items_lem : (pf : Platform) (xs : Items) → BothItems pf xs
  encode_items_lem pf no_items = (λ e. ap ok (sym (push-nil e)), λ e. refl)
  encode_items_lem pf (item x xs) =
      let first = first_item pf x xs (encode_one_lem pf x) (encode_items_lem pf xs).1 in
      (first, more_items pf (item x xs) first)

  encode_slots_lem : (pf : Platform) (kvs : Slots) → BothSlots pf kvs
  encode_slots_lem pf no_slots = (λ e. ap ok (sym (push-nil e)), λ e. refl)
  encode_slots_lem pf (slot k v kvs) =
      let (first, more) = encode_slots_lem pf kvs in
      (
        first_slot (key_kind k) (verdict v) (slots_verdict kvs) (λ l n. printed pf l n v)
            (λ l n. slots_printed pf l n kvs) (encode_one pf v) (encode_slots pf kvs)
            (encode_one_lem pf v) first more,
        more_slot (key_kind k) (verdict v) (slots_verdict kvs) (λ l n. printed pf l n v)
            (λ l n. slots_printed pf l n kvs) (encode_one pf v) (encode_slots pf kvs)
            (encode_one_lem pf v) first more,
      )

written_text :
    (v : Result Error Unit) (t text : List ℕ) (l : Layout)
    → (writes v t (record { text = text; indent = 0; tab = l.tab; newline = l.newline }) >>= λ e.
        ok e.text)
      ≡ (v >>= λ _. ok (text ++ t))
written_text (ok u) t text l = refl
written_text (err x) t text l = refl
written_text out_of_fuel t text l = refl

-- Encoding onto a buffer, with its taking back of the last comma and its indentation, appends
-- the text of the value, in which each part is printed by itself with commas between the parts,
-- or fails with the error of the first part, in the order of the text, that cannot be encoded.
pub encode_text_lem :
    (pf : Platform) (l : Layout) (text : List ℕ) (x : Value)
    → encode_text pf l.tab l.newline text x ≡ (verdict x >>= λ _. ok (text ++ printed pf l 0 x))
unfolding encode_text
encode_text_lem pf l text x =
    ap (◌>>= λ e. ok e.text)
      (encode_one_lem pf x (record { text = text; indent = 0; tab = l.tab; newline = l.newline }))
    ∙ written_text (verdict x) (printed pf l 0 x) text l
