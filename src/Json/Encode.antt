-- ===== src/Json/Encode.antt =====
-- json/json.c: `encode_one` and `json_encode`.
pub mod Buffer
pub mod Parts
pub mod Refine
use puny_gui.Prelude.{
  ℕ, zero, suc, ◌+◌, ◌-◌, Bool, true, false, List, [], ◌∷◌, ◌++◌, Option, none, some, length, ltb,
  leb, ◌==◌, if◌then◌else◌, codes, take, get_or,
}
use puny_gui.Json.Value.{
  Value, Items, Slots, Platform, nil, other, boolean, number, string, symbol, keyword, buffer,
  array, tuple, table, struct, no_items, item, no_slots, slot, bytes_of, Outcome, returned,
  bad_arity, bad_argument, no_outcome, unencodable,
}
use puny_gui.Json.Result.{
  Error, Result, ok, err, out_of_fuel, ◌>>=◌, bad_type, invalid_utf8, bad_key,
}
use puny_gui.Json.Unicode.{read_codepoint, escape_codepoint}

-- `text` holds the bytes of the buffer up to its count.
pub record Encoder : Type 0 where
  pub text : List ℕ
  pub indent : ℕ
  pub tab : List ℕ
  pub newline : List ℕ

-- janet_buffer_push_bytes and the like
abbrev pub push : List ℕ → Encoder → Encoder
push bytes e = record e { text = e.text ++ bytes }

abbrev pub indented : Encoder → Encoder
indented e = record e { indent = e.indent + 1 }

abbrev pub outdented : Encoder → Encoder
outdented e = record e { indent = e.indent - 1 }

unfoldable pub push_tabs : ℕ → Encoder → Encoder
push_tabs zero e = e
push_tabs (suc n) e = push_tabs n (push e.tab e)

unfoldable pub encode_newline : Encoder → Encoder
unfolding push_tabs
encode_newline e =
    let e' = push e.newline e in if length e.tab == 0 then e' else push_tabs e.indent e'

-- By what was read of a string: the code point is written, and the loop goes on.
abbrev pub encode_read :
    (List ℕ → Encoder → Result Error Encoder) → Encoder → Option (ℕ × List ℕ) → Result Error Encoder
encode_read more e none = err invalid_utf8
encode_read more e (some (u, rest)) = more rest (push (escape_codepoint u) e)

-- The loop over the bytes of a string; every round takes one.
unfoldable pub encode_bytes : ℕ → List ℕ → Encoder → Result Error Encoder
unfolding read_codepoint escape_codepoint
encode_bytes f [] e = ok e
encode_bytes zero (c ∷ cs) e = out_of_fuel
encode_bytes (suc f) (c ∷ cs) e = encode_read (encode_bytes f) e (read_codepoint c cs)

unfoldable pub encode_string : List ℕ → Encoder → Result Error Encoder
unfolding encode_bytes
encode_string bytes e =
    encode_bytes (length bytes) bytes (push (codes "\"") e) >>= λ e'. ok (push (codes "\"") e')

-- e->buffer->data[e->buffer->count - 1] == ','
abbrev pub ends_in_comma : List ℕ → Bool
ends_in_comma text = get_or text (length text - 1) 0 == b','

-- The last comma goes.
unfoldable pub comma_off : Encoder → Encoder
unfolding encode_newline
comma_off e =
    if ends_in_comma e.text
    then encode_newline (record e { text = take (length e.text - 1) e.text })
    else e

-- The end of an array or an object.
unfoldable pub close : ℕ → Encoder → Encoder
unfolding comma_off
close bracket e = push (bracket ∷ []) (comma_off (outdented e))

-- The slots whose key is nil are passed over; others must have bytes for a key.
pub data KeyKind : Type 0 where
  empty no_bytes : KeyKind
  bytes : List ℕ → KeyKind

unfoldable pub key_kind : Value → KeyKind
key_kind nil = empty
key_kind (string s) = bytes s
key_kind (symbol s) = bytes s
key_kind (keyword s) = bytes s
key_kind (buffer s) = bytes s
key_kind _ = no_bytes

-- What stands before the value of a slot: the key, and ": " or ":".
unfoldable pub encode_key : List ℕ → Encoder → Result Error Encoder
unfolding encode_newline encode_string
encode_key s e = encode_string s (encode_newline e) >>= λ e'.
    ok (push (if length e'.tab == 0 then codes ":" else codes ": ") e')

-- A round of the loop over the slots, by the key; `one` encodes the value and `more` is the rest of
-- the loop.
abbrev pub encode_slot :
    KeyKind
    → (Encoder → Result Error Encoder)
    → (Encoder → Result Error Encoder)
    → Encoder
    → Result Error Encoder
encode_slot empty one more e = more e
encode_slot no_bytes one more e = err bad_key
encode_slot (bytes s) one more e =
    encode_key s e >>= λ e'. one e' >>= λ e''. more (push (codes ",") e'')

unfoldable mutual
  unfolding encode_string close key_kind encode_key encode_newline

  pub encode_one : Platform → Value → Encoder → Result Error Encoder
  encode_one pf nil e = ok (push (codes "null") e)
  encode_one pf (boolean b) e = ok (push (if b then codes "true" else codes "false") e)
  encode_one pf (number x) e = ok (push (pf.print x) e)
  encode_one pf (string s) e = encode_string s e
  encode_one pf (symbol s) e = encode_string s e
  encode_one pf (keyword s) e = encode_string s e
  encode_one pf (buffer s) e = encode_string s e
  encode_one pf (array xs) e =
      encode_items pf xs (indented (push (codes "[") e)) >>= λ e'. ok (close b']' e')
  encode_one pf (tuple xs) e =
      encode_items pf xs (indented (push (codes "[") e)) >>= λ e'. ok (close b']' e')
  encode_one pf (table kvs) e =
      encode_slots pf kvs (indented (push (codes "{") e)) >>= λ e'. ok (close b'}' e')
  encode_one pf (struct kvs) e =
      encode_slots pf kvs (indented (push (codes "{") e)) >>= λ e'. ok (close b'}' e')
  encode_one pf other e = err bad_type

  pub encode_items : Platform → Items → Encoder → Result Error Encoder
  encode_items pf no_items e = ok e
  encode_items pf (item x xs) e =
      encode_one pf x (encode_newline e) >>= λ e'. encode_items pf xs (push (codes ",") e')

  pub encode_slots : Platform → Slots → Encoder → Result Error Encoder
  encode_slots pf no_slots e = ok e
  encode_slots pf (slot k v kvs) e =
      encode_slot (key_kind k) (encode_one pf v) (encode_slots pf kvs) e

unfoldable pub encode_text : Platform → List ℕ → List ℕ → List ℕ → Value → Result Error (List ℕ)
unfolding encode_one
encode_text pf tab newline text x =
    encode_one pf x (record { text = text; indent = 0; tab = tab; newline = newline }) >>= λ e.
    ok e.text

-- The buffer that is returned, or the panic.
abbrev pub outcome_of : Result Error (List ℕ) → Outcome
outcome_of (ok text) = returned (buffer text)
outcome_of (err e) = unencodable e
outcome_of out_of_fuel = no_outcome

-- The tab and the newline are bytes, if they are given.
abbrev pub encode_with : Platform → Option (List ℕ) → Option (List ℕ) → List ℕ → Value → Outcome
encode_with pf (some tab) (some newline) text x = outcome_of (encode_text pf tab newline text x)
encode_with pf _ _ text x = bad_argument

-- janet_optbuffer
abbrev pub text_of : Value → Option (List ℕ)
text_of nil = some []
text_of (buffer s) = some s
text_of _ = none

abbrev pub encode_onto :
    Platform → Option (List ℕ) → Option (List ℕ) → Option (List ℕ) → Value → Outcome
encode_onto pf tab newline none x = bad_argument
encode_onto pf tab newline (some text) x = encode_with pf tab newline text x

unfoldable pub json_encode : Platform → List Value → Outcome
unfolding encode_text
json_encode pf (x ∷ []) = outcome_of (encode_text pf [] [] [] x)
json_encode pf (x ∷ tab ∷ []) = encode_with pf (bytes_of tab) (some (13 ∷ 10 ∷ [])) [] x
json_encode pf (x ∷ tab ∷ newline ∷ []) = encode_with pf (bytes_of tab) (bytes_of newline) [] x
json_encode pf (x ∷ tab ∷ newline ∷ b ∷ []) =
    encode_onto pf (bytes_of tab) (bytes_of newline) (text_of b) x
json_encode pf _ = bad_arity
