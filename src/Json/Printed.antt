-- ===== src/Json/Printed.antt =====
-- The text of a value as `encode_one` means it, without a buffer: each part by itself, a comma
-- between two parts and none to take back.
use puny_gui.Prelude.{
  ℕ, zero, suc, ◌+◌, List, [], ◌∷◌, ◌++◌, Option, none, some, length, codes, ◌==◌, if◌then◌else◌,
}
use puny_gui.Json.Value.{
  Value, Items, Slots, Platform, nil, other, boolean, number, string, symbol, keyword, buffer,
  array, tuple, table, struct, no_items, item, no_slots, slot,
}
use puny_gui.Json.Result.{Error, Result, ok, err, ◌>>=◌, bad_type, invalid_utf8, bad_key}
use puny_gui.Json.Unicode.{read_codepoint, escapes}
use puny_gui.Json.Encode.{KeyKind, key_kind, empty, no_bytes, bytes}

pub record Layout : Type 0 where
  pub tab : List ℕ
  pub newline : List ℕ

abbrev pub tabs : ℕ → List ℕ → List ℕ
tabs zero tab = []
tabs (suc n) tab = tab ++ tabs n tab

abbrev pub new_line : Layout → ℕ → List ℕ
new_line l n = l.newline ++ tabs n l.tab

abbrev pub cons_point : ℕ → Option (List ℕ) → Option (List ℕ)
cons_point u none = none
cons_point u (some us) = some (u ∷ us)

abbrev pub read_points : (List ℕ → Option (List ℕ)) → Option (ℕ × List ℕ) → Option (List ℕ)
read_points more none = none
read_points more (some (u, rest)) = cons_point u (more rest)

-- The code points of a string, unless it is not in UTF-8.
unfoldable pub code_points : ℕ → List ℕ → Option (List ℕ)
code_points f [] = some []
code_points zero (c ∷ cs) = none
code_points (suc f) (c ∷ cs) = read_points (code_points f) (read_codepoint c cs)

abbrev pub quoted : Option (List ℕ) → List ℕ
quoted none = []
quoted (some us) = b'"' ∷ (escapes us ++ b'"' ∷ [])

abbrev pub text_verdict : Option (List ℕ) → Result Error Unit
text_verdict none = err invalid_utf8
text_verdict (some us) = ok tt

abbrev pub string_points : List ℕ → Option (List ℕ)
string_points s = code_points (length s) s

-- Parts, each with a comma in front: without the first comma, and the line of the bracket behind.
abbrev pub listed : List ℕ → List ℕ → List ℕ
listed line [] = []
listed line (c ∷ parts) = parts ++ line

abbrev pub colon : Layout → List ℕ
colon l = if length l.tab == 0 then codes ":" else codes ": "

-- The text and the verdict of a slot, in front of those of the slots behind it.
abbrev pub slot_printed : Layout → ℕ → KeyKind → List ℕ → List ℕ → List ℕ
slot_printed l n empty value more = more
slot_printed l n no_bytes value more = []
slot_printed l n (bytes s) value more =
    b',' ∷ (new_line l n ++ (quoted (string_points s) ++ (colon l ++ (value ++ more))))

abbrev pub slot_verdict : KeyKind → Result Error Unit → Result Error Unit → Result Error Unit
slot_verdict empty value more = more
slot_verdict no_bytes value more = err bad_key
slot_verdict (bytes s) value more = text_verdict (string_points s) >>= λ _. value >>= λ _. more

unfoldable mutual
  unfolding key_kind

  pub printed : Platform → Layout → ℕ → Value → List ℕ
  printed pf l n nil = codes "null"
  printed pf l n (boolean b) = if b then codes "true" else codes "false"
  printed pf l n (number x) = pf.print x
  printed pf l n (string s) = quoted (string_points s)
  printed pf l n (symbol s) = quoted (string_points s)
  printed pf l n (keyword s) = quoted (string_points s)
  printed pf l n (buffer s) = quoted (string_points s)
  printed pf l n (array xs) =
      b'[' ∷ (listed (new_line l n) (items_printed pf l (n + 1) xs) ++ b']' ∷ [])
  printed pf l n (tuple xs) =
      b'[' ∷ (listed (new_line l n) (items_printed pf l (n + 1) xs) ++ b']' ∷ [])
  printed pf l n (table kvs) =
      b'{' ∷ (listed (new_line l n) (slots_printed pf l (n + 1) kvs) ++ b'}' ∷ [])
  printed pf l n (struct kvs) =
      b'{' ∷ (listed (new_line l n) (slots_printed pf l (n + 1) kvs) ++ b'}' ∷ [])
  printed pf l n other = []

  pub items_printed : Platform → Layout → ℕ → Items → List ℕ
  items_printed pf l n no_items = []
  items_printed pf l n (item x xs) =
      b',' ∷ (new_line l n ++ (printed pf l n x ++ items_printed pf l n xs))

  pub slots_printed : Platform → Layout → ℕ → Slots → List ℕ
  slots_printed pf l n no_slots = []
  slots_printed pf l n (slot k v kvs) =
      slot_printed l n (key_kind k) (printed pf l n v) (slots_printed pf l n kvs)

-- The first part, in the order of the text, that cannot be encoded.
unfoldable mutual
  unfolding key_kind

  pub verdict : Value → Result Error Unit
  verdict (string s) = text_verdict (string_points s)
  verdict (symbol s) = text_verdict (string_points s)
  verdict (keyword s) = text_verdict (string_points s)
  verdict (buffer s) = text_verdict (string_points s)
  verdict (array xs) = items_verdict xs
  verdict (tuple xs) = items_verdict xs
  verdict (table kvs) = slots_verdict kvs
  verdict (struct kvs) = slots_verdict kvs
  verdict other = err bad_type
  verdict nil = ok tt
  verdict (boolean b) = ok tt
  verdict (number x) = ok tt

  pub items_verdict : Items → Result Error Unit
  items_verdict no_items = ok tt
  items_verdict (item x xs) = verdict x >>= λ _. items_verdict xs

  pub slots_verdict : Slots → Result Error Unit
  slots_verdict no_slots = ok tt
  slots_verdict (slot k v kvs) = slot_verdict (key_kind k) (verdict v) (slots_verdict kvs)
