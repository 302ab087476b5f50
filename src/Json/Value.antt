-- ===== src/Json/Value.antt =====
-- The Janet values that json/json.c reads and makes, and what it takes from Janet and from the C
-- library.
use puny_gui.Prelude.{ℕ, Bool, true, false, List, Option, none, some}
use puny_gui.Json.Result.{Error}

-- A number is the pattern of its double. A table is its slots in the order of
-- janet_dictionary_view; a slot whose key is nil is empty. `other` is any value of another type.
mutual
  pub data Value : Type 0 where
    nil other : Value
    boolean : Bool → Value
    number : ℕ → Value
    string symbol keyword buffer : List ℕ → Value
    array tuple : Items → Value
    table struct : Slots → Value

  pub data Items : Type 0 where
    no_items : Items
    item : Value → Items → Items

  pub data Slots : Type 0 where
    no_slots : Slots
    slot : Value → Value → Slots → Slots

-- `strtod` gives the number at the start of a text and how many of its bytes were taken; `print` is
-- sprintf of "%.17g". `put` is janet_table_put, `recursion_guard` is JANET_RECURSION_GUARD.
pub record Platform : Type 0 where
  pub strtod : List ℕ → ℕ × ℕ
  pub print : ℕ → List ℕ
  pub put : Slots → Value → Value → Slots
  pub recursion_guard : ℕ

-- janet_truthy
abbrev pub truthy : Value → Bool
truthy nil = false
truthy (boolean false) = false
truthy _ = true

-- The bytes of a buffer, or janet_getbytes.
abbrev pub bytes_of : Value → Option (List ℕ)
bytes_of (string s) = some s
bytes_of (symbol s) = some s
bytes_of (keyword s) = some s
bytes_of (buffer s) = some s
bytes_of _ = none

-- A Janet function that returns, or panics: over its arguments, with an error text and the position
-- in the source, or with an error text of the encoder.
pub data Outcome : Type 0 where
  returned : Value → Outcome
  bad_arity bad_argument no_outcome : Outcome
  panicked : Error → ℕ → Outcome
  unencodable : Error → Outcome
