-- ===== src/Json/Decode/Shapes.antt =====
-- The values that the decoder may make.
use puny_gui.Prelude.{ℕ, ◌≡◌, List}
use puny_gui.Json.Value.{
  Value, Items, Slots, nil, other, boolean, number, string, symbol, keyword, buffer, array, tuple,
  table, struct, no_items, item, no_slots, slot,
}

-- The keys of an object, and of an empty slot.
abbrev pub IsKey : Value → Type 0
IsKey nil = Unit
IsKey (string s) = Unit
IsKey (keyword s) = Unit
IsKey _ = ⊥

abbrev pub IsString : Value → Type 0
IsString v = (s : List ℕ) × (v ≡ string s)

-- Null, booleans, numbers and strings, and arrays and tables of these.
abbrev mutual
  pub IsData : Value → Type 0
  IsData nil = Unit
  IsData (boolean b) = Unit
  IsData (number x) = Unit
  IsData (string s) = Unit
  IsData (keyword s) = Unit
  IsData (array xs) = ItemsData xs
  IsData (table kvs) = SlotsData kvs
  IsData other = ⊥
  IsData (symbol s) = ⊥
  IsData (buffer s) = ⊥
  IsData (tuple xs) = ⊥
  IsData (struct kvs) = ⊥

  pub ItemsData : Items → Type 0
  ItemsData no_items = Unit
  ItemsData (item x xs) = IsData x × ItemsData xs

  pub SlotsData : Slots → Type 0
  SlotsData no_slots = Unit
  SlotsData (slot k v kvs) = IsKey k × (IsData v × SlotsData kvs)
