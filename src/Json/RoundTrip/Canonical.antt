-- ===== src/Json/RoundTrip/Canonical.antt =====
-- The values that come back, and what they come back as.
use puny_gui.Prelude.{
  ℕ, suc, ◌≡◌, Bool, true, ◌||◌, List, ◌++◌, length, All, ◌==◌, if◌then◌else◌, max, codes,
}
use puny_gui.Json.Value.{
  Value, Items, Slots, Platform, nil, other, boolean, number, string, symbol, keyword, buffer,
  array, tuple, table, struct, no_items, item, no_slots, slot,
}
use puny_gui.Json.Unicode.{peek}
use puny_gui.Json.Unicode.RoundTrip.{misread}
use puny_gui.Json.Strings.{white}
use puny_gui.Json.Strings.RoundTrip.{IsScalar, utf8}
use puny_gui.Json.Encode.{KeyKind, key_kind, empty, no_bytes, bytes}
use puny_gui.Json.Decode.{kind_of, digits, put_entry}
use puny_gui.Json.Printed.{Layout}

-- A text in UTF-8, of code points that the encoder reads as they are.
pub record IsText (s : List ℕ) : Type 0 where
  pub points : List ℕ
  pub scalar : All IsScalar points
  pub kept : All (λ u. misread u ≡ u) points
  pub is_utf8 : s ≡ utf8 points

-- A byte that ends a number.
unfoldable pub stops : ℕ → Bool
unfolding white
stops c = c == 0 || (white c || (c == b',' || (c == b']' || c == b'}')))

-- A number that strtod reads back from what sprintf prints.
pub record IsNumber (pf : Platform) (x : ℕ) : Type 0 where
  pub starts : kind_of (peek (pf.print x)) ≡ digits
  pub reads :
      (rest : List ℕ)
      → stops (peek rest) ≡ true
      → pf.strtod (pf.print x ++ rest) ≡ (x, length (pf.print x))

abbrev pub IsWhite : List ℕ → Type 0
IsWhite = All (λ c. white c ≡ true)

pub record IsBlank (l : Layout) : Type 0 where
  pub tab : IsWhite l.tab
  pub newline : IsWhite l.newline

abbrev pub KeyIsText : KeyKind → Type 0
KeyIsText empty = Unit
KeyIsText no_bytes = ⊥
KeyIsText (bytes s) = IsText s

-- A value that can be encoded, with strings and numbers that come back.
unfoldable mutual
  unfolding key_kind

  pub IsPlain : Platform → Value → Type 0
  IsPlain pf nil = Unit
  IsPlain pf (boolean b) = Unit
  IsPlain pf (number x) = IsNumber pf x
  IsPlain pf (string s) = IsText s
  IsPlain pf (symbol s) = IsText s
  IsPlain pf (keyword s) = IsText s
  IsPlain pf (buffer s) = IsText s
  IsPlain pf (array xs) = ItemsPlain pf xs
  IsPlain pf (tuple xs) = ItemsPlain pf xs
  IsPlain pf (table kvs) = SlotsPlain pf kvs
  IsPlain pf (struct kvs) = SlotsPlain pf kvs
  IsPlain pf other = ⊥

  pub ItemsPlain : Platform → Items → Type 0
  ItemsPlain pf no_items = Unit
  ItemsPlain pf (item x xs) = IsPlain pf x × ItemsPlain pf xs

  pub SlotsPlain : Platform → Slots → Type 0
  SlotsPlain pf no_slots = Unit
  SlotsPlain pf (slot k v kvs) = KeyIsText (key_kind k) × (IsPlain pf v × SlotsPlain pf kvs)

-- How deep the brackets stand.
unfoldable mutual
  pub nesting : Value → ℕ
  nesting (array xs) = suc (items_nesting xs)
  nesting (tuple xs) = suc (items_nesting xs)
  nesting (table kvs) = suc (slots_nesting kvs)
  nesting (struct kvs) = suc (slots_nesting kvs)
  nesting _ = 0

  pub items_nesting : Items → ℕ
  items_nesting no_items = 0
  items_nesting (item x xs) = max (nesting x) (items_nesting xs)

  pub slots_nesting : Slots → ℕ
  slots_nesting no_slots = 0
  slots_nesting (slot k v kvs) = max (nesting v) (slots_nesting kvs)

-- A slot of the text, put into the table so far.
abbrev pub put_slot : Platform → Bool → KeyKind → Value → Slots → Slots
put_slot pf keywords empty v t = t
put_slot pf keywords no_bytes v t = t
put_slot pf keywords (bytes s) v t = put_entry pf keywords t (string s, v)

-- Every byte sequence is a string, every sequence an array, and every dictionary a table, by the
-- two flags.
unfoldable mutual
  unfolding key_kind

  pub canonical : Platform → Bool → Bool → Value → Value
  canonical pf keywords nils nil = if nils then nil else keyword (codes "null")
  canonical pf keywords nils (symbol s) = string s
  canonical pf keywords nils (keyword s) = string s
  canonical pf keywords nils (buffer s) = string s
  canonical pf keywords nils (array xs) = array (canonical_items pf keywords nils xs)
  canonical pf keywords nils (tuple xs) = array (canonical_items pf keywords nils xs)
  canonical pf keywords nils (table kvs) = table (put_slots pf keywords nils kvs no_slots)
  canonical pf keywords nils (struct kvs) = table (put_slots pf keywords nils kvs no_slots)
  canonical pf keywords nils (boolean b) = boolean b
  canonical pf keywords nils (number x) = number x
  canonical pf keywords nils (string s) = string s
  canonical pf keywords nils other = other

  pub canonical_items : Platform → Bool → Bool → Items → Items
  canonical_items pf keywords nils no_items = no_items
  canonical_items pf keywords nils (item x xs) =
      item (canonical pf keywords nils x) (canonical_items pf keywords nils xs)

  pub put_slots : Platform → Bool → Bool → Slots → Slots → Slots
  put_slots pf keywords nils no_slots t = t
  put_slots pf keywords nils (slot k v kvs) t =
      put_slots pf keywords nils kvs
        (put_slot pf keywords (key_kind k) (canonical pf keywords nils v) t)
