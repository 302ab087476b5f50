-- ===== src/Sql/Parameters.antt =====
-- sqlite3/main.c: `has_null`, `bind1` and `bindmany`.
use puny_gui.Prelude.{
  until_nul, ℕ, zero, suc, ◌+◌, Bool, false, ◌||◌, List, ◌∷◌, Option, none, some, length, ltb, ◌==◌,
  if◌then◌else◌, codes, get_or,
}
use puny_gui.Json.Value.{
  Value, Items, Slots, nil, boolean, number, string, symbol, keyword, buffer, array, tuple, table,
  struct, no_items, item, no_slots, slot,
}
use puny_gui.Json.Result.{Result, ok, err, out_of_fuel}
use puny_gui.Sql.Library.{
  Library, Janet, Panic, message, and_then, Bound, null, int, double, text, blob, sqlite_ok,
  Stepped,
}

-- The bytes from the last one down to the first.
abbrev null_below : ℕ → List ℕ → Bool
null_below zero str = false
null_below (suc len) str = get_or str len 0 == 0 || null_below len str

unfoldable pub has_null : List ℕ → Bool
has_null str = null_below (length str) str

abbrev pub bound_text : List ℕ → Result Panic Bound
bound_text s =
    if has_null s
    then err (message (codes "cannot have embedded nulls in text values"))
    else ok (text s)

-- What is bound for a value, by its type.
unfoldable pub bound_of : Janet → Value → Result Panic Bound
unfolding has_null
bound_of janet nil = ok null
bound_of janet (boolean b) = ok (int (janet.unwrap_integer (boolean b)))
bound_of janet (number x) = ok (double x)
bound_of janet (string s) = bound_text s
bound_of janet (symbol s) = bound_text s
bound_of janet (keyword s) = bound_text s
bound_of janet (buffer s) = ok (blob s)
bound_of janet _ = err (message (codes "invalid sql value"))

unfoldable pub invalid_index : Panic
invalid_index = message (codes "invalid index in sql parameters")

abbrev pub item_count : Items → ℕ
item_count no_items = 0
item_count (item x xs) = suc (item_count xs)

module _ {S : Type 0} (lib : Library S) (janet : Janet) (stmt : ℕ) where
  -- The error of the library, unless the status is SQLITE_OK.
  abbrev pub check_status : S × ℕ → Stepped S Unit
  check_status (s, status) =
      (s, if status == sqlite_ok then ok tt else err (message (lib.errmsg (lib.db_handle stmt) s)))

  abbrev pub bind_bound : ℕ → Result Panic Bound → S → Stepped S Unit
  bind_bound index (ok b) s = check_status (lib.bind stmt index b s)
  bind_bound index (err e) s = (s, err e)
  bind_bound index out_of_fuel s = (s, out_of_fuel)

  unfoldable pub bind1 : ℕ → Value → S → Stepped S Unit
  unfolding bound_of
  bind1 index v s = bind_bound index (bound_of janet v) s

  -- The loop over a sequence, at the place `i`.
  unfoldable pub bind_items : ℕ → Items → S → Stepped S Unit
  unfolding bind1
  bind_items i no_items s = (s, ok tt)
  bind_items i (item x xs) s = and_then (bind1 (i + 1) x s) (λ _ s'. bind_items (i + 1) xs s')

  -- The index of a key; `none` for the key of an empty slot.
  unfoldable pub key_index : Value → S → Option ℕ
  key_index nil s = none
  key_index (number x) s = some (janet.int_key x)
  key_index (keyword k) s = some (lib.bind_parameter_index stmt (until_nul (b':' ∷ k)) s)
  key_index (string k) s = some (lib.bind_parameter_index stmt (until_nul k) s)
  key_index (symbol k) s = some (lib.bind_parameter_index stmt (until_nul k) s)
  key_index _ s = some 0

  -- A round of the loop over the slots, by the index.
  abbrev pub bind_slot : ℕ → Value → Option ℕ → (S → Stepped S Unit) → S → Stepped S Unit
  bind_slot limit v none more s = more s
  bind_slot limit v (some index) more s =
      if index == 0 || ltb limit index
      then (s, err invalid_index)
      else and_then (bind1 index v s) (λ _ s'. more s')

  unfoldable pub bind_slots : ℕ → Slots → S → Stepped S Unit
  unfolding bind1 key_index
  bind_slots limit no_slots s = (s, ok tt)
  bind_slots limit (slot k v kvs) s = bind_slot limit v (key_index k s) (bind_slots limit kvs) s

  abbrev pub bind_sequence : Items → S → Stepped S Unit
  bind_sequence xs s =
      if ltb (lib.bind_parameter_count stmt s + 1) (item_count xs)
      then (s, err invalid_index)
      else bind_items 0 xs s

  unfoldable pub bindmany : Value → S → Stepped S Unit
  unfolding bind_items bind_slots
  bindmany (array xs) s = bind_sequence xs s
  bindmany (tuple xs) s = bind_sequence xs s
  bindmany (table kvs) s = bind_slots (lib.bind_parameter_count stmt s) kvs s
  bindmany (struct kvs) s = bind_slots (lib.bind_parameter_count stmt s) kvs s
  bindmany _ s = (s, err (message (codes "invalid type for sql parameters")))
