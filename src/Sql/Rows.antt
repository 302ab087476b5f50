-- ===== src/Sql/Rows.antt =====
-- sqlite3/main.c: `execute` and `execute_collect`.
use puny_gui.Prelude.{
  until_nul, ℕ, zero, suc, true, false, List, [], ◌∷◌, ◌++◌, ◌==◌, if◌then◌else◌,
}
use puny_gui.Json.Value.{Value, Slots, nil, number, string, keyword, buffer, struct, no_slots}
use puny_gui.Json.Result.{ok, err, out_of_fuel}
use puny_gui.Sql.Library.{
  Library, Janet, message, Column, sql_null, sql_integer, sql_float, sql_text, sql_blob, sqlite_row,
  sqlite_done, Stepped,
}

-- The value of a column, by its type.
abbrev pub column_value : Janet → Column → Value
column_value janet sql_null = nil
column_value janet (sql_integer n) = number (janet.wrap_integer n)
column_value janet (sql_float x) = number x
column_value janet (sql_text s) = string s
column_value janet (sql_blob s) = buffer s

module _ {S : Type 0} (lib : Library S) (stmt : ℕ) where
  -- The names of the columns from `i` on.
  abbrev pub column_names : ℕ → ℕ → S → List Value
  column_names i zero s = []
  column_names i (suc n) s =
      keyword (until_nul (lib.column_name stmt i s)) ∷ column_names (suc i) n s

  -- The loop over the columns of a row.
  abbrev pub fill_row : Janet → ℕ → List Value → S → Slots → Slots
  fill_row janet i [] s row = row
  fill_row janet i (name ∷ names) s row =
      fill_row janet (suc i) names s
        (janet.struct_put row name (column_value janet (lib.column stmt i s)))

  -- The check for errors behind the loops.
  abbrev pub ended : {A : Type 0} → A → S → ℕ → Stepped S A
  ended a s status =
      (s, if status == sqlite_done then ok a else err (message (lib.errmsg (lib.db_handle stmt) s)))

  -- The loop of sqlite3_step; the fuel bounds the rows.
  unfoldable pub execute : ℕ → S → Stepped S Unit
  execute zero s = (s, out_of_fuel)
  execute (suc f) s =
      let (s', status) = lib.step stmt s in
      elim (status == sqlite_row) [ true ↦ execute f s' | false ↦ ended tt s' status ]

  unfoldable pub collect : ℕ → Janet → List Value → List Value → S → Stepped S (List Value)
  collect zero janet names rows s = (s, out_of_fuel)
  collect (suc f) janet names rows s =
      let (s', status) = lib.step stmt s in
      elim (status == sqlite_row) [
        | true ↦ collect f janet names (rows ++ struct (fill_row janet 0 names s' no_slots) ∷ []) s'
        | false ↦ ended rows s' status
      ]

  unfoldable pub execute_collect : ℕ → Janet → List Value → S → Stepped S (List Value)
  unfolding collect
  execute_collect f janet rows s =
      collect f janet (column_names 0 (lib.column_count stmt s) s) rows s
