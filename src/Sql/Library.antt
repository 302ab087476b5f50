-- ===== src/Sql/Library.antt =====
-- What sqlite3/main.c takes from the SQLite library and from Janet, and what it keeps.
use puny_gui.Prelude.{ℕ, List, Option}
use puny_gui.Json.Value.{Value, Slots}
use puny_gui.Json.Result.{Result, ok, err, out_of_fuel}

-- What one of the functions sqlite3_bind_* binds.
pub data Bound : Type 0 where
  null : Bound
  int double : ℕ → Bound
  text blob : List ℕ → Bound

-- The value of a column, by sqlite3_column_type.
pub data Column : Type 0 where
  sql_null : Column
  sql_integer sql_float : ℕ → Column
  sql_text sql_blob : List ℕ → Column

-- What sqlite3_prepare_v2 gives: its status, the statement or NULL, and the text behind it.
pub record Prepared : Type 0 where
  pub status : ℕ
  pub statement : Option ℕ
  pub tail : List ℕ

-- The library over its own state `S`. Connections and statements are numbers.
pub record Library (S : Type 0) : Type 0 where
  pub open_file : List ℕ → S → S × (ℕ × ℕ)
  pub close_v2 : ℕ → S → S
  pub errmsg : ℕ → S → List ℕ
  pub errcode : ℕ → S → ℕ
  pub last_insert_rowid : ℕ → S → ℕ
  pub prepare_v2 : ℕ → List ℕ → S → S × Prepared
  pub finalize : ℕ → S → S
  pub db_handle : ℕ → ℕ
  pub bind : ℕ → ℕ → Bound → S → S × ℕ
  pub bind_parameter_count : ℕ → S → ℕ
  pub bind_parameter_index : ℕ → List ℕ → S → ℕ
  pub step : ℕ → S → S × ℕ
  pub column_count : ℕ → S → ℕ
  pub column_name : ℕ → ℕ → S → List ℕ
  pub column : ℕ → ℕ → S → Column

-- `unwrap_integer` is janet_unwrap_integer, which the code applies to a boolean too. `int_key` is
-- the index that a number is as a key: 0 for one that janet_checkint refuses or that is negative.
-- `wrap_integer` and `wrap_double` make the number of an int and of a 64-bit integer.
pub record Janet : Type 0 where
  pub unwrap_integer : Value → ℕ
  pub int_key : ℕ → ℕ
  pub wrap_integer : ℕ → ℕ
  pub wrap_double : ℕ → ℕ
  pub struct_put : Slots → Value → Value → Slots

-- A panic of Janet's argument checks, or janet_panic with a text.
pub data Panic : Type 0 where
  wrong_arity wrong_argument : Panic
  message : List ℕ → Panic
  not_keyword : Value → Panic

abbrev pub sqlite_ok : ℕ
sqlite_ok = 0

abbrev pub sqlite_row : ℕ
sqlite_row = 100

abbrev pub sqlite_done : ℕ
sqlite_done = 101

-- The state that a step leaves, and its result.
abbrev pub Stepped : Type 0 → Type 0 → Type 0
Stepped S A = S × Result Panic A

-- A step that goes on where the one before it has given no error.
abbrev pub and_then : {S A B : Type 0} → Stepped S A → (A → S → Stepped S B) → Stepped S B
and_then (s, ok a) k = k a s
and_then (s, err e) k = (s, err e)
and_then (s, out_of_fuel) k = (s, out_of_fuel)
