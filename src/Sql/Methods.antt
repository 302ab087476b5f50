-- ===== src/Sql/Methods.antt =====
-- sqlite3/main.c: `conn_methods` and `sql_conn_get`.
use puny_gui.Prelude.{ℕ, List, [], ◌∷◌, Option, codes}
use puny_gui.Json.Value.{Value, keyword}
use puny_gui.Json.Result.{Result, ok, err}
use puny_gui.Sql.Library.{Library, Janet, Panic, not_keyword, Stepped}
use puny_gui.Sql.Connection.{World, Argument, Answer, sql_close}
use puny_gui.Sql.Eval.{sql_eval, sql_last_insert_rowid, sql_error_code}

abbrev pub Method : Type 0 → Type 0
Method S = List Argument → World S → Stepped (World S) Answer

-- The names and their functions; sql_eval has its fuel.
abbrev pub conn_methods : {S : Type 0} → Library S → Janet → ℕ → ℕ → List (List ℕ × Method S)
conn_methods lib janet r f =
    (codes "error-code", sql_error_code lib janet)
    ∷ (codes "close", sql_close lib)
    ∷ (codes "eval", sql_eval lib janet r f)
    ∷ (codes "last-insert-rowid", sql_last_insert_rowid lib janet)
    ∷ []

-- `getmethod` is janet_getmethod.
abbrev pub sql_conn_get :
    {A : Type 0}
    → (List ℕ → List (List ℕ × A) → Option A)
    → List (List ℕ × A)
    → Value
    → Result Panic (Option A)
sql_conn_get getmethod methods (keyword name) = ok (getmethod name methods)
sql_conn_get getmethod methods key = err (not_keyword key)
