-- ===== src/Sql/Eval.antt =====
-- sqlite3/main.c: `sql_eval`, `sql_last_insert_rowid` and `sql_error_code`.
pub mod Balance
pub mod Ends
pub mod Total
use puny_gui.Prelude.{
  until_nul, ℕ, zero, suc, ◌+◌, Bool, true, false, List, [], ◌∷◌, Option, none, some, length, ◌==◌,
  if◌then◌else◌, codes,
}
use puny_gui.Json.Value.{Value, nil, other, number, string}
use puny_gui.Json.Result.{Result, ok, err, out_of_fuel}
use puny_gui.Sql.Library.{
  Library, Janet, Prepared, Panic, wrong_arity, wrong_argument, message, sqlite_ok, Stepped,
}
use puny_gui.Sql.Parameters.{has_null, bindmany}
use puny_gui.Sql.Rows.{execute, execute_collect}
use puny_gui.Sql.Connection.{
  Db, Call, was_prepared, was_finalized, World, Argument, Answer, value, rows,
}

-- A connection that is not closed, for `k`; the checks of its argument come first.
abbrev pub open_db :
    {S : Type 0} → Option Db → World S → (Db → Stepped (World S) Answer) → Stepped (World S) Answer
open_db none w k = (w, err wrong_argument)
open_db (some db) w k =
    if db.closed then (w, err (message (codes "database already closed"))) else k db

abbrev pub with_connection :
    {S : Type 0} → Argument → World S → (Db → Stepped (World S) Answer) → Stepped (World S) Answer
with_connection (Argument.connection a) w k = open_db (w.dbs a) w k
with_connection (Argument.value v) w k = (w, err wrong_argument)

-- The parameters of a call; a connection is no sequence and no dictionary.
abbrev pub parameter : Argument → Value
parameter (Argument.connection a) = other
parameter (Argument.value v) = v

-- janet_getstring
abbrev pub query_text : Argument → Option (List ℕ)
query_text (Argument.value (string query)) = some query
query_text _ = none

-- A step on the state of the library alone.
abbrev pub on_state : {S A : Type 0} → World S → Stepped S A → Stepped (World S) A
on_state w (s, r) = (record w { state = s }, r)

abbrev pub noted : Option ℕ → List Call → List Call
noted none calls = calls
noted (some n) calls = was_prepared n ∷ calls

module _ {S : Type 0} (lib : Library S) (janet : Janet) where
  -- if (stmt) sqlite3_finalize(stmt)
  abbrev pub release : Option ℕ → World S → World S
  release none w = w
  release (some n) w = record w {
    state = lib.finalize n w.state;
    calls = was_finalized n ∷ w.calls;
  }

  -- The label error: both statements go.
  abbrev pub failed : Option ℕ → Option ℕ → Panic → World S → Stepped (World S) Answer
  failed stmt stmt_next e w = (release stmt_next (release stmt w), err e)

  abbrev pub or_fail :
      {A : Type 0}
      → Option ℕ
      → Option ℕ
      → Stepped (World S) A
      → (A → World S → Stepped (World S) Answer)
      → Stepped (World S) Answer
  or_fail stmt stmt_next (w, ok a) k = k a w
  or_fail stmt stmt_next (w, err e) k = failed stmt stmt_next e w
  or_fail stmt stmt_next (w, out_of_fuel) k = (w, out_of_fuel)

  -- The current statement, the last one with its rows; none before the first round.
  abbrev pub run_last : ℕ → Option ℕ → World S → Stepped (World S) (List Value)
  run_last f none w = (w, ok [])
  run_last f (some n) w = on_state w (execute_collect lib n f janet [] w.state)

  abbrev pub run_current : ℕ → Option ℕ → World S → Stepped (World S) Unit
  run_current f none w = (w, ok tt)
  run_current f (some n) w = on_state w (execute lib n f w.state)

  abbrev pub bind_next : Option Argument → ℕ → World S → Stepped (World S) Unit
  bind_next none n w = (w, ok tt)
  bind_next (some p) n w = on_state w (bindmany lib janet n (parameter p) w.state)

  -- A round behind the preparation, by the next statement; `more` is the rest of the loop.
  unfoldable pub eval_round :
      ℕ
      → Option Argument
      → Option ℕ
      → Option ℕ
      → (Option ℕ → World S → Stepped (World S) Answer)
      → World S
      → Stepped (World S) Answer
  unfolding execute execute_collect bindmany
  eval_round f params stmt none more w =
      or_fail stmt none (run_last f stmt w) (λ rs w'. (release stmt w', ok (rows rs)))
  eval_round f params stmt (some n) more w = or_fail stmt (some n) (run_current f stmt w) (λ _ w'.
      or_fail stmt (some n) (bind_next params n w') (λ _ w''. more (some n) (release stmt w'')))

  abbrev pub prepared_world : World S → S × Prepared → World S
  prepared_world w (s, p) = record w { state = s; calls = noted p.statement w.calls }

  -- The loop, with the text from the next statement on. The fuel bounds the statements, and `f` the
  -- rows of each.
  unfoldable pub eval_loop :
      ℕ → ℕ → ℕ → Option Argument → List ℕ → Option ℕ → World S → Stepped (World S) Answer
  unfolding eval_round
  eval_loop zero f handle params c stmt w = (w, out_of_fuel)
  eval_loop (suc r) f handle params c stmt w =
      let prepared = lib.prepare_v2 handle c w.state in
      let w' = prepared_world w prepared in
      elim (prepared.1.status == sqlite_ok) [
        | true ↦
            eval_round f params stmt prepared.1.statement
              (eval_loop r f handle params prepared.1.tail) w'
        | false ↦ failed stmt prepared.1.statement (message (lib.errmsg handle w'.state)) w'
      ]

  abbrev pub eval_query :
      ℕ → ℕ → Db → Option (List ℕ) → Option Argument → World S → Stepped (World S) Answer
  eval_query r f db none params w = (w, err wrong_argument)
  eval_query r f db (some query) params w =
      if has_null query
      then (w, err (message (codes "cannot have embedded NULL in sql statememts")))
      else eval_loop r f db.handle params query none w

  unfoldable pub sql_eval : ℕ → ℕ → List Argument → World S → Stepped (World S) Answer
  unfolding eval_loop has_null
  sql_eval r f (db ∷ query ∷ []) w =
      with_connection db w (λ db'. eval_query r f db' (query_text query) none w)
  sql_eval r f (db ∷ query ∷ params ∷ []) w =
      with_connection db w (λ db'. eval_query r f db' (query_text query) (some params) w)
  sql_eval r f _ w = (w, err wrong_arity)

  unfoldable pub sql_last_insert_rowid : List Argument → World S → Stepped (World S) Answer
  sql_last_insert_rowid (db ∷ []) w = with_connection db w (λ db'.
      (w, ok (value (number (janet.wrap_double (lib.last_insert_rowid db'.handle w.state))))))
  sql_last_insert_rowid _ w = (w, err wrong_arity)

  unfoldable pub sql_error_code : List Argument → World S → Stepped (World S) Answer
  sql_error_code (db ∷ []) w =
      with_connection db w
        (λ db'. (w, ok (value (number (janet.wrap_integer (lib.errcode db'.handle w.state))))))
  sql_error_code _ w = (w, err wrong_arity)
