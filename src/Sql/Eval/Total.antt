-- ===== src/Sql/Eval/Total.antt =====
-- The end of `sql_eval`.
use puny_gui.Prelude.{ℕ, ◌<◌, List, [], ◌∷◌, Option, none, some, length, if_ind}
use puny_gui.Sql.Library.{Library, Janet, Stepped}
use puny_gui.Sql.Parameters.{has_null}
use puny_gui.Sql.Connection.{Db, World, Argument, Answer}
use puny_gui.Sql.Eval.{open_db, with_connection, eval_query, query_text, sql_eval}
use puny_gui.Sql.Eval.Ends.{StepsEnd, PrepareAdvances, Comes, eval_loop-Comes}

abbrev text_length : Option (List ℕ) → ℕ
text_length none = 0
text_length (some t) = length t

-- How long the text of the statements is.
abbrev pub query_length : List Argument → ℕ
query_length (db ∷ query ∷ rest) = text_length (query_text query)
query_length _ = 0

open_db-Comes :
    {S : Type 0} (o : Option Db) (w : World S) (k : Db → Stepped (World S) Answer)
    → ((d : Db) → Comes (k d))
    → Comes (open_db o w k)
open_db-Comes none w k h = tt
open_db-Comes (some db) w k h = if_ind Comes db.closed (λ e. tt) (λ e. h db)

with_connection-Comes :
    {S : Type 0} (db : Argument) (w : World S) (k : Db → Stepped (World S) Answer)
    → ((d : Db) → Comes (k d))
    → Comes (with_connection db w k)
with_connection-Comes (Argument.value v) w k h = tt
with_connection-Comes (Argument.connection a) w k h = open_db-Comes (w.dbs a) w k h

module _ {S : Type 0} (lib : Library S) (janet : Janet) (limit : ℕ) (ends : StepsEnd lib limit)
    (advance : PrepareAdvances lib) (r f : ℕ) (rounds : limit < f) where
  eval_query-Comes :
      (db : Db) (query : Option (List ℕ)) (params : Option Argument) (w : World S)
      → text_length query < r
      → Comes (eval_query lib janet r f db query params w)
  eval_query-Comes db none params w h = tt
  eval_query-Comes db (some query) params w h =
      if_ind Comes (has_null query) (λ e. tt)
        (λ e.
          eval_loop-Comes lib janet limit ends f rounds advance r db.handle params query none w h)

  -- For a library whose statements give a bounded number of rows and which takes some of the
  -- text for each statement, `sql_eval` returns or throws, with fuel above the length of the
  -- text for the statements and above that bound for the rows.
  pub sql_eval-Comes :
      (args : List Argument) (w : World S)
      → query_length args < r
      → Comes (sql_eval lib janet r f args w)
  unfolding sql_eval
  sql_eval-Comes [] w h = tt
  sql_eval-Comes (db ∷ []) w h = tt
  sql_eval-Comes (db ∷ query ∷ []) w h =
      with_connection-Comes db w _ λ d. eval_query-Comes d (query_text query) none w h
  sql_eval-Comes (db ∷ query ∷ params ∷ []) w h =
      with_connection-Comes db w _ λ d. eval_query-Comes d (query_text query) (some params) w h
  sql_eval-Comes (db ∷ query ∷ params ∷ more ∷ rest) w h = tt
