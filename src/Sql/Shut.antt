-- ===== src/Sql/Shut.antt =====
-- A connection behind `sql_close`.
use puny_gui.Prelude.{
  ℕ, ◌≡◌, refl, sym, subst, ap, true, [], ◌∷◌, Option, some, ◌==◌, codes, arith, Bool-cases, inl,
  inr,
}
use puny_gui.Json.Value.{nil}
use puny_gui.Json.Result.{ok, err}
use puny_gui.Sql.Library.{Library, Janet, message, Stepped}
use puny_gui.Sql.Connection.{
  Db, World, Argument, Answer, stored, close_found, closedb, gcsqlite, sql_close,
}
use puny_gui.Sql.Eval.{with_connection, sql_eval, sql_last_insert_rowid, sql_error_code}

abbrev already_closed : {S : Type 0} → World S → Stepped (World S) Answer
already_closed w = (w, err (message (codes "database already closed")))

-- Closing does nothing more, and every other function refuses the connection.
pub record IsShut {S : Type 0} (lib : Library S) (janet : Janet) (a : ℕ) (w : World S)
    : Type 0 where
  pub close_again : sql_close lib (Argument.connection a ∷ []) w ≡ (w, ok (Answer.value nil))
  pub collected : gcsqlite lib a w ≡ (w, 0)
  pub no_eval :
      (r f : ℕ) (query : Argument)
      → sql_eval lib janet r f (Argument.connection a ∷ query ∷ []) w ≡ already_closed w
  pub no_eval_with :
      (r f : ℕ) (query params : Argument)
      → sql_eval lib janet r f (Argument.connection a ∷ query ∷ params ∷ []) w ≡ already_closed w
  pub no_rowid : sql_last_insert_rowid lib janet (Argument.connection a ∷ []) w ≡ already_closed w
  pub no_error_code : sql_error_code lib janet (Argument.connection a ∷ []) w ≡ already_closed w

module _ {S : Type 0} (lib : Library S) (janet : Janet) (a : ℕ) where
  closed_again :
      (w : World S) (db : Db) → w.dbs a ≡ some db → db.closed ≡ true → closedb lib a w ≡ w
  unfolding closedb
  closed_again w db h c = rw (closedb, h, c) refl

  refused :
      (w : World S) (db : Db) (k : Db → Stepped (World S) Answer)
      → w.dbs a ≡ some db
      → db.closed ≡ true
      → with_connection (Argument.connection a) w k ≡ already_closed w
  refused w db k h c = rw (h, c) refl

  closed-IsShut :
      (w : World S) (db : Db) → w.dbs a ≡ some db → db.closed ≡ true → IsShut lib janet a w
  unfolding gcsqlite sql_close sql_eval sql_last_insert_rowid sql_error_code
  closed-IsShut w db h c = record {
    close_again = ap (λ w'. (w', ok (Answer.value nil))) (closed_again w db h c);
    collected = ap (λ w'. (w', 0)) (closed_again w db h c);
    no_eval = λ r f query. refused w db _ h c;
    no_eval_with = λ r f query params. refused w db _ h c;
    no_rowid = refused w db _ h c;
    no_error_code = refused w db _ h c;
  }

  stored_here : (db : Db) (dbs : ℕ → Option Db) → stored a db dbs a ≡ some db
  stored_here db dbs = let same : (a == a) ≡ true = ground arith in rw same refl

  found-IsShut :
      (w : World S) (db : Db)
      → w.dbs a ≡ some db
      → IsShut lib janet a (close_found lib a (some db) w)
  found-IsShut w db h = elim (Bool-cases db.closed) [
    | inl shut ↦ rw shut (closed-IsShut w db h shut)
    | inr still ↦ rw still (
        closed-IsShut _ (record db { closed = true })
          (stored_here (record db { closed = true }) w.dbs) refl)
  ]

  -- Behind `sql_close` of a connection, closing it again or collecting it changes nothing, and
  -- `sql_eval`, `sql_last_insert_rowid` and `sql_error_code` refuse it as closed and change
  -- nothing, whatever their other arguments.
  pub sql_close-IsShut :
      (w : World S) (db : Db)
      → w.dbs a ≡ some db
      → IsShut lib janet a (sql_close lib (Argument.connection a ∷ []) w).0
  unfolding sql_close closedb
  sql_close-IsShut w db h =
      subst (λ o. IsShut lib janet a (close_found lib a o w)) (sym h) (found-IsShut w db h)
