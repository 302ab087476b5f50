-- ===== src/Sql/Connection.antt =====
-- sqlite3/main.c: `closedb`, `sql_open`, `sql_close`, `sql_eval` and the functions beside them.
use puny_gui.Prelude.{
  until_nul, ℕ, suc, Bool, true, false, List, [], ◌∷◌, Option, none, some, ◌==◌, if◌then◌else◌,
}
use puny_gui.Json.Value.{Value, nil, string}
use puny_gui.Json.Result.{ok, err}
use puny_gui.Sql.Library.{Library, wrong_arity, wrong_argument, message, sqlite_ok, Stepped}

pub record Db : Type 0 where
  pub handle : ℕ
  pub closed : Bool

-- The calls that open or close something, the latest one first.
pub data Call : Type 0 where
  was_prepared was_finalized was_closed : ℕ → Call

-- The state of the library, the connections that Janet holds, by number, and the calls so far.
pub record World (S : Type 0) : Type 0 where
  pub state : S
  pub dbs : ℕ → Option Db
  pub next_db : ℕ
  pub calls : List Call

-- An argument: a connection, or another value.
pub data Argument : Type 0 where
  connection : ℕ → Argument
  value : Value → Argument

pub data Answer : Type 0 where
  connection : ℕ → Answer
  value : Value → Answer
  rows : List Value → Answer

abbrev pub stored : ℕ → Db → (ℕ → Option Db) → ℕ → Option Db
stored a db dbs b = if b == a then some db else dbs b

module _ {S : Type 0} (lib : Library S) where
  abbrev pub close_found : ℕ → Option Db → World S → World S
  close_found a none w = w
  close_found a (some db) w = if db.closed then w else record w {
    state = lib.close_v2 db.handle w.state;
    dbs = stored a (record db { closed = true }) w.dbs;
    calls = was_closed db.handle ∷ w.calls;
  }

  unfoldable pub closedb : ℕ → World S → World S
  closedb a w = close_found a (w.dbs a) w

  abbrev pub opened : ℕ → World S → Stepped (World S) Answer
  opened handle w = (
    record w {
      dbs = stored w.next_db (record { handle = handle; closed = false }) w.dbs;
      next_db = suc w.next_db;
    },
    ok (connection w.next_db),
  )

  -- sqlite3_open gives a status and a connection.
  abbrev pub open_checked : World S → S × (ℕ × ℕ) → Stepped (World S) Answer
  open_checked w (s, (status, conn)) =
      if status == sqlite_ok
      then opened conn (record w { state = s })
      else (record w { state = s }, err (message (lib.errmsg conn s)))

  unfoldable pub sql_open : List Argument → World S → Stepped (World S) Answer
  sql_open (value (string filename) ∷ []) w =
      open_checked w (lib.open_file (until_nul filename) w.state)
  sql_open (a ∷ []) w = (w, err wrong_argument)
  sql_open _ w = (w, err wrong_arity)

  unfoldable pub sql_close : List Argument → World S → Stepped (World S) Answer
  unfolding closedb
  sql_close (connection a ∷ []) w = (closedb a w, ok (value nil))
  sql_close (value v ∷ []) w = (w, err wrong_argument)
  sql_close _ w = (w, err wrong_arity)

  -- gcsqlite, which the collector calls.
  unfoldable pub gcsqlite : ℕ → World S → World S × ℕ
  unfolding closedb
  gcsqlite a w = (closedb a w, 0)
