-- ===== src/Sql/Witnesses.antt =====
-- The theorems of sqlite3/main.c at a library whose statements are single bytes with one row each.
use puny_gui.Prelude.{
  ℕ, ◌≡◌, ◌<◌, ◌≤◌, refl, Bool, true, false, List, [], ◌∷◌, none, some, codes, ◌==◌, if◌then◌else◌,
  arith, length,
}
use puny_gui.Json.Value.{
  nil, number, string, array, struct, no_items, item, no_slots, slot, keyword,
}
use puny_gui.Json.Result.{ok, err}
use puny_gui.Sql.Library.{Library, Janet, Prepared, sql_integer, message}
use puny_gui.Sql.Connection.{World, Argument, rows, was_prepared, was_finalized, sql_close}
use puny_gui.Sql.Shut.{IsShut, sql_close-IsShut}
use puny_gui.Sql.Eval.{sql_eval}
use puny_gui.Sql.Eval.Balance.{IsBalanced, LeavesBalanced, sql_eval-LeavesBalanced}
use puny_gui.Sql.Eval.Ends.{StepsEnd, PrepareAdvances, Comes}
use puny_gui.Sql.Eval.Total.{sql_eval-Comes}

abbrev prepare_byte : List ℕ → Bool → Bool × Prepared
prepare_byte [] s = (s, record { status = 0; statement = none; tail = [] })
prepare_byte (c ∷ cs) s = (true, record { status = 0; statement = some c; tail = cs })

abbrev one_row : Bool → Bool × ℕ
one_row true = (false, 100)
one_row false = (false, 101)

-- The state tells whether a row is left.
abbrev bytewise : Library Bool
bytewise = record {
  open_file = λ name s. (s, (0, 7));
  close_v2 = λ h s. s;
  errmsg = λ h s. codes "error";
  errcode = λ h s. 0;
  last_insert_rowid = λ h s. 0;
  prepare_v2 = λ h c s. prepare_byte c s;
  finalize = λ n s. s;
  db_handle = λ n. 7;
  bind = λ n i b s. (s, if i == 1 then 0 else 25);
  bind_parameter_count = λ n s. 1;
  bind_parameter_index = λ n k s. 1;
  step = λ n s. one_row s;
  column_count = λ n s. 1;
  column_name = λ n i s. codes "x";
  column = λ n i s. sql_integer n;
}

abbrev plain_janet : Janet
plain_janet = record {
  unwrap_integer = λ v. 0;
  int_key = λ x. x;
  wrap_integer = λ n. n;
  wrap_double = λ n. n;
  struct_put = λ t k v. slot k v t;
}

abbrev opened_world : World Bool
opened_world = record {
  state = false;
  dbs = λ a. if a == 0 then some (record { handle = 7; closed = false }) else none;
  next_db = 1;
  calls = [];
}

abbrev two_statements : List Argument
two_statements =
    Argument.connection 0
    ∷ Argument.value (string (codes "ab"))
    ∷ Argument.value (array (item (number 5) no_items))
    ∷ []

-- A statement with one row.
one_row_back :
    (sql_eval bytewise plain_janet 9 9
      (Argument.connection 0 ∷ Argument.value (string (codes "b")) ∷ [])
      opened_world).1
    ≡ ok (rows (struct (slot (keyword (codes "x")) (number 98) no_slots) ∷ []))
unfolding sql_eval
one_row_back = refl

calls_made :
    (sql_eval bytewise plain_janet 9 9 two_statements opened_world).0.calls
    ≡ was_finalized 98 ∷ was_finalized 97 ∷ was_prepared 98 ∷ was_prepared 97 ∷ []
unfolding sql_eval
calls_made = refl

-- Two values for one parameter pass the check, and the library refuses the second.
one_too_many :
    (sql_eval bytewise plain_janet 9 9
      (Argument.connection 0
        ∷ Argument.value (string (codes "a"))
        ∷ Argument.value (array (item nil (item nil no_items)))
        ∷ [])
      opened_world).1
    ≡ err (message (codes "error"))
unfolding sql_eval
one_too_many = refl

opened_world-IsBalanced : IsBalanced opened_world.calls
opened_world-IsBalanced = (tt, λ n. refl)

sql_eval-LeavesBalanced_example :
    LeavesBalanced (sql_eval bytewise plain_janet 9 9 two_statements opened_world)
sql_eval-LeavesBalanced_example =
    sql_eval-LeavesBalanced bytewise plain_janet 9 9 two_statements opened_world
      opened_world-IsBalanced

abbrev rows_left : Bool → ℕ
rows_left true = 1
rows_left false = 0

rows_left-le : (s : Bool) → rows_left s ≤ 1
rows_left-le true = omega arith
rows_left-le false = omega arith

rows_fall : (s : Bool) → (one_row s).1 ≡ 100 → rows_left (one_row s).0 < rows_left s
rows_fall true h = omega arith
rows_fall false h = absurd (omega arith)

bytewise-StepsEnd : StepsEnd bytewise 1
bytewise-StepsEnd = record {
  left = λ n s. rows_left s;
  within = λ n s. rows_left-le s;
  falls = λ n s h. rows_fall s h;
}

byte_shorter :
    (c : List ℕ) (s : Bool) (n : ℕ)
    → (prepare_byte c s).1.statement ≡ some n
    → length (prepare_byte c s).1.tail < length c
byte_shorter [] s n h = cc
byte_shorter (c ∷ cs) s n h = omega arith

bytewise-PrepareAdvances : PrepareAdvances bytewise
bytewise-PrepareAdvances = record { advances = λ h c s n e. byte_shorter c s n e }

sql_eval-Comes_example : Comes (sql_eval bytewise plain_janet 9 9 two_statements opened_world)
sql_eval-Comes_example =
    sql_eval-Comes bytewise plain_janet 1 bytewise-StepsEnd bytewise-PrepareAdvances 9 9
      (omega arith) two_statements opened_world (omega arith)

sql_close-IsShut_example :
    IsShut bytewise plain_janet 0 (sql_close bytewise (Argument.connection 0 ∷ []) opened_world).0
sql_close-IsShut_example =
    sql_close-IsShut bytewise plain_janet 0 opened_world (record { handle = 7; closed = false })
      refl
