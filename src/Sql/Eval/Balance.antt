-- ===== src/Sql/Eval/Balance.antt =====
-- The statements that `sql_eval` prepares are finalized.
use puny_gui.Prelude.{
  ℕ, zero, suc, ◌+◌, ◌≤◌, ◌≡◌, true, false, List, [], ◌∷◌, Option, none, some, ◌==◌, if◌then◌else◌,
  arith, if_ind,
}
use puny_gui.Json.Result.{ok, err, out_of_fuel}
use puny_gui.Sql.Library.{Library, Janet, Panic, Stepped, message, sqlite_ok}
use puny_gui.Sql.Parameters.{has_null}
use puny_gui.Sql.Connection.{
  Db, Call, was_prepared, was_finalized, was_closed, World, Argument, Answer,
}
use puny_gui.Sql.Eval.{
  open_db, with_connection, noted, release, failed, or_fail, run_last, run_current, bind_next,
  eval_round, prepared_world, eval_loop, eval_query, query_text, sql_eval,
}

abbrev holds : ℕ → Option ℕ → ℕ
holds n none = 0
holds n (some m) = if n == m then 1 else 0

-- How often a statement was prepared and finalized.
abbrev pub preparations : ℕ → List Call → ℕ
preparations n [] = 0
preparations n (was_prepared m ∷ calls) = holds n (some m) + preparations n calls
preparations n (was_finalized m ∷ calls) = preparations n calls
preparations n (was_closed m ∷ calls) = preparations n calls

abbrev pub finalizations : ℕ → List Call → ℕ
finalizations n [] = 0
finalizations n (was_prepared m ∷ calls) = finalizations n calls
finalizations n (was_finalized m ∷ calls) = holds n (some m) + finalizations n calls
finalizations n (was_closed m ∷ calls) = finalizations n calls

-- The statements that are neither `a` nor `b` are finalized as often as they were prepared, and
-- these once less.
abbrev Owes : Option ℕ → Option ℕ → List Call → Type 0
Owes a b calls = (n : ℕ) → preparations n calls ≡ finalizations n calls + (holds n a + holds n b)

-- At no time was a statement finalized more often than it was prepared.
abbrev pub NeverAhead : List Call → Type 0
NeverAhead [] = Unit
NeverAhead (c ∷ calls) =
    ((n : ℕ) → finalizations n (c ∷ calls) ≤ preparations n (c ∷ calls)) × NeverAhead calls

abbrev pub IsBalanced : List Call → Type 0
IsBalanced calls = NeverAhead calls × ((n : ℕ) → preparations n calls ≡ finalizations n calls)

abbrev Kept : Option ℕ → Option ℕ → List Call → Type 0
Kept a b calls = NeverAhead calls × Owes a b calls

-- Whatever is returned or thrown, nothing is left over.
abbrev pub LeavesBalanced : {S : Type 0} → Stepped (World S) Answer → Type 0
LeavesBalanced (w, ok a) = IsBalanced w.calls
LeavesBalanced (w, err e) = IsBalanced w.calls
LeavesBalanced (w, out_of_fuel) = Unit

module _ {S : Type 0} (lib : Library S) (janet : Janet) where
  release-Kept :
      (a b : Option ℕ) (w : World S) → Kept a b w.calls → Kept none b (release lib janet a w).calls
  release-Kept none b w h = h
  release-Kept (some m) b w h = (((λ n. omega (arith, h.1 n)), h.0), λ n. omega (arith, h.1 n))

  release_next-Kept :
      (b : Option ℕ) (w : World S) → Kept none b w.calls → IsBalanced (release lib janet b w).calls
  release_next-Kept none w h = (h.0, λ n. omega (arith, h.1 n))
  release_next-Kept (some m) w h = (((λ n. omega (arith, h.1 n)), h.0), λ n. omega (arith, h.1 n))

  failed-LeavesBalanced :
      (a b : Option ℕ) (e : Panic) (w : World S)
      → Kept a b w.calls
      → LeavesBalanced (failed lib janet a b e w)
  failed-LeavesBalanced a b e w h =
      release_next-Kept b (release lib janet a w) (release-Kept a b w h)

  or_fail-LeavesBalanced :
      {A : Type 0} (a b : Option ℕ) (r : Stepped (World S) A)
      (k : A → World S → Stepped (World S) Answer)
      → Kept a b r.0.calls
      → ((x : A) (w : World S) → Kept a b w.calls → LeavesBalanced (k x w))
      → LeavesBalanced (or_fail lib janet a b r k)
  or_fail-LeavesBalanced a b (w, ok x) k h g = g x w h
  or_fail-LeavesBalanced a b (w, err e) k h g = failed-LeavesBalanced a b e w h
  or_fail-LeavesBalanced a b (w, out_of_fuel) k h g = tt

  run_last-Kept :
      (f : ℕ) (a b : Option ℕ) (w : World S)
      → Kept a b w.calls
      → Kept a b (run_last lib janet f a w).0.calls
  run_last-Kept f none b w h = h
  run_last-Kept f (some n) b w h = h

  run_current-Kept :
      (f : ℕ) (a b : Option ℕ) (w : World S)
      → Kept a b w.calls
      → Kept a b (run_current lib janet f a w).0.calls
  run_current-Kept f none b w h = h
  run_current-Kept f (some n) b w h = h

  bind_next-Kept :
      (params : Option Argument) (m : ℕ) (a b : Option ℕ) (w : World S)
      → Kept a b w.calls
      → Kept a b (bind_next lib janet params m w).0.calls
  bind_next-Kept none m a b w h = h
  bind_next-Kept (some p) m a b w h = h

  -- The next statement is the current one of the round behind.
  release-Rotates :
      (a : Option ℕ) (m : ℕ) (w : World S)
      → Kept a (some m) w.calls
      → Kept (some m) none (release lib janet a w).calls
  release-Rotates a m w h =
      let kept = release-Kept a (some m) w h in (kept.0, λ n. omega (arith, kept.1 n))

  eval_round-LeavesBalanced :
      (f : ℕ) (params : Option Argument) (a b : Option ℕ)
      (more : Option ℕ → World S → Stepped (World S) Answer) (w : World S)
      → Kept a b w.calls
      → ((c : Option ℕ) (w' : World S) → Kept c none w'.calls → LeavesBalanced (more c w'))
      → LeavesBalanced (eval_round lib janet f params a b more w)
  unfolding eval_round
  eval_round-LeavesBalanced f params a none more w h g =
      or_fail-LeavesBalanced a none (run_last lib janet f a w) _ (run_last-Kept f a none w h)
        λ rs w' kept. release_next-Kept none (release lib janet a w') (release-Kept a none w' kept)
  eval_round-LeavesBalanced f params a (some m) more w h g =
      or_fail-LeavesBalanced a (some m) (run_current lib janet f a w) _
        (run_current-Kept f a (some m) w h)
        λ _ w' kept.
          or_fail-LeavesBalanced a (some m) (bind_next lib janet params m w') _
            (bind_next-Kept params m a (some m) w' kept)
            λ _ w'' kept'. g (some m) (release lib janet a w'') (release-Rotates a m w'' kept')

  noted-Kept : (a b : Option ℕ) (calls : List Call) → Kept a none calls → Kept a b (noted b calls)
  noted-Kept a none calls h = h
  noted-Kept a (some m) calls h = (((λ n. omega (arith, h.1 n)), h.0), λ n. omega (arith, h.1 n))

  eval_loop-LeavesBalanced :
      (r f handle : ℕ) (params : Option Argument) (c : List ℕ) (a : Option ℕ) (w : World S)
      → Kept a none w.calls
      → LeavesBalanced (eval_loop lib janet r f handle params c a w)
  unfolding eval_loop
  eval_loop-LeavesBalanced zero f handle params c a w h = tt
  eval_loop-LeavesBalanced (suc r) f handle params c a w h =
      let p = lib.prepare_v2 handle c w.state in
      let w' = prepared_world lib janet w p in
      let kept = noted-Kept a p.1.statement w.calls h in
      elim (p.1.status == sqlite_ok)
        as (λ b. LeavesBalanced (elim b [
          | true ↦
              eval_round lib janet f params a p.1.statement
                (eval_loop lib janet r f handle params p.1.tail) w'
          | false ↦ failed lib janet a p.1.statement (message (lib.errmsg handle w'.state)) w'
        ])) [
          | true ↦
              eval_round-LeavesBalanced f params a p.1.statement _ w' kept
                λ c' w'' k. eval_loop-LeavesBalanced r f handle params p.1.tail c' w'' k
          | false ↦
              failed-LeavesBalanced a p.1.statement (message (lib.errmsg handle w'.state)) w' kept
        ]

  eval_query-LeavesBalanced :
      (r f : ℕ) (db : Db) (query : Option (List ℕ)) (params : Option Argument) (w : World S)
      → IsBalanced w.calls
      → LeavesBalanced (eval_query lib janet r f db query params w)
  eval_query-LeavesBalanced r f db none params w h = h
  eval_query-LeavesBalanced r f db (some query) params w h =
      if_ind LeavesBalanced (has_null query) (λ e. h)
        (λ e.
          eval_loop-LeavesBalanced r f db.handle params query none w
            (h.0, λ n. omega (arith, h.1 n)))

  with_connection-LeavesBalanced :
      (db : Argument) (w : World S) (k : Db → Stepped (World S) Answer)
      → IsBalanced w.calls
      → ((d : Db) → LeavesBalanced (k d))
      → LeavesBalanced (with_connection db w k)
  with_connection-LeavesBalanced (Argument.value v) w k h g = h
  with_connection-LeavesBalanced (Argument.connection a) w k h g = go (w.dbs a)
    where
      go : (o : Option Db) → LeavesBalanced (open_db o w k)
      go none = h
      go (some db) = if_ind LeavesBalanced db.closed (λ e. h) (λ e. g db)

-- Where statements were finalized as often as they were prepared, and at no time more often,
-- `sql_eval` leaves this so for every statement, whatever the library answers, whether it
-- returns rows or throws an error of its arguments, of the preparation, of the parameters or of
-- a step.
pub sql_eval-LeavesBalanced :
    {S : Type 0} (lib : Library S) (janet : Janet) (r f : ℕ) (args : List Argument) (w : World S)
    → IsBalanced w.calls
    → LeavesBalanced (sql_eval lib janet r f args w)
unfolding sql_eval
sql_eval-LeavesBalanced lib janet r f [] w h = h
sql_eval-LeavesBalanced lib janet r f (db ∷ []) w h = h
sql_eval-LeavesBalanced lib janet r f (db ∷ query ∷ []) w h =
    with_connection-LeavesBalanced lib janet db w _ h
      λ d. eval_query-LeavesBalanced lib janet r f d (query_text query) none w h
sql_eval-LeavesBalanced lib janet r f (db ∷ query ∷ params ∷ []) w h =
    with_connection-LeavesBalanced lib janet db w _ h
      λ d. eval_query-LeavesBalanced lib janet r f d (query_text query) (some params) w h
sql_eval-LeavesBalanced lib janet r f (db ∷ query ∷ params ∷ more ∷ rest) w h = h
