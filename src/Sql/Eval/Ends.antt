-- ===== src/Sql/Eval/Ends.antt =====
-- The end of the loops of `sql_eval`, for a library whose statements give finitely many rows.
use puny_gui.Prelude.{
  ℕ, zero, suc, ◌+◌, ◌≤◌, ◌<◌, ◌≡◌, refl, true, false, List, [], Option, none, some, length, ◌==◌,
  arith, if_ind, Bool-cases, inl, inr, ltb, ◌||◌,
}
use puny_gui.Json.Value.{
  Value, Items, Slots, no_items, item, no_slots, slot, string, struct, nil, other, boolean, number,
  symbol, keyword, buffer, array, tuple, table,
}
use puny_gui.Json.Result.{Result, ok, err, out_of_fuel}
use puny_gui.Sql.Library.{
  Library, Janet, Panic, Stepped, message, sqlite_ok, sqlite_row, sqlite_done, Bound, and_then,
}
use puny_gui.Sql.Parameters.{
  has_null, bound_text, bound_of, bind_bound, bind1, bind_items, key_index, bind_slot, bind_slots,
  item_count, bind_sequence, bindmany,
}
use puny_gui.Sql.Rows.{execute, collect, execute_collect, ended}
use puny_gui.Sql.Connection.{World, Argument, Answer}
use puny_gui.Sql.Eval.{
  on_state, failed, release, or_fail, run_last, run_current, bind_next, eval_round, prepared_world,
  parameter, eval_loop,
}

-- A statement gives at most `limit` rows: each one lowers what is left.
pub record StepsEnd {S : Type 0} (lib : Library S) (limit : ℕ) : Type 0 where
  pub left : ℕ → S → ℕ
  pub within : (n : ℕ) (s : S) → left n s ≤ limit
  pub falls : (n : ℕ) (s : S) → (lib.step n s).1 ≡ sqlite_row → left n (lib.step n s).0 < left n s

-- Where there is a statement, the text behind it is shorter.
pub record PrepareAdvances {S : Type 0} (lib : Library S) : Type 0 where
  pub advances :
      (h : ℕ) (c : List ℕ) (s : S) (n : ℕ)
      → (lib.prepare_v2 h c s).1.statement ≡ some n
      → length (lib.prepare_v2 h c s).1.tail < length c

abbrev pub Comes : {S A : Type 0} → Stepped S A → Type 0
Comes (s, ok a) = Unit
Comes (s, err e) = Unit
Comes (s, out_of_fuel) = ⊥

module _ {S : Type 0} (lib : Library S) (janet : Janet) where
  ended-Comes : {A : Type 0} (n : ℕ) (a : A) (s : S) (status : ℕ) → Comes (ended lib n a s status)
  ended-Comes n a s status = if_ind (λ r. Comes (s, r)) (status == sqlite_done) (λ e. tt) (λ e. tt)

  and_then-Comes :
      {A B : Type 0} (r : Stepped S A) (k : A → S → Stepped S B)
      → Comes r
      → ((a : A) (s : S) → Comes (k a s))
      → Comes (and_then r k)
  and_then-Comes (s, ok a) k c h = h a s
  and_then-Comes (s, err e) k c h = tt
  and_then-Comes (s, out_of_fuel) k c h = absurd c

  execute-Comes :
      (limit : ℕ) (ends : StepsEnd lib limit) (f n : ℕ) (s : S)
      → ends.left n s < f
      → Comes (execute lib n f s)
  unfolding execute
  execute-Comes limit ends zero n s h = absurd (omega arith)
  execute-Comes limit ends (suc f) n s h = elim (Bool-cases ((lib.step n s).1 == sqlite_row)) [
    | inl row ↦
        rw (execute, row)
          (execute-Comes limit ends f n (lib.step n s).0
            (omega (arith, ends.falls n s (ground arith))))
    | inr end ↦ rw (execute, end) (ended-Comes n tt (lib.step n s).0 (lib.step n s).1)
  ]

  collect-Comes :
      (limit : ℕ) (ends : StepsEnd lib limit) (f n : ℕ) (names out : List Value) (s : S)
      → ends.left n s < f
      → Comes (collect lib n f janet names out s)
  unfolding collect
  collect-Comes limit ends zero n names out s h = absurd (omega arith)
  collect-Comes limit ends (suc f) n names out s h =
      elim (Bool-cases ((lib.step n s).1 == sqlite_row)) [
        | inl row ↦
            rw (collect, row)
              (collect-Comes limit ends f n names _ (lib.step n s).0
                (omega (arith, ends.falls n s (ground arith))))
        | inr end ↦ rw (collect, end) (ended-Comes n out (lib.step n s).0 (lib.step n s).1)
      ]

  bind_bound-Comes :
      (n i : ℕ) (b : Result Panic Bound) (s : S)
      → (¬ (b ≡ out_of_fuel))
      → Comes (bind_bound lib janet n i b s)
  bind_bound-Comes n i (ok b) s h =
      if_ind (λ r. Comes ((lib.bind n i b s).0, r)) ((lib.bind n i b s).1 == sqlite_ok) (λ e. tt)
        (λ e. tt)
  bind_bound-Comes n i (err e) s h = tt
  bind_bound-Comes n i out_of_fuel s h = absurd (h refl)

  abbrev Decides : Result Panic Bound → Type 0
  Decides r = ¬ (r ≡ out_of_fuel)

  bound_text-Decides : (t : List ℕ) → Decides (bound_text t)
  bound_text-Decides t = if_ind Decides (has_null t) (λ e. λ h. cc) (λ e. λ h. cc)

  bound_of-Decides : (v : Value) → Decides (bound_of janet v)
  unfolding bound_of
  bound_of-Decides nil = λ h. cc
  bound_of-Decides (boolean b) = λ h. cc
  bound_of-Decides (number x) = λ h. cc
  bound_of-Decides (string t) = bound_text-Decides t
  bound_of-Decides (symbol t) = bound_text-Decides t
  bound_of-Decides (keyword t) = bound_text-Decides t
  bound_of-Decides (buffer t) = λ h. cc
  bound_of-Decides (array xs) = λ h. cc
  bound_of-Decides (tuple xs) = λ h. cc
  bound_of-Decides (table kvs) = λ h. cc
  bound_of-Decides (struct kvs) = λ h. cc
  bound_of-Decides other = λ h. cc

  bind1-Comes : (n i : ℕ) (v : Value) (s : S) → Comes (bind1 lib janet n i v s)
  unfolding bind1
  bind1-Comes n i v s = bind_bound-Comes n i (bound_of janet v) s (bound_of-Decides v)

  bind_items-Comes : (n i : ℕ) (xs : Items) (s : S) → Comes (bind_items lib janet n i xs s)
  unfolding bind_items
  bind_items-Comes n i no_items s = tt
  bind_items-Comes n i (item x xs) s =
      and_then-Comes (bind1 lib janet n (i + 1) x s) _ (bind1-Comes n (i + 1) x s)
        λ _ s'. bind_items-Comes n (i + 1) xs s'

  bind_slot-Comes :
      (n limit : ℕ) (v : Value) (index : Option ℕ) (more : S → Stepped S Unit) (s : S)
      → ((s' : S) → Comes (more s'))
      → Comes (bind_slot lib janet n limit v index more s)
  bind_slot-Comes n limit v none more s h = h s
  bind_slot-Comes n limit v (some index) more s h =
      if_ind Comes (index == 0 || ltb limit index) (λ e. tt)
        (λ e. and_then-Comes (bind1 lib janet n index v s) _ (bind1-Comes n index v s) λ _ s'. h s')

  bind_slots-Comes :
      (n limit : ℕ) (kvs : Slots) (s : S) → Comes (bind_slots lib janet n limit kvs s)
  unfolding bind_slots
  bind_slots-Comes n limit no_slots s = tt
  bind_slots-Comes n limit (slot k v kvs) s =
      bind_slot-Comes n limit v (key_index lib janet n k s) (bind_slots lib janet n limit kvs) s
        (bind_slots-Comes n limit kvs)

  bind_sequence-Comes : (n : ℕ) (xs : Items) (s : S) → Comes (bind_sequence lib janet n xs s)
  bind_sequence-Comes n xs s =
      if_ind Comes (ltb (lib.bind_parameter_count n s + 1) (item_count xs)) (λ e. tt)
        (λ e. bind_items-Comes n 0 xs s)

  bindmany-Comes : (n : ℕ) (v : Value) (s : S) → Comes (bindmany lib janet n v s)
  unfolding bindmany
  bindmany-Comes n (array xs) s = bind_sequence-Comes n xs s
  bindmany-Comes n (tuple xs) s = bind_sequence-Comes n xs s
  bindmany-Comes n (table kvs) s = bind_slots-Comes n (lib.bind_parameter_count n s) kvs s
  bindmany-Comes n (struct kvs) s = bind_slots-Comes n (lib.bind_parameter_count n s) kvs s
  bindmany-Comes n nil s = tt
  bindmany-Comes n (boolean b) s = tt
  bindmany-Comes n (number x) s = tt
  bindmany-Comes n (string t) s = tt
  bindmany-Comes n (symbol t) s = tt
  bindmany-Comes n (keyword t) s = tt
  bindmany-Comes n (buffer t) s = tt
  bindmany-Comes n other s = tt

  on_state-Comes : {A : Type 0} (w : World S) (r : Stepped S A) → Comes r → Comes (on_state w r)
  on_state-Comes w (s, ok a) h = tt
  on_state-Comes w (s, err e) h = tt
  on_state-Comes w (s, out_of_fuel) h = h

  or_fail-Comes :
      {A : Type 0} (a b : Option ℕ) (r : Stepped (World S) A)
      (k : A → World S → Stepped (World S) Answer)
      → Comes r
      → ((x : A) (w : World S) → Comes (k x w))
      → Comes (or_fail lib janet a b r k)
  or_fail-Comes a b (w, ok x) k c h = h x w
  or_fail-Comes a b (w, err e) k c h = tt
  or_fail-Comes a b (w, out_of_fuel) k c h = absurd c

  module _ (limit : ℕ) (ends : StepsEnd lib limit) (f : ℕ) (enough : limit < f) where
    run_last-Comes : (a : Option ℕ) (w : World S) → Comes (run_last lib janet f a w)
    unfolding execute_collect
    run_last-Comes none w = tt
    run_last-Comes (some n) w =
        on_state-Comes w (execute_collect lib n f janet [] w.state)
          (collect-Comes limit ends f n _ [] w.state (omega (arith, ends.within n w.state)))

    run_current-Comes : (a : Option ℕ) (w : World S) → Comes (run_current lib janet f a w)
    run_current-Comes none w = tt
    run_current-Comes (some n) w =
        on_state-Comes w (execute lib n f w.state)
          (execute-Comes limit ends f n w.state (omega (arith, ends.within n w.state)))

    bind_next-Comes :
        (params : Option Argument) (n : ℕ) (w : World S) → Comes (bind_next lib janet params n w)
    bind_next-Comes none n w = tt
    bind_next-Comes (some p) n w =
        on_state-Comes w (bindmany lib janet n (parameter p) w.state)
          (bindmany-Comes n (parameter p) w.state)

    eval_round-Comes :
        (params : Option Argument) (a b : Option ℕ)
        (more : Option ℕ → World S → Stepped (World S) Answer) (w : World S)
        → ((m : ℕ) → b ≡ some m → (w' : World S) → Comes (more (some m) w'))
        → Comes (eval_round lib janet f params a b more w)
    unfolding eval_round
    eval_round-Comes params a none more w h =
        or_fail-Comes a none (run_last lib janet f a w) _ (run_last-Comes a w) λ rs w'. tt
    eval_round-Comes params a (some m) more w h =
        or_fail-Comes a (some m) (run_current lib janet f a w) _ (run_current-Comes a w) λ _ w'.
          or_fail-Comes a (some m) (bind_next lib janet params m w') _ (bind_next-Comes params m w')
            λ _ w''. h m refl (release lib janet a w'')

    pub eval_loop-Comes :
        (advance : PrepareAdvances lib) (r handle : ℕ) (params : Option Argument) (c : List ℕ)
        (a : Option ℕ) (w : World S)
        → length c < r
        → Comes (eval_loop lib janet r f handle params c a w)
    unfolding eval_loop
    eval_loop-Comes advance zero handle params c a w h = absurd (omega arith)
    eval_loop-Comes advance (suc r) handle params c a w h =
        let p = lib.prepare_v2 handle c w.state in
        let w' = prepared_world lib janet w p in
        elim (p.1.status == sqlite_ok)
          as (λ b. Comes (elim b [
            | true ↦
                eval_round lib janet f params a p.1.statement
                  (eval_loop lib janet r f handle params p.1.tail) w'
            | false ↦ failed lib janet a p.1.statement (message (lib.errmsg handle w'.state)) w'
          ])) [
            | true ↦ eval_round-Comes params a p.1.statement _ w' λ m e w''.
                eval_loop-Comes advance r handle params p.1.tail (some m) w''
                  (omega (arith, advance.advances handle c w.state m e))
            | false ↦ tt
          ]
