-- ===== src/Shell/Store/Safe.antt =====
-- The calls of `line` and `janet_line_get` on the history, in their order, and `janet_line_deinit`.
use puny_gui.Prelude.{
  ℕ, zero, suc, ◌≤◌, ◌<◌, ◌≡◌, refl, ap, ◌∙◌, Bool, true, List, [], ◌∷◌, Option, none, some, arith,
  length, length-slice, slice, update, le→ltb_false, dec_lt,
}
use puny_gui.Shell.State.{history_max}
use puny_gui.Shell.History.{Delta}
use puny_gui.Shell.Store.{
  Store, ◌>>◌, move_line, free_entries, janet_line_deinit, Session, move_all, finished, run_session,
  run_sessions, no_history,
}
use puny_gui.Shell.Store.Owned.{Owned, Owned-split}
use puny_gui.Shell.Store.Contents.{shown, strings, length-shown}
use puny_gui.Shell.Store.Sound.{IsSound, Succeeds, freed, free_block_lem}
use puny_gui.Shell.Store.Adds.{add_lem}
use puny_gui.Shell.Store.Replaces.{finish_lem}
use puny_gui.Shell.Store.Moves.{moved_index-lt, move_lem}

module _ (malloc : ℕ → Bool) (serves : (n : ℕ) → malloc n ≡ true) where
  -- A move, where there is something to move to, and where there is not.
  move_line-Succeeds :
      (delta : Delta) (line : List ℕ) (s : Store)
      → IsSound s
      → s.index < s.count
      → Succeeds (λ t. IsSound t × (t.index < t.count)) (move_line malloc delta line s)
  unfolding move_line
  move_line-Succeeds delta line s h l = elim (dec_lt 1 s.count) [
    | yes many ↦
        let (t, e, (h', es, i)) = move_lem malloc serves delta line s h l many in
        let inside = moved_index-lt s.count s.index delta (omega arith) l in
        let n : length (shown t) ≡ s.count =
          ap length es ∙ length-slice (update (strings s) s.index (some line)) 0 s.count in
        let n' = length-shown t in (t, e, (h', omega arith))
    | no few ↦ (s, rw (move_line, le→ltb_false 1 s.count (omega arith)) refl, (h, l))
  ]

  -- The moves of a session.
  move_all-Succeeds :
      (moves : List (Delta × List ℕ)) (s : Store)
      → IsSound s
      → s.index < s.count
      → Succeeds (λ t. IsSound t × (t.index < t.count)) (move_all malloc moves s)
  move_all-Succeeds [] s h l = (s, refl, (h, l))
  move_all-Succeeds ((delta, line) ∷ rest) s h l =
      let (t, e, (h', l')) = move_line-Succeeds delta line s h l in
      let (u, e', h'') = move_all-Succeeds rest t h' l' in
      (u, ap (λ (o : Option Store). o >> move_all malloc rest) e ∙ e', h'')

  finished-Succeeds :
      (line : Option (List ℕ)) (s : Store)
      → IsSound s
      → 0 < s.count
      → Succeeds IsSound (finished malloc line s)
  finished-Succeeds none s h pos = (s, refl, h)
  finished-Succeeds (some line) s h pos =
      let (t, e, (h', es, i)) = finish_lem malloc serves line s h pos in (t, e, h')

  session-Succeeds :
      (session : Session) (s : Store) → IsSound s → Succeeds IsSound (run_session malloc session s)
  session-Succeeds session s h =
      let first : Store = record s { index = 0 } in
      let same : IsSound first = record {
        owned = h.owned;
        unborn = h.unborn;
        bounded = h.bounded;
      } in
      let (t, e, (h', es, i)) = add_lem malloc serves [] first same in
      let n = ap length es in
      let n' = length-shown t in
      let (u, e', (h'', l)) = move_all-Succeeds session.moves t h' (omega arith) in
      let (v, e'', h₃) = finished-Succeeds session.accepted u h'' (omega arith) in
      (
        v,
        ap
              (λ (o : Option Store).
                o >> λ t. move_all malloc session.moves t >> finished malloc session.accepted)
              e
            ∙ ap (λ (o : Option Store). o >> finished malloc session.accepted) e'
            ∙ e'',
        h₃,
      )

  sessions-Succeeds :
      (sessions : List Session) (s : Store)
      → IsSound s
      → Succeeds IsSound (run_sessions malloc sessions s)
  sessions-Succeeds [] s h = (s, refl, h)
  sessions-Succeeds (session ∷ rest) s h =
      let (t, e, h') = session-Succeeds session s h in
      let (u, e', h'') = sessions-Succeeds rest t h' in
      (u, ap (λ (o : Option Store). o >> run_sessions malloc rest) e ∙ e', h'')

-- All blocks are free.
abbrev pub IsEmpty : Store → Type 0
IsEmpty s = (a : ℕ) → s.blocks a ≡ none

free_entries-IsEmpty :
    (n i : ℕ) (s : Store)
    → Owned (slice s.cells i n) s.blocks
    → Succeeds IsEmpty (free_entries n i s)
unfolding free_entries
free_entries-IsEmpty zero i s h = (s, refl, h)
free_entries-IsEmpty (suc n) i s h =
    let (step, left) =
      free_block_lem (s.cells i) (slice s.cells (suc i) n) s
        (Owned-split [] (s.cells i) (slice s.cells (suc i) n) s.blocks h) in
    let (t, e, empty) =
      free_entries-IsEmpty n (suc i) (record s { blocks = freed (s.cells i) s.blocks }) left in
    (t, ap (λ (o : Option Store). o >> free_entries n (suc i)) step ∙ e, empty)

-- Where malloc serves every request: after any sequence of lines that were edited, each with
-- any moves through the history and accepted or given up, no pointer was read or freed that is
-- NULL or was freed before, the history holds no more than its bound, and `janet_line_deinit`
-- frees each entry once and leaves no block allocated.
pub janet_line_deinit-IsEmpty :
    (malloc : ℕ → Bool) (sessions : List Session)
    → ((n : ℕ) → malloc n ≡ true)
    → (s : Store) × (run_sessions malloc sessions no_history ≡ some s)
      × (s.count ≤ history_max)
      × Succeeds IsEmpty (janet_line_deinit s)
unfolding janet_line_deinit
janet_line_deinit-IsEmpty malloc sessions serves =
    let empty : IsSound no_history = record {
      owned = λ a. refl;
      unborn = λ a l. refl;
      bounded = omega arith;
    } in
    let (s, e, h) = sessions-Succeeds malloc serves sessions no_history empty in
    let (t, e', none_left) = free_entries-IsEmpty s.count 0 s h.owned in
    (
      s,
      e,
      h.bounded,
      (
        record t { index = 0 },
        ap (λ (o : Option Store). o >> λ t. some (record t { index = 0 })) e',
        none_left,
      ),
    )
