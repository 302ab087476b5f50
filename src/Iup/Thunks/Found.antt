-- ===== src/Iup/Thunks/Found.antt =====
-- What `call_thunk_N` finds among the thunks that were pushed.
use puny_gui.Prelude.{
  ℕ, ◌%◌, ◌^◌, ◌≡◌, refl, ap, ◌∙◌, sym, true, List, [], ◌∷◌, ◌++◌, append_assoc, append-nil, Option,
  none, some, ◌==◌, if◌then◌else◌, arith,
}
use puny_gui.Iup.Callbacks.{Gui, Library, Ending, crashed}
use puny_gui.Iup.Thunks.{
  Thunk, link_last, push_thunk, find_thunk, get_thunk_by_id, thunk_result, call_found, call_thunk_N,
}

-- Pushes of functions for widgets, in their order, with memory for each.
abbrev pub pushed : List (ℕ × ℕ) → List Thunk → Option (List Thunk)
pushed [] root_thunks = some root_thunks
pushed ((ih, f) ∷ rest) root_thunks = elim (push_thunk true (some f) ih root_thunks) [
  | none ↦ none
  | some thunks ↦ pushed rest thunks
]

-- The function of the first push for a widget, by 32 bits of its address, or else another one.
abbrev pub first_for : ℕ → List (ℕ × ℕ) → ℕ → ℕ
first_for ih [] last = last
first_for ih ((ih', f) ∷ rest) last =
    if ih' % 2 ^ 32 == ih % 2 ^ 32 then f else first_for ih rest last

abbrev node_of : ℕ × ℕ → Thunk
node_of (ih, f) = record { ih = ih; thunk = some f }

abbrev nodes_of : List (ℕ × ℕ) → List Thunk
nodes_of [] = []
nodes_of (p ∷ rest) = node_of p ∷ nodes_of rest

link_last-eq-append :
    (next : Thunk) (nodes : List Thunk) → link_last next nodes ≡ nodes ++ (next ∷ [])
unfolding link_last
link_last-eq-append next [] = refl
link_last-eq-append next (node ∷ rest) = ap (λ t. node ∷ t) (link_last-eq-append next rest)

pushed_lem :
    (ps : List (ℕ × ℕ)) (nodes : List Thunk) → pushed ps nodes ≡ some (nodes ++ nodes_of ps)
unfolding push_thunk
pushed_lem [] nodes = ap some (sym (append-nil nodes))
pushed_lem (p ∷ rest) nodes =
    pushed_lem rest (link_last (node_of p) nodes)
    ∙ ap some (
        ap (λ t. t ++ nodes_of rest) (link_last-eq-append (node_of p) nodes)
        ∙ append_assoc nodes (node_of p ∷ []) (nodes_of rest))

find_thunk_lem :
    (ih : ℕ) (p : ℕ × ℕ) (ps : List (ℕ × ℕ)) (l : ℕ × ℕ)
    → (find_thunk ih (node_of p) (nodes_of (ps ++ (l ∷ [])))).thunk
      ≡ some (first_for ih (p ∷ ps) l.1)
unfolding find_thunk
find_thunk_lem ih p [] l = ground arith
find_thunk_lem ih p (q ∷ ps) l = ground (arith, find_thunk_lem ih q ps l)

get_thunk_by_id_lem :
    (ih : ℕ) (ps : List (ℕ × ℕ)) (l : ℕ × ℕ)
    → get_thunk_by_id ih (nodes_of (ps ++ (l ∷ []))) ≡ some (some (first_for ih ps l.1))
unfolding get_thunk_by_id
get_thunk_by_id_lem ih [] l = refl
get_thunk_by_id_lem ih (p ∷ ps) l = rw (find_thunk_lem ih p ps l) refl

-- The callback for a widget behind such pushes.
abbrev pub called_after :
    {T W : Type 0} → Library T W → Gui T W → ℕ → Option (List Thunk) → Gui T W × Ending
called_after lib g ih none = (g, crashed)
called_after lib g ih (some thunks) = call_thunk_N lib g thunks ih

-- Behind pushes of functions, at least one of them and with memory for each, `call_thunk_N` for
-- a widget calls the function of the first push whose widget agrees with it in the low 32 bits
-- of the address, or else that of the last push.
pub call_thunk_N-pushed :
    {T W : Type 0} (lib : Library T W) (g : Gui T W) (ih : ℕ) (ps : List (ℕ × ℕ)) (l : ℕ × ℕ)
    → called_after lib g ih (pushed (ps ++ (l ∷ [])) [])
      ≡ thunk_result lib (lib.call (first_for ih ps l.1) [] g)
unfolding call_thunk_N
call_thunk_N-pushed lib g ih ps l =
    ap (called_after lib g ih) (pushed_lem (ps ++ (l ∷ [])) [])
    ∙ ap (call_found lib g) (get_thunk_by_id_lem ih ps l)
