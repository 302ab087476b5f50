-- ===== src/Iup/Witnesses.antt =====
-- The theorems of iup_wrap.c at tables and widgets that are lists, and a function that registers
-- another one while it runs.
use puny_gui.Prelude.{
  ℕ, ◌+◌, ◌^◌, ◌≡◌, refl, ap₂, List, [], ◌∷◌, none, some, ◌⊎◌, inl, inr, ◌==◌, Bool, Bool-cases,
  true, false, ◌&&◌, if◌then◌else◌, arith, codes,
}
use puny_gui.Iup.Callbacks.{
  JanetValue, pointer, function, integer, string, other, Icallback, universal, foreign, Gui,
  Library, set_universal, result, iup_set_thunk_callback, janet_iup_universal_cb,
}
use puny_gui.Iup.Runs.{Registration, IsLawful, Run, idle, calls, delivers, latest_answers}
use puny_gui.Iup.Thunks.{thunk_result}
use puny_gui.Iup.Thunks.Found.{pushed, called_after, call_thunk_N-pushed}

abbrev same_name : List ℕ → List ℕ → Bool
same_name [] [] = true
same_name (a ∷ xs) (b ∷ ys) = (a == b) && same_name xs ys
same_name _ _ = false

same_name_lem : (xs ys : List ℕ) → same_name xs ys ≡ true → xs ≡ ys
same_name_lem [] [] e = refl
same_name_lem [] (b ∷ ys) e = cc
same_name_lem (a ∷ xs) [] e = cc
same_name_lem (a ∷ xs) (b ∷ ys) e = ap₂ ◌∷◌ (ground arith) (same_name_lem xs ys (ground arith))

same_name_self : (xs : List ℕ) → same_name xs xs ≡ true
same_name_self [] = refl
same_name_self (a ∷ xs) = ground (arith, same_name_self xs)

-- A table by its function, and the widgets by theirs.
abbrev Table : Type 0
Table = ℕ → JanetValue

abbrev Widgets : Type 0
Widgets = ℕ → List ℕ → Icallback

abbrev with_callback : Widgets → ℕ → List ℕ → Icallback → Widgets
with_callback w ih name cb ih' name' =
    if (ih == ih') && same_name name name' then cb else w ih' name'

abbrev quiet : Library Table Widgets
quiet = record {
  new_table = λ ih. other;
  put = λ t ih f ih'. if ih == ih' then function f else t ih';
  get = λ t ih. t ih;
  unwrap_integer = λ v. 0;
  call = λ f args g. (g, none);
  set_callback = λ w ih name cb. (with_callback w ih name cb, w ih name);
  get_callback = λ w ih name. w ih name;
  get_attribute = λ w ih name. none;
  address = λ cb. 0;
}

-- The function 7 registers the function 8 for the widget that it is called for.
abbrev toolkit : Library Table Widgets
toolkit = record quiet {
  call = λ f args g.
      if f == 7
      then ((set_universal quiet g 1 (codes "K_ANY") 8).0, some other)
      else (g, some other);
}

with_callback_other :
    (w : Widgets) (ih : ℕ) (name : List ℕ) (cb : Icallback) (ih' : ℕ) (name' : List ℕ)
    → ((ih ≡ ih') × (name ≡ name')) ⊎ (with_callback w ih name cb ih' name' ≡ w ih' name')
with_callback_other w ih name cb ih' name' = elim (Bool-cases (ih == ih')) [
  | inl p ↦ elim (Bool-cases (same_name name name')) [
    | inl q ↦ inl (ground arith, same_name_lem name name' q)
    | inr q ↦ inr (rw (p, q) refl)
  ]
  | inr p ↦ inr (rw p refl)
]

put_other : (t : Table) (ih f ih' : ℕ) → (ih ≡ ih') ⊎ (toolkit.get (toolkit.put t ih f) ih' ≡ t ih')
put_other t ih f ih' = elim (Bool-cases (ih == ih')) [
  | inl p ↦ inl (ground arith)
  | inr p ↦ inr (rw p refl)
]

toolkit-IsLawful : IsLawful toolkit
toolkit-IsLawful = record {
  get-put = λ t ih f. ground arith;
  get-put_other = put_other;
  get_callback-set = λ w ih name cb. ground (arith, same_name_self name);
  get_callback-set_other = with_callback_other;
}

-- A window without callbacks, a call that gives one to its event ACTION, that event, whose
-- function gives one to K_ANY, and then the event ACTION once more.
abbrev window : Gui Table Widgets
window = record { cbs = none; widgets = λ ih name. foreign 0 }

abbrev for_action : List JanetValue
for_action = pointer 1 ∷ string (codes "ACTION") ∷ function 7 ∷ []

abbrev for_any_key : List JanetValue
for_any_key = pointer 1 ∷ string (codes "K_ANY") ∷ function 8 ∷ []

abbrev set_up : Gui Table Widgets
set_up = (iup_set_thunk_callback toolkit window for_action).0

abbrev clicked : Gui Table Widgets
clicked = (janet_iup_universal_cb toolkit set_up 1 0).0

abbrev registrations : List Registration
registrations =
    record { ih = 1; name = codes "K_ANY"; thunk = 8 }
    ∷ record { ih = 1; name = codes "ACTION"; thunk = 7 }
    ∷ []

click : Run toolkit window registrations clicked
unfolding iup_set_thunk_callback janet_iup_universal_cb
click = delivers (calls idle for_action) 1 (codes "ACTION") 0 refl (calls idle for_any_key)

latest_answers_example :
    (clicked.widgets 1 (codes "ACTION") ≡ universal)
    × (janet_iup_universal_cb toolkit clicked 1 5
        ≡ result toolkit (toolkit.call 8 (pointer 1 ∷ integer 5 ∷ []) clicked))
latest_answers_example =
    latest_answers toolkit toolkit-IsLawful click 1 (codes "ACTION") 8 5 refl
      (inr (inl (refl, refl)))

call_thunk_N-pushed_example :
    called_after toolkit window (2 ^ 32 + 1) (pushed ((1, 4) ∷ (2, 5) ∷ []) [])
    ≡ thunk_result toolkit (toolkit.call 4 [] window)
call_thunk_N-pushed_example = call_thunk_N-pushed toolkit window (2 ^ 32 + 1) ((1, 4) ∷ []) (2, 5)
