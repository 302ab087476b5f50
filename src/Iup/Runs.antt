-- ===== src/Iup/Runs.antt =====
-- Callbacks and events of widgets in any order, and the function that answers an event.
use puny_gui.Prelude.{
  ℕ, ◌≡◌, ap, ◌∙◌, sym, List, [], ◌∷◌, ◌++◌, append_assoc, append-nil, subst, Option, none, some,
  ◌⊎◌, inl, inr, ◌==◌, if◌then◌else◌, arith, until_nul,
}
use puny_gui.Iup.Callbacks.{
  JanetValue, pointer, function, integer, Icallback, universal, Gui, Library, Arguments, taken,
  wrong_type, wrong_count, arguments, table_of, set_by, as_function, callee, call_callee, result,
  iup_set_thunk_callback, janet_iup_universal_cb,
}

-- A call that sets the callback of a widget for the name of an event.
pub record Registration : Type 0 where
  pub ih : ℕ
  pub name : List ℕ
  pub thunk : ℕ

-- What a call with some arguments registers.
abbrev pub registered : Arguments → List Registration
registered (taken ih name f) = record { ih = ih; name = until_nul name; thunk = f } ∷ []
registered _ = []

-- The last function registered for a widget, by the latest registration first.
abbrev pub latest : ℕ → List Registration → Option ℕ
latest ih [] = none
latest ih (r ∷ log) = if r.ih == ih then some r.thunk else latest ih log

-- Whether a callback was registered for a widget and an event.
abbrev pub IsRegistered : ℕ → List ℕ → List Registration → Type 0
IsRegistered ih name [] = ⊥
IsRegistered ih name (r ∷ log) = ((r.ih ≡ ih) × (r.name ≡ name)) ⊎ IsRegistered ih name log

module _ {T W : Type 0} (lib : Library T W) where
  -- What Janet's tables and IUP promise: a place holds what was last put there, and putting
  -- something in one place leaves the others alone.
  pub record IsLawful : Type 0 where
    pub get-put : (t : T) (ih f : ℕ) → lib.get (lib.put t ih f) ih ≡ function f
    pub get-put_other :
        (t : T) (ih f ih' : ℕ) → (ih ≡ ih') ⊎ (lib.get (lib.put t ih f) ih' ≡ lib.get t ih')
    pub get_callback-set :
        (w : W) (ih : ℕ) (name : List ℕ) (cb : Icallback)
        → lib.get_callback (lib.set_callback w ih name cb).0 ih name ≡ cb
    pub get_callback-set_other :
        (w : W) (ih : ℕ) (name : List ℕ) (cb : Icallback) (ih' : ℕ) (name' : List ℕ)
        → ((ih ≡ ih') × (name ≡ name'))
          ⊎ (lib.get_callback (lib.set_callback w ih name cb).0 ih' name'
              ≡ lib.get_callback w ih' name')

  -- The states that calls and events lead to, with what they registered. IUP delivers an event to
  -- its callback, and what happens while the function of an event runs is a run of its own.
  pub data Run : Gui T W → List Registration → Gui T W → Type 0 where
    idle : {g : Gui T W} → Run g [] g
    calls :
        {g h : Gui T W} {log : List Registration}
        → Run g log h
        → (argv : List JanetValue)
        → Run g (registered (arguments argv) ++ log) (iup_set_thunk_callback lib h argv).0
    delivers :
        {g h : Gui T W} {log more : List Registration}
        → Run g log h
        → (ih : ℕ) (name : List ℕ) (c : ℕ) → lib.get_callback h.widgets ih name ≡ universal
        → Run h more (janet_iup_universal_cb lib h ih c).0
        → Run g (more ++ log) (janet_iup_universal_cb lib h ih c).0

  -- The table answers for the registrations.
  abbrev Answers : List Registration → Gui T W → Type 0
  Answers log g =
      ((ih f : ℕ) → latest ih log ≡ some f → callee lib g.cbs ih ≡ some f)
      × ((ih : ℕ) (name : List ℕ)
          → IsRegistered ih name log
          → lib.get_callback g.widgets ih name ≡ universal)

  callee-table_of :
      (cbs : Option T) (ih f : ℕ)
      → callee lib cbs ih ≡ some f
      → as_function lib (lib.get (table_of lib cbs) ih) ≡ some f
  callee-table_of none ih f e = cc
  callee-table_of (some t) ih f e = e

  -- A function that is put into the table is the latest.
  as_function-put :
      IsLawful
      → (cbs : Option T) (ih f ih' f' : ℕ) (before : Option ℕ)
      → (before ≡ some f' → callee lib cbs ih' ≡ some f')
      → (if ih == ih' then some f else before) ≡ some f'
      → as_function lib (lib.get (lib.put (table_of lib cbs) ih f) ih') ≡ some f'
  as_function-put laws cbs ih f ih' f' before h e =
      let put = laws.get-put (table_of lib cbs) ih f in
      let other = laws.get-put_other (table_of lib cbs) ih f ih' in
      ground (arith, callee-table_of cbs ih' f')

  callback-set :
      IsLawful
      → (w : W) (ih : ℕ) (name : List ℕ) (ih' : ℕ) (name' : List ℕ)
      → ((ih ≡ ih') × (name ≡ name')) ⊎ (lib.get_callback w ih' name' ≡ universal)
      → lib.get_callback (lib.set_callback w ih name universal).0 ih' name' ≡ universal
  callback-set laws w ih name ih' name' (inl (p, q)) =
      let put = laws.get_callback-set w ih name universal in cc
  callback-set laws w ih name ih' name' (inr e) =
      let put = laws.get_callback-set w ih name universal in
      elim (laws.get_callback-set_other w ih name universal ih' name') [
        | inl (p, q) ↦ cc
        | inr kept ↦ kept ∙ e
      ]

  set_by-Answers :
      IsLawful
      → (log : List Registration) (g : Gui T W) (args : Arguments) → Answers log g
      → Answers (registered args ++ log) (set_by lib g args).0
  set_by-Answers laws log g wrong_type h = h
  set_by-Answers laws log g wrong_count h = h
  set_by-Answers laws log g (taken ih name f) (functions, callbacks) = (
    λ ih' f' e. as_function-put laws g.cbs ih f ih' f' (latest ih' log) (functions ih' f') e,
    λ ih' name' m.
        callback-set laws g.widgets ih (until_nul name) ih' name'
          (elim m [ inl same ↦ inl same | inr before ↦ inr (callbacks ih' name' before) ]),
  )

  Run-Answers :
      IsLawful
      → {g h : Gui T W} {log : List Registration} → Run g log h
      → (before : List Registration) → Answers before g
      → Answers (log ++ before) h
  unfolding iup_set_thunk_callback
  Run-Answers laws idle before a = a
  Run-Answers laws {g} {h} {log} (calls {h = m} {log = earlier} run argv) before a =
      subst (λ l. Answers l h) (sym (append_assoc (registered (arguments argv)) earlier before))
        (set_by-Answers laws (earlier ++ before) m (arguments argv) (Run-Answers laws run before a))
  Run-Answers laws {g} {h} {log} (delivers {log = earlier} {more = more} run ih name c e nested)
        before a =
      subst (λ l. Answers l h) (sym (append_assoc more earlier before))
        (Run-Answers laws nested (earlier ++ before) (Run-Answers laws run before a))

  -- Where tables and IUP keep what is put into them: behind any calls of iup-set-thunk-callback
  -- and any events, with those that happen while the function of an event runs among them, the
  -- callback of a widget for an event that was registered is `janet_iup_universal_cb`, and that
  -- calls the function that was registered last for the widget, for whatever event, with the
  -- widget and the number of the event, and gives IUP what it returns.
  pub latest_answers :
      IsLawful
      → {g h : Gui T W} {log : List Registration} → Run g log h
      → (ih : ℕ) (name : List ℕ) (f c : ℕ) → latest ih log ≡ some f
      → IsRegistered ih name log
      → (lib.get_callback h.widgets ih name ≡ universal)
        × (janet_iup_universal_cb lib h ih c
            ≡ result lib (lib.call f (pointer ih ∷ integer c ∷ []) h))
  unfolding janet_iup_universal_cb
  latest_answers laws {g} {h} {log} run ih name f c e m =
      let (functions, callbacks) =
        subst (λ l. Answers l h) (append-nil log)
          (Run-Answers laws run [] (λ ih f e. cc, λ ih name m. absurd m)) in
      (callbacks ih name m, ap (call_callee lib h ih c) (functions ih f e))
