-- ===== src/Iup/Callbacks.antt =====
-- iup_wrap.c: `IupSetThunkCallback_wrapped`, `janet_iup_universal_cb` and
-- `IupGetAttributeAsString_wrapped`.
use puny_gui.Prelude.{ℕ, List, [], ◌∷◌, Option, none, some, ◌%◌, ◌^◌, until_nul}

-- A Janet value, as far as the wrappers look into it. A pointer and a function are their address.
pub data JanetValue : Type 0 where
  pointer function integer : ℕ → JanetValue
  string : List ℕ → JanetValue
  other : JanetValue

-- An Icallback: `janet_iup_universal_cb`, or a function of another part by its address.
pub data Icallback : Type 0 where
  universal : Icallback
  foreign : ℕ → Icallback

-- The table janet_iup_cbs, or NULL, and the widgets of IUP.
pub record Gui (T W : Type 0) : Type 0 where
  pub cbs : Option T
  pub widgets : W

-- What Janet and IUP do: janet_table, janet_table_put of a function at a pointer, janet_table_get at
-- a pointer, janet_unwrap_integer, and janet_call, which may come back here and gives no value where
-- it panics; IupSetCallback, which gives the callback that was there before, IupGetCallback,
-- IupGetAttribute, which may give NULL, and the address of a callback.
pub record Library (T W : Type 0) : Type 0 where
  pub new_table : T
  pub put : T → ℕ → ℕ → T
  pub get : T → ℕ → JanetValue
  pub unwrap_integer : JanetValue → ℕ
  pub call : ℕ → List JanetValue → Gui T W → Gui T W × Option JanetValue
  pub set_callback : W → ℕ → List ℕ → Icallback → W × Icallback
  pub get_callback : W → ℕ → List ℕ → Icallback
  pub get_attribute : W → ℕ → List ℕ → Option (List ℕ)
  pub address : Icallback → ℕ

-- How a call ends: a Janet value, or the int of a callback, a panic of the arguments, a panic of the
-- function that is called, or a read through NULL.
pub data Ending : Type 0 where
  returned : JanetValue → Ending
  status : ℕ → Ending
  bad_arity bad_argument raised crashed : Ending

-- janet_fixarity, janet_getpointer, janet_getstring and janet_getfunction.
pub data Arguments : Type 0 where
  taken : ℕ → List ℕ → ℕ → Arguments
  wrong_type wrong_count : Arguments

abbrev pub arguments : List JanetValue → Arguments
arguments (pointer ih ∷ string name ∷ function f ∷ []) = taken ih name f
arguments (_ ∷ _ ∷ _ ∷ []) = wrong_type
arguments _ = wrong_count

module _ {T W : Type 0} (lib : Library T W) where
  abbrev pub table_of : Option T → T
  table_of none = lib.new_table
  table_of (some t) = t

  abbrev pub set_universal : Gui T W → ℕ → List ℕ → ℕ → Gui T W × Ending
  set_universal g ih name f =
      let (widgets, old) = lib.set_callback g.widgets ih (until_nul name) universal in
      (
        record { cbs = some (lib.put (table_of g.cbs) ih f); widgets = widgets },
        returned (integer (lib.address old % 2 ^ 32)),
      )

  abbrev pub set_by : Gui T W → Arguments → Gui T W × Ending
  set_by g (taken ih name f) = set_universal g ih name f
  set_by g wrong_type = (g, bad_argument)
  set_by g wrong_count = (g, bad_arity)

  unfoldable pub iup_set_thunk_callback : Gui T W → List JanetValue → Gui T W × Ending
  iup_set_thunk_callback g argv = set_by g (arguments argv)

  abbrev pub as_function : JanetValue → Option ℕ
  as_function (function f) = some f
  as_function _ = none

  -- The function in the table for a widget; none where there is no table, or another value.
  abbrev pub callee : Option T → ℕ → Option ℕ
  callee none ih = none
  callee (some t) ih = as_function (lib.get t ih)

  abbrev pub result : Gui T W × Option JanetValue → Gui T W × Ending
  result (g, none) = (g, raised)
  result (g, some v) = (g, status (lib.unwrap_integer v))

  abbrev pub call_callee : Gui T W → ℕ → ℕ → Option ℕ → Gui T W × Ending
  call_callee g ih c none = (g, crashed)
  call_callee g ih c (some f) = result (lib.call f (pointer ih ∷ integer c ∷ []) g)

  unfoldable pub janet_iup_universal_cb : Gui T W → ℕ → ℕ → Gui T W × Ending
  janet_iup_universal_cb g ih c = call_callee g ih c (callee g.cbs ih)

  -- strlen of the text, which may be NULL.
  abbrev pub attribute_string : Option (List ℕ) → Ending
  attribute_string none = crashed
  attribute_string (some s) = returned (string (until_nul s))

  unfoldable pub iup_get_attribute_as_string : Gui T W → List JanetValue → Ending
  iup_get_attribute_as_string g (pointer ih ∷ string name ∷ []) =
      attribute_string (lib.get_attribute g.widgets ih (until_nul name))
  iup_get_attribute_as_string g (_ ∷ _ ∷ []) = bad_argument
  iup_get_attribute_as_string g _ = bad_arity
