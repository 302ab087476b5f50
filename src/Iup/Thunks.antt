-- ===== src/Iup/Thunks.antt =====
-- iup_wrap.c: the list of thunks, `push_thunk`, `get_thunk_by_id` and `call_thunk_N`.
pub mod Found
use puny_gui.Prelude.{
  ℕ, ◌%◌, ◌^◌, Bool, true, false, List, [], ◌∷◌, Option, none, some, ◌==◌, if◌then◌else◌,
}
use puny_gui.Iup.Callbacks.{Gui, Library, JanetValue, Ending, status, raised, crashed}

-- A node of the list; its function, or NULL.
pub record Thunk : Type 0 where
  pub ih : ℕ
  pub thunk : Option ℕ

-- The nodes from `node` on, with one more behind the last.
unfoldable pub link_last : Thunk → List Thunk → List Thunk
link_last next [] = next ∷ []
link_last next (node ∷ rest) = node ∷ link_last next rest

-- `memory` is whether malloc gives some; none stands for a write through NULL.
unfoldable pub push_thunk : Bool → Option ℕ → ℕ → List Thunk → Option (List Thunk)
unfolding link_last
push_thunk memory f ih root_thunks =
    if memory then some (link_last (record { ih = ih; thunk = f }) root_thunks) else none

-- The loop, at a node with those behind it. A cast to int keeps 32 bits.
unfoldable pub find_thunk : ℕ → Thunk → List Thunk → Thunk
find_thunk ih node [] = node
find_thunk ih node (next ∷ rest) = elim (node.ih % 2 ^ 32 == ih % 2 ^ 32) [
  | true ↦ node
  | false ↦ find_thunk ih next rest
]

abbrev pub or_root : Option ℕ → Option ℕ → Option ℕ
or_root none root = root
or_root (some f) root = some f

-- None stands for a read through NULL.
unfoldable pub get_thunk_by_id : ℕ → List Thunk → Option (Option ℕ)
unfolding find_thunk
get_thunk_by_id ih [] = none
get_thunk_by_id ih (root ∷ rest) = some (or_root (find_thunk ih root rest).thunk root.thunk)

module _ {T W : Type 0} (lib : Library T W) where
  abbrev pub thunk_result : Gui T W × Option JanetValue → Gui T W × Ending
  thunk_result (g, none) = (g, raised)
  thunk_result (g, some v) = (g, status 0)

  abbrev pub call_found : Gui T W → Option (Option ℕ) → Gui T W × Ending
  call_found g (some (some f)) = thunk_result (lib.call f [] g)
  call_found g _ = (g, crashed)

  unfoldable pub call_thunk_N : Gui T W → List Thunk → ℕ → Gui T W × Ending
  unfolding get_thunk_by_id
  call_thunk_N g root_thunks ih = call_found g (get_thunk_by_id ih root_thunks)
