-- ===== src/Http/Managers.antt =====
-- circlet/circlet.c: the managers of mongoose, the binding of a port, and what the collector is told
-- to keep.
use puny_gui.Prelude.{
  ℕ, List, [], ◌∷◌, Option, none, some, ◌⊎◌, inl, inr, ◌==◌, if◌then◌else◌, until_nul,
}
use puny_gui.Json.Value.{other}
use puny_gui.Http.Server.{Web, Wrapper, Connection, Continue, HttpMessage, http_handler}

-- The state of the fibers, the connections by number, and active_connections of each manager.
pub record World (J : Type 0) : Type 0 where
  pub fibers : J
  pub conns : ℕ → Connection
  pub active : ℕ → List ℕ

-- A Janet value, as far as the functions look into it. A manager is known by its number.
pub data CallArgument : Type 0 where
  manager function integer : ℕ → CallArgument
  string : List ℕ → CallArgument
  other_value : CallArgument

-- How a call ends: with a value, a panic of the arguments, or a use of NULL.
pub data Finish : Type 0 where
  gave : CallArgument → Finish
  bad_arity bad_argument null_used : Finish

-- What the collector marks.
pub data Object : Type 0 where
  manager_object fiber_object : ℕ → Object
  wrapper_object : Wrapper → Object

-- What mongoose and Janet do: janet_abstract for a manager, mg_mgr_init, mg_mgr_free, mg_bind, which
-- may give NULL, mg_set_protocol_http_websocket, mg_mgr_poll, which calls the handler of events,
-- janet_fiber of a function, janet_continue, and what the collector marks of a fiber.
pub record Mongoose (J : Type 0) : Type 0 where
  pub new_manager : World J → ℕ
  pub mgr_init : ℕ → World J → World J
  pub mgr_free : ℕ → World J → World J
  pub bind : ℕ → List ℕ → World J → World J × Option ℕ
  pub set_protocol : ℕ → World J → World J
  pub poll :
      (ℕ → Option HttpMessage → World J → Option (World J)) → ℕ → ℕ → World J → Option (World J)
  pub new_fiber : ℕ → J → J × ℕ
  pub continue : Continue J
  pub fiber_mark : J → ℕ → List Object

abbrev pub updated : (ℕ → Connection) → ℕ → Connection → ℕ → Connection
updated conns c changed c' = if c == c' then changed else conns c'

module _ {J : Type 0} (web : Web) (lib : Mongoose J) where
  abbrev handled : World J → ℕ → Option (J × Connection) → Option (World J)
  handled w c none = none
  handled w c (some (j, changed)) =
      some (record w { fibers = j; conns = updated w.conns c changed })

  -- The handler that mongoose is given, on an event of a connection.
  unfoldable pub handle_event : ℕ → Option HttpMessage → World J → Option (World J)
  handle_event c event w = handled w c (http_handler web lib.continue w.fibers (w.conns c) event)

  unfoldable pub cfun_manager : World J → List CallArgument → World J × Finish
  cfun_manager w [] = let m = lib.new_manager w in (lib.mgr_init m w, gave (manager m))
  cfun_manager w _ = (w, bad_arity)

  abbrev polled : World J → CallArgument → Option (World J) → World J × Finish
  polled w v none = (w, null_used)
  polled w v (some after) = (after, gave v)

  unfoldable pub cfun_poll : World J → List CallArgument → World J × Finish
  unfolding handle_event
  cfun_poll w (manager m ∷ integer wait ∷ []) =
      polled w (manager m) (lib.poll handle_event m wait w)
  cfun_poll w (_ ∷ _ ∷ []) = (w, bad_argument)
  cfun_poll w _ = (w, bad_arity)

  -- The wrapper and the fiber of the connection that mg_bind gave; the fiber runs up to its first
  -- yield. A failure of the fiber is printed.
  abbrev pub attach : ℕ → World J × Option ℕ → World J × (Finish ⊎ ℕ)
  attach f (w, none) = (w, inl null_used)
  attach f (w, some c) =
      let (j, fiber) = lib.new_fiber f w.fibers in
      let (started, out) = lib.continue j fiber other in
      let cw : Wrapper = record { conn = c; fiber = fiber } in
      (
        record w {
          fibers = started;
          conns = updated w.conns c (record (w.conns c) { user_data = some cw });
        },
        inr c,
      )

  unfoldable pub do_bind : World J → List CallArgument → World J × (Finish ⊎ ℕ)
  do_bind w (manager m ∷ string port ∷ function f ∷ []) = attach f (lib.bind m (until_nul port) w)
  do_bind w (_ ∷ _ ∷ _ ∷ []) = (w, inl bad_argument)
  do_bind w _ = (w, inl bad_arity)

  abbrev pub first : List CallArgument → CallArgument
  first [] = other_value
  first (v ∷ rest) = v

  abbrev pub bound : CallArgument → World J × (Finish ⊎ ℕ) → World J × Finish
  bound v (w, inl e) = (w, e)
  bound v (w, inr c) = (lib.set_protocol c w, gave v)

  unfoldable pub cfun_bind_http : World J → List CallArgument → World J × Finish
  unfolding do_bind
  cfun_bind_http w argv = bound (first argv) (do_bind w argv)

-- The loop over the connections of a manager.
unfoldable pub mark_connections : (ℕ → Connection) → List ℕ → List Object
mark_connections conns [] = []
mark_connections conns (c ∷ rest) = elim (conns c).user_data [
  | none ↦ mark_connections conns rest
  | some cw ↦ wrapper_object cw ∷ mark_connections conns rest
]

module _ {J : Type 0} where
  unfoldable pub connection_mark : World J → Wrapper → List Object
  connection_mark w cw = fiber_object cw.fiber ∷ manager_object (w.conns cw.conn).mgr ∷ []

  unfoldable pub manager_mark : World J → ℕ → List Object
  unfolding mark_connections
  manager_mark w m = mark_connections w.conns (w.active m)

module _ {J : Type 0} (lib : Mongoose J) where
  unfoldable pub manager_gc : ℕ → World J → World J
  manager_gc m w = lib.mgr_free m w

  -- What the collector marks behind an object.
  abbrev pub marks : World J → Object → List Object
  unfolding connection_mark manager_mark
  marks w (manager_object m) = manager_mark w m
  marks w (wrapper_object cw) = connection_mark w cw
  marks w (fiber_object f) = lib.fiber_mark w.fibers f
