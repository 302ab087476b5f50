-- ===== src/Http/Marked.antt =====
-- What the collector keeps of a server: `manager_mark` and `connection_mark`.
use mathlib.Core.Logic.Or
use mathlib.Core.List.{Mem, Mem-prop, mem-cons, mem-cons_self, mem-cons_of_mem, not-mem-nil}
use puny_gui.Prelude.{ℕ, ◌≡◌, refl, List, [], ◌∷◌, Option, none, some}
use puny_gui.Http.Server.{Wrapper, Connection}
use puny_gui.Http.Managers.{
  World, Object, manager_object, fiber_object, wrapper_object, Mongoose, connection_mark,
  mark_connections, manager_mark, marks,
}

-- The objects that are kept behind one that is kept.
pub data IsKept {J : Type 0} (lib : Mongoose J) (w : World J) (o : Object) : Object → Type 0 where
  itself : IsKept lib w o o
  marked : {p q : Object} → IsKept lib w o p → Mem q (marks lib w p) → IsKept lib w o q

mark_connections_lem :
    (conns : ℕ → Connection) (c : ℕ) (cw : Wrapper) (cs : List ℕ)
    → (conns c).user_data ≡ some cw
    → Mem c cs
    → Mem (wrapper_object cw) (mark_connections conns cs)
unfolding mark_connections
mark_connections_lem conns c cw [] e m = absurd (not-mem-nil m)
mark_connections_lem conns c cw (d ∷ rest) e m =
    Or.elim Mem-prop (mem-cons.0 m)
      (λ here.
        let e' : (conns d).user_data ≡ some cw = cc in rw (mark_connections, e') mem-cons_self)
      (λ there.
        mark_rest conns d (conns d).user_data refl _ (mark_connections_lem conns c cw rest e there))
  where
    mark_rest :
        (conns : ℕ → Connection) (d : ℕ) (u : Option Wrapper)
        → (conns d).user_data ≡ u
        → (o : Object) → Mem o (mark_connections conns rest)
        → Mem o (mark_connections conns (d ∷ rest))
    mark_rest conns d none e o m = rw (mark_connections, e) m
    mark_rest conns d (some cw) e o m = rw (mark_connections, e) (mem-cons_of_mem _ m)

-- The fiber that a request on an active connection goes on with is kept by the collector as
-- long as the manager is, and as long as the wrapper of any connection of that manager is,
-- which each request hands to the program.
pub fiber-IsKept :
    {J : Type 0} (lib : Mongoose J) (w : World J) (c : ℕ) (cw held : Wrapper)
    → Mem c (w.active (w.conns held.conn).mgr)
    → (w.conns c).user_data ≡ some cw
    → IsKept lib w (manager_object (w.conns held.conn).mgr) (fiber_object cw.fiber)
      × IsKept lib w (wrapper_object held) (fiber_object cw.fiber)
unfolding connection_mark manager_mark
fiber-IsKept lib w c cw held m e =
    let listed = mark_connections_lem w.conns c cw (w.active (w.conns held.conn).mgr) e m in
    let behind : Mem (fiber_object cw.fiber) (connection_mark w cw) = mem-cons_self in
    (
      marked (marked itself listed) behind,
      marked (marked (marked itself (mem-cons_of_mem _ mem-cons_self)) listed) behind,
    )
