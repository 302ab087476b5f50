-- ===== src/Http/Witnesses.antt =====
-- The theorem of circlet/circlet.c at a server that answers with the body of the request.
use mathlib.Core.List.{mem-cons_self}
use puny_gui.Prelude.{
  ℕ, ◌≡◌, refl, ap, false, true, ◌+◌, List, [], ◌∷◌, some, codes, ◌==◌, if◌then◌else◌, decimal,
}
use puny_gui.Json.Value.{Value, Slots, nil, string, keyword, table, no_slots, slot}
use puny_gui.Http.Server.{Web, Wrapper, Connection, Continue, HttpMessage, pending, http_handler}
use puny_gui.Http.Managers.{
  World, manager, gave, Mongoose, manager_object, fiber_object, wrapper_object, do_bind,
  cfun_bind_http,
}
use puny_gui.Http.Marked.{IsKept, fiber-IsKept}
use puny_gui.Http.Served.{Service, handle_all, served, bind_arguments, handle_all-cfun_bind_http}

-- A dictionary with a body alone.
abbrev only_value : Slots → List ℕ → Value
only_value (slot k v no_slots) (c ∷ rest) = if c == b'b' then v else nil
only_value t name = nil

abbrev greeter : Web
greeter = record {
  response_line = λ code. codes "HTTP/1.1 200 OK\r\n";
  send_head = λ code n extra. codes "HTTP/1.1 500\r\n\r\n";
  to_string = λ v. codes "value";
  get = only_value;
  checkint = λ x. some x;
  put = λ t k v. slot k v t;
}

-- A fiber that counts its requests and yields the same each time.
abbrev greet : Continue ℕ
greet n fiber v =
    (n + 1, (pending, table (slot (keyword (codes "body")) (string (codes "hi")) no_slots)))

abbrev asked : HttpMessage
asked = record {
  body = [];
  uri = codes "/";
  query_string = [];
  method = codes "GET";
  proto = codes "HTTP/1.1";
  headers = (codes "Host", codes "a") ∷ ([], []) ∷ [];
}

abbrev listener : Wrapper
listener = record { conn = 1; fiber = 2 }

abbrev fresh : Connection
fresh = record { mgr = 0; user_data = some listener; sent = []; send_and_close = false }

greeting :
    http_handler greeter greet 0 fresh (some asked)
    ≡ some (
      1,
      record fresh {
        sent = codes "HTTP/1.1 200 OK\r\nContent-Length: 2\r\n\r\nhi";
        send_and_close = true;
      },
    )
unfolding http_handler decimal
greeting = refl

-- One manager, 0, whose port is bound to connection 1.
abbrev idle_world : World ℕ
idle_world = record { fibers = 0; conns = λ c. fresh; active = λ m. 1 ∷ [] }

abbrev mongoose : Mongoose ℕ
mongoose = record {
  new_manager = λ w. 1;
  mgr_init = λ m w. w;
  mgr_free = λ m w. record w { active = λ m. [] };
  bind = λ m port w. (w, some 1);
  set_protocol = λ c w. w;
  poll = λ handler m wait w. handler 1 (some asked) w;
  new_fiber = λ f j. (j, 2);
  continue = greet;
  fiber_mark = λ j f. [];
}

-- The fiber as a service.
abbrev greetings : Service ℕ
greetings = record { respond = λ n v. (n + 1, (greet n 2 v).1.1) }

abbrev two_requests : List (Connection × HttpMessage)
two_requests = (fresh, asked) ∷ (fresh, asked) ∷ []

handle_all-cfun_bind_http_example :
    ((cfun_bind_http greeter mongoose idle_world (bind_arguments 0 (codes "8000") 7)).1
      ≡ gave (manager 0))
    × ((j' : ℕ) × (handle_all greeter greet two_requests
            (cfun_bind_http greeter mongoose idle_world
              (bind_arguments 0 (codes "8000") 7)).0.fibers
          ≡ some (j', served greeter greetings 1 two_requests)))
unfolding do_bind
handle_all-cfun_bind_http_example =
    handle_all-cfun_bind_http greeter mongoose greetings ◌≡◌ idle_world 0 (codes "8000") 7
      idle_world 1 1 two_requests refl (λ v. refl) (λ j s v e. (refl, ap (λ n. n + 1) e)) refl
      (refl, (refl, tt))

fiber-IsKept_example :
    IsKept mongoose idle_world (manager_object 0) (fiber_object 2)
    × IsKept mongoose idle_world (wrapper_object listener) (fiber_object 2)
fiber-IsKept_example = fiber-IsKept mongoose idle_world 1 listener listener mem-cons_self refl
