-- ===== src/Http/Served.antt =====
-- A sequence of requests: `cfun_bind_http` and `http_handler` against a service that takes them one
-- after the other.
use puny_gui.Prelude.{
  ℕ, ◌≡◌, refl, ap, subst, ◌∙◌, true, List, [], ◌∷◌, ◌++◌, Option, none, some, ◌⊎◌, ◌==◌, arith,
  All, until_nul,
}
use puny_gui.Json.Value.{Value, other}
use puny_gui.Http.Server.{
  Web, Wrapper, Connection, Continue, pending, HttpMessage, build_http_request, reply, send_http,
  on_result, continue_with, http_handler,
}
use puny_gui.Http.Managers.{
  World, CallArgument, Finish, gave, manager, string, function, Mongoose, attach, bound, do_bind,
  cfun_bind_http,
}

-- A service: what it does to its state and what it responds, for each request.
pub record Service (S : Type 0) : Type 0 where
  pub respond : S → Value → S × Value

abbrev pub answered : Web → Connection → Value → Connection
answered web c response = record c { sent = c.sent ++ reply web response; send_and_close = true }

-- The connections of a sequence of requests, when the service has answered each of them.
abbrev pub served :
    {S : Type 0} → Web → Service S → S → List (Connection × HttpMessage) → List Connection
served web service s [] = []
served web service s ((c, hm) ∷ rest) =
    let (s', response) = service.respond s (build_http_request web hm) in
    answered web c response ∷ served web service s' rest

-- The handler on a sequence of requests.
abbrev pub after_request :
    {J : Type 0}
    → (J → Option (J × List Connection))
    → Option (J × Connection)
    → Option (J × List Connection)
after_request more none = none
after_request more (some (j, c)) = elim (more j) [ none ↦ none | some (j', cs) ↦ some (j', c ∷ cs) ]

abbrev pub handle_all :
    {J : Type 0}
    → Web
    → Continue J
    → List (Connection × HttpMessage)
    → J
    → Option (J × List Connection)
handle_all web continue [] j = some (j, [])
handle_all web continue ((c, hm) ∷ rest) j =
    after_request (handle_all web continue rest) (http_handler web continue j c (some hm))

-- A fiber runs a service: from states that stand for each other, it yields the response, and the
-- states stand for each other again.
abbrev pub RunsService : {J S : Type 0} → Continue J → ℕ → Service S → (J → S → Type 0) → Type 0
RunsService {J} {S} continue fiber service R =
    (j : J) (s : S) (v : Value)
    → R j s
    → ((continue j fiber v).1 ≡ (pending, (service.respond s v).1))
      × R (continue j fiber v).0 (service.respond s v).0

module _ {J S : Type 0} (web : Web) (continue : Continue J) (cw : Wrapper)
    (service : Service S) where
  http_handler_lem :
      (j : J) (s : S) (c : Connection) (hm : HttpMessage)
      → c.user_data ≡ some cw
      → (continue j cw.fiber (build_http_request web hm)).1
        ≡ (pending, (service.respond s (build_http_request web hm)).1)
      → http_handler web continue j c (some hm)
        ≡ some (
          (continue j cw.fiber (build_http_request web hm)).0,
          answered web c (service.respond s (build_http_request web hm)).1,
        )
  unfolding http_handler send_http
  http_handler_lem j s c hm u e =
      let request : Value = build_http_request web hm in
      ap (continue_with web continue j c request) u
      ∙ ap (λ out. some ((continue j cw.fiber request).0, on_result web c out)) e

  handle_all_lem :
      (R : J → S → Type 0)
      → RunsService continue cw.fiber service R
      → (requests : List (Connection × HttpMessage)) (j : J) (s : S)
      → All (λ r. r.0.user_data ≡ some cw) requests
      → R j s
      → (j' : J) × (handle_all web continue requests j ≡ some (j', served web service s requests))
  handle_all_lem R runs [] j s h r = (j, refl)
  handle_all_lem R runs ((c, hm) ∷ rest) j s (u, us) r =
      let request : Value = build_http_request web hm in
      let (e, r') = runs j s request r in
      let (j', es) =
        handle_all_lem R runs rest (continue j cw.fiber request).0 (service.respond s request).0 us
          r' in
      (
        j',
        ap (after_request (handle_all web continue rest)) (http_handler_lem j s c hm u e)
            ∙ ap
                (λ o. elim o as (λ x. Option (J × List Connection)) [
                  | none ↦ none
                  | some (k, cs) ↦ some (k, answered web c (service.respond s request).1 ∷ cs)
                ])
                es,
      )

-- The arguments of circlet-bind-http.
abbrev pub bind_arguments : ℕ → List ℕ → ℕ → List CallArgument
bind_arguments m port f = manager m ∷ string port ∷ function f ∷ []

user_data-attach :
    {J : Type 0} (web : Web) (lib : Mongoose J) (f : ℕ) (w : World J) (c : ℕ)
    → ((attach web lib f (w, some c)).0.conns c).user_data
      ≡ some (record { conn = c; fiber = (lib.new_fiber f w.fibers).1 })
user_data-attach web lib f w c = let same : (c == c) ≡ true = ground arith in rw same refl

-- Where `mg_bind` gives a connection, mg_set_protocol_http_websocket leaves the fibers alone,
-- and the fiber that `do_bind` makes and starts runs a service from there on, yielding a
-- response for every request: `cfun_bind_http` returns its manager, and of any sequence of
-- requests, on connections that have the wrapper of the one that was bound, the handler answers
-- each, in its turn, with the reply for what the service responds to the requests one after the
-- other, and marks its connection to be closed.
pub handle_all-cfun_bind_http :
    {J S : Type 0} (web : Web) (lib : Mongoose J) (service : Service S) (R : J → S → Type 0)
    (w : World J) (m : ℕ) (port : List ℕ) (f : ℕ) (listening : World J) (c : ℕ) (s : S)
    (requests : List (Connection × HttpMessage))
    → lib.bind m (until_nul port) w ≡ (listening, some c)
    → ((v : World J) → (lib.set_protocol c v).fibers ≡ v.fibers)
    → RunsService lib.continue (lib.new_fiber f listening.fibers).1 service R
    → (let (j, fiber) = lib.new_fiber f listening.fibers in R (lib.continue j fiber other).0 s)
    → All
        (λ r. r.0.user_data ≡ ((do_bind web lib w (bind_arguments m port f)).0.conns c).user_data)
        requests
    → ((cfun_bind_http web lib w (bind_arguments m port f)).1 ≡ gave (manager m))
      × ((j' : J) × (handle_all web lib.continue requests
              (cfun_bind_http web lib w (bind_arguments m port f)).0.fibers
            ≡ some (j', served web service s requests)))
unfolding do_bind cfun_bind_http
handle_all-cfun_bind_http {J} {S} web lib service R w m port f listening c s requests e kept runs r
      us =
    let cw : Wrapper = record { conn = c; fiber = (lib.new_fiber f listening.fibers).1 } in
    let start : J = (attach web lib f (listening, some c)).0.fibers in
    let attached = ap (attach web lib f) e in
    let (j', es) =
      handle_all_lem web lib.continue cw service R runs requests start s
        (subst (λ u. All (λ r. r.0.user_data ≡ u) requests)
          (ap (λ (b : World J × (Finish ⊎ ℕ)). (b.0.conns c).user_data) attached
            ∙ user_data-attach web lib f listening c)
          us)
        r in
    (
      ap (λ (b : World J × (Finish ⊎ ℕ)). (bound web lib (manager m) b).1) attached,
      (
        j',
        ap (handle_all web lib.continue requests) (
              ap (λ (b : World J × (Finish ⊎ ℕ)). (bound web lib (manager m) b).0.fibers) attached
              ∙ kept _)
            ∙ es,
      ),
    )
