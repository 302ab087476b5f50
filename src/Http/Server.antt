-- ===== src/Http/Server.antt =====
-- circlet/circlet.c: `build_http_request`, `send_http` and `http_handler`.
use puny_gui.Prelude.{
  until_nul, ℕ, Bool, true, false, List, [], ◌∷◌, ◌++◌, Option, none, some, length, ◌==◌,
  if◌then◌else◌, codes, decimal,
}
use puny_gui.Json.Value.{
  Value, Slots, nil, other, number, string, keyword, table, struct, no_slots, slot, bytes_of,
}

-- A wrapper, which is made for a connection that listens and keeps the fiber that answers.
pub record Wrapper : Type 0 where
  pub conn : ℕ
  pub fiber : ℕ

-- A connection: its manager, its wrapper, if it has one, which mongoose hands on to the connections
-- that it accepts, the bytes sent to it, and MG_F_SEND_AND_CLOSE.
pub record Connection : Type 0 where
  pub mgr : ℕ
  pub user_data : Option Wrapper
  pub sent : List ℕ
  pub send_and_close : Bool

-- The status of a fiber that janet_continue gives.
pub data FiberStatus : Type 0 where
  dead pending stopped : FiberStatus

-- What mongoose and Janet do: the bytes of mg_send_response_line and of mg_send_head,
-- janet_to_string, janet_dictionary_get at a keyword, the integer that a number is, as a pattern,
-- janet_table_put.
pub record Web : Type 0 where
  pub response_line : ℕ → List ℕ
  pub send_head : ℕ → ℕ → List ℕ → List ℕ
  pub to_string : Value → List ℕ
  pub get : Slots → List ℕ → Value
  pub checkint : ℕ → Option ℕ
  pub put : Slots → Value → Value → Slots

-- janet_continue of a fiber with a value, on the state of all fibers.
abbrev pub Continue : Type 0 → Type 0
Continue J = J → ℕ → Value → J × (FiberStatus × Value)

-- http_message; `headers` is the array of names and values, of MG_MAX_HTTP_HEADERS places.
pub record HttpMessage : Type 0 where
  pub body : List ℕ
  pub uri : List ℕ
  pub query_string : List ℕ
  pub method : List ℕ
  pub proto : List ℕ
  pub headers : List (List ℕ × List ℕ)

abbrev pub crlf : List ℕ
crlf = 13 ∷ 10 ∷ []

abbrev pub reply_headers : Value → Option Slots
reply_headers nil = some no_slots
reply_headers (table kvs) = some kvs
reply_headers (struct kvs) = some kvs
reply_headers _ = none

abbrev pub reply_body : Value → Option (List ℕ)
reply_body nil = some []
reply_body v = bytes_of v

abbrev pub length_line : List ℕ → List ℕ
length_line body =
    if length body == 0 then [] else codes "Content-Length: " ++ (decimal (length body) ++ crlf)

module _ (web : Web) where
  -- The loop over the headers ends at the first one without a name.
  unfoldable pub header_table : List (List ℕ × List ℕ) → Slots → Slots
  header_table [] t = t
  header_table ((name, v) ∷ rest) t = elim (length name == 0) [
    | true ↦ t
    | false ↦ header_table rest (web.put t (string name) (string v))
  ]

  -- The connection itself is an abstract value.
  unfoldable pub build_http_request : HttpMessage → Value
  unfolding header_table
  build_http_request hm =
      let t₁ = web.put no_slots (keyword (codes "body")) (string hm.body) in
      let t₂ = web.put t₁ (keyword (codes "uri")) (string hm.uri) in
      let t₃ = web.put t₂ (keyword (codes "query-string")) (string hm.query_string) in
      let t₄ = web.put t₃ (keyword (codes "method")) (string hm.method) in
      let t₅ = web.put t₄ (keyword (codes "protocol")) (string hm.proto) in
      let t₆ = web.put t₅ (keyword (codes "connection")) other in
      table (web.put t₆ (keyword (codes "headers")) (table (header_table hm.headers no_slots)))

  abbrev pub reply_code : Value → Option ℕ
  reply_code nil = some 200
  reply_code (number x) = web.checkint x
  reply_code _ = none

  -- A line of a header, by its key; janet_dictionary_next passes over empty slots.
  abbrev pub header_line : Value → Value → List ℕ
  header_line nil v = []
  header_line k v =
      until_nul (web.to_string k) ++ (codes ": " ++ (until_nul (web.to_string v) ++ crlf))

  abbrev pub header_lines : Slots → List ℕ
  header_lines no_slots = []
  header_lines (slot k v kvs) = header_line k v ++ header_lines kvs

  -- What is sent for a dictionary; nothing, where a part of it is of a wrong type. The body is
  -- printed as a C string.
  abbrev pub reply_text : Option ℕ → Option Slots → Option (List ℕ) → List ℕ
  reply_text (some code) (some headers) (some body) =
      web.response_line code
      ++ (header_lines headers ++ (length_line body ++ (crlf ++ until_nul body)))
  reply_text _ _ _ = []

  abbrev pub dictionary_reply : Slots → List ℕ
  dictionary_reply kvs =
      reply_text (reply_code (web.get kvs (codes "status")))
        (reply_headers (web.get kvs (codes "headers"))) (reply_body (web.get kvs (codes "body")))

  abbrev pub reply : Value → List ℕ
  reply (table kvs) = dictionary_reply kvs
  reply (struct kvs) = dictionary_reply kvs
  reply _ = web.send_head 500 0 []

  unfoldable pub send_http : Connection → Value → Connection
  send_http c res = record c { sent = c.sent ++ reply res; send_and_close = true }

  -- By what janet_continue gave.
  abbrev pub on_result : Connection → FiberStatus × Value → Connection
  on_result c (dead, out) = send_http c out
  on_result c (pending, out) = send_http c out
  on_result c (stopped, out) = c

  -- The fiber goes on with the request; none stands for a read through NULL.
  abbrev pub continue_with :
      {J : Type 0} → Continue J → J → Connection → Value → Option Wrapper → Option (J × Connection)
  continue_with continue j c evdata none = none
  continue_with continue j c evdata (some cw) =
      let (j', out) = continue j cw.fiber evdata in some (j', on_result c out)

  -- An event: a request, or another one.
  unfoldable pub http_handler :
      {J : Type 0} → Continue J → J → Connection → Option HttpMessage → Option (J × Connection)
  unfolding send_http build_http_request
  http_handler continue j c none = some (j, c)
  http_handler continue j c (some hm) =
      continue_with continue j c (build_http_request hm) c.user_data
