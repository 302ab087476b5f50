-- ===== src/Http/Reply.antt =====
-- What `http_handler` sends.
use puny_gui.Prelude.{until_nul, ℕ, ◌≡◌, List, [], ◌++◌, Option, none, some, codes, ◌⊎◌, true}
use puny_gui.Json.Value.{Value, Slots, no_slots, table, struct, nil, number, bytes_of}
use puny_gui.Http.Server.{
  Web, Wrapper, Connection, Continue, HttpMessage, FiberStatus, dead, pending, stopped, crlf,
  length_line, header_lines, build_http_request,
}

-- The code that a status asks for: 200 if there is none.
abbrev pub IsCode : Web → Value → ℕ → Type 0
IsCode web nil n = n ≡ 200
IsCode web (number x) n = web.checkint x ≡ some n
IsCode web _ n = ⊥

-- The slots of the headers.
abbrev pub AreFields : Value → Slots → Type 0
AreFields nil kvs = kvs ≡ no_slots
AreFields (table t) kvs = kvs ≡ t
AreFields (struct t) kvs = kvs ≡ t
AreFields _ kvs = ⊥

-- The bytes of the body.
abbrev pub IsBody : Value → List ℕ → Type 0
IsBody nil b = b ≡ []
IsBody v b = bytes_of v ≡ some b

-- The slots of a dictionary.
abbrev pub HasSlots : Value → Slots → Type 0
HasSlots (table t) kvs = t ≡ kvs
HasSlots (struct t) kvs = t ≡ kvs
HasSlots _ kvs = ⊥

-- What is sent for a response.
pub data IsReply (web : Web) (v : Value) : List ℕ → Type 0 where
  failure : ((kvs : Slots) → ¬ HasSlots v kvs) → IsReply web v (web.send_head 500 0 [])
  answer :
      (kvs fields : Slots) (code : ℕ) (body : List ℕ)
      → HasSlots v kvs
      → IsCode web (web.get kvs (codes "status")) code
      → AreFields (web.get kvs (codes "headers")) fields
      → IsBody (web.get kvs (codes "body")) body
      → IsReply web v (
          web.response_line code
          ++ (header_lines web fields ++ (length_line body ++ (crlf ++ until_nul body))))
  refused :
      (kvs : Slots)
      → HasSlots v kvs
      → ((n : ℕ) → ¬ IsCode web (web.get kvs (codes "status")) n)
        ⊎ (((t : Slots) → ¬ AreFields (web.get kvs (codes "headers")) t)
            ⊎ ((b : List ℕ) → ¬ IsBody (web.get kvs (codes "body")) b))
      → IsReply web v []

-- What a run of the fiber makes of the connection.
abbrev pub Replied : Web → Connection → FiberStatus × Value → Connection → Type 0
Replied web c (dead, v) c' =
    (t : List ℕ) × IsReply web v t × (c' ≡ record c { sent = c.sent ++ t; send_and_close = true })
Replied web c (pending, v) c' =
    (t : List ℕ) × IsReply web v t × (c' ≡ record c { sent = c.sent ++ t; send_and_close = true })
Replied web c (stopped, v) c' = c' ≡ c

-- What an event makes of the fibers and the connection.
abbrev pub AnsweredOnce :
    {J : Type 0}
    → Web
    → Continue J
    → J
    → Connection
    → Wrapper
    → Option HttpMessage
    → J × Connection
    → Type 0
AnsweredOnce web continue j c cw none r = r ≡ (j, c)
AnsweredOnce web continue j c cw (some hm) r =
    (r.0 ≡ (continue j cw.fiber (build_http_request web hm)).0)
    × Replied web c (continue j cw.fiber (build_http_request web hm)).1 r.1
