-- ===== src/Json/Decode/Data.antt =====
-- What kinds of values `decode_one` makes.
use puny_gui.Prelude.{
  ℕ, zero, suc, ◌+◌, ◌%◌, ◌≡◌, refl, ap, Bool, true, false, List, length, ltb, ◌==◌, if◌then◌else◌,
  codes, if_ind, ==_iff, Bool-cases, inl, inr,
}
use puny_gui.Json.Value.{Value, Items, Slots, Platform, nil, boolean, keyword, table, no_slots}
use puny_gui.Json.Result.{ok, err, out_of_fuel, ◌>>=◌, Decoded}
use puny_gui.Json.Unicode.{peek, next}
use puny_gui.Json.Strings.{white, skipwhite, scan, at_place, Unescaped, string_case}
use puny_gui.Json.RoundTrip.Atoms.{skipwhite_stays}
use puny_gui.Json.Decode.{
  goes_on, Kind, kind_of, after_item, after_entry, put_entry, to_keyword, decode_items,
  decode_entry, decode_fields, decode_number, decode_word, decode_kind, decode_one, bad,
  end_of_source, digits, false_word, null_word, true_word, quote, bracket, brace, has_keyword_key,
  has_null_to_nil,
}
use puny_gui.Json.Decode.Shapes.{IsKey, IsString, IsData, ItemsData, SlotsData}

-- A predicate of what a step gives, if it gives something.
abbrev pub Gives : {A : Type 0} → (A → Type 0) → Decoded A → Type 0
Gives P (ok (a, q)) = P a
Gives P (err e) = Unit
Gives P out_of_fuel = Unit

bind-Gives :
    {A B : Type 0} (P : A → Type 0) (Q : B → Type 0) (r : Decoded A) (k : A × List ℕ → Decoded B)
    → Gives P r
    → ((a : A) (q : List ℕ) → P a → Gives Q (k (a, q)))
    → Gives Q (r >>= k)
bind-Gives P Q (ok (a, q)) k h next_step = next_step a q h
bind-Gives P Q (err e) k h next_step = tt
bind-Gives P Q out_of_fuel k h next_step = tt

-- The call of decode_one for a part: data, and a string at a quote.
abbrev OneGives : (List ℕ → Decoded Value) → Type 0
OneGives one =
    ((q : List ℕ) → Gives IsData (one q))
    × ((q : List ℕ) → (peek q == b'"') ≡ true → Gives IsString (one q))

after_item-Gives :
    (more : List ℕ → Decoded Items) (v : Value) (q : List ℕ)
    → ((r : List ℕ) → Gives ItemsData (more r))
    → IsData v
    → Gives ItemsData (after_item more (v, q))
unfolding after_item
after_item-Gives more v q h d =
    if_ind (Gives ItemsData) (peek (skipwhite q) == b']') (λ e. (d, tt))
      λ e.
        if_ind (Gives ItemsData) (peek (skipwhite q) == b',')
          (λ e'.
            bind-Gives ItemsData ItemsData (more (next (skipwhite q))) _ (h _) λ vs r ds. (d, ds))
          (λ e'. tt)

decode_items-Gives :
    (f : ℕ) (one : List ℕ → Decoded Value) (p : List ℕ)
    → OneGives one
    → Gives ItemsData (decode_items f one p)
unfolding decode_items
decode_items-Gives zero one p h = tt
decode_items-Gives (suc f) one p h = elim (Bool-cases (peek p == b']')) [
  | inl e ↦ rw (decode_items, e) tt
  | inr e ↦
      rw (decode_items, e)
        (bind-Gives IsData ItemsData (one p) _ (h.0 p)
          λ v q d. after_item-Gives (decode_items f one) v q (λ r. decode_items-Gives f one r h) d)
]

abbrev IsEntry : Value × Value → Type 0
IsEntry (key, v) = IsString key × IsData v

decode_entry-Gives :
    (one : List ℕ → Decoded Value) (p : List ℕ) → OneGives one → Gives IsEntry (decode_entry one p)
unfolding decode_entry
decode_entry-Gives one p h =
    if_ind (Gives IsEntry) (peek (skipwhite p) == b'"')
      (λ e. bind-Gives IsString IsEntry (one (skipwhite p)) _ (h.1 (skipwhite p) e) λ key q k.
        if_ind (Gives IsEntry) (peek (skipwhite q) == b':')
          (λ e'. bind-Gives IsData IsEntry (one (next (skipwhite q))) _ (h.0 _) λ v r d. (k, d))
          (λ e'. tt))
      (λ e. tt)

to_keyword-IsKey :
    (keywords : Bool) (key : Value)
    → IsString key
    → IsKey (if keywords then to_keyword key else key)
to_keyword-IsKey true key (s, e) = rw e tt
to_keyword-IsKey false key (s, e) = rw e tt

-- What janet_table_put promises: the slots are the old ones and the new one.
abbrev pub PutsData : Platform → Type 0
PutsData pf =
    (t : Slots) (k v : Value) → SlotsData t → IsKey k → IsData v → SlotsData (pf.put t k v)

after_entry-Gives :
    (more : Slots → List ℕ → Decoded Slots) (t : Slots) (q : List ℕ)
    → ((r : List ℕ) → Gives SlotsData (more t r))
    → SlotsData t
    → Gives SlotsData (after_entry more t q)
unfolding after_entry
after_entry-Gives more t q h d =
    if_ind (Gives SlotsData) (peek (skipwhite q) == b'}') (λ e. d)
      λ e. if_ind (Gives SlotsData) (peek (skipwhite q) == b',') (λ e'. h _) (λ e'. tt)

decode_fields-Gives :
    (f : ℕ) (pf : Platform) (keywords : Bool) (one : List ℕ → Decoded Value) (t : Slots)
    (p : List ℕ)
    → PutsData pf
    → OneGives one
    → SlotsData t
    → Gives SlotsData (decode_fields f pf keywords one t p)
unfolding decode_fields
decode_fields-Gives zero pf keywords one t p puts h d = tt
decode_fields-Gives (suc f) pf keywords one t p puts h d = elim (Bool-cases (peek p == b'}')) [
  | inl e ↦ rw (decode_fields, e) d
  | inr e ↦
      rw (decode_fields, e)
        (bind-Gives IsEntry SlotsData (decode_entry one p) _ (decode_entry-Gives one p h) λ kv q en.
          let d' = puts t _ kv.1 d (to_keyword-IsKey keywords kv.0 en.0) en.1 in
          after_entry-Gives (decode_fields f pf keywords one) (put_entry pf keywords t kv) q
            (λ r. decode_fields-Gives f pf keywords one _ r puts h d') d')
]

at_place-Gives : (p : List ℕ) (r : Unescaped) → Gives IsString (at_place p r)
at_place-Gives p (ok (bytes, rest)) = (bytes, refl)
at_place-Gives p (err e) = tt
at_place-Gives p out_of_fuel = tt

string_case-Gives : (p : List ℕ) → Gives IsString (string_case p)
unfolding string_case
string_case-Gives p =
    if_ind (Gives IsString) (peek (scan (next p)).1 == b'\\') (λ e. at_place-Gives (next p) _)
      λ e.
        if_ind (Gives IsString) (peek (scan (next p)).1 == b'"') (λ e'. ((scan (next p)).0, refl))
          (λ e'. tt)

string-IsData : (r : Decoded Value) → Gives IsString r → Gives IsData r
string-IsData (ok (v, q)) (s, e) = rw e tt
string-IsData (err e) h = tt
string-IsData out_of_fuel h = tt

decode_word-Gives :
    (letters : List ℕ) (v : Value) (p : List ℕ) → IsData v → Gives IsData (decode_word letters v p)
unfolding decode_word
decode_word-Gives letters v p d =
    if_ind (Gives IsData) (goes_on letters (next p)) (λ e. d) (λ e. tt)

decode_number-Gives : (pf : Platform) (p : List ℕ) → Gives IsData (decode_number pf p)
unfolding decode_number
decode_number-Gives pf p = if_ind (Gives IsData) ((pf.strtod p).1 == 0) (λ e. tt) (λ e. tt)

decode_kind-Gives :
    (pf : Platform) (depth : ℕ) (one : List ℕ → Decoded Value) (p : List ℕ)
    → PutsData pf
    → OneGives one
    → (k : Kind) → Gives IsData (decode_kind pf depth one k p)
unfolding decode_kind
decode_kind-Gives pf depth one p puts h bad = tt
decode_kind-Gives pf depth one p puts h end_of_source = tt
decode_kind-Gives pf depth one p puts h digits = decode_number-Gives pf p
decode_kind-Gives pf depth one p puts h false_word =
    decode_word-Gives (codes "alse") (boolean false) p tt
decode_kind-Gives pf depth one p puts h null_word =
    let v : Value = if has_null_to_nil depth then nil else keyword (codes "null") in
    decode_word-Gives (codes "ull") v p (
      if_ind IsData (has_null_to_nil depth) {x = nil} {y = keyword (codes "null")} (λ e. tt)
        (λ e. tt))
decode_kind-Gives pf depth one p puts h true_word =
    decode_word-Gives (codes "rue") (boolean true) p tt
decode_kind-Gives pf depth one p puts h quote = string-IsData _ (string_case-Gives p)
decode_kind-Gives pf depth one p puts h bracket =
    bind-Gives ItemsData IsData (decode_items (suc (length p)) one (skipwhite (next p))) _
      (decode_items-Gives (suc (length p)) one (skipwhite (next p)) h) λ vs r d. d
decode_kind-Gives pf depth one p puts h brace =
    let keywords : Bool = has_keyword_key depth in
    bind-Gives SlotsData IsData
      (decode_fields (suc (length p)) pf keywords one no_slots (skipwhite (next p)))
      (λ (t, rest). ok (table t, rest))
      (decode_fields-Gives (suc (length p)) pf keywords one no_slots (skipwhite (next p)) puts h tt)
      λ t r d. d

-- A quote is no white space, and begins a string.
decode_quote-Gives :
    (pf : Platform) (depth : ℕ) (one : List ℕ → Decoded Value) (p : List ℕ)
    → (peek p == b'"') ≡ true
    → Gives IsString (decode_kind pf depth one (kind_of (peek (skipwhite p))) (skipwhite p))
unfolding decode_kind kind_of
decode_quote-Gives pf depth one p q =
    let at : peek p ≡ b'"' = (==_iff (peek p) b'"').0 q in
    let e : skipwhite p ≡ p = skipwhite_stays p (ap white at) in rw (e, at) (string_case-Gives p)

pub decode_one-Gives :
    (f : ℕ) (pf : Platform) (depth : ℕ) → PutsData pf → OneGives (decode_one f pf depth)
unfolding decode_one
decode_one-Gives zero pf depth puts = (λ q. tt, λ q e. tt)
decode_one-Gives (suc f) pf depth puts = (
  λ p. elim (Bool-cases (ltb pf.recursion_guard (depth % 0x10000))) [
    | inl e ↦ rw (decode_one, e) tt
    | inr e ↦
        rw (decode_one, e)
          (decode_kind-Gives pf depth (decode_one f pf (depth + 1)) (skipwhite p) puts
            (decode_one-Gives f pf (depth + 1) puts) (kind_of (peek (skipwhite p))))
  ],
  λ p q. elim (Bool-cases (ltb pf.recursion_guard (depth % 0x10000))) [
    | inl e ↦ rw (decode_one, e) tt
    | inr e ↦ rw (decode_one, e) (decode_quote-Gives pf depth (decode_one f pf (depth + 1)) p q)
  ],
)
