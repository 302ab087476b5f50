-- ===== src/Json/Decode/Ends.antt =====
-- The end of `decode_one` and of `json_decode`.
use puny_gui.Prelude.{
  ℕ, zero, suc, ◌+◌, ◌%◌, ◌≤◌, ◌<◌, Bool, true, false, List, [], ◌∷◌, ltb, ◌==◌, if◌then◌else◌,
  arith, Bool-cases, inl, inr, length, drop, if_ind, codes,
}
use puny_gui.Json.Value.{Value, Items, Slots, Platform, nil, keyword, boolean, no_items, no_slots}
use puny_gui.Json.Result.{ok, err, out_of_fuel, ◌>>=◌, Decoded}
use puny_gui.Json.Unicode.{peek, next}
use puny_gui.Json.Strings.{skipwhite}
use puny_gui.Json.Strings.Ends.{
  Ends, skipwhite-le, length-next-le, length-drop-le, string_case-Ends,
}
use puny_gui.Json.Decode.{
  goes_on, Kind, kind_of, after_item, after_entry, put_entry, decode_items, decode_entry,
  decode_fields, decode_number, decode_word, decode_kind, decode_one, bad, end_of_source, digits,
  false_word, null_word, true_word, quote, bracket, brace, has_null_to_nil,
}

-- A step, and what is done with its result and the text that it leaves.
bind-Ends :
    {A B : Type 0} (n m : ℕ) (r : Decoded A) (k : A × List ℕ → Decoded B)
    → m ≤ n
    → Ends m r
    → ((a : A) (q : List ℕ) → length q < m → Ends n (k (a, q)))
    → Ends n (r >>= k)
bind-Ends n m (ok (a, q)) k l w h = h a q w
bind-Ends n m (err (e, q)) k l w h = omega arith
bind-Ends n m out_of_fuel k l w h = absurd w

-- The call of decode_one for a part, at texts shorter than `n`.
abbrev OneEnds : ℕ → (List ℕ → Decoded Value) → Type 0
OneEnds n one = (q : List ℕ) → length q ≤ n → Ends (length q) (one q)

-- Rounds of a loop that are to come, at texts shorter than `n`.
abbrev MoreEnds : {A : Type 0} → ℕ → (List ℕ → Decoded A) → Type 0
MoreEnds n more = (q : List ℕ) → length q < n → Ends (suc (length q)) (more q)

after_item-Ends :
    (n : ℕ) (more : List ℕ → Decoded Items) (v : Value) (q : List ℕ)
    → MoreEnds n more
    → length q < n
    → Ends n (after_item more (v, q))
unfolding after_item
after_item-Ends n more v q h l =
    if_ind (Ends n) (peek (skipwhite q) == b']')
      (λ e. omega (arith, length-next-le (skipwhite q), skipwhite-le q))
      (λ e.
        if_ind (Ends n) (peek (skipwhite q) == b',')
          (λ e'.
            bind-Ends n (suc (length (next (skipwhite q)))) (more (next (skipwhite q))) _
              (omega (arith, length-next-le (skipwhite q), skipwhite-le q))
              (h (next (skipwhite q)) (omega (arith, length-next-le (skipwhite q), skipwhite-le q)))
              λ vs rest lt. omega (arith, length-next-le (skipwhite q), skipwhite-le q))
          (λ e'. omega (arith, skipwhite-le q)))

Ends-mono : {A : Type 0} (n m : ℕ) (r : Decoded A) → n ≤ m → Ends n r → Ends m r
Ends-mono n m (ok (a, q)) l w = omega arith
Ends-mono n m (err (e, q)) l w = omega arith
Ends-mono n m out_of_fuel l w = w

decode_items-Ends :
    (f : ℕ) (one : List ℕ → Decoded Value) (p : List ℕ)
    → OneEnds (length p) one
    → length p < f
    → Ends (suc (length p)) (decode_items f one p)
unfolding decode_items
decode_items-Ends zero one p h l = absurd (omega arith)
decode_items-Ends (suc f) one p h l =
    elim (peek p == b']')
      as (λ b. Ends (suc (length p)) (elim b [
        | true ↦ ok (no_items, next p)
        | false ↦ one p >>= after_item (decode_items f one)
      ])) [
        | true ↦ omega (arith, length-next-le p)
        | false ↦
            bind-Ends (suc (length p)) (length p) (one p) _ (omega arith) (h p (omega arith))
              λ v q lt. Ends-mono (length p) _ _ (omega arith) (
                after_item-Ends (length p) (decode_items f one) v q
                  (λ r lt'. decode_items-Ends f one r (λ t le. h t (omega arith)) (omega arith)) lt)
      ]

decode_entry-Ends :
    (one : List ℕ → Decoded Value) (p : List ℕ)
    → OneEnds (length p) one
    → Ends (length p) (decode_entry one p)
unfolding decode_entry
decode_entry-Ends one p h =
    if_ind (Ends (length p)) (peek (skipwhite p) == b'"')
      (λ e.
        bind-Ends (length p) (length (skipwhite p)) (one (skipwhite p)) _ (skipwhite-le p)
          (h (skipwhite p) (skipwhite-le p))
          λ key q lt.
            if_ind (Ends (length p)) (peek (skipwhite q) == b':')
              (λ e'.
                bind-Ends (length p) (length (next (skipwhite q))) (one (next (skipwhite q))) _
                  (omega (arith, length-next-le (skipwhite q), skipwhite-le q, skipwhite-le p))
                  (h (next (skipwhite q))
                    (omega (arith, length-next-le (skipwhite q), skipwhite-le q, skipwhite-le p)))
                  λ v r lt'.
                    omega (arith, length-next-le (skipwhite q), skipwhite-le q, skipwhite-le p))
              (λ e'. omega (arith, skipwhite-le q, skipwhite-le p)))
      (λ e. skipwhite-le p)

after_entry-Ends :
    (n : ℕ) (more : Slots → List ℕ → Decoded Slots) (t : Slots) (q : List ℕ)
    → MoreEnds n (more t)
    → length q < n
    → Ends n (after_entry more t q)
unfolding after_entry
after_entry-Ends n more t q h l =
    if_ind (Ends n) (peek (skipwhite q) == b'}')
      (λ e. omega (arith, length-next-le (skipwhite q), skipwhite-le q))
      (λ e.
        if_ind (Ends n) (peek (skipwhite q) == b',')
          (λ e'.
            Ends-mono _ _ (more t (next (skipwhite q)))
              (omega (arith, length-next-le (skipwhite q), skipwhite-le q))
              (h (next (skipwhite q))
                (omega (arith, length-next-le (skipwhite q), skipwhite-le q))))
          (λ e'. omega (arith, skipwhite-le q)))

decode_fields-Ends :
    (f : ℕ) (pf : Platform) (keywords : Bool) (one : List ℕ → Decoded Value) (t : Slots)
    (p : List ℕ)
    → OneEnds (length p) one
    → length p < f
    → Ends (suc (length p)) (decode_fields f pf keywords one t p)
unfolding decode_fields
decode_fields-Ends zero pf keywords one t p h l = absurd (omega arith)
decode_fields-Ends (suc f) pf keywords one t p h l =
    elim (peek p == b'}')
      as (λ b. Ends (suc (length p)) (elim b [
        | true ↦ ok (t, next p)
        | false ↦ decode_entry one p >>= λ (kv, q).
            after_entry (decode_fields f pf keywords one) (put_entry pf keywords t kv) q
      ])) [
        | true ↦ omega (arith, length-next-le p)
        | false ↦
            bind-Ends (suc (length p)) (length p) (decode_entry one p) _ (omega arith)
              (decode_entry-Ends one p h)
              λ kv q lt. Ends-mono (length p) _ _ (omega arith) (
                after_entry-Ends (length p) (decode_fields f pf keywords one)
                  (put_entry pf keywords t kv) q
                  (λ r lt'.
                    decode_fields-Ends f pf keywords one _ r (λ t' le. h t' (omega arith))
                      (omega arith))
                  lt)
      ]

length-drop : (n : ℕ) (xs : List ℕ) → 0 < n → 0 < length xs → length (drop n xs) < length xs
length-drop zero xs h l = absurd (omega arith)
length-drop (suc n) [] h l = absurd (omega arith)
length-drop (suc n) (x ∷ xs) h l = omega (arith, length-drop-le n xs)

decode_number-Ends :
    (pf : Platform) (p : List ℕ) → 0 < length p → Ends (length p) (decode_number pf p)
unfolding decode_number
decode_number-Ends pf p h = elim (Bool-cases ((pf.strtod p).1 == 0)) [
  | inl e ↦ rw e (omega arith)
  | inr n ↦ rw n (length-drop (pf.strtod p).1 p (ground arith) h)
]

decode_word-Ends :
    (letters : List ℕ) (v : Value) (p : List ℕ)
    → 0 < length p
    → Ends (length p) (decode_word letters v p)
unfolding decode_word
decode_word-Ends letters v p h =
    if_ind (Ends (length p)) (goes_on letters (next p))
      (λ e. length-drop (suc (length letters)) p (omega arith) h) (λ e. omega arith)

decode_kind-Ends :
    (pf : Platform) (depth : ℕ) (one : List ℕ → Decoded Value) (c : ℕ) (cs : List ℕ)
    → OneEnds (length cs) one
    → (k : Kind) → Ends (suc (length cs)) (decode_kind pf depth one k (c ∷ cs))
unfolding decode_kind
decode_kind-Ends pf depth one c cs h bad = omega arith
decode_kind-Ends pf depth one c cs h end_of_source = omega arith
decode_kind-Ends pf depth one c cs h digits = decode_number-Ends pf (c ∷ cs) (omega arith)
decode_kind-Ends pf depth one c cs h false_word =
    decode_word-Ends (codes "alse") (boolean false) (c ∷ cs) (omega arith)
decode_kind-Ends pf depth one c cs h null_word =
    decode_word-Ends (codes "ull") (if has_null_to_nil depth then nil else keyword (codes "null"))
      (c ∷ cs) (omega arith)
decode_kind-Ends pf depth one c cs h true_word =
    decode_word-Ends (codes "rue") (boolean true) (c ∷ cs) (omega arith)
decode_kind-Ends pf depth one c cs h quote = string_case-Ends c cs
decode_kind-Ends pf depth one c cs h bracket =
    bind-Ends (suc (length cs)) (suc (length (skipwhite cs)))
      (decode_items (suc (suc (length cs))) one (skipwhite cs)) _ (omega (arith, skipwhite-le cs))
      (decode_items-Ends (suc (suc (length cs))) one (skipwhite cs)
        (λ q l. h q (omega (arith, skipwhite-le cs))) (omega (arith, skipwhite-le cs)))
      λ vs q l. omega (arith, skipwhite-le cs)
decode_kind-Ends pf depth one c cs h brace =
    bind-Ends (suc (length cs)) (suc (length (skipwhite cs)))
      (decode_fields (suc (suc (length cs))) pf _ one no_slots (skipwhite cs)) _
      (omega (arith, skipwhite-le cs))
      (decode_fields-Ends (suc (suc (length cs))) pf _ one no_slots (skipwhite cs)
        (λ q l. h q (omega (arith, skipwhite-le cs))) (omega (arith, skipwhite-le cs)))
      λ vs q l. omega (arith, skipwhite-le cs)

-- A byte is there, or the text ends.
decode_at-Ends :
    (pf : Platform) (depth : ℕ) (one : List ℕ → Decoded Value) (p : List ℕ)
    → OneEnds (length p) one
    → Ends (length p) (decode_kind pf depth one (kind_of (peek p)) p)
unfolding decode_kind kind_of
decode_at-Ends pf depth one [] h = omega arith
decode_at-Ends pf depth one (c ∷ cs) h =
    decode_kind-Ends pf depth one c cs (λ q l. h q (omega arith)) (kind_of c)

-- Fuel for the depths that are left up to the guard is enough.
pub decode_one-Ends :
    (f : ℕ) (pf : Platform) (depth : ℕ) (p : List ℕ)
    → pf.recursion_guard < 0xFFFF
    → depth % 0x10000 ≤ suc pf.recursion_guard
    → 2 + pf.recursion_guard ≤ f + depth % 0x10000
    → Ends (length p) (decode_one f pf depth p)
unfolding decode_one
decode_one-Ends zero pf depth p g d h = absurd (omega arith)
decode_one-Ends (suc f) pf depth p g d h =
    elim (Bool-cases (ltb pf.recursion_guard (depth % 0x10000))) [
      | inl e ↦ rw (decode_one, e) (omega arith)
      | inr n ↦
          rw (decode_one, n)
            (Ends-mono _ _
              (decode_kind pf depth (decode_one f pf (depth + 1)) (kind_of (peek (skipwhite p)))
                (skipwhite p))
              (skipwhite-le p)
              (decode_at-Ends pf depth (decode_one f pf (depth + 1)) (skipwhite p)
                λ q l. decode_one-Ends f pf (depth + 1) q g (ground arith) (ground arith)))
    ]
