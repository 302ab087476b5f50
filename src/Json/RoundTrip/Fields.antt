-- ===== src/Json/RoundTrip/Fields.antt =====
-- The loop of an object over the slots that the encoder writes.
use puny_gui.Prelude.{
  ℕ, zero, suc, ◌≤◌, ◌≡◌, refl, ap, ◌∙◌, Bool, true, List, [], ◌∷◌, ◌++◌, append_assoc, length,
  length-append, ◌==◌, if◌then◌else◌, arith, Bool-cases, inl, inr, if_ind,
}
use puny_gui.Json.Value.{Value, Slots, Platform, no_slots, slot, table, string}
use puny_gui.Json.Result.{ok, ◌>>=◌, Decoded}
use puny_gui.Json.Unicode.{peek}
use puny_gui.Json.Strings.{white, skipwhite}
use puny_gui.Json.Encode.{KeyKind, key_kind, empty, no_bytes, bytes}
use puny_gui.Json.Printed.{
  Layout, new_line, quoted, string_points, colon, listed, printed, slot_printed, slots_printed,
}
use puny_gui.Json.Decode.{
  decode_entry, after_entry, put_entry, decode_fields, decode_kind, brace, has_keyword_key,
}
use puny_gui.Json.RoundTrip.Canonical.{
  IsText, IsWhite, IsBlank, KeyIsText, stops, canonical, put_slot, put_slots,
}
use puny_gui.Json.RoundTrip.Atoms.{skipwhite-append, new_line-IsWhite, string_points_lem}
use puny_gui.Json.RoundTrip.Items.{ReadsBack, no_end, stops-white}

-- What a string is written as starts with a quote.
pub quoted_at : (s rest : List ℕ) → IsText s → peek (quoted (string_points s) ++ rest) ≡ b'"'
quoted_at s rest t = ap (λ o. peek (quoted o ++ rest)) (string_points_lem s t)

-- Behind the colon, a space or nothing.
abbrev gap : Layout → List ℕ
gap l = if length l.tab == 0 then [] else b' ' ∷ []

colon-gap : (l : Layout) → colon l ≡ b':' ∷ gap l
colon-gap l = elim (Bool-cases (length l.tab == 0)) [ inl e ↦ rw e refl | inr e ↦ rw e refl ]

gap-IsWhite : (l : Layout) → IsWhite (gap l)
unfolding white
gap-IsWhite l = if_ind IsWhite (length l.tab == 0) (λ e. tt) (λ e. (refl, tt))

-- Where a key is read back, whatever stands behind it.
abbrev pub KeysBack : (List ℕ → Decoded Value) → Type 0
KeysBack one =
    (s rest : List ℕ) → IsText s → one (quoted (string_points s) ++ rest) ≡ ok (string s, rest)

module _ (one : List ℕ → Decoded Value) (pf : Platform) (l : Layout) (n : ℕ)
    (keywords nils : Bool) where
  abbrev pub SlotBack : KeyKind → Value → Type 0
  SlotBack empty v = Unit
  SlotBack no_bytes v = ⊥
  SlotBack (bytes s) v = IsText s × ReadsBack one (printed pf l n v) (canonical pf keywords nils v)

  abbrev pub AllSlotsBack : Slots → Type 0
  AllSlotsBack no_slots = Unit
  AllSlotsBack (slot k v kvs) = SlotBack (key_kind k) v × AllSlotsBack kvs

  pub slot_back :
      (k : KeyKind) (v : Value)
      → KeyIsText k
      → ReadsBack one (printed pf l n v) (canonical pf keywords nils v)
      → SlotBack k v
  slot_back empty v t r = tt
  slot_back no_bytes v t r = t
  slot_back (bytes s) v t r = (t, r)

module _ (one : List ℕ → Decoded Value) (pf : Platform) (l : Layout) (n : ℕ) (keywords nils : Bool)
    (keys : KeysBack one) (blank : IsBlank l) (line rest : List ℕ) (line_white : IsWhite line) where
  abbrev slot_count : KeyKind → ℕ → ℕ
  slot_count empty m = m
  slot_count no_bytes m = m
  slot_count (bytes s) m = suc m

  abbrev count : Slots → ℕ
  count no_slots = 0
  count (slot k v kvs) = slot_count (key_kind k) (count kvs)

  decode_entry_lem :
      (s t : List ℕ) (v : Value) (w q : List ℕ)
      → IsText s
      → ReadsBack one t v
      → IsWhite w
      → stops (peek q) ≡ true
      → decode_entry one (w ++ (quoted (string_points s) ++ (b':' ∷ (gap l ++ (t ++ q)))))
        ≡ ok ((string s, v), q)
  unfolding decode_entry
  decode_entry_lem s t v w q text value h r =
      let more = b':' ∷ (gap l ++ (t ++ q)) in
      let at = quoted_at s more text in
      rw
        (
          decode_entry,
          skipwhite-append w (quoted (string_points s) ++ more) h (ap white at),
          at,
          keys s more text,
          value (gap l) q (gap-IsWhite l) r,
        )
        refl

  -- A round of the loop.
  fields_round :
      (f : ℕ) (t : Slots) (s value : List ℕ) (v : Value) (w q : List ℕ)
      → IsText s
      → ReadsBack one value v
      → IsWhite w
      → stops (peek q) ≡ true
      → decode_fields
          (suc f)
          pf
          keywords
          one
          t
          (w ++ (quoted (string_points s) ++ (colon l ++ (value ++ q))))
        ≡ after_entry (decode_fields f pf keywords one) (put_entry pf keywords t (string s, v)) q
  unfolding decode_fields
  fields_round f t s value v w q text back h r =
      let more = b':' ∷ (gap l ++ (value ++ q)) in
      let at = quoted_at s more text in
      ap
        (λ c.
          decode_fields (suc f) pf keywords one t
            (w ++ (quoted (string_points s) ++ (c ++ (value ++ q)))))
        (colon-gap l)
      ∙ rw
          (
            decode_fields,
            no_end w (quoted (string_points s) ++ more) b'}' h refl (ap (◌== b'}') at),
            decode_entry_lem s value v w q text back h r,
          )
          refl

  -- The text of the slots, and the end of the object.
  abbrev closed : List ℕ → List ℕ
  closed parts = parts ++ (line ++ b'}' ∷ rest)

  slot_stop :
      (k : KeyKind) (v : Value) (parts : List ℕ)
      → SlotBack one pf l n keywords nils k v
      → stops (peek (closed parts)) ≡ true
      → stops (peek (closed (slot_printed l n k (printed pf l n v) parts))) ≡ true
  unfolding stops
  slot_stop empty v parts b h = h
  slot_stop no_bytes v parts b h = absurd b
  slot_stop (bytes s) v parts b h = refl

  slots-stop :
      (kvs : Slots)
      → AllSlotsBack one pf l n keywords nils kvs
      → stops (peek (closed (slots_printed pf l n kvs))) ≡ true
  unfolding slots_printed stops
  slots-stop no_slots b = stops-white line b'}' rest line_white refl
  slots-stop (slot k v kvs) b =
      slot_stop (key_kind k) v (slots_printed pf l n kvs) b.0 (slots-stop kvs b.1)

  -- A slot's text, the end of the object behind it.
  regroup :
      (key sep value parts : List ℕ)
      → closed (new_line l n ++ (key ++ (sep ++ (value ++ parts))))
        ≡ new_line l n ++ (key ++ (sep ++ (value ++ closed parts)))
  regroup key sep value parts =
      let end = line ++ b'}' ∷ rest in
      append_assoc (new_line l n) (key ++ (sep ++ (value ++ parts))) end
      ∙ ap (new_line l n ++◌) (
          append_assoc key (sep ++ (value ++ parts)) end
          ∙ ap (key ++◌)
              (append_assoc sep (value ++ parts) end ∙ ap (sep ++◌) (append_assoc value parts end)))

  -- The loop behind an entry, at text `parts` with `m` slots that put `result`.
  abbrev Behind : ℕ → List ℕ → (Slots → Slots) → Type 0
  Behind m parts result =
      (f : ℕ) (t : Slots)
      → m ≤ f
      → after_entry (decode_fields f pf keywords one) t (closed parts) ≡ ok (result t, rest)

  after_slot :
      (k : KeyKind) (v : Value) (m : ℕ) (parts : List ℕ) (result : Slots → Slots)
      → SlotBack one pf l n keywords nils k v
      → stops (peek (closed parts)) ≡ true
      → Behind m parts result
      → Behind
          (slot_count k m)
          (slot_printed l n k (printed pf l n v) parts)
          (λ t. result (put_slot pf keywords k (canonical pf keywords nils v) t))
  unfolding after_entry
  after_slot empty v m parts result b r h f t c = h f t c
  after_slot no_bytes v m parts result b r h f t c = absurd b
  after_slot (bytes s) v m parts result b r h zero t c = absurd (omega arith)
  after_slot (bytes s) v m parts result b r h (suc f) t c =
      ap (decode_fields (suc f) pf keywords one t)
        (regroup (quoted (string_points s)) (colon l) (printed pf l n v) parts)
      ∙ fields_round f t s (printed pf l n v) (canonical pf keywords nils v) (new_line l n)
          (closed parts) b.0 b.1 (new_line-IsWhite l n blank) r
      ∙ h f (put_entry pf keywords t (string s, canonical pf keywords nils v)) (omega arith)

  after_slots :
      (kvs : Slots)
      → AllSlotsBack one pf l n keywords nils kvs
      → Behind (count kvs) (slots_printed pf l n kvs) (put_slots pf keywords nils kvs)
  unfolding slots_printed put_slots after_entry
  after_slots no_slots b = λ f t c. rw (skipwhite-append line (b'}' ∷ rest) line_white refl) refl
  after_slots (slot k v kvs) b =
      after_slot (key_kind k) v (count kvs) (slots_printed pf l n kvs)
        (put_slots pf keywords nils kvs) b.0 (slots-stop kvs b.1) (after_slots kvs b.1)

  -- The loop at its start.
  abbrev start : List ℕ → List ℕ
  start parts = skipwhite ((listed line parts ++ b'}' ∷ []) ++ rest)

  abbrev FromStart : ℕ → List ℕ → (Slots → Slots) → Type 0
  FromStart m parts result =
      (f : ℕ) (t : Slots)
      → m ≤ f
      → decode_fields (suc f) pf keywords one t (start parts) ≡ ok (result t, rest)

  start_slot :
      (k : KeyKind) (v : Value) (m : ℕ) (parts : List ℕ) (result : Slots → Slots)
      → SlotBack one pf l n keywords nils k v
      → stops (peek (closed parts)) ≡ true
      → Behind m parts result
      → FromStart m parts result
      → FromStart
          (slot_count k m)
          (slot_printed l n k (printed pf l n v) parts)
          (λ t. result (put_slot pf keywords k (canonical pf keywords nils v) t))
  unfolding white
  start_slot empty v m parts result b r h g f t c = g f t c
  start_slot no_bytes v m parts result b r h g f t c = absurd b
  start_slot (bytes s) v m parts result b r h g f t c =
      let key = quoted (string_points s) in
      let text = new_line l n ++ (key ++ (colon l ++ (printed pf l n v ++ parts))) in
      let more = colon l ++ (printed pf l n v ++ closed parts) in
      ap (λ p. decode_fields (suc f) pf keywords one t (skipwhite p))
        (append_assoc (text ++ line) (b'}' ∷ []) rest
          ∙ append_assoc text line (b'}' ∷ rest)
          ∙ regroup key (colon l) (printed pf l n v) parts)
      ∙ ap (decode_fields (suc f) pf keywords one t) (
          skipwhite-append (new_line l n) (key ++ more) (new_line-IsWhite l n blank)
            (ap white (quoted_at s more b.0)))
      ∙ fields_round f t s (printed pf l n v) (canonical pf keywords nils v) [] (closed parts) b.0
          b.1 tt r
      ∙ h f (put_entry pf keywords t (string s, canonical pf keywords nils v)) (omega arith)

  start_slots :
      (kvs : Slots)
      → AllSlotsBack one pf l n keywords nils kvs
      → FromStart (count kvs) (slots_printed pf l n kvs) (put_slots pf keywords nils kvs)
  unfolding slots_printed put_slots decode_fields
  start_slots no_slots b f t c = refl
  start_slots (slot k v kvs) b f t c =
      start_slot (key_kind k) v (count kvs) (slots_printed pf l n kvs)
        (put_slots pf keywords nils kvs) b.0 (slots-stop kvs b.1) (after_slots kvs b.1)
        (start_slots kvs b.1) f t c

  slot_count-le :
      (k : KeyKind) (v : Value) (m : ℕ) (parts : List ℕ)
      → SlotBack one pf l n keywords nils k v
      → m ≤ length parts
      → slot_count k m ≤ length (slot_printed l n k (printed pf l n v) parts)
  slot_count-le empty v m parts b h = h
  slot_count-le no_bytes v m parts b h = absurd b
  slot_count-le (bytes s) v m parts b h =
      let key = quoted (string_points s) in
      omega (
        arith,
        length-append (new_line l n) (key ++ (colon l ++ (printed pf l n v ++ parts))),
        length-append key (colon l ++ (printed pf l n v ++ parts)),
        length-append (colon l) (printed pf l n v ++ parts),
        length-append (printed pf l n v) parts,
      )

  count-le :
      (kvs : Slots)
      → AllSlotsBack one pf l n keywords nils kvs
      → count kvs ≤ length (slots_printed pf l n kvs)
  unfolding slots_printed
  count-le no_slots b = omega arith
  count-le (slot k v kvs) b =
      slot_count-le (key_kind k) v (count kvs) (slots_printed pf l n kvs) b.0 (count-le kvs b.1)

  length-listed : (parts : List ℕ) → length parts ≤ suc (length (listed line parts))
  length-listed [] = omega arith
  length-listed (c ∷ parts) = omega (arith, length-append parts line)

  -- The case of a brace, at what the encoder writes for an object.
  pub brace-printed :
      (depth : ℕ) (kvs : Slots)
      → has_keyword_key depth ≡ keywords
      → AllSlotsBack one pf l n keywords nils kvs
      → decode_kind pf depth one brace
          ((b'{' ∷ (listed line (slots_printed pf l n kvs) ++ b'}' ∷ [])) ++ rest)
        ≡ ok (table (put_slots pf keywords nils kvs no_slots), rest)
  unfolding decode_kind
  brace-printed depth kvs h b =
      let parts = slots_printed pf l n kvs in
      let whole = (listed line parts ++ b'}' ∷ []) ++ rest in
      let room : count kvs ≤ suc (length whole) = omega (
        arith,
        count-le kvs b,
        length-listed parts,
        length-append (listed line parts) (b'}' ∷ []),
        length-append (listed line parts ++ b'}' ∷ []) rest,
      ) in
      ap
        (λ kw.
          decode_fields (suc (suc (length whole))) pf kw one no_slots (start parts) >>= λ (t, q).
          ok (table t, q))
        h
      ∙ ap (◌>>= λ (t, q). ok (table t, q)) (start_slots kvs b (suc (length whole)) no_slots room)
