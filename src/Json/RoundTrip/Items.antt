-- ===== src/Json/RoundTrip/Items.antt =====
-- The loop of an array over the parts that the encoder writes.
use puny_gui.Prelude.{
  ℕ, zero, suc, ◌≤◌, ◌≡◌, refl, ap, ◌∙◌, Bool, true, false, not, ◌&&◌, List, [], ◌∷◌, ◌++◌,
  append_assoc, length, length-append, ◌==◌, arith, Bool-cases, inl, inr,
}
use puny_gui.Json.Value.{Value, Items, Platform, no_items, item, array}
use puny_gui.Json.Result.{ok, ◌>>=◌, Decoded}
use puny_gui.Json.Unicode.{peek}
use puny_gui.Json.Strings.{white, skipwhite}
use puny_gui.Json.Printed.{Layout, new_line, listed, printed, items_printed}
use puny_gui.Json.Decode.{after_item, decode_items, decode_kind, bracket}
use puny_gui.Json.RoundTrip.Canonical.{IsWhite, IsBlank, stops, canonical, canonical_items}
use puny_gui.Json.RoundTrip.Atoms.{skipwhite-append, new_line-IsWhite}

-- A part is read back as `v`, with white space in front.
abbrev pub ReadsBack : (List ℕ → Decoded Value) → List ℕ → Value → Type 0
ReadsBack one t v =
    (w rest : List ℕ) → IsWhite w → stops (peek rest) ≡ true → one (w ++ (t ++ rest)) ≡ ok (v, rest)

-- A part starts with a byte that is neither white space nor the end of an array or an object.
abbrev pub is_start : ℕ → Bool
is_start c = not (white c) && (not (c == b']') && not (c == b'}'))

abbrev pub Starts : List ℕ → Type 0
Starts [] = ⊥
Starts (c ∷ cs) = is_start c ≡ true

pub Starts-white : (t rest : List ℕ) → Starts t → white (peek (t ++ rest)) ≡ false
Starts-white [] rest h = absurd h
Starts-white (c ∷ cs) rest h = ground arith

Starts-bracket : (t rest : List ℕ) → Starts t → (peek (t ++ rest) == b']') ≡ false
Starts-bracket [] rest h = absurd h
Starts-bracket (c ∷ cs) rest h = ground arith

eq_sound : (a b : ℕ) → (a == b) ≡ true → a ≡ b
eq_sound a b h = ground arith

pub no_end :
    (w p : List ℕ) (end : ℕ)
    → IsWhite w
    → white end ≡ false
    → (peek p == end) ≡ false
    → (peek (w ++ p) == end) ≡ false
no_end [] p end h n e = e
no_end (c ∷ w) p end h n e = elim (Bool-cases (c == end)) [
  | inl same ↦ let gone = ap white (eq_sound c end same) in let there = h.0 in cc
  | inr apart ↦ apart
]

white-stops : (c : ℕ) → white c ≡ true → stops c ≡ true
unfolding stops
white-stops c h = elim (Bool-cases (c == 0)) [
  | inl z ↦ rw (stops, z) refl
  | inr n ↦ rw (stops, n, h) refl
]

pub stops-white :
    (w : List ℕ) (c : ℕ) (rest : List ℕ)
    → IsWhite w
    → stops c ≡ true
    → stops (peek (w ++ c ∷ rest)) ≡ true
stops-white [] c rest h s = s
stops-white (d ∷ w) c rest h s = white-stops d h.0

module _ (one : List ℕ → Decoded Value) (pf : Platform) (l : Layout) (n : ℕ)
    (keywords nils : Bool) where
  abbrev pub AllBack : Items → Type 0
  AllBack no_items = Unit
  AllBack (item x xs) =
      (ReadsBack one (printed pf l n x) (canonical pf keywords nils x) × Starts (printed pf l n x))
      × AllBack xs

  abbrev count : Items → ℕ
  count no_items = 0
  count (item x xs) = suc (count xs)

  count-le : (xs : Items) → count xs ≤ length (items_printed pf l n xs)
  unfolding items_printed
  count-le no_items = omega arith
  count-le (item x xs) = omega (
    arith,
    count-le xs,
    length-append (new_line l n) (printed pf l n x ++ items_printed pf l n xs),
    length-append (printed pf l n x) (items_printed pf l n xs),
  )

  items-stop :
      (xs : Items) (line rest : List ℕ)
      → IsWhite line
      → stops (peek (items_printed pf l n xs ++ (line ++ b']' ∷ rest))) ≡ true
  unfolding items_printed stops
  items-stop no_items line rest h = stops-white line b']' rest h refl
  items-stop (item x xs) line rest h = refl

  -- A round of the loop.
  items_round :
      (f : ℕ) (t : List ℕ) (v : Value) (w rest : List ℕ)
      → ReadsBack one t v
      → Starts t
      → IsWhite w
      → stops (peek rest) ≡ true
      → decode_items (suc f) one (w ++ (t ++ rest)) ≡ after_item (decode_items f one) (v, rest)
  unfolding decode_items
  items_round f t v w rest back start h s =
      rw
        (
          decode_items,
          no_end w (t ++ rest) b']' h refl (Starts-bracket t rest start),
          back w rest h s,
        )
        refl

  after_items :
      (f : ℕ) (v : Value) (xs : Items) (line rest : List ℕ)
      → count xs ≤ f
      → AllBack xs
      → IsBlank l
      → IsWhite line
      → after_item (decode_items f one) (v, items_printed pf l n xs ++ (line ++ b']' ∷ rest))
        ≡ ok (item v (canonical_items pf keywords nils xs), rest)
  unfolding after_item items_printed canonical_items
  after_items f v no_items line rest c back blank h =
      rw (skipwhite-append line (b']' ∷ rest) h refl) refl
  after_items zero v (item x xs) line rest c back blank h = absurd (omega arith)
  after_items (suc f) v (item x xs) line rest c back blank h =
      let parts = items_printed pf l n xs in
      let end = line ++ b']' ∷ rest in
      ap (λ p. decode_items (suc f) one p >>= λ (vs, q). ok (item v vs, q))
        (append_assoc (new_line l n) (printed pf l n x ++ parts) end
          ∙ ap (new_line l n ++◌) (append_assoc (printed pf l n x) parts end))
      ∙ ap (◌>>= λ (vs, q). ok (item v vs, q)) (
          items_round f (printed pf l n x) (canonical pf keywords nils x) (new_line l n)
            (parts ++ end) back.0.0 back.0.1 (new_line-IsWhite l n blank)
            (items-stop xs line rest h)
          ∙ after_items f (canonical pf keywords nils x) xs line rest (omega arith) back.1 blank h)

  -- The case of a bracket, at what the encoder writes for an array.
  pub bracket-printed :
      (depth : ℕ) (xs : Items) (line rest : List ℕ)
      → AllBack xs
      → IsBlank l
      → IsWhite line
      → decode_kind pf depth one bracket
          ((b'[' ∷ (listed line (items_printed pf l n xs) ++ b']' ∷ [])) ++ rest)
        ≡ ok (array (canonical_items pf keywords nils xs), rest)
  unfolding decode_kind items_printed canonical_items
  bracket-printed depth no_items line rest back blank h = refl
  bracket-printed depth (item x xs) line rest back blank h =
      let t = printed pf l n x in
      let parts = items_printed pf l n xs in
      let end = line ++ b']' ∷ rest in
      let whole = (((new_line l n ++ (t ++ parts)) ++ line) ++ b']' ∷ []) ++ rest in
      let same : whole ≡ new_line l n ++ (t ++ (parts ++ end)) =
        append_assoc ((new_line l n ++ (t ++ parts)) ++ line) (b']' ∷ []) rest
        ∙ append_assoc (new_line l n ++ (t ++ parts)) line (b']' ∷ rest)
        ∙ append_assoc (new_line l n) (t ++ parts) end
        ∙ ap (new_line l n ++◌) (append_assoc t parts end) in
      let room : count xs ≤ suc (length whole) = omega (
        arith,
        ap length same,
        count-le xs,
        length-append (new_line l n) (t ++ (parts ++ end)),
        length-append t (parts ++ end),
        length-append parts end,
      ) in
      ap (λ p. decode_items (suc (suc (length whole))) one p >>= λ (vs, q). ok (array vs, q))
        (ap skipwhite same
          ∙ skipwhite-append (new_line l n) (t ++ (parts ++ end)) (new_line-IsWhite l n blank)
              (Starts-white t (parts ++ end) back.0.1))
      ∙ ap (◌>>= λ (vs, q). ok (array vs, q)) (
          items_round (suc (length whole)) t (canonical pf keywords nils x) [] (parts ++ end)
            back.0.0 back.0.1 tt (items-stop xs line rest h)
          ∙ after_items (suc (length whole)) (canonical pf keywords nils x) xs line rest room back.1
              blank h)
