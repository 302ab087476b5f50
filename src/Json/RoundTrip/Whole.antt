-- ===== src/Json/RoundTrip/Whole.antt =====
-- `decode_one` at what `encode_one` writes.
use puny_gui.Prelude.{
  ℕ, zero, suc, ◌+◌, ◌/◌, ◌%◌, ◌≤◌, ◌<◌, ◌≡◌, refl, ap, ◌∙◌, Bool, true, false, List, [], ◌∷◌, ◌++◌,
  ltb, ◌==◌, if◌then◌else◌, arith, codes, if_ind,
}
use puny_gui.Json.Value.{
  Value, Items, Slots, Platform, nil, other, boolean, number, string, symbol, keyword, buffer,
  array, tuple, table, struct, no_items, item, no_slots, slot,
}
use puny_gui.Json.Result.{ok}
use puny_gui.Json.Unicode.{peek}
use puny_gui.Json.Strings.{white}
use puny_gui.Json.Encode.{key_kind}
use puny_gui.Json.Printed.{Layout, new_line, quoted, string_points, printed}
use puny_gui.Json.Decode.{
  kind_of, digits, decode_kind, decode_one, decode_word, has_keyword_key, has_null_to_nil,
}
use puny_gui.Json.RoundTrip.Canonical.{
  IsText, IsNumber, IsWhite, IsBlank, IsPlain, ItemsPlain, SlotsPlain, nesting, items_nesting,
  slots_nesting, stops, canonical,
}
use puny_gui.Json.RoundTrip.Atoms.{
  skipwhite-append, new_line-IsWhite, string_points_lem, string_case-quoted, decode_number-print,
}
use puny_gui.Json.RoundTrip.Items.{ReadsBack, Starts, Starts-white, AllBack, bracket-printed}
use puny_gui.Json.RoundTrip.Fields.{quoted_at, KeysBack, slot_back, AllSlotsBack, brace-printed}

-- A value is found behind white space, and decoded by its first byte.
dispatch :
    (f : ℕ) (pf : Platform) (d : ℕ) (w t rest : List ℕ)
    → d % 0x10000 ≤ pf.recursion_guard
    → IsWhite w
    → Starts t
    → decode_one (suc f) pf d (w ++ (t ++ rest))
      ≡ decode_kind pf d (decode_one f pf (d + 1)) (kind_of (peek (t ++ rest))) (t ++ rest)
unfolding decode_one
dispatch f pf d w t rest g h s =
    let shallow : ltb pf.recursion_guard (d % 0x10000) ≡ false = ground arith in
    rw (decode_one, shallow, skipwhite-append w (t ++ rest) h (Starts-white t rest s)) refl

quoted-Starts : (s : List ℕ) → IsText s → Starts (quoted (string_points s))
unfolding white
quoted-Starts s t = rw (string_points_lem s t) refl

number-Starts : (p : List ℕ) → kind_of (peek p) ≡ digits → Starts p
unfolding kind_of white
number-Starts [] h = cc
number-Starts (c ∷ cs) h = ground arith

-- The flags at a depth.
pub record At (pf : Platform) (keywords nils : Bool) (d : ℕ) : Type 0 where
  pub guard : pf.recursion_guard < 0xFFFF
  pub keyword_flag : has_keyword_key d ≡ keywords
  pub nil_flag : has_null_to_nil d ≡ nils

At-suc :
    (pf : Platform) (keywords nils : Bool) (d : ℕ)
    → d % 0x10000 < 0xFFFF
    → At pf keywords nils d
    → At pf keywords nils (d + 1)
At-suc pf keywords nils d h a = record {
  guard = a.guard;
  keyword_flag =
      let same : (d + 1) / 0x10000 ≡ d / 0x10000 = omega arith in
      ap (λ q. q % 2 == 1) same ∙ a.keyword_flag;
  nil_flag =
      let same : (d + 1) / 0x20000 ≡ d / 0x20000 = omega arith in
      ap (λ q. q % 2 == 1) same ∙ a.nil_flag;
}

strings_back :
    (f : ℕ) (pf : Platform) (d : ℕ) (s w rest : List ℕ)
    → d % 0x10000 ≤ pf.recursion_guard
    → IsText s
    → IsWhite w
    → decode_one (suc f) pf d (w ++ (quoted (string_points s) ++ rest)) ≡ ok (string s, rest)
unfolding decode_kind kind_of
strings_back f pf d s w rest g t h =
    dispatch f pf d w (quoted (string_points s)) rest g h (quoted-Starts s t)
    ∙ ap
        (λ c.
          decode_kind pf d (decode_one f pf (d + 1)) (kind_of c) (quoted (string_points s) ++ rest))
        (quoted_at s rest t)
    ∙ string_case-quoted s rest t

keys_back :
    (f : ℕ) (pf : Platform) (d : ℕ)
    → 0 < f
    → d % 0x10000 ≤ pf.recursion_guard
    → KeysBack (decode_one f pf d)
keys_back zero pf d h g s rest t = absurd (omega arith)
keys_back (suc f) pf d h g s rest t = strings_back f pf d s [] rest g t tt

printed-Starts :
    (pf : Platform) (l : Layout) (n : ℕ) (x : Value) → IsPlain pf x → Starts (printed pf l n x)
unfolding printed IsPlain white
printed-Starts pf l n nil h = refl
printed-Starts pf l n (boolean b) h = if_ind Starts b (λ e. refl) (λ e. refl)
printed-Starts pf l n (number x) h = number-Starts (pf.print x) h.starts
printed-Starts pf l n (string s) h = quoted-Starts s h
printed-Starts pf l n (symbol s) h = quoted-Starts s h
printed-Starts pf l n (keyword s) h = quoted-Starts s h
printed-Starts pf l n (buffer s) h = quoted-Starts s h
printed-Starts pf l n (array xs) h = refl
printed-Starts pf l n (tuple xs) h = refl
printed-Starts pf l n (table kvs) h = refl
printed-Starts pf l n (struct kvs) h = refl
printed-Starts pf l n other h = absurd h

digits_front : (p rest : List ℕ) → kind_of (peek p) ≡ digits → kind_of (peek (p ++ rest)) ≡ digits
unfolding kind_of
digits_front [] rest h = cc
digits_front (c ∷ cs) rest h = h

module _ (pf : Platform) (l : Layout) (keywords nils : Bool) (blank : IsBlank l) where
  nil_back :
      (f d : ℕ) (w rest : List ℕ)
      → At pf keywords nils d
      → d % 0x10000 ≤ pf.recursion_guard
      → IsWhite w
      → decode_one (suc f) pf d (w ++ (codes "null" ++ rest))
        ≡ ok (canonical pf keywords nils nil, rest)
  unfolding decode_kind decode_word kind_of canonical white
  nil_back f d w rest a g h =
      dispatch f pf d w (codes "null") rest g h refl
      ∙ ap (λ b. ok ((if b then nil else keyword (codes "null")), rest)) a.nil_flag

  boolean_back :
      (b : Bool) (f d : ℕ) (w rest : List ℕ)
      → d % 0x10000 ≤ pf.recursion_guard
      → IsWhite w
      → decode_one (suc f) pf d (w ++ ((if b then codes "true" else codes "false") ++ rest))
        ≡ ok (boolean b, rest)
  unfolding decode_kind decode_word kind_of white
  boolean_back true f d w rest g h = dispatch f pf d w (codes "true") rest g h refl
  boolean_back false f d w rest g h = dispatch f pf d w (codes "false") rest g h refl

  number_back :
      (x f d : ℕ) (w rest : List ℕ)
      → IsNumber pf x
      → d % 0x10000 ≤ pf.recursion_guard
      → IsWhite w
      → stops (peek rest) ≡ true
      → decode_one (suc f) pf d (w ++ (pf.print x ++ rest)) ≡ ok (number x, rest)
  unfolding decode_kind
  number_back x f d w rest i g h s =
      dispatch f pf d w (pf.print x) rest g h (number-Starts (pf.print x) i.starts)
      ∙ ap (λ k. decode_kind pf d (decode_one f pf (d + 1)) k (pf.print x ++ rest))
          (digits_front (pf.print x) rest i.starts)
      ∙ decode_number-print pf x rest i s

  mutual
    unfolding nesting printed canonical IsPlain decode_kind kind_of white

    pub value_back :
        (x : Value)
        → IsPlain pf x
        → (n f d : ℕ) → At pf keywords nils d
        → d % 0x10000 + nesting x ≤ pf.recursion_guard
        → nesting x < f
        → ReadsBack (decode_one f pf d) (printed pf l n x) (canonical pf keywords nils x)
    value_back x p n zero d a g m w rest h s = absurd (omega arith)
    value_back nil p n (suc f) d a g m w rest h s = nil_back f d w rest a (omega arith) h
    value_back (boolean b) p n (suc f) d a g m w rest h s =
        boolean_back b f d w rest (omega arith) h
    value_back (number x) p n (suc f) d a g m w rest h s =
        number_back x f d w rest p (omega arith) h s
    value_back (string t) p n (suc f) d a g m w rest h s =
        strings_back f pf d t w rest (omega arith) p h
    value_back (symbol t) p n (suc f) d a g m w rest h s =
        strings_back f pf d t w rest (omega arith) p h
    value_back (keyword t) p n (suc f) d a g m w rest h s =
        strings_back f pf d t w rest (omega arith) p h
    value_back (buffer t) p n (suc f) d a g m w rest h s =
        strings_back f pf d t w rest (omega arith) p h
    value_back (array xs) p n (suc f) d a g m w rest h s =
        dispatch f pf d w (printed pf l n (array xs)) rest (omega arith) h refl
        ∙ bracket-printed (decode_one f pf (d + 1)) pf l (n + 1) keywords nils d xs (new_line l n)
            rest (items_back xs p (n + 1) f d a g m) blank (new_line-IsWhite l n blank)
    value_back (tuple xs) p n (suc f) d a g m w rest h s =
        dispatch f pf d w (printed pf l n (tuple xs)) rest (omega arith) h refl
        ∙ bracket-printed (decode_one f pf (d + 1)) pf l (n + 1) keywords nils d xs (new_line l n)
            rest (items_back xs p (n + 1) f d a g m) blank (new_line-IsWhite l n blank)
    value_back (table kvs) p n (suc f) d a g m w rest h s =
        dispatch f pf d w (printed pf l n (table kvs)) rest (omega arith) h refl
        ∙ brace-printed (decode_one f pf (d + 1)) pf l (n + 1) keywords nils
            (keys_back f pf (d + 1) (omega arith) (omega (arith, a.guard))) blank (new_line l n)
            rest (new_line-IsWhite l n blank) d kvs a.keyword_flag
            (slots_back kvs p (n + 1) f d a g m)
    value_back (struct kvs) p n (suc f) d a g m w rest h s =
        dispatch f pf d w (printed pf l n (struct kvs)) rest (omega arith) h refl
        ∙ brace-printed (decode_one f pf (d + 1)) pf l (n + 1) keywords nils
            (keys_back f pf (d + 1) (omega arith) (omega (arith, a.guard))) blank (new_line l n)
            rest (new_line-IsWhite l n blank) d kvs a.keyword_flag
            (slots_back kvs p (n + 1) f d a g m)
    value_back other p n (suc f) d a g m w rest h s = absurd p

    items_back :
        (xs : Items)
        → ItemsPlain pf xs
        → (n f d : ℕ) → At pf keywords nils d
        → d % 0x10000 + suc (items_nesting xs) ≤ pf.recursion_guard
        → suc (items_nesting xs) < suc f
        → AllBack (decode_one f pf (d + 1)) pf l n keywords nils xs
    items_back no_items p n f d a g m = tt
    items_back (item x xs) p n f d a g m = (
      (
        value_back x p.0 n f (d + 1) (At-suc pf keywords nils d (omega (arith, a.guard)) a)
            (omega (arith, a.guard)) (omega arith),
        printed-Starts pf l n x p.0,
      ),
      items_back xs p.1 n f d a (omega arith) (omega arith),
    )

    slots_back :
        (kvs : Slots)
        → SlotsPlain pf kvs
        → (n f d : ℕ) → At pf keywords nils d
        → d % 0x10000 + suc (slots_nesting kvs) ≤ pf.recursion_guard
        → suc (slots_nesting kvs) < suc f
        → AllSlotsBack (decode_one f pf (d + 1)) pf l n keywords nils kvs
    slots_back no_slots p n f d a g m = tt
    slots_back (slot k v kvs) p n f d a g m = (
      slot_back (decode_one f pf (d + 1)) pf l n keywords nils (key_kind k) v p.0 (
          value_back v p.1.0 n f (d + 1) (At-suc pf keywords nils d (omega (arith, a.guard)) a)
            (omega (arith, a.guard)) (omega arith)),
      slots_back kvs p.1.1 n f d a (omega arith) (omega arith),
    )
