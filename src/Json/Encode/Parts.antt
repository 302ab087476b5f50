-- ===== src/Json/Encode/Parts.antt =====
-- What a round of the loops over items and slots writes, and the loops between their brackets.
use puny_gui.Prelude.{
  ℕ, ◌≡◌, refl, sym, ap, ◌∙◌, false, List, [], ◌∷◌, ◌++◌, append_assoc, ◌==◌, codes,
}
use puny_gui.Json.Value.{Value, Items, Platform, no_items, item}
use puny_gui.Json.Result.{Error, Result, ok, err, out_of_fuel, ◌>>=◌}
use puny_gui.Json.Encode.{
  Encoder, push, indented, encode_string, close, KeyKind, empty, no_bytes, bytes, encode_key,
  encode_slot, encode_one, encode_items,
}
use puny_gui.Json.Encode.Buffer.{
  layout, writes, push-push, push-nil, encode_newline_lem, encode_string_lem, close_comma,
  close_bare,
}
use puny_gui.Json.Printed.{
  Layout, new_line, quoted, text_verdict, string_points, listed, colon, slot_printed, slot_verdict,
  printed, items_printed, verdict, items_verdict,
}

writes-push :
    (v : Result Error Unit) (s t : List ℕ) (e : Encoder)
    → writes v t (push s e) ≡ writes v (s ++ t) e
writes-push (ok u) s t e = ap ok (push-push s t e)
writes-push (err x) s t e = refl
writes-push out_of_fuel s t e = refl

-- A step that writes, and one behind it.
then_writes :
    (v w : Result Error Unit) (s t : List ℕ) (e : Encoder) (r : Result Error Encoder)
    (k : Encoder → Result Error Encoder)
    → r ≡ writes v s e
    → k (push s e) ≡ writes w t (push s e)
    → (r >>= k) ≡ writes (v >>= λ _. w) (s ++ t) e
then_writes (ok u) w s t e r k h g = ap (◌>>= k) h ∙ g ∙ writes-push w s t e
then_writes (err x) w s t e r k h g = ap (◌>>= k) h
then_writes out_of_fuel w s t e r k h g = ap (◌>>= k) h

-- Parts without the first comma, and a comma behind the last one.
abbrev pub trailing : List ℕ → List ℕ
trailing [] = []
trailing (c ∷ parts) = parts ++ codes ","

-- What a value, the rounds of a loop behind a comma, and the rounds from the first one on write.
abbrev pub Writes : Platform → Value → Type 0
Writes pf x =
    (e : Encoder) → encode_one pf x e ≡ writes (verdict x) (printed pf (layout e) e.indent x) e

abbrev pub WritesMore :
    Result Error Unit → (Layout → ℕ → List ℕ) → (Encoder → Result Error Encoder) → Type 0
WritesMore v t loop =
    (e : Encoder) → loop (push (codes ",") e) ≡ writes v (t (layout e) e.indent ++ codes ",") e

abbrev pub WritesFirst :
    Result Error Unit → (Layout → ℕ → List ℕ) → (Encoder → Result Error Encoder) → Type 0
WritesFirst v t loop = (e : Encoder) → loop e ≡ writes v (trailing (t (layout e) e.indent)) e

regroup : (a b c d : List ℕ) → a ++ (b ++ (c ++ d)) ≡ (a ++ (b ++ c)) ++ d
regroup a b c d = ap (a ++◌) (sym (append_assoc b c d)) ∙ sym (append_assoc a (b ++ c) d)

pub first_item :
    (pf : Platform) (x : Value) (xs : Items)
    → Writes pf x
    → WritesMore (items_verdict xs) (λ l n. items_printed pf l n xs) (encode_items pf xs)
    → WritesFirst
        (items_verdict (item x xs))
        (λ l n. items_printed pf l n (item x xs))
        (encode_items pf (item x xs))
unfolding encode_one items_verdict items_printed
first_item pf x xs one more e =
    let line = new_line (layout e) e.indent in
    let px = printed pf (layout e) e.indent x in
    let parts = items_printed pf (layout e) e.indent xs in
    ap (λ e₁. encode_one pf x e₁ >>= λ e'. encode_items pf xs (push (codes ",") e'))
      (encode_newline_lem e)
    ∙ then_writes (verdict x) (items_verdict xs) px (parts ++ codes ",") (push line e) _ _
        (one (push line e)) (more (push px (push line e)))
    ∙ writes-push (items_verdict (item x xs)) line (px ++ (parts ++ codes ",")) e
    ∙ ap (λ t. writes (items_verdict (item x xs)) t e) (regroup line px parts (codes ","))

-- The loop behind a comma, from the loop at its first part.
pub more_items :
    (pf : Platform) (xs : Items)
    → WritesFirst (items_verdict xs) (λ l n. items_printed pf l n xs) (encode_items pf xs)
    → WritesMore (items_verdict xs) (λ l n. items_printed pf l n xs) (encode_items pf xs)
unfolding encode_one items_verdict items_printed
more_items pf no_items h e = refl
more_items pf (item x xs) h e =
    h (push (codes ",") e) ∙ writes-push (items_verdict (item x xs)) (codes ",") _ e

-- A loop between its brackets.
pub closed_lem :
    (v : Result Error Unit) (t : List ℕ) (start bracket : ℕ) (e : Encoder)
    (r : Result Error Encoder)
    → (start == b',') ≡ false
    → r ≡ writes v (trailing t) (indented (push (start ∷ []) e))
    → (r >>= λ e'. ok (close bracket e'))
      ≡ writes v (start ∷ (listed (new_line (layout e) e.indent) t ++ bracket ∷ [])) e
closed_lem (ok u) [] start bracket e r n h =
    ap (◌>>= λ e'. ok (close bracket e')) h
    ∙ ap (λ e'. ok (close bracket e')) (push-nil (indented (push (start ∷ []) e)))
    ∙ ap ok (close_bare bracket start e n)
closed_lem (ok u) (c ∷ t) start bracket e r n h =
    ap (◌>>= λ e'. ok (close bracket e')) h
    ∙ ap (λ e'. ok (close bracket e')) (push-push (start ∷ []) (t ++ codes ",") (indented e))
    ∙ ap ok (close_comma bracket (start ∷ t) e)
    ∙ ap (λ t'. ok (push (start ∷ t') e))
        (sym (append_assoc t (new_line (layout e) e.indent) (bracket ∷ [])))
closed_lem (err x) t start bracket e r n h = ap (◌>>= λ e'. ok (close bracket e')) h
closed_lem out_of_fuel t start bracket e r n h = ap (◌>>= λ e'. ok (close bracket e')) h

colon_behind :
    (v : Result Error Unit) (q : List ℕ) (e : Encoder)
    → (writes v q e >>= λ e'. ok (push (colon (layout e')) e')) ≡ writes v (q ++ colon (layout e)) e
colon_behind (ok u) q e = ap ok (push-push q (colon (layout e)) e)
colon_behind (err x) q e = refl
colon_behind out_of_fuel q e = refl

encode_key_lem :
    (s : List ℕ) (e : Encoder)
    → encode_key s e
      ≡ writes
          (text_verdict (string_points s))
          (new_line (layout e) e.indent ++ (quoted (string_points s) ++ colon (layout e)))
          e
unfolding encode_key
encode_key_lem s e =
    let line = new_line (layout e) e.indent in
    let key = string_points s in
    ap (λ e₁. encode_string s e₁ >>= λ e'. ok (push (colon (layout e')) e')) (encode_newline_lem e)
    ∙ ap (◌>>= λ e'. ok (push (colon (layout e')) e')) (encode_string_lem s (push line e))
    ∙ colon_behind (text_verdict key) (quoted key) (push line e)
    ∙ writes-push (text_verdict key) line (quoted key ++ colon (layout e)) e

regroup_slot :
    (line key sep value more end : List ℕ)
    → (line ++ (key ++ sep)) ++ (value ++ (more ++ end))
      ≡ (line ++ (key ++ (sep ++ (value ++ more)))) ++ end
regroup_slot line key sep value more end =
    ap (◌++ (value ++ (more ++ end))) (sym (append_assoc line key sep))
    ∙ append_assoc (line ++ key) sep (value ++ (more ++ end))
    ∙ ap ((line ++ key) ++◌) (regroup sep value more end)
    ∙ sym (append_assoc (line ++ key) (sep ++ (value ++ more)) end)
    ∙ ap (◌++ end) (append_assoc line key (sep ++ (value ++ more)))

abbrev pub WritesAt :
    Result Error Unit → (Layout → ℕ → List ℕ) → (Encoder → Result Error Encoder) → Type 0
WritesAt v t one = (e : Encoder) → one e ≡ writes v (t (layout e) e.indent) e

pub first_slot :
    (k : KeyKind) (v w : Result Error Unit) (value parts : Layout → ℕ → List ℕ)
    (one more : Encoder → Result Error Encoder)
    → WritesAt v value one
    → WritesFirst w parts more
    → WritesMore w parts more
    → WritesFirst
        (slot_verdict k v w)
        (λ l n. slot_printed l n k (value l n) (parts l n))
        (encode_slot k one more)
first_slot empty v w value parts one more at first behind = first
first_slot no_bytes v w value parts one more at first behind = λ e. refl
first_slot (bytes s) v w value parts one more at first behind = λ e.
    let line = new_line (layout e) e.indent in
    let key = string_points s in
    let front = line ++ (quoted key ++ colon (layout e)) in
    let t = value (layout e) e.indent in
    let rest = parts (layout e) e.indent in
    then_writes (text_verdict key) (v >>= λ _. w) front (t ++ (rest ++ codes ",")) e
      (encode_key s e) _ (encode_key_lem s e)
      (then_writes v w t (rest ++ codes ",") (push front e) _ _ (at (push front e))
        (behind (push t (push front e))))
    ∙ ap (λ t'. writes (slot_verdict (bytes s) v w) t' e)
        (regroup_slot line (quoted key) (colon (layout e)) t rest (codes ","))

pub more_slot :
    (k : KeyKind) (v w : Result Error Unit) (value parts : Layout → ℕ → List ℕ)
    (one more : Encoder → Result Error Encoder)
    → WritesAt v value one
    → WritesFirst w parts more
    → WritesMore w parts more
    → WritesMore
        (slot_verdict k v w)
        (λ l n. slot_printed l n k (value l n) (parts l n))
        (encode_slot k one more)
more_slot empty v w value parts one more at first behind = behind
more_slot no_bytes v w value parts one more at first behind = λ e. refl
more_slot (bytes s) v w value parts one more at first behind = λ e.
    first_slot (bytes s) v w value parts one more at first behind (push (codes ",") e)
    ∙ writes-push (slot_verdict (bytes s) v w) (codes ",") _ e
