-- ===== src/Json/Strings/Scan.antt =====
-- The scan in the string case of `decode_one`, against `decode_string`.
use puny_gui.Prelude.{
  ℕ, zero, suc, ◌≤◌, ◌<◌, ◌≡◌, ◌↔◌, refl, true, false, List, [], ◌∷◌, ◌==◌, if◌then◌else◌, arith,
  Bool-cases, inl, inr, length,
}
use puny_gui.Json.Value.{Value, string}
use puny_gui.Json.Result.{
  ok, err, out_of_fuel, ◌>>=◌, Decoded, invalid_character, unexpected_character,
}
use puny_gui.Json.Unicode.{peek, next}
use puny_gui.Json.Strings.{
  Unescaped, one_piece, decode_string, is_plain, scan, at_place, string_case,
}

-- What `decode_string` makes of a text that was scanned.
abbrev Stopped : Unescaped → List ℕ → List ℕ → Type 0
Stopped r plain rest =
    ((peek rest == b'"') ≡ true → r ≡ ok (plain, next rest))
    × ((peek rest == b'"') ≡ false → (peek rest == b'\\') ≡ false → r ≡ err invalid_character)

plain_piece : (c : ℕ) (q : List ℕ) → is_plain c ≡ true → one_piece c q ≡ ok (c ∷ [], q)
unfolding one_piece
plain_piece c q h = ground arith

stopped_piece :
    (c : ℕ) (q : List ℕ)
    → is_plain c ≡ false
    → (c == b'"') ≡ false
    → (c == b'\\') ≡ false
    → one_piece c q ≡ err invalid_character
unfolding one_piece
stopped_piece c q h k l = ground arith

decode_string_past :
    (f : ℕ) (c : ℕ) (cs : List ℕ)
    → is_plain c ≡ true
    → decode_string (suc f) (c ∷ cs)
      ≡ (decode_string f cs >>= λ (bytes, rest). ok (c ∷ bytes, rest))
unfolding decode_string
decode_string_past f c cs h =
    let other : (c == b'"') ≡ false = ground arith in
    rw (decode_string, other, plain_piece c cs h) refl

decode_string_stop :
    (f : ℕ) (c : ℕ) (cs : List ℕ)
    → is_plain c ≡ false
    → Stopped (decode_string (suc f) (c ∷ cs)) [] (c ∷ cs)
unfolding decode_string
decode_string_stop f c cs h =
    (λ e. rw (decode_string, e) refl, λ e k. rw (decode_string, e, stopped_piece c cs h e k) refl)

decode_string-scan :
    (f : ℕ) (p : List ℕ) → length p < f → Stopped (decode_string f p) (scan p).0 (scan p).1
unfolding scan
decode_string-scan zero p h = absurd (omega arith)
decode_string-scan (suc f) [] h = (λ e. cc, λ e k. unfold decode_string one_piece in refl)
decode_string-scan (suc f) (c ∷ cs) h = elim (Bool-cases (is_plain c)) [
  | inl plain ↦
      let (found, bad) = decode_string-scan f cs (omega arith) in
      rw (scan, plain, decode_string_past f c cs plain)
        (λ e. rw (found e) refl, λ e k. rw (bad e k) refl)
  | inr stop ↦ rw (scan, stop) (decode_string_stop f c cs stop)
]

at_place_iff :
    (p : List ℕ) (r : Unescaped) (bytes rest : List ℕ)
    → (at_place p r ≡ ok (string bytes, rest)) ↔ (r ≡ ok (bytes, rest))
at_place_iff p (ok (b, q)) bytes rest = (λ h. cc, λ h. cc)
at_place_iff p (err e) bytes rest = (λ h. cc, λ h. cc)
at_place_iff p out_of_fuel bytes rest = (λ h. cc, λ h. cc)

-- The choice of the string case, by the byte at which the scan stopped.
abbrev chosen : List ℕ → Unescaped → List ℕ → List ℕ → Decoded Value
chosen p r plain q =
    if peek q == b'\\'
    then at_place (next p) r
    else (if peek q == b'"' then ok (string plain, next q) else err (unexpected_character, p))

chosen_iff :
    (p : List ℕ) (r : Unescaped) (plain q bytes rest : List ℕ)
    → Stopped r plain q
    → (chosen p r plain q ≡ ok (string bytes, rest)) ↔ (r ≡ ok (bytes, rest))
chosen_iff p r plain q bytes rest (found, bad) = elim (Bool-cases (peek q == b'\\')) [
  | inl slash ↦ rw slash (at_place_iff (next p) r bytes rest)
  | inr no_slash ↦ elim (Bool-cases (peek q == b'"')) [
    | inl closed ↦ rw (no_slash, closed, found closed) ((λ h. cc), (λ h. cc))
    | inr stopped ↦ rw (no_slash, stopped, bad stopped no_slash) ((λ h. cc), (λ h. cc))
  ]
]

length-next : (p : List ℕ) → length (next p) ≤ length p
length-next [] = omega arith
length-next (c ∷ cs) = omega arith

-- The case of a string in `decode_one`, which copies a string without escapes in one piece,
-- gives a string and a rest exactly when `decode_string` at the byte behind the quote gives
-- them.
pub string_case_iff :
    (p bytes rest : List ℕ)
    → (string_case p ≡ ok (string bytes, rest))
      ↔ (decode_string (suc (length p)) (next p) ≡ ok (bytes, rest))
unfolding string_case
string_case_iff p bytes rest =
    chosen_iff p (decode_string (suc (length p)) (next p)) (scan (next p)).0 (scan (next p)).1 bytes
      rest (decode_string-scan (suc (length p)) (next p) (omega (arith, length-next p)))
