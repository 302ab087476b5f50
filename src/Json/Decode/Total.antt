-- ===== src/Json/Decode/Total.antt =====
-- The end of `decode_text` and of `json_decode`.
use puny_gui.Prelude.{
  ℕ, ◌+◌, ◌%◌, ◌≤◌, ◌<◌, ◌≡◌, refl, Bool, true, false, List, [], ◌∷◌, Option, none, some, ◌==◌,
  if◌then◌else◌, arith, length, if_ind,
}
use puny_gui.Json.Value.{
  Value, Platform, nil, truthy, bytes_of, Outcome, returned, bad_arity, bad_argument, panicked,
}
use puny_gui.Json.Result.{Error, Result, ok, err, out_of_fuel, ◌>>=◌, Decoded}
use puny_gui.Json.Unicode.{peek}
use puny_gui.Json.Strings.{skipwhite}
use puny_gui.Json.Strings.Ends.{Ends, skipwhite-le}
use puny_gui.Json.Decode.{
  decode_one, finish, flags_of, keyword_key, null_to_nil, decode_text, outcome_of, decode_source,
  json_decode,
}
use puny_gui.Json.Decode.Ends.{decode_one-Ends}

-- A value, or an error at a place with `n` bytes left at most.
abbrev pub EndsText : ℕ → Result (Error × List ℕ) Value → Type 0
EndsText n (ok v) = Unit
EndsText n (err (e, q)) = length q ≤ n
EndsText n out_of_fuel = ⊥

finish-EndsText : (n : ℕ) (r : Decoded Value) → Ends n r → EndsText n (r >>= finish)
unfolding finish
finish-EndsText n (ok (v, q)) h =
    if_ind (EndsText n) (peek (skipwhite q) == 0) (λ e. tt) (λ e. omega (arith, skipwhite-le q))
finish-EndsText n (err (e, q)) h = h
finish-EndsText n out_of_fuel h = h

-- The flags stand above the depth.
flags_high :
    (a b : Bool) → ((if a then keyword_key else 0) + (if b then null_to_nil else 0)) % 0x10000 ≡ 0
flags_high true true = refl
flags_high true false = refl
flags_high false true = refl
flags_high false false = refl

pub flags_low : (k n : Value) → flags_of k n % 0x10000 ≡ 0
unfolding flags_of
flags_low k n = flags_high (truthy k) (truthy n)

decode_text-EndsText :
    (pf : Platform) (k n : Value) (text : List ℕ)
    → pf.recursion_guard < 0xFFFF
    → EndsText (length text) (decode_text pf (flags_of k n) text)
unfolding decode_text
decode_text-EndsText pf k n text g =
    finish-EndsText (length text) (decode_one (pf.recursion_guard + 2) pf (flags_of k n) text) (
      decode_one-Ends (pf.recursion_guard + 2) pf (flags_of k n) text g
        (omega (arith, flags_low k n)) (omega (arith, flags_low k n)))

-- What becomes of a source: the decoded value, or the error of the decoder with the count of the
-- bytes in front of its pointer, which with the bytes behind it are all.
abbrev AnswersSource : Platform → ℕ → Option (List ℕ) → Outcome → Type 0
AnswersSource pf flags none bad_argument = Unit
AnswersSource pf flags (some text) (returned v) = decode_text pf flags text ≡ ok v
AnswersSource pf flags (some text) (panicked e n) =
    (q : List ℕ) × (decode_text pf flags text ≡ err (e, q)) × (n + length q ≡ length text)
AnswersSource pf flags _ _ = ⊥

abbrev pub Answers : Platform → List Value → Outcome → Type 0
Answers pf (x ∷ []) out = AnswersSource pf (flags_of nil nil) (bytes_of x) out
Answers pf (x ∷ k ∷ []) out = AnswersSource pf (flags_of k nil) (bytes_of x) out
Answers pf (x ∷ k ∷ n ∷ []) out = AnswersSource pf (flags_of k n) (bytes_of x) out
Answers pf _ out = out ≡ bad_arity

outcome_of-Answers :
    (pf : Platform) (flags : ℕ) (text : List ℕ) (r : Result (Error × List ℕ) Value)
    → EndsText (length text) r
    → decode_text pf flags text ≡ r
    → AnswersSource pf flags (some text) (outcome_of text r)
outcome_of-Answers pf flags text (ok v) h e = e
outcome_of-Answers pf flags text (err (x, q)) h e = (q, e, omega arith)
outcome_of-Answers pf flags text out_of_fuel h e = h

decode_source-Answers :
    (pf : Platform) (k n : Value) (source : Option (List ℕ))
    → pf.recursion_guard < 0xFFFF
    → AnswersSource pf (flags_of k n) source (decode_source pf (flags_of k n) source)
decode_source-Answers pf k n none g = tt
decode_source-Answers pf k n (some text) g =
    outcome_of-Answers pf (flags_of k n) text (decode_text pf (flags_of k n) text)
      (decode_text-EndsText pf k n text g) refl

-- With a recursion guard below 65535, `json_decode` comes to an end on all arguments: it
-- refuses every count of arguments but one to three, refuses a source without bytes and no
-- other, and otherwise returns the value that the decoder gives, or panics with the decoder's
-- error and a position that, with the count of the bytes from the decoder's pointer on, is the
-- length of the source.
pub json_decode-Answers :
    (pf : Platform) (args : List Value)
    → pf.recursion_guard < 0xFFFF
    → Answers pf args (json_decode pf args)
unfolding json_decode
json_decode-Answers pf [] g = refl
json_decode-Answers pf (x ∷ []) g = decode_source-Answers pf nil nil (bytes_of x) g
json_decode-Answers pf (x ∷ k ∷ []) g = decode_source-Answers pf k nil (bytes_of x) g
json_decode-Answers pf (x ∷ k ∷ n ∷ []) g = decode_source-Answers pf k n (bytes_of x) g
json_decode-Answers pf (x ∷ k ∷ n ∷ y ∷ rest) g = refl
