-- ===== src/Json/Result.antt =====
-- What a step of json/json.c returns: a value, or one of the error texts.
use puny_gui.Prelude.{ℕ, List}

-- The texts of the decoder and of the encoder.
pub data Error : Type 0 where
  recured_too_deeply unexpected_end bad_identifier bad_number expected_comma expected_colon
        unexpected_character expected_string invalid_character unknown_escape invalid_hex
        unexpected_low_surrogate expected_low_surrogate extra_token :
      Error
  bad_type invalid_utf8 bad_key : Error

pub data Result (E A : Type 0) : Type 0 where
  ok : A → Result E A
  err : E → Result E A
  out_of_fuel : Result E A

infixl 5 ◌>>=◌
abbrev pub ◌>>=◌ : {E A B : Type 0} → Result E A → (A → Result E B) → Result E B
ok a >>= f = f a
err e >>= f = err e
out_of_fuel >>= f = out_of_fuel

-- The decoder's pointer is the text from it on. An error comes with the place where it was left.
abbrev pub Decoded : Type 0 → Type 0
Decoded A = Result (Error × List ℕ) (A × List ℕ)
