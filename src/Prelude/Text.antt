-- ===== src/Prelude/Text.antt =====
-- The bytes of a literal, and what `%d` prints.
use Prim.Native.Nat.{ℕ, zero, suc, ◌+◌, ◌-◌, ◌/◌, ◌%◌}
use Prim.Native.Char.{code}
use Prim.Native.String.{String}
use mathlib.Core.Bool.{true, false}
use mathlib.Core.List.{List, [], ◌∷◌}
use puny_gui.Prelude.Tests.{ltb, ◌==◌, if◌then◌else◌}

abbrev pub codes : String → List ℕ
codes String.[] = []
codes (String.◌∷◌ c s) = code c ∷ codes s

-- Decimal digits, the last one first on the accumulator. The fuel is above the number.
unfoldable pub decimal_loop : ℕ → ℕ → List ℕ → List ℕ
decimal_loop zero n acc = acc
decimal_loop (suc f) n acc = elim (ltb n 10) [
  | true ↦ (b'0' + n) ∷ acc
  | false ↦ decimal_loop f (n / 10) ((b'0' + n % 10) ∷ acc)
]

unfoldable pub decimal : ℕ → List ℕ
unfolding decimal_loop
decimal n = decimal_loop (suc n) n []

-- `%d` of the integer a - b.
unfoldable pub decimal_diff : ℕ → ℕ → List ℕ
unfolding decimal
decimal_diff a b = if ltb a b then b'-' ∷ decimal (b - a) else decimal (a - b)

-- The bytes of a string that C sees.
abbrev pub until_nul : List ℕ → List ℕ
until_nul [] = []
until_nul (c ∷ cs) = elim (c == 0) [ true ↦ [] | false ↦ c ∷ until_nul cs ]
