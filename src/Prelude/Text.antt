-- ===== src/Prelude/Text.antt =====
-- String literals as their bytes, and numbers in decimal digits.
use Prim.Native.Nat.{ℕ, zero, suc, ◌+◌, ◌/◌, ◌%◌}
use Prim.Native.Char.{code}
use Prim.Native.String.{String}
use mathlib.Core.List.{List, [], ◌∷◌}
use spa_device.Prelude.Tests.{◌==◌, if◌then◌else◌}

-- The code points of a text: its bytes, as the texts of the program are ASCII.
abbrev pub codes : String → List ℕ
codes String.[] = []
codes (String.◌∷◌ c s) = code c ∷ codes s

-- The decimal digits of `n`, which has at most as many as the fuel says.
unfoldable pub decimal_digits : ℕ → ℕ → List ℕ → List ℕ
decimal_digits zero n out = out
decimal_digits (suc fuel) n out =
    let out' = (b'0' + n % 10) ∷ out in
    let rest = decimal_digits fuel (n / 10) out' in if n / 10 == 0 then out' else rest

-- `{n}` of a number below 2 ^ 64.
unfoldable pub to_decimal : ℕ → List ℕ
unfolding decimal_digits
to_decimal n = decimal_digits 20 n []

-- `hex::encode` of the crate `hex`.
pub record HexEncode : Type 0 where
  pub encode_hex : List ℕ → List ℕ
