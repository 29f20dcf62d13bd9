-- ===== src/Prelude/Text.antt =====
-- C text as lists of byte values, and the numbers that `snprintf` writes.
use Prim.Native.Nat.{ℕ, zero, suc, ◌+◌, ◌/◌, ◌%◌}
use Prim.Native.Char.{code}
use Prim.Native.String.{String}
use mathlib.Core.List.{List, [], ◌∷◌}
use j_a_r_v_i_s.Prelude.Tests.{ltb, if◌then◌else◌}

-- The bytes of an ASCII text.
abbrev pub codes : String → List ℕ
codes String.[] = []
codes (String.◌∷◌ c s) = code c ∷ codes s

-- The digits of a number, in front of `rest`. A number below `fuel` has fewer digits than that.
unfoldable pub decimal_fuel : ℕ → ℕ → List ℕ → List ℕ
decimal_fuel zero n rest = rest
decimal_fuel (suc fuel) n rest =
    let more = decimal_fuel fuel (n / 10) ((48 + n % 10) ∷ rest) in
    if ltb n 10 then (48 + n) ∷ rest else more

-- `%u` and `%d` of a number that is not negative.
unfoldable pub decimal : ℕ → List ℕ
unfolding decimal_fuel
decimal n = decimal_fuel (suc n) n []
