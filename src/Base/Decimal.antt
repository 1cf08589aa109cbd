-- ===== src/Base/Decimal.antt =====
-- `new(big.Int).SetString(s, 10)`: an optional sign and at least one decimal digit, or a refusal.
use Prim.Native.Nat.{ℕ, ◌+◌, ◌-◌, ◌*◌}
use Prim.Native.Char.{code}
use Prim.Native.String.{String}
use mathlib.Core.Bool.{◌&&◌}
use mathlib.Core.List.{List, [], ◌∷◌}
use mathlib.Core.Option
use mathlib.Core.Option.{Option, none, some}
use stablecoin_mmm.Base.Tests.{leb, ◌==◌, if◌then◌else◌}
use stablecoin_mmm.Base.Int.{ℤ, pos, negate}

abbrev pub codes : String → List ℕ
codes String.[] = []
codes (String.◌∷◌ c s) = code c ∷ codes s

unfoldable pub digits_value : ℕ → List ℕ → Option ℕ
digits_value acc [] = some acc
digits_value acc (c ∷ cs) =
    let rest = digits_value (acc * 10 + (c - b'0')) cs in
    if leb b'0' c && leb c b'9' then rest else none

unfoldable pub unsigned_value : List ℕ → Option ℕ
unfolding digits_value
unsigned_value [] = none
unsigned_value (c ∷ cs) = digits_value 0 (c ∷ cs)

unfoldable pub signed_value : List ℕ → Option ℤ
unfolding unsigned_value
signed_value [] = none
signed_value (c ∷ cs) =
    if c == b'-'
    then Option.map (λ n. negate (pos n)) (unsigned_value cs)
    else if c == b'+'
    then Option.map pos (unsigned_value cs)
    else Option.map pos (unsigned_value (c ∷ cs))

unfoldable pub set_string : String → Option ℤ
unfolding signed_value
set_string s = signed_value (codes s)
