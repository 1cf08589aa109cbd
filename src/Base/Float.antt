-- ===== src/Base/Float.antt =====
-- What the code asks of Go's `float64` and of `big.Float`. There are no floating-point numbers here,
-- so both are interfaces; a theorem that needs a fact of them names it as a law.
use Prim.Native.Nat.{ℕ}
use mathlib.Core.Path.{◌≡◌}
use mathlib.Core.Bool.{Bool, true, false}
use stablecoin_mmm.Base.Int.{ℤ}
use stablecoin_mmm.Base.Word.{IsInt32, IsInt64}

pub record Float (F : Type 0) : Type 0 where
  -- `dec m k` is the literal m / 10 ^ k.
  pub dec : ℕ → ℕ → F
  -- `float64(n)`
  pub of_int : ℤ → F
  -- `int(x)` and `int64(x)`
  pub to_int : F → ℤ
  -- `int32(x)`
  pub to_int32 : F → ℤ
  pub lt : F → F → Bool
  pub le : F → F → Bool
  pub add : F → F → F
  pub sub : F → F → F
  pub mul : F → F → F
  pub div : F → F → F
  pub neg : F → F
  -- `math.Abs`, `math.Log`, `math.Sqrt`, `math.Floor`, `math.Pow`
  pub abs : F → F
  pub log : F → F
  pub sqrt : F → F
  pub floor : F → F
  pub pow : F → F → F

-- The finite values of `*big.Float`, on which the code's operations do not panic.
pub record BigFloat (F B : Type 0) : Type 0 where
  pub new_float : F → B
  pub to_float64 : B → F
  pub set_int : ℤ → B
  pub sub : B → B → B
  pub mul : B → B → B
  pub quo : B → B → B
  pub abs : B → B
  pub sign : B → ℤ

-- IEEE comparison, NaN included: `<` is a strict order. It is not total.
pub record IsOrdered {F : Type 0} (f : Float F) : Type 0 where
  pub lt_irrefl : (x : F) → f.lt x x ≡ false
  pub lt_trans : (x y z : F) → f.lt x y ≡ true → f.lt y z ≡ true → f.lt x z ≡ true

-- A conversion to a machine integer yields a value of that type, whatever it is out of range.
pub record IsWordValued {F : Type 0} (f : Float F) : Type 0 where
  pub to_int_range : (x : F) → IsInt64 (f.to_int x)
  pub to_int32_range : (x : F) → IsInt32 (f.to_int32 x)
