-- ===== src/Amounts.antt =====
-- `calculateTokenAmounts` of pkg/executor/service.go.
-- Prices and products are `big.Int`; `none` is the panic of a division by zero.
pub mod Scale
pub mod Signs
pub mod Total
pub mod Negative
mod Examples
use stablecoin_mmm.Base.{ℕ, zero, suc, ◌*◌, ◌/◌, ◌^◌, ◌||◌, Option, some, if◌then◌else◌}
use stablecoin_mmm.Base.Int.{ℤ, pos, pos_part, ◌-ℤ◌, ◌*ℤ◌, ltb_ℤ, leb_ℤ, eqb_ℤ, div_big}
use stablecoin_mmm.Base.Float.{Float, BigFloat}

-- The loop that multiplies by 10001 and divides by 10000, on the rounds that are left.
unfoldable pub scale_up : ℕ → ℕ → ℕ
scale_up zero x = x
scale_up (suc rounds) x = scale_up rounds (x * 10_001 / 10_000)

-- The loop from 0 up to the tick runs no round for a tick that is not positive.
unfoldable pub sqrt_at_tick : ℤ → ℤ
sqrt_at_tick tick = pos (scale_up (pos_part tick) (2 ^ 96))

abbrev pub two96 : ℤ
two96 = pos (2 ^ 96)

-- liquidity · (upper - lower) · 2^96 / (lower · upper), and liquidity · (upper - lower) / 2^96.
unfoldable pub amount0_between : ℤ → ℤ → ℤ → Option ℤ
amount0_between liquidity lower upper =
    div_big (liquidity *ℤ (upper -ℤ lower) *ℤ two96) (lower *ℤ upper)

unfoldable pub amount1_between : ℤ → ℤ → ℤ → Option ℤ
amount1_between liquidity lower upper = div_big (liquidity *ℤ (upper -ℤ lower)) two96

abbrev pub both : Option ℤ → Option ℤ → Option (ℤ × ℤ)
both (some a) (some b) = some (a, b)
both _ _ = Option.none

-- The three branches on the current tick.
unfoldable pub amounts_at : ℤ → ℤ → ℤ → ℤ → ℤ → Option (ℤ × ℤ)
amounts_at current_tick liquidity tick_lower tick_upper sqrt_p =
    let pa = sqrt_at_tick tick_lower in
    let pb = sqrt_at_tick tick_upper in
    if leb_ℤ current_tick tick_lower
    then both (amount0_between liquidity pa pb) (some (pos 0))
    else if leb_ℤ tick_upper current_tick
    then both (some (pos 0)) (amount1_between liquidity pa pb)
    else both (amount0_between liquidity sqrt_p pb) (amount1_between liquidity pa sqrt_p)

module _ (F B : Type 0) ⦃f : Float F⦄ ⦃b : BigFloat F B⦄ where
  -- The tick of the price (sqrtP / 2^96)^2, by the logarithm.
  unfoldable pub tick_of_sqrt_price : ℤ → ℤ
  tick_of_sqrt_price sqrt_p =
      let ratio : B = b.quo (b.set_int sqrt_p) (b.set_int two96) in
      let price : F = b.to_float64 (b.mul ratio ratio) in
      if ltb_ℤ (pos 0) sqrt_p
      then (if f.lt (f.dec 0 0) price
          then f.to_int32 (f.div (f.log price) (f.log (f.dec 10_001 4)))
          else pos 0)
      else pos 0

  unfoldable pub calculate_token_amounts : ℤ → ℤ → ℤ → ℤ → Option (ℤ × ℤ)
  calculate_token_amounts liquidity tick_lower tick_upper sqrt_price =
      if eqb_ℤ liquidity (pos 0) || eqb_ℤ sqrt_price (pos 0)
      then some (pos 0, pos 0)
      else amounts_at (tick_of_sqrt_price sqrt_price) liquidity tick_lower tick_upper sqrt_price
