-- ===== src/Ticks.antt =====
-- The tick arithmetic of pkg/executor/service.go, pkg/uniswap/client.go and pkg/position/manager.go.
-- A tick is an `int32`; Go's `/` rounds towards zero.
pub mod Align
use stablecoin_mmm.Base.{ℕ, ◌≤◌, Bool, ◌==◌, if◌then◌else◌}
use stablecoin_mmm.Base.Int.{ℤ, pos, ◌*ℤ◌, quot_ℤ, ltb_ℤ}
use stablecoin_mmm.Base.Word.{wrap32}
use stablecoin_mmm.Base.Float.{Float}

unfoldable pub get_tick_spacing : ℕ → ℤ
get_tick_spacing fee =
    if fee == 100
    then pos 1
    else if fee == 500
    then pos 10
    else if fee == 3000
    then pos 60
    else if fee == 10_000
    then pos 200
    else pos 10

-- Both branches of the source are the same expression.
unfoldable pub align_tick_to_spacing : ℤ → ℤ → ℤ
align_tick_to_spacing tick spacing =
    if ltb_ℤ tick (pos 0)
    then wrap32 (quot_ℤ tick spacing *ℤ spacing)
    else wrap32 (quot_ℤ tick spacing *ℤ spacing)

module _ {F : Type 0} ⦃f : Float F⦄ where
  -- `executor.PriceToTick`
  unfoldable pub price_to_tick : F → ℤ
  price_to_tick price =
      if f.le price (f.dec 0 0)
      then pos 0
      else f.to_int32 (f.floor (f.div (f.log (f.sqrt price)) (f.log (f.dec 10_001 4))))

  -- `executor.TickToPrice`
  unfoldable pub tick_to_price : ℤ → F
  tick_to_price tick = f.dec 1 0

  unfoldable pub calculate_tick_range : F → ℕ → ℤ → ℤ × ℤ
  calculate_tick_range ref_price fee range_bps =
      let part = f.div (f.of_int range_bps) (f.dec 10_000 0) in
      let lower = f.mul ref_price (f.sub (f.dec 1 0) part) in
      let upper = f.mul ref_price (f.add (f.dec 1 0) part) in
      let spacing = get_tick_spacing fee in
      (
        align_tick_to_spacing (price_to_tick lower) spacing,
        align_tick_to_spacing (price_to_tick upper) spacing,
      )

  -- `uniswap.PriceToTick`: the rebalancer's, without the square root of the executor's.
  unfoldable pub uniswap_price_to_tick : F → ℤ
  uniswap_price_to_tick price =
      if f.le price (f.dec 0 0)
      then pos 0
      else f.to_int32 (f.div (f.log price) (f.log (f.dec 10_001 4)))

  -- `uniswap.TickToPrice`
  unfoldable pub uniswap_tick_to_price : ℤ → F
  uniswap_tick_to_price tick = f.pow (f.dec 10_001 4) (f.of_int tick)

  -- `position.PriceToTick`: without the guard.
  unfoldable pub position_price_to_tick : F → ℤ
  position_price_to_tick price = f.to_int32 (f.div (f.log price) (f.log (f.dec 10_001 4)))
