-- ===== src/Executor/Tiers.antt =====
-- `GetTierPositions` of pkg/executor/service.go. Its pool is not nil: `NewExecutor` fails first.
use mathlib.Core.Option
use stablecoin_mmm.Base.{String, List, [], ◌∷◌, Option}
use stablecoin_mmm.Base.Int.{ℤ, pos, ◌+ℤ◌, ◌-ℤ◌}
use stablecoin_mmm.Base.Word.{wrap32, wrap64}
use stablecoin_mmm.Base.Float.{Float, BigFloat}
use stablecoin_mmm.Base.Act.{Act, Result, value, error, ◌>>=◌, pure, try, or_panic}
use stablecoin_mmm.Chain.{PoolSlot0, Chain}
use stablecoin_mmm.Amounts.{calculate_token_amounts}
use stablecoin_mmm.Executor.Core.{Executor}

-- Out of range an `int32` conversion of an integer keeps the low 32 bits.
pub record TierPosition : Type 0 where
  pub name : String
  pub amount0 : ℤ
  pub amount1 : ℤ
  pub position_count : ℤ
  pub liquidity : ℤ

-- What the two calls of the pool found; a failed one leaves zeros, and the price has a second call.
pub record PoolView : Type 0 where
  pub liquidity : ℤ
  pub current_tick : ℤ
  pub sqrt_price : ℤ

abbrev pub or_zero : Result ℤ → ℤ
or_zero (value z) = z
or_zero (error _) = pos 0

abbrev pub tick_or_zero : Result PoolSlot0 → ℤ
tick_or_zero (value slot0) = wrap32 (wrap64 slot0.tick)
tick_or_zero (error _) = pos 0

abbrev pub price_or_zero : Result PoolSlot0 → ℤ
price_or_zero (value slot0) = slot0.sqrt_price
price_or_zero (error _) = pos 0

module _ {W : Type 0} (ch : Chain W) where
  unfoldable pub view_pool : Act W PoolView
  view_pool = do
    liquidity ← try ch.pool_liquidity
    slot0 ← try ch.pool_slot0
    again ← try ch.pool_slot0
    pure (record {
      liquidity = or_zero liquidity;
      current_tick = tick_or_zero slot0;
      sqrt_price = price_or_zero again;
    })

module _ (F B : Type 0) ⦃f : Float F⦄ ⦃b : BigFloat F B⦄ where
  -- One tier around the current tick; the division by zero would panic.
  unfoldable pub tier_position : String → ℤ → PoolView → Option TierPosition
  tier_position name bps v =
      let lower = wrap32 (v.current_tick -ℤ wrap32 bps) in
      let upper = wrap32 (v.current_tick +ℤ wrap32 bps) in
      Option.map
        (λ amounts. record {
          name = name;
          amount0 = amounts.0;
          amount1 = amounts.1;
          position_count = bps;
          liquidity = v.liquidity;
        })
        (calculate_token_amounts F B v.liquidity lower upper v.sqrt_price)

  unfoldable pub get_tier_positions :
      {W : Type 0} → Chain W → Executor F → Act W (List TierPosition)
  get_tier_positions ch e = do
    v ← view_pool ch
    core ← or_panic (tier_position "core" e.cfg.bot.core_range_bps v)
    mid ← or_panic (tier_position "mid" e.cfg.bot.mid_range_bps v)
    tail ← or_panic (tier_position "tail" e.cfg.bot.tail_range_bps v)
    pure (core ∷ mid ∷ tail ∷ [])
