-- ===== src/Api/Liquidity.antt =====
-- `handleAddLiquidity` of pkg/api/service.go: the amounts are split over three tiers, and each tier is
-- added in turn.
use stablecoin_mmm.Base.{ℕ, ◌&&◌, String, List, [], ◌∷◌, ◌++◌, Option, none, some, if◌then◌else◌}
use stablecoin_mmm.Base.Int.{ℤ, pos, negsuc, ◌*ℤ◌, ltb_ℤ, div_big}
use stablecoin_mmm.Base.Decimal.{set_string}
use stablecoin_mmm.Base.Float.{Float}
use stablecoin_mmm.Base.Act.{Act, Result, ◌>>=◌, pure, or_panic}
use stablecoin_mmm.Chain.{Address, Chain}
use stablecoin_mmm.Executor.Core.{Executor, ExecutionResult, Returned}
use stablecoin_mmm.Executor.Trades.{add_liquidity}
use stablecoin_mmm.Api.Server.{
  Server, AddLiquidityRequest, LayerResult, Response, answer, on_chain, refused, liquidity_added,
  layer_failed,
}
use stablecoin_mmm.Api.Handlers.{with_executor, bound, fee_or_default}

-- `total * percent / 100`, on `big.Int`.
unfoldable pub share_of : ℤ → ℤ → Option ℤ
share_of total percent = div_big (total *ℤ percent) (pos 100)

-- `int64(ratio * 100)`
unfoldable pub percent_of : {F : Type 0} ⦃f : Float F⦄ → F → ℤ
percent_of ⦃f⦄ ratio = f.to_int (f.mul ratio (f.dec 100 0))

-- What a tier is to receive, and its ticks.
pub record Tier : Type 0 where
  pub layer : String
  pub amount0 : ℤ
  pub amount1 : ℤ
  pub tick_lower : ℤ
  pub tick_upper : ℤ

module _ {F : Type 0} ⦃f : Float F⦄ where
  abbrev pub tier_of : String → F → ℤ → ℤ → ℤ → ℤ → Option Tier
  tier_of layer ratio total0 total1 lower upper = elim (share_of total0 (percent_of ratio)) [
    | none ↦ none
    | some amount0 ↦ elim (share_of total1 (percent_of ratio)) [
      | none ↦ none
      | some amount1 ↦ some (record {
        layer = layer;
        amount0 = amount0;
        amount1 = amount1;
        tick_lower = lower;
        tick_upper = upper;
      })
    ]
  ]

abbrev pub layer_result : Tier → ExecutionResult → LayerResult
layer_result t r = record {
  layer = t.layer;
  tx_hash = r.tx_hash;
  token_id = r.token_id;
  success = r.success;
  tick_lower = t.tick_lower;
  tick_upper = t.tick_upper;
}

module _ {F B W : Type 0} (ch : Chain W) (e : Executor F) where
  -- A tier's answer ends the handler on an error, or goes on with its result.
  abbrev pub tier_done :
      Tier
      → List LayerResult
      → (List LayerResult → Act (Server F B W) (Response F))
      → Returned
      → Act (Server F B W) (Response F)
  tier_done t results k (r, some err) = pure (answer 500 (layer_failed t.layer err))
  tier_done t results k (r, none) = k (results ++ (layer_result t r ∷ []))

  -- A tier is skipped unless both its amounts are positive.
  unfoldable pub add_tier :
      ℕ
      → Address
      → Address
      → ℕ
      → Tier
      → List LayerResult
      → (List LayerResult → Act (Server F B W) (Response F))
      → Act (Server F B W) (Response F)
  add_tier fuel token0 token1 fee t results k =
      if ltb_ℤ (pos 0) t.amount0 && ltb_ℤ (pos 0) t.amount1
      then (on_chain (
            add_liquidity ch e fuel token0 token1 fee t.amount0 t.amount1 t.tick_lower t.tick_upper)
          >>= tier_done t results k)
      else k results

  unfoldable pub add_tiers :
      ℕ → Address → Address → ℕ → List Tier → List LayerResult → Act (Server F B W) (Response F)
  add_tiers fuel token0 token1 fee [] results = pure (answer 200 (liquidity_added results))
  add_tiers fuel token0 token1 fee (t ∷ ts) results =
      add_tier fuel token0 token1 fee t results (add_tiers fuel token0 token1 fee ts)

module _ {F B W : Type 0} ⦃f : Float F⦄ (ch : Chain W) where
  -- The three tiers of the request, on the fixed tick ranges of the source.
  unfoldable pub add_amounts :
      ℕ → Executor F → Address → Address → ℕ → ℤ → ℤ → Act (Server F B W) (Response F)
  add_amounts fuel e token0 token1 fee total0 total1 s =
      (or_panic (tier_of "core" s.cfg.bot.core_ratio total0 total1 (negsuc 9) (pos 10)) >>= λ core.
      or_panic (tier_of "mid" s.cfg.bot.mid_ratio total0 total1 (negsuc 49) (pos 50)) >>= λ mid.
      or_panic (tier_of "tail" s.cfg.bot.tail_ratio total0 total1 (negsuc 199) (pos 200))
      >>= λ tail. add_tiers ch e fuel token0 token1 fee (core ∷ mid ∷ tail ∷ []) [])
        s

  -- An amount that is no decimal number is answered by 400.
  abbrev pub parsed :
      String → String → (ℤ → Act (Server F B W) (Response F)) → Act (Server F B W) (Response F)
  parsed text complaint k = elim (set_string text) [
    | none ↦ pure (answer 400 (refused complaint))
    | some n ↦ k n
  ]

  unfoldable pub handle_add_liquidity :
      ℕ → Result AddLiquidityRequest → Act (Server F B W) (Response F)
  handle_add_liquidity fuel request s =
      with_executor s.executor
        (λ e. bound request λ req. parsed req.amount0 "invalid amount0" λ total0.
          parsed req.amount1 "invalid amount1" λ total1.
            add_amounts fuel e (ch.hex_to_address req.token0) (ch.hex_to_address req.token1)
              (fee_or_default req.fee s) total0 total1)
        s
