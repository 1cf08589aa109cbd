-- ===== src/Bot/Stale.antt =====
-- The prices of main.go while the pool cannot be read.
use stablecoin_mmm.Base.{ℕ, ◌≡◌, ◌≢◌, refl, ap, ◌∙◌, List}
use stablecoin_mmm.Base.Float.{Float, BigFloat}
use stablecoin_mmm.Base.Act.{ok}
use stablecoin_mmm.Chain.{Chain}
use stablecoin_mmm.Monitor.{update_status, update_last_rebalance}
use stablecoin_mmm.Rebalancer.Keeps.{execute_rebalance_keeps}
use stablecoin_mmm.Uniswap.{PriceOracle, PriceInfo, get_price_info}
use stablecoin_mmm.Api.Server.{Server}
use stablecoin_mmm.Bot.Core.{run_rebalance}
use stablecoin_mmm.Bot.Inputs.{Input, inputs, inputs-closed}

-- The prices that the rebalancer decides by, and those that the metrics show with their deviation.
abbrev pub prices_of : {F B W : Type 0} → Server F B W → B × B × F × F × F
prices_of s =
    let r = s.state.rebalancer in
    let m = s.metrics in (r.current_price, r.twap_price, m.current_price, m.twap_price, m.deviation)

module _ {F B W : Type 0} ⦃f : Float F⦄ ⦃b : BigFloat F B⦄ (ch : Chain W) (fuel : ℕ)
    (oracle : PriceOracle F) where
  run_rebalance-prices : (s : Server F B W) → prices_of (run_rebalance ch fuel s).1 ≡ prices_of s
  unfolding run_rebalance
  run_rebalance-prices s =
      let m = s.metrics in
      ap (λ r. (r.current_price, r.twap_price, m.current_price, m.twap_price, m.deviation))
        (execute_rebalance_keeps ch fuel s.state).0

  -- While the price calls of the pool fail, the prices stay what they were, through any ticks,
  -- background rebalances and requests.
  pub stale_prices :
      (is : List (Input F)) (s : Server F B W)
      → ((w : W) (i : PriceInfo B) → (get_price_info ch oracle w).0 ≢ ok i)
      → prices_of (inputs ch fuel oracle is s) ≡ prices_of s
  unfolding update_status update_last_rebalance
  stale_prices is s fails =
      let prices = prices_of s in
      inputs-closed ch fuel oracle (λ t. prices_of t ≡ prices)
        (record {
          read = λ t h. h;
          served = λ r t w e h. h;
          priced = λ t w i e h. absurd (fails w i e);
          rebalanced = λ t h. run_rebalance-prices t ∙ h;
          noted = λ t n h. h;
          stopped = λ t h. h;
          halted = λ t h. h;
          counted = λ t n h. h;
        })
        (λ t h. h) is s refl
