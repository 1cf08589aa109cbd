-- ===== src/Bot/Average.antt =====
-- The average price that the bot works with, from GetTwapPrice of pkg/uniswap/client.go through
-- pkg/oracle/service.go and the price loop of main.go to the rebalancer.
use mathlib.Core.Path.{subst}
use mathlib.Core.Option.{some-injective}
use stablecoin_mmm.Base.{ℕ, ◌≡◌, refl, ap, ◌∙◌, List, some, arith}
use stablecoin_mmm.Base.Float.{Float, BigFloat}
use stablecoin_mmm.Base.Act.{
  Outcome, ok, err, panicked, waiting, and_then, wrapped, Ensures, returns, Ensures-and_then,
  of_Ensures,
}
use stablecoin_mmm.Config.{Config}
use stablecoin_mmm.Chain.{Chain}
use stablecoin_mmm.Rebalancer.Core.{new_rebalancer, start, stop}
use stablecoin_mmm.Rebalancer.Core as R
use stablecoin_mmm.Rebalancer.Keeps.{execute_rebalance_keeps}
use stablecoin_mmm.Uniswap.{PriceOracle, PriceInfo, get_price_info, get_twap_price}
use stablecoin_mmm.Api.Server.{Server}
use stablecoin_mmm.Api.Handlers.{update_rebalancer}
use stablecoin_mmm.Bot.Core.{Bot, NewParts, built, assemble, new_bot, start_bot, run_rebalance}
use stablecoin_mmm.Bot.Inputs.{Input, inputs, IsClosed, inputs-closed}

module _ {F B W : Type 0} ⦃f : Float F⦄ ⦃b : BigFloat F B⦄ (ch : Chain W) where
  abbrev IsOne : Server F B W → Type 0
  IsOne s = s.state.rebalancer.twap_price ≡ b.new_float (f.dec 1 0)

  twap_is_one :
      (o : PriceOracle F) (w : W)
      → Ensures
          (λ (i : PriceInfo B) _. i.twap_price ≡ b.new_float (f.dec 1 0))
          (get_price_info ch o w)
  unfolding get_price_info get_twap_price
  twap_is_one o w = Ensures-and_then _ λ current w1. unfold wrapped and_then in returns refl

  module _ (fuel : ℕ) (oracle : PriceOracle F) where
    run_rebalance-IsOne : (s : Server F B W) → IsOne s → IsOne (run_rebalance ch fuel s).1
    unfolding run_rebalance
    run_rebalance-IsOne s h = ap (λ r. r.twap_price) (execute_rebalance_keeps ch fuel s.state).0 ∙ h

    IsOne-closed : IsClosed ch fuel oracle IsOne
    unfolding update_rebalancer R.update_prices
    IsOne-closed = record {
      read = λ s h. h;
      served = λ r s w e h. h;
      priced = λ s w i e h.
          of_Ensures _ (get_price_info {B = B} ch oracle w) (twap_is_one oracle w)
            (ap (λ o. (o, (get_price_info {B = B} ch oracle w).1)) e);
      rebalanced = run_rebalance-IsOne;
      noted = λ s t h. h;
      stopped = λ s h. h;
      halted = λ s h. h;
      counted = λ s n h. h;
    }

  built-IsOne :
      (cfg : Config F) (o : Outcome (NewParts F) × W) (bot : Bot F B W)
      → built ch cfg o ≡ some bot
      → IsOne bot.server
  unfolding assemble new_rebalancer
  built-IsOne cfg (ok parts, w) bot e =
      subst (λ (x : Bot F B W). IsOne x.server) (some-injective _ _ e) refl
  built-IsOne cfg (err g, w) bot e = absurd (ground arith)
  built-IsOne cfg (panicked, w) bot e = absurd (ground arith)
  built-IsOne cfg (waiting, w) bot e = absurd (ground arith)

  -- In every state that a started bot reaches, by ticks, requests of every kind and background
  -- rebalances in any order and whatever the pool says, the rebalancer's average price is the
  -- constant one.
  pub average_is_one :
      (fuel : ℕ) (oracle : PriceOracle F) (cfg : Config F) (w : W) (bot : Bot F B W)
      (is : List (Input F))
      → new_bot ch cfg w ≡ some bot
      → (inputs ch fuel oracle is (start_bot ch bot).server).state.rebalancer.twap_price
        ≡ b.new_float (f.dec 1 0)
  unfolding new_bot
  average_is_one fuel oracle cfg w bot is e =
      inputs-closed ch fuel oracle IsOne (IsOne-closed fuel oracle) (λ s h. h) is
        (start_bot ch bot).server
        (unfold start_bot update_rebalancer start in built-IsOne cfg _ bot e)
