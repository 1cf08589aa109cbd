-- ===== src/Bot/Reach.antt =====
-- From the start of the bot in main.go to every state that it can reach.
use mathlib.Core.Path.{subst}
use stablecoin_mmm.Base.{ℕ, ◌≡◌, refl, inl, inr, true, not, List, some, arith}
use stablecoin_mmm.Base.Float.{Float, BigFloat}
use stablecoin_mmm.Base.Act.{Outcome, ok, err, panicked, waiting}
use stablecoin_mmm.Config.{Config}
use stablecoin_mmm.Chain.{Chain}
use stablecoin_mmm.Risk.{new_risk_engine}
use stablecoin_mmm.Monitor.{new_metrics}
use stablecoin_mmm.Rebalancer.Core.{new_rebalancer, start}
use stablecoin_mmm.Uniswap.{PriceOracle}
use stablecoin_mmm.Api.Handlers.{update_rebalancer}
use stablecoin_mmm.Bot.Core.{Bot, NewParts, built, assemble, new_bot, start_bot}
use mathlib.Core.Option.{some-injective}
use stablecoin_mmm.Bot.Sound.{IsSound, inputs-IsSound}
use stablecoin_mmm.Bot.Inputs.{Input, starts_in, inputs}

module _ {F B W : Type 0} ⦃f : Float F⦄ ⦃b : BigFloat F B⦄ (ch : Chain W) where
  -- A bot that is built and started shares one configuration, and is sound.
  built-IsSound :
      (cfg : Config F) (o : Outcome (NewParts F) × W) (bot : Bot F B W)
      → built ch cfg o ≡ some bot
      → IsSound cfg bot.server.state.rebalancer.executor true (start_bot ch bot).server
  unfolding assemble new_rebalancer new_risk_engine new_metrics start_bot update_rebalancer start
  built-IsSound cfg (ok parts, w) bot e =
      subst
        (λ (x : Bot F B W).
          IsSound cfg x.server.state.rebalancer.executor true (start_bot ch x).server)
        (some-injective _ _ e)
        (record {
          server_cfg = refl;
          rebalancer_cfg = refl;
          risk_cfg = refl;
          executor = refl;
          breaker = inr refl;
          status = inl (refl, refl, refl);
        })
  built-IsSound cfg (err g, w) bot e = absurd (ground arith)
  built-IsSound cfg (panicked, w) bot e = absurd (ground arith)
  built-IsSound cfg (waiting, w) bot e = absurd (ground arith)

  -- A bot that is built from a configuration and started, then taken through any ticks, background
  -- rebalances and requests of every kind in any order, failing and panicking ones included: the
  -- server, the rebalancer and the risk engine share that configuration, the rebalancer has the
  -- executor that it was given, the breaker is active or has no start, and the reported status is
  -- "running" of a rebalancer that runs, "stopped" or "circuit_breaker" of one that does not, or empty
  -- of one that runs where no request to start has come.
  pub reachable-IsSound :
      (fuel : ℕ) (oracle : PriceOracle F) (cfg : Config F) (w : W) (bot : Bot F B W)
      (is : List (Input F))
      → new_bot ch cfg w ≡ some bot
      → IsSound cfg bot.server.state.rebalancer.executor
          (not (starts_in is))
          (inputs ch fuel oracle is (start_bot ch bot).server)
  unfolding new_bot
  reachable-IsSound fuel oracle cfg w bot is e =
      inputs-IsSound ch fuel oracle cfg bot.server.state.rebalancer.executor is
        (start_bot ch bot).server (built-IsSound cfg _ bot e)
