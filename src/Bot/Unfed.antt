-- ===== src/Bot/Unfed.antt =====
-- The statistics that main.go and pkg/api/service.go never feed: the risk engine's losses and trades,
-- the metrics' fees, gas, profit, liquidity, positions and failures, and the layers.
use mathlib.Core.Path.{subst}
use mathlib.Core.Option.{some-injective}
use stablecoin_mmm.Base.{ℕ, ◌≡◌, ◌≢◌, refl, ap, ◌∙◌, inl, inr, false, List, [], some, arith}
use stablecoin_mmm.Base.Int.{ℤ, pos}
use stablecoin_mmm.Base.Float.{Float, BigFloat}
use stablecoin_mmm.Base.Act.{Outcome, ok, err, panicked, waiting}
use stablecoin_mmm.Config.{Config}
use stablecoin_mmm.Chain.{Chain}
use stablecoin_mmm.Risk.{
  RiskEngine, new_risk_engine, check_risk, check_deviations, check_limits, trigger_circuit_breaker,
  reset_circuit_breaker, get_daily_loss, get_failure_rate, of_bps, daily_loss_exceeds,
}
use stablecoin_mmm.Position.{Positions, new_position_service}
use stablecoin_mmm.Monitor.{
  Metrics, new_metrics, update_prices, update_status, update_last_rebalance,
}
use stablecoin_mmm.Rebalancer.Core.{State, new_rebalancer, start}
use stablecoin_mmm.Rebalancer.Core as R
use stablecoin_mmm.Rebalancer.Actions.{execute_rebalance}
use stablecoin_mmm.Rebalancer.Keeps.{execute_rebalance_keeps, should_rebalance_risk}
use stablecoin_mmm.Uniswap.{PriceOracle}
use stablecoin_mmm.Api.Server.{Server}
use stablecoin_mmm.Api.Handlers.{update_rebalancer}
use stablecoin_mmm.Bot.Core.{Bot, NewParts, built, assemble, new_bot, start_bot, run_rebalance}
use stablecoin_mmm.Bot.Inputs.{Input, inputs, IsClosed, inputs-closed}
use stablecoin_mmm.Bot.Reach.{reachable-IsSound}
use stablecoin_mmm.Api.Server.{answer, risk}
use stablecoin_mmm.Api.Handlers.{handle_risk}
use stablecoin_mmm.Api.Routes.{serve, to_risk}
use stablecoin_mmm.Risk.{is_circuit_breaker_active}

-- The engine's losses, volume, failed trades and trades.
abbrev pub Trades : Type 0 → Type 0
Trades F = F × F × ℤ × ℤ

abbrev pub trades_of : {F : Type 0} → RiskEngine F → Trades F
trades_of e = (e.daily_loss, e.total_volume, e.failed_trades, e.total_trades)

-- Liquidity, fees, gas, profit, positions and the rate of failures.
abbrev pub Sums : Type 0 → Type 0
Sums F = F × F × F × F × ℤ × F

abbrev pub sums_of : {F : Type 0} → Metrics F → Sums F
sums_of m = (
  m.total_liquidity, m.fees_collected, m.gas_cost, m.net_profit, m.position_count, m.failure_rate,
)

module _ {F B : Type 0} ⦃f : Float F⦄ ⦃b : BigFloat F B⦄ where
  -- A risk check moves the breaker alone.
  check_risk-trades :
      (now : ℤ) (current twap : B) (ref : F) (e : RiskEngine F)
      → trades_of (check_risk now current twap ref e).0 ≡ trades_of e
  unfolding check_risk check_deviations trigger_circuit_breaker reset_circuit_breaker
  check_risk-trades now current twap ref e = ground arith

module _ {F B W : Type 0} ⦃f : Float F⦄ ⦃b : BigFloat F B⦄ (ch : Chain W) (fuel : ℕ)
    (oracle : PriceOracle F) where
  execute_rebalance-trades :
      (s : State F B W) → trades_of (execute_rebalance ch fuel s).1.risk ≡ trades_of s.risk
  execute_rebalance-trades s =
      ap trades_of (execute_rebalance_keeps ch fuel s).1 ∙ elim (should_rebalance_risk ch fuel s) [
        | inl same ↦ ap trades_of same
        | inr checked ↦ ap trades_of checked ∙ check_risk-trades _ _ _ _ s.risk
      ]

  module _ (t : Trades F) (m : Sums F) (l : Positions F) where
    -- The statistics are those.
    abbrev pub Keeps : Server F B W → Type 0
    Keeps s = (trades_of s.state.risk ≡ t) × (sums_of s.metrics ≡ m) × (s.positions ≡ l)

    Keeps-closed : IsClosed {B = B} ch fuel oracle Keeps
    unfolding update_rebalancer R.update_prices update_prices update_status update_last_rebalance
        run_rebalance
    Keeps-closed = record {
      read = λ s h. h;
      served = λ r s w e h. h;
      priced = λ s w i e h. h;
      rebalanced = λ s h. (execute_rebalance-trades s.state ∙ h.0, h.1, h.2);
      noted = λ s t h. h;
      stopped = λ s h. h;
      halted = λ s h. h;
      counted = λ s n h. h;
    }

module _ {F B : Type 0} ⦃f : Float F⦄ ⦃b : BigFloat F B⦄ where
  -- The loss is not named where it does not exceed its limit.
  check_passes_loss :
      (now : ℤ) (current twap : B) (ref x : F) (e : RiskEngine F)
      → f.lt (of_bps e.cfg.risk.max_daily_loss_bps) e.daily_loss ≡ false
      → (check_risk now current twap ref e).1.reason ≢ daily_loss_exceeds x
  unfolding check_risk check_deviations reset_circuit_breaker check_limits
  check_passes_loss now current twap ref x e h = λ eq. absurd (ground arith)

module _ {F : Type 0} ⦃f : Float F⦄ where
  abbrev pub no_trades : Trades F
  no_trades = (f.dec 0 0, f.dec 0 0, pos 0, pos 0)

  abbrev pub no_sums : Sums F
  no_sums = (f.dec 0 0, f.dec 0 0, f.dec 0 0, f.dec 0 0, pos 0, f.dec 0 0)

  -- The two numbers that the API shows of the engine.
  rates :
      (e : RiskEngine F)
      → trades_of e ≡ no_trades
      → (get_daily_loss e ≡ f.dec 0 0) × (get_failure_rate e ≡ f.dec 0 0)
  unfolding get_daily_loss get_failure_rate
  rates e h = (ap (λ x. x.0) h, rw (ap (λ x. x.3) h) refl)

module _ {F B W : Type 0} ⦃f : Float F⦄ ⦃b : BigFloat F B⦄ (ch : Chain W) where
  built-Keeps :
      (fuel : ℕ) (oracle : PriceOracle F) (cfg : Config F) (o : Outcome (NewParts F) × W)
      (bot : Bot F B W)
      → built ch cfg o ≡ some bot
      → Keeps ch fuel oracle no_trades no_sums [] (start_bot ch bot).server
  unfolding assemble new_risk_engine new_metrics new_position_service start_bot update_rebalancer
      start
  built-Keeps fuel oracle cfg (ok parts, w) bot e =
      subst (λ (x : Bot F B W). Keeps ch fuel oracle no_trades no_sums [] (start_bot ch x).server)
        (some-injective _ _ e) (refl, refl, refl)
  built-Keeps fuel oracle cfg (err g, w) bot e = absurd (ground arith)
  built-Keeps fuel oracle cfg (panicked, w) bot e = absurd (ground arith)
  built-Keeps fuel oracle cfg (waiting, w) bot e = absurd (ground arith)

  -- In every state that a started bot reaches, by ticks, background rebalances and requests of every
  -- kind in any order, the risk engine has counted no loss, no volume and no trade, the metrics hold
  -- no liquidity, fees, gas, profit, position or failure, and there is no layer: so the API answers
  -- a question for the risk with a loss and a failure rate of zero, whatever was traded.
  pub nothing_recorded :
      (fuel : ℕ) (oracle : PriceOracle F) (cfg : Config F) (w : W) (bot : Bot F B W)
      (is : List (Input F))
      → new_bot ch cfg w ≡ some bot
      → let s = inputs ch fuel oracle is (start_bot ch bot).server in
        (trades_of s.state.risk ≡ no_trades)
        × (sums_of s.metrics ≡ no_sums)
        × (s.positions ≡ [])
        × ((serve ch fuel to_risk s).0
            ≡ ok (
                answer 200 (risk (is_circuit_breaker_active s.state.risk) (f.dec 0 0) (f.dec 0 0))))
  unfolding new_bot serve handle_risk get_daily_loss get_failure_rate update_status
  nothing_recorded fuel oracle cfg w bot is e =
      let s = inputs ch fuel oracle is (start_bot ch bot).server in
      let (trades, sums, layers) =
        inputs-closed ch fuel oracle (Keeps ch fuel oracle no_trades no_sums [])
          (Keeps-closed ch fuel oracle no_trades no_sums []) (λ s h. h) is (start_bot ch bot).server
          (built-Keeps fuel oracle cfg _ bot e) in
      (trades, sums, layers, let (loss, rate) = rates s.state.risk trades in rw (loss, rate) refl)

  -- In every such state, a risk check on any prices at any time does not name the daily loss as its
  -- reason, if the configured limit is not below zero.
  pub daily_loss_never_stops :
      (fuel : ℕ) (oracle : PriceOracle F) (cfg : Config F) (w : W) (bot : Bot F B W)
      (is : List (Input F)) (now : ℤ) (current twap : B) (ref percent : F)
      → new_bot ch cfg w ≡ some bot
      → f.lt (of_bps cfg.risk.max_daily_loss_bps) (f.dec 0 0) ≡ false
      → (check_risk now current twap ref
          (inputs ch fuel oracle is (start_bot ch bot).server).state.risk).1.reason
        ≢ daily_loss_exceeds percent
  daily_loss_never_stops fuel oracle cfg w bot is now current twap ref percent e h =
      let sound = reachable-IsSound ch fuel oracle cfg w bot is e in
      let (trades, _, _, _) = nothing_recorded fuel oracle cfg w bot is e in
      check_passes_loss now current twap ref percent
        (inputs ch fuel oracle is (start_bot ch bot).server).state.risk
        (rw (sound.risk_cfg, ap (λ t. t.0) trades) h)
