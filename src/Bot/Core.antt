-- ===== src/Bot/Core.antt =====
-- main.go: building the bot, and what one tick of each loop does. The loops' timers, the HTTP server
-- and the signal are the environment's.
use stablecoin_mmm.Base.{ℕ, ◌-◌, ◌==◌, Bool, true, false, Option, none, some, if◌then◌else◌}
use stablecoin_mmm.Base.Int.{ℤ}
use stablecoin_mmm.Base.Float.{Float, BigFloat}
use stablecoin_mmm.Base.Act.{
  Act, Outcome, ok, err, panicked, waiting, Result, value, error, ◌>>=◌, pure, try, or_wrap,
}
use stablecoin_mmm.Config.{Config}
use stablecoin_mmm.Chain.{Chain, read_clock}
use stablecoin_mmm.Risk.{new_risk_engine, is_circuit_breaker_active}
use stablecoin_mmm.Position.{new_position_service}
use stablecoin_mmm.Monitor.{
  new_metrics, check_alerts, update_prices, update_status, update_last_rebalance,
}
use stablecoin_mmm.Executor.Core.{Executor, new_executor}
use stablecoin_mmm.Rebalancer.Core.{Rebalancer, State, new_rebalancer, start, stop}
use stablecoin_mmm.Rebalancer.Core as R
use stablecoin_mmm.Rebalancer.Actions.{execute_rebalance}
use stablecoin_mmm.Uniswap.{
  Client, PriceInfo, PriceOracle, new_client, new_price_oracle, get_price_info,
}
use stablecoin_mmm.Api.Server.{Server, on_chain}
use stablecoin_mmm.Api.Handlers.{update_rebalancer}

-- The bot: the API server, which shares the rebalancer, the risk engine and the metrics, and the
-- oracle. `cancelled` is the context that the loops and the calls share.
pub record Bot (F B W : Type 0) : Type 0 where
  pub server : Server F B W
  pub oracle : PriceOracle F
  pub cancelled : Bool

abbrev pub value_or_nil : {A : Type 0} → Result A → Option A
value_or_nil (value a) = some a
value_or_nil (error e) = none

-- What the components are made of: the client, the rebalancer's executor and its two readings of the
-- clock, and the executor of the API server.
abbrev pub NewParts : Type 0 → Type 0
NewParts F = Client F × Option (Executor F) × ℤ × ℤ × Option (Executor F)

module _ {F B W : Type 0} ⦃f : Float F⦄ ⦃b : BigFloat F B⦄ (ch : Chain W) where
  -- The components on a world: everything is stopped and empty.
  unfoldable pub assemble : Config F → NewParts F → W → Outcome (PriceOracle F) × Server F B W
  assemble cfg (client, exec, t1, t2, api_exec) w = (
    ok (new_price_oracle cfg client),
    record {
      cfg = cfg;
      positions = new_position_service;
      metrics = new_metrics;
      executor = api_exec;
      state = record {
        rebalancer = new_rebalancer cfg exec t1 t2;
        risk = new_risk_engine cfg;
        world = w;
      };
      pending = 0;
    },
  )

  abbrev pub bot_of : Outcome (PriceOracle F) × Server F B W → Option (Bot F B W)
  bot_of (ok oracle, s) = some (record { server = s; oracle = oracle; cancelled = false })
  bot_of (err e, s) = none
  bot_of (panicked, s) = none
  bot_of (waiting, s) = none

  abbrev pub built : Config F → Outcome (NewParts F) × W → Option (Bot F B W)
  built cfg (ok parts, w) = bot_of (assemble cfg parts w)
  built cfg (err e, w) = none
  built cfg (panicked, w) = none
  built cfg (waiting, w) = none

  -- `NewBot`: without a client there is no bot; an executor that cannot be made is nil. The rebalancer
  -- reads the clock twice, and the API server makes an executor of its own.
  unfoldable pub new_bot : Config F → W → Option (Bot F B W)
  new_bot cfg w = built cfg (
      (or_wrap "failed to create uniswap client" (new_client ch cfg) >>= λ client.
      try (new_executor ch cfg) >>= λ exec. read_clock ch >>= λ t1. read_clock ch >>= λ t2.
      try (new_executor ch cfg) >>= λ api_exec.
      pure (client, value_or_nil exec, t1, t2, value_or_nil api_exec))
        w)

  abbrev pub with_prices : Result (PriceInfo B) → Server F B W → Server F B W
  with_prices (error e) s = s
  with_prices (value info) s =
      let s' = update_rebalancer (R.update_prices info.current_price info.twap_price) s in
      record s' {
        metrics =
            update_prices (b.to_float64 info.current_price) (b.to_float64 info.twap_price)
              s.cfg.oracle.ref_price s.metrics;
      }

  -- `updatePrices`: one tick of the price loop.
  unfoldable pub update_prices_tick : PriceOracle F → Act (Server F B W) (Unit {0})
  update_prices_tick oracle =
      try (on_chain (get_price_info ch oracle)) >>= λ r s. (ok tt, with_prices r s)

  abbrev pub with_state :
      {A : Type 0} → Server F B W → Outcome A × State F B W → Outcome A × Server F B W
  with_state s (o, st) = (o, record s { state = st })

  -- The rebalance, on the server's shared state.
  unfoldable pub run_rebalance : ℕ → Act (Server F B W) (Unit {0})
  run_rebalance fuel s = with_state s (execute_rebalance ch fuel s.state)

  -- The goroutine of `handleRebalance`, once it runs: its result is dropped.
  unfoldable pub run_pending : ℕ → Server F B W → Server F B W
  run_pending fuel s =
      if s.pending == 0 then s else (run_rebalance fuel (record s { pending = s.pending - 1 })).1

  abbrev pub after_rebalance : Result (Unit {0}) → Act (Server F B W) (Unit {0})
  after_rebalance (error e) s = (ok tt, s)
  after_rebalance (value _) s = (
    ok tt,
    record s { metrics = update_last_rebalance s.state.rebalancer.last_rebalance s.metrics },
  )

  -- `executeRebalance`: one tick of the rebalance loop.
  unfoldable pub execute_rebalance_tick : ℕ → Act (Server F B W) (Unit {0})
  execute_rebalance_tick fuel = try (run_rebalance fuel) >>= after_rebalance

  -- `checkAlerts`: one tick of the monitor loop. The alerts are printed only; an active breaker stops
  -- the rebalancer.
  unfoldable pub check_alerts_tick : Server F B W → Server F B W
  check_alerts_tick s =
      let st = s.state in
      let w = (check_alerts ch (some st.risk) s.metrics st.world).1 in
      let t = record s { state = record st { world = w } } in
      let s' = update_rebalancer stop t in
      if is_circuit_breaker_active s.state.risk
      then record s' { metrics = update_status "circuit_breaker" s.metrics }
      else t

  -- `Stop`: cancel the loops, then stop the rebalancer.
  unfoldable pub stop_bot : Bot F B W → Bot F B W
  stop_bot bot =
      let s = bot.server in record bot { server = update_rebalancer stop s; cancelled = true }

  -- `handleStartBot`, up to the loops.
  unfoldable pub start_bot : Bot F B W → Bot F B W
  start_bot bot = let s = bot.server in record bot { server = update_rebalancer start s }
