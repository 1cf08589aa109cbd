-- ===== src/Bot/Inputs/Examples.antt =====
-- The theorems on what reaches the bot, at concrete inputs.
use stablecoin_mmm.Base.{ℕ, ◌≡◌, refl, true, false, not, List, [], ◌∷◌}
use stablecoin_mmm.Base.Int.{pos}
use stablecoin_mmm.Base.Fixed.{Fixed, fixed_float, fixed_big}
use stablecoin_mmm.Base.Act.{ok}
use stablecoin_mmm.Risk.{is_circuit_breaker_active}
use stablecoin_mmm.Api.Server.{Server}
use stablecoin_mmm.Bot.Machine.{price_tick, rebalance_tick, monitor_tick}
use stablecoin_mmm.Base.{some}
use stablecoin_mmm.Base.Act.{and_then, caught, wrapped}
use stablecoin_mmm.Executor.Core.{new_executor}
use stablecoin_mmm.Rebalancer.Core.{new_rebalancer}
use stablecoin_mmm.Uniswap.{new_client, new_price_oracle}
use stablecoin_mmm.Bot.Core.{new_bot, assemble, start_bot}
use stablecoin_mmm.Bot.Average.{average_is_one}
use stablecoin_mmm.Bot.Refines.{Steps, view}
use stablecoin_mmm.Bot.Served.{moves_in, inputs_refine}
use stablecoin_mmm.Bot.Inputs.{Input, moved, asked, inputs, starts_in}
use stablecoin_mmm.Bot.Unfed.{
  trades_of, sums_of, no_trades, no_sums, nothing_recorded, daily_loss_never_stops,
}
use stablecoin_mmm.Bot.Stopped.{stopped_stays}
use stablecoin_mmm.Bot.Hands.{configured, funds_in_hands}
use stablecoin_mmm.Chain.Watched.{watching, AllLawful}
use stablecoin_mmm.Api.Routes.{to_add_liquidity}
use stablecoin_mmm.Bot.Stale.{prices_of, stale_prices}
use stablecoin_mmm.Api.Routes.{serve, to_rebalance, to_risk, to_swap}
use stablecoin_mmm.Api.Server.{answer, risk}
use stablecoin_mmm.Base.Act.{value, throw, not_found}
use stablecoin_mmm.Base.{◌≢◌, arith}
use stablecoin_mmm.Base.Int.{quot_ℤ, ◌*ℤ◌}
use stablecoin_mmm.Chain.{Chain}
use stablecoin_mmm.Risk.{of_bps, check_risk, daily_loss_exceeds}
use stablecoin_mmm.Uniswap.{PriceInfo, get_price_info, get_current_price, get_pool}
use stablecoin_mmm.Bot.Moves.{event, start_request, background}
use stablecoin_mmm.Bot.Sound.{IsSound}
use stablecoin_mmm.Bot.Reach.{reachable-IsSound}
use stablecoin_mmm.Sample.{executor, config, chain, server, stopped_state, engine, units}
use stablecoin_mmm.Bot.Sample.{oracle, bot_on, built_bot, builds}

-- A swap is asked for in between.
abbrev all_inputs : List (Input Fixed)
all_inputs =
    moved start_request
    ∷ moved (event price_tick)
    ∷ asked to_rebalance
    ∷ asked (
        to_swap (
          value (record {
            token_in = "token0";
            token_out = "token1";
            amount_in = "100";
            amount_out_min = "";
            fee = 500;
          })))
    ∷ moved background
    ∷ moved (event rebalance_tick)
    ∷ moved (event monitor_tick)
    ∷ asked to_risk
    ∷ []

abbrev reached : Server Fixed Fixed ℕ
reached = inputs chain 4 oracle all_inputs (start_bot chain built_bot).server

reachable-IsSound_example : IsSound config (some executor) (not (starts_in all_inputs)) reached
reachable-IsSound_example = reachable-IsSound chain 4 oracle config 0 built_bot all_inputs builds

nothing_recorded_example :
    (trades_of reached.state.risk ≡ no_trades)
    × (sums_of reached.metrics ≡ no_sums)
    × (reached.positions ≡ [])
    × ((serve chain 4 to_risk reached).0
        ≡ ok (answer 200 (risk (is_circuit_breaker_active reached.state.risk) (units 0) (units 0))))
nothing_recorded_example = nothing_recorded chain 4 oracle config 0 built_bot all_inputs builds

not_negative : fixed_float.lt (of_bps (pos 100)) (units 0) ≡ false
unfolding of_bps quot_ℤ ◌*ℤ◌
not_negative = refl

daily_loss_never_stops_example :
    (check_risk (pos 7) (units 2) (units 1) (units 1) reached.state.risk).1.reason
    ≢ daily_loss_exceeds (units 3)
daily_loss_never_stops_example =
    daily_loss_never_stops chain 4 oracle config 0 built_bot all_inputs (pos 7) (units 2) (units 1)
      (units 1) (units 3) builds not_negative

abbrev tripped_bot : Server Fixed Fixed ℕ
tripped_bot = record server { state = record stopped_state { risk = engine } }

-- Everything but a start, on a stopped rebalancer behind an active breaker.
abbrev quiet_inputs : List (Input Fixed)
quiet_inputs =
    moved (event price_tick)
    ∷ asked to_rebalance
    ∷ moved background
    ∷ moved (event rebalance_tick)
    ∷ moved (event monitor_tick)
    ∷ asked to_risk
    ∷ []

stopped_stays_example :
    let t = inputs chain 4 oracle quiet_inputs tripped_bot in
    (t.state.rebalancer.is_running ≡ false)
    × (t.state.risk ≡ engine)
    × (t.state.rebalancer.last_rebalance ≡ pos 0)
    × (t.state.rebalancer.last_stabilize ≡ pos 0)
stopped_stays_example = stopped_stays chain 4 oracle quiet_inputs tripped_bot refl refl

-- A chain whose pool cannot be read.
abbrev dark_chain : Chain ℕ
dark_chain = record chain { pool_slot0 = throw not_found }

no_price : (w : ℕ) (i : PriceInfo Fixed) → (get_price_info dark_chain oracle w).0 ≢ ok i
unfolding get_price_info get_current_price get_pool and_then wrapped
no_price w i = λ e. absurd (ground arith)

stale_prices_example : prices_of (inputs dark_chain 4 oracle all_inputs server) ≡ prices_of server
stale_prices_example = stale_prices dark_chain 4 oracle all_inputs server no_price

inputs_refine_example :
    Steps (moves_in all_inputs) (false, true) (view (inputs chain 4 oracle all_inputs tripped_bot))
inputs_refine_example = inputs_refine chain 4 oracle all_inputs tripped_bot

average_is_one_example : reached.state.rebalancer.twap_price ≡ units 1
average_is_one_example = average_is_one chain 4 oracle config 0 built_bot all_inputs builds

-- A liquidity is added and a swap is made, on the chain that keeps what is done.
abbrev spending : List (Input Fixed)
spending =
    asked (
      to_add_liquidity (
        value (record {
          token0 = "token0";
          token1 = "token1";
          fee = 500;
          amount0 = "100";
          amount1 = "100";
          tick_lower = pos 0;
          tick_upper = pos 0;
          range_bps = pos 0;
        })))
    ∷ all_inputs

builds_watched : new_bot (watching chain) config (0, []) ≡ some (bot_on (2, []))
unfolding new_bot assemble new_client new_executor new_rebalancer new_price_oracle and_then caught
    wrapped
builds_watched = refl

key_is_one : (w k : ℕ) → (chain.hex_to_ecdsa "key" w).0 ≡ ok k → k ≡ 1
key_is_one w k h = ground arith

funds_in_hands_example :
    AllLawful
      (configured chain config 1 key_is_one)
      (inputs
        (watching chain)
        4
        oracle
        spending
        (start_bot (watching chain) (bot_on (2, []))).server).state.world.1
funds_in_hands_example =
    funds_in_hands chain config 1 key_is_one 4 oracle (0, []) (bot_on (2, [])) spending refl
      builds_watched
