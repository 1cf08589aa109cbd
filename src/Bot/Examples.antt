-- ===== src/Bot/Examples.antt =====
-- The theorems on the bot at concrete inputs.
use stablecoin_mmm.Sample.{good_chain}
use stablecoin_mmm.Base.{ℕ, ◌≡◌, refl, true, false, arith}
use stablecoin_mmm.Base.Int.{◌+ℤ◌, ◌-ℤ◌, ◌*ℤ◌, quot_ℤ}
use stablecoin_mmm.Base.Word.{wrap64}
use stablecoin_mmm.Base.Time.{times, since}
use stablecoin_mmm.Base.Fixed.{fixed_float, fixed_big}
use stablecoin_mmm.Base.Act.{ok}
use stablecoin_mmm.Rebalancer.Core.{swap_value, min_out, calculate_deviation}
use stablecoin_mmm.Rebalancer.Rules.{should_rebalance, should_stabilize}
use stablecoin_mmm.Base.Fixed.{Fixed}
use stablecoin_mmm.Base.{◌∷◌, ap}
use stablecoin_mmm.Base.Int.{div_big}
use stablecoin_mmm.Base.Act.{and_then, caught, wrapped}
use stablecoin_mmm.Erc20.{
  set_bytes, set_bytes_from, new_erc20, erc20_balance_of, erc20_allowance, erc20_approve,
  get_token_balance,
}
use stablecoin_mmm.Executor.Core.{approve_token, wait_for_receipt, checked, reported}
use stablecoin_mmm.Executor.Trades.{execute_swap, send_swap}
use stablecoin_mmm.Rebalancer.Core.{outside, available_of_balance}
use stablecoin_mmm.Rebalancer.Actions.{do_stabilization, swap_balance, settle, mark_stabilized}
use stablecoin_mmm.Rebalancer.Core.{State}
use stablecoin_mmm.Base.{[]}
use stablecoin_mmm.Sample.{engine, chain, executor, state, high_state}
use stablecoin_mmm.Base.Act.{Outcome}
use stablecoin_mmm.Rebalancer.Actions.{mark_rebalanced}
use stablecoin_mmm.Monitor.{update_last_rebalance}
use stablecoin_mmm.Bot.Completes.{tick_completes}
use stablecoin_mmm.Base.{ℕ, ◌≡◌, refl, true, false, [], ◌∷◌}
use stablecoin_mmm.Base.Fixed.{Fixed, fixed_float, fixed_big}
use stablecoin_mmm.Base.Act.{ok}
use stablecoin_mmm.Risk.{is_circuit_breaker_active}
use stablecoin_mmm.Monitor.{update_status}
use stablecoin_mmm.Api.Server.{Server}
use stablecoin_mmm.Bot.Core.{check_alerts_tick, execute_rebalance_tick}
use stablecoin_mmm.Bot.Machine.{breaker_stops}
use stablecoin_mmm.Bot.Core.{start_bot}
use stablecoin_mmm.Base.{map, List}
use stablecoin_mmm.Bot.Loops.{
  Program, Loop, Turn, ticker, ctx_done, signal, monitor_loop, control, starts, rebalances,
  in_background, price_update_loop, rebalance_loop, turn, turns,
}
use stablecoin_mmm.Bot.Shutdown.{sees_done_in, started_in_vain}
use stablecoin_mmm.Bot.Quiet.{signal_stops_rebalancer}
use stablecoin_mmm.Sample.{chain, server, engine, state}
use stablecoin_mmm.Bot.Sample.{oracle, built_bot}

abbrev tripped : Server Fixed Fixed ℕ
tripped = record server { state = record state { risk = engine } }

active : is_circuit_breaker_active engine ≡ true
unfolding is_circuit_breaker_active
active = refl

breaker_stops_example :
    (execute_rebalance_tick chain 4 (check_alerts_tick chain tripped)
      ≡ (ok tt, check_alerts_tick chain tripped))
    × ((check_alerts_tick chain tripped).metrics ≡ update_status "circuit_breaker" tripped.metrics)
    × ((check_alerts_tick chain tripped).state.risk ≡ engine)
breaker_stops_example = breaker_stops chain 4 oracle tripped active

abbrev started : Program Fixed Fixed ℕ
started = record { bot = start_bot chain built_bot; looping = λ l. true }

signal_stops_rebalancer_example :
    (turns chain 4
      (signal ∷ control in_background ∷ ticker rebalance_loop ∷ control rebalances ∷ [])
      started).bot.server.state.rebalancer.is_running
    ≡ false
signal_stops_rebalancer_example =
    signal_stops_rebalancer chain 4
      (control in_background ∷ ticker rebalance_loop ∷ control rebalances ∷ []) started refl

-- The loops end in turn, with a tick and a request in between.
abbrev ends : List Turn
ends =
    ctx_done rebalance_loop
    ∷ ticker monitor_loop
    ∷ control rebalances
    ∷ ctx_done monitor_loop
    ∷ ctx_done price_update_loop
    ∷ []

all_end : (l : Loop) → sees_done_in l ends ≡ true
all_end price_update_loop = refl
all_end rebalance_loop = refl
all_end monitor_loop = refl

started_in_vain_example :
    let q = turn chain 4 (control starts) (turns chain 4 (signal ∷ ends) started) in
    (q.bot.server.state.rebalancer.is_running ≡ true)
    × (q.bot.server.metrics.status ≡ "running")
    × (turns chain 4 (map ticker (price_update_loop ∷ rebalance_loop ∷ [])) q ≡ q)
started_in_vain_example =
    started_in_vain chain 4 ends (price_update_loop ∷ rebalance_loop ∷ []) started all_end

-- The price is at two, the interval and the cooldown are over, and transactions succeed.
abbrev overdue : Server Fixed Fixed ℕ
overdue = record server { state = record high_state { world = 100_000_000_000 } }

abbrev decided : State Fixed Fixed ℕ
decided = (should_rebalance good_chain overdue.state).1

abbrev tried : Outcome (Unit {0}) × State Fixed Fixed ℕ
tried = do_stabilization good_chain 4 executor (should_stabilize good_chain decided).1

rebalances_now : (should_rebalance good_chain overdue.state).0.should ≡ true
unfolding should_rebalance calculate_deviation since times wrap64 ◌+ℤ◌ ◌-ℤ◌ ◌*ℤ◌ quot_ℤ
rebalances_now = refl

stabilizes_now : (should_stabilize good_chain decided).0.should ≡ true
unfolding should_stabilize should_rebalance calculate_deviation since times wrap64 ◌+ℤ◌ ◌-ℤ◌ ◌*ℤ◌
    quot_ℤ
stabilizes_now = refl

goes_well : tried.0 ≡ ok tt
unfolding should_rebalance do_stabilization swap_balance settle mark_stabilized should_stabilize
    outside get_token_balance new_erc20 erc20_balance_of erc20_allowance erc20_approve set_bytes
    set_bytes_from approve_token wait_for_receipt execute_swap send_swap checked reported and_then
    caught wrapped available_of_balance swap_value min_out div_big calculate_deviation since times
    wrap64 ◌+ℤ◌ ◌-ℤ◌ ◌*ℤ◌ quot_ℤ
goes_well = refl

tick_completes_example : execute_rebalance_tick good_chain 4 overdue ≡ (
  ok tt,
  record overdue {
    state = (mark_rebalanced good_chain tried.1).1;
    metrics = update_last_rebalance (good_chain.now tried.1.world).0 overdue.metrics;
  },
)
tick_completes_example =
    tick_completes good_chain 4 overdue executor 0 tried.1 rebalances_now refl stabilizes_now refl
      (omega arith) (ap (λ o. (o, tried.1)) goes_well)
