-- ===== src/Rebalancer/Examples.antt =====
-- The theorems on pkg/rebalancer/service.go at concrete inputs.
use stablecoin_mmm.Sample.{good_chain}
use stablecoin_mmm.Base.{ℕ, ◌≡◌, ◌<◌, ◌≤◌, ◌+◌, ◌*◌, ◌⊎◌, ◌↔◌, refl, true, false, none, some, arith}
use stablecoin_mmm.Base.Int.{pos, ◌+ℤ◌, ◌-ℤ◌, ◌*ℤ◌, quot_ℤ, ltb_ℤ}
use stablecoin_mmm.Base.Word.{wrap64}
use stablecoin_mmm.Base.Time.{second, times, since}
use stablecoin_mmm.Base.Fixed.{fixed_float, fixed_big, Fixed-IsOrdered}
use stablecoin_mmm.Base.Act.{ok, err, message}
use stablecoin_mmm.Risk.{check_risk, check_deviations, check_limits, of_bps, breaker_duration}
use stablecoin_mmm.Rebalancer.Core.{swap_value, min_out, calculate_deviation}
use stablecoin_mmm.Rebalancer.Rules.{should_rebalance, should_stabilize}
use stablecoin_mmm.Rebalancer.Actions.{attempts, execute_rebalance}
use stablecoin_mmm.Rebalancer.Swap.{swap_value_bounds, min_out_bounds}
use stablecoin_mmm.Rebalancer.Decide.{IsDue, should_stabilize_iff}
use stablecoin_mmm.Rebalancer.Retry.{SucceedsAfter, attempts_iff}
use stablecoin_mmm.Rebalancer.Guard.{should_rebalance_iff, rebalance_fails_when_stable}
use stablecoin_mmm.Base.Int.{◌<ℤ◌, ◌≤ℤ◌}
use stablecoin_mmm.Base.{◌↔◌, ◌⊎◌}
use stablecoin_mmm.Base.Fixed.{Fixed}
use stablecoin_mmm.Base.{◌∷◌, ap}
use stablecoin_mmm.Base.Int.{div_big}
use stablecoin_mmm.Base.Act.{and_then, caught, wrapped}
use stablecoin_mmm.Erc20.{
  set_bytes, set_bytes_from, new_erc20, erc20_balance_of, erc20_allowance, erc20_approve,
  get_token_balance,
}
use stablecoin_mmm.Executor.Core.{approve_token, wait_for_receipt, checked, reported}
use stablecoin_mmm.Executor.Trades.{execute_swap, send_swap}
use stablecoin_mmm.Rebalancer.Core.{outside, available_of_balance}
use stablecoin_mmm.Rebalancer.Actions.{
  execute_stabilization, stabilize_if, do_stabilization, swap_balance, settle, mark_stabilized,
}
use stablecoin_mmm.Rebalancer.Race.{
  loop, handler, decides, acts, caller_steps, stabilized, interleaved_stabilize_twice,
}
use stablecoin_mmm.Rebalancer.Race.{late_stop, stops}
use stablecoin_mmm.Rebalancer.Core.{stop}
use stablecoin_mmm.Rebalancer.Rests.{stabilized_rests}
use stablecoin_mmm.Base.Settles.{Settles}
use stablecoin_mmm.Rebalancer.Core.{State}
use stablecoin_mmm.Base.{[]}
use stablecoin_mmm.Executor.Sells.{Selling, selling, Sent}
use stablecoin_mmm.Rebalancer.Sells.{Careful, execute_rebalance-Sent}
use stablecoin_mmm.Rebalancer.Live.{execute_rebalance-Settles}
use stablecoin_mmm.Rebalancer.Held.{OnlyReadsClock, breaker_holds_rebalance}
use stablecoin_mmm.Sample.{engine, chain-IsLive, config, chain, executor, units, state, high_state}

swap_value_bounds_example :
    let v = swap_value config.stabilization (units 50) in
    (fixed_float.lt (units 50) v ≡ false)
    × (fixed_float.lt (units 100) v ≡ false)
    × ((fixed_float.lt v (units 1) ≡ false)
        ⊎ (fixed_float.lt (units 50) (units 1) ≡ true)
        ⊎ (fixed_float.lt (units 100) (units 1) ≡ true))
swap_value_bounds_example = swap_value_bounds Fixed-IsOrdered config.stabilization (units 50)

min_out_bounds_example :
    (m : ℕ) × (min_out (pos 1001) (pos 50) ≡ some (pos m))
    × (m ≤ 1001)
    × (m * 10_000 ≤ 1001 * 9950)
    × (1001 * 9950 < (m + 1) * 10_000)
min_out_bounds_example = min_out_bounds 1001 50 (omega arith)

should_stabilize_iff_example :
    ((should_stabilize chain high_state).0.should ≡ true) ↔ IsDue chain high_state
should_stabilize_iff_example = should_stabilize_iff chain high_state

attempts_iff_example :
    (attempts chain 3 1 4 executor none high_state ≡ (ok tt, state))
    ↔ ((n : ℕ) × (n < 3) × SucceedsAfter chain 4 executor n 1 high_state state)
attempts_iff_example = attempts_iff chain 4 executor high_state state

should_rebalance_iff_example : ((should_rebalance chain high_state).0.should ≡ true) ↔ (
    (high_state.rebalancer.is_running ≡ true)
    × (times (pos 1) second ≤ℤ since (pos 5_000_000_000) (pos 0))
    × ((fixed_float.lt config.bot.rebalance_threshold (calculate_deviation high_state.rebalancer)
          ≡ true)
        ⊎ ((check_risk
              (pos 5_000_000_001)
              high_state.rebalancer.current_price
              high_state.rebalancer.twap_price
              config.oracle.ref_price
              high_state.risk).1.allowed
            ≡ true)))
should_rebalance_iff_example = should_rebalance_iff chain high_state

low : fixed_float.lt config.bot.rebalance_threshold (calculate_deviation state.rebalancer) ≡ false
unfolding calculate_deviation ◌+ℤ◌ ◌-ℤ◌ ◌*ℤ◌ quot_ℤ
low = refl

should : (should_rebalance chain state).0.should ≡ true
unfolding should_rebalance calculate_deviation check_risk check_deviations check_limits of_bps since
    times breaker_duration wrap64 ◌+ℤ◌ ◌-ℤ◌ ◌*ℤ◌ quot_ℤ
should = refl

stable : (should_stabilize chain (should_rebalance chain state).1).0.should ≡ false
unfolding should_stabilize should_rebalance calculate_deviation check_risk check_deviations
    check_limits of_bps since times breaker_duration wrap64 ◌+ℤ◌ ◌-ℤ◌ ◌*ℤ◌ quot_ℤ
stable = refl

rebalance_fails_when_stable_example :
    ((execute_rebalance chain 4 state).0 ≡ err (message "stabilization not needed"))
    × ((execute_rebalance chain 4 state).1.rebalancer ≡ state.rebalancer)
rebalance_fails_when_stable_example = rebalance_fails_when_stable chain 4 state should refl stable

execute_rebalance-Settles_example : Settles (execute_rebalance chain 4 high_state)
execute_rebalance-Settles_example = execute_rebalance-Settles chain 4 chain-IsLive high_state

-- The breaker has tripped at 1000 and the time is 2000, in nanoseconds.
abbrev held : State Fixed Fixed ℕ
held = record state { risk = engine; world = 2000 }

within : pos 2001 <ℤ pos 1000 +ℤ breaker_duration config
unfolding breaker_duration times wrap64 ◌+ℤ◌ ◌*ℤ◌
within = omega arith

breaker_holds_rebalance_example :
    ((execute_rebalance chain 4 held).0 ≡ err (message "rebalance not needed"))
    × ((execute_rebalance chain 4 held).1.rebalancer ≡ held.rebalancer)
    × ((execute_rebalance chain 4 held).1.risk.is_circuit_breaker ≡ true)
    × OnlyReadsClock chain 2000 (execute_rebalance chain 4 held).1.world
breaker_holds_rebalance_example = breaker_holds_rebalance chain 4 held refl (omega arith) within low

-- The price is at two, and nothing was sold.
abbrev unsold : State Fixed Fixed (Selling ℕ)
unsold = record {
  rebalancer = high_state.rebalancer;
  risk = high_state.risk;
  world = (5_000_000_000, []);
}

execute_rebalance-Sent_example :
    Sent (Careful (pos 50)) 3 (execute_rebalance (selling chain) 4 unsold).1.world.1
execute_rebalance-Sent_example = execute_rebalance-Sent chain 4 unsold refl

-- The price is at two, and the cooldown is over.
abbrev overdue : State Fixed Fixed ℕ
overdue = record high_state { world = 100_000_000_000 }

is_due : (should_stabilize chain overdue).0.should ≡ true
unfolding should_stabilize calculate_deviation since times wrap64 ◌+ℤ◌ ◌-ℤ◌ ◌*ℤ◌ quot_ℤ
is_due = refl

interleaved_stabilize_twice_example :
    (caller_steps chain 4
      (decides loop ∷ decides handler ∷ acts loop ∷ acts handler ∷ [])
      (record { state = overdue; decision = λ c. none })).state
    ≡ stabilized chain 4
        (stabilized chain 4 (should_stabilize chain (should_stabilize chain overdue).1).1)
interleaved_stabilize_twice_example =
    interleaved_stabilize_twice chain 4 (record { state = overdue; decision = λ c. none }) is_due
      refl

late_stop_example :
    let s = (should_stabilize chain overdue).1 in
    let t = record s { rebalancer = stop s.rebalancer } in
    ((caller_steps chain 4
        (decides handler ∷ stops ∷ acts handler ∷ [])
        (record { state = overdue; decision = λ c. none })).state
      ≡ stabilized chain 4 t)
    × ((stabilized chain 4 t).rebalancer.is_running ≡ false)
late_stop_example =
    late_stop chain 4 handler (record { state = overdue; decision = λ c. none }) is_due

abbrev rested : State Fixed Fixed ℕ
rested = (execute_stabilization good_chain 4 overdue).1

succeeds : (execute_stabilization good_chain 4 overdue).0 ≡ ok tt
unfolding execute_stabilization stabilize_if attempts do_stabilization swap_balance settle
    mark_stabilized should_stabilize outside get_token_balance new_erc20 erc20_balance_of
    erc20_allowance erc20_approve set_bytes set_bytes_from approve_token wait_for_receipt
    execute_swap send_swap checked reported and_then caught wrapped available_of_balance swap_value
    min_out div_big calculate_deviation since times wrap64 ◌+ℤ◌ ◌-ℤ◌ ◌*ℤ◌ quot_ℤ
succeeds = refl

early :
    ltb_ℤ
      (since (good_chain.now rested.world).0 rested.rebalancer.last_stabilize)
      (times rested.rebalancer.cfg.stabilization.cooldown_seconds second)
    ≡ true
unfolding execute_stabilization stabilize_if attempts do_stabilization swap_balance settle
    mark_stabilized should_stabilize outside get_token_balance new_erc20 erc20_balance_of
    erc20_allowance erc20_approve set_bytes set_bytes_from approve_token wait_for_receipt
    execute_swap send_swap checked reported and_then caught wrapped available_of_balance swap_value
    min_out div_big calculate_deviation since times wrap64 ◌+ℤ◌ ◌-ℤ◌ ◌*ℤ◌ quot_ℤ
early = refl

stabilized_rests_example :
    let (o, t) = execute_stabilization good_chain 4 rested in
    ((w : ℕ) × ((rested.rebalancer.last_stabilize, rested.world) ≡ good_chain.now w))
    × (o ≡ err (message "stabilization not needed"))
    × (t.rebalancer ≡ rested.rebalancer)
    × (t.risk ≡ rested.risk)
    × OnlyReadsClock good_chain rested.world t.world
stabilized_rests_example =
    stabilized_rests good_chain 4 overdue rested (ap (λ o. (o, rested)) succeeds) early
