-- ===== src/Rebalancer/Actions.antt =====
-- The stabilization and the rebalance of pkg/rebalancer/service.go. Of an error's text only the fixed
-- part is kept.
use stablecoin_mmm.Base.{ℕ, zero, suc, ◌+◌, not, Option, none, some, ltb, if◌then◌else◌}
use stablecoin_mmm.Base.Int.{ℤ, pos, ◌*ℤ◌, leb_ℤ}
use stablecoin_mmm.Base.Word.{wrap64}
use stablecoin_mmm.Base.Time.{second, times}
use stablecoin_mmm.Base.Float.{Float, BigFloat}
use stablecoin_mmm.Base.Act.{
  Act, Outcome, ok, GoError, message, wrap, Result, value, error, ◌>>=◌, throw, panic, try, or_wrap,
  or_panic,
}
use stablecoin_mmm.Config.{Config}
use stablecoin_mmm.Chain.{Address, Chain}
use stablecoin_mmm.Erc20.{get_token_balance}
use stablecoin_mmm.Executor.Core.{Executor, Returned}
use stablecoin_mmm.Executor.Trades.{execute_swap}
use stablecoin_mmm.Rebalancer.Core.{
  State, outside, Decision, swap_value, available_of_balance, min_out, last_error,
}
use stablecoin_mmm.Rebalancer.Rules.{should_rebalance, should_stabilize}

module _ {F B W : Type 0} ⦃f : Float F⦄ ⦃b : BigFloat F B⦄ (ch : Chain W) where
  -- `r.lastStabilize = time.Now()`, and so for the rebalance.
  unfoldable pub mark_stabilized : Act (State F B W) (Unit {0})
  mark_stabilized s =
      let (now, w) = ch.now s.world in
      let r = s.rebalancer in
      (ok tt, record s { rebalancer = record r { last_stabilize = now }; world = w })

  unfoldable pub mark_rebalanced : Act (State F B W) (Unit {0})
  mark_rebalanced s =
      let (now, w) = ch.now s.world in
      let r = s.rebalancer in
      (ok tt, record s { rebalancer = record r { last_rebalance = now }; world = w })

  -- What the swap's answer means for the stabilization.
  unfoldable pub settle : Returned → Act (State F B W) (Unit {0})
  settle (result, some e) = throw (wrap "stabilization swap failed" e)
  settle (result, none) =
      if not result.success then throw (message "stabilization tx failed") else mark_stabilized

  -- The swap of one token for the other, once the balances are read.
  unfoldable pub swap_balance :
      ℕ → Executor F → Config F → Address → Address → ℤ → Act (State F B W) (Unit {0})
  swap_balance fuel exec cfg token_in token_out balance =
      let available : F = available_of_balance balance in
      let amount_in =
        f.to_int (f.mul (swap_value cfg.stabilization available) (f.dec 1_000_000 0)) in
      if leb_ℤ amount_in (pos 0)
      then throw (message "swap amount is zero or negative")
      else (or_panic (min_out amount_in cfg.execution.max_slippage_bps) >>= λ amount_out_min.
          outside (execute_swap ch exec fuel token_in token_out amount_in amount_out_min (pos 0))
          >>= settle)

  -- Above a price of one token 0 is sold, else token 1.
  unfoldable pub do_stabilization : ℕ → Executor F → Act (State F B W) (Unit {0})
  do_stabilization fuel exec s =
      let cfg = s.rebalancer.cfg in
      let token0 = ch.hex_to_address cfg.uniswap.token0_address in
      let token1 = ch.hex_to_address cfg.uniswap.token1_address in
      let price = b.to_float64 s.rebalancer.current_price in
      (or_wrap "failed to get token0 balance"
            (outside (get_token_balance ch token0 exec.wallet_address))
          >>= λ balance0.
              or_wrap "failed to get token1 balance"
                (outside (get_token_balance ch token1 exec.wallet_address))
              >>= λ balance1.
                  if f.lt (f.dec 1 0) price
                  then swap_balance fuel exec cfg token0 token1 balance0
                  else swap_balance fuel exec cfg token1 token0 balance1)
        s

  -- The wait after a failed attempt, except the last of three.
  unfoldable pub pause : ℕ → State F B W → State F B W
  pause attempt s =
      if ltb attempt 3
      then record s { world = ch.sleep (times (wrap64 (pos attempt *ℤ pos 2)) second) s.world }
      else s

  abbrev pub after_attempt :
      (GoError → State F B W → Outcome (Unit {0}) × State F B W)
      → Result (Unit {0})
      → Act (State F B W) (Unit {0})
  after_attempt again (value _) s = (ok tt, s)
  after_attempt again (error e) s = again e s

  -- The loop, on the attempts that are left, the number of the next one and the last error.
  unfoldable pub attempts : ℕ → ℕ → ℕ → Executor F → Option GoError → Act (State F B W) (Unit {0})
  attempts zero attempt fuel exec last = throw (last_error last)
  attempts (suc left) attempt fuel exec last =
      try (do_stabilization fuel exec)
      >>= after_attempt (λ e s. attempts left (attempt + 1) fuel exec (some e) (pause attempt s))

  abbrev pub with_executor :
      Option (Executor F)
      → (Executor F → Act (State F B W) (Unit {0}))
      → Act (State F B W) (Unit {0})
  with_executor none k = panic
  with_executor (some e) k = k e

  unfoldable pub stabilize_if : ℕ → Decision F × State F B W → Outcome (Unit {0}) × State F B W
  stabilize_if fuel (d, s) =
      if not d.should
      then (Outcome.err (message "stabilization not needed"), s)
      else with_executor s.rebalancer.executor (λ exec. attempts 3 1 fuel exec none) s

  unfoldable pub execute_stabilization : ℕ → Act (State F B W) (Unit {0})
  execute_stabilization fuel s = stabilize_if fuel (should_stabilize ch s)

  unfoldable pub rebalance_if : ℕ → Decision F × State F B W → Outcome (Unit {0}) × State F B W
  rebalance_if fuel (d, s) =
      if not d.should
      then (Outcome.err (message "rebalance not needed"), s)
      else if s.rebalancer.cfg.stabilization.enabled
      then (execute_stabilization fuel >>= λ _. mark_rebalanced) s
      else mark_rebalanced s

  unfoldable pub execute_rebalance : ℕ → Act (State F B W) (Unit {0})
  execute_rebalance fuel s = rebalance_if fuel (should_rebalance ch s)
