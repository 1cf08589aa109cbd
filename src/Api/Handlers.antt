-- ===== src/Api/Handlers.antt =====
-- The handlers of pkg/api/service.go that read the server, control the rebalancer or create a pool.
use stablecoin_mmm.Base.{ℕ, ◌+◌, not, List, Option, none, some, ◌==◌, ltb, length, if◌then◌else◌}
use stablecoin_mmm.Base.Int.{ℤ, pos}
use stablecoin_mmm.Base.Time.{unix}
use stablecoin_mmm.Base.Float.{Float, BigFloat}
use stablecoin_mmm.Base.Act.{Act, ok, GoError, Result, value, error, ◌>>=◌, pure, panic, try}
use stablecoin_mmm.Chain.{Chain, read_clock}
use stablecoin_mmm.Erc20.{get_token_balance}
use stablecoin_mmm.Risk.{is_circuit_breaker_active, get_daily_loss, get_failure_rate}
use stablecoin_mmm.Position.{Order, get_total_ratio}
use stablecoin_mmm.Monitor.{update_status, check_alerts}
use stablecoin_mmm.Executor.Core.{Executor, ExecutionResult, Returned}
use stablecoin_mmm.Executor.Trades.{create_pool}
use stablecoin_mmm.Executor.Tiers.{TierPosition, get_tier_positions}
use stablecoin_mmm.Rebalancer.Core.{Rebalancer, start, stop}
use stablecoin_mmm.Api.Server.{
  Server, CreatePoolRequest, Response, answer, on_chain, health, status, metrics, positions, risk,
  info, alerts, failure, refused, pool_exists, tx_failed, pool_created, balances,
}

abbrev pub no_executor : {F : Type 0} → Response F
no_executor = answer 503 (refused "executor not initialized")

unfoldable pub tiers_answer : {F : Type 0} → Result (List TierPosition) → Response F
tiers_answer (value tiers) = answer 200 (positions tiers (length tiers))
tiers_answer (error e) = answer 500 (failure e)

abbrev pub balance_or_zero : Result ℤ → ℤ
balance_or_zero (value z) = z
balance_or_zero (error _) = pos 0

module _ {F B W : Type 0} where
  -- `if s.executor == nil { … 503 … }` in front of a handler.
  abbrev pub with_executor :
      Option (Executor F)
      → (Executor F → Act (Server F B W) (Response F))
      → Act (Server F B W) (Response F)
  with_executor none k = pure no_executor
  with_executor (some e) k = k e

  -- `ShouldBindJSON`, whose failure is answered by 400.
  abbrev pub bound :
      {A : Type 0}
      → Result A
      → (A → Act (Server F B W) (Response F))
      → Act (Server F B W) (Response F)
  bound (value a) k = k a
  bound (error e) k = pure (answer 400 (failure e))

  -- `result.Error.Error()`: a nil error panics.
  abbrev pub error_text : Option GoError → (GoError → Response F) → Act (Server F B W) (Response F)
  error_text none k = panic
  error_text (some e) k = pure (k e)

  abbrev pub returned_answer :
      (ExecutionResult → Act (Server F B W) (Response F))
      → Returned
      → Act (Server F B W) (Response F)
  returned_answer k (r, some e) = pure (answer 500 (failure e))
  returned_answer k (r, none) = k r

  abbrev pub fee_or_default : ℕ → Server F B W → ℕ
  fee_or_default fee s = if fee == 0 then s.cfg.uniswap.fee_tier else fee

  unfoldable pub update_rebalancer : (Rebalancer F B → Rebalancer F B) → Server F B W → Server F B W
  update_rebalancer g s =
      let st = s.state in record s { state = record st { rebalancer = g st.rebalancer } }

module _ {F B W : Type 0} ⦃f : Float F⦄ ⦃b : BigFloat F B⦄ (ch : Chain W) where
  unfoldable pub handle_health : Act (Server F B W) (Response F)
  handle_health = on_chain (read_clock ch) >>= λ now. pure (answer 200 (health (unix now)))

  unfoldable pub handle_status : Order F → Act (Server F B W) (Response F)
  handle_status order s = (
    ok (
        answer 200 (
          status s.state.rebalancer.is_running (is_circuit_breaker_active s.state.risk)
            (get_total_ratio order s.positions) s.cfg.uniswap.pool_address
            s.cfg.uniswap.token0_address s.cfg.uniswap.token1_address s.cfg.uniswap.fee_tier)),
    s,
  )

  unfoldable pub handle_metrics : Act (Server F B W) (Response F)
  handle_metrics s = (ok (answer 200 (metrics s.metrics)), s)

  unfoldable pub handle_positions : Act (Server F B W) (Response F)
  handle_positions s =
      with_executor s.executor
        (λ e. try (on_chain (get_tier_positions F B ch e)) >>= λ r. pure (tiers_answer r)) s

  unfoldable pub handle_risk : Act (Server F B W) (Response F)
  handle_risk s = (
    ok (
        answer 200 (
          risk (is_circuit_breaker_active s.state.risk) (get_daily_loss s.state.risk)
            (get_failure_rate s.state.risk))),
    s,
  )

  -- The rebalance runs in the background: `pending` counts it.
  unfoldable pub handle_rebalance : Act (Server F B W) (Response F)
  handle_rebalance s =
      if not s.state.rebalancer.is_running
      then (ok (answer 400 (refused "rebalancer is not running")), s)
      else (ok (answer 200 (info "rebalance triggered")), record s { pending = s.pending + 1 })

  unfoldable pub handle_start : Act (Server F B W) (Response F)
  handle_start s =
      let s' = update_rebalancer start s in
      (
        ok (answer 200 (info "rebalancer started")),
        record s' { metrics = update_status "running" s.metrics },
      )

  unfoldable pub handle_stop : Act (Server F B W) (Response F)
  handle_stop s =
      let s' = update_rebalancer stop s in
      (
        ok (answer 200 (info "rebalancer stopped")),
        record s' { metrics = update_status "stopped" s.metrics },
      )

  unfoldable pub handle_alerts : Act (Server F B W) (Response F)
  handle_alerts s =
      let st = s.state in
      let (found, w) = check_alerts ch (some st.risk) s.metrics st.world in
      (ok (answer 200 (alerts found (length found))), record s { state = record st { world = w } })

  -- A result without an error; it tells a reverted factory by the gas.
  unfoldable pub pool_answer : ExecutionResult → Act (Server F B W) (Response F)
  pool_answer r =
      if not r.success
      then if ltb r.gas_used 100_000
        then pure (answer 200 (pool_exists r.tx_hash r.gas_used))
        else error_text r.error (λ e. answer 200 (tx_failed r.tx_hash r.gas_used e r.error_code))
      else pure (answer 200 (pool_created r.tx_hash r.pool_address r.gas_used))

  unfoldable pub handle_create_pool : ℕ → Result CreatePoolRequest → Act (Server F B W) (Response F)
  handle_create_pool fuel request s =
      with_executor s.executor
        (λ e. bound request λ req.
          on_chain (
            create_pool ch e fuel (ch.hex_to_address req.token0) (ch.hex_to_address req.token1)
              (fee_or_default req.fee s))
          >>= returned_answer pool_answer)
        s

  unfoldable pub handle_balance : Act (Server F B W) (Response F)
  handle_balance s =
      with_executor s.executor
        (λ e.
          let token0 = ch.hex_to_address s.cfg.uniswap.token0_address in
          let token1 = ch.hex_to_address s.cfg.uniswap.token1_address in
          try (on_chain (get_token_balance ch token0 e.wallet_address)) >>= λ b0.
          try (on_chain (get_token_balance ch token1 e.wallet_address)) >>= λ b1. pure (
            answer 200
              (balances (balance_or_zero b0) (balance_or_zero b1) token0 token1 e.wallet_address)))
        s
