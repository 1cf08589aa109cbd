-- ===== src/Api/Funds.antt =====
-- Every request of pkg/api/service.go, on a chain that keeps what is done with the bot's funds.
use stablecoin_mmm.Base.{ℕ, Bool-cases, inl, inr}
use stablecoin_mmm.Base.Int.{pos}
use stablecoin_mmm.Base.Decimal.{set_string}
use stablecoin_mmm.Base.Float.{Float, BigFloat}
use stablecoin_mmm.Base.Act.{◌>>=◌}
use stablecoin_mmm.Base.Settles.{ends_and_then, ends_caught}
use stablecoin_mmm.Base.{some}
use stablecoin_mmm.Executor.Owned.{Owned}
use stablecoin_mmm.Monitor.Alerts.{check_alerts-keeps}
use stablecoin_mmm.Chain.{Chain}
use stablecoin_mmm.Chain.Watched.{Watched, watching, Owner}
use stablecoin_mmm.Executor.Trades.{execute_swap}
use stablecoin_mmm.Executor.Owned.{MaybeOf, get_token_balance-Owned}
use stablecoin_mmm.Executor.Payouts.{
  execute_swap-Owned, create_pool-Owned, get_tier_positions-Owned,
}
use stablecoin_mmm.Api.Server.{Server, on_chain}
use stablecoin_mmm.Api.Handlers.{
  returned_answer, pool_answer, handle_health, handle_status, handle_metrics, handle_positions,
  handle_risk, handle_rebalance, handle_start, handle_stop, handle_alerts, handle_balance,
  handle_create_pool, update_rebalancer,
}
use stablecoin_mmm.Api.Liquidity.{handle_add_liquidity}
use stablecoin_mmm.Api.SwapHandler.{swap_answer, out_min_of, handle_swap}
use stablecoin_mmm.Api.Routes.{
  Request, to_health, to_metrics, to_positions, to_risk, to_rebalance, to_start, to_stop, to_alerts,
  to_balance, to_status, to_create_pool, to_add_liquidity, to_swap, serve,
}
use stablecoin_mmm.Api.Owned.{
  Funds, on_chain-Funds, returned_answer-Funds, bound-Funds, with_executor-Funds, pool_answer-Funds,
  swap_answer-Funds, amount-Funds, out_min-Funds, parsed-Funds, add_amounts-Funds,
}

module _ {F B W : Type 0} ⦃f : Float F⦄ ⦃b : BigFloat F B⦄ (ch : Chain W) (o : Owner)
    (fuel : ℕ) where
  -- However a request is answered, what it does with the funds is lawful if the executor's contracts
  -- and wallet are the owner's.
  pub serve-Funds :
      (r : Request F) (s : Server F B (Watched W))
      → MaybeOf ch o s.executor
      → Funds o s
      → Funds o (serve (watching ch) fuel r s).1
  unfolding serve handle_health handle_status handle_metrics handle_positions handle_risk
      handle_rebalance handle_start handle_stop handle_alerts handle_balance handle_create_pool
      handle_add_liquidity handle_swap update_rebalancer
  serve-Funds to_health s own p = ends_and_then (Funds o) _ _ (on_chain-Funds o _ s p) λ _ t q. q
  serve-Funds to_metrics s own p = p
  serve-Funds to_risk s own p = p
  serve-Funds (to_status order) s own p = p
  serve-Funds to_rebalance s own p = elim (Bool-cases s.state.rebalancer.is_running) [
    | inl on ↦ rw on p
    | inr off ↦ rw off p
  ]
  serve-Funds to_start s own p = p
  serve-Funds to_stop s own p = p
  serve-Funds to_alerts s own p =
      check_alerts-keeps (watching ch) (Owned o) (λ w q. q) (some s.state.risk) s.metrics
        s.state.world p
  serve-Funds to_positions s own p = with_executor-Funds o ch s.executor _ s own p λ e mine.
      ends_caught (Funds o) _ _
        (on_chain-Funds o _ s (get_tier_positions-Owned ch o e mine fuel B s.state.world p))
        λ _ t q. q
  serve-Funds to_balance s own p = with_executor-Funds o ch s.executor _ s own p λ e mine.
      ends_caught (Funds o) _ _
        (on_chain-Funds o _ s (get_token_balance-Owned ch o _ _ s.state.world p))
        λ _ t q.
          ends_caught (Funds o) _ _
            (on_chain-Funds o _ t (get_token_balance-Owned ch o _ _ t.state.world q)) λ _ u r. r
  serve-Funds (to_create_pool r) s own p = with_executor-Funds o ch s.executor _ s own p λ e mine.
      bound-Funds o r _ s p λ req.
        ends_and_then (Funds o) _ _
          (on_chain-Funds o _ s (create_pool-Owned ch o e mine fuel _ _ _ s.state.world p))
          λ ret t q.
            returned_answer-Funds o (pool_answer (watching ch)) ret t q
              λ x. pool_answer-Funds o ch x t q
  serve-Funds (to_add_liquidity r) s own p = with_executor-Funds o ch s.executor _ s own p λ e mine.
      bound-Funds o r _ s p λ req. parsed-Funds o ch _ _ _ s p λ total0.
        parsed-Funds o ch _ _ _ s p
          λ total1. add_amounts-Funds o ch e mine fuel _ _ _ total0 total1 s p
  serve-Funds (to_swap r) s own p = with_executor-Funds o ch s.executor _ s own p λ e mine.
      bound-Funds o r _ s p λ req.
        let token_in = ch.hex_to_address req.token_in in
        let token_out = ch.hex_to_address req.token_out in
        amount-Funds o ch (set_string req.amount_in) _ s p λ n.
          out_min-Funds o ch (out_min_of (watching ch) s req.amount_out_min n)
            (λ m.
              on_chain (execute_swap (watching ch) e fuel token_in token_out n m (pos 0))
              >>= returned_answer (swap_answer (watching ch) n))
            s p
            λ m t q.
              ends_and_then (Funds o) _ _
                (on_chain-Funds o _ t (
                  execute_swap-Owned ch o e mine fuel token_in token_out n m (pos 0) t.state.world
                    q))
                λ ret u v.
                  returned_answer-Funds o (swap_answer (watching ch) n) ret u v
                    λ x. swap_answer-Funds o ch n x u v
