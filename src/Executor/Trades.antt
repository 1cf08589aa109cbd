-- ===== src/Executor/Trades.antt =====
-- pkg/executor/service.go: creating a pool, adding liquidity, swapping and quoting.
use stablecoin_mmm.Base.{ℕ, true, Option, none, some, ◌==◌, if◌then◌else◌}
use stablecoin_mmm.Base.Int.{ℤ, pos, ◌+ℤ◌, ◌*ℤ◌}
use stablecoin_mmm.Base.Word.{wrap64}
use stablecoin_mmm.Base.Time.{unix}
use stablecoin_mmm.Base.Act.{Act, wrap, Result, value, error, ◌>>=◌, pure, try}
use stablecoin_mmm.Chain.{Address, Tx, Receipt, Chain, read_clock}
use stablecoin_mmm.Executor.Core.{
  Executor, Returned, blank, wait_for_receipt, checked, same_error, reported, token_id_of_logs,
  amount_out_of_logs, query_pool_address, approve_token,
}

module _ {W F : Type 0} (ch : Chain W) (e : Executor F) where
  -- The part of `CreatePool` behind the receipt; an address that is not found reads as zero.
  unfoldable pub pool_created : Address → Address → ℕ → Tx → Receipt → Act W Returned
  pool_created token0 token1 fee tx receipt = do
    found ← try (ch.factory_get_pool token0 token1 (pos fee))
    reported ch tx receipt none (elim found [ value a ↦ some a | error _ ↦ some 0 ])

  -- The part of `CreatePool` that sends the transaction.
  unfoldable pub create_new_pool : ℕ → Address → Address → ℕ → Act W Returned
  create_new_pool fuel token0 token1 fee =
      try (ch.new_transactor e.private_key e.chain_id)
      >>= checked ch none (same_error ch) (λ auth.
        try (ch.factory_create_pool auth token0 token1 (pos fee))
        >>= checked ch none (same_error ch) (λ tx.
          try (wait_for_receipt ch fuel tx)
          >>= checked ch (some tx.hash) (same_error ch) (pool_created token0 token1 fee tx)))

  unfoldable pub existing_pool : Address → Act W Returned
  existing_pool a = do
    now ← read_clock ch
    let r = blank true now
    pure (record r { pool_address = some a }, none)

  -- A query that fails counts as no pool.
  unfoldable pub pool_or_new : Act W Returned → Result Address → Act W Returned
  pool_or_new create (value a) = if a == 0 then create else existing_pool a
  pool_or_new create (error _) = create

  unfoldable pub create_pool : ℕ → Address → Address → ℕ → Act W Returned
  create_pool fuel token0 token1 fee =
      try (query_pool_address ch e token0 token1 fee)
      >>= pool_or_new (create_new_pool fuel token0 token1 fee)

  -- The part of `AddLiquidity` behind the approvals.
  unfoldable pub mint_position : ℕ → Address → Address → ℕ → ℤ → ℤ → ℤ → ℤ → Act W Returned
  mint_position fuel token0 token1 fee amount0 amount1 tick_lower tick_upper =
      try (ch.new_transactor e.private_key e.chain_id)
      >>= checked ch none (same_error ch) (λ auth. read_clock ch >>= λ now.
          try (
            ch.manager_mint auth (record {
              token0 = token0;
              token1 = token1;
              fee = pos fee;
              tick_lower = tick_lower;
              tick_upper = tick_upper;
              amount0_desired = amount0;
              amount1_desired = amount1;
              amount0_min = pos 0;
              amount1_min = pos 0;
              recipient = e.wallet_address;
              deadline = wrap64 (unix now +ℤ pos 300);
            }))
          >>= checked ch none (same_error ch) (λ tx.
            try (wait_for_receipt ch fuel tx)
            >>= checked ch (some tx.hash) (same_error ch)
                (λ receipt. reported ch tx receipt (token_id_of_logs receipt.logs) none)))

  -- The result's error is wrapped, the returned one is not.
  unfoldable pub add_liquidity : ℕ → Address → Address → ℕ → ℤ → ℤ → ℤ → ℤ → Act W Returned
  add_liquidity fuel token0 token1 fee amount0 amount1 tick_lower tick_upper =
      let manager = ch.hex_to_address e.cfg.uniswap.position_manager in
      try (approve_token ch e fuel token0 manager amount0)
      >>= checked ch none (wrap "approve token0 failed") (λ _.
        try (approve_token ch e fuel token1 manager amount1)
        >>= checked ch none (wrap "approve token1 failed")
            (λ _. mint_position fuel token0 token1 fee amount0 amount1 tick_lower tick_upper))

  -- The part of `ExecuteSwap` behind the approval.
  unfoldable pub send_swap : ℕ → Address → Address → ℤ → ℤ → ℤ → Act W Returned
  send_swap fuel token_in token_out amount_in amount_out_min sqrt_price_limit =
      try (ch.new_transactor e.private_key e.chain_id)
      >>= checked ch none (same_error ch) (λ auth.
        try (
          ch.router_exact_input_single auth (record {
            token_in = token_in;
            token_out = token_out;
            fee = pos e.cfg.uniswap.fee_tier;
            recipient = e.wallet_address;
            amount_in = amount_in;
            amount_out_minimum = amount_out_min;
            sqrt_price_limit = sqrt_price_limit;
          }))
        >>= checked ch none (same_error ch) (λ tx.
          try (wait_for_receipt ch fuel tx)
          >>= checked ch (some tx.hash) (same_error ch)
              (λ receipt. reported ch tx receipt none none)))

  -- A failed approval is only logged.
  unfoldable pub execute_swap : ℕ → Address → Address → ℤ → ℤ → ℤ → Act W Returned
  execute_swap fuel token_in token_out amount_in amount_out_min sqrt_price_limit =
      try (
        approve_token ch e fuel token_in (ch.hex_to_address e.cfg.uniswap.swap_router)
          (amount_in *ℤ pos 10))
      >>= λ _. send_swap fuel token_in token_out amount_in amount_out_min sqrt_price_limit

  unfoldable pub quote_swap : ℕ → Address → Address → ℤ → Act W (Option ℤ)
  quote_swap fuel token_in token_out amount_in = do
    tx ← ch.quoter_quote token_in token_out (pos e.cfg.uniswap.fee_tier) amount_in (pos 0)
    receipt ← wait_for_receipt ch fuel tx
    pure (amount_out_of_logs receipt.logs)
