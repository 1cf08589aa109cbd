-- ===== src/Executor/Completes.antt =====
-- The trades of pkg/executor/service.go on a chain whose library calls come back.
use stablecoin_mmm.Base.{ℕ, ◌==◌, Bool-cases, inl, inr, Option, none, some}
use stablecoin_mmm.Base.Int.{ℤ}
use stablecoin_mmm.Base.Act.{Act, Outcome, Result, value, error, GoError, and_then, caught}
use stablecoin_mmm.Base.Settles.{
  Settles, Returns, with_value, Anything, Returns-caught, Returns-of_Ensures,
}
use stablecoin_mmm.Chain.{Address, Tx, Receipt, Transactor, Chain}
use stablecoin_mmm.Executor.Core.{
  Executor, Returned, failed, checked, same_error, reported, wait_for_receipt, query_pool_address,
}
use stablecoin_mmm.Executor.Trades.{
  pool_created, create_new_pool, existing_pool, pool_or_new, create_pool, mint_position,
  add_liquidity, send_swap, execute_swap,
}
use stablecoin_mmm.Executor.Reports.{
  Reports, execute_swap-Reports, create_pool-Reports, add_liquidity-Reports,
}
use stablecoin_mmm.Executor.Live.{IsLive, approve_token-Settles, wait_for_receipt-Settles}

module _ {W F : Type 0} (ch : Chain W) (fuel : ℕ) (live : IsLive ch fuel) (e : Executor F) where
  failed-Returns :
      (hash : Option ℕ) (shown e : GoError) (w : W) → Returns Anything (failed ch hash shown e w)
  unfolding failed and_then
  failed-Returns hash shown e w = with_value tt

  reported-Returns :
      (tx : Tx) (r : Receipt) (id : Option ℤ) (pool : Option Address) (w : W)
      → Returns Anything (reported ch tx r id pool w)
  unfolding reported and_then
  reported-Returns tx r id pool w = with_value tt

  checked-Returns :
      {A : Type 0} (hash : Option ℕ) (report : GoError → GoError) (k : A → Act W Returned)
      {m : Outcome A × W}
      → Settles m
      → ((a : A) (w : W) → Returns Anything (k a w))
      → Returns Anything (and_then (caught m) (checked ch hash report k))
  unfolding checked
  checked-Returns {A} hash report k settled h = Returns-caught settled by_result
    where
      by_result : (r : Result A) (w : W) → Returns Anything (checked ch hash report k r w)
      by_result (value a) w = h a w
      by_result (error g) w = failed-Returns hash (report g) g w

  transactor_then :
      (k : Transactor → Act W Returned) (w : W)
      → ((auth : Transactor) (w : W) → Returns Anything (k auth w))
      → Returns Anything (
          and_then
            (caught (ch.new_transactor e.private_key e.chain_id w))
            (checked ch none (same_error ch) k))
  transactor_then k w h = checked-Returns none _ k (live.new_transactor _ _ w) h

  receipt_then :
      (tx : Tx) (k : Receipt → Act W Returned) (w : W)
      → ((r : Receipt) (w : W) → Returns Anything (k r w))
      → Returns Anything (
          and_then
            (caught (wait_for_receipt ch fuel tx w))
            (checked ch (some tx.hash) (same_error ch) k))
  receipt_then tx k w h =
      checked-Returns (some tx.hash) _ k (wait_for_receipt-Settles ch fuel live tx w) h

  send_swap-Returns :
      (token_in token_out : Address) (amount_in out_min limit : ℤ) (w : W)
      → Returns Anything (send_swap ch e fuel token_in token_out amount_in out_min limit w)
  unfolding send_swap
  send_swap-Returns token_in token_out amount_in out_min limit w = transactor_then _ w λ auth w1.
      checked-Returns _ _ _ (live.swap auth _ w1)
        λ tx w2. receipt_then tx _ w2 λ receipt w3. reported-Returns tx receipt none none w3

  -- If the library's calls return a value or an error, and every transaction is mined within the fuel,
  -- a swap always returns: it neither panics nor polls for ever. With an error the result is no
  -- success and carries an error; without one it carries none, and neither amounts nor changes of
  -- balance, even where the transaction failed.
  pub execute_swap-Returns :
      (token_in token_out : Address) (amount_in out_min limit : ℤ) (w : W)
      → Returns Reports (execute_swap ch e fuel token_in token_out amount_in out_min limit w)
  unfolding execute_swap
  execute_swap-Returns token_in token_out amount_in out_min limit w =
      Returns-of_Ensures
        (Returns-caught (approve_token-Settles ch fuel live e token_in _ _ w)
          λ _ w'. send_swap-Returns token_in token_out amount_in out_min limit w')
        (execute_swap-Reports ch e fuel token_in token_out amount_in out_min limit w)

  create_new_pool-Returns :
      (token0 token1 : Address) (fee : ℕ) (w : W)
      → Returns Anything (create_new_pool ch e fuel token0 token1 fee w)
  unfolding create_new_pool pool_created
  create_new_pool-Returns token0 token1 fee w = transactor_then _ w λ auth w1.
      checked-Returns _ _ _ (live.make_pool auth token0 token1 _ w1) λ tx w2.
        receipt_then tx _ w2 λ receipt w3.
          Returns-caught (live.get_pool token0 token1 _ w3)
            λ found w4. reported-Returns tx receipt none _ w4

  pool_or_new-Returns :
      (create : Act W Returned) (r : Result Address) (w : W)
      → ((w : W) → Returns Anything (create w))
      → Returns Anything (pool_or_new ch e create r w)
  unfolding pool_or_new existing_pool and_then
  pool_or_new-Returns create (value a) w h = elim (Bool-cases (a == 0)) [
    | inl fresh ↦ rw fresh (h w)
    | inr found ↦ rw found (with_value tt)
  ]
  pool_or_new-Returns create (error _) w h = h w

  -- The same holds of the creation of a pool, whether or not the pool is there already.
  pub create_pool-Returns :
      (token0 token1 : Address) (fee : ℕ) (w : W)
      → Returns Reports (create_pool ch e fuel token0 token1 fee w)
  unfolding create_pool query_pool_address
  create_pool-Returns token0 token1 fee w =
      Returns-of_Ensures
        (Returns-caught (live.get_pool token0 token1 _ w)
          λ r w'. pool_or_new-Returns _ r w' (create_new_pool-Returns token0 token1 fee))
        (create_pool-Reports ch e fuel token0 token1 fee w)

  mint_position-Returns :
      (token0 token1 : Address) (fee : ℕ) (amount0 amount1 lower upper : ℤ) (w : W)
      → Returns Anything (mint_position ch e fuel token0 token1 fee amount0 amount1 lower upper w)
  unfolding mint_position and_then
  mint_position-Returns token0 token1 fee amount0 amount1 lower upper w =
      transactor_then _ w λ auth w1.
        checked-Returns _ _ _ (live.mint auth _ _)
          λ tx w2. receipt_then tx _ w2 λ receipt w3. reported-Returns tx receipt _ none w3

  -- If the library's calls return a value or an error, and every transaction is mined within the fuel,
  -- an added liquidity, with its two approvals, always returns. With an error the result is no success
  -- and carries an error; without one it carries none, and neither amounts nor changes of balance.
  pub add_liquidity-Returns :
      (token0 token1 : Address) (fee : ℕ) (amount0 amount1 lower upper : ℤ) (w : W)
      → Returns Reports (add_liquidity ch e fuel token0 token1 fee amount0 amount1 lower upper w)
  unfolding add_liquidity
  add_liquidity-Returns token0 token1 fee amount0 amount1 lower upper w =
      Returns-of_Ensures
        (checked-Returns none _ _ (approve_token-Settles ch fuel live e token0 _ _ w) λ _ w1.
          checked-Returns none _ _ (approve_token-Settles ch fuel live e token1 _ _ w1)
            λ _ w2. mint_position-Returns token0 token1 fee amount0 amount1 lower upper w2)
        (add_liquidity-Reports ch e fuel token0 token1 fee amount0 amount1 lower upper w)
