-- ===== src/Executor/Payouts.antt =====
-- What the trades of pkg/executor/service.go do with the bot's funds, on a chain that keeps it.
use stablecoin_mmm.Base.{ℕ, inl, inr, Option, none, some, ◌==◌}
use stablecoin_mmm.Base.Int.{ℤ, pos}
use stablecoin_mmm.Base.Act.{Act, Result, value, error, or_panic, and_then}
use stablecoin_mmm.Base.Float.{Float, BigFloat}
use stablecoin_mmm.Base.Settles.{ends_and_then, ends_caught, ends_either}
use stablecoin_mmm.Chain.{Address, Chain}
use stablecoin_mmm.Chain.Watched.{Watched, watching, Owner, one_done}
use stablecoin_mmm.Executor.Core.{Executor, Returned, reported, query_pool_address}
use stablecoin_mmm.Executor.Tiers.{view_pool, get_tier_positions}
use stablecoin_mmm.Executor.Trades.{
  send_swap, execute_swap, mint_position, add_liquidity, create_pool, create_new_pool, pool_created,
  existing_pool, pool_or_new,
}
use stablecoin_mmm.Executor.Owned.{Owned, IsOf, checked-Owned, approve_token-Owned, mined-Owned}

module _ {W F : Type 0} (ch : Chain W) (o : Owner) (e : Executor F) (own : IsOf ch o e)
    (fuel : ℕ) where
  send_swap-Owned :
      (token_in token_out : Address) (amount_in out_min limit : ℤ) (s : Watched W)
      → Owned o s
      → Owned o (send_swap (watching ch) e fuel token_in token_out amount_in out_min limit s).1
  unfolding send_swap reported and_then
  send_swap-Owned token_in token_out amount_in out_min limit s h =
      checked-Owned ch o _ _ _ ((watching ch).new_transactor e.private_key e.chain_id s) h
        λ auth s1 h1. mined-Owned ch o e own fuel _ _ (one_done own.wallet h1) λ tx r t p. p

  -- A swap approves the router, and pays out to the wallet.
  pub execute_swap-Owned :
      (token_in token_out : Address) (amount_in out_min limit : ℤ) (s : Watched W)
      → Owned o s
      → Owned o (execute_swap (watching ch) e fuel token_in token_out amount_in out_min limit s).1
  unfolding execute_swap
  execute_swap-Owned token_in token_out amount_in out_min limit s h =
      ends_caught (Owned o) _ _
        (approve_token-Owned ch o e own fuel token_in _ _ s (inl own.router) h)
        λ _. send_swap-Owned token_in token_out amount_in out_min limit

  mint_position-Owned :
      (token0 token1 : Address) (fee : ℕ) (amount0 amount1 lower upper : ℤ) (s : Watched W)
      → Owned o s
      → Owned o
          (mint_position (watching ch) e fuel token0 token1 fee amount0 amount1 lower upper s).1
  unfolding mint_position reported and_then
  mint_position-Owned token0 token1 fee amount0 amount1 lower upper s h =
      checked-Owned ch o _ _ _ ((watching ch).new_transactor e.private_key e.chain_id s) h
        λ auth s1 h1. mined-Owned ch o e own fuel _ _ (one_done own.wallet h1) λ tx r t p. p

  -- Added liquidity approves the position manager, and belongs to the wallet.
  pub add_liquidity-Owned :
      (token0 token1 : Address) (fee : ℕ) (amount0 amount1 lower upper : ℤ) (s : Watched W)
      → Owned o s
      → Owned o
          (add_liquidity (watching ch) e fuel token0 token1 fee amount0 amount1 lower upper s).1
  unfolding add_liquidity
  add_liquidity-Owned token0 token1 fee amount0 amount1 lower upper s h =
      checked-Owned ch o _ _ _ _
        (approve_token-Owned ch o e own fuel token0 _ amount0 s (inr own.manager) h)
        λ _ s1 h1.
          checked-Owned ch o _ _ _ _
            (approve_token-Owned ch o e own fuel token1 _ amount1 s1 (inr own.manager) h1)
            λ _ s2 h2. mint_position-Owned token0 token1 fee amount0 amount1 lower upper s2 h2

  create_new_pool-Owned :
      (token0 token1 : Address) (fee : ℕ) (s : Watched W)
      → Owned o s
      → Owned o (create_new_pool (watching ch) e fuel token0 token1 fee s).1
  unfolding create_new_pool pool_created reported and_then
  create_new_pool-Owned token0 token1 fee s h =
      checked-Owned ch o _ _ _ ((watching ch).new_transactor e.private_key e.chain_id s) h
        λ auth s1 h1.
          mined-Owned ch o e own fuel _ _ h1 λ tx r t p. ends_caught (Owned o) _ _ p λ _ u q. q

  pool_or_new-Owned :
      (create : Act (Watched W) Returned) (r : Result Address) (s : Watched W)
      → Owned o s
      → Owned o (create s).1
      → Owned o (pool_or_new (watching ch) e create r s).1
  unfolding pool_or_new existing_pool
  pool_or_new-Owned create (value a) s h made =
      ends_either (Owned o) (a == 0) _ _ s made (ends_and_then (Owned o) _ _ h λ _ t p. p)
  pool_or_new-Owned create (error x) s h made = made

  pub create_pool-Owned :
      (token0 token1 : Address) (fee : ℕ) (s : Watched W)
      → Owned o s
      → Owned o (create_pool (watching ch) e fuel token0 token1 fee s).1
  unfolding create_pool query_pool_address
  create_pool-Owned token0 token1 fee s h =
      ends_caught (Owned o) _ ((watching ch).factory_get_pool token0 token1 (pos fee) s) h
        λ r t p. pool_or_new-Owned _ r t p (create_new_pool-Owned token0 token1 fee t p)

  or_panic-Owned :
      {A : Type 0} (x : Option A) (s : Watched W) → Owned o s → Owned o (or_panic x s).1
  or_panic-Owned none s h = h
  or_panic-Owned (some a) s h = h

  module _ (B : Type 0) ⦃f : Float F⦄ ⦃b : BigFloat F B⦄ where
    pub get_tier_positions-Owned :
        (s : Watched W) → Owned o s → Owned o (get_tier_positions F B (watching ch) e s).1
    unfolding get_tier_positions view_pool
    get_tier_positions-Owned s h =
        ends_and_then (Owned o) _ _
          (ends_caught (Owned o) _ _ h λ _ s1 h1.
            ends_caught (Owned o) _ _ h1 λ _ s2 h2. ends_caught (Owned o) _ _ h2 λ _ t p. p)
          λ v s3 h3. ends_and_then (Owned o) _ _ (or_panic-Owned _ s3 h3) λ _ s4 h4.
            ends_and_then (Owned o) _ _ (or_panic-Owned _ s4 h4)
              λ _ s5 h5. ends_and_then (Owned o) _ _ (or_panic-Owned _ s5 h5) λ _ t p. p
