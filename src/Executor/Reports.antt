-- ===== src/Executor/Reports.antt =====
-- What the trades of pkg/executor/service.go report: how a result agrees with the error that is
-- returned beside it.
use stablecoin_mmm.Base.{ℕ, ◌≡◌, ◌≢◌, refl, false, Option, none, some, ◌==◌, Bool-cases, inl, inr}
use stablecoin_mmm.Base.Int.{ℤ}
use stablecoin_mmm.Base.Act.{
  Act, Outcome, Result, value, error, GoError, and_then, caught, Ensures, Ensures-and_then,
  Ensures-caught, returns,
}
use stablecoin_mmm.Chain.{Address, Tx, Receipt, Chain}
use stablecoin_mmm.Executor.Core.{Executor, ExecutionResult, Returned, failed, checked, reported}
use stablecoin_mmm.Executor.Trades.{
  pool_created, create_new_pool, existing_pool, pool_or_new, create_pool, mint_position,
  add_liquidity, send_swap, execute_swap,
}

-- With an error the result is no success and carries an error. Without one it carries none, has the
-- hash of a transaction unless it names a pool, and says nothing of amounts or balances.
abbrev pub IsReport : ExecutionResult → Option GoError → Type 0
IsReport r none =
    (r.error ≡ none) × (r.amount0 ≡ none) × (r.balance_change0 ≡ none) × (r.balance_change1 ≡ none)
IsReport r (some e) = (r.success ≡ false) × (r.error ≢ none)

abbrev pub Reports : {W : Type 0} → Returned → W → Type 0
Reports ret w = IsReport ret.0 ret.1

module _ {W : Type 0} (ch : Chain W) where
  failed-Reports :
      (hash : Option ℕ) (shown e : GoError) (w : W) → Ensures Reports (failed ch hash shown e w)
  unfolding failed and_then
  failed-Reports hash shown e w = returns (refl, λ q. cc)

  reported-Reports :
      (tx : Tx) (r : Receipt) (id : Option ℤ) (pool : Option Address) (w : W)
      → Ensures Reports (reported ch tx r id pool w)
  unfolding reported and_then
  reported-Reports tx r id pool w = returns (refl, refl, refl, refl)

  -- A checked call ensures a report if the rest does.
  checked-Reports :
      {A : Type 0} (hash : Option ℕ) (report : GoError → GoError) (k : A → Act W Returned)
      (m : Outcome A × W)
      → ((a : A) (w : W) → Ensures Reports (k a w))
      → Ensures Reports (and_then (caught m) (checked ch hash report k))
  unfolding checked
  checked-Reports {A} hash report k m h = Ensures-caught m by_result
    where
      by_result : (r : Result A) (w : W) → Ensures Reports (checked ch hash report k r w)
      by_result (value a) w = h a w
      by_result (error e) w = failed-Reports hash (report e) e w

module _ {W F : Type 0} (ch : Chain W) (e : Executor F) where
  send_swap-Reports :
      (fuel : ℕ) (token_in token_out : Address) (amount_in out_min limit : ℤ) (w : W)
      → Ensures Reports (send_swap ch e fuel token_in token_out amount_in out_min limit w)
  unfolding send_swap
  send_swap-Reports fuel token_in token_out amount_in out_min limit w =
      checked-Reports ch _ _ _ _ λ auth w1. checked-Reports ch _ _ _ _ λ tx w2.
        checked-Reports ch _ _ _ _ λ receipt w3. reported-Reports ch tx receipt none none w3

  -- Whatever the chain answers, a swap that returns reports consistently: with an error the result is
  -- no success and carries an error; without one it carries none, and neither amounts nor changes of
  -- balance, even where the transaction failed.
  pub execute_swap-Reports :
      (fuel : ℕ) (token_in token_out : Address) (amount_in out_min limit : ℤ) (w : W)
      → Ensures Reports (execute_swap ch e fuel token_in token_out amount_in out_min limit w)
  unfolding execute_swap
  execute_swap-Reports fuel token_in token_out amount_in out_min limit w =
      Ensures-caught _ λ _ w'. send_swap-Reports fuel token_in token_out amount_in out_min limit w'

  pool_created-Reports :
      (token0 token1 : Address) (fee : ℕ) (tx : Tx) (receipt : Receipt) (w : W)
      → Ensures Reports (pool_created ch e token0 token1 fee tx receipt w)
  unfolding pool_created
  pool_created-Reports token0 token1 fee tx receipt w =
      Ensures-caught _ λ found w'. reported-Reports ch tx receipt none _ w'

  create_new_pool-Reports :
      (fuel : ℕ) (token0 token1 : Address) (fee : ℕ) (w : W)
      → Ensures Reports (create_new_pool ch e fuel token0 token1 fee w)
  unfolding create_new_pool
  create_new_pool-Reports fuel token0 token1 fee w = checked-Reports ch _ _ _ _ λ auth w1.
      checked-Reports ch _ _ _ _ λ tx w2.
        checked-Reports ch _ _ _ _
          λ receipt w3. pool_created-Reports token0 token1 fee tx receipt w3

  existing_pool-Reports : (a : Address) (w : W) → Ensures Reports (existing_pool ch e a w)
  unfolding existing_pool and_then
  existing_pool-Reports a w = returns (refl, refl, refl, refl)

  pool_or_new-Reports :
      (create : Act W Returned) (r : Result Address) (w : W)
      → ((w : W) → Ensures Reports (create w))
      → Ensures Reports (pool_or_new ch e create r w)
  unfolding pool_or_new
  pool_or_new-Reports create (value a) w h = elim (Bool-cases (a == 0)) [
    | inl fresh ↦ rw fresh (h w)
    | inr found ↦ rw found (existing_pool-Reports a w)
  ]
  pool_or_new-Reports create (error _) w h = h w

  -- The same holds of the creation of a pool.
  pub create_pool-Reports :
      (fuel : ℕ) (token0 token1 : Address) (fee : ℕ) (w : W)
      → Ensures Reports (create_pool ch e fuel token0 token1 fee w)
  unfolding create_pool
  create_pool-Reports fuel token0 token1 fee w =
      Ensures-caught _
        λ r w'. pool_or_new-Reports _ r w' (create_new_pool-Reports fuel token0 token1 fee)

  mint_position-Reports :
      (fuel : ℕ) (token0 token1 : Address) (fee : ℕ) (amount0 amount1 lower upper : ℤ) (w : W)
      → Ensures Reports (mint_position ch e fuel token0 token1 fee amount0 amount1 lower upper w)
  unfolding mint_position
  mint_position-Reports fuel token0 token1 fee amount0 amount1 lower upper w =
      checked-Reports ch _ _ _ _ λ auth w1. Ensures-and_then _ λ now w2.
        checked-Reports ch _ _ _ _
          λ tx w3. checked-Reports ch _ _ _ _ λ receipt w4. reported-Reports ch tx receipt _ none w4

  -- The same holds of an added liquidity.
  pub add_liquidity-Reports :
      (fuel : ℕ) (token0 token1 : Address) (fee : ℕ) (amount0 amount1 lower upper : ℤ) (w : W)
      → Ensures Reports (add_liquidity ch e fuel token0 token1 fee amount0 amount1 lower upper w)
  unfolding add_liquidity
  add_liquidity-Reports fuel token0 token1 fee amount0 amount1 lower upper w =
      checked-Reports ch _ _ _ _ λ _ w1.
        checked-Reports ch _ _ _ _
          λ _ w2. mint_position-Reports fuel token0 token1 fee amount0 amount1 lower upper w2
