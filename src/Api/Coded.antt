-- ===== src/Api/Coded.antt =====
-- The status codes that the handlers of pkg/api/service.go answer with.
use stablecoin_mmm.Base.{
  ℕ, ◌≡◌, refl, ◌&&◌, inl, inr, Bool-cases, Bool, true, false, not, List, [], ◌∷◌, Option, none,
  some, if◌then◌else◌, String, ltb,
}
use stablecoin_mmm.Base.Int.{ℤ, pos, ltb_ℤ}
use stablecoin_mmm.Base.Decimal.{set_string}
use stablecoin_mmm.Base.Float.{Float, BigFloat}
use stablecoin_mmm.Base.Act.{
  Act, GoError, Result, value, error, pure, Ensures, returns, panics, Ensures-and_then,
  Ensures-caught, ◌>>=◌,
}
use stablecoin_mmm.Chain.{Address, Chain}
use stablecoin_mmm.Executor.Core.{Executor, ExecutionResult, Returned}
use stablecoin_mmm.Executor.Tiers.{TierPosition}
use stablecoin_mmm.Rebalancer.Core.{has_executor}
use stablecoin_mmm.Executor.Trades.{execute_swap}
use stablecoin_mmm.Api.Server.{Server, Response, on_chain, LayerResult, answer, refused}
use stablecoin_mmm.Api.Handlers.{
  returned_answer, pool_answer, bound, error_text, tiers_answer, with_executor, handle_health,
  handle_status, handle_metrics, handle_positions, handle_risk, handle_rebalance, handle_start,
  handle_stop, handle_alerts, handle_balance, handle_create_pool,
}
use stablecoin_mmm.Api.Liquidity.{
  Tier, add_tier, add_tiers, add_amounts, tier_done, parsed, handle_add_liquidity,
}
use stablecoin_mmm.Api.SwapHandler.{
  swap_answer, out_min_of, out_min_or_400, amount_or_400, handle_swap,
}
use stablecoin_mmm.Api.Routes.{
  Request, to_health, to_metrics, to_positions, to_risk, to_rebalance, to_start, to_stop, to_alerts,
  to_balance, to_status, to_create_pool, to_add_liquidity, to_swap, serve,
}
use stablecoin_mmm.Api.Codes.{needs_executor, codes, codes_with, is_one_of}

-- The codes behind a body and a transaction.
abbrev all : List ℕ
all = 200 ∷ 400 ∷ 500 ∷ []

tiers_answer-one_of :
    (F : Type 0) (r : Result (List TierPosition))
    → is_one_of (tiers_answer {F = F} r).code (200 ∷ 500 ∷ []) ≡ true
unfolding tiers_answer
tiers_answer-one_of F (value tiers) = refl
tiers_answer-one_of F (error e) = refl

module _ {F B W : Type 0} where
  -- The answer's code is one of those.
  abbrev Coded : List ℕ → Response F → Server F B W → Type 0
  Coded l a s = is_one_of a.code l ≡ true

  error_text-Coded :
      (o : Option GoError) (k : GoError → Response F) (s : Server F B W)
      → ((e : GoError) → is_one_of (k e).code all ≡ true)
      → Ensures (Coded all) (error_text o k s)
  error_text-Coded none k s h = panics
  error_text-Coded (some e) k s h = returns (h e)

  returned_answer-Coded :
      (k : ExecutionResult → Act (Server F B W) (Response F)) (ret : Returned) (s : Server F B W)
      → ((r : ExecutionResult) → Ensures (Coded all) (k r s))
      → Ensures (Coded all) (returned_answer k ret s)
  returned_answer-Coded k (r, some e) s h = returns refl
  returned_answer-Coded k (r, none) s h = h r

  bound-Coded :
      {A : Type 0} (r : Result A) (k : A → Act (Server F B W) (Response F)) (s : Server F B W)
      → ((a : A) → Ensures (Coded all) (k a s))
      → Ensures (Coded all) (bound r k s)
  bound-Coded (value a) k s h = h a
  bound-Coded (error e) k s h = returns refl

  either :
      (l : List ℕ) (c : Bool) (m n : Act (Server F B W) (Response F)) (s : Server F B W)
      → Ensures (Coded l) (m s)
      → Ensures (Coded l) (n s)
      → Ensures (Coded l) ((if c then m else n) s)
  either l true m n s p q = p
  either l false m n s p q = q

  -- Without an executor the answer is 503.
  with_executor-Coded :
      (r : Request F) (o : Option (Executor F)) (k : Executor F → Act (Server F B W) (Response F))
      (s : Server F B W)
      → needs_executor r ≡ true
      → ((e : Executor F) → Ensures (Coded (codes r)) (k e s))
      → Ensures (Coded (codes_with (has_executor o) r)) (with_executor o k s)
  with_executor-Coded r none k s h go = rw h (returns refl)
  with_executor-Coded r (some e) k s h go = rw h (go e)

module _ {F B W : Type 0} ⦃f : Float F⦄ ⦃b : BigFloat F B⦄ (ch : Chain W) where
  pool_answer-Coded :
      (r : ExecutionResult) (s : Server F B W) → Ensures (Coded all) (pool_answer ch r s)
  unfolding pool_answer
  pool_answer-Coded r s =
      either all (not r.success) _ _ s
        (either all (ltb r.gas_used 100_000) _ _ s (returns refl)
          (error_text-Coded r.error _ s λ e. refl))
        (returns refl)

  swap_answer-Coded :
      (amount_in : ℤ) (r : ExecutionResult) (s : Server F B W)
      → Ensures (Coded all) (swap_answer ch amount_in r s)
  unfolding swap_answer
  swap_answer-Coded amount_in r s =
      either all (not r.success) _ _ s (error_text-Coded r.error _ s λ e. refl) (returns refl)

  amount-Coded :
      (o : Option ℤ) (k : ℤ → Act (Server F B W) (Response F)) (s : Server F B W)
      → ((n : ℤ) → Ensures (Coded all) (k n s))
      → Ensures (Coded all) (amount_or_400 ch o k s)
  amount-Coded none k s h = returns refl
  amount-Coded (some n) k s h = h n

  out_min-Coded :
      (m : Result (Option ℤ)) (k : ℤ → Act (Server F B W) (Response F)) (s : Server F B W)
      → ((n : ℤ) (t : Server F B W) → Ensures (Coded all) (k n t))
      → Ensures (Coded all) (out_min_or_400 ch m k s)
  out_min-Coded (error e) k s h = returns refl
  out_min-Coded (value o) k s h = Ensures-and_then _ h

  parsed-Coded :
      (text complaint : String) (k : ℤ → Act (Server F B W) (Response F)) (s : Server F B W)
      → ((n : ℤ) → Ensures (Coded all) (k n s))
      → Ensures (Coded all) (parsed ch text complaint k s)
  parsed-Coded text complaint k s h =
      elim (set_string text)
        as (λ o. Ensures (Coded all) (
          (elim o as (λ x. Act (Server F B W) (Response F)) [
            | none ↦ pure (answer 400 (refused complaint))
            | some n ↦ k n
          ])
            s)) [ none ↦ returns refl | some n ↦ h n ]

  module _ (e : Executor F) (fuel : ℕ) (token0 token1 : Address) (fee : ℕ) where
    tier_done-Coded :
        (x : Tier) (results : List LayerResult)
        (k : List LayerResult → Act (Server F B W) (Response F)) (ret : Returned) (s : Server F B W)
        → ((l : List LayerResult) → Ensures (Coded all) (k l s))
        → Ensures (Coded all) (tier_done ch e x results k ret s)
    tier_done-Coded x results k (r, some err) s h = returns refl
    tier_done-Coded x results k (r, none) s h = h _

    add_tiers-Coded :
        (ts : List Tier) (results : List LayerResult) (s : Server F B W)
        → Ensures (Coded all) (add_tiers ch e fuel token0 token1 fee ts results s)
    unfolding add_tiers add_tier
    add_tiers-Coded [] results s = returns refl
    add_tiers-Coded (x ∷ ts) results s =
        either all (ltb_ℤ (pos 0) x.amount0 && ltb_ℤ (pos 0) x.amount1) _ _ s
          (Ensures-and_then _ λ ret t.
            tier_done-Coded x results (add_tiers ch e fuel token0 token1 fee ts) ret t
              λ l. add_tiers-Coded ts l t)
          (add_tiers-Coded ts results s)

    add_amounts-Coded :
        (total0 total1 : ℤ) (s : Server F B W)
        → Ensures (Coded all) (add_amounts ch fuel e token0 token1 fee total0 total1 s)
    unfolding add_amounts
    add_amounts-Coded total0 total1 s = Ensures-and_then _ λ core t.
        Ensures-and_then _
          λ mid u. Ensures-and_then _ λ tail. add_tiers-Coded (core ∷ mid ∷ tail ∷ []) []

  -- Whatever the request, the server and the chain, an answer has one of the codes that the table
  -- lists for its request: 503 and no other where the handler needs an executor that is not there,
  -- and never 503 where it is; else 200, 400 only on a request with a body or for a rebalance, and
  -- 500 only where a call of the executor may fail.
  pub serve-Coded :
      (fuel : ℕ) (r : Request F) (s : Server F B W)
      → Ensures
          (λ a _. is_one_of a.code (codes_with (has_executor s.executor) r) ≡ true)
          (serve ch fuel r s)
  unfolding serve needs_executor codes handle_health handle_status handle_metrics handle_positions
      handle_risk handle_rebalance handle_start handle_stop handle_alerts handle_balance
      handle_create_pool handle_add_liquidity handle_swap
  serve-Coded fuel to_health s = Ensures-and_then _ λ now t. returns refl
  serve-Coded fuel to_metrics s = returns refl
  serve-Coded fuel to_risk s = returns refl
  serve-Coded fuel to_rebalance s = elim (Bool-cases s.state.rebalancer.is_running) [
    | inl on ↦ rw on (returns refl)
    | inr off ↦ rw off (returns refl)
  ]
  serve-Coded fuel to_start s = returns refl
  serve-Coded fuel to_stop s = returns refl
  serve-Coded fuel to_alerts s = returns refl
  serve-Coded fuel (to_status order) s = returns refl
  serve-Coded fuel to_positions s =
      with_executor-Coded to_positions s.executor _ s refl
        λ e. Ensures-caught _ λ r t. returns (tiers_answer-one_of F r)
  serve-Coded fuel to_balance s =
      with_executor-Coded to_balance s.executor _ s refl
        λ e. Ensures-caught _ λ r t. Ensures-caught _ λ r' t'. returns refl
  serve-Coded fuel (to_create_pool r) s =
      with_executor-Coded (to_create_pool r) s.executor _ s refl λ e. bound-Coded r _ s λ req.
        Ensures-and_then _
          λ ret t. returned_answer-Coded (pool_answer ch) ret t λ x. pool_answer-Coded x t
  serve-Coded fuel (to_add_liquidity r) s =
      with_executor-Coded (to_add_liquidity r) s.executor _ s refl λ e. bound-Coded r _ s λ req.
        parsed-Coded _ _ _ s
          λ total0. parsed-Coded _ _ _ s λ total1. add_amounts-Coded e fuel _ _ _ total0 total1 s
  serve-Coded fuel (to_swap r) s = with_executor-Coded (to_swap r) s.executor _ s refl λ e.
      bound-Coded r _ s λ req. amount-Coded (set_string req.amount_in) _ s λ n.
        out_min-Coded (out_min_of ch s req.amount_out_min n)
          (λ m.
            on_chain (
              execute_swap ch e fuel (ch.hex_to_address req.token_in)
                (ch.hex_to_address req.token_out) n m (pos 0))
            >>= returned_answer (swap_answer ch n))
          s
          λ m t.
            Ensures-and_then _
              λ ret u. returned_answer-Coded (swap_answer ch n) ret u λ x. swap_answer-Coded n x u
