-- ===== src/Api/Effects.antt =====
-- What the requests of pkg/api/service.go that send transactions may change of the server.
use stablecoin_mmm.Base.{
  ℕ, ◌≡◌, refl, ◌&&◌, Bool, not, ltb, true, false, List, [], ◌∷◌, Option, none, some, String, arith,
}
use stablecoin_mmm.Base.Int.{ℤ, pos, negsuc, ltb_ℤ}
use stablecoin_mmm.Base.Decimal.{set_string}
use stablecoin_mmm.Base.Float.{Float, BigFloat}
use stablecoin_mmm.Base.Act.{Act, GoError, Result, value, error, or_panic, pure, ◌>>=◌}
use stablecoin_mmm.Base.Settles.{ends_and_then, ends_either}
use stablecoin_mmm.Chain.{Address, Chain}
use stablecoin_mmm.Executor.Core.{Executor, ExecutionResult, Returned}
use stablecoin_mmm.Executor.Trades.{execute_swap}
use stablecoin_mmm.Api.Server.{Server, Response, on_chain, LayerResult, answer, refused}
use stablecoin_mmm.Api.Handlers.{
  returned_answer, pool_answer, bound, error_text, handle_create_pool,
}
use stablecoin_mmm.Api.Liquidity.{
  Tier, tier_of, add_tier, add_tiers, add_amounts, tier_done, parsed, handle_add_liquidity,
}
use stablecoin_mmm.Api.SwapHandler.{
  swap_answer, out_min_of, out_min_or_400, amount_or_400, handle_swap,
}
use stablecoin_mmm.Api.ReadOnly.{
  in_world, OnlyWorld, on_chain-OnlyWorld, with_executor-OnlyWorld, get-OnlyWorld,
}
use stablecoin_mmm.Api.Routes.{
  Request, to_health, to_metrics, to_positions, to_risk, to_rebalance, to_start, to_stop, to_alerts,
  to_balance, to_status, to_create_pool, to_add_liquidity, to_swap, serve, route,
}

-- The requests that start, stop or trigger the rebalancer.
unfoldable pub controls : {F : Type 0} → Request F → Bool
controls to_rebalance = true
controls to_start = true
controls to_stop = true
controls to_health = false
controls to_metrics = false
controls to_positions = false
controls to_risk = false
controls to_alerts = false
controls to_balance = false
controls (to_status order) = false
controls (to_create_pool r) = false
controls (to_add_liquidity r) = false
controls (to_swap r) = false

module _ {F B W : Type 0} (s : Server F B W) where
  -- The handlers' answers change nothing.
  error_text-OnlyWorld :
      (o : Option GoError) (k : GoError → Response F) (t : Server F B W)
      → OnlyWorld s t
      → OnlyWorld s (error_text o k t).1
  error_text-OnlyWorld none k t p = p
  error_text-OnlyWorld (some e) k t p = p

  returned_answer-OnlyWorld :
      (k : ExecutionResult → Act (Server F B W) (Response F)) (ret : Returned) (t : Server F B W)
      → OnlyWorld s t
      → ((r : ExecutionResult) → OnlyWorld s (k r t).1)
      → OnlyWorld s (returned_answer k ret t).1
  returned_answer-OnlyWorld k (r, some e) t p h = p
  returned_answer-OnlyWorld k (r, none) t p h = h r

  bound-OnlyWorld :
      {A : Type 0} (r : Result A) (k : A → Act (Server F B W) (Response F))
      → ((a : A) → OnlyWorld s (k a s).1)
      → OnlyWorld s (bound r k s).1
  bound-OnlyWorld (value a) k h = h a
  bound-OnlyWorld (error e) k h = (s.state.world, refl)

  or_panic-OnlyWorld :
      {A : Type 0} (o : Option A) (t : Server F B W) → OnlyWorld s t → OnlyWorld s (or_panic o t).1
  or_panic-OnlyWorld none t p = p
  or_panic-OnlyWorld (some a) t p = p

  module _ ⦃f : Float F⦄ ⦃b : BigFloat F B⦄ (ch : Chain W) where
    pool_answer-OnlyWorld :
        (r : ExecutionResult) (t : Server F B W)
        → OnlyWorld s t
        → OnlyWorld s (pool_answer ch r t).1
    unfolding pool_answer
    pool_answer-OnlyWorld r t p =
        ends_either (OnlyWorld s) (not r.success) _ _ t
          (ends_either (OnlyWorld s) (ltb r.gas_used 100_000) _ _ t p
            (error_text-OnlyWorld r.error _ t p))
          p

    swap_answer-OnlyWorld :
        (amount_in : ℤ) (r : ExecutionResult) (t : Server F B W)
        → OnlyWorld s t
        → OnlyWorld s (swap_answer ch amount_in r t).1
    unfolding swap_answer
    swap_answer-OnlyWorld amount_in r t p =
        ends_either (OnlyWorld s) (not r.success) _ _ t (error_text-OnlyWorld r.error _ t p) p

    out_min-OnlyWorld :
        (m : Result (Option ℤ)) (k : ℤ → Act (Server F B W) (Response F)) (t : Server F B W)
        → OnlyWorld s t
        → ((n : ℤ) (u : Server F B W) → OnlyWorld s u → OnlyWorld s (k n u).1)
        → OnlyWorld s (out_min_or_400 ch m k t).1
    out_min-OnlyWorld (error e) k t p h = p
    out_min-OnlyWorld (value o) k t p h =
        ends_and_then (OnlyWorld s) k (or_panic o t) (or_panic-OnlyWorld o t p) h

    amount-OnlyWorld :
        (o : Option ℤ) (k : ℤ → Act (Server F B W) (Response F))
        → ((n : ℤ) → OnlyWorld s (k n s).1)
        → OnlyWorld s (amount_or_400 ch o k s).1
    amount-OnlyWorld none k h = (s.state.world, refl)
    amount-OnlyWorld (some n) k h = h n

    parsed-OnlyWorld :
        (text complaint : String) (k : ℤ → Act (Server F B W) (Response F))
        → ((n : ℤ) → OnlyWorld s (k n s).1)
        → OnlyWorld s (parsed ch text complaint k s).1
    parsed-OnlyWorld text complaint k h =
        elim (set_string text)
          as (λ o. OnlyWorld s (
            ((elim o as (λ x. Act (Server F B W) (Response F)) [
              | none ↦ pure (answer 400 (refused complaint))
              | some n ↦ k n
            ])
              s).1)) [ none ↦ (s.state.world, refl) | some n ↦ h n ]

    module _ (e : Executor F) (fuel : ℕ) (token0 token1 : Address) (fee : ℕ) where
      tier_done-OnlyWorld :
          (x : Tier) (results : List LayerResult)
          (k : List LayerResult → Act (Server F B W) (Response F)) (ret : Returned)
          (t : Server F B W)
          → OnlyWorld s t
          → ((l : List LayerResult) → OnlyWorld s (k l t).1)
          → OnlyWorld s (tier_done ch e x results k ret t).1
      tier_done-OnlyWorld x results k (r, some err) t p h = p
      tier_done-OnlyWorld x results k (r, none) t p h = h _

      -- The tiers that are added one after another.
      add_tiers-OnlyWorld :
          (ts : List Tier) (results : List LayerResult) (t : Server F B W)
          → OnlyWorld s t
          → OnlyWorld s (add_tiers ch e fuel token0 token1 fee ts results t).1
      unfolding add_tiers add_tier
      add_tiers-OnlyWorld [] results t p = p
      add_tiers-OnlyWorld (x ∷ ts) results t p =
          ends_either (OnlyWorld s) (ltb_ℤ (pos 0) x.amount0 && ltb_ℤ (pos 0) x.amount1) _ _ t
            (ends_and_then (OnlyWorld s) _ _ (on_chain-OnlyWorld s _ t p) λ ret u q.
              tier_done-OnlyWorld x results (add_tiers ch e fuel token0 token1 fee ts) ret u q
                λ l. add_tiers-OnlyWorld ts l u q)
            (add_tiers-OnlyWorld ts results t p)

      add_amounts-OnlyWorld :
          (total0 total1 : ℤ)
          → OnlyWorld s (add_amounts ch fuel e token0 token1 fee total0 total1 s).1
      unfolding add_amounts
      add_amounts-OnlyWorld total0 total1 =
          ends_and_then (OnlyWorld s) _ _
            (or_panic-OnlyWorld
              (tier_of "core" s.cfg.bot.core_ratio total0 total1 (negsuc 9) (pos 10)) s
              (s.state.world, refl))
            λ core t p.
              ends_and_then (OnlyWorld s) _ _
                (or_panic-OnlyWorld
                  (tier_of "mid" s.cfg.bot.mid_ratio total0 total1 (negsuc 49) (pos 50)) t p)
                λ mid u q.
                  ends_and_then (OnlyWorld s) _ _
                    (or_panic-OnlyWorld
                      (tier_of "tail" s.cfg.bot.tail_ratio total0 total1 (negsuc 199) (pos 200)) u
                      q)
                    λ tail. add_tiers-OnlyWorld (core ∷ mid ∷ tail ∷ []) []

module _ {F B W : Type 0} ⦃f : Float F⦄ ⦃b : BigFloat F B⦄ (ch : Chain W) (fuel : ℕ) where
  -- A request that does not start, stop or trigger the rebalancer, however it is answered and also
  -- where its handler fails or panics, changes nothing of the server but the world behind it: the
  -- transactions of a created pool, of added liquidity and of a swap leave no trace in the layers,
  -- the metrics, the rebalancer or the risk engine.
  pub serve-OnlyWorld :
      (r : Request F) (s : Server F B W)
      → controls r ≡ false
      → (w : W) × ((serve ch fuel r s).1 ≡ in_world s w)
  unfolding serve handle_create_pool handle_add_liquidity handle_swap controls route
  serve-OnlyWorld (to_create_pool r) s h = with_executor-OnlyWorld s s.executor _ λ e.
      bound-OnlyWorld s r _ λ req.
        ends_and_then (OnlyWorld s) _ _ (on_chain-OnlyWorld s _ s (s.state.world, refl)) λ ret t p.
          returned_answer-OnlyWorld s (pool_answer ch) ret t p λ x. pool_answer-OnlyWorld s ch x t p
  serve-OnlyWorld (to_add_liquidity r) s h = with_executor-OnlyWorld s s.executor _ λ e.
      bound-OnlyWorld s r _ λ req. parsed-OnlyWorld s ch _ _ _ λ total0.
        parsed-OnlyWorld s ch _ _ _ λ total1. add_amounts-OnlyWorld s ch e fuel _ _ _ total0 total1
  serve-OnlyWorld (to_swap r) s h = with_executor-OnlyWorld s s.executor _ λ e.
      bound-OnlyWorld s r _ λ req.
        let swap = λ (n m : ℤ). on_chain (
          execute_swap ch e fuel (ch.hex_to_address req.token_in) (ch.hex_to_address req.token_out)
            n m (pos 0)) in
        amount-OnlyWorld s ch (set_string req.amount_in) _ λ n.
          out_min-OnlyWorld s ch (out_min_of ch s req.amount_out_min n)
            (λ m. swap n m >>= returned_answer (swap_answer ch n)) s (s.state.world, refl)
            λ m t p. ends_and_then (OnlyWorld s) _ _ (on_chain-OnlyWorld s _ t p) λ ret u q.
              returned_answer-OnlyWorld s (swap_answer ch n) ret u q
                λ x. swap_answer-OnlyWorld s ch n x u q
  serve-OnlyWorld to_health s h = get-OnlyWorld ch fuel to_health s refl
  serve-OnlyWorld to_metrics s h = get-OnlyWorld ch fuel to_metrics s refl
  serve-OnlyWorld to_positions s h = get-OnlyWorld ch fuel to_positions s refl
  serve-OnlyWorld to_risk s h = get-OnlyWorld ch fuel to_risk s refl
  serve-OnlyWorld to_alerts s h = get-OnlyWorld ch fuel to_alerts s refl
  serve-OnlyWorld to_balance s h = get-OnlyWorld ch fuel to_balance s refl
  serve-OnlyWorld (to_status order) s h = get-OnlyWorld ch fuel (to_status order) s refl
  serve-OnlyWorld to_rebalance s h = absurd (ground arith)
  serve-OnlyWorld to_start s h = absurd (ground arith)
  serve-OnlyWorld to_stop s h = absurd (ground arith)
