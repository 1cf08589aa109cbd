-- ===== src/Api/Owned.antt =====
-- What the requests of pkg/api/service.go do with the bot's funds, on a chain that keeps it.
use stablecoin_mmm.Base.{ℕ, refl, ◌&&◌, not, ltb, List, [], ◌∷◌, Option, none, some, String}
use stablecoin_mmm.Base.Int.{ℤ, pos, negsuc, ltb_ℤ}
use stablecoin_mmm.Base.Decimal.{set_string}
use stablecoin_mmm.Base.Float.{Float, BigFloat}
use stablecoin_mmm.Base.Act.{Act, GoError, Result, value, error, or_panic, pure}
use stablecoin_mmm.Base.Settles.{ends_and_then, ends_either}
use stablecoin_mmm.Chain.{Address, Chain}
use stablecoin_mmm.Chain.Watched.{Watched, watching, Owner}
use stablecoin_mmm.Executor.Core.{Executor, ExecutionResult, Returned}
use stablecoin_mmm.Executor.Owned.{Owned, IsOf, MaybeOf}
use stablecoin_mmm.Executor.Payouts.{add_liquidity-Owned}
use stablecoin_mmm.Api.Server.{Server, Response, on_chain, LayerResult, answer, refused}
use stablecoin_mmm.Api.Handlers.{returned_answer, pool_answer, bound, error_text, with_executor}
use stablecoin_mmm.Api.Liquidity.{
  Tier, tier_of, add_tier, add_tiers, add_amounts, tier_done, parsed,
}
use stablecoin_mmm.Api.SwapHandler.{swap_answer, out_min_or_400, amount_or_400}

module _ {F B W : Type 0} (o : Owner) where
  abbrev pub Funds : Server F B (Watched W) → Type 0
  Funds t = Owned o t.state.world

  pub on_chain-Funds :
      {A : Type 0} (m : Act (Watched W) A) (t : Server F B (Watched W))
      → Owned o (m t.state.world).1
      → Funds (on_chain m t).1
  unfolding on_chain
  on_chain-Funds m t h = h

  -- A continuation that keeps to the funds, behind a check of the request or of a result.
  error_text-Funds :
      (x : Option GoError) (k : GoError → Response F) (t : Server F B (Watched W))
      → Funds t
      → Funds (error_text x k t).1
  error_text-Funds none k t p = p
  error_text-Funds (some e) k t p = p

  pub returned_answer-Funds :
      (k : ExecutionResult → Act (Server F B (Watched W)) (Response F)) (ret : Returned)
      (t : Server F B (Watched W))
      → Funds t
      → ((r : ExecutionResult) → Funds (k r t).1)
      → Funds (returned_answer k ret t).1
  returned_answer-Funds k (r, some e) t p h = p
  returned_answer-Funds k (r, none) t p h = h r

  pub bound-Funds :
      {A : Type 0} (r : Result A) (k : A → Act (Server F B (Watched W)) (Response F))
      (t : Server F B (Watched W))
      → Funds t
      → ((a : A) → Funds (k a t).1)
      → Funds (bound r k t).1
  bound-Funds (value a) k t p h = h a
  bound-Funds (error e) k t p h = p

  or_panic-Funds :
      {A : Type 0} (x : Option A) (t : Server F B (Watched W)) → Funds t → Funds (or_panic x t).1
  or_panic-Funds none t p = p
  or_panic-Funds (some a) t p = p

  module _ ⦃f : Float F⦄ ⦃b : BigFloat F B⦄ (ch : Chain W) where
    pub with_executor-Funds :
        (x : Option (Executor F)) (k : Executor F → Act (Server F B (Watched W)) (Response F))
        (t : Server F B (Watched W))
        → MaybeOf ch o x
        → Funds t
        → ((e : Executor F) → IsOf ch o e → Funds (k e t).1)
        → Funds (with_executor x k t).1
    with_executor-Funds none k t own p h = p
    with_executor-Funds (some e) k t own p h = h e (own e refl)

    pub pool_answer-Funds :
        (r : ExecutionResult) (t : Server F B (Watched W))
        → Funds t
        → Funds (pool_answer (watching ch) r t).1
    unfolding pool_answer
    pool_answer-Funds r t p =
        ends_either Funds (not r.success) _ _ t
          (ends_either Funds (ltb r.gas_used 100_000) _ _ t p (error_text-Funds r.error _ t p)) p

    pub swap_answer-Funds :
        (amount_in : ℤ) (r : ExecutionResult) (t : Server F B (Watched W))
        → Funds t
        → Funds (swap_answer (watching ch) amount_in r t).1
    unfolding swap_answer
    swap_answer-Funds amount_in r t p =
        ends_either Funds (not r.success) _ _ t (error_text-Funds r.error _ t p) p

    pub amount-Funds :
        (x : Option ℤ) (k : ℤ → Act (Server F B (Watched W)) (Response F))
        (t : Server F B (Watched W))
        → Funds t
        → ((n : ℤ) → Funds (k n t).1)
        → Funds (amount_or_400 (watching ch) x k t).1
    amount-Funds none k t p h = p
    amount-Funds (some n) k t p h = h n

    pub out_min-Funds :
        (m : Result (Option ℤ)) (k : ℤ → Act (Server F B (Watched W)) (Response F))
        (t : Server F B (Watched W))
        → Funds t
        → ((n : ℤ) (u : Server F B (Watched W)) → Funds u → Funds (k n u).1)
        → Funds (out_min_or_400 (watching ch) m k t).1
    out_min-Funds (error e) k t p h = p
    out_min-Funds (value x) k t p h = ends_and_then Funds k (or_panic x t) (or_panic-Funds x t p) h

    pub parsed-Funds :
        (text complaint : String) (k : ℤ → Act (Server F B (Watched W)) (Response F))
        (t : Server F B (Watched W))
        → Funds t
        → ((n : ℤ) → Funds (k n t).1)
        → Funds (parsed (watching ch) text complaint k t).1
    parsed-Funds text complaint k t p h =
        elim (set_string text)
          as (λ x. Funds (
            ((elim x as (λ y. Act (Server F B (Watched W)) (Response F)) [
              | none ↦ pure (answer 400 (refused complaint))
              | some n ↦ k n
            ])
              t).1)) [ none ↦ p | some n ↦ h n ]

    module _ (e : Executor F) (own : IsOf ch o e) (fuel : ℕ) (token0 token1 : Address)
        (fee : ℕ) where
      tier_done-Funds :
          (x : Tier) (results : List LayerResult)
          (k : List LayerResult → Act (Server F B (Watched W)) (Response F)) (ret : Returned)
          (t : Server F B (Watched W))
          → Funds t
          → ((l : List LayerResult) → Funds (k l t).1)
          → Funds (tier_done (watching ch) e x results k ret t).1
      tier_done-Funds x results k (r, some err) t p h = p
      tier_done-Funds x results k (r, none) t p h = h _

      add_tiers-Funds :
          (ts : List Tier) (results : List LayerResult) (t : Server F B (Watched W))
          → Funds t
          → Funds (add_tiers (watching ch) e fuel token0 token1 fee ts results t).1
      unfolding add_tiers add_tier
      add_tiers-Funds [] results t p = p
      add_tiers-Funds (x ∷ ts) results t p =
          ends_either Funds (ltb_ℤ (pos 0) x.amount0 && ltb_ℤ (pos 0) x.amount1) _ _ t
            (ends_and_then Funds _ _
              (on_chain-Funds _ t (
                add_liquidity-Owned ch o e own fuel token0 token1 fee x.amount0 x.amount1
                  x.tick_lower x.tick_upper t.state.world p))
              λ ret u q.
                tier_done-Funds x results (add_tiers (watching ch) e fuel token0 token1 fee ts) ret
                  u q λ l. add_tiers-Funds ts l u q)
            (add_tiers-Funds ts results t p)

      pub add_amounts-Funds :
          (total0 total1 : ℤ) (s : Server F B (Watched W))
          → Funds s
          → Funds (add_amounts (watching ch) fuel e token0 token1 fee total0 total1 s).1
      unfolding add_amounts
      add_amounts-Funds total0 total1 s p =
          ends_and_then Funds _ _
            (or_panic-Funds (tier_of "core" s.cfg.bot.core_ratio total0 total1 (negsuc 9) (pos 10))
              s p)
            λ core t q.
              ends_and_then Funds _ _
                (or_panic-Funds
                  (tier_of "mid" s.cfg.bot.mid_ratio total0 total1 (negsuc 49) (pos 50)) t q)
                λ mid u r.
                  ends_and_then Funds _ _
                    (or_panic-Funds
                      (tier_of "tail" s.cfg.bot.tail_ratio total0 total1 (negsuc 199) (pos 200)) u
                      r)
                    λ tail. add_tiers-Funds (core ∷ mid ∷ tail ∷ []) []
