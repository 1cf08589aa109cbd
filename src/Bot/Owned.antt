-- ===== src/Bot/Owned.antt =====
-- What the bot of main.go does with its funds, on a chain that keeps it.
use mathlib.Core.Path.{subst}
use stablecoin_mmm.Base.{ℕ, sym, ap}
use stablecoin_mmm.Base.Float.{Float, BigFloat}
use stablecoin_mmm.Base.Settles.{ends_and_then, ends_wrapped}
use stablecoin_mmm.Chain.{Chain}
use stablecoin_mmm.Chain.Watched.{Watched, watching, Owner}
use stablecoin_mmm.Executor.Owned.{Owned, MaybeOf}
use stablecoin_mmm.Rebalancer.Core.{new_rebalancer, start}
use stablecoin_mmm.Rebalancer.Core as R
use stablecoin_mmm.Rebalancer.Keeps.{execute_rebalance_keeps}
use stablecoin_mmm.Rebalancer.Owned.{execute_rebalance-Lawful}
use stablecoin_mmm.Uniswap.{
  PriceOracle, get_price_info, get_current_price, get_pool, get_twap_price,
}
use stablecoin_mmm.Api.Server.{Server}
use stablecoin_mmm.Api.Handlers.{update_rebalancer}
use stablecoin_mmm.Api.Owned.{Funds}
use stablecoin_mmm.Api.Funds.{serve-Funds}
use stablecoin_mmm.Bot.Core.{run_rebalance}
use stablecoin_mmm.Bot.Inputs.{IsClosed}

module _ {F W : Type 0} (B : Type 0) ⦃f : Float F⦄ ⦃b : BigFloat F B⦄ (ch : Chain W)
    (o : Owner) where
  get_price_info-Owned :
      (oracle : PriceOracle F) (s : Watched W)
      → Owned o s
      → Owned o (get_price_info {B = B} (watching ch) oracle s).1
  unfolding get_price_info get_current_price get_pool get_twap_price
  get_price_info-Owned oracle s h =
      ends_and_then (Owned o) _ _
        (ends_wrapped (Owned o) _ _ (
          ends_and_then (Owned o) _ _
            (ends_and_then (Owned o) _ _ (ends_wrapped (Owned o) _ _ h)
              λ _ t p. ends_and_then (Owned o) _ _ (ends_wrapped (Owned o) _ _ p) λ _ u q. q)
            λ _ t p. p))
        λ _ t p. ends_and_then (Owned o) _ _ (ends_wrapped (Owned o) _ _ p) λ _ u q. q

module _ {F B W : Type 0} ⦃f : Float F⦄ ⦃b : BigFloat F B⦄ (ch : Chain W) (o : Owner) where
  -- What was done is lawful, and both executors are the owner's.
  abbrev pub InHands : Server F B (Watched W) → Type 0
  InHands s = Funds o s × MaybeOf ch o s.executor × MaybeOf ch o s.state.rebalancer.executor

  module _ (fuel : ℕ) (oracle : PriceOracle F) where
    pub InHands-closed : IsClosed {B = B} (watching ch) fuel oracle InHands
    unfolding update_rebalancer R.update_prices run_rebalance
    InHands-closed = record {
      read = λ s h. (get_price_info-Owned B ch o oracle s.state.world h.0, h.1, h.2);
      served = λ r s w e h. (subst (Funds o) e (serve-Funds ch o fuel r s h.1 h.0), h.1, h.2);
      priced = λ s w i e h. h;
      rebalanced = λ s h. (
        execute_rebalance-Lawful ch o fuel s.state h.2 h.0,
        h.1,
        subst (MaybeOf ch o)
            (sym (ap (λ r. r.executor) (execute_rebalance_keeps (watching ch) fuel s.state).0)) h.2,
      );
      noted = λ s t h. h;
      stopped = λ s h. h;
      halted = λ s h. h;
      counted = λ s n h. h;
    }
