-- ===== src/Executor/View.antt =====
-- `GetTierPositions` of pkg/executor/service.go: what it reports of a pool that answers or fails.
use stablecoin_mmm.Base.{String, [], ◌∷◌, map, some, ◌≡◌, refl}
use stablecoin_mmm.Base.Int.{ℤ, ◌+ℤ◌, ◌-ℤ◌}
use stablecoin_mmm.Base.Word.{wrap32}
use stablecoin_mmm.Base.Float.{Float, BigFloat}
use stablecoin_mmm.Base.Act.{Result, ok, and_then, caught}
use stablecoin_mmm.Base.Settles.{Settles, Returns, with_value, Returns-caught, Returns-and_then}
use stablecoin_mmm.Chain.{Chain}
use stablecoin_mmm.Amounts.Total.{calculate_token_amounts_total}
use stablecoin_mmm.Executor.Core.{Executor}
use stablecoin_mmm.Executor.Tiers.{
  PoolView, TierPosition, view_pool, tier_position, get_tier_positions, or_zero,
}

-- The name, the width and the liquidity that a tier shows.
abbrev pub Shown : Type 0
Shown = String × ℤ × ℤ

abbrev pub shown : TierPosition → Shown
shown t = (t.name, t.position_count, t.liquidity)

module _ {W : Type 0} (ch : Chain W) where
  view_pool-Returns :
      ((w : W) → Settles (ch.pool_slot0 w))
      → (w w1 : W) (r : Result ℤ) → caught (ch.pool_liquidity w) ≡ (ok r, w1)
      → Returns (λ v _. v.liquidity ≡ or_zero r) (view_pool ch w)
  unfolding view_pool and_then caught
  view_pool-Returns slot w w1 r e =
      rw e (Returns-caught (slot w1) λ a w2. Returns-caught (slot w2) λ c w3. with_value refl)

module _ (F B : Type 0) ⦃f : Float F⦄ ⦃b : BigFloat F B⦄ where
  tier_position-some :
      (name : String) (bps : ℤ) (v : PoolView)
      → (t : TierPosition) × (tier_position F B name bps v ≡ some t)
        × (shown t ≡ (name, bps, v.liquidity))
  unfolding tier_position
  tier_position-some name bps v =
      let (r, e) =
        calculate_token_amounts_total F B v.liquidity (wrap32 (v.current_tick -ℤ wrap32 bps))
          (wrap32 (v.current_tick +ℤ wrap32 bps)) v.sqrt_price in
      (
        record {
          name = name;
          amount0 = r.0;
          amount1 = r.1;
          position_count = bps;
          liquidity = v.liquidity;
        },
        rw e refl,
        refl,
      )

  -- Where the pool's price calls come back, with a value or an error, `GetTierPositions` returns the
  -- three tiers, each with its configured width and with the pool's liquidity, which is zero where
  -- its call failed; it never panics.
  pub get_tier_positions-Returns :
      {W : Type 0} (ch : Chain W) (e : Executor F) (w w1 : W) (r : Result ℤ)
      → ((w : W) → Settles (ch.pool_slot0 w))
      → caught (ch.pool_liquidity w) ≡ (ok r, w1)
      → Returns
          (λ tiers _.
            map shown tiers
            ≡ ("core", e.cfg.bot.core_range_bps, or_zero r)
              ∷ ("mid", e.cfg.bot.mid_range_bps, or_zero r)
              ∷ ("tail", e.cfg.bot.tail_range_bps, or_zero r)
              ∷ [])
          (get_tier_positions F B ch e w)
  unfolding get_tier_positions and_then
  get_tier_positions-Returns ch e w w1 r slot l =
      Returns-and_then (view_pool-Returns ch slot w w1 r l) λ v w2 same.
        let (core, c, sc) = tier_position-some "core" e.cfg.bot.core_range_bps v in
        let (mid, m, sm) = tier_position-some "mid" e.cfg.bot.mid_range_bps v in
        let (tail, t, st) = tier_position-some "tail" e.cfg.bot.tail_range_bps v in
        rw (c, m, t) (with_value (rw (sc, sm, st, same) refl))
