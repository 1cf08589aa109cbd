-- ===== src/Api/Status.antt =====
-- The status that pkg/api/service.go reports behind its requests to start and to stop.
use stablecoin_mmm.Base.{ℕ, ◌≡◌, refl, ap, ◌∙◌, Bool, true, false, List, [], ◌∷◌, ◌||◌, arith}
use stablecoin_mmm.Base.Float.{Float, BigFloat}
use stablecoin_mmm.Base.Act.{ok}
use stablecoin_mmm.Chain.{Chain}
use stablecoin_mmm.Risk.{is_circuit_breaker_active}
use stablecoin_mmm.Position.{Order, get_total_ratio}
use stablecoin_mmm.Rebalancer.Core.{start, stop}
use stablecoin_mmm.Api.Server.{Server, answer, status}
use stablecoin_mmm.Api.Handlers.{handle_status, handle_start, handle_stop, update_rebalancer}
use stablecoin_mmm.Api.Routes.{Request, to_status, to_start, to_stop, serve}
use stablecoin_mmm.Api.ReadOnly.{in_world, OnlyWorld}
use stablecoin_mmm.Api.Effects.{controls, serve-OnlyWorld}

abbrev pub any_controls : {F : Type 0} → List (Request F) → Bool
any_controls [] = false
any_controls (r ∷ rs) = controls r || any_controls rs

-- The request that sets the rebalancer running or not.
abbrev pub to_set : {F : Type 0} → Bool → Request F
to_set true = to_start
to_set false = to_stop

module _ {F B W : Type 0} ⦃f : Float F⦄ ⦃b : BigFloat F B⦄ (ch : Chain W) (fuel : ℕ) where
  abbrev pub serve_all : List (Request F) → Server F B W → Server F B W
  serve_all [] s = s
  serve_all (r ∷ rs) s = serve_all rs (serve ch fuel r s).1

  serve_all-OnlyWorld :
      (rs : List (Request F)) (s t : Server F B W)
      → any_controls rs ≡ false
      → OnlyWorld s t
      → OnlyWorld s (serve_all rs t)
  serve_all-OnlyWorld [] s t h p = p
  serve_all-OnlyWorld (r ∷ rs) s t h (w, e) =
      let (w', e') = serve-OnlyWorld ch fuel r t (ground (arith, h)) in
      serve_all-OnlyWorld rs s (serve ch fuel r t).1 (ground (arith, h))
        (w', e' ∙ ap (λ u. in_world u w') e)

  set_running :
      (on : Bool) (s : Server F B W)
      → let t = (serve ch fuel (to_set on) s).1 in
        (t.state.rebalancer.is_running ≡ on)
        × (t.state.risk ≡ s.state.risk)
        × (t.cfg ≡ s.cfg)
        × (t.positions ≡ s.positions)
  unfolding serve handle_start handle_stop update_rebalancer start stop
  set_running true s = (refl, refl, refl, refl)
  set_running false s = (refl, refl, refl, refl)

  -- Behind a request to start or to stop and any requests that do not control the rebalancer, failing
  -- ones included, the status answers 200, that the rebalancer runs or does not as was asked, and the
  -- breaker, the total ratio and the pool of before.
  pub status_tells :
      (on : Bool) (rs : List (Request F)) (order : Order F) (s : Server F B W)
      → any_controls rs ≡ false
      → (serve ch fuel (to_status order) (serve_all (to_set on ∷ rs) s)).0
        ≡ ok (
            answer 200 (
              status on
                (is_circuit_breaker_active s.state.risk)
                (get_total_ratio order s.positions)
                s.cfg.uniswap.pool_address
                s.cfg.uniswap.token0_address
                s.cfg.uniswap.token1_address
                s.cfg.uniswap.fee_tier))
  status_tells on rs order s h =
      let t = (serve ch fuel (to_set on) s).1 in
      let (w, e) = serve_all-OnlyWorld rs t t h (t.state.world, refl) in
      let (running, risk, cfg, positions) = set_running on s in
      rw e (unfold serve handle_status in rw (running, risk, cfg, positions) refl)
