-- ===== src/Bot/Served.antt =====
-- The controller of Bot/Refines, under every request of pkg/api/service.go.
use mathlib.Core.Path.{subst}
use stablecoin_mmm.Base.{ℕ, ◌≡◌, refl, ap, false, List, [], ◌∷◌}
use stablecoin_mmm.Base.Float.{Float, BigFloat}
use stablecoin_mmm.Chain.{Chain}
use stablecoin_mmm.Uniswap.{PriceOracle}
use stablecoin_mmm.Api.Server.{Server}
use stablecoin_mmm.Api.Effects.{controls, serve-OnlyWorld}
use stablecoin_mmm.Api.Routes.{
  Request, to_health, to_metrics, to_positions, to_risk, to_rebalance, to_start, to_stop, to_alerts,
  to_balance, to_status, to_create_pool, to_add_liquidity, to_swap, serve,
}
use stablecoin_mmm.Bot.Machine.{stop_request, rebalance_request}
use stablecoin_mmm.Bot.Moves.{Move, event, start_request, move}
use stablecoin_mmm.Bot.Inputs.{Input, moved, asked, inputs}
use stablecoin_mmm.Bot.Refines.{Step, Steps, done, next, view, move-Step}

-- The moves among the inputs: a request to start, to stop or to rebalance is one, and no other
-- request is.
abbrev pub moves_in : {F : Type 0} → List (Input F) → List Move
moves_in [] = []
moves_in (moved m ∷ is) = m ∷ moves_in is
moves_in (asked to_start ∷ is) = start_request ∷ moves_in is
moves_in (asked to_stop ∷ is) = event stop_request ∷ moves_in is
moves_in (asked to_rebalance ∷ is) = event rebalance_request ∷ moves_in is
moves_in (asked to_health ∷ is) = moves_in is
moves_in (asked to_metrics ∷ is) = moves_in is
moves_in (asked to_positions ∷ is) = moves_in is
moves_in (asked to_risk ∷ is) = moves_in is
moves_in (asked to_alerts ∷ is) = moves_in is
moves_in (asked to_balance ∷ is) = moves_in is
moves_in (asked (to_status order) ∷ is) = moves_in is
moves_in (asked (to_create_pool r) ∷ is) = moves_in is
moves_in (asked (to_add_liquidity r) ∷ is) = moves_in is
moves_in (asked (to_swap r) ∷ is) = moves_in is

module _ {F B W : Type 0} ⦃f : Float F⦄ ⦃b : BigFloat F B⦄ (ch : Chain W) (fuel : ℕ)
    (oracle : PriceOracle F) where
  unseen :
      (r : Request F) (s : Server F B W) → controls r ≡ false → view (serve ch fuel r s).1 ≡ view s
  unseen r s h = let (w, e) = serve-OnlyWorld ch fuel r s h in ap view e

  to_start-Step :
      (s : Server F B W) → Step start_request (view s) (view (serve ch fuel to_start s).1)
  unfolding serve
  to_start-Step s = move-Step ch fuel oracle start_request s

  to_stop-Step :
      (s : Server F B W) → Step (event stop_request) (view s) (view (serve ch fuel to_stop s).1)
  unfolding serve
  to_stop-Step s = move-Step ch fuel oracle (event stop_request) s

  to_rebalance-Step :
      (s : Server F B W)
      → Step (event rebalance_request) (view s) (view (serve ch fuel to_rebalance s).1)
  unfolding serve
  to_rebalance-Step s = move-Step ch fuel oracle (event rebalance_request) s

  passes :
      (r : Request F) (is : List (Input F)) (s : Server F B W)
      → controls r ≡ false
      → let t = (serve ch fuel r s).1 in
        Steps (moves_in is) (view t) (view (inputs ch fuel oracle is t))
        → Steps (moves_in is) (view s) (view (inputs ch fuel oracle is t))
  passes r is s h steps =
      let t = (serve ch fuel r s).1 in
      subst (λ c. Steps (moves_in is) c (view (inputs ch fuel oracle is t))) (unseen r s h) steps

  -- Every sequence of ticks, background rebalances and requests of every kind is a run of the
  -- controller by the moves in it: only a start switches it on, only a stop or a monitor tick under an
  -- active breaker switches it off, the breaker changes only in a rebalance while it runs, and no
  -- other request shows in it, whether it is answered, fails or panics.
  pub inputs_refine :
      (is : List (Input F)) (s : Server F B W)
      → Steps (moves_in is) (view s) (view (inputs ch fuel oracle is s))
  inputs_refine [] s = done
  inputs_refine (moved m ∷ is) s =
      next (move-Step ch fuel oracle m s) (inputs_refine is (move ch fuel oracle m s))
  inputs_refine (asked to_start ∷ is) s =
      next (to_start-Step s) (inputs_refine is (serve ch fuel to_start s).1)
  inputs_refine (asked to_stop ∷ is) s =
      next (to_stop-Step s) (inputs_refine is (serve ch fuel to_stop s).1)
  inputs_refine (asked to_rebalance ∷ is) s =
      next (to_rebalance-Step s) (inputs_refine is (serve ch fuel to_rebalance s).1)
  inputs_refine (asked to_health ∷ is) s =
      passes to_health is s (unfold controls in refl)
        (inputs_refine is (serve ch fuel to_health s).1)
  inputs_refine (asked to_metrics ∷ is) s =
      passes to_metrics is s (unfold controls in refl)
        (inputs_refine is (serve ch fuel to_metrics s).1)
  inputs_refine (asked to_positions ∷ is) s =
      passes to_positions is s (unfold controls in refl)
        (inputs_refine is (serve ch fuel to_positions s).1)
  inputs_refine (asked to_risk ∷ is) s =
      passes to_risk is s (unfold controls in refl) (inputs_refine is (serve ch fuel to_risk s).1)
  inputs_refine (asked to_alerts ∷ is) s =
      passes to_alerts is s (unfold controls in refl)
        (inputs_refine is (serve ch fuel to_alerts s).1)
  inputs_refine (asked to_balance ∷ is) s =
      passes to_balance is s (unfold controls in refl)
        (inputs_refine is (serve ch fuel to_balance s).1)
  inputs_refine (asked (to_status o) ∷ is) s =
      passes (to_status o) is s (unfold controls in refl)
        (inputs_refine is (serve ch fuel (to_status o) s).1)
  inputs_refine (asked (to_create_pool r) ∷ is) s =
      passes (to_create_pool r) is s (unfold controls in refl)
        (inputs_refine is (serve ch fuel (to_create_pool r) s).1)
  inputs_refine (asked (to_add_liquidity r) ∷ is) s =
      passes (to_add_liquidity r) is s (unfold controls in refl)
        (inputs_refine is (serve ch fuel (to_add_liquidity r) s).1)
  inputs_refine (asked (to_swap r) ∷ is) s =
      passes (to_swap r) is s (unfold controls in refl)
        (inputs_refine is (serve ch fuel (to_swap r) s).1)
