-- ===== src/Api/ReadOnly.antt =====
-- What the requests of pkg/api/service.go may change.
use stablecoin_mmm.Base.{ℕ, ◌≡◌, refl, ap, Option, none, some, arith}
use stablecoin_mmm.Base.Float.{Float, BigFloat}
use stablecoin_mmm.Base.Act.{Act}
use stablecoin_mmm.Base.Settles.{ends_and_then, ends_caught}
use stablecoin_mmm.Monitor.{check_alerts}
use stablecoin_mmm.Chain.{Chain}
use stablecoin_mmm.Executor.Core.{Executor}
use stablecoin_mmm.Api.Server.{Server, Response, on_chain}
use stablecoin_mmm.Api.Handlers.{
  handle_health, handle_status, handle_metrics, handle_positions, handle_risk, handle_alerts,
  handle_balance, with_executor,
}
use stablecoin_mmm.Api.Routes.{
  get, route, Request, to_health, to_metrics, to_positions, to_risk, to_rebalance, to_start,
  to_stop, to_alerts, to_balance, to_status, to_create_pool, to_add_liquidity, to_swap, endpoint_of,
  serve,
}

-- The server with another world.
abbrev pub in_world : {F B W : Type 0} → Server F B W → W → Server F B W
in_world s w = let st = s.state in record s { state = record st { world = w } }

module _ {F B W : Type 0} (s : Server F B W) where
  abbrev pub OnlyWorld : Server F B W → Type 0
  OnlyWorld t = (w : W) × (t ≡ in_world s w)

  pub on_chain-OnlyWorld :
      {A : Type 0} (m : Act W A) (t : Server F B W) → OnlyWorld t → OnlyWorld (on_chain m t).1
  unfolding on_chain
  on_chain-OnlyWorld m t (w, e) = ((m t.state.world).1, ap (λ u. in_world u (m t.state.world).1) e)

  pub with_executor-OnlyWorld :
      (o : Option (Executor F)) (k : Executor F → Act (Server F B W) (Response F))
      → ((e : Executor F) → OnlyWorld (k e s).1)
      → OnlyWorld (with_executor o k s).1
  with_executor-OnlyWorld none k h = (s.state.world, refl)
  with_executor-OnlyWorld (some e) k h = h e

module _ {F B W : Type 0} ⦃f : Float F⦄ ⦃b : BigFloat F B⦄ (ch : Chain W) (fuel : ℕ) where
  -- A request by GET changes nothing of the server but the world behind it: not the configuration,
  -- the layers, the metrics, the rebalancer, the risk engine or the background rebalances.
  pub get-OnlyWorld :
      (r : Request F) (s : Server F B W)
      → (route (endpoint_of r)).0 ≡ get
      → (w : W) × ((serve ch fuel r s).1 ≡ in_world s w)
  unfolding serve route handle_health handle_status handle_metrics handle_positions handle_risk
      handle_alerts handle_balance
  get-OnlyWorld to_health s h =
      ends_and_then (OnlyWorld s) _ _ (on_chain-OnlyWorld s _ s (s.state.world, refl)) λ _ t p. p
  get-OnlyWorld to_metrics s h = (s.state.world, refl)
  get-OnlyWorld to_positions s h =
      with_executor-OnlyWorld s s.executor _ λ e.
        ends_caught (OnlyWorld s) _ _ (on_chain-OnlyWorld s _ s (s.state.world, refl)) λ _ t p. p
  get-OnlyWorld to_risk s h = (s.state.world, refl)
  get-OnlyWorld to_alerts s h =
      ((check_alerts ch (some s.state.risk) s.metrics s.state.world).1, refl)
  get-OnlyWorld to_balance s h = with_executor-OnlyWorld s s.executor _ λ e.
      ends_caught (OnlyWorld s) _ _ (on_chain-OnlyWorld s _ s (s.state.world, refl))
        λ _ t1 p1. ends_caught (OnlyWorld s) _ _ (on_chain-OnlyWorld s _ t1 p1) λ _ t2 p2. p2
  get-OnlyWorld (to_status order) s h = (s.state.world, refl)
  get-OnlyWorld to_rebalance s h = absurd (ground arith)
  get-OnlyWorld to_start s h = absurd (ground arith)
  get-OnlyWorld to_stop s h = absurd (ground arith)
  get-OnlyWorld (to_create_pool r) s h = absurd (ground arith)
  get-OnlyWorld (to_add_liquidity r) s h = absurd (ground arith)
  get-OnlyWorld (to_swap r) s h = absurd (ground arith)
