-- ===== src/Api/Routes.antt =====
-- `setupRoutes` of pkg/api/service.go: which handler stands behind which route. Matching a path
-- against the table is gin's, for paths without a parameter an equality of texts; the pages under
-- /static are files.
use text.Mathlib.Text.{◌==◌}
use stablecoin_mmm.Base.{
  ℕ, String, ◌≡◌, refl, Bool, true, false, ◌&&◌, List, [], ◌∷◌, Option, none, some, if◌then◌else◌,
}
use stablecoin_mmm.Base.Float.{Float, BigFloat}
use stablecoin_mmm.Base.Act.{Act, Result}
use stablecoin_mmm.Chain.{Chain}
use stablecoin_mmm.Position.{Order}
use stablecoin_mmm.Api.Server.{
  Server, Response, CreatePoolRequest, AddLiquidityRequest, SwapRequest,
}
use stablecoin_mmm.Api.Handlers.{
  handle_health, handle_status, handle_metrics, handle_positions, handle_risk, handle_rebalance,
  handle_start, handle_stop, handle_alerts, handle_create_pool, handle_balance,
}
use stablecoin_mmm.Api.Liquidity.{handle_add_liquidity}
use stablecoin_mmm.Api.SwapHandler.{handle_swap}

pub data Verb : Type 0 where
  get post : Verb

pub data Endpoint : Type 0 where
  root index health status metrics positions risk rebalance start stop alerts : Endpoint
  create_pool add_liquidity swap balance : Endpoint

unfoldable pub route : Endpoint → Verb × String
route root = (get, "/")
route index = (get, "/index.html")
route health = (get, "/health")
route status = (get, "/api/v1/status")
route metrics = (get, "/api/v1/metrics")
route positions = (get, "/api/v1/positions")
route risk = (get, "/api/v1/risk")
route rebalance = (post, "/api/v1/rebalance")
route start = (post, "/api/v1/start")
route stop = (post, "/api/v1/stop")
route alerts = (get, "/api/v1/alerts")
route create_pool = (post, "/api/v1/create-pool")
route add_liquidity = (post, "/api/v1/add-liquidity")
route swap = (post, "/api/v1/swap")
route balance = (get, "/api/v1/balance")

-- The table in the order of its entries.
abbrev pub endpoints : List Endpoint
endpoints =
    root ∷ index ∷ health ∷ status ∷ metrics ∷ positions ∷ risk ∷ rebalance ∷ start ∷ stop ∷ alerts
    ∷ create_pool ∷ add_liquidity ∷ swap ∷ balance ∷ []

abbrev pub same_verb : Verb → Verb → Bool
same_verb get get = true
same_verb post post = true
same_verb get post = false
same_verb post get = false

-- The first entry with a verb and a path.
unfoldable pub find_endpoint : Verb → String → List Endpoint → Option Endpoint
find_endpoint verb path [] = none
find_endpoint verb path (e ∷ es) =
    if same_verb (route e).0 verb && (route e).1 == path then some e else find_endpoint verb path es

-- Every endpoint is reached by its own verb and path: no earlier entry of the table hides it.
pub find_endpoint-route : (e : Endpoint) → find_endpoint (route e).0 (route e).1 endpoints ≡ some e
unfolding find_endpoint route
find_endpoint-route root = refl
find_endpoint-route index = refl
find_endpoint-route health = refl
find_endpoint-route status = refl
find_endpoint-route metrics = refl
find_endpoint-route positions = refl
find_endpoint-route risk = refl
find_endpoint-route rebalance = refl
find_endpoint-route start = refl
find_endpoint-route stop = refl
find_endpoint-route alerts = refl
find_endpoint-route create_pool = refl
find_endpoint-route add_liquidity = refl
find_endpoint-route swap = refl
find_endpoint-route balance = refl

-- A request to a handler, with what gin binds for it.
pub data Request (F : Type 0) : Type 0 where
  to_health to_metrics to_positions to_risk to_rebalance to_start to_stop : Request F
  to_alerts to_balance : Request F
  to_status : Order F → Request F
  to_create_pool : Result CreatePoolRequest → Request F
  to_add_liquidity : Result AddLiquidityRequest → Request F
  to_swap : Result SwapRequest → Request F

abbrev pub endpoint_of : {F : Type 0} → Request F → Endpoint
endpoint_of to_health = health
endpoint_of to_metrics = metrics
endpoint_of to_positions = positions
endpoint_of to_risk = risk
endpoint_of to_rebalance = rebalance
endpoint_of to_start = start
endpoint_of to_stop = stop
endpoint_of to_alerts = alerts
endpoint_of to_balance = balance
endpoint_of (to_status order) = status
endpoint_of (to_create_pool r) = create_pool
endpoint_of (to_add_liquidity r) = add_liquidity
endpoint_of (to_swap r) = swap

module _ {F B W : Type 0} ⦃f : Float F⦄ ⦃b : BigFloat F B⦄ (ch : Chain W) (fuel : ℕ) where
  unfoldable pub serve : Request F → Act (Server F B W) (Response F)
  serve to_health = handle_health ch
  serve to_metrics = handle_metrics ch
  serve to_positions = handle_positions ch
  serve to_risk = handle_risk ch
  serve to_rebalance = handle_rebalance ch
  serve to_start = handle_start ch
  serve to_stop = handle_stop ch
  serve to_alerts = handle_alerts ch
  serve to_balance = handle_balance ch
  serve (to_status order) = handle_status ch order
  serve (to_create_pool r) = handle_create_pool ch fuel r
  serve (to_add_liquidity r) = handle_add_liquidity ch fuel r
  serve (to_swap r) = handle_swap ch fuel r
