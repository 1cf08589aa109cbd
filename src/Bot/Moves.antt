-- ===== src/Bot/Moves.antt =====
-- main.go: every step of the bot: the events of Bot/Machine, a request to start, and the background
-- rebalances of handleRebalance in pkg/api/service.go.
use stablecoin_mmm.Base.{ℕ, List, [], ◌∷◌}
use stablecoin_mmm.Base.Float.{Float, BigFloat}
use stablecoin_mmm.Chain.{Chain}
use stablecoin_mmm.Uniswap.{PriceOracle}
use stablecoin_mmm.Api.Server.{Server}
use stablecoin_mmm.Api.Handlers.{handle_start}
use stablecoin_mmm.Bot.Core.{run_pending}
use stablecoin_mmm.Bot.Machine.{Event, step}

-- Every step: an event as above, a request to start, or a background rebalance that gets its turn.
pub data Move : Type 0 where
  event : Event → Move
  start_request background : Move

module _ {F B W : Type 0} ⦃f : Float F⦄ ⦃b : BigFloat F B⦄ (ch : Chain W) (fuel : ℕ)
    (oracle : PriceOracle F) where
  abbrev pub move : Move → Server F B W → Server F B W
  move (event e) s = step ch fuel oracle e s
  move start_request s = (handle_start ch s).1
  move background s = run_pending ch fuel s

  abbrev pub moves : List Move → Server F B W → Server F B W
  moves [] s = s
  moves (m ∷ ms) s = moves ms (move m s)
