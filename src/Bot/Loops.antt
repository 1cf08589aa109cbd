-- ===== src/Bot/Loops.antt =====
-- main.go: the program. `main` builds and starts the bot; the three loops run until they see that the
-- context is cancelled, which a signal does; the API goes on serving.
use stablecoin_mmm.Base.{
  ℕ, String, Bool, true, false, List, [], ◌∷◌, Option, some, none, if◌then◌else◌,
}
use stablecoin_mmm.Base.Float.{Float, BigFloat}
use stablecoin_mmm.Base.Act.{Act, Outcome, ok, err, panicked, waiting}
use stablecoin_mmm.Config.{Config, load}
use stablecoin_mmm.Chain.{Chain}
use stablecoin_mmm.Bot.Core.{Bot, new_bot, start_bot, stop_bot}
use stablecoin_mmm.Bot.Machine.{
  Event, price_tick, rebalance_tick, monitor_tick, stop_request, rebalance_request,
}
use stablecoin_mmm.Bot.Moves.{Move, event, start_request, background, move}

pub data Loop : Type 0 where
  price_update_loop rebalance_loop monitor_loop : Loop

abbrev pub same_loop : Loop → Loop → Bool
same_loop price_update_loop price_update_loop = true
same_loop price_update_loop rebalance_loop = false
same_loop price_update_loop monitor_loop = false
same_loop rebalance_loop price_update_loop = false
same_loop rebalance_loop rebalance_loop = true
same_loop rebalance_loop monitor_loop = false
same_loop monitor_loop price_update_loop = false
same_loop monitor_loop rebalance_loop = false
same_loop monitor_loop monitor_loop = true

-- The bot, and which loops have not returned.
pub record Program (F B W : Type 0) : Type 0 where
  pub bot : Bot F B W
  pub looping : Loop → Bool

-- What the API brings about.
pub data Control : Type 0 where
  starts stops rebalances in_background : Control

abbrev pub move_of : Control → Move
move_of starts = start_request
move_of stops = event stop_request
move_of rebalances = event rebalance_request
move_of in_background = background

-- A round of a loop takes the case of its ticker or that of the context. The signal ends the wait for
-- it; the API's requests come at any time.
pub data Turn : Type 0 where
  ticker ctx_done : Loop → Turn
  signal : Turn
  control : Control → Turn

abbrev pub tick_of : Loop → Event
tick_of price_update_loop = price_tick
tick_of rebalance_loop = rebalance_tick
tick_of monitor_loop = monitor_tick

module _ {F B W : Type 0} ⦃f : Float F⦄ ⦃b : BigFloat F B⦄ (ch : Chain W) where
  abbrev pub program_of : Option (Bot F B W) → Option (Program F B W)
  program_of none = none
  program_of (some bot) = some (record { bot = start_bot ch bot; looping = λ l. true })

  -- `handleStartBot`; a bot that cannot be built ends the process.
  unfoldable pub handle_start_bot : Config F → W → Option (Program F B W)
  handle_start_bot cfg w = program_of (new_bot ch cfg w)

  abbrev pub loaded : Outcome (Config F) × W → Option (Program F B W)
  loaded (ok cfg, w) = handle_start_bot cfg w
  loaded (err e, w) = none
  loaded (panicked, w) = none
  loaded (waiting, w) = none

  unfoldable pub main :
      {Bytes : Type 0}
      → (String → Act W Bytes)
      → (Bytes → Act W (Config F))
      → W
      → Option (Program F B W)
  main read_file unmarshal w = loaded (load read_file unmarshal "config.yaml" w)

  module _ (fuel : ℕ) where
    abbrev pub on_server : Move → Bot F B W → Bot F B W
    on_server m bot = record bot { server = move ch fuel bot.oracle m bot.server }

    unfoldable pub turn : Turn → Program F B W → Program F B W
    turn (ticker l) p =
        if p.looping l then record p { bot = on_server (event (tick_of l)) p.bot } else p
    turn (ctx_done l) p =
        if p.bot.cancelled
        then record p { looping = λ l'. if same_loop l l' then false else p.looping l' }
        else p
    turn signal p = record p { bot = stop_bot ch p.bot }
    turn (control c) p = record p { bot = on_server (move_of c) p.bot }

    unfoldable pub turns : List Turn → Program F B W → Program F B W
    turns [] p = p
    turns (t ∷ ts) p = turns ts (turn t p)
