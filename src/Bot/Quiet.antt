-- ===== src/Bot/Quiet.antt =====
-- main.go: behind a signal the rebalancer is stopped, whatever else goes on.
use stablecoin_mmm.Base.{
  ℕ, Bool, Bool-cases, true, false, List, [], ◌∷◌, ◌≡◌, refl, inl, inr, ◌==◌, ◌&&◌, arith,
}
use stablecoin_mmm.Base.Float.{Float, BigFloat}
use stablecoin_mmm.Chain.{Chain}
use stablecoin_mmm.Rebalancer.Core.{stop}
use stablecoin_mmm.Rebalancer.Guard.{execute_rebalance_stopped}
use stablecoin_mmm.Api.Server.{Server}
use stablecoin_mmm.Api.Handlers.{update_rebalancer}
use stablecoin_mmm.Bot.Core.{stop_bot, run_pending, run_rebalance}
use stablecoin_mmm.Bot.Machine.{stays_stopped, stop_request, rebalance_request}
use stablecoin_mmm.Bot.Loops.{
  Loop, Program, Turn, ticker, ctx_done, signal, control, tick_of, starts, stops, rebalances,
  in_background, turn, turns,
}

-- Every turn but a start by the API.
abbrev pub is_quiet : Turn → Bool
is_quiet (control starts) = false
is_quiet (control stops) = true
is_quiet (control rebalances) = true
is_quiet (control in_background) = true
is_quiet (ticker l) = true
is_quiet (ctx_done l) = true
is_quiet signal = true

abbrev pub all_quiet : List Turn → Bool
all_quiet [] = true
all_quiet (t ∷ ts) = is_quiet t && all_quiet ts

module _ {F B W : Type 0} ⦃f : Float F⦄ ⦃b : BigFloat F B⦄ (ch : Chain W) (fuel : ℕ) where
  background_stopped :
      (s : Server F B W)
      → s.state.rebalancer.is_running ≡ false
      → (run_pending ch fuel s).state.rebalancer.is_running ≡ false
  unfolding run_pending run_rebalance
  background_stopped s h = elim (Bool-cases (s.pending == 0)) [
    | inl e ↦ rw e h
    | inr e ↦ rw (e, execute_rebalance_stopped ch fuel s.state h) h
  ]

  tick_stopped :
      (l : Loop) (p : Program F B W)
      → p.bot.server.state.rebalancer.is_running ≡ false
      → (turn ch fuel (ticker l) p).bot.server.state.rebalancer.is_running ≡ false
  unfolding turn
  tick_stopped l p h = elim (Bool-cases (p.looping l)) [
    | inl e ↦ rw e ((stays_stopped ch fuel p.bot.oracle (tick_of l) p.bot.server h).0)
    | inr e ↦ rw e h
  ]

  quiet_turn :
      (t : Turn) (p : Program F B W)
      → is_quiet t ≡ true
      → p.bot.server.state.rebalancer.is_running ≡ false
      → (turn ch fuel t p).bot.server.state.rebalancer.is_running ≡ false
  unfolding turn stop_bot update_rebalancer stop
  quiet_turn (ticker l) p q h = tick_stopped l p h
  quiet_turn (ctx_done l) p q h = ground arith
  quiet_turn signal p q h = refl
  quiet_turn (control starts) p q h = absurd (ground arith)
  quiet_turn (control stops) p q h =
      (stays_stopped ch fuel p.bot.oracle stop_request p.bot.server h).0
  quiet_turn (control rebalances) p q h =
      (stays_stopped ch fuel p.bot.oracle rebalance_request p.bot.server h).0
  quiet_turn (control in_background) p q h = background_stopped p.bot.server h

  quiet_turns :
      (ts : List Turn) (p : Program F B W)
      → all_quiet ts ≡ true
      → p.bot.server.state.rebalancer.is_running ≡ false
      → (turns ch fuel ts p).bot.server.state.rebalancer.is_running ≡ false
  unfolding turns
  quiet_turns [] p q h = h
  quiet_turns (t ∷ ts) p q h =
      quiet_turns ts (turn ch fuel t p) (ground arith) (quiet_turn t p (ground arith) h)

  -- Behind a signal the rebalancer does not run, through any turns but a start by the API: the loops
  -- that go on, the requests, and the background rebalances that are still to come.
  pub signal_stops_rebalancer :
      (ts : List Turn) (p : Program F B W)
      → all_quiet ts ≡ true
      → (turns ch fuel (signal ∷ ts) p).bot.server.state.rebalancer.is_running ≡ false
  unfolding turns
  signal_stops_rebalancer ts p q =
      quiet_turns ts (turn ch fuel signal p) q (unfold turn stop_bot update_rebalancer stop in refl)
