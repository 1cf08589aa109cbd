-- ===== src/Bot/Machine.antt =====
-- The bot as a machine whose steps are the ticks of its loops and the requests that control it.
-- The three loops of main.go and the handlers run side by side; a run is one order of their steps.
use stablecoin_mmm.Base.{ℕ, ◌≡◌, refl, ◌∙◌, true, false, List, [], ◌∷◌, arith}
use stablecoin_mmm.Base.Float.{Float, BigFloat}
use stablecoin_mmm.Base.Act.{Outcome, ok, err, panicked, waiting, and_then, caught}
use stablecoin_mmm.Chain.{Chain}
use stablecoin_mmm.Monitor.{update_status}
use stablecoin_mmm.Risk.{is_circuit_breaker_active}
use stablecoin_mmm.Rebalancer.Core.{State, start, stop}
use stablecoin_mmm.Rebalancer.Core as R
use stablecoin_mmm.Rebalancer.Guard.{execute_rebalance_stopped}
use stablecoin_mmm.Uniswap.{PriceOracle, PriceInfo, get_price_info}
use stablecoin_mmm.Api.Server.{Server, on_chain}
use stablecoin_mmm.Api.Handlers.{update_rebalancer, handle_stop, handle_rebalance}
use stablecoin_mmm.Bot.Core.{
  update_prices_tick, execute_rebalance_tick, check_alerts_tick, run_rebalance, with_prices,
}

-- What may happen, a start of the rebalancer apart.
pub data Event : Type 0 where
  price_tick rebalance_tick monitor_tick stop_request rebalance_request : Event

module _ {F B W : Type 0} ⦃f : Float F⦄ ⦃b : BigFloat F B⦄ (ch : Chain W) (fuel : ℕ)
    (oracle : PriceOracle F) where
  abbrev pub step : Event → Server F B W → Server F B W
  step price_tick s = (update_prices_tick ch oracle s).1
  step rebalance_tick s = (execute_rebalance_tick ch fuel s).1
  step monitor_tick s = check_alerts_tick ch s
  step stop_request s = (handle_stop ch s).1
  step rebalance_request s = (handle_rebalance ch s).1

  abbrev pub run : List Event → Server F B W → Server F B W
  run [] s = s
  run (e ∷ es) s = run es (step e s)

  -- A price tick writes the prices alone.
  price_tick_running :
      (m : Outcome (PriceInfo B) × W) (s : Server F B W)
      → let s' =
          (and_then (caught (on_chain (λ _. m) s)) (λ r t. (ok (tt {0}), with_prices ch r t))).1 in
        (s'.state.rebalancer.is_running ≡ s.state.rebalancer.is_running) × (s'.pending ≡ s.pending)
  unfolding and_then caught on_chain update_rebalancer R.update_prices
  price_tick_running (ok i, w) s = (refl, refl)
  price_tick_running (err e, w) s = (refl, refl)
  price_tick_running (panicked, w) s = (refl, refl)
  price_tick_running (waiting, w) s = (refl, refl)

  -- The tick of a stopped rebalancer leaves the whole server as it was.
  pub stopped_tick :
      (s : Server F B W)
      → s.state.rebalancer.is_running ≡ false
      → execute_rebalance_tick ch fuel s ≡ (ok tt, s)
  unfolding execute_rebalance_tick run_rebalance and_then caught
  stopped_tick s h = rw (execute_rebalance_stopped ch fuel s.state h) refl

  pub stays_stopped :
      (e : Event) (s : Server F B W)
      → s.state.rebalancer.is_running ≡ false
      → ((step e s).state.rebalancer.is_running ≡ false) × ((step e s).pending ≡ s.pending)
  unfolding update_prices_tick on_chain check_alerts_tick update_rebalancer stop handle_stop
      handle_rebalance
  stays_stopped price_tick s h =
      let (same, kept) = price_tick_running (get_price_info ch oracle s.state.world) s in
      (same ∙ h, kept)
  stays_stopped rebalance_tick s h = rw (step, stopped_tick s h) (h, refl)
  stays_stopped monitor_tick s h = ground arith
  stays_stopped stop_request s h = (refl, refl)
  stays_stopped rebalance_request s h = rw h (refl, refl)

  -- Until it is started again, a stopped rebalancer stays stopped through any ticks of the loops and
  -- any requests to stop or to rebalance, in any order; and no request to rebalance starts one.
  pub run_stays_stopped :
      (es : List Event) (s : Server F B W)
      → s.state.rebalancer.is_running ≡ false
      → ((run es s).state.rebalancer.is_running ≡ false) × ((run es s).pending ≡ s.pending)
  run_stays_stopped [] s h = (h, refl)
  run_stays_stopped (e ∷ es) s h =
      let (still, kept) = stays_stopped e s h in
      let (stopped, same) = run_stays_stopped es (step e s) still in (stopped, same ∙ kept)

  -- A monitor tick under an active breaker stops the rebalancer and says so in the status; any
  -- rebalance tick behind it leaves the server as the monitor tick left it.
  pub breaker_stops :
      (s : Server F B W)
      → is_circuit_breaker_active s.state.risk ≡ true
      → (execute_rebalance_tick ch fuel (check_alerts_tick ch s) ≡ (ok tt, check_alerts_tick ch s))
        × ((check_alerts_tick ch s).metrics ≡ update_status "circuit_breaker" s.metrics)
        × ((check_alerts_tick ch s).state.risk ≡ s.state.risk)
  breaker_stops s active = (
    stopped_tick (check_alerts_tick ch s)
        (unfold check_alerts_tick update_rebalancer stop in rw active refl),
    unfold check_alerts_tick update_rebalancer stop in rw active refl,
    unfold check_alerts_tick update_rebalancer stop in rw active refl,
  )
