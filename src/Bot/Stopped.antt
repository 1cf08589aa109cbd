-- ===== src/Bot/Stopped.antt =====
-- A stopped rebalancer of main.go, and the circuit breaker behind it.
use stablecoin_mmm.Base.{ℕ, ◌≡◌, refl, false, List}
use stablecoin_mmm.Base.Int.{ℤ}
use stablecoin_mmm.Base.Float.{Float, BigFloat}
use stablecoin_mmm.Chain.{Chain}
use stablecoin_mmm.Risk.{RiskEngine}
use stablecoin_mmm.Monitor.{update_prices, update_status, update_last_rebalance}
use stablecoin_mmm.Rebalancer.Core as R
use stablecoin_mmm.Rebalancer.Guard.{execute_rebalance_stopped}
use stablecoin_mmm.Uniswap.{PriceOracle}
use stablecoin_mmm.Api.Server.{Server}
use stablecoin_mmm.Api.Handlers.{update_rebalancer}
use stablecoin_mmm.Bot.Core.{run_rebalance}
use stablecoin_mmm.Bot.Inputs.{Input, inputs, IsClosed, quiet-closed, starts_in}

module _ {F B W : Type 0} ⦃f : Float F⦄ ⦃b : BigFloat F B⦄ (ch : Chain W) (fuel : ℕ)
    (oracle : PriceOracle F) where
  -- The rebalancer is stopped, with that engine and those times.
  abbrev Rests : RiskEngine F → ℤ → ℤ → Server F B W → Type 0
  Rests k rebalanced stabilized s =
      let r = s.state.rebalancer in
      (r.is_running ≡ false)
      × (s.state.risk ≡ k)
      × (r.last_rebalance ≡ rebalanced)
      × (r.last_stabilize ≡ stabilized)

  Rests-closed : (k : RiskEngine F) (m n : ℤ) → IsClosed {B = B} ch fuel oracle (Rests k m n)
  unfolding update_rebalancer R.update_prices update_prices update_status update_last_rebalance
      run_rebalance
  Rests-closed k m n = record {
    read = λ s h. h;
    served = λ r s w e h. h;
    priced = λ s w i e h. h;
    rebalanced = λ s h. rw (execute_rebalance_stopped ch fuel s.state h.0) h;
    noted = λ s t h. h;
    stopped = λ s h. (refl, h.1, h.2, h.3);
    halted = λ s h. (refl, h.1, h.2, h.3);
    counted = λ s n h. h;
  }

  -- Through any ticks, background rebalances and requests of every kind but a start, in any order, a
  -- stopped rebalancer stays stopped, neither rebalances nor stabilizes, and leaves the risk engine as
  -- it was: a breaker that is active then stays active for as long, whatever its duration.
  pub stopped_stays :
      (is : List (Input F)) (s : Server F B W)
      → starts_in is ≡ false
      → s.state.rebalancer.is_running ≡ false
      → let t = inputs ch fuel oracle is s in
        (t.state.rebalancer.is_running ≡ false)
        × (t.state.risk ≡ s.state.risk)
        × (t.state.rebalancer.last_rebalance ≡ s.state.rebalancer.last_rebalance)
        × (t.state.rebalancer.last_stabilize ≡ s.state.rebalancer.last_stabilize)
  stopped_stays is s quiet h =
      let r = s.state.rebalancer in
      quiet-closed ch fuel oracle (Rests s.state.risk r.last_rebalance r.last_stabilize)
        (Rests-closed s.state.risk r.last_rebalance r.last_stabilize) is s quiet
        (h, refl, refl, refl)
